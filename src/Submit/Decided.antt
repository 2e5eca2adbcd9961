-- ===== src/Submit/Decided.antt =====
-- The two ways in which a submit is decided: it is rejected, or it passes every check of
-- `handle_submit_sm` in turn.
use smpp_server.Prelude.{
  ℕ, ◌≡◌, ◌⊎◌, inl, inr, refl, true, false, some, List, arith, Bool-cases, Option-cases,
}
use smpp_server.Prelude.Int.{pos, minus_one, eqz}
use smpp_server.Gwlib.{Gwlib, Env}
use smpp_server.Session.{
  TxSession, esme_binded, esme_smsc_unconnected, esme_unconnected, esme_disconnect,
  esme_send_unbind,
}
use smpp_server.Registry.{Esme}
use smpp_server.Pdu.{
  CommandStatus, is_ok, SubmitPdu, rmsgqful, rcancelfail, rsubmitfail, server_status,
}
use smpp_server.VerifyPdu.{Verified, verify_pdu_para}
use smpp_server.VerifyPdu.Keeps.{Keeps, verify_pdu_para-Keeps}
use smpp_server.Route.{Route, rout_pdu}
use smpp_server.Submit.{
  Server, Clock, queue_full, count_submit, limit_submits, Decision, reject, accept, after_route,
  route_submit, after_verify, check_submit, decide, out_of_hours,
}

module _ ⦃gw : Gwlib⦄ where
  open gw use {Octstr}

  -- The limits let the session go on as it was, or with one more unconnected submit.
  abbrev pub Counting : TxSession → TxSession → Type 0
  Counting s s' = (s' ≡ s) ⊎ (s' ≡ count_submit s)

  pub limit_submits-Counting :
      (e : Esme) (s s' : TxSession) → limit_submits e s ≡ some s' → Counting s s'
  unfolding limit_submits
  limit_submits-Counting e s s' h =
      elim s.status as (λ st. s.status ≡ st → Counting s s') [
        | esme_smsc_unconnected ↦ λ q. ground arith
        | esme_binded ↦ λ q. ground arith
        | esme_unconnected ↦ λ q. ground arith
        | esme_disconnect ↦ λ q. ground arith
        | esme_send_unbind ↦ λ q. ground arith
      ]
        refl

  module _ (sv : Server) (env : Env) (clock : Clock) (id : Octstr) (e : Esme) (s : TxSession)
      (pdu : SubmitPdu) where
    abbrev pub Rejected : Decision → Type 0
    Rejected d =
        (status : CommandStatus) × (e' : Esme) × (s' : TxSession) × (is_ok status ≡ false)
        × Counting s s'
        × Keeps e e'
        × (d ≡ reject status e' s')

    -- The message has a route with these strings, and is accepted on the session as it then is.
    pub record Passed (d : Decision) : Type 0 where
      pub session : TxSession
      pub verified : Verified
      pub dest : Octstr
      pub source : Octstr
      pub route : Route
      pub preferred : List ℕ
      pub allowed : List ℕ
      pub running : sv.running ≡ true
      pub room : queue_full sv ≡ false
      pub below_limits : limit_submits e s ≡ some session
      pub verifies : verify_pdu_para env e pdu ≡ some verified
      pub reason : is_ok verified.reason ≡ true
      pub in_hours : out_of_hours env verified.esme ≡ false
      pub dest_addr : verified.dest_addr ≡ some dest
      pub source_addr : verified.source_addr ≡ some source
      pub routes :
          rout_pdu sv.series sv.translations sv.smsc_list (some dest) (some verified.esme.system_id)
          ≡ some route
      pub routable : eqz route.code minus_one ≡ false
      pub preferred_set : route.preferred_smsc ≡ some preferred
      pub allowed_set : route.allowed_smsc ≡ some allowed
      pub accepted : d ≡ accept sv clock id verified.esme session pdu dest source preferred allowed

    Keeps-refl : Keeps e e
    Keeps-refl = (refl, refl, refl, refl, refl)

    after_route_cases :
        (e' : Esme) (s' : TxSession) (dest source : Octstr) (r : Route) (d : Decision)
        → after_route sv clock id e' s' pdu dest source r ≡ some d
        → (d ≡ reject rsubmitfail e' s')
          ⊎ ((eqz r.code minus_one ≡ false)
              × (p : List ℕ) × (a : List ℕ) × (r.preferred_smsc ≡ some p)
              × (r.allowed_smsc ≡ some a)
              × (d ≡ accept sv clock id e' s' pdu dest source p a))
    unfolding after_route
    after_route_cases e' s' dest source r d h = elim (Bool-cases (eqz r.code minus_one)) [
      | inl z ↦ inl (ground arith)
      | inr z ↦ elim (Option-cases r.preferred_smsc) [
        | inl n ↦ ground arith
        | inr (p, pe) ↦ elim (Option-cases r.allowed_smsc) [
          | inl n ↦ ground arith
          | inr (a, ae) ↦ inr (z, p, a, pe, ae, ground arith)
        ]
      ]
    ]

    route_submit_cases :
        (s' : TxSession) (v : Verified) (d : Decision)
        → route_submit sv clock id v.esme s' pdu v ≡ some d
        → (dest : Octstr) × (source : Octstr) × (r : Route) × (v.dest_addr ≡ some dest)
          × (v.source_addr ≡ some source)
          × (rout_pdu sv.series sv.translations sv.smsc_list (some dest) (some v.esme.system_id)
              ≡ some r)
          × (after_route sv clock id v.esme s' pdu dest source r ≡ some d)
    unfolding route_submit
    route_submit_cases s' v d h = elim (Option-cases v.dest_addr) [
      | inl n ↦ ground arith
      | inr (dest, de) ↦ elim (Option-cases v.source_addr) [
        | inl n ↦ ground arith
        | inr (source, se) ↦
            elim (Option-cases (
              rout_pdu sv.series sv.translations sv.smsc_list (some dest)
                (some v.esme.system_id))) [
                  | inl n ↦ ground arith
                  | inr (r, re) ↦ (dest, source, r, de, se, re, ground arith)
                ]
      ]
    ]

    after_verify_cases :
        (s' : TxSession) (v : Verified) (d : Decision)
        → Counting s s'
        → Keeps e v.esme
        → after_verify sv env clock id s' pdu v ≡ some d
        → Rejected d
          ⊎ ((out_of_hours env v.esme ≡ false)
              × (is_ok v.reason ≡ true)
              × (route_submit sv clock id v.esme s' pdu v ≡ some d))
    unfolding after_verify
    after_verify_cases s' v d k w h = elim (Bool-cases (out_of_hours env v.esme)) [
      | inl o ↦ inl (rcancelfail, v.esme, s', refl, k, w, ground arith)
      | inr o ↦ elim (Bool-cases (is_ok v.reason)) [
        | inl ok ↦ inr (o, ok, ground arith)
        | inr no_ ↦ inl (v.reason, v.esme, s', no_, k, w, ground arith)
      ]
    ]

    decide_gates :
        (d : Decision)
        → decide sv env clock id e s pdu ≡ some d
        → Rejected d
          ⊎ ((sv.running ≡ true)
              × (queue_full sv ≡ false)
              × (check_submit sv env clock id e s pdu ≡ some d))
    unfolding decide
    decide_gates d h = elim (Bool-cases sv.running) [
      | inr no_ ↦ inl (server_status 0x407, e, s, refl, inl refl, Keeps-refl, ground arith)
      | inl run ↦ elim (Bool-cases (queue_full sv)) [
        | inl full ↦ inl (server_status 0x409, e, s, refl, inl refl, Keeps-refl, ground arith)
        | inr room ↦ elim (Bool-cases (eqz sv.global_q_limit (pos 1))) [
          | inl full ↦ inl (server_status 0x40A, e, s, refl, inl refl, Keeps-refl, ground arith)
          | inr ok ↦ inr (run, room, ground arith)
        ]
      ]
    ]

    check_submit_cases :
        (d : Decision)
        → check_submit sv env clock id e s pdu ≡ some d
        → Rejected d
          ⊎ ((s' : TxSession) × (v : Verified) × (limit_submits e s ≡ some s')
              × (verify_pdu_para env e pdu ≡ some v)
              × (after_verify sv env clock id s' pdu v ≡ some d))
    unfolding check_submit
    check_submit_cases d h = elim (Option-cases (limit_submits e s)) [
      | inl full ↦ inl (rmsgqful, e, s, refl, inl refl, Keeps-refl, ground arith)
      | inr (s', se) ↦ elim (Option-cases (verify_pdu_para env e pdu)) [
        | inl n ↦ ground arith
        | inr (v, ve) ↦ inr (s', v, se, ve, ground arith)
      ]
    ]

    pub decide_cases :
        (d : Decision) → decide sv env clock id e s pdu ≡ some d → Rejected d ⊎ Passed d
    decide_cases d h = elim (decide_gates d h) [
      | inl no_ ↦ inl no_
      | inr (run, room, c) ↦ elim (check_submit_cases d c) [
        | inl no_ ↦ inl no_
        | inr (s', v, se, ve, c') ↦
            let k = limit_submits-Counting e s s' se in
            let kept = verify_pdu_para-Keeps env e pdu v ve in
            elim (after_verify_cases s' v d k kept c') [
              | inl no_ ↦ inl no_
              | inr (o, ok, c'') ↦
                  let (dest, source, r, de, so, re, ar) = route_submit_cases s' v d c'' in
                  elim (after_route_cases v.esme s' dest source r d ar) [
                    | inl no_ ↦ inl (rsubmitfail, v.esme, s', refl, k, kept, no_)
                    | inr (z, p, a, pe, ae, de') ↦ inr (record {
                      session = s';
                      verified = v;
                      dest = dest;
                      source = source;
                      route = r;
                      preferred = p;
                      allowed = a;
                      running = run;
                      room = room;
                      below_limits = se;
                      verifies = ve;
                      reason = ok;
                      in_hours = o;
                      dest_addr = de;
                      source_addr = so;
                      routes = re;
                      routable = z;
                      preferred_set = pe;
                      allowed_set = ae;
                      accepted = de';
                    })
                  ]
            ]
      ]
    ]
