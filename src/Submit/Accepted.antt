-- ===== src/Submit/Accepted.antt =====
-- What an accepted submit has passed: `handle_submit_sm` end to end.
use smpp_server.Prelude.{
  ℕ, ◌≡◌, ◌≢◌, inl, inr, refl, sym, ◌∙◌, ap, true, false, none, some, List, arith,
}
use smpp_server.Prelude.Int.{pos, minus_one, eqz, lez}
use smpp_server.Prelude.Options.{some_inj}
use smpp_server.Gwlib.{Gwlib, Env}
use smpp_server.Session.{TxSession}
use smpp_server.Registry.{Esme, tx}
use smpp_server.Pdu.{CommandStatus, rok, is_ok, SubmitPdu}
use smpp_server.VerifyPdu.{Verified, national_number}
use smpp_server.VerifyPdu.Accepts.{Acceptable, verify_pdu_para_sound}
use smpp_server.VerifyPdu.Keeps.{Keeps, verify_pdu_para-Keeps}
use smpp_server.Route.{Route, rout_pdu}
use smpp_server.Messages.{SubmitMsg}
use smpp_server.Submit.{
  Server, Clock, queue_full, reject, accept, Decision, decide, out_of_hours, throttle, arrived,
  handle_submit_sm, Submitted,
}
use smpp_server.Submit.Decided.{Passed, decide_cases}
use smpp_server.Submit.Accounts.{submit_tx_cases, conclude_cases}

is_ok_sound : (status : CommandStatus) → is_ok status ≡ true → status ≡ rok
is_ok_sound rok h = refl
is_ok_sound status h = cc

pair_path {ℓ κ} :
    {A : Type ℓ} {B : Type κ} {a a' : A} {b b' : B} → a ≡ a' → b ≡ b' → Path (A × B) (a, b) (a', b')
pair_path p q = cc

module _ ⦃gw : Gwlib⦄ where
  open gw use {Octstr, octstr_format_id, pattern_list_matches_ip}

  -- The throttle touches the message count and its time alone.
  throttle-fields :
      (clock : Clock) (e : Esme)
      → ((throttle clock e).system_id ≡ e.system_id)
        × ((throttle clock e).allowed_prefix ≡ e.allowed_prefix)
        × ((throttle clock e).valid_time_from ≡ e.valid_time_from)
        × ((throttle clock e).valid_time_to ≡ e.valid_time_to)
  unfolding throttle
  throttle-fields clock e = (ground arith, ground arith, ground arith, ground arith)

  -- The server runs, its queues have room, the hour is within the account's hours, the submit is
  -- acceptable from the account, and it has a route, whose strings the forwarded message carries.
  pub record Accepted (sv : Server) (env : Env) (e : Esme) (s : TxSession) (pdu : SubmitPdu)
      (r : Submitted) : Type 0 where
    pub source : Octstr
    pub dest : Octstr
    pub route : Route
    pub running : sv.running ≡ true
    pub room : queue_full sv ≡ false
    pub after_opening : lez (pos env.hour) e.valid_time_from ≡ false
    pub before_closing : lez e.valid_time_to (pos env.hour) ≡ false
    pub acceptable : Acceptable env e pdu source dest
    pub routes :
        rout_pdu sv.series sv.translations sv.smsc_list
          (some (national_number dest))
          (some e.system_id)
        ≡ some route
    pub routable : eqz route.code minus_one ≡ false
    pub forwarded :
        eqz sv.dndcheck_flag (pos 0) ≡ true
        → (m : SubmitMsg) × (r.to_smsc ≡ some m)
          × (m.account_name ≡ e.system_id)
          × (m.account_msg_id ≡ r.message_id)
          × (m.source_addr ≡ source)
          × (m.destination_addr ≡ national_number dest)
          × (m.pdu ≡ pdu)
          × (route.preferred_smsc ≡ some m.preferred_smsc)
          × (route.allowed_smsc ≡ some m.allowed_smsc)
    pub held : eqz sv.dndcheck_flag (pos 0) ≡ false → r.to_smsc ≡ none

  module _ (sv : Server) (env : Env) (clock : Clock) (id : Octstr) (e : Esme) (s : TxSession)
      (pdu : SubmitPdu) where
    decide_accepted :
        (d : Decision)
        → decide sv env clock id e s pdu ≡ some d
        → d.status ≡ rok
        → Passed sv env clock id e s pdu d
    unfolding reject
    decide_accepted d h ok = elim (decide_cases sv env clock id e s pdu d h) [
      | inl (status, e', s', bad, k, kept, q) ↦
          let a : d.status ≡ status = ap (λ (x : Decision). x.status) q in
          let b : status ≡ rok = sym a ∙ ok in let c = rw b at bad in cc
      | inr p ↦ p
    ]

  Acceptable-throttle :
      (env : Env) (clock : Clock) (e : Esme) (pdu : SubmitPdu) (source dest : Octstr)
      → Acceptable env (throttle clock e) pdu source dest
      → Acceptable env e pdu source dest
  Acceptable-throttle env clock e pdu source dest a =
      let f = throttle-fields clock e in
      record {
        source_given = a.source_given;
        dest_given = a.dest_given;
        source_short = a.source_short;
        dest_short = a.dest_short;
        source_valid = a.source_valid;
        dest_valid = a.dest_valid;
        sender_known = elim a.sender_known [
          | inl p ↦ inl (ap (λ x. pattern_list_matches_ip x source) (sym (f.1)) ∙ p)
          | inr p ↦ inr (ap (λ x. env.check_sender_api x source) (sym (f.0)) ∙ p)
        ];
        dest_long = a.dest_long;
        priority = a.priority;
        no_replace = a.no_replace;
        udh = a.udh;
      }

  -- The hours of the account are those that the checks of the parameters see.
  hours-Keeps :
      (env : Env) (clock : Clock) (e : Esme) (v : Verified)
      → Keeps (throttle clock e) v.esme
      → out_of_hours env v.esme ≡ false
      → (lez (pos env.hour) e.valid_time_from ≡ false)
        × (lez e.valid_time_to (pos env.hour) ≡ false)
  unfolding out_of_hours
  hours-Keeps env clock e v k h =
      let f = throttle-fields clock e in
      let from = k.1 ∙ f.2 in
      let to = k.2 ∙ f.3 in
      (
        ap (λ z. lez (pos env.hour) z) (sym from) ∙ ground arith,
        ap (λ z. lez z (pos env.hour)) (sym to) ∙ ground arith,
      )

  module _ (sv : Server) (env : Env) (clock : Clock) (id : Octstr) (e : Esme) (s : TxSession)
      (pdu : SubmitPdu) (d_source d_dest : Octstr) (preferred allowed : List ℕ) (e' : Esme) where
    -- What the accepted message carries, and when it goes out.
    accept-forward :
        let d = accept sv clock id e' s pdu d_dest d_source preferred allowed in
        (eqz sv.dndcheck_flag (pos 0) ≡ true
          → (m : SubmitMsg) × (d.forward ≡ some m)
            × (m.account_name ≡ e'.system_id)
            × (m.account_msg_id ≡ id)
            × (m.source_addr ≡ d_source)
            × (m.destination_addr ≡ d_dest)
            × (m.pdu ≡ pdu)
            × (m.preferred_smsc ≡ preferred)
            × (m.allowed_smsc ≡ allowed))
        × (eqz sv.dndcheck_flag (pos 0) ≡ false → d.forward ≡ none)
    unfolding accept
    accept-forward =
        (λ on. rw on (_, refl, refl, refl, refl, refl, refl, refl, refl), λ off. rw off refl)

  -- A submit that is answered with SMPP_ESME_ROK came to a running server whose queues have room,
  -- within the account's hours; it is acceptable from the account; and it has a route. It is forwarded
  -- to the SMSC process, under the message id of the response, with its source, its destination
  -- without the prefix, and the route's two strings, exactly if dndcheck_flag is 0.
  pub handle_submit_sm-Accepted :
      (sv : Server) (env : Env) (clock : Clock) (e : Esme) (s : TxSession) (mode : ℕ)
      (pdu : SubmitPdu) (r : Submitted)
      → handle_submit_sm sv env clock e (tx s) mode pdu ≡ some r
      → r.command_status ≡ rok
      → Accepted sv env e s pdu r
  unfolding handle_submit_sm arrived queue_full
  handle_submit_sm-Accepted sv env clock e s mode pdu r h ok =
      let (d, dec, con) = submit_tx_cases sv env clock e s mode pdu r h in
      let sv' = arrived sv clock in
      let id = octstr_format_id s.msg_received clock.timestamp sv'.counter in
      let (row, f, g, st, mid, ses, fwd, db) = conclude_cases sv' clock id mode pdu d r con in
      let e' = throttle clock e in
      let p = decide_accepted sv' env clock id e' s pdu d dec (sym st ∙ ok) in
      let v = p.verified in
      let keeps = verify_pdu_para-Keeps env e' pdu v p.verifies in
      let (src, dst, acc, vs, vd) =
        verify_pdu_para_sound env e' pdu v p.verifies (is_ok_sound v.reason p.reason) in
      let es : p.source ≡ src = some_inj (sym p.source_addr ∙ vs) in
      let ed : p.dest ≡ national_number dst = some_inj (sym p.dest_addr ∙ vd) in
      let name = keeps.0 ∙ (throttle-fields clock e).0 in
      let hours = hours-Keeps env clock e v keeps p.in_hours in
      let fwd' = fwd ∙ ap (λ (x : Decision). x.forward) p.accepted in
      let a =
        accept-forward sv' env clock id e p.session pdu p.source p.dest p.preferred p.allowed
          v.esme in
      record {
        source = src;
        dest = dst;
        route = p.route;
        running = p.running;
        room = p.room;
        after_opening = hours.0;
        before_closing = hours.1;
        acceptable = Acceptable-throttle env clock e pdu src dst acc;
        routes =
            sym (
              ap
                (λ (x : Octstr × Octstr).
                  rout_pdu sv.series sv.translations sv.smsc_list (some x.0) (some x.1))
                (pair_path ed name))
            ∙ p.routes;
        routable = p.routable;
        forwarded = λ on.
            let (m, me, ma, mi, ms, md, mp, mpr, mal) = a.0 on in
            (
              m,
              fwd' ∙ me,
              ma ∙ name,
              mi ∙ sym mid,
              ms ∙ es,
              md ∙ ed,
              mp,
              p.preferred_set ∙ ap some (sym mpr),
              p.allowed_set ∙ ap some (sym mal),
            );
        held = λ off. fwd' ∙ a.1 off;
      }

  -- An account whose configuration names no closing hour, so that valid_time_to is -1, gets no
  -- submit accepted.
  pub handle_submit_sm-no_hours :
      (sv : Server) (env : Env) (clock : Clock) (e : Esme) (s : TxSession) (mode : ℕ)
      (pdu : SubmitPdu) (r : Submitted)
      → e.valid_time_to ≡ minus_one
      → handle_submit_sm sv env clock e (tx s) mode pdu ≡ some r
      → r.command_status ≢ rok
  handle_submit_sm-no_hours sv env clock e s mode pdu r unset h ok =
      let a = handle_submit_sm-Accepted sv env clock e s mode pdu r h ok in
      let c = ap (λ z. lez z (pos env.hour)) unset in let d = sym c ∙ a.before_closing in cc
