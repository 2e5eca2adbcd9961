-- ===== src/Client/Request/Fits.antt =====
-- The submits that `rout_pdu` of smpp-esme routes, in `handle_request` of smpp-smsc.
use smpp_server.Prelude.{
  ℕ, suc, ◌<◌, ◌≤◌, ◌≡◌, sym, ◌∙◌, ap, true, false, some, List, [], ◌∷◌, map, All, arith, length,
}
use mathlib.Core.Path.{subst}
use smpp_server.Prelude.Int.{pos}
use smpp_server.Gwlib.{Gwlib}
use smpp_server.Ids.{has_id}
use smpp_server.Config.{Client, find_username}
use smpp_server.Smscs.{SmscConn}
use smpp_server.Route.{SeriesConf, Route, number_type, rout_pdu}
use smpp_server.Route.Candidates.{preferred_count, Candidate-lt}
use smpp_server.Route.Partition.{Partitioned, rout_pdu-Routed}
use smpp_server.Client.Calls.{Calls}
use smpp_server.Client.Msg.{Msg}
use smpp_server.Client.Rout.{Routed}
use smpp_server.Client.Rout.Idle.{conns}
use smpp_server.Client.Rout.Outcome.{Outcome}
use smpp_server.Client.Rout.Ends.{not_nil}
use smpp_server.Client.Request.{Submit, submit, Server, handle_request}
use smpp_server.Client.Request.Taken.{Carries, handle_request-Outcome}

has_id-All : (P : ℕ → Type 0) (is : List ℕ) → ((i : ℕ) → has_id is i ≡ true → P i) → All P is
unfolding has_id
has_id-All P [] h = tt
has_id-All P (i ∷ is) h = (h i (ground arith), has_id-All P is λ j k. h j (ground arith))

module _ ⦃gw : Gwlib⦄ where
  open gw use {Octstr}

  -- All indices of a partition are below the number of SMSCs.
  Partitioned-below :
      (type : Octstr) (smscs : List SmscConn) (p a : List ℕ)
      → Partitioned type smscs p a
      → All (λ i. i < length smscs) p × All (λ i. i < length smscs) a
  Partitioned-below type smscs p a h = (
    has_id-All (λ i. i < length smscs) p
        λ i k. Candidate-lt type smscs i ((h i).0.0 (ground arith)),
    has_id-All (λ i. i < length smscs) a
        λ i k. Candidate-lt type smscs i ((h i).0.0 (ground arith)),
  )

  -- The indices that `rout_pdu` writes into its two strings are below the number of SMSCs.
  rout_pdu-below :
      (conf : SeriesConf) (trans : List Client) (smscs : List SmscConn) (dest username : Octstr)
      (t : Client) (r : Route) (p a : List ℕ)
      → find_username trans username ≡ some t
      → length smscs ≤ 128
      → preferred_count t ≤ 254
      → rout_pdu conf trans smscs (some dest) (some username) ≡ some r
      → r.preferred_smsc ≡ some p
      → r.allowed_smsc ≡ some a
      → All (λ i. i < length smscs) p × All (λ i. i < length smscs) a
  rout_pdu-below conf trans smscs dest username t r p a f n m run hp ha =
      let (r2, run2, (p2, a2, hp2, ha2, part, code)) =
        rout_pdu-Routed conf trans smscs dest username t f n m in
      let e : r2 ≡ r = cc in
      let ep : p2 ≡ p = cc in
      let ea : a2 ≡ a = cc in
      let below = Partitioned-below (number_type conf dest) smscs p2 a2 part in
      (
        subst (All (λ i. i < length smscs)) ep below.0,
        subst (All (λ i. i < length smscs)) ea below.1,
      )

  -- With at most 128 SMSCs and 254 preferred names, the two strings that the routing of smpp-esme
  -- gives for a known account fit a smpp-smsc with as many connections as smpp-esme lists SMSCs:
  -- the submit that carries them, with a PDU, with an index allowed at least and fewer in each
  -- string than its array holds, becomes one new message with its names and its PDU, and that is
  -- routed among the connections that the indices number, in their order, if smpp-smsc runs without
  -- the check of numbers; nothing else of the process changes.
  pub rout_pdu-handle_request :
      (conf : SeriesConf) (trans : List Client) (smscs : List SmscConn) (dest username : Octstr)
      (t : Client) (r : Route) (c : Calls) (fuel : ℕ) (s : Submit) (v : Server) (os : Octstr)
      (b : ℕ) (bs : List ℕ)
      → find_username trans username ≡ some t
      → length smscs ≤ 128
      → preferred_count t ≤ 254
      → rout_pdu conf trans smscs (some dest) (some username) ≡ some r
      → r.preferred_smsc ≡ some s.preferred_smsc
      → r.allowed_smsc ≡ some s.allowed_smsc
      → length v.smscs ≡ length smscs
      → v.running ≡ true
      → v.dndcheck_flag ≡ false
      → s.pdu ≡ some os
      → s.allowed_smsc ≡ b ∷ bs
      → length s.preferred_smsc < v.max_smsc
      → length s.allowed_smsc < v.max_smsc
      → (m : Msg) × (x : Routed) × (handle_request c (suc fuel) (submit s) v
          ≡ some (record v { smscs = x.smscs; outgoing = x.outgoing }))
        × Carries s os m
        × Outcome c false m
            (conns v.smscs)
            v.outgoing
            (map pos s.preferred_smsc)
            (pos b ∷ map pos bs)
            x
  rout_pdu-handle_request conf trans smscs dest username t r c fuel s v os b bs f n m run hp ha same
        running dnd pdu allowed size1 size2 =
      let below =
        rout_pdu-below conf trans smscs dest username t r s.preferred_smsc (b ∷ bs) f n m run hp
          (ha ∙ ap some allowed) in
      let h =
        subst (λ k. All (λ i. i < k) s.preferred_smsc × All (λ i. i < k) (b ∷ bs)) (sym same)
          below in
      let h1 = subst (All (λ i. i < length v.smscs)) (sym allowed) h.1 in
      subst
        (λ (as_ : List ℕ).
          (m : Msg) × (x : Routed) × (handle_request c (suc fuel) (submit s) v
            ≡ some (record v { smscs = x.smscs; outgoing = x.outgoing }))
          × Carries s os m
          × Outcome c false m (conns v.smscs) v.outgoing (map pos s.preferred_smsc) (map pos as_) x)
        allowed
        (handle_request-Outcome c fuel s v os running dnd pdu size1 size2 h.0 h1
          (λ e. not_nil (sym allowed ∙ e)))
