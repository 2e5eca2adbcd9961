-- ===== src/Dispatch/Shape.antt =====
-- A PDU on a bound session keeps its account's name and session ids.
use smpp_server.Prelude.{
  ℕ, ◌≡◌, refl, ap, some, List, [], ◌∷◌, arith, length, Option-cases, inl, inr,
}
use mathlib.Core.Path.{subst}
use smpp_server.Prelude.Options.{some_inj}
use smpp_server.Gwlib.{Gwlib, Env}
use smpp_server.Session.{RxSession, rx_ids}
use smpp_server.Registry.{Esme, SessionStr, tx, rx}
use smpp_server.Registry.Shape.{SameShape}
use smpp_server.Pdu.{SubmitPdu}
use smpp_server.Submit.{Server, Clock, Submitted, handle_submit_sm}
use smpp_server.Submit.Shape.{put_tx-ids, handle_submit_sm-SameShape}
use smpp_server.Dispatch.{
  Pdu, Reply, Thread, put_rx, put_session, quiet, mode_of, submitted, handle_pdu,
}

module _ ⦃gw : Gwlib⦄ where
  put_rx-ids :
      (s : RxSession) (xs : List RxSession)
      → (rx_ids (put_rx s xs) ≡ rx_ids xs) × (length (put_rx s xs) ≡ length xs)
  unfolding put_rx
  put_rx-ids s [] = (refl, refl)
  put_rx-ids s (x ∷ xs) = let h = put_rx-ids s xs in (ground (arith, h.0), ground (arith, h.1))

  pub put_session-SameShape : (s : SessionStr) (e : Esme) → SameShape e (put_session s e)
  unfolding put_session
  put_session-SameShape (tx s) e =
      let h = put_tx-ids s e.tx_esme in
      record { name = refl; tx_same = h.0; rx_same = refl; tx_length = h.1; rx_length = refl }
  put_session-SameShape (rx s) e =
      let h = put_rx-ids s e.rx_esme in
      record { name = refl; tx_same = refl; rx_same = h.0; tx_length = refl; rx_length = h.1 }

  quiet-SameShape :
      (sv : Server) (e : Esme) (s : SessionStr) (rs : List Reply) (t : Thread)
      → some (quiet sv e s rs) ≡ some t
      → SameShape e t.esme
  unfolding quiet
  quiet-SameShape sv e s rs t h =
      let q : put_session s e ≡ t.esme = ap (λ (x : Thread). x.esme) (some_inj h) in
      subst (SameShape e) q (put_session-SameShape s e)

  submit_any :
      (sv : Server) (env : Env) (clock : Clock) (e : Esme) (s : SessionStr) (n : ℕ) (p : SubmitPdu)
      (r : Submitted)
      → handle_submit_sm sv env clock e s n p ≡ some r
      → SameShape e r.esme
  unfolding handle_submit_sm
  submit_any sv env clock e (tx s) n p r h = handle_submit_sm-SameShape sv env clock e s n p r h
  submit_any sv env clock e (rx s) n p r h = cc

  pub handle_pdu-SameShape :
      (sv : Server) (env : Env) (clock : Clock) (e : Esme) (s : SessionStr) (pdu : Pdu) (t : Thread)
      → handle_pdu sv env clock e s pdu ≡ some t
      → SameShape e t.esme
  unfolding handle_pdu submitted
  handle_pdu-SameShape sv env clock e s (Pdu.submit_sm p) t h =
      elim (Option-cases (handle_submit_sm sv env clock e s (mode_of s) p)) [
        | inl n ↦ let k = rw n at h in cc
        | inr (r, q) ↦
            let k = rw q at h in
            subst (SameShape e) (ap (λ (x : Thread). x.esme) (some_inj k))
              (submit_any sv env clock e s (mode_of s) p r q)
      ]
  handle_pdu-SameShape sv env clock e s (Pdu.generic_nack n) t h = quiet-SameShape sv e _ _ t h
  handle_pdu-SameShape sv env clock e s (Pdu.enquire_link n) t h = quiet-SameShape sv e _ _ t h
  handle_pdu-SameShape sv env clock e s (Pdu.enquire_link_resp n) t h = quiet-SameShape sv e _ _ t h
  handle_pdu-SameShape sv env clock e s (Pdu.deliver_sm_resp n) t h = quiet-SameShape sv e _ _ t h
  handle_pdu-SameShape sv env clock e s (Pdu.unbind n) t h = quiet-SameShape sv e _ _ t h
  handle_pdu-SameShape sv env clock e s (Pdu.unbind_resp n) t h = quiet-SameShape sv e _ _ t h
  handle_pdu-SameShape sv env clock e s (Pdu.cancel_sm n) t h = quiet-SameShape sv e _ _ t h
  handle_pdu-SameShape sv env clock e s (Pdu.replace_sm n) t h = quiet-SameShape sv e _ _ t h
  handle_pdu-SameShape sv env clock e s (Pdu.query_sm n) t h = quiet-SameShape sv e _ _ t h
  handle_pdu-SameShape sv env clock e s (Pdu.bind_transmitter p) t h = quiet-SameShape sv e _ _ t h
  handle_pdu-SameShape sv env clock e s (Pdu.bind_receiver p) t h = quiet-SameShape sv e _ _ t h
  handle_pdu-SameShape sv env clock e s (Pdu.bind_transceiver p) t h = quiet-SameShape sv e _ _ t h
  handle_pdu-SameShape sv env clock e s (Pdu.other n) t h = quiet-SameShape sv e _ _ t h
