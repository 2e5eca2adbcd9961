-- ===== src/Dispatch/Counter.antt =====
-- A PDU on a bound session leaves the session's counter of sequence numbers alone.
use smpp_server.Prelude.{ℕ, ◌≡◌, refl, sym, ap, ◌∙◌, some, List, Option-cases, inl, inr}
use smpp_server.Prelude.Options.{some_inj}
use smpp_server.Gwlib.{Gwlib, Env}
use smpp_server.Registry.{Esme, SessionStr, tx, rx}
use smpp_server.Pdu.{SubmitPdu}
use smpp_server.Submit.{Server, Clock, Submitted, handle_submit_sm}
use smpp_server.Submit.Accounts.{handle_submit_sm-Booked}
use smpp_server.Delivery.{seq_number}
use smpp_server.Dispatch.{
  Pdu, Reply, Thread, mode_of, quiet, submitted, handle_unbind, handle_unbind_resp, handle_pdu,
}

module _ ⦃gw : Gwlib⦄ where
  quiet-seq :
      (sv : Server) (e : Esme) (s : SessionStr) (rs : List Reply) (t : Thread)
      → some (quiet sv e s rs) ≡ some t
      → seq_number t.session ≡ seq_number s
  unfolding quiet
  quiet-seq sv e s rs t h = ap (λ (x : Thread). seq_number x.session) (sym (some_inj h))

  handle_unbind-seq : (s : SessionStr) → seq_number (handle_unbind s) ≡ seq_number s
  unfolding handle_unbind seq_number
  handle_unbind-seq (tx s) = refl
  handle_unbind-seq (rx s) = refl

  handle_unbind_resp-seq : (s : SessionStr) → seq_number (handle_unbind_resp s) ≡ seq_number s
  unfolding handle_unbind_resp seq_number
  handle_unbind_resp-seq (tx s) = refl
  handle_unbind_resp-seq (rx s) = refl

  submit-seq :
      (sv : Server) (env : Env) (clock : Clock) (e : Esme) (s : SessionStr) (n : ℕ) (p : SubmitPdu)
      (r : Submitted)
      → handle_submit_sm sv env clock e s n p ≡ some r
      → r.session.seq_number ≡ seq_number s
  unfolding handle_submit_sm seq_number
  submit-seq sv env clock e (tx s) n p r h =
      (handle_submit_sm-Booked sv env clock e s n p r h).seq_number
  submit-seq sv env clock e (rx s) n p r h = cc

  pub handle_pdu-seq :
      (sv : Server) (env : Env) (clock : Clock) (e : Esme) (s : SessionStr) (pdu : Pdu) (t : Thread)
      → handle_pdu sv env clock e s pdu ≡ some t
      → seq_number t.session ≡ seq_number s
  unfolding handle_pdu submitted seq_number
  handle_pdu-seq sv env clock e s (Pdu.submit_sm p) t h =
      elim (Option-cases (handle_submit_sm sv env clock e s (mode_of s) p)) [
        | inl n ↦ let k = rw n at h in cc
        | inr (r, q) ↦
            let k = rw q at h in
            ap (λ (x : Thread). seq_number x.session) (sym (some_inj k))
            ∙ submit-seq sv env clock e s (mode_of s) p r q
      ]
  handle_pdu-seq sv env clock e s (Pdu.unbind n) t h =
      quiet-seq sv e (handle_unbind s) _ t h ∙ handle_unbind-seq s
  handle_pdu-seq sv env clock e s (Pdu.unbind_resp n) t h =
      quiet-seq sv e (handle_unbind_resp s) _ t h ∙ handle_unbind_resp-seq s
  handle_pdu-seq sv env clock e s (Pdu.generic_nack n) t h = quiet-seq sv e s _ t h
  handle_pdu-seq sv env clock e s (Pdu.enquire_link n) t h = quiet-seq sv e s _ t h
  handle_pdu-seq sv env clock e s (Pdu.enquire_link_resp n) t h = quiet-seq sv e s _ t h
  handle_pdu-seq sv env clock e s (Pdu.deliver_sm_resp n) t h = quiet-seq sv e s _ t h
  handle_pdu-seq sv env clock e s (Pdu.cancel_sm n) t h = quiet-seq sv e s _ t h
  handle_pdu-seq sv env clock e s (Pdu.replace_sm n) t h = quiet-seq sv e s _ t h
  handle_pdu-seq sv env clock e s (Pdu.query_sm n) t h = quiet-seq sv e s _ t h
  handle_pdu-seq sv env clock e s (Pdu.bind_transmitter p) t h = quiet-seq sv e s _ t h
  handle_pdu-seq sv env clock e s (Pdu.bind_receiver p) t h = quiet-seq sv e s _ t h
  handle_pdu-seq sv env clock e s (Pdu.bind_transceiver p) t h = quiet-seq sv e s _ t h
  handle_pdu-seq sv env clock e s (Pdu.other n) t h = quiet-seq sv e s _ t h
