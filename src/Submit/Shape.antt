-- ===== src/Submit/Shape.antt =====
-- A submit keeps its account's name and session ids.
use smpp_server.Prelude.{
  ℕ, ◌≡◌, refl, ap, ◌∙◌, not, some, List, [], ◌∷◌, arith, length, Option-cases, inl, inr,
}
use smpp_server.Prelude.Int.{pos, eqz}
use smpp_server.Gwlib.{Gwlib, Env}
use smpp_server.Session.{TxSession, tx_ids, rx_ids}
use smpp_server.Registry.{Esme, tx}
use smpp_server.Registry.Shape.{SameShape}
use smpp_server.Pdu.{SubmitPdu}
use smpp_server.VerifyPdu.Keeps.{verify_pdu_para-Keeps}
use smpp_server.Messages.{esme_row}
use smpp_server.Submit.{
  Server, Clock, Decision, Submitted, reject, accept, decide, conclude, throttle, arrived, put_tx,
  handle_submit_sm,
}
use smpp_server.Submit.Decided.{decide_cases}
use smpp_server.Submit.Accounts.{submit_tx_cases}

module _ ⦃gw : Gwlib⦄ where
  open gw use {Octstr, octstr_format_id}

  pub put_tx-ids :
      (s : TxSession) (xs : List TxSession)
      → (tx_ids (put_tx s xs) ≡ tx_ids xs) × (length (put_tx s xs) ≡ length xs)
  unfolding put_tx
  put_tx-ids s [] = (refl, refl)
  put_tx-ids s (x ∷ xs) = let h = put_tx-ids s xs in (ground (arith, h.0), ground (arith, h.1))

  throttle-lists :
      (clock : Clock) (e : Esme)
      → ((throttle clock e).system_id ≡ e.system_id)
        × ((throttle clock e).tx_esme ≡ e.tx_esme)
        × ((throttle clock e).rx_esme ≡ e.rx_esme)
  unfolding throttle
  throttle-lists clock e = (ground arith, ground arith, ground arith)

  decide-lists :
      (sv : Server) (env : Env) (clock : Clock) (id : Octstr) (e : Esme) (s : TxSession)
      (pdu : SubmitPdu) (d : Decision)
      → decide sv env clock id e s pdu ≡ some d
      → (d.esme.system_id ≡ e.system_id)
        × (d.esme.tx_esme ≡ e.tx_esme)
        × (d.esme.rx_esme ≡ e.rx_esme)
  unfolding reject accept
  decide-lists sv env clock id e s pdu d h = elim (decide_cases sv env clock id e s pdu d h) [
    | inl (status, e', s', bad, k, kept, q) ↦
        let p = ap (λ (x : Decision). x.esme) q in
        (
          ap (λ (x : Esme). x.system_id) p ∙ kept.0,
          ap (λ (x : Esme). x.tx_esme) p ∙ kept.3,
          ap (λ (x : Esme). x.rx_esme) p ∙ kept.4,
        )
    | inr p ↦
        let kept = verify_pdu_para-Keeps env e pdu p.verified p.verifies in
        let q = ap (λ (x : Decision). x.esme) p.accepted in
        (
          ap (λ (x : Esme). x.system_id) q ∙ kept.0,
          ap (λ (x : Esme). x.tx_esme) q ∙ kept.3,
          ap (λ (x : Esme). x.rx_esme) q ∙ kept.4,
        )
  ]

  conclude-esme :
      (sv : Server) (clock : Clock) (id : Octstr) (mode : ℕ) (pdu : SubmitPdu) (d : Decision)
      (r : Submitted)
      → conclude sv clock id mode pdu d ≡ some r
      → r.esme ≡ record d.esme { tx_esme = put_tx r.session d.esme.tx_esme }
  unfolding conclude
  conclude-esme sv clock id mode pdu d r h =
      elim (Option-cases (
        esme_row d.esme.system_id id clock.current_datetime d.session.client_ip
          (not (eqz sv.dndcheck_flag (pos 0))) d.status pdu)) [
            | inl n ↦ ground arith
            | inr (row, q) ↦ let e = rw q at h in cc
          ]

  pub handle_submit_sm-SameShape :
      (sv : Server) (env : Env) (clock : Clock) (e : Esme) (s : TxSession) (mode : ℕ)
      (pdu : SubmitPdu) (r : Submitted)
      → handle_submit_sm sv env clock e (tx s) mode pdu ≡ some r
      → SameShape e r.esme
  unfolding handle_submit_sm
  handle_submit_sm-SameShape sv env clock e s mode pdu r h =
      let (d, dec, con) = submit_tx_cases sv env clock e s mode pdu r h in
      let sv' = arrived sv clock in
      let id = octstr_format_id s.msg_received clock.timestamp sv'.counter in
      let k = decide-lists sv' env clock id (throttle clock e) s pdu d dec in
      let t = throttle-lists clock e in
      let q = conclude-esme sv' clock id mode pdu d r con in
      let txs = k.1 ∙ t.1 in
      let put = put_tx-ids r.session d.esme.tx_esme in
      record {
        name = ap (λ (x : Esme). x.system_id) q ∙ k.0 ∙ t.0;
        tx_same = ap (λ (x : Esme). tx_ids x.tx_esme) q ∙ put.0 ∙ ap tx_ids txs;
        rx_same = ap (λ (x : Esme). rx_ids x.rx_esme) q ∙ ap rx_ids (k.2 ∙ t.2);
        tx_length = ap (λ (x : Esme). length x.tx_esme) q ∙ put.1 ∙ ap length txs;
        rx_length = ap (λ (x : Esme). length x.rx_esme) q ∙ ap length (k.2 ∙ t.2);
      }
