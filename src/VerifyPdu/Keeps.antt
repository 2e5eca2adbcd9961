-- ===== src/VerifyPdu/Keeps.antt =====
-- `verify_pdu_para` changes no field of the account but the sender id that it has learnt.
use smpp_server.Prelude.{
  ◌≡◌, arith, ◌&&◌, Option, none, some, Bool-cases, Option-cases, inl, inr, refl,
}
use smpp_server.Gwlib.{Gwlib, Env}
use smpp_server.Registry.{Esme}
use smpp_server.Pdu.{is_ok, SubmitPdu}
use smpp_server.VerifyPdu.{
  Verified, check_lengths, check_source, check_dest, check_sender, national_number, after_sender,
  with_addresses, verify_pdu_para,
}

module _ ⦃gw : Gwlib⦄ where
  open gw use {Octstr}

  abbrev pub Keeps : Esme → Esme → Type 0
  Keeps e e' =
      (e'.system_id ≡ e.system_id)
      × (e'.valid_time_from ≡ e.valid_time_from)
      × (e'.valid_time_to ≡ e.valid_time_to)
      × (e'.tx_esme ≡ e.tx_esme)
      × (e'.rx_esme ≡ e.rx_esme)

  check_sender-Keeps :
      (env : Env) (e e' : Esme) (s : Octstr) → check_sender env e s ≡ some e' → Keeps e e'
  unfolding check_sender
  check_sender-Keeps env e e' s h =
      (ground arith, ground arith, ground arith, ground arith, ground arith)

  after_sender-Keeps :
      (o : Option Esme) (e : Esme) (pdu : SubmitPdu) (s d : Octstr) (v : Verified)
      → ((e' : Esme) → o ≡ some e' → Keeps e e')
      → after_sender o e pdu s d ≡ some v
      → Keeps e v.esme
  unfolding after_sender
  after_sender-Keeps none e pdu s d v k h =
      (ground arith, ground arith, ground arith, ground arith, ground arith)
  after_sender-Keeps (some e') e pdu s d v k h =
      let (a, b, c, d', f) = k e' refl in
      (ground arith, ground arith, ground arith, ground arith, ground arith)

  with_addresses-Keeps :
      (env : Env) (e : Esme) (pdu : SubmitPdu) (v : Verified)
      → with_addresses env e pdu ≡ some v
      → Keeps e v.esme
  unfolding with_addresses
  with_addresses-Keeps env e pdu v h = elim (Option-cases pdu.source_addr) [
    | inl n ↦ ground arith
    | inr (s, se) ↦ elim (Option-cases pdu.destination_addr) [
      | inl n ↦ ground arith
      | inr (d, de) ↦
          after_sender-Keeps (check_sender env e s) e pdu s (national_number d) v
            (λ e' q. check_sender-Keeps env e e' s q) (ground arith)
    ]
  ]

  pub verify_pdu_para-Keeps :
      (env : Env) (e : Esme) (pdu : SubmitPdu) (v : Verified)
      → verify_pdu_para env e pdu ≡ some v
      → Keeps e v.esme
  unfolding verify_pdu_para
  verify_pdu_para-Keeps env e pdu v h =
      elim (Bool-cases
        (is_ok (check_lengths pdu) && is_ok (check_source pdu) && is_ok (check_dest pdu))) [
          | inl ok ↦ with_addresses-Keeps env e pdu v (ground arith)
          | inr bad ↦ (ground arith, ground arith, ground arith, ground arith, ground arith)
        ]
