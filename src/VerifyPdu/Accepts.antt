-- ===== src/VerifyPdu/Accepts.antt =====
-- What a submit that is accepted looks like.

use smpp_server.Prelude.{
  ℕ, ◌≤◌, ◌≡◌, ◌↔◌, ◌⊎◌, ◌≢◌, inl, inr, refl, true, false, Option, none, some, arith, Option-cases,
  Bool-cases, ◌<◌,
}
use smpp_server.Prelude.Int.{ℤ, pos, negsuc, lez}
use smpp_server.Gwlib.{Gwlib, Env}
use smpp_server.Pdu.{
  CommandStatus, rok, is_ok, SubmitPdu, rinvsrcton, rinvsrcnpi, rinvsrcadr, rinvdstton, rinvdstnpi,
  rinvdstadr,
}
use smpp_server.Address.{AddrValid, convert_addr_from_pdu, convert_addr_from_pdu_iff}
use smpp_server.Registry.{Esme}
use smpp_server.VerifyPdu.{
  address_status, Verified, check_lengths, check_source, check_dest, national_number, check_udh,
  check_rest, check_sender, after_sender, with_addresses, verify_pdu_para, too_long,
}

priority-range :
    (z : ℤ) → lez (pos 0) z ≡ true → lez z (pos 3) ≡ true → (p : ℕ) × (z ≡ pos p) × (p ≤ 3)
priority-range (pos n) a b = (n, refl, ground arith)
priority-range (negsuc n) a b = ground arith

module _ ⦃gw : Gwlib⦄ where
  open gw use {
    Octstr, octstr_len, octstr_from_position, octstr_len-from_position, octstr_get_char,
    pattern_list_matches_ip, smpp_max_source_addr_len, smpp_max_dest_addr_len,
    esm_class_submit_udh_indicator,
  }

  -- A submit from `source` to `dest` that the server accepts from the account.
  pub record Acceptable (env : Env) (e : Esme) (pdu : SubmitPdu) (source dest : Octstr)
      : Type 0 where
    pub source_given : pdu.source_addr ≡ some source
    pub dest_given : pdu.destination_addr ≡ some dest
    pub source_short : octstr_len source ≤ smpp_max_source_addr_len
    pub dest_short : octstr_len dest ≤ smpp_max_dest_addr_len
    pub source_valid : AddrValid source pdu.source_addr_ton pdu.source_addr_npi
    pub dest_valid : AddrValid dest pdu.dest_addr_ton pdu.dest_addr_npi
    pub sender_known :
        (pattern_list_matches_ip e.allowed_prefix source ≡ true)
        ⊎ (env.check_sender_api e.system_id source ≡ true)
    pub dest_long : 10 ≤ octstr_len dest
    pub priority : (p : ℕ) × (pdu.priority_flag ≡ pos p) × (p ≤ 3)
    pub no_replace : lez pdu.replace_if_present_flag (pos 0) ≡ true
    pub udh : check_udh pdu ≡ some rok

  address_status_ok :
      (ton npi addr : CommandStatus) (code : ℕ)
      → is_ok ton ≡ false
      → is_ok npi ≡ false
      → is_ok addr ≡ false
      → code ≤ 3
      → (is_ok (address_status ton npi addr code) ≡ true) ↔ (code ≡ 0)
  unfolding address_status
  address_status_ok ton npi addr code a b c h = (λ e. ground arith, λ e. ground arith)

  convert_addr_from_pdu-le : (a : Option Octstr) (ton npi : ℤ) → convert_addr_from_pdu a ton npi ≤ 3
  unfolding convert_addr_from_pdu
  convert_addr_from_pdu-le none ton npi = omega arith
  convert_addr_from_pdu-le (some a) ton npi = ground arith

  -- A number with one of the prefixes 0, 91 and +91 is cut to ten digits, by its length.
  octstr_len-national_number :
      (d : Octstr)
      → (octstr_len d ≤ 13 → octstr_len (national_number d) ≤ 10)
        × (10 ≤ octstr_len d → 10 ≤ octstr_len (national_number d))
        × (octstr_len d < 10 → octstr_len (national_number d) < 10)
  unfolding national_number
  octstr_len-national_number d = (
    λ h. ground (
      arith,
      octstr_len-from_position d 1,
      octstr_len-from_position d 2,
      octstr_len-from_position d 3,
    ),
    λ h. ground (
      arith,
      octstr_len-from_position d 1,
      octstr_len-from_position d 2,
      octstr_len-from_position d 3,
    ),
    λ h. ground arith,
  )

  not_ok : (s : CommandStatus) → is_ok s ≡ false → s ≢ rok
  not_ok rok h e = cc
  not_ok s h e = cc

  verify_pdu_para-gates :
      (env : Env) (e : Esme) (pdu : SubmitPdu) (v : Verified)
      → verify_pdu_para env e pdu ≡ some v
      → v.reason ≡ rok
      → (is_ok (check_lengths pdu) ≡ true)
        × (is_ok (check_source pdu) ≡ true)
        × (is_ok (check_dest pdu) ≡ true)
        × (with_addresses env e pdu ≡ some v)
  unfolding verify_pdu_para
  verify_pdu_para-gates env e pdu v h ok =
      ground (arith, not_ok (check_lengths pdu), not_ok (check_source pdu), not_ok (check_dest pdu))

  check_lengths_sound :
      (pdu : SubmitPdu) (s d : Octstr)
      → pdu.source_addr ≡ some s
      → pdu.destination_addr ≡ some d
      → is_ok (check_lengths pdu) ≡ true
      → (octstr_len s ≤ smpp_max_source_addr_len) × (octstr_len d ≤ smpp_max_dest_addr_len)
  unfolding check_lengths too_long
  check_lengths_sound pdu s d p q h = ground arith

  with_addresses_sound :
      (env : Env) (e : Esme) (pdu : SubmitPdu) (v : Verified) (s d : Octstr)
      → pdu.source_addr ≡ some s
      → pdu.destination_addr ≡ some d
      → with_addresses env e pdu ≡ some v
      → v.reason ≡ rok
      → ((pattern_list_matches_ip e.allowed_prefix s ≡ true)
          ⊎ (env.check_sender_api e.system_id s ≡ true))
        × (check_rest pdu (national_number d) ≡ some rok)
        × (v.source_addr ≡ some s)
        × (v.dest_addr ≡ some (national_number d))
  unfolding with_addresses check_sender after_sender
  with_addresses_sound env e pdu v s d p q h ok = ground arith

  check_rest_sound :
      (pdu : SubmitPdu) (d : Octstr)
      → check_rest pdu d ≡ some rok
      → (10 ≤ octstr_len d)
        × ((p : ℕ) × (pdu.priority_flag ≡ pos p) × (p ≤ 3))
        × (lez pdu.replace_if_present_flag (pos 0) ≡ true)
        × (check_udh pdu ≡ some rok)
  unfolding check_rest
  check_rest_sound pdu d h = (
    ground arith,
    priority-range pdu.priority_flag (ground arith) (ground arith),
    ground arith,
    ground arith,
  )

  check_rest_complete :
      (pdu : SubmitPdu) (d : Octstr)
      → 10 ≤ octstr_len d
      → ((p : ℕ) × (pdu.priority_flag ≡ pos p) × (p ≤ 3))
      → lez pdu.replace_if_present_flag (pos 0) ≡ true
      → check_udh pdu ≡ some rok
      → check_rest pdu d ≡ some rok
  unfolding check_rest
  check_rest_complete pdu d l (p, e, b) r u = rw e (ground arith)

  check_lengths_complete :
      (pdu : SubmitPdu) (s d : Octstr)
      → pdu.source_addr ≡ some s
      → pdu.destination_addr ≡ some d
      → octstr_len s ≤ smpp_max_source_addr_len
      → octstr_len d ≤ smpp_max_dest_addr_len
      → is_ok (check_lengths pdu) ≡ true
  unfolding check_lengths too_long
  check_lengths_complete pdu s d p q h k = rw p (rw q (ground arith))

  check_sender-known :
      (env : Env) (e : Esme) (s : Octstr)
      → ((pattern_list_matches_ip e.allowed_prefix s ≡ true)
          ⊎ (env.check_sender_api e.system_id s ≡ true))
      → (e' : Esme) × (check_sender env e s ≡ some e')
  unfolding check_sender
  check_sender-known env e s known =
      elim (Bool-cases (pattern_list_matches_ip e.allowed_prefix s)) [
        | inl t ↦ (e, ground arith)
        | inr t ↦ (record e { allowed_prefix = some s }, ground arith)
      ]

  with_addresses_complete :
      (env : Env) (e : Esme) (pdu : SubmitPdu) (s d : Octstr)
      → pdu.source_addr ≡ some s
      → pdu.destination_addr ≡ some d
      → ((pattern_list_matches_ip e.allowed_prefix s ≡ true)
          ⊎ (env.check_sender_api e.system_id s ≡ true))
      → check_rest pdu (national_number d) ≡ some rok
      → (v : Verified) × (with_addresses env e pdu ≡ some v) × (v.reason ≡ rok)
  unfolding with_addresses after_sender
  with_addresses_complete env e pdu s d p q known r =
      let (e', k) = check_sender-known env e s known in
      (
        record {
          reason = rok;
          esme = e';
          dest_addr = some (national_number d);
          source_addr = some s;
        },
        ground arith,
        refl,
      )

  -- The two addresses are given where the checks go on to the sender.
  with_addresses-given :
      (env : Env) (e : Esme) (pdu : SubmitPdu) (v : Verified)
      → with_addresses env e pdu ≡ some v
      → (s : Octstr) × (d : Octstr) × (pdu.source_addr ≡ some s) × (pdu.destination_addr ≡ some d)
  unfolding with_addresses
  with_addresses-given env e pdu v h = elim (Option-cases pdu.source_addr) [
    | inl p ↦ ground arith
    | inr (s, p) ↦ elim (Option-cases pdu.destination_addr) [
      | inl q ↦ ground arith
      | inr (d, q) ↦ (s, d, p, q)
    ]
  ]

  source-AddrValid :
      (pdu : SubmitPdu) (s : Octstr)
      → pdu.source_addr ≡ some s
      → (is_ok (check_source pdu) ≡ true) ↔ AddrValid s pdu.source_addr_ton pdu.source_addr_npi
  unfolding check_source
  source-AddrValid pdu s p =
      let a =
        address_status_ok rinvsrcton rinvsrcnpi rinvsrcadr
          (convert_addr_from_pdu (some s) pdu.source_addr_ton pdu.source_addr_npi) refl refl refl
          (convert_addr_from_pdu-le (some s) pdu.source_addr_ton pdu.source_addr_npi) in
      let c = convert_addr_from_pdu_iff s pdu.source_addr_ton pdu.source_addr_npi in
      rw p ((λ h. c.0 (a.0 h)), (λ w. a.1 (c.1 w)))

  dest-AddrValid :
      (pdu : SubmitPdu) (d : Octstr)
      → pdu.destination_addr ≡ some d
      → (is_ok (check_dest pdu) ≡ true) ↔ AddrValid d pdu.dest_addr_ton pdu.dest_addr_npi
  unfolding check_dest
  dest-AddrValid pdu d p =
      let a =
        address_status_ok rinvdstton rinvdstnpi rinvdstadr
          (convert_addr_from_pdu (some d) pdu.dest_addr_ton pdu.dest_addr_npi) refl refl refl
          (convert_addr_from_pdu-le (some d) pdu.dest_addr_ton pdu.dest_addr_npi) in
      let c = convert_addr_from_pdu_iff d pdu.dest_addr_ton pdu.dest_addr_npi in
      rw p ((λ h. c.0 (a.0 h)), (λ w. a.1 (c.1 w)))

  -- A submit that passes the checks is acceptable: both addresses are given, short enough and valid
  -- for their type and plan, the sender id is known, the destination has ten digits at least, the
  -- priority is at most 3, no replacement is asked for and the user data header fits. The addresses
  -- that are passed on are the source and the destination without its prefix.
  pub verify_pdu_para_sound :
      (env : Env) (e : Esme) (pdu : SubmitPdu) (v : Verified)
      → verify_pdu_para env e pdu ≡ some v
      → v.reason ≡ rok
      → (source : Octstr) × (dest : Octstr) × Acceptable env e pdu source dest
        × (v.source_addr ≡ some source)
        × (v.dest_addr ≡ some (national_number dest))
  verify_pdu_para_sound env e pdu v h ok =
      let g = verify_pdu_para-gates env e pdu v h ok in
      let (s, d, p, q) = with_addresses-given env e pdu v g.3 in
      let l = check_lengths_sound pdu s d p q g.0 in
      let w = with_addresses_sound env e pdu v s d p q g.3 ok in
      let r = check_rest_sound pdu (national_number d) w.1 in
      (
        s,
        d,
        record {
          source_given = p;
          dest_given = q;
          source_short = l.0;
          dest_short = l.1;
          source_valid = (source-AddrValid pdu s p).0 g.1;
          dest_valid = (dest-AddrValid pdu d q).0 g.2;
          sender_known = w.0;
          dest_long = ground (arith, octstr_len-national_number d);
          priority = r.1;
          no_replace = r.2;
          udh = r.3;
        },
        w.2,
        w.3,
      )

  -- An acceptable submit passes the checks.
  pub verify_pdu_para_complete :
      (env : Env) (e : Esme) (pdu : SubmitPdu) (s d : Octstr)
      → Acceptable env e pdu s d
      → (v : Verified) × (verify_pdu_para env e pdu ≡ some v) × (v.reason ≡ rok)
  unfolding verify_pdu_para
  verify_pdu_para_complete env e pdu s d a =
      let l =
        check_lengths_complete pdu s d a.source_given a.dest_given a.source_short a.dest_short in
      let sv = (source-AddrValid pdu s a.source_given).1 a.source_valid in
      let dv = (dest-AddrValid pdu d a.dest_given).1 a.dest_valid in
      let long = (octstr_len-national_number d).1 a.dest_long in
      let r = check_rest_complete pdu (national_number d) long a.priority a.no_replace a.udh in
      let (v, w, ok) =
        with_addresses_complete env e pdu s d a.source_given a.dest_given a.sender_known r in
      (v, rw l (rw sv (rw dv w)), ok)
