-- ===== src/Address.antt =====
-- Addresses of a submit: `convert_addr_from_pdu` of smpp-esme/esme.c.
mod Tests
use smpp_server.Prelude.{
  ℕ, ◌≤◌, ◌≡◌, ◌↔◌, ◌⊎◌, refl, Bool, true, false, not, ◌&&◌, ◌||◌, Option, none, some, arith, ltb,
  if◌then◌else◌,
}
use smpp_server.Prelude.Int.{ℤ, pos, negsuc, eqz, lez}
use smpp_server.Gwlib.{Gwlib}

-- 0, 1, 3, 4, 6, 8, 9, 10 and 14
unfoldable pub is_npi : ℤ → Bool
is_npi npi =
    eqz npi (pos 0)
    || eqz npi (pos 1)
    || eqz npi (pos 3)
    || eqz npi (pos 4)
    || eqz npi (pos 6)
    || eqz npi (pos 8)
    || eqz npi (pos 9)
    || eqz npi (pos 10)
    || eqz npi (pos 14)

-- The types of number of SMPP: GSM_ADDR_TON_INTERNATIONAL, _NATIONAL and _ALPHANUMERIC.
abbrev pub ton_international : ℤ
ton_international = pos 1

abbrev pub ton_national : ℤ
ton_national = pos 2

abbrev pub ton_alphanumeric : ℤ
ton_alphanumeric = pos 5

abbrev pub plus_sign : ℤ
plus_sign = pos b'+'

module _ ⦃gw : Gwlib⦄ where
  open gw use {Octstr, octstr_len, octstr_get_char, octstr_check_digits}

  -- 0 for a good address, 1 for its type of number, 2 for its numbering plan, 3 for the address
  unfoldable pub convert_addr_from_pdu : Option Octstr → ℤ → ℤ → ℕ
  convert_addr_from_pdu none ton npi = 1
  convert_addr_from_pdu (some addr) ton npi =
      let first = octstr_get_char addr 0 in
      let international =
        (if ltb (octstr_len addr) 7
          then 3
          else if eqz first plus_sign && not (octstr_check_digits addr 1 256)
          then 3
          else if not (eqz first plus_sign) && not (octstr_check_digits addr 0 256)
          then 3
          else 0) in
      if not (lez ton (pos 6)) || not (lez (pos 0) ton)
      then 1
      else if not (is_npi npi)
      then 2
      else if eqz ton ton_international
      then international
      else if eqz ton ton_national
      then if ltb (octstr_len addr) 10 then 3 else 0
      else if eqz ton ton_alphanumeric
      then if ltb 11 (octstr_len addr) then 3 else 0
      else 0

  -- What a good address is, by its type of number and its numbering plan.
  pub record AddrValid (addr : Octstr) (ton : ℤ) (npi : ℤ) : Type 0 where
    pub ton_range : (t : ℕ) × (ton ≡ pos t) × (t ≤ 6)
    pub npi_known : is_npi npi ≡ true
    pub international :
        ton ≡ ton_international
        → (7 ≤ octstr_len addr)
          × (octstr_check_digits addr (if eqz (octstr_get_char addr 0) plus_sign then 1 else 0) 256
              ≡ true)
    pub national : ton ≡ ton_national → 10 ≤ octstr_len addr
    pub alphanumeric : ton ≡ ton_alphanumeric → octstr_len addr ≤ 11

  -- The address is good exactly if the code is 0.
  pub convert_addr_from_pdu_iff :
      (addr : Octstr) (ton npi : ℤ)
      → (convert_addr_from_pdu (some addr) ton npi ≡ 0) ↔ AddrValid addr ton npi
  unfolding convert_addr_from_pdu
  convert_addr_from_pdu_iff addr (negsuc t) npi = (λ h. ground arith, λ v. ground arith)
  convert_addr_from_pdu_iff addr (pos t) npi = (
    λ h. record {
      ton_range = (t, refl, ground arith);
      npi_known = ground arith;
      international = λ e. ground arith;
      national = λ e. ground arith;
      alphanumeric = λ e. ground arith;
    },
    λ v. ground (arith, v.ton_range, v.npi_known),
  )
