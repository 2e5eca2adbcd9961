-- ===== src/VerifyPdu.antt =====
-- `verify_pdu_para` of smpp-esme/esme.c: whether the parameters of a submit are accepted.
pub mod Accepts
pub mod Keeps
mod Tests
use Prim.Native.Nat.{bit_and}
use smpp_server.Prelude.{
  ℕ, Bool, true, false, not, ◌&&◌, ◌||◌, Option, none, some, ltb, ◌==◌, if◌then◌else◌,
}
use smpp_server.Prelude.Int.{ℤ, pos, negsuc, lez}
use smpp_server.Prelude.Options.{◌>>=◌}
use smpp_server.Gwlib.{Gwlib, Env}
use smpp_server.Pdu.{
  CommandStatus, rok, rinvsrcadr, rinvdstadr, rinvsrcton, rinvsrcnpi, rinvdstton, rinvdstnpi,
  rinvprtflg, rinvsubrep, server_status, is_ok, SubmitPdu,
}
use smpp_server.Address.{convert_addr_from_pdu}
use smpp_server.Registry.{Esme}

-- What the code of `convert_addr_from_pdu` is answered with.
unfoldable pub address_status : CommandStatus → CommandStatus → CommandStatus → ℕ → CommandStatus
address_status ton npi addr code =
    if code == 1 then ton else if code == 2 then npi else if code == 3 then addr else rok

-- `octstr_get_char(m, 0) + 1 <= octstr_len(m)`
pub udh_fits : ℤ → ℕ → Bool
udh_fits (pos n) len = ltb n len
udh_fits (negsuc n) len = true

module _ ⦃gw : Gwlib⦄ where
  open gw use {
    Octstr, octstr_len, octstr_from_position, octstr_get_char, pattern_list_matches_ip,
    smpp_max_source_addr_len, smpp_max_dest_addr_len, esm_class_submit_udh_indicator,
  }

  -- The return value, the account, and what `*dest_addr` and `*source_addr` were set to.
  pub record Verified : Type 0 where
    pub reason : CommandStatus
    pub esme : Esme
    pub dest_addr : Option Octstr
    pub source_addr : Option Octstr

  -- NULL, or longer than the limit
  unfoldable pub too_long : ℕ → Option Octstr → Bool
  too_long limit none = true
  too_long limit (some a) = ltb limit (octstr_len a)

  unfoldable pub check_lengths : SubmitPdu → CommandStatus
  check_lengths pdu =
      if too_long smpp_max_source_addr_len pdu.source_addr
      then rinvsrcadr
      else if too_long smpp_max_dest_addr_len pdu.destination_addr
      then rinvdstadr
      else rok

  unfoldable pub check_source : SubmitPdu → CommandStatus
  check_source pdu =
      address_status rinvsrcton rinvsrcnpi rinvsrcadr
        (convert_addr_from_pdu pdu.source_addr pdu.source_addr_ton pdu.source_addr_npi)

  unfoldable pub check_dest : SubmitPdu → CommandStatus
  check_dest pdu =
      address_status rinvdstton rinvdstnpi rinvdstadr
        (convert_addr_from_pdu pdu.destination_addr pdu.dest_addr_ton pdu.dest_addr_npi)

  -- The number without its prefix: 0, 91 and +91 are cut off by the length alone.
  unfoldable pub national_number : Octstr → Octstr
  national_number d =
      if octstr_len d == 11
      then octstr_from_position d 1
      else if octstr_len d == 12
      then octstr_from_position d 2
      else if octstr_len d == 13
      then octstr_from_position d 3
      else d

  -- The user data header must fit into the message; `none` is the NULL that is read when the message
  -- is missing.
  unfoldable pub check_udh : SubmitPdu → Option CommandStatus
  check_udh pdu =
      if bit_and pdu.esm_class esm_class_submit_udh_indicator == 0 then some rok else (do
        m ← pdu.short_message
        some (if udh_fits (octstr_get_char m 0) (octstr_len m) then rok else server_status 0x403))

  -- The checks after the sender is known to the account.
  unfoldable pub check_rest : SubmitPdu → Octstr → Option CommandStatus
  check_rest pdu dest =
      let udh = check_udh pdu in
      if ltb (octstr_len dest) 10
      then some (server_status 0x401)
      else if not (lez (pos 0) pdu.priority_flag) || not (lez pdu.priority_flag (pos 3))
      then some rinvprtflg
      else if not (lez pdu.replace_if_present_flag (pos 0))
      then some rinvsubrep
      else udh

  -- The sender id of the account: it matches what the account has used, or the sender-id service
  -- knows it, and then the account keeps it.
  unfoldable pub check_sender : Env → Esme → Octstr → Option Esme
  check_sender env e source =
      if pattern_list_matches_ip e.allowed_prefix source
      then some e
      else if env.check_sender_api e.system_id source
      then some (record e { allowed_prefix = some source })
      else none

  unfoldable pub after_sender : Option Esme → Esme → SubmitPdu → Octstr → Octstr → Option Verified
  after_sender none e pdu source dest = some (record {
    reason = server_status 0x401;
    esme = e;
    dest_addr = some dest;
    source_addr = some source;
  })
  after_sender (some e') e pdu source dest = do
    reason ← check_rest pdu dest
    some (record { reason = reason; esme = e'; dest_addr = some dest; source_addr = some source })

  -- Both addresses are good. Neither is NULL here.
  unfoldable pub with_addresses : Env → Esme → SubmitPdu → Option Verified
  with_addresses env e pdu = do
    source ← pdu.source_addr
    dest ← pdu.destination_addr
    after_sender (check_sender env e source) e pdu source (national_number dest)

  pub stop : CommandStatus → Esme → Option Verified
  stop reason e = some (record { reason = reason; esme = e; dest_addr = none; source_addr = none })

  -- `none` is a read through NULL.
  unfoldable pub verify_pdu_para : Env → Esme → SubmitPdu → Option Verified
  unfolding stop
  verify_pdu_para env e pdu =
      if not (is_ok (check_lengths pdu))
      then stop (check_lengths pdu) e
      else if not (is_ok (check_source pdu))
      then stop (check_source pdu) e
      else if not (is_ok (check_dest pdu))
      then stop (check_dest pdu) e
      else with_addresses env e pdu
