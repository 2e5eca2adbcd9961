-- ===== src/Client/Calls.antt =====
-- The calls of gwlib that smpp-smsc makes beyond those of `Gwlib`: the PDU codec of
-- gwlib/smpp_pdu.h, which the repository does not have, its regular expressions and some calls on
-- strings.
use smpp_server.Prelude.{ℕ, ◌≡◌, Bool, Option, some}
use smpp_server.Prelude.Int.{ℤ}
use smpp_server.Gwlib.{Gwlib}

module _ ⦃gw : Gwlib⦄ where
  open gw use {Octstr, octstr_from_position}

  -- A PDU of the queue: whether its type is submit_sm, and the fields that the process reads or
  -- sets.
  pub record SmPdu : Type 0 where
    pub is_submit_sm : Bool
    pub sequence_number : ℕ
    pub service_type : Option Octstr
    pub source_addr : Octstr
    pub source_addr_ton : ℤ
    pub source_addr_npi : ℤ
    pub destination_addr : Octstr
    pub dest_addr_ton : ℤ
    pub dest_addr_npi : ℤ
    pub esm_class : ℕ
    pub priority_flag : ℤ
    pub registered_delivery : ℕ
    pub data_coding : ℕ
    pub more_messages_to_send : ℤ
    pub short_message : Octstr
    pub user_response_code : ℤ

  pub record Calls : Type 0 where
    -- the packed PDU starts with its length, 4 bytes, which `smpp_pdu_unpack` is not given
    pub smpp_pdu_pack : SmPdu → Octstr
    pub smpp_pdu_unpack : Octstr → Option SmPdu
    pub smpp_pdu_unpack-pack :
        (p : SmPdu) → smpp_pdu_unpack (octstr_from_position (smpp_pdu_pack p) 4) ≡ some p
    -- `gw_regex_match_pre(pattern, s) == 1`
    pub gw_regex_match_pre : Octstr → Octstr → Bool
    -- `octstr_isnum(s) == 1`
    pub octstr_isnum : Octstr → Bool
    pub octstr_append : Octstr → Octstr → Octstr
    -- the first bytes, which `octstr_append_data` is given
    pub octstr_prefix : Octstr → ℕ → Octstr
    pub charset_latin1_to_gsm : Octstr → Octstr
    pub charset_latin1_to_gsm_new : Octstr → Octstr
    -- `octstr_format("%lu", strtoll(s, NULL, base))`
    pub strtoll : Octstr → ℕ → Octstr
    -- the id and the state of a delivery receipt, which `times_octstr_get_many_alphanumeric` and
    -- `times_octstr_get_many_chars` find in its text
    pub receipt_id : Octstr → Octstr
    pub receipt_stat : Octstr → Octstr
    -- the constants of gwlib/smpp_pdu.h
    pub esm_class_deliver_udh_indicator : ℕ
    pub gsm_addr_ton_national : ℤ
    pub gsm_addr_npi_e164 : ℤ
    -- what `smpp_pdu_create` puts into the optional field
    pub user_response_code_created : ℤ
