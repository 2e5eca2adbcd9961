-- ===== src/Client/Mis.antt =====
-- The rows that smpp-smsc sends to the database box: `mis_db_insert` of smpp-smsc/smpp_smsc.c and
-- the insert_status message of smpp-smsc/smsc_smpp.c.
use smpp_server.Prelude.{ℕ, Option, none, some, if◌then◌else◌}
use smpp_server.Prelude.Int.{ℤ, pos, minus_one, eqz}
use smpp_server.Gwlib.{Gwlib}
use smpp_server.Client.Calls.{SmPdu}
use smpp_server.Client.Msg.{Info}
use smpp_server.Client.Status.{Status}

module _ ⦃gw : Gwlib⦄ where
  open gw use {Octstr, octstr_imm, octstr_len}

  pub record MisRow : Type 0 where
    pub account_name : Octstr
    pub account_msg_id : Octstr
    pub smsc_id : Octstr
    pub smsc_msg_id : Octstr
    pub req_time : Octstr
    pub source_addr : Octstr
    pub dest_addr : Octstr
    pub submit_status : Status
    pub esm_class : ℕ
    pub message_len : ℕ
    pub msg_content : Octstr
    pub retry_value : ℤ
    pub ip : Octstr

  pub record StatusRow : Type 0 where
    pub smsc_id : Octstr
    pub smsc_msg_id : Octstr
    pub dest_addr : Option Octstr
    pub deliver_status : ℕ

  pub data DbRow : Type 0 where
    insert_mis : MisRow → DbRow
    insert_status : StatusRow → DbRow

  pub or_empty : Option Octstr → Octstr
  or_empty none = octstr_imm ""
  or_empty (some s) = s

  unfoldable pub mis_db_insert : Info → Option Octstr → Option Octstr → SmPdu → Status → DbRow
  unfolding or_empty
  mis_db_insert info smsc_id smsc_msg_id pdu status = insert_mis (record {
    account_name = info.account_name;
    account_msg_id = info.account_msg_id;
    smsc_id = or_empty smsc_id;
    smsc_msg_id = or_empty smsc_msg_id;
    req_time = info.req_time;
    source_addr = pdu.source_addr;
    dest_addr = pdu.destination_addr;
    submit_status = status;
    esm_class = pdu.esm_class;
    message_len = octstr_len pdu.short_message;
    msg_content = pdu.short_message;
    retry_value = (if eqz pdu.user_response_code minus_one then pos 0 else pdu.user_response_code);
    ip = info.client_ip;
  })
