-- ===== src/Messages.antt =====
-- The messages that smpp-esme sends to the SMSC process and to the database box for a submit: the
-- `submit`, `smpp_esme` and `insert_mis` messages that smpp-esme/smpp_esme.c fills.
use smpp_server.Prelude.{
  ℕ, Bool, true, false, Option, none, some, List, [], ◌∷◌, ◌==◌, if◌then◌else◌,
}
use smpp_server.Prelude.Int.{ℤ, pos, minus_one, eqz}
use smpp_server.Prelude.Options.{◌>>=◌}
use smpp_server.Gwlib.{Gwlib}
use smpp_server.Pdu.{CommandStatus, SubmitPdu}

module _ ⦃gw : Gwlib⦄ where
  open gw use {Octstr, octstr_imm, octstr_len, octstr_binary_to_hex}

  -- the two strings of indices are their bytes, and the PDU is packed by its receiver
  pub record SubmitMsg : Type 0 where
    pub req_time : Octstr
    pub account_name : Octstr
    pub account_msg_id : Octstr
    pub destination_addr : Octstr
    pub source_addr : Octstr
    pub pdu : SubmitPdu
    pub ip : Octstr
    pub preferred_smsc : List ℕ
    pub allowed_smsc : List ℕ

  pub record SmppEsmeRow : Type 0 where
    pub account_name : Octstr
    pub account_msg_id : Octstr
    pub req_time : Octstr
    pub source_addr : Option Octstr
    pub dest_addr : Option Octstr
    pub msg_content : Option Octstr
    pub submit_status : CommandStatus
    pub esm_class : ℕ
    pub data_coding : ℕ
    pub more_messages_to_send : ℤ
    pub ip : Octstr
    pub dnd_flag : ℤ
    pub retry_value : ℤ

  pub record InsertMisRow : Type 0 where
    pub account_name : Octstr
    pub account_msg_id : Octstr
    pub smsc_id : Octstr
    pub smsc_msg_id : Octstr
    pub req_time : Octstr
    pub source_addr : Option Octstr
    pub dest_addr : Option Octstr
    pub submit_status : CommandStatus
    pub esm_class : ℕ
    pub message_len : ℕ
    pub msg_content : Option Octstr
    pub retry_value : ℤ
    pub ip : Octstr

  pub data DbMsg : Type 0 where
    smpp_esme : SmppEsmeRow → DbMsg
    insert_mis : InsertMisRow → DbMsg

  -- `send_msg_dbbox_server(msg, 0)`: without a connection to the database box, `false`, the message
  -- is only logged.
  abbrev pub send_msg_dbbox_server : Bool → DbMsg → List DbMsg
  send_msg_dbbox_server true m = m ∷ []
  send_msg_dbbox_server false m = []

  pub retry_of : ℤ → ℤ
  retry_of user_response_code =
      if eqz user_response_code minus_one then pos 0 else user_response_code

  pub message_len : Option Octstr → ℕ
  message_len none = 0
  message_len (some m) = octstr_len m

  -- The hexadecimal content of a message with a data coding; `none` is a NULL that is converted.
  pub content_of : ℕ → Option Octstr → Option (Option Octstr)
  content_of data_coding content =
      let as_hex = (do c ← content; some (some (octstr_binary_to_hex c))) in
      if data_coding == 0 then some content else as_hex

  unfoldable pub esme_row :
      Octstr → Octstr → Octstr → Octstr → Bool → CommandStatus → SubmitPdu → Option SmppEsmeRow
  unfolding retry_of content_of
  esme_row account id time ip dndcheck status pdu = do
    content ← content_of pdu.data_coding pdu.short_message
    some (record {
      account_name = account;
      account_msg_id = id;
      req_time = time;
      source_addr = pdu.source_addr;
      dest_addr = pdu.destination_addr;
      msg_content = content;
      submit_status = status;
      esm_class = pdu.esm_class;
      data_coding = pdu.data_coding;
      more_messages_to_send = pdu.more_messages_to_send;
      ip = ip;
      dnd_flag = (if dndcheck then pos 0 else minus_one);
      retry_value = retry_of pdu.user_response_code;
    })

  -- the message of `mis_db_insert`
  unfoldable pub mis_row :
      Octstr → Octstr → Octstr → Octstr → CommandStatus → SubmitPdu → InsertMisRow
  unfolding retry_of message_len
  mis_row account id time ip status pdu = record {
    account_name = account;
    account_msg_id = id;
    smsc_id = octstr_imm "";
    smsc_msg_id = octstr_imm "";
    req_time = time;
    source_addr = pdu.source_addr;
    dest_addr = pdu.destination_addr;
    submit_status = status;
    esm_class = pdu.esm_class;
    message_len = message_len pdu.short_message;
    msg_content = pdu.short_message;
    retry_value = retry_of pdu.user_response_code;
    ip = ip;
  }
