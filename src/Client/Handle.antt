-- ===== src/Client/Handle.antt =====
-- The PDUs of an SMSC: `handle_pdu` of smpp-smsc/smsc_smpp.c.
pub mod Removed
pub mod Window
pub mod Rebind
use Prim.Native.Nat.{bit_and}
use text.Mathlib.Text.{◌==◌ as str_eq}
use smpp_server.Prelude.{
  ℕ, ◌+◌, ◌-◌, Bool, true, false, not, ◌&&◌, ◌||◌, Option, none, some, List, [], ◌∷◌, ◌++◌, ◌==◌,
  ltb, leb, if◌then◌else◌,
}
use smpp_server.Prelude.Int.{ℤ, pos, negsuc, minus_one, eqz}
use smpp_server.Prelude.Options.{◌>>=◌}
use smpp_server.Gwlib.{Gwlib, counter_increase}
use smpp_server.Client.Calls.{Calls, SmPdu}
use smpp_server.Client.Msg.{Msg, MsgState, msg_sent_resp}
use smpp_server.Client.Conn.{
  Conn, ConnStatus, Smpp, SentMsg, is_active, smscconn_active, smscconn_active_recv,
  smscconn_disconnected,
}
use smpp_server.Client.Receipt.{DeliverSm, msg_id_of, receipt_status, receipt_text, receipt_addr}
use smpp_server.Client.Send.{Link, decz}
use smpp_server.Client.Status.{
  Status, rok, rx_t_appn, rinvcmdid, is_rok, is_throttled, is_wrong_login, Reason, smscconn_success,
  smpp_status_to_smscconn_failure_reason, smscconn_failure_reason_to_smpp_status,
}
use smpp_server.Client.Outgoing.{Outgoing, smscconn_send_failed, smscconn_sent}
use smpp_server.Client.Mis.{DbRow, insert_status, StatusRow, mis_db_insert}

module _ ⦃gw : Gwlib⦄ where
  open gw use {
    Octstr, octstr_same, octstr_imm, octstr_len, octstr_from_position, octstr_check_digits,
  }

  -- The PDUs, by their types, with the fields that are read.
  pub data SmscPdu : Type 0 where
    data_sm : (sequence_number : ℕ) → SmscPdu
    deliver_sm : DeliverSm → SmscPdu
    enquire_link : (sequence_number : ℕ) → SmscPdu
    enquire_link_resp : SmscPdu
    submit_sm_resp : (sequence_number : ℕ) → Status → (message_id : Octstr) → SmscPdu
    bind_transmitter_resp bind_transceiver_resp bind_receiver_resp : Status → SmscPdu
    unbind : (sequence_number : ℕ) → SmscPdu
    unbind_resp : SmscPdu
    generic_nack : (sequence_number : ℕ) → Status → SmscPdu
    other_pdu : (sequence_number : ℕ) → SmscPdu

  -- What is written back.
  pub data Answer : Type 0 where
    data_sm_resp deliver_sm_resp : (sequence_number : ℕ) → Status → Answer
    enquire_link_resp unbind_resp : (sequence_number : ℕ) → Answer
    generic_nack : (sequence_number : ℕ) → Status → Answer

  -- A connection's thread: the connection, its window, the queue of the process, and what is sent
  -- to the database box and to the SMSC.
  pub record Io : Type 0 where
    pub conn : Conn
    pub pending_submits : ℤ
    pub outgoing : Outgoing
    pub to_dbbox : List DbRow
    pub answers : List Answer
    pub incoming_msg_counter : ℕ
    pub outgoing_msg_counter : ℕ

  abbrev pub with_smpp : Smpp → Io → Io
  with_smpp s io = record io { conn = record (io.conn) { smpp = s } }

  abbrev pub with_status : ConnStatus → Io → Io
  with_status s io = record io { conn = record (io.conn) { status = s } }

  abbrev pub answer : Answer → Io → Io
  answer a io = record io { answers = io.answers ++ a ∷ [] }

  -- the part that `send_messages` works on
  abbrev pub link_of : Io → Link
  link_of io = record { smpp = io.conn.smpp; pending_submits = io.pending_submits; written = [] }

  -- `dict_remove`: the entry, and the entries that are left
  unfoldable pub dict_remove : ℕ → List (ℕ × SentMsg) → Option (SentMsg × List (ℕ × SentMsg))
  dict_remove n [] = none
  dict_remove n ((k, s) ∷ d) =
      let rest = (do (x, d') ← dict_remove n d; some (x, (k, s) ∷ d')) in
      if k == n then some (s, d) else rest

  pub handle_deliver_sm : Calls → DeliverSm → Io → Io
  unfolding receipt_addr receipt_text receipt_status msg_id_of
  handle_deliver_sm c p io =
      let text = receipt_text p in
      let row = insert_status (record {
        smsc_id = io.conn.id;
        smsc_msg_id = msg_id_of c io.conn.smpp.smpp_msg_id_type 2 (c.receipt_id text);
        dest_addr = receipt_addr c io.conn.smpp.deliver_sm_source p;
        deliver_status = receipt_status (c.receipt_stat text);
      }) in
      let status =
        if io.conn.is_stopped
        then rx_t_appn
        else smscconn_failure_reason_to_smpp_status smscconn_success in
      answer (deliver_sm_resp p.sequence_number status) (record io {
        incoming_msg_counter = counter_increase io.incoming_msg_counter;
        to_dbbox = io.to_dbbox ++ row ∷ [];
      })

  -- The message is answered by an error: it fails for the reason that the status gives.
  pub answered_error : ℕ → Msg → Status → Io → Io
  answered_error now m status io =
      let k = record (io.conn) {
        smpp = record (io.conn.smpp) {
          throttling_err_time = (if is_throttled status then now else 0);
        };
      } in
      let (k', o) =
        smscconn_send_failed now k m (smpp_status_to_smscconn_failure_reason status) io.outgoing in
      record io { conn = k'; outgoing = o; pending_submits = decz io.pending_submits }

  pub answered_ok : Io → Io
  answered_ok io = record io {
    conn = smscconn_sent io.conn;
    outgoing_msg_counter = counter_increase io.outgoing_msg_counter;
    pending_submits = decz io.pending_submits;
  }

  pub answered : ℕ → Msg → Status → Io → Io
  unfolding answered_error answered_ok
  answered now m status io =
      if is_rok status then answered_ok io else answered_error now m status io

  -- `none` is a PDU that cannot be unpacked, which is read through NULL.
  pub handle_submit_sm_resp : Calls → ℕ → ℕ → Status → Octstr → Io → Option Io
  unfolding answered dict_remove msg_id_of
  handle_submit_sm_resp c now n status id io = elim (dict_remove n io.conn.smpp.sent_msgs) [
    | none ↦ some io
    | some (s, d) ↦ do
      os ← s.msg.sm_info.pdu
      p ← c.smpp_pdu_unpack (octstr_from_position os 4)
      let row =
          mis_db_insert s.msg.sm_info (some (io.conn.id))
            (some (msg_id_of c io.conn.smpp.smpp_msg_id_type 1 id)) p status
      let io' = with_smpp (record (io.conn.smpp) { sent_msgs = d }) io
      some (
          answered now (record (s.msg) { msg_state = msg_sent_resp }) status
            (record io' { to_dbbox = io.to_dbbox ++ row ∷ [] }))
  ]

  pub handle_generic_nack : ℕ → ℕ → Status → Io → Io
  unfolding answered_error dict_remove
  handle_generic_nack now n status io = elim (dict_remove n io.conn.smpp.sent_msgs) [
    | none ↦ io
    | some (s, d) ↦
        answered_error now s.msg status (with_smpp (record (io.conn.smpp) { sent_msgs = d }) io)
  ]

  pub rejected_login : Status → Io → Io
  rejected_login status io =
      if is_wrong_login status then with_smpp (record (io.conn.smpp) { quitting = true }) io else io

  -- The connection can send: the window starts.
  pub online : ℕ → Io → Io
  online now io = record io {
    conn = record (io.conn) { status = smscconn_active; connect_time = now };
    pending_submits = pos 0;
  }

  pub handle_bind_resp : ℕ → Status → Io → Io
  unfolding online rejected_login
  handle_bind_resp now status io = if is_rok status then online now io else rejected_login status io

  pub handle_bind_receiver_resp : ℕ → Status → Io → Io
  unfolding rejected_login
  handle_bind_receiver_resp now status io =
      if is_rok status
      then (if is_active io.conn.status then io else record io {
        conn = record (io.conn) { status = smscconn_active_recv; connect_time = now };
      })
      else rejected_login status io

  unfoldable pub handle_pdu : Calls → ℕ → SmscPdu → Io → Option Io
  unfolding handle_deliver_sm handle_submit_sm_resp handle_generic_nack handle_bind_resp
      handle_bind_receiver_resp
  handle_pdu c now (data_sm n) io = some (
      answer (data_sm_resp n (if io.conn.is_stopped then rx_t_appn else rok))
        (record io { incoming_msg_counter = counter_increase io.incoming_msg_counter }))
  handle_pdu c now (deliver_sm p) io = some (handle_deliver_sm c p io)
  handle_pdu c now (enquire_link n) io = some (answer (Answer.enquire_link_resp n) io)
  handle_pdu c now SmscPdu.enquire_link_resp io = some io
  handle_pdu c now (submit_sm_resp n status id) io = handle_submit_sm_resp c now n status id io
  handle_pdu c now (bind_transmitter_resp status) io = some (handle_bind_resp now status io)
  handle_pdu c now (bind_transceiver_resp status) io = some (handle_bind_resp now status io)
  handle_pdu c now (bind_receiver_resp status) io = some (handle_bind_receiver_resp now status io)
  handle_pdu c now (unbind n) io =
      some (answer (Answer.unbind_resp n) (with_status smscconn_disconnected io))
  handle_pdu c now SmscPdu.unbind_resp io = some (with_status smscconn_disconnected io)
  handle_pdu c now (SmscPdu.generic_nack n status) io = some (handle_generic_nack now n status io)
  handle_pdu c now (other_pdu n) io = some (answer (Answer.generic_nack n rinvcmdid) io)
