-- ===== src/Requests.antt =====
-- The messages of the other processes: `handle_request` of smpp-esme/smpp_esme.c.
pub mod Effects
mod Tests
use smpp_server.Prelude.{
  ℕ, suc, ◌+◌, Bool, Option, none, some, List, [], ◌∷◌, ◌++◌, ltb, if◌then◌else◌,
}
use smpp_server.Prelude.Int.{ℤ, pos}
use smpp_server.Gwlib.{Gwlib}
use smpp_server.Session.{Deliver}
use smpp_server.Config.{Client}
use smpp_server.Smscs.{SmscConn, InfoSmsc, prepare_smsc_list, update_smsc_list}
use smpp_server.Registry.{Esme, SessionStr, tx, rx, is_present_esme, extract_esme, update_esme_conn}
use smpp_server.Authorise.{replace_esme}
use smpp_server.Dispatch.{put_session}

module _ ⦃gw : Gwlib⦄ where
  open gw use {Octstr, octstr_format_pair}

  pub data AdminCommand : Type 0 where
    admin_register : Octstr → AdminCommand
    admin_cmd_dbbox_disconnected admin_cmd_dbbox_connected : AdminCommand

  -- values_got: the account that the database names for a delivery
  pub record ValuesGot : Type 0 where
    pub found : Bool  -- result == 1
    pub account_name : Octstr
    pub account_msg_id : Octstr
    pub smsc_msg_id : Octstr
    pub dest_addr : Octstr
    pub pdu : Octstr

  -- Conn_Msg, by its types
  pub data ConnMsg : Type 0 where
    admin : AdminCommand → ConnMsg
    no_of_smsc : ℕ → ConnMsg
    info_smsc : InfoSmsc → ConnMsg
    global_q_msg : ℤ → ConnMsg
    deliver : (smsc_msg_id dest_addr pdu : Octstr) → ConnMsg
    values_got : ValuesGot → ConnMsg
    other_msg : ConnMsg

  -- The globals of the handler, and the connection that the message came on. The static variables
  -- total_smsc and smsc_data_recieved are held plus 1, since they start at -1; the second is then
  -- the number of smscs that are gathered. pending_deliver_sm holds the calls of dict_put, the last
  -- first: no code removes or reads an entry.
  pub record Front : Type 0 where
    pub running : Bool
    pub conn_id : Option Octstr
    pub dbbox_connected_to_client : ℤ
    pub dbbox_connected : Bool  -- dbbox_client->status == PROCESS_CONNECTED
    pub total_smsc_1 : ℕ
    pub gathered : ℕ
    pub smsc_list : List SmscConn
    pub global_q_limit : ℤ
    pub pending_deliver_sm : List (Octstr × Octstr)
    pub translations : List Client
    pub esmes : List Esme

  pub handle_admin : AdminCommand → Front → Front
  handle_admin (admin_register id) f = record f { conn_id = some id }
  handle_admin admin_cmd_dbbox_disconnected f = record f { dbbox_connected_to_client = pos 0 }
  handle_admin admin_cmd_dbbox_connected f = record f { dbbox_connected_to_client = pos 1 }

  pub handle_info_smsc : InfoSmsc → Front → Front
  handle_info_smsc m f =
      if ltb (f.gathered + 1) f.total_smsc_1
      then record f { gathered = f.gathered + 1; smsc_list = prepare_smsc_list m f.smsc_list }
      else let smscs = update_smsc_list m f.smsc_list in
        record f { smsc_list = smscs; esmes = update_esme_conn f.translations smscs f.esmes }

  pub deliver_of : ValuesGot → Deliver
  deliver_of v = record {
    smsc_id = v.dest_addr;
    smsc_msg_id = v.smsc_msg_id;
    account_msg_id = v.account_msg_id;
    os = v.pdu;
  }

  -- gwlist_produce on the session's queue
  pub produce : Deliver → SessionStr → SessionStr
  produce d (tx s) = tx (record s { data_to_write = s.data_to_write ++ d ∷ [] })
  produce d (rx s) = rx (record s { data_to_write = s.data_to_write ++ d ∷ [] })

  -- Queues a delivery for a session of its account, if one is drawn.
  pub handle_values_got : (ℕ → ℕ) → ValuesGot → List Esme → List Esme
  unfolding produce deliver_of
  handle_values_got rand v es = elim (is_present_esme v.account_name es) [
    | none ↦ es
    | some e ↦ elim (extract_esme v.account_name rand es) [
      | none ↦ es
      | some (s, mode) ↦ replace_esme v.account_name (put_session (produce (deliver_of v) s) e) es
    ]
  ]

  pub handle_running : (ℕ → ℕ) → ConnMsg → Front → Front
  unfolding handle_admin handle_info_smsc handle_values_got
  handle_running rand (admin c) f = handle_admin c f
  handle_running rand (no_of_smsc n) f = record f {
    total_smsc_1 = n + 1;
    gathered = 0;
    smsc_list = [];
  }
  handle_running rand (info_smsc m) f = handle_info_smsc m f
  handle_running rand (global_q_msg n) f = record f { global_q_limit = n }
  handle_running rand (deliver id addr pdu) f =
      if f.dbbox_connected
      then record f {
        pending_deliver_sm = (octstr_format_pair id addr, pdu) ∷ f.pending_deliver_sm;
      }
      else f
  handle_running rand (values_got v) f =
      if v.found then record f { esmes = handle_values_got rand v f.esmes } else f
  handle_running rand other_msg f = f

  -- `rand` are the draws of gw_rand.
  unfoldable pub handle_request : (ℕ → ℕ) → ConnMsg → Front → Front
  unfolding handle_running
  handle_request rand m f = if f.running then handle_running rand m f else f
