-- ===== src/Submit.antt =====
-- `handle_submit_sm` of smpp-esme/smpp_esme.c: a submit on a session.
pub mod Decided
pub mod Accounts
pub mod Accepted
pub mod Shape
mod Tests
use smpp_server.Prelude.{
  ℕ, ◌+◌, ◌-◌, ◌^◌, Bool, true, false, not, ◌&&◌, ◌||◌, Option, none, some, List, [], ◌∷◌, ◌++◌,
  ◌==◌, leb, if◌then◌else◌,
}
use smpp_server.Prelude.Int.{ℤ, pos, negsuc, minus_one, eqz, lez}
use smpp_server.Prelude.Options.{◌>>=◌}
use smpp_server.Gwlib.{Gwlib, Env, counter_increase}
use smpp_server.Session.{
  TxSession, Status, esme_binded, esme_smsc_unconnected, esme_unconnected, esme_disconnect,
  esme_send_unbind,
}
use smpp_server.Config.{Client}
use smpp_server.Smscs.{SmscConn}
use smpp_server.Registry.{Esme, SessionStr, tx, rx, max_submits_unct_account}
use smpp_server.Pdu.{
  CommandStatus, rok, rmsgqful, rcancelfail, rsubmitfail, server_status, is_ok, SubmitPdu,
}
use smpp_server.VerifyPdu.{Verified, verify_pdu_para}
use smpp_server.Route.{SeriesConf, Route, rout_pdu}
use smpp_server.Messages.{
  SubmitMsg, DbMsg, smpp_esme, insert_mis, send_msg_dbbox_server, esme_row, mis_row,
}

-- `counter_value(c) >= limit`: the limit becomes an unsigned long.
abbrev pub reaches : ℕ → ℤ → Bool
reaches n (pos limit) = leb limit n
reaches n (negsuc k) = leb (2 ^ 64 - 1 - k) n

module _ ⦃gw : Gwlib⦄ where
  open gw use {Octstr, octstr_format_id}

  -- The globals that the handler reads and writes, with the accounts and the SMSCs.
  pub record Server : Type 0 where
    pub running : Bool  -- program_status == PROGRAM_RUNNING
    pub forward_connected : Bool
    pub reverse_connected : Bool
    pub dbbox_client : Bool  -- not NULL
    pub send_list_len : ℕ
    pub smsc_q_limit : ℤ
    pub global_q_limit : ℤ
    pub dndcheck_flag : ℤ
    pub series : SeriesConf
    pub translations : List Client
    pub smsc_list : List SmscConn
    pub num_from_esme : ℕ
    pub last_from_esme : ℕ
    pub counter : ℕ  -- the handler's static long

  -- The clock, read again after a sleep and for the message id, and as text.
  pub record Clock : Type 0 where
    pub start_t : ℕ
    pub reset_t : ℕ
    pub timestamp : ℕ
    pub current_datetime : Octstr

  -- The throttle: more messages than max_tps since the last reset start a new count, after a second
  -- of sleep if the clock has not moved.
  pub throttle : Clock → Esme → Esme
  throttle clock e =
      if not (lez (pos e.msg_count) e.max_tps)
      then record e { esm_time = clock.reset_t; msg_count = 0 }
      else e

  pub sleeps : Clock → Esme → Bool
  sleeps clock e = not (lez (pos e.msg_count) e.max_tps) && clock.start_t == e.esm_time

  pub queue_full : Server → Bool
  queue_full sv =
      (not sv.reverse_connected || not sv.forward_connected)
      && not (eqz sv.smsc_q_limit minus_one)
      && eqz (pos sv.send_list_len) sv.smsc_q_limit

  pub count_submit : TxSession → TxSession
  count_submit s = record s { submits_unconnect = counter_increase s.submits_unconnect }

  -- The limits on submits, by the session's status; `none` is SMPP_ESME_RMSGQFUL.
  pub limit_submits : Esme → TxSession → Option TxSession
  limit_submits e s = elim s.status [
    | esme_smsc_unconnected ↦
        (if not (eqz e.max_submits_unconnect minus_one)
            && lez e.max_submits_unconnect (max_submits_unct_account e)
          then none
          else some (count_submit s))
    | esme_binded ↦
        (if not (eqz e.max_submits minus_one) && reaches s.msg_received e.max_submits
          then none
          else some (count_submit s))
    | esme_unconnected ↦ some s
    | esme_disconnect ↦ some s
    | esme_send_unbind ↦ some s
  ]

  -- What the part before the label `ret` leaves: the status of the response, the account, the
  -- session, and the message for the SMSC process.
  pub record Decision : Type 0 where
    pub status : CommandStatus
    pub esme : Esme
    pub session : TxSession
    pub forward : Option SubmitMsg

  pub reject : CommandStatus → Esme → TxSession → Decision
  reject status e s = record {
    status = status;
    esme = e;
    session = record s { msg_rejected = counter_increase s.msg_rejected };
    forward = none;
  }

  -- A message that is routed; its route's strings are set.
  pub accept :
      Server
      → Clock
      → Octstr
      → Esme
      → TxSession
      → SubmitPdu
      → Octstr
      → Octstr
      → List ℕ
      → List ℕ
      → Decision
  accept sv clock id e s pdu dest source preferred allowed =
      let m : SubmitMsg = record {
        req_time = clock.current_datetime;
        account_name = e.system_id;
        account_msg_id = id;
        destination_addr = dest;
        source_addr = source;
        pdu = pdu;
        ip = s.client_ip;
        preferred_smsc = preferred;
        allowed_smsc = allowed;
      } in
      record {
        status = rok;
        esme = record e { msg_count = e.msg_count + 1 };
        session = record s { msg_sent = counter_increase s.msg_sent };
        forward = (if eqz sv.dndcheck_flag (pos 0) then some m else none);
      }

  pub after_route :
      Server
      → Clock
      → Octstr
      → Esme
      → TxSession
      → SubmitPdu
      → Octstr
      → Octstr
      → Route
      → Option Decision
  after_route sv clock id e s pdu dest source r =
      let accepted = (do
        preferred ← r.preferred_smsc
        allowed ← r.allowed_smsc
        some (accept sv clock id e s pdu dest source preferred allowed)) in
      if eqz r.code minus_one then some (reject rsubmitfail e s) else accepted

  pub out_of_hours : Env → Esme → Bool
  out_of_hours env e = lez (pos env.hour) e.valid_time_from || lez e.valid_time_to (pos env.hour)

  pub route_submit :
      Server → Clock → Octstr → Esme → TxSession → SubmitPdu → Verified → Option Decision
  route_submit sv clock id e s pdu v = do
    dest ← v.dest_addr
    source ← v.source_addr
    r ← rout_pdu sv.series sv.translations sv.smsc_list (some dest) (some e.system_id)
    after_route sv clock id e s pdu dest source r

  -- The account goes on as the checks of the parameters left it.
  pub after_verify :
      Server → Env → Clock → Octstr → TxSession → SubmitPdu → Verified → Option Decision
  after_verify sv env clock id s pdu v =
      let routed = route_submit sv clock id v.esme s pdu v in
      if out_of_hours env v.esme
      then some (reject rcancelfail v.esme s)
      else if not (is_ok v.reason)
      then some (reject v.reason v.esme s)
      else routed

  pub check_submit : Server → Env → Clock → Octstr → Esme → TxSession → SubmitPdu → Option Decision
  check_submit sv env clock id e s pdu = elim (limit_submits e s) [
    | none ↦ some (reject rmsgqful e s)
    | some s' ↦ verify_pdu_para env e pdu >>= λ v. after_verify sv env clock id s' pdu v
  ]

  pub decide : Server → Env → Clock → Octstr → Esme → TxSession → SubmitPdu → Option Decision
  decide sv env clock id e s pdu =
      let checked = check_submit sv env clock id e s pdu in
      if not sv.running
      then some (reject (server_status 0x407) e s)
      else if queue_full sv
      then some (reject (server_status 0x409) e s)
      else if eqz sv.global_q_limit (pos 1)
      then some (reject (server_status 0x40A) e s)
      else checked

  -- The session is an element of the account's list: what is written through its pointer.
  unfoldable pub put_tx : TxSession → List TxSession → List TxSession
  put_tx s [] = []
  put_tx s (x ∷ xs) = if x.session_id == s.session_id then s ∷ xs else x ∷ put_tx s xs

  -- The response (its status and message id), the state, and the messages that are sent.
  pub record Submitted : Type 0 where
    pub command_status : CommandStatus
    pub message_id : Octstr
    pub server : Server
    pub esme : Esme
    pub session : TxSession
    pub to_smsc : Option SubmitMsg
    pub to_dbbox : List DbMsg

  pub mis_insert : Server → Octstr → Clock → Decision → SubmitPdu → List DbMsg
  mis_insert sv id clock d pdu =
      if is_ok d.status
      then []
      else send_msg_dbbox_server sv.dbbox_client (
          insert_mis
            (mis_row d.esme.system_id id clock.current_datetime d.session.client_ip d.status pdu))

  pub receive : ℕ → TxSession → TxSession
  receive mode s =
      if mode == 1 then record s { msg_received = counter_increase s.msg_received } else s

  -- The part after the label `ret`.
  pub conclude : Server → Clock → Octstr → ℕ → SubmitPdu → Decision → Option Submitted
  unfolding mis_insert receive
  conclude sv clock id mode pdu d = do
    row ←
        esme_row d.esme.system_id id clock.current_datetime d.session.client_ip
          (not (eqz sv.dndcheck_flag (pos 0))) d.status pdu
    let s = receive mode d.session
    some (record {
      command_status = d.status;
      message_id = id;
      server = sv;
      esme = record d.esme { tx_esme = put_tx s d.esme.tx_esme };
      session = s;
      to_smsc = d.forward;
      to_dbbox =
          send_msg_dbbox_server sv.dbbox_client (smpp_esme row) ++ mis_insert sv id clock d pdu;
    })

  -- The globals that every submit moves.
  pub arrived : Server → Clock → Server
  arrived sv clock = record sv {
    num_from_esme = counter_increase sv.num_from_esme;
    last_from_esme = clock.start_t;
    counter = sv.counter + 1;
  }

  pub submit_tx : Server → Env → Clock → Esme → TxSession → ℕ → SubmitPdu → Option Submitted
  unfolding arrived throttle decide conclude
  submit_tx sv env clock e s mode pdu =
      let sv' = arrived sv clock in
      let id = octstr_format_id s.msg_received clock.timestamp sv'.counter in
      decide sv' env clock id (throttle clock e) s pdu >>= λ d. conclude sv' clock id mode pdu d

  -- `none` is undefined behaviour. A receiver's session is among it: its message ids and status 0x400
  -- are set, but the part after the label reads the client's address through ESME_TX, where ESME_RX
  -- has its thread_id.
  unfoldable pub handle_submit_sm :
      Server → Env → Clock → Esme → SessionStr → ℕ → SubmitPdu → Option Submitted
  unfolding submit_tx
  handle_submit_sm sv env clock e (tx s) mode pdu = submit_tx sv env clock e s mode pdu
  handle_submit_sm sv env clock e (rx s) mode pdu = none
