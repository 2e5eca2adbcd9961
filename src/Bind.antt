-- ===== src/Bind.antt =====
-- The bind handlers of smpp-esme/smpp_esme.c: `handle_bind_transmitter`, `handle_bind_receiver` and
-- `handle_bind_transceiver`, with `check_server_connections`.
pub mod Answered
mod Tests
use smpp_server.Prelude.{
  ℕ, Bool, true, false, not, ◌&&◌, ◌||◌, Option, none, some, List, ◌==◌, ltb, length, if◌then◌else◌,
}
use smpp_server.Prelude.Int.{ℤ, pos, negsuc, minus_one, eqz}
use smpp_server.Prelude.Options.{◌>>=◌}
use smpp_server.Gwlib.{Gwlib, Env}
use smpp_server.Config.{Client}
use smpp_server.Smscs.{SmscConn}
use smpp_server.Registry.{Esme}
use smpp_server.Authorise.{TempConn, BindPdu, Verdict, authorise_user}
use smpp_server.Pdu.{
  CommandStatus, rok, rbindfail, rinvcmdid, rinvsysid, rinvpaswd, ralynbd, rinvexpiry, rinvmsgid,
  rinvprtflg,
}

-- The three process clients: `none` is NULL, else whether its status is PROCESS_CONNECTED.
pub record Processes : Type 0 where
  pub dbbox_client : Option Bool
  pub forward_client : Option Bool
  pub reverse_client : Option Bool
  pub dbbox_connected_to_client : ℤ

abbrev pub is_connected : Option Bool → Bool
is_connected none = false
is_connected (some b) = b

-- 0 or -1
unfoldable pub check_server_connections : Processes → ℤ
check_server_connections p =
    if is_connected p.dbbox_client
      && is_connected p.forward_client
      && is_connected p.reverse_client
      && eqz p.dbbox_connected_to_client (pos 1)
    then pos 0
    else minus_one

-- The status of a receiver's or transceiver's response; `created` is what `smpp_pdu_create` puts
-- there.
pub status_of_code : CommandStatus → ℤ → CommandStatus
status_of_code created code =
    if eqz code (pos 0)
    then rok
    else if eqz code (pos 1)
    then rinvsysid
    else if eqz code (pos 2)
    then rinvpaswd
    else if eqz code (pos 3)
    then rinvcmdid
    else if eqz code (pos 6)
    then ralynbd
    else if eqz code (pos 4)
    then rinvexpiry
    else if eqz code (pos 5)
    then rinvexpiry
    else if eqz code (pos 7)
    then rinvmsgid
    else if eqz code (pos 8)
    then rinvprtflg
    else if eqz code (pos 9)
    then rinvprtflg
    else if eqz code (pos 10)
    then rbindfail
    else created

module _ ⦃gw : Gwlib⦄ where
  open gw use {Octstr}

  -- The globals of the handlers.
  pub record BindServer : Type 0 where
    pub running : Bool  -- program_status == PROGRAM_RUNNING
    pub processes : Processes
    pub trans_port : ℤ
    pub recv_port : ℤ
    pub trans_recv_port : ℤ
    pub smsc_system_id : Octstr
    pub translations : List Client
    pub smsc_list : List SmscConn
    pub esmes : List Esme
    pub created_status : CommandStatus

  -- MSG_BIND_INFO with the fields of its response, and the state that is left.
  pub record Bound : Type 0 where
    pub command_status : CommandStatus
    pub sequence_number : ℕ
    pub system_id : Octstr
    pub sc_interface_version : ℕ
    pub esme : Option Esme
    pub esmes : List Esme
    pub temp : TempConn

  unfoldable pub answer :
      BindServer → BindPdu → CommandStatus → Option Esme → List Esme → TempConn → Bound
  answer sv pdu status esme esmes temp = record {
    command_status = status;
    sequence_number = pdu.sequence_number;
    system_id = sv.smsc_system_id;
    sc_interface_version = 0x34;
    esme = esme;
    esmes = esmes;
    temp = temp;
  }

  -- A response before `authorise_user` is asked.
  pub turn_down : BindServer → BindPdu → CommandStatus → TempConn → Bound
  unfolding answer
  turn_down sv pdu status temp = answer sv pdu status none sv.esmes temp

  abbrev pub is_given : Option Esme → Bool
  is_given none = false
  is_given (some e) = true

  pub has_tx : Option Esme → Bool
  has_tx none = false
  has_tx (some e) = ltb 0 (length e.tx_esme)

  pub has_rx : Option Esme → Bool
  has_rx none = false
  has_rx (some e) = ltb 0 (length e.rx_esme)

  -- Sets bind_successful by the result and the sessions of the account.
  pub with_success : Bool → TempConn → TempConn
  with_success b temp = record temp { bind_successful = b }

  -- The status of a transmitter's response. The list of sessions of an account is never NULL.
  pub transmitter_status : CommandStatus → ℤ → Option Esme → CommandStatus
  transmitter_status created code esme =
      if eqz code (pos 0) && is_given esme
      then rok
      else if eqz code (pos 1)
          || eqz code (pos 2)
          || eqz code (pos 3)
          || eqz code (pos 6)
          || eqz code (pos 4)
          || eqz code (pos 5)
          || eqz code (pos 7)
          || eqz code (pos 8)
          || eqz code (pos 9)
          || eqz code (pos 10)
          || eqz code minus_one
      then rbindfail
      else created

  unfoldable pub admit_transmitter : BindServer → BindPdu → Verdict → Bound
  unfolding answer
  admit_transmitter sv pdu v =
      answer sv pdu (transmitter_status sv.created_status v.code v.esme) v.esme v.esmes
        (with_success (eqz v.code (pos 0) && has_tx v.esme) v.temp)

  pub admit_receiver : BindServer → BindPdu → Verdict → Bound
  unfolding answer
  admit_receiver sv pdu v =
      answer sv pdu (status_of_code sv.created_status v.code) v.esme v.esmes
        (with_success (eqz v.code (pos 0) && has_rx v.esme) v.temp)

  pub admit_transceiver : BindServer → BindPdu → Verdict → Bound
  unfolding answer
  admit_transceiver sv pdu v =
      answer sv pdu (status_of_code sv.created_status v.code) v.esme v.esmes
        (with_success (eqz v.code (pos 0) && has_tx v.esme) v.temp)

  -- The verdict of `authorise_user` on a bind of a mode.
  abbrev pub ask : BindServer → Env → ℕ → TempConn → BindPdu → Option Verdict
  ask sv env mode temp pdu = authorise_user env mode sv.translations sv.smsc_list sv.esmes temp pdu

  -- As in `authorise_user`, `none` is a failed assertion.
  unfoldable pub handle_bind_transmitter : BindServer → Env → TempConn → BindPdu → Option Bound
  unfolding turn_down admit_transmitter
  handle_bind_transmitter sv env temp pdu =
      if not sv.running
      then some (turn_down sv pdu rbindfail temp)
      else if not (eqz (pos temp.listen_port) sv.trans_port)
      then some (turn_down sv pdu rbindfail temp)
      else if eqz (check_server_connections sv.processes) minus_one
      then some (turn_down sv pdu rbindfail temp)
      else ask sv env 1 temp pdu >>= λ v. some (admit_transmitter sv pdu v)

  unfoldable pub handle_bind_receiver : BindServer → Env → TempConn → BindPdu → Option Bound
  unfolding turn_down admit_receiver
  handle_bind_receiver sv env temp pdu =
      if not sv.running
      then some (turn_down sv pdu rbindfail temp)
      else if not (eqz (pos temp.listen_port) sv.recv_port)
      then some (turn_down sv pdu rinvcmdid temp)
      else if eqz (check_server_connections sv.processes) minus_one
      then some (turn_down sv pdu rinvcmdid temp)
      else ask sv env 2 temp pdu >>= λ v. some (admit_receiver sv pdu v)

  unfoldable pub handle_bind_transceiver : BindServer → Env → TempConn → BindPdu → Option Bound
  unfolding turn_down admit_transceiver
  handle_bind_transceiver sv env temp pdu =
      if not sv.running
      then some (turn_down sv pdu rbindfail temp)
      else if not (eqz (pos temp.listen_port) sv.trans_recv_port)
      then some (turn_down sv pdu rinvcmdid temp)
      else if eqz (check_server_connections sv.processes) minus_one
      then some (turn_down sv pdu rinvcmdid temp)
      else ask sv env 3 temp pdu >>= λ v. some (admit_transceiver sv pdu v)
