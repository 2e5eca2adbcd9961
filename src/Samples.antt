-- ===== src/Samples.antt =====
-- A concrete `Gwlib` over lists of bytes, and the data that the tests share.
pub mod Bytes
pub mod Codec
pub mod Upstream
pub mod Traffic
use Prim.Native.String.{String}
use text.Mathlib.Text.{◌==◌}
use smpp_server.Prelude.{if◌then◌else◌, ℕ, ◌+◌, true, false, Option, none, some, List, [], ◌∷◌}
use smpp_server.Prelude.Int.{pos, minus_one}
use smpp_server.Gwlib.{Env, is_valid}
use smpp_server.Session.{TxSession, esme_binded}
use smpp_server.Config.{Client}
use smpp_server.Config.Parse.{CfgGroup}
use smpp_server.Smscs.{SmscConn}
use smpp_server.Registry.{Esme}
use smpp_server.Authorise.{TempConn, BindPdu}
use smpp_server.Pdu.{SubmitPdu}
use smpp_server.Samples.Bytes.{Text, bytes, bytes_gw}

abbrev pub acme : Text
acme = bytes "acme"

-- The clock says 12; every date is valid and every sender id is known.
abbrev pub noon : Env
noon = record {
  now = 1000;
  hour = 12;
  thread_self = 7;
  compare_date = λ a b. is_valid;
  check_sender_api = λ a b. true;
}

-- An account with two transmitters and two receivers at most, in the mode given.
abbrev pub client : Text → ℕ → Client
client name mode = record {
  account_name = name;
  password = bytes "secret";
  validfrom = bytes "2013-01-01";
  validto = bytes "2030-01-01";
  log_file = none;
  rx_log_file = none;
  allowed_prefix = none;
  denied_prefix = none;
  dedicated_smsc = none;
  preferred_smsc = none;
  log_level = pos 0;
  log_idx = minus_one;
  rx_log_idx = minus_one;
  enquire_link_interval = pos 30;
  max_submits_unconnect = pos 5;
  max_submits = pos 100;
  max_tps = pos 10;
  rx_allowed = false;
  allowed_mode = mode;
  dnds_check = pos 0;
  max_tx_sessions = pos 2;
  max_rx_sessions = pos 2;
  valid_time_from = pos 8;
  valid_time_to = pos 20;
}

abbrev pub clients : List Client
clients = client (bytes "other") 1 ∷ client acme 3 ∷ []

abbrev pub smsc : Text → ℕ → ℕ → SmscConn
smsc id status mode = record {
  smsc_id = id;
  smsc_type = bytes "smpp";
  conn_status = status;
  conn_mode = mode;
}

abbrev pub smscs : List SmscConn
smscs = smsc (bytes "A") 0 2 ∷ smsc (bytes "B") 1 3 ∷ []

abbrev pub tx_session : ℕ → TxSession
tx_session n = record {
  conn = 40 + n;
  msg_received = 0;
  msg_sent = 0;
  msg_rejected = 0;
  submits_unconnect = 0;
  session_id = n;
  seq_number = 1;
  client_ip = bytes "10.0.0.1";
  client_port = 5000;
  listen_port = 2775;
  start_time = 900;
  status = esme_binded;
  quit = false;
  mode = 3;
  thread_id = 6;
  data_to_write = [];
}

abbrev pub esme : Text → List TxSession → Esme
esme id ss = record {
  system_id = id;
  password = some (bytes "secret");
  system_type = none;
  address_range = none;
  interface_version = 52;
  addr_ton = 0;
  addr_npi = 0;
  enquire_link_interval = pos 30;
  allowed_prefix = some (bytes "1234");
  denied_prefix = none;
  log_file = none;
  rx_log_file = none;
  log_level = minus_one;
  log_idx = minus_one;
  rx_log_idx = none;
  tx_esme = ss;
  rx_esme = [];
  max_submits_unconnect = pos 5;
  max_submits = pos 100;
  max_tps = pos 10;
  msg_count = 0;
  dnd_check = pos 0;
  esm_time = 900;
  valid_time_from = pos 8;
  valid_time_to = pos 20;
}

abbrev pub temp_conn : TempConn
temp_conn = record {
  conn = 77;
  client_ip = bytes "10.0.0.2";
  client_port = 6000;
  listen_port = 2775;
  bind_successful = false;
  mode = 0;
  session_id = 0;
}

abbrev pub bind_pdu : BindPdu
bind_pdu = record {
  sequence_number = 1;
  system_id = some acme;
  password = some (bytes "secret");
  system_type = none;
  interface_version = 52;
  addr_ton = 0;
  addr_npi = 0;
  address_range = none;
}

abbrev pub submit_pdu : SubmitPdu
submit_pdu = record {
  sequence_number = 9;
  source_addr = some (bytes "1234");
  source_addr_ton = pos 0;
  source_addr_npi = pos 1;
  destination_addr = some (bytes "919812345678");
  dest_addr_ton = pos 1;
  dest_addr_npi = pos 1;
  esm_class = 0;
  priority_flag = pos 1;
  replace_if_present_flag = pos 0;
  data_coding = 0;
  short_message = some (bytes "hello");
  more_messages_to_send = pos 0;
  user_response_code = minus_one;
}

-- A configuration group for a transmitter that also receives.
abbrev pub read : String → Option Text
read key =
    if key == "account-name"
    then some acme
    else if key == "password"
    then some (bytes "secret")
    else if key == "mode"
    then some (bytes "tx")
    else if key == "validfrom"
    then some (bytes "2013-01-01")
    else if key == "validto"
    then some (bytes "2030-01-01")
    else none

abbrev pub group : CfgGroup
group = record {
  cfg_get_group_name = some (bytes "smpp-client");
  cfg_get = read;
  cfg_get_integer = λ key. none;
  cfg_get_bool = λ key. if key == "rx-allowed" then some true else none;
  log_open = λ file. pos 0;
}
