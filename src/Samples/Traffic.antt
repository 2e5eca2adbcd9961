-- ===== src/Samples/Traffic.antt =====
-- Servers for the tests of submits and of binds.
use smpp_server.Prelude.{true, some, none, List, [], ◌∷◌}
use smpp_server.Prelude.Int.{pos, minus_one}
use smpp_server.Config.{Client}
use smpp_server.Smscs.{SmscConn}
use smpp_server.Pdu.{rok}
use smpp_server.Route.{SeriesConf}
use smpp_server.Submit.{Server, Clock}
use smpp_server.Bind.{Processes, BindServer}
use smpp_server.Samples.{clients, smsc, smscs}
use smpp_server.Samples.Bytes.{bytes, bytes_gw}

abbrev pub series : SeriesConf
series = record {
  gsm_series = some (bytes "98");
  cdma_series = none;
  int_series = none;
  default_series = bytes "gsm";
}

abbrev pub gsm_smscs : List SmscConn
gsm_smscs = record (smsc (bytes "A") 1 1) { smsc_type = bytes "gsm" } ∷ []

abbrev pub server : Server
server = record {
  running = true;
  forward_connected = true;
  reverse_connected = true;
  dbbox_client = true;
  send_list_len = 0;
  smsc_q_limit = minus_one;
  global_q_limit = pos 0;
  dndcheck_flag = pos 0;
  series = series;
  translations = clients;
  smsc_list = gsm_smscs;
  num_from_esme = 0;
  last_from_esme = 0;
  counter = 0;
}

abbrev pub clock : Clock
clock = record {
  start_t = 1000;
  reset_t = 1000;
  timestamp = 1000;
  current_datetime = bytes "2013-08-01";
}

abbrev pub processes : Processes
processes = record {
  dbbox_client = some true;
  forward_client = some true;
  reverse_client = some true;
  dbbox_connected_to_client = pos 1;
}

-- A server whose only account has the mode given; all kinds of bind share a port.
abbrev pub bind_server : Client → BindServer
bind_server t = record {
  running = true;
  processes = processes;
  trans_port = pos 2775;
  recv_port = pos 2775;
  trans_recv_port = pos 2775;
  smsc_system_id = bytes "smsc";
  translations = t ∷ [];
  smsc_list = smscs;
  esmes = [];
  created_status = rok;
}
