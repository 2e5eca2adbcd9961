-- ===== src/Samples/Upstream.antt =====
-- The calls of smpp-smsc over lists of bytes, and data for the tests of smpp-smsc.
use smpp_server.Prelude.{ℕ, zero, suc, true, false, none, some, List, [], ◌∷◌, ◌++◌}
use smpp_server.Prelude.Int.{ℤ, pos, minus_one}
use smpp_server.Client.Calls.{Calls, SmPdu}
use smpp_server.Client.Msg.{Msg, msg_not_routed}
use smpp_server.Client.Conn.{Conn, Smpp, SentMsg, smscconn_active, smscconn_alive}
use smpp_server.Client.Send.{Settings}
use smpp_server.Client.Outgoing.{Outgoing}
use smpp_server.Client.Handle.{Io}
use smpp_server.Samples.Bytes.{Text, bytes, bytes_gw, all_digits}
use smpp_server.Samples.Codec.{pack, unpack, unpack-pack}

abbrev first : ℕ → Text → Text
first zero t = []
first (suc n) [] = []
first (suc n) (c ∷ t) = c ∷ first n t

abbrev pub calls : Calls
calls = record {
  smpp_pdu_pack = pack;
  smpp_pdu_unpack = unpack;
  smpp_pdu_unpack-pack = unpack-pack;
  gw_regex_match_pre = λ p s. false;
  octstr_isnum = all_digits;
  octstr_append = λ s t. s ++ t;
  octstr_prefix = λ s n. first n s;
  charset_latin1_to_gsm = λ s. s;
  charset_latin1_to_gsm_new = λ s. s;
  strtoll = λ s base. s;
  receipt_id = λ s. s;
  receipt_stat = λ s. s;
  esm_class_deliver_udh_indicator = 64;
  gsm_addr_ton_national = pos 2;
  gsm_addr_npi_e164 = pos 1;
  user_response_code_created = minus_one;
}

abbrev pub settings : Settings
settings = record { dndcheck_flag = false; compare_smsc_string = none }

-- A submit from one number to another.
abbrev pub submit : SmPdu
submit = record {
  is_submit_sm = true;
  sequence_number = 5;
  service_type = none;
  source_addr = bytes "4917";
  source_addr_ton = pos 1;
  source_addr_npi = pos 1;
  destination_addr = bytes "919812345678";
  dest_addr_ton = pos 1;
  dest_addr_npi = pos 1;
  esm_class = 0;
  priority_flag = pos 0;
  registered_delivery = 1;
  data_coding = 0;
  more_messages_to_send = pos 0;
  short_message = bytes "hi";
  user_response_code = minus_one;
}

-- A message of the account acme, with the positions of its SMSCs.
abbrev pub message : Text → List ℤ → List ℤ → Msg
message id preferred allowed = record {
  sm_info = record {
    pdu = some (pack submit);
    account_name = bytes "acme";
    account_msg_id = id;
    req_time = bytes "12:00";
    client_ip = bytes "10.0.0.1";
  };
  routing_info = record {
    preferred_smsc = preferred;
    allowed_smsc = allowed;
    source_addr = bytes "4917";
    destination_addr = bytes "919812345678";
    data_coding = 0;
    esm_class = 0;
    more_messages_to_send = pos 0;
    content = bytes "hi";
  };
  retries = 0;
  msg_state = msg_not_routed;
  msg_retry_time = 0;
  failed_smsc_id = none;
}

-- The data of a connection, whose window has room for one submit.
abbrev pub smpp : List Msg → List (ℕ × SentMsg) → Smpp
smpp queue sent = record {
  msgs_to_send = queue;
  sent_msgs = sent;
  message_id_counter = 9;
  quitting = false;
  throttling_err_time = 0;
  service_type = none;
  masking_prefix = some (bytes "DM-");
  source_addr_ton = minus_one;
  source_addr_npi = minus_one;
  dest_addr_ton = minus_one;
  dest_addr_npi = minus_one;
  priority = pos 0;
  alt_charset = none;
  max_pending_submits = pos 1;
  enquire_link_interval = pos 30;
  connection_timeout = pos 300;
  wait_ack = pos 60;
  wait_ack_action = pos 1;
  smpp_msg_id_type = minus_one;
  deliver_sm_source = pos 1;
}

-- A connection that is active, and has been given a number of messages.
abbrev pub connection : Text → ℕ → Smpp → Conn
connection id received s = record {
  id = id;
  smsc_type = bytes "all";
  status = smscconn_active;
  why_killed = smscconn_alive;
  load = 0;
  mode = 3;
  bind_sent = true;
  is_stopped = false;
  connect_time = 100;
  received = received;
  sent = 0;
  failed = 0;
  allowed_prefix = some (bytes "91");
  denied_prefix = none;
  allowed_prefix_regex = none;
  denied_prefix_regex = none;
  smpp = s;
}

abbrev pub no_outgoing : Outgoing
no_outgoing = record {
  outgoing_msg = [];
  global_q_min = minus_one;
  global_q_max = minus_one;
  q_limits = [];
}

abbrev pub io_of : Conn → ℤ → Io
io_of k pending = record {
  conn = k;
  pending_submits = pending;
  outgoing = no_outgoing;
  to_dbbox = [];
  answers = [];
  incoming_msg_counter = 0;
  outgoing_msg_counter = 0;
}
