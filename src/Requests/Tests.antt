-- ===== src/Requests/Tests.antt =====
-- A front end that gathers two SMSCs, and a delivery for an account that is online.
use smpp_server.Prelude.{ℕ, ◌+◌, ◌≡◌, refl, true, none, List, [], ◌∷◌, map}
use smpp_server.Prelude.Int.{pos}
use smpp_server.Smscs.{InfoSmsc}
use smpp_server.Registry.Valid.{RegistryValid}
use smpp_server.Registry.Tests.{accounts-RegistryValid, accounts}
use smpp_server.Requests.{Front, ConnMsg, values_got, info_smsc, no_of_smsc, handle_request}
use smpp_server.Requests.Effects.{
  handle_requests, smsc_of, handle_request-RegistryValid, handle_requests-gathers,
}
use smpp_server.Samples.{acme, clients, smscs}
use smpp_server.Samples.Bytes.{Text, bytes, bytes_gw}

abbrev front : Front
front = record {
  running = true;
  conn_id = none;
  dbbox_connected_to_client = pos 1;
  dbbox_connected = true;
  total_smsc_1 = 0;
  gathered = 0;
  smsc_list = smscs;
  global_q_limit = pos 0;
  pending_deliver_sm = [];
  translations = clients;
  esmes = accounts;
}

abbrev report : Text → InfoSmsc
report id = record { smsc_id = id; smsc_type = bytes "smpp"; conn_status = 1; conn_mode = 3 }

abbrev reports_in : List InfoSmsc
reports_in = report (bytes "C") ∷ report (bytes "D") ∷ []

abbrev found_values : ConnMsg
found_values = values_got (record {
  found = true;
  account_name = acme;
  account_msg_id = bytes "17";
  smsc_msg_id = bytes "ab";
  dest_addr = bytes "491";
  pdu = bytes "0000";
})

abbrev rolls : ℕ → ℕ
rolls k = k + 3

handle_request-RegistryValid_example :
    RegistryValid clients (handle_request rolls found_values front).esmes
handle_request-RegistryValid_example =
    handle_request-RegistryValid rolls found_values front accounts-RegistryValid

handle_requests-gathers_example :
    ((handle_requests rolls (no_of_smsc 2 ∷ map info_smsc reports_in) front).smsc_list
      ≡ map smsc_of reports_in)
    × ((handle_requests rolls (no_of_smsc 2 ∷ map info_smsc reports_in) front).esmes ≡ accounts)
handle_requests-gathers_example = handle_requests-gathers rolls reports_in front refl
