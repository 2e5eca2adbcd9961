-- ===== src/Submit/Tests.antt =====
-- A submit that is accepted and sent on, and one that meets a limit.
use smpp_server.Prelude.{◌≡◌, ◌≢◌, refl, some, none, [], ◌∷◌}
use smpp_server.Prelude.Int.{pos, minus_one}
use smpp_server.Session.{TxSession}
use smpp_server.Config.{find_username}
use smpp_server.Registry.{Esme, tx}
use smpp_server.Pdu.{rok, rcancelfail}
use smpp_server.Address.{is_npi, convert_addr_from_pdu}
use smpp_server.VerifyPdu.{
  verify_pdu_para, check_lengths, too_long, check_source, address_status, check_dest,
  with_addresses, after_sender, check_sender, check_rest, national_number, check_udh,
}
use smpp_server.Route.{
  rout_pdu, number_type, finish, preferred_all, dedicated_index, preferred_index, allowed_from,
  in_preferred, position, preferred_of, char_listed,
}
use smpp_server.Messages.{SmppEsmeRow, smpp_esme, insert_mis, esme_row, mis_row}
use smpp_server.Submit.{
  Submitted, mis_insert, receive, handle_submit_sm, queue_full, check_submit, limit_submits,
  after_verify, route_submit, after_route, count_submit, accept, reject, out_of_hours, put_tx,
  decide, conclude, submit_tx, throttle, arrived,
}
use smpp_server.Submit.Accounts.{Booked, handle_submit_sm-Booked}
use smpp_server.Submit.Accepted.{Accepted, handle_submit_sm-Accepted, handle_submit_sm-no_hours}
use smpp_server.Samples.{acme, esme, tx_session, noon, submit_pdu}
use smpp_server.Samples.Traffic.{server, clock}
use smpp_server.Samples.Bytes.{bytes, bytes_gw}

abbrev session : TxSession
session = tx_session 1

abbrev account : Esme
account = esme acme (session ∷ [])

abbrev after : TxSession
after = record session { submits_unconnect = 1; msg_sent = 1; msg_received = 1 }

abbrev row : SmppEsmeRow
row = record {
  account_name = acme;
  account_msg_id = bytes "010001";
  req_time = bytes "2013-08-01";
  source_addr = some (bytes "1234");
  dest_addr = some (bytes "919812345678");
  msg_content = some (bytes "hello");
  submit_status = rok;
  esm_class = 0;
  data_coding = 0;
  more_messages_to_send = pos 0;
  ip = bytes "10.0.0.1";
  dnd_flag = minus_one;
  retry_value = pos 0;
}

abbrev answered : Submitted
answered = record {
  command_status = rok;
  message_id = bytes "010001";
  server = record server { num_from_esme = 1; last_from_esme = 1000; counter = 1 };
  esme = record account { msg_count = 1; tx_esme = after ∷ [] };
  session = after;
  to_smsc = some (record {
    req_time = bytes "2013-08-01";
    account_name = acme;
    account_msg_id = bytes "010001";
    destination_addr = bytes "9812345678";
    source_addr = bytes "1234";
    pdu = submit_pdu;
    ip = bytes "10.0.0.1";
    preferred_smsc = [];
    allowed_smsc = 0 ∷ [];
  });
  to_dbbox = smpp_esme row ∷ [];
}

submit_answered :
    handle_submit_sm server noon clock account (tx session) 1 submit_pdu ≡ some answered
unfolding handle_submit_sm queue_full check_submit limit_submits after_verify route_submit
    after_route count_submit accept reject out_of_hours put_tx decide conclude submit_tx throttle
    arrived verify_pdu_para is_npi convert_addr_from_pdu check_lengths too_long check_source
    address_status check_dest with_addresses after_sender check_sender check_rest national_number
    check_udh rout_pdu number_type finish preferred_all dedicated_index preferred_index allowed_from
    in_preferred position preferred_of char_listed find_username esme_row
submit_answered = refl

handle_submit_sm-Booked_example : Booked server session 1 answered
handle_submit_sm-Booked_example =
    handle_submit_sm-Booked server noon clock account session 1 submit_pdu answered submit_answered

handle_submit_sm-Accepted_example : Accepted server noon account session submit_pdu answered
handle_submit_sm-Accepted_example =
    handle_submit_sm-Accepted server noon clock account session 1 submit_pdu answered
      submit_answered refl

-- An account without a closing hour, whose submit comes at noon.
abbrev open_account : Esme
open_account = record account { valid_time_to = minus_one }

abbrev after_reject : TxSession
after_reject = record session { submits_unconnect = 1; msg_rejected = 1; msg_received = 1 }

abbrev rejected : Submitted
rejected = record {
  command_status = rcancelfail;
  message_id = bytes "010001";
  server = record server { num_from_esme = 1; last_from_esme = 1000; counter = 1 };
  esme = record open_account { tx_esme = after_reject ∷ [] };
  session = after_reject;
  to_smsc = none;
  to_dbbox =
      smpp_esme (record row { submit_status = rcancelfail })
      ∷ insert_mis (record {
        account_name = acme;
        account_msg_id = bytes "010001";
        smsc_id = [];
        smsc_msg_id = [];
        req_time = bytes "2013-08-01";
        source_addr = some (bytes "1234");
        dest_addr = some (bytes "919812345678");
        submit_status = rcancelfail;
        esm_class = 0;
        message_len = 5;
        msg_content = some (bytes "hello");
        retry_value = pos 0;
        ip = bytes "10.0.0.1";
      })
      ∷ [];
}

submit_rejected :
    handle_submit_sm server noon clock open_account (tx session) 1 submit_pdu ≡ some rejected
unfolding handle_submit_sm queue_full check_submit limit_submits after_verify route_submit
    after_route count_submit accept reject out_of_hours put_tx decide conclude submit_tx throttle
    arrived verify_pdu_para is_npi convert_addr_from_pdu check_lengths too_long check_source
    address_status check_dest with_addresses after_sender check_sender check_rest national_number
    check_udh rout_pdu number_type finish preferred_all dedicated_index preferred_index allowed_from
    in_preferred position preferred_of char_listed find_username esme_row mis_row mis_insert receive
submit_rejected = refl

handle_submit_sm-no_hours_example : rejected.command_status ≢ rok
handle_submit_sm-no_hours_example =
    handle_submit_sm-no_hours server noon clock open_account session 1 submit_pdu rejected refl
      submit_rejected
