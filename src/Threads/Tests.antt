-- ===== src/Threads/Tests.antt =====
-- A thread that asks its peer, writes a delivery, and is told to leave.
use smpp_server.Prelude.{ℕ, ◌≡◌, refl, false, Option, none, some, List, [], ◌∷◌, ◌+◌}
use smpp_server.Prelude.Int.{pos}
use smpp_server.Session.{Deliver, Status, esme_send_unbind}
use smpp_server.Registry.{Esme, tx}
use smpp_server.Delivery.{DeliverPdu, deliver_sm, Texts, seq_number}
use smpp_server.Threads.{enquire_link, unbind, delivered, Loop, Others, Round, receive_smpp_thread}
use smpp_server.Threads.Chain.{Chain, own}
use smpp_server.Threads.Numbers.{receive_smpp_thread-Chain}
use smpp_server.Samples.{acme, esme, tx_session}
use smpp_server.Samples.Traffic.{server}
use smpp_server.Samples.Bytes.{Text, bytes, bytes_gw}

abbrev receipt : Text → DeliverPdu
receipt text = record {
  sequence_number = 0;
  short_message = text;
  message_payload = none;
  receipted_message_id = [];
}

abbrev texts : Texts
texts = record {
  smpp_pdu_unpack = λ os. some (deliver_sm (receipt os));
  sscanf = λ t. record {
    sub = [];
    dlvrd = [];
    submit_date = bytes "2201";
    done_date = bytes "2202";
    stat = t;
    err = [];
  };
  octstr_format_receipt = λ id r. r.stat;
}

abbrev account : Esme
account = esme acme (tx_session 1 ∷ [])

abbrev delivery : Deliver
delivery = record {
  smsc_id = bytes "A";
  smsc_msg_id = bytes "7";
  account_msg_id = bytes "m1";
  os = bytes "0000DELIVRD";
}

abbrev others : Option Status → List Deliver → Others
others st ds = record { server = server; esme = account; set_status = st; arrivals = ds }

abbrev rounds : List Round
rounds =
    record {
      wait_failed = false;
      others = others none (delivery ∷ []);
      now = 100;
      reads = [];
      closed = false;
    }
    ∷ record {
      wait_failed = false;
      others = others (some esme_send_unbind) [];
      now = 101;
      reads = [];
      closed = false;
    }
    ∷ []

abbrev begins : Loop
begins = record {
  session = tx (tx_session 1);
  last_enquire_sent = 0;
  len = pos 0;
  written = [];
  to_smsc = [];
  to_dbbox = [];
}

abbrev n : ℕ
n = (tx_session 1).seq_number

abbrev left : Loop
left = record begins {
  session =
      tx (record (tx_session 1) {
        seq_number = n + 3;
        status = esme_send_unbind;
        data_to_write = [];
      });
  last_enquire_sent = 100;
  written =
      enquire_link n
      ∷ delivered (
          deliver_sm (record (receipt (bytes "DELIVRD")) {
            sequence_number = n + 1;
            receipted_message_id = bytes "m1";
          }))
      ∷ unbind (n + 2)
      ∷ [];
}

leaves : receive_smpp_thread texts rounds begins ≡ some (left, false)
unfolding receive_smpp_thread
leaves = refl

receive_smpp_thread-Chain_example :
    Chain (seq_number begins.session) (own left.written) (seq_number left.session)
receive_smpp_thread-Chain_example =
    receive_smpp_thread-Chain texts rounds begins (left, false) refl leaves
