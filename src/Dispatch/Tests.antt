-- ===== src/Dispatch/Tests.antt =====
-- A session that is unbound, and a connection that starts with a bind.
use smpp_server.Prelude.{◌⊎◌, true, ◌≡◌, refl, some, none, [], ◌∷◌}
use smpp_server.Session.{TxSession, esme_unconnected}
use smpp_server.Config.{Client, find_username}
use smpp_server.Smscs.{check_smsc_conn, is_smsc_present}
use smpp_server.Registry.{Esme, tx, is_present_esme}
use smpp_server.Authorise.{admit, authorise_user, check_account}
use smpp_server.Bind.{Bound, check_server_connections, admit_transmitter, handle_bind_transmitter}
use smpp_server.Submit.{put_tx}
use smpp_server.Dispatch.{
  Pdu, Reply, Thread, FirstPdu, put_session, handle_pdu, handle_pdu_bind, bind_resp,
}
use smpp_server.Dispatch.Replies.{
  is_submit, Replied, Opened, handle_pdu-Replied, handle_pdu_bind-Opened,
}
use smpp_server.Samples.{acme, client, esme, tx_session, temp_conn, bind_pdu, noon}
use smpp_server.Samples.Traffic.{server, clock, bind_server}
use smpp_server.Samples.Bytes.{bytes_gw}

abbrev account : Esme
account = esme acme (tx_session 1 ∷ [])

abbrev unbound : TxSession
unbound = record (tx_session 1) { status = esme_unconnected }

abbrev thread : Thread
thread = record {
  server = server;
  esme = esme acme (unbound ∷ []);
  session = tx unbound;
  written = Reply.unbind_resp 5 ∷ [];
  to_smsc = none;
  to_dbbox = [];
}

unbinds : handle_pdu server noon clock account (tx (tx_session 1)) (Pdu.unbind 5) ≡ some thread
unfolding handle_pdu put_session put_tx
unbinds = refl

handle_pdu-Replied_example :
    ((handle_pdu server noon clock account (tx (tx_session 1)) (Pdu.unbind 5) ≡ none)
      × (is_submit (Pdu.unbind 5) ≡ true))
    ⊎ ((t : Thread) × (handle_pdu server noon clock account (tx (tx_session 1)) (Pdu.unbind 5)
          ≡ some t)
        × Replied (Pdu.unbind 5) t.written)
handle_pdu-Replied_example =
    handle_pdu-Replied server noon clock account (tx (tx_session 1)) (Pdu.unbind 5)

abbrev both : Client
both = client acme 4

abbrev bound : Bound
bound =
    admit_transmitter (bind_server both) bind_pdu
      (admit noon 1 2 both bind_pdu temp_conn acme [] none)

abbrev first : FirstPdu
first = record {
  esme = bound.esme;
  esmes = bound.esmes;
  temp = bound.temp;
  written = bind_resp bound ∷ [];
}

opens :
    handle_pdu_bind (bind_server both) noon temp_conn (Pdu.bind_transmitter bind_pdu) ≡ some first
unfolding handle_pdu_bind handle_bind_transmitter check_server_connections authorise_user
    find_username check_smsc_conn is_smsc_present is_present_esme admit check_account
opens = refl

handle_pdu_bind-Opened_example :
    Opened (bind_server both) temp_conn (Pdu.bind_transmitter bind_pdu) first
handle_pdu_bind-Opened_example =
    handle_pdu_bind-Opened (bind_server both) noon temp_conn (Pdu.bind_transmitter bind_pdu) first
      (tt, tt) refl opens
