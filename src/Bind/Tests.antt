-- ===== src/Bind/Tests.antt =====
-- A bind of each kind, to an account that is not online.
use smpp_server.Prelude.{◌≡◌, refl, false, some, none, []}
use smpp_server.Config.{Client, find_username}
use smpp_server.Smscs.{check_smsc_conn, is_smsc_present}
use smpp_server.Registry.{is_present_esme}
use smpp_server.Authorise.{Verdict, admit, authorise_user, check_account}
use smpp_server.Pdu.{rbindfail}
use smpp_server.Bind.{
  Bound, check_server_connections, admit_transmitter, admit_receiver, admit_transceiver, turn_down,
  handle_bind_transmitter, handle_bind_receiver, handle_bind_transceiver,
}
use smpp_server.Bind.Answered.{
  Answered, handle_bind_transmitter-Answered, handle_bind_receiver-Answered,
  handle_bind_transceiver-Answered,
}
use smpp_server.Samples.{acme, client, temp_conn, bind_pdu, noon}
use smpp_server.Samples.Traffic.{bind_server}
use smpp_server.Samples.Bytes.{bytes_gw}

-- Tx and rx are allowed.
abbrev both : Client
both = client acme 4

abbrev transceiver : Client
transceiver = client acme 3

shutting_down :
    handle_bind_transmitter (record (bind_server both) { running = false }) noon temp_conn bind_pdu
    ≡ some (turn_down (bind_server both) bind_pdu rbindfail temp_conn)
unfolding handle_bind_transmitter
shutting_down = refl

abbrev tx_verdict : Verdict
tx_verdict = admit noon 1 2 both bind_pdu temp_conn acme [] none

abbrev tx_bound : Bound
tx_bound = admit_transmitter (bind_server both) bind_pdu tx_verdict

tx_bound_lem : handle_bind_transmitter (bind_server both) noon temp_conn bind_pdu ≡ some tx_bound
unfolding handle_bind_transmitter check_server_connections authorise_user find_username
    check_smsc_conn is_smsc_present is_present_esme admit check_account
tx_bound_lem = refl

handle_bind_transmitter-Answered_example : Answered (bind_server both) 1 temp_conn bind_pdu tx_bound
handle_bind_transmitter-Answered_example =
    handle_bind_transmitter-Answered (bind_server both) noon temp_conn bind_pdu tx_bound (tt, tt)
      refl tx_bound_lem

abbrev rx_bound : Bound
rx_bound =
    admit_receiver (bind_server both) bind_pdu (admit noon 2 2 both bind_pdu temp_conn acme [] none)

rx_bound_lem : handle_bind_receiver (bind_server both) noon temp_conn bind_pdu ≡ some rx_bound
unfolding handle_bind_receiver check_server_connections authorise_user find_username check_smsc_conn
    is_smsc_present is_present_esme admit check_account
rx_bound_lem = refl

handle_bind_receiver-Answered_example : Answered (bind_server both) 2 temp_conn bind_pdu rx_bound
handle_bind_receiver-Answered_example =
    handle_bind_receiver-Answered (bind_server both) noon temp_conn bind_pdu rx_bound (tt, tt) refl
      rx_bound_lem

abbrev trx_bound : Bound
trx_bound =
    admit_transceiver (bind_server transceiver) bind_pdu
      (admit noon 3 2 transceiver bind_pdu temp_conn acme [] none)

trx_bound_lem :
    handle_bind_transceiver (bind_server transceiver) noon temp_conn bind_pdu ≡ some trx_bound
unfolding handle_bind_transceiver check_server_connections authorise_user find_username
    check_smsc_conn is_smsc_present is_present_esme admit check_account
trx_bound_lem = refl

handle_bind_transceiver-Answered_example :
    Answered (bind_server transceiver) 3 temp_conn bind_pdu trx_bound
handle_bind_transceiver-Answered_example =
    handle_bind_transceiver-Answered (bind_server transceiver) noon temp_conn bind_pdu trx_bound
      (tt, tt) refl trx_bound_lem
