-- ===== src/System/Tests.antt =====
-- A run: a client binds, unbinds, and its thread ends.
use smpp_server.Prelude.{◌≡◌, refl, some, none, [], ◌∷◌}
use smpp_server.Config.{Client, find_username}
use smpp_server.Smscs.{check_smsc_conn, is_smsc_present}
use smpp_server.Registry.{is_present_esme, esme_destroy, destroy_session, drop_if_empty}
use smpp_server.Registry.Valid.{RegistryValid}
use smpp_server.Authorise.{
  admit, authorise_user, check_account, new_esme, new_tx, add_session, next_id,
}
use smpp_server.Ids.{allocate_session_id}
use smpp_server.Bind.{
  Bound, answer, check_server_connections, admit_transmitter, handle_bind_transmitter,
}
use smpp_server.Dispatch.{Pdu, FirstPdu, handle_pdu_bind, bind_resp}
use smpp_server.System.{opens, ends, Reachable, start, next}
use smpp_server.System.Invariant.{Reachable-RegistryValid}
use smpp_server.Samples.{acme, client, temp_conn, bind_pdu, noon}
use smpp_server.Samples.Traffic.{bind_server}
use smpp_server.Samples.Bytes.{bytes_gw}

abbrev both : Client
both = client acme 4

abbrev bound : Bound
bound =
    admit_transmitter (bind_server both) bind_pdu
      (admit noon 1 2 both bind_pdu temp_conn acme [] none)

abbrev first : FirstPdu
first = record {
  esme = bound.esme;
  esmes = bound.esmes;
  temp = bound.temp;
  written = bind_resp bound ∷ [];
}

opened :
    handle_pdu_bind (bind_server both) noon temp_conn (Pdu.bind_transmitter bind_pdu) ≡ some first
unfolding handle_pdu_bind handle_bind_transmitter check_server_connections authorise_user
    find_username check_smsc_conn is_smsc_present is_present_esme admit check_account
opened = refl

abbrev after_bind : Reachable (both ∷ []) first.esmes
after_bind =
    next start (
      opens (bind_server both) noon temp_conn (Pdu.bind_transmitter bind_pdu) first refl refl
        opened)

ended : esme_destroy acme 1 1 first.esmes ≡ some []
unfolding esme_destroy destroy_session drop_if_empty admit_transmitter answer admit new_esme
    add_session new_tx next_id allocate_session_id
ended = refl

Reachable-RegistryValid_example : RegistryValid (both ∷ []) []
Reachable-RegistryValid_example =
    Reachable-RegistryValid (next after_bind (ends acme 1 1 first.esmes [] ended))
