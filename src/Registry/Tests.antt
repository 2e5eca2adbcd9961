-- ===== src/Registry/Tests.antt =====
-- A list of two accounts, one of which loses its session and its SMSC.
use smpp_server.Prelude.{◌≡◌, refl, inr, ℕ, ◌+◌, some, List, [], ◌∷◌, arith, All}
use smpp_server.Ids.{has_id}
use smpp_server.Config.{find_username}
use smpp_server.Smscs.{SmscConn, check_smsc_conn}
use smpp_server.Prelude.Int.{pos}
use smpp_server.Registry.Unconnected.{max_submits_unct_account-total}
use smpp_server.Registry.Extract.{Receives, extract_esme-Receives, extract_esme-Ready}
use smpp_server.Registry.{
  Esme, SessionStr, tx, extract_esme, max_submits_unct_account, is_present_esme, destroy_session,
  drop_if_empty, esme_destroy, update_esme_conn,
}
use smpp_server.Registry.Valid.{RegistryValid, SessionsValid}
use smpp_server.Registry.Destroy.{esme_destroy-RegistryValid}
use smpp_server.Registry.SmscUpdate.{
  update_esme_conn-RegistryValid, InSync, update_esme_conn-InSync,
}
use smpp_server.Samples.{acme, clients, smsc, esme, tx_session}
use smpp_server.Samples.Bytes.{bytes, bytes_gw}

abbrev pub accounts : List Esme
accounts =
    esme (bytes "other") (tx_session 1 ∷ []) ∷ esme acme (tx_session 2 ∷ tx_session 1 ∷ []) ∷ []

other-SessionsValid : SessionsValid clients (esme (bytes "other") (tx_session 1 ∷ []))
unfolding has_id find_username
other-SessionsValid = record {
  tx_valid = ((omega arith, tt), (refl, tt));
  rx_valid = (tt, tt);
  limits = λ t f. ground arith;
}

acme-SessionsValid : SessionsValid clients (esme acme (tx_session 2 ∷ tx_session 1 ∷ []))
unfolding has_id find_username
acme-SessionsValid = record {
  tx_valid = ((omega arith, (omega arith, tt)), (refl, (refl, tt)));
  rx_valid = (tt, tt);
  limits = λ t f. ground arith;
}

pub accounts-RegistryValid : RegistryValid clients accounts
unfolding is_present_esme
accounts-RegistryValid = (
  (refl, (refl, tt)),
  ((other-SessionsValid, omega arith), ((acme-SessionsValid, omega arith), tt)),
)

abbrev accounts_left : List Esme
accounts_left = esme acme (tx_session 2 ∷ tx_session 1 ∷ []) ∷ []

last_session : esme_destroy (bytes "other") 1 1 accounts ≡ some accounts_left
unfolding esme_destroy destroy_session drop_if_empty
last_session = refl

esme_destroy-RegistryValid_example : RegistryValid clients accounts_left
esme_destroy-RegistryValid_example =
    esme_destroy-RegistryValid clients (bytes "other") 1 1 accounts accounts_left
      accounts-RegistryValid last_session

abbrev no_senders : List SmscConn
no_senders = smsc (bytes "A") 1 2 ∷ []

update_esme_conn-RegistryValid_example :
    RegistryValid clients (update_esme_conn clients no_senders accounts)
update_esme_conn-RegistryValid_example =
    update_esme_conn-RegistryValid clients no_senders accounts accounts-RegistryValid

update_esme_conn-InSync_example :
    All
      (λ (e : Esme). All (InSync (check_smsc_conn (some e.system_id) clients no_senders)) e.tx_esme)
      (update_esme_conn clients no_senders accounts)
update_esme_conn-InSync_example = update_esme_conn-InSync clients no_senders accounts

abbrev acme_account : Esme
acme_account = esme acme (tx_session 2 ∷ tx_session 1 ∷ [])

acme_online : is_present_esme acme accounts ≡ some acme_account
unfolding is_present_esme
acme_online = refl

abbrev rolls : ℕ → ℕ
rolls k = k + 3

acme_drawn : extract_esme acme rolls accounts ≡ some (tx (tx_session 1), 3)
unfolding extract_esme
acme_drawn = refl

extract_esme-Receives_example : Receives acme_account (tx (tx_session 1)) 3
extract_esme-Receives_example =
    extract_esme-Receives acme rolls accounts acme_account (tx (tx_session 1)) 3 acme_online
      acme_drawn

extract_esme-Ready_example :
    (s : SessionStr) × (m : ℕ) × (extract_esme acme rolls accounts ≡ some (s, m))
extract_esme-Ready_example =
    extract_esme-Ready acme rolls accounts acme_account acme_online
      (inr (omega arith, (refl, (refl, tt))))

abbrev waiting : Esme
waiting = esme acme (
    record (tx_session 2) { submits_unconnect = 4 }
    ∷ record (tx_session 1) { submits_unconnect = 3 }
    ∷ [])

max_submits_unct_account-total_example : max_submits_unct_account waiting ≡ pos 7
max_submits_unct_account-total_example = max_submits_unct_account-total waiting (omega arith)
