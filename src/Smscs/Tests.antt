-- ===== src/Smscs/Tests.antt =====
-- Runs over a list of two SMSCs.
use smpp_server.Prelude.{◌≡◌, ◌↔◌, ◌≤◌, refl, ◌&&◌, if◌then◌else◌}
use smpp_server.Smscs.{InfoSmsc, update_smsc_list, smsc_conn_status, is_smsc_present}
use smpp_server.Smscs.Laws.{
  HasConnected, HasSender, listed, smsc_conn_status-update_smsc_list, is_smsc_present_lem,
}
use smpp_server.Samples.{smscs}
use smpp_server.Samples.Bytes.{bytes, same, bytes_gw}

abbrev down : InfoSmsc
down = record { smsc_id = bytes "B"; smsc_type = bytes "smpp"; conn_status = 0; conn_mode = 3 }

connected : is_smsc_present smscs ≡ 2
unfolding is_smsc_present
connected = refl

disconnected : is_smsc_present (update_smsc_list down smscs) ≡ 1
unfolding is_smsc_present update_smsc_list
disconnected = refl

smsc_conn_status-update_smsc_list_example :
    smsc_conn_status (bytes "B") (update_smsc_list down smscs) ≡ (
      if same (bytes "B") (bytes "B") && listed (bytes "B") smscs
      then 0
      else smsc_conn_status (bytes "B") smscs)
smsc_conn_status-update_smsc_list_example = smsc_conn_status-update_smsc_list down (bytes "B") smscs

is_smsc_present_lem_example :
    ((is_smsc_present smscs ≡ 2) ↔ HasConnected smscs)
    × ((1 ≤ is_smsc_present smscs) ↔ HasSender smscs)
    × (is_smsc_present smscs ≤ 2)
is_smsc_present_lem_example = is_smsc_present_lem smscs
