-- ===== src/Config/Tests.antt =====
-- Configurations that are read and checked.

use smpp_server.Prelude.{◌≡◌, ◌↔◌, refl, none, some, true, [], ◌∷◌}
use smpp_server.Prelude.Int.{pos, minus_one}
use smpp_server.Config.{Client, verify_config_para}
use smpp_server.Config.Parse.{create_onetrans, FromGroup, create_onetrans_sound}
use smpp_server.Config.Verify.{UniqueNames, NoShared, verify_config_para_iff}
use smpp_server.Samples.{group, client, clients, acme}
use smpp_server.Samples.Bytes.{bytes, bytes_gw}

shares_smsc :
    verify_config_para (
      record (client acme 1) { dedicated_smsc = some (bytes "A") }
      ∷ record (client (bytes "b") 1) { preferred_smsc = some (bytes "B" ∷ bytes "A" ∷ []) }
      ∷ [])
    ≡ minus_one
unfolding verify_config_para
shares_smsc = refl

shares_name : verify_config_para (client acme 1 ∷ client acme 2 ∷ []) ≡ minus_one
unfolding verify_config_para
shares_name = refl

good : verify_config_para clients ≡ pos 0
unfolding verify_config_para
good = refl

-- The account of the group.
abbrev account : Client
account = record (client acme 4) {
  allowed_prefix = none;
  rx_allowed = true;
  max_submits_unconnect = minus_one;
  max_submits = minus_one;
  max_tps = minus_one;
  max_tx_sessions = minus_one;
  max_rx_sessions = minus_one;
  valid_time_from = minus_one;
  valid_time_to = minus_one;
}

group_read : create_onetrans group ≡ some account
unfolding create_onetrans
group_read = refl

create_onetrans_sound_example : FromGroup group account
create_onetrans_sound_example = create_onetrans_sound group account group_read

verify_config_para_iff_example :
    (verify_config_para clients ≡ pos 0) ↔ (UniqueNames clients × NoShared clients)
verify_config_para_iff_example = verify_config_para_iff clients
