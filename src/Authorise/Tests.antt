-- ===== src/Authorise/Tests.antt =====
-- Binds that are let in and binds that are refused.
use smpp_server.Prelude.{◌≡◌, refl, some, none, [], arith}
use smpp_server.Prelude.Int.{pos}
use smpp_server.Authorise.{Verdict, admit, check_account, authorise_user}
use smpp_server.Authorise.Valid.{authorise_user-RegistryValid}
use smpp_server.Authorise.Undo.{Served, authorise_user-Served}
use smpp_server.Registry.{is_present_esme}
use smpp_server.Registry.Valid.{RegistryValid}
use smpp_server.Smscs.{check_smsc_conn, is_smsc_present}
use smpp_server.Config.{find_username}
use smpp_server.Samples.{acme, clients, client, smscs, temp_conn, bind_pdu, noon}
use smpp_server.Samples.Bytes.{bytes_gw}

-- A transceiver session for an account that is not online.
abbrev first_bind : Verdict
first_bind = admit noon 3 2 (client acme 3) bind_pdu temp_conn acme [] none

first_bind_lem : authorise_user noon 3 clients smscs [] temp_conn bind_pdu ≡ some first_bind
unfolding authorise_user find_username check_smsc_conn is_smsc_present is_present_esme admit
    check_account
first_bind_lem = refl

authorise_user-RegistryValid_example : RegistryValid clients first_bind.esmes
authorise_user-RegistryValid_example =
    authorise_user-RegistryValid noon 3 clients smscs [] temp_conn bind_pdu first_bind (omega arith)
      (tt, tt) first_bind_lem

first_bind_code : first_bind.code ≡ pos 0
unfolding admit
first_bind_code = refl

authorise_user-Served_example :
    (id : _) × (bind_pdu.system_id ≡ some id) × Served 3 [] temp_conn id first_bind
authorise_user-Served_example =
    authorise_user-Served noon 3 clients smscs [] temp_conn bind_pdu first_bind (omega arith)
      (tt, tt) first_bind_lem first_bind_code
