-- ===== src/VerifyPdu/Tests.antt =====
-- Submits that are accepted and submits that are not.
use smpp_server.Prelude.{◌≡◌, refl, some, [], ◌∷◌, arith, inl}
use smpp_server.Pdu.{rok}
use smpp_server.Address.{is_npi, convert_addr_from_pdu}
use smpp_server.Registry.{Esme}
use smpp_server.VerifyPdu.{
  Verified, verify_pdu_para, national_number, check_udh, check_lengths, too_long, check_source,
  address_status, check_dest, with_addresses, after_sender, check_sender, check_rest,
}
use smpp_server.VerifyPdu.Accepts.{Acceptable, verify_pdu_para_sound, verify_pdu_para_complete}
use smpp_server.Samples.{acme, esme, tx_session, noon, submit_pdu}
use smpp_server.Samples.Bytes.{Text, bytes, bytes_gw}

abbrev account : Esme
account = esme acme (tx_session 1 ∷ [])

abbrev accepted : Verified
accepted = record {
  reason = rok;
  esme = account;
  dest_addr = some (bytes "9812345678");
  source_addr = some (bytes "1234");
}

submit_accepted : verify_pdu_para noon account submit_pdu ≡ some accepted
unfolding verify_pdu_para is_npi convert_addr_from_pdu check_lengths too_long check_source
    address_status check_dest with_addresses after_sender check_sender check_rest national_number
    check_udh
submit_accepted = refl

verify_pdu_para_sound_example :
    (source : Text) × (dest : Text) × Acceptable noon account submit_pdu source dest
    × (accepted.source_addr ≡ some source)
    × (accepted.dest_addr ≡ some (national_number dest))
verify_pdu_para_sound_example =
    verify_pdu_para_sound noon account submit_pdu accepted submit_accepted refl

submit-Acceptable : Acceptable noon account submit_pdu (bytes "1234") (bytes "919812345678")
unfolding is_npi check_udh
submit-Acceptable = record {
  source_given = refl;
  dest_given = refl;
  source_short = omega arith;
  dest_short = omega arith;
  source_valid = record {
    ton_range = (0, refl, omega arith);
    npi_known = refl;
    international = λ e. cc;
    national = λ e. cc;
    alphanumeric = λ e. cc;
  };
  dest_valid = record {
    ton_range = (1, refl, omega arith);
    npi_known = refl;
    international = λ e. (omega arith, refl);
    national = λ e. cc;
    alphanumeric = λ e. cc;
  };
  sender_known = inl refl;
  dest_long = omega arith;
  priority = (1, refl, omega arith);
  no_replace = refl;
  udh = refl;
}

verify_pdu_para_complete_example :
    (v : Verified) × (verify_pdu_para noon account submit_pdu ≡ some v) × (v.reason ≡ rok)
verify_pdu_para_complete_example =
    verify_pdu_para_complete noon account submit_pdu (bytes "1234") (bytes "919812345678")
      submit-Acceptable
