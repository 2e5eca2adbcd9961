-- ===== src/Address/Tests.antt =====
-- Addresses of some types of number.
use smpp_server.Prelude.{◌≡◌, ◌↔◌, refl, some}
use smpp_server.Prelude.Int.{pos}
use smpp_server.Address.{is_npi, convert_addr_from_pdu, AddrValid, convert_addr_from_pdu_iff}
use smpp_server.Samples.Bytes.{bytes, bytes_gw}

international : convert_addr_from_pdu (some (bytes "+919812345678")) (pos 1) (pos 1) ≡ 0
unfolding convert_addr_from_pdu is_npi
international = refl

too_short : convert_addr_from_pdu (some (bytes "12345")) (pos 2) (pos 1) ≡ 3
unfolding convert_addr_from_pdu is_npi
too_short = refl

not_a_plan : convert_addr_from_pdu (some (bytes "12345")) (pos 0) (pos 2) ≡ 2
unfolding convert_addr_from_pdu is_npi
not_a_plan = refl

convert_addr_from_pdu_iff_example :
    (convert_addr_from_pdu (some (bytes "9812345678")) (pos 2) (pos 1) ≡ 0)
    ↔ AddrValid (bytes "9812345678") (pos 2) (pos 1)
convert_addr_from_pdu_iff_example = convert_addr_from_pdu_iff (bytes "9812345678") (pos 2) (pos 1)
