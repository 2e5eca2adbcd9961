-- ===== src/Route/Tests.antt =====
-- Messages that are routed over four SMSCs.
use smpp_server.Prelude.{◌≡◌, refl, some, none, List, [], ◌∷◌, arith}
use smpp_server.Prelude.Int.{pos}
use smpp_server.Config.{Client, find_username}
use smpp_server.Smscs.{SmscConn}
use smpp_server.Route.{
  SeriesConf, Route, rout_pdu, init_series, default_of, number_type, finish, preferred_all,
  dedicated_index, preferred_index, preferred_of, position, allowed_from, in_preferred, char_listed,
}
use smpp_server.Route.Partition.{Routed, rout_pdu-Routed}
use smpp_server.Samples.{acme, client, clients, smsc, group}
use smpp_server.Samples.Bytes.{bytes, bytes_gw}

abbrev conf : SeriesConf
conf = record {
  gsm_series = some (bytes "98;99");
  cdma_series = some (bytes "93");
  int_series = some (bytes "");
  default_series = bytes "cdma";
}

abbrev typed_smsc : SmscConn → SmscConn
typed_smsc c = record c { smsc_type = bytes "gsm" }

abbrev four : List SmscConn
four =
    typed_smsc (smsc (bytes "A") 0 2)
    ∷ typed_smsc (smsc (bytes "B") 1 3)
    ∷ smsc (bytes "C") 1 1
    ∷ record (smsc (bytes "D") 0 1) { smsc_type = bytes "all" }
    ∷ []

abbrev choosy : Client
choosy = record (client acme 3) { preferred_smsc = some (bytes "D" ∷ bytes "C" ∷ []) }

prefers_d :
    rout_pdu conf (choosy ∷ []) four (some (bytes "9812345678")) (some acme)
    ≡ some (record { code = pos 0; preferred_smsc = some (3 ∷ []); allowed_smsc = some (1 ∷ []) })
unfolding rout_pdu find_username number_type finish preferred_all dedicated_index preferred_index
    preferred_of position allowed_from in_preferred char_listed
prefers_d = refl

acme_found : find_username clients acme ≡ some (client acme 3)
unfolding find_username
acme_found = refl

rout_pdu-Routed_example :
    (r : Route) × (rout_pdu conf clients four (some (bytes "9812345678")) (some acme) ≡ some r)
    × Routed (number_type conf (bytes "9812345678")) four r
rout_pdu-Routed_example =
    rout_pdu-Routed conf clients four (bytes "9812345678") acme (client acme 3) acme_found
      (omega arith) (omega arith)

-- The cdma series of the group is set and not consulted.
cdma_number : number_type (init_series group) (bytes "9312345678") ≡ default_of none
unfolding number_type init_series
cdma_number = refl
