-- ===== src/Client/Request/Tests.antt =====
-- Submits of smpp-esme in smpp-smsc: one that the less loaded of two connections takes, and one
-- that smpp-esme routed to a preferred connection.
use smpp_server.Prelude.{◌≡◌, refl, arith, true, false, none, some, List, [], ◌∷◌}
use smpp_server.Prelude.Int.{pos}
use smpp_server.Config.{Client, find_username}
use smpp_server.Smscs.{SmscConn}
use smpp_server.Route.{
  SeriesConf, Route, rout_pdu, number_type, finish, preferred_all, dedicated_index, preferred_index,
  preferred_of, position, allowed_from, in_preferred, char_listed,
}
use smpp_server.Client.Msg.{Msg}
use smpp_server.Client.Conn.{Conn}
use smpp_server.Client.Rout.{Routed}
use smpp_server.Client.Rout.Idle.{conns}
use smpp_server.Client.Rout.Outcome.{Outcome}
use smpp_server.Client.Rout.Ends.{not_nil}
use smpp_server.Client.Request.{Submit, ConnMsg, Server, handle_request}
use smpp_server.Client.Request.Fits.{rout_pdu-handle_request}
use smpp_server.Client.Request.Taken.{Carries, handle_request-Outcome}
use smpp_server.Samples.Upstream.{calls, submit, smpp, connection, no_outgoing}
use smpp_server.Samples.{acme, client, smsc}
use smpp_server.Samples.Codec.{pack}
use smpp_server.Samples.Bytes.{bytes, bytes_gw}

abbrev two_conns : List Conn
two_conns = connection (bytes "A") 5 (smpp [] []) ∷ connection (bytes "B") 2 (smpp [] []) ∷ []

abbrev serving : Server
serving = record {
  running = true;
  dndcheck_flag = false;
  max_smsc = 4;
  smscs = two_conns;
  outgoing = no_outgoing;
  to_dbbox = [];
  conn_id = none;
}

abbrev incoming : Submit
incoming = record {
  pdu = some (pack submit);
  account_name = bytes "acme";
  account_msg_id = bytes "m5";
  req_time = bytes "12:00";
  ip = bytes "10.0.0.1";
  destination_addr = bytes "919812345678";
  source_addr = bytes "4917";
  data_coding = 0;
  esm_class = 0;
  more_messages_to_send = pos 0;
  content = bytes "hi";
  preferred_smsc = [];
  allowed_smsc = 0 ∷ 1 ∷ [];
}

handle_request-Outcome_example :
    (m : Msg) × (x : Routed) × (handle_request calls 1 (ConnMsg.submit incoming) serving
      ≡ some (record serving { smscs = x.smscs; outgoing = x.outgoing }))
    × Carries incoming (pack submit) m
    × Outcome calls false m (conns two_conns) no_outgoing [] (pos 0 ∷ pos 1 ∷ []) x
handle_request-Outcome_example =
    handle_request-Outcome calls 0 incoming serving (pack submit) refl refl refl (omega arith)
      (omega arith) tt (omega arith) not_nil

abbrev conf : SeriesConf
conf = record {
  gsm_series = some (bytes "98;99");
  cdma_series = some (bytes "93");
  int_series = some (bytes "");
  default_series = bytes "cdma";
}

abbrev listed : List SmscConn
listed =
    record (smsc (bytes "A") 1 1) { smsc_type = bytes "all" }
    ∷ record (smsc (bytes "B") 1 3) { smsc_type = bytes "gsm" }
    ∷ []

abbrev choosy : Client
choosy = record (client acme 3) { preferred_smsc = some (bytes "B" ∷ []) }

abbrev prefers_b : Route
prefers_b = record { code = pos 0; preferred_smsc = some (1 ∷ []); allowed_smsc = some (0 ∷ []) }

choosy_found : find_username (choosy ∷ []) acme ≡ some choosy
unfolding find_username
choosy_found = refl

choosy_routed :
    rout_pdu conf (choosy ∷ []) listed (some (bytes "9812345678")) (some acme) ≡ some prefers_b
unfolding rout_pdu find_username number_type finish preferred_all dedicated_index preferred_index
    preferred_of position allowed_from in_preferred char_listed
choosy_routed = refl

abbrev routed : Submit
routed = record incoming {
  destination_addr = bytes "9812345678";
  preferred_smsc = 1 ∷ [];
  allowed_smsc = 0 ∷ [];
}

rout_pdu-handle_request_example :
    (m : Msg) × (x : Routed) × (handle_request calls 1 (ConnMsg.submit routed) serving
      ≡ some (record serving { smscs = x.smscs; outgoing = x.outgoing }))
    × Carries routed (pack submit) m
    × Outcome calls false m (conns two_conns) no_outgoing (pos 1 ∷ []) (pos 0 ∷ []) x
rout_pdu-handle_request_example =
    rout_pdu-handle_request conf (choosy ∷ []) listed (bytes "9812345678") acme choosy prefers_b
      calls 0 routed serving (pack submit) 0 [] choosy_found (omega arith) (omega arith)
      choosy_routed refl refl refl refl refl refl refl (omega arith) (omega arith)
