-- ===== src/Client/Router/Tests.antt =====
-- A message that is routed again, and one that was sent without an answer.
use smpp_server.Prelude.{none, ◌≡◌, refl, arith, false, some, List, [], ◌∷◌}
use smpp_server.Prelude.Int.{pos, minus_one}
use smpp_server.Client.Msg.{Msg, RoutingInfo}
use smpp_server.Client.Conn.{Conn}
use smpp_server.Client.Rout.{positions}
use smpp_server.Client.Router.{RouterConf, Router, merge, count_from, copy, write, route_message}
use smpp_server.Client.Router.Merge.{merge-positions}
use smpp_server.Client.Router.Fate.{Placed, Fate, route_message-Fate}
use smpp_server.Samples.Upstream.{calls, message, submit, smpp, connection, no_outgoing}
use smpp_server.Samples.Codec.{pack}
use smpp_server.Samples.Bytes.{bytes, bytes_gw}

-- It prefers the second connection, and the first is allowed.
abbrev again : Msg
again = message (bytes "m4") (pos 1 ∷ minus_one ∷ []) (pos 0 ∷ minus_one ∷ minus_one ∷ [])

abbrev two_conns : List Conn
two_conns = connection (bytes "A") 5 (smpp [] []) ∷ connection (bytes "B") 2 (smpp [] []) ∷ []

abbrev at_rest : Router
at_rest = record {
  smscs = two_conns;
  outgoing = no_outgoing;
  to_dbbox = [];
  preferred_nos = 0;
  allowed_nos = 0;
}

abbrev limits : RouterConf
limits = record { max_retry_limit = pos 1; max_msg_duration = minus_one }

abbrev merged_info : RoutingInfo
merged_info = record (again.routing_info) {
  preferred_smsc = minus_one ∷ minus_one ∷ [];
  allowed_smsc = pos 0 ∷ pos 1 ∷ minus_one ∷ [];
}

merged_test : merge 0 0 again.routing_info ≡ some (merged_info, 1, 1)
unfolding merge positions count_from copy write
merged_test = refl

arrays_read :
    (positions again.routing_info.preferred_smsc ≡ some (pos 1 ∷ []))
    × (positions again.routing_info.allowed_smsc ≡ some (pos 0 ∷ []))
unfolding positions
arrays_read = (refl, refl)

merge-positions_example :
    (info' : RoutingInfo) × (merge 0 0 again.routing_info ≡ some (info', 1, 1))
    × (positions info'.preferred_smsc ≡ some [])
    × (positions info'.allowed_smsc ≡ some (pos 0 ∷ pos 1 ∷ []))
    × (record info' { preferred_smsc = []; allowed_smsc = [] }
        ≡ record (again.routing_info) { preferred_smsc = []; allowed_smsc = [] })
merge-positions_example =
    merge-positions 0 0 again.routing_info (pos 1 ∷ []) (pos 0 ∷ []) arrays_read.0 arrays_read.1 tt
      tt (omega arith)

again-Placed : Placed again at_rest (pos 0 ∷ pos 1 ∷ [])
again-Placed = record {
  ps = pos 1 ∷ [];
  qs = pos 0 ∷ [];
  preferred = arrays_read.0;
  allowed = arrays_read.1;
  fresh_preferred = tt;
  fresh_allowed = tt;
  room = omega arith;
  merged = refl;
  real = ((_, refl), ((_, refl), tt));
}

route_message-Fate_example :
    (r' : Router) × (route_message calls limits 900 false 1 again (some (pack submit)) at_rest
      ≡ some r')
    × Fate calls limits 900 false again submit (pos 0 ∷ pos 1 ∷ []) at_rest r'
    × (route_message calls limits 900 false 1 again none at_rest ≡ some at_rest)
route_message-Fate_example =
    route_message-Fate calls limits 900 false 0 again (pack submit) submit (pos 0) (pos 1 ∷ [])
      at_rest refl (λ able active. again-Placed)
