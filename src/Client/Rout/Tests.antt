-- ===== src/Client/Rout/Tests.antt =====
-- A message that the less loaded of two connections takes.
use smpp_server.Prelude.{◌≡◌, refl, false, [], ◌∷◌}
use smpp_server.Prelude.Int.{pos, minus_one}
use smpp_server.Client.Msg.{Msg}
use smpp_server.Client.Conn.{
  Conn, smscconn_info, smscconn_usable, smscconn_send, send_msg_cb, queued_cb,
}
use smpp_server.Client.Rout.{
  positions, to_be_sent, is_better, choose, try_preferred, try_allowed, search_allowed, send_best,
  after_search, rout_allowed, read_allowed, after_preferred, Routed, done, smsc2_rout,
}
use smpp_server.Client.Rout.Outcome.{Outcome}
use smpp_server.Samples.Upstream.{calls, message, smpp, connection, no_outgoing}
use smpp_server.Samples.Bytes.{bytes, bytes_gw}

-- Two connections, the second with the smaller load.
abbrev busy : Conn
busy = connection (bytes "A") 5 (smpp [] [])

abbrev light : Conn
light = connection (bytes "B") 2 (smpp [] [])

abbrev allowed_two : Msg
allowed_two = message (bytes "m3") (minus_one ∷ []) (pos 0 ∷ pos 1 ∷ minus_one ∷ [])

abbrev routed : Routed
routed = record {
  smscs =
      record busy { load = 5 }
      ∷ send_msg_cb (to_be_sent allowed_two) (record light { load = 2 })
      ∷ [];
  outgoing = no_outgoing;
  result = pos 1;
}

least_loaded : smsc2_rout calls false 1 allowed_two (busy ∷ light ∷ []) no_outgoing ≡ done routed
unfolding smsc2_rout positions try_preferred after_preferred read_allowed rout_allowed
    search_allowed try_allowed smscconn_info smscconn_usable smscconn_send send_msg_cb queued_cb
    choose is_better after_search send_best
least_loaded = refl
