-- ===== src/Client/Tests.antt =====
-- A connection that sends one of two messages, is answered, and is lost.
use smpp_server.Prelude.{ℕ, List, ◌≡◌, ◌↔◌, refl, true, some, [], ◌∷◌, arith}
use smpp_server.Prelude.Int.{ℤ, pos, minus_one}
use smpp_server.Client.Msg.{Msg}
use smpp_server.Client.Conn.{Conn, SentMsg, smscconn_usable}
use smpp_server.Client.Conn.Usable.{Serves, smscconn_usable_iff}
use smpp_server.Client.Send.{Link, send_messages}
use smpp_server.Client.Send.Kept.{WindowValid}
use smpp_server.Client.Send.Fifo.{Fifo, send_messages-Fifo}
use smpp_server.Client.Status.{rok}
use smpp_server.Client.Handle.{Io, unbind_resp, bind_transceiver_resp, handle_pdu, link_of}
use smpp_server.Client.Handle.Window.{WindowState}
use smpp_server.Client.Io.{receives, here, next, disconnect}
use smpp_server.Client.Io.Window.{IoRun-Window}
use smpp_server.Client.Io.Disconnect.{waiting, disconnect-waiting}
use smpp_server.Client.Io.Shutdown.{
  in_loop, Leaving, Handled, Returned, wait_unbind, IsClosed, smscconn_shutdown,
  smscconn_shutdown-IsClosed,
}
use mathlib.Core.List.{Perm}
use mathlib.Core.List.Perm
use smpp_server.Samples.Upstream.{calls, settings, message, submit, smpp, connection, io_of}
use smpp_server.Samples.Bytes.{bytes, bytes_gw}

abbrev hello : Msg
hello = message (bytes "m1") (minus_one ∷ []) (pos 0 ∷ minus_one ∷ [])

abbrev again : Msg
again = message (bytes "m2") (minus_one ∷ []) (pos 0 ∷ minus_one ∷ [])

abbrev two_waiting : Conn
two_waiting = connection (bytes "A") 2 (smpp (hello ∷ again ∷ []) [])

smscconn_usable_iff_example :
    (smscconn_usable calls two_waiting (bytes "919812345678") ≡ true)
    ↔ Serves calls two_waiting (bytes "919812345678")
smscconn_usable_iff_example = smscconn_usable_iff calls two_waiting (bytes "919812345678")

abbrev bound : Io
bound = io_of two_waiting (pos 0)

bound-WindowValid : WindowValid (link_of bound)
bound-WindowValid = record { counted = refl; within = refl; numbers = tt }

abbrev all_written : ℕ → ℤ
all_written k = pos 0

send_messages-Fifo_example :
    (l : Link) × (send_messages calls settings (bytes "A") 500 all_written (link_of bound) ≡ some l)
    × Fifo all_written (hello ∷ again ∷ []) (link_of bound) l
send_messages-Fifo_example =
    send_messages-Fifo calls settings (bytes "A") 500 all_written (link_of bound) bound-WindowValid
      ((_, submit, refl, refl, refl), ((_, submit, refl, refl, refl), tt)) (omega arith)

abbrev fresh : Io
fresh = io_of two_waiting minus_one

abbrev after_bind : Io
after_bind = record fresh {
  conn = record two_waiting { connect_time = 300 };
  pending_submits = pos 0;
}

logged_in : handle_pdu calls 300 (bind_transceiver_resp rok) fresh ≡ some after_bind
unfolding handle_pdu
logged_in = refl

IoRun-Window_example : WindowState after_bind
IoRun-Window_example =
    IoRun-Window {c = calls} {set = settings}
      (next here (receives 300 (bind_transceiver_resp rok) fresh after_bind logged_in))
      (record { unbound = refl; nothing_sent = refl; allows = refl }) (tt, λ ok. refl)

abbrev one_sent : Conn
one_sent =
    connection (bytes "A") 2 (smpp (again ∷ []) ((3, record { sent_time = 500; msg = hello }) ∷ []))

abbrev one_pending : Io
one_pending = io_of one_sent (pos 1)

abbrev as_listed : List (ℕ × SentMsg) → List (ℕ × SentMsg)
as_listed d = d

disconnect-waiting_example :
    (waiting (disconnect 600 true as_listed one_pending) ≡ bytes "m2" ∷ bytes "m1" ∷ [])
    × Perm (bytes "m1" ∷ []) (bytes "m1" ∷ [])
    × ((disconnect 600 true as_listed one_pending).conn.smpp.msgs_to_send ≡ [])
    × ((disconnect 600 true as_listed one_pending).conn.smpp.sent_msgs ≡ [])
disconnect-waiting_example = disconnect-waiting 600 true as_listed one_pending Perm.refl

-- an unbind_resp arrives
one-Handled : Handled calls (in_loop ((600, unbind_resp) ∷ [])) one_pending
unfolding wait_unbind handle_pdu
one-Handled = (_, refl)

smscconn_shutdown-IsClosed_example :
    (io : Io) × (smscconn_shutdown calls 600 as_listed
        (in_loop ((600, unbind_resp) ∷ []))
        one_pending
      ≡ some io)
    × Returned calls as_listed (in_loop ((600, unbind_resp) ∷ [])) one_pending (waiting io)
    × (io.conn.smpp.msgs_to_send ≡ [])
    × (io.conn.smpp.sent_msgs ≡ [])
    × IsClosed io.conn
    × ((later : ℕ) (again : Leaving) → smscconn_shutdown calls later as_listed again io ≡ some io)
smscconn_shutdown-IsClosed_example =
    smscconn_shutdown-IsClosed calls 600 as_listed (in_loop ((600, unbind_resp) ∷ [])) one_pending
      Perm.refl refl one-Handled
