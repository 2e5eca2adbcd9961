-- ===== src/Client/Io.antt =====
-- The thread of a connection to an SMSC: `do_queue_cleanup` and `io_thread` of
-- smpp-smsc/smsc_smpp.c.
pub mod Window
pub mod Disconnect
pub mod Shutdown
use smpp_server.Prelude.{
  ℕ, ◌+◌, ◌==◌, Bool, true, false, ◌≡◌, Option, none, some, List, [], ◌∷◌, ◌++◌, ltb, if◌then◌else◌,
  ◌*◌, ◌^◌, ◌<◌, length, All,
}
use smpp_server.Prelude.Int.{ℤ, pos, negsuc, minus_one, eqz, lez}
use smpp_server.Gwlib.{Gwlib, counter_increase}
use smpp_server.Client.Calls.{Calls}
use smpp_server.Client.Msg.{Msg}
use smpp_server.Client.Conn.{Conn, SentMsg, Smpp, smscconn_reconnecting}
use smpp_server.Client.Send.{Settings, Link, decz, send_messages}
use smpp_server.Client.Send.Ready.{Packed}
use smpp_server.Client.Status.{Reason, failed_shutdown, failed_temporarily}
use smpp_server.Client.Outgoing.{Outgoing, smscconn_send_failed}
use smpp_server.Client.Handle.Window.{Expected}
use smpp_server.Client.Handle.{Io, SmscPdu, link_of, with_smpp, dict_remove, handle_pdu}

-- difftime(now, t) > d
pub elapsed : ℕ → ℕ → ℤ → Bool
elapsed now t (pos d) = ltb (t + d) now
elapsed now t (negsuc d) = ltb t (now + d + 1)

-- SMPP_WAITACK_RECONNECT, SMPP_WAITACK_REQUEUE and SMPP_WAITACK_NEVER_EXPIRE
abbrev pub waitack_reconnect : ℤ
waitack_reconnect = pos 0

abbrev pub waitack_requeue : ℤ
waitack_requeue = pos 1

abbrev pub waitack_never_expire : ℤ
waitack_never_expire = pos 2

module _ ⦃gw : Gwlib⦄ where
  pub dict_get : ℕ → List (ℕ × SentMsg) → Option SentMsg
  dict_get n [] = none
  dict_get n ((k, s) ∷ d) = if k == n then some s else dict_get n d

  -- A message fails, and leaves the window.
  pub fail : ℕ → Reason → Msg → Io → Io
  fail now reason m io =
      let (k, o) = smscconn_send_failed now io.conn m reason io.outgoing in
      record io { conn = k; outgoing = o }

  pub requeue_sent : ℕ → ℕ → Io → Io
  unfolding dict_remove fail
  requeue_sent now n io = elim (dict_remove n io.conn.smpp.sent_msgs) [
    | none ↦ io
    | some (s, d) ↦
        let io' =
          fail now failed_temporarily s.msg
            (with_smpp (record (io.conn.smpp) { sent_msgs = d }) io) in
        record io' { pending_submits = decz io'.pending_submits }
  ]

  -- The loop over the keys, which are taken as the list has them: a dictionary has no order. With
  -- the connection's state, whether it should reconnect.
  pub cleanup : ℕ → ℤ → List (ℕ × SentMsg) → Io → Io × Bool
  unfolding dict_get requeue_sent elapsed
  cleanup now action [] io = (io, false)
  cleanup now action ((n, _) ∷ keys) io = elim (dict_get n io.conn.smpp.sent_msgs) [
    | none ↦ cleanup now action keys io
    | some s ↦ elim (elapsed now s.sent_time io.conn.smpp.wait_ack) [
      | false ↦ cleanup now action keys io
      | true ↦ elim (eqz action waitack_requeue) [
        | true ↦ cleanup now action keys (requeue_sent now n io)
        | false ↦ (io, eqz action waitack_reconnect)
      ]
    ]
  ]

  unfoldable pub do_queue_cleanup : ℕ → Io → Io × Bool
  unfolding cleanup
  do_queue_cleanup now io =
      if lez io.pending_submits (pos 0)
      then (io, false)
      else if eqz io.conn.smpp.wait_ack_action waitack_never_expire
      then (io, false)
      else cleanup now io.conn.smpp.wait_ack_action io.conn.smpp.sent_msgs io

  -- The messages that were not sent, when the connection is gone; one with no PDU is dropped.
  pub fail_queue : ℕ → Reason → List Msg → Io → Io
  unfolding fail
  fail_queue now reason [] io = io
  fail_queue now reason (m ∷ ms) io = elim (m.sm_info.pdu) [
    | none ↦ fail_queue now reason ms io
    | some os ↦ fail_queue now reason ms (fail now reason m io)
  ]

  -- The messages that were not answered.
  pub fail_sent : ℕ → Reason → List (ℕ × SentMsg) → Io → Io
  unfolding fail
  fail_sent now reason [] io = io
  fail_sent now reason ((n, s) ∷ d) io = fail_sent now reason d (fail now reason s.msg io)

  abbrev pub empty_smpp : Io → Io
  empty_smpp io = with_smpp (record (io.conn.smpp) { msgs_to_send = []; sent_msgs = [] }) io

  -- `reset_smpp_counters`, which also ends the load
  unfoldable pub reset_smpp_counters : Conn → Conn
  reset_smpp_counters k = record k { sent = 0; received = 0; failed = 0 }

  -- The connection of the thread is gone: `connected` says whether it had been opened, and only then
  -- the counters are reset.
  abbrev pub gone : (connected : Bool) → Io → Io
  gone connected io =
      let k = if connected then reset_smpp_counters io.conn else io.conn in
      record io { conn = record k { status = smscconn_reconnecting } }

  -- What a transmitter or transceiver does when its connection is gone. `order` gives the entries of
  -- a dictionary in the order in which `dict_keys` lists their keys.
  unfoldable pub disconnect :
      (now : ℕ) (connected : Bool) (order : List (ℕ × SentMsg) → List (ℕ × SentMsg)) → Io → Io
  unfolding fail_queue fail_sent reset_smpp_counters
  disconnect now connected order io =
      let reason = if io.conn.smpp.quitting then failed_shutdown else failed_temporarily in
      let queue = io.conn.smpp.msgs_to_send in
      let sent = order io.conn.smpp.sent_msgs in
      fail_sent now reason sent (fail_queue now reason queue (empty_smpp (gone connected io)))

  abbrev pub with_link : Link → Io → Io
  with_link l io = record io {
    conn = record (io.conn) { smpp = l.smpp };
    pending_submits = l.pending_submits;
  }

  -- `counter_increase` for the number of a bind, an enquire_link or an unbind
  abbrev pub take_number : Io → Io
  take_number io =
      let n = counter_increase io.conn.smpp.message_id_counter in
      with_smpp (record (io.conn.smpp) { message_id_counter = n }) io

  -- The steps of a transmitter's or transceiver's thread, with what the router does to its queue.
  pub data IoStep (c : Calls) (set : Settings) : Io → Io → Type 0 where
    receives :
        (now : ℕ) (pdu : SmscPdu) (io io' : Io)
        → handle_pdu c now pdu io ≡ some io'
        → IoStep c set io io'
    sends :
        (now : ℕ) (w : ℕ → ℤ) (io : Io) (l : Link)
        → send_messages c set io.conn.id now w (link_of io) ≡ some l
        → IoStep c set io (with_link l io)
    numbers : (io : Io) → IoStep c set io (take_number io)
    cleans : (now : ℕ) (io : Io) → IoStep c set io (do_queue_cleanup now io).0
    reconnects :
        (now : ℕ) (connected : Bool) (order : List (ℕ × SentMsg) → List (ℕ × SentMsg)) (io : Io)
        → IoStep c set io
            (record (disconnect now connected order io) { pending_submits = minus_one })
    queues :
        (ms : List Msg) (io : Io)
        → IoStep c set io (with_smpp (record (io.conn.smpp) { msgs_to_send = ms }) io)

  -- What the window needs of a step: a bind succeeds only while no submit waits for its answer, the
  -- messages that are sent carry submits, and the counter does not wrap.
  abbrev pub StepOrderly : {c : Calls} {set : Settings} {io io' : Io} → IoStep c set io io' → Type 0
  StepOrderly (receives now pdu io io' h) = Expected pdu io
  StepOrderly {c} (sends now w io l h) =
      All (Packed c) io.conn.smpp.msgs_to_send
      × (io.conn.smpp.message_id_counter + 2 * length io.conn.smpp.msgs_to_send < 2 ^ 64)
  StepOrderly (numbers io) = io.conn.smpp.message_id_counter + 1 < 2 ^ 64
  StepOrderly (cleans now io) = Unit
  StepOrderly (reconnects now connected order io) = Unit
  StepOrderly (queues ms io) = Unit

  -- A connection before its first bind.
  pub record IsFresh (io : Io) : Type 0 where
    pub unbound : io.pending_submits ≡ minus_one
    pub nothing_sent : io.conn.smpp.sent_msgs ≡ []
    pub allows : lez (pos 0) io.conn.smpp.max_pending_submits ≡ true

  pub data IoRun (c : Calls) (set : Settings) (start : Io) : Io → Type 0 where
    here : IoRun c set start start
    next : {io io' : Io} → IoRun c set start io → IoStep c set io io' → IoRun c set start io'

  abbrev pub Orderly : {c : Calls} {set : Settings} {start io : Io} → IoRun c set start io → Type 0
  Orderly here = Unit
  Orderly (next r s) = Orderly r × StepOrderly s
