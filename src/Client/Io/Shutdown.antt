-- ===== src/Client/Io/Shutdown.antt =====
-- The shutdown of a connection: `smscconn_shutdown` of smpp-smsc/smscconn.c with `shutdown_cb` of
-- smpp-smsc/smsc_smpp.c, which joins the thread, and the end of that thread's `io_thread`.
use smpp_server.Prelude.{
  ℕ, ◌≡◌, refl, Bool, true, false, Option, none, some, List, [], ◌∷◌, ◌++◌, if◌then◌else◌, arith,
}
use mathlib.Core.List.{Perm}
use smpp_server.Prelude.Options.{◌>>=◌}
use smpp_server.Gwlib.{Gwlib}
use smpp_server.Client.Calls.{Calls}
use smpp_server.Client.Msg.{Msg}
use smpp_server.Client.Conn.{
  Conn, ConnStatus, SentMsg, is_dead, smscconn_disconnected, smscconn_dead, killed_shutdown,
  smscconn_usable, smscconn_send, queued_cb,
}
use smpp_server.Client.Send.Ready.{ids, sent_ids}
use smpp_server.Client.Handle.{Io, SmscPdu, with_status, handle_pdu}
use smpp_server.Client.Io.{disconnect, empty_smpp, take_number}
use smpp_server.Client.Io.Disconnect.{with_pdus, waiting, disconnect-waiting}

abbrev pub is_disconnected : ConnStatus → Bool
is_disconnected smscconn_disconnected = true
is_disconnected _ = false

module _ ⦃gw : Gwlib⦄ where
  open gw use {Octstr}

  -- The loop that waits for the answer to the unbind: the PDUs that arrive before it gives up, each
  -- with its time, are handled until the status is SMSCCONN_DISCONNECTED.
  unfoldable pub wait_unbind : Calls → List (ℕ × SmscPdu) → Io → Option Io
  wait_unbind c [] io = some io
  wait_unbind c ((now, pdu) ∷ pdus) io = elim (is_disconnected io.conn.status) [
    | true ↦ some io
    | false ↦ elim (handle_pdu c now pdu io) [ none ↦ none | some io' ↦ wait_unbind c pdus io' ]
  ]

  -- Where the thread of a transmitter or transceiver reads `quitting`: in its loop over a connection
  -- that is open, with the PDUs that arrive after the unbind; after a connection that could not be
  -- opened; or asleep between two connections, from where it leaves its loop at once.
  pub data Leaving : Type 0 where
    in_loop : (pdus : List (ℕ × SmscPdu)) → Leaving
    not_opened : Leaving
    between : Leaving

  -- What the thread does until it ends. `none` is a fault in the handling of a PDU.
  pub leave :
      Calls
      → (now : ℕ) → (order : List (ℕ × SentMsg) → List (ℕ × SentMsg)) → Leaving
      → Io
      → Option Io
  unfolding wait_unbind
  leave c now order (in_loop pdus) io =
      wait_unbind c pdus (take_number io) >>= λ io'. some (disconnect now true order io')
  leave c now order not_opened io = some (disconnect now false order io)
  leave c now order between io = some io

  abbrev pub quit : Io → Io
  quit io =
      let quitting = record (io.conn.smpp) { quitting = true } in
      record io { conn = record (io.conn) { why_killed = killed_shutdown; smpp = quitting } }

  -- The thread is joined; then `smpp_destroy` destroys the queue and the window with what is in them.
  pub shutdown_cb :
      Calls
      → (now : ℕ) → (order : List (ℕ × SentMsg) → List (ℕ × SentMsg)) → Leaving
      → Io
      → Option Io
  unfolding leave
  shutdown_cb c now order how io =
      leave c now order how (quit io) >>= λ io'. some (with_status smscconn_dead (empty_smpp io'))

  unfoldable pub smscconn_shutdown :
      Calls
      → (now : ℕ) → (order : List (ℕ × SentMsg) → List (ℕ × SentMsg)) → Leaving
      → Io
      → Option Io
  unfolding shutdown_cb
  smscconn_shutdown c now order how io =
      if is_dead io.conn.status then some io else shutdown_cb c now order how io

  -- The connection takes no message: the routing does not find it usable, it fails what is sent to
  -- it, and it reports no load.
  pub record IsClosed (k : Conn) : Type 0 where
    pub unusable : (c : Calls) (receiver : Octstr) → smscconn_usable c k receiver ≡ false
    pub refuses : (m : Msg) → smscconn_send m k ≡ none
    pub unloaded : queued_cb k ≡ (k, 0)

  dead-IsClosed : (k : Conn) → is_dead k.status ≡ true → IsClosed k
  unfolding smscconn_usable smscconn_send queued_cb
  dead-IsClosed k h = record {
    unusable = λ c receiver. ground arith;
    refuses = λ m. ground arith;
    unloaded = ground arith;
  }

  -- What has come back to the queue of the process in `back`, for a connection in `io`.
  abbrev pub Returned :
      Calls
      → (order : List (ℕ × SentMsg) → List (ℕ × SentMsg)) → Leaving
      → Io
      → List Octstr
      → Type 0
  Returned c order (in_loop pdus) io back =
      (last : Io) × (wait_unbind c pdus (take_number (quit io)) ≡ some last)
      × (back
          ≡ (waiting last ++ ids (with_pdus last.conn.smpp.msgs_to_send))
            ++ sent_ids (order last.conn.smpp.sent_msgs))
  Returned c order not_opened io back =
      back
      ≡ (waiting io ++ ids (with_pdus io.conn.smpp.msgs_to_send))
        ++ sent_ids (order io.conn.smpp.sent_msgs)
  Returned c order between io back = back ≡ waiting io

  -- The PDUs that arrive after the unbind are handled without a fault.
  abbrev pub Handled : Calls → Leaving → Io → Type 0
  Handled c (in_loop pdus) io =
      (last : Io) × (wait_unbind c pdus (take_number (quit io)) ≡ some last)
  Handled c not_opened io = Unit
  Handled c between io = Unit

  leave-Returned :
      (c : Calls) (now : ℕ) (order : List (ℕ × SentMsg) → List (ℕ × SentMsg)) (how : Leaving)
      (io : Io)
      → ((d : List (ℕ × SentMsg)) → Perm (order d) d)
      → Handled c how io
      → (left : Io) × (leave c now order how (quit io) ≡ some left)
        × Returned c order how io (waiting left)
  unfolding leave
  leave-Returned c now order (in_loop pdus) io p (last, run) = (
    disconnect now true order last,
    rw (leave, run, ◌>>=◌) refl,
    (last, run, (disconnect-waiting now true order last p).0),
  )
  leave-Returned c now order not_opened io p h =
      (_, refl, (disconnect-waiting now false order (quit io) p).0)
  leave-Returned c now order between io p h = (_, refl, refl)

  abbrev closed : Io → Io
  closed io = with_status smscconn_dead (empty_smpp io)

  shutdown_steps :
      (c : Calls) (now : ℕ) (order : List (ℕ × SentMsg) → List (ℕ × SentMsg)) (how : Leaving)
      (io : Io) {left : Io}
      → is_dead io.conn.status ≡ false
      → leave c now order how (quit io) ≡ some left
      → smscconn_shutdown c now order how io ≡ some (closed left)
  unfolding smscconn_shutdown shutdown_cb
  shutdown_steps c now order how io alive run = rw (alive, run, ◌>>=◌) refl

  shutdown_again :
      (c : Calls) (now : ℕ) (order : List (ℕ × SentMsg) → List (ℕ × SentMsg)) (how : Leaving)
      (io : Io)
      → smscconn_shutdown c now order how (closed io) ≡ some (closed io)
  unfolding smscconn_shutdown
  shutdown_again c now order how io = refl

  -- A connection that is not dead is shut down, if the PDUs that arrive after its unbind are handled
  -- without a fault. Its thread puts back, if it is in its loop, what the connection holds when the
  -- wait for the answer to the unbind is over, or, if it could not open the connection, what the
  -- connection holds: the messages with a PDU that were not sent and then those that were not
  -- answered, in the order of the dictionary's keys; between two connections it puts back none. Then
  -- the connection has none and takes none, and to shut it down again, at any time, does nothing.
  pub smscconn_shutdown-IsClosed :
      (c : Calls) (now : ℕ) (order : List (ℕ × SentMsg) → List (ℕ × SentMsg)) (how : Leaving)
      (io : Io)
      → ((d : List (ℕ × SentMsg)) → Perm (order d) d)
      → is_dead io.conn.status ≡ false
      → Handled c how io
      → (io' : Io) × (smscconn_shutdown c now order how io ≡ some io')
        × Returned c order how io (waiting io')
        × (io'.conn.smpp.msgs_to_send ≡ [])
        × (io'.conn.smpp.sent_msgs ≡ [])
        × IsClosed io'.conn
        × ((later : ℕ) (again : Leaving) → smscconn_shutdown c later order again io' ≡ some io')
  smscconn_shutdown-IsClosed c now order how io p alive h =
      let (left, run, back) = leave-Returned c now order how io p h in
      (
        closed left,
        shutdown_steps c now order how io alive run,
        back,
        refl,
        refl,
        dead-IsClosed (closed left).conn refl,
        λ later again. shutdown_again c later order again left,
      )
