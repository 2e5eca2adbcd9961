-- ===== src/Client/Io/Window.antt =====
-- The window of submits in the life of a connection's thread.
use smpp_server.Prelude.{
  ◌%◌, ap, ℕ, ◌+◌, ◌*◌, ◌^◌, ◌<◌, ◌≡◌, Bool, refl, sym, ◌∙◌, true, false, some, List, [], ◌∷◌,
  arith, length, All, Bool-cases, Option-cases, inl, inr, either_branch, if_true,
}
use mathlib.Core.Path.{subst}
use smpp_server.Prelude.Int.{ℤ, pos, negsuc, minus_one, lez, eqz}
use smpp_server.Prelude.Options.{some_inj}
use smpp_server.Gwlib.{Gwlib}
use smpp_server.Client.Calls.{Calls}
use smpp_server.Client.Msg.{Msg}
use smpp_server.Client.Conn.{SentMsg}
use smpp_server.Client.Send.{Settings, Link, decz, send_messages}
use smpp_server.Client.Send.Ready.{Packed}
use smpp_server.Client.Send.Kept.{WindowValid, below_more}
use smpp_server.Client.Send.Fifo.{send_messages-Fifo}
use smpp_server.Client.Status.{Reason, failed_temporarily}
use smpp_server.Client.Handle.{Io, with_smpp, link_of, dict_remove}
use smpp_server.Client.Handle.Window.{
  WindowState, WindowOf, removed-Window, send_failed-smpp, handle_pdu-Window,
}
use smpp_server.Client.Io.{
  dict_get, fail, requeue_sent, cleanup, elapsed, waitack_requeue, waitack_never_expire,
  do_queue_cleanup, fail_queue, fail_sent, disconnect, empty_smpp, IoStep, receives, sends, cleans,
  reconnects, queues, numbers, IsFresh, IoRun, here, next, gone, reset_smpp_counters, take_number,
  StepOrderly, Orderly,
}

module _ ⦃gw : Gwlib⦄ where
  -- A failing message leaves the connection's data alone.
  pub fail-smpp :
      (now : ℕ) (r : Reason) (m : Msg) (io : Io) → (fail now r m io).conn.smpp ≡ io.conn.smpp
  unfolding fail
  fail-smpp now r m io = send_failed-smpp now io.conn m r io.outgoing

  requeue_sent-Window : (now n : ℕ) (io : Io) → WindowState io → WindowState (requeue_sent now n io)
  unfolding requeue_sent fail
  requeue_sent-Window now n io v = elim (Option-cases (dict_remove n io.conn.smpp.sent_msgs)) [
    | inl none_ ↦ rw (requeue_sent, none_) v
    | inr ((s, d), found) ↦
        rw (requeue_sent, found)
          (subst (WindowOf (decz io.pending_submits))
            (sym (
              send_failed-smpp now
                (record (io.conn) { smpp = record (io.conn.smpp) { sent_msgs = d } }) s.msg
                failed_temporarily io.outgoing))
            (removed-Window n io.pending_submits io.conn.smpp.sent_msgs
              io.conn.smpp.max_pending_submits io.conn.smpp.message_id_counter s d found v))
  ]

  cleanup-Window :
      (now : ℕ) (action : ℤ) (keys : List (ℕ × SentMsg)) (io : Io)
      → WindowState io
      → WindowState (cleanup now action keys io).0
  unfolding cleanup
  cleanup-Window now action [] io v = v
  cleanup-Window now action ((n, s) ∷ keys) io v =
      elim (Option-cases (dict_get n io.conn.smpp.sent_msgs)) [
        | inl none_ ↦ rw (cleanup, none_) (cleanup-Window now action keys io v)
        | inr (s', found) ↦ elim (Bool-cases (elapsed now s'.sent_time io.conn.smpp.wait_ack)) [
          | inl over ↦ elim (Bool-cases (eqz action waitack_requeue)) [
            | inl again ↦
                rw (cleanup, found, over, again)
                  (cleanup-Window now action keys (requeue_sent now n io)
                    (requeue_sent-Window now n io v))
            | inr other ↦ rw (cleanup, found, over, other) v
          ]
          | inr early ↦ rw (cleanup, found, early) (cleanup-Window now action keys io v)
        ]
      ]

  pub do_queue_cleanup-Window :
      (now : ℕ) (io : Io) → WindowState io → WindowState (do_queue_cleanup now io).0
  unfolding do_queue_cleanup
  do_queue_cleanup-Window now io v =
      either_branch (λ (r : Io × Bool). WindowState r.0) (lez io.pending_submits (pos 0))
        (io, false) _ v
        (either_branch (λ (r : Io × Bool). WindowState r.0)
          (eqz io.conn.smpp.wait_ack_action waitack_never_expire) (io, false) _ v
          (cleanup-Window now io.conn.smpp.wait_ack_action io.conn.smpp.sent_msgs io v))

  fail_queue-smpp :
      (now : ℕ) (r : Reason) (ms : List Msg) (io : Io)
      → (fail_queue now r ms io).conn.smpp ≡ io.conn.smpp
  unfolding fail_queue
  fail_queue-smpp now r [] io = refl
  fail_queue-smpp now r (m ∷ ms) io = elim (Option-cases m.sm_info.pdu) [
    | inl none_ ↦ rw (fail_queue, none_) (fail_queue-smpp now r ms io)
    | inr (os, p) ↦
        rw (fail_queue, p) (fail_queue-smpp now r ms (fail now r m io) ∙ fail-smpp now r m io)
  ]

  fail_sent-smpp :
      (now : ℕ) (r : Reason) (d : List (ℕ × SentMsg)) (io : Io)
      → (fail_sent now r d io).conn.smpp ≡ io.conn.smpp
  unfolding fail_sent
  fail_sent-smpp now r [] io = refl
  fail_sent-smpp now r ((n, s) ∷ d) io =
      fail_sent-smpp now r d (fail now r s.msg io) ∙ fail-smpp now r s.msg io

  gone-smpp : (b : Bool) (io : Io) → (gone b io).conn.smpp ≡ io.conn.smpp
  unfolding reset_smpp_counters
  gone-smpp true io = refl
  gone-smpp false io = refl

  pub disconnect-smpp :
      (now : ℕ) (b : Bool) (order : List (ℕ × SentMsg) → List (ℕ × SentMsg)) (io : Io)
      → (disconnect now b order io).conn.smpp ≡ (empty_smpp io).conn.smpp
  unfolding disconnect
  disconnect-smpp now b order io =
      fail_sent-smpp now _ (order io.conn.smpp.sent_msgs) _
      ∙ fail_queue-smpp now _ io.conn.smpp.msgs_to_send _
      ∙ ap (λ s. (empty_smpp (with_smpp s io)).conn.smpp) (gone-smpp b io)

  lez_zero : (k : ℕ) (max : ℤ) → lez (pos k) max ≡ true → lez (pos 0) max ≡ true
  lez_zero k (pos m) h = ground arith
  lez_zero k (negsuc m) h = cc

  WindowValid-Window : (l : Link) → WindowValid l → WindowOf l.pending_submits l.smpp
  WindowValid-Window l v = record {
    room = lez_zero (length l.smpp.sent_msgs) l.smpp.max_pending_submits v.within;
    counted = inr v.counted;
    within = v.within;
    numbers = v.numbers;
  }

  sends-Window :
      (c : Calls) (set : Settings) (now : ℕ) (w : ℕ → ℤ) (io : Io) (l : Link)
      → All (Packed c) io.conn.smpp.msgs_to_send
      → io.conn.smpp.message_id_counter + 2 * length io.conn.smpp.msgs_to_send < 2 ^ 64
      → send_messages c set io.conn.id now w (link_of io) ≡ some l
      → WindowState io
      → WindowOf l.pending_submits l.smpp
  unfolding send_messages
  sends-Window c set now w io l packed room h v = elim (v.counted) [
    | inl (unbound, e) ↦
        let idle = if_true (eqz io.pending_submits minus_one) _ _ (rw unbound refl) in
        let same : link_of io ≡ l = some_inj (sym idle ∙ h) in
        subst (λ (x : Link). WindowOf x.pending_submits x.smpp) same v
    | inr counted ↦
        let start : WindowValid (link_of io) = record {
          counted = counted;
          within = v.within;
          numbers = v.numbers;
        } in
        let (l', p, f) = send_messages-Fifo c set io.conn.id now w (link_of io) start packed room in
        let same : l' ≡ l = some_inj (sym p ∙ h) in
        subst (λ (x : Link). WindowOf x.pending_submits x.smpp) same (WindowValid-Window l' f.valid)
  ]

  takes_number-Window :
      (io : Io)
      → io.conn.smpp.message_id_counter + 1 < 2 ^ 64
      → WindowState io
      → WindowState (take_number io)
  takes_number-Window io room v =
      let n = io.conn.smpp.message_id_counter in
      let e : (n + 1) % 2 ^ 64 ≡ n + 1 = omega arith in
      record {
        room = v.room;
        counted = v.counted;
        within = v.within;
        numbers =
            subst (λ k. All (λ (x : ℕ × SentMsg). x.0 < k) io.conn.smpp.sent_msgs) (sym e)
              (below_more n (n + 1) io.conn.smpp.sent_msgs (omega arith) v.numbers);
      }

  -- An orderly step keeps the window.
  pub IoStep-Window :
      {c : Calls} {set : Settings} {io io' : Io} (s : IoStep c set io io')
      → StepOrderly s
      → WindowState io
      → WindowState io'
  IoStep-Window {c} (receives now pdu io io' h) e v = handle_pdu-Window c now pdu io io' e v h
  IoStep-Window {c} {set} (sends now w io l h) (packed, room) v =
      sends-Window c set now w io l packed room h v
  IoStep-Window (numbers io) room v = takes_number-Window io room v
  IoStep-Window (cleans now io) e v = do_queue_cleanup-Window now io v
  IoStep-Window (reconnects now b order io) e v =
      subst (WindowOf minus_one) (sym (disconnect-smpp now b order io))
        (record { room = v.room; counted = inl (refl, refl); within = v.room; numbers = tt })
  IoStep-Window (queues ms io) e v = v

  -- From a fresh connection on, whatever its thread does and in whatever order, its window is as it
  -- should be: without a bind nothing is sent, and else the count is the number of submits that
  -- wait for an answer, which is at most max_pending_submits, and their numbers have been handed
  -- out. The run is one in which no bind succeeds while submits wait for an answer, each message in
  -- the queue carries a submit when messages are sent, and the counter does not wrap.
  pub IoRun-Window :
      {c : Calls} {set : Settings} {start io : Io} (r : IoRun c set start io)
      → IsFresh start
      → Orderly r
      → WindowState io
  IoRun-Window {start = start} here f o = record {
    room = f.allows;
    counted = inl (f.unbound, f.nothing_sent);
    within =
        subst
          (λ (d : List (ℕ × SentMsg)).
            lez (pos (length d)) start.conn.smpp.max_pending_submits ≡ true)
          (sym f.nothing_sent) f.allows;
    numbers =
        subst (All (λ (e : ℕ × SentMsg). e.0 < start.conn.smpp.message_id_counter))
          (sym f.nothing_sent) tt;
  }
  IoRun-Window (next r s) f o = IoStep-Window s o.1 (IoRun-Window r f o.0)
