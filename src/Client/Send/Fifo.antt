-- ===== src/Client/Send/Fifo.antt =====
-- The order in which `send_messages` sends, and what becomes of each message.
use smpp_server.Prelude.{
  map, ℕ, append-nil, append_assoc, if_false, suc, ◌+◌, ◌*◌, ◌^◌, ◌≤◌, ◌<◌, ◌≡◌, ◌⊎◌, refl, sym, ap,
  ◌∙◌, true, false, some, List, [], ◌∷◌, ◌++◌, arith, length, All, Bool-cases, inl, inr,
}
use mathlib.Core.Path.{subst}
use smpp_server.Prelude.Int.{ℤ, pos, negsuc, minus_one, eqz}
use smpp_server.Gwlib.{Gwlib}
use smpp_server.Client.Calls.{Calls, SmPdu}
use smpp_server.Client.Conn.{SentMsg}
use smpp_server.Client.Msg.{Msg}
use smpp_server.Client.Send.{
  mark_sent, Settings, prepare, Link, is_full, wrote, with_queue, send_loop, send_messages,
}
use smpp_server.Client.Send.Ready.{msg_id, ids, sent_ids, Packed, IsReady, prepare-IsReady}
use smpp_server.Client.Send.Kept.{entry, WindowValid, Written, elim_false, wrote-Valid, kept-Valid}

module _ ⦃gw : Gwlib⦄ where
  open gw use {Octstr}

  -- The window's entry of a PDU that is written whole, under the PDU's own sequence number.
  abbrev pub numbered : (SmPdu × SentMsg) → ℕ × SentMsg
  numbered (p, s) = (p.sequence_number, s)

  abbrev pub whole : (SmPdu × SentMsg) → SmPdu × ℤ
  whole (p, s) = (p, pos 0)

  abbrev pub id_of : (SmPdu × SentMsg) → Octstr
  id_of (p, s) = msg_id s.msg

  -- How the messages `ms` of the queue are dealt with from `l` to `l'`, where `w` are the results of
  -- the writes: `sendings` are the PDUs that are written whole, with their entries.
  pub record Fifo (w : ℕ → ℤ) (ms : List Msg) (l l' : Link) : Type 0 where
    pub taken : List Msg
    pub lost : List Msg
    pub split : ms ≡ taken ++ lost ++ l'.smpp.msgs_to_send
    pub sent : sent_ids l'.smpp.sent_msgs ≡ sent_ids l.smpp.sent_msgs ++ ids taken
    pub sendings : List (SmPdu × SentMsg)
    pub window : l'.smpp.sent_msgs ≡ l.smpp.sent_msgs ++ map numbered sendings
    pub carries : map id_of sendings ≡ ids taken
    pub failed : List (SmPdu × ℤ)
    pub writes : l'.written ≡ l.written ++ (map whole sendings ++ failed)
    pub failed_lost : length failed ≡ length lost
    pub not_whole : All (λ (x : SmPdu × ℤ). eqz x.1 (pos 0) ≡ false) failed
    pub one : length lost ≤ 1
    pub lost_write : ((k : ℕ) → w k ≡ pos 0) → lost ≡ []
    pub stops : lost ≡ [] → (is_full l' ≡ true) ⊎ (l'.smpp.msgs_to_send ≡ [])
    pub valid : WindowValid l'

  cons_path : {x y : Octstr} {xs ys : List Octstr} → x ≡ y → xs ≡ ys → x ∷ xs ≡ y ∷ ys
  cons_path p q = λ i. p i ∷ q i

  eqz_zero : (z : ℤ) → eqz z (pos 0) ≡ true → z ≡ pos 0
  eqz_zero (pos n) h = ground arith
  eqz_zero (negsuc n) h = cc

  queue-Valid : (ms : List Msg) (l : Link) → WindowValid l → WindowValid (with_queue ms l)
  queue-Valid ms l v = record { counted = v.counted; within = v.within; numbers = v.numbers }

  -- Nothing is sent.
  rests :
      (w : ℕ → ℤ) (ms : List Msg) (l : Link)
      → WindowValid l
      → (is_full l ≡ true) ⊎ (ms ≡ [])
      → Fifo w ms l (with_queue ms l)
  rests w ms l v e = record {
    taken = [];
    lost = [];
    split = refl;
    sent = append-nil (sent_ids l.smpp.sent_msgs);
    sendings = [];
    window = append-nil l.smpp.sent_msgs;
    carries = refl;
    failed = [];
    writes = append-nil l.written;
    failed_lost = refl;
    not_whole = tt;
    one = omega arith;
    lost_write = λ h. refl;
    stops = λ _. e;
    valid = queue-Valid ms l v;
  }

  module _ (c : Calls) (set : Settings) (id : Octstr) (now : ℕ) where
    abbrev Sends : (ℕ → ℤ) → List Msg → Link → Type 0
    Sends w ms l = (l' : Link) × (send_loop c set id now w ms l ≡ some l') × Fifo w ms l l'

    Sends-next :
        (w : ℕ → ℤ) (m : Msg) (ms : List Msg) (l : Link)
        (g : IsReady l.smpp m (prepare c set id l.smpp m))
        → is_full l ≡ false
        → WindowValid l
        → w 0 ≡ pos 0
        → Sends (λ k. w (suc k)) ms (wrote now (w 0) g.counter g.msg g.pdu l)
        → Sends w (m ∷ ms) l
    unfolding send_loop wrote mark_sent
    Sends-next w m ms l g room v ok (l', p, f) =
        let here = subst (Written now l m _ g) (sym ok) (wrote-Valid now l m _ g room v) in
        (
          l',
          rw (send_loop, room, g.is_ready, ok) p,
          record {
            taken = m ∷ f.taken;
            lost = f.lost;
            split = ap (◌∷◌ m) f.split;
            sent =
                f.sent
                ∙ ap (λ x. x ++ ids f.taken) here.1
                ∙ append_assoc (sent_ids l.smpp.sent_msgs) (msg_id m ∷ []) (ids f.taken);
            sendings = (g.pdu, entry now g.msg) ∷ f.sendings;
            window =
                f.window
                ∙ ap (λ x. x ++ map numbered f.sendings) here.2
                ∙ append_assoc l.smpp.sent_msgs ((g.pdu.sequence_number, entry now g.msg) ∷ [])
                    (map numbered f.sendings);
            carries = cons_path (g.same_id) f.carries;
            failed = f.failed;
            writes =
                f.writes
                ∙ ap (λ z. (l.written ++ (g.pdu, z) ∷ []) ++ (map whole f.sendings ++ f.failed)) ok
                ∙ append_assoc l.written ((g.pdu, pos 0) ∷ []) (map whole f.sendings ++ f.failed);
            failed_lost = f.failed_lost;
            not_whole = f.not_whole;
            one = f.one;
            lost_write = λ h. f.lost_write (λ k. h (suc k));
            stops = f.stops;
            valid = f.valid;
          },
        )

    Sends-fails :
        (w : ℕ → ℤ) (m : Msg) (ms : List Msg) (l : Link)
        (g : IsReady l.smpp m (prepare c set id l.smpp m))
        → is_full l ≡ false
        → WindowValid l
        → eqz (w 0) (pos 0) ≡ false
        → Sends w (m ∷ ms) l
    unfolding send_loop wrote
    Sends-fails w m ms l g room v bad =
        let kept = kept-Valid now (w 0) l m _ g bad v in
        (
          with_queue ms (wrote now (w 0) g.counter g.msg g.pdu l),
          rw (send_loop, room, g.is_ready) (elim_false (eqz (w 0) (pos 0)) _ _ bad),
          record {
            taken = [];
            lost = m ∷ [];
            split = refl;
            sent = ap sent_ids kept.1 ∙ append-nil (sent_ids l.smpp.sent_msgs);
            sendings = [];
            window = kept.1 ∙ append-nil l.smpp.sent_msgs;
            carries = refl;
            failed = (g.pdu, w 0) ∷ [];
            writes = refl;
            failed_lost = refl;
            not_whole = (bad, tt);
            one = omega arith;
            lost_write = λ h. let e : w 0 ≡ pos 0 = h 0 in ground arith;
            stops = λ e. cc;
            valid = queue-Valid ms _ kept.0;
          },
        )

    send_loop-Fifo :
        (w : ℕ → ℤ) (ms : List Msg) (l : Link)
        → WindowValid l
        → All (Packed c) ms
        → l.smpp.message_id_counter + 2 * length ms < 2 ^ 64
        → Sends w ms l
    unfolding send_loop wrote
    send_loop-Fifo w [] l v h r = (with_queue [] l, refl, rests w [] l v (inr refl))
    send_loop-Fifo w (m ∷ ms) l v h r = elim (Bool-cases (is_full l)) [
      | inl full ↦
          (with_queue (m ∷ ms) l, rw (send_loop, full) refl, rests w (m ∷ ms) l v (inl full))
      | inr room ↦
          let g = prepare-IsReady c set id l.smpp m h.0 (omega arith) in
          elim (Bool-cases (eqz (w 0) (pos 0))) [
            | inl ok ↦
                let zero_ = eqz_zero (w 0) ok in
                let here =
                  subst (Written now l m _ g) (sym zero_) (wrote-Valid now l m _ g room v) in
                Sends-next w m ms l g room v zero_ (
                  send_loop-Fifo (λ k. w (suc k)) ms (wrote now (w 0) g.counter g.msg g.pdu l)
                    here.0 h.1 (omega (arith, g.close)))
            | inr bad ↦ Sends-fails w m ms l g room v bad
          ]
    ]

  -- Messages that carry submits are taken from the front of the queue, in order, until the window is
  -- full, the queue is empty or a write does not return 0, from a valid window and while the counter
  -- does not wrap. Each that is written whole is in the window, behind what was there, under the
  -- sequence number of the PDU that was written for it, and the window stays valid: it is counted,
  -- and no larger than max_pending_submits. The one whose write does not return 0, if there is one,
  -- is in neither the window nor the queue at the end; the others that are left stay in the queue.
  pub send_messages-Fifo :
      (c : Calls) (set : Settings) (id : Octstr) (now : ℕ) (w : ℕ → ℤ) (l : Link)
      → WindowValid l
      → All (Packed c) l.smpp.msgs_to_send
      → l.smpp.message_id_counter + 2 * length l.smpp.msgs_to_send < 2 ^ 64
      → (l' : Link) × (send_messages c set id now w l ≡ some l') × Fifo w l.smpp.msgs_to_send l l'
  unfolding send_messages
  send_messages-Fifo c set id now w l v h r =
      let (l', p, f) = send_loop-Fifo c set id now w l.smpp.msgs_to_send l v h r in
      (l', if_false (eqz l.pending_submits minus_one) _ _ (ground (arith, v.counted)) ∙ p, f)
