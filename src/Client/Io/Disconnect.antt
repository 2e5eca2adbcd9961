-- ===== src/Client/Io/Disconnect.antt =====
-- Where the messages of a connection are when it is gone.
use smpp_server.Prelude.{
  none, map, Option-cases, inl, inr, ℕ, ◌≡◌, refl, ap, ◌∙◌, Bool, true, false, some, List, [], ◌∷◌,
  ◌++◌, append-nil, append_assoc, if◌then◌else◌,
}
use mathlib.Core.List.{Perm}
use mathlib.Core.List.Perm
use mathlib.Core.Path.{subst₂}
use smpp_server.Gwlib.{Gwlib}
use smpp_server.Client.Msg.{Msg}
use smpp_server.Client.Conn.{SentMsg}
use smpp_server.Client.Send.Ready.{msg_id, ids, sent_ids}
use smpp_server.Client.Status.{Reason, failed_shutdown, failed_temporarily}
use smpp_server.Client.Outgoing.{smscconn_send_failed, produce_outgoing_msg}
use smpp_server.Client.Handle.{Io}
use smpp_server.Client.Io.Window.{disconnect-smpp}
use smpp_server.Client.Io.{fail, fail_queue, fail_sent, gone, empty_smpp, disconnect}

module _ ⦃gw : Gwlib⦄ where
  open gw use {Octstr}

  abbrev pub waiting : Io → List Octstr
  waiting io = ids io.outgoing.outgoing_msg

  -- The reason of a thread that leaves its connection.
  abbrev leaves : Bool → Reason
  leaves quitting = if quitting then failed_shutdown else failed_temporarily

  ids-append : (xs ys : List Msg) → ids (xs ++ ys) ≡ ids xs ++ ids ys
  ids-append [] ys = refl
  ids-append (x ∷ xs) ys = ap (◌∷◌ (msg_id x)) (ids-append xs ys)

  fail-waiting :
      (now : ℕ) (b : Bool) (m : Msg) (io : Io)
      → waiting (fail now (leaves b) m io) ≡ waiting io ++ msg_id m ∷ []
  unfolding fail smscconn_send_failed produce_outgoing_msg
  fail-waiting now true m io = ids-append io.outgoing.outgoing_msg _
  fail-waiting now false m io = ids-append io.outgoing.outgoing_msg _

  -- The messages with a PDU, which are put back; the others are dropped.
  abbrev pub with_pdus : List Msg → List Msg
  with_pdus [] = []
  with_pdus (m ∷ ms) = elim (m.sm_info.pdu) [ none ↦ with_pdus ms | some os ↦ m ∷ with_pdus ms ]

  fail_queue-waiting :
      (now : ℕ) (b : Bool) (ms : List Msg) (io : Io)
      → waiting (fail_queue now (leaves b) ms io) ≡ waiting io ++ ids (with_pdus ms)
  unfolding fail_queue
  fail_queue-waiting now b [] io = append-nil (waiting io)
  fail_queue-waiting now b (m ∷ ms) io = elim (Option-cases m.sm_info.pdu) [
    | inl none_ ↦ rw (fail_queue, none_) (fail_queue-waiting now b ms io)
    | inr (os, p) ↦
        rw (fail_queue, p)
          (fail_queue-waiting now b ms (fail now (leaves b) m io)
            ∙ ap (λ x. x ++ ids (with_pdus ms)) (fail-waiting now b m io)
            ∙ append_assoc (waiting io) (msg_id m ∷ []) (ids (with_pdus ms)))
  ]

  fail_sent-waiting :
      (now : ℕ) (b : Bool) (d : List (ℕ × SentMsg)) (io : Io)
      → waiting (fail_sent now (leaves b) d io) ≡ waiting io ++ sent_ids d
  unfolding fail_sent
  fail_sent-waiting now b [] io = append-nil (waiting io)
  fail_sent-waiting now b ((n, s) ∷ d) io =
      fail_sent-waiting now b d (fail now (leaves b) s.msg io)
      ∙ ap (λ x. x ++ sent_ids d) (fail-waiting now b s.msg io)
      ∙ append_assoc (waiting io) (msg_id s.msg ∷ []) (sent_ids d)

  sent_ids-map : (d : List (ℕ × SentMsg)) → map (λ e. msg_id e.1.msg) d ≡ sent_ids d
  sent_ids-map [] = refl
  sent_ids-map ((k, s) ∷ d) = ap (◌∷◌ (msg_id s.msg)) (sent_ids-map d)

  pub sent_ids-Perm : (d e : List (ℕ × SentMsg)) → Perm d e → Perm (sent_ids d) (sent_ids e)
  sent_ids-Perm d e p =
      subst₂ Perm (sent_ids-map d) (sent_ids-map e)
        (Perm.map (λ (x : ℕ × SentMsg). msg_id x.1.msg) p)

  gone-waiting : (b : Bool) (io : Io) → waiting (empty_smpp (gone b io)) ≡ waiting io
  gone-waiting true io = refl
  gone-waiting false io = refl

  -- When the connection of a transmitter or transceiver is gone, the messages that it had not sent
  -- and that have a PDU, and then those that were not answered, in the order of the dictionary's
  -- keys, are behind what the queue of the process held; messages without a PDU are dropped, and
  -- the connection keeps none.
  pub disconnect-waiting :
      (now : ℕ) (connected : Bool) (order : List (ℕ × SentMsg) → List (ℕ × SentMsg)) (io : Io)
      → ((d : List (ℕ × SentMsg)) → Perm (order d) d)
      → let io' = disconnect now connected order io in
        let unanswered = sent_ids (order io.conn.smpp.sent_msgs) in
        (waiting io' ≡ (waiting io ++ ids (with_pdus io.conn.smpp.msgs_to_send)) ++ unanswered)
        × Perm unanswered (sent_ids io.conn.smpp.sent_msgs)
        × (io'.conn.smpp.msgs_to_send ≡ [])
        × (io'.conn.smpp.sent_msgs ≡ [])
  unfolding disconnect
  disconnect-waiting now connected order io h =
      let sent = order io.conn.smpp.sent_msgs in
      let queue = with_pdus io.conn.smpp.msgs_to_send in
      (
        fail_sent-waiting now io.conn.smpp.quitting sent _
            ∙ ap (λ x. x ++ sent_ids sent)
                (fail_queue-waiting now io.conn.smpp.quitting io.conn.smpp.msgs_to_send _
                  ∙ ap (λ x. x ++ ids queue) (gone-waiting connected io)),
        sent_ids-Perm sent io.conn.smpp.sent_msgs (h io.conn.smpp.sent_msgs),
        ap (λ s. s.msgs_to_send) (disconnect-smpp now connected order io),
        ap (λ s. s.sent_msgs) (disconnect-smpp now connected order io),
      )
