-- ===== src/Client/Handle/Window.antt =====
-- The window of submits through `handle_pdu`: its count follows the messages that wait for their
-- answers.
use smpp_server.Prelude.{
  Bool-cases, ℕ, suc, ◌<◌, ◌≡◌, ◌⊎◌, refl, sym, ap, ◌∙◌, true, some, List, [], arith, length, All,
  Option-cases, inl, inr, either_branch,
}
use mathlib.Core.Path.{subst}
use smpp_server.Prelude.Int.{ℤ, pos, negsuc, minus_one, lez}
use smpp_server.Prelude.Options.{some_inj}
use smpp_server.Gwlib.{Gwlib}
use smpp_server.Client.Calls.{Calls}
use smpp_server.Client.Msg.{Msg}
use smpp_server.Client.Conn.{Conn, SentMsg, Smpp, is_active}
use smpp_server.Client.Send.{decz}
use smpp_server.Client.Status.{
  Status, is_rok, is_wrong_login, smpp_status_to_smscconn_failure_reason, Reason, smscconn_success,
  failed_shutdown, failed_rejected, failed_malformed, failed_temporarily, failed_discarded,
  failed_qfull,
}
use smpp_server.Client.Outgoing.{Outgoing, smscconn_send_failed, smscconn_sent}
use smpp_server.Client.Handle.{
  Io, SmscPdu, with_smpp, dict_remove, answered, answered_ok, answered_error, handle_submit_sm_resp,
  handle_generic_nack, handle_bind_resp, handle_bind_receiver_resp, rejected_login, online,
  handle_deliver_sm, handle_pdu,
}
use smpp_server.Client.Handle.Removed.{dict_remove_lem}

module _ ⦃gw : Gwlib⦄ where
  open gw use {Octstr, octstr_from_position}

  -- The window of a connection: not bound, with nothing sent, or bound, where it counts the
  -- messages that are not answered, which are no more than `max` and have numbers below the
  -- counter.
  pub record Window (p : ℤ) (d : List (ℕ × SentMsg)) (max : ℤ) (n : ℕ) : Type 0 where
    pub room : lez (pos 0) max ≡ true
    pub counted : ((p ≡ minus_one) × (d ≡ [])) ⊎ (p ≡ pos (length d))
    pub within : lez (pos (length d)) max ≡ true
    pub numbers : All (λ (e : ℕ × SentMsg). e.0 < n) d

  abbrev pub WindowState : Io → Type 0
  WindowState io =
      Window io.pending_submits io.conn.smpp.sent_msgs io.conn.smpp.max_pending_submits
        io.conn.smpp.message_id_counter

  lez_less : (k : ℕ) (max : ℤ) → lez (pos (suc k)) max ≡ true → lez (pos k) max ≡ true
  lez_less k (pos m) h = ground arith
  lez_less k (negsuc m) h = cc

  decz-suc : (p : ℤ) (k : ℕ) → p ≡ pos (suc k) → decz p ≡ pos k
  unfolding decz
  decz-suc p k h = rw h refl

  -- One message is answered.
  pub removed-Window :
      (k : ℕ) (p : ℤ) (d : List (ℕ × SentMsg)) (max : ℤ) (n : ℕ) (s : SentMsg)
      (d' : List (ℕ × SentMsg))
      → dict_remove k d ≡ some (s, d')
      → Window p d max n
      → Window (decz p) d' max n
  removed-Window k p d max n s d' h v =
      let less = dict_remove_lem (λ (e : ℕ × SentMsg). e.0 < n) k d s d' h in
      record {
        room = v.room;
        counted = elim (v.counted) [
          | inl (u, e) ↦ absurd (omega (arith, less.0, ap length e))
          | inr c ↦ inr (decz-suc p (length d') (c ∙ ap pos less.0))
        ];
        within = lez_less (length d') max (subst (λ x. lez (pos x) max ≡ true) less.0 v.within);
        numbers = less.1 v.numbers;
      }

  pub send_failed-smpp :
      (now : ℕ) (k : Conn) (m : Msg) (r : Reason) (o : Outgoing)
      → (smscconn_send_failed now k m r o).0.smpp ≡ k.smpp
  unfolding smscconn_send_failed
  send_failed-smpp now k m smscconn_success o = refl
  send_failed-smpp now k m failed_shutdown o = refl
  send_failed-smpp now k m failed_rejected o = refl
  send_failed-smpp now k m failed_malformed o = refl
  send_failed-smpp now k m failed_temporarily o = refl
  send_failed-smpp now k m failed_discarded o = refl
  send_failed-smpp now k m failed_qfull o = refl

  -- The window of a connection's data, under a count.
  abbrev pub WindowOf : ℤ → Smpp → Type 0
  WindowOf p s = Window p s.sent_msgs s.max_pending_submits s.message_id_counter

  answered_error-Window :
      (now : ℕ) (m : Msg) (status : Status) (io : Io)
      → WindowOf (decz io.pending_submits) io.conn.smpp
      → WindowState (answered_error now m status io)
  unfolding answered_error
  answered_error-Window now m status io v =
      subst (WindowOf (decz io.pending_submits))
        (sym (send_failed-smpp now _ m (smpp_status_to_smscconn_failure_reason status) io.outgoing))
        (record { room = v.room; counted = v.counted; within = v.within; numbers = v.numbers })

  answered-Window :
      (now : ℕ) (m : Msg) (status : Status) (io : Io)
      → WindowOf (decz io.pending_submits) io.conn.smpp
      → WindowState (answered now m status io)
  unfolding answered answered_ok smscconn_sent
  answered-Window now m status io v =
      either_branch WindowState (is_rok status) (answered_ok io) (answered_error now m status io) v
        (answered_error-Window now m status io v)

  kept : (io io' : Io) → WindowState io → some io ≡ some io' → WindowState io'
  kept io io' v h = subst WindowState (some_inj h) v

  handle_submit_sm_resp-Window :
      (c : Calls) (now n : ℕ) (status : Status) (id : Octstr) (io io' : Io)
      → WindowState io
      → handle_submit_sm_resp c now n status id io ≡ some io'
      → WindowState io'
  unfolding handle_submit_sm_resp
  handle_submit_sm_resp-Window c now n status id io io' v h =
      elim (Option-cases (dict_remove n io.conn.smpp.sent_msgs)) [
        | inl none_ ↦ kept io io' v (rw (handle_submit_sm_resp, none_) at h)
        | inr ((s, d), found) ↦ elim (Option-cases s.msg.sm_info.pdu) [
          | inl no_pdu ↦ let q = rw (handle_submit_sm_resp, found, no_pdu) at h in cc
          | inr (os, pdu) ↦ elim (Option-cases (c.smpp_pdu_unpack (octstr_from_position os 4))) [
            | inl bad ↦ let q = rw (handle_submit_sm_resp, found, pdu, bad) at h in cc
            | inr (p, good) ↦
                subst WindowState (some_inj (rw (handle_submit_sm_resp, found, pdu, good) at h)) (
                  answered-Window now _ status _ (
                    let less =
                      removed-Window n io.pending_submits io.conn.smpp.sent_msgs
                        io.conn.smpp.max_pending_submits io.conn.smpp.message_id_counter s d found
                        v in
                    less))
          ]
        ]
      ]

  handle_generic_nack-Window :
      (now n : ℕ) (status : Status) (io : Io)
      → WindowState io
      → WindowState (handle_generic_nack now n status io)
  unfolding handle_generic_nack
  handle_generic_nack-Window now n status io v =
      elim (Option-cases (dict_remove n io.conn.smpp.sent_msgs)) [
        | inl none_ ↦ rw (handle_generic_nack, none_) v
        | inr ((s, d), found) ↦
            let io' : Io = with_smpp (record (io.conn.smpp) { sent_msgs = d }) io in
            rw (handle_generic_nack, found)
              (answered_error-Window now s.msg status io' (
                removed-Window n io.pending_submits io.conn.smpp.sent_msgs
                  io.conn.smpp.max_pending_submits io.conn.smpp.message_id_counter s d found v))
      ]

  rejected_login-Window :
      (status : Status) (io : Io) → WindowState io → WindowState (rejected_login status io)
  unfolding rejected_login
  rejected_login-Window status io v = either_branch WindowState (is_wrong_login status) _ io v v

  online-Window :
      (now : ℕ) (io : Io)
      → io.conn.smpp.sent_msgs ≡ []
      → WindowState io
      → WindowState (online now io)
  unfolding online
  online-Window now io e v = record {
    room = v.room;
    counted = inr (ap (λ d. pos (length d)) (sym e));
    within = v.within;
    numbers = v.numbers;
  }

  handle_bind_resp-Window :
      (now : ℕ) (status : Status) (io : Io)
      → (is_rok status ≡ true → io.conn.smpp.sent_msgs ≡ [])
      → WindowState io
      → WindowState (handle_bind_resp now status io)
  unfolding handle_bind_resp
  handle_bind_resp-Window now status io e v = elim (Bool-cases (is_rok status)) [
    | inl ok ↦ rw ok (online-Window now io (e ok) v)
    | inr bad ↦ rw bad (rejected_login-Window status io v)
  ]

  handle_bind_receiver_resp-Window :
      (now : ℕ) (status : Status) (io : Io)
      → WindowState io
      → WindowState (handle_bind_receiver_resp now status io)
  unfolding handle_bind_receiver_resp
  handle_bind_receiver_resp-Window now status io v =
      either_branch WindowState (is_rok status) _ (rejected_login status io)
        (either_branch WindowState (is_active io.conn.status) io _ v v)
        (rejected_login-Window status io v)

  -- A bind succeeds only while no submit waits for its answer.
  abbrev pub Expected : SmscPdu → Io → Type 0
  Expected (SmscPdu.bind_transmitter_resp status) io =
      is_rok status ≡ true → io.conn.smpp.sent_msgs ≡ []
  Expected (SmscPdu.bind_transceiver_resp status) io =
      is_rok status ≡ true → io.conn.smpp.sent_msgs ≡ []
  Expected _ io = Unit

  -- Every PDU from the SMSC keeps the window, whatever its numbers and statuses are, if a bind
  -- succeeds only while no submit waits.
  pub handle_pdu-Window :
      (c : Calls) (now : ℕ) (pdu : SmscPdu) (io io' : Io)
      → Expected pdu io
      → WindowState io
      → handle_pdu c now pdu io ≡ some io'
      → WindowState io'
  unfolding handle_pdu handle_deliver_sm
  handle_pdu-Window c now (SmscPdu.data_sm n) io io' e v h = kept _ io' v h
  handle_pdu-Window c now (SmscPdu.deliver_sm p) io io' e v h = kept _ io' v h
  handle_pdu-Window c now (SmscPdu.enquire_link n) io io' e v h = kept _ io' v h
  handle_pdu-Window c now SmscPdu.enquire_link_resp io io' e v h = kept _ io' v h
  handle_pdu-Window c now (SmscPdu.submit_sm_resp n status id) io io' e v h =
      handle_submit_sm_resp-Window c now n status id io io' v h
  handle_pdu-Window c now (SmscPdu.bind_transmitter_resp status) io io' e v h =
      kept _ io' (handle_bind_resp-Window now status io e v) h
  handle_pdu-Window c now (SmscPdu.bind_transceiver_resp status) io io' e v h =
      kept _ io' (handle_bind_resp-Window now status io e v) h
  handle_pdu-Window c now (SmscPdu.bind_receiver_resp status) io io' e v h =
      kept _ io' (handle_bind_receiver_resp-Window now status io v) h
  handle_pdu-Window c now (SmscPdu.unbind n) io io' e v h = kept _ io' v h
  handle_pdu-Window c now SmscPdu.unbind_resp io io' e v h = kept _ io' v h
  handle_pdu-Window c now (SmscPdu.generic_nack n status) io io' e v h =
      kept _ io' (handle_generic_nack-Window now n status io v) h
  handle_pdu-Window c now (SmscPdu.other_pdu n) io io' e v h = kept _ io' v h
