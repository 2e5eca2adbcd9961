-- ===== src/Client/Send/Kept.antt =====
-- The window after one more message was written.
use smpp_server.Prelude.{
  ℕ, if_false, ◌+◌, ◌≤◌, ◌<◌, ◌≡◌, refl, sym, ap, ◌∙◌, Bool, true, false, List, [], ◌∷◌, ◌++◌,
  arith, length, length-append, All, All-append,
}
use mathlib.Core.Path.{subst}
use smpp_server.Prelude.Int.{ℤ, pos, negsuc, eqz, lez}
use smpp_server.Gwlib.{Gwlib}
use smpp_server.Client.Msg.{Msg}
use smpp_server.Client.Conn.{SentMsg}
use smpp_server.Client.Send.{Prepared, Link, is_full, mark_sent, wrote, incz}
use smpp_server.Client.Send.Ready.{msg_id, sent_ids, IsReady, dict_put_new}

module _ ⦃gw : Gwlib⦄ where
  open gw use {Octstr}

  -- The window of a connection that is bound: it counts the submits that are not answered, which
  -- are no more than the configuration allows, and their numbers have been handed out.
  pub record WindowValid (l : Link) : Type 0 where
    pub counted : l.pending_submits ≡ pos (length l.smpp.sent_msgs)
    pub within : lez (pos (length l.smpp.sent_msgs)) l.smpp.max_pending_submits ≡ true
    pub numbers : All (λ (e : ℕ × SentMsg). e.0 < l.smpp.message_id_counter) l.smpp.sent_msgs

  pub sent_ids-append :
      (d : List (ℕ × SentMsg)) (n : ℕ) (s : SentMsg)
      → sent_ids (d ++ (n, s) ∷ []) ≡ sent_ids d ++ msg_id s.msg ∷ []
  sent_ids-append [] n s = refl
  sent_ids-append ((k, x) ∷ d) n s = ap (◌∷◌ (msg_id x.msg)) (sent_ids-append d n s)

  pub below_more :
      (n k : ℕ) (d : List (ℕ × SentMsg))
      → n ≤ k
      → All (λ (e : ℕ × SentMsg). e.0 < n) d
      → All (λ (e : ℕ × SentMsg). e.0 < k) d
  below_more n k [] h v = tt
  below_more n k (e ∷ d) h v = (omega arith, below_more n k d h v.1)

  pub length-dict : (d : List (ℕ × SentMsg)) (x : ℕ × SentMsg) → length (d ++ x ∷ []) ≡ length d + 1
  length-dict d x = omega (arith, length-append {0} d (x ∷ []))

  pub lez-full : (n : ℕ) (max : ℤ) → lez max (pos n) ≡ false → lez (pos (n + 1)) max ≡ true
  lez-full n (pos m) h = ground arith
  lez-full n (negsuc m) h = cc

  pub incz_pos : (n : ℕ) → incz (pos n) ≡ pos (n + 1)
  unfolding incz
  incz_pos n = ap pos (omega arith)

  -- The entry of a message in the window.
  abbrev pub entry : ℕ → Msg → SentMsg
  entry now m = record { sent_time = now; msg = mark_sent m }

  abbrev pub Written :
      (now : ℕ) (l : Link) (m : Msg) (r : Prepared) → IsReady l.smpp m r → ℤ → Type 0
  Written now l m r g w =
      WindowValid (wrote now w g.counter g.msg g.pdu l)
      × (sent_ids (wrote now w g.counter g.msg g.pdu l).smpp.sent_msgs
          ≡ sent_ids l.smpp.sent_msgs ++ msg_id m ∷ [])
      × ((wrote now w g.counter g.msg g.pdu l).smpp.sent_msgs
          ≡ l.smpp.sent_msgs ++ (g.pdu.sequence_number, entry now g.msg) ∷ [])

  pub elim_false {ℓ} :
      {A : Type ℓ} (b : Bool) (x y : A) → b ≡ false → elim b [ true ↦ x | false ↦ y ] ≡ y
  elim_false true x y p = cc
  elim_false false x y p = refl

  -- A message that is written whole takes its place in the window.
  pub wrote-Valid :
      (now : ℕ) (l : Link) (m : Msg) (r : Prepared) (g : IsReady l.smpp m r)
      → is_full l ≡ false
      → WindowValid l
      → Written now l m r g (pos 0)
  unfolding wrote mark_sent
  wrote-Valid now l m r g room v =
      let s : SentMsg = record { sent_time = now; msg = mark_sent g.msg } in
      let d = l.smpp.sent_msgs in
      let e : ℕ × SentMsg = (g.pdu.sequence_number, s) in
      let put = dict_put_new g.pdu.sequence_number l.smpp.message_id_counter s d v.numbers g.new_ in
      let room' = subst (λ x. lez l.smpp.max_pending_submits x ≡ false) v.counted room in
      (
        record {
          counted =
              ap incz v.counted
              ∙ incz_pos (length d)
              ∙ ap pos (sym (ap length put ∙ length-dict d e));
          within =
              subst (λ k. lez (pos k) l.smpp.max_pending_submits ≡ true)
                (sym (ap length put ∙ length-dict d e))
                (lez-full (length d) l.smpp.max_pending_submits room');
          numbers = subst (All (λ (x : ℕ × SentMsg). x.0 < g.counter)) (sym put) (
              All-append (λ (x : ℕ × SentMsg). x.0 < g.counter) d (e ∷ [])
                (below_more l.smpp.message_id_counter g.counter d (omega (arith, g.new_, g.below))
                  v.numbers)
                (g.below, tt));
        },
        ap sent_ids put
            ∙ sent_ids-append d g.pdu.sequence_number s
            ∙ ap (λ x. sent_ids d ++ x ∷ []) g.same_id,
        put,
      )

  pub kept-Valid :
      (now : ℕ) (w : ℤ) (l : Link) (m : Msg) (r : Prepared) (g : IsReady l.smpp m r)
      → eqz w (pos 0) ≡ false
      → WindowValid l
      → WindowValid (wrote now w g.counter g.msg g.pdu l)
        × ((wrote now w g.counter g.msg g.pdu l).smpp.sent_msgs ≡ l.smpp.sent_msgs)
  unfolding wrote
  kept-Valid now w l m r g bad v =
      let same = if_false (eqz w (pos 0)) _ l.smpp.sent_msgs bad in
      (
        record {
          counted =
              if_false (eqz w (pos 0)) _ _ bad ∙ v.counted ∙ ap (λ x. pos (length x)) (sym same);
          within =
              subst (λ x. lez (pos (length x)) l.smpp.max_pending_submits ≡ true) (sym same)
                v.within;
          numbers = subst (All (λ (x : ℕ × SentMsg). x.0 < g.counter)) (sym same) (
              below_more l.smpp.message_id_counter g.counter l.smpp.sent_msgs
                (omega (arith, g.new_, g.below)) v.numbers);
        },
        same,
      )
