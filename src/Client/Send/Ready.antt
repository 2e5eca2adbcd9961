-- ===== src/Client/Send/Ready.antt =====
-- What is ready to be written: the message of the queue, under a new sequence number.
use smpp_server.Prelude.{
  ℕ, Option, ◌+◌, ◌^◌, ◌≤◌, ◌<◌, ◌≡◌, refl, sym, if_true, if_false, ◌%◌, true, some, List, [], ◌∷◌,
  ◌++◌, arith, All, Bool-cases, inl, inr,
}
use mathlib.Core.Path.{subst}
use smpp_server.Gwlib.{Gwlib, counter_increase}
use smpp_server.Client.Calls.{Calls, SmPdu}
use smpp_server.Client.Msg.{Msg}
use smpp_server.Client.Conn.{Smpp, SentMsg}
use smpp_server.Client.Send.{
  Settings, Prepared, ready, prepare_pdu, prepare, dnd_pdu, rewrite_submit, dict_put, with_pdu,
}

module _ ⦃gw : Gwlib⦄ where
  open gw use {Octstr, octstr_from_position}

  abbrev pub msg_id : Msg → Octstr
  msg_id m = m.sm_info.account_msg_id

  abbrev pub ids : List Msg → List Octstr
  ids [] = []
  ids (m ∷ ms) = msg_id m ∷ ids ms

  abbrev pub sent_ids : List (ℕ × SentMsg) → List Octstr
  sent_ids [] = []
  sent_ids ((k, s) ∷ d) = msg_id s.msg ∷ sent_ids d

  -- The message carries a submit_sm, as every message from smpp-esme does.
  abbrev pub Packed : Calls → Msg → Type 0
  Packed c m =
      (os : Octstr) × (p : SmPdu) × (m.sm_info.pdu ≡ some os)
      × (c.smpp_pdu_unpack (octstr_from_position os 4) ≡ some p)
      × (p.is_submit_sm ≡ true)

  -- The message is ready, and its number is a new one.
  pub record IsReady (smpp : Smpp) (m : Msg) (r : Prepared) : Type 0 where
    pub counter : ℕ
    pub msg : Msg
    pub pdu : SmPdu
    pub is_ready : r ≡ ready counter msg pdu
    pub same_id : msg_id msg ≡ msg_id m
    pub new_ : smpp.message_id_counter ≤ pdu.sequence_number
    pub below : pdu.sequence_number < counter
    pub close : counter ≤ smpp.message_id_counter + 2

  prepare_pdu-IsReady :
      (c : Calls) (set : Settings) (id : Octstr) (smpp : Smpp) (n : ℕ) (m : Msg) (os : Octstr)
      (p : SmPdu)
      → c.smpp_pdu_unpack (octstr_from_position os 4) ≡ some p
      → p.is_submit_sm ≡ true
      → n + 1 < 2 ^ 64
      → smpp.message_id_counter ≤ n
      → n ≤ smpp.message_id_counter + 1
      → IsReady smpp m (prepare_pdu c set id smpp n m (some os))
  unfolding prepare_pdu rewrite_submit
  prepare_pdu-IsReady c set id smpp n m os p u s room le ge = record {
    counter = n + 1;
    msg = with_pdu m (c.smpp_pdu_pack (rewrite_submit c set id smpp m n p));
    pdu = rewrite_submit c set id smpp m n p;
    is_ready = (let e : (n + 1) % 2 ^ 64 ≡ n + 1 = omega arith in rw (prepare_pdu, u, s, e));
    same_id = refl;
    new_ = le;
    below = omega arith;
    close = omega arith;
  }

  pub prepare-IsReady :
      (c : Calls) (set : Settings) (id : Octstr) (smpp : Smpp) (m : Msg)
      → Packed c m
      → smpp.message_id_counter + 2 < 2 ^ 64
      → IsReady smpp m (prepare c set id smpp m)
  unfolding prepare dnd_pdu
  prepare-IsReady c set id smpp m (os, p, has, u, s) room = elim (Bool-cases set.dndcheck_flag) [
    | inl dnd ↦
        let n = counter_increase smpp.message_id_counter in
        let made = dnd_pdu c smpp m in
        subst (IsReady smpp m) (sym (if_true set.dndcheck_flag _ _ dnd)) (
          prepare_pdu-IsReady c set id smpp n m (c.smpp_pdu_pack made) made
            (c.smpp_pdu_unpack-pack made) refl (omega arith) (omega arith) (omega arith))
    | inr plain ↦ subst (IsReady smpp m) (sym (if_false set.dndcheck_flag _ _ plain)) (
        subst
          (λ (x : Option Octstr).
            IsReady smpp m (prepare_pdu c set id smpp smpp.message_id_counter m x))
          (sym has)
          (prepare_pdu-IsReady c set id smpp smpp.message_id_counter m os p u s (omega arith)
            (omega arith) (omega arith)))
  ]

  pub dict_put_new :
      (n k : ℕ) (s : SentMsg) (d : List (ℕ × SentMsg))
      → All (λ (e : ℕ × SentMsg). e.0 < k) d
      → k ≤ n
      → dict_put n s d ≡ d ++ (n, s) ∷ []
  unfolding dict_put
  dict_put_new n k s [] v h = refl
  dict_put_new n k s ((j, x) ∷ d) v h = ground (arith, dict_put_new n k s d)
