-- ===== src/Threads/Numbers.antt =====
-- The numbers that a session's thread hands out.
use smpp_server.Prelude.{
  ℕ, ◌≡◌, ◌⊎◌, refl, sym, Bool, true, false, Option, none, some, List, [], ◌∷◌, map, Bool-cases,
  Option-cases, inl, inr, either_branch,
}
use mathlib.Core.Path.{subst}
use smpp_server.Prelude.Int.{ℤ}
use smpp_server.Prelude.Options.{some_inj}
use smpp_server.Gwlib.{Gwlib, Env}
use smpp_server.Submit.{Clock}
use smpp_server.Dispatch.{Pdu, handle_pdu}
use smpp_server.Dispatch.Counter.{handle_pdu-seq}
use smpp_server.Delivery.{Texts, seq_number, next_number, write_esme_conn}
use smpp_server.Threads.Reading.{ReadPdu, failed, nothing, got, read_pdu}
use smpp_server.Threads.{
  reply, enquire_link, unbind, delivered, Loop, Others, status_of, with_len, is_quit,
  is_told_to_leave, leaving, going_on, meet, send_enquire_link, send_unbind, deliver_all,
  handle_read, ask_if_online, Read, ReadEnd, read_all, read_rest, Round, after_reads, round,
  receive_smpp_thread, too_early, is_online, read_failed, read_nothing, is_unconnected,
}
use smpp_server.Threads.Chain.{
  Chain, own, own-replies, Numbered, writes, next_number-seq, meet-Numbered, write_esme_conn-Chain,
}

module _ ⦃gw : Gwlib⦄ where
  deliver_all-Numbered :
      (c : Texts) (a : ℕ) (l : Loop) → Numbered a l → Numbered a (deliver_all c l)
  unfolding deliver_all
  deliver_all-Numbered c a l h =
      writes a l (write_esme_conn c l.session).0 (map delivered (write_esme_conn c l.session).1) h
        (write_esme_conn-Chain c l.session)

  send_unbind-Numbered : (a : ℕ) (l : Loop) → Numbered a l → Numbered a (send_unbind l)
  unfolding send_unbind own
  send_unbind-Numbered a l h =
      writes a l (next_number l.session) (unbind (seq_number l.session) ∷ []) h
        (refl, sym (next_number-seq l.session))

  ask_if_online-Numbered :
      (a now : ℕ) (interval : ℤ) (l : Loop)
      → Numbered a l
      → Numbered a (ask_if_online now interval l)
  unfolding ask_if_online send_enquire_link own
  ask_if_online-Numbered a now interval l h =
      either_branch (Numbered a) (is_online (status_of l.session)) _ _
        (either_branch (Numbered a) (too_early now l.last_enquire_sent interval) _ _ h (
          writes a l (next_number l.session) (enquire_link (seq_number l.session) ∷ []) h
            (refl, sym (next_number-seq l.session))))
        h

  handle_read-Numbered :
      (a : ℕ) (o : Others) (env : Env) (clock : Clock) (pdu : Pdu) (l l' : Loop)
      → Numbered a l
      → handle_read o env clock pdu l ≡ some l'
      → Numbered a l'
  unfolding handle_read
  handle_read-Numbered a o env clock pdu l l' h run =
      elim (Option-cases (handle_pdu o.server env clock o.esme l.session pdu)) [
        | inl e ↦ let k = rw e at run in cc
        | inr (t, e) ↦ subst (Numbered a) (some_inj (rw e at run)) (
            writes a l t.session (map reply t.written) h (
              subst (λ xs. Chain (seq_number l.session) xs (seq_number t.session))
                (sym (own-replies t.written))
                (sym (handle_pdu-seq o.server env clock o.esme l.session pdu t e))))
      ]

  ReadPdu-cases :
      (x : ReadPdu)
      → ((len : ℤ) × (x ≡ failed len)) ⊎ ((len : ℤ) × (x ≡ nothing len)) ⊎ ((p : Pdu) × (x ≡ got p))
  ReadPdu-cases (failed len) = inl (len, refl)
  ReadPdu-cases (nothing len) = inr (inl (len, refl))
  ReadPdu-cases (got p) = inr (inr (p, refl))

  read_all-Numbered :
      (c : Texts) (a : ℕ) (rs : List Read) (l : Loop) (x : Loop × ReadEnd)
      → Numbered a l
      → read_all c rs l ≡ some x
      → Numbered a x.0
  unfolding read_all
  read_all-Numbered c a [] l x h run =
      subst (λ (y : Loop × ReadEnd). Numbered a y.0) (some_inj run) h
  read_all-Numbered c a (r ∷ rs) l x h run = elim (ReadPdu-cases (read_pdu l.len r.net)) [
    | inl (len, e) ↦
        subst (λ (y : Loop × ReadEnd). Numbered a y.0) (some_inj (rw (read_all, e) at run)) h
    | inr (inl (len, e)) ↦
        subst (λ (y : Loop × ReadEnd). Numbered a y.0) (some_inj (rw (read_all, e) at run)) h
    | inr (inr (p, e)) ↦
        elim (Option-cases (handle_read r.others r.env r.clock p (meet r.others l))) [
          | inl bad ↦ let k = rw (read_all, e, bad) at run in cc
          | inr (l', q) ↦
              read_all-Numbered c a rs _ x
                (ask_if_online-Numbered a r.now r.others.esme.enquire_link_interval
                  (deliver_all c l')
                  (deliver_all-Numbered c a l' (
                    handle_read-Numbered a r.others r.env r.clock p (meet r.others l) l'
                      (meet-Numbered a r.others l h) q)))
                (rw (read_all, e, q) at run)
        ]
  ]

  read_rest-Numbered :
      (a : ℕ) (rs : List Read) (l l' : Loop)
      → Numbered a l
      → read_rest rs l ≡ some l'
      → Numbered a l'
  unfolding read_rest
  read_rest-Numbered a [] l l' h run = subst (Numbered a) (some_inj run) h
  read_rest-Numbered a (r ∷ rs) l l' h run = elim (Bool-cases (is_quit l.session)) [
    | inl gone ↦ subst (Numbered a) (some_inj (rw (read_rest, gone) at run)) h
    | inr waits ↦ elim (ReadPdu-cases (read_pdu l.len r.net)) [
      | inl (len, e) ↦
          read_rest-Numbered a rs (with_len len l) l' h (rw (read_rest, waits, e) at run)
      | inr (inl (len, e)) ↦
          read_rest-Numbered a rs (with_len len l) l' h (rw (read_rest, waits, e) at run)
      | inr (inr (p, e)) ↦
          elim (Option-cases (handle_read r.others r.env r.clock p (meet r.others l))) [
            | inl bad ↦ let k = rw (read_rest, waits, e, bad) at run in cc
            | inr (l1, q) ↦
                read_rest-Numbered a rs l1 l'
                  (handle_read-Numbered a r.others r.env r.clock p (meet r.others l) l1
                    (meet-Numbered a r.others l h) q)
                  (rw (read_rest, waits, e, q) at run)
          ]
    ]
  ]

  after_reads-Numbered :
      (c : Texts) (a : ℕ) (closed : Bool) (l : Loop) (e : ReadEnd)
      → Numbered a l
      → Numbered a (after_reads c closed (l, e)).0
  unfolding after_reads
  after_reads-Numbered c a closed l read_failed h =
      either_branch (λ (y : Loop × Bool). Numbered a y.0) (is_unconnected (status_of l.session)) _ _
        h
        (either_branch (λ (y : Loop × Bool). Numbered a y.0) _ _ _ h (deliver_all-Numbered c a l h))
  after_reads-Numbered c a closed l read_nothing h =
      either_branch (λ (y : Loop × Bool). Numbered a y.0) (is_unconnected (status_of l.session)) _ _
        h
        (either_branch (λ (y : Loop × Bool). Numbered a y.0) closed _ _ h
          (deliver_all-Numbered c a l h))

  leaving-Numbered :
      (a : ℕ) (o : Option Loop) (x : Loop × Bool)
      → ((l : Loop) → o ≡ some l → Numbered a l)
      → leaving o ≡ some x
      → Numbered a x.0
  leaving-Numbered a none x h run = cc
  leaving-Numbered a (some l) x h run =
      subst (λ (y : Loop × Bool). Numbered a y.0) (some_inj run) (h l refl)

  going_on-Numbered :
      (c : Texts) (a : ℕ) (closed : Bool) (o : Option (Loop × ReadEnd)) (x : Loop × Bool)
      → ((y : Loop × ReadEnd) → o ≡ some y → Numbered a y.0)
      → going_on c closed o ≡ some x
      → Numbered a x.0
  unfolding going_on
  going_on-Numbered c a closed none x h run = cc
  going_on-Numbered c a closed (some (l, e)) x h run =
      subst (λ (y : Loop × Bool). Numbered a y.0) (some_inj run)
        (after_reads-Numbered c a closed l e (h (l, e) refl))

  round-Numbered :
      (c : Texts) (a : ℕ) (r : Round) (l : Loop) (x : Loop × Bool)
      → Numbered a l
      → round c r l ≡ some x
      → Numbered a x.0
  unfolding round
  round-Numbered c a r l x h run =
      let l' = meet r.others l in
      let h' = meet-Numbered a r.others l h in
      elim (Bool-cases r.wait_failed) [
        | inl bad ↦
            subst (λ (y : Loop × Bool). Numbered a y.0) (some_inj (rw (round, bad) at run)) h'
        | inr good ↦ elim (Bool-cases (is_told_to_leave (status_of l'.session))) [
          | inl leave ↦
              leaving-Numbered a (read_rest r.reads (send_unbind l')) x
                (λ l1 q.
                  read_rest-Numbered a r.reads (send_unbind l') l1 (send_unbind-Numbered a l' h') q)
                (rw (round, good, leave) at run)
          | inr stay ↦
              let asked = ask_if_online r.now r.others.esme.enquire_link_interval l' in
              going_on-Numbered c a r.closed (read_all c r.reads asked) x
                (λ y q.
                  read_all-Numbered c a r.reads asked y
                    (ask_if_online-Numbered a r.now r.others.esme.enquire_link_interval l' h') q)
                (rw (round, good, stay) at run)
        ]
      ]

  thread-Numbered :
      (c : Texts) (a : ℕ) (rs : List Round) (l : Loop) (x : Loop × Bool)
      → Numbered a l
      → receive_smpp_thread c rs l ≡ some x
      → Numbered a x.0
  unfolding receive_smpp_thread
  thread-Numbered c a [] l x h run = subst (λ (y : Loop × Bool). Numbered a y.0) (some_inj run) h
  thread-Numbered c a (r ∷ rs) l x h run = elim (Option-cases (round c r l)) [
    | inl bad ↦ let k = rw (receive_smpp_thread, bad) at run in cc
    | inr ((l', true), e) ↦
        thread-Numbered c a rs l' x (round-Numbered c a r l (l', true) h e)
          (rw (receive_smpp_thread, e) at run)
    | inr ((l', false), e) ↦
        subst (λ (y : Loop × Bool). Numbered a y.0) (some_inj (rw (receive_smpp_thread, e) at run))
          (round-Numbered c a r l (l', false) h e)
  ]

  -- Whatever arrives on a session's connection and whatever other threads do to the session in
  -- between, the requests that its thread writes, the deliveries, enquire_links and its unbind, are
  -- numbered one after another, from the counter as it was when the thread began, modulo 2 ^ 64,
  -- and the counter is left at the next number.
  pub receive_smpp_thread-Chain :
      (c : Texts) (rs : List Round) (l : Loop) (x : Loop × Bool)
      → l.written ≡ []
      → receive_smpp_thread c rs l ≡ some x
      → Chain (seq_number l.session) (own x.0.written) (seq_number x.0.session)
  unfolding own
  receive_smpp_thread-Chain c rs l x fresh run =
      thread-Numbered c (seq_number l.session) rs l x
        (subst (λ out. Chain (seq_number l.session) (own out) (seq_number l.session)) (sym fresh)
          refl)
        run
