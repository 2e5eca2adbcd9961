-- ===== src/Threads/Chain.antt =====
-- Numbers that follow one another, and those of the deliveries that are written.
use smpp_server.Prelude.{
  ℕ, ◌≡◌, refl, sym, ap, ◌∙◌, Option, none, some, List, [], ◌∷◌, ◌++◌, map, Option-cases, inl, inr,
}
use mathlib.Core.Path.{subst}
use smpp_server.Gwlib.{Gwlib, counter_increase}
use smpp_server.Session.{Deliver, Status}
use smpp_server.Registry.{SessionStr, tx, rx}
use smpp_server.Dispatch.{Reply}
use smpp_server.Delivery.{
  OutPdu, deliver_sm, other_pdu, Texts, seq_number, next_number, count_sent, data_to_write,
  with_data, prepare_out, write_loop, write_esme_conn, update_info,
}
use smpp_server.Threads.{
  Out, reply, enquire_link, unbind, delivered, Loop, Others, with_status, set_by_others, meet,
}

-- Numbers that follow one another, each what the counter was, from `a` to `b`.
abbrev pub Chain : ℕ → List ℕ → ℕ → Type 0
Chain a [] b = a ≡ b
Chain a (x ∷ xs) b = (x ≡ a) × Chain (counter_increase a) xs b

Chain-append :
    (a : ℕ) (xs ys : List ℕ) (b c : ℕ) → Chain a xs b → Chain b ys c → Chain a (xs ++ ys) c
Chain-append a [] ys b c h k = subst (λ n. Chain n ys c) (sym h) k
Chain-append a (x ∷ xs) ys b c h k = (h.0, Chain-append (counter_increase a) xs ys b c h.1 k)

module _ ⦃gw : Gwlib⦄ where
  open gw use {Octstr, octstr_from_position}

  -- The sequence numbers of the requests that are written.
  unfoldable pub own : List Out → List ℕ
  own [] = []
  own (reply r ∷ out) = own out
  own (enquire_link n ∷ out) = n ∷ own out
  own (unbind n ∷ out) = n ∷ own out
  own (delivered (deliver_sm p) ∷ out) = p.sequence_number ∷ own out
  own (delivered (other_pdu os) ∷ out) = own out

  own-append : (xs ys : List Out) → own (xs ++ ys) ≡ own xs ++ own ys
  unfolding own
  own-append [] ys = refl
  own-append (reply r ∷ xs) ys = own-append xs ys
  own-append (enquire_link n ∷ xs) ys = ap (◌∷◌ n) (own-append xs ys)
  own-append (unbind n ∷ xs) ys = ap (◌∷◌ n) (own-append xs ys)
  own-append (delivered (deliver_sm p) ∷ xs) ys = ap (◌∷◌ p.sequence_number) (own-append xs ys)
  own-append (delivered (other_pdu os) ∷ xs) ys = own-append xs ys

  pub own-replies : (rs : List Reply) → own (map reply rs) ≡ []
  unfolding own
  own-replies [] = refl
  own-replies (r ∷ rs) = own-replies rs

  -- What the thread has written since its counter was `a`.
  abbrev pub Numbered : ℕ → Loop → Type 0
  Numbered a l = Chain a (own l.written) (seq_number l.session)

  -- More is written, from the counter as it is.
  pub writes :
      (a : ℕ) (l : Loop) (s : SessionStr) (out : List Out)
      → Numbered a l
      → Chain (seq_number l.session) (own out) (seq_number s)
      → Chain a (own (l.written ++ out)) (seq_number s)
  writes a l s out h k =
      subst (λ xs. Chain a xs (seq_number s)) (sym (own-append l.written out))
        (Chain-append a (own l.written) (own out) _ _ h k)

  pub with_data-seq :
      (ds : List Deliver) (s : SessionStr) → seq_number (with_data ds s) ≡ seq_number s
  unfolding with_data seq_number
  with_data-seq ds (tx s) = refl
  with_data-seq ds (rx s) = refl

  with_status-seq : (st : Status) (s : SessionStr) → seq_number (with_status st s) ≡ seq_number s
  unfolding with_status seq_number
  with_status-seq st (tx s) = refl
  with_status-seq st (rx s) = refl

  pub next_number-seq :
      (s : SessionStr) → seq_number (next_number s) ≡ counter_increase (seq_number s)
  unfolding next_number seq_number
  next_number-seq (tx s) = refl
  next_number-seq (rx s) = refl

  count_sent-seq : (s : SessionStr) → seq_number (count_sent s) ≡ seq_number s
  unfolding count_sent seq_number
  count_sent-seq (tx s) = refl
  count_sent-seq (rx s) = refl

  set_by_others-seq :
      (st : Option Status) (s : SessionStr) → seq_number (set_by_others st s) ≡ seq_number s
  unfolding set_by_others
  set_by_others-seq none s = refl
  set_by_others-seq (some st) s = with_status-seq st s

  pub meet-Numbered : (a : ℕ) (o : Others) (l : Loop) → Numbered a l → Numbered a (meet o l)
  unfolding meet
  meet-Numbered a o l h =
      subst (Chain a (own l.written))
        (sym (set_by_others-seq o.set_status _ ∙ with_data-seq _ l.session)) h

  prepare_out-Chain :
      (c : Texts) (d : Deliver) (p : OutPdu) (s : SessionStr)
      → Chain
          (seq_number s)
          (own (delivered (prepare_out c d p s).0 ∷ []))
          (seq_number (prepare_out c d p s).1)
  unfolding prepare_out own update_info
  prepare_out-Chain c d (deliver_sm p) s = (refl, sym (next_number-seq s))
  prepare_out-Chain c d (other_pdu os) s = refl

  map-append :
      (xs : List OutPdu) (y : OutPdu)
      → map delivered (xs ++ y ∷ []) ≡ map delivered xs ++ delivered y ∷ []
  map-append [] y = refl
  map-append (x ∷ xs) y = ap (◌∷◌ (delivered x)) (map-append xs y)

  -- One more PDU is written.
  written_one :
      (c : Texts) (a : ℕ) (d : Deliver) (p : OutPdu) (s : SessionStr) (out : List OutPdu)
      → Chain a (own (map delivered out)) (seq_number s)
      → Chain a
          (own (map delivered (out ++ (prepare_out c d p s).0 ∷ [])))
          (seq_number (count_sent (prepare_out c d p s).1))
  written_one c a d p s out h =
      let q = (prepare_out c d p s).0 in
      let s' = (prepare_out c d p s).1 in
      subst (Chain a (own (map delivered (out ++ q ∷ [])))) (sym (count_sent-seq s')) (
        subst (λ xs. Chain a xs (seq_number s'))
          (sym (ap own (map-append out q) ∙ own-append (map delivered out) (delivered q ∷ [])))
          (Chain-append a (own (map delivered out)) (own (delivered q ∷ [])) _ _ h
            (prepare_out-Chain c d p s)))

  write_loop-Chain :
      (c : Texts) (a : ℕ) (ds : List Deliver) (s : SessionStr) (out : List OutPdu)
      → Chain a (own (map delivered out)) (seq_number s)
      → Chain a
          (own (map delivered (write_loop c ds s out).1))
          (seq_number (write_loop c ds s out).0)
  unfolding write_loop
  write_loop-Chain c a [] s out h = h
  write_loop-Chain c a (d ∷ ds) s out h =
      elim (Option-cases (c.smpp_pdu_unpack (octstr_from_position d.os 4))) [
        | inl e ↦ rw (write_loop, e) (write_loop-Chain c a ds s out h)
        | inr (p, e) ↦
            rw (write_loop, e)
              (write_loop-Chain c a ds (count_sent (prepare_out c d p s).1)
                (out ++ (prepare_out c d p s).0 ∷ []) (written_one c a d p s out h))
      ]

  pub write_esme_conn-Chain :
      (c : Texts) (s : SessionStr)
      → Chain
          (seq_number s)
          (own (map delivered (write_esme_conn c s).1))
          (seq_number (write_esme_conn c s).0)
  unfolding write_esme_conn own
  write_esme_conn-Chain c s =
      write_loop-Chain c (seq_number s) (data_to_write s) (with_data [] s) []
        (sym (with_data-seq [] s))
