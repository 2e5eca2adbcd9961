-- ===== src/Registry/Extract.antt =====
-- `extract_esme`: the session of an account that a delivery goes to.
use smpp_server.Prelude.{
  ℕ, zero, suc, ◌<◌, ◌%◌, ◌≡◌, refl, sym, ap, Option, some, List, [], ◌∷◌, ◌==◌, ltb, arith, length,
  get_elem?, All, ◌⊎◌, Option-cases, Bool-cases, inl, inr,
}
use mathlib.Core.Path.{subst}
use smpp_server.Prelude.Options.{some_inj}
use smpp_server.Gwlib.{Gwlib}
use smpp_server.Session.{TxSession}
use smpp_server.Registry.{Esme, SessionStr, tx, rx, is_present_esme, draw_trx, draw, extract_esme}

get_elem?-found {ℓ} :
    {A : Type ℓ} (xs : List A) (i : ℕ) → i < length xs → (x : A) × (get_elem? xs i ≡ some x)
get_elem?-found [] i h = absurd (omega arith)
get_elem?-found (x ∷ xs) zero h = (x, refl)
get_elem?-found (x ∷ xs) (suc i) h = get_elem?-found xs i (omega arith)

All-get_elem? {ℓ κ} :
    {A : Type ℓ} (P : A → Type κ) (xs : List A) (i : ℕ) (x : A)
    → get_elem? xs i ≡ some x
    → All P xs
    → P x
All-get_elem? P [] i x h v = cc
All-get_elem? P (y ∷ xs) zero x h v = let p : y ≡ x = cc in subst P p v.0
All-get_elem? P (y ∷ xs) (suc i) x h v = All-get_elem? P xs i x h v.1

module _ ⦃gw : Gwlib⦄ where
  open gw use {Octstr}

  -- A session of the account that takes deliveries: a receiver, or a transceiver if the account
  -- has no receiver; with the mode that its thread is asked for.
  abbrev pub Receives : Esme → SessionStr → ℕ → Type 0
  Receives e (rx r) m = (m ≡ 2) × (i : ℕ) × (get_elem? e.rx_esme i ≡ some r)
  Receives e (tx t) m =
      (m ≡ 3) × (t.mode ≡ 3) × (length e.rx_esme ≡ 0) × (i : ℕ) × (get_elem? e.tx_esme i ≡ some t)

  -- The draw finds a session if the account has a receiver, or if all its sessions are
  -- transceivers.
  abbrev pub Ready : Esme → Type 0
  Ready e =
      (0 < length e.rx_esme)
      ⊎ ((0 < length e.tx_esme) × All (λ (t : TxSession). t.mode ≡ 3) e.tx_esme)

  drawn_inj :
      (x y : SessionStr) (m n : ℕ)
      → ◌≡◌ {A = Option (SessionStr × ℕ)} (some (x, m)) (some (y, n))
      → (x ≡ y) × (m ≡ n)
  drawn_inj x y m n p =
      (ap (λ (d : SessionStr × ℕ). d.0) (some_inj p), ap (λ (d : SessionStr × ℕ). d.1) (some_inj p))

  draw_trx-found :
      (n : ℕ) (rand : ℕ → ℕ) (ss : List TxSession) (s : SessionStr) (m : ℕ)
      → draw_trx n rand ss ≡ some (s, m)
      → (t : TxSession) × (s ≡ tx t) × (m ≡ 3) × (t.mode ≡ 3) × (i : ℕ) × (get_elem? ss i ≡ some t)
  unfolding draw_trx
  draw_trx-found zero rand ss s m h = cc
  draw_trx-found (suc n) rand ss s m h =
      let rest = draw_trx-found n (λ k. rand (suc k)) ss s m in
      elim (Option-cases (get_elem? ss (rand 0 % length ss))) [
        | inl q ↦ rest (rw (draw_trx, q) at h)
        | inr (t, q) ↦ elim (Bool-cases (t.mode == 3)) [
          | inl three ↦
              let p = drawn_inj (tx t) s 3 m (rw (draw_trx, q, three) at h) in
              (t, sym p.0, sym p.1, ground arith, rand 0 % length ss, q)
          | inr other ↦ rest (rw (draw_trx, q, other) at h)
        ]
      ]

  draw_trx-first :
      (n : ℕ) (rand : ℕ → ℕ) (ss : List TxSession)
      → 0 < n
      → 0 < length ss
      → All (λ (t : TxSession). t.mode ≡ 3) ss
      → (s : SessionStr) × (m : ℕ) × (draw_trx n rand ss ≡ some (s, m))
  unfolding draw_trx
  draw_trx-first zero rand ss p h v = absurd (omega arith)
  draw_trx-first (suc n) rand ss p h v =
      let i = rand 0 % length ss in
      let (t, at) = get_elem?-found ss i (omega arith) in
      let three = All-get_elem? (λ (t : TxSession). t.mode ≡ 3) ss i t at v in
      (tx t, 3, rw (draw_trx, at, three) refl)

  draw-Receives :
      (rand : ℕ → ℕ) (e : Esme) (s : SessionStr) (m : ℕ)
      → draw rand e ≡ some (s, m)
      → Receives e s m
  unfolding draw
  draw-Receives rand e s m h =
      let i = rand 0 % length e.rx_esme in
      elim (Bool-cases (ltb 0 (length e.rx_esme))) [
        | inl some_rx ↦
            let (r, at) = get_elem?-found e.rx_esme i (ground arith) in
            let p = drawn_inj (rx r) s 2 m (rw (draw, some_rx, at) at h) in
            subst (λ x. Receives e x m) p.0 (sym p.1, i, at)
        | inr no_rx ↦
            let p : draw_trx (length e.tx_esme) rand e.tx_esme ≡ some (s, m) =
              rw (draw, no_rx) at h in
            let (t, q, three, mode, i, at) =
              draw_trx-found (length e.tx_esme) rand e.tx_esme s m p in
            rw q (three, mode, ground arith, i, at)
      ]

  draw-Ready :
      (rand : ℕ → ℕ) (e : Esme) → Ready e → (s : SessionStr) × (m : ℕ) × (draw rand e ≡ some (s, m))
  unfolding draw
  draw-Ready rand e r = elim (Bool-cases (ltb 0 (length e.rx_esme))) [
    | inl some_rx ↦
        let i = rand 0 % length e.rx_esme in
        let (r, at) = get_elem?-found e.rx_esme i (ground arith) in
        (rx r, 2, rw (draw, some_rx, at) refl)
    | inr no_rx ↦ elim r [
      | inl h ↦ absurd (ground arith)
      | inr h ↦
          let (s, m, p) = draw_trx-first (length e.tx_esme) rand e.tx_esme h.0 h.0 h.1 in
          (s, m, rw (draw, no_rx) p)
    ]
  ]

  -- What is drawn for an account that is online is one of its own sessions: a receiver, with mode
  -- 2, or, if the account has no receiver, a session that is bound as a transceiver, with mode 3.
  pub extract_esme-Receives :
      (id : Octstr) (rand : ℕ → ℕ) (es : List Esme) (e : Esme) (s : SessionStr) (m : ℕ)
      → is_present_esme id es ≡ some e
      → extract_esme id rand es ≡ some (s, m)
      → Receives e s m
  unfolding extract_esme
  extract_esme-Receives id rand es e s m online h =
      draw-Receives rand e s m (rw (extract_esme, online) at h)

  -- Whatever the random numbers are, a session is drawn for an account that is online with a
  -- receiver, or with sessions that are all transceivers.
  pub extract_esme-Ready :
      (id : Octstr) (rand : ℕ → ℕ) (es : List Esme) (e : Esme)
      → is_present_esme id es ≡ some e
      → Ready e
      → (s : SessionStr) × (m : ℕ) × (extract_esme id rand es ≡ some (s, m))
  unfolding extract_esme
  extract_esme-Ready id rand es e online r =
      let (s, m, p) = draw-Ready rand e r in (s, m, rw (extract_esme, online) p)
