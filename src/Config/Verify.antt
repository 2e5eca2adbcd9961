-- ===== src/Config/Verify.antt =====
-- `verify_config_para` accepts exactly the configurations in which no two accounts share a name and
-- no account prefers an smsc that is dedicated to one.
use smpp_server.Prelude.{
  ℕ, zero, suc, ◌+◌, ◌≡◌, ◌↔◌, inl, inr, true, false, some, List, [], ◌∷◌, arith, get_elem?, refl,
  Bool-cases, Option-cases, ap, sym,
}
use smpp_server.Prelude.Int.{pos}
use native.Mathlib.Nat.{add-zero}
use smpp_server.Gwlib.{Gwlib}
use smpp_server.Config.{
  Client, clash_at, names_clash, verify_config_para, dedicated_list, has_name, any_shared,
  smsc_shared,
}

module _ ⦃gw : Gwlib⦄ where
  open gw use {Octstr, octstr_same, octstr_same_iff}

  clash_at_sound :
      (i j k : ℕ) (name : Octstr) (ts : List Client) (t : Client)
      → clash_at i name j ts ≡ false
      → get_elem? ts k ≡ some t
      → t.account_name ≡ name
      → i ≡ j + k
  unfolding clash_at
  clash_at_sound i j k name [] t h g e = cc
  clash_at_sound i j zero name (x ∷ xs) t h g e =
      ground (arith, octstr_same_iff name x.account_name)
  clash_at_sound i j (suc k) name (x ∷ xs) t h g e =
      ground (arith, clash_at_sound i (j + 1) k name xs t)

  names_clash_sound :
      (i k : ℕ) (all ts : List Client) (t : Client)
      → names_clash i all ts ≡ false
      → get_elem? ts k ≡ some t
      → clash_at (i + k) t.account_name 0 all ≡ false
  unfolding names_clash
  names_clash_sound i k all [] t h g = cc
  names_clash_sound i zero all (x ∷ xs) t h g = rw add-zero (ground arith)
  names_clash_sound i (suc k) all (x ∷ xs) t h g =
      let e : i + suc k ≡ i + 1 + k = omega arith in
      rw e (names_clash_sound (i + 1) k all xs t (ground arith) g)

  clash_at_complete :
      (i j : ℕ) (name : Octstr) (ts : List Client)
      → ((k : ℕ) (t : Client) → get_elem? ts k ≡ some t → t.account_name ≡ name → i ≡ j + k)
      → clash_at i name j ts ≡ false
  unfolding clash_at
  clash_at_complete i j name [] h = refl
  clash_at_complete i j name (x ∷ xs) h = ground (
    arith,
    octstr_same_iff name x.account_name,
    h 0 x,
    clash_at_complete i (j + 1) name xs
        (λ k t g e. let f : i ≡ j + suc k = h (suc k) t g e in omega arith),
  )

  names_clash_complete :
      (i : ℕ) (all ts : List Client)
      → ((k : ℕ) (t : Client)
          → get_elem? ts k ≡ some t
          → clash_at (i + k) t.account_name 0 all ≡ false)
      → names_clash i all ts ≡ false
  unfolding names_clash
  names_clash_complete i all [] h = refl
  names_clash_complete i all (x ∷ xs) h =
      let here : clash_at i x.account_name 0 all ≡ false = rw add-zero at (h 0 x refl) in
      rw here (
        names_clash_complete (i + 1) all xs
          (λ k t g. let e : i + suc k ≡ i + 1 + k = omega arith in rw e at (h (suc k) t g)))

  -- Two positions with accounts of one name are one position.
  abbrev pub UniqueNames : List Client → Type 0
  UniqueNames ts =
      (i j : ℕ) (s t : Client)
      → get_elem? ts i ≡ some s
      → get_elem? ts j ≡ some t
      → s.account_name ≡ t.account_name
      → i ≡ j

  -- No account prefers an smsc that is dedicated to an account.
  abbrev pub NoShared : List Client → Type 0
  NoShared ts =
      (i j k : ℕ) (s t : Client) (d : Octstr) (ps : List Octstr)
      → get_elem? ts i ≡ some s
      → s.dedicated_smsc ≡ some d
      → get_elem? ts j ≡ some t
      → t.preferred_smsc ≡ some ps
      → get_elem? ps k ≡ some d
      → ⊥

  has_name-get :
      (xs : List Octstr) (n : Octstr) (k : ℕ) → get_elem? xs k ≡ some n → has_name xs n ≡ true
  unfolding has_name
  has_name-get [] n k g = cc
  has_name-get (x ∷ xs) n zero g = ground (arith, octstr_same_iff x n)
  has_name-get (x ∷ xs) n (suc k) g = ground (arith, has_name-get xs n k)

  get-has_name :
      (xs : List Octstr) (n : Octstr) → has_name xs n ≡ true → (k : ℕ) × (get_elem? xs k ≡ some n)
  unfolding has_name
  get-has_name [] n h = cc
  get-has_name (x ∷ xs) n h = elim (Bool-cases (octstr_same x n)) [
    | inl e ↦ (0, ap some ((octstr_same_iff x n).0 e))
    | inr e ↦ let (k, g) = get-has_name xs n (ground arith) in (suc k, g)
  ]

  has_name-dedicated :
      (ts : List Client) (i : ℕ) (t : Client) (d : Octstr)
      → get_elem? ts i ≡ some t
      → t.dedicated_smsc ≡ some d
      → has_name (dedicated_list ts) d ≡ true
  unfolding has_name
  has_name-dedicated [] i t d g e = cc
  has_name-dedicated (x ∷ xs) zero t d g e = ground (arith, octstr_same_iff d d)
  has_name-dedicated (x ∷ xs) (suc i) t d g e = ground (arith, has_name-dedicated xs i t d)

  abbrev Dedicates : List Client → Octstr → Type 0
  Dedicates ts d = (i : ℕ) × (t : Client) × (get_elem? ts i ≡ some t) × (t.dedicated_smsc ≡ some d)

  Dedicates-suc :
      (x : Client) (ts : List Client) (d : Octstr) → Dedicates ts d → Dedicates (x ∷ ts) d
  Dedicates-suc x ts d (i, t, g, e) = (suc i, t, g, e)

  dedicated-has_name :
      (ts : List Client) (d : Octstr) → has_name (dedicated_list ts) d ≡ true → Dedicates ts d
  unfolding has_name
  dedicated-has_name [] d h = cc
  dedicated-has_name (x ∷ xs) d h = elim (Option-cases x.dedicated_smsc) [
    | inl e ↦ Dedicates-suc x xs d (dedicated-has_name xs d (ground arith))
    | inr (a, e) ↦ elim (Bool-cases (octstr_same a d)) [
      | inl s ↦ (0, x, refl, ground (arith, octstr_same_iff a d))
      | inr s ↦ Dedicates-suc x xs d (dedicated-has_name xs d (ground arith))
    ]
  ]

  any_shared_sound :
      (ds ps : List Octstr) (k : ℕ) (p : Octstr)
      → any_shared ds ps ≡ false
      → get_elem? ps k ≡ some p
      → has_name ds p ≡ false
  unfolding any_shared
  any_shared_sound ds [] k p h g = cc
  any_shared_sound ds (x ∷ xs) zero p h g = ground arith
  any_shared_sound ds (x ∷ xs) (suc k) p h g = ground (arith, any_shared_sound ds xs k p)

  any_shared_complete :
      (ds ps : List Octstr)
      → ((k : ℕ) (p : Octstr) → get_elem? ps k ≡ some p → has_name ds p ≡ false)
      → any_shared ds ps ≡ false
  unfolding any_shared
  any_shared_complete ds [] h = refl
  any_shared_complete ds (x ∷ xs) h =
      rw (h 0 x refl) (any_shared_complete ds xs (λ k p g. h (suc k) p g))

  smsc_shared_sound :
      (ds : List Octstr) (ts : List Client) (j : ℕ) (t : Client) (ps : List Octstr)
      → smsc_shared ds ts ≡ false
      → get_elem? ts j ≡ some t
      → t.preferred_smsc ≡ some ps
      → any_shared ds ps ≡ false
  unfolding smsc_shared
  smsc_shared_sound ds [] j t ps h g e = cc
  smsc_shared_sound ds (x ∷ xs) zero t ps h g e = ground arith
  smsc_shared_sound ds (x ∷ xs) (suc j) t ps h g e = ground (arith, smsc_shared_sound ds xs j t ps)

  smsc_shared_complete :
      (ds : List Octstr) (ts : List Client)
      → ((j : ℕ) (t : Client) (ps : List Octstr)
          → get_elem? ts j ≡ some t
          → t.preferred_smsc ≡ some ps
          → any_shared ds ps ≡ false)
      → smsc_shared ds ts ≡ false
  unfolding smsc_shared
  smsc_shared_complete ds [] h = refl
  smsc_shared_complete ds (x ∷ xs) h = elim (Option-cases x.preferred_smsc) [
    | inl e ↦ rw e (smsc_shared_complete ds xs (λ j t ps g. h (suc j) t ps g))
    | inr (ps, e) ↦
        rw e (rw (h 0 x ps refl e) (smsc_shared_complete ds xs (λ j t qs g. h (suc j) t qs g)))
  ]

  UniqueNames-clash : (ts : List Client) → names_clash 0 ts ts ≡ false → UniqueNames ts
  UniqueNames-clash ts h i j s t g g' e =
      let p = names_clash_sound 0 i ts ts s h g in
      let q = clash_at_sound (0 + i) 0 j s.account_name ts t p g' (sym e) in omega arith

  clash-UniqueNames : (ts : List Client) → UniqueNames ts → names_clash 0 ts ts ≡ false
  clash-UniqueNames ts u = names_clash_complete 0 ts ts λ k t g.
      clash_at_complete (0 + k) 0 t.account_name ts
        λ j s g' e. let p : k ≡ j = u k j t s g g' (sym e) in omega arith

  NoShared-shared : (ts : List Client) → smsc_shared (dedicated_list ts) ts ≡ false → NoShared ts
  NoShared-shared ts h i j k s t d ps g ded g' pre at =
      let p = smsc_shared_sound (dedicated_list ts) ts j t ps h g' pre in
      let q = any_shared_sound (dedicated_list ts) ps k d p at in
      let r = has_name-dedicated ts i s d g ded in cc (q, r)

  shared-NoShared : (ts : List Client) → NoShared ts → smsc_shared (dedicated_list ts) ts ≡ false
  shared-NoShared ts n = smsc_shared_complete (dedicated_list ts) ts λ j t ps g pre.
      any_shared_complete (dedicated_list ts) ps λ k p at.
        elim (Bool-cases (has_name (dedicated_list ts) p)) [
          | inl yes_ ↦
              let (i, s, g', ded) = dedicated-has_name ts p yes_ in
              absurd (n i j k s t p ps g' ded g pre at)
          | inr no_ ↦ no_
        ]

  -- The check passes exactly on the configurations in which account names are unique and no smsc
  -- that is dedicated to an account is on an account's list of preferred smscs.
  pub verify_config_para_iff :
      (trans : List Client)
      → (verify_config_para trans ≡ pos 0) ↔ (UniqueNames trans × NoShared trans)
  unfolding verify_config_para
  verify_config_para_iff trans = (
    λ h. (UniqueNames-clash trans (ground arith), NoShared-shared trans (ground arith)),
    λ h. rw (clash-UniqueNames trans h.0) (rw (shared-NoShared trans h.1)),
  )
