-- ===== src/Registry/Valid.antt =====
-- When the list of accounts is well formed.
use smpp_server.Prelude.{
  ℕ, ◌+◌, ◌≤◌, ◌<◌, ◌≡◌, refl, false, none, some, List, [], ◌∷◌, ◌++◌, ◌||◌, arith, length, All,
  All-append, if◌then◌else◌, ap, Bool-cases, inl, inr,
}
use mathlib.Core.Path.{subst}
use smpp_server.Prelude.Int.{ℤ, pos, negsuc, eqz}
use smpp_server.Gwlib.{Gwlib}
use smpp_server.Session.{TxSession, RxSession, tx_ids, rx_ids}
use smpp_server.Ids.{has_id}
use smpp_server.Config.{Client, find_username}
use smpp_server.Registry.{Esme, is_present_esme}

-- Session ids start at 1, and no two are the same.
abbrev pub Distinct : List ℕ → Type 0
Distinct [] = Unit
Distinct (x ∷ xs) = (has_id xs x ≡ false) × Distinct xs

abbrev pub IdsValid : List ℕ → Type 0
IdsValid ids = All (λ i. 1 ≤ i) ids × Distinct ids

has_id-append : (n : ℕ) (xs ys : List ℕ) → has_id (xs ++ ys) n ≡ (has_id xs n || has_id ys n)
unfolding has_id
has_id-append n [] ys = refl
has_id-append n (x ∷ xs) ys = ground (arith, has_id-append n xs ys)

Distinct-append :
    (xs : List ℕ) (n : ℕ) → Distinct xs → has_id xs n ≡ false → Distinct (xs ++ n ∷ [])
unfolding has_id
Distinct-append [] n d h = (refl, tt)
Distinct-append (x ∷ xs) n d h =
    (ground (arith, has_id-append x xs (n ∷ [])), Distinct-append xs n d.1 (ground arith))

pub IdsValid-append :
    (xs : List ℕ) (n : ℕ) → IdsValid xs → 1 ≤ n → has_id xs n ≡ false → IdsValid (xs ++ n ∷ [])
IdsValid-append xs n v p h =
    (All-append (λ i. 1 ≤ i) xs (n ∷ []) v.0 (p, tt), Distinct-append xs n v.1 h)

-- A count within a limit of the configuration; a negative limit is none.
abbrev pub Fits : ℕ → ℤ → Type 0
Fits n (pos m) = n ≤ m
Fits n (negsuc m) = Unit

pub Fits-suc : (n : ℕ) (m : ℤ) → Fits n m → eqz (pos n) m ≡ false → Fits (n + 1) m
Fits-suc n (pos m) f h = ground arith
Fits-suc n (negsuc m) f h = tt

pub Fits-one : (m : ℤ) → eqz m (pos 0) ≡ false → Fits 1 m
Fits-one (pos m) h = ground arith
Fits-one (negsuc m) h = tt

pub Fits-zero : (m : ℤ) → Fits 0 m
Fits-zero (pos m) = omega arith
Fits-zero (negsuc m) = tt

module _ ⦃gw : Gwlib⦄ where
  open gw use {Octstr, octstr_same, octstr_same_iff}

  -- The sessions of an account have valid ids, and their numbers are within the limits of the
  -- account's configuration.
  pub record SessionsValid (trans : List Client) (e : Esme) : Type 0 where
    pub tx_valid : IdsValid (tx_ids e.tx_esme)
    pub rx_valid : IdsValid (rx_ids e.rx_esme)
    pub limits :
        (t : Client)
        → find_username trans e.system_id ≡ some t
        → Fits (length e.tx_esme) t.max_tx_sessions × Fits (length e.rx_esme) t.max_rx_sessions

  -- An account on the list has a session.
  abbrev pub EsmeValid : List Client → Esme → Type 0
  EsmeValid trans e = SessionsValid trans e × (0 < length e.tx_esme + length e.rx_esme)

  -- No two accounts of the list have one system id.
  abbrev pub UniqueIds : List Esme → Type 0
  UniqueIds [] = Unit
  UniqueIds (e ∷ es) = (is_present_esme e.system_id es ≡ none) × UniqueIds es

  abbrev pub RegistryValid : List Client → List Esme → Type 0
  RegistryValid trans es = UniqueIds es × All (EsmeValid trans) es

  pub tx_ids-append :
      (ss : List TxSession) (s : TxSession) → tx_ids (ss ++ s ∷ []) ≡ tx_ids ss ++ s.session_id ∷ []
  tx_ids-append [] s = refl
  tx_ids-append (x ∷ ss) s = ap (◌∷◌ x.session_id) (tx_ids-append ss s)

  pub rx_ids-append :
      (ss : List RxSession) (s : RxSession) → rx_ids (ss ++ s ∷ []) ≡ rx_ids ss ++ s.session_id ∷ []
  rx_ids-append [] s = refl
  rx_ids-append (x ∷ ss) s = ap (◌∷◌ x.session_id) (rx_ids-append ss s)

  pub is_present_esme-append :
      (id : Octstr) (es : List Esme) (e : Esme)
      → is_present_esme id es ≡ none
      → is_present_esme id (es ++ e ∷ []) ≡ (if octstr_same e.system_id id then some e else none)
  unfolding is_present_esme
  is_present_esme-append id [] e h = refl
  is_present_esme-append id (x ∷ es) e h = ground (arith, is_present_esme-append id es e)

  pub UniqueIds-append :
      (es : List Esme) (e : Esme)
      → UniqueIds es
      → is_present_esme e.system_id es ≡ none
      → UniqueIds (es ++ e ∷ [])
  unfolding is_present_esme
  UniqueIds-append [] e u h = (refl, tt)
  UniqueIds-append (x ∷ es) e u h = (
    ground (
      arith,
      is_present_esme-append x.system_id es e,
      octstr_same_iff x.system_id e.system_id,
      octstr_same_iff e.system_id x.system_id,
    ),
    UniqueIds-append es e u.1 (ground arith),
  )

  pub is_present_esme-system_id :
      (id : Octstr) (es : List Esme) (e : Esme) → is_present_esme id es ≡ some e → e.system_id ≡ id
  unfolding is_present_esme
  is_present_esme-system_id id [] e h = cc
  is_present_esme-system_id id (x ∷ es) e h =
      ground (arith, octstr_same_iff x.system_id id, is_present_esme-system_id id es e)

  -- What holds of every account holds of the one that is found.
  pub All-is_present_esme {κ} :
      (P : Esme → Type κ) (id : Octstr) (es : List Esme) (e : Esme)
      → is_present_esme id es ≡ some e
      → All P es
      → P e
  unfolding is_present_esme
  All-is_present_esme P id [] e h v = cc
  All-is_present_esme P id (x ∷ es) e h v = elim (Bool-cases (octstr_same x.system_id id)) [
    | inl s ↦ let p : x ≡ e = ground arith in subst P p v.0
    | inr s ↦ All-is_present_esme P id es e (ground arith) v.1
  ]
