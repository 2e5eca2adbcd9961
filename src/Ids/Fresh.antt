-- ===== src/Ids/Fresh.antt =====
-- The id that `allocate_session_id` returns is the lowest that no session has.
use smpp_server.Prelude.{
  ℕ, zero, suc, ◌+◌, ◌-◌, ◌≤◌, ◌<◌, ◌≡◌, ◌≢◌, refl, true, false, some, List, [], ◌∷◌, arith, length,
  All, inl, inr, ◌==◌, Bool-cases, if◌then◌else◌, ltb, ◌⊎◌,
}
use native.Mathlib.Decide.{dec_le}
use smpp_server.Ids.{has_id, lowest_from, lowest, first_gap, allocate_session_id}

-- Every id from 1 to k is taken.
abbrev Covers : List ℕ → ℕ → Type 0
Covers ids k = (i : ℕ) → 1 ≤ i → i ≤ k → has_id ids i ≡ true

remove : ℕ → List ℕ → List ℕ
remove n [] = []
remove n (x ∷ xs) = if x == n then xs else x ∷ remove n xs

length-remove : (n : ℕ) (xs : List ℕ) → has_id xs n ≡ true → suc (length (remove n xs)) ≡ length xs
unfolding remove has_id
length-remove n [] h = cc
length-remove n (x ∷ xs) h = ground (arith, length-remove n xs)

has_id-remove : (n i : ℕ) (xs : List ℕ) → i < n → has_id xs i ≡ true → has_id (remove n xs) i ≡ true
unfolding remove has_id
has_id-remove n i [] lt h = cc
has_id-remove n i (x ∷ xs) lt h = ground (arith, has_id-remove n i xs)

-- k ids that are all different need a list of k entries.
Covers-le-length : (k : ℕ) (ids : List ℕ) → Covers ids k → k ≤ length ids
Covers-le-length zero ids c = omega arith
Covers-le-length (suc k) ids c = omega (
  arith,
  length-remove (suc k) ids (c (suc k) (omega arith) (omega arith)),
  Covers-le-length k (remove (suc k) ids)
      (λ i lo hi. has_id-remove (suc k) i ids (omega arith) (c i lo (omega arith))),
)

Covers-suc : (n : ℕ) (ids : List ℕ) → Covers ids n → has_id ids (n + 1) ≡ true → Covers ids (n + 1)
Covers-suc n ids c h i lo hi = elim (dec_le i n) [
  | yes le ↦ c i lo le
  | no gt ↦ let e : n + 1 ≡ i = omega arith in rw e at h
]

-- `r` is the lowest id that is free.
abbrev pub IsLowestFree : List ℕ → ℕ → Type 0
IsLowestFree ids r =
    (has_id ids r ≡ false) × (1 ≤ r) × ((i : ℕ) → 1 ≤ i → i < r → has_id ids i ≡ true)

first_gap_here :
    (n : ℕ) (ids : List ℕ) → Covers ids n → has_id ids (n + 1) ≡ false → IsLowestFree ids (n + 1)
first_gap_here n ids c h = (h, omega arith, λ i lo hi. c i lo (omega arith))

first_gap_lem :
    (rounds n : ℕ) (ids : List ℕ)
    → Covers ids n
    → length ids ≤ n + rounds
    → IsLowestFree ids (first_gap rounds ids (n + 1))
unfolding first_gap
first_gap_lem zero n ids c len = elim (Bool-cases (has_id ids (n + 1))) [
  | inl taken ↦ absurd (omega (arith, Covers-le-length (n + 1) ids (Covers-suc n ids c taken)))
  | inr free ↦ first_gap_here n ids c free
]
first_gap_lem (suc r) n ids c len = elim (Bool-cases (has_id ids (n + 1))) [
  | inl taken ↦ rw taken (first_gap_lem r (n + 1) ids (Covers-suc n ids c taken) (omega arith))
  | inr free ↦ rw free (first_gap_here n ids c free)
]

has_id-lowest_from :
    (low : ℕ) (ids : List ℕ)
    → (lowest_from low ids ≡ low) ⊎ (has_id ids (lowest_from low ids) ≡ true)
unfolding lowest_from has_id
has_id-lowest_from low [] = inl refl
has_id-lowest_from low (x ∷ xs) =
    ground (arith, has_id-lowest_from (if ltb x low then x else low) xs)

lowest_from-le :
    (low i : ℕ) (ids : List ℕ)
    → (lowest_from low ids ≤ low) × (has_id ids i ≡ true → lowest_from low ids ≤ i)
unfolding lowest_from has_id
lowest_from-le low i [] = (omega arith, λ h. cc)
lowest_from-le low i (x ∷ xs) = ground (arith, lowest_from-le (if ltb x low then x else low) i xs)

has_id-lowest : (ids : List ℕ) → lowest ids ≡ 1 → has_id ids 1 ≡ true
unfolding lowest has_id
has_id-lowest [] h = absurd (omega arith)
has_id-lowest (x ∷ xs) h = ground (arith, has_id-lowest_from x xs)

lowest_from-pos :
    (low : ℕ) (ids : List ℕ) → 1 ≤ low → All (λ i. 1 ≤ i) ids → 1 ≤ lowest_from low ids
unfolding lowest_from
lowest_from-pos low [] h p = h
lowest_from-pos low (x ∷ xs) h p =
    lowest_from-pos (if ltb x low then x else low) xs (ground arith) p.1

not-has_id-lowest : (ids : List ℕ) → All (λ i. 1 ≤ i) ids → lowest ids ≢ 1 → has_id ids 1 ≡ false
unfolding lowest has_id
not-has_id-lowest [] p h = refl
not-has_id-lowest (x ∷ xs) p h = ground (arith, lowest_from-le x 1 xs, lowest_from-pos x xs p.0 p.1)

-- Whatever ids are in use, all at least 1, the id that is handed out is at least 1, in no use, and
-- the lowest such.
pub allocate_session_id_fresh :
    (ids : List ℕ) → All (λ i. 1 ≤ i) ids → IsLowestFree ids (allocate_session_id (some ids))
unfolding allocate_session_id
allocate_session_id_fresh ids p = elim (Bool-cases (lowest ids == 1)) [
  | inl one ↦
      let e : lowest ids ≡ 1 = ground arith in
      let c : Covers ids 1 =
        λ i lo hi. let one' : i ≡ 1 = omega arith in rw one' (has_id-lowest ids e) in
      rw one (rw e (first_gap_lem (length ids - 1) 1 ids c (omega arith)))
  | inr other ↦
      rw other
        (not-has_id-lowest ids p (ground arith), omega arith, λ i lo hi. absurd (omega arith))
]
