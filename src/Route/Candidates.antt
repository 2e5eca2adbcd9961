-- ===== src/Route/Candidates.antt =====
-- The SMSCs that can take a message, and where the searches of `rout_pdu` find them.
use smpp_server.Prelude.{
  ℕ, zero, suc, ◌+◌, ◌≤◌, ◌<◌, ◌≡◌, refl, true, ◌&&◌, Option, none, some, List, [], ◌∷◌, ◌++◌, map,
  arith, length, length-append, get_elem?, All, All-append, Bool-cases, Option-cases, inl, inr,
  ◌==◌,
}
use mathlib.Core.Path.{subst}
use smpp_server.Prelude.Int.{pos, minus_one}
use smpp_server.Gwlib.{Gwlib}
use smpp_server.Ids.{has_id}
use smpp_server.Config.{Client}
use smpp_server.Smscs.{SmscConn}
use smpp_server.Route.{
  to_char, append_chars, takes, position, dedicated_index, preferred_of, preferred_index,
  char_listed, in_preferred, preferred_all,
}

-- What holds of all indices holds of one that is listed.
pub All-has_id : (P : ℕ → Type 0) (is : List ℕ) (i : ℕ) → All P is → has_id is i ≡ true → P i
unfolding has_id
All-has_id P [] i a h = cc
All-has_id P (x ∷ is) i a h = elim (Bool-cases (x == i)) [
  | inl e ↦ let p : x ≡ i = ground arith in subst P p a.0
  | inr n ↦ All-has_id P is i a.1 (ground arith)
]

-- Indices that a `char` holds as they are.
abbrev pub Short : List ℕ → Type 0
Short is = All (λ i. i < 128) is

to_char-short : (i : ℕ) → i < 128 → to_char i ≡ pos i
to_char-short i h = ground arith

pub append_chars-Short : (is : List ℕ) → Short is → append_chars is ≡ is
append_chars-Short [] s = refl
append_chars-Short (i ∷ is) s = rw (to_char-short i s.0, append_chars-Short is s.1) refl

char_listed-Short :
    (i : ℕ) (is : List ℕ)
    → Short is
    → char_listed i (map to_char is ++ minus_one ∷ []) ≡ has_id is i
unfolding char_listed has_id
char_listed-Short i [] s = refl
char_listed-Short i (x ∷ is) s = rw (to_char-short x s.0, char_listed-Short i is s.1) refl

pub in_preferred-Short : (i : ℕ) (is : List ℕ) → Short is → in_preferred is i ≡ has_id is i
unfolding in_preferred has_id
in_preferred-Short i [] s = refl
in_preferred-Short i (x ∷ is) s = ground (arith, char_listed-Short i (x ∷ is) s)

module _ ⦃gw : Gwlib⦄ where
  open gw use {Octstr, octstr_same}

  -- The smsc at a position exists, takes the type of number and can send.
  abbrev pub Candidate : Octstr → List SmscConn → ℕ → Type 0
  Candidate type cs i = (c : SmscConn) × (get_elem? cs i ≡ some c) × (takes type c ≡ true)

  pub Candidate-lt :
      (type : Octstr) (cs : List SmscConn) (i : ℕ) → Candidate type cs i → i < length cs
  Candidate-lt type [] i (c, g, t) = cc
  Candidate-lt type (x ∷ cs) zero k = omega arith
  Candidate-lt type (x ∷ cs) (suc i) (c, g, t) = omega (arith, Candidate-lt type cs i (c, g, t))

  position-All :
      (type id : Octstr) (k : ℕ) (cs : List SmscConn) (P : ℕ → Type 0)
      → ((i : ℕ) → Candidate type cs i → P (k + i))
      → All P (position type id k cs)
  unfolding position
  position-All type id k [] P h = tt
  position-All type id k (c ∷ cs) P h =
      let rest =
        position-All type id (k + 1) cs P
          λ i w. let e : k + suc i ≡ k + 1 + i = omega arith in subst P e (h (suc i) w) in
      elim (Bool-cases (octstr_same id c.smsc_id && takes type c)) [
        | inl yes_ ↦
            let e : k + 0 ≡ k = omega arith in
            let t : takes type c ≡ true = ground arith in rw yes_ (subst P e (h 0 (c, refl, t)), tt)
        | inr no_ ↦ rw no_ rest
      ]

  position-Candidate :
      (type id : Octstr) (cs : List SmscConn) → All (Candidate type cs) (position type id 0 cs)
  position-Candidate type id cs =
      position-All type id 0 cs (Candidate type cs)
        λ i w. let e : i ≡ 0 + i = omega arith in subst (Candidate type cs) e w

  length-position :
      (type id : Octstr) (k : ℕ) (cs : List SmscConn) → length (position type id k cs) ≤ 1
  unfolding position
  length-position type id k [] = omega arith
  length-position type id k (c ∷ cs) = ground (arith, length-position type id (k + 1) cs)

  preferred_of-All :
      (type : Octstr) (ids : List Octstr) (cs : List SmscConn)
      → All (Candidate type cs) (preferred_of type ids cs)
  unfolding preferred_of
  preferred_of-All type [] cs = tt
  preferred_of-All type (id ∷ ids) cs =
      All-append (Candidate type cs) (position type id 0 cs) (preferred_of type ids cs)
        (position-Candidate type id cs) (preferred_of-All type ids cs)

  length-preferred_of :
      (type : Octstr) (ids : List Octstr) (cs : List SmscConn)
      → length (preferred_of type ids cs) ≤ length ids
  unfolding preferred_of
  length-preferred_of type [] cs = omega arith
  length-preferred_of type (id ∷ ids) cs = omega (
    arith,
    length-append (position type id 0 cs) (preferred_of type ids cs),
    length-position type id 0 cs,
    length-preferred_of type ids cs,
  )

  -- How many names the account prefers.
  abbrev pub preferred_count : Client → ℕ
  preferred_count t = elim t.preferred_smsc [ none ↦ 0 | some ids ↦ length ids ]

  dedicated_index-All :
      (type : Octstr) (id : Option Octstr) (cs : List SmscConn)
      → All (Candidate type cs) (dedicated_index type id cs)
        × (length (dedicated_index type id cs) ≤ 1)
  unfolding dedicated_index
  dedicated_index-All type none cs = (tt, omega arith)
  dedicated_index-All type (some id) cs =
      (position-Candidate type id cs, length-position type id 0 cs)

  preferred_index-All :
      (type : Octstr) (t : Client) (cs : List SmscConn)
      → All (Candidate type cs) (preferred_index type t.preferred_smsc cs)
        × (length (preferred_index type t.preferred_smsc cs) ≤ preferred_count t)
  unfolding preferred_index
  preferred_index-All type t cs = elim (Option-cases t.preferred_smsc) [
    | inl e ↦ rw e (tt, omega arith)
    | inr (ids, e) ↦ rw e (preferred_of-All type ids cs, length-preferred_of type ids cs)
  ]

  -- Every preferred index is one of an smsc that takes the message, and there is at most one for
  -- the dedicated smsc and one for each preferred name.
  pub preferred_all-All :
      (type : Octstr) (t : Client) (cs : List SmscConn)
      → All (Candidate type cs) (preferred_all type t cs)
        × (length (preferred_all type t cs) ≤ preferred_count t + 1)
  unfolding preferred_all
  preferred_all-All type t cs =
      let d = dedicated_index-All type t.dedicated_smsc cs in
      let p = preferred_index-All type t cs in
      let is = dedicated_index type t.dedicated_smsc cs in
      let js = preferred_index type t.preferred_smsc cs in
      (All-append (Candidate type cs) is js d.0 p.0, omega (arith, length-append is js, d.1, p.1))

  pub Short-All :
      (type : Octstr) (cs : List SmscConn) (is : List ℕ)
      → length cs ≤ 128
      → All (Candidate type cs) is
      → Short is
  Short-All type cs [] n a = tt
  Short-All type cs (i ∷ is) n a =
      (omega (arith, Candidate-lt type cs i a.0), Short-All type cs is n a.1)
