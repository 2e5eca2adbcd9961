-- ===== src/Route/Partition.antt =====
-- `rout_pdu` sorts the SMSCs that can take a message into preferred and allowed ones.
use smpp_server.Prelude.{
  ℕ, zero, suc, ◌+◌, ◌≤◌, ◌<◌, ◌≡◌, ◌↔◌, refl, Bool, sym, ◌∙◌, ap, true, false, not, ◌&&◌, some,
  List, [], ◌∷◌, ltb, arith, length, All, Bool-cases, inl, inr, if◌then◌else◌, ◌||◌,
}
use mathlib.Core.Path.{subst}
use smpp_server.Prelude.Int.{pos, minus_one}
use smpp_server.Gwlib.{Gwlib}
use smpp_server.Ids.{has_id}
use smpp_server.Config.{Client, find_username}
use smpp_server.Smscs.{SmscConn}
use smpp_server.Route.{
  SeriesConf, Route, number_type, takes, in_preferred, allowed_from, preferred_all, finish,
  route_client, rout_pdu, append_chars,
}
use smpp_server.Route.Candidates.{
  All-has_id, Short, append_chars-Short, in_preferred-Short, Candidate, preferred_count,
  preferred_all-All, Short-All,
}

All-fst : (P Q : ℕ → Type 0) (is : List ℕ) → All (λ i. P i × Q i) is → All P is
All-fst P Q [] h = tt
All-fst P Q (i ∷ is) h = (h.0.0, All-fst P Q is h.1)

has_some : (is : List ℕ) → 0 < length is → (i : ℕ) × (has_id is i ≡ true)
unfolding has_id
has_some [] h = absurd (omega arith)
has_some (i ∷ is) h = (i, ground arith)

not_empty : (is : List ℕ) (i : ℕ) → has_id is i ≡ true → 0 < length is
unfolding has_id
not_empty [] i h = cc
not_empty (j ∷ is) i h = omega arith

module _ ⦃gw : Gwlib⦄ where
  open gw use {Octstr}

  -- The allowed indices are those of the candidates that are not preferred.
  allowed_from-All :
      (type : Octstr) (ps : List ℕ) (k : ℕ) (cs : List SmscConn) (P : ℕ → Type 0)
      → ((i : ℕ) → Candidate type cs i → in_preferred ps (k + i) ≡ false → P (k + i))
      → All P (allowed_from type ps k cs)
  unfolding allowed_from
  allowed_from-All type ps k [] P h = tt
  allowed_from-All type ps k (c ∷ cs) P h =
      let rest = allowed_from-All type ps (k + 1) cs P λ i w n.
        let e : k + suc i ≡ k + 1 + i = omega arith in
        subst P e (h (suc i) w (subst (λ j. in_preferred ps j ≡ false) (sym e) n)) in
      elim (Bool-cases (not (in_preferred ps k) && takes type c)) [
        | inl yes_ ↦
            let e : k + 0 ≡ k = omega arith in
            let t : takes type c ≡ true = ground arith in
            let n : in_preferred ps (k + 0) ≡ false = rw e (ground arith) in
            rw yes_ (subst P e (h 0 (c, refl, t) n), rest)
        | inr no_ ↦ rw no_ rest
      ]

  length-allowed_from :
      (type : Octstr) (ps : List ℕ) (k : ℕ) (cs : List SmscConn)
      → length (allowed_from type ps k cs) ≤ length cs
  unfolding allowed_from
  length-allowed_from type ps k [] = omega arith
  length-allowed_from type ps k (c ∷ cs) = ground (arith, length-allowed_from type ps (k + 1) cs)

  allowed_from_complete :
      (type : Octstr) (ps : List ℕ) (k i : ℕ) (cs : List SmscConn)
      → Candidate type cs i
      → in_preferred ps (k + i) ≡ false
      → has_id (allowed_from type ps k cs) (k + i) ≡ true
  unfolding allowed_from has_id
  allowed_from_complete type ps k i [] (c, g, t) p = cc
  allowed_from_complete type ps k zero (x ∷ cs) (c, g, t) p =
      let e : k + 0 ≡ k = omega arith in
      let q = rw e at p in let u : takes type x ≡ true = ground arith in rw e (ground arith)
  allowed_from_complete type ps k (suc i) (x ∷ cs) (c, g, t) p =
      let e : k + suc i ≡ k + 1 + i = omega arith in
      let rest = allowed_from_complete type ps (k + 1) i cs (c, g, t) (rw e at p) in
      rw e (ground arith)

  -- The two lists of indices hold exactly the SMSCs that take the type of number and can send, and
  -- no index is in both.
  abbrev pub Partitioned : Octstr → List SmscConn → List ℕ → List ℕ → Type 0
  Partitioned type smscs preferred allowed =
      (i : ℕ)
      → (((has_id preferred i || has_id allowed i) ≡ true) ↔ Candidate type smscs i)
        × ((has_id preferred i && has_id allowed i) ≡ false)

  module _ (type : Octstr) (t : Client) (smscs : List SmscConn) (n : length smscs ≤ 128) where
    abbrev preferred : List ℕ
    preferred = preferred_all type t smscs

    abbrev allowed : List ℕ
    allowed = allowed_from type preferred 0 smscs

    preferred-Short : Short preferred
    preferred-Short = Short-All type smscs preferred n (preferred_all-All type t smscs).0

    allowed-Candidate : All (λ i. Candidate type smscs i × (has_id preferred i ≡ false)) allowed
    allowed-Candidate =
        allowed_from-All type preferred 0 smscs
          (λ i. Candidate type smscs i × (has_id preferred i ≡ false))
          λ i w p.
            let e : i ≡ 0 + i = omega arith in
            let q = in_preferred-Short (0 + i) preferred preferred-Short in
            (subst (Candidate type smscs) e w, sym q ∙ p)

    Partitioned-allowed : Partitioned type smscs preferred allowed
    Partitioned-allowed i =
        let from_preferred =
          All-has_id (Candidate type smscs) preferred i (preferred_all-All type t smscs).0 in
        let from_allowed =
          All-has_id (λ j. Candidate type smscs j × (has_id preferred j ≡ false)) allowed i
            allowed-Candidate in
        (
          (
            λ h. elim (Bool-cases (has_id preferred i)) [
              | inl p ↦ from_preferred p
              | inr p ↦ (from_allowed (ground arith)).0
            ],
            λ w. elim (Bool-cases (has_id preferred i)) [
              | inl p ↦ ground arith
              | inr p ↦
                  let e : 0 + i ≡ i = omega arith in
                  let q = in_preferred-Short (0 + i) preferred preferred-Short in
                  let a =
                    allowed_from_complete type preferred 0 i smscs w
                      (q ∙ subst (λ j. has_id preferred j ≡ false) (sym e) p) in
                  let b = rw e at a in ground arith
            ],
          ),
          elim (Bool-cases (has_id allowed i)) [
            | inl a ↦ let f = (from_allowed a).1 in ground arith
            | inr a ↦ ground arith
          ],
        )

    -- There is a candidate exactly if one of the lists is not empty.
    listed_iff :
        ((ltb 0 (length preferred) || ltb 0 (length allowed)) ≡ true)
        ↔ ((i : ℕ) × Candidate type smscs i)
    listed_iff = (
      λ h. elim (Bool-cases (ltb 0 (length preferred))) [
        | inl p ↦
            let (i, k) = has_some preferred (ground arith) in
            (i, (Partitioned-allowed i).0.0 (ground arith))
        | inr p ↦
            let (i, k) = has_some allowed (ground arith) in
            (i, (Partitioned-allowed i).0.0 (ground arith))
      ],
      λ w.
          let h = (Partitioned-allowed w.0).0.1 w.1 in
          ground (arith, not_empty preferred w.0, not_empty allowed w.0),
    )

  -- The routing of a message of a type: what the two strings say, and the return value.
  abbrev pub Routed : Octstr → List SmscConn → Route → Type 0
  Routed type smscs r =
      (p : List ℕ) × (a : List ℕ) × (r.preferred_smsc ≡ some p)
      × (r.allowed_smsc ≡ some a)
      × Partitioned type smscs p a
      × ((r.code ≡ pos 0) ↔ ((i : ℕ) × Candidate type smscs i))

  code_iff : (b : Bool) → ((if b then pos 0 else minus_one) ≡ pos 0) ↔ (b ≡ true)
  code_iff b = (λ h. ground arith, λ h. ground arith)

  finish_fits :
      (ps as_ : List ℕ)
      → length ps ≤ 255
      → length as_ ≤ 256
      → finish ps as_
        ≡ some (record {
          code = (if ltb 0 (length ps) || ltb 0 (length as_) then pos 0 else minus_one);
          preferred_smsc = some (append_chars ps);
          allowed_smsc = some (append_chars as_);
        })
  unfolding finish
  finish_fits ps as_ lp la = ground arith

  route_client-Routed :
      (type : Octstr) (t : Client) (smscs : List SmscConn)
      → length smscs ≤ 128
      → preferred_count t ≤ 254
      → (r : Route) × (route_client type smscs (some t) ≡ some r) × Routed type smscs r
  unfolding route_client
  route_client-Routed type t smscs n m =
      let ps = preferred type t smscs n in
      let as_ = allowed type t smscs n in
      let part = Partitioned-allowed type t smscs n in
      let short_as = Short-All type smscs as_ n (
        All-fst (Candidate type smscs) (λ i. has_id ps i ≡ false) as_
          (allowed-Candidate type t smscs n)) in
      let lp = (preferred_all-All type t smscs).1 in
      let la = length-allowed_from type ps 0 smscs in
      let b = ltb 0 (length ps) || ltb 0 (length as_) in
      let code = code_iff b in
      let w = listed_iff type t smscs n in
      (
        _,
        finish_fits ps as_ (omega (arith, lp)) (omega (arith, la)),
        (
          ps,
          as_,
          ap some (append_chars-Short ps (preferred-Short type t smscs n)),
          ap some (append_chars-Short as_ short_as),
          part,
          ((λ h. w.0 (code.0 h)), λ v. code.1 (w.1 v)),
        ),
      )

  -- With at most 128 SMSCs and 254 preferred names, the routing of a submit of a known account
  -- returns. Each SMSC that takes the type of the number and can send is in exactly one of the two
  -- strings, as its index, nothing else is in them, and the result is 0 exactly if there is one.
  pub rout_pdu-Routed :
      (conf : SeriesConf) (trans : List Client) (smscs : List SmscConn) (dest username : Octstr)
      (t : Client)
      → find_username trans username ≡ some t
      → length smscs ≤ 128
      → preferred_count t ≤ 254
      → (r : Route) × (rout_pdu conf trans smscs (some dest) (some username) ≡ some r)
        × Routed (number_type conf dest) smscs r
  unfolding rout_pdu
  rout_pdu-Routed conf trans smscs dest username t f n m =
      rw f (route_client-Routed (number_type conf dest) t smscs n m)
