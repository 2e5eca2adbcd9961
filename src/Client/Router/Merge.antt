-- ===== src/Client/Router/Merge.antt =====
-- The merge of the two arrays of a message.
use smpp_server.Prelude.{
  ℕ, suc, ◌+◌, ◌<◌, ◌≤◌, ◌≡◌, refl, sym, ap, ◌∙◌, true, false, Option, none, some, List, [], ◌∷◌,
  ◌++◌, All, All-append, append_assoc, arith, length, length-append, get_elem?, set, Bool-cases,
  inl, inr, ltb, ==_iff, if_true,
}
use smpp_server.Prelude.Int.{ℤ, pos, negsuc, minus_one, eqz}
use mathlib.Core.Path.{subst}
use smpp_server.Prelude.Options.{some_inj, ◌>>=◌}
use smpp_server.Gwlib.{Gwlib}
use smpp_server.Client.Msg.{RoutingInfo}
use smpp_server.Client.Rout.{positions}
use smpp_server.Client.Router.{write, count_from, copy, merge}

-- An entry of an array that does not end it.
abbrev pub Real : ℤ → Type 0
Real p = eqz p minus_one ≡ false

eqz-minus_one : (p : ℤ) → eqz p minus_one ≡ true → p ≡ minus_one
eqz-minus_one (pos n) h = cc
eqz-minus_one (negsuc n) h = ap negsuc ((==_iff n 0).0 h)

positions_behind :
    (p : ℤ) (a ps : List ℤ)
    → Real p
    → (o : Option (List ℤ))
    → ((qs : List ℤ) → o ≡ some qs → (rest : List ℤ) × (a ≡ qs ++ minus_one ∷ rest) × All Real qs)
    → elim o [ none ↦ none | some qs ↦ some (p ∷ qs) ] ≡ some ps
    → (rest : List ℤ) × (p ∷ a ≡ ps ++ minus_one ∷ rest) × All Real ps
positions_behind p a ps real none inv h = cc
positions_behind p a ps real (some qs) inv h =
    let (rest, e, reals) = inv qs refl in
    (
      rest,
      ap (◌∷◌ p) e ∙ ap (λ x. x ++ minus_one ∷ rest) (some_inj h),
      subst (All Real) (some_inj h) (real, reals),
    )

positions_inv :
    (a ps : List ℤ)
    → positions a ≡ some ps
    → (rest : List ℤ) × (a ≡ ps ++ minus_one ∷ rest) × All Real ps
unfolding positions
positions_inv [] ps h = cc
positions_inv (p ∷ a) ps h = elim (Bool-cases (eqz p minus_one)) [
  | inl end ↦
      let e : [] ≡ ps = some_inj (rw end at h) in
      (
        a,
        subst (λ (x : List ℤ). p ∷ a ≡ x ++ minus_one ∷ a) e
            (ap (λ x. x ∷ a) (eqz-minus_one p end)),
        subst (All Real) e tt,
      )
  | inr real ↦ positions_behind p a ps real (positions a) (positions_inv a) (rw real at h)
]

positions_intro : (ps rest : List ℤ) → All Real ps → positions (ps ++ minus_one ∷ rest) ≡ some ps
unfolding positions
positions_intro [] rest h = refl
positions_intro (p ∷ ps) rest h = rw (h.0, positions_intro ps rest h.1) refl

get_middle : (xs : List ℤ) (x : ℤ) (ys : List ℤ) → get_elem? (xs ++ x ∷ ys) (length xs) ≡ some x
get_middle [] x ys = refl
get_middle (z ∷ xs) x ys = get_middle xs x ys

set_middle : (xs : List ℤ) (x v : ℤ) (ys : List ℤ) → set (xs ++ x ∷ ys) (length xs) v ≡ xs ++ v ∷ ys
set_middle [] x v ys = refl
set_middle (z ∷ xs) x v ys = ap (◌∷◌ z) (set_middle xs x v ys)

lt-length : (xs : List ℤ) (x : ℤ) (ys : List ℤ) → ltb (length xs) (length (xs ++ x ∷ ys)) ≡ true
lt-length xs x ys = ground (arith, length-append xs (x ∷ ys))

get_at :
    {j : ℕ} {a : List ℤ} (xs : List ℤ) (x : ℤ) (ys : List ℤ)
    → j ≡ length xs
    → a ≡ xs ++ x ∷ ys
    → get_elem? a j ≡ some x
get_at xs x ys e h = rw (e, h) (get_middle xs x ys)

write_at :
    {j : ℕ} {a : List ℤ} (xs : List ℤ) (x v : ℤ) (ys : List ℤ)
    → j ≡ length xs
    → a ≡ xs ++ x ∷ ys
    → write a j v ≡ some (xs ++ v ∷ ys)
unfolding write
write_at xs x v ys e h =
    rw (e, h) (if_true _ _ _ (lt-length xs x ys) ∙ ap some (set_middle xs x v ys))

blanks : List ℤ → List ℤ
blanks [] = []
blanks (p ∷ ps) = minus_one ∷ blanks ps

-- A copy into an array with room for it.
copy_lem :
    (ps front back start room : List ℤ) {j ret : ℕ} {prefs alloweds : List ℤ}
    → length ps ≤ length room
    → j ≡ length front
    → ret ≡ length start
    → prefs ≡ front ++ (ps ++ back)
    → alloweds ≡ start ++ room
    → (left : List ℤ) × (copy (length ps) j ret prefs alloweds
        ≡ some (front ++ (blanks ps ++ back), start ++ (ps ++ left), ret + length ps))
      × (length left + length ps ≡ length room)
unfolding copy blanks
copy_lem [] front back start room {j} {ret} h at1 at2 e1 e2 =
    let same : ret ≡ ret + 0 = omega arith in
    (room, rw (e1, e2) (ap (λ n. some (front ++ back, start ++ room, n)) same), omega arith)
copy_lem (p ∷ ps) front back start [] h at1 at2 e1 e2 = absurd (omega arith)
copy_lem (p ∷ ps) front back start (t ∷ room) {j} {ret} h at1 at2 e1 e2 =
    let (left, run, size) =
      copy_lem ps (front ++ minus_one ∷ []) back (start ++ p ∷ []) room {j = suc j} {ret = suc ret}
        (omega arith) (omega (arith, length-append front (minus_one ∷ [])))
        (omega (arith, length-append start (p ∷ [])))
        (sym (append_assoc front (minus_one ∷ []) (ps ++ back)))
        (sym (append_assoc start (p ∷ []) room)) in
    let same : suc ret + length ps ≡ ret + suc (length ps) = omega arith in
    (
      left,
      rw
          (
            get_at front p (ps ++ back) at1 e1,
            write_at start t p room at2 e2,
            write_at front p minus_one (ps ++ back) at1 e1,
          )
          (run
            ∙ rw (
              append_assoc front (minus_one ∷ []) (blanks ps ++ back),
              append_assoc start (p ∷ []) (ps ++ left),
              same,
            )),
      omega arith,
    )

-- The counts of the message before do not reach into this one.
abbrev pub NoneStale : ℕ → List ℤ → Type 0
NoneStale nos [] = nos ≡ 0
NoneStale nos (p ∷ ps) = Unit

count_from_lem : (nos : ℕ) (ps : List ℤ) → NoneStale nos ps → count_from nos ps ≡ length ps
unfolding count_from
count_from_lem nos [] h = h
count_from_lem nos (p ∷ ps) h = refl

positions-blanks : (ps rest : List ℤ) → positions (blanks ps ++ minus_one ∷ rest) ≡ some []
unfolding positions blanks
positions-blanks [] rest = refl
positions-blanks (p ∷ ps) rest = refl

write_end :
    (ps qs left : List ℤ)
    → 0 < length left
    → (tail : List ℤ) × (write (qs ++ (ps ++ left)) (length qs + length ps) minus_one
        ≡ some (qs ++ (ps ++ minus_one ∷ tail)))
write_end ps qs [] h = absurd (omega arith)
write_end ps qs (t ∷ tail) h = (
  tail,
  write_at (qs ++ ps) t minus_one tail (sym (length-append qs ps))
        (sym (append_assoc qs ps (t ∷ tail)))
      ∙ ap some (append_assoc qs ps (minus_one ∷ tail)),
)

module _ ⦃gw : Gwlib⦄ where
  -- The merge by the results of its steps.
  merge_steps :
      (old_prefs old_alloweds : ℕ) (info : RoutingInfo) {ps qs prefs alloweds ended : List ℤ}
      {n1 n2 ret : ℕ}
      → positions info.preferred_smsc ≡ some ps
      → positions info.allowed_smsc ≡ some qs
      → count_from old_prefs ps ≡ n1
      → count_from old_alloweds qs ≡ n2
      → copy n1 0 n2 info.preferred_smsc info.allowed_smsc ≡ some (prefs, alloweds, ret)
      → write alloweds ret minus_one ≡ some ended
      → merge old_prefs old_alloweds info
        ≡ some (record info { preferred_smsc = prefs; allowed_smsc = ended }, n1, n2)
  unfolding merge
  merge_steps old_prefs old_alloweds info h1 h2 c1 c2 run ended =
      rw (h1, ◌>>=◌, h2, c1, c2, run, ended)

  -- If the count of preferred positions that a message before left is 0 where this message has none,
  -- so too that of allowed ones, and the array of allowed ones has room for all, then after the
  -- merge the message has no preferred position, its allowed ones are followed by its preferred
  -- ones, the rest of its routing information is the same, and the counts are those of the message.
  pub merge-positions :
      (old_prefs old_alloweds : ℕ) (info : RoutingInfo) (ps qs : List ℤ)
      → positions info.preferred_smsc ≡ some ps
      → positions info.allowed_smsc ≡ some qs
      → NoneStale old_prefs ps
      → NoneStale old_alloweds qs
      → length qs + length ps < length info.allowed_smsc
      → (info' : RoutingInfo) × (merge old_prefs old_alloweds info
          ≡ some (info', length ps, length qs))
        × (positions info'.preferred_smsc ≡ some [])
        × (positions info'.allowed_smsc ≡ some (qs ++ ps))
        × (record info' { preferred_smsc = []; allowed_smsc = [] }
            ≡ record info { preferred_smsc = []; allowed_smsc = [] })
  unfolding merge
  merge-positions old_prefs old_alloweds info ps qs h1 h2 n1 n2 room =
      let (rest1, e1, real1) = positions_inv info.preferred_smsc ps h1 in
      let (rest2, e2, real2) = positions_inv info.allowed_smsc qs h2 in
      let size = ap (length {0}) e2 ∙ length-append qs (minus_one ∷ rest2) in
      let fits : length ps ≤ length rest2 = omega arith in
      let c1 = count_from_lem old_prefs ps n1 in
      let c2 = count_from_lem old_alloweds qs n2 in
      let (left, run, left_size) =
        copy_lem ps [] (minus_one ∷ rest1) qs (minus_one ∷ rest2) {j = 0} {ret = length qs}
          (omega arith) refl refl e1 e2 in
      let (tail, ended) = write_end ps qs left (omega arith) in
      (
        record info {
          preferred_smsc = blanks ps ++ minus_one ∷ rest1;
          allowed_smsc = qs ++ (ps ++ minus_one ∷ tail);
        },
        merge_steps old_prefs old_alloweds info h1 h2 c1 c2 run ended,
        positions-blanks ps rest1,
        ap positions (sym (append_assoc qs ps (minus_one ∷ tail)))
            ∙ positions_intro (qs ++ ps) tail (All-append Real qs ps real2 real1),
        refl,
      )
