-- ===== src/Client/Handle/Removed.antt =====
-- Taking an entry out of the dictionary of sent messages.
use smpp_server.Prelude.{
  ℕ, suc, ◌≡◌, ap, ◌∙◌, some, List, [], ◌∷◌, length, All, Bool-cases, inl, inr, Option-cases, ◌==◌,
}
use mathlib.Core.Path.{subst}
use smpp_server.Prelude.Options.{some_inj}
use smpp_server.Gwlib.{Gwlib}
use smpp_server.Client.Conn.{SentMsg}
use smpp_server.Client.Handle.{dict_remove}

module _ ⦃gw : Gwlib⦄ where
  abbrev Entries : Type 0
  Entries = List (ℕ × SentMsg)

  -- One entry is gone, and what holds of every entry still does.
  pub dict_remove_lem :
      (P : (ℕ × SentMsg) → Type 0) (n : ℕ) (d : List (ℕ × SentMsg)) (s : SentMsg)
      (d' : List (ℕ × SentMsg))
      → dict_remove n d ≡ some (s, d')
      → (length d ≡ suc (length d')) × (All P d → All P d')
  unfolding dict_remove
  dict_remove_lem P n [] s d' h = cc
  dict_remove_lem P n ((k, x) ∷ d) s d' h = elim (Bool-cases (k == n)) [
    | inl here ↦
        let q : (x, d) ≡ (s, d') = some_inj (rw (dict_remove, here) at h) in
        let e : d ≡ d' = ap (λ (r : SentMsg × Entries). r.1) q in
        (ap (λ y. suc (length y)) e, λ v. subst (All P) e v.1)
    | inr other ↦ elim (Option-cases (dict_remove n d)) [
      | inl no_ ↦ let q = rw (dict_remove, other, no_) at h in cc
      | inr ((y, d''), p) ↦
          let q : (y, (k, x) ∷ d'') ≡ (s, d') = some_inj (rw (dict_remove, other, p) at h) in
          let e : (k, x) ∷ d'' ≡ d' = ap (λ (r : SentMsg × Entries). r.1) q in
          let rest = dict_remove_lem P n d y d'' p in
          (ap suc rest.0 ∙ ap (λ z. suc (length z)) e, λ v. subst (All P) e (v.0, rest.1 v.1))
    ]
  ]
