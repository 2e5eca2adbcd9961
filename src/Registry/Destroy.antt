-- ===== src/Registry/Destroy.antt =====
-- `esme_destroy` keeps the list of accounts well formed.
use smpp_server.Prelude.{
  ℕ, ◌+◌, ◌<◌, ◌≡◌, refl, none, some, List, [], ◌∷◌, arith, length, ◌==◌, ◌&&◌, Bool-cases,
  Option-cases, inl, inr, ◌⊎◌,
}
use smpp_server.Gwlib.{Gwlib}
use smpp_server.Config.{Client}
use smpp_server.Registry.{Esme, is_present_esme, destroy_session, drop_if_empty, esme_destroy}
use smpp_server.Registry.Delete.{destroy_session-SessionsValid}
use smpp_server.Registry.Valid.{SessionsValid, RegistryValid}

module _ ⦃gw : Gwlib⦄ where
  open gw use {Octstr, octstr_same, octstr_same_iff}

  -- No session ends on a list that the account is not on.
  pub esme_destroy-absent :
      (id : Octstr) (mode n : ℕ) (es : List Esme)
      → is_present_esme id es ≡ none
      → esme_destroy id mode n es ≡ some es
  unfolding esme_destroy is_present_esme
  esme_destroy-absent id mode n [] h = refl
  esme_destroy-absent id mode n (e ∷ es) h = ground (
    arith,
    octstr_same_iff id e.system_id,
    octstr_same_iff e.system_id id,
    esme_destroy-absent id mode n es,
  )

  -- How a session's end runs on a list that is not empty.
  esme_destroy_cases :
      (id : Octstr) (mode n : ℕ) (e : Esme) (es es' : List Esme)
      → esme_destroy id mode n (e ∷ es) ≡ some es'
      → ((e' : Esme) × (destroy_session mode n e ≡ some e') × (es' ≡ drop_if_empty e' es))
        ⊎ ((r : List Esme) × (esme_destroy id mode n es ≡ some r) × (es' ≡ e ∷ r))
  unfolding esme_destroy
  esme_destroy_cases id mode n e es es' h = elim (Bool-cases (octstr_same id e.system_id)) [
    | inl mine ↦ elim (Option-cases (destroy_session mode n e)) [
      | inl null ↦ ground arith
      | inr (e', p) ↦ inl (e', p, ground arith)
    ]
    | inr other ↦ elim (Option-cases (esme_destroy id mode n es)) [
      | inl null ↦ ground arith
      | inr (r, p) ↦ inr (r, p, ground arith)
    ]
  ]

  drop_if_empty_cases :
      (e : Esme) (es : List Esme)
      → (drop_if_empty e es ≡ es)
        ⊎ ((drop_if_empty e es ≡ e ∷ es) × (0 < length e.tx_esme + length e.rx_esme))
  unfolding drop_if_empty
  drop_if_empty_cases e es = elim (Bool-cases (length e.tx_esme == 0 && length e.rx_esme == 0)) [
    | inl empty ↦ inl (rw empty)
    | inr some_left ↦ inr (rw some_left, ground arith)
  ]

  destroy_session-system_id :
      (mode n : ℕ) (e e' : Esme) → destroy_session mode n e ≡ some e' → e'.system_id ≡ e.system_id
  unfolding destroy_session
  destroy_session-system_id mode n e e' h = ground arith

  absent-drop_if_empty :
      (j : Octstr) (e e' : Esme) (es : List Esme)
      → e'.system_id ≡ e.system_id
      → is_present_esme j (e ∷ es) ≡ none
      → is_present_esme j (drop_if_empty e' es) ≡ none
  unfolding drop_if_empty is_present_esme
  absent-drop_if_empty j e e' es q a = ground arith

  -- An account that is not on the list is not there after a session ends.
  absent-esme_destroy :
      (id j : Octstr) (mode n : ℕ) (es es' : List Esme)
      → esme_destroy id mode n es ≡ some es'
      → is_present_esme j es ≡ none
      → is_present_esme j es' ≡ none
  unfolding is_present_esme
  absent-esme_destroy id j mode n [] es' h a =
      let q : es' ≡ [] = unfold esme_destroy in (ground arith) in rw q
  absent-esme_destroy id j mode n (e ∷ es) es' h a =
      elim (esme_destroy_cases id mode n e es es' h) [
        | inl (e', p, q) ↦
            rw q (absent-drop_if_empty j e e' es (destroy_session-system_id mode n e e' p) a)
        | inr (r, p, q) ↦ rw q (ground (arith, absent-esme_destroy id j mode n es r))
      ]

  drop_if_empty-RegistryValid :
      (trans : List Client) (e e' : Esme) (es : List Esme)
      → RegistryValid trans (e ∷ es)
      → SessionsValid trans e'
      → e'.system_id ≡ e.system_id
      → RegistryValid trans (drop_if_empty e' es)
  drop_if_empty-RegistryValid trans e e' es v w q = elim (drop_if_empty_cases e' es) [
    | inl gone ↦ rw gone (v.0.1, v.1.1)
    | inr left ↦ rw left.0 ((rw q v.0.0, v.0.1), ((w, left.1), v.1.1))
  ]

  -- Ending a session keeps the list of accounts well formed: one entry for each account, session ids
  -- that differ, and no account left that has no session.
  pub esme_destroy-RegistryValid :
      (trans : List Client) (id : Octstr) (mode n : ℕ) (es es' : List Esme)
      → RegistryValid trans es
      → esme_destroy id mode n es ≡ some es'
      → RegistryValid trans es'
  esme_destroy-RegistryValid trans id mode n [] es' v h =
      let q : es' ≡ [] = unfold esme_destroy in (ground arith) in rw q (tt, tt)
  esme_destroy-RegistryValid trans id mode n (e ∷ es) es' v h =
      elim (esme_destroy_cases id mode n e es es' h) [
        | inl (e', p, q) ↦
            let w = destroy_session-SessionsValid trans mode n e e' p v.1.0.0 in
            rw q (drop_if_empty-RegistryValid trans e e' es v w.0 w.1)
        | inr (r, p, q) ↦
            let w = esme_destroy-RegistryValid trans id mode n es r (v.0.1, v.1.1) p in
            rw q ((absent-esme_destroy id e.system_id mode n es r p v.0.0, w.0), (v.1.0, w.1))
      ]
