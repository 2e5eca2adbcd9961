-- ===== src/Config/Find.antt =====
-- In a configuration that passes `verify_config_para`, `smpp_client_find_username` finds an account
-- by its name.
use smpp_server.Prelude.{
  ℕ, zero, suc, ◌≡◌, ◌↔◌, inl, inr, some, List, [], ◌∷◌, arith, get_elem?, Bool-cases, sym, ◌∙◌,
}
use smpp_server.Prelude.Int.{pos}
use smpp_server.Gwlib.{Gwlib}
use smpp_server.Config.{Client, verify_config_para, find_username}
use smpp_server.Config.Verify.{verify_config_para_iff}

module _ ⦃gw : Gwlib⦄ where
  open gw use {Octstr, octstr_same, octstr_same_iff}

  find_username_get :
      (ts : List Client) (name : Octstr) (t : Client)
      → find_username ts name ≡ some t
      → (i : ℕ) × (get_elem? ts i ≡ some t) × (t.account_name ≡ name)
  unfolding find_username
  find_username_get [] name t h = cc
  find_username_get (x ∷ xs) name t h = elim (Bool-cases (octstr_same name x.account_name)) [
    | inl e ↦ (0, ground arith, ground (arith, octstr_same_iff name x.account_name))
    | inr e ↦ let (i, g, f) = find_username_get xs name t (ground arith) in (suc i, g, f)
  ]

  get-find_username :
      (ts : List Client) (i : ℕ) (t : Client)
      → get_elem? ts i ≡ some t
      → (u : Client) × (find_username ts t.account_name ≡ some u)
  unfolding find_username
  get-find_username [] i t g = cc
  get-find_username (x ∷ xs) zero t g =
      (x, ground (arith, octstr_same_iff t.account_name x.account_name))
  get-find_username (x ∷ xs) (suc i) t g =
      elim (Bool-cases (octstr_same t.account_name x.account_name)) [
        | inl e ↦ (x, rw e)
        | inr e ↦ let (u, f) = get-find_username xs i t g in (u, rw e f)
      ]

  -- In a configuration that passes the check, an account is found by its name exactly if it is one
  -- of the configuration's accounts and has that name: no account hides another.
  pub find_username_iff :
      (trans : List Client) (name : Octstr) (t : Client)
      → verify_config_para trans ≡ pos 0
      → (find_username trans name ≡ some t)
        ↔ ((i : ℕ) × (get_elem? trans i ≡ some t) × (t.account_name ≡ name))
  find_username_iff trans name t ok = (
    find_username_get trans name t,
    λ p.
        let (u, f) = get-find_username trans p.0 t p.1 in
        let (j, g, e) = find_username_get trans t.account_name u f in
        let same = ((verify_config_para_iff trans).0 ok).0 p.0 j t u p.1 g (sym e) in
        let g' = rw (← same) at g in
        let tu : some t ≡ some u = sym p.1 ∙ g' in rw (p.2) at f ∙ sym tu,
  )
