-- ===== src/Authorise/Added.antt =====
-- Adding a session to an account keeps the list of accounts well formed.
use smpp_server.Prelude.{
  ℕ, ◌≤◌, ◌≡◌, inl, inr, refl, sym, Bool, true, false, Option, none, some, List, [], ◌∷◌, ◌++◌,
  ◌==◌, ◌||◌, ◌&&◌, arith, length, length-append, All-append, Bool-cases, ◌∙◌,
}
use smpp_server.Prelude.Int.{ℤ, pos, eqz, negsuc}
use smpp_server.Gwlib.{Gwlib, Env}
use smpp_server.Session.{tx_ids, rx_ids}
use smpp_server.Ids.Fresh.{allocate_session_id_fresh}
use smpp_server.Config.{Client, find_username}
use smpp_server.Registry.{Esme, is_present_esme}
use smpp_server.Registry.Valid.{
  IdsValid, IdsValid-append, Fits-suc, Fits-zero, SessionsValid, EsmeValid, RegistryValid,
  tx_ids-append, rx_ids-append, UniqueIds-append, is_present_esme-system_id, All-is_present_esme,
}
use smpp_server.Authorise.{
  TempConn, BindPdu, check_account, tx_full, rx_full, new_esme, new_tx, new_rx, next_id,
  add_session, replace_esme,
}
use smpp_server.Authorise.Replace.{All-replace_esme, UniqueIds-replace_esme}

eqz_comm : (a b : ℤ) → eqz a b ≡ eqz b a
eqz_comm (pos a) (pos b) = ground arith
eqz_comm (pos a) (negsuc b) = refl
eqz_comm (negsuc a) (pos b) = refl
eqz_comm (negsuc a) (negsuc b) = ground arith

module _ ⦃gw : Gwlib⦄ where
  open gw use {Octstr, octstr_same, octstr_same_iff}

  -- the modes of the three kinds of bind
  abbrev pub IsBindMode : ℕ → Type 0
  IsBindMode mode = (1 ≤ mode) × (mode ≤ 3)

  abbrev pub is_tx_mode : ℕ → Bool
  is_tx_mode mode = mode == 1 || mode == 3

  module _ (env : Env) (trans : List Client) (present : ℕ) (pdu : BindPdu) (temp : TempConn) where
    new_tx_ids :
        (mode : ℕ) (e : Esme)
        → is_tx_mode mode ≡ true
        → SessionsValid trans e
        → IdsValid (
            tx_ids e.tx_esme ++ (new_tx env mode present pdu temp (next_id mode e)).session_id ∷ [])
    unfolding new_tx next_id
    new_tx_ids mode e m v =
        let fresh = allocate_session_id_fresh (tx_ids e.tx_esme) v.tx_valid.0 in
        rw m (IdsValid-append (tx_ids e.tx_esme) _ v.tx_valid fresh.1 fresh.0)

    new_rx_ids :
        (mode : ℕ) (e : Esme)
        → is_tx_mode mode ≡ false
        → SessionsValid trans e
        → IdsValid (rx_ids e.rx_esme ++ (new_rx env pdu temp (next_id mode e)).session_id ∷ [])
    unfolding new_rx next_id
    new_rx_ids mode e m v =
        let fresh = allocate_session_id_fresh (rx_ids e.rx_esme) v.rx_valid.0 in
        rw m (IdsValid-append (rx_ids e.rx_esme) _ v.rx_valid fresh.1 fresh.0)

    add_tx-EsmeValid :
        (mode : ℕ) (e : Esme)
        → is_tx_mode mode ≡ true
        → SessionsValid trans e
        → ((t : Client)
            → find_username trans e.system_id ≡ some t
            → eqz (pos (length e.tx_esme)) t.max_tx_sessions ≡ false)
        → EsmeValid trans (add_session env mode present pdu temp e)
    unfolding add_session
    add_tx-EsmeValid mode e m v room =
        let s = new_tx env mode present pdu temp (next_id mode e) in
        rw m (
          record {
            tx_valid = rw (tx_ids-append e.tx_esme s) (new_tx_ids mode e m v);
            rx_valid = v.rx_valid;
            limits = λ t f. (
              rw (length-append e.tx_esme (s ∷ [])) (Fits-suc _ _ (v.limits t f).0 (room t f)),
              (v.limits t f).1,
            );
          },
          omega (arith, length-append e.tx_esme (s ∷ [])),
        )

    add_rx-EsmeValid :
        (mode : ℕ) (e : Esme)
        → is_tx_mode mode ≡ false
        → (mode == 2) ≡ true
        → SessionsValid trans e
        → ((t : Client)
            → find_username trans e.system_id ≡ some t
            → eqz (pos (length e.rx_esme)) t.max_rx_sessions ≡ false)
        → EsmeValid trans (add_session env mode present pdu temp e)
    unfolding add_session
    add_rx-EsmeValid mode e m m' v room =
        let s = new_rx env pdu temp (next_id mode e) in
        rw (m, m')
          (
            record {
              tx_valid = v.tx_valid;
              rx_valid = rw (rx_ids-append e.rx_esme s) (new_rx_ids mode e m v);
              limits = λ t f. (
                (v.limits t f).0,
                rw (length-append e.rx_esme (s ∷ [])) (Fits-suc _ _ (v.limits t f).1 (room t f)),
              );
            },
            omega (arith, length-append e.rx_esme (s ∷ [])),
          )

    -- A session is added to an account that has room for it.
    add_session-EsmeValid :
        (mode : ℕ) (e : Esme) (t : Client)
        → IsBindMode mode
        → find_username trans e.system_id ≡ some t
        → SessionsValid trans e
        → (is_tx_mode mode && eqz (pos (length e.tx_esme)) t.max_tx_sessions ≡ false)
        → (mode == 2 && eqz (pos (length e.rx_esme)) t.max_rx_sessions ≡ false)
        → EsmeValid trans (add_session env mode present pdu temp e)
    add_session-EsmeValid mode e t b f v room room' = elim (Bool-cases (is_tx_mode mode)) [
      | inl m ↦ add_tx-EsmeValid mode e m v (λ u g.
          let both : some t ≡ some u = sym f ∙ g in
          let same : t ≡ u = cc in rw (← same) (ground arith))
      | inr m ↦ add_rx-EsmeValid mode e m (ground arith) v (λ u g.
          let both : some t ≡ some u = sym f ∙ g in
          let same : t ≡ u = cc in rw (← same) (ground arith))
    ]

    pub new_esme-SessionsValid :
        (t : Client) (id : Octstr) → SessionsValid trans (new_esme env t pdu id)
    unfolding new_esme
    new_esme-SessionsValid t id = record {
      tx_valid = (tt, tt);
      rx_valid = (tt, tt);
      limits = λ u f. (Fits-zero u.max_tx_sessions, Fits-zero u.max_rx_sessions);
    }

    -- What the checks have found when they let a bind in.
    pub check_account-room :
        (mode : ℕ) (t : Client) (password : Option Octstr) (account : Option Esme)
        → check_account env mode t password account ≡ pos 0
        → (is_tx_mode mode && tx_full account t ≡ false) × (mode == 2 && rx_full account t ≡ false)
    unfolding check_account
    check_account-room mode t password account h = ground arith

    pub add_session-system_id :
        (mode : ℕ) (e : Esme) → (add_session env mode present pdu temp e).system_id ≡ e.system_id
    unfolding add_session
    add_session-system_id mode e = ground arith

    pub admit_new-RegistryValid :
        (mode : ℕ) (t : Client) (id : Octstr) (es : List Esme)
        → IsBindMode mode
        → find_username trans id ≡ some t
        → is_present_esme id es ≡ none
        → (is_tx_mode mode && tx_full none t ≡ false) × (mode == 2 && rx_full none t ≡ false)
        → RegistryValid trans es
        → RegistryValid trans
            (es ++ add_session env mode present pdu temp (new_esme env t pdu id) ∷ [])
    unfolding new_esme tx_full rx_full
    admit_new-RegistryValid mode t id es b f absent room v =
        let e = new_esme env t pdu id in
        let e' = add_session env mode present pdu temp e in
        (
          UniqueIds-append es e' v.0 (rw (add_session-system_id mode e) absent),
          All-append (EsmeValid trans) es (e' ∷ []) v.1 (
            add_session-EsmeValid mode e t b f (new_esme-SessionsValid t id)
                (ground (arith, eqz_comm t.max_tx_sessions (pos 0)))
                (ground (arith, eqz_comm t.max_rx_sessions (pos 0))),
            tt,
          ),
        )

    pub admit_old-RegistryValid :
        (mode : ℕ) (t : Client) (id : Octstr) (es : List Esme) (e : Esme)
        → IsBindMode mode
        → find_username trans id ≡ some t
        → is_present_esme id es ≡ some e
        → (is_tx_mode mode && tx_full (some e) t ≡ false)
          × (mode == 2 && rx_full (some e) t ≡ false)
        → RegistryValid trans es
        → RegistryValid trans (replace_esme id (add_session env mode present pdu temp e) es)
    unfolding tx_full rx_full
    admit_old-RegistryValid mode t id es e b f here room v =
        let e' = add_session env mode present pdu temp e in
        let named = is_present_esme-system_id id es e here in
        (
          UniqueIds-replace_esme id e e' es here (add_session-system_id mode e ∙ named) v.0,
          All-replace_esme (EsmeValid trans) id e' es
              (add_session-EsmeValid mode e t b (rw named f)
                (All-is_present_esme (EsmeValid trans) id es e here v.1).0 room.0 room.1)
              v.1,
        )
