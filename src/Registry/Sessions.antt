-- ===== src/Registry/Sessions.antt =====
-- Finding and deleting the session that was added last.
use smpp_server.Prelude.{
  ℕ, ◌≡◌, ◌≤◌, ◌<◌, ◌⊎◌, length, true, false, some, List, [], ◌∷◌, ◌++◌, arith, ◌==◌, ◌||◌,
}
use smpp_server.Gwlib.{Gwlib}
use smpp_server.Session.{TxSession, RxSession, tx_ids, rx_ids}
use smpp_server.Ids.{has_id}
use smpp_server.Registry.{
  Esme, SessionStr, tx, rx, find_tx, find_rx, get_session_str, delete_tx, delete_rx,
  destroy_session,
}

module _ ⦃gw : Gwlib⦄ where
  find_tx-append :
      (n : ℕ) (ss : List TxSession) (s : TxSession)
      → has_id (tx_ids ss) n ≡ false
      → s.session_id ≡ n
      → find_tx n (ss ++ s ∷ []) ≡ some (tx s)
  unfolding find_tx has_id
  find_tx-append n [] s h e = ground arith
  find_tx-append n (x ∷ ss) s h e = ground (arith, find_tx-append n ss s)

  find_rx-append :
      (n : ℕ) (ss : List RxSession) (s : RxSession)
      → has_id (rx_ids ss) n ≡ false
      → s.session_id ≡ n
      → find_rx n (ss ++ s ∷ []) ≡ some (rx s)
  unfolding find_rx has_id
  find_rx-append n [] s h e = ground arith
  find_rx-append n (x ∷ ss) s h e = ground (arith, find_rx-append n ss s)

  delete_tx-append :
      (n : ℕ) (ss : List TxSession) (s : TxSession)
      → has_id (tx_ids ss) n ≡ false
      → s.session_id ≡ n
      → delete_tx n (ss ++ s ∷ []) ≡ some ss
  unfolding delete_tx has_id
  delete_tx-append n [] s h e = ground arith
  delete_tx-append n (x ∷ ss) s h e = ground (arith, delete_tx-append n ss s)

  delete_rx-append :
      (n : ℕ) (ss : List RxSession) (s : RxSession)
      → has_id (rx_ids ss) n ≡ false
      → s.session_id ≡ n
      → delete_rx n (ss ++ s ∷ []) ≡ some ss
  unfolding delete_rx has_id
  delete_rx-append n [] s h e = ground arith
  delete_rx-append n (x ∷ ss) s h e = ground (arith, delete_rx-append n ss s)

  -- A session whose id no session before it has is the one that its thread finds, and deleting it
  -- gives the account back as it was.
  pub added_tx :
      (mode n : ℕ) (e : Esme) (s : TxSession)
      → (mode == 1 || mode == 3) ≡ true
      → 1 ≤ n
      → has_id (tx_ids e.tx_esme) n ≡ false
      → s.session_id ≡ n
      → (get_session_str (record e { tx_esme = e.tx_esme ++ s ∷ [] }) mode n ≡ some (tx s))
        × (destroy_session 1 n (record e { tx_esme = e.tx_esme ++ s ∷ [] }) ≡ some e)
  unfolding get_session_str destroy_session
  added_tx mode n e s m p h q =
      ground (arith, find_tx-append n e.tx_esme s, delete_tx-append n e.tx_esme s)

  pub added_rx :
      (n : ℕ) (e : Esme) (s : RxSession)
      → 1 ≤ n
      → has_id (rx_ids e.rx_esme) n ≡ false
      → s.session_id ≡ n
      → (get_session_str (record e { rx_esme = e.rx_esme ++ s ∷ [] }) 2 n ≡ some (rx s))
        × (destroy_session 2 n (record e { rx_esme = e.rx_esme ++ s ∷ [] }) ≡ some e)
  unfolding get_session_str destroy_session
  added_rx n e s p h q =
      ground (arith, find_rx-append n e.rx_esme s, delete_rx-append n e.rx_esme s)

  find_tx_found :
      (n : ℕ) (ss : List TxSession) (s : SessionStr) → find_tx n ss ≡ some s → 0 < length ss
  unfolding find_tx
  find_tx_found n [] s h = cc
  find_tx_found n (x ∷ ss) s h = omega arith

  find_rx_found :
      (n : ℕ) (ss : List RxSession) (s : SessionStr) → find_rx n ss ≡ some s → 0 < length ss
  unfolding find_rx
  find_rx_found n [] s h = cc
  find_rx_found n (x ∷ ss) s h = omega arith

  -- A session that is found is an element of the list of its kind.
  pub get_session_str_found :
      (e : Esme) (mode n : ℕ) (s : SessionStr)
      → get_session_str e mode n ≡ some s
      → (mode ≡ 2 → 0 < length e.rx_esme) × ((mode ≡ 1) ⊎ (mode ≡ 3) → 0 < length e.tx_esme)
  unfolding get_session_str
  get_session_str_found e mode n s h = (
    λ two. find_rx_found n e.rx_esme s (ground arith),
    λ other. find_tx_found n e.tx_esme s (ground arith),
  )
