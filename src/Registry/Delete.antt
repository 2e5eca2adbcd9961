-- ===== src/Registry/Delete.antt =====
-- What deleting a session leaves of an account.
use smpp_server.Prelude.{
  ℕ, suc, ◌≤◌, ◌≡◌, refl, false, some, List, [], ◌∷◌, arith, length, ◌==◌, ◌&&◌, ltb, Bool-cases,
  Option-cases, inl, inr, ap,
}
use smpp_server.Prelude.Int.{ℤ, pos, negsuc}
use smpp_server.Gwlib.{Gwlib}
use smpp_server.Session.{TxSession, RxSession, tx_ids, rx_ids}
use smpp_server.Ids.{has_id}
use smpp_server.Config.{Client}
use smpp_server.Registry.{Esme, delete_tx, delete_rx, destroy_session}
use smpp_server.Registry.Valid.{IdsValid, Fits, SessionsValid}

Fits-le : (m n : ℕ) (k : ℤ) → m ≤ n → Fits n k → Fits m k
Fits-le m n (pos k) h f = omega arith
Fits-le m n (negsuc k) h f = tt

module _ ⦃gw : Gwlib⦄ where
  open gw use {Octstr, octstr_same, octstr_same_iff}

  -- What is left after a session is deleted.
  abbrev Fewer : List ℕ → List ℕ → Type 0
  Fewer rest ids =
      IdsValid rest
      × (length rest ≤ length ids)
      × ((i : ℕ) → has_id ids i ≡ false → has_id rest i ≡ false)

  Fewer-cons :
      (x : ℕ) (rest ids : List ℕ) → IdsValid (x ∷ ids) → Fewer rest ids → Fewer (x ∷ rest) (x ∷ ids)
  unfolding has_id
  Fewer-cons x rest ids v f =
      (((v.0.0, f.0.0), (f.2 x v.1.0, f.0.1)), omega arith, λ i h. ground (arith, f.2 i))

  Fewer-tail : (x : ℕ) (ids : List ℕ) → IdsValid (x ∷ ids) → Fewer ids (x ∷ ids)
  unfolding has_id
  Fewer-tail x ids v = ((v.0.1, v.1.1), omega arith, λ i h. ground arith)

  delete_tx-Fewer :
      (n : ℕ) (ss rest : List TxSession)
      → delete_tx n ss ≡ some rest
      → IdsValid (tx_ids ss)
      → Fewer (tx_ids rest) (tx_ids ss)
  unfolding delete_tx
  delete_tx-Fewer n [] rest d v = cc
  delete_tx-Fewer n (s ∷ ss) rest d v = elim (Bool-cases (s.session_id == n)) [
    | inl here ↦ let e : rest ≡ ss = ground arith in rw e (Fewer-tail s.session_id (tx_ids ss) v)
    | inr later ↦ elim (Option-cases (delete_tx n ss)) [
      | inl null ↦ ground arith
      | inr (r, p) ↦
          let e : rest ≡ s ∷ r = ground arith in
          rw e (
            Fewer-cons s.session_id (tx_ids r) (tx_ids ss) v
              (delete_tx-Fewer n ss r p (v.0.1, v.1.1)))
    ]
  ]

  delete_rx-Fewer :
      (n : ℕ) (ss rest : List RxSession)
      → delete_rx n ss ≡ some rest
      → IdsValid (rx_ids ss)
      → Fewer (rx_ids rest) (rx_ids ss)
  unfolding delete_rx
  delete_rx-Fewer n [] rest d v = cc
  delete_rx-Fewer n (s ∷ ss) rest d v = elim (Bool-cases (s.session_id == n)) [
    | inl here ↦ let e : rest ≡ ss = ground arith in rw e (Fewer-tail s.session_id (rx_ids ss) v)
    | inr later ↦ elim (Option-cases (delete_rx n ss)) [
      | inl null ↦ ground arith
      | inr (r, p) ↦
          let e : rest ≡ s ∷ r = ground arith in
          rw e (
            Fewer-cons s.session_id (rx_ids r) (rx_ids ss) v
              (delete_rx-Fewer n ss r p (v.0.1, v.1.1)))
    ]
  ]

  length-tx_ids : (ss : List TxSession) → length (tx_ids ss) ≡ length ss
  length-tx_ids [] = refl
  length-tx_ids (s ∷ ss) = ap suc (length-tx_ids ss)

  length-rx_ids : (ss : List RxSession) → length (rx_ids ss) ≡ length ss
  length-rx_ids [] = refl
  length-rx_ids (s ∷ ss) = ap suc (length-rx_ids ss)

  delete_tx-SessionsValid :
      (trans : List Client) (e : Esme) (rest : List TxSession)
      → Fewer (tx_ids rest) (tx_ids e.tx_esme)
      → SessionsValid trans e
      → SessionsValid trans (record e { tx_esme = rest })
  delete_tx-SessionsValid trans e rest f v = record {
    tx_valid = f.0;
    rx_valid = v.rx_valid;
    limits = λ t g. (
      Fits-le _ _ t.max_tx_sessions
          (omega (arith, f.1, length-tx_ids rest, length-tx_ids e.tx_esme)) (v.limits t g).0,
      (v.limits t g).1,
    );
  }

  delete_rx-SessionsValid :
      (trans : List Client) (e : Esme) (rest : List RxSession)
      → Fewer (rx_ids rest) (rx_ids e.rx_esme)
      → SessionsValid trans e
      → SessionsValid trans (record e { rx_esme = rest })
  delete_rx-SessionsValid trans e rest f v = record {
    tx_valid = v.tx_valid;
    rx_valid = f.0;
    limits = λ t g. (
      (v.limits t g).0,
      Fits-le _ _ t.max_rx_sessions
          (omega (arith, f.1, length-rx_ids rest, length-rx_ids e.rx_esme)) (v.limits t g).1,
    );
  }

  pub destroy_session-SessionsValid :
      (trans : List Client) (mode n : ℕ) (e e' : Esme)
      → destroy_session mode n e ≡ some e'
      → SessionsValid trans e
      → SessionsValid trans e' × (e'.system_id ≡ e.system_id)
  unfolding destroy_session
  destroy_session-SessionsValid trans mode n e e' h v = elim (Bool-cases (mode == 1 && ltb 0 n)) [
    | inl one ↦ elim (Option-cases (delete_tx n e.tx_esme)) [
      | inl null ↦ ground arith
      | inr (r, p) ↦
          let q : e' ≡ record e { tx_esme = r } = ground arith in
          rw q
            (delete_tx-SessionsValid trans e r (delete_tx-Fewer n e.tx_esme r p v.tx_valid) v, refl)
    ]
    | inr not_one ↦ elim (Bool-cases (mode == 2 && ltb 0 n)) [
      | inl two ↦ elim (Option-cases (delete_rx n e.rx_esme)) [
        | inl null ↦ ground arith
        | inr (r, p) ↦
            let q : e' ≡ record e { rx_esme = r } = ground arith in
            rw q (
              delete_rx-SessionsValid trans e r (delete_rx-Fewer n e.rx_esme r p v.rx_valid) v,
              refl,
            )
      ]
      | inr other ↦ let q : e' ≡ e = ground arith in rw q (v, refl)
    ]
  ]
