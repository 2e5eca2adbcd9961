-- ===== src/Registry/SmscUpdate.antt =====
-- `update_esme_conn`: the sessions' status follows the smsc list.
use smpp_server.Prelude.{
  ℕ, suc, ◌≤◌, ◌≡◌, refl, ap, true, false, Option, none, some, List, [], ◌∷◌, ◌==◌, ◌||◌, arith,
  length, All, Bool-cases, inl, inr,
}
use smpp_server.Gwlib.{Gwlib}
use smpp_server.Session.{TxSession, tx_ids}
use smpp_server.Config.{Client}
use smpp_server.Smscs.{SmscConn, check_smsc_conn}
use smpp_server.Smscs.Laws.{is_smsc_present_lem}
use smpp_server.Registry.{
  Esme, is_present_esme, is_smsc_unconnected, no_smsc, smsc_back, each_tx, update_one,
  update_esme_conn,
}
use smpp_server.Registry.Valid.{EsmeValid, RegistryValid}

module _ ⦃gw : Gwlib⦄ where
  open gw use {Octstr, octstr_same, octstr_same_iff}

  -- Both status changes keep a session's id.
  abbrev KeepsId : (TxSession → TxSession) → Type 0
  KeepsId f = (s : TxSession) → (f s).session_id ≡ s.session_id

  no_smsc-KeepsId : KeepsId no_smsc
  unfolding no_smsc
  no_smsc-KeepsId s = refl

  smsc_back-KeepsId : KeepsId smsc_back
  unfolding smsc_back
  smsc_back-KeepsId s = ground arith

  each_tx-ids :
      (f : TxSession → TxSession) (ss : List TxSession)
      → KeepsId f
      → (tx_ids (each_tx f ss) ≡ tx_ids ss) × (length (each_tx f ss) ≡ length ss)
  unfolding each_tx
  each_tx-ids f [] k = (refl, refl)
  each_tx-ids f (s ∷ ss) k = let h = each_tx-ids f ss k in (rw (k s, h.0), ap suc h.1)

  each_tx-EsmeValid :
      (trans : List Client) (f : TxSession → TxSession) (e : Esme)
      → KeepsId f
      → EsmeValid trans e
      → EsmeValid trans (record e { tx_esme = each_tx f e.tx_esme })
  each_tx-EsmeValid trans f e k v =
      let same = each_tx-ids f e.tx_esme k in
      (
        record {
          tx_valid = rw same.0 v.0.tx_valid;
          rx_valid = v.0.rx_valid;
          limits = λ t g. rw same.1 (v.0.limits t g);
        },
        rw same.1 v.1,
      )

  update_one-EsmeValid :
      (trans : List Client) (present : ℕ) (e : Esme)
      → EsmeValid trans e
      → EsmeValid trans (update_one present e)
  unfolding update_one
  update_one-EsmeValid trans present e v = elim (Bool-cases (present == 0 || present == 1)) [
    | inl p ↦ rw p (each_tx-EsmeValid trans no_smsc e no_smsc-KeepsId v)
    | inr p ↦ elim (Bool-cases (present == 2)) [
      | inl q ↦ rw (p, q) (each_tx-EsmeValid trans smsc_back e smsc_back-KeepsId v)
      | inr q ↦ rw (p, q) v
    ]
  ]

  update_one-system_id : (present : ℕ) (e : Esme) → (update_one present e).system_id ≡ e.system_id
  unfolding update_one
  update_one-system_id present e = ground arith

  absent-update_esme_conn :
      (trans : List Client) (smscs : List SmscConn) (id : Octstr) (es : List Esme)
      → is_present_esme id es ≡ none
      → is_present_esme id (update_esme_conn trans smscs es) ≡ none
  unfolding update_esme_conn is_present_esme
  absent-update_esme_conn trans smscs id [] h = refl
  absent-update_esme_conn trans smscs id (e ∷ es) h = ground (
    arith,
    update_one-system_id (check_smsc_conn (some e.system_id) trans smscs) e,
    absent-update_esme_conn trans smscs id es,
  )

  -- An update of the sessions' status keeps the list of accounts well formed.
  pub update_esme_conn-RegistryValid :
      (trans : List Client) (smscs : List SmscConn) (es : List Esme)
      → RegistryValid trans es
      → RegistryValid trans (update_esme_conn trans smscs es)
  unfolding update_esme_conn
  update_esme_conn-RegistryValid trans smscs [] v = (tt, tt)
  update_esme_conn-RegistryValid trans smscs (e ∷ es) v =
      let rest = update_esme_conn-RegistryValid trans smscs es (v.0.1, v.1.1) in
      let present = check_smsc_conn (some e.system_id) trans smscs in
      (
        (
          rw (update_one-system_id present e)
              (absent-update_esme_conn trans smscs e.system_id es v.0.0),
          rest.0,
        ),
        (update_one-EsmeValid trans present e v.1.0, rest.1),
      )

  -- A session is in the state that the smsc list asks for: `present` is what `check_smsc_conn` says
  -- of its account.
  abbrev pub InSync : ℕ → TxSession → Type 0
  InSync present s =
      (present ≤ 1 → is_smsc_unconnected s.status ≡ true)
      × (present ≡ 2 → is_smsc_unconnected s.status ≡ false)

  no_smsc-InSync : (ss : List TxSession) (p : ℕ) → p ≤ 1 → All (InSync p) (each_tx no_smsc ss)
  unfolding each_tx no_smsc
  no_smsc-InSync [] p h = tt
  no_smsc-InSync (s ∷ ss) p h = ((λ _. refl, λ e. absurd (omega arith)), no_smsc-InSync ss p h)

  smsc_back-InSync : (ss : List TxSession) (p : ℕ) → p ≡ 2 → All (InSync p) (each_tx smsc_back ss)
  unfolding each_tx smsc_back
  smsc_back-InSync [] p h = tt
  smsc_back-InSync (s ∷ ss) p h =
      ((λ le. absurd (omega arith), λ e. ground arith), smsc_back-InSync ss p h)

  update_one-InSync : (p : ℕ) (e : Esme) → p ≤ 2 → All (InSync p) (update_one p e).tx_esme
  unfolding update_one
  update_one-InSync p e h = elim (Bool-cases (p == 0 || p == 1)) [
    | inl q ↦ rw q (no_smsc-InSync e.tx_esme p (ground arith))
    | inr q ↦
        let two : p ≡ 2 = ground arith in
        let yes_ : (p == 2) ≡ true = ground arith in rw (q, yes_) (smsc_back-InSync e.tx_esme p two)
  ]

  check_smsc_conn-le :
      (id : Option Octstr) (trans : List Client) (smscs : List SmscConn)
      → check_smsc_conn id trans smscs ≤ 2
  unfolding check_smsc_conn
  check_smsc_conn-le none trans smscs = omega arith
  check_smsc_conn-le (some id) trans smscs = ground (arith, (is_smsc_present_lem smscs).2)

  -- After an update every tx session is waiting for an smsc exactly if its account has none that is
  -- connected.
  pub update_esme_conn-InSync :
      (trans : List Client) (smscs : List SmscConn) (es : List Esme)
      → All
          (λ (e : Esme). All (InSync (check_smsc_conn (some e.system_id) trans smscs)) e.tx_esme)
          (update_esme_conn trans smscs es)
  unfolding update_esme_conn
  update_esme_conn-InSync trans smscs [] = tt
  update_esme_conn-InSync trans smscs (e ∷ es) =
      let present = check_smsc_conn (some e.system_id) trans smscs in
      (
        rw (update_one-system_id present e)
            (update_one-InSync present e (check_smsc_conn-le (some e.system_id) trans smscs)),
        update_esme_conn-InSync trans smscs es,
      )
