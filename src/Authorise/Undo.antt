-- ===== src/Authorise/Undo.antt =====
-- What a bind that is let in adds, and that ending the session takes exactly that away.
use smpp_server.Prelude.{
  ℕ, ◌+◌, ◌<◌, ◌≡◌, inl, inr, refl, sym, ap, false, Option, none, some, List, [], ◌∷◌, ◌==◌, arith,
  length, if◌then◌else◌, Bool-cases, ◌∙◌,
}
use smpp_server.Prelude.Int.{pos}
use smpp_server.Gwlib.{Gwlib, Env}
use smpp_server.Session.{tx_ids, rx_ids}
use smpp_server.Ids.{allocate_session_id}
use smpp_server.Ids.Fresh.{allocate_session_id_fresh}
use smpp_server.Config.{Client}
use smpp_server.Smscs.{SmscConn, check_smsc_conn}
use smpp_server.Registry.{
  Esme, SessionStr, tx, rx, is_present_esme, get_session_str, destroy_session, esme_destroy,
}
use smpp_server.Registry.Valid.{
  SessionsValid, EsmeValid, RegistryValid, is_present_esme-system_id, All-is_present_esme,
  is_present_esme-append,
}
use smpp_server.Registry.Sessions.{added_tx, added_rx}
use smpp_server.Registry.Undo.{drop_if_empty-keep, esme_destroy-append}
use smpp_server.Authorise.{
  TempConn, BindPdu, Verdict, refuse, new_esme, new_tx, new_rx, next_id, add_session, bound_temp,
  replace_esme, admit, authorise_user,
}
use smpp_server.Authorise.Replace.{is_present_esme-replace_esme}
use smpp_server.Authorise.Cases.{authorise_user_cases}
use smpp_server.Authorise.Added.{
  IsBindMode, is_tx_mode, add_session-system_id, new_esme-SessionsValid,
}

-- The type of a session's thread: 1 for tx and trx, 2 for rx.
abbrev pub thread_type : ℕ → ℕ
thread_type mode = if mode == 2 then 2 else 1

module _ ⦃gw : Gwlib⦄ where
  open gw use {Octstr, octstr_same, octstr_same_iff}

  abbrev pub conn_of : SessionStr → ℕ
  conn_of (tx s) = s.conn
  conn_of (rx s) = s.conn

  esme_destroy-replace_esme :
      (id : Octstr) (mode n : ℕ) (es : List Esme) (e e' : Esme)
      → is_present_esme id es ≡ some e
      → e'.system_id ≡ id
      → destroy_session mode n e' ≡ some e
      → 0 < length e.tx_esme + length e.rx_esme
      → esme_destroy id mode n (replace_esme id e' es) ≡ some es
  unfolding esme_destroy is_present_esme replace_esme
  esme_destroy-replace_esme id mode n [] e e' a q d z = cc
  esme_destroy-replace_esme id mode n (x ∷ es) e e' a q d z = ground (
    arith,
    octstr_same_iff id x.system_id,
    octstr_same_iff x.system_id id,
    octstr_same_iff id e'.system_id,
    drop_if_empty-keep e es,
    esme_destroy-replace_esme id mode n es e e',
  )

  abbrev present_of : List Client → List SmscConn → Octstr → ℕ
  present_of trans smscs id = check_smsc_conn (some id) trans smscs

  module _ (env : Env) (trans : List Client) (present : ℕ) (pdu : BindPdu) (temp : TempConn) where
    -- The session that a thread finds after its bind is the one over its own connection, and ending
    -- it gives the account back as it was.
    added_session :
        (mode : ℕ) (e : Esme)
        → IsBindMode mode
        → SessionsValid trans e
        → let n = next_id mode e in
          let e' = add_session env mode present pdu temp e in
          ((s : SessionStr) × (get_session_str e' mode n ≡ some s) × (conn_of s ≡ temp.conn))
          × (destroy_session (thread_type mode) n e' ≡ some e)
          × (bound_temp mode n temp ≡ record temp { mode = mode; session_id = n })
    unfolding add_session next_id new_tx new_rx bound_temp
    added_session mode e b v = elim (Bool-cases (is_tx_mode mode)) [
      | inl m ↦
          let n = allocate_session_id (some (tx_ids e.tx_esme)) in
          let fresh = allocate_session_id_fresh (tx_ids e.tx_esme) v.tx_valid.0 in
          let a = added_tx mode n e (new_tx env mode present pdu temp n) m fresh.1 fresh.0 refl in
          let not_rx : (mode == 2) ≡ false = ground arith in
          rw (m, not_rx) ((_, a.0, refl), a.1, ground arith)
      | inr m ↦
          let n = allocate_session_id (some (rx_ids e.rx_esme)) in
          let fresh = allocate_session_id_fresh (rx_ids e.rx_esme) v.rx_valid.0 in
          let a = added_rx n e (new_rx env pdu temp n) fresh.1 fresh.0 refl in
          let is_rx : mode ≡ 2 = ground arith in rw is_rx ((_, a.0, refl), a.1, refl)
    ]

  -- What the server promises of a bind that is let in, at the account `id`.
  abbrev pub Served : ℕ → List Esme → TempConn → Octstr → Verdict → Type 0
  Served mode es temp id v =
      (v.temp ≡ record temp { mode = mode; session_id = v.temp.session_id })
      × ((e : Esme) × (s : SessionStr) × (v.esme ≡ some e)
          × (is_present_esme id v.esmes ≡ some e)
          × (get_session_str e v.temp.mode v.temp.session_id ≡ some s)
          × (conn_of s ≡ temp.conn))
      × (esme_destroy id (thread_type mode) v.temp.session_id v.esmes ≡ some es)

  admit-Served :
      (env : Env) (mode : ℕ) (trans : List Client) (smscs : List SmscConn) (es : List Esme)
      (temp : TempConn) (pdu : BindPdu) (id : Octstr) (t : Client) (account : Option Esme)
      → IsBindMode mode
      → RegistryValid trans es
      → is_present_esme id es ≡ account
      → Served mode es temp id
          (admit env mode (check_smsc_conn (some id) trans smscs) t pdu temp id es account)
  unfolding admit
  admit-Served env mode trans smscs es temp pdu id t none b v p =
      let present = check_smsc_conn (some id) trans smscs in
      let e = new_esme env t pdu id in
      let e' = add_session env mode present pdu temp e in
      let a =
        added_session env trans present pdu temp mode e b
          (new_esme-SessionsValid env trans present pdu temp t id) in
      let named : e'.system_id ≡ id =
        add_session-system_id env trans present pdu temp mode e ∙ unfold new_esme in refl in
      rw a.2 (
        refl,
        (
          e',
          a.0.0,
          refl,
          ground (arith, is_present_esme-append id es e' p, octstr_same_iff e'.system_id id),
          a.0.1,
          a.0.2,
        ),
        esme_destroy-append id (thread_type mode) _ es e e' p named a.1 (unfold new_esme in refl),
      )
  admit-Served env mode trans smscs es temp pdu id t (some e) b v p =
      let present = check_smsc_conn (some id) trans smscs in
      let e' = add_session env mode present pdu temp e in
      let valid = All-is_present_esme (EsmeValid trans) id es e p v.1 in
      let a = added_session env trans present pdu temp mode e b valid.0 in
      let named : e'.system_id ≡ id =
        add_session-system_id env trans present pdu temp mode e
        ∙ is_present_esme-system_id id es e p in
      rw a.2 (
        refl,
        (
          e',
          a.0.0,
          refl,
          ground (arith, is_present_esme-replace_esme id id e e' es p named, octstr_same_iff id id),
          a.0.1,
          a.0.2,
        ),
        esme_destroy-replace_esme id (thread_type mode) _ es e e' p named a.1 valid.1,
      )

  -- A bind that is let in adds one session: the account is on the list, its thread finds the session
  -- over its own connection, and ending that session gives back the list that was before the bind.
  pub authorise_user-Served :
      (env : Env) (mode : ℕ) (trans : List Client) (smscs : List SmscConn) (es : List Esme)
      (temp : TempConn) (pdu : BindPdu) (v : Verdict)
      → IsBindMode mode
      → RegistryValid trans es
      → authorise_user env mode trans smscs es temp pdu ≡ some v
      → v.code ≡ pos 0
      → (id : Octstr) × (pdu.system_id ≡ some id) × Served mode es temp id v
  authorise_user-Served env mode trans smscs es temp pdu v b valid h ok =
      elim (authorise_user_cases env mode trans smscs es temp pdu v h) [
        | inl (code, e, nz) ↦
            absurd (nz (unfold refuse in (ap (λ (w : Verdict). w.code) (sym e) ∙ ok)))
        | inr (id, t, p, f, _, e) ↦ (
          id,
          p,
          rw e (
              admit-Served env mode trans smscs es temp pdu id t (is_present_esme id es) b valid
                refl),
        )
      ]
