-- ===== src/Authorise/Cases.antt =====
-- The two ways in which `authorise_user` returns.
use smpp_server.Prelude.{
  ℕ, ◌≡◌, ◌≢◌, ◌⊎◌, inl, inr, refl, sym, true, false, Option, none, some, List, arith, ltb, ◌||◌,
  Bool-cases, Option-cases,
}
use smpp_server.Prelude.Int.{ℤ, pos, negsuc, eqz, minus_one}
use smpp_server.Gwlib.{Gwlib, Env}
use smpp_server.Config.{Client, find_username}
use smpp_server.Smscs.{SmscConn, check_smsc_conn}
use smpp_server.Registry.{Esme, is_present_esme}
use smpp_server.Authorise.{
  TempConn, BindPdu, Verdict, refuse, check_account, admit, decide_account, authorise_user,
}

pub eqz_sound : (a b : ℤ) → eqz a b ≡ true → a ≡ b
eqz_sound (pos a) (pos b) h = ground arith
eqz_sound (pos a) (negsuc b) h = cc
eqz_sound (negsuc a) (pos b) h = cc
eqz_sound (negsuc a) (negsuc b) h = ground arith

pub not-eqz : (a b : ℤ) → eqz a b ≡ false → a ≢ b
not-eqz (pos a) (pos b) h e = ground arith
not-eqz (pos a) (negsuc b) h e = cc
not-eqz (negsuc a) (pos b) h e = cc
not-eqz (negsuc a) (negsuc b) h e = ground arith

module _ ⦃gw : Gwlib⦄ where
  open gw use {Octstr}

  module _ (env : Env) (mode : ℕ) (trans : List Client) (smscs : List SmscConn) (es : List Esme)
      (temp : TempConn) (pdu : BindPdu) where
    -- refused, with a code other than 0
    abbrev pub Refused : Verdict → Type 0
    Refused v = (code : ℤ) × (v ≡ refuse code es temp) × (code ≢ pos 0)

    -- let in, by the account `t` of the system id
    abbrev pub Admitted : Verdict → Type 0
    Admitted v =
        (id : Octstr) × (t : Client) × (pdu.system_id ≡ some id)
        × (find_username trans id ≡ some t)
        × (check_account env mode t pdu.password (is_present_esme id es) ≡ pos 0)
        × (v
            ≡ admit env mode (check_smsc_conn (some id) trans smscs) t pdu temp id es
                (is_present_esme id es))

    decide_cases :
        (id : Octstr) (found : Option Client) (v : Verdict)
        → pdu.system_id ≡ some id
        → find_username trans id ≡ found
        → decide_account env mode trans smscs es temp pdu id found ≡ v
        → Refused v ⊎ Admitted v
    unfolding decide_account
    decide_cases id none v p f h = inl (pos 1, sym h, λ e. cc)
    decide_cases id (some t) v p f h =
        let code = check_account env mode t pdu.password (is_present_esme id es) in
        elim (Bool-cases (eqz code (pos 0))) [
          | inl z ↦ inr (id, t, p, f, eqz_sound code (pos 0) z, sym (rw z at h))
          | inr nz ↦ inl (code, sym (rw nz at h), not-eqz code (pos 0) nz)
        ]

    pub authorise_user_cases :
        (v : Verdict)
        → authorise_user env mode trans smscs es temp pdu ≡ some v
        → Refused v ⊎ Admitted v
    unfolding authorise_user
    authorise_user_cases v h = elim (Bool-cases (ltb 4 mode || ltb mode 1)) [
      | inl out ↦ inl (minus_one, ground arith, λ e. cc)
      | inr ok ↦ elim (Option-cases pdu.system_id) [
        | inl null ↦ ground arith
        | inr (id, e) ↦ decide_cases id (find_username trans id) v e refl (ground arith)
      ]
    ]
