-- ===== src/Authorise/Codes.antt =====
-- The codes with which `authorise_user` refuses a bind.
use smpp_server.Prelude.{
  ℕ, ◌≡◌, ◌≤◌, refl, Bool, true, false, ◌||◌, Option, none, some, List, arith, Bool-cases,
  Option-cases, inl, inr, ltb, if◌then◌else◌, ap, ◌∙◌,
}
use smpp_server.Prelude.Int.{ℤ, pos, eqz}
use smpp_server.Gwlib.{
  Gwlib, Env, DateResult, valid_after_sometime, is_valid, is_not_valid, invalid_date,
}
use smpp_server.Config.{Client, find_username}
use smpp_server.Smscs.{SmscConn, check_smsc_conn}
use smpp_server.Registry.{Esme, is_present_esme}
use smpp_server.Authorise.{
  TempConn, BindPdu, Verdict, refuse, date_code, check_account, admit, decide_account,
  authorise_user,
}
use smpp_server.Authorise.Cases.{authorise_user_cases}

-- 0, and the codes that refuse a bind of one of the three modes
unfoldable pub known : ℤ → Bool
known z =
    eqz z (pos 0)
    || eqz z (pos 1)
    || eqz z (pos 2)
    || eqz z (pos 3)
    || eqz z (pos 4)
    || eqz z (pos 5)
    || eqz z (pos 10)

module _ ⦃gw : Gwlib⦄ where
  open gw use {Octstr}

  known_codes :
      (known (pos 0) ≡ true)
      × (known (pos 2) ≡ true)
      × (known (pos 3) ≡ true)
      × (known (pos 10) ≡ true)
  unfolding known
  known_codes = (refl, refl, refl, refl)

  date_code-known :
      (d : DateResult) (rest : ℤ) → known rest ≡ true → known (date_code d rest) ≡ true
  unfolding date_code known
  date_code-known valid_after_sometime rest h = refl
  date_code-known is_valid rest h = h
  date_code-known is_not_valid rest h = refl
  date_code-known invalid_date rest h = h

  if_known :
      (b : Bool) (x y : ℤ) → known x ≡ true → known y ≡ true → known (if b then x else y) ≡ true
  if_known true x y h k = h
  if_known false x y h k = k

  check_account-known :
      (env : Env) (mode : ℕ) (t : Client) (password : Option Octstr) (present : Option Esme)
      → known (check_account env mode t password present) ≡ true
  unfolding check_account
  check_account-known env mode t password present =
      let (zero_, two, three, ten) = known_codes in
      if_known _ _ _ two
        (if_known _ _ _ three (date_code-known _ _ (if_known _ _ _ ten (if_known _ _ _ ten zero_))))

  refuse-known :
      (code : ℤ) (es : List Esme) (temp : TempConn)
      → known code ≡ true
      → known (refuse code es temp).code ≡ true
  unfolding refuse
  refuse-known code es temp h = h

  admit-known :
      (env : Env) (mode present : ℕ) (t : Client) (pdu : BindPdu) (temp : TempConn) (id : Octstr)
      (es : List Esme) (o : Option Esme)
      → known (admit env mode present t pdu temp id es o).code ≡ true
  unfolding admit known
  admit-known env mode present t pdu temp id es none = refl
  admit-known env mode present t pdu temp id es (some e) = refl

  decide_account-known :
      (env : Env) (mode : ℕ) (trans : List Client) (smscs : List SmscConn) (es : List Esme)
      (temp : TempConn) (pdu : BindPdu) (id : Octstr) (found : Option Client)
      → known (decide_account env mode trans smscs es temp pdu id found).code ≡ true
  unfolding decide_account
  decide_account-known env mode trans smscs es temp pdu id none =
      refuse-known (pos 1) es temp (unfold known in refl)
  decide_account-known env mode trans smscs es temp pdu id (some t) =
      let present = is_present_esme id es in
      let code = check_account env mode t pdu.password present in
      elim (Bool-cases (eqz code (pos 0))) [
        | inl z ↦
            rw z (
              admit-known env mode (check_smsc_conn (some id) trans smscs) t pdu temp id es present)
        | inr nz ↦
            rw nz (refuse-known code es temp (check_account-known env mode t pdu.password present))
      ]

  pub authorise_user-known :
      (env : Env) (mode : ℕ) (trans : List Client) (smscs : List SmscConn) (es : List Esme)
      (temp : TempConn) (pdu : BindPdu) (v : Verdict)
      → (1 ≤ mode) × (mode ≤ 3)
      → authorise_user env mode trans smscs es temp pdu ≡ some v
      → known v.code ≡ true
  unfolding authorise_user
  authorise_user-known env mode trans smscs es temp pdu v b h =
      elim (Bool-cases (ltb 4 mode || ltb mode 1)) [
        | inl out ↦ ground arith
        | inr ok ↦ elim (Option-cases pdu.system_id) [
          | inl null ↦ ground arith
          | inr (id, e) ↦
              let k =
                decide_account-known env mode trans smscs es temp pdu id (find_username trans id) in
              ground arith
        ]
      ]

  admit-code :
      (env : Env) (mode present : ℕ) (t : Client) (pdu : BindPdu) (temp : TempConn) (id : Octstr)
      (es : List Esme) (o : Option Esme)
      → (admit env mode present t pdu temp id es o).code ≡ pos 0
  unfolding admit
  admit-code env mode present t pdu temp id es none = refl
  admit-code env mode present t pdu temp id es (some e) = refl

  -- A bind that is refused leaves the list of accounts as it was.
  pub authorise_user_untouched :
      (env : Env) (mode : ℕ) (trans : List Client) (smscs : List SmscConn) (es : List Esme)
      (temp : TempConn) (pdu : BindPdu) (v : Verdict)
      → authorise_user env mode trans smscs es temp pdu ≡ some v
      → eqz v.code (pos 0) ≡ false
      → v.esmes ≡ es
  unfolding refuse
  authorise_user_untouched env mode trans smscs es temp pdu v h nz =
      elim (authorise_user_cases env mode trans smscs es temp pdu v h) [
        | inl (code, e, _) ↦ ap (λ (x : Verdict). x.esmes) e
        | inr (id, t, _, _, _, e) ↦
            let c =
              ap (λ (x : Verdict). x.code) e
              ∙ admit-code env mode (check_smsc_conn (some id) trans smscs) t pdu temp id es
                  (is_present_esme id es) in
            let d = rw c at nz in cc
      ]
