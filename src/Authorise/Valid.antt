-- ===== src/Authorise/Valid.antt =====
-- `authorise_user` keeps the list of accounts well formed.
use smpp_server.Prelude.{ℕ, ◌≡◌, inl, inr, refl, false, Option, none, some, List, ◌==◌, ◌&&◌}
use smpp_server.Prelude.Int.{ℤ}
use smpp_server.Gwlib.{Gwlib, Env}
use smpp_server.Config.{Client, find_username}
use smpp_server.Smscs.{SmscConn, check_smsc_conn}
use smpp_server.Registry.{Esme, is_present_esme}
use smpp_server.Registry.Valid.{RegistryValid}
use smpp_server.Authorise.{
  TempConn, BindPdu, Verdict, tx_full, rx_full, admit, authorise_user, refuse,
}
use smpp_server.Authorise.Cases.{authorise_user_cases}
use smpp_server.Authorise.Added.{
  IsBindMode, is_tx_mode, check_account-room, admit_new-RegistryValid, admit_old-RegistryValid,
}

module _ ⦃gw : Gwlib⦄ where
  open gw use {Octstr}

  refuse-RegistryValid :
      (trans : List Client) (code : ℤ) (es : List Esme) (temp : TempConn)
      → RegistryValid trans es
      → RegistryValid trans (refuse code es temp).esmes
  unfolding refuse
  refuse-RegistryValid trans code es temp v = v

  admit-RegistryValid :
      (env : Env) (mode : ℕ) (trans : List Client) (smscs : List SmscConn) (es : List Esme)
      (temp : TempConn) (pdu : BindPdu) (id : Octstr) (t : Client) (account : Option Esme)
      → IsBindMode mode
      → find_username trans id ≡ some t
      → is_present_esme id es ≡ account
      → (is_tx_mode mode && tx_full account t ≡ false) × (mode == 2 && rx_full account t ≡ false)
      → RegistryValid trans es
      → RegistryValid trans
          (admit env mode (check_smsc_conn (some id) trans smscs) t pdu temp id es account).esmes
  unfolding admit
  admit-RegistryValid env mode trans smscs es temp pdu id t none b f p room v =
      admit_new-RegistryValid env trans _ pdu temp mode t id es b f p room v
  admit-RegistryValid env mode trans smscs es temp pdu id t (some e) b f p room v =
      admit_old-RegistryValid env trans _ pdu temp mode t id es e b f p room v

  -- A bind, let in or refused, keeps the list of accounts well formed: one entry for each account,
  -- session ids that start at 1 and differ, at least one session for each account, and no more
  -- sessions than the account's configuration allows.
  pub authorise_user-RegistryValid :
      (env : Env) (mode : ℕ) (trans : List Client) (smscs : List SmscConn) (es : List Esme)
      (temp : TempConn) (pdu : BindPdu) (v : Verdict)
      → IsBindMode mode
      → RegistryValid trans es
      → authorise_user env mode trans smscs es temp pdu ≡ some v
      → RegistryValid trans v.esmes
  authorise_user-RegistryValid env mode trans smscs es temp pdu v b valid h =
      elim (authorise_user_cases env mode trans smscs es temp pdu v h) [
        | inl (code, e, _) ↦ rw e (refuse-RegistryValid trans code es temp valid)
        | inr (id, t, _, f, ok, e) ↦ rw e (
            admit-RegistryValid env mode trans smscs es temp pdu id t (is_present_esme id es) b f
              refl (check_account-room env trans 0 pdu temp mode t pdu.password _ ok) valid)
      ]
