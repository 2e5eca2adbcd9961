-- ===== src/Config/Parse.antt =====
-- `create_onetrans` of smpp-esme/config.c: an account from its configuration group.
use smpp_server.Prelude.{
  refl, ap, ◌∙◌, sym, Bool-cases, ℕ, ◌≡◌, inl, inr, Bool, true, false, ◌&&◌, not, Option, none,
  some, List, if◌then◌else◌,
}
use smpp_server.Prelude.Int.{ℤ, pos, minus_one}
use smpp_server.Prelude.Options.{some_inj, bind_inv, guard_inv, ◌>>=◌, ◌>>◌, guard}
use smpp_server.Gwlib.{Gwlib}
use mathlib.Core.Path.{subst, subst₂}
use smpp_server.Config.{Client}
use Prim.Native.String.{String}

module _ ⦃gw : Gwlib⦄ where
  open gw use {Octstr, octstr_same, octstr_same_iff, octstr_imm, octstr_split}

  -- What gwlib's cfg_get, cfg_get_integer and cfg_get_bool find in the group (`none` is NULL, -1
  -- and -1), and the index under which log.c opens a log file.
  pub record CfgGroup : Type 0 where
    pub cfg_get_group_name : Option Octstr
    pub cfg_get : String → Option Octstr
    pub cfg_get_integer : String → Option ℤ
    pub cfg_get_bool : String → Option Bool
    pub log_open : Octstr → ℤ

  abbrev pub integer_or : CfgGroup → String → ℤ → ℤ
  integer_or grp key d = elim (grp.cfg_get_integer key) [ none ↦ d | some n ↦ n ]

  abbrev pub bool_or : CfgGroup → String → Bool → Bool
  bool_or grp key d = elim (grp.cfg_get_bool key) [ none ↦ d | some b ↦ b ]

  abbrev pub split_smsc : Option Octstr → Option (List Octstr)
  split_smsc none = none
  split_smsc (some s) = some (octstr_split s (octstr_imm ";"))

  abbrev pub log_index : CfgGroup → Option Octstr → ℤ
  log_index grp none = minus_one
  log_index grp (some file) = grp.log_open file

  -- "Now selecting modes": `none` is a mode that is not recognised
  select_mode : Octstr → Bool → Option ℕ
  select_mode mode rx_allowed =
      if octstr_same mode (octstr_imm "tx") && rx_allowed
      then some 4
      else if octstr_same mode (octstr_imm "tx")
      then some 1
      else if octstr_same mode (octstr_imm "rx")
      then some 2
      else if octstr_same mode (octstr_imm "txrx")
      then some 3
      else none

  -- the fields as they are read, with their defaults
  fill : CfgGroup → Octstr → Octstr → Octstr → Octstr → Bool → ℕ → Client
  fill grp account password validfrom validto rx_allowed mode =
      let rx_log_file = (if rx_allowed then grp.cfg_get "rx-log-file" else none) in
      record {
        account_name = account;
        password = password;
        validfrom = validfrom;
        validto = validto;
        log_file = grp.cfg_get "log-file";
        rx_log_file = rx_log_file;
        allowed_prefix = grp.cfg_get "account-allow-prefix";
        denied_prefix = grp.cfg_get "account-deny-prefix";
        dedicated_smsc = grp.cfg_get "dedicated-smsc";
        preferred_smsc = split_smsc (grp.cfg_get "preferred-smsc");
        log_level = integer_or grp "log-level" (pos 0);
        log_idx = log_index grp (grp.cfg_get "log-file");
        rx_log_idx = log_index grp rx_log_file;
        enquire_link_interval = integer_or grp "enquire-link-interval" (pos 30);
        max_submits_unconnect = integer_or grp "max-submits-unconnect" minus_one;
        max_submits = integer_or grp "max-submits" minus_one;
        max_tps = integer_or grp "max-tps" minus_one;
        rx_allowed = rx_allowed;
        allowed_mode = mode;
        dnds_check = integer_or grp "dnd-check" (pos 0);
        max_tx_sessions = integer_or grp "max-tx-sessions" minus_one;
        max_rx_sessions = integer_or grp "max-rx-sessions" minus_one;
        valid_time_from = integer_or grp "valid_time_from" minus_one;
        valid_time_to = integer_or grp "valid_time_to" minus_one;
      }

  -- `none` is NULL: the group names no account that can be served.
  unfoldable pub create_onetrans : CfgGroup → Option Client
  unfolding select_mode fill
  create_onetrans grp = do
    name ← grp.cfg_get_group_name
    guard (octstr_same name (octstr_imm "smpp-client"))
    let rx_allowed = bool_or grp "rx-allowed" false
    account ← grp.cfg_get "account-name"
    password ← grp.cfg_get "password"
    mode ← grp.cfg_get "mode"
    validfrom ← grp.cfg_get "validfrom"
    validto ← grp.cfg_get "validto"
    guard (not (rx_allowed && not (octstr_same mode (octstr_imm "tx"))))
    allowed ← select_mode mode rx_allowed
    some (fill grp account password validfrom validto rx_allowed allowed)

  -- The modes of a group: the name, whether rx is allowed, and the mode of the account.
  pub data ModeOf : Octstr → Bool → ℕ → Type 0 where
    sends : ModeOf (octstr_imm "tx") false 1
    receives : ModeOf (octstr_imm "rx") false 2
    both : ModeOf (octstr_imm "txrx") false 3
    sends_or_receives : ModeOf (octstr_imm "tx") true 4

  same-imm : (x : Octstr) (t : String) → octstr_same x (octstr_imm t) ≡ true → x ≡ octstr_imm t
  same-imm x t h = (octstr_same_iff x (octstr_imm t)).0 h

  select_mode-ModeOf :
      (mode : Octstr) (rx : Bool) (n : ℕ)
      → (rx && not (octstr_same mode (octstr_imm "tx"))) ≡ false
      → select_mode mode rx ≡ some n
      → ModeOf mode rx n
  unfolding select_mode
  select_mode-ModeOf mode true n ok h = elim (Bool-cases (octstr_same mode (octstr_imm "tx"))) [
    | inl t ↦
        let e : 4 ≡ n = some_inj (rw (select_mode, t) at h) in
        subst₂ (λ m k. ModeOf m true k) (sym (same-imm mode "tx" t)) e sends_or_receives
    | inr f ↦ let q = rw f at ok in cc
  ]
  select_mode-ModeOf mode false n ok h = elim (Bool-cases (octstr_same mode (octstr_imm "tx"))) [
    | inl t ↦
        let e : 1 ≡ n = some_inj (rw (select_mode, t) at h) in
        subst₂ (λ m k. ModeOf m false k) (sym (same-imm mode "tx" t)) e sends
    | inr f ↦ elim (Bool-cases (octstr_same mode (octstr_imm "rx"))) [
      | inl r ↦
          let e : 2 ≡ n = some_inj (rw (select_mode, f, r) at h) in
          subst₂ (λ m k. ModeOf m false k) (sym (same-imm mode "rx" r)) e receives
      | inr g ↦ elim (Bool-cases (octstr_same mode (octstr_imm "txrx"))) [
        | inl b ↦
            let e : 3 ≡ n = some_inj (rw (select_mode, f, g, b) at h) in
            subst₂ (λ m k. ModeOf m false k) (sym (same-imm mode "txrx" b)) e both
        | inr k ↦ let q = rw (select_mode, f, g, k) at h in cc
      ]
    ]
  ]

  not-true : (b : Bool) → not b ≡ true → b ≡ false
  not-true true h = cc
  not-true false h = refl

  -- An account as its group gives it: rx is allowed exactly if the group says so, and the mode is
  -- that of the name under the key and of what is allowed.
  abbrev pub FromGroup : CfgGroup → Client → Type 0
  FromGroup grp c =
      (mode : Octstr) × (grp.cfg_get "mode" ≡ some mode)
      × (c.rx_allowed ≡ bool_or grp "rx-allowed" false)
      × ModeOf mode (bool_or grp "rx-allowed" false) c.allowed_mode
      × (grp.cfg_get_group_name ≡ some (octstr_imm "smpp-client"))
      × (grp.cfg_get "account-name" ≡ some c.account_name)
      × (grp.cfg_get "password" ≡ some c.password)
      × (grp.cfg_get "validfrom" ≡ some c.validfrom)
      × (grp.cfg_get "validto" ≡ some c.validto)

  -- An account that is read comes from an smpp-client group; its name, password and validity dates
  -- are the group's, rx is allowed exactly if the group's rx-allowed says so, and the mode is 1, 2 or
  -- 3 for the group's mode tx, rx or txrx without rx-allowed, and 4 for tx with it.
  pub create_onetrans_sound :
      (grp : CfgGroup) (c : Client) → create_onetrans grp ≡ some c → FromGroup grp c
  unfolding create_onetrans
  create_onetrans_sound grp c h =
      let rx = bool_or grp "rx-allowed" false in
      let (name, has_name, h1) = bind_inv grp.cfg_get_group_name _ h in
      let (same, h2) = guard_inv (octstr_same name (octstr_imm "smpp-client")) _ h1 in
      let (account, has_account, h3) = bind_inv (grp.cfg_get "account-name") _ h2 in
      let (password, has_password, h4) = bind_inv (grp.cfg_get "password") _ h3 in
      let (mode, has_mode, h5) = bind_inv (grp.cfg_get "mode") _ h4 in
      let (from, has_from, h6) = bind_inv (grp.cfg_get "validfrom") _ h5 in
      let (to, has_to, h7) = bind_inv (grp.cfg_get "validto") _ h6 in
      let (allowed, h8) = guard_inv (not (rx && not (octstr_same mode (octstr_imm "tx")))) _ h7 in
      let (n, selected, h9) = bind_inv (select_mode mode rx) _ h8 in
      let filled : fill grp account password from to rx n ≡ c = some_inj h9 in
      subst (FromGroup grp) filled (
        unfold fill in
        (
          mode,
          has_mode,
          refl,
          select_mode-ModeOf mode rx n
              (not-true (rx && not (octstr_same mode (octstr_imm "tx"))) allowed) selected,
          has_name ∙ ap some (same-imm name "smpp-client" same),
          has_account,
          has_password,
          has_from,
          has_to,
        ))
