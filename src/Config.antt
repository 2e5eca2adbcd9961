-- ===== src/Config.antt =====
-- smpp-esme/config.c: the accounts (`smpp-client` groups) that the configuration names.
pub mod Parse
pub mod Verify
pub mod Find
mod Tests
use smpp_server.Prelude.{
  ℕ, zero, suc, ◌+◌, ◌≡◌, Bool, true, false, not, ◌&&◌, ◌||◌, Option, none, some, List, [], ◌∷◌,
  arith, ◌==◌, if◌then◌else◌,
}
use smpp_server.Prelude.Int.{ℤ, pos, minus_one}
use smpp_server.Gwlib.{Gwlib}

-- allowed_mode: 1 for tx, 2 for rx, 3 for trx, 4 for tx and rx
module _ ⦃gw : Gwlib⦄ where
  open gw use {Octstr, octstr_same, octstr_same_iff}

  -- struct Smsc_Client; the fields that `create_onetrans` never leaves NULL are plain strings
  pub record Client : Type 0 where
    pub account_name : Octstr
    pub password : Octstr
    pub validfrom : Octstr
    pub validto : Octstr
    pub log_file : Option Octstr
    pub rx_log_file : Option Octstr
    pub allowed_prefix : Option Octstr
    pub denied_prefix : Option Octstr
    pub dedicated_smsc : Option Octstr
    pub preferred_smsc : Option (List Octstr)
    pub log_level : ℤ
    pub log_idx : ℤ
    pub rx_log_idx : ℤ
    pub enquire_link_interval : ℤ
    pub max_submits_unconnect : ℤ
    pub max_submits : ℤ
    pub max_tps : ℤ
    pub rx_allowed : Bool
    pub allowed_mode : ℕ
    pub dnds_check : ℤ
    pub max_tx_sessions : ℤ
    pub max_rx_sessions : ℤ
    pub valid_time_from : ℤ
    pub valid_time_to : ℤ

  -- The first account of that name; `none` is NULL.
  unfoldable pub find_username : List Client → Octstr → Option Client
  find_username [] name = none
  find_username (t ∷ ts) name =
      if octstr_same name t.account_name then some t else find_username ts name

  -- the loop over j of the search for two equal names, from position j on
  clash_at : ℕ → Octstr → ℕ → List Client → Bool
  clash_at i name j [] = false
  clash_at i name j (t ∷ ts) =
      (octstr_same name t.account_name && not (i == j)) || clash_at i name (j + 1) ts

  -- the loop over i, from position i on
  names_clash : ℕ → List Client → List Client → Bool
  unfolding clash_at
  names_clash i all [] = false
  names_clash i all (t ∷ ts) = clash_at i t.account_name 0 all || names_clash (i + 1) all ts

  abbrev pub from_option : Option Octstr → List Octstr → List Octstr
  from_option none xs = xs
  from_option (some x) xs = x ∷ xs

  -- the list of all dedicated smscs
  abbrev pub dedicated_list : List Client → List Octstr
  dedicated_list [] = []
  dedicated_list (t ∷ ts) = from_option t.dedicated_smsc (dedicated_list ts)

  -- `gwlist_search(list, name, octstr_item_match) != NULL`
  unfoldable pub has_name : List Octstr → Octstr → Bool
  has_name [] name = false
  has_name (x ∷ xs) name = octstr_same x name || has_name xs name

  any_shared : List Octstr → List Octstr → Bool
  unfolding has_name
  any_shared dedicated [] = false
  any_shared dedicated (p ∷ ps) = has_name dedicated p || any_shared dedicated ps

  preferred_shared : List Octstr → Option (List Octstr) → Bool
  unfolding any_shared
  preferred_shared dedicated none = false
  preferred_shared dedicated (some ps) = any_shared dedicated ps

  -- the loop over the accounts' preferred smscs
  smsc_shared : List Octstr → List Client → Bool
  unfolding preferred_shared
  smsc_shared dedicated [] = false
  smsc_shared dedicated (t ∷ ts) =
      preferred_shared dedicated t.preferred_smsc || smsc_shared dedicated ts

  -- 0 or -1
  pub verify_config_para : List Client → ℤ
  unfolding names_clash smsc_shared
  verify_config_para trans =
      if names_clash 0 trans trans
      then minus_one
      else if smsc_shared (dedicated_list trans) trans
      then minus_one
      else pos 0
