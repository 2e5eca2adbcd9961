-- ===== src/Registry.antt =====
-- The accounts that are online: ESME of smpp-esme/esme.h and the list `esme_list` of
-- smpp-esme/esme.c with its operations. The list's lock is held through each of them.
pub mod Valid
pub mod Sessions
pub mod Delete
pub mod Destroy
pub mod Shape
pub mod Undo
pub mod SmscUpdate
pub mod Extract
pub mod Unconnected
pub mod Tests
use smpp_server.Prelude.{
  ℕ, zero, suc, ◌+◌, ◌-◌, ◌%◌, ◌^◌, Bool, true, false, not, ◌&&◌, ◌||◌, Option, none, some, List,
  [], ◌∷◌, ◌==◌, ltb, leb, length, get_elem?, if◌then◌else◌,
}
use smpp_server.Prelude.Int.{ℤ, pos, negsuc, minus_one}
use smpp_server.Prelude.Options.{◌>>=◌}
use smpp_server.Gwlib.{Gwlib}
use smpp_server.Session.{TxSession, RxSession, Status, esme_binded, esme_smsc_unconnected}
use smpp_server.Config.{Client}
use smpp_server.Smscs.{SmscConn, check_smsc_conn}

module _ ⦃gw : Gwlib⦄ where
  open gw use {Octstr, octstr_same}

  -- rx_log_idx is `none` while it is not set
  pub record Esme : Type 0 where
    pub system_id : Octstr
    pub password : Option Octstr
    pub system_type : Option Octstr
    pub address_range : Option Octstr
    pub interface_version : ℕ
    pub addr_ton : ℕ
    pub addr_npi : ℕ
    pub enquire_link_interval : ℤ
    pub allowed_prefix : Option Octstr
    pub denied_prefix : Option Octstr
    pub log_file : Option Octstr
    pub rx_log_file : Option Octstr
    pub log_level : ℤ
    pub log_idx : ℤ
    pub rx_log_idx : Option ℤ
    pub tx_esme : List TxSession
    pub rx_esme : List RxSession
    pub max_submits_unconnect : ℤ
    pub max_submits : ℤ
    pub max_tps : ℤ
    pub msg_count : ℕ
    pub dnd_check : ℤ
    pub esm_time : ℕ
    pub valid_time_from : ℤ
    pub valid_time_to : ℤ

  -- The structure behind a session's thread.
  pub data SessionStr : Type 0 where
    tx : TxSession → SessionStr
    rx : RxSession → SessionStr

  unfoldable pub is_present_esme : Octstr → List Esme → Option Esme
  is_present_esme id [] = none
  is_present_esme id (e ∷ es) = if octstr_same e.system_id id then some e else is_present_esme id es

  pub find_tx : ℕ → List TxSession → Option SessionStr
  find_tx n [] = none
  find_tx n (s ∷ ss) = if s.session_id == n then some (tx s) else find_tx n ss

  pub find_rx : ℕ → List RxSession → Option SessionStr
  find_rx n [] = none
  find_rx n (s ∷ ss) = if s.session_id == n then some (rx s) else find_rx n ss

  -- `none` is NULL.
  unfoldable pub get_session_str : Esme → ℕ → ℕ → Option SessionStr
  unfolding find_tx find_rx
  get_session_str e mode n =
      if ltb n 1 || ltb mode 1 || ltb 3 mode
      then none
      else if mode == 1 || mode == 3
      then find_tx n e.tx_esme
      else if mode == 2
      then find_rx n e.rx_esme
      else none

  -- The loop that deletes the session with an id; `none` is the NULL that is read when there is
  -- no such session.
  pub delete_tx : ℕ → List TxSession → Option (List TxSession)
  delete_tx n [] = none
  delete_tx n (s ∷ ss) =
      let rest = (do r ← delete_tx n ss; some (s ∷ r)) in
      if s.session_id == n then some ss else rest

  pub delete_rx : ℕ → List RxSession → Option (List RxSession)
  delete_rx n [] = none
  delete_rx n (s ∷ ss) =
      let rest = (do r ← delete_rx n ss; some (s ∷ r)) in
      if s.session_id == n then some ss else rest

  -- The session part of `esme_destroy`.
  unfoldable pub destroy_session : ℕ → ℕ → Esme → Option Esme
  unfolding delete_tx delete_rx
  destroy_session mode n e =
      if mode == 1 && ltb 0 n
      then (do r ← delete_tx n e.tx_esme; some (record e { tx_esme = r }))
      else if mode == 2 && ltb 0 n
      then (do r ← delete_rx n e.rx_esme; some (record e { rx_esme = r }))
      else some e

  -- The account part: it goes with its last session.
  unfoldable pub drop_if_empty : Esme → List Esme → List Esme
  drop_if_empty e es = if length e.tx_esme == 0 && length e.rx_esme == 0 then es else e ∷ es

  -- Ends a session of the account `id`. The account is an element of the list, so the position
  -- that is found by its system id is its own. `none` is a read through NULL.
  unfoldable pub esme_destroy : Octstr → ℕ → ℕ → List Esme → Option (List Esme)
  esme_destroy id mode n [] = some []
  esme_destroy id mode n (e ∷ es) =
      let rest = (do r ← esme_destroy id mode n es; some (e ∷ r)) in
      if octstr_same id e.system_id
      then (do e' ← destroy_session mode n e; some (drop_if_empty e' es))
      else rest

  unfoldable pub extract_log_idx : Octstr → List Esme → ℤ
  extract_log_idx id [] = minus_one
  extract_log_idx id (e ∷ es) =
      if octstr_same e.system_id id then e.log_idx else extract_log_idx id es

  -- The loop that draws tx sessions until it meets a transceiver: rounds left, draws.
  pub draw_trx : ℕ → (ℕ → ℕ) → List TxSession → Option (SessionStr × ℕ)
  draw_trx zero rand ss = none
  draw_trx (suc rounds) rand ss =
      let rest = draw_trx rounds (λ k. rand (suc k)) ss in
      elim (get_elem? ss (rand 0 % length ss)) [
        | none ↦ rest
        | some s ↦ if s.mode == 3 then some (tx s, 3) else rest
      ]

  pub draw : (ℕ → ℕ) → Esme → Option (SessionStr × ℕ)
  unfolding draw_trx
  draw rand e =
      if ltb 0 (length e.rx_esme)
      then (do s ← get_elem? e.rx_esme (rand 0 % length e.rx_esme); some (rx s, 2))
      else draw_trx (length e.tx_esme) rand e.tx_esme

  -- A session of the account that can be sent a delivery, with its mode; `rand k` is the k-th draw
  -- of gw_rand.
  unfoldable pub extract_esme : Octstr → (ℕ → ℕ) → List Esme → Option (SessionStr × ℕ)
  unfolding draw is_present_esme
  extract_esme id rand es = do e ← is_present_esme id es; draw rand e

  -- What an `int` holds after the value is stored in it.
  abbrev pub to_int : ℕ → ℤ
  to_int n = let w = n % 2 ^ 32 in if ltb w (2 ^ 31) then pos w else negsuc (2 ^ 32 - 1 - w)

  pub submits_from : ℕ → List TxSession → ℕ
  submits_from n [] = n
  submits_from n (s ∷ ss) = submits_from ((n + s.submits_unconnect) % 2 ^ 32) ss

  -- number is an int, and so wraps
  unfoldable pub max_submits_unct_account : Esme → ℤ
  unfolding submits_from
  max_submits_unct_account e =
      if length e.tx_esme == 0 then pos 0 else to_int (submits_from 0 e.tx_esme)

  -- The status of a session when the account has no smsc, and when it has one again.
  pub no_smsc : TxSession → TxSession
  no_smsc s = record s { status = esme_smsc_unconnected }

  abbrev pub is_smsc_unconnected : Status → Bool
  is_smsc_unconnected esme_smsc_unconnected = true
  is_smsc_unconnected _ = false

  pub smsc_back : TxSession → TxSession
  smsc_back s =
      if is_smsc_unconnected s.status
      then record s { status = esme_binded; submits_unconnect = 0 }
      else s

  pub each_tx : (TxSession → TxSession) → List TxSession → List TxSession
  each_tx f [] = []
  each_tx f (s ∷ ss) = f s ∷ each_tx f ss

  pub update_one : ℕ → Esme → Esme
  update_one present e =
      if present == 0 || present == 1
      then record e { tx_esme = each_tx no_smsc e.tx_esme }
      else if present == 2
      then record e { tx_esme = each_tx smsc_back e.tx_esme }
      else e

  -- Brings the sessions' status in line with the smsc list.
  unfoldable pub update_esme_conn : List Client → List SmscConn → List Esme → List Esme
  unfolding update_one
  update_esme_conn trans smscs [] = []
  update_esme_conn trans smscs (e ∷ es) =
      update_one (check_smsc_conn (some e.system_id) trans smscs) e
      ∷ update_esme_conn trans smscs es
