-- ===== src/Smscs.antt =====
-- The list of upstream SMSCs that smpp-esme/esme.c keeps: `SMSC_Conn_List` and its operations.
pub mod Laws
mod Tests
use smpp_server.Prelude.{
  ℕ, zero, suc, Bool, true, false, ◌&&◌, ◌||◌, Option, none, some, List, [], ◌∷◌, ◌++◌, ◌+◌, ◌==◌,
  length, if◌then◌else◌,
}
use smpp_server.Gwlib.{Gwlib}
use smpp_server.Config.{Client, find_username}

module _ ⦃gw : Gwlib⦄ where
  open gw use {Octstr, octstr_same}

  -- struct smsc_conn_list; conn_mode is 1 for tx, 2 for rx and 3 for trx
  pub record SmscConn : Type 0 where
    pub smsc_id : Octstr
    pub smsc_type : Octstr
    pub conn_status : ℕ
    pub conn_mode : ℕ

  -- the info_smsc message of the SMSC process
  pub record InfoSmsc : Type 0 where
    pub smsc_id : Octstr
    pub smsc_type : Octstr
    pub conn_status : ℕ
    pub conn_mode : ℕ

  smsc_conn_create : Octstr → ℕ → Octstr → ℕ → SmscConn
  smsc_conn_create id status type mode = record {
    smsc_id = id;
    smsc_type = type;
    conn_status = status;
    conn_mode = mode;
  }

  -- appends the smsc of the message
  unfoldable pub prepare_smsc_list : InfoSmsc → List SmscConn → List SmscConn
  unfolding smsc_conn_create
  prepare_smsc_list m smscs =
      smscs ++ smsc_conn_create m.smsc_id m.conn_status m.smsc_type m.conn_mode ∷ []

  -- sets the status of the first smsc with the id of the message
  unfoldable pub update_smsc_list : InfoSmsc → List SmscConn → List SmscConn
  update_smsc_list m [] = []
  update_smsc_list m (c ∷ cs) =
      if octstr_same m.smsc_id c.smsc_id
      then record c { conn_status = m.conn_status } ∷ cs
      else c ∷ update_smsc_list m cs

  -- messages can be sent through it: tx or trx
  abbrev pub is_sender : SmscConn → Bool
  is_sender c = c.conn_mode == 1 || c.conn_mode == 3

  -- the loop of `is_smsc_present`, with return_result
  presence_from : ℕ → List SmscConn → ℕ
  presence_from r [] = r
  presence_from r (c ∷ cs) =
      let connected = is_sender c && c.conn_status == 1 in
      let rest = presence_from (if is_sender c then 1 else r) cs in if connected then 2 else rest

  unfoldable pub is_smsc_present : List SmscConn → ℕ
  unfolding presence_from
  is_smsc_present smscs = presence_from 0 smscs

  unfoldable pub smsc_conn_status : Octstr → List SmscConn → ℕ
  smsc_conn_status id [] = 0
  smsc_conn_status id (c ∷ cs) =
      if octstr_same id c.smsc_id then c.conn_status else smsc_conn_status id cs

  after_lookup : Option Client → List SmscConn → ℕ
  after_lookup none smscs = 0
  after_lookup (some t) smscs = is_smsc_present smscs

  unfoldable pub check_smsc_conn : Option Octstr → List Client → List SmscConn → ℕ
  unfolding after_lookup
  check_smsc_conn none trans smscs = 0
  check_smsc_conn (some username) trans smscs = after_lookup (find_username trans username) smscs

  unfoldable pub smsc_list_len : List SmscConn → ℕ
  smsc_list_len smscs = length smscs

  connected_from : ℕ → List SmscConn → ℕ
  connected_from n [] = n
  connected_from n (c ∷ cs) = connected_from (if c.conn_status == 1 then n + 1 else n) cs

  unfoldable pub connected_smsc_list_len : List SmscConn → ℕ
  unfolding connected_from
  connected_smsc_list_len smscs = connected_from 0 smscs
