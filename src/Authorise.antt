-- ===== src/Authorise.antt =====
-- `authorise_user` of smpp-esme/esme.c: whether a bind is let in, and the session that it gets.
pub mod Replace
pub mod Cases
pub mod Codes
pub mod Added
pub mod Valid
pub mod Undo
mod Tests
use smpp_server.Prelude.{
  ℕ, zero, suc, ◌+◌, Bool, true, false, not, ◌&&◌, ◌||◌, Option, none, some, List, [], ◌∷◌, ◌++◌,
  ◌==◌, ltb, leb, length, if◌then◌else◌,
}
use smpp_server.Prelude.Int.{ℤ, pos, minus_one, eqz}
use smpp_server.Prelude.Options.{◌>>=◌}
use smpp_server.Gwlib.{
  Gwlib, Env, DateResult, valid_after_sometime, is_valid, is_not_valid, invalid_date,
}
use smpp_server.Session.{
  TxSession, RxSession, Status, esme_binded, esme_smsc_unconnected, tx_ids, rx_ids,
}
use smpp_server.Ids.{allocate_session_id}
use smpp_server.Config.{Client, find_username}
use smpp_server.Smscs.{SmscConn, check_smsc_conn}
use smpp_server.Registry.{Esme, is_present_esme}

module _ ⦃gw : Gwlib⦄ where
  open gw use {Octstr, octstr_same}

  -- TEMPCONN of smpp-esme/esme.h: a connection before its bind
  pub record TempConn : Type 0 where
    pub conn : ℕ
    pub client_ip : Octstr
    pub client_port : ℕ
    pub listen_port : ℕ
    pub bind_successful : Bool
    pub mode : ℕ
    pub session_id : ℕ

  -- The fields of a bind PDU; `none` is NULL.
  pub record BindPdu : Type 0 where
    pub sequence_number : ℕ
    pub system_id : Option Octstr
    pub password : Option Octstr
    pub system_type : Option Octstr
    pub interface_version : ℕ
    pub addr_ton : ℕ
    pub addr_npi : ℕ
    pub address_range : Option Octstr

  -- The return value, the list of accounts, the connection, and what `*esme_ptr` was set to.
  pub record Verdict : Type 0 where
    pub code : ℤ
    pub esmes : List Esme
    pub temp : TempConn
    pub esme : Option Esme

  pub refuse : ℤ → List Esme → TempConn → Verdict
  refuse code esmes temp = record { code = code; esmes = esmes; temp = temp; esme = none }

  -- A NULL password is not compared.
  pub password_differs : Option Octstr → Client → Bool
  password_differs none t = false
  password_differs (some p) t = not (octstr_same p t.password)

  pub mode_denied : ℕ → ℕ → Bool
  mode_denied mode allowed = (ltb allowed 4 && not (mode == allowed)) || (mode == 3 && allowed == 4)

  -- The session limits are compared by `==`; -1 is no limit.
  pub tx_full : Option Esme → Client → Bool
  tx_full none t = eqz t.max_tx_sessions (pos 0)
  tx_full (some e) t = eqz (pos (length e.tx_esme)) t.max_tx_sessions

  pub rx_full : Option Esme → Client → Bool
  rx_full none t = eqz t.max_rx_sessions (pos 0)
  rx_full (some e) t = eqz (pos (length e.rx_esme)) t.max_rx_sessions

  date_code : DateResult → ℤ → ℤ
  date_code valid_after_sometime rest = pos 4
  date_code is_not_valid rest = pos 5
  date_code is_valid rest = rest
  date_code invalid_date rest = rest

  -- The checks on an account that is configured, in their order; 0 lets the bind in.
  unfoldable pub check_account : Env → ℕ → Client → Option Octstr → Option Esme → ℤ
  unfolding password_differs mode_denied tx_full rx_full date_code
  check_account env mode t password present =
      let limits =
        (if (mode == 1 || mode == 3) && tx_full present t
          then pos 10
          else if mode == 2 && rx_full present t
          then pos 10
          else pos 0) in
      let dates = date_code (env.compare_date (some t.validfrom) (some t.validto)) limits in
      if password_differs password t
      then pos 2
      else if mode_denied mode t.allowed_mode
      then pos 3
      else dates

  pub has_file : Option Octstr → Bool
  has_file none = false
  has_file (some f) = true

  -- The account structure, before it has a session.
  unfoldable pub new_esme : Env → Client → BindPdu → Octstr → Esme
  unfolding has_file
  new_esme env t pdu id = record {
    system_id = id;
    password = pdu.password;
    system_type = pdu.system_type;
    address_range = pdu.address_range;
    interface_version = pdu.interface_version;
    addr_ton = pdu.addr_ton;
    addr_npi = pdu.addr_npi;
    enquire_link_interval = t.enquire_link_interval;
    allowed_prefix = t.allowed_prefix;
    denied_prefix = t.denied_prefix;
    log_file = t.log_file;
    rx_log_file = t.rx_log_file;
    log_level = (if has_file t.log_file || has_file t.rx_log_file then t.log_level else minus_one);
    log_idx = (if has_file t.log_file then t.log_idx else minus_one);
    rx_log_idx = (if has_file t.rx_log_file then some t.rx_log_idx else none);
    tx_esme = [];
    rx_esme = [];
    max_submits_unconnect = t.max_submits_unconnect;
    max_submits = t.max_submits;
    max_tps = t.max_tps;
    msg_count = 0;
    dnd_check = t.dnds_check;
    esm_time = env.now;
    valid_time_from = t.valid_time_from;
    valid_time_to = t.valid_time_to;
  }

  unfoldable pub new_tx : Env → ℕ → ℕ → BindPdu → TempConn → ℕ → TxSession
  new_tx env mode present pdu temp id = record {
    conn = temp.conn;
    msg_received = 0;
    msg_sent = 0;
    msg_rejected = 0;
    submits_unconnect = 0;
    session_id = id;
    seq_number = pdu.sequence_number;
    client_ip = temp.client_ip;
    client_port = temp.client_port;
    listen_port = temp.listen_port;
    start_time = env.now;
    status = (if present == 0 || present == 1 then esme_smsc_unconnected else esme_binded);
    quit = false;
    mode = mode;
    thread_id = env.thread_self;
    data_to_write = [];
  }

  pub new_rx : Env → BindPdu → TempConn → ℕ → RxSession
  new_rx env pdu temp id = record {
    conn = temp.conn;
    client_ip = temp.client_ip;
    client_port = temp.client_port;
    listen_port = temp.listen_port;
    data_to_write = [];
    msg_sent = 0;
    seq_number = pdu.sequence_number;
    start_time = env.now;
    thread_id = env.thread_self;
    status = esme_binded;
    quit = false;
    session_id = id;
    mode = 2;
  }

  -- The id that the new session gets.
  unfoldable pub next_id : ℕ → Esme → ℕ
  next_id mode e =
      if mode == 1 || mode == 3
      then allocate_session_id (some (tx_ids e.tx_esme))
      else allocate_session_id (some (rx_ids e.rx_esme))

  -- The new session at the end of the account's list; `present` is what `check_smsc_conn` says.
  unfoldable pub add_session : Env → ℕ → ℕ → BindPdu → TempConn → Esme → Esme
  add_session env mode present pdu temp e =
      if mode == 1 || mode == 3
      then record e {
        tx_esme = e.tx_esme ++ new_tx env mode present pdu temp (next_id mode e) ∷ [];
      }
      else if mode == 2
      then record e { rx_esme = e.rx_esme ++ new_rx env pdu temp (next_id mode e) ∷ [] }
      else e

  -- The connection learns its mode and its session id.
  pub bound_temp : ℕ → ℕ → TempConn → TempConn
  bound_temp mode id temp =
      if mode == 1 || mode == 3 || mode == 2
      then record temp { mode = mode; session_id = id }
      else temp

  -- Writes through the pointer that `is_present_esme` returned.
  pub replace_esme : Octstr → Esme → List Esme → List Esme
  replace_esme id e' [] = []
  replace_esme id e' (e ∷ es) =
      if octstr_same e.system_id id then e' ∷ es else e ∷ replace_esme id e' es

  -- The part under the write lock.
  unfoldable pub admit :
      Env → ℕ → ℕ → Client → BindPdu → TempConn → Octstr → List Esme → Option Esme → Verdict
  admit env mode present t pdu temp id esmes none =
      let fresh = new_esme env t pdu id in
      let e' = add_session env mode present pdu temp fresh in
      record {
        code = pos 0;
        esmes = esmes ++ e' ∷ [];
        temp = bound_temp mode (next_id mode fresh) temp;
        esme = some e';
      }
  admit env mode present t pdu temp id esmes (some e) =
      let e' = add_session env mode present pdu temp e in
      record {
        code = pos 0;
        esmes = replace_esme id e' esmes;
        temp = bound_temp mode (next_id mode e) temp;
        esme = some e';
      }

  pub decide_account :
      Env
      → ℕ
      → List Client
      → List SmscConn
      → List Esme
      → TempConn
      → BindPdu
      → Octstr
      → Option Client
      → Verdict
  unfolding refuse
  decide_account env mode trans smscs esmes temp pdu id none = refuse (pos 1) esmes temp
  decide_account env mode trans smscs esmes temp pdu id (some t) =
      let present = is_present_esme id esmes in
      let code = check_account env mode t pdu.password present in
      let refused = refuse code esmes temp in
      if eqz code (pos 0)
      then admit env mode (check_smsc_conn (some id) trans smscs) t pdu temp id esmes present
      else refused

  -- `none` is a failed assertion of `smpp_client_find_username`: the system id is NULL.
  unfoldable pub authorise_user :
      Env → ℕ → List Client → List SmscConn → List Esme → TempConn → BindPdu → Option Verdict
  unfolding decide_account
  authorise_user env mode trans smscs esmes temp pdu =
      if ltb 4 mode || ltb mode 1 then some (refuse minus_one esmes temp) else (do
        id ← pdu.system_id
        some (decide_account env mode trans smscs esmes temp pdu id (find_username trans id)))
