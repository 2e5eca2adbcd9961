-- ===== src/Client/Conn.antt =====
-- A connection to an SMSC: `SMSCConn` of smpp-smsc/include/smscconn_p.h with the `SMPP` of
-- smpp-smsc/smsc_smpp.c behind it, and the operations of smpp-smsc/smscconn.c. The flow mutex is
-- held through each of them.
pub mod Usable
use smpp_server.Prelude.{
  ℕ, ◌+◌, Bool, true, false, not, ◌&&◌, ◌||◌, Option, none, some, List, [], ◌∷◌, ◌++◌, ◌==◌, length,
  if◌then◌else◌,
}
use smpp_server.Prelude.Int.{ℤ}
use smpp_server.Gwlib.{Gwlib, counter_increase}
use smpp_server.Client.Calls.{Calls}
use smpp_server.Client.Msg.{Msg, MsgState, msg_duplicate}

pub data ConnStatus : Type 0 where
  smscconn_connecting smscconn_active smscconn_active_recv : ConnStatus
  smscconn_reconnecting smscconn_disconnected smscconn_dead : ConnStatus

pub data WhyKilled : Type 0 where
  smscconn_alive killed_wrong_password killed_cannot_connect killed_shutdown : WhyKilled

abbrev pub is_active : ConnStatus → Bool
is_active smscconn_active = true
is_active _ = false

abbrev pub is_dead : ConnStatus → Bool
is_dead smscconn_dead = true
is_dead _ = false

abbrev pub is_alive : WhyKilled → Bool
is_alive smscconn_alive = true
is_alive _ = false

module _ ⦃gw : Gwlib⦄ where
  open gw use {Octstr, does_prefix_match}

  -- struct smpp_msg
  pub record SentMsg : Type 0 where
    pub sent_time : ℕ
    pub msg : Msg

  -- The dictionary of sent messages is a list; its key is the sequence number, which the code
  -- prints. The configuration holds -1 for what is not set.
  pub record Smpp : Type 0 where
    pub msgs_to_send : List Msg
    pub sent_msgs : List (ℕ × SentMsg)
    pub message_id_counter : ℕ
    pub quitting : Bool
    pub throttling_err_time : ℕ
    pub service_type : Option Octstr
    pub masking_prefix : Option Octstr
    pub source_addr_ton : ℤ
    pub source_addr_npi : ℤ
    pub dest_addr_ton : ℤ
    pub dest_addr_npi : ℤ
    pub priority : ℤ
    pub alt_charset : Option Octstr
    pub max_pending_submits : ℤ
    pub enquire_link_interval : ℤ
    pub connection_timeout : ℤ
    pub wait_ack : ℤ
    pub wait_ack_action : ℤ
    pub smpp_msg_id_type : ℤ
    pub deliver_sm_source : ℤ

  pub record Conn : Type 0 where
    pub id : Octstr
    pub smsc_type : Octstr
    pub status : ConnStatus
    pub why_killed : WhyKilled
    pub load : ℕ
    pub mode : ℕ
    pub bind_sent : Bool
    pub is_stopped : Bool
    pub connect_time : ℕ
    pub received : ℕ
    pub sent : ℕ
    pub failed : ℕ
    pub allowed_prefix : Option Octstr
    pub denied_prefix : Option Octstr
    pub allowed_prefix_regex : Option Octstr
    pub denied_prefix_regex : Option Octstr
    pub smpp : Smpp

  -- `conn->p && does_prefix_match(conn->p, receiver) == 1`, for a prefix that is set
  abbrev pub matches : Option Octstr → Octstr → Bool
  matches none receiver = false
  matches (some p) receiver = does_prefix_match p receiver

  abbrev pub is_set : Option Octstr → Bool
  is_set none = false
  is_set (some p) = true

  abbrev pub regex_matches : Calls → Option Octstr → Octstr → Bool
  regex_matches c none receiver = false
  regex_matches c (some p) receiver = c.gw_regex_match_pre p receiver

  -- whether the result is 0; each test is an early return of -1
  unfoldable pub smscconn_usable : Calls → Conn → Octstr → Bool
  smscconn_usable c k receiver =
      if is_dead k.status || not (is_alive k.why_killed)
      then false
      else if is_set k.allowed_prefix
          && not (is_set k.denied_prefix)
          && not (matches k.allowed_prefix receiver)
      then false
      else if is_set k.denied_prefix
          && not (is_set k.allowed_prefix)
          && matches k.denied_prefix receiver
      then false
      else if is_set k.denied_prefix_regex
          && not (is_set k.allowed_prefix_regex)
          && regex_matches c k.denied_prefix_regex receiver
      then false
      else if is_set k.denied_prefix
          && is_set k.allowed_prefix
          && matches k.allowed_prefix receiver
          && matches k.denied_prefix receiver
      then false
      else if is_set k.denied_prefix
          && is_set k.allowed_prefix
          && not (matches k.allowed_prefix receiver)
          && matches k.denied_prefix receiver
      then false
      else if is_set k.allowed_prefix_regex
          && is_set k.denied_prefix_regex
          && not (regex_matches c k.allowed_prefix_regex receiver)
          && regex_matches c k.denied_prefix_regex receiver
      then false
      else true

  -- `queued_cb`: the load of a connection is what it has been given so far; and the length of its
  -- queue.
  unfoldable pub queued_cb : Conn → Conn × ℕ
  queued_cb k =
      if is_dead k.status
      then (k, 0)
      else (record k { load = k.received }, length k.smpp.msgs_to_send)

  -- What `smscconn_info` reads for the routing; it sets the load on its way.
  unfoldable pub smscconn_info : Conn → Conn × ConnStatus × ℕ
  unfolding queued_cb
  smscconn_info k = let k' = (queued_cb k).0 in (k', k'.status, k'.load)

  -- `send_msg_cb`: the queue of the connection takes a copy.
  unfoldable pub send_msg_cb : Msg → Conn → Conn
  send_msg_cb m k = record k {
    smpp = record (k.smpp) { msgs_to_send = k.smpp.msgs_to_send ++ msg_duplicate m ∷ [] };
    received = counter_increase k.received;
  }

  -- `none` is the result -1.
  unfoldable pub smscconn_send : Msg → Conn → Option Conn
  unfolding send_msg_cb
  smscconn_send m k =
      if is_dead k.status || not (is_alive k.why_killed) then none else some (send_msg_cb m k)

  unfoldable pub smscconn_start : Conn → Conn
  smscconn_start k =
      if is_dead k.status || not k.is_stopped then k else record k { is_stopped = false }

  -- the connection, and whether the result is 0
  unfoldable pub smscconn_stop : Conn → Conn × Bool
  smscconn_stop k =
      if is_dead k.status || k.is_stopped || not (is_alive k.why_killed)
      then (k, false)
      else (record k { is_stopped = true }, true)
