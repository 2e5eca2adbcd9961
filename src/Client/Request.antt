-- ===== src/Client/Request.antt =====
-- The messages of smpp-esme to smpp-smsc: `handle_request` of smpp-smsc/smpp_smsc.c.
pub mod Taken
pub mod Fits
mod Tests
use smpp_server.Prelude.{
  ℕ, zero, suc, ◌-◌, Bool, true, false, not, ◌&&◌, Option, none, some, List, [], ◌∷◌, ◌++◌, map,
  ltb, length, ◌==◌, if◌then◌else◌,
}
use smpp_server.Prelude.Int.{ℤ, pos, minus_one}
use smpp_server.Prelude.Options.{◌>>=◌}
use smpp_server.Gwlib.{Gwlib}
use smpp_server.Client.Calls.{Calls}
use smpp_server.Client.Msg.{Msg, Info, RoutingInfo, msg_create}
use smpp_server.Client.Conn.{Conn}
use smpp_server.Client.Status.{status_code}
use smpp_server.Client.Outgoing.{Outgoing}
use smpp_server.Client.Mis.{DbRow, mis_db_insert}
use smpp_server.Client.Rout.{Routed, smsc2_rout}
use smpp_server.Client.Router.{routed_of}

-- The entries behind the positions of an array.
abbrev pub blank : ℕ → List ℤ
blank zero = []
blank (suc n) = minus_one ∷ blank n

-- The bytes of a string in an array of `size` entries, which has to hold the -1 behind them.
unfoldable pub place : (size : ℕ) → List ℕ → Option (List ℤ)
place size bytes =
    if ltb (length bytes) size then some (map pos bytes ++ blank (size - length bytes)) else none

abbrev pub is_nil : List ℕ → Bool
is_nil [] = true
is_nil (b ∷ bs) = false

abbrev pub is_none : {A : Type 0} → Option A → Bool
is_none none = true
is_none (some x) = false

module _ ⦃gw : Gwlib⦄ where
  open gw use {Octstr, octstr_from_position}

  -- The fields of a submit that are used; the two strings are their bytes.
  pub record Submit : Type 0 where
    pub pdu : Option Octstr
    pub account_name : Octstr
    pub account_msg_id : Octstr
    pub req_time : Octstr
    pub ip : Octstr
    pub destination_addr : Octstr
    pub source_addr : Octstr
    pub data_coding : ℕ
    pub esm_class : ℕ
    pub more_messages_to_send : ℤ
    pub content : Octstr
    pub preferred_smsc : List ℕ
    pub allowed_smsc : List ℕ

  pub data ConnMsg : Type 0 where
    submit : Submit → ConnMsg
    admin : (command : ℕ) → (conn_id : Octstr) → ConnMsg
    other_msg : ConnMsg

  -- What the thread works on: the connections, the queue, the messages to the database box, and the
  -- id of its client. The process holds the size of an array of positions, which the header that is
  -- not in the repository gives.
  pub record Server : Type 0 where
    pub running : Bool
    pub dndcheck_flag : Bool
    pub max_smsc : ℕ
    pub smscs : List Conn
    pub outgoing : Outgoing
    pub to_dbbox : List DbRow
    pub conn_id : Option Octstr

  abbrev pub info_of : Submit → Option Octstr → Info
  info_of s pdu = record {
    pdu = pdu;
    account_name = s.account_name;
    account_msg_id = s.account_msg_id;
    req_time = s.req_time;
    client_ip = s.ip;
  }

  -- A submit that comes while the process shuts down.
  pub refuse : Calls → Submit → Server → Option Server
  refuse c s v = do
    os ← s.pdu
    pdu ← c.smpp_pdu_unpack (octstr_from_position os 4)
    let row = mis_db_insert (info_of s none) none none pdu (status_code 0x40B)
    some (record v { to_dbbox = v.to_dbbox ++ row ∷ [] })

  -- The message of a submit, with the bytes of its two strings in its arrays.
  pub message_of : (size : ℕ) → Submit → Option Octstr → Option Msg
  unfolding place
  message_of size s pdu = do
    preferred ← place size s.preferred_smsc
    allowed ← place size s.allowed_smsc
    some (
        msg_create (info_of s pdu) (record {
          preferred_smsc = preferred;
          allowed_smsc = allowed;
          source_addr = s.source_addr;
          destination_addr = s.destination_addr;
          data_coding = s.data_coding;
          esm_class = s.esm_class;
          more_messages_to_send = s.more_messages_to_send;
          content = s.content;
        }))

  pub take_submit : Calls → (fuel : ℕ) → Submit → Option Octstr → Server → Option Server
  unfolding message_of
  take_submit c fuel s pdu v = do
    m ← message_of v.max_smsc s pdu
    x ← routed_of (smsc2_rout c false fuel m v.smscs v.outgoing)
    some (record v { smscs = x.smscs; outgoing = x.outgoing })

  -- With the check of numbers, all goes to the first connection, and the PDU is not looked at.
  pub dnd_submit : Submit → Submit
  dnd_submit s = record s { preferred_smsc = 0 ∷ []; allowed_smsc = [] }

  pub handle_submit : Calls → ℕ → Submit → Server → Option Server
  unfolding take_submit dnd_submit
  handle_submit c fuel s v =
      if v.dndcheck_flag
      then take_submit c fuel (dnd_submit s) none v
      else if is_nil s.preferred_smsc && is_nil s.allowed_smsc
      then some v
      else if is_none s.pdu
      then some v
      else take_submit c fuel s s.pdu v

  unfoldable pub handle_request : Calls → ℕ → ConnMsg → Server → Option Server
  unfolding handle_submit refuse
  handle_request c fuel (submit s) v = if v.running then handle_submit c fuel s v else refuse c s v
  handle_request c fuel (admin command id) v =
      if v.running && command == 1 then some (record v { conn_id = some id }) else some v
  handle_request c fuel other_msg v = some v
