-- ===== src/Client/Msg.antt =====
-- A message on its way to an SMSC: `Msg` of smpp-smsc/include/msg.h and smpp-smsc/msg.c.
use smpp_server.Prelude.{ℕ, Option, none, List}
use smpp_server.Prelude.Int.{ℤ}
use smpp_server.Gwlib.{Gwlib}

pub data MsgState : Type 0 where
  msg_not_routed msg_not_sent msg_sent_noresp msg_sent_resp : MsgState

module _ ⦃gw : Gwlib⦄ where
  open gw use {Octstr}

  -- struct info; the strings but the PDU are set as soon as the message is created
  pub record Info : Type 0 where
    pub pdu : Option Octstr
    pub account_name : Octstr
    pub account_msg_id : Octstr
    pub req_time : Octstr
    pub client_ip : Octstr

  -- struct forward_queue_data, whose header is not in the repository: the fields that are used. The
  -- two arrays of positions end at their first -1.
  pub record RoutingInfo : Type 0 where
    pub preferred_smsc : List ℤ
    pub allowed_smsc : List ℤ
    pub source_addr : Octstr
    pub destination_addr : Octstr
    pub data_coding : ℕ
    pub esm_class : ℕ
    pub more_messages_to_send : ℤ
    pub content : Octstr

  pub record Msg : Type 0 where
    pub sm_info : Info
    pub routing_info : RoutingInfo
    pub retries : ℕ
    pub msg_state : MsgState
    pub msg_retry_time : ℕ
    pub failed_smsc_id : Option Octstr

  -- What the callers of msg_create fill in.
  unfoldable pub msg_create : Info → RoutingInfo → Msg
  msg_create info routing = record {
    sm_info = info;
    routing_info = routing;
    retries = 0;
    msg_state = msg_not_routed;
    msg_retry_time = 0;
    failed_smsc_id = none;
  }

  unfoldable pub msg_duplicate : Msg → Msg
  msg_duplicate m = record {
    sm_info = record {
      pdu = m.sm_info.pdu;
      account_name = m.sm_info.account_name;
      account_msg_id = m.sm_info.account_msg_id;
      req_time = m.sm_info.req_time;
      client_ip = m.sm_info.client_ip;
    };
    routing_info = m.routing_info;
    retries = m.retries;
    msg_state = m.msg_state;
    msg_retry_time = m.msg_retry_time;
    failed_smsc_id = m.failed_smsc_id;
  }
