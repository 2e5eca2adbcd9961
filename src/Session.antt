-- ===== src/Session.antt =====
-- The sessions of an account: ESME_TX and ESME_RX of smpp-esme/esme.h, and the session ids that
-- smpp-esme/esme.c hands out.
use smpp_server.Prelude.{ℕ, Bool, List, [], ◌∷◌}
use smpp_server.Gwlib.{Gwlib}

pub data Status : Type 0 where
  esme_unconnected esme_binded esme_disconnect esme_send_unbind esme_smsc_unconnected : Status

module _ ⦃gw : Gwlib⦄ where
  open gw use {Octstr}

  -- struct msg_deliver of smpp-esme/server.h: a delivery that waits for its session's thread
  pub record Deliver : Type 0 where
    pub smsc_id : Octstr
    pub smsc_msg_id : Octstr
    pub account_msg_id : Octstr
    pub os : Octstr

  -- A transmitter or transceiver session; its counters are unsigned longs.
  pub record TxSession : Type 0 where
    pub conn : ℕ
    pub msg_received : ℕ
    pub msg_sent : ℕ
    pub msg_rejected : ℕ
    pub submits_unconnect : ℕ
    pub session_id : ℕ
    pub seq_number : ℕ
    pub client_ip : Octstr
    pub client_port : ℕ
    pub listen_port : ℕ
    pub start_time : ℕ
    pub status : Status
    pub quit : Bool
    pub mode : ℕ
    pub thread_id : ℕ
    pub data_to_write : List Deliver

  pub record RxSession : Type 0 where
    pub conn : ℕ
    pub client_ip : Octstr
    pub client_port : ℕ
    pub listen_port : ℕ
    pub data_to_write : List Deliver
    pub msg_sent : ℕ
    pub seq_number : ℕ
    pub start_time : ℕ
    pub thread_id : ℕ
    pub status : Status
    pub quit : Bool
    pub session_id : ℕ
    pub mode : ℕ

  -- the loops that gather the ids of a list of sessions
  abbrev pub tx_ids : List TxSession → List ℕ
  tx_ids [] = []
  tx_ids (s ∷ ss) = s.session_id ∷ tx_ids ss

  abbrev pub rx_ids : List RxSession → List ℕ
  rx_ids [] = []
  rx_ids (s ∷ ss) = s.session_id ∷ rx_ids ss
