-- ===== src/Client/Status.antt =====
-- The command statuses that smpp-smsc tells apart, by their names in gwlib/smpp_pdu.h, and what
-- they mean for a message: `smpp_status_to_smscconn_failure_reason` and
-- `smscconn_failure_reason_to_smpp_status` of smpp-smsc/smsc_smpp.c.
use smpp_server.Prelude.{ℕ, Bool, true, false}

pub data Status : Type 0 where
  -- SMPP_ESME_ROK, which is 0
  rok : Status
  rmsgqful rthrottled rx_t_appn rx_r_appn rsyserr rinvsysid rinvpaswd rinvcmdid : Status
  status_code : ℕ → Status

pub data Reason : Type 0 where
  smscconn_success failed_shutdown failed_rejected failed_malformed : Reason
  failed_temporarily failed_discarded failed_qfull : Reason

abbrev pub is_rok : Status → Bool
is_rok rok = true
is_rok _ = false

abbrev pub is_throttled : Status → Bool
is_throttled rthrottled = true
is_throttled _ = false

-- the login was wrong
abbrev pub is_wrong_login : Status → Bool
is_wrong_login rinvsysid = true
is_wrong_login rinvpaswd = true
is_wrong_login _ = false

unfoldable pub smpp_status_to_smscconn_failure_reason : Status → Reason
smpp_status_to_smscconn_failure_reason rmsgqful = failed_temporarily
smpp_status_to_smscconn_failure_reason rthrottled = failed_temporarily
smpp_status_to_smscconn_failure_reason rx_t_appn = failed_temporarily
smpp_status_to_smscconn_failure_reason rsyserr = failed_temporarily
smpp_status_to_smscconn_failure_reason _ = failed_rejected

unfoldable pub smscconn_failure_reason_to_smpp_status : Reason → Status
smscconn_failure_reason_to_smpp_status failed_rejected = rx_r_appn
smscconn_failure_reason_to_smpp_status smscconn_success = rok
smscconn_failure_reason_to_smpp_status _ = rx_t_appn
