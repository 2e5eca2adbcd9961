-- ===== src/Pdu.antt =====
-- The PDUs that smpp-esme handles, with the fields that it reads, and the command statuses.
-- gwlib/smpp_pdu.h, which declares both, is not in the repository: a status is its symbolic name,
-- or the number where the code writes one. A field that may be NULL is an `Option`.
use smpp_server.Prelude.{ℕ, Bool, true, false, Option}
use smpp_server.Prelude.Int.{ℤ}
use smpp_server.Gwlib.{Gwlib}

pub data CommandStatus : Type 0 where
  -- SMPP_ESME_ROK, which is 0
  rok : CommandStatus
  rinvcmdid rbindfail rinvsysid rinvpaswd ralynbd rinvexpiry rinvmsgid rinvprtflg : CommandStatus
  rinvsrcadr rinvdstadr rinvsrcton rinvsrcnpi rinvdstton rinvdstnpi rinvsubrep : CommandStatus
  rmsgqful rcancelfail rreplacefail rqueryfail rsubmitfail : CommandStatus
  server_status : ℕ → CommandStatus

abbrev pub is_ok : CommandStatus → Bool
is_ok rok = true
is_ok _ = false

module _ ⦃gw : Gwlib⦄ where
  open gw use {Octstr}

  pub record SubmitPdu : Type 0 where
    pub sequence_number : ℕ
    pub source_addr : Option Octstr
    pub source_addr_ton : ℤ
    pub source_addr_npi : ℤ
    pub destination_addr : Option Octstr
    pub dest_addr_ton : ℤ
    pub dest_addr_npi : ℤ
    pub esm_class : ℕ
    pub priority_flag : ℤ
    pub replace_if_present_flag : ℤ
    pub data_coding : ℕ
    pub short_message : Option Octstr
    pub more_messages_to_send : ℤ
    pub user_response_code : ℤ
