-- ===== src/Client/Receipt.antt =====
-- Delivery receipts of an SMSC, and the ids of messages in them: `handle_deliver_sm_msgid`,
-- `get_smscid` and the reading of a deliver_sm in `handle_pdu` of smpp-smsc/smsc_smpp.c.
use Prim.Native.Nat.{bit_and}
use smpp_server.Prelude.{
  ℕ, ◌-◌, Bool, not, ◌&&◌, ◌||◌, Option, none, some, ◌==◌, ltb, if◌then◌else◌,
}
use smpp_server.Prelude.Int.{ℤ, pos, negsuc, minus_one, eqz}
use smpp_server.Prelude.Options.{◌>>=◌}
use smpp_server.Gwlib.{Gwlib}
use smpp_server.Client.Calls.{Calls}

module _ ⦃gw : Gwlib⦄ where
  open gw use {
    Octstr, octstr_same, octstr_imm, octstr_len, octstr_from_position, octstr_check_digits,
  }

  pub record DeliverSm : Type 0 where
    pub sequence_number : ℕ
    pub source_addr : Option Octstr
    pub destination_addr : Option Octstr
    pub sm_length : ℕ
    pub short_message : Octstr
    pub message_payload : Option Octstr

  -- `type & b`, for a b of one bit: -(n + 1) has the bits that n has not.
  unfoldable pub bit_set : ℤ → ℕ → Bool
  bit_set (pos n) b = not (bit_and n b == 0)
  bit_set (negsuc n) b = bit_and n b == 0

  -- The id of a message in the form that the database keeps: a bit of `smpp_msg_id_type` says that
  -- it is hexadecimal.
  unfoldable pub msg_id_of : Calls → ℤ → ℕ → Octstr → Octstr
  unfolding bit_set
  msg_id_of c type bit id =
      if eqz type minus_one
      then id
      else if bit_set type bit || not (octstr_check_digits id 0 (octstr_len id))
      then c.strtoll id 16
      else c.strtoll id 10

  -- The number of a receipt's state.
  unfoldable pub receipt_status : Octstr → ℕ
  receipt_status s =
      if octstr_same s (octstr_imm "DELIVRD")
      then 1
      else if octstr_same s (octstr_imm "EXPIRED")
      then 2
      else if octstr_same s (octstr_imm "DELETED")
      then 3
      else if octstr_same s (octstr_imm "UNDELIV")
      then 4
      else if octstr_same s (octstr_imm "ACCEPTD")
      then 5
      else if octstr_same s (octstr_imm "UNKNOWN")
      then 6
      else if octstr_same s (octstr_imm "REJECTD")
      then 7
      else 10

  unfoldable pub receipt_text : DeliverSm → Octstr
  receipt_text p = elim (p.message_payload) [
    | none ↦ p.short_message
    | some m ↦ if p.sm_length == 0 then m else p.short_message
  ]

  -- The address that the receipt is for: its last ten digits, if it is a number that long.
  unfoldable pub receipt_addr : Calls → ℤ → DeliverSm → Option Octstr
  receipt_addr c source p = do
    addr ←
        (if eqz source (pos 1)
          then p.source_addr
          else if eqz source (pos 0)
          then p.destination_addr
          else none)
    some (
        if ltb 9 (octstr_len addr) && c.octstr_isnum addr
        then octstr_from_position addr (octstr_len addr - 10)
        else addr)
