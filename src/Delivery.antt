-- ===== src/Delivery.antt =====
-- What a session's thread writes of the deliveries that wait for it: `update_info` and
-- `write_esme_conn` of smpp-esme/esme.c.
use smpp_server.Prelude.{ℕ, Option, none, some, List, [], ◌∷◌, ◌++◌, ◌==◌, if◌then◌else◌}
use smpp_server.Gwlib.{Gwlib, counter_increase}
use smpp_server.Session.{Deliver}
use smpp_server.Registry.{SessionStr, tx, rx}

module _ ⦃gw : Gwlib⦄ where
  open gw use {Octstr, octstr_imm, octstr_len, octstr_from_position}

  pub record DeliverPdu : Type 0 where
    pub sequence_number : ℕ
    pub short_message : Octstr
    pub message_payload : Option Octstr
    pub receipted_message_id : Octstr

  pub data OutPdu : Type 0 where
    deliver_sm : DeliverPdu → OutPdu
    other_pdu : Octstr → OutPdu

  -- The fields that `sscanf` finds in the text of a receipt.
  pub record Receipt : Type 0 where
    pub sub : Octstr
    pub dlvrd : Octstr
    pub submit_date : Octstr
    pub done_date : Octstr
    pub stat : Octstr
    pub err : Octstr

  -- The calls of the C library and of the PDU codec.
  pub record Texts : Type 0 where
    pub smpp_pdu_unpack : Octstr → Option OutPdu
    pub sscanf : Octstr → Receipt
    -- `octstr_format("id:%s sub:%s …", account_msg_id, …)`, with an empty text
    pub octstr_format_receipt : Octstr → Receipt → Octstr

  -- The text of a receipt; `octstr_get_cstr` of NULL is "(null)".
  pub text_of : DeliverPdu → Octstr
  text_of p =
      if octstr_len p.short_message == 0
      then elim (p.message_payload) [ none ↦ octstr_imm "(null)" | some m ↦ m ]
      else p.short_message

  -- An empty date of submission is the other one.
  pub dated : Receipt → Receipt
  dated r = if octstr_len r.submit_date == 0 then record r { submit_date = r.done_date } else r

  unfoldable pub update_info : Texts → Octstr → DeliverPdu → DeliverPdu
  unfolding text_of dated
  update_info c account_msg_id p = record p {
    receipted_message_id = account_msg_id;
    short_message = c.octstr_format_receipt account_msg_id (dated (c.sscanf (text_of p)));
  }

  unfoldable pub seq_number : SessionStr → ℕ
  seq_number (tx s) = s.seq_number
  seq_number (rx s) = s.seq_number

  -- `counter_increase(seq_number_counter)`, whose result is the value before.
  unfoldable pub next_number : SessionStr → SessionStr
  next_number (tx s) = tx (record s { seq_number = counter_increase s.seq_number })
  next_number (rx s) = rx (record s { seq_number = counter_increase s.seq_number })

  -- A receiver counts what it has been sent.
  unfoldable pub count_sent : SessionStr → SessionStr
  count_sent (tx s) = tx s
  count_sent (rx s) = rx (record s { msg_sent = counter_increase s.msg_sent })

  unfoldable pub data_to_write : SessionStr → List Deliver
  data_to_write (tx s) = s.data_to_write
  data_to_write (rx s) = s.data_to_write

  unfoldable pub with_data : List Deliver → SessionStr → SessionStr
  with_data ds (tx s) = tx (record s { data_to_write = ds })
  with_data ds (rx s) = rx (record s { data_to_write = ds })

  -- A delivery takes a number of the session; any other PDU is written as it is.
  unfoldable pub prepare_out : Texts → Deliver → OutPdu → SessionStr → OutPdu × SessionStr
  unfolding update_info seq_number next_number
  prepare_out c d (deliver_sm p) s = (
    deliver_sm (update_info c d.account_msg_id (record p { sequence_number = seq_number s })),
    next_number s,
  )
  prepare_out c d (other_pdu os) s = (other_pdu os, s)

  -- What the thread writes, after what it has written; a PDU that cannot be unpacked is dropped.
  unfoldable pub write_loop :
      Texts → List Deliver → SessionStr → List OutPdu → SessionStr × List OutPdu
  unfolding prepare_out count_sent
  write_loop c [] s out = (s, out)
  write_loop c (d ∷ ds) s out = elim (c.smpp_pdu_unpack (octstr_from_position d.os 4)) [
    | none ↦ write_loop c ds s out
    | some p ↦ let r = prepare_out c d p s in write_loop c ds (count_sent r.1) (out ++ r.0 ∷ [])
  ]

  unfoldable pub write_esme_conn : Texts → SessionStr → SessionStr × List OutPdu
  unfolding write_loop data_to_write with_data
  write_esme_conn c s = write_loop c (data_to_write s) (with_data [] s) []
