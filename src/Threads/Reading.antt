-- ===== src/Threads/Reading.antt =====
-- One read of a session's connection: `read_pdu` of smpp-esme/smpp_esme.c.
use smpp_server.Prelude.{Bool, Option, none, some, if◌then◌else◌}
use smpp_server.Prelude.Int.{ℤ, pos, minus_one, eqz}
use smpp_server.Gwlib.{Gwlib}
use smpp_server.Dispatch.{Pdu}

module _ ⦃gw : Gwlib⦄ where
  -- What a read finds: the result of `smpp_pdu_read_len`; that of `smpp_pdu_read_data`, with what
  -- `smpp_pdu_unpack` makes of it; and whether the connection has ended or has an error.
  pub record Net : Type 0 where
    pub read_len : ℤ
    pub read_data : Option (Option Pdu)
    pub closed : Bool

  -- The result -1, 0 or 1 with a PDU, and the length that is kept for the next call.
  pub data ReadPdu : Type 0 where
    failed : (len : ℤ) → ReadPdu
    nothing : (len : ℤ) → ReadPdu
    got : Pdu → ReadPdu

  pub read_body : ℤ → Net → ReadPdu
  read_body len n = elim (n.read_data) [
    | none ↦ if n.closed then failed len else nothing len
    | some unpacked ↦ elim unpacked [ none ↦ failed (pos 0) | some pdu ↦ got pdu ]
  ]

  unfoldable pub read_pdu : ℤ → Net → ReadPdu
  unfolding read_body
  read_pdu len n =
      if eqz len (pos 0)
      then (if eqz n.read_len minus_one
          then failed minus_one
          else if eqz n.read_len (pos 0)
          then (if n.closed then failed (pos 0) else nothing (pos 0))
          else read_body n.read_len n)
      else read_body len n
