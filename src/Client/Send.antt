-- ===== src/Client/Send.antt =====
-- The submits that a connection sends: `send_messages` of smpp-smsc/smsc_smpp.c.
pub mod Ready
pub mod Kept
pub mod Fifo
use Prim.Native.Nat.{bit_and}
use smpp_server.Prelude.{
  ℕ, zero, suc, ◌+◌, Bool, true, false, not, ◌&&◌, ◌||◌, Option, none, some, List, [], ◌∷◌, ◌++◌,
  ◌==◌, ltb, length, if◌then◌else◌,
}
use smpp_server.Prelude.Int.{ℤ, pos, negsuc, minus_one, eqz, lez}
use smpp_server.Gwlib.{Gwlib, counter_increase}
use smpp_server.Client.Calls.{Calls, SmPdu}
use smpp_server.Client.Msg.{Msg, MsgState, msg_sent_noresp}
use smpp_server.Client.Conn.{Smpp, SentMsg}

-- x + 1 and x - 1 of a `long` that stays small
unfoldable pub incz : ℤ → ℤ
incz (pos n) = pos (suc n)
incz (negsuc zero) = pos 0
incz (negsuc (suc n)) = negsuc n

unfoldable pub decz : ℤ → ℤ
decz (pos zero) = minus_one
decz (pos (suc n)) = pos n
decz (negsuc n) = negsuc (suc n)

module _ ⦃gw : Gwlib⦄ where
  open gw use {Octstr, octstr_same, octstr_len, octstr_from_position}

  -- The settings of the process that the sending reads.
  pub record Settings : Type 0 where
    pub dndcheck_flag : Bool
    pub compare_smsc_string : Option (List Octstr)

  pub listed : Octstr → List Octstr → Bool
  listed id [] = false
  listed id (x ∷ xs) = octstr_same x id || listed id xs

  -- whether the result of `compare_change_string` is 0
  pub compare_change_string : Option (List Octstr) → Octstr → Bool
  unfolding listed
  compare_change_string none id = false
  compare_change_string (some ids) id = listed id ids

  -- `if (x != -1) field = x;`
  abbrev pub override : ℤ → ℤ → ℤ
  override x field = if eqz x minus_one then field else x

  -- The source address behind the masking prefix: `none` where it stays as it is.
  pub mask_source : Calls → Option Octstr → Octstr → Option Octstr
  mask_source c none source = none
  mask_source c (some prefix) source =
      if not (c.octstr_isnum source) || ltb (octstr_len source) 10
      then some (
          c.octstr_append prefix
            (if ltb 8 (octstr_len source) then c.octstr_prefix source 8 else source))
      else none

  pub or_kept : Octstr → Option Octstr → Octstr
  or_kept x none = x
  or_kept x (some y) = y

  pub convert : Calls → Option Octstr → SmPdu → Octstr
  convert c none p = p.short_message
  convert c (some charset) p =
      if bit_and p.esm_class 0x40 == 0
      then c.charset_latin1_to_gsm p.short_message
      else c.charset_latin1_to_gsm_new p.short_message

  -- What is changed in a submit_sm before it is sent, under the sequence number.
  pub rewrite_submit : Calls → Settings → Octstr → Smpp → Msg → ℕ → SmPdu → SmPdu
  unfolding compare_change_string mask_source or_kept convert
  rewrite_submit c set id smpp m n p = record p {
    short_message = convert c smpp.alt_charset p;
    sequence_number = n;
    source_addr_ton = override smpp.source_addr_ton p.source_addr_ton;
    source_addr_npi = override smpp.source_addr_npi p.source_addr_npi;
    dest_addr_ton = override smpp.dest_addr_ton p.dest_addr_ton;
    dest_addr_npi = override smpp.dest_addr_npi p.dest_addr_npi;
    esm_class =
        (if not (bit_and p.esm_class c.esm_class_deliver_udh_indicator == 0)
            && compare_change_string set.compare_smsc_string id
          then c.esm_class_deliver_udh_indicator
          else p.esm_class);
    source_addr =
        or_kept p.source_addr (mask_source c smpp.masking_prefix m.routing_info.source_addr);
  }

  -- The PDU that is built from the routing information, for a check of numbers.
  pub dnd_pdu : Calls → Smpp → Msg → SmPdu
  dnd_pdu c smpp m = record {
    is_submit_sm = true;
    sequence_number = smpp.message_id_counter;
    service_type = smpp.service_type;
    source_addr = m.routing_info.source_addr;
    source_addr_ton = override smpp.source_addr_ton c.gsm_addr_ton_national;
    source_addr_npi = override smpp.source_addr_npi c.gsm_addr_ton_national;
    destination_addr = m.routing_info.destination_addr;
    dest_addr_ton = override smpp.dest_addr_ton c.gsm_addr_ton_national;
    dest_addr_npi = override smpp.dest_addr_npi c.gsm_addr_npi_e164;
    esm_class = m.routing_info.esm_class;
    priority_flag = smpp.priority;
    registered_delivery = 1;
    data_coding = m.routing_info.data_coding;
    more_messages_to_send = m.routing_info.more_messages_to_send;
    short_message = m.routing_info.content;
    user_response_code = c.user_response_code_created;
  }

  -- A message that is ready to be written, with the counter that is left; one with no PDU, which
  -- the loop skips; one whose PDU cannot be read, which ends the process.
  pub data Prepared : Type 0 where
    ready : (counter : ℕ) → Msg → SmPdu → Prepared
    skipped : (counter : ℕ) → Prepared
    broken : Prepared

  abbrev pub with_pdu : Msg → Octstr → Msg
  with_pdu m os = record m { sm_info = record (m.sm_info) { pdu = some os } }

  pub prepare_pdu : Calls → Settings → Octstr → Smpp → ℕ → Msg → Option Octstr → Prepared
  unfolding rewrite_submit
  prepare_pdu c set id smpp n m none = skipped n
  prepare_pdu c set id smpp n m (some os) = elim (c.smpp_pdu_unpack (octstr_from_position os 4)) [
    | none ↦ broken
    | some p ↦
        let p' = rewrite_submit c set id smpp m n p in
        if p.is_submit_sm
        then ready (counter_increase n) (with_pdu m (c.smpp_pdu_pack p')) p'
        else ready n (with_pdu m os) p
  ]

  pub prepare : Calls → Settings → Octstr → Smpp → Msg → Prepared
  unfolding prepare_pdu dnd_pdu
  prepare c set id smpp m =
      if set.dndcheck_flag
      then prepare_pdu c set id smpp (counter_increase smpp.message_id_counter) m
          (some (c.smpp_pdu_pack (dnd_pdu c smpp m)))
      else prepare_pdu c set id smpp smpp.message_id_counter m m.sm_info.pdu

  pub dict_put : ℕ → SentMsg → List (ℕ × SentMsg) → List (ℕ × SentMsg)
  dict_put n s [] = (n, s) ∷ []
  dict_put n s ((k, x) ∷ d) = if k == n then (n, s) ∷ d else (k, x) ∷ dict_put n s d

  -- A connection's queue and window, and what has been given to `conn_write`, with its results: 0,
  -- 1 if bytes are left in the buffer, or -1.
  pub record Link : Type 0 where
    pub smpp : Smpp
    pub pending_submits : ℤ
    pub written : List (SmPdu × ℤ)

  abbrev pub is_full : Link → Bool
  is_full l = lez l.smpp.max_pending_submits l.pending_submits

  pub mark_sent : Msg → Msg
  mark_sent m = record m { msg_state = msg_sent_noresp; retries = m.retries + 1 }

  -- The message is written: it is in the window if the result is 0.
  pub wrote : ℕ → ℤ → ℕ → Msg → SmPdu → Link → Link
  unfolding mark_sent dict_put incz
  wrote now w n m p l = record {
    smpp = record (l.smpp) {
      message_id_counter = n;
      sent_msgs =
          (if eqz w (pos 0)
            then dict_put p.sequence_number (record { sent_time = now; msg = mark_sent m })
                l.smpp.sent_msgs
            else l.smpp.sent_msgs);
    };
    pending_submits = (if eqz w (pos 0) then incz l.pending_submits else l.pending_submits);
    written = l.written ++ (p, w) ∷ [];
  }

  abbrev pub with_queue : List Msg → Link → Link
  with_queue ms l = record l { smpp = record (l.smpp) { msgs_to_send = ms } }

  abbrev pub with_counter : ℕ → Link → Link
  with_counter n l = record l { smpp = record (l.smpp) { message_id_counter = n } }

  -- The loop over the queue; `w k` is the result of the k-th write. `none` is a panic.
  pub send_loop : Calls → Settings → Octstr → ℕ → (ℕ → ℤ) → List Msg → Link → Option Link
  unfolding prepare wrote
  send_loop c set id now w [] l = some (with_queue [] l)
  send_loop c set id now w (m ∷ ms) l = elim (is_full l) [
    | true ↦ some (with_queue (m ∷ ms) l)
    | false ↦ elim (prepare c set id l.smpp m) [
      | broken ↦ none
      | skipped n ↦ send_loop c set id now w ms (with_counter n l)
      | ready n m' p ↦ elim (eqz (w 0) (pos 0)) [
        | true ↦ send_loop c set id now (λ k. w (suc k)) ms (wrote now (w 0) n m' p l)
        | false ↦ some (with_queue ms (wrote now (w 0) n m' p l))
      ]
    ]
  ]

  unfoldable pub send_messages : Calls → Settings → Octstr → ℕ → (ℕ → ℤ) → Link → Option Link
  unfolding send_loop
  send_messages c set id now w l =
      if eqz l.pending_submits minus_one
      then some l
      else send_loop c set id now w l.smpp.msgs_to_send l
