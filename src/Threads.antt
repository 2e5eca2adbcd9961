-- ===== src/Threads.antt =====
-- The thread of a session: `send_enquire_link`, `send_unbind` and the loop of
-- `receive_smpp_thread` of smpp-esme/smpp_esme.c.
pub mod Reading
pub mod Chain
pub mod Numbers
mod Tests
use smpp_server.Prelude.{
  ℕ, suc, ◌+◌, Bool, true, false, not, ◌&&◌, ◌||◌, Option, none, some, List, [], ◌∷◌, ◌++◌, map,
  ltb, if◌then◌else◌,
}
use smpp_server.Prelude.Int.{ℤ, pos, negsuc, minus_one, eqz}
use smpp_server.Prelude.Options.{◌>>=◌}
use smpp_server.Gwlib.{Gwlib, Env, counter_increase}
use smpp_server.Session.{
  TxSession, RxSession, Deliver, Status, esme_unconnected, esme_binded, esme_disconnect,
  esme_send_unbind, esme_smsc_unconnected,
}
use smpp_server.Registry.{Esme, SessionStr, tx, rx}
use smpp_server.Messages.{SubmitMsg, DbMsg}
use smpp_server.Submit.{Server, Clock}
use smpp_server.Dispatch.{Pdu, Reply, Thread, handle_pdu}
use smpp_server.Delivery.{
  OutPdu, Texts, seq_number, next_number, data_to_write, with_data, write_esme_conn,
}
use smpp_server.Threads.Reading.{Net, ReadPdu, failed, nothing, got, read_pdu}

abbrev pub is_online : Status → Bool
is_online esme_binded = true
is_online esme_smsc_unconnected = true
is_online _ = false

abbrev pub is_told_to_leave : Status → Bool
is_told_to_leave esme_disconnect = true
is_told_to_leave esme_send_unbind = true
is_told_to_leave _ = false

abbrev pub is_unconnected : Status → Bool
is_unconnected esme_unconnected = true
is_unconnected _ = false

-- `now - last < interval`
pub too_early : ℕ → ℕ → ℤ → Bool
too_early now last (pos i) = ltb now (last + i)
too_early now last (negsuc i) = ltb (now + suc i) last

module _ ⦃gw : Gwlib⦄ where
  pub data Out : Type 0 where
    reply : Reply → Out
    enquire_link unbind : (sequence_number : ℕ) → Out
    delivered : OutPdu → Out

  -- What the thread keeps, and what it has written.
  pub record Loop : Type 0 where
    pub session : SessionStr
    pub last_enquire_sent : ℕ
    pub len : ℤ
    pub written : List Out
    pub to_smsc : List SubmitMsg
    pub to_dbbox : List DbMsg

  -- What other threads have done by the time that this one goes on: the account and the globals as
  -- they are, a status that was set, and deliveries that were put into the session's queue.
  pub record Others : Type 0 where
    pub server : Server
    pub esme : Esme
    pub set_status : Option Status
    pub arrivals : List Deliver

  pub status_of : SessionStr → Status
  status_of (tx s) = s.status
  status_of (rx s) = s.status

  pub is_quit : SessionStr → Bool
  is_quit (tx s) = s.quit
  is_quit (rx s) = s.quit

  pub with_status : Status → SessionStr → SessionStr
  with_status st (tx s) = tx (record s { status = st })
  with_status st (rx s) = rx (record s { status = st })

  pub set_by_others : Option Status → SessionStr → SessionStr
  unfolding with_status
  set_by_others none s = s
  set_by_others (some st) s = with_status st s

  pub meet : Others → Loop → Loop
  unfolding set_by_others data_to_write with_data
  meet o l = record l {
    session =
        set_by_others o.set_status (with_data (data_to_write l.session ++ o.arrivals) l.session);
  }

  abbrev pub write : List Out → Loop → Loop
  write out l = record l { written = l.written ++ out }

  unfoldable pub send_enquire_link : ℕ → ℤ → Loop → Loop
  unfolding too_early seq_number next_number
  send_enquire_link now interval l =
      if too_early now l.last_enquire_sent interval
      then l
      else write (enquire_link (seq_number l.session) ∷ [])
          (record l { session = next_number l.session; last_enquire_sent = now })

  unfoldable pub send_unbind : Loop → Loop
  unfolding seq_number next_number
  send_unbind l =
      write (unbind (seq_number l.session) ∷ []) (record l { session = next_number l.session })

  pub deliver_all : Texts → Loop → Loop
  unfolding write_esme_conn
  deliver_all c l =
      let r = write_esme_conn c l.session in write (map delivered r.1) (record l { session = r.0 })

  abbrev pub listed : Option SubmitMsg → List SubmitMsg
  listed none = []
  listed (some m) = m ∷ []

  -- A PDU is handled on what the other threads have left: `none` is undefined behaviour of a handler.
  pub handle_read : Others → Env → Clock → Pdu → Loop → Option Loop
  unfolding handle_pdu
  handle_read o env clock pdu l = do
    t ← handle_pdu o.server env clock o.esme l.session pdu
    some (
        write (map reply t.written) (record l {
          session = t.session;
          len = pos 0;
          to_smsc = l.to_smsc ++ listed t.to_smsc;
          to_dbbox = l.to_dbbox ++ t.to_dbbox;
        }))

  -- `if (*status == ESME_BINDED || *status == ESME_SMSC_UNCONNECTED) send_enquire_link(…)`
  pub ask_if_online : ℕ → ℤ → Loop → Loop
  unfolding send_enquire_link status_of
  ask_if_online now interval l =
      if is_online (status_of l.session) then send_enquire_link now interval l else l

  -- One call of `read_pdu` in a loop, with its surroundings.
  pub record Read : Type 0 where
    pub net : Net
    pub others : Others
    pub env : Env
    pub clock : Clock
    pub now : ℕ

  -- How the loop of reads ended.
  pub data ReadEnd : Type 0 where
    read_nothing read_failed : ReadEnd

  abbrev pub with_len : ℤ → Loop → Loop
  with_len len l = record l { len = len }

  -- The reads of a round, until one has no PDU; the list ends where nothing more has arrived.
  pub read_all : Texts → List Read → Loop → Option (Loop × ReadEnd)
  unfolding read_pdu handle_read deliver_all ask_if_online meet
  read_all c [] l = some (l, read_nothing)
  read_all c (r ∷ rs) l = elim (read_pdu l.len r.net) [
    | failed len ↦ some (with_len len l, read_failed)
    | nothing len ↦ some (with_len len l, read_nothing)
    | got pdu ↦ elim (handle_read r.others r.env r.clock pdu (meet r.others l)) [
      | none ↦ none
      | some l' ↦
          read_all c rs (ask_if_online r.now r.others.esme.enquire_link_interval (deliver_all c l'))
    ]
  ]

  -- The reads after an unbind was sent, until the peer answers it or the list, the time, ends.
  pub read_rest : List Read → Loop → Option Loop
  unfolding read_pdu handle_read meet is_quit
  read_rest [] l = some l
  read_rest (r ∷ rs) l = elim (is_quit l.session) [
    | true ↦ some l
    | false ↦ elim (read_pdu l.len r.net) [
      | failed len ↦ read_rest rs (with_len len l)
      | nothing len ↦ read_rest rs (with_len len l)
      | got pdu ↦ elim (handle_read r.others r.env r.clock pdu (meet r.others l)) [
        | none ↦ none
        | some l' ↦ read_rest rs l'
      ]
    ]
  ]

  pub record Round : Type 0 where
    pub wait_failed : Bool  -- conn_wait(…) == -1
    pub others : Others
    pub now : ℕ
    pub reads : List Read
    pub closed : Bool  -- conn_eof(…) || conn_error(…)

  -- What follows the reads; `false` is the end of the thread. A read that failed within a PDU is
  -- seen by the test of the connection.
  pub after_reads : Texts → Bool → Loop × ReadEnd → Loop × Bool
  unfolding deliver_all status_of
  after_reads c closed (l, e) =
      if is_unconnected (status_of l.session) then (l, false) else elim e [
        | read_failed ↦
            if eqz l.len minus_one || eqz l.len (pos 0) || closed
            then (l, false)
            else (deliver_all c l, true)
        | read_nothing ↦ if closed then (l, false) else (deliver_all c l, true)
      ]

  abbrev pub leaving : Option Loop → Option (Loop × Bool)
  leaving none = none
  leaving (some l) = some (l, false)

  pub going_on : Texts → Bool → Option (Loop × ReadEnd) → Option (Loop × Bool)
  unfolding after_reads
  going_on c closed none = none
  going_on c closed (some x) = some (after_reads c closed x)

  unfoldable pub round : Texts → Round → Loop → Option (Loop × Bool)
  unfolding meet status_of send_unbind read_rest ask_if_online read_all going_on
  round c r l =
      let l' = meet r.others l in
      if r.wait_failed
      then some (l', false)
      else if is_told_to_leave (status_of l'.session)
      then leaving (read_rest r.reads (send_unbind l'))
      else going_on c r.closed
          (read_all c r.reads (ask_if_online r.now r.others.esme.enquire_link_interval l'))

  -- The loop, as long as the rounds go on; the flag is false once the thread has left it.
  unfoldable pub receive_smpp_thread : Texts → List Round → Loop → Option (Loop × Bool)
  unfolding round
  receive_smpp_thread c [] l = some (l, true)
  receive_smpp_thread c (r ∷ rs) l = elim (round c r l) [
    | none ↦ none
    | some (l', on) ↦ elim on [ true ↦ receive_smpp_thread c rs l' | false ↦ some (l', false) ]
  ]
