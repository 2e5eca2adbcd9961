-- ===== src/Dispatch.antt =====
-- `handle_pdu` and `handle_pdu_bind` of smpp-esme/smpp_esme.c, with the tables of handlers and the
-- small handlers in them.
pub mod Replies
pub mod Shape
pub mod Counter
mod Tests
use smpp_server.Prelude.{
  ℕ, Bool, true, false, Option, none, some, List, [], ◌∷◌, ◌==◌, if◌then◌else◌,
}
use smpp_server.Prelude.Options.{◌>>=◌}
use smpp_server.Gwlib.{Gwlib, Env}
use smpp_server.Session.{TxSession, RxSession, esme_unconnected}
use smpp_server.Registry.{Esme, SessionStr, tx, rx}
use smpp_server.Authorise.{TempConn, BindPdu}
use smpp_server.Pdu.{
  CommandStatus, rok, rinvcmdid, rcancelfail, rreplacefail, rqueryfail, SubmitPdu,
}
use smpp_server.Bind.{
  BindServer, Bound, handle_bind_transmitter, handle_bind_receiver, handle_bind_transceiver,
}
use smpp_server.Submit.{Server, Clock, Submitted, handle_submit_sm, put_tx}
use smpp_server.Messages.{SubmitMsg, DbMsg}

module _ ⦃gw : Gwlib⦄ where
  open gw use {Octstr}

  -- A PDU with the fields that its handler reads, or its sequence number; `other` is any type that
  -- has no handler.
  pub data Pdu : Type 0 where
    bind_transmitter bind_receiver bind_transceiver : BindPdu → Pdu
    submit_sm : SubmitPdu → Pdu
    generic_nack enquire_link enquire_link_resp deliver_sm_resp unbind unbind_resp : ℕ → Pdu
    cancel_sm replace_sm query_sm other : ℕ → Pdu

  -- A PDU that the server writes, with its sequence number.
  pub data Reply : Type 0 where
    bind_resp : Bound → Reply
    submit_sm_resp : CommandStatus → Octstr → ℕ → Reply
    enquire_link_resp unbind_resp : ℕ → Reply
    cancel_sm_resp replace_sm_resp query_sm_resp generic_nack : CommandStatus → ℕ → Reply

  pub sequence_of : Pdu → ℕ
  sequence_of (Pdu.bind_transmitter p) = p.sequence_number
  sequence_of (Pdu.bind_receiver p) = p.sequence_number
  sequence_of (Pdu.bind_transceiver p) = p.sequence_number
  sequence_of (Pdu.submit_sm p) = p.sequence_number
  sequence_of (Pdu.generic_nack n) = n
  sequence_of (Pdu.enquire_link n) = n
  sequence_of (Pdu.enquire_link_resp n) = n
  sequence_of (Pdu.deliver_sm_resp n) = n
  sequence_of (Pdu.unbind n) = n
  sequence_of (Pdu.unbind_resp n) = n
  sequence_of (Pdu.cancel_sm n) = n
  sequence_of (Pdu.replace_sm n) = n
  sequence_of (Pdu.query_sm n) = n
  sequence_of (Pdu.other n) = n

  -- The account and the session of a thread, the globals, and what is written: to the session's
  -- connection, to the SMSC process and to the database box.
  pub record Thread : Type 0 where
    pub server : Server
    pub esme : Esme
    pub session : SessionStr
    pub written : List Reply
    pub to_smsc : Option SubmitMsg
    pub to_dbbox : List DbMsg

  pub put_rx : RxSession → List RxSession → List RxSession
  put_rx s [] = []
  put_rx s (x ∷ xs) = if x.session_id == s.session_id then s ∷ xs else x ∷ put_rx s xs

  -- The account after a write through the pointer to its session.
  pub put_session : SessionStr → Esme → Esme
  unfolding put_rx
  put_session (tx s) e = record e { tx_esme = put_tx s e.tx_esme }
  put_session (rx s) e = record e { rx_esme = put_rx s e.rx_esme }

  pub handle_unbind : SessionStr → SessionStr
  handle_unbind (tx s) = tx (record s { status = esme_unconnected })
  handle_unbind (rx s) = rx (record s { status = esme_unconnected })

  pub handle_unbind_resp : SessionStr → SessionStr
  handle_unbind_resp (tx s) = tx (record s { quit = true })
  handle_unbind_resp (rx s) = rx (record s { quit = true })

  -- A handler that changes the session at most.
  pub quiet : Server → Esme → SessionStr → List Reply → Thread
  quiet sv e s written = record {
    server = sv;
    esme = put_session s e;
    session = s;
    written = written;
    to_smsc = none;
    to_dbbox = [];
  }

  -- The type of a thread, which it passes as `mode`: 1 for tx and trx, 2 for rx.
  pub mode_of : SessionStr → ℕ
  mode_of (tx s) = 1
  mode_of (rx s) = 2

  pub submitted : SubmitPdu → Submitted → Thread
  submitted p r = record {
    server = r.server;
    esme = r.esme;
    session = tx r.session;
    written = submit_sm_resp r.command_status r.message_id p.sequence_number ∷ [];
    to_smsc = r.to_smsc;
    to_dbbox = r.to_dbbox;
  }

  -- The table of handlers; a type without one is answered with a generic nack. `none` is undefined
  -- behaviour of `handle_submit_sm`.
  unfoldable pub handle_pdu : Server → Env → Clock → Esme → SessionStr → Pdu → Option Thread
  unfolding mode_of submitted quiet handle_unbind handle_unbind_resp
  handle_pdu sv env clock e s (Pdu.submit_sm p) =
      handle_submit_sm sv env clock e s (mode_of s) p >>= λ r. some (submitted p r)
  handle_pdu sv env clock e s (Pdu.generic_nack n) = some (quiet sv e s [])
  handle_pdu sv env clock e s (Pdu.enquire_link n) =
      some (quiet sv e s (Reply.enquire_link_resp n ∷ []))
  handle_pdu sv env clock e s (Pdu.enquire_link_resp n) = some (quiet sv e s [])
  handle_pdu sv env clock e s (Pdu.deliver_sm_resp n) = some (quiet sv e s [])
  handle_pdu sv env clock e s (Pdu.unbind n) =
      some (quiet sv e (handle_unbind s) (Reply.unbind_resp n ∷ []))
  handle_pdu sv env clock e s (Pdu.unbind_resp n) = some (quiet sv e (handle_unbind_resp s) [])
  handle_pdu sv env clock e s (Pdu.cancel_sm n) =
      some (quiet sv e s (cancel_sm_resp rcancelfail n ∷ []))
  handle_pdu sv env clock e s (Pdu.replace_sm n) =
      some (quiet sv e s (replace_sm_resp rreplacefail n ∷ []))
  handle_pdu sv env clock e s (Pdu.query_sm n) =
      some (quiet sv e s (query_sm_resp rqueryfail n ∷ []))
  handle_pdu sv env clock e s (Pdu.bind_transmitter p) =
      some (quiet sv e s (Reply.generic_nack rinvcmdid p.sequence_number ∷ []))
  handle_pdu sv env clock e s (Pdu.bind_receiver p) =
      some (quiet sv e s (Reply.generic_nack rinvcmdid p.sequence_number ∷ []))
  handle_pdu sv env clock e s (Pdu.bind_transceiver p) =
      some (quiet sv e s (Reply.generic_nack rinvcmdid p.sequence_number ∷ []))
  handle_pdu sv env clock e s (Pdu.other n) =
      some (quiet sv e s (Reply.generic_nack rinvcmdid n ∷ []))

  -- What a connection's first PDU leads to: the account that is returned, the accounts, the
  -- connection, and what is written to it.
  pub record FirstPdu : Type 0 where
    pub esme : Option Esme
    pub esmes : List Esme
    pub temp : TempConn
    pub written : List Reply

  pub bound_reply : Option Bound → Option FirstPdu
  bound_reply none = none
  bound_reply (some r) =
      some (record { esme = r.esme; esmes = r.esmes; temp = r.temp; written = bind_resp r ∷ [] })

  pub nack : BindServer → TempConn → ℕ → FirstPdu
  nack sv temp n = record {
    esme = none;
    esmes = sv.esmes;
    temp = temp;
    written = Reply.generic_nack rinvcmdid n ∷ [];
  }

  unfoldable pub handle_pdu_bind : BindServer → Env → TempConn → Pdu → Option FirstPdu
  unfolding bound_reply nack sequence_of
  handle_pdu_bind sv env temp (Pdu.bind_transmitter p) =
      bound_reply (handle_bind_transmitter sv env temp p)
  handle_pdu_bind sv env temp (Pdu.bind_receiver p) =
      bound_reply (handle_bind_receiver sv env temp p)
  handle_pdu_bind sv env temp (Pdu.bind_transceiver p) =
      bound_reply (handle_bind_transceiver sv env temp p)
  handle_pdu_bind sv env temp pdu = some (nack sv temp (sequence_of pdu))
