-- ===== src/Submit/Accounts.antt =====
-- The books of `handle_submit_sm`: the session's counters and the rows for the database.
use smpp_server.Prelude.{
  ℕ, ◌≡◌, ◌⊎◌, inl, inr, refl, ◌∙◌, ap, not, Bool, true, false, none, some, List, [], ◌∷◌, ◌++◌,
  ◌==◌, arith, Bool-cases, Option-cases, if◌then◌else◌,
}
use smpp_server.Prelude.Int.{pos, eqz}
use smpp_server.Gwlib.{Gwlib, Env, counter_increase}
use smpp_server.Session.{TxSession}
use smpp_server.Registry.{Esme, tx}
use smpp_server.Pdu.{CommandStatus, is_ok, SubmitPdu}
use smpp_server.Messages.{
  DbMsg, send_msg_dbbox_server, SmppEsmeRow, InsertMisRow, smpp_esme, insert_mis, esme_row, mis_row,
}
use smpp_server.Submit.{
  Server, Clock, count_submit, Decision, reject, accept, decide, mis_insert, receive, conclude,
  arrived, throttle, submit_tx, handle_submit_sm, Submitted,
}
use smpp_server.Submit.Decided.{Counting, limit_submits-Counting, decide_cases}

module _ ⦃gw : Gwlib⦄ where
  open gw use {Octstr, octstr_format_id}

  -- Accepted messages are counted as sent, all others as rejected, and those go nowhere.
  abbrev pub Counted : TxSession → CommandStatus → TxSession → Type 0
  Counted s status s' =
      ((is_ok status ≡ true)
        × (s'.msg_sent ≡ counter_increase s.msg_sent)
        × (s'.msg_rejected ≡ s.msg_rejected))
      ⊎ ((is_ok status ≡ false)
          × (s'.msg_sent ≡ s.msg_sent)
          × (s'.msg_rejected ≡ counter_increase s.msg_rejected))

  abbrev pub SameSession : TxSession → TxSession → Type 0
  SameSession s s' =
      (s'.conn ≡ s.conn)
      × (s'.session_id ≡ s.session_id)
      × (s'.client_ip ≡ s.client_ip)
      × (s'.status ≡ s.status)
      × (s'.msg_received ≡ s.msg_received)
      × (s'.seq_number ≡ s.seq_number)

  Counting-SameSession :
      (s s' : TxSession)
      → Counting s s'
      → SameSession s s' × (s'.msg_sent ≡ s.msg_sent) × (s'.msg_rejected ≡ s.msg_rejected)
  unfolding count_submit
  Counting-SameSession s s' (inl e) = rw e ((refl, refl, refl, refl, refl, refl), refl, refl)
  Counting-SameSession s s' (inr e) = rw e ((refl, refl, refl, refl, refl, refl), refl, refl)

  decide-Counted :
      (sv : Server) (env : Env) (clock : Clock) (id : Octstr) (e : Esme) (s : TxSession)
      (pdu : SubmitPdu) (d : Decision)
      → decide sv env clock id e s pdu ≡ some d
      → SameSession s d.session
        × Counted s d.status d.session
        × (is_ok d.status ≡ false → d.forward ≡ none)
  unfolding reject accept
  decide-Counted sv env clock id e s pdu d h = elim (decide_cases sv env clock id e s pdu d h) [
    | inl (status, e', s', bad, k, kept, q) ↦
        let w = Counting-SameSession s s' k in
        rw q (w.0, inr (bad, w.1, ap counter_increase w.2), λ _. refl)
    | inr p ↦
        let k = limit_submits-Counting e s p.session p.below_limits in
        let w = Counting-SameSession s p.session k in
        rw (p.accepted) (w.0, inl (refl, ap counter_increase w.1, w.2), λ bad. cc)
  ]

  -- The rows for the database: one of the submit, and a second one for the MIS if it is rejected.
  abbrev pub Recorded : CommandStatus → Octstr → List DbMsg → Type 0
  Recorded status id ms =
      (row : SmppEsmeRow) × (row.submit_status ≡ status)
      × (row.account_msg_id ≡ id)
      × (((is_ok status ≡ true) × (ms ≡ smpp_esme row ∷ []))
          ⊎ ((is_ok status ≡ false)
              × ((m : InsertMisRow) × (m.submit_status ≡ status)
                  × (m.account_msg_id ≡ id)
                  × (ms ≡ smpp_esme row ∷ insert_mis m ∷ []))))

  esme_row-fields :
      (account id time ip : Octstr) (dnd : Bool) (status : CommandStatus) (pdu : SubmitPdu)
      (row : SmppEsmeRow)
      → esme_row account id time ip dnd status pdu ≡ some row
      → (row.submit_status ≡ status) × (row.account_msg_id ≡ id)
  unfolding esme_row
  esme_row-fields account id time ip dnd status pdu row h = ground arith

  pub conclude_cases :
      (sv : Server) (clock : Clock) (id : Octstr) (mode : ℕ) (pdu : SubmitPdu) (d : Decision)
      (r : Submitted)
      → conclude sv clock id mode pdu d ≡ some r
      → (row : SmppEsmeRow) × (row.submit_status ≡ d.status)
        × (row.account_msg_id ≡ id)
        × (r.command_status ≡ d.status)
        × (r.message_id ≡ id)
        × (r.session ≡ receive mode d.session)
        × (r.to_smsc ≡ d.forward)
        × (r.to_dbbox
            ≡ send_msg_dbbox_server sv.dbbox_client (smpp_esme row) ++ mis_insert sv id clock d pdu)
  unfolding conclude
  conclude_cases sv clock id mode pdu d r h =
      let time = clock.current_datetime in
      elim (Option-cases (
        esme_row d.esme.system_id id time d.session.client_ip (not (eqz sv.dndcheck_flag (pos 0)))
          d.status pdu)) [
            | inl n ↦ ground arith
            | inr (row, q) ↦
                let f =
                  esme_row-fields d.esme.system_id id time d.session.client_ip _ d.status pdu row
                    q in
                let e = rw q at h in
                (
                  row,
                  f.0,
                  f.1,
                  ground arith,
                  ground arith,
                  ground arith,
                  ground arith,
                  ground arith,
                )
          ]

  mis_insert-Recorded :
      (sv : Server) (clock : Clock) (id : Octstr) (pdu : SubmitPdu) (d : Decision)
      (row : SmppEsmeRow)
      → sv.dbbox_client ≡ true
      → row.submit_status ≡ d.status
      → row.account_msg_id ≡ id
      → Recorded d.status id
          (send_msg_dbbox_server sv.dbbox_client (smpp_esme row) ++ mis_insert sv id clock d pdu)
  unfolding mis_insert mis_row
  mis_insert-Recorded sv clock id pdu d row c f g = rw c (elim (Bool-cases (is_ok d.status)) [
    | inl ok ↦ rw ok (row, f, g, inl (refl, refl))
    | inr bad ↦ rw bad (row, f, g, inr (refl, (_, refl, refl, refl)))
  ])

  -- What a submit on a session leaves in the books.
  pub record Booked (sv : Server) (s : TxSession) (mode : ℕ) (r : Submitted) : Type 0 where
    pub conn : r.session.conn ≡ s.conn
    pub session_id : r.session.session_id ≡ s.session_id
    pub status : r.session.status ≡ s.status
    pub seq_number : r.session.seq_number ≡ s.seq_number
    pub counted : Counted s r.command_status r.session
    pub received :
        r.session.msg_received
        ≡ (if mode == 1 then counter_increase s.msg_received else s.msg_received)
    pub nowhere : is_ok r.command_status ≡ false → r.to_smsc ≡ none
    pub recorded : sv.dbbox_client ≡ true → Recorded r.command_status r.message_id r.to_dbbox

  Counted-trans :
      (s s' t : TxSession) (status status' : CommandStatus)
      → Counted s status s'
      → status' ≡ status
      → t.msg_sent ≡ s'.msg_sent
      → t.msg_rejected ≡ s'.msg_rejected
      → Counted s status' t
  Counted-trans s s' t status status' (inl (ok, a, b)) e p q = inl (rw e ok, p ∙ a, q ∙ b)
  Counted-trans s s' t status status' (inr (bad, a, b)) e p q = inr (rw e bad, p ∙ a, q ∙ b)

  receive-keeps :
      (mode : ℕ) (s : TxSession)
      → ((receive mode s).conn ≡ s.conn)
        × ((receive mode s).session_id ≡ s.session_id)
        × ((receive mode s).status ≡ s.status)
        × ((receive mode s).msg_sent ≡ s.msg_sent)
        × ((receive mode s).msg_rejected ≡ s.msg_rejected)
        × ((receive mode s).msg_received
            ≡ (if mode == 1 then counter_increase s.msg_received else s.msg_received))
        × ((receive mode s).seq_number ≡ s.seq_number)
  unfolding receive
  receive-keeps mode s = (
    ground arith,
    ground arith,
    ground arith,
    ground arith,
    ground arith,
    ground arith,
    ground arith,
  )

  pub submit_tx_cases :
      (sv : Server) (env : Env) (clock : Clock) (e : Esme) (s : TxSession) (mode : ℕ)
      (pdu : SubmitPdu) (r : Submitted)
      → submit_tx sv env clock e s mode pdu ≡ some r
      → let sv' = arrived sv clock in
        let id = octstr_format_id s.msg_received clock.timestamp sv'.counter in
        (d : Decision) × (decide sv' env clock id (throttle clock e) s pdu ≡ some d)
        × (conclude sv' clock id mode pdu d ≡ some r)
  unfolding submit_tx
  submit_tx_cases sv env clock e s mode pdu r h =
      let sv' = arrived sv clock in
      let id = octstr_format_id s.msg_received clock.timestamp sv'.counter in
      elim (Option-cases (decide sv' env clock id (throttle clock e) s pdu)) [
        | inl n ↦ ground arith
        | inr (d, q) ↦ (d, q, ground arith)
      ]

  -- Every submit that is answered moves exactly one of the counters of sent and of rejected
  -- messages, and the former exactly if it is accepted; a transmitter's counts one more as received.
  -- A rejected message goes to no SMSC. The database, if connected, gets one row with the response's
  -- status and message id, and a second one exactly if the message is rejected.
  pub handle_submit_sm-Booked :
      (sv : Server) (env : Env) (clock : Clock) (e : Esme) (s : TxSession) (mode : ℕ)
      (pdu : SubmitPdu) (r : Submitted)
      → handle_submit_sm sv env clock e (tx s) mode pdu ≡ some r
      → Booked sv s mode r
  unfolding handle_submit_sm arrived
  handle_submit_sm-Booked sv env clock e s mode pdu r h =
      let (d, dec, con) = submit_tx_cases sv env clock e s mode pdu r h in
      let sv' = arrived sv clock in
      let id = octstr_format_id s.msg_received clock.timestamp sv'.counter in
      let (same, counted, nowhere) =
        decide-Counted sv' env clock id (throttle clock e) s pdu d dec in
      let (row, f, g, st, mid, ses, fwd, db) = conclude_cases sv' clock id mode pdu d r con in
      let k = receive-keeps mode d.session in
      record {
        conn = ap (λ (t : TxSession). t.conn) ses ∙ k.0 ∙ same.0;
        session_id = ap (λ (t : TxSession). t.session_id) ses ∙ k.1 ∙ same.1;
        status = ap (λ (t : TxSession). t.status) ses ∙ k.2 ∙ same.3;
        seq_number = ap (λ (t : TxSession). t.seq_number) ses ∙ k.6 ∙ same.5;
        counted =
            Counted-trans s d.session r.session d.status r.command_status counted st
              (ap (λ (t : TxSession). t.msg_sent) ses ∙ k.3)
              (ap (λ (t : TxSession). t.msg_rejected) ses ∙ k.4);
        received =
            ap (λ (t : TxSession). t.msg_received) ses
            ∙ k.5
            ∙ ap (λ n. if mode == 1 then counter_increase n else n) same.4;
        nowhere = λ bad. let bad' = rw st at bad in fwd ∙ nowhere bad';
        recorded =
            λ c. let w = mis_insert-Recorded sv' clock id pdu d row c f g in rw (st, mid, db) w;
      }
