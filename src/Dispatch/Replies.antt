-- ===== src/Dispatch/Replies.antt =====
-- What the server writes for a PDU.
use smpp_server.Prelude.{
  ◌⊎◌, Bool-cases, ℕ, ◌≡◌, refl, Bool, true, false, Option, none, some, List, [], ◌∷◌, Option-cases,
  inl, inr, sym, ◌∙◌, ap,
}
use mathlib.Core.Path.{subst}
use smpp_server.Prelude.Options.{some_inj}
use smpp_server.Gwlib.{Gwlib, Env}
use smpp_server.Registry.{Esme, SessionStr, is_present_esme, get_session_str, esme_destroy}
use smpp_server.Registry.Valid.{RegistryValid}
use smpp_server.Authorise.{TempConn, BindPdu}
use smpp_server.Authorise.Undo.{conn_of, thread_type}
use smpp_server.Bind.{
  BindServer, Bound, handle_bind_transmitter, handle_bind_receiver, handle_bind_transceiver,
}
use smpp_server.Bind.Answered.{
  Answered, handle_bind_transmitter-Answered, handle_bind_receiver-Answered,
  handle_bind_transceiver-Answered,
}
use smpp_server.Submit.{Server, Clock, handle_submit_sm}
use smpp_server.Dispatch.{
  Pdu, Reply, sequence_of, Thread, FirstPdu, mode_of, submitted, quiet, bound_reply, nack,
  handle_pdu, handle_pdu_bind, bind_resp, submit_sm_resp, cancel_sm_resp, replace_sm_resp,
  query_sm_resp,
}

module _ ⦃gw : Gwlib⦄ where
  open gw use {Octstr}

  abbrev pub reply_sequence : Reply → ℕ
  reply_sequence (bind_resp r) = r.sequence_number
  reply_sequence (submit_sm_resp status id n) = n
  reply_sequence (Reply.enquire_link_resp n) = n
  reply_sequence (Reply.unbind_resp n) = n
  reply_sequence (cancel_sm_resp status n) = n
  reply_sequence (replace_sm_resp status n) = n
  reply_sequence (query_sm_resp status n) = n
  reply_sequence (Reply.generic_nack status n) = n

  -- The PDUs with a handler that writes nothing. The other responses have no handler, as no request
  -- of the server asks for them.
  abbrev pub has_no_reply : Pdu → Bool
  has_no_reply (Pdu.generic_nack n) = true
  has_no_reply (Pdu.enquire_link_resp n) = true
  has_no_reply (Pdu.deliver_sm_resp n) = true
  has_no_reply (Pdu.unbind_resp n) = true
  has_no_reply pdu = false

  -- One reply that carries the sequence number.
  abbrev pub OneReply : ℕ → List Reply → Type 0
  OneReply n rs = (r : Reply) × (rs ≡ r ∷ []) × (reply_sequence r ≡ n)

  abbrev pub Replied : Pdu → List Reply → Type 0
  Replied pdu rs =
      (has_no_reply pdu ≡ false → OneReply (sequence_of pdu) rs)
      × (has_no_reply pdu ≡ true → rs ≡ [])

  one :
      (sv : Server) (e : Esme) (s : SessionStr) (r : Reply) (t : Thread)
      → some (quiet sv e s (r ∷ [])) ≡ some t
      → t.written ≡ r ∷ []
  unfolding quiet
  one sv e s r t h = sym (ap (λ (x : Thread). x.written) (some_inj h))

  no_reply :
      (sv : Server) (e : Esme) (s : SessionStr) (t : Thread)
      → some (quiet sv e s []) ≡ some t
      → t.written ≡ []
  unfolding quiet
  no_reply sv e s t h = sym (ap (λ (x : Thread). x.written) (some_inj h))

  -- What is written for a PDU whose handler returns.
  written-Replied :
      (sv : Server) (env : Env) (clock : Clock) (e : Esme) (s : SessionStr) (pdu : Pdu) (t : Thread)
      → handle_pdu sv env clock e s pdu ≡ some t
      → Replied pdu t.written
  unfolding handle_pdu submitted sequence_of
  written-Replied sv env clock e s (Pdu.submit_sm p) t h =
      elim (Option-cases (handle_submit_sm sv env clock e s (mode_of s) p)) [
        | inl n ↦ let k = rw n at h in cc
        | inr (r, q) ↦
            let k = rw q at h in
            ((λ _. (_, sym (ap (λ (x : Thread). x.written) (some_inj k)), refl)), λ c. cc)
      ]
  written-Replied sv env clock e s (Pdu.generic_nack n) t h = ((λ c. cc), λ _. no_reply sv e s t h)
  written-Replied sv env clock e s (Pdu.enquire_link n) t h =
      ((λ _. (_, one sv e s _ t h, refl)), λ c. cc)
  written-Replied sv env clock e s (Pdu.enquire_link_resp n) t h =
      ((λ c. cc), λ _. no_reply sv e s t h)
  written-Replied sv env clock e s (Pdu.deliver_sm_resp n) t h =
      ((λ c. cc), λ _. no_reply sv e s t h)
  written-Replied sv env clock e s (Pdu.unbind n) t h =
      ((λ _. (_, one sv e _ _ t h, refl)), λ c. cc)
  written-Replied sv env clock e s (Pdu.unbind_resp n) t h = ((λ c. cc), λ _. no_reply sv e _ t h)
  written-Replied sv env clock e s (Pdu.cancel_sm n) t h =
      ((λ _. (_, one sv e s _ t h, refl)), λ c. cc)
  written-Replied sv env clock e s (Pdu.replace_sm n) t h =
      ((λ _. (_, one sv e s _ t h, refl)), λ c. cc)
  written-Replied sv env clock e s (Pdu.query_sm n) t h =
      ((λ _. (_, one sv e s _ t h, refl)), λ c. cc)
  written-Replied sv env clock e s (Pdu.bind_transmitter p) t h =
      ((λ _. (_, one sv e s _ t h, refl)), λ c. cc)
  written-Replied sv env clock e s (Pdu.bind_receiver p) t h =
      ((λ _. (_, one sv e s _ t h, refl)), λ c. cc)
  written-Replied sv env clock e s (Pdu.bind_transceiver p) t h =
      ((λ _. (_, one sv e s _ t h, refl)), λ c. cc)
  written-Replied sv env clock e s (Pdu.other n) t h = ((λ _. (_, one sv e s _ t h, refl)), λ c. cc)

  abbrev pub is_submit : Pdu → Bool
  is_submit (Pdu.submit_sm p) = true
  is_submit pdu = false

  answers_all :
      (sv : Server) (env : Env) (clock : Clock) (e : Esme) (s : SessionStr) (pdu : Pdu)
      → is_submit pdu ≡ false
      → (t : Thread) × (handle_pdu sv env clock e s pdu ≡ some t)
  unfolding handle_pdu
  answers_all sv env clock e s (Pdu.submit_sm p) h = cc
  answers_all sv env clock e s (Pdu.generic_nack n) h = (_, refl)
  answers_all sv env clock e s (Pdu.enquire_link n) h = (_, refl)
  answers_all sv env clock e s (Pdu.enquire_link_resp n) h = (_, refl)
  answers_all sv env clock e s (Pdu.deliver_sm_resp n) h = (_, refl)
  answers_all sv env clock e s (Pdu.unbind n) h = (_, refl)
  answers_all sv env clock e s (Pdu.unbind_resp n) h = (_, refl)
  answers_all sv env clock e s (Pdu.cancel_sm n) h = (_, refl)
  answers_all sv env clock e s (Pdu.replace_sm n) h = (_, refl)
  answers_all sv env clock e s (Pdu.query_sm n) h = (_, refl)
  answers_all sv env clock e s (Pdu.bind_transmitter p) h = (_, refl)
  answers_all sv env clock e s (Pdu.bind_receiver p) h = (_, refl)
  answers_all sv env clock e s (Pdu.bind_transceiver p) h = (_, refl)
  answers_all sv env clock e s (Pdu.other n) h = (_, refl)

  -- On a bound session, a generic_nack, enquire_link_resp, deliver_sm_resp or unbind_resp that is
  -- handled is not answered; each other PDU, whatever its type is and whether it has a handler or
  -- not, is answered by one PDU with its sequence number, unless the handler of a submit
  -- faults; no other handler does.
  pub handle_pdu-Replied :
      (sv : Server) (env : Env) (clock : Clock) (e : Esme) (s : SessionStr) (pdu : Pdu)
      → ((handle_pdu sv env clock e s pdu ≡ none) × (is_submit pdu ≡ true))
        ⊎ ((t : Thread) × (handle_pdu sv env clock e s pdu ≡ some t) × Replied pdu t.written)
  handle_pdu-Replied sv env clock e s pdu = elim (Option-cases (handle_pdu sv env clock e s pdu)) [
    | inl fault ↦ elim (Bool-cases (is_submit pdu)) [
      | inl yes_ ↦ inl (fault, yes_)
      | inr no_ ↦ let (t, run) = answers_all sv env clock e s pdu no_ in cc
    ]
    | inr (t, run) ↦ inr (t, run, written-Replied sv env clock e s pdu t run)
  ]

  -- What a bind asks for: its mode, and its fields.
  abbrev pub asked : Pdu → Option (ℕ × BindPdu)
  asked (Pdu.bind_transmitter p) = some (1, p)
  asked (Pdu.bind_receiver p) = some (2, p)
  asked (Pdu.bind_transceiver p) = some (3, p)
  asked pdu = none

  -- What the first PDU of a connection leaves.
  pub record Opened (sv : BindServer) (temp : TempConn) (pdu : Pdu) (f : FirstPdu) : Type 0 where
    pub replied : OneReply (sequence_of pdu) f.written
    pub valid : RegistryValid sv.translations f.esmes
    pub untouched : f.temp.bind_successful ≡ false → f.esmes ≡ sv.esmes
    pub opened :
        f.temp.bind_successful ≡ true
        → (mode : ℕ) × (p : BindPdu) × (id : Octstr) × (e : Esme) × (s : SessionStr) × (asked pdu
            ≡ some (mode, p))
          × (p.system_id ≡ some id)
          × (f.temp.mode ≡ mode)
          × (f.esme ≡ some e)
          × (is_present_esme id f.esmes ≡ some e)
          × (get_session_str e mode f.temp.session_id ≡ some s)
          × (conn_of s ≡ temp.conn)
          × (esme_destroy id (thread_type mode) f.temp.session_id f.esmes ≡ some sv.esmes)

  Answered-Opened :
      (sv : BindServer) (mode : ℕ) (temp : TempConn) (p : BindPdu) (pdu : Pdu) (o : Option Bound)
      (f : FirstPdu)
      → asked pdu ≡ some (mode, p)
      → sequence_of pdu ≡ p.sequence_number
      → ((r : Bound) → o ≡ some r → Answered sv mode temp p r)
      → bound_reply o ≡ some f
      → Opened sv temp pdu f
  unfolding bound_reply
  Answered-Opened sv mode temp p pdu none f q n k h = cc
  Answered-Opened sv mode temp p pdu (some r) f q n k h =
      let a = k r refl in
      subst (Opened sv temp pdu) (some_inj h) (record {
        replied = (bind_resp r, refl, a.sequence ∙ sym n);
        valid = a.valid;
        untouched = a.untouched;
        opened = λ z.
            let (id, e, s, named, ve, found, conn, back, here, m) = a.served z in
            let found' = subst (λ k. get_session_str e k r.temp.session_id ≡ some s) m found in
            (mode, p, id, e, s, q, named, m, ve, here, found', conn, back);
      })

  nack-Opened :
      (sv : BindServer) (temp : TempConn) (pdu : Pdu) (f : FirstPdu)
      → RegistryValid sv.translations sv.esmes
      → temp.bind_successful ≡ false
      → some (nack sv temp (sequence_of pdu)) ≡ some f
      → Opened sv temp pdu f
  unfolding nack
  nack-Opened sv temp pdu f v fresh h =
      subst (Opened sv temp pdu) (some_inj h)
        (record { replied = (_, refl, refl); valid = v; untouched = λ _. refl; opened = λ q. cc })

  -- The first PDU of a new connection is answered by one PDU with its sequence number. The list of
  -- accounts stays well formed; it is as it was unless the bind is successful, and then the account
  -- that is returned is on the list under the name in the PDU, with a session of the bind's mode over
  -- this connection, whose end gives back the list that was before.
  pub handle_pdu_bind-Opened :
      (sv : BindServer) (env : Env) (temp : TempConn) (pdu : Pdu) (f : FirstPdu)
      → RegistryValid sv.translations sv.esmes
      → temp.bind_successful ≡ false
      → handle_pdu_bind sv env temp pdu ≡ some f
      → Opened sv temp pdu f
  unfolding handle_pdu_bind
  handle_pdu_bind-Opened sv env temp (Pdu.bind_transmitter p) f v fresh h =
      Answered-Opened sv 1 temp p (Pdu.bind_transmitter p) (handle_bind_transmitter sv env temp p) f
        refl (unfold sequence_of in refl)
        (λ r. handle_bind_transmitter-Answered sv env temp p r v fresh) h
  handle_pdu_bind-Opened sv env temp (Pdu.bind_receiver p) f v fresh h =
      Answered-Opened sv 2 temp p (Pdu.bind_receiver p) (handle_bind_receiver sv env temp p) f refl
        (unfold sequence_of in refl) (λ r. handle_bind_receiver-Answered sv env temp p r v fresh) h
  handle_pdu_bind-Opened sv env temp (Pdu.bind_transceiver p) f v fresh h =
      Answered-Opened sv 3 temp p (Pdu.bind_transceiver p) (handle_bind_transceiver sv env temp p) f
        refl (unfold sequence_of in refl)
        (λ r. handle_bind_transceiver-Answered sv env temp p r v fresh) h
  handle_pdu_bind-Opened sv env temp pdu f v fresh h = nack-Opened sv temp pdu f v fresh h
