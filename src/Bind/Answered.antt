-- ===== src/Bind/Answered.antt =====
-- What the three bind handlers promise.
use smpp_server.Prelude.{
  ℕ, ◌≡◌, ◌≢◌, ◌↔◌, ◌⊎◌, ◌≤◌, inl, inr, refl, ap, ◌∙◌, Bool, true, false, not, ◌&&◌, Option, none,
  some, arith, Bool-cases, ◌==◌, if◌then◌else◌,
}
use mathlib.Core.Path.{subst}
use smpp_server.Prelude.Int.{ℤ, pos, minus_one, eqz}
use smpp_server.Prelude.Options.{some_inj, ◌>>=◌}
use smpp_server.Gwlib.{Gwlib, Env}
use smpp_server.Registry.{Esme, SessionStr, is_present_esme, get_session_str, esme_destroy}
use smpp_server.Registry.Sessions.{get_session_str_found}
use smpp_server.Registry.Valid.{RegistryValid}
use smpp_server.Authorise.{TempConn, BindPdu, Verdict}
use smpp_server.Authorise.Cases.{eqz_sound}
use smpp_server.Authorise.Codes.{known, authorise_user-known, authorise_user_untouched}
use smpp_server.Authorise.Valid.{authorise_user-RegistryValid}
use smpp_server.Authorise.Undo.{conn_of, thread_type, authorise_user-Served}
use smpp_server.Pdu.{CommandStatus, rok, rbindfail, rinvcmdid}
use smpp_server.Bind.{
  BindServer, Bound, answer, turn_down, is_given, has_tx, has_rx, with_success, status_of_code,
  transmitter_status, admit_transmitter, admit_receiver, admit_transceiver, ask,
  handle_bind_transmitter, handle_bind_receiver, handle_bind_transceiver, check_server_connections,
}

status_of_code_ok :
    (created : CommandStatus) (code : ℤ)
    → known code ≡ true
    → (status_of_code created code ≡ rok) ↔ (eqz code (pos 0) ≡ true)
unfolding known status_of_code
status_of_code_ok created code k = (λ h. ground arith, λ h. ground arith)

module _ ⦃gw : Gwlib⦄ where
  open gw use {Octstr}

  transmitter_status_ok :
      (created : CommandStatus) (code : ℤ) (esme : Option Esme)
      → known code ≡ true
      → (eqz code (pos 0) ≡ true → is_given esme ≡ true)
      → (transmitter_status created code esme ≡ rok) ↔ (eqz code (pos 0) ≡ true)
  unfolding known transmitter_status
  transmitter_status_ok created code esme k g =
      (λ h. ground arith, λ h. let w = g h in ground arith)

  has_session : ℕ → Option Esme → Bool
  has_session mode e = if mode == 2 then has_rx e else has_tx e

  -- What a bind of a mode over a connection is answered with: the response carries the PDU's
  -- sequence number, its status is SMPP_ESME_ROK exactly if the bind is recorded as successful, and
  -- the list of accounts stays well formed. Then the account that the PDU names is on
  -- the list and has a session of the mode over this connection, and its end gives back the list that
  -- was before; else the list is as it was.
  pub record Answered (sv : BindServer) (mode : ℕ) (temp : TempConn) (pdu : BindPdu) (r : Bound)
      : Type 0 where
    pub sequence : r.sequence_number ≡ pdu.sequence_number
    pub success : (r.command_status ≡ rok) ↔ (r.temp.bind_successful ≡ true)
    pub valid : RegistryValid sv.translations r.esmes
    pub untouched : r.temp.bind_successful ≡ false → r.esmes ≡ sv.esmes
    pub served :
        r.temp.bind_successful ≡ true
        → (id : Octstr) × (e : Esme) × (s : SessionStr) × (pdu.system_id ≡ some id)
          × (r.esme ≡ some e)
          × (get_session_str e r.temp.mode r.temp.session_id ≡ some s)
          × (conn_of s ≡ temp.conn)
          × (esme_destroy id (thread_type mode) r.temp.session_id r.esmes ≡ some sv.esmes)
          × (is_present_esme id r.esmes ≡ some e)
          × (r.temp.mode ≡ mode)

  turn_down-Answered :
      (sv : BindServer) (mode : ℕ) (temp : TempConn) (pdu : BindPdu) (status : CommandStatus)
      → RegistryValid sv.translations sv.esmes
      → temp.bind_successful ≡ false
      → status ≢ rok
      → Answered sv mode temp pdu (turn_down sv pdu status temp)
  unfolding turn_down
  turn_down-Answered sv mode temp pdu status v fresh bad = record {
    sequence = refl;
    success = (λ h. absurd (bad h), λ h. cc);
    valid = v;
    untouched = λ h. refl;
    served = λ h. cc;
  }

  has_session-found :
      (e : Esme) (mode n : ℕ) (s : SessionStr)
      → (1 ≤ mode) × (mode ≤ 3)
      → get_session_str e mode n ≡ some s
      → has_session mode (some e) ≡ true
  unfolding has_session has_tx has_rx
  has_session-found e mode n s b h =
      let f = get_session_str_found e mode n s h in
      elim (Bool-cases (mode == 2)) [
        | inl two ↦ let k = f.0 (ground arith) in ground arith
        | inr other ↦
            let m : (mode ≡ 1) ⊎ (mode ≡ 3) = ground arith in let k = f.1 m in ground arith
      ]

  module _ (sv : BindServer) (env : Env) (mode : ℕ) (temp : TempConn) (pdu : BindPdu) where
    verdict_served :
        (v : Verdict)
        → (1 ≤ mode) × (mode ≤ 3)
        → RegistryValid sv.translations sv.esmes
        → ask sv env mode temp pdu ≡ some v
        → eqz v.code (pos 0) ≡ true
        → (id : Octstr) × (e : Esme) × (s : SessionStr) × (pdu.system_id ≡ some id)
          × (v.esme ≡ some e)
          × (get_session_str e v.temp.mode v.temp.session_id ≡ some s)
          × (conn_of s ≡ temp.conn)
          × (esme_destroy id (thread_type mode) v.temp.session_id v.esmes ≡ some sv.esmes)
          × (is_present_esme id v.esmes ≡ some e)
          × (v.temp.mode ≡ mode)
          × (has_session mode v.esme ≡ true)
    verdict_served v b valid h z =
        let (id, p, w) =
          authorise_user-Served env mode sv.translations sv.smsc_list sv.esmes temp pdu v b valid h
            (eqz_sound v.code (pos 0) z) in
        let (e, s, ve, here, found, conn) = w.1 in
        let m : v.temp.mode ≡ mode = ap (λ (t : TempConn). t.mode) w.0 in
        let found' = subst (λ k. get_session_str e k v.temp.session_id ≡ some s) m found in
        (
          id,
          e,
          s,
          p,
          ve,
          found,
          conn,
          w.2,
          here,
          m,
          ap (has_session mode) ve ∙ has_session-found e mode v.temp.session_id s b found',
        )

    given :
        (v : Verdict)
        → (1 ≤ mode) × (mode ≤ 3)
        → RegistryValid sv.translations sv.esmes
        → ask sv env mode temp pdu ≡ some v
        → eqz v.code (pos 0) ≡ true
        → is_given v.esme ≡ true
    given v b valid h z = let w = verdict_served v b valid h z in ap is_given w.4

    answer-Answered :
        (v : Verdict) (status : CommandStatus) (success : Bool)
        → (1 ≤ mode) × (mode ≤ 3)
        → RegistryValid sv.translations sv.esmes
        → ask sv env mode temp pdu ≡ some v
        → ((status ≡ rok) ↔ (eqz v.code (pos 0) ≡ true))
        → success ≡ (eqz v.code (pos 0) && has_session mode v.esme)
        → Answered sv mode temp pdu
            (answer sv pdu status v.esme v.esmes (with_success success v.temp))
    unfolding answer with_success
    answer-Answered v status success b valid h st su =
        let on : eqz v.code (pos 0) ≡ true → success ≡ true = λ z.
          let w = verdict_served v b valid h z in
          let k : has_session mode v.esme ≡ true = w.10 in ground arith in
        let off : success ≡ true → eqz v.code (pos 0) ≡ true = λ q. ground arith in
        record {
          sequence = refl;
          success = ((λ k. on (st.0 k)), λ q. st.1 (off q));
          valid =
              authorise_user-RegistryValid env mode sv.translations sv.smsc_list sv.esmes temp pdu v
                b valid h;
          untouched = λ q. elim (Bool-cases (eqz v.code (pos 0))) [
            | inl z ↦ let c = on z in cc
            | inr nz ↦
                authorise_user_untouched env mode sv.translations sv.smsc_list sv.esmes temp pdu v h
                  nz
          ];
          served = λ q.
              let (id, e, s, p, ve, found, conn, back, here, m, _) =
                verdict_served v b valid h (off q) in
              (id, e, s, p, ve, found, conn, back, here, m);
        }

  gate_cases :
      (a b c : Bool) (x y z w : Option Bound) (r : Bound)
      → (if a then x else if b then y else if c then z else w) ≡ some r
      → ((x ≡ some r) ⊎ (y ≡ some r)) ⊎ ((z ≡ some r) ⊎ (w ≡ some r))
  gate_cases true b c x y z w r h = inl (inl h)
  gate_cases false true c x y z w r h = inl (inr h)
  gate_cases false false true x y z w r h = inr (inl h)
  gate_cases false false false x y z w r h = inr (inr h)

  ask_some :
      (m : Option Verdict) (f : Verdict → Bound) (r : Bound)
      → (m >>= λ v. some (f v)) ≡ some r
      → (v : Verdict) × (m ≡ some v) × (f v ≡ r)
  ask_some none f r h = cc
  ask_some (some v) f r h = (v, refl, some_inj h)

  -- The three tests that all handlers begin with, and then `authorise_user`.
  gates-Answered :
      (sv : BindServer) (env : Env) (mode : ℕ) (temp : TempConn) (pdu : BindPdu) (a b c : Bool)
      (x y z : CommandStatus) (f : Verdict → Bound) (r : Bound)
      → RegistryValid sv.translations sv.esmes
      → temp.bind_successful ≡ false
      → (x ≢ rok) × (y ≢ rok) × (z ≢ rok)
      → ((v : Verdict) → ask sv env mode temp pdu ≡ some v → Answered sv mode temp pdu (f v))
      → (if a
          then some (turn_down sv pdu x temp)
          else if b
          then some (turn_down sv pdu y temp)
          else if c
          then some (turn_down sv pdu z temp)
          else ask sv env mode temp pdu >>= λ v. some (f v))
        ≡ some r
      → Answered sv mode temp pdu r
  gates-Answered sv env mode temp pdu a b c x y z f r v fresh bad k h =
      let down : (s : CommandStatus)
          → s ≢ rok
          → some (turn_down sv pdu s temp) ≡ some r
          → Answered sv mode temp pdu r =
        λ s n e.
          subst (Answered sv mode temp pdu) (some_inj e)
            (turn_down-Answered sv mode temp pdu s v fresh n) in
      elim (gate_cases a b c (some (turn_down sv pdu x temp)) (some (turn_down sv pdu y temp))
        (some (turn_down sv pdu z temp)) (ask sv env mode temp pdu >>= λ w. some (f w)) r h) [
          | inl (inl e) ↦ down x bad.0 e
          | inl (inr e) ↦ down y bad.1 e
          | inr (inl e) ↦ down z bad.2 e
          | inr (inr e) ↦
              let (w, m, q) = ask_some (ask sv env mode temp pdu) f r e in
              subst (Answered sv mode temp pdu) q (k w m)
        ]

  -- A bind as a transmitter that comes over a new connection is answered, by the list of accounts that is
  -- well formed, with the PDU's sequence number, and with SMPP_ESME_ROK exactly if it is recorded as
  -- successful. Then its account has a session over this connection, whose end gives the list back;
  -- else the list is as it was. It stays well formed.
  pub handle_bind_transmitter-Answered :
      (sv : BindServer) (env : Env) (temp : TempConn) (pdu : BindPdu) (r : Bound)
      → RegistryValid sv.translations sv.esmes
      → temp.bind_successful ≡ false
      → handle_bind_transmitter sv env temp pdu ≡ some r
      → Answered sv 1 temp pdu r
  unfolding handle_bind_transmitter admit_transmitter has_session
  handle_bind_transmitter-Answered sv env temp pdu r v fresh h =
      gates-Answered sv env 1 temp pdu (not sv.running)
        (not (eqz (pos temp.listen_port) sv.trans_port))
        (eqz (check_server_connections sv.processes) minus_one) rbindfail rbindfail rbindfail
        (admit_transmitter sv pdu) r v fresh ((λ q. cc), (λ q. cc), λ q. cc)
        (λ w a.
          let k =
            authorise_user-known env 1 sv.translations sv.smsc_list sv.esmes temp pdu w
              (omega arith) a in
          answer-Answered sv env 1 temp pdu w _ (eqz w.code (pos 0) && has_tx w.esme) (omega arith)
            v a
            (transmitter_status_ok sv.created_status w.code w.esme k
              λ z. given sv env 1 temp pdu w (omega arith) v a z)
            refl)
        h

  -- A bind as a receiver that comes over a new connection is answered, by the list of accounts that is
  -- well formed, with the PDU's sequence number, and with SMPP_ESME_ROK exactly if it is recorded as
  -- successful. Then its account has a session over this connection, whose end gives the list back;
  -- else the list is as it was. It stays well formed.
  pub handle_bind_receiver-Answered :
      (sv : BindServer) (env : Env) (temp : TempConn) (pdu : BindPdu) (r : Bound)
      → RegistryValid sv.translations sv.esmes
      → temp.bind_successful ≡ false
      → handle_bind_receiver sv env temp pdu ≡ some r
      → Answered sv 2 temp pdu r
  unfolding handle_bind_receiver admit_receiver has_session
  handle_bind_receiver-Answered sv env temp pdu r v fresh h =
      gates-Answered sv env 2 temp pdu (not sv.running)
        (not (eqz (pos temp.listen_port) sv.recv_port))
        (eqz (check_server_connections sv.processes) minus_one) rbindfail rinvcmdid rinvcmdid
        (admit_receiver sv pdu) r v fresh ((λ q. cc), (λ q. cc), λ q. cc)
        (λ w a.
          let k =
            authorise_user-known env 2 sv.translations sv.smsc_list sv.esmes temp pdu w
              (omega arith) a in
          answer-Answered sv env 2 temp pdu w _ (eqz w.code (pos 0) && has_rx w.esme) (omega arith)
            v a (status_of_code_ok sv.created_status w.code k) refl)
        h

  -- A bind as a transceiver that comes over a new connection is answered, by the list of accounts that is
  -- well formed, with the PDU's sequence number, and with SMPP_ESME_ROK exactly if it is recorded as
  -- successful. Then its account has a session over this connection, whose end gives the list back;
  -- else the list is as it was. It stays well formed.
  pub handle_bind_transceiver-Answered :
      (sv : BindServer) (env : Env) (temp : TempConn) (pdu : BindPdu) (r : Bound)
      → RegistryValid sv.translations sv.esmes
      → temp.bind_successful ≡ false
      → handle_bind_transceiver sv env temp pdu ≡ some r
      → Answered sv 3 temp pdu r
  unfolding handle_bind_transceiver admit_transceiver has_session
  handle_bind_transceiver-Answered sv env temp pdu r v fresh h =
      gates-Answered sv env 3 temp pdu (not sv.running)
        (not (eqz (pos temp.listen_port) sv.trans_recv_port))
        (eqz (check_server_connections sv.processes) minus_one) rbindfail rinvcmdid rinvcmdid
        (admit_transceiver sv pdu) r v fresh ((λ q. cc), (λ q. cc), λ q. cc)
        (λ w a.
          let k =
            authorise_user-known env 3 sv.translations sv.smsc_list sv.esmes temp pdu w
              (omega arith) a in
          answer-Answered sv env 3 temp pdu w _ (eqz w.code (pos 0) && has_tx w.esme) (omega arith)
            v a (status_of_code_ok sv.created_status w.code k) refl)
        h
