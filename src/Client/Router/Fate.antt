-- ===== src/Client/Router/Fate.antt =====
-- What becomes of a message that the router takes from the queue.
use smpp_server.Prelude.{
  ℕ, suc, ◌+◌, ◌<◌, ◌≡◌, ◌⊎◌, refl, sym, ap, ◌∙◌, Bool, true, false, none, some, List, [], ◌∷◌,
  ◌++◌, map, All, arith, length, ltb, Bool-cases, inl, inr,
}
use mathlib.Core.Path.{subst}
use smpp_server.Prelude.Int.{ℤ, pos, eqz}
use smpp_server.Prelude.Options.{◌>>=◌}
use smpp_server.Gwlib.{Gwlib}
use smpp_server.Client.Calls.{Calls, SmPdu}
use smpp_server.Client.Msg.{Msg, RoutingInfo}
use smpp_server.Client.Conn.{Conn, smscconn_info}
use smpp_server.Client.Status.{Status, status_code}
use smpp_server.Client.Mis.{mis_db_insert}
use smpp_server.Client.Rout.{positions, Routed, done, smsc2_rout}
use smpp_server.Client.Rout.Idle.{conns, forget_load, info-conn}
use smpp_server.Client.Rout.First.{Exists}
use smpp_server.Client.Rout.Outcome.{Outcome}
use smpp_server.Client.Rout.Ends.{not_nil, smsc2_rout-Outcome}
use smpp_server.Client.Router.{
  RouterConf, Router, is_noresp, count_active, smsc_length, expired, discard, merge, reroute,
  route_or_keep, route_message,
}
use smpp_server.Client.Router.Merge.{NoneStale, merge-positions}

module _ ⦃gw : Gwlib⦄ where
  open gw use {Octstr, octstr_from_position}

  conns-asked : (cs : List Conn) → conns (map (λ k. (smscconn_info k).0) cs) ≡ conns cs
  conns-asked [] = refl
  conns-asked (k ∷ ks) =
      ap (λ x. x ∷ conns (map (λ k'. (smscconn_info k').0) ks)) (info-conn k)
      ∙ ap (◌∷◌ (forget_load k)) (conns-asked ks)

  -- Why a message is given up, and the status that says so.
  abbrev pub Reasons : RouterConf → ℕ → Msg → Status → Type 0
  Reasons conf now m status =
      ((is_noresp m.msg_state ≡ true) × (status ≡ status_code 0x405))
      ⊎ ((is_noresp m.msg_state ≡ false)
          × ((eqz (pos m.retries) conf.max_retry_limit ≡ true) ⊎ (expired conf now m ≡ true))
          × (status ≡ status_code 0x404))

  abbrev pub Routable : RouterConf → ℕ → Msg → Type 0
  Routable conf now m =
      (is_noresp m.msg_state ≡ false)
      × (eqz (pos m.retries) conf.max_retry_limit ≡ false)
      × (expired conf now m ≡ false)

  pub data Fate (c : Calls) (conf : RouterConf) (now : ℕ) (down : Bool) (m : Msg) (pdu : SmPdu)
      (alloweds : List ℤ) (r : Router) : Router → Type 0 where
    discarded :
        {r' : Router} (status : Status)
        → Reasons conf now m status
        → r'.to_dbbox ≡ r.to_dbbox ++ mis_db_insert m.sm_info m.failed_smsc_id none pdu status ∷ []
        → r'.smscs ≡ r.smscs
        → r'.outgoing ≡ r.outgoing
        → Fate c conf now down m pdu alloweds r r'
    kept :
        {r' : Router}
        → Routable conf now m
        → count_active r.smscs ≡ 0
        → r'.to_dbbox ≡ r.to_dbbox
        → conns r'.smscs ≡ conns r.smscs
        → r'.outgoing ≡ record (r.outgoing) { outgoing_msg = r.outgoing.outgoing_msg ++ m ∷ [] }
        → Fate c conf now down m pdu alloweds r r'
    routed :
        {r' : Router} (info : RoutingInfo) (x : Routed)
        → Routable conf now m
        → 0 < count_active r.smscs
        → r'.to_dbbox ≡ r.to_dbbox
        → Outcome c down (record m { routing_info = info }) (conns r.smscs) r.outgoing [] alloweds x
        → r'.smscs ≡ x.smscs
        → r'.outgoing ≡ x.outgoing
        → Fate c conf now down m pdu alloweds r r'

  discard-Fate :
      (c : Calls) (conf : RouterConf) (now : ℕ) (down : Bool) (m : Msg) (os : Octstr) (pdu : SmPdu)
      (alloweds : List ℤ) (r : Router) (status : Status)
      → c.smpp_pdu_unpack (octstr_from_position os 4) ≡ some pdu
      → Reasons conf now m status
      → (r' : Router) × (discard c os m status r ≡ some r')
        × Fate c conf now down m pdu alloweds r r'
  unfolding discard
  discard-Fate c conf now down m os pdu alloweds r status h why =
      let r' : Router = record r {
        to_dbbox = r.to_dbbox ++ mis_db_insert m.sm_info m.failed_smsc_id none pdu status ∷ [];
      } in
      (r', rw (h, ◌>>=◌), discarded {r' = r'} status why refl refl refl)

  -- The positions of a message are those of connections, and its arrays can be merged: no count of
  -- a message before reaches into them, and the array of allowed ones has room.
  pub record Placed (m : Msg) (r : Router) (alloweds : List ℤ) : Type 0 where
    pub ps : List ℤ
    pub qs : List ℤ
    pub preferred : positions m.routing_info.preferred_smsc ≡ some ps
    pub allowed : positions m.routing_info.allowed_smsc ≡ some qs
    pub fresh_preferred : NoneStale r.preferred_nos ps
    pub fresh_allowed : NoneStale r.allowed_nos qs
    pub room : length qs + length ps < length m.routing_info.allowed_smsc
    pub merged : qs ++ ps ≡ alloweds
    pub real : All (Exists (conns r.smscs)) alloweds

  abbrev with_result : Routed → ℕ → ℕ → Router → Router
  with_result x n1 n2 r = record r {
    smscs = x.smscs;
    outgoing = x.outgoing;
    preferred_nos = n1;
    allowed_nos = n2;
  }

  reroute_steps :
      (c : Calls) (down : Bool) (fuel : ℕ) (m : Msg) (r : Router) {info : RoutingInfo} {n1 n2 : ℕ}
      {x : Routed}
      → merge r.preferred_nos r.allowed_nos m.routing_info ≡ some (info, n1, n2)
      → smsc2_rout c down fuel (record m { routing_info = info }) r.smscs r.outgoing ≡ done x
      → reroute c down fuel m r ≡ some (with_result x n1 n2 r)
  unfolding reroute
  reroute_steps c down fuel m r h run = rw (h, ◌>>=◌, run)

  reroute-Fate :
      (c : Calls) (conf : RouterConf) (now : ℕ) (down : Bool) (fuel : ℕ) (m : Msg) (pdu : SmPdu)
      (q : ℤ) (rest : List ℤ) (r : Router) (cs : List Conn)
      → conns cs ≡ conns r.smscs
      → Placed m r (q ∷ rest)
      → Routable conf now m
      → 0 < count_active r.smscs
      → (r' : Router) × (reroute c down (suc fuel) m (record r { smscs = cs }) ≡ some r')
        × Fate c conf now down m pdu (q ∷ rest) r r'
  reroute-Fate c conf now down fuel m pdu q rest r cs e p able active =
      let (info, run, none_preferred, all_allowed, same) =
        merge-positions r.preferred_nos r.allowed_nos m.routing_info p.ps p.qs p.preferred p.allowed
          p.fresh_preferred p.fresh_allowed p.room in
      let (x, routed_to, outcome) =
        smsc2_rout-Outcome c down fuel (record m { routing_info = info }) cs r.outgoing []
          (q ∷ rest) none_preferred (all_allowed ∙ ap some p.merged) tt
          (subst (λ (fs : List Conn). All (Exists fs) (q ∷ rest)) (sym e) p.real) not_nil in
      let r' = with_result x (length p.ps) (length p.qs) r in
      (
        r',
        reroute_steps c down (suc fuel) m (record r { smscs = cs }) run routed_to,
        routed {r' = r'} info x able active refl
            (subst
              (λ (fs : List Conn).
                Outcome c down (record m { routing_info = info }) fs r.outgoing [] (q ∷ rest) x)
              e outcome)
            refl refl,
      )

  -- `0 < smsc_length()`
  route_or_keep-Fate :
      (c : Calls) (conf : RouterConf) (now : ℕ) (down : Bool) (fuel : ℕ) (m : Msg) (pdu : SmPdu)
      (q : ℤ) (rest : List ℤ) (r : Router)
      → (0 < count_active r.smscs → Placed m r (q ∷ rest))
      → Routable conf now m
      → (r' : Router) × (route_or_keep c down (suc fuel) m r ≡ some r')
        × Fate c conf now down m pdu (q ∷ rest) r r'
  unfolding route_or_keep smsc_length
  route_or_keep-Fate c conf now down fuel m pdu q rest r p able =
      elim (Bool-cases (ltb 0 (count_active r.smscs))) [
        | inl some_active ↦ rw some_active (
            reroute-Fate c conf now down fuel m pdu q rest r
              (map (λ k. (smscconn_info k).0) r.smscs) (conns-asked r.smscs) (p (ground arith)) able
              (ground arith))
        | inr none_active ↦
            let r' : Router = record r {
              smscs = map (λ k. (smscconn_info k).0) r.smscs;
              outgoing = record (r.outgoing) { outgoing_msg = r.outgoing.outgoing_msg ++ m ∷ [] };
            } in
            (r', rw none_active, kept {r' = r'} able (ground arith) refl (conns-asked r.smscs) refl)
      ]

  -- What becomes of a message with a PDU.
  with_pdu-Fate :
      (c : Calls) (conf : RouterConf) (now : ℕ) (down : Bool) (fuel : ℕ) (m : Msg) (os : Octstr)
      (pdu : SmPdu) (q : ℤ) (rest : List ℤ) (r : Router)
      → c.smpp_pdu_unpack (octstr_from_position os 4) ≡ some pdu
      → (Routable conf now m → 0 < count_active r.smscs → Placed m r (q ∷ rest))
      → (r' : Router) × (route_message c conf now down (suc fuel) m (some os) r ≡ some r')
        × Fate c conf now down m pdu (q ∷ rest) r r'
  unfolding route_message
  with_pdu-Fate c conf now down fuel m os pdu q rest r h p =
      elim (Bool-cases (is_noresp m.msg_state)) [
        | inl sent ↦
            rw sent (discard-Fate c conf now down m os pdu (q ∷ rest) r _ h (inl (sent, refl)))
        | inr unsent ↦ elim (Bool-cases (eqz (pos m.retries) conf.max_retry_limit)) [
          | inl limit ↦
              rw (unsent, limit)
                (discard-Fate c conf now down m os pdu (q ∷ rest) r _ h
                  (inr (unsent, inl limit, refl)))
          | inr below ↦ elim (Bool-cases (expired conf now m)) [
            | inl old ↦
                rw (unsent, below, old)
                  (discard-Fate c conf now down m os pdu (q ∷ rest) r _ h
                    (inr (unsent, inr old, refl)))
            | inr young ↦
                rw (unsent, below, young)
                  (route_or_keep-Fate c conf now down fuel m pdu q rest r (p (unsent, below, young))
                    (unsent, below, young))
          ]
        ]
      ]

  -- A message whose PDU can be unpacked is given up exactly if it was sent and not answered, with
  -- the status 0x405, or has reached the limit of retries or is too old, with 0x404; then the
  -- database gets one row, and connections and queue stay. Any other such message waits on at the
  -- end of the queue while no connection is active, and else is routed among its allowed connections
  -- followed by its preferred ones, none of them preferred any more. For the last case its arrays
  -- number connections, one at least, have room to be merged, and the counts that the router keeps
  -- of a message before do not reach into them. A message without a PDU is dropped, and nothing else
  -- changes.
  pub route_message-Fate :
      (c : Calls) (conf : RouterConf) (now : ℕ) (down : Bool) (fuel : ℕ) (m : Msg) (os : Octstr)
      (pdu : SmPdu) (q : ℤ) (rest : List ℤ) (r : Router)
      → c.smpp_pdu_unpack (octstr_from_position os 4) ≡ some pdu
      → (Routable conf now m → 0 < count_active r.smscs → Placed m r (q ∷ rest))
      → (r' : Router) × (route_message c conf now down (suc fuel) m (some os) r ≡ some r')
        × Fate c conf now down m pdu (q ∷ rest) r r'
        × (route_message c conf now down (suc fuel) m none r ≡ some r)
  unfolding route_message
  route_message-Fate c conf now down fuel m os pdu q rest r h p =
      let (r', run, fate) = with_pdu-Fate c conf now down fuel m os pdu q rest r h p in
      (r', run, fate, refl)
