-- ===== src/Client/Router.antt =====
-- The thread that routes the queue again: `msg_router` of smpp-smsc/smsc.c with `smsc_length`.
pub mod Merge
pub mod Fate
mod Tests
use smpp_server.Prelude.{
  ℕ, zero, suc, ◌+◌, ◌<◌, Bool, true, false, not, ◌&&◌, ◌||◌, Option, none, some, List, [], ◌∷◌,
  ◌++◌, map, ltb, length, get_elem?, set, ◌==◌, if◌then◌else◌,
}
use smpp_server.Prelude.Int.{ℤ, pos, negsuc, minus_one, eqz, ltz}
use smpp_server.Prelude.Options.{◌>>=◌}
use smpp_server.Gwlib.{Gwlib}
use smpp_server.Client.Calls.{Calls}
use smpp_server.Client.Msg.{Msg, RoutingInfo, MsgState, msg_sent_noresp}
use smpp_server.Client.Conn.{Conn, is_active, smscconn_info}
use smpp_server.Client.Status.{Status, status_code}
use smpp_server.Client.Outgoing.{Outgoing}
use smpp_server.Client.Mis.{DbRow, mis_db_insert}
use smpp_server.Client.Rout.{positions, Routed, Routing, done, smsc2_rout}

-- A write into an array: out of range is a fault.
unfoldable pub write : List ℤ → ℕ → ℤ → Option (List ℤ)
write xs i v = if ltb i (length xs) then some (set xs i v) else none

-- `for (j = 0; a[j] != -1; j++) nos = j + 1;`
unfoldable pub count_from : ℕ → List ℤ → ℕ
count_from nos [] = nos
count_from nos (p ∷ ps) = length (p ∷ ps)

-- The copy of the preferred positions behind the allowed ones: the two arrays, and where it ends.
unfoldable pub copy : (rounds j ret : ℕ) → List ℤ → List ℤ → Option (List ℤ × List ℤ × ℕ)
unfolding write
copy zero j ret prefs alloweds = some (prefs, alloweds, ret)
copy (suc n) j ret prefs alloweds = do
  p ← get_elem? prefs j
  alloweds' ← write alloweds ret p
  prefs' ← write prefs j minus_one
  copy n (suc j) (suc ret) prefs' alloweds'

abbrev pub is_noresp : MsgState → Bool
is_noresp msg_sent_noresp = true
is_noresp _ = false

module _ ⦃gw : Gwlib⦄ where
  open gw use {Octstr, octstr_from_position}

  pub record RouterConf : Type 0 where
    pub max_retry_limit : ℤ
    pub max_msg_duration : ℤ

  -- The thread's variables with what it works on.
  pub record Router : Type 0 where
    pub smscs : List Conn
    pub outgoing : Outgoing
    pub to_dbbox : List DbRow
    pub preferred_nos : ℕ
    pub allowed_nos : ℕ

  pub count_active : List Conn → ℕ
  count_active [] = 0
  count_active (k ∷ ks) = (if is_active k.status then 1 else 0) + count_active ks

  -- The connections, which are asked for their state, and how many are active.
  unfoldable pub smsc_length : List Conn → List Conn × ℕ
  unfolding count_active smscconn_info
  smsc_length cs = (map (λ k. (smscconn_info k).0) cs, count_active cs)

  -- `difftime(now, t) > d`
  pub exceeds : ℤ → ℕ → ℕ → Bool
  exceeds (pos d) t now = ltb (t + d) now
  exceeds (negsuc d) t now = ltb t (now + suc d)

  pub expired : RouterConf → ℕ → Msg → Bool
  unfolding exceeds
  expired conf now m =
      not (eqz conf.max_msg_duration minus_one)
      && exceeds conf.max_msg_duration m.msg_retry_time now

  -- A message that is discarded, with a row that says why.
  pub discard : Calls → Octstr → Msg → Status → Router → Option Router
  discard c os m status r = do
    pdu ← c.smpp_pdu_unpack (octstr_from_position os 4)
    let row = mis_db_insert m.sm_info m.failed_smsc_id none pdu status
    some (record r { to_dbbox = r.to_dbbox ++ row ∷ [] })

  -- The preferred connections become allowed ones; the counts of the message before stay where the
  -- message has no position.
  unfoldable pub merge :
      (preferred_nos allowed_nos : ℕ) → RoutingInfo → Option (RoutingInfo × ℕ × ℕ)
  merge old_prefs old_alloweds info = do
    ps ← positions info.preferred_smsc
    qs ← positions info.allowed_smsc
    let prefs = count_from old_prefs ps
    let alloweds = count_from old_alloweds qs
    (preferred, allowed, ret) ← copy prefs 0 alloweds info.preferred_smsc info.allowed_smsc
    ended ← write allowed ret minus_one
    some (record info { preferred_smsc = preferred; allowed_smsc = ended }, prefs, alloweds)

  abbrev pub routed_of : Routing → Option Routed
  routed_of (done x) = some x
  routed_of _ = none

  -- A message that is routed again; the result of the routing is not looked at.
  pub reroute : Calls → Bool → ℕ → Msg → Router → Option Router
  unfolding merge smsc2_rout
  reroute c down fuel m r = do
    (info, prefs, alloweds) ← merge r.preferred_nos r.allowed_nos m.routing_info
    x ← routed_of (smsc2_rout c down fuel (record m { routing_info = info }) r.smscs r.outgoing)
    some (record r {
      smscs = x.smscs;
      outgoing = x.outgoing;
      preferred_nos = prefs;
      allowed_nos = alloweds;
    })

  pub route_or_keep : Calls → Bool → ℕ → Msg → Router → Option Router
  unfolding reroute smsc_length
  route_or_keep c down fuel m r =
      let r' = record r { smscs = (smsc_length r.smscs).0 } in
      if ltb 0 (smsc_length r.smscs).1
      then reroute c down fuel m r'
      else some (record r' {
        outgoing = record (r.outgoing) { outgoing_msg = r.outgoing.outgoing_msg ++ m ∷ [] };
      })

  -- The body of the loop, on a message that has been taken from the queue: one with no PDU is
  -- dropped.
  pub route_message :
      Calls
      → RouterConf
      → (now : ℕ) → (down : Bool) → (fuel : ℕ) → Msg
      → Option Octstr
      → Router
      → Option Router
  unfolding discard expired route_or_keep
  route_message c conf now down fuel m none r = some r
  route_message c conf now down fuel m (some os) r =
      if is_noresp m.msg_state
      then discard c os m (status_code 0x405) r
      else if eqz (pos m.retries) conf.max_retry_limit
      then discard c os m (status_code 0x404) r
      else if expired conf now m
      then discard c os m (status_code 0x404) r
      else route_or_keep c down fuel m r

  abbrev pub with_waiting : List Msg → Router → Router
  with_waiting ms r = record r { outgoing = record (r.outgoing) { outgoing_msg = ms } }

  -- As many rounds as the queue was long when the pass began.
  pub pass : Calls → RouterConf → ℕ → Bool → ℕ → (rounds : ℕ) → List Msg → Router → Option Router
  unfolding route_message
  pass c conf now down fuel zero queue r = some r
  pass c conf now down fuel (suc n) [] r = pass c conf now down fuel n [] r
  pass c conf now down fuel (suc n) (m ∷ ms) r = do
    r' ← route_message c conf now down fuel m m.sm_info.pdu (with_waiting ms r)
    pass c conf now down fuel n r'.outgoing.outgoing_msg r'

  -- The limit that is reported when the queue has become short.
  pub report_short : Router → Router
  report_short r =
      if not (eqz r.outgoing.global_q_min minus_one)
        && ltz (pos (length r.outgoing.outgoing_msg)) r.outgoing.global_q_min
      then record r { outgoing = record (r.outgoing) { q_limits = r.outgoing.q_limits ++ 2 ∷ [] } }
      else r

  -- One round of the thread.
  unfoldable pub msg_router : Calls → RouterConf → ℕ → Bool → ℕ → Router → Option Router
  unfolding pass report_short
  msg_router c conf now down fuel r =
      let queue = r.outgoing.outgoing_msg in
      let round = (do
        r' ← pass c conf now down fuel (length queue) queue r
        some (report_short r')) in
      if ltb 0 (length queue) then round else some r

  -- What is left in the queue when the process ends is discarded.
  pub discard_left : Calls → List Msg → Router → Option Router
  unfolding discard
  discard_left c [] r = some r
  discard_left c (m ∷ ms) r = elim (m.sm_info.pdu) [
    | none ↦ discard_left c ms r
    | some os ↦
        discard c os m (if is_noresp m.msg_state then status_code 0x405 else status_code 0x406) r
        >>= discard_left c ms
  ]

  unfoldable pub end_router : Calls → Router → Option Router
  unfolding discard_left
  end_router c r = discard_left c r.outgoing.outgoing_msg (with_waiting [] r)
