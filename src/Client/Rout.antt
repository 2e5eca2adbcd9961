-- ===== src/Client/Rout.antt =====
-- The choice of a connection for a message: `smsc2_rout` of smpp-smsc/smsc.c, under the read lock of
-- `smsc_list`. `gwlist_get1` is taken to be `gwlist_get`.
pub mod Idle
pub mod First
pub mod Least
pub mod Outcome
pub mod Ends
mod Tests
use smpp_server.Prelude.{
  ℕ, zero, suc, ◌+◌, Bool, true, false, not, ◌&&◌, ◌||◌, Option, none, some, List, [], ◌∷◌, ltb,
  get_elem?, set, if◌then◌else◌,
}
use smpp_server.Prelude.Int.{ℤ, pos, negsuc, minus_one, eqz}
use smpp_server.Gwlib.{Gwlib}
use smpp_server.Client.Calls.{Calls}
use smpp_server.Client.Msg.{Msg, msg_not_sent}
use smpp_server.Client.Conn.{
  Conn, ConnStatus, is_active, smscconn_usable, smscconn_info, smscconn_send,
}
use smpp_server.Client.Outgoing.{Outgoing, produce_outgoing_msg}

-- The entries of an array of positions up to its first -1: `none` if the array has none.
unfoldable pub positions : List ℤ → Option (List ℤ)
positions [] = none
positions (p ∷ ps) =
    let rest = positions ps in
    if eqz p minus_one then some [] else elim rest [ none ↦ none | some qs ↦ some (p ∷ qs) ]

module _ ⦃gw : Gwlib⦄ where
  open gw use {Octstr}

  -- The connection at a position: one out of range is a fault.
  abbrev pub conn_at : ℤ → List Conn → Option Conn
  conn_at (pos i) cs = get_elem? cs i
  conn_at (negsuc i) cs = none

  abbrev pub put_conn : ℤ → Conn → List Conn → List Conn
  put_conn (pos i) k cs = set cs i k
  put_conn (negsuc i) k cs = cs

  abbrev pub to_be_sent : Msg → Msg
  to_be_sent m = record m { msg_state = msg_not_sent }

  abbrev pub receiver : Msg → Octstr
  receiver m = m.routing_info.destination_addr

  -- What the loop over the preferred connections comes to: one has taken the message, none has, or
  -- the message is destroyed because the process is shutting down.
  pub data Preferred : Type 0 where
    taken : List Conn → Preferred
    none_took : Msg → List Conn → Preferred
    destroyed : List Conn → Preferred
    fault : Preferred

  unfoldable pub try_preferred : Calls → (shutdown : Bool) → Msg → List ℤ → List Conn → Preferred
  unfolding smscconn_info
  try_preferred c down m [] cs = none_took m cs
  try_preferred c down m (p ∷ ps) cs = elim (conn_at p cs) [
    | none ↦ fault
    | some k ↦
        let k' = (smscconn_info k).0 in
        let cs' = put_conn p k' cs in
        elim (is_active (smscconn_info k).1) [
          | false ↦ elim down [ true ↦ destroyed cs' | false ↦ try_preferred c down m ps cs' ]
          | true ↦ elim (smscconn_usable c k' (receiver m)) [
            | false ↦ try_preferred c down m ps cs'
            | true ↦ elim (smscconn_send (to_be_sent m) k') [
              | none ↦ try_preferred c down (to_be_sent m) ps cs'
              | some k'' ↦ taken (put_conn p k'' cs')
            ]
          ]
        ]
  ]

  -- The variables of the loop over the allowed connections.
  pub record Search : Type 0 where
    pub smscs : List Conn
    -- best_ok, by its position, and bo_sent
    pub best : Option (ℤ × ℕ)
    pub bad_found : Bool

  -- `best_ok == NULL || info.load < bo_sent`
  unfoldable pub is_better : ℕ → Option (ℤ × ℕ) → Bool
  is_better load none = true
  is_better load (some (p, sent)) = ltb load sent

  -- The connection becomes the best if it takes the message and is better.
  unfoldable pub choose : (takes : Bool) → ℤ → ℕ → Option (ℤ × ℕ) → Option (ℤ × ℕ)
  unfolding is_better
  choose takes p load best = if takes && is_better load best then some (p, load) else best

  unfoldable pub try_allowed : Calls → Msg → List ℤ → Search → Option Search
  unfolding smscconn_info choose
  try_allowed c m [] s = some s
  try_allowed c m (p ∷ ps) s = elim (conn_at p s.smscs) [
    | none ↦ none
    | some k ↦
        let k' = (smscconn_info k).0 in
        let load = (smscconn_info k).2 in
        try_allowed c m ps (record {
          smscs = put_conn p k' s.smscs;
          best =
              choose (is_active (smscconn_info k).1 && smscconn_usable c k' (receiver m)) p load
                s.best;
          bad_found = not (is_active (smscconn_info k).1);
        })
  ]

  -- The result of the routing: -1, 0 or 1, with the connections and the queue of the process.
  pub record Routed : Type 0 where
    pub smscs : List Conn
    pub outgoing : Outgoing
    pub result : ℤ

  pub data Routing : Type 0 where
    done : Routed → Routing
    faulted : Routing
    out_of_fuel : Routing

  -- No connection was found.
  pub not_found : (shutdown : Bool) → Msg → Outgoing → Search → Routed
  not_found down m o s =
      if s.bad_found
      then record {
        smscs = s.smscs;
        outgoing = (if down then o else produce_outgoing_msg m o);
        result = pos 0;
      }
      else record { smscs = s.smscs; outgoing = o; result = (if down then pos 0 else minus_one) }

  -- An array of allowed positions with no entry leaves `allowed_smsc_len` unset.
  pub search_allowed : Calls → Msg → List ℤ → List Conn → Option Search
  unfolding try_allowed
  search_allowed c m [] cs = none
  search_allowed c m ps cs =
      try_allowed c m ps (record { smscs = cs; best = none; bad_found = false })

  -- The message is given to the best connection: `none` if that refuses it.
  pub send_best : Msg → ℤ → List Conn → Option (List Conn)
  send_best m p cs = elim (conn_at p cs) [
    | none ↦ none
    | some k ↦ elim (smscconn_send (to_be_sent m) k) [
      | none ↦ none
      | some k' ↦ some (put_conn p k' cs)
    ]
  ]

  -- What follows the loop over the allowed connections; `again` is the call of `smsc2_rout` by
  -- itself.
  pub after_search :
      Bool → Msg → Outgoing → (Msg → List Conn → Routing) → Search → Option (ℤ × ℕ) → Routing
  unfolding not_found send_best
  after_search down m o again s none = done (not_found down m o s)
  after_search down m o again s (some (p, sent)) = elim (send_best m p s.smscs) [
    | none ↦ again (to_be_sent m) s.smscs
    | some cs' ↦ done (record { smscs = cs'; outgoing = o; result = pos 1 })
  ]

  pub rout_allowed :
      Calls → Bool → Msg → List Conn → Outgoing → (Msg → List Conn → Routing) → List ℤ → Routing
  unfolding search_allowed after_search
  rout_allowed c down m cs o again ps = elim (search_allowed c m ps cs) [
    | none ↦ faulted
    | some s ↦ after_search down m o again s s.best
  ]

  pub read_allowed : (List ℤ → Routing) → List ℤ → Routing
  unfolding positions
  read_allowed use_them array = elim (positions array) [ none ↦ faulted | some ps ↦ use_them ps ]

  pub after_preferred :
      Calls → Bool → Msg → Outgoing → (Msg → List Conn → Routing) → Preferred → Routing
  unfolding rout_allowed read_allowed
  after_preferred c down m o again fault = faulted
  after_preferred c down m o again (destroyed cs) =
      done (record { smscs = cs; outgoing = o; result = minus_one })
  after_preferred c down m o again (taken cs) =
      done (record { smscs = cs; outgoing = o; result = pos 1 })
  after_preferred c down m o again (none_took m' cs) =
      read_allowed (rout_allowed c down m' cs o again) m.routing_info.allowed_smsc

  unfoldable pub smsc2_rout : Calls → Bool → ℕ → Msg → List Conn → Outgoing → Routing
  unfolding try_preferred after_preferred positions
  smsc2_rout c down zero m cs o = out_of_fuel
  smsc2_rout c down (suc fuel) m [] o =
      done (record { smscs = []; outgoing = o; result = minus_one })
  smsc2_rout c down (suc fuel) m (k ∷ ks) o = elim (positions m.routing_info.preferred_smsc) [
    | none ↦ faulted
    | some prefs ↦
        after_preferred c down m o (λ m' cs. smsc2_rout c down fuel m' cs o)
          (try_preferred c down m prefs (k ∷ ks))
  ]
