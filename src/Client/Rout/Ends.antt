-- ===== src/Client/Rout/Ends.antt =====
-- How the routing of a message ends: `smsc2_rout` of smpp-smsc/smsc.c over all its branches.
use smpp_server.Prelude.{
  ◌++◌, ℕ, suc, ◌≤◌, ◌≡◌, refl, sym, ◌∙◌, Bool, true, false, Option, none, some, List, [], ◌∷◌, All,
  Bool-cases, inl, inr, if_true, if_false,
}
use mathlib.Core.Path.{subst}
use smpp_server.Prelude.Int.{ℤ, pos, negsuc}
use smpp_server.Gwlib.{Gwlib}
use smpp_server.Client.Calls.{Calls}
use smpp_server.Client.Msg.{Msg}
use smpp_server.Client.Conn.{Conn}
use smpp_server.Client.Outgoing.{Outgoing}
use smpp_server.Client.Rout.{
  positions, Preferred, taken, none_took, destroyed, fault, Search, search_allowed, Routed, Routing,
  done, not_found, after_search, rout_allowed, read_allowed, after_preferred, smsc2_rout,
}
use smpp_server.Client.Rout.Idle.{conns, serves, serves_inv, Idle, given_at}
use smpp_server.Client.Rout.First.{Exists, FirstOf, Tried, try_preferred-Tried}
use smpp_server.Client.Rout.Least.{ends_inactive, Chosen, Covers, try_allowed-Searched}
use smpp_server.Client.Rout.Outcome.{
  Among, All-Among, send_best-Given, Outcome, to_preferred, to_least_loaded, back_to_queue,
  given_up, halted,
}

module _ ⦃gw : Gwlib⦄ where
  open gw use {Octstr}

  module _ (c : Calls) (down : Bool) (m : Msg) (fs : List Conn) (o : Outgoing) where
    -- A routing that ends, in one of the five ways.
    abbrev Ends : List ℤ → List ℤ → Routing → Type 0
    Ends prefs alloweds x = (r : Routed) × (x ≡ done r) × Outcome c down m fs o prefs alloweds r

    -- No connection was found.
    not_found-Outcome :
        (prefs alloweds : List ℤ) (s : Search)
        → All (Idle c m fs) prefs
        → All (Idle c m fs) alloweds
        → conns s.smscs ≡ fs
        → s.bad_found ≡ ends_inactive fs alloweds false
        → Outcome c down m fs o prefs alloweds (not_found down m o s)
    unfolding not_found
    not_found-Outcome prefs alloweds s i j e b = elim (Bool-cases s.bad_found) [
      | inl bad ↦ elim (Bool-cases down) [
        | inl d ↦ rw bad (given_up i j (inl (d, refl)) e (if_true down _ _ d))
        | inr d ↦ rw bad (back_to_queue i j (sym b ∙ bad) d e (if_false down _ _ d) refl)
      ]
      | inr good ↦ elim (Bool-cases down) [
        | inl d ↦ rw good (given_up i j (inl (d, if_true down _ _ d)) e refl)
        | inr d ↦ rw good (given_up i j (inr (d, sym b ∙ good, if_false down _ _ d)) e refl)
      ]
    ]

    -- The search among the allowed connections has ended.
    searched-Ends :
        (prefs alloweds : List ℤ) (s : Search) (best : Option (ℤ × ℕ))
        (again : Msg → List Conn → Routing)
        → All (Idle c m fs) prefs
        → conns s.smscs ≡ fs
        → s.bad_found ≡ ends_inactive fs alloweds false
        → Chosen c m fs (λ p. Among p alloweds) best
        → All (Covers c m fs best) alloweds
        → Ends prefs alloweds (after_search down m o again s best)
    unfolding after_search
    searched-Ends prefs alloweds s none again i e b ch cov =
        (not_found down m o s, refl, not_found-Outcome prefs alloweds s i cov e b)
    searched-Ends prefs alloweds s (some (p, load)) again i e b (among, ready, same) cov =
        let (cs', run, given) = send_best-Given c m fs p s.smscs e ready in
        (
          record { smscs = cs'; outgoing = o; result = pos 1 },
          rw (after_search, run) refl,
          to_least_loaded p i among ready
              (subst (λ x. All (λ q. serves c m fs q ≡ true → x ≤ given_at fs q) alloweds) same cov)
              given refl refl,
        )

    allowed-Ends :
        (prefs : List ℤ) (q : ℤ) (qs : List ℤ) (cs : List Conn) (again : Msg → List Conn → Routing)
        → conns cs ≡ fs
        → All (Idle c m fs) prefs
        → All (Exists fs) (q ∷ qs)
        → positions m.routing_info.allowed_smsc ≡ some (q ∷ qs)
        → Ends prefs
            (q ∷ qs)
            (read_allowed (rout_allowed c down m cs o again) m.routing_info.allowed_smsc)
    unfolding read_allowed rout_allowed search_allowed
    allowed-Ends prefs q qs cs again e i h array =
        let start : Search = record { smscs = cs; best = none; bad_found = false } in
        let (s, run, found) =
          try_allowed-Searched c m fs (λ p. Among p (q ∷ qs)) (q ∷ qs) start e h
            (All-Among (λ p. Among p (q ∷ qs)) (q ∷ qs) (λ p a. a)) tt in
        rw (read_allowed, array, rout_allowed, run)
          (searched-Ends prefs (q ∷ qs) s s.best again i found.kept found.bad found.chosen
            found.covers)

    -- The array of allowed connections is read only if it is not empty.
    abbrev Read : List ℤ → List ℤ → Type 0
    Read prefs alloweds = alloweds ≡ [] → (p : ℤ) × FirstOf c m fs p prefs

    none_first :
        (p : ℤ) (prefs before after : List ℤ)
        → prefs ≡ before ++ p ∷ after
        → serves c m fs p ≡ true
        → All (Idle c m fs) prefs
        → ⊥
    none_first p prefs [] after e h i = let j = subst (All (Idle c m fs)) e i in cc (j.0, h)
    none_first p prefs (b ∷ before) after e h i =
        let j = subst (All (Idle c m fs)) e i in
        none_first p (before ++ p ∷ after) before after refl h j.1

    read-Ends :
        (prefs alloweds : List ℤ) (cs : List Conn) (again : Msg → List Conn → Routing)
        → conns cs ≡ fs
        → All (Idle c m fs) prefs
        → All (Exists fs) alloweds
        → positions m.routing_info.allowed_smsc ≡ some alloweds
        → Read prefs alloweds
        → Ends prefs alloweds
            (read_allowed (rout_allowed c down m cs o again) m.routing_info.allowed_smsc)
    read-Ends prefs [] cs again e i h array r =
        let (p, f) = r refl in absurd (none_first p prefs f.before f.after f.split f.ready i)
    read-Ends prefs (q ∷ qs) cs again e i h array r = allowed-Ends prefs q qs cs again e i h array

    preferred-Ends :
        (prefs alloweds : List ℤ) (again : Msg → List Conn → Routing) (t : Preferred)
        → All (Exists fs) alloweds
        → positions m.routing_info.allowed_smsc ≡ some alloweds
        → Read prefs alloweds
        → Tried c down m fs prefs t
        → Ends prefs alloweds (after_preferred c down m o again t)
    unfolding after_preferred
    preferred-Ends prefs alloweds again fault h array r t = absurd t
    preferred-Ends prefs alloweds again (destroyed cs) h array r (e, d, p, f) =
        (_, refl, halted p d f refl e refl)
    preferred-Ends prefs alloweds again (taken cs) h array r (p, first, given) =
        (_, refl, to_preferred p first given refl refl)
    preferred-Ends prefs alloweds again (none_took m' cs) h array r (same, e, idle) =
        subst
          (λ x.
            Ends prefs alloweds
              (read_allowed (rout_allowed c down x cs o again) m.routing_info.allowed_smsc))
          (sym same) (read-Ends prefs alloweds cs again e idle h array r)

  no_position : (q : ℤ) → Exists [] q → ⊥
  no_position (pos i) (k, h) = cc
  no_position (negsuc i) (k, h) = cc

  empty-Read :
      (c : Calls) (m : Msg) (prefs alloweds : List ℤ)
      → All (Exists []) alloweds
      → (alloweds ≡ [] → (p : ℤ) × FirstOf c m [] p prefs)
      → ⊥
  empty-Read c m prefs [] h r =
      let (p, f) = r refl in
      let (k, at, usable) = serves_inv c m [] p f.ready in no_position p (k, at)
  empty-Read c m prefs (q ∷ qs) h r = no_position q h.0

  pub smsc2_rout-Outcome :
      (c : Calls) (down : Bool) (fuel : ℕ) (m : Msg) (cs : List Conn) (o : Outgoing)
      (prefs alloweds : List ℤ)
      → positions m.routing_info.preferred_smsc ≡ some prefs
      → positions m.routing_info.allowed_smsc ≡ some alloweds
      → All (Exists (conns cs)) prefs
      → All (Exists (conns cs)) alloweds
      → (alloweds ≡ [] → (p : ℤ) × FirstOf c m (conns cs) p prefs)
      → (r : Routed) × (smsc2_rout c down (suc fuel) m cs o ≡ done r)
        × Outcome c down m (conns cs) o prefs alloweds r
  unfolding smsc2_rout
  smsc2_rout-Outcome c down fuel m [] o prefs alloweds array allowed h j r =
      absurd (empty-Read c m prefs alloweds j r)
  smsc2_rout-Outcome c down fuel m (k ∷ ks) o prefs alloweds array allowed h j r =
      rw (smsc2_rout, array)
        (preferred-Ends c down m (conns (k ∷ ks)) o prefs alloweds
          (λ m' cs. smsc2_rout c down fuel m' cs o) _ j allowed r
          (try_preferred-Tried c down m (conns (k ∷ ks)) prefs (k ∷ ks) refl h))

  pub not_nil : {B : Type 0} {q : B} {qs : List B} {A : Type 0} → (q ∷ qs) ≡ [] → A
  not_nil e = cc
