-- ===== src/Client/Rout/Least.antt =====
-- The loop over the allowed connections.
use smpp_server.Prelude.{
  ℕ, ◌≤◌, ◌≡◌, refl, sym, ap, ◌∙◌, Bool, true, false, not, ◌&&◌, Option, none, some, List, [], ◌∷◌,
  All, Bool-cases, inl, inr, ltb, arith,
}
use smpp_server.Prelude.Int.{ℤ}
use smpp_server.Gwlib.{Gwlib}
use smpp_server.Client.Calls.{Calls}
use smpp_server.Client.Msg.{Msg}
use smpp_server.Client.Conn.{Conn, is_active, smscconn_usable, smscconn_info}
use smpp_server.Client.Rout.{put_conn, receiver, Search, choose, try_allowed}
use smpp_server.Client.Rout.Idle.{
  conns, info-status, info-load, serves, given_at, inactive, given_at_lem, inactive_lem,
}
use smpp_server.Client.Rout.First.{Exists, Asked, asked, Asked-serves}

module _ ⦃gw : Gwlib⦄ where
  open gw use {Octstr}

  and_left : (a b : Bool) → (a && b) ≡ true → a ≡ true
  and_left true b h = refl
  and_left false b h = h

  Asked-given_at :
      (fs : List Conn) (p : ℤ) (cs : List Conn) (k0 : Conn)
      → Asked fs p cs k0
      → is_active (smscconn_info k0).1 ≡ true
      → (smscconn_info k0).2 ≡ given_at fs p
  Asked-given_at fs p cs k0 a on =
      info-load k0 (ap is_active (sym (info-status k0)) ∙ on) ∙ sym (given_at_lem fs p a.shown)

  -- Whether the last connection of a list is inactive.
  abbrev pub ends_inactive : List Conn → List ℤ → Bool → Bool
  ends_inactive fs [] b = b
  ends_inactive fs (p ∷ ps) b = ends_inactive fs ps (inactive fs p)

  module _ (c : Calls) (m : Msg) (fs : List Conn) where
    -- The choice so far is one of the listed connections, and takes the message.
    abbrev pub Chosen : (ℤ → Type 0) → Option (ℤ × ℕ) → Type 0
    Chosen Listed none = Unit
    Chosen Listed (some (p, load)) = Listed p × (serves c m fs p ≡ true) × (load ≡ given_at fs p)

    -- No other connection would have been better.
    abbrev pub Covers : Option (ℤ × ℕ) → ℤ → Type 0
    Covers none q = serves c m fs q ≡ false
    Covers (some (p, load)) q = serves c m fs q ≡ true → load ≤ given_at fs q

    choose-Chosen :
        (Listed : ℤ → Type 0) (t : Bool) (p : ℤ) (load : ℕ) (b : Option (ℤ × ℕ))
        → serves c m fs p ≡ t
        → (t ≡ true → load ≡ given_at fs p)
        → Listed p
        → Chosen Listed b
        → Chosen Listed (choose t p load b)
    unfolding choose
    choose-Chosen Listed false p load b is same l h = h
    choose-Chosen Listed true p load none is same l h = (l, is, same refl)
    choose-Chosen Listed true p load (some (q, sent)) is same l h =
        elim (Bool-cases (ltb load sent)) [ inl lt ↦ rw lt (l, is, same refl) | inr ge ↦ rw ge h ]

    choose-Covers_self :
        (t : Bool) (p : ℤ) (load : ℕ) (b : Option (ℤ × ℕ))
        → serves c m fs p ≡ t
        → (t ≡ true → load ≡ given_at fs p)
        → Covers (choose t p load b) p
    unfolding choose
    choose-Covers_self false p load none is same = is
    choose-Covers_self false p load (some (q, sent)) is same = λ yes_it. cc
    choose-Covers_self true p load none is same = λ yes_it. omega (arith, same refl)
    choose-Covers_self true p load (some (q, sent)) is same = let e = same refl in ground arith

    choose-Covers :
        (t : Bool) (p : ℤ) (load : ℕ) (b : Option (ℤ × ℕ)) (q : ℤ)
        → Covers b q
        → Covers (choose t p load b) q
    unfolding choose
    choose-Covers false p load b q h = h
    choose-Covers true p load none q h = λ yes_it. cc
    choose-Covers true p load (some (r, sent)) q h = elim (Bool-cases (ltb load sent)) [
      | inl lt ↦ rw lt (λ yes_it. let x = h yes_it in ground arith)
      | inr ge ↦ rw ge h
    ]

    -- What the loop comes to: the connections are as they were, but for their loads.
    pub record Searched (Listed : ℤ → Type 0) (ps : List ℤ) (s s' : Search) : Type 0 where
      pub kept : conns s'.smscs ≡ fs
      pub chosen : Chosen Listed s'.best
      pub covers : All (Covers s'.best) ps
      pub older : (q : ℤ) → Covers s.best q → Covers s'.best q
      pub bad : s'.bad_found ≡ ends_inactive fs ps s.bad_found

    pub try_allowed-Searched :
        (Listed : ℤ → Type 0) (ps : List ℤ) (s : Search)
        → conns s.smscs ≡ fs
        → All (Exists fs) ps
        → All Listed ps
        → Chosen Listed s.best
        → (s' : Search) × (try_allowed c m ps s ≡ some s') × Searched Listed ps s s'
    unfolding try_allowed
    try_allowed-Searched Listed [] s e h l g =
        (s, refl, record { kept = e; chosen = g; covers = tt; older = λ q x. x; bad = refl })
    try_allowed-Searched Listed (p ∷ ps) s e h l g =
        let (k0, a) = asked fs p s.smscs e h.0 in
        let is = Asked-serves c m fs p s.smscs k0 a in
        let t =
          is_active (smscconn_info k0).1 && smscconn_usable c (smscconn_info k0).0 (receiver m) in
        let load = (smscconn_info k0).2 in
        let same : t ≡ true → load ≡ given_at fs p =
          λ on. Asked-given_at fs p s.smscs k0 a (and_left _ _ on) in
        let next : Search = record {
          smscs = put_conn p (smscconn_info k0).0 s.smscs;
          best = choose t p load s.best;
          bad_found = not (is_active (smscconn_info k0).1);
        } in
        let (s', run, r) =
          try_allowed-Searched Listed ps next a.kept h.1 l.1
            (choose-Chosen Listed t p load s.best is same l.0 g) in
        (
          s',
          rw (try_allowed, a.stored) run,
          record {
            kept = r.kept;
            chosen = r.chosen;
            covers = (r.older p (choose-Covers_self t p load s.best is same), r.covers);
            older = λ q x. r.older q (choose-Covers t p load s.best q x);
            bad =
                r.bad
                ∙ ap (ends_inactive fs ps) (
                    ap (λ x. not (is_active x)) (info-status k0) ∙ sym (inactive_lem fs p a.shown));
          },
        )
