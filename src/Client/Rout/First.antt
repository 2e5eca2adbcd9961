-- ===== src/Client/Rout/First.antt =====
-- The loop over the preferred connections.
use smpp_server.Prelude.{
  not, ◌≡◌, refl, sym, ap, ◌∙◌, Bool, true, false, ◌&&◌, some, List, [], ◌∷◌, ◌++◌, All, Bool-cases,
  inl, inr,
}
use smpp_server.Prelude.Int.{ℤ}
use smpp_server.Gwlib.{Gwlib}
use smpp_server.Client.Calls.{Calls}
use smpp_server.Client.Msg.{Msg}
use smpp_server.Client.Conn.{Conn, is_active, smscconn_usable, smscconn_info, send_msg_cb}
use smpp_server.Client.Rout.{
  conn_at, put_conn, to_be_sent, receiver, Preferred, taken, none_took, destroyed, fault,
  try_preferred,
}
use smpp_server.Client.Rout.Idle.{
  serves-receiver, inactive, inactive_lem, forget_load, conns, info-conn, info-status, usable-info,
  usable-send, conn_at_inv, conns-put, conns-info, serves, Idle, serves_lem,
}

module _ ⦃gw : Gwlib⦄ where
  open gw use {Octstr}

  -- The position is one of a connection.
  abbrev pub Exists : List Conn → ℤ → Type 0
  Exists fs p = (k : Conn) × (conn_at p fs ≡ some k)

  -- The message is on the queue of the connection at the position, and nothing else has changed.
  pub record Given (m : Msg) (fs : List Conn) (p : ℤ) (cs : List Conn) : Type 0 where
    pub conn : Conn
    pub there : conn_at p fs ≡ some conn
    pub queued : conns cs ≡ put_conn p (send_msg_cb (to_be_sent m) conn) fs

  -- A connection that serves the message, with none before it in the list.
  pub record FirstOf (c : Calls) (m : Msg) (fs : List Conn) (p : ℤ) (ps : List ℤ) : Type 0 where
    pub before : List ℤ
    pub after : List ℤ
    pub split : ps ≡ before ++ p ∷ after
    pub idle : All (Idle c m fs) before
    pub ready : serves c m fs p ≡ true

  Idle-receiver :
      (c : Calls) (m m' : Msg) (fs : List Conn) (ps : List ℤ)
      → receiver m ≡ receiver m'
      → All (Idle c m fs) ps
      → All (Idle c m' fs) ps
  Idle-receiver c m m' fs [] e h = tt
  Idle-receiver c m m' fs (p ∷ ps) e h =
      (sym (serves-receiver c m m' fs p e) ∙ h.0, Idle-receiver c m m' fs ps e h.1)

  -- The connection is the first for any message with this receiver.
  pub FirstOf-receiver :
      (c : Calls) (m m' : Msg) (fs : List Conn) (p : ℤ) (ps : List ℤ)
      → receiver m ≡ receiver m'
      → FirstOf c m fs p ps
      → FirstOf c m' fs p ps
  FirstOf-receiver c m m' fs p ps e f = record {
    before = f.before;
    after = f.after;
    split = f.split;
    idle = Idle-receiver c m m' fs f.before e f.idle;
    ready = sym (serves-receiver c m m' fs p e) ∙ f.ready;
  }

  -- An inactive connection, with none before it in the list that serves the message.
  pub record Halted (c : Calls) (m : Msg) (fs : List Conn) (p : ℤ) (ps : List ℤ) : Type 0 where
    pub before : List ℤ
    pub after : List ℤ
    pub split : ps ≡ before ++ p ∷ after
    pub idle : All (Idle c m fs) before
    pub off : inactive fs p ≡ true

  abbrev pub Tried : Calls → Bool → Msg → List Conn → List ℤ → Preferred → Type 0
  Tried c down m fs ps (taken cs) = (p : ℤ) × FirstOf c m fs p ps × Given m fs p cs
  Tried c down m fs ps (none_took m' cs) = (m' ≡ m) × (conns cs ≡ fs) × All (Idle c m fs) ps
  Tried c down m fs ps (destroyed cs) =
      (conns cs ≡ fs) × (down ≡ true) × (p : ℤ) × Halted c m fs p ps
  Tried c down m fs ps fault = ⊥

  -- An idle connection in front of the list.
  Tried-behind :
      (c : Calls) (down : Bool) (m : Msg) (fs : List Conn) (p : ℤ) (ps : List ℤ) (r : Preferred)
      → Idle c m fs p
      → Tried c down m fs ps r
      → Tried c down m fs (p ∷ ps) r
  Tried-behind c down m fs p ps (taken cs) i (q, f, g) = (
    q,
    record {
      before = p ∷ f.before;
      after = f.after;
      split = ap (◌∷◌ p) f.split;
      idle = (i, f.idle);
      ready = f.ready;
    },
    g,
  )
  Tried-behind c down m fs p ps (none_took m' cs) i t = (t.0, t.1, (i, t.2))
  Tried-behind c down m fs p ps (destroyed cs) i (e, d, q, f) = (
    e,
    d,
    q,
    record {
      before = p ∷ f.before;
      after = f.after;
      split = ap (◌∷◌ p) f.split;
      idle = (i, f.idle);
      off = f.off;
    },
  )
  Tried-behind c down m fs p ps fault i t = t

  -- The connection at a position, and what is true of it after it was asked for its state.
  pub record Asked (fs : List Conn) (p : ℤ) (cs : List Conn) (k0 : Conn) : Type 0 where
    pub stored : conn_at p cs ≡ some k0
    pub shown : conn_at p fs ≡ some (forget_load k0)
    pub kept : conns (put_conn p (smscconn_info k0).0 cs) ≡ fs

  pub asked :
      (fs : List Conn) (p : ℤ) (cs : List Conn)
      → conns cs ≡ fs
      → Exists fs p
      → (k0 : Conn) × Asked fs p cs k0
  asked fs p cs e (k, at) =
      let (k0, stored, shown) = conn_at_inv p cs (ap (conn_at p) e ∙ at) in
      (
        k0,
        record {
          stored = stored;
          shown = at ∙ ap some (sym shown);
          kept = conns-info p cs k0 stored ∙ e;
        },
      )

  pub Asked-serves :
      (c : Calls) (m : Msg) (fs : List Conn) (p : ℤ) (cs : List Conn) (k0 : Conn)
      → Asked fs p cs k0
      → serves c m fs p
        ≡ (is_active (smscconn_info k0).1 && smscconn_usable c (smscconn_info k0).0 (receiver m))
  Asked-serves c m fs p cs k0 a =
      serves_lem c m fs p (forget_load k0) k0 a.shown refl
      ∙ ap (λ s. is_active s && smscconn_usable c k0 (receiver m)) (sym (info-status k0))
      ∙ ap (λ b. is_active (smscconn_info k0).1 && b) (sym (usable-info c k0 (receiver m)))

  -- The message is put on the queue of the connection that was asked.
  pub Asked-Given :
      (m : Msg) (fs : List Conn) (p : ℤ) (cs : List Conn) (k0 : Conn)
      → Asked fs p cs k0
      → Given m fs p (
          put_conn p
            (send_msg_cb (to_be_sent m) (smscconn_info k0).0)
            (put_conn p (smscconn_info k0).0 cs))
  unfolding send_msg_cb
  Asked-Given m fs p cs k0 a = record {
    conn = forget_load k0;
    there = a.shown;
    queued =
        conns-put p (put_conn p (smscconn_info k0).0 cs) _
        ∙ ap
            (λ x.
              put_conn p (send_msg_cb (to_be_sent m) x)
                (conns (put_conn p (smscconn_info k0).0 cs)))
            (info-conn k0)
        ∙ ap (put_conn p (send_msg_cb (to_be_sent m) (forget_load k0))) a.kept;
  }

  Tried-off :
      (c : Calls) (down : Bool) (m : Msg) (fs : List Conn) (p : ℤ) (ps : List ℤ) (cs : List Conn)
      (r : Preferred)
      → conns cs ≡ fs
      → inactive fs p ≡ true
      → Idle c m fs p
      → Tried c down m fs ps r
      → Tried c down m fs (p ∷ ps) (elim down [ true ↦ destroyed cs | false ↦ r ])
  Tried-off c true m fs p ps cs r e off i rest =
      (e, refl, p, record { before = []; after = ps; split = refl; idle = tt; off = off })
  Tried-off c false m fs p ps cs r e off i rest = Tried-behind c false m fs p ps r i rest

  pub try_preferred-Tried :
      (c : Calls) (down : Bool) (m : Msg) (fs : List Conn) (ps : List ℤ) (cs : List Conn)
      → conns cs ≡ fs
      → All (Exists fs) ps
      → Tried c down m fs ps (try_preferred c down m ps cs)
  unfolding try_preferred
  try_preferred-Tried c down m fs [] cs e h = (refl, e, tt)
  try_preferred-Tried c down m fs (p ∷ ps) cs e h =
      let (k0, a) = asked fs p cs e h.0 in
      let cs' = put_conn p (smscconn_info k0).0 cs in
      let is = Asked-serves c m fs p cs k0 a in
      let rest = try_preferred-Tried c down m fs ps cs' a.kept h.1 in
      elim (Bool-cases (is_active (smscconn_info k0).1)) [
        | inl on ↦ elim (Bool-cases (smscconn_usable c (smscconn_info k0).0 (receiver m))) [
          | inl usable ↦
              rw
                (
                  try_preferred,
                  a.stored,
                  on,
                  usable,
                  usable-send c (smscconn_info k0).0 (receiver m) (to_be_sent m) usable,
                )
                (
                  p,
                  record { before = []; after = ps; split = refl; idle = tt; ready = is ∙ cc },
                  Asked-Given m fs p cs k0 a,
                )
          | inr unusable ↦
              rw (try_preferred, a.stored, on, unusable)
                (Tried-behind c down m fs p ps _ (cc is) rest)
        ]
        | inr off ↦
            rw (try_preferred, a.stored, off)
              (Tried-off c down m fs p ps cs' _ a.kept
                (inactive_lem fs p a.shown
                  ∙ ap (λ x. not (is_active x)) (sym (info-status k0))
                  ∙ ap not off)
                (cc (is, off)) rest)
      ]
