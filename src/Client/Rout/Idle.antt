-- ===== src/Client/Rout/Idle.antt =====
-- What the routing reads of a connection, which is all but its load.
use smpp_server.Prelude.{
  ℕ, ◌≡◌, refl, sym, ap, ◌∙◌, Bool, true, false, not, ◌&&◌, none, some, List, map, arith,
  get_elem?-map, set_self, map-set, Option-cases, inl, inr,
}
use mathlib.Core.Option
use smpp_server.Prelude.Int.{ℤ, pos, negsuc}
use smpp_server.Prelude.Options.{map-eq-some}
use smpp_server.Gwlib.{Gwlib}
use smpp_server.Client.Calls.{Calls}
use smpp_server.Client.Msg.{Msg}
use smpp_server.Client.Conn.{
  Conn, ConnStatus, is_active, is_dead, smscconn_active, smscconn_connecting, smscconn_active_recv,
  smscconn_reconnecting, smscconn_disconnected, smscconn_dead, queued_cb, smscconn_usable,
  smscconn_info, smscconn_send, send_msg_cb,
}
use smpp_server.Client.Rout.{conn_at, put_conn, receiver}

active-not_dead : (s : ConnStatus) → is_active s ≡ true → is_dead s ≡ false
active-not_dead smscconn_active h = refl
active-not_dead smscconn_connecting h = cc
active-not_dead smscconn_active_recv h = cc
active-not_dead smscconn_reconnecting h = cc
active-not_dead smscconn_disconnected h = cc
active-not_dead smscconn_dead h = cc

and_right : (a b : Bool) → (a && b) ≡ true → b ≡ true
and_right true b h = h
and_right false b h = cc

module _ ⦃gw : Gwlib⦄ where
  open gw use {Octstr}

  abbrev pub forget_load : Conn → Conn
  forget_load k = record k { load = 0 }

  -- The connections without their loads, which the routing refreshes on its way.
  abbrev pub conns : List Conn → List Conn
  conns cs = map forget_load cs

  pub info-conn : (k : Conn) → forget_load (smscconn_info k).0 ≡ forget_load k
  unfolding smscconn_info queued_cb
  info-conn k = ground arith

  pub info-status : (k : Conn) → (smscconn_info k).1 ≡ k.status
  unfolding smscconn_info queued_cb
  info-status k = ground arith

  pub info-load : (k : Conn) → is_active k.status ≡ true → (smscconn_info k).2 ≡ k.received
  unfolding smscconn_info queued_cb
  info-load k h = ground (arith, active-not_dead k.status h)

  pub usable-forget :
      (c : Calls) (k : Conn) (r : Octstr)
      → smscconn_usable c (forget_load k) r ≡ smscconn_usable c k r
  unfolding smscconn_usable
  usable-forget c k r = refl

  pub usable-info :
      (c : Calls) (k : Conn) (r : Octstr)
      → smscconn_usable c (smscconn_info k).0 r ≡ smscconn_usable c k r
  usable-info c k r =
      sym (usable-forget c (smscconn_info k).0 r)
      ∙ ap (λ x. smscconn_usable c x r) (info-conn k)
      ∙ usable-forget c k r

  -- A connection that is usable takes what it is sent.
  pub usable-send :
      (c : Calls) (k : Conn) (r : Octstr) (m : Msg)
      → smscconn_usable c k r ≡ true
      → smscconn_send m k ≡ some (send_msg_cb m k)
  unfolding smscconn_usable smscconn_send
  usable-send c k r m h = ground arith

  pub conn_at-conns :
      (p : ℤ) (cs : List Conn) → conn_at p (conns cs) ≡ Option.map forget_load (conn_at p cs)
  conn_at-conns (pos i) cs = get_elem?-map forget_load cs i
  conn_at-conns (negsuc i) cs = refl

  -- A connection in the list, behind what is known of it.
  pub conn_at_inv :
      (p : ℤ) (cs : List Conn) {k : Conn}
      → conn_at p (conns cs) ≡ some k
      → (k0 : Conn) × (conn_at p cs ≡ some k0) × (forget_load k0 ≡ k)
  conn_at_inv p cs h = map-eq-some forget_load (conn_at p cs) (sym (conn_at-conns p cs) ∙ h)

  pub conns-put :
      (p : ℤ) (cs : List Conn) (k : Conn)
      → conns (put_conn p k cs) ≡ put_conn p (forget_load k) (conns cs)
  conns-put (pos i) cs k = map-set forget_load cs i k
  conns-put (negsuc i) cs k = refl

  put_self : (p : ℤ) (cs : List Conn) {k : Conn} → conn_at p cs ≡ some k → put_conn p k cs ≡ cs
  put_self (pos i) cs h = set_self cs i h
  put_self (negsuc i) cs h = refl

  -- To ask a connection for its state leaves the connections as they are.
  pub conns-info :
      (p : ℤ) (cs : List Conn) (k : Conn)
      → conn_at p cs ≡ some k
      → conns (put_conn p (smscconn_info k).0 cs) ≡ conns cs
  conns-info p cs k h =
      conns-put p cs (smscconn_info k).0
      ∙ ap (λ x. put_conn p x (conns cs)) (info-conn k)
      ∙ put_self p (conns cs) (conn_at-conns p cs ∙ ap (Option.map forget_load) h)

  module _ (c : Calls) (m : Msg) (fs : List Conn) where
    -- The connection at a position is active and usable for the message.
    pub serves : ℤ → Bool
    serves p = elim (conn_at p fs) [
      | none ↦ false
      | some k ↦ is_active k.status && smscconn_usable c k (receiver m)
    ]

    abbrev pub Idle : ℤ → Type 0
    Idle p = serves p ≡ false

  module _ (fs : List Conn) where
    -- How many messages the connection has been given.
    pub given_at : ℤ → ℕ
    given_at p = elim (conn_at p fs) [ none ↦ 0 | some k ↦ k.received ]

    pub inactive : ℤ → Bool
    inactive p = elim (conn_at p fs) [ none ↦ false | some k ↦ not (is_active k.status) ]

  -- What the tests of the loop say of the connection that is asked.
  pub serves_lem :
      (c : Calls) (m : Msg) (fs : List Conn) (p : ℤ) (k k0 : Conn)
      → conn_at p fs ≡ some k
      → forget_load k0 ≡ k
      → serves c m fs p ≡ (is_active k0.status && smscconn_usable c k0 (receiver m))
  unfolding serves
  serves_lem c m fs p k k0 h e =
      rw (h, serves)
        (ap (λ x. is_active x.status && smscconn_usable c x (receiver m)) (sym e)
          ∙ ap (λ b. is_active k0.status && b) (usable-forget c k0 (receiver m)))

  pub given_at_lem :
      (fs : List Conn) (p : ℤ) {k : Conn} → conn_at p fs ≡ some k → given_at fs p ≡ k.received
  unfolding given_at
  given_at_lem fs p h = rw (h, given_at)

  pub inactive_lem :
      (fs : List Conn) (p : ℤ) {k : Conn}
      → conn_at p fs ≡ some k
      → inactive fs p ≡ not (is_active k.status)
  unfolding inactive
  inactive_lem fs p h = rw (h, inactive)

  serves_nowhere :
      (c : Calls) (m : Msg) (fs : List Conn) (p : ℤ) → conn_at p fs ≡ none → serves c m fs p ≡ false
  unfolding serves
  serves_nowhere c m fs p h = rw (h, serves)

  serves_at :
      (c : Calls) (m : Msg) (fs : List Conn) (p : ℤ) (k : Conn)
      → conn_at p fs ≡ some k
      → serves c m fs p ≡ (is_active k.status && smscconn_usable c k (receiver m))
  unfolding serves
  serves_at c m fs p k h = rw (h, serves)

  -- All that is read of a message is its receiver.
  pub serves-receiver :
      (c : Calls) (m m' : Msg) (fs : List Conn) (p : ℤ)
      → receiver m ≡ receiver m'
      → serves c m fs p ≡ serves c m' fs p
  serves-receiver c m m' fs p e = elim (Option-cases (conn_at p fs)) [
    | inl at ↦ serves_nowhere c m fs p at ∙ sym (serves_nowhere c m' fs p at)
    | inr (k, at) ↦
        serves_at c m fs p k at
        ∙ ap (λ x. is_active k.status && smscconn_usable c k x) e
        ∙ sym (serves_at c m' fs p k at)
  ]

  pub serves_inv :
      (c : Calls) (m : Msg) (fs : List Conn) (p : ℤ)
      → serves c m fs p ≡ true
      → (k : Conn) × (conn_at p fs ≡ some k) × (smscconn_usable c k (receiver m) ≡ true)
  serves_inv c m fs p h = elim (Option-cases (conn_at p fs)) [
    | inl e ↦ cc (h, serves_nowhere c m fs p e)
    | inr (k, e) ↦ (k, e, and_right _ _ (sym (serves_at c m fs p k e) ∙ h))
  ]
