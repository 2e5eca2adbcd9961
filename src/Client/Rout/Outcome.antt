-- ===== src/Client/Rout/Outcome.antt =====
-- What becomes of a message that is routed.
use smpp_server.Prelude.{
  ◌≤◌, ◌≡◌, ◌⊎◌, refl, sym, ap, ◌∙◌, Bool, true, false, some, List, [], ◌∷◌, All, inl, inr,
}
use smpp_server.Prelude.Int.{ℤ, pos, minus_one}
use smpp_server.Gwlib.{Gwlib}
use smpp_server.Client.Calls.{Calls}
use smpp_server.Client.Msg.{Msg}
use smpp_server.Client.Conn.{Conn, smscconn_usable, send_msg_cb}
use smpp_server.Client.Outgoing.{Outgoing, produce_outgoing_msg}
use smpp_server.Client.Rout.{conn_at, put_conn, to_be_sent, receiver, Routed, send_best}
use smpp_server.Client.Rout.Idle.{
  conns, usable-forget, usable-send, conn_at_inv, conns-put, serves, serves_inv, Idle, given_at,
}
use smpp_server.Client.Rout.First.{Given, FirstOf, Halted}
use smpp_server.Client.Rout.Least.{ends_inactive}

abbrev pub Among : ℤ → List ℤ → Type 0
Among p [] = ⊥
Among p (q ∷ qs) = (p ≡ q) ⊎ Among p qs

pub All-Among : (P : ℤ → Type 0) (ps : List ℤ) → ((p : ℤ) → Among p ps → P p) → All P ps
All-Among P [] f = tt
All-Among P (p ∷ ps) f = (f p (inl refl), All-Among P ps (λ q a. f q (inr a)))

module _ ⦃gw : Gwlib⦄ where
  open gw use {Octstr}

  -- The five ends of the routing of a message over the connections `fs`.
  pub data Outcome (c : Calls) (down : Bool) (m : Msg) (fs : List Conn) (o : Outgoing)
      (prefs alloweds : List ℤ) : Routed → Type 0 where
    to_preferred :
        {r : Routed} (p : ℤ)
        → FirstOf c m fs p prefs
        → Given m fs p r.smscs
        → r.outgoing ≡ o
        → r.result ≡ pos 1
        → Outcome c down m fs o prefs alloweds r
    to_least_loaded :
        {r : Routed} (p : ℤ)
        → All (Idle c m fs) prefs
        → Among p alloweds
        → serves c m fs p ≡ true
        → All (λ q. serves c m fs q ≡ true → given_at fs p ≤ given_at fs q) alloweds
        → Given m fs p r.smscs
        → r.outgoing ≡ o
        → r.result ≡ pos 1
        → Outcome c down m fs o prefs alloweds r
    back_to_queue :
        {r : Routed}
        → All (Idle c m fs) prefs
        → All (Idle c m fs) alloweds
        → ends_inactive fs alloweds false ≡ true
        → down ≡ false
        → conns r.smscs ≡ fs
        → r.outgoing ≡ produce_outgoing_msg m o
        → r.result ≡ pos 0
        → Outcome c down m fs o prefs alloweds r
    given_up :
        {r : Routed}
        → All (Idle c m fs) prefs
        → All (Idle c m fs) alloweds
        → ((down ≡ true) × (r.result ≡ pos 0))
          ⊎ ((down ≡ false) × (ends_inactive fs alloweds false ≡ false) × (r.result ≡ minus_one))
        → conns r.smscs ≡ fs
        → r.outgoing ≡ o
        → Outcome c down m fs o prefs alloweds r
    halted :
        {r : Routed} (p : ℤ)
        → down ≡ true
        → Halted c m fs p prefs
        → r.result ≡ minus_one
        → conns r.smscs ≡ fs
        → r.outgoing ≡ o
        → Outcome c down m fs o prefs alloweds r

  -- A connection that serves the message takes it.
  pub send_best-Given :
      (c : Calls) (m : Msg) (fs : List Conn) (p : ℤ) (cs : List Conn)
      → conns cs ≡ fs
      → serves c m fs p ≡ true
      → (cs' : List Conn) × (send_best m p cs ≡ some cs') × Given m fs p cs'
  unfolding send_best send_msg_cb
  send_best-Given c m fs p cs e h =
      let (k, at, usable) = serves_inv c m fs p h in
      let (k0, stored, shown) = conn_at_inv p cs (ap (conn_at p) e ∙ at) in
      let usable0 =
        sym (usable-forget c k0 (receiver m))
        ∙ ap (λ x. smscconn_usable c x (receiver m)) shown
        ∙ usable in
      (
        put_conn p (send_msg_cb (to_be_sent m) k0) cs,
        rw (send_best, stored, usable-send c k0 (receiver m) (to_be_sent m) usable0) refl,
        record {
          conn = k;
          there = at;
          queued =
              conns-put p cs _
              ∙ ap (λ x. put_conn p (send_msg_cb (to_be_sent m) x) (conns cs)) shown
              ∙ ap (put_conn p (send_msg_cb (to_be_sent m) k)) e;
        },
      )
