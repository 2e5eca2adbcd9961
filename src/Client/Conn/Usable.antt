-- ===== src/Client/Conn/Usable.antt =====
-- Which numbers a connection serves: `smscconn_usable`.
use smpp_server.Prelude.{◌≡◌, ◌↔◌, true, false, arith}
use smpp_server.Gwlib.{Gwlib}
use smpp_server.Client.Calls.{Calls}
use smpp_server.Client.Conn.{
  Conn, is_dead, is_alive, is_set, matches, regex_matches, smscconn_usable,
}

module _ ⦃gw : Gwlib⦄ where
  open gw use {Octstr}

  -- The connection is alive, and its lists let the receiver through: a list of denied prefixes
  -- forbids what it matches, a list of allowed ones that stands alone forbids all else, and a
  -- pattern of denied numbers forbids what it matches and the allowed pattern does not.
  pub record Serves (c : Calls) (k : Conn) (receiver : Octstr) : Type 0 where
    pub open_ : is_dead k.status ≡ false
    pub alive : is_alive k.why_killed ≡ true
    pub allowed :
        is_set k.allowed_prefix ≡ true
        → is_set k.denied_prefix ≡ false
        → matches k.allowed_prefix receiver ≡ true
    pub not_denied : matches k.denied_prefix receiver ≡ false
    pub pattern :
        regex_matches c k.denied_prefix_regex receiver ≡ true
        → regex_matches c k.allowed_prefix_regex receiver ≡ true

  usable-Serves :
      (c : Calls) (k : Conn) (receiver : Octstr)
      → smscconn_usable c k receiver ≡ true
      → Serves c k receiver
  unfolding smscconn_usable
  usable-Serves c k receiver h = record {
    open_ = ground arith;
    alive = ground arith;
    allowed = λ a d. ground arith;
    not_denied = ground arith;
    pattern = λ p. ground arith;
  }

  Serves-usable :
      (c : Calls) (k : Conn) (receiver : Octstr)
      → Serves c k receiver
      → smscconn_usable c k receiver ≡ true
  unfolding smscconn_usable
  Serves-usable c k receiver s = ground (arith, s.allowed, s.pattern)

  -- A connection is usable for a receiver exactly if it is alive and its lists of prefixes and
  -- patterns let the receiver through.
  pub smscconn_usable_iff :
      (c : Calls) (k : Conn) (receiver : Octstr)
      → (smscconn_usable c k receiver ≡ true) ↔ Serves c k receiver
  smscconn_usable_iff c k receiver = (usable-Serves c k receiver, Serves-usable c k receiver)
