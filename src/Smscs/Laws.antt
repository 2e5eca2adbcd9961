-- ===== src/Smscs/Laws.antt =====
-- What the SMSC list's operations promise.
use smpp_server.Prelude.{
  ℕ, zero, suc, ◌≤◌, ◌≡◌, ◌↔◌, inl, inr, Bool, true, false, some, List, [], ◌∷◌, ◌&&◌, arith,
  get_elem?, refl, Bool-cases, if◌then◌else◌, ◌==◌,
}
use smpp_server.Gwlib.{Gwlib}
use smpp_server.Smscs.{
  SmscConn, InfoSmsc, update_smsc_list, is_sender, presence_from, is_smsc_present, smsc_conn_status,
}

module _ ⦃gw : Gwlib⦄ where
  open gw use {Octstr, octstr_same, octstr_same_iff}

  abbrev pub listed : Octstr → List SmscConn → Bool
  listed id [] = false
  listed id (c ∷ cs) = if octstr_same id c.smsc_id then true else listed id cs

  -- An update of an smsc that is on the list sets its status and no other's; an update of any other
  -- changes no status.
  pub smsc_conn_status-update_smsc_list :
      (m : InfoSmsc) (id : Octstr) (cs : List SmscConn)
      → smsc_conn_status id (update_smsc_list m cs) ≡ (
          if octstr_same m.smsc_id id && listed id cs
          then m.conn_status
          else smsc_conn_status id cs)
  unfolding smsc_conn_status update_smsc_list
  smsc_conn_status-update_smsc_list m id [] = ground arith
  smsc_conn_status-update_smsc_list m id (c ∷ cs) = ground (
    arith,
    octstr_same_iff m.smsc_id id,
    octstr_same_iff m.smsc_id c.smsc_id,
    octstr_same_iff id c.smsc_id,
    smsc_conn_status-update_smsc_list m id cs,
  )

  -- an smsc at some position that can send, and that is connected
  abbrev pub HasSender : List SmscConn → Type 0
  HasSender cs = (i : ℕ) × (c : SmscConn) × (get_elem? cs i ≡ some c) × (is_sender c ≡ true)

  abbrev pub HasConnected : List SmscConn → Type 0
  HasConnected cs =
      (i : ℕ) × (c : SmscConn) × (get_elem? cs i ≡ some c)
      × (is_sender c ≡ true)
      × (c.conn_status ≡ 1)

  presence_from-two :
      (r : ℕ) (cs : List SmscConn) → r ≤ 1 → presence_from r cs ≡ 2 → HasConnected cs
  unfolding presence_from
  presence_from-two r [] h e = absurd (omega arith)
  presence_from-two r (c ∷ cs) h e = elim (Bool-cases (is_sender c && c.conn_status == 1)) [
    | inl p ↦ (0, c, refl, ground arith, ground arith)
    | inr p ↦
        let (i, d, g, s, t) =
          presence_from-two (if is_sender c then 1 else r) cs (ground arith) (ground arith) in
        (suc i, d, g, s, t)
  ]

  two-presence_from :
      (r i : ℕ) (cs : List SmscConn) (c : SmscConn)
      → get_elem? cs i ≡ some c
      → is_sender c ≡ true
      → c.conn_status ≡ 1
      → presence_from r cs ≡ 2
  unfolding presence_from
  two-presence_from r i [] c g s t = cc
  two-presence_from r zero (d ∷ cs) c g s t = ground arith
  two-presence_from r (suc i) (d ∷ cs) c g s t =
      ground (arith, two-presence_from (if is_sender d then 1 else r) i cs c)

  presence_from_bounds :
      (r : ℕ) (cs : List SmscConn) → r ≤ 1 → (r ≤ presence_from r cs) × (presence_from r cs ≤ 2)
  unfolding presence_from
  presence_from_bounds r [] h = omega arith
  presence_from_bounds r (c ∷ cs) h =
      ground (arith, presence_from_bounds (if is_sender c then 1 else r) cs)

  presence_from-of_sender :
      (r i : ℕ) (cs : List SmscConn) (c : SmscConn)
      → r ≤ 1
      → get_elem? cs i ≡ some c
      → is_sender c ≡ true
      → 1 ≤ presence_from r cs
  unfolding presence_from
  presence_from-of_sender r i [] c h g s = cc
  presence_from-of_sender r zero (d ∷ cs) c h g s =
      ground (arith, presence_from_bounds (if is_sender d then 1 else r) cs)
  presence_from-of_sender r (suc i) (d ∷ cs) c h g s =
      ground (arith, presence_from-of_sender (if is_sender d then 1 else r) i cs c)

  presence_from-pos : (cs : List SmscConn) → 1 ≤ presence_from 0 cs → HasSender cs
  unfolding presence_from
  presence_from-pos [] h = absurd (omega arith)
  presence_from-pos (d ∷ cs) h = elim (Bool-cases (is_sender d)) [
    | inl s ↦ (0, d, refl, s)
    | inr s ↦ let (i, c, g, t) = presence_from-pos cs (ground arith) in (suc i, c, g, t)
  ]

  -- What the comment of `is_smsc_present` promises: the result is 2 exactly if an smsc in tx or trx
  -- mode is connected, at least 1 exactly if there is an smsc in tx or trx mode, and never above 2.
  pub is_smsc_present_lem :
      (cs : List SmscConn)
      → ((is_smsc_present cs ≡ 2) ↔ HasConnected cs)
        × ((1 ≤ is_smsc_present cs) ↔ HasSender cs)
        × (is_smsc_present cs ≤ 2)
  unfolding is_smsc_present
  is_smsc_present_lem cs = (
    (presence_from-two 0 cs (omega arith), λ p. two-presence_from 0 p.0 cs p.1 p.2 p.3 p.4),
    (presence_from-pos cs, λ p. presence_from-of_sender 0 p.0 cs p.1 (omega arith) p.2 p.3),
    (presence_from_bounds 0 cs (omega arith)).1,
  )
