-- ===== src/Registry/Undo.antt =====
-- Ending the session that was added last gives the list of accounts back.
use smpp_server.Prelude.{ℕ, ◌+◌, ◌<◌, ◌≡◌, none, some, List, [], ◌∷◌, ◌++◌, arith, length}
use smpp_server.Gwlib.{Gwlib}
use smpp_server.Registry.{Esme, is_present_esme, destroy_session, drop_if_empty, esme_destroy}

module _ ⦃gw : Gwlib⦄ where
  open gw use {Octstr, octstr_same, octstr_same_iff}

  pub drop_if_empty-keep :
      (e : Esme) (es : List Esme)
      → 0 < length e.tx_esme + length e.rx_esme
      → drop_if_empty e es ≡ e ∷ es
  unfolding drop_if_empty
  drop_if_empty-keep e es h = ground arith

  drop_if_empty-drop :
      (e : Esme) (es : List Esme)
      → length e.tx_esme + length e.rx_esme ≡ 0
      → drop_if_empty e es ≡ es
  unfolding drop_if_empty
  drop_if_empty-drop e es h = ground arith

  -- The account was new.
  pub esme_destroy-append :
      (id : Octstr) (mode n : ℕ) (es : List Esme) (e e' : Esme)
      → is_present_esme id es ≡ none
      → e'.system_id ≡ id
      → destroy_session mode n e' ≡ some e
      → length e.tx_esme + length e.rx_esme ≡ 0
      → esme_destroy id mode n (es ++ e' ∷ []) ≡ some es
  unfolding esme_destroy is_present_esme
  esme_destroy-append id mode n [] e e' a q d z =
      ground (arith, octstr_same_iff id e'.system_id, drop_if_empty-drop e [])
  esme_destroy-append id mode n (x ∷ es) e e' a q d z = ground (
    arith,
    octstr_same_iff id x.system_id,
    octstr_same_iff x.system_id id,
    esme_destroy-append id mode n es e e',
  )
