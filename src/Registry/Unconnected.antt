-- ===== src/Registry/Unconnected.antt =====
-- `max_submits_unct_account`: the submits that the sessions of an account count in
-- `submits_unconnect`.
use smpp_server.Prelude.{ℕ, ◌+◌, ◌<◌, ap, ◌∙◌, length, ◌%◌, ◌^◌, ◌≡◌, refl, List, [], ◌∷◌, arith}
use smpp_server.Prelude.Int.{pos}
use smpp_server.Gwlib.{Gwlib}
use smpp_server.Session.{TxSession}
use smpp_server.Registry.{Esme, submits_from, max_submits_unct_account}

module _ ⦃gw : Gwlib⦄ where
  abbrev pub total_unconnect : List TxSession → ℕ
  total_unconnect [] = 0
  total_unconnect (s ∷ ss) = s.submits_unconnect + total_unconnect ss

  submits_from_small :
      (n : ℕ) (ss : List TxSession)
      → n + total_unconnect ss < 2 ^ 31
      → submits_from n ss ≡ n + total_unconnect ss
  unfolding submits_from
  submits_from_small n [] h = omega arith
  submits_from_small n (s ∷ ss) h =
      let m = n + s.submits_unconnect in
      let small : m % 2 ^ 32 ≡ m = omega arith in
      let rest = submits_from_small m ss (omega arith) in
      ap (λ k. submits_from k ss) small ∙ rest ∙ omega arith

  total-empty : (ss : List TxSession) → length ss ≡ 0 → total_unconnect ss ≡ 0
  total-empty [] h = refl
  total-empty (s ∷ ss) h = omega arith

  -- While the sessions of an account have fewer than 2 ^ 31 submits in their counters
  -- submits_unconnect together, the answer is their number.
  pub max_submits_unct_account-total :
      (e : Esme)
      → total_unconnect e.tx_esme < 2 ^ 31
      → max_submits_unct_account e ≡ pos (total_unconnect e.tx_esme)
  unfolding max_submits_unct_account
  max_submits_unct_account-total e h =
      ground (arith, submits_from_small 0 e.tx_esme, total-empty e.tx_esme)
