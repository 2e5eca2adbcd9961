-- ===== src/Ids.antt =====
-- `allocate_session_id` of smpp-esme/esme.c.
pub mod Fresh
mod Tests
use smpp_server.Prelude.{
  ℕ, zero, suc, ◌+◌, ◌-◌, Bool, false, Option, none, some, List, [], ◌∷◌, ◌||◌, length, ltb, ◌==◌,
  if◌then◌else◌,
}

-- `gwlist_search(session_list, &n, int_item_match) != NULL`
unfoldable pub has_id : List ℕ → ℕ → Bool
has_id [] n = false
has_id (x ∷ xs) n = x == n || has_id xs n

-- The loop that finds the lowest id, from its second round on.
lowest_from : ℕ → List ℕ → ℕ
lowest_from low [] = low
lowest_from low (x ∷ xs) = lowest_from (if ltb x low then x else low) xs

lowest : List ℕ → ℕ
unfolding lowest_from
lowest [] = 0
lowest (x ∷ xs) = lowest_from x xs

-- The loop that looks for the first id that is free: rounds left, ids, the id looked for.
first_gap : ℕ → List ℕ → ℕ → ℕ
first_gap zero ids n = n
first_gap (suc rounds) ids n =
    let rest = first_gap rounds ids (n + 1) in if has_id ids n then rest else n

-- `none` is a list that is NULL.
unfoldable pub allocate_session_id : Option (List ℕ) → ℕ
unfolding has_id lowest first_gap
allocate_session_id none = 0
allocate_session_id (some ids) =
    if lowest ids == 1 then first_gap (length ids - 1) ids (lowest ids + 1) else 1
