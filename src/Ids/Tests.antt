-- ===== src/Ids/Tests.antt =====
-- Runs of `allocate_session_id`.
use smpp_server.Prelude.{◌≡◌, refl, some, [], ◌∷◌, arith}
use smpp_server.Ids.{allocate_session_id}
use smpp_server.Ids.Fresh.{IsLowestFree, allocate_session_id_fresh}

no_session : allocate_session_id (some []) ≡ 1
unfolding allocate_session_id
no_session = refl

gap : allocate_session_id (some (2 ∷ 1 ∷ 5 ∷ [])) ≡ 3
unfolding allocate_session_id
gap = refl

allocate_session_id_fresh_example :
    IsLowestFree (4 ∷ 1 ∷ 2 ∷ []) (allocate_session_id (some (4 ∷ 1 ∷ 2 ∷ [])))
allocate_session_id_fresh_example = allocate_session_id_fresh (4 ∷ 1 ∷ 2 ∷ []) (omega arith)
