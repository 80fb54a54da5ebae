-- ===== src/Samples/Tracking.antt =====
-- A returned message, and the timer of the retries.
use gorabbit.Prelude.{false, [], ◌∷◌, codes, ◌≡◌, if◌then◌else◌, is_empty, ◌||◌}
use gorabbit.Returns.{returned, queried, was_returned, run}
use gorabbit.Returns.Answers.{was_returned_lem, is_owed, is_over}

was_returned_lem_example :
    let events = returned (codes "01") ∷ queried (codes "01") ∷ [] in
    ((was_returned (codes "01") (run events)).1
      ≡ (if is_empty (codes "01") || is_over events then false else is_owed (codes "01") events))
    × (is_empty (codes "01") ≡ false
        → is_over events ≡ false
        → (was_returned (codes "01") (was_returned (codes "01") (run events)).0).1 ≡ false)
was_returned_lem_example =
    was_returned_lem (codes "01") (returned (codes "01") ∷ queried (codes "01") ∷ [])
