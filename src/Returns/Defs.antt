-- ===== src/Returns/Defs.antt =====
-- The goroutine of `track` as a state with the events that its select takes, in the order in which
-- it takes them.
use gorabbit.Prelude.{
  Bytes, Bool, true, false, Option, none, some, List, [], ◌∷◌, if◌then◌else◌, is_empty, lookup,
  insert, erase, Assoc,
}

-- The set `returned`, and whether `finished` is closed.
pub record Tracker : Type 0 where
  pub held : Assoc (Unit {0})
  pub finished : Bool

-- A return of a message id, a query for one, and the close of the channel of returns.
pub data Event : Type 0 where
  returned queried : Bytes → Event
  closed_channel : Event

abbrev pub is_some {ℓ} : {A : Type ℓ} → Option A → Bool
is_some none = false
is_some (some a) = true

-- `newReturnTracker`
unfoldable pub new_tracker : Tracker
new_tracker = record { held = []; finished = false }

-- One turn of the loop of `track`, with the answer to a query. A loop that has ended takes nothing.
unfoldable pub track : Event → Tracker → Tracker × Option Bool
track (returned msg_id) t =
    if t.finished then (t, none) else (record t { held = insert msg_id tt t.held }, none)
track (queried msg_id) t =
    if t.finished
    then (t, none)
    else (record t { held = erase msg_id t.held }, some (is_some (lookup msg_id t.held)))
track closed_channel t = (record t { finished = true }, none)

abbrev or_false : Option Bool → Bool
or_false none = false
or_false (some b) = b

-- `wasReturned`: without an answer, `finished` is closed and the answer is false.
unfoldable pub was_returned : Bytes → Tracker → Tracker × Bool
unfolding track
was_returned msg_id t =
    if is_empty msg_id
    then (t, false)
    else let (t', answer) = track (queried msg_id) t in (t', or_false answer)

-- The events of a tracker, the latest one first.
unfoldable pub run : List Event → Tracker
unfolding new_tracker track
run [] = new_tracker
run (e ∷ events) = (track e (run events)).0
