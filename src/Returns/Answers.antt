-- ===== src/Returns/Answers.antt =====
-- What the tracker answers, and what it holds.
use gorabbit.Prelude.{
  Bytes, Bool, true, false, List, [], ◌∷◌, ◌≡◌, refl, ◌∙◌, ap, arith, if◌then◌else◌, is_empty,
  lookup, insert, erase, bytes_eq, lookup-insert, lookup-erase, Bool-cases, inl, inr,
  lookup-erase_self, ◌||◌, Assoc,
}
use gorabbit.Returns.Defs.{
  Event, returned, queried, closed_channel, Tracker, track, was_returned, run, is_some, new_tracker,
}

-- The message was returned and not asked for since, on a channel that is still open (events, the
-- latest one first).
unfoldable pub is_owed : Bytes → List Event → Bool
is_owed id [] = false
is_owed id (returned msg_id ∷ events) = bytes_eq msg_id id || is_owed id events
is_owed id (queried msg_id ∷ events) = if bytes_eq msg_id id then false else is_owed id events
is_owed id (closed_channel ∷ events) = false

unfoldable pub is_over : List Event → Bool
is_over [] = false
is_over (closed_channel ∷ events) = true
is_over (returned msg_id ∷ events) = is_over events
is_over (queried msg_id ∷ events) = is_over events

track_returned : (m : Bytes) (t : Tracker) → (track (returned m) t).0.finished ≡ t.finished
unfolding track
track_returned m t = elim (Bool-cases t.finished) [ inl e ↦ rw e refl | inr e ↦ rw e refl ]

track_queried : (m : Bytes) (t : Tracker) → (track (queried m) t).0.finished ≡ t.finished
unfolding track
track_queried m t = elim (Bool-cases t.finished) [ inl e ↦ rw e refl | inr e ↦ rw e refl ]

track_returned-held :
    (m : Bytes) (t : Tracker)
    → t.finished ≡ false
    → (track (returned m) t).0.held ≡ insert m tt t.held
unfolding track
track_returned-held m t e = rw e refl

track_queried-held :
    (m : Bytes) (t : Tracker) → t.finished ≡ false → (track (queried m) t).0.held ≡ erase m t.held
unfolding track
track_queried-held m t e = rw e refl

run-finished : (events : List Event) → (run events).finished ≡ is_over events
unfolding run new_tracker is_over track
run-finished [] = refl
run-finished (closed_channel ∷ events) = refl
run-finished (returned m ∷ events) = track_returned m (run events) ∙ run-finished events
run-finished (queried m ∷ events) = track_queried m (run events) ∙ run-finished events

is_some-inserted :
    (k j : Bytes) (m : Assoc (Unit {0}))
    → is_some (lookup j (insert k tt m)) ≡ (bytes_eq k j || is_some (lookup j m))
is_some-inserted k j m = ground (arith, lookup-insert k j tt m)

is_some-erased :
    (k j : Bytes) (m : Assoc (Unit {0}))
    → is_some (lookup j (erase k m)) ≡ (if bytes_eq k j then false else is_some (lookup j m))
is_some-erased k j m = ground (arith, lookup-erase k j m)

run-held :
    (id : Bytes) (events : List Event)
    → is_over events ≡ false
    → is_some (lookup id (run events).held) ≡ is_owed id events
unfolding run new_tracker is_over is_owed lookup
run-held id [] h = refl
run-held id (closed_channel ∷ events) h = cc
run-held id (returned m ∷ events) h =
    ap (λ t. is_some (lookup id t)) (track_returned-held m (run events) (run-finished events ∙ h))
    ∙ is_some-inserted m id (run events).held
    ∙ ap (λ b. bytes_eq m id || b) (run-held id events h)
run-held id (queried m ∷ events) h =
    ap (λ t. is_some (lookup id t)) (track_queried-held m (run events) (run-finished events ∙ h))
    ∙ is_some-erased m id (run events).held
    ∙ ap (λ b. if bytes_eq m id then false else b) (run-held id events h)

-- Asked for a message, the tracker answers true exactly if the broker gave it back since it was last
-- asked for it and the channel is still open; a message without an id is never counted as returned.
-- After the answer the tracker no longer holds the message.
pub was_returned_lem :
    (id : Bytes) (events : List Event)
    → ((was_returned id (run events)).1
        ≡ (if is_empty id || is_over events then false else is_owed id events))
      × (is_empty id ≡ false
          → is_over events ≡ false
          → (was_returned id (was_returned id (run events)).0).1 ≡ false)
unfolding was_returned track
was_returned_lem id events = (
  elim (Bool-cases (is_empty id)) [
    | inl e ↦ rw e refl
    | inr e ↦ elim (Bool-cases (is_over events)) [
      | inl o ↦ rw (e, run-finished events, o) refl
      | inr o ↦ rw (e, run-finished events, o, run-held id events o) refl
    ]
  ],
  λ e o. rw (e, run-finished events, o, lookup-erase_self id (run events).held) refl,
)
