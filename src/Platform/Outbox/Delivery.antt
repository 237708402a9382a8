-- ===== src/Platform/Outbox/Delivery.antt =====
-- What becomes of an event that the dispatcher (internal/platform/outbox/dispatcher/outbox_dispatcher.go)
-- works on.
use native.Mathlib.Nat.{two-pow-succ}
use course_forge.Prelude.{
  ℕ, zero, suc, ◌+◌, ◌-◌, ◌*◌, ◌^◌, ◌≤◌, ◌<◌, ◌≡◌, ◌⊎◌, inl, inr, refl, ap, Bool, true, false, none,
  some, List, [], ◌∷◌, Text, ltb, ◌==◌, arith, Bool-cases, Option-cases,
}
use course_forge.Platform.Outbox.Event.{
  publishing, Event, EventErr, event_error_text, validate_event,
}
use course_forge.Platform.Outbox.Repository.{
  Table, affected, is_publishing, being_published, publish_row, fail_row, mark_published,
  mark_failed,
}
use course_forge.Platform.Outbox.Rows.{lookup, Ordered, IsTable, lookup-update}
use course_forge.Platform.Outbox.Claims.{lookup-id}
use course_forge.Platform.Outbox.Leases.{published_keeps, failed_keeps}
use course_forge.Platform.Outbox.Dispatcher.{
  second, exponent_of, outbox_retry_delay, max_outbox_retry_delay, BaseEvent, DispatchErr, Attempt,
  confirmed, refused, unconfirmed, Dispatched, invalid, unpublished, dispatch, dispatch_checked,
  fail, after_publish, message_of, error_after,
}

refl_le : (n : ℕ) → n ≤ n
refl_le n = omega arith

two_pow_grows : (k j : ℕ) → 2 ^ k ≤ 2 ^ (j + k)
two_pow_grows k zero = let start : 0 + k ≡ k = omega arith in rw start (refl_le (2 ^ k))
two_pow_grows k (suc j) =
    let next : suc j + k ≡ suc (j + k) = omega arith in
    rw (next, two-pow-succ (j + k)) (omega (arith, two_pow_grows k j))

exponent_bound : (n : ℕ) → exponent_of n ≤ 8
unfolding exponent_of
exponent_bound n = ground arith

-- The wait is 2^n seconds, n being the number of claims so far and 8 at most. The bound of five minutes has
-- no effect.
pub retry_delay_exact :
    (n : ℕ)
    → (outbox_retry_delay n ≡ second * 2 ^ exponent_of n)
      × (outbox_retry_delay n < max_outbox_retry_delay)
unfolding outbox_retry_delay
retry_delay_exact n =
    let small = two_pow_grows (exponent_of n) (8 - exponent_of n) in
    let at_most : 8 - exponent_of n + exponent_of n ≡ 8 = omega (arith, exponent_bound n) in
    let below : second * 2 ^ exponent_of n < max_outbox_retry_delay =
      omega (arith, (rw at_most at small)) in
    let short : ltb max_outbox_retry_delay (second * 2 ^ exponent_of n) ≡ false = ground arith in
    rw short (refl, below)

-- A condition on one id affects no row above it.
above_unaffected :
    (id lo hi : ℕ) (rows : List Event)
    → id < lo
    → Ordered lo rows hi
    → affected (being_published id) rows ≡ 0
unfolding affected
above_unaffected id lo hi [] b o = refl
above_unaffected id lo hi (r ∷ rows) b o =
    let rest = above_unaffected id (suc r.id) hi rows (omega (arith, o.0)) o.1 in
    ground (arith, rest, o.0)

-- The row of an id in publication is the one that the marks affect.
one_affected :
    (id lo hi : ℕ) (rows : List Event) {e : Event}
    → Ordered lo rows hi
    → lookup id rows ≡ some e
    → e.state ≡ publishing
    → affected (being_published id) rows ≡ 1
unfolding affected lookup
one_affected id lo hi [] o h k = absurd cc
one_affected id lo hi (r ∷ rows) {e} o h k = elim (Bool-cases (r.id == id)) [
  | inl here ↦
      let is_r : r ≡ e = ground (arith, h, here) in
      let rest = above_unaffected id (suc r.id) hi rows (ground arith) o.1 in
      let running : is_publishing r.state ≡ true = rw (is_r, k) refl in
      rw (here, running, rest) refl
  | inr there ↦
      let rest = one_affected id (suc r.id) hi rows o.1 (rw there at h) k in rw (there, rest) refl
]

-- The row of a claimed event is in the table, in publication.
abbrev pub IsClaimed : Table → Event → Type 0
IsClaimed t event = (r : Event) × (lookup event.id t.rows ≡ some r) × (r.state ≡ publishing)

mark_published-Claimed :
    (t : Table) (id at : ℕ) {r : Event}
    → IsTable t
    → lookup id t.rows ≡ some r
    → r.state ≡ publishing
    → (id == 0) ≡ false
    → 0 < at
    → (lookup id (mark_published t id at).0.rows ≡ some (publish_row at r))
      × ((mark_published t id at).1 ≡ none)
unfolding mark_published
mark_published-Claimed t id at {r} o h k n p =
    let one = one_affected id 1 t.next_id t.rows o h k in
    let is_id = lookup-id id t.rows h in
    let hit : being_published id r ≡ true = rw (is_id, k) (ground arith) in
    let after =
      lookup-update id (being_published id) (publish_row at) t.rows (published_keeps at) h in
    let some_instant : (at == 0) ≡ false = ground arith in
    rw (n, some_instant, one) (rw hit at after, refl)

mark_failed-Claimed :
    (t : Table) (id next : ℕ) (x : Text) (now : ℕ) {r : Event}
    → IsTable t
    → lookup id t.rows ≡ some r
    → r.state ≡ publishing
    → (id == 0) ≡ false
    → 0 < next
    → (lookup id (mark_failed t id next x now).0.rows ≡ some (fail_row next x now r))
      × ((mark_failed t id next x now).1 ≡ none)
unfolding mark_failed
mark_failed-Claimed t id next x now {r} o h k n p =
    let one = one_affected id 1 t.next_id t.rows o h k in
    let is_id = lookup-id id t.rows h in
    let hit : being_published id r ≡ true = rw (is_id, k) (ground arith) in
    let after =
      lookup-update id (being_published id) (fail_row next x now) t.rows (failed_keeps next x now)
        h in
    let some_instant : (next == 0) ≡ false = ground arith in
    rw (n, some_instant, one) (rw hit at after, refl)

fail-Claimed :
    (t : Table) (event : Event) (e : DispatchErr) (x : Text) (now : ℕ) {r : Event}
    → IsTable t
    → lookup event.id t.rows ≡ some r
    → r.state ≡ publishing
    → (event.id == 0) ≡ false
    → 0 < now
    → (lookup event.id (fail t (some event) e x now).0.rows
        ≡ some (fail_row (now + outbox_retry_delay event.retry_count) x now r))
      × ((fail t (some event) e x now).1 ≡ e)
unfolding fail
fail-Claimed t event e x now {r} o h k n p =
    let (kept, fine) =
      mark_failed-Claimed t event.id (now + outbox_retry_delay event.retry_count) x now o h k n
        (omega arith) in
    rw (n, fine) (kept, refl)

marked-published :
    (t : Table) (event : Event) (message : BaseEvent) (now : ℕ)
    → (mark_published t event.id now).1 ≡ none
    → (after_publish t event message now confirmed).error ≡ none
unfolding after_publish
marked-published t event message now done = ap (error_after event) done

attempt_cases :
    (a : Attempt)
    → (a ≡ confirmed) ⊎ (((x : Text) × (a ≡ refused x)) ⊎ ((x : Text) × (a ≡ unconfirmed x)))
attempt_cases confirmed = inl refl
attempt_cases (refused x) = inr (inl (x, refl))
attempt_cases (unconfirmed x) = inr (inr (x, refl))

-- The row of the event has failed with the text, and waits for the delay of the event's count.
abbrev pub HasFailed : Event → Event → Text → ℕ → Dispatched → Type 0
HasFailed event r x now d =
    lookup event.id d.table.rows
    ≡ some (fail_row (now + outbox_retry_delay event.retry_count) x now r)

-- Dispatching a claimed event ends in one of four ways. It is valid and the broker confirmed its message: it
-- is published, with one message sent and no error. The publisher reported an error before the message was
-- handed over, or after that, as when no confirmation comes or the message cannot be routed: the row has
-- failed with that error, which is returned, and in the second case the message has been sent nevertheless. It
-- is invalid: it has failed with that error and nothing is sent. A failed row waits for the delay of the
-- event's count. The event has an id and a row in publication in the table, whose ids rise, and the instant is
-- not zero.
pub dispatch_settles :
    (json_valid : Text → Bool) (publish_topic : Text → BaseEvent → Attempt) (t : Table)
    (event : Event) (now : ℕ) {r : Event}
    → IsTable t
    → lookup event.id t.rows ≡ some r
    → r.state ≡ publishing
    → (event.id == 0) ≡ false
    → 0 < now
    → let d = dispatch json_valid publish_topic t (some event) now in
      let valid = validate_event json_valid (some event) in
      let attempt = publish_topic event.topic (message_of event now) in
      let one : List (Text × BaseEvent) = (event.topic, message_of event now) ∷ [] in
      ((valid ≡ none)
        × (attempt ≡ confirmed)
        × (lookup event.id d.table.rows ≡ some (publish_row now r))
        × (d.sent ≡ one)
        × (d.error ≡ none))
      ⊎ (((x : Text) × (valid ≡ none)
            × (attempt ≡ refused x)
            × HasFailed event r x now d
            × (d.sent ≡ [])
            × (d.error ≡ some (unpublished x)))
          ⊎ (((x : Text) × (valid ≡ none)
                × (attempt ≡ unconfirmed x)
                × HasFailed event r x now d
                × (d.sent ≡ one)
                × (d.error ≡ some (unpublished x)))
              ⊎ ((x : EventErr) × (valid ≡ some x)
                  × HasFailed event r (event_error_text x) now d
                  × (d.sent ≡ [])
                  × (d.error ≡ some (invalid x)))))
unfolding dispatch dispatch_checked after_publish
dispatch_settles json_valid publish_topic t event now {r} o h k n p =
    elim (Option-cases (validate_event json_valid (some event))) [
      | inr (x, bad) ↦
          let (kept, why) = fail-Claimed t event (invalid x) (event_error_text x) now o h k n p in
          inr (inr (inr (x, bad, rw bad kept, rw bad refl, rw bad (ap some why))))
      | inl fine ↦ elim (attempt_cases (publish_topic event.topic (message_of event now))) [
        | inl sent ↦
            let (kept, done) = mark_published-Claimed t event.id now o h k n p in
            inl (
              fine,
              sent,
              rw (fine, sent) kept,
              rw (fine, sent) refl,
              rw (fine, sent) (marked-published t event (message_of event now) now done),
            )
        | inr (inl (text, denied)) ↦
            let (kept, why) = fail-Claimed t event (unpublished text) text now o h k n p in
            inr (
              inl (
                text,
                fine,
                denied,
                rw (fine, denied) kept,
                rw (fine, denied) refl,
                rw (fine, denied) (ap some why),
              ))
        | inr (inr (text, denied)) ↦
            let (kept, why) = fail-Claimed t event (unpublished text) text now o h k n p in
            inr (
              inr (
                inl (
                  text,
                  fine,
                  denied,
                  rw (fine, denied) kept,
                  rw (fine, denied) refl,
                  rw (fine, denied) (ap some why),
                )))
      ]
    ]
