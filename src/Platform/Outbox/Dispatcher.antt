-- ===== src/Platform/Outbox/Dispatcher.antt =====
-- internal/platform/outbox/dispatcher/outbox_dispatcher.go on the table of the repository. The publisher is a
-- parameter, that answers a topic and a message with whether the broker was handed the message and the text of its error, if any
-- (RabbitMq/Publisher models it); so are the clock and the
-- rows that others have locked. The goroutines of a batch are taken in the order of their events: each works
-- on the row of its own event. Durations and instants are in nanoseconds.
use course_forge.Prelude.{
  ℕ, zero, suc, ◌+◌, ◌*◌, ◌^◌, Bool, Option, none, some, List, [], ◌∷◌, ◌++◌, Text, length, ltb,
  ◌==◌, if◌then◌else◌,
}
use course_forge.Prelude.Int.{pos}
use course_forge.Platform.Outbox.Event.{Event, EventErr, event_error_text, validate_event}
use course_forge.Platform.Outbox.Repository.{
  Table, RepositoryErr, claim_pending, mark_published, mark_failed,
}

abbrev pub second : ℕ
second = 1_000_000_000

abbrev pub default_outbox_batch_size : ℕ
default_outbox_batch_size = 100

abbrev pub default_outbox_lease : ℕ
default_outbox_lease = 60 * second

abbrev pub max_outbox_retry_delay : ℕ
max_outbox_retry_delay = 300 * second

abbrev pub max_outbox_batches_per_run : ℕ
max_outbox_batches_per_run = 10

-- `rabbitmq.BaseEvent`.
pub record BaseEvent : Type 0 where
  pub id : Text
  pub timestamp : ℕ
  pub body : Text

pub data DispatchErr : Type 0 where
  invalid : EventErr → DispatchErr
  unpublished : Text → DispatchErr
  update_failed : Text → RepositoryErr → DispatchErr
  unmarked : DispatchErr → ℕ → RepositoryErr → DispatchErr
  unclaimed : RepositoryErr → DispatchErr

-- `min(retryCount, 8)`.
unfoldable pub exponent_of : ℕ → ℕ
exponent_of n = if ltb n 8 then n else 8

unfoldable pub outbox_retry_delay : ℕ → ℕ
unfolding exponent_of
outbox_retry_delay n =
    let delay = second * 2 ^ exponent_of n in
    if ltb max_outbox_retry_delay delay then max_outbox_retry_delay else delay

-- `errors.Join` of an error and of what marking the row said.
abbrev pub joined : DispatchErr → ℕ → Option RepositoryErr → DispatchErr
joined e id none = e
joined e id (some r) = unmarked e id r

unfoldable pub fail : Table → Option Event → DispatchErr → Text → ℕ → Table × DispatchErr
unfolding outbox_retry_delay
fail t none e message now = (t, e)
fail t (some event) e message now =
    let (t', marked) =
      mark_failed t event.id (now + outbox_retry_delay event.retry_count) message now in
    if event.id == 0 then (t, e) else (t', joined e event.id marked)

-- What `PublishTopic` did: the broker confirmed the message; or an error came before the message was handed
-- to the broker; or after that, so that the broker may have it all the same.
pub data Attempt : Type 0 where
  confirmed : Attempt
  refused unconfirmed : Text → Attempt

-- What a dispatch leaves: the table, what the broker was handed, and its error.
pub record Dispatched : Type 0 where
  pub table : Table
  pub sent : List (Text × BaseEvent)
  pub error : Option DispatchErr

abbrev pub error_after : Event → Option RepositoryErr → Option DispatchErr
error_after event none = none
error_after event (some r) = some (update_failed event.event_id r)

-- The end of `dispatch`, after the publisher answered.
unfoldable pub after_publish : Table → Event → BaseEvent → ℕ → Attempt → Dispatched
unfolding fail
after_publish t event message now (refused text) =
    let (t', e) = fail t (some event) (unpublished text) text now in
    record { table = t'; sent = []; error = some e }
after_publish t event message now (unconfirmed text) =
    let (t', e) = fail t (some event) (unpublished text) text now in
    record { table = t'; sent = (event.topic, message) ∷ []; error = some e }
after_publish t event message now confirmed =
    let (t', marked) = mark_published t event.id now in
    record { table = t'; sent = (event.topic, message) ∷ []; error = error_after event marked }

unfoldable pub message_of : Event → ℕ → BaseEvent
message_of event now = record {
  id = event.event_id;
  timestamp = if event.create_time == 0 then now else event.create_time;
  body = event.payload;
}

module _ (json_valid : Text → Bool) (publish_topic : Text → BaseEvent → Attempt) where
  -- A nil event is invalid.
  unfoldable pub dispatch_checked : Table → Option Event → ℕ → Option EventErr → Dispatched
  unfolding fail after_publish message_of
  dispatch_checked t event now (some x) =
      let (t', e) = fail t event (invalid x) (event_error_text x) now in
      record { table = t'; sent = []; error = some e }
  dispatch_checked t none now none = record { table = t; sent = []; error = none }
  dispatch_checked t (some event) now none =
      after_publish t event (message_of event now) now
        (publish_topic event.topic (message_of event now))

  unfoldable pub dispatch : Table → Option Event → ℕ → Dispatched
  unfolding dispatch_checked
  dispatch t event now = dispatch_checked t event now (validate_event json_valid event)

  -- The errors of a batch, in the order of its events.
  unfoldable pub dispatch_batch :
      Table → List Event → ℕ → Table × (List (Text × BaseEvent) × List DispatchErr)
  unfolding dispatch
  dispatch_batch t [] now = (t, ([], []))
  dispatch_batch t (event ∷ events) now =
      let one = dispatch t (some event) now in
      let (t', (sent, errors)) = dispatch_batch one.table events now in
      (t', (one.sent ++ sent, elim one.error [ none ↦ errors | some e ↦ e ∷ errors ]))

  -- The loop of `DispatchPending`, with the batches that are left; the clock and the locks by batch.
  unfoldable pub dispatch_batches :
      ℕ
      → Table
      → (ℕ → ℕ)
      → (ℕ → ℕ → Bool)
      → Table × (ℕ × (List (Text × BaseEvent) × List DispatchErr))
  unfolding dispatch_batch
  dispatch_batches zero t clock locked = (t, (0, ([], [])))
  dispatch_batches (suc left) t clock locked =
      let (t1, (events, e)) =
        claim_pending t (locked left) (pos default_outbox_batch_size) (clock left)
          (pos default_outbox_lease) in
      let (t2, (sent, errors)) = dispatch_batch t1 events (clock left) in
      let (t3, (count, (more_sent, more_errors))) = dispatch_batches left t2 clock locked in
      elim e [
        | some x ↦ (t1, (0, ([], unclaimed x ∷ [])))
        | none ↦
            if ltb (length events) default_outbox_batch_size
            then (t2, (length events, (sent, errors)))
            else (t3, (length events + count, (sent ++ more_sent, errors ++ more_errors)))
      ]

  unfoldable pub dispatch_pending :
      Table → (ℕ → ℕ) → (ℕ → ℕ → Bool) → Table × (ℕ × (List (Text × BaseEvent) × List DispatchErr))
  unfolding dispatch_batches
  dispatch_pending t clock locked = dispatch_batches max_outbox_batches_per_run t clock locked
