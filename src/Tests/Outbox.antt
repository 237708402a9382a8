-- ===== src/Tests/Outbox.antt =====
-- The theorems on the outbox, at a table of one or two events.
use course_forge.Prelude.{
  ℕ, ◌*◌, ◌^◌, ◌≡◌, ◌⊎◌, ◌≤◌, ◌<◌, refl, Bool, true, false, not, none, some, List, [], ◌∷◌, Text,
  codes, is_empty, arith,
}
use course_forge.Prelude.Int.{pos}
use course_forge.Platform.Outbox.Event.{
  pending, publishing, published, Event, EventErr, event_error_text, validate_event,
}
use course_forge.Platform.Outbox.Repository.{Table, datetime3, claim_pending, publish_row, affected}
use course_forge.Platform.Outbox.Rows.{lookup, IsTable, claims_id}
use course_forge.Platform.Outbox.Leases.{Operation, claims, publishes, run, claimed_in}
use course_forge.Platform.Outbox.Exclusive.{lease_exclusive, published_final}
use course_forge.Platform.Outbox.Dispatcher.{
  second, exponent_of, outbox_retry_delay, max_outbox_retry_delay, BaseEvent, dispatch, message_of,
  unpublished, invalid, Attempt, confirmed, refused, unconfirmed,
}
use course_forge.Platform.Outbox.Delivery.{retry_delay_exact, dispatch_settles, HasFailed}
use course_forge.Platform.Outbox.Due.{due_claimed, is_due, due_in}
use course_forge.Platform.RabbitMq.Publisher.{AmqpPublisherSlot, Answers, publish}

abbrev now : ℕ
now = 10_000_400_000

abbrev lease : ℕ
lease = 60 * second

abbrev json_valid : Text → Bool
json_valid t = not (is_empty t)

abbrev waiting : Event
waiting = record {
  id = 1;
  event_id = codes "selection:7:a1";
  aggregate_type = codes "selection_application";
  aggregate_id = codes "a1";
  topic = codes "enrollment.selection.notification";
  event_type = codes "selection.result.persisted";
  payload = codes "{}";
  state = pending;
  retry_count = 0;
  next_retry_at = 5_000_000_000;
  published_at = none;
  last_error = [];
  create_time = 5_000_000_000;
  update_time = 5_000_000_000;
}

abbrev table : Table
table = record { rows = waiting ∷ []; next_id = 2 }

abbrev no_locks : ℕ → Bool
no_locks id = false

table-IsTable : IsTable table
table-IsTable = (omega arith, omega arith)

one_due : affected (is_due no_locks now lease) table.rows ≤ 100
unfolding affected due_in
one_due = omega arith

is_found : lookup 1 table.rows ≡ some waiting
unfolding lookup
is_found = refl

due_claimed_example :
    (claims_id 1 (claim_pending table no_locks (pos 100) now (pos lease)).1.0
      ≡ is_due no_locks now lease waiting)
    × ((claim_pending table no_locks (pos 100) now (pos lease)).1.1 ≡ none)
due_claimed_example =
    due_claimed table no_locks 100 now lease 1 table-IsTable is_found one_due (omega arith)
      (omega arith)

is_claimed : claims_id 1 (claim_pending table no_locks (pos 100) now (pos lease)).1.0 ≡ true
unfolding claim_pending
is_claimed = refl

abbrev during_lease : List Operation
during_lease =
    claims no_locks (pos 100) 50_000_000_000 (pos lease)
    ∷ publishes 1 60_000_000_000
    ∷ claims no_locks (pos 100) 65_000_000_000 (pos lease)
    ∷ []

lease_exclusive_example :
    claimed_in json_valid 1 (claim_pending table no_locks (pos 100) now (pos lease)).0 during_lease
    ≡ false
unfolding datetime3
lease_exclusive_example =
    lease_exclusive json_valid table no_locks (pos 100) now (pos lease) 1 during_lease table-IsTable
      is_claimed (omega arith, (tt, (omega arith, tt)))

abbrev sent : Event
sent = publish_row 12 waiting

abbrev sent_table : Table
sent_table = record { rows = sent ∷ []; next_id = 2 }

sent-IsTable : IsTable sent_table
unfolding publish_row
sent-IsTable = (omega arith, omega arith)

sent_found : lookup 1 sent_table.rows ≡ some sent
unfolding lookup publish_row
sent_found = refl

sent_published : sent.state ≡ published
unfolding publish_row
sent_published = refl

abbrev long_after : List Operation
long_after = claims no_locks (pos 100) 5000 (pos 60) ∷ publishes 1 60_000_000_00000 ∷ []

published_final_example :
    (lookup 1 (run json_valid sent_table long_after).rows ≡ some sent)
    × (claimed_in json_valid 1 sent_table long_after ≡ false)
published_final_example =
    published_final json_valid sent_table long_after 1 sent-IsTable sent_found sent_published

retry_delay_exact_example :
    (outbox_retry_delay 20 ≡ second * 2 ^ exponent_of 20)
    × (outbox_retry_delay 20 < max_outbox_retry_delay)
retry_delay_exact_example = retry_delay_exact 20

abbrev working : Event
working = record waiting { state = publishing; retry_count = 1; update_time = 10 }

abbrev working_table : Table
working_table = record { rows = working ∷ []; next_id = 2 }

working_found : lookup 1 working_table.rows ≡ some working
unfolding lookup
working_found = refl

-- The channel has declared the topic, and the broker acks the message and returns it.
abbrev slot : AmqpPublisherSlot
slot = record { declared_exchanges = codes "enrollment.selection.notification" ∷ []; returns = [] }

abbrev unroutable : Answers
unroutable = record {
  marshal = none;
  pool = none;
  declare = none;
  publish = none;
  wait = none;
  acked = true;
  returned = some (codes "312 NO_ROUTE");
}

abbrev publisher : Text → BaseEvent → Attempt
publisher topic message = (publish slot topic unroutable).1

dispatch_settles_example :
    let d = dispatch json_valid publisher working_table (some working) now in
    let valid = validate_event json_valid (some working) in
    let attempt = publisher working.topic (message_of working now) in
    let one : List (Text × BaseEvent) = (working.topic, message_of working now) ∷ [] in
    ((valid ≡ none)
      × (attempt ≡ confirmed)
      × (lookup 1 d.table.rows ≡ some (publish_row now working))
      × (d.sent ≡ one)
      × (d.error ≡ none))
    ⊎ (((x : Text) × (valid ≡ none)
          × (attempt ≡ refused x)
          × HasFailed working working x now d
          × (d.sent ≡ [])
          × (d.error ≡ some (unpublished x)))
        ⊎ (((x : Text) × (valid ≡ none)
              × (attempt ≡ unconfirmed x)
              × HasFailed working working x now d
              × (d.sent ≡ one)
              × (d.error ≡ some (unpublished x)))
            ⊎ ((x : EventErr) × (valid ≡ some x)
                × HasFailed working working (event_error_text x) now d
                × (d.sent ≡ [])
                × (d.error ≡ some (invalid x)))))
dispatch_settles_example =
    dispatch_settles json_valid publisher working_table working now (omega arith, omega arith)
      working_found refl (ground arith) (omega arith)
