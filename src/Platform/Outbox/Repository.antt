-- ===== src/Platform/Outbox/Repository.antt =====
-- internal/platform/outbox/mysql/repository.go on its table. The rows stand in the order of their ids, which
-- MySQL counts up; a statement or transaction runs alone. Instants are counted from Go's zero time.
use Prim.Native.Nat.{◌/◌, ◌*◌, ◌%◌}
use course_forge.Prelude.{
  ℕ, zero, suc, ◌+◌, Bool, true, false, not, ◌||◌, ◌&&◌, Option, none, some, List, [], ◌∷◌, ◌++◌,
  Text, length, any, is_empty, leb, text_eq, ◌==◌, if◌then◌else◌,
}
use course_forge.Prelude.Int.{ℤ, pos_part, is_pos}
use course_forge.Platform.Outbox.Event.{
  State, pending, publishing, published, failed, Event, NewEvent, EventErr, validate_new,
}

pub record Table : Type 0 where
  pub rows : List Event
  pub next_id : ℕ

pub data RepositoryErr : Type 0 where
  invalid_event : EventErr → RepositoryErr
  bad_limit bad_lease bad_arguments : RepositoryErr
  duplicate_event : RepositoryErr
  wrong_count : ℕ → RepositoryErr

-- What a column of type `datetime(3)` keeps of an instant: MySQL rounds it to milliseconds.
unfoldable pub datetime3 : ℕ → ℕ
datetime3 t = (t + 500_000) / 1_000_000 * 1_000_000

-- `string(runes[:limit])`.
unfoldable pub truncate_runes : ℕ → Text → Text
truncate_runes zero t = []
truncate_runes (suc n) [] = []
truncate_runes (suc n) (c ∷ t) = c ∷ truncate_runes n t

abbrev pub max_last_error_runes : ℕ
max_last_error_runes = 512

abbrev pub is_publishing : State → Bool
is_publishing publishing = true
is_publishing s = false

abbrev pub is_waiting : State → Bool
is_waiting pending = true
is_waiting failed = true
is_waiting s = false

unfoldable pub new_row : ℕ → NewEvent → ℕ → Event
unfolding datetime3
new_row id e now = record {
  id = id;
  event_id = e.event_id;
  aggregate_type = e.aggregate_type;
  aggregate_id = e.aggregate_id;
  topic = e.topic;
  event_type = e.event_type;
  payload = e.payload;
  state = pending;
  retry_count = 0;
  next_retry_at = datetime3 now;
  published_at = none;
  last_error = [];
  create_time = datetime3 now;
  update_time = datetime3 now;
}

-- The loop of `AppendBatch`: the first invalid event stops it.
unfoldable pub first_invalid : (Text → Bool) → List (Option NewEvent) → Option EventErr
first_invalid json_valid [] = none
first_invalid json_valid (e ∷ es) =
    let later = first_invalid json_valid es in
    elim (validate_new json_valid e) [ some x ↦ some x | none ↦ later ]

unfoldable pub new_rows : ℕ → List (Option NewEvent) → ℕ → List Event
unfolding new_row
new_rows id [] now = []
new_rows id (none ∷ es) now = new_rows id es now
new_rows id (some e ∷ es) now = new_row id e now ∷ new_rows (suc id) es now

-- The unique key `uq_outbox_event_id`: whether a new row's event id is in the table or among those before it.
unfoldable pub has_event_id : Text → List Event → Bool
has_event_id id [] = false
has_event_id id (e ∷ rows) = text_eq e.event_id id || has_event_id id rows

unfoldable pub repeats_event_id : List Event → List Event → Bool
unfolding has_event_id
repeats_event_id rows [] = false
repeats_event_id rows (e ∷ added) =
    has_event_id e.event_id rows || repeats_event_id (e ∷ rows) added

unfoldable pub append_checked :
    Option EventErr → Table → List (Option NewEvent) → ℕ → Table × Option RepositoryErr
unfolding new_rows repeats_event_id
append_checked (some x) t es now = (t, some (invalid_event x))
append_checked none t es now =
    let added = new_rows t.next_id es now in
    if repeats_event_id t.rows added
    then (t, some duplicate_event)
    else (record { rows = t.rows ++ added; next_id = t.next_id + length es }, none)

unfoldable pub append_batch :
    (Text → Bool) → Table → List (Option NewEvent) → ℕ → Table × Option RepositoryErr
unfolding first_invalid append_checked
append_batch json_valid t es now = append_checked (first_invalid json_valid es) t es now

-- The condition of the query, on a row that no other transaction has locked.
unfoldable pub dispatchable : (ℕ → Bool) → ℕ → ℕ → Event → Bool
dispatchable locked now lease e =
    not (locked e.id)
    && ((is_waiting e.state && leb e.next_retry_at now)
        || (is_publishing e.state && leb (e.update_time + lease) now))

-- `WHERE … ORDER BY id LIMIT`.
unfoldable pub select_rows : (Event → Bool) → ℕ → List Event → List Event
select_rows wanted zero rows = []
select_rows wanted (suc limit) [] = []
select_rows wanted (suc limit) (e ∷ rows) =
    let taken = select_rows wanted limit rows in
    let passed = select_rows wanted (suc limit) rows in if wanted e then e ∷ taken else passed

unfoldable pub ids_of : List Event → List ℕ
ids_of [] = []
ids_of (e ∷ es) = e.id ∷ ids_of es

-- `UPDATE … WHERE …`, with the number of rows that it affects.
unfoldable pub update_rows : (Event → Bool) → (Event → Event) → List Event → List Event
update_rows wanted change [] = []
update_rows wanted change (e ∷ rows) =
    (if wanted e then change e else e) ∷ update_rows wanted change rows

unfoldable pub affected : (Event → Bool) → List Event → ℕ
affected wanted [] = 0
affected wanted (e ∷ rows) = (if wanted e then 1 else 0) + affected wanted rows

-- What a claim writes to a row.
unfoldable pub claim_row : ℕ → ℕ → Event → Event
unfolding datetime3
claim_row now lease e = record e {
  state = publishing;
  retry_count = (e.retry_count + 1) % 4_294_967_296;
  next_retry_at = datetime3 (now + lease);
  last_error = [];
  update_time = datetime3 now;
}

-- The event that it returns, from the row as the query read it, with the exact instants and the old error.
unfoldable pub claimed_event : ℕ → ℕ → Event → Event
claimed_event now lease e = record e {
  state = publishing;
  retry_count = (e.retry_count + 1) % 4_294_967_296;
  next_retry_at = now + lease;
  update_time = now;
}

unfoldable pub claimed_events : ℕ → ℕ → List Event → List Event
unfolding claimed_event
claimed_events now lease [] = []
claimed_events now lease (e ∷ es) = claimed_event now lease e ∷ claimed_events now lease es

abbrev pub is_one_of : List ℕ → Event → Bool
is_one_of ids e = any (λ i. i == e.id) ids

-- The transaction behind the argument checks; where the counts differ it rolls back.
unfoldable pub claim_selected :
    Table → List Event → ℕ → ℕ → Table × (List Event × Option RepositoryErr)
unfolding update_rows affected ids_of claim_row claimed_events
claim_selected t selected now lease =
    let count = affected (is_one_of (ids_of selected)) t.rows in
    if is_empty selected
    then (t, ([], none))
    else if not (count == length selected)
    then (t, ([], some (wrong_count count)))
    else (
      record t { rows = update_rows (is_one_of (ids_of selected)) (claim_row now lease) t.rows },
      (claimed_events now lease selected, none),
    )

unfoldable pub claim_pending :
    Table → (ℕ → Bool) → ℤ → ℕ → ℤ → Table × (List Event × Option RepositoryErr)
unfolding claim_selected select_rows dispatchable
claim_pending t locked limit now lease =
    if not (is_pos limit)
    then (t, ([], some bad_limit))
    else if not (is_pos lease)
    then (t, ([], some bad_lease))
    else claim_selected t
        (select_rows (dispatchable locked now (pos_part lease)) (pos_part limit) t.rows) now
        (pos_part lease)

abbrev pub being_published : ℕ → Event → Bool
being_published id e = e.id == id && is_publishing e.state

unfoldable pub publish_row : ℕ → Event → Event
unfolding datetime3
publish_row at e = record e {
  state = published;
  published_at = some (datetime3 at);
  last_error = [];
  update_time = datetime3 at;
}

unfoldable pub mark_published : Table → ℕ → ℕ → Table × Option RepositoryErr
unfolding update_rows affected publish_row
mark_published t id at = if id == 0 || at == 0 then (t, some bad_arguments) else (
  record t { rows = update_rows (being_published id) (publish_row at) t.rows },
  (let count = affected (being_published id) t.rows in
      if not (count == 1) then some (wrong_count count) else none),
)

unfoldable pub fail_row : ℕ → Text → ℕ → Event → Event
unfolding truncate_runes datetime3
fail_row next_retry_at last_error now e = record e {
  state = failed;
  next_retry_at = datetime3 next_retry_at;
  last_error = truncate_runes max_last_error_runes last_error;
  update_time = datetime3 now;
}

unfoldable pub mark_failed : Table → ℕ → ℕ → Text → ℕ → Table × Option RepositoryErr
unfolding update_rows affected fail_row
mark_failed t id next_retry_at last_error now =
    if id == 0 || next_retry_at == 0 then (t, some bad_arguments) else (
      record t {
        rows = update_rows (being_published id) (fail_row next_retry_at last_error now) t.rows;
      },
      (let count = affected (being_published id) t.rows in
          if not (count == 1) then some (wrong_count count) else none),
    )
