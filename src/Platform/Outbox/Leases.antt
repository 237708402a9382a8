-- ===== src/Platform/Outbox/Leases.antt =====
-- The outbox table (internal/platform/outbox/mysql/repository.go) over any sequence of its operations, by
-- any number of dispatchers: what is published stays so, and a claim holds for its lease.
use course_forge.Prelude.{
  ℕ, ◌+◌, ◌<◌, ◌≡◌, ◌⊎◌, inl, inr, refl, Bool, true, false, ◌||◌, Option, none, some, List, [], ◌∷◌,
  Text, length, All, ◌==◌, arith, Bool-cases,
}
use course_forge.Prelude.Int.{ℤ, pos_part}
use course_forge.Platform.Outbox.Event.{publishing, published, Event, NewEvent, EventErr}
use course_forge.Platform.Outbox.Repository.{
  Table, dispatchable, claim_row, claim_pending, being_published, publish_row, fail_row,
  mark_published, mark_failed, new_rows, append_batch, append_checked, first_invalid,
  repeats_event_id,
}
use course_forge.Platform.Outbox.Rows.{
  lookup, IsTable, claims_id, KeepsId, lookup-update, update-Ordered,
}
use course_forge.Platform.Outbox.Claims.{
  lookup-append, lookup-id, new_rows-Ordered, append-Ordered, claim_outcome, claimed_keeps,
  claim_passes, none_claimed,
}

pub data Operation : Type 0 where
  appends : List (Option NewEvent) → ℕ → Operation
  claims : (ℕ → Bool) → ℤ → ℕ → ℤ → Operation
  publishes : ℕ → ℕ → Operation
  fails : ℕ → ℕ → Text → ℕ → Operation

module _ (json_valid : Text → Bool) where
  -- The table after an operation, and the events that it claims.
  unfoldable pub step : Table → Operation → Table × List Event
  step t (appends es now) = ((append_batch json_valid t es now).0, [])
  step t (claims locked limit now lease) =
      let (t', (es, e)) = claim_pending t locked limit now lease in (t', es)
  step t (publishes id at) = ((mark_published t id at).0, [])
  step t (fails id next_retry_at e now) = ((mark_failed t id next_retry_at e now).0, [])

  unfoldable pub run : Table → List Operation → Table
  run t [] = t
  run t (op ∷ ops) = run (step t op).0 ops

  -- Whether some operation claims the event of an id.
  unfoldable pub claimed_in : ℕ → Table → List Operation → Bool
  claimed_in id t [] = false
  claimed_in id t (op ∷ ops) = claims_id id (step t op).1 || claimed_in id (step t op).0 ops

append-IsTable :
    (x : Option EventErr) (t : Table) (es : List (Option NewEvent)) (now : ℕ)
    → IsTable t
    → IsTable (append_checked x t es now).0
unfolding append_checked
append-IsTable (some x) t es now o = o
append-IsTable none t es now o =
    elim (Bool-cases (repeats_event_id t.rows (new_rows t.next_id es now))) [
      | inl repeated ↦ rw repeated o
      | inr fresh ↦ rw fresh (
          append-Ordered 1 t.next_id (t.next_id + length es) t.rows (new_rows t.next_id es now) o (
            new_rows-Ordered t.next_id t.next_id (t.next_id + length es) es now (omega arith)
              (omega arith)))
    ]

pub append_keeps :
    (x : Option EventErr) (t : Table) (es : List (Option NewEvent)) (now id : ℕ) {e : Event}
    → lookup id t.rows ≡ some e
    → lookup id (append_checked x t es now).0.rows ≡ some e
unfolding append_checked
append_keeps (some x) t es now id h = h
append_keeps none t es now id h =
    elim (Bool-cases (repeats_event_id t.rows (new_rows t.next_id es now))) [
      | inl repeated ↦ rw repeated h
      | inr fresh ↦ rw fresh (lookup-append id t.rows (new_rows t.next_id es now) h)
    ]

pub claim-IsTable :
    (t : Table) (locked : ℕ → Bool) (limit : ℤ) (now : ℕ) (lease : ℤ)
    → IsTable t
    → IsTable (claim_pending t locked limit now lease).0
claim-IsTable t locked limit now lease o = elim (claim_outcome t locked limit now lease) [
  | inl (same, _) ↦ rw same o
  | inr (changed, _) ↦ rw changed (
      update-Ordered _ (claim_row now (pos_part lease)) 1 t.next_id t.rows
        (claimed_keeps now (pos_part lease)) o)
]

publish-IsTable : (t : Table) (id at : ℕ) → IsTable t → IsTable (mark_published t id at).0
unfolding mark_published publish_row
publish-IsTable t id at o = elim (Bool-cases (id == 0 || at == 0)) [
  | inl bad ↦ rw bad o
  | inr fine ↦
      rw fine
        (update-Ordered (being_published id) (publish_row at) 1 t.next_id t.rows (λ e. refl) o)
]

fail-IsTable :
    (t : Table) (id next : ℕ) (x : Text) (now : ℕ)
    → IsTable t
    → IsTable (mark_failed t id next x now).0
unfolding mark_failed fail_row
fail-IsTable t id next x now o = elim (Bool-cases (id == 0 || next == 0)) [
  | inl bad ↦ rw bad o
  | inr fine ↦
      rw fine
        (update-Ordered (being_published id) (fail_row next x now) 1 t.next_id t.rows (λ e. refl) o)
]

pub published_keeps : (at : ℕ) → KeepsId (publish_row at)
unfolding publish_row
published_keeps at e = refl

pub failed_keeps : (next : ℕ) (x : Text) (now : ℕ) → KeepsId (fail_row next x now)
unfolding fail_row
failed_keeps next x now e = refl

-- What a mark does to a row that is looked up.
pub publish_looked :
    (t : Table) (id at i : ℕ) {e : Event}
    → lookup i t.rows ≡ some e
    → (lookup i (mark_published t id at).0.rows ≡ some e)
      ⊎ ((lookup i (mark_published t id at).0.rows ≡ some (publish_row at e))
          × (being_published id e ≡ true))
unfolding mark_published
publish_looked t id at i {e} h = elim (Bool-cases (id == 0 || at == 0)) [
  | inl bad ↦ inl (rw bad h)
  | inr fine ↦
      let after =
        lookup-update i (being_published id) (publish_row at) t.rows (published_keeps at) h in
      elim (Bool-cases (being_published id e)) [
        | inl hit ↦ inr (rw fine (rw hit at after), hit)
        | inr missed ↦ inl (rw fine (rw missed at after))
      ]
]

pub fail_looked :
    (t : Table) (id next : ℕ) (x : Text) (now i : ℕ) {e : Event}
    → lookup i t.rows ≡ some e
    → being_published id e ≡ false
    → lookup i (mark_failed t id next x now).0.rows ≡ some e
unfolding mark_failed
fail_looked t id next x now i {e} h missed = elim (Bool-cases (id == 0 || next == 0)) [
  | inl bad ↦ rw bad h
  | inr fine ↦
      let after =
        lookup-update i (being_published id) (fail_row next x now) t.rows (failed_keeps next x now)
          h in
      rw fine (rw missed at after)
]

pub step-IsTable :
    (json_valid : Text → Bool) (t : Table) (op : Operation)
    → IsTable t
    → IsTable (step json_valid t op).0
unfolding step append_batch
step-IsTable json_valid t (appends es now) o =
    append-IsTable (first_invalid json_valid es) t es now o
step-IsTable json_valid t (claims locked limit now lease) o =
    claim-IsTable t locked limit now lease o
step-IsTable json_valid t (publishes id at) o = publish-IsTable t id at o
step-IsTable json_valid t (fails id next x now) o = fail-IsTable t id next x now o

-- The row is published, or a dispatcher works on it since the instant.
abbrev pub Held : ℕ → Event → Type 0
Held since e = (e.state ≡ published) ⊎ ((e.state ≡ publishing) × (e.update_time ≡ since))

-- The operation is no claim once a lease since the instant is over, and gives up no event of the id.
abbrev pub Within : ℕ → ℕ → Operation → Type 0
Within id since (claims locked limit now lease) = now < since + pos_part lease
Within id since (fails i next x now) = (i == id) ≡ false
Within id since op = Unit

Held-undispatchable :
    (since : ℕ) (e : Event) (locked : ℕ → Bool) (now lease : ℕ)
    → Held since e
    → now < since + lease
    → dispatchable locked now lease e ≡ false
unfolding dispatchable
Held-undispatchable since e locked now lease (inl h) w = ground arith
Held-undispatchable since e locked now lease (inr h) w = ground (arith, h.0, h.1)

now_published : (at : ℕ) (e : Event) → (publish_row at e).state ≡ published
unfolding publish_row
now_published at e = refl

step-Held :
    (json_valid : Text → Bool) (t : Table) (op : Operation) (id since : ℕ) {e : Event}
    → IsTable t
    → lookup id t.rows ≡ some e
    → Held since e
    → Within id since op
    → ((e' : Event) × (lookup id (step json_valid t op).0.rows ≡ some e') × Held since e')
      × (claims_id id (step json_valid t op).1 ≡ false)
unfolding step append_batch
step-Held json_valid t (appends es now) id since {e} o h k w =
    ((e, append_keeps (first_invalid json_valid es) t es now id h, k), none_claimed id)
step-Held json_valid t (claims locked limit now lease) id since {e} o h k w =
    let (kept, out) =
      claim_passes t locked limit now lease id o h
        (Held-undispatchable since e locked now (pos_part lease) k w) in
    ((e, kept, k), out)
step-Held json_valid t (publishes i at) id since {e} o h k w = elim (publish_looked t i at id h) [
  | inl kept ↦ ((e, kept, k), none_claimed id)
  | inr (changed, _) ↦ ((publish_row at e, changed, inl (now_published at e)), none_claimed id)
]
step-Held json_valid t (fails i next x now) id since {e} o h k w = (
  (e, fail_looked t i next x now id h (ground (arith, lookup-id id t.rows h)), k),
  none_claimed id,
)

pub run-Held :
    (json_valid : Text → Bool) (t : Table) (ops : List Operation) (id since : ℕ) {e : Event}
    → IsTable t
    → lookup id t.rows ≡ some e
    → Held since e
    → All (Within id since) ops
    → claimed_in json_valid id t ops ≡ false
unfolding claimed_in
run-Held json_valid t [] id since o h k w = refl
run-Held json_valid t (op ∷ ops) id since o h k w =
    let ((e', h', k'), out) = step-Held json_valid t op id since o h k w.0 in
    let rest =
      run-Held json_valid (step json_valid t op).0 ops id since (step-IsTable json_valid t op o) h'
        k' w.1 in
    ground (arith, out, rest)
