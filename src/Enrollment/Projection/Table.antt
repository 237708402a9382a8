-- ===== src/Enrollment/Projection/Table.antt =====
-- The table of selection events (internal/enrollment/infrastructure/persistence/mysql_batch.go): what an insert
-- that skips known ids does to it, and what the queries by id find.
use course_forge.Prelude.{
  ◌≡◌, inl, inr, refl, sym, ◌∙◌, true, false, ◌||◌, List, [], ◌∷◌, ◌++◌, Text, text_eq,
  text_eq_refl, text_eq_sound, any, All, arith, Bool-cases,
}
use course_forge.Enrollment.Selection.{SelectionResult}
use course_forge.Enrollment.Projection.Event.{selection_result_event_id}
use course_forge.Enrollment.Projection.Claim.{
  SelectionEventRow, has_event, insert_new, batch_ids, has_result,
}

abbrev pub IsKeyed : List SelectionEventRow → Type 0
IsKeyed [] = Unit
IsKeyed (row ∷ rows) = (has_event row.event_id rows ≡ false) × IsKeyed rows

-- No row was written by the batch.
abbrev pub IsFresh : Text → List SelectionEventRow → Type 0
IsFresh batch rows = All (λ row. text_eq row.consume_batch_id batch ≡ false) rows

abbrev pub IsDistinct : List SelectionResult → Type 0
IsDistinct [] = Unit
IsDistinct (r ∷ rs) = (has_result (selection_result_event_id r) rs ≡ false) × IsDistinct rs

pub text_eq_sym : (s t : Text) → text_eq s t ≡ text_eq t s
text_eq_sym s t = elim (Bool-cases (text_eq s t)) [
  | inl same ↦ let p : s ≡ t = text_eq_sound s t same in rw p refl
  | inr other ↦ elim (Bool-cases (text_eq t s)) [
    | inl back ↦ let p : t ≡ s = text_eq_sound t s back in rw p refl
    | inr apart ↦ rw (other, apart) refl
  ]
]

has_event-append :
    (id : Text) (rows more : List SelectionEventRow)
    → has_event id (rows ++ more) ≡ (has_event id rows || has_event id more)
has_event-append id [] more = refl
has_event-append id (row ∷ rows) more = ground (arith, has_event-append id rows more)

append-IsKeyed :
    (rows : List SelectionEventRow) (x : SelectionEventRow)
    → IsKeyed rows
    → has_event x.event_id rows ≡ false
    → IsKeyed (rows ++ x ∷ [])
append-IsKeyed [] x k h = (refl, tt)
append-IsKeyed (row ∷ rows) x k h =
    let apart : text_eq x.event_id row.event_id ≡ false =
      rw (text_eq_sym x.event_id row.event_id) (ground (arith, h)) in
    (
      ground (arith, has_event-append row.event_id rows (x ∷ []), k.0, apart),
      append-IsKeyed rows x k.1 (ground (arith, h)),
    )

pub insert_new-IsKeyed :
    (rows xs : List SelectionEventRow) → IsKeyed rows → IsKeyed (insert_new rows xs)
unfolding insert_new
insert_new-IsKeyed rows [] k = k
insert_new-IsKeyed rows (x ∷ xs) k = elim (Bool-cases (has_event x.event_id rows)) [
  | inl known ↦ rw known (insert_new-IsKeyed rows xs k)
  | inr new ↦ rw new (insert_new-IsKeyed (rows ++ x ∷ []) xs (append-IsKeyed rows x k new))
]

pub insert_new-known :
    (rows xs : List SelectionEventRow)
    → All (λ x. has_event x.event_id rows ≡ true) xs
    → insert_new rows xs ≡ rows
unfolding insert_new
insert_new-known rows [] h = refl
insert_new-known rows (x ∷ xs) h = rw h.0 (insert_new-known rows xs h.1)

insert_new-keeps :
    (id : Text) (rows xs : List SelectionEventRow)
    → has_event id rows ≡ true
    → has_event id (insert_new rows xs) ≡ true
unfolding insert_new
insert_new-keeps id rows [] h = h
insert_new-keeps id rows (x ∷ xs) h = elim (Bool-cases (has_event x.event_id rows)) [
  | inl known ↦ rw known (insert_new-keeps id rows xs h)
  | inr new ↦ rw new (
      insert_new-keeps id (rows ++ x ∷ []) xs
        (ground (arith, has_event-append id rows (x ∷ []), h)))
]

insert_new-skips :
    (rows xs : List SelectionEventRow) (x : SelectionEventRow)
    → has_event x.event_id rows ≡ true
    → insert_new rows (x ∷ xs) ≡ insert_new rows xs
unfolding insert_new
insert_new-skips rows xs x h = rw h refl

insert_new-takes :
    (rows xs : List SelectionEventRow) (x : SelectionEventRow)
    → has_event x.event_id rows ≡ false
    → insert_new rows (x ∷ xs) ≡ insert_new (rows ++ x ∷ []) xs
unfolding insert_new
insert_new-takes rows xs x h = rw h refl

inserted_into :
    (table rows xs : List SelectionEventRow)
    → insert_new rows xs ≡ table
    → All (λ x. has_event x.event_id table ≡ true) xs
inserted_into table rows [] h = tt
inserted_into table rows (x ∷ xs) h = elim (Bool-cases (has_event x.event_id rows)) [
  | inl known ↦
      let next : insert_new rows xs ≡ table = sym (insert_new-skips rows xs x known) ∙ h in
      (rw (← next) (insert_new-keeps x.event_id rows xs known), inserted_into table rows xs next)
  | inr new ↦
      let own : has_event x.event_id (rows ++ x ∷ []) ≡ true =
        ground (arith, has_event-append x.event_id rows (x ∷ []), text_eq_refl x.event_id) in
      let next : insert_new (rows ++ x ∷ []) xs ≡ table =
        sym (insert_new-takes rows xs x new) ∙ h in
      (
        rw (← next) (insert_new-keeps x.event_id (rows ++ x ∷ []) xs own),
        inserted_into table (rows ++ x ∷ []) xs next,
      )
]

pub insert_new-inserts :
    (rows xs : List SelectionEventRow)
    → All (λ x. has_event x.event_id (insert_new rows xs) ≡ true) xs
insert_new-inserts rows xs = inserted_into (insert_new rows xs) rows xs refl

All-append :
    (Q : SelectionEventRow → Type 0) (rows : List SelectionEventRow) (x : SelectionEventRow)
    → All Q rows
    → Q x
    → All Q (rows ++ x ∷ [])
All-append Q [] x h q = (q, tt)
All-append Q (row ∷ rows) x h q = (h.0, All-append Q rows x h.1 q)

pub insert_new-All :
    (Q : SelectionEventRow → Type 0) (rows xs : List SelectionEventRow)
    → All Q rows
    → All Q xs
    → All Q (insert_new rows xs)
unfolding insert_new
insert_new-All Q rows [] h q = h
insert_new-All Q rows (x ∷ xs) h q = elim (Bool-cases (has_event x.event_id rows)) [
  | inl known ↦ rw known (insert_new-All Q rows xs h q.1)
  | inr new ↦ rw new (insert_new-All Q (rows ++ x ∷ []) xs (All-append Q rows x h q.0) q.1)
]

pub IsFresh-batch_ids :
    (batch : Text) (rows : List SelectionEventRow) → IsFresh batch rows → batch_ids batch rows ≡ []
unfolding batch_ids
IsFresh-batch_ids batch [] f = refl
IsFresh-batch_ids batch (row ∷ rows) f = rw f.0 (IsFresh-batch_ids batch rows f.1)

-- A row of the id is not of the batch.
abbrev pub NotOf : Text → Text → SelectionEventRow → Type 0
NotOf batch id row = text_eq row.event_id id ≡ true → text_eq row.consume_batch_id batch ≡ false

IsFresh-NotOf :
    (batch id : Text) (rows : List SelectionEventRow)
    → IsFresh batch rows
    → All (NotOf batch id) rows
IsFresh-NotOf batch id [] f = tt
IsFresh-NotOf batch id (row ∷ rows) f = (λ same. f.0, IsFresh-NotOf batch id rows f.1)

no_clash :
    (id : Text) (rows : List SelectionEventRow) (x : SelectionEventRow)
    → has_event id rows ≡ true
    → has_event x.event_id rows ≡ false
    → x.event_id ≡ id
    → ⊥
no_clash id rows x h new same = absurd (ground (arith, rw same at new, h))

insert_new-NotOf :
    (batch id : Text) (rows xs : List SelectionEventRow)
    → has_event id rows ≡ true
    → All (NotOf batch id) rows
    → All (NotOf batch id) (insert_new rows xs)
insert_new-NotOf batch id rows [] h q = rw (insert_new-known rows [] tt) q
insert_new-NotOf batch id rows (x ∷ xs) h q = elim (Bool-cases (has_event x.event_id rows)) [
  | inl known ↦ rw (insert_new-skips rows xs x known) (insert_new-NotOf batch id rows xs h q)
  | inr new ↦
      let kept : has_event id (rows ++ x ∷ []) ≡ true =
        ground (arith, has_event-append id rows (x ∷ []), h) in
      rw (insert_new-takes rows xs x new) (
        insert_new-NotOf batch id (rows ++ x ∷ []) xs kept (
          All-append (NotOf batch id) rows x q
            (λ same. absurd (no_clash id rows x h new (text_eq_sound x.event_id id same)))))
]

NotOf-batch_ids :
    (batch id : Text) (rows : List SelectionEventRow)
    → All (NotOf batch id) rows
    → any (λ i. text_eq i id) (batch_ids batch rows) ≡ false
unfolding batch_ids
NotOf-batch_ids batch id [] q = refl
NotOf-batch_ids batch id (row ∷ rows) q = elim (Bool-cases (text_eq row.event_id id)) [
  | inl same ↦ rw (q.0 same) (NotOf-batch_ids batch id rows q.1)
  | inr other ↦ elim (Bool-cases (text_eq row.consume_batch_id batch)) [
    | inl own ↦ rw (own, other) (NotOf-batch_ids batch id rows q.1)
    | inr foreign ↦ rw foreign (NotOf-batch_ids batch id rows q.1)
  ]
]

-- An id that the table has before the insert is claimed by no batch that is new to it.
pub known_unclaimed :
    (batch id : Text) (rows xs : List SelectionEventRow)
    → IsFresh batch rows
    → has_event id rows ≡ true
    → any (λ i. text_eq i id) (batch_ids batch (insert_new rows xs)) ≡ false
known_unclaimed batch id rows xs f h =
    NotOf-batch_ids batch id (insert_new rows xs)
      (insert_new-NotOf batch id rows xs h (IsFresh-NotOf batch id rows f))

old_in_append :
    (Q : SelectionEventRow → Type 0) (rows : List SelectionEventRow) (x : SelectionEventRow)
    → All Q (rows ++ x ∷ [])
    → All Q rows
old_in_append Q [] x h = tt
old_in_append Q (row ∷ rows) x h = (h.0, old_in_append Q rows x h.1)

-- The rows before an insert are among those after it.
pub insert_new-old :
    (Q : SelectionEventRow → Type 0) (rows xs : List SelectionEventRow)
    → All Q (insert_new rows xs)
    → All Q rows
insert_new-old Q rows [] h = rw (insert_new-known rows [] tt) at h
insert_new-old Q rows (x ∷ xs) h = elim (Bool-cases (has_event x.event_id rows)) [
  | inl known ↦ insert_new-old Q rows xs (rw (insert_new-skips rows xs x known) at h)
  | inr new ↦
      old_in_append Q rows x
        (insert_new-old Q (rows ++ x ∷ []) xs (rw (insert_new-takes rows xs x new) at h))
]
