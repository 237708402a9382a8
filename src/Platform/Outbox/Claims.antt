-- ===== src/Platform/Outbox/Claims.antt =====
-- What a claim does to the outbox table (internal/platform/outbox/mysql/repository.go, ClaimPending), and
-- what appending does.
use course_forge.Prelude.{
  ℕ, suc, ◌+◌, ◌≤◌, ◌≡◌, ◌⊎◌, inl, inr, refl, Bool, false, Option, none, some, List, [], ◌∷◌, ◌++◌,
  length, is_empty, ◌==◌, arith, Bool-cases,
}
use course_forge.Prelude.Int.{ℤ, pos_part, is_pos}
use course_forge.Platform.Outbox.Event.{Event, NewEvent}
use course_forge.Platform.Outbox.Repository.{
  Table, dispatchable, select_rows, ids_of, update_rows, affected, claim_row, claim_pending,
  is_one_of, new_row, new_rows, claimed_events, claim_selected,
}
use course_forge.Platform.Outbox.Rows.{
  lookup, Ordered, IsTable, claims_id, KeepsId, lookup-update, unwanted_unclaimed,
}

pub ids-claimed :
    (now lease : ℕ) (es : List Event) → ids_of (claimed_events now lease es) ≡ ids_of es
unfolding ids_of claimed_events
ids-claimed now lease [] = refl
ids-claimed now lease (e ∷ es) = ground (arith, ids-claimed now lease es)

pub lookup-append :
    (id : ℕ) (rows more : List Event) {e : Event}
    → lookup id rows ≡ some e
    → lookup id (rows ++ more) ≡ some e
unfolding lookup
lookup-append id [] more h = absurd cc
lookup-append id (r ∷ rows) more h = elim (Bool-cases (r.id == id)) [
  | inl here ↦ rw here (rw here at h)
  | inr there ↦ rw there (lookup-append id rows more (rw there at h))
]

pub lookup-id : (id : ℕ) (rows : List Event) {e : Event} → lookup id rows ≡ some e → e.id ≡ id
unfolding lookup
lookup-id id [] h = absurd cc
lookup-id id (r ∷ rows) {e} h = elim (Bool-cases (r.id == id)) [
  | inl here ↦ let is_r : r ≡ e = ground (arith, h, here) in rw (← is_r) (ground arith)
  | inr there ↦ lookup-id id rows (rw there at h)
]

pub new_rows-Ordered :
    (lo id hi : ℕ) (es : List (Option NewEvent)) (now : ℕ)
    → lo ≤ id
    → id + length es ≤ hi
    → Ordered lo (new_rows id es now) hi
unfolding new_rows new_row
new_rows-Ordered lo id hi [] now h k = omega arith
new_rows-Ordered lo id hi (none ∷ es) now h k = new_rows-Ordered lo id hi es now h (omega arith)
new_rows-Ordered lo id hi (some e ∷ es) now h k =
    (h, new_rows-Ordered (suc id) (suc id) hi es now (omega arith) (omega arith))

Ordered-lower :
    (lo lo' hi : ℕ) (rows : List Event) → lo ≤ lo' → Ordered lo' rows hi → Ordered lo rows hi
Ordered-lower lo lo' hi [] h o = omega arith
Ordered-lower lo lo' hi (r ∷ rows) h o = (omega (arith, o.0), o.1)

pub append-Ordered :
    (lo mid hi : ℕ) (rows more : List Event)
    → Ordered lo rows mid
    → Ordered mid more hi
    → Ordered lo (rows ++ more) hi
append-Ordered lo mid hi [] more o q = Ordered-lower lo mid hi more o q
append-Ordered lo mid hi (r ∷ rows) more o q =
    (o.0, append-Ordered (suc r.id) mid hi rows more o.1 q)

-- A claim leaves the table as it is and returns nothing, or marks what it selects and returns that.
pub claim_outcome :
    (t : Table) (locked : ℕ → Bool) (limit : ℤ) (now : ℕ) (lease : ℤ)
    → let c = claim_pending t locked limit now lease in
      ((c.0 ≡ t) × (c.1.0 ≡ []))
      ⊎ (let selected =
            select_rows (dispatchable locked now (pos_part lease)) (pos_part limit) t.rows in
          (c.0 ≡ record t {
            rows =
                update_rows (is_one_of (ids_of selected)) (claim_row now (pos_part lease)) t.rows;
          })
          × (c.1.0 ≡ claimed_events now (pos_part lease) selected))
unfolding claim_pending claim_selected
claim_outcome t locked limit now lease = elim (Bool-cases (is_pos limit)) [
  | inr bad ↦ inl (ground arith, ground arith)
  | inl good ↦ elim (Bool-cases (is_pos lease)) [
    | inr bad ↦ inl (ground arith, ground arith)
    | inl right ↦
        let selected =
          select_rows (dispatchable locked now (pos_part lease)) (pos_part limit) t.rows in
        elim (Bool-cases (is_empty selected)) [
          | inl nothing ↦ inl (ground arith, ground arith)
          | inr something ↦
              elim (Bool-cases (affected (is_one_of (ids_of selected)) t.rows == length selected)) [
                | inl same ↦ inr (ground arith, ground arith)
                | inr other ↦ inl (ground arith, ground arith)
              ]
        ]
  ]
]

pub claimed_keeps : (now lease : ℕ) → KeepsId (claim_row now lease)
unfolding claim_row
claimed_keeps now lease e = refl

pub none_claimed : (id : ℕ) → claims_id id [] ≡ false
unfolding ids_of
none_claimed id = refl

-- A row that may not be dispatched is left as it is by a claim, and not returned.
pub claim_passes :
    (t : Table) (locked : ℕ → Bool) (limit : ℤ) (now : ℕ) (lease : ℤ) (id : ℕ) {e : Event}
    → IsTable t
    → lookup id t.rows ≡ some e
    → dispatchable locked now (pos_part lease) e ≡ false
    → (lookup id (claim_pending t locked limit now lease).0.rows ≡ some e)
      × (claims_id id (claim_pending t locked limit now lease).1.0 ≡ false)
claim_passes t locked limit now lease id {e} o h w = elim (claim_outcome t locked limit now lease) [
  | inl (same, nothing) ↦ (rw same h, rw nothing (none_claimed id))
  | inr (changed, claimed) ↦
      let selected =
        select_rows (dispatchable locked now (pos_part lease)) (pos_part limit) t.rows in
      let out =
        unwanted_unclaimed id 1 t.next_id (dispatchable locked now (pos_part lease))
          (pos_part limit) t.rows o h w in
      let is_id = lookup-id id t.rows h in
      let left : is_one_of (ids_of selected) e ≡ false = rw is_id out in
      let after =
        lookup-update id (is_one_of (ids_of selected)) (claim_row now (pos_part lease)) t.rows
          (claimed_keeps now (pos_part lease)) h in
      (rw changed (rw left at after), rw (claimed, ids-claimed now (pos_part lease) selected) out)
]
