-- ===== src/Platform/Outbox/Exclusive.antt =====
-- What the dispatchers of the outbox (internal/platform/outbox/mysql/repository.go) may rely on, over any
-- sequence of operations by any number of them.
use course_forge.Prelude.{
  ℕ, zero, suc, ◌≡◌, inl, inr, refl, Bool, true, false, some, List, [], ◌∷◌, Text, All, ◌==◌, arith,
  Bool-cases,
}
use course_forge.Prelude.Int.{ℤ, pos_part}
use course_forge.Platform.Outbox.Event.{published, Event}
use course_forge.Platform.Outbox.Repository.{
  Table, dispatchable, select_rows, ids_of, claim_row, claim_pending, is_one_of, being_published,
  append_batch, first_invalid, datetime3,
}
use course_forge.Platform.Outbox.Rows.{lookup, IsTable, claims_id, lookup-update}
use course_forge.Platform.Outbox.Claims.{
  lookup-id, claim_outcome, claimed_keeps, claim_passes, none_claimed, ids-claimed,
}
use course_forge.Platform.Outbox.Leases.{
  Operation, appends, claims, publishes, fails, step, run, claimed_in, append_keeps, claim-IsTable,
  publish_looked, fail_looked, step-IsTable, Held, Within, run-Held,
}

-- An id that a query returns has a row.
selected_looked :
    (id : ℕ) (wanted : Event → Bool) (limit : ℕ) (rows : List Event)
    → claims_id id (select_rows wanted limit rows) ≡ true
    → (e : Event) × (lookup id rows ≡ some e)
unfolding lookup select_rows ids_of
selected_looked id wanted zero rows h = absurd cc
selected_looked id wanted (suc limit) [] h = absurd cc
selected_looked id wanted (suc limit) (r ∷ rows) h = elim (Bool-cases (r.id == id)) [
  | inl here ↦ (r, rw here refl)
  | inr there ↦ rw there (elim (Bool-cases (wanted r)) [
    | inl yes_wanted ↦ selected_looked id wanted limit rows (rw (yes_wanted, there) at h)
    | inr unwanted ↦ selected_looked id wanted (suc limit) rows (rw unwanted at h)
  ])
]

claimed_row : (now lease : ℕ) (e : Event) → Held (datetime3 now) (claim_row now lease e)
unfolding claim_row
claimed_row now lease e = inr (refl, refl)

-- A row that a claim returned is held since the instant of the claim, as the column rounds it.
claimed-Held :
    (t : Table) (locked : ℕ → Bool) (limit : ℤ) (now : ℕ) (lease : ℤ) (id : ℕ)
    → claims_id id (claim_pending t locked limit now lease).1.0 ≡ true
    → (e : Event) × (lookup id (claim_pending t locked limit now lease).0.rows ≡ some e)
      × Held (datetime3 now) e
claimed-Held t locked limit now lease id h = elim (claim_outcome t locked limit now lease) [
  | inl (_, nothing) ↦ absurd (ground (arith, rw nothing at h, none_claimed id))
  | inr (changed, claimed) ↦
      let selected =
        select_rows (dispatchable locked now (pos_part lease)) (pos_part limit) t.rows in
      let taken : claims_id id selected ≡ true =
        rw (claimed, ids-claimed now (pos_part lease) selected) at h in
      let (e, found) = selected_looked id _ (pos_part limit) t.rows taken in
      let marked : is_one_of (ids_of selected) e ≡ true = rw (lookup-id id t.rows found) taken in
      let after =
        lookup-update id (is_one_of (ids_of selected)) (claim_row now (pos_part lease)) t.rows
          (claimed_keeps now (pos_part lease)) found in
      (
        claim_row now (pos_part lease) e,
        rw changed (rw marked at after),
        claimed_row now (pos_part lease) e,
      )
]

-- An event that a claim returned is returned by no later claim at an instant before the end of that later
-- claim's lease, counted from the millisecond to which the first claim's instant is rounded, if no dispatcher
-- at all, be it the claim's own or a late one, marks the event failed meanwhile: whatever is appended,
-- claimed, published or marked failed otherwise. The ids of the table rise and are below its next id.
pub lease_exclusive :
    (json_valid : Text → Bool) (t : Table) (locked : ℕ → Bool) (limit : ℤ) (now : ℕ) (lease : ℤ)
    (id : ℕ) (ops : List Operation)
    → IsTable t
    → claims_id id (claim_pending t locked limit now lease).1.0 ≡ true
    → All (Within id (datetime3 now)) ops
    → claimed_in json_valid id (claim_pending t locked limit now lease).0 ops ≡ false
lease_exclusive json_valid t locked limit now lease id ops o h w =
    let (e, found, held) = claimed-Held t locked limit now lease id h in
    run-Held json_valid (claim_pending t locked limit now lease).0 ops id (datetime3 now)
      (claim-IsTable t locked limit now lease o) found held w

published_unlisted :
    (e : Event) (locked : ℕ → Bool) (now lease : ℕ)
    → e.state ≡ published
    → dispatchable locked now lease e ≡ false
unfolding dispatchable
published_unlisted e locked now lease h = ground (arith, h)

published_unmarked : (e : Event) (id : ℕ) → e.state ≡ published → being_published id e ≡ false
published_unmarked e id h = ground (arith, h)

step-published :
    (json_valid : Text → Bool) (t : Table) (op : Operation) (id : ℕ) {e : Event}
    → IsTable t
    → lookup id t.rows ≡ some e
    → e.state ≡ published
    → (lookup id (step json_valid t op).0.rows ≡ some e)
      × (claims_id id (step json_valid t op).1 ≡ false)
unfolding step append_batch
step-published json_valid t (appends es now) id o h k =
    (append_keeps (first_invalid json_valid es) t es now id h, none_claimed id)
step-published json_valid t (claims locked limit now lease) id {e} o h k =
    claim_passes t locked limit now lease id o h
      (published_unlisted e locked now (pos_part lease) k)
step-published json_valid t (publishes i at) id {e} o h k = elim (publish_looked t i at id h) [
  | inl kept ↦ (kept, none_claimed id)
  | inr (_, hit) ↦ absurd (ground (arith, hit, published_unmarked e i k))
]
step-published json_valid t (fails i next x now) id {e} o h k =
    (fail_looked t i next x now id h (published_unmarked e i k), none_claimed id)

-- An event that the table holds as published stays in it exactly as it is, and is claimed no more, whatever
-- operations follow.
pub published_final :
    (json_valid : Text → Bool) (t : Table) (ops : List Operation) (id : ℕ) {e : Event}
    → IsTable t
    → lookup id t.rows ≡ some e
    → e.state ≡ published
    → (lookup id (run json_valid t ops).rows ≡ some e) × (claimed_in json_valid id t ops ≡ false)
unfolding run claimed_in
published_final json_valid t [] id o h k = (h, refl)
published_final json_valid t (op ∷ ops) id o h k =
    let (h', out) = step-published json_valid t op id o h k in
    let (kept, rest) =
      published_final json_valid (step json_valid t op).0 ops id (step-IsTable json_valid t op o) h'
        k in
    (kept, ground (arith, out, rest))
