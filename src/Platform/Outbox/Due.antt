-- ===== src/Platform/Outbox/Due.antt =====
-- Which events of the outbox get claimed (internal/platform/outbox/mysql/repository.go, ClaimPending).
use course_forge.Prelude.{
  ℕ, zero, suc, ◌≤◌, ◌<◌, ◌≡◌, inl, inr, refl, Bool, true, false, none, some, List, [], ◌∷◌, length,
  ltb, leb, not, ◌+◌, ◌&&◌, ◌==◌, arith, Bool-cases,
}
use course_forge.Prelude.Int.{pos}
use course_forge.Platform.Outbox.Event.{
  State, pending, publishing, published, failed, other_state, Event,
}
use course_forge.Platform.Outbox.Repository.{
  Table, dispatchable, select_rows, ids_of, affected, claim_pending, is_one_of, claimed_events,
  claim_selected,
}
use course_forge.Platform.Outbox.Rows.{
  lookup, Ordered, IsTable, claims_id, above_unclaimed, unwanted_unclaimed,
}
use course_forge.Platform.Outbox.Claims.{ids-claimed}

-- An id below the rows affects none of them.
below_unaffected :
    (id : ℕ) (ids : List ℕ) (lo hi : ℕ) (rows : List Event)
    → id < lo
    → Ordered lo rows hi
    → affected (is_one_of (id ∷ ids)) rows ≡ affected (is_one_of ids) rows
unfolding affected
below_unaffected id ids lo hi [] b o = refl
below_unaffected id ids lo hi (r ∷ rows) b o =
    let rest = below_unaffected id ids (suc r.id) hi rows (omega (arith, o.0)) o.1 in
    let other : (id == r.id) ≡ false = ground (arith, o.0) in rw (other, rest) refl

nothing_affected : (rows : List Event) → affected (is_one_of []) rows ≡ 0
unfolding affected
nothing_affected [] = refl
nothing_affected (r ∷ rows) = omega (arith, nothing_affected rows)

no_ids : (rows : List Event) → affected (is_one_of (ids_of [])) rows ≡ 0
unfolding ids_of
no_ids rows = nothing_affected rows

-- The selected ids affect one row more when the first row is selected, and no more when it is not.
taken_affected :
    (r : Event) (es rows : List Event) (hi : ℕ)
    → Ordered (suc r.id) rows hi
    → affected (is_one_of (ids_of es)) rows ≡ length es
    → affected (is_one_of (ids_of (r ∷ es))) (r ∷ rows) ≡ length (r ∷ es)
unfolding affected ids_of
taken_affected r es rows hi o h =
    let same = below_unaffected r.id (ids_of es) (suc r.id) hi rows (omega arith) o in
    let own : (r.id == r.id) ≡ true = ground arith in rw (own, same, h) (omega arith)

passed_affected :
    (r : Event) (es rows : List Event)
    → claims_id r.id es ≡ false
    → affected (is_one_of (ids_of es)) rows ≡ length es
    → affected (is_one_of (ids_of es)) (r ∷ rows) ≡ length es
unfolding affected
passed_affected r es rows out h = rw (out, h) (omega arith)

selects_wanted :
    (wanted : Event → Bool) (limit : ℕ) (r : Event) (rows : List Event)
    → wanted r ≡ true
    → select_rows wanted (suc limit) (r ∷ rows) ≡ r ∷ select_rows wanted limit rows
unfolding select_rows
selects_wanted wanted limit r rows h = rw h refl

passes_unwanted :
    (wanted : Event → Bool) (limit : ℕ) (r : Event) (rows : List Event)
    → wanted r ≡ false
    → select_rows wanted (suc limit) (r ∷ rows) ≡ select_rows wanted (suc limit) rows
unfolding select_rows
passes_unwanted wanted limit r rows h = rw h refl

selects_none : (wanted : Event → Bool) (rows : List Event) → select_rows wanted 0 rows ≡ []
unfolding select_rows
selects_none wanted rows = refl

selects_nothing : (wanted : Event → Bool) (limit : ℕ) → select_rows wanted limit [] ≡ []
unfolding select_rows
selects_nothing wanted zero = refl
selects_nothing wanted (suc limit) = refl

-- The ids that a query selects affect as many rows as it selected.
selected_affected :
    (wanted : Event → Bool) (limit lo hi : ℕ) (rows : List Event)
    → Ordered lo rows hi
    → affected (is_one_of (ids_of (select_rows wanted limit rows))) rows
      ≡ length (select_rows wanted limit rows)
selected_affected wanted zero lo hi rows o = rw (selects_none wanted rows) (no_ids rows)
selected_affected wanted (suc limit) lo hi [] o =
    rw (selects_nothing wanted (suc limit)) (no_ids [])
selected_affected wanted (suc limit) lo hi (r ∷ rows) o =
    let taken = selected_affected wanted limit (suc r.id) hi rows o.1 in
    let passed = selected_affected wanted (suc limit) (suc r.id) hi rows o.1 in
    elim (Bool-cases (wanted r)) [
      | inl yes_wanted ↦
          rw (selects_wanted wanted limit r rows yes_wanted)
            (taken_affected r (select_rows wanted limit rows) rows hi o.1 taken)
      | inr unwanted ↦
          let out = above_unclaimed r.id (suc r.id) hi wanted (suc limit) rows (omega arith) o.1 in
          rw (passes_unwanted wanted limit r rows unwanted)
            (passed_affected r (select_rows wanted (suc limit) rows) rows out passed)
    ]

-- A wanted row is selected when the query's limit covers all that are wanted.
wanted_selected :
    (id : ℕ) (wanted : Event → Bool) (limit : ℕ) (rows : List Event) {e : Event}
    → lookup id rows ≡ some e
    → wanted e ≡ true
    → affected wanted rows ≤ limit
    → claims_id id (select_rows wanted limit rows) ≡ true
unfolding lookup select_rows ids_of affected
wanted_selected id wanted limit [] h w b = absurd cc
wanted_selected id wanted zero (r ∷ rows) {e} h w b = elim (Bool-cases (r.id == id)) [
  | inl here ↦
      let is_r : r ≡ e = ground (arith, h, here) in
      let hit : wanted r ≡ true = rw is_r w in absurd (ground (arith, rw hit at b))
  | inr there ↦ wanted_selected id wanted zero rows (rw there at h) w (ground (arith, b))
]
wanted_selected id wanted (suc limit) (r ∷ rows) {e} h w b = elim (Bool-cases (r.id == id)) [
  | inl here ↦
      let is_r : r ≡ e = ground (arith, h, here) in
      let hit : wanted r ≡ true = rw is_r w in rw (hit, here) refl
  | inr there ↦ elim (Bool-cases (wanted r)) [
    | inl yes_wanted ↦
        rw (yes_wanted, there)
          (wanted_selected id wanted limit rows (rw there at h) w
            (omega (arith, rw yes_wanted at b)))
    | inr unwanted ↦ rw unwanted (
        wanted_selected id wanted (suc limit) rows (rw there at h) w
          (omega (arith, rw unwanted at b)))
  ]
]

claim_ran :
    (t : Table) (selected : List Event) (now lease : ℕ)
    → affected (is_one_of (ids_of selected)) t.rows ≡ length selected
    → (claim_selected t selected now lease).1 ≡ (claimed_events now lease selected, none)
unfolding claim_selected claimed_events
claim_ran t [] now lease same = refl
claim_ran t (e ∷ es) now lease same = rw same (ground arith)

-- When an event of a state is due: one that waits to be published, or to be published again, at its next
-- attempt, and one that a dispatcher took when the lease is over. All other states are at rest.
unfoldable pub due_in : State → ℕ → ℕ → Event → Bool
due_in pending now lease e = leb e.next_retry_at now
due_in failed now lease e = leb e.next_retry_at now
due_in publishing now lease e = leb (e.update_time + lease) now
due_in published now lease e = false
due_in (other_state s) now lease e = false

abbrev pub is_due : (ℕ → Bool) → ℕ → ℕ → Event → Bool
is_due locked now lease e = due_in e.state now lease e && not (locked e.id)

dispatchable_in :
    (s : State) (locked : ℕ → Bool) (now lease : ℕ) (e : Event)
    → e.state ≡ s
    → dispatchable locked now lease e ≡ (due_in s now lease e && not (locked e.id))
unfolding dispatchable due_in
dispatchable_in pending locked now lease e h = ground (arith, h)
dispatchable_in failed locked now lease e h = ground (arith, h)
dispatchable_in publishing locked now lease e h = ground (arith, h)
dispatchable_in published locked now lease e h = ground (arith, h)
dispatchable_in (other_state s) locked now lease e h = ground (arith, h)

dispatchable-is_due :
    (locked : ℕ → Bool) (now lease : ℕ) (e : Event)
    → dispatchable locked now lease e ≡ is_due locked now lease e
dispatchable-is_due locked now lease e = dispatchable_in e.state locked now lease e refl

same_affected :
    (f g : Event → Bool) (rows : List Event)
    → ((e : Event) → f e ≡ g e)
    → affected f rows ≡ affected g rows
unfolding affected
same_affected f g [] h = refl
same_affected f g (r ∷ rows) h = rw (h r, same_affected f g rows h) refl

-- An event of the table is returned by a claim exactly when it is due, and the claim reports no error: it is
-- due when it is pending or failed and its next attempt has come, or in publication and the lease since its
-- last update is over, and no other transaction has locked its row. The limit is positive and covers the
-- events that are due, the lease is positive, and the ids of the table rise and are below its next id.
pub due_claimed :
    (t : Table) (locked : ℕ → Bool) (limit now lease id : ℕ) {e : Event}
    → IsTable t
    → lookup id t.rows ≡ some e
    → affected (is_due locked now lease) t.rows ≤ limit
    → 0 < limit
    → 0 < lease
    → (claims_id id (claim_pending t locked (pos limit) now (pos lease)).1.0
        ≡ is_due locked now lease e)
      × ((claim_pending t locked (pos limit) now (pos lease)).1.1 ≡ none)
unfolding claim_pending
due_claimed t locked limit now lease id {e} o h b p q =
    let wanted = dispatchable locked now lease in
    let selected = select_rows wanted limit t.rows in
    let ran =
      claim_ran t selected now lease (selected_affected wanted limit 1 t.next_id t.rows o) in
    let same = dispatchable-is_due locked now lease e in
    let counted =
      same_affected wanted (is_due locked now lease) t.rows
        (dispatchable-is_due locked now lease) in
    let some_limit : ltb 0 limit ≡ true = ground arith in
    let some_lease : ltb 0 lease ≡ true = ground arith in
    let found : claims_id id selected ≡ is_due locked now lease e = elim (Bool-cases (wanted e)) [
      | inl due ↦ rw (← same, due) (wanted_selected id wanted limit t.rows h due (rw counted b))
      | inr waits ↦
          rw (← same, waits) (unwanted_unclaimed id 1 t.next_id wanted limit t.rows o h waits)
    ] in
    rw (some_limit, some_lease, ran) (rw (ids-claimed now lease selected) found, refl)
