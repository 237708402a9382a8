-- ===== src/Platform/Outbox/Rows.antt =====
-- The rows of the outbox table (internal/platform/outbox/mysql/repository.go): their ids rise, and an update
-- or a query by condition acts on the row of an id as it should.
use course_forge.Prelude.{
  ℕ, zero, suc, ◌≤◌, ◌<◌, ◌≡◌, inl, inr, refl, Bool, false, Option, none, some, List, [], ◌∷◌, any,
  ◌==◌, if◌then◌else◌, arith, Bool-cases,
}
use course_forge.Platform.Outbox.Event.{Event}
use course_forge.Platform.Outbox.Repository.{Table, select_rows, ids_of, update_rows}

unfoldable pub lookup : ℕ → List Event → Option Event
lookup id [] = none
lookup id (e ∷ rows) = if e.id == id then some e else lookup id rows

-- The ids rise, from the one bound to below the other.
abbrev pub Ordered : ℕ → List Event → ℕ → Type 0
Ordered lo [] hi = lo ≤ hi
Ordered lo (e ∷ rows) hi = (lo ≤ e.id) × Ordered (suc e.id) rows hi

abbrev pub IsTable : Table → Type 0
IsTable t = Ordered 1 t.rows t.next_id

abbrev pub claims_id : ℕ → List Event → Bool
claims_id id es = any (λ i. i == id) (ids_of es)

-- An update that keeps the ids.
abbrev pub KeepsId : (Event → Event) → Type 0
KeepsId change = (e : Event) → (change e).id ≡ e.id

pub lookup-update :
    (id : ℕ) (wanted : Event → Bool) (change : Event → Event) (rows : List Event) {e : Event}
    → KeepsId change
    → lookup id rows ≡ some e
    → lookup id (update_rows wanted change rows) ≡ some (if wanted e then change e else e)
unfolding lookup update_rows
lookup-update id wanted change [] keeps h = absurd cc
lookup-update id wanted change (r ∷ rows) {e} keeps h = elim (Bool-cases (r.id == id)) [
  | inl here ↦
      let is_r : r ≡ e = ground (arith, h, here) in
      rw (← is_r) (elim (Bool-cases (wanted r)) [
        | inl yes_wanted ↦ rw (yes_wanted, keeps r, here) refl
        | inr unwanted ↦ rw (unwanted, here) refl
      ])
  | inr there ↦ elim (Bool-cases (wanted r)) [
    | inl yes_wanted ↦
        rw (yes_wanted, keeps r, there) (lookup-update id wanted change rows keeps (rw there at h))
    | inr unwanted ↦
        rw (unwanted, there) (lookup-update id wanted change rows keeps (rw there at h))
  ]
]

pub update-Ordered :
    (wanted : Event → Bool) (change : Event → Event) (lo hi : ℕ) (rows : List Event)
    → KeepsId change
    → Ordered lo rows hi
    → Ordered lo (update_rows wanted change rows) hi
unfolding update_rows
update-Ordered wanted change lo hi [] keeps h = h
update-Ordered wanted change lo hi (r ∷ rows) keeps h =
    let rest = update-Ordered wanted change (suc r.id) hi rows keeps h.1 in
    elim (Bool-cases (wanted r)) [
      | inl yes_wanted ↦ rw (yes_wanted, keeps r) (h.0, rest)
      | inr unwanted ↦ rw unwanted (h.0, rest)
    ]

pub above_unclaimed :
    (id lo hi : ℕ) (wanted : Event → Bool) (limit : ℕ) (rows : List Event)
    → id < lo
    → Ordered lo rows hi
    → claims_id id (select_rows wanted limit rows) ≡ false
unfolding select_rows ids_of
above_unclaimed id lo hi wanted zero rows b h = refl
above_unclaimed id lo hi wanted (suc limit) [] b h = refl
above_unclaimed id lo hi wanted (suc limit) (r ∷ rows) b h =
    let taken = above_unclaimed id (suc r.id) hi wanted limit rows (omega (arith, h.0)) h.1 in
    let passed =
      above_unclaimed id (suc r.id) hi wanted (suc limit) rows (omega (arith, h.0)) h.1 in
    elim (Bool-cases (wanted r)) [
      | inl yes_wanted ↦ rw yes_wanted (ground (arith, taken, h.0))
      | inr unwanted ↦ rw unwanted passed
    ]

-- A row that the query does not want is not selected.
pub unwanted_unclaimed :
    (id lo hi : ℕ) (wanted : Event → Bool) (limit : ℕ) (rows : List Event) {e : Event}
    → Ordered lo rows hi
    → lookup id rows ≡ some e
    → wanted e ≡ false
    → claims_id id (select_rows wanted limit rows) ≡ false
unfolding lookup select_rows ids_of
unwanted_unclaimed id lo hi wanted zero rows o h w = refl
unwanted_unclaimed id lo hi wanted (suc limit) [] o h w = refl
unwanted_unclaimed id lo hi wanted (suc limit) (r ∷ rows) {e} o h w =
    elim (Bool-cases (r.id == id)) [
      | inl here ↦
          let is_r : r ≡ e = ground (arith, h, here) in
          let unwanted : wanted r ≡ false = rw is_r w in
          rw unwanted (above_unclaimed id (suc r.id) hi wanted (suc limit) rows (ground arith) o.1)
      | inr there ↦
          let taken = unwanted_unclaimed id (suc r.id) hi wanted limit rows o.1 (rw there at h) w in
          let passed =
            unwanted_unclaimed id (suc r.id) hi wanted (suc limit) rows o.1 (rw there at h) w in
          elim (Bool-cases (wanted r)) [
            | inl yes_wanted ↦ rw yes_wanted (ground (arith, taken, there))
            | inr unwanted ↦ rw unwanted passed
          ]
    ]
