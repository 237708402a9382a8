-- ===== src/Enrollment/Projection/Limits.antt =====
-- Student quotas in MySQL (internal/enrollment/infrastructure/persistence/mysql_batch.go) stay within their limits.
use course_forge.Prelude.{
  ℕ, ◌≤◌, Bool, false, any, ◌≡◌, inl, inr, refl, Option, none, some, List, [], ◌∷◌, Text, All,
  length, ◌==◌, arith, Bool-cases, is_empty, if◌then◌else◌,
}
use course_forge.Prelude.Int.{pos, ◌≤ℤ◌}
use course_forge.Enrollment.Errors.{Err, Result, ok, err, ◌>>=◌, ◌>>◌}
use course_forge.Enrollment.Selection.{Credit, SelectionResult}
use course_forge.Enrollment.Payload.{SelectionResultPayload}
use course_forge.Enrollment.Stream.{Unmarshalled}
use course_forge.Enrollment.Projection.Event.{normalize_selection_results}
use course_forge.Enrollment.Projection.Quota.{
  QuotaRow, QuotaDelta, deltas_from, delta_of, update_quota, update_quotas,
  persist_selected_quotas_batch, fits, cast_deltas, is_negative, updated, update_cast,
}
use course_forge.Enrollment.Projection.Claim.{
  claim_selection_events, validate_unclaimed_selection_events,
}
use course_forge.Enrollment.Projection.Persist.{Database, selected_only}
use course_forge.Enrollment.Projection.Save.{
  SelectionNotification, write_claimed, with_written, persist_claimed_selection_results,
  save_transaction, committed, save_batch, save_normalized, save_selection_results,
}

-- The selected credits and courses are at most the limits.
abbrev IsBelow : QuotaRow → Type 0
IsBelow q = (q.selected_credits ≤ℤ q.credit_limit) × (q.selected_course_count ≤ q.course_limit)

-- And the credits are not negative.
abbrev pub IsWithin : QuotaRow → Type 0
IsWithin q = (pos 0 ≤ℤ q.selected_credits) × IsBelow q

update_quota-IsBelow :
    (q : QuotaRow) (d : Option QuotaDelta) → IsBelow q → IsBelow (update_quota q d).0
unfolding update_quota
update_quota-IsBelow q none w = w
update_quota-IsBelow q (some d) w = elim (Bool-cases (fits q d)) [
  | inl good ↦ rw good (ground (arith, good), ground (arith, good))
  | inr bad ↦ rw bad w
]

update_quotas-IsBelow :
    (qs : List QuotaRow) (ds : List QuotaDelta)
    → All IsWithin qs
    → All IsBelow (update_quotas qs ds).0
unfolding update_quotas
update_quotas-IsBelow [] ds w = tt
update_quotas-IsBelow (q ∷ qs) ds w =
    (update_quota-IsBelow q (delta_of q ds) w.0.1, update_quotas-IsBelow qs ds w.1)

below-IsWithin :
    (qs : List QuotaRow) → any is_negative qs ≡ false → All IsBelow qs → All IsWithin qs
below-IsWithin [] h w = tt
below-IsWithin (q ∷ qs) h w = ((ground (arith, h), w.0), below-IsWithin qs (ground (arith, h)) w.1)

updated-IsWithin :
    (after : List QuotaRow × ℕ) (count : ℕ) (qs' : List QuotaRow)
    → updated after count ≡ ok qs'
    → All IsBelow after.0
    → All IsWithin qs'
unfolding updated
updated-IsWithin (qs, n) count qs' h w = elim (Bool-cases (any is_negative qs)) [
  | inl low ↦ absurd (ground (arith, rw low at h))
  | inr fine ↦ elim (Bool-cases (n == count)) [
    | inl same ↦
        let done : qs ≡ qs' = ground (arith, fine, same, h) in
        rw (← done) (below-IsWithin qs fine w)
    | inr other ↦ absurd (ground (arith, fine, other, h))
  ]
]

cast-IsWithin :
    (qs qs' : List QuotaRow) (ds : Option (List QuotaDelta))
    → update_cast qs ds ≡ ok qs'
    → All IsWithin qs
    → All IsWithin qs'
unfolding update_cast
cast-IsWithin qs qs' none h w = absurd cc
cast-IsWithin qs qs' (some ds) h w =
    updated-IsWithin (update_quotas qs ds) (length ds) qs' h (update_quotas-IsBelow qs ds w)

persist-IsWithin :
    (cast_decimal : Credit → Option Credit) (qs qs' : List QuotaRow) (rs : List SelectionResult)
    → persist_selected_quotas_batch cast_decimal qs rs ≡ ok qs'
    → All IsWithin qs
    → All IsWithin qs'
unfolding persist_selected_quotas_batch
persist-IsWithin cast_decimal qs qs' [] h w = let same : qs ≡ qs' = cc in rw (← same) w
persist-IsWithin cast_decimal qs qs' (r ∷ rs) h w =
    cast-IsWithin qs qs' (cast_deltas cast_decimal (deltas_from [] (r ∷ rs))) h w

-- A result, if there is one, keeps the quotas within their limits.
abbrev KeepsLimits : Result Database → Type 0
KeepsLimits (err e) = Unit
KeepsLimits (ok db) = All IsWithin db.quotas

bind-KeepsLimits :
    {Value : Type 0} (m : Result Value) (next : Value → Result Database)
    → ((v : Value) → m ≡ ok v → KeepsLimits (next v))
    → KeepsLimits (m >>= next)
bind-KeepsLimits (err e) next h = tt
bind-KeepsLimits (ok v) next h = h v refl

check-KeepsLimits :
    (check : Option Err) (next : Result Database) → KeepsLimits next → KeepsLimits (check >> next)
check-KeepsLimits (some e) next h = tt
check-KeepsLimits none next h = h

module _ (cast_decimal : Credit → Option Credit) (json_valid : Text → Bool)
    (encode : SelectionNotification → Text) (new_id : ℕ → Result Text) (now : ℕ) where
  claimed-KeepsLimits :
      (db : Database) (rs : List SelectionResult)
      → All IsWithin db.quotas
      → KeepsLimits
          (persist_claimed_selection_results cast_decimal json_valid encode new_id now db rs)
  unfolding persist_claimed_selection_results
  claimed-KeepsLimits db rs w =
      bind-KeepsLimits (persist_selected_quotas_batch cast_decimal db.quotas (selected_only rs))
        (λ quotas. write_claimed cast_decimal json_valid encode new_id now db rs >>= λ written.
          ok (with_written db quotas written))
        (λ quotas ran.
          bind-KeepsLimits (write_claimed cast_decimal json_valid encode new_id now db rs)
            (λ written. ok (with_written db quotas written))
            (λ written _. persist-IsWithin cast_decimal db.quotas quotas (selected_only rs) ran w))

  transaction-KeepsLimits :
      (marshal : Option SelectionResultPayload → Text) (unmarshal : Text → Unmarshalled)
      (batch : Text) (db : Database) (rs : List SelectionResult)
      → All IsWithin db.quotas
      → KeepsLimits
          (save_transaction cast_decimal json_valid encode new_id now marshal unmarshal batch db rs)
  unfolding save_transaction
  transaction-KeepsLimits marshal unmarshal batch db rs w =
      let rows = (claim_selection_events marshal batch now db.events rs).0 in
      let claimed = (claim_selection_events marshal batch now db.events rs).1 in
      let next = claimed-KeepsLimits (record db { events = rows }) claimed w in
      check-KeepsLimits (validate_unclaimed_selection_events unmarshal rows rs claimed)
        (if is_empty claimed
          then ok (record db { events = rows })
          else persist_claimed_selection_results cast_decimal json_valid encode new_id now
              (record db { events = rows }) claimed)
        (elim (Bool-cases (is_empty claimed)) [
          | inl nothing ↦ rw nothing w
          | inr something ↦ rw something next
        ])

  committed-IsWithin :
      (cleared : Option Err) (db : Database) (m : Result Database)
      → KeepsLimits m
      → All IsWithin db.quotas
      → All IsWithin (committed cast_decimal json_valid encode new_id now cleared db m).0.quotas
  unfolding committed
  committed-IsWithin cleared db (err e) h w = w
  committed-IsWithin cleared db (ok db') h w = h

  normalized-IsWithin :
      (marshal : Option SelectionResultPayload → Text) (unmarshal : Text → Unmarshalled)
      (cleared : Option Err) (db : Database) (m : Result (List SelectionResult)) (id : Result Text)
      → id ≡ new_id 0
      → All IsWithin db.quotas
      → All IsWithin
          (save_normalized cast_decimal json_valid encode new_id now marshal unmarshal cleared db
            m).0.quotas
  unfolding save_normalized save_batch
  normalized-IsWithin marshal unmarshal cleared db (err e) id same w = w
  normalized-IsWithin marshal unmarshal cleared db (ok []) id same w = w
  normalized-IsWithin marshal unmarshal cleared db (ok (r ∷ rs)) (err e) same w = rw (← same) w
  normalized-IsWithin marshal unmarshal cleared db (ok (r ∷ rs)) (ok batch) same w = rw (← same) (
      committed-IsWithin cleared db
        (save_transaction cast_decimal json_valid encode new_id now marshal unmarshal batch db
          (r ∷ rs))
        (transaction-KeepsLimits marshal unmarshal batch db (r ∷ rs) w) w)

  -- Whatever batch is saved, however MySQL casts its credits, and whether the batch is saved or fails, the
  -- selected credits of every student in every round stay at least zero and at most the credit limit in
  -- MySQL, and the selected courses at most the course limit, if they were before.
  pub save_selection_results-IsWithin :
      (marshal : Option SelectionResultPayload → Text) (unmarshal : Text → Unmarshalled)
      (clear : List (Option SelectionResult) → Option Err) (db : Database)
      (rs : List (Option SelectionResult))
      → All IsWithin db.quotas
      → All IsWithin
          (save_selection_results cast_decimal json_valid encode new_id now marshal unmarshal clear
            db rs).0.quotas
  unfolding save_selection_results
  save_selection_results-IsWithin marshal unmarshal clear db rs w =
      normalized-IsWithin marshal unmarshal (clear rs) db (normalize_selection_results rs)
        (new_id 0) refl w
