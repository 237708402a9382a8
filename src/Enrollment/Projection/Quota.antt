-- ===== src/Enrollment/Projection/Quota.antt =====
-- internal/enrollment/infrastructure/persistence/mysql_batch.go, persistSelectedQuotasBatch, on the table
-- `student_selection_quota`, which has one row for a round and a student. Credits are counted in tenths.
-- What MySQL makes of the text of an amount in `CAST(… AS DECIMAL(5,1))` is a parameter, that has no value where
-- the statement fails; the columns are unsigned, so that the statement fails as well on a negative sum.
use Prim.Native.Nat.{◌%◌}
use course_forge.Prelude.{
  ℕ, ◌+◌, any, codes, Bool, not, ◌&&◌, Option, none, some, List, [], ◌∷◌, leb, length, ◌==◌,
  if◌then◌else◌,
}
use course_forge.Prelude.Int.{pos, ◌+ℤ◌, ltb_ℤ, wrap32}
use course_forge.Enrollment.Errors.{Result, ok, err, external, credit_quota_exceeded}
use course_forge.Enrollment.Selection.{Credit, SelectionResult}

pub record QuotaRow : Type 0 where
  pub round_id : ℕ
  pub student_id : ℕ
  pub selected_credits : Credit
  pub selected_course_count : ℕ
  pub credit_limit : Credit
  pub course_limit : ℕ

-- `quotaBatchKey` and `quotaBatchDelta`.
pub record QuotaDelta : Type 0 where
  pub round_id : ℕ
  pub student_id : ℕ
  pub credits : Credit
  pub courses : ℕ

-- `deltas[key]` grows by a result.
unfoldable pub add_delta : SelectionResult → List QuotaDelta → List QuotaDelta
unfolding wrap32
add_delta r [] =
    record { round_id = r.round_id; student_id = r.student_id; credits = r.credits; courses = 1 }
    ∷ []
add_delta r (d ∷ ds) =
    let rest = add_delta r ds in
    if d.round_id == r.round_id && d.student_id == r.student_id
    then record d { credits = wrap32 (d.credits +ℤ r.credits); courses = (d.courses + 1) % 65536 }
      ∷ ds
    else d ∷ rest

unfoldable pub deltas_from : List QuotaDelta → List SelectionResult → List QuotaDelta
unfolding add_delta
deltas_from ds [] = ds
deltas_from ds (r ∷ rs) = deltas_from (add_delta r ds) rs

unfoldable pub delta_of : QuotaRow → List QuotaDelta → Option QuotaDelta
delta_of q [] = none
delta_of q (d ∷ ds) =
    if d.round_id == q.round_id && d.student_id == q.student_id then some d else delta_of q ds

abbrev pub fits : QuotaRow → QuotaDelta → Bool
fits q d =
    not (ltb_ℤ q.credit_limit (q.selected_credits +ℤ d.credits))
    && leb (q.selected_course_count + d.courses) q.course_limit

-- The join of a row, and the number of rows that it affects.
unfoldable pub update_quota : QuotaRow → Option QuotaDelta → QuotaRow × ℕ
update_quota q none = (q, 0)
update_quota q (some d) =
    if fits q d
    then (
      record q {
        selected_credits = q.selected_credits +ℤ d.credits;
        selected_course_count = q.selected_course_count + d.courses;
      },
      1,
    )
    else (q, 0)

unfoldable pub update_quotas : List QuotaRow → List QuotaDelta → List QuotaRow × ℕ
unfolding update_quota delta_of
update_quotas [] ds = ([], 0)
update_quotas (q ∷ qs) ds =
    let (q', n) = update_quota q (delta_of q ds) in
    let (qs', m) = update_quotas qs ds in (q' ∷ qs', n + m)

-- The rows of the joined table, with the cast credits.
unfoldable pub cast_deltas : (Credit → Option Credit) → List QuotaDelta → Option (List QuotaDelta)
cast_deltas cast_decimal [] = some []
cast_deltas cast_decimal (d ∷ ds) =
    let rest = cast_deltas cast_decimal ds in
    elim (cast_decimal d.credits) [
      | none ↦ none
      | some c ↦ elim rest [ none ↦ none | some more ↦ some (record d { credits = c } ∷ more) ]
    ]

abbrev pub is_negative : QuotaRow → Bool
is_negative q = ltb_ℤ q.selected_credits (pos 0)

-- The statement's answer, and the count of the rows it affects against the number of deltas.
unfoldable pub updated : List QuotaRow × ℕ → ℕ → Result (List QuotaRow)
updated (qs, n) count =
    if any is_negative qs
    then err (external (codes "Out of range value for column 'selected_credits'"))
    else if not (n == count)
    then err credit_quota_exceeded
    else ok qs

unfoldable pub update_cast : List QuotaRow → Option (List QuotaDelta) → Result (List QuotaRow)
unfolding update_quotas updated
update_cast qs none = err (external (codes "Out of range value"))
update_cast qs (some ds) = updated (update_quotas qs ds) (length ds)

unfoldable pub persist_selected_quotas_batch :
    (Credit → Option Credit) → List QuotaRow → List SelectionResult → Result (List QuotaRow)
unfolding update_cast cast_deltas deltas_from
persist_selected_quotas_batch cast_decimal qs [] = ok qs
persist_selected_quotas_batch cast_decimal qs rs =
    update_cast qs (cast_deltas cast_decimal (deltas_from [] rs))
