-- ===== src/Enrollment/Undo.antt =====
-- A drop undoes a selection: what the release script gives back is what the commit script took.
use mathlib.Core.Path.{ap₂}
use course_forge.Prelude.{
  ℕ, suc, ◌+◌, ◌≡◌, inl, inr, refl, sym, ap, ◌∙◌, true, false, none, List, [], ◌∷◌, Text,
  text_eq_refl, is_empty, arith,
}
use course_forge.Prelude.Int.{ℤ, pos, ◌+ℤ◌}
use course_forge.Enrollment.Selection.{SelectionResult}
use course_forge.Enrollment.Store.{Store, number, encoded, set_course, add_slot}
use course_forge.Enrollment.Commit.{Call, commit, record_selection, refusal, add_slots}
use course_forge.Enrollment.Commit.Effects.{
  Enough, Taken, Remaining, commit_cases, Recorded-Enough, record_selection-Taken, is_recorded,
}
use course_forge.Enrollment.Release.{ReleaseCall, released, released_before, release}

-- The drop of the enrollment that a recorded call led to.
pub record Drops (c : Call) (r : SelectionResult) (d : ReleaseCall) : Type 0 where
  pub same_round : d.round_id ≡ c.round_id
  pub same_student : d.student_id ≡ c.student_id
  pub same_class : d.teaching_class_id ≡ c.teaching_class_id
  pub same_credits : d.credits ≡ r.credits

set_course-ne : (k : ℕ) (v : Text) (h : List (ℕ × Text)) → is_empty (set_course k v h) ≡ false
unfolding set_course
set_course-ne k v [] = refl
set_course-ne k v ((j, w) ∷ h) = ground arith

add_slot-ne : (k : Text) (d : ℤ) (h : List (Text × ℤ)) → is_empty (add_slot k d h) ≡ false
unfolding add_slot
add_slot-ne k d [] = refl
add_slot-ne k d ((j, n) ∷ h) = ground arith

add_slots-ne :
    (slots : List Text) (d : ℤ) (h : List (Text × ℤ))
    → is_empty h ≡ false
    → is_empty (add_slots slots d h) ≡ false
unfolding add_slots
add_slots-ne [] d h e = e
add_slots-ne (slot ∷ slots) d h e = add_slots-ne slots d _ (ground (arith, add_slot-ne slot d h))

keys_present :
    (s : Store) (c : Call) (r : SelectionResult)
    → refusal s c r ≡ none
    → (is_empty (s.class_schedule c.teaching_class_id) ≡ false)
      × (is_empty (s.student_schedule c.round_id c.student_id) ≡ false)
unfolding refusal
keys_present s c r h = (ground arith, ground arith)

released_amounts :
    (t : Store) (d : ReleaseCall) (a b e k : ℕ)
    → t.dropped d.enrollment_id ≡ false
    → t.credit d.round_id d.student_id ≡ number (pos a)
    → t.course_quota d.round_id d.student_id ≡ number (pos b)
    → t.seat d.teaching_class_id ≡ number (pos e)
    → is_empty (t.selected_courses d.round_id d.student_id) ≡ false
    → is_empty (t.class_schedule d.teaching_class_id) ≡ false
    → is_empty (t.student_schedule d.round_id d.student_id) ≡ false
    → d.credits ≡ pos (suc k)
    → ((release t d).1 ≡ released)
      × ((release t d).0.credit d.round_id d.student_id ≡ number (pos (suc k + a)))
      × ((release t d).0.course_quota d.round_id d.student_id ≡ number (pos (suc b)))
      × ((release t d).0.seat d.teaching_class_id ≡ number (pos (suc e)))
      × ((release t d).0.dropped d.enrollment_id ≡ true)
unfolding release ◌+ℤ◌
released_amounts t d a b e k p q u v w x y z = (
  ground arith,
  ground arith,
  ground arith,
  ground arith,
  ground (arith, text_eq_refl d.enrollment_id),
)

release_again :
    (u : Store) (d : ReleaseCall)
    → u.dropped d.enrollment_id ≡ true
    → release u d ≡ (u, released_before)
unfolding release
release_again u d h = ground arith

keys_after :
    (s : Store) (c : Call) (r : SelectionResult) (d : ReleaseCall)
    → refusal s c r ≡ none
    → Drops c r d
    → let t = record_selection s c r in
      (is_empty (t.selected_courses d.round_id d.student_id) ≡ false)
      × (is_empty (t.class_schedule d.teaching_class_id) ≡ false)
      × (is_empty (t.student_schedule d.round_id d.student_id) ≡ false)
unfolding record_selection
keys_after s c r d h drops =
    let (slots, schedule) = keys_present s c r h in
    (
      ground (
        arith,
        set_course-ne r.course_id c.application_id (s.selected_courses c.round_id c.student_id),
      ),
      ground (arith, slots),
      ground (
        arith,
        add_slots-ne (s.class_schedule c.teaching_class_id) (pos 1)
            (s.student_schedule c.round_id c.student_id) schedule,
      ),
    )

-- The release succeeds, restores the amounts of the call, and is made only once.
abbrev pub Undone : Store → Store → Call → ReleaseCall → Type 0
Undone s t c d =
    ((release t d).1 ≡ released)
    × ((release t d).0.credit c.round_id c.student_id ≡ s.credit c.round_id c.student_id)
    × ((release t d).0.course_quota c.round_id c.student_id
        ≡ s.course_quota c.round_id c.student_id)
    × ((release t d).0.seat c.teaching_class_id ≡ s.seat c.teaching_class_id)
    × (release (release t d).0 d ≡ ((release t d).0, released_before))

undo_recorded :
    (s t : Store) (c : Call) (r : SelectionResult) (d : ReleaseCall) (m : Remaining)
    → Enough s c r m
    → Taken s c r m t
    → Drops c r d
    → t.dropped d.enrollment_id ≡ false
    → is_empty (t.selected_courses d.round_id d.student_id) ≡ false
    → is_empty (t.class_schedule d.teaching_class_id) ≡ false
    → is_empty (t.student_schedule d.round_id d.student_id) ≡ false
    → Undone s t c d
undo_recorded s t c r d m enough taken drops fresh x y z =
    let (p, q, u, v, w) =
      released_amounts t d m.credit m.quota m.seats m.credits fresh
        (rw (drops.same_round, drops.same_student) taken.credit_left)
        (rw (drops.same_round, drops.same_student) taken.quota_left)
        (rw drops.same_class taken.seats_left) x y z (drops.same_credits ∙ enough.costs) in
    (
      p,
      ap₂ (λ i j. (release t d).0.credit i j) (sym drops.same_round) (sym drops.same_student)
          ∙ q
          ∙ sym enough.credit_is,
      ap₂ (λ i j. (release t d).0.course_quota i j) (sym drops.same_round) (sym drops.same_student)
          ∙ u
          ∙ sym enough.quota_is,
      ap (λ i. (release t d).0.seat i) (sym drops.same_class) ∙ v ∙ sym enough.seat_is,
      release_again (release t d).0 d w,
    )

-- Where a recorded call is dropped before anything else happens to the amounts, and the enrollment was
-- not released before, the release succeeds: the student's credits and courses and the seats of the
-- class are again what they were before the call. A second release of the enrollment changes nothing.
pub release_undoes_commit :
    (s : Store) (c : Call) (r : SelectionResult) (d : ReleaseCall)
    → c.document ≡ encoded r
    → is_recorded (commit s c).1 ≡ true
    → Drops c r d
    → s.dropped d.enrollment_id ≡ false
    → Undone s (commit s c).0 c d
unfolding record_selection
release_undoes_commit s c r d dr rec drops fresh = elim (commit_cases s c) [
  | inl (_, unrecorded) ↦ absurd (ground (arith, rec, unrecorded))
  | inr (q, w) ↦
      let same : q ≡ r = ground (arith, w.decoded, dr) in
      let drops' : Drops c q d = rw (← same) at drops in
      let (m, enough) = Recorded-Enough s c q w in
      let (x, y, z) = keys_after s c q d w.allowed drops' in
      rw w.written (
        undo_recorded s (record_selection s c q) c q d m enough
          (record_selection-Taken s c q m enough) drops' fresh x y z)
]
