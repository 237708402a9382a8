-- ===== src/Enrollment/Commit/Effects.antt =====
-- The commit script as all or nothing: a reply other than `recorded` writes nothing, and `recorded` takes
-- from amounts that were enough.
use course_forge.Prelude.{
  ℕ, suc, ◌+◌, ◌-◌, ◌≡◌, ◌⊎◌, inl, inr, refl, Bool, true, false, Option, none, some, List, [], ◌∷◌,
  ◌++◌, ◌==◌, ◌&&◌, Text, arith, Bool-cases, Option-cases,
}
use course_forge.Prelude.Int.{ℤ, pos, is_pos, ◌-ℤ◌}
use course_forge.Enrollment.Selection.{SelectionResult}
use course_forge.Enrollment.Store.{
  Store, Counter, number, Document, garbled, encoded, StoredPublication, has_course, get_course,
  set_course, read_number,
}
use course_forge.Enrollment.Commit.{
  Call, Reply, recorded, commit, refusal, result_mismatch, record_selection, publication_of,
  amounts_refuse, any_clash,
}

abbrev pub is_recorded : Reply → Bool
is_recorded (recorded p) = true
is_recorded r = false

-- Why a call was recorded: nothing stood in its way, and the document was the result it speaks of.
pub record Recorded (s : Store) (c : Call) (r : SelectionResult) : Type 0 where
  pub fresh : s.request_result c.round_id c.student_id c.request_id ≡ none
  pub decoded : c.document ≡ encoded r
  pub matching : result_mismatch c r ≡ false
  pub idle : s.pending c.round_id c.student_id ≡ none
  pub allowed : refusal s c r ≡ none
  pub written : commit s c ≡ (record_selection s c r, recorded (publication_of c r))

abbrev pub Kept : Store → Store × Reply → Type 0
Kept s (t, reply) = (t ≡ s) × (is_recorded reply ≡ false)

commit_outcome :
    (s : Store) (c : Call) (completed : Option StoredPublication) (document : Document)
    (pending : Option Document)
    → s.request_result c.round_id c.student_id c.request_id ≡ completed
    → c.document ≡ document
    → s.pending c.round_id c.student_id ≡ pending
    → Kept s (commit s c) ⊎ ((r : SelectionResult) × Recorded s c r)
unfolding commit
commit_outcome s c (some p) d w e f g = inl (ground arith)
commit_outcome s c none (garbled t) w e f g = inl (ground arith)
commit_outcome s c none (encoded r) (some (garbled t)) e f g = inl (ground arith)
commit_outcome s c none (encoded r) (some (encoded p)) e f g = inl (ground arith)
commit_outcome s c none (encoded r) none e f g = elim (Bool-cases (result_mismatch c r)) [
  | inl bad ↦ inl (ground arith)
  | inr good ↦ elim (Option-cases (refusal s c r)) [
    | inr (why, no_way) ↦ inl (ground arith)
    | inl allowed ↦ inr (
      r,
      record {
        fresh = e;
        decoded = f;
        matching = good;
        idle = g;
        allowed = allowed;
        written = ground arith;
      },
    )
  ]
]

-- A call is recorded, or it is not and writes nothing.
pub commit_cases :
    (s : Store) (c : Call) → Kept s (commit s c) ⊎ ((r : SelectionResult) × Recorded s c r)
commit_cases s c =
    commit_outcome s c (s.request_result c.round_id c.student_id c.request_id) c.document
      (s.pending c.round_id c.student_id) refl refl refl

-- What is left of the three amounts once the credits of a result are taken from them.
pub record Remaining : Type 0 where
  pub credits : ℕ
  pub credit : ℕ
  pub quota : ℕ
  pub seats : ℕ

-- The amounts that the store holds, and that they are enough for the result.
pub record Enough (s : Store) (c : Call) (r : SelectionResult) (m : Remaining) : Type 0 where
  pub costs : r.credits ≡ pos (suc m.credits)
  pub credit_is : s.credit c.round_id c.student_id ≡ number (pos (suc m.credits + m.credit))
  pub quota_is : s.course_quota c.round_id c.student_id ≡ number (pos (suc m.quota))
  pub seat_is : s.seat c.teaching_class_id ≡ number (pos (suc m.seats))

amounts_enough :
    (credit quota seat : Counter) (credits : ℤ) (clashes : Bool)
    → amounts_refuse (read_number credit) (read_number quota) (read_number seat) credits clashes
      ≡ none
    → is_pos credits ≡ true
    → (m : Remaining) × (credits ≡ pos (suc m.credits))
      × (credit ≡ number (pos (suc m.credits + m.credit)))
      × (quota ≡ number (pos (suc m.quota)))
      × (seat ≡ number (pos (suc m.seats)))
unfolding amounts_refuse
amounts_enough (number (pos a)) (number (pos (suc b))) (number (pos (suc d))) (pos (suc k)) cl h p =
    (
      record { credits = k; credit = a - suc k; quota = b; seats = d },
      refl,
      ground arith,
      refl,
      refl,
    )
amounts_enough credit quota seat credits cl h p = absurd (ground arith)

allowed_amounts :
    (s : Store) (c : Call) (r : SelectionResult)
    → refusal s c r ≡ none
    → (amounts_refuse
          (read_number (s.credit c.round_id c.student_id))
          (read_number (s.course_quota c.round_id c.student_id))
          (read_number (s.seat c.teaching_class_id))
          r.credits
          (any_clash
            (s.class_schedule c.teaching_class_id)
            (s.student_schedule c.round_id c.student_id))
        ≡ none)
      × (has_course r.course_id (s.selected_courses c.round_id c.student_id) ≡ false)
unfolding refusal
allowed_amounts s c r h = (ground arith, ground arith)

costs_something :
    (c : Call) (r : SelectionResult) → result_mismatch c r ≡ false → is_pos r.credits ≡ true
unfolding result_mismatch
costs_something c r h = ground arith

pub Recorded-Enough :
    (s : Store) (c : Call) (r : SelectionResult) → Recorded s c r → (m : Remaining) × Enough s c r m
Recorded-Enough s c r k =
    let (amounts, _) = allowed_amounts s c r k.allowed in
    let (m, p, q, u, v) =
      amounts_enough (s.credit c.round_id c.student_id) (s.course_quota c.round_id c.student_id)
        (s.seat c.teaching_class_id) r.credits
        (any_clash (s.class_schedule c.teaching_class_id)
          (s.student_schedule c.round_id c.student_id))
        amounts (costs_something c r k.matching) in
    (m, record { costs = p; credit_is = q; quota_is = u; seat_is = v })

get_course-set_course :
    (k : ℕ) (v : Text) (h : List (ℕ × Text)) → get_course k (set_course k v h) ≡ some v
unfolding get_course set_course
get_course-set_course k v [] = ground arith
get_course-set_course k v ((j, w) ∷ h) = ground (arith, get_course-set_course k v h)

-- What a recorded selection does to the store.
pub record Taken (s : Store) (c : Call) (r : SelectionResult) (m : Remaining) (t : Store)
    : Type 0 where
  pub credit_left : t.credit c.round_id c.student_id ≡ number (pos m.credit)
  pub quota_left : t.course_quota c.round_id c.student_id ≡ number (pos m.quota)
  pub seats_left : t.seat c.teaching_class_id ≡ number (pos m.seats)
  pub entered :
      get_course r.course_id (t.selected_courses c.round_id c.student_id) ≡ some c.application_id
  pub appended : t.stream ≡ s.stream ++ (c.stream_id, c.document) ∷ []
  pub other_credit :
      (i j : ℕ) → (c.round_id == i && c.student_id == j) ≡ false → t.credit i j ≡ s.credit i j
  pub other_quota :
      (i j : ℕ)
      → (c.round_id == i && c.student_id == j) ≡ false
      → t.course_quota i j ≡ s.course_quota i j
  pub other_seats : (k : ℕ) → (c.teaching_class_id == k) ≡ false → t.seat k ≡ s.seat k

pub record_selection-Taken :
    (s : Store) (c : Call) (r : SelectionResult) (m : Remaining)
    → Enough s c r m
    → Taken s c r m (record_selection s c r)
unfolding record_selection ◌-ℤ◌
record_selection-Taken s c r m e = record {
  credit_left = ground arith;
  quota_left = ground arith;
  seats_left = ground arith;
  entered = ground (
    arith,
    get_course-set_course r.course_id c.application_id (s.selected_courses c.round_id c.student_id),
  );
  appended = refl;
  other_credit = λ i j h. rw h refl;
  other_quota = λ i j h. rw h refl;
  other_seats = λ k h. rw h refl;
}

same_class :
    (c : Call) (r : SelectionResult)
    → result_mismatch c r ≡ false
    → r.teaching_class_id ≡ c.teaching_class_id
unfolding result_mismatch
same_class c r h = ground arith

-- Every call either replies that it recorded nothing and leaves the store as it was; or the student had
-- the credits and a course left, the class had a seat and the course was not selected yet, and the call
-- takes exactly the credits, one course and one seat of the result's class from them, enters the course, leaves every other
-- student's and class's amounts alone and appends one event, the document that it was given.
pub commit_all_or_nothing :
    (s : Store) (c : Call)
    → Kept s (commit s c)
      ⊎ ((r : SelectionResult) × (m : Remaining) × (c.document ≡ encoded r)
          × (r.teaching_class_id ≡ c.teaching_class_id)
          × Enough s c r m
          × (has_course r.course_id (s.selected_courses c.round_id c.student_id) ≡ false)
          × ((commit s c).1 ≡ recorded (publication_of c r))
          × Taken s c r m (commit s c).0)
commit_all_or_nothing s c = elim (commit_cases s c) [
  | inl kept ↦ inl kept
  | inr (r, k) ↦
      let (m, enough) = Recorded-Enough s c r k in
      inr (
        r,
        m,
        k.decoded,
        same_class c r k.matching,
        enough,
        (allowed_amounts s c r k.allowed).1,
        rw k.written refl,
        rw k.written (record_selection-Taken s c r m enough),
      )
]
