-- ===== src/Enrollment/History.antt =====
-- The selection store over any sequence of script calls and expiries: each script runs alone in Redis, so
-- the calls of all instances form one sequence.
use course_forge.Prelude.{
  ℕ, ◌+◌, ◌≡◌, inl, inr, ap, ◌∙◌, Bool, true, false, ◌&&◌, none, List, [], ◌∷◌, ◌++◌, ◌==◌, Text,
  if◌then◌else◌, arith, Bool-cases,
}
use course_forge.Prelude.Int.{pos, ◌+ℤ◌}
use course_forge.Enrollment.Selection.{SelectionResult}
use course_forge.Enrollment.Store.{Store, number, Document, garbled, encoded, put_text, put_three}
use course_forge.Enrollment.Commit.{Call, commit}
use course_forge.Enrollment.Commit.Effects.{Enough, Remaining, Taken, commit_all_or_nothing}
use course_forge.Enrollment.Release.{ReleaseCall, ReleaseStatus, release, released}
use course_forge.Enrollment.Clear.{ClearCall, clear}

-- A script call, or the expiry of a key that the scripts set with a time to live.
pub data Event : Type 0 where
  commits : Call → Event
  releases : ReleaseCall → Event
  clears : ClearCall → Event
  result_expires : ℕ → ℕ → Text → Event
  application_expires drop_expires : Text → Event

unfoldable pub step : Store → Event → Store
step s (commits c) = (commit s c).0
step s (releases c) = (release s c).0
step s (clears c) = (clear s c).0
step s (result_expires i j t) = record s { request_result = put_three s.request_result i j t none }
step s (application_expires t) = record s { application = put_text s.application t none }
step s (drop_expires t) = record s { dropped = put_text s.dropped t false }

unfoldable pub run : Store → List Event → Store
run s [] = s
run s (e ∷ es) = run (step s e) es

abbrev is_released : ReleaseStatus → Bool
is_released released = true
is_released x = false

-- How many seats of the class an event gives back.
unfoldable pub gives_back : Store → Event → ℕ → ℕ
gives_back s (releases c) k =
    if is_released (release s c).1 && c.teaching_class_id == k then 1 else 0
gives_back s e k = 0

unfoldable pub given_back : Store → List Event → ℕ → ℕ
given_back s [] k = 0
given_back s (e ∷ es) k = gives_back s e k + given_back (step s e) es k

-- How many events of the stream select the class.
unfoldable pub selects : ℕ → Document → ℕ
selects k (garbled t) = 0
selects k (encoded r) = if r.teaching_class_id == k then 1 else 0

unfoldable pub selections : ℕ → List (Text × Document) → ℕ
selections k [] = 0
selections k ((id, d) ∷ rest) = selects k d + selections k rest

selections-append :
    (k : ℕ) (xs : List (Text × Document)) (id : Text) (d : Document)
    → selections k (xs ++ (id, d) ∷ []) ≡ selections k xs + selects k d
unfolding selections
selections-append k [] id d = omega arith
selections-append k ((i, x) ∷ xs) id d = omega (arith, selections-append k xs id d)

-- The seats that are left of a class, with the selections on the stream, against what was there before.
abbrev Balanced : ℕ → ℕ → ℕ → Store → Store → Type 0
Balanced k n back s t =
    (m : ℕ) × (t.seat k ≡ number (pos m))
    × (m + selections k t.stream ≡ n + selections k s.stream + back)

stream_grows :
    (k : ℕ) (s t : Store) (c : Call) (r : SelectionResult) (m : Remaining)
    → Taken s c r m t
    → selections k t.stream ≡ selections k s.stream + selects k c.document
stream_grows k s t c r m taken =
    ap (selections k) taken.appended ∙ selections-append k s.stream c.stream_id c.document

Taken-Balanced :
    (k n : ℕ) (s t : Store) (c : Call) (r : SelectionResult) (m : Remaining)
    → c.document ≡ encoded r
    → r.teaching_class_id ≡ c.teaching_class_id
    → Enough s c r m
    → Taken s c r m t
    → s.seat k ≡ number (pos n)
    → Balanced k n 0 s t
unfolding selects
Taken-Balanced k n s t c r m d same enough taken h = elim (Bool-cases (c.teaching_class_id == k)) [
  | inl here ↦ (
    m.seats,
    ground (arith, taken.seats_left),
    ground (arith, stream_grows k s t c r m taken, enough.seat_is),
  )
  | inr other ↦ (n, taken.other_seats k other ∙ h, ground (arith, stream_grows k s t c r m taken))
]

commit-Balanced :
    (k n : ℕ) (s : Store) (c : Call) → s.seat k ≡ number (pos n) → Balanced k n 0 s (commit s c).0
commit-Balanced k n s c h = elim (commit_all_or_nothing s c) [
  | inl (same, _) ↦ rw same (n, h, omega arith)
  | inr (r, m, d, class, enough, _, _, taken) ↦
      Taken-Balanced k n s (commit s c).0 c r m d class enough taken h
]

release-Balanced :
    (k n : ℕ) (s : Store) (c : ReleaseCall)
    → s.seat k ≡ number (pos n)
    → Balanced k n (gives_back s (releases c) k) s (release s c).0
unfolding gives_back release ◌+ℤ◌
release-Balanced k n s c h = (n + gives_back s (releases c) k, ground arith, ground arith)

clear_seats :
    (s : Store) (c : ClearCall) → ((clear s c).0.seat ≡ s.seat) × ((clear s c).0.stream ≡ s.stream)
unfolding clear
clear_seats s c = (ground arith, ground arith)

step-Balanced :
    (k n : ℕ) (s : Store) (e : Event)
    → s.seat k ≡ number (pos n)
    → Balanced k n (gives_back s e k) s (step s e)
unfolding step gives_back
step-Balanced k n s (commits c) h = commit-Balanced k n s c h
step-Balanced k n s (releases c) h = release-Balanced k n s c h
step-Balanced k n s (clears c) h =
    let (seats, events) = clear_seats s c in (n, ap (λ f. f k) seats ∙ h, rw events (omega arith))
step-Balanced k n s (result_expires i j t) h = (n, h, omega arith)
step-Balanced k n s (application_expires t) h = (n, h, omega arith)
step-Balanced k n s (drop_expires t) h = (n, h, omega arith)

-- No class is oversold. Whatever commits, releases, clears and expiries happen in whatever order, a seat
-- counter that starts as a number stays one that is not negative, and what is left of it, with all the
-- selections of the class on the stream, is what there was at first and what drops gave back since.
pub run-seats :
    (k n : ℕ) (s : Store) (es : List Event)
    → s.seat k ≡ number (pos n)
    → (m : ℕ) × ((run s es).seat k ≡ number (pos m))
      × (m + selections k (run s es).stream ≡ n + selections k s.stream + given_back s es k)
unfolding run given_back
run-seats k n s [] h = (n, h, omega arith)
run-seats k n s (e ∷ es) h =
    let (m, seat, count) = step-Balanced k n s e h in
    let (m', seat', count') = run-seats k m (step s e) es seat in
    (m', seat', omega (arith, count, count'))
