-- ===== src/Enrollment/Application/Lifecycle.antt =====
-- What an application goes through from its request to its result (domain/application.go), as the
-- operations that the code offers, in any order and at any times.
use course_forge.Prelude.{
  ℕ, ◌≤◌, ◌<◌, ◌≡◌, refl, true, false, Option, none, some, List, [], ◌∷◌, Text, arith,
}
use course_forge.Enrollment.Errors.{Err, Result, ok, err}
use course_forge.Enrollment.Selection.{
  SelectionRequest, validate_request, FailureReason, reason_valid, ApplicationState, created,
  reserved, selected, rejected, cancelled, SelectionResult, result_incomplete, check_outcome,
  validate_result,
}
use course_forge.Enrollment.Application.{
  SelectionApplication, terminal, new_selection_application, reserve, complete_selected,
  complete_rejected, cancel, result,
}

pub data Operation : Type 0 where
  reserves : Operation
  completes : ℕ → Operation
  rejects : FailureReason → ℕ → Operation
  cancels : FailureReason → ℕ → Operation

abbrev as_result :
    SelectionApplication × Option Err → SelectionApplication × Result (Option SelectionResult)
as_result (a, none) = (a, ok none)
as_result (a, some e) = (a, err e)

abbrev with_result :
    SelectionApplication × Result SelectionResult
    → SelectionApplication × Result (Option SelectionResult)
with_result (a, ok r) = (a, ok (some r))
with_result (a, err e) = (a, err e)

-- One call of a method: the application afterwards and what the call returned.
unfoldable pub step :
    SelectionApplication → Operation → SelectionApplication × Result (Option SelectionResult)
step a reserves = as_result (reserve a)
step a (completes at) = with_result (complete_selected a at)
step a (rejects reason at) = with_result (complete_rejected a reason at)
step a (cancels reason at) = with_result (cancel a reason at)

unfoldable pub run : SelectionApplication → List Operation → SelectionApplication
run a [] = a
run a (op ∷ ops) = run (step a op).0 ops

-- The failure and the completion time that go with a state.
abbrev pub Outcome : ApplicationState → Option FailureReason → Option ℕ → ℕ → Type 0
Outcome created none none applied = Unit
Outcome reserved none none applied = Unit
Outcome selected none (some t) applied = (0 < t) × (applied ≤ t)
Outcome rejected (some f) (some t) applied = (reason_valid f ≡ true) × (0 < t) × (applied ≤ t)
Outcome cancelled (some f) (some t) applied = (reason_valid f ≡ true) × (0 < t) × (applied ≤ t)
Outcome s f t applied = ⊥

pub record IsConsistent (a : SelectionApplication) : Type 0 where
  pub applied : 0 < a.applied_at
  pub identified : result_incomplete (record (result a) { completed_at = a.applied_at }) ≡ false
  pub outcome : Outcome a.state a.failure a.completed_at a.applied_at

pub new-IsConsistent :
    (id : Text) (r : SelectionRequest) (t : ℕ) {a : SelectionApplication}
    → new_selection_application id (some r) t ≡ ok a
    → IsConsistent a
unfolding new_selection_application validate_request result_incomplete result
new-IsConsistent id r t h = ground arith

pub step-IsConsistent :
    (a : SelectionApplication) (op : Operation) → IsConsistent a → IsConsistent (step a op).0
unfolding step reserve complete_selected complete_rejected cancel result result_incomplete
step-IsConsistent a reserves c = ground arith
step-IsConsistent a (completes at) c = ground arith
step-IsConsistent a (rejects reason at) c = ground arith
step-IsConsistent a (cancels reason at) c = ground arith

-- The completion time counts in the validation only by its own two tests.
incomplete_at :
    (a : SelectionApplication) (t : ℕ)
    → IsConsistent a
    → 0 < t
    → a.applied_at ≤ t
    → result_incomplete (record (result a) { completed_at = t }) ≡ false
unfolding result_incomplete result
incomplete_at a t c p q = ground arith

result-validates :
    (a : SelectionApplication) (s : ApplicationState) (f : Option FailureReason) (t : Option ℕ)
    → a.state ≡ s
    → a.failure ≡ f
    → a.completed_at ≡ t
    → IsConsistent a
    → terminal s ≡ true
    → validate_result (some (result a)) ≡ none
unfolding validate_result result terminal check_outcome
result-validates a selected none (some t) p q r c h = ground (arith, incomplete_at a t)
result-validates a rejected (some f) (some t) p q r c h = ground (arith, incomplete_at a t)
result-validates a cancelled (some f) (some t) p q r c h = ground (arith, incomplete_at a t)
result-validates a s f t p q r c h = ground arith

-- A call that returns a result leaves the application in a terminal state, with that result.
step-result :
    (a : SelectionApplication) (op : Operation) {r : SelectionResult}
    → (step a op).1 ≡ ok (some r)
    → (r ≡ result (step a op).0) × (terminal (step a op).0.state ≡ true)
unfolding step reserve complete_selected complete_rejected cancel terminal
step-result a reserves h = ground arith
step-result a (completes at) h = ground arith
step-result a (rejects reason at) h = ground arith
step-result a (cancels reason at) h = ground arith

run-IsConsistent :
    (a : SelectionApplication) (ops : List Operation) → IsConsistent a → IsConsistent (run a ops)
unfolding run
run-IsConsistent a [] c = c
run-IsConsistent a (op ∷ ops) c = run-IsConsistent (step a op).0 ops (step-IsConsistent a op c)

-- Take a new application, any calls on it in any order and at any times, and one more call that returns
-- a result. The result is that of the application as the call leaves it, the application is then in a
-- terminal state, and the result passes `SelectionResult.Validate`.
pub run-validates :
    (id : Text) (request : SelectionRequest) (at : ℕ) (ops : List Operation) (op : Operation)
    {a : SelectionApplication} {r : SelectionResult}
    → new_selection_application id (some request) at ≡ ok a
    → (step (run a ops) op).1 ≡ ok (some r)
    → (r ≡ result (step (run a ops) op).0)
      × (terminal (step (run a ops) op).0.state ≡ true)
      × (validate_result (some r) ≡ none)
run-validates id request at ops op {a} {r} h k =
    let b : SelectionApplication = (step (run a ops) op).0 in
    let (same, done) = step-result (run a ops) op k in
    let consistent : IsConsistent b =
      step-IsConsistent (run a ops) op
        (run-IsConsistent a ops (new-IsConsistent id request at h)) in
    (
      same,
      done,
      rw same (result-validates b b.state b.failure b.completed_at refl refl refl consistent done),
    )

-- A call that returns an error leaves the application as it was.
pub step_error_unchanged :
    (a : SelectionApplication) (op : Operation) {e : Err}
    → (step a op).1 ≡ err e
    → (step a op).0 ≡ a
unfolding step reserve complete_selected complete_rejected cancel
step_error_unchanged a reserves h = ground arith
step_error_unchanged a (completes at) h = ground arith
step_error_unchanged a (rejects reason at) h = ground arith
step_error_unchanged a (cancels reason at) h = ground arith

abbrev pub Refused {ℓ} : {A : Type ℓ} → Result A → Type 0
Refused (ok x) = ⊥
Refused (err e) = Unit

step_of_terminal :
    (a : SelectionApplication) (op : Operation)
    → terminal a.state ≡ true
    → ((step a op).0 ≡ a) × Refused (step a op).1
unfolding step terminal reserve complete_selected complete_rejected cancel
step_of_terminal a reserves h = ground arith
step_of_terminal a (completes at) h = ground arith
step_of_terminal a (rejects reason at) h = ground arith
step_of_terminal a (cancels reason at) h = ground arith

-- Once an application is selected, rejected or cancelled, no calls change it any more, and one more call
-- is refused.
pub run-terminal :
    (a : SelectionApplication) (ops : List Operation) (op : Operation)
    → terminal a.state ≡ true
    → (run a ops ≡ a) × Refused (step (run a ops) op).1
unfolding run
run-terminal a [] op h = (refl, (step_of_terminal a op h).1)
run-terminal a (o ∷ ops) op h = rw ((step_of_terminal a o h).0) (run-terminal a ops op h)
