-- ===== src/Enrollment/Round/Lifecycle.antt =====
-- What a selection round goes through (domain/selection.go): plans, opening, and when it accepts.
use course_forge.Prelude.{
  ℕ, ◌≤◌, ◌<◌, ◌≡◌, ◌↔◌, ◌⊎◌, inl, inr, refl, Bool, true, false, Option, none, some, List, [], ◌∷◌,
  is_empty, arith,
}
use course_forge.Prelude.Int.{is_pos}
use course_forge.Enrollment.Errors.{Err, round_not_open, round_not_editable, Result, ok, err}
use course_forge.Enrollment.Round.{
  SelectionRound, SelectionRoundPlan, SelectionRoundUsage, RoundClassCandidate, open_round, is_open,
  is_planned, normalize_round_plan, new_selection_round, change_plan, open_selection_round,
  ensure_can_bind, ensure_accepting_at,
}

pub data Operation : Type 0 where
  replans : SelectionRoundPlan → SelectionRoundUsage → Operation
  opens : SelectionRoundUsage → Bool → Operation

unfoldable pub step : SelectionRound → Operation → SelectionRound × Option Err
step r (replans plan usage) = change_plan r plan usage
step r (opens usage ready) = open_selection_round r usage ready

unfoldable pub run : SelectionRound → List Operation → SelectionRound
run r [] = r
run r (op ∷ ops) = run (step r op).0 ops

pub record IsWellFormed (r : SelectionRound) : Type 0 where
  pub term : 0 < r.term_id
  pub code : is_empty r.round_code ≡ false
  pub name : is_empty r.round_name ≡ false
  pub start : 0 < r.start_time
  pub order : r.start_time < r.end_time
  pub phase : (is_planned r.state ≡ true) ⊎ (is_open r.state ≡ true)

new-IsWellFormed :
    (plan : SelectionRoundPlan) {r : SelectionRound}
    → new_selection_round plan ≡ ok r
    → IsWellFormed r
unfolding new_selection_round normalize_round_plan is_planned is_open
new-IsWellFormed plan h = ground arith

step-IsWellFormed :
    (r : SelectionRound) (op : Operation) → IsWellFormed r → IsWellFormed (step r op).0
unfolding step change_plan normalize_round_plan open_selection_round is_open
step-IsWellFormed r (replans plan usage) w = ground arith
step-IsWellFormed r (opens usage ready) w = ground arith

run-IsWellFormed :
    (r : SelectionRound) (ops : List Operation) → IsWellFormed r → IsWellFormed (run r ops)
unfolding run
run-IsWellFormed r [] w = w
run-IsWellFormed r (op ∷ ops) w = run-IsWellFormed (step r op).0 ops (step-IsWellFormed r op w)

window :
    (r : SelectionRound) (now : ℕ)
    → IsWellFormed r
    → (ensure_accepting_at (some r) now ≡ none)
      ↔ ((r.state ≡ open_round) × (r.start_time ≤ now) × (now < r.end_time))
unfolding ensure_accepting_at is_open
window r now w = (λ h. ground arith, λ h. ground arith)

-- A round that was created and then replanned and opened in any way accepts a request at an instant
-- exactly when it is open and the instant lies in its window, whose start counts and whose end does not.
pub accepting_at_iff :
    (plan : SelectionRoundPlan) (ops : List Operation) (now : ℕ) {r : SelectionRound}
    → new_selection_round plan ≡ ok r
    → (ensure_accepting_at (some (run r ops)) now ≡ none) ↔ (
        ((run r ops).state ≡ open_round)
        × ((run r ops).start_time ≤ now)
        × (now < (run r ops).end_time))
accepting_at_iff plan ops now {r} h =
    window (run r ops) now (run-IsWellFormed r ops (new-IsWellFormed plan h))

-- Of two rounds, the second starting no earlier than the first ends, at most one accepts a request at
-- an instant.
pub accepting_at_disjoint :
    (r s : SelectionRound) (now : ℕ)
    → r.end_time ≤ s.start_time
    → ensure_accepting_at (some r) now ≡ none
    → ensure_accepting_at (some s) now ≡ some round_not_open
unfolding ensure_accepting_at
accepting_at_disjoint r s now h p = ground arith

opened_frozen_step :
    (r : SelectionRound) (op : Operation)
    → r.state ≡ open_round
    → step r op ≡ (r, some round_not_editable)
unfolding step change_plan open_selection_round
opened_frozen_step r (replans plan usage) h = ground arith
opened_frozen_step r (opens usage ready) h = ground arith

open_state :
    (r : SelectionRound) (usage : SelectionRoundUsage) (ready : Bool)
    → (open_selection_round r usage ready).1 ≡ none
    → (open_selection_round r usage ready).0 ≡ record r { state = open_round }
unfolding open_selection_round
open_state r usage ready h = ground arith

run_open : (r : SelectionRound) (ops : List Operation) → r.state ≡ open_round → run r ops ≡ r
unfolding run
run_open r [] h = refl
run_open r (op ∷ ops) h = rw (opened_frozen_step r op h) (run_open r ops h)

-- Once `Open` succeeds the round is open with its plan unchanged, and whatever plans and openings are
-- tried later change nothing: each is refused as not editable.
pub open_frozen :
    (r : SelectionRound) (usage : SelectionRoundUsage) (ready : Bool) (ops : List Operation)
    (op : Operation)
    → (open_selection_round r usage ready).1 ≡ none
    → let s = record r { state = open_round } in
      (run (open_selection_round r usage ready).0 ops ≡ s)
      × (step (run (open_selection_round r usage ready).0 ops) op ≡ (s, some round_not_editable))
open_frozen r usage ready ops op h =
    rw (open_state r usage ready h, run_open (record r { state = open_round }) ops refl)
      (refl, opened_frozen_step (record r { state = open_round }) op refl)

-- While teaching classes are bound to a round, replanning it never changes its term: a class that
-- `EnsureCanBind` allowed stays one of the round's term.
pub bound_term_kept :
    (r : SelectionRound) (class : RoundClassCandidate) (plan : SelectionRoundPlan)
    (usage : SelectionRoundUsage)
    → ensure_can_bind r class ≡ none
    → is_pos usage.class_binding_count ≡ true
    → (change_plan r plan usage).0.term_id ≡ class.term_id
unfolding ensure_can_bind change_plan
bound_term_kept r class plan usage h p = elim (plan_cases (normalize_round_plan plan)) [
  | inl (q, e) ↦ ground arith
  | inr (x, e) ↦ ground arith
]
  where
    plan_cases :
        (m : Result SelectionRoundPlan)
        → ((q : SelectionRoundPlan) × (m ≡ ok q)) ⊎ ((x : Err) × (m ≡ err x))
    plan_cases (ok q) = inl (q, refl)
    plan_cases (err x) = inr (x, refl)
