-- ===== src/Enrollment/Round.antt =====
-- internal/enrollment/domain/selection.go: selection rounds. Counts are `int64`; instants are counted
-- from Go's zero time.
pub mod Lifecycle
use course_forge.Prelude.{
  ℕ, Bool, true, false, not, ◌||◌, ◌&&◌, Option, none, some, Text, trim_space, is_empty, ltb, leb,
  ◌==◌, if◌then◌else◌,
}
use course_forge.Prelude.Int.{ℤ, is_pos, is_zero}
use course_forge.Enrollment.Errors.{
  Err, round_not_editable, round_term_locked, round_in_use, teaching_class_not_editable,
  term_mismatch, round_not_ready, round_configuration_empty, invalid_selection_round,
  invalid_time_range, round_not_open, Result, ok, err, ◌>>=◌,
}

pub data RoundState : Type 0 where
  planned open_round closed : RoundState
  other_round_state : Text → RoundState

unfoldable pub is_planned : RoundState → Bool
is_planned planned = true
is_planned s = false

unfoldable pub is_open : RoundState → Bool
is_open open_round = true
is_open s = false

pub record SelectionRound : Type 0 where
  pub id : ℕ
  pub term_id : ℕ
  pub round_code : Text
  pub round_name : Text
  pub start_time : ℕ
  pub end_time : ℕ
  pub state : RoundState
  pub create_time : ℕ
  pub update_time : ℕ

pub record SelectionRoundPlan : Type 0 where
  pub term_id : ℕ
  pub round_code : Text
  pub round_name : Text
  pub start_time : ℕ
  pub end_time : ℕ

pub record SelectionRoundUsage : Type 0 where
  pub class_binding_count : ℤ
  pub quota_count : ℤ
  pub application_count : ℤ
  pub waitlist_count : ℤ

unfoldable pub usage_in_use : SelectionRoundUsage → Bool
usage_in_use u =
    is_pos u.class_binding_count
    || is_pos u.quota_count
    || is_pos u.application_count
    || is_pos u.waitlist_count

pub data BindingClassState : Type 0 where
  planned_class : BindingClassState
  other_class_state : Text → BindingClassState

pub record RoundClassCandidate : Type 0 where
  pub term_id : ℕ
  pub state : BindingClassState

-- The tests of `normalizeSelectionRoundPlan`, on the plan with its texts trimmed.
check_plan : SelectionRoundPlan → Result SelectionRoundPlan
check_plan plan =
    if plan.term_id == 0
      || is_empty plan.round_code
      || is_empty plan.round_name
      || plan.start_time == 0
      || plan.end_time == 0
    then err invalid_selection_round
    else if not (ltb plan.start_time plan.end_time)
    then err invalid_time_range
    else ok plan

unfoldable pub normalize_round_plan : SelectionRoundPlan → Result SelectionRoundPlan
unfolding check_plan
normalize_round_plan plan = check_plan (record plan {
  round_code = trim_space plan.round_code;
  round_name = trim_space plan.round_name;
})

-- The fields that `NewSelectionRound` leaves out are zero.
unfoldable pub new_selection_round : SelectionRoundPlan → Result SelectionRound
new_selection_round raw = do
  plan ← normalize_round_plan raw
  ok (record {
    id = 0;
    term_id = plan.term_id;
    round_code = plan.round_code;
    round_name = plan.round_name;
    start_time = plan.start_time;
    end_time = plan.end_time;
    state = planned;
    create_time = 0;
    update_time = 0;
  })

-- `ChangePlan` behind its test of the state and the normalisation.
unfoldable pub apply_plan :
    SelectionRound → Result SelectionRoundPlan → SelectionRoundUsage → SelectionRound × Option Err
apply_plan r (err e) usage = (r, some e)
apply_plan r (ok plan) usage =
    if not (r.term_id == plan.term_id) && is_pos usage.class_binding_count
    then (r, some round_term_locked)
    else (
      record r {
        term_id = plan.term_id;
        round_code = plan.round_code;
        round_name = plan.round_name;
        start_time = plan.start_time;
        end_time = plan.end_time;
      },
      none,
    )

unfoldable pub change_plan :
    SelectionRound → SelectionRoundPlan → SelectionRoundUsage → SelectionRound × Option Err
unfolding is_planned apply_plan
change_plan r plan usage =
    if not (is_planned r.state)
    then (r, some round_not_editable)
    else apply_plan r (normalize_round_plan plan) usage

unfoldable pub ensure_deletable : SelectionRound → SelectionRoundUsage → Option Err
unfolding is_planned usage_in_use
ensure_deletable r usage =
    if not (is_planned r.state)
    then some round_not_editable
    else if usage_in_use usage
    then some round_in_use
    else none

candidate_planned : BindingClassState → Bool
candidate_planned planned_class = true
candidate_planned s = false

unfoldable pub ensure_can_bind : SelectionRound → RoundClassCandidate → Option Err
unfolding is_planned candidate_planned
ensure_can_bind r class =
    if not (is_planned r.state)
    then some round_not_editable
    else if not (candidate_planned class.state)
    then some teaching_class_not_editable
    else if not (r.term_id == class.term_id)
    then some term_mismatch
    else none

unfoldable pub ensure_bindings_mutable : SelectionRound → Option Err
unfolding is_planned
ensure_bindings_mutable r = if not (is_planned r.state) then some round_not_editable else none

-- The receiver may be nil.
unfoldable pub ensure_warmup_config : Option SelectionRound → SelectionRoundUsage → Option Err
unfolding is_planned is_open
ensure_warmup_config none usage = some round_not_editable
ensure_warmup_config (some r) usage =
    if not (is_planned r.state) && not (is_open r.state)
    then some round_not_editable
    else if is_zero usage.class_binding_count || is_zero usage.quota_count
    then some round_configuration_empty
    else none

-- `Open` behind the check of the configuration.
open_if_ready : SelectionRound → Option Err → Bool → SelectionRound × Option Err
open_if_ready r (some e) ready = (r, some e)
open_if_ready r none ready =
    if not ready then (r, some round_not_ready) else (record r { state = open_round }, none)

unfoldable pub open_selection_round :
    SelectionRound → SelectionRoundUsage → Bool → SelectionRound × Option Err
unfolding is_planned open_if_ready ensure_warmup_config
open_selection_round r usage ready =
    if not (is_planned r.state)
    then (r, some round_not_editable)
    else open_if_ready r (ensure_warmup_config (some r) usage) ready

-- The receiver may be nil.
unfoldable pub accepting_at : Option SelectionRound → ℕ → Bool
unfolding is_open
accepting_at none now = false
accepting_at (some r) now =
    if not (is_open r.state) || r.start_time == 0 || r.end_time == 0
    then false
    else not (ltb now r.start_time) && ltb now r.end_time

unfoldable pub ensure_accepting_at : Option SelectionRound → ℕ → Option Err
unfolding accepting_at
ensure_accepting_at r now = if not (accepting_at r now) then some round_not_open else none
