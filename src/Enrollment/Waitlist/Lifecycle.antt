-- ===== src/Enrollment/Waitlist/Lifecycle.antt =====
-- What a waitlist entry goes through (domain/waitlist.go), and that a failed promotion can be recorded.
use course_forge.Prelude.{
  ℕ, ◌≤◌, ◌<◌, ◌≡◌, ◌⊎◌, refl, true, false, Option, none, some, List, [], ◌∷◌, Text, trim_space,
  is_empty, arith, Bool-cases, inl, inr,
}
use course_forge.Enrollment.Errors.{
  Err, external, teaching_class_full, application_in_progress, error_text, errors_is,
  errors_is_sound, ok,
}
use course_forge.Enrollment.Selection.{SelectionRequest, FailureReason, reason_valid, code_present}
use course_forge.Enrollment.Waitlist.{
  WaitlistEntry, WaitlistState, waiting, promoting, promoted, cancelled, new_waitlist_entry,
  cancel_entry, mark_promoted, retry, cancel_with, decide_promotion_failure, failure_code,
}

-- `claims` is the store's `ClaimPromotableEntries` on one entry, and `returns` its
-- `ReturnWaitlistToQueue`: they move a waiting entry to promoting and back.
pub data Operation : Type 0 where
  claims returns : Operation
  cancels : FailureReason → ℕ → Operation
  promotes : ℕ → Operation

move : WaitlistState → Operation → WaitlistEntry → WaitlistEntry
move waiting claims e = record e { state = promoting }
move promoting returns e = record e { state = waiting }
move s (cancels reason at) e = (cancel_entry e reason at).0
move s (promotes at) e = (mark_promoted e at).0
move s op e = e

unfoldable pub step : WaitlistEntry → Operation → WaitlistEntry
unfolding move
step e op = move e.state op e

unfoldable pub run : WaitlistEntry → List Operation → WaitlistEntry
run e [] = e
run e (op ∷ ops) = run (step e op) ops

-- The failure and the times that go with a state.
abbrev pub Outcome : WaitlistState → Option FailureReason → Option ℕ → Option ℕ → ℕ → Type 0
Outcome waiting none none none joined = Unit
Outcome promoting none none none joined = Unit
Outcome promoted none (some t) none joined = joined ≤ t
Outcome cancelled (some f) none (some t) joined = (reason_valid f ≡ true) × (joined ≤ t)
Outcome s f p c joined = ⊥

pub record IsConsistent (e : WaitlistEntry) : Type 0 where
  pub outcome : Outcome e.state e.failure e.promoted_at e.cancelled_at e.joined_at

step-IsConsistent : (e : WaitlistEntry) (op : Operation) → IsConsistent e → IsConsistent (step e op)
unfolding step cancel_entry mark_promoted
step-IsConsistent e claims c = ground arith
step-IsConsistent e returns c = ground arith
step-IsConsistent e (cancels reason at) c = ground arith
step-IsConsistent e (promotes at) c = ground arith

run_sound : (e : WaitlistEntry) (ops : List Operation) → IsConsistent e → IsConsistent (run e ops)
unfolding run
run_sound e [] c = c
run_sound e (op ∷ ops) c = run_sound (step e op) ops (step-IsConsistent e op c)

new-IsConsistent :
    (id : Text) (request : SelectionRequest) (at : ℕ) {e : WaitlistEntry}
    → new_waitlist_entry id (some request) at ≡ ok e
    → IsConsistent e
unfolding new_waitlist_entry
new-IsConsistent id request at h = ground arith

-- After any calls on a new entry, it carries a promotion time exactly as promoted, a cancellation time and
-- a valid reason exactly as cancelled, never both, and neither time is before it joined.
pub run-IsConsistent :
    (id : Text) (request : SelectionRequest) (at : ℕ) (ops : List Operation) {e : WaitlistEntry}
    → new_waitlist_entry id (some request) at ≡ ok e
    → IsConsistent (run e ops)
run-IsConsistent id request at ops {e} h = run_sound e ops (new-IsConsistent id request at h)

abbrev pub IsFinal : WaitlistEntry → Type 0
IsFinal e = (e.state ≡ promoted) ⊎ (e.state ≡ cancelled)

step_final : (e : WaitlistEntry) (op : Operation) → IsFinal e → step e op ≡ e
unfolding step cancel_entry mark_promoted
step_final e claims h = ground arith
step_final e returns h = ground arith
step_final e (cancels reason at) h = ground arith
step_final e (promotes at) h = ground arith

-- A promoted or cancelled entry is never changed again.
pub run_final : (e : WaitlistEntry) (ops : List Operation) → IsFinal e → run e ops ≡ e
unfolding run
run_final e [] h = refl
run_final e (op ∷ ops) h = rw (step_final e op h) (run_final e ops h)

message_present :
    (x : Err)
    → ((t : Text) → x ≡ external t → is_empty (trim_space t) ≡ false)
    → is_empty (trim_space (error_text x)) ≡ false
unfolding error_text trim_space
message_present (external t) h = h t refl
message_present _ h = refl

code_found : (x : Option Err) → code_present (failure_code x) ≡ true
unfolding failure_code code_present
code_found x = ground arith

abbrev reason_for : Err → FailureReason
reason_for x = record { code = failure_code (some x); message = error_text x }

reason_for-valid :
    (x : Err) → is_empty (trim_space (error_text x)) ≡ false → reason_valid (reason_for x) ≡ true
unfolding reason_valid
reason_for-valid x h = ground (arith, code_found (some x))

-- Whatever error a promotion fails with, unless it comes from outside and has a blank message: either it is
-- to be retried, and is a full class or an application in progress, or the entry, if it is being
-- promoted, can be cancelled with the reason decided on.
pub promotion_failure_recorded :
    (x : Err) (e : WaitlistEntry) (at : ℕ)
    → ((t : Text) → x ≡ external t → is_empty (trim_space t) ≡ false)
    → e.state ≡ promoting
    → 0 < at
    → e.joined_at ≤ at
    → ((decide_promotion_failure (some x) ≡ retry)
        × ((x ≡ teaching_class_full) ⊎ (x ≡ application_in_progress)))
      ⊎ ((reason : FailureReason) × (decide_promotion_failure (some x) ≡ cancel_with reason)
          × ((cancel_entry e reason at).1 ≡ none)
          × ((cancel_entry e reason at).0.state ≡ cancelled))
unfolding decide_promotion_failure cancel_entry
promotion_failure_recorded x e at m s p q =
    elim (Bool-cases (errors_is (some x) teaching_class_full)) [
      | inl full ↦ inl (rw full refl, inl (errors_is_sound x teaching_class_full (λ h. cc) full))
      | inr seats ↦ elim (Bool-cases (errors_is (some x) application_in_progress)) [
        | inl busy ↦
            inl (
              rw (seats, busy) refl,
              inr (errors_is_sound x application_in_progress (λ h. cc) busy),
            )
        | inr free ↦ inr (
          reason_for x,
          rw (seats, free) refl,
          ground (arith, reason_for-valid x (message_present x m)),
          ground (arith, reason_for-valid x (message_present x m)),
        )
      ]
    ]
