-- ===== src/Enrollment/Errors.antt =====
-- internal/enrollment/domain/error.go: the sentinel errors, and `errors.Is` over them.
use native.Mathlib.Decide.{ℕ_discrete}
use Prim.Native.String.{String}
use course_forge.Prelude.{
  ◌⊎◌, inl, inr, refl, Text, codes, ◌++◌, Option, none, some, Bool, true, false, ◌&&◌, ◌||◌, ◌≡◌,
  ◌≢◌, is_yes,
}

pub data Err : Type 0 where
  not_found conflict round_in_use term_mismatch invalid_time_range invalid_selection_round
        round_already_warmed teaching_class_not_editable round_not_editable round_term_locked
        round_not_ready round_configuration_empty :
      Err
  invalid_params record_not_found round_not_open student_inactive teaching_class_not_open
        credit_quota_exceeded course_quota_exceeded teaching_class_full duplicate_selection
        prerequisite_not_met major_not_allowed grade_not_allowed eligibility_not_met
        schedule_conflict waitlist_already_exists waitlist_not_required idempotency_conflict
        application_in_progress application_cancelled invalid_application_state
        invalid_enrollment_state invalid_waitlist_state :
      Err
  -- an error of a port or of a library, by its message
  external : Text → Err

pub Err-discrete : Discrete Err
Err-discrete = hlevel ℕ_discrete

-- `fmt.Errorf("%w: …", ErrConflict)` makes these match `ErrConflict` too.
unfoldable pub wraps_conflict : Err → Bool
wraps_conflict round_already_warmed = true
wraps_conflict teaching_class_not_editable = true
wraps_conflict round_not_editable = true
wraps_conflict round_term_locked = true
wraps_conflict round_not_ready = true
wraps_conflict round_configuration_empty = true
wraps_conflict e = false

-- `errors.Is(err, target)` for a sentinel target.
unfoldable pub errors_is : Option Err → Err → Bool
unfolding wraps_conflict
errors_is none t = false
errors_is (some e) t =
    is_yes (Err-discrete e t) || (wraps_conflict e && is_yes (Err-discrete t conflict))

matched :
    (e t : Err) (b : Bool) (same : Dec (e ≡ t)) (base : Dec (t ≡ conflict))
    → t ≢ conflict
    → (is_yes same || (b && is_yes base)) ≡ true
    → e ≡ t
matched e t b (yes p) base ne h = p
matched e t b (no n) (yes p) ne h = absurd (ne p)
matched e t true (no n) (no m) ne h = cc
matched e t false (no n) (no m) ne h = cc

pub errors_is_sound : (e t : Err) → t ≢ conflict → errors_is (some e) t ≡ true → e ≡ t
unfolding errors_is
errors_is_sound e t = matched e t (wraps_conflict e) (Err-discrete e t) (Err-discrete t conflict)

-- `CodeError.Error()` of internal/shared/xerr.
coded : String → String → Text
coded code message = codes "ErrCode:" ++ codes code ++ codes ", ErrMsg:" ++ codes message

because_conflict : String → Text
because_conflict reason = codes "记录当前状态不允许执行该操作" ++ codes ": " ++ codes reason

-- `err.Error()`.
unfoldable pub error_text : Err → Text
unfolding coded because_conflict
error_text invalid_params = coded "ENROLLMENT_INVALID_PARAMS" "选课参数非法"
error_text record_not_found = coded "ENROLLMENT_RECORD_NOT_FOUND" "选课记录不存在"
error_text round_not_open = coded "ENROLLMENT_ROUND_NOT_OPEN" "当前不在选课开放时间内"
error_text student_inactive = coded "ENROLLMENT_STUDENT_INACTIVE" "学生当前不具备选课资格"
error_text teaching_class_not_open = coded "ENROLLMENT_CLASS_NOT_OPEN" "教学班未开放选课"
error_text credit_quota_exceeded = coded "ENROLLMENT_CREDIT_QUOTA_EXCEEDED" "学生剩余学分额度不足"
error_text course_quota_exceeded = coded "ENROLLMENT_COURSE_QUOTA_EXCEEDED" "学生剩余课程门数不足"
error_text teaching_class_full = coded "ENROLLMENT_CLASS_FULL" "教学班名额已满"
error_text duplicate_selection = coded "ENROLLMENT_DUPLICATE_SELECTION" "同一学期不能重复选择同一课程"
error_text prerequisite_not_met = coded "ENROLLMENT_PREREQUISITE_NOT_MET" "未满足课程先修要求"
error_text major_not_allowed = coded "ENROLLMENT_MAJOR_NOT_ALLOWED" "学生专业不在教学班允许范围内"
error_text grade_not_allowed = coded "ENROLLMENT_GRADE_NOT_ALLOWED" "学生年级不在教学班允许范围内"
error_text eligibility_not_met = coded "ENROLLMENT_ELIGIBILITY_NOT_MET" "学生不具备该教学班的选课资格"
error_text schedule_conflict = coded "ENROLLMENT_SCHEDULE_CONFLICT" "教学班上课时间与已选课程冲突"
error_text waitlist_already_exists = coded "ENROLLMENT_WAITLIST_EXISTS" "该课程已有有效候补申请"
error_text waitlist_not_required = coded "ENROLLMENT_WAITLIST_NOT_REQUIRED" "教学班仍有余量，请直接选课"
error_text idempotency_conflict = coded "ENROLLMENT_IDEMPOTENCY_CONFLICT" "幂等请求编号已绑定其他选课参数"
error_text application_in_progress = coded "ENROLLMENT_APPLICATION_IN_PROGRESS" "选课申请正在处理中"
error_text application_cancelled = coded "ENROLLMENT_APPLICATION_CANCELLED" "选课申请已取消"
error_text invalid_application_state =
    coded "ENROLLMENT_INVALID_APPLICATION_STATE" "选课申请状态不允许执行当前操作"
error_text invalid_enrollment_state =
    coded "ENROLLMENT_INVALID_ENROLLMENT_STATE" "正式选课记录状态不允许执行当前操作"
error_text invalid_waitlist_state = coded "ENROLLMENT_INVALID_WAITLIST_STATE" "候补申请状态不允许执行当前操作"
error_text not_found = codes "记录不存在"
error_text conflict = codes "记录当前状态不允许执行该操作"
error_text round_in_use = codes "选课轮次已有配置或业务数据，不能删除"
error_text term_mismatch = codes "教学班与选课轮次不属于同一学期"
error_text invalid_time_range = codes "选课轮次结束时间必须晚于开始时间"
error_text invalid_selection_round = codes "选课轮次信息不完整"
error_text round_already_warmed = because_conflict "选课轮次资格已预热，不能再修改配置"
error_text teaching_class_not_editable = because_conflict "教学班已进入选课流程，不能通过基础维护修改"
error_text round_not_editable = because_conflict "轮次已进入选课流程，不能通过基础维护修改"
error_text round_term_locked = because_conflict "轮次已绑定教学班，不能修改所属学期"
error_text round_not_ready = because_conflict "轮次资格预热未完成，不能开放"
error_text round_configuration_empty = because_conflict "轮次必须配置教学班和学生额度后才能开放"
error_text (external t) = t

-- A Go `(T, error)` where exactly one of the two is meant.
pub data Result {ℓ} (Value : Type ℓ) : Type ℓ where
  err : Err → Result Value
  ok : Value → Result Value

pub Result-cases {ℓ} :
    {Value : Type ℓ} (m : Result Value) → ((x : Err) × (m ≡ err x)) ⊎ ((v : Value) × (m ≡ ok v))
Result-cases (err x) = inl (x, refl)
Result-cases (ok v) = inr (v, refl)

-- The rest of a function behind a call, and behind `if err := check; err != nil { return err }`.
abbrev pub ◌>>=◌ {ℓ κ} :
    {Value : Type ℓ} {Next : Type κ} → Result Value → (Value → Result Next) → Result Next
err x >>= next = err x
ok v >>= next = next v

abbrev pub ◌>>◌ {κ} : {Next : Type κ} → Option Err → Result Next → Result Next
some x >> next = err x
none >> next = next

infixl 5 ◌>>◌ ◌>>=◌
-- A chain succeeds only where each step does.
pub bind-ok {ℓ κ} :
    {Value : Type ℓ} {Next : Type κ} (m : Result Value) (next : Value → Result Next) {w : Next}
    → (m >>= next) ≡ ok w
    → (v : Value) × (m ≡ ok v) × (next v ≡ ok w)
bind-ok (err x) next h = absurd cc
bind-ok (ok v) next h = (v, refl, h)

pub check-ok {κ} :
    {Next : Type κ} (check : Option Err) (next : Result Next) {w : Next}
    → (check >> next) ≡ ok w
    → (check ≡ none) × (next ≡ ok w)
check-ok (some x) next h = absurd cc
check-ok none next h = (refl, h)
