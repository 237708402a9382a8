-- ===== src/Enrollment/Eligibility/Overlap.antt =====
-- What the schedule and major rules decide (domain/admission.go), against a direct description.
use Prim.Native.Nat.{max}
use course_forge.Prelude.{
  ℕ, ◌≤◌, ◌≡◌, ◌↔◌, refl, Bool, true, false, not, ◌&&◌, ◌||◌, List, [], ◌∷◌, any, every, All, ◌==◌,
  arith, Bool-cases, inl, inr,
}
use course_forge.Enrollment.Eligibility.{
  ScheduleSlot, slot_valid, conflicts, any_conflict, MajorScope, is_allow, is_deny, scan_scopes,
  major_allowed,
}

-- The slot takes place on the day, in the week and in the section.
pub record Holds (s : ScheduleSlot) (day week section : ℕ) : Type 0 where
  pub on_day : s.day_of_week ≡ day
  pub in_week : (s.start_week ≤ week) × (week ≤ s.end_week)
  pub in_section : (s.start_section ≤ section) × (section ≤ s.end_section)

-- Two valid slots conflict exactly when there is a day, a week and a section at which both take place.
pub conflicts_iff :
    (s t : ScheduleSlot)
    → slot_valid s ≡ true
    → slot_valid t ≡ true
    → (conflicts s t ≡ true) ↔ (
        (day : ℕ) × (week : ℕ) × (section : ℕ) × Holds s day week section
        × Holds t day week section)
unfolding conflicts slot_valid
conflicts_iff s t p q = (
  λ h. (
    s.day_of_week,
    max s.start_week t.start_week,
    max s.start_section t.start_section,
    ground arith,
    ground arith,
  ),
  λ h. ground arith,
)

abbrev pub denies : ℕ → MajorScope → Bool
denies major scope = is_deny scope.type && scope.major_id == major

abbrev pub allows : ℕ → MajorScope → Bool
allows major scope = is_allow scope.type && scope.major_id == major

abbrev pub lists_allowed : MajorScope → Bool
lists_allowed scope = is_allow scope.type

scan_scopes-eq :
    (major : ℕ) (scopes : List MajorScope) (listed allowed : Bool)
    → scan_scopes major scopes listed allowed ≡ (
        not (any (denies major) scopes)
        && (not (any lists_allowed scopes || listed) || (any (allows major) scopes || allowed)))
unfolding scan_scopes
scan_scopes-eq major [] listed allowed = ground arith
scan_scopes-eq major (scope ∷ scopes) listed allowed = ground (
  arith,
  scan_scopes-eq major scopes (is_allow scope.type || listed)
      ((is_allow scope.type && scope.major_id == major) || allowed),
)

-- A major is allowed exactly when no scope denies it and, if any scope lists allowed majors, one lists
-- it. The order of the scopes does not matter.
pub major_allowed-eq :
    (major : ℕ) (scopes : List MajorScope)
    → major_allowed major scopes ≡ (
        not (any (denies major) scopes)
        && (not (any lists_allowed scopes) || any (allows major) scopes))
unfolding major_allowed
major_allowed-eq major [] = refl
major_allowed-eq major (scope ∷ scopes) =
    ground (arith, scan_scopes-eq major (scope ∷ scopes) false false)

-- No day, week and section at which both slots take place.
abbrev pub Apart : ScheduleSlot → ScheduleSlot → Type 0
Apart s t = (day week section : ℕ) → Holds s day week section → Holds t day week section → ⊥

Apart-iff :
    (s t : ScheduleSlot)
    → slot_valid s ≡ true
    → slot_valid t ≡ true
    → (conflicts s t ≡ false) ↔ Apart s t
Apart-iff s t p q = (
  λ h d w k hs ht. clash ((conflicts_iff s t p q).1 (d, w, k, hs, ht)) h,
  λ apart. elim (Bool-cases (conflicts s t)) [
    | inl yes_clash ↦
        let (d, w, k, hs, ht) = (conflicts_iff s t p q).0 yes_clash in absurd (apart d w k hs ht)
    | inr free ↦ free
  ],
)
  where
    clash : {b : Bool} → b ≡ true → b ≡ false → ⊥
    clash h k = cc

any-Apart :
    (t : ScheduleSlot) (selected : List ScheduleSlot)
    → slot_valid t ≡ true
    → every slot_valid selected ≡ true
    → (any (conflicts t) selected ≡ false) ↔ All (Apart t) selected
any-Apart t [] p q = (λ h. tt, λ h. refl)
any-Apart t (s ∷ rest) p q =
    let here = Apart-iff t s p (ground arith) in
    let there = any-Apart t rest p (ground arith) in
    (
      λ h. (here.0 (ground arith), there.0 (ground arith)),
      λ (a : All (Apart t) (s ∷ rest)). rw (here.1 a.0, there.1 a.1) refl,
    )

-- Between lists of valid slots the nested search for a conflict finds none exactly when every target
-- slot is apart from every selected one.
pub any_conflict-Apart :
    (targets selected : List ScheduleSlot)
    → every slot_valid targets ≡ true
    → every slot_valid selected ≡ true
    → (any_conflict targets selected ≡ false) ↔ All (λ t. All (Apart t) selected) targets
unfolding any_conflict
any_conflict-Apart [] selected p q = (λ h. tt, λ h. refl)
any_conflict-Apart (t ∷ rest) selected p q =
    let here = any-Apart t selected (ground arith) q in
    let there = any_conflict-Apart rest selected (ground arith) q in
    (
      λ h. (here.0 (ground arith), there.0 (ground arith)),
      λ (a : All (λ t. All (Apart t) selected) (t ∷ rest)). rw (here.1 a.0, there.1 a.1) refl,
    )
