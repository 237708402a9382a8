-- ===== src/Enrollment/Adapter/Replies.antt =====
-- What `CommitSelection` (persistence/redis.go) returns for what its script does.
use course_forge.Prelude.{
  ◌≡◌, ◌⊎◌, inl, inr, refl, true, false, Option, none, some, Text, text_eq_refl, is_empty,
  trim_space, arith, Bool-cases, Option-cases,
}
use course_forge.Prelude.Int.{eqb_ℤ_refl}
use course_forge.Enrollment.Errors.{Err, external, Result, ok, err}
use course_forge.Enrollment.Selection.{
  ApplicationSource, web, mobile, admin, system, other_source, SelectionResult, validate_result,
  source_eq,
}
use course_forge.Enrollment.Store.{Store, StoredPublication}
use course_forge.Enrollment.Commit.{
  Call, Reply, recorded, already, busy, refused, commit, publication_of, is_selected,
}
use course_forge.Enrollment.Commit.Effects.{commit_cases}
use course_forge.Enrollment.Exclusion.{stored_for_request}
use course_forge.Enrollment.Adapter.{
  Publication, validate_publication, decode_publication, same_selection_fingerprint,
  accept_publication, interpret_reply, call_for, Sent, answered, not_run, reply_lost, Wire,
  after_script, submit, submit_version, commit_selection, ready_version,
}

source_eq_refl : (a : ApplicationSource) → source_eq a a ≡ true
unfolding source_eq
source_eq_refl web = refl
source_eq_refl mobile = refl
source_eq_refl admin = refl
source_eq_refl system = refl
source_eq_refl (other_source t) = text_eq_refl t

fingerprint_refl : (r : SelectionResult) → same_selection_fingerprint (some r) r ≡ true
unfolding same_selection_fingerprint
fingerprint_refl r =
    ground (arith, text_eq_refl r.request_id, eqb_ℤ_refl r.credits, source_eq_refl r.source)

-- The publication of a valid result decodes and is accepted for it.
fresh_accepted :
    (r : SelectionResult) (version id : Text)
    → validate_result (some r) ≡ none
    → is_empty (trim_space id) ≡ false
    → (p : Publication) × (accept_publication (publication_of (call_for r version id) r) r ≡ ok p)
      × (validate_publication p ≡ none)
      × (p.result ≡ some r)
      × (p.durably_persisted ≡ false)
unfolding accept_publication publication_of call_for decode_publication validate_publication
fresh_accepted r version id h k = (
  record { stream_id = id; stream_recorded = true; durably_persisted = false; result = some r },
  ground (arith, fingerprint_refl r),
  ground arith,
  refl,
  refl,
)

-- What a successful commit leaves: the stored publication of the request decodes to what was returned.
pub record Stored (t : Store) (r : SelectionResult) (p : Publication) : Type 0 where
  pub sound : validate_publication p ≡ none
  pub same : same_selection_fingerprint p.result r ≡ true
  pub entry : StoredPublication
  pub kept : t.request_result r.round_id r.student_id r.request_id ≡ some entry
  pub decodes : decode_publication entry ≡ ok p

accepted :
    (stored : StoredPublication) (r : SelectionResult) (m : Result Publication) {p : Publication}
    → decode_publication stored ≡ m
    → accept_publication stored r ≡ ok p
    → (decode_publication stored ≡ ok p) × (same_selection_fingerprint p.result r ≡ true)
unfolding accept_publication
accepted stored r (ok q) e h = (ground arith, ground arith)
accepted stored r (err x) e h = absurd (ground arith)

decoded_sound :
    (stored : StoredPublication) {p : Publication}
    → decode_publication stored ≡ ok p
    → validate_publication p ≡ none
unfolding decode_publication
decoded_sound stored h = ground arith

already_stored :
    (s : Store) (c : Call) (o : Option StoredPublication) {q : StoredPublication}
    → s.request_result c.round_id c.student_id c.request_id ≡ o
    → (commit s c).1 ≡ already q
    → o ≡ some q
unfolding commit
already_stored s c o e h = ground arith

accepted-Stored :
    (t : Store) (r : SelectionResult) (entry : StoredPublication) {p : Publication}
    → t.request_result r.round_id r.student_id r.request_id ≡ some entry
    → accept_publication entry r ≡ ok p
    → Stored t r p
accepted-Stored t r entry k h =
    let (decodes, same) = accepted entry r (decode_publication entry) refl h in
    record {
      sound = decoded_sound entry decodes;
      same = same;
      entry = entry;
      kept = k;
      decodes = decodes;
    }

reply-Stored :
    (s : Store) (r : SelectionResult) (version id : Text) (reply : Reply) {p : Publication}
    → (commit s (call_for r version id)).1 ≡ reply
    → interpret_reply reply r ≡ ok p
    → Stored (commit s (call_for r version id)).0 r p
unfolding interpret_reply call_for
reply-Stored s r version id (recorded q) e h = elim (commit_cases s (call_for r version id)) [
  | inl (_, unrecorded) ↦ absurd (ground arith)
  | inr (r', w) ↦
      let here = stored_for_request s (call_for r version id) r' in
      accepted-Stored (commit s (call_for r version id)).0 r q (ground (arith, w.written, here, e))
        h
]
reply-Stored s r version id (already q) e h =
    let here = already_stored s (call_for r version id) _ refl e in
    elim (commit_cases s (call_for r version id)) [
      | inl (same, _) ↦ accepted-Stored (commit s (call_for r version id)).0 r q (rw same here) h
      | inr (r', w) ↦ absurd (ground (arith, w.written))
    ]
reply-Stored s r version id (busy d) e h = absurd (ground arith)
reply-Stored s r version id (refused why) e h = absurd (ground arith)

script-Stored :
    (sent : Sent) (s : Store) (r : SelectionResult) (version id : Text) {p : Publication}
    → let c = call_for r version id in
      (after_script sent s (commit s c) r).1 ≡ ok p
      → Stored (after_script sent s (commit s c) r).0 r p
unfolding after_script
script-Stored answered s r version id h = reply-Stored s r version id _ refl h
script-Stored (not_run e) s r version id h = absurd cc
script-Stored (reply_lost e) s r version id h = absurd cc

submit-Stored :
    (ready : Option Text) (s : Store) (r : SelectionResult) (wire : Wire) {p : Publication}
    → (submit ready s r wire).1 ≡ ok p
    → Stored (submit ready s r wire).0 r p
unfolding submit
submit-Stored none s r wire h = absurd (ground arith)
submit-Stored (some version) s r wire h = script-Stored wire.script s r version wire.stream_id h

version-Stored :
    (failed ready : Option Text) (s : Store) (r : SelectionResult) (wire : Wire) {p : Publication}
    → (submit_version failed ready s r wire).1 ≡ ok p
    → Stored (submit_version failed ready s r wire).0 r p
unfolding submit_version
version-Stored (some e) ready s r wire h = absurd cc
version-Stored none ready s r wire h = submit-Stored ready s r wire h

abbrev submitted : Store → SelectionResult → Wire → Store × Result Publication
submitted s r wire =
    submit_version wire.version_error (ready_version (s.active_version r.round_id)) s r wire

-- Whatever `CommitSelection` returns without an error, for a new request or a repeated one, is of the same
-- selection as its argument, validates, and can be read back under the request's key.
pub commit_selection-Stored :
    (s : Store) (r : SelectionResult) (wire : Wire) {p : Publication}
    → (commit_selection s r wire).1 ≡ ok p
    → Stored (commit_selection s r wire).0 r p
unfolding commit_selection
commit_selection-Stored s r wire h = elim (Option-cases (validate_result (some r))) [
  | inr (x, bad) ↦ absurd (ground (arith, bad))
  | inl good ↦ elim (Bool-cases (is_selected r.state)) [
    | inr other ↦ absurd (ground (arith, good, other))
    | inl chosen ↦
        let path : commit_selection s r wire ≡ submitted s r wire = rw (good, chosen) refl in
        rw path (
          version-Stored wire.version_error (ready_version (s.active_version r.round_id)) s r wire
            (rw path at h))
  ]
]

reply_error_unchanged :
    (s : Store) (r : SelectionResult) (version id : Text) {x : Err}
    → validate_result (some r) ≡ none
    → is_empty (trim_space id) ≡ false
    → interpret_reply (commit s (call_for r version id)).1 r ≡ err x
    → (commit s (call_for r version id)).0 ≡ s
unfolding interpret_reply call_for
reply_error_unchanged s r version id v k h = elim (commit_cases s (call_for r version id)) [
  | inl (same, _) ↦ same
  | inr (r', w) ↦
      let (p, fine, _, _, _) = fresh_accepted r version id v k in
      absurd (ground (arith, w.written, w.decoded, fine))
]

-- The script ran and its reply was lost; the error is that of the call.
abbrev pub Lost : Wire → Err → Type 0
Lost wire x = (e : Text) × (wire.script ≡ reply_lost e) × (x ≡ external e)

script_error_unchanged :
    (sent : Sent) (s : Store) (r : SelectionResult) (version id : Text) {x : Err}
    → validate_result (some r) ≡ none
    → is_empty (trim_space id) ≡ false
    → let c = call_for r version id in
      (after_script sent s (commit s c) r).1 ≡ err x
      → ((after_script sent s (commit s c) r).0 ≡ s)
        ⊎ ((e : Text) × (sent ≡ reply_lost e) × (x ≡ external e))
unfolding after_script
script_error_unchanged answered s r version id v k h =
    inl (reply_error_unchanged s r version id v k h)
script_error_unchanged (not_run e) s r version id v k h = inl refl
script_error_unchanged (reply_lost e) s r version id {x} v k h =
    let is_x : x ≡ external e = cc in inr (e, refl, is_x)

submit_error_unchanged :
    (failed ready : Option Text) (s : Store) (r : SelectionResult) (wire : Wire) {x : Err}
    → validate_result (some r) ≡ none
    → is_empty (trim_space wire.stream_id) ≡ false
    → (submit_version failed ready s r wire).1 ≡ err x
    → ((submit_version failed ready s r wire).0 ≡ s) ⊎ Lost wire x
unfolding submit submit_version
submit_error_unchanged (some e) ready s r wire v k h = inl refl
submit_error_unchanged none none s r wire v k h = inl refl
submit_error_unchanged none (some version) s r wire v k h =
    script_error_unchanged wire.script s r version wire.stream_id v k h

-- Where `CommitSelection` returns an error, and Redis' stream id would not be blank, nothing was written, or
-- the reply of its script was lost.
pub commit_selection_error_unchanged :
    (s : Store) (r : SelectionResult) (wire : Wire) {x : Err}
    → is_empty (trim_space wire.stream_id) ≡ false
    → (commit_selection s r wire).1 ≡ err x
    → ((commit_selection s r wire).0 ≡ s) ⊎ Lost wire x
unfolding commit_selection
commit_selection_error_unchanged s r wire k h = elim (Option-cases (validate_result (some r))) [
  | inr (x, bad) ↦ inl (ground (arith, bad))
  | inl good ↦ elim (Bool-cases (is_selected r.state)) [
    | inr other ↦ inl (ground (arith, good, other))
    | inl chosen ↦
        let path : commit_selection s r wire ≡ submitted s r wire = rw (good, chosen) refl in
        rw path (
          submit_error_unchanged wire.version_error (ready_version (s.active_version r.round_id)) s
            r wire good k (rw path at h))
  ]
]
