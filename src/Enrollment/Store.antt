-- ===== src/Enrollment/Store.antt =====
-- The Redis keys of internal/enrollment/infrastructure/persistence/keys.go, one field for each, with the
-- values that the scripts put there, and the Redis commands that the scripts call on them. A key that
-- does not exist is `none`, `absent` or, for a set or a hash, the empty list.
use course_forge.Prelude.{
  ℕ, Bool, true, false, ◌||◌, ◌&&◌, Option, none, some, List, [], ◌∷◌, Text, codes, text_eq, ◌==◌,
  any, if◌then◌else◌,
}
use course_forge.Prelude.Int.{ℤ, pos, ◌+ℤ◌, ◌-ℤ◌}
use course_forge.Enrollment.Selection.{SelectionResult}

-- The round and class hashes of the warm-up, each field as `tonumber` reads it.
pub record RoundHash : Type 0 where
  pub term_id : Option ℤ
  pub start_ms : Option ℤ
  pub end_ms : Option ℤ

pub record ClassHash : Type 0 where
  pub course_id : Option ℤ
  pub credits : Option ℤ
  pub capacity : Option ℤ

-- A string key that holds a number. `tonumber` reads none from a malformed one.
pub data Counter : Type 0 where
  absent malformed : Counter
  number : ℤ → Counter

-- A JSON text: what it encodes, or a text that cannot be decoded.
pub data Document : Type 0 where
  garbled : Text → Document
  encoded : SelectionResult → Document

pub record PublicationPayload : Type 0 where
  pub stream_id : Text
  pub stream_recorded : Bool
  pub broker_confirmed : Option Bool
  pub mysql_persisted : Bool
  pub result : Option SelectionResult

pub data StoredPublication : Type 0 where
  garbled_publication : Text → StoredPublication
  publication : PublicationPayload → StoredPublication

pub record Store : Type 0 where
  pub active_version : ℕ → Option Text
  pub open_version : ℕ → Option Text
  pub round_snapshot : ℕ → Text → RoundHash
  pub class_snapshot : ℕ → Text → ℕ → ClassHash
  pub eligible : ℕ → Text → ℕ → List ℕ
  pub credit : ℕ → ℕ → Counter
  pub course_quota : ℕ → ℕ → Counter
  pub seat : ℕ → Counter
  pub pending : ℕ → ℕ → Option Document
  pub request_result : ℕ → ℕ → Text → Option StoredPublication
  pub selected_courses : ℕ → ℕ → List (ℕ × Text)
  pub application : Text → Option StoredPublication
  pub stream : List (Text × Document)
  pub class_schedule : ℕ → List Text
  pub student_schedule : ℕ → ℕ → List (Text × ℤ)
  pub dropped : Text → Bool

module _ {ℓ} {V : Type ℓ} where
  abbrev pub put : (ℕ → V) → ℕ → V → ℕ → V
  put f k v j = if k == j then v else f j

  abbrev pub put_text : (Text → V) → Text → V → Text → V
  put_text f k v j = if text_eq k j then v else f j

  abbrev pub put_two : (ℕ → ℕ → V) → ℕ → ℕ → V → ℕ → ℕ → V
  put_two f k l v i j = if k == i && l == j then v else f i j

  abbrev pub put_three : (ℕ → ℕ → Text → V) → ℕ → ℕ → Text → V → ℕ → ℕ → Text → V
  put_three f k l t v i j u = if k == i && l == j && text_eq t u then v else f i j u

-- `SISMEMBER` on a set of ids, and `HEXISTS`, `HSET`, `HGET` and `HDEL` on the course hash.
unfoldable pub has_id : ℕ → List ℕ → Bool
has_id k ids = any (λ i. i == k) ids

unfoldable pub has_course : ℕ → List (ℕ × Text) → Bool
has_course k [] = false
has_course k ((j, v) ∷ h) = j == k || has_course k h

unfoldable pub set_course : ℕ → Text → List (ℕ × Text) → List (ℕ × Text)
set_course k v [] = (k, v) ∷ []
set_course k v ((j, w) ∷ h) = if j == k then (k, v) ∷ h else (j, w) ∷ set_course k v h

unfoldable pub get_course : ℕ → List (ℕ × Text) → Option Text
get_course k [] = none
get_course k ((j, v) ∷ h) = if j == k then some v else get_course k h

unfoldable pub del_course : ℕ → List (ℕ × Text) → List (ℕ × Text)
del_course k [] = []
del_course k ((j, v) ∷ h) = if j == k then h else (j, v) ∷ del_course k h

-- `HGET` on the schedule hash, 0 for a missing field; `HINCRBY` and `HDEL`.
unfoldable pub slot_count : Text → List (Text × ℤ) → ℤ
slot_count k [] = pos 0
slot_count k ((j, n) ∷ h) = if text_eq j k then n else slot_count k h

unfoldable pub add_slot : Text → ℤ → List (Text × ℤ) → List (Text × ℤ)
add_slot k d [] = (k, d) ∷ []
add_slot k d ((j, n) ∷ h) = if text_eq j k then (j, n +ℤ d) ∷ h else (j, n) ∷ add_slot k d h

unfoldable pub del_slot : Text → List (Text × ℤ) → List (Text × ℤ)
del_slot k [] = []
del_slot k ((j, n) ∷ h) = if text_eq j k then h else (j, n) ∷ del_slot k h

-- The member that keeps a set of slots from being empty.
abbrev pub sentinel : Text
sentinel = codes "0"

abbrev pub is_absent : Counter → Bool
is_absent absent = true
is_absent c = false

abbrev pub read_number : Counter → Option ℤ
read_number (number n) = some n
read_number c = none

-- `INCRBY` and `DECRBY`, which start a missing key at 0. On a malformed one Redis fails; the scripts
-- get there with a number only.
abbrev pub add_to : Counter → ℤ → Counter
add_to absent d = number d
add_to malformed d = malformed
add_to (number n) d = number (n +ℤ d)

abbrev pub take_from : Counter → ℤ → Counter
take_from absent d = number (pos 0 -ℤ d)
take_from malformed d = malformed
take_from (number n) d = number (n -ℤ d)
