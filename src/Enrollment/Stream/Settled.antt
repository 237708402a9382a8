-- ===== src/Enrollment/Stream/Settled.antt =====
-- No message of the selection stream is lost (internal/enrollment/async/selection_stream_consumer.go).
use course_forge.Prelude.{
  ◌≡◌, ◌⊎◌, inl, inr, refl, Bool, true, Option, none, some, List, [], ◌∷◌, Text, text_eq,
  text_eq_refl, text_eq_sound, All, any, arith, Bool-cases,
}
use course_forge.Enrollment.Errors.{Err, error_text}
use course_forge.Enrollment.Selection.{SelectionResult}
use course_forge.Enrollment.Stream.{
  Stream, StreamMessage, Call, ran, not_ran, reply_lost, Decoded, undecoded, decoded, Unmarshalled,
  decode_selection_stream_message, acknowledge_stream_messages, dead_letter_stream_message,
  delete_entries, is_retryable_selection_persistence_error,
}
use course_forge.Enrollment.Stream.Batch.{
  Valid, ids_of, results_of, acknowledge, dead_letter, decode_each, settle_one, save_each,
  after_save, save_valid, process_batch,
}

abbrev pub is_held : Text → Stream → Bool
is_held id s = any (λ m. text_eq id m.id) s.entries

abbrev pub is_dead : Text → Stream → Bool
is_dead id s = any (λ d. text_eq id d.original_stream_id) s.dead

abbrev named : Text → List Text → Bool
named id ids = any (λ i. text_eq i id) ids

-- Deleting takes no message that it does not name.
Decoded-cases :
    (d : Decoded) → ((t : Text) × (d ≡ undecoded t)) ⊎ ((r : SelectionResult) × (d ≡ decoded r))
Decoded-cases (undecoded t) = inl (t, refl)
Decoded-cases (decoded r) = inr (r, refl)

delete_held :
    (id : Text) (ids : List Text) (ms : List StreamMessage)
    → any (λ m. text_eq id m.id) ms ≡ true
    → (any (λ m. text_eq id m.id) (delete_entries ids ms) ≡ true)
      ⊎ (any (λ i. text_eq i id) ids ≡ true)
unfolding delete_entries
delete_held id ids [] h = absurd cc
delete_held id ids (m ∷ ms) h = elim (Bool-cases (text_eq id m.id)) [
  | inl here ↦
      let same : id ≡ m.id = text_eq_sound id m.id here in
      elim (Bool-cases (any (λ i. text_eq i m.id) ids)) [
        | inl gone ↦ inr (rw same gone)
        | inr stays ↦ inl (rw stays (rw here refl))
      ]
  | inr there ↦ elim (Bool-cases (any (λ i. text_eq i m.id) ids)) [
    | inl gone ↦ rw gone (delete_held id ids ms (rw there at h))
    | inr stays ↦ rw (stays, there) (delete_held id ids ms (rw there at h))
  ]
]

find_named :
    {Q : Valid → Type 0} (id : Text) (vs : List Valid)
    → All Q vs
    → any (λ i. text_eq i id) (ids_of vs) ≡ true
    → (v : Valid) × (v.message.id ≡ id) × Q v
find_named id [] q h = absurd cc
find_named id (v ∷ vs) q h = elim (Bool-cases (text_eq v.message.id id)) [
  | inl here ↦ (v, text_eq_sound v.message.id id here, q.0)
  | inr there ↦ find_named id vs q.1 (rw there at h)
]

deleted_held :
    (id : Text) (c : Call) (ids : List Text) (s : Stream)
    → is_held id s ≡ true
    → (is_held id (acknowledge_stream_messages c s ids).0 ≡ true)
      ⊎ (any (λ i. text_eq i id) ids ≡ true)
unfolding acknowledge_stream_messages
deleted_held id c [] s h = inl h
deleted_held id not_ran (i ∷ ids) s h = inl h
deleted_held id ran (i ∷ ids) s h = delete_held id (i ∷ ids) s.entries h
deleted_held id reply_lost (i ∷ ids) s h = delete_held id (i ∷ ids) s.entries h

deleted_dead :
    (id : Text) (c : Call) (ids : List Text) (s : Stream)
    → is_dead id s ≡ true
    → is_dead id (acknowledge_stream_messages c s ids).0 ≡ true
unfolding acknowledge_stream_messages
deleted_dead id c [] s h = h
deleted_dead id not_ran (i ∷ ids) s h = h
deleted_dead id ran (i ∷ ids) s h = h
deleted_dead id reply_lost (i ∷ ids) s h = h

buried_held :
    (id : Text) (c : Call) (s : Stream) (m : StreamMessage) (reason : Text)
    → is_held id s ≡ true
    → (is_held id (dead_letter_stream_message c s m reason).0 ≡ true)
      ⊎ (is_dead id (dead_letter_stream_message c s m reason).0 ≡ true)
unfolding dead_letter_stream_message
buried_held id not_ran s m reason h = inl h
buried_held id ran s m reason h = elim (delete_held id (m.id ∷ []) s.entries h) [
  | inl stays ↦ inl stays
  | inr gone ↦
      let same : m.id ≡ id = text_eq_sound m.id id (ground (arith, gone)) in
      inr (rw same (rw (text_eq_refl id) refl))
]
buried_held id reply_lost s m reason h = elim (delete_held id (m.id ∷ []) s.entries h) [
  | inl stays ↦ inl stays
  | inr gone ↦
      let same : m.id ≡ id = text_eq_sound m.id id (ground (arith, gone)) in
      inr (rw same (rw (text_eq_refl id) refl))
]

buried_dead :
    (id : Text) (c : Call) (s : Stream) (m : StreamMessage) (reason : Text)
    → is_dead id s ≡ true
    → is_dead id (dead_letter_stream_message c s m reason).0 ≡ true
unfolding dead_letter_stream_message
buried_dead id not_ran s m reason h = h
buried_dead id ran s m reason h = ground (arith, h)
buried_dead id reply_lost s m reason h = ground (arith, h)

decode_each-undecoded :
    (calls : List Text → Call) (unmarshal : Text → Unmarshalled) (s : Stream) (m : StreamMessage)
    (ms : List StreamMessage) {reason : Text}
    → decode_selection_stream_message unmarshal m ≡ undecoded reason
    → decode_each calls unmarshal s (m ∷ ms)
      ≡ decode_each calls unmarshal (dead_letter calls s m reason) ms
unfolding decode_each
decode_each-undecoded calls unmarshal s m ms h = rw (h, decode_each) refl

decode_each-decoded :
    (calls : List Text → Call) (unmarshal : Text → Unmarshalled) (s : Stream) (m : StreamMessage)
    (ms : List StreamMessage) {r : SelectionResult}
    → decode_selection_stream_message unmarshal m ≡ decoded r
    → decode_each calls unmarshal s (m ∷ ms) ≡ (
      (decode_each calls unmarshal s ms).0,
      record { message = m; result = r } ∷ (decode_each calls unmarshal s ms).1,
    )
unfolding decode_each
decode_each-decoded calls unmarshal s m ms h = rw (h, decode_each) refl

module _ {S : Type 0} (unmarshal : Text → Unmarshalled) (calls : List Text → Call)
    (save_selection_results : S → List SelectionResult → S × Option Err)
    (Saved : S → SelectionResult → Type 0)
    (save-keeps : (db : S) (rs : List SelectionResult) (r : SelectionResult)
      → Saved db r
      → Saved (save_selection_results db rs).0 r)
    (save-Saved : (db : S) (rs : List SelectionResult)
      → (save_selection_results db rs).1 ≡ none
      → All (Saved (save_selection_results db rs).0) rs)
    (P : StreamMessage → Type 0) where
  abbrev pub Good : Valid → Type 0
  Good v = (decode_selection_stream_message unmarshal v.message ≡ decoded v.result) × P v.message

  abbrev pub Evidence : Text → S → Type 0
  Evidence id db = (v : Valid) × (v.message.id ≡ id) × (Good v × Saved db v.result)

  abbrev pub Accounted : Text → S → Stream → Type 0
  Accounted id db s = (is_held id s ≡ true) ⊎ ((is_dead id s ≡ true) ⊎ Evidence id db)

  acknowledge-Accounted :
      (id : Text) (db : S) (s : Stream) (vs : List Valid)
      → All (λ v. Good v × Saved db v.result) vs
      → Accounted id db s
      → Accounted id db (acknowledge calls s (ids_of vs))
  acknowledge-Accounted id db s vs q (inr (inl d)) =
      inr (inl (deleted_dead id (calls (ids_of vs)) (ids_of vs) s d))
  acknowledge-Accounted id db s vs q (inr (inr e)) = inr (inr e)
  acknowledge-Accounted id db s vs q (inl h) =
      elim (deleted_held id (calls (ids_of vs)) (ids_of vs) s h) [
        | inl stays ↦ inl stays
        | inr gone ↦ inr (inr (find_named id vs q gone))
      ]

  dead_letter-Accounted :
      (id : Text) (db : S) (s : Stream) (m : StreamMessage) (reason : Text)
      → Accounted id db s
      → Accounted id db (dead_letter calls s m reason)
  dead_letter-Accounted id db s m reason (inr (inl d)) =
      inr (inl (buried_dead id (calls (m.id ∷ [])) s m reason d))
  dead_letter-Accounted id db s m reason (inr (inr e)) = inr (inr e)
  dead_letter-Accounted id db s m reason (inl h) =
      elim (buried_held id (calls (m.id ∷ [])) s m reason h) [
        | inl stays ↦ inl stays
        | inr gone ↦ inr (inl gone)
      ]

  save-Accounted :
      (id : Text) (db : S) (s : Stream) (rs : List SelectionResult)
      → Accounted id db s
      → Accounted id (save_selection_results db rs).0 s
  save-Accounted id db s rs (inl h) = inl h
  save-Accounted id db s rs (inr (inl d)) = inr (inl d)
  save-Accounted id db s rs (inr (inr (v, same, (good, saved)))) =
      inr (inr (v, same, (good, save-keeps db rs v.result saved)))

  settle-Accounted :
      (id : Text) (db : S) (s : Stream) (v : Valid) (e : Option Err)
      → Good v
      → (e ≡ none → Saved db v.result)
      → Accounted id db s
      → Accounted id db (settle_one calls s v e)
  unfolding settle_one
  settle-Accounted id db s v none good saved a =
      acknowledge-Accounted id db s (v ∷ []) ((good, saved refl), tt) a
  settle-Accounted id db s v (some e) good saved a =
      elim (Bool-cases (is_retryable_selection_persistence_error (some e))) [
        | inl again ↦ rw again a
        | inr final ↦ rw final (dead_letter-Accounted id db s v.message (error_text e) a)
      ]

  each-Accounted :
      (id : Text) (db : S) (s : Stream) (vs : List Valid)
      → All Good vs
      → Accounted id db s
      → let after = save_each calls save_selection_results db s vs in Accounted id after.0 after.1
  unfolding save_each
  each-Accounted id db s [] good a = a
  each-Accounted id db s (v ∷ vs) good a =
      let saved = save-Accounted id db s (v.result ∷ []) a in
      let (db', e) = save_selection_results db (v.result ∷ []) in
      each-Accounted id (save_selection_results db (v.result ∷ [])).0
        (settle_one calls s v (save_selection_results db (v.result ∷ [])).1) vs good.1
        (settle-Accounted id (save_selection_results db (v.result ∷ [])).0 s v
          (save_selection_results db (v.result ∷ [])).1 good.0
          (λ fine. (save-Saved db (v.result ∷ []) fine).0) saved)

  Good-Saved :
      (db : S) (vs : List Valid)
      → All Good vs
      → All (Saved db) (results_of vs)
      → All (λ v. Good v × Saved db v.result) vs
  Good-Saved db [] good saved = tt
  Good-Saved db (v ∷ vs) good saved = ((good.0, saved.0), Good-Saved db vs good.1 saved.1)

  after-Accounted :
      (id : Text) (db : S) (s : Stream) (vs : List Valid) (e : Option Err)
      → All Good vs
      → (e ≡ none → All (Saved db) (results_of vs))
      → Accounted id db s
      → let after = after_save calls save_selection_results db s vs e in
        Accounted id after.0 after.1
  unfolding after_save
  after-Accounted id db s vs none good saved a =
      acknowledge-Accounted id db s vs (Good-Saved db vs good (saved refl)) a
  after-Accounted id db s vs (some e) good saved a =
      elim (Bool-cases (is_retryable_selection_persistence_error (some e))) [
        | inl again ↦ rw again a
        | inr final ↦ rw final (each-Accounted id db s vs good a)
      ]

  valid-Accounted :
      (id : Text) (db : S) (s : Stream) (vs : List Valid)
      → All Good vs
      → Accounted id db s
      → let after = save_valid calls save_selection_results db s vs in Accounted id after.0 after.1
  unfolding save_valid
  valid-Accounted id db s [] good a = a
  valid-Accounted id db s (v ∷ vs) good a =
      after-Accounted id (save_selection_results db (results_of (v ∷ vs))).0 s (v ∷ vs)
        (save_selection_results db (results_of (v ∷ vs))).1 good
        (save-Saved db (results_of (v ∷ vs))) (save-Accounted id db s (results_of (v ∷ vs)) a)

  decode-Accounted :
      (id : Text) (db : S) (s : Stream) (ms : List StreamMessage)
      → All P ms
      → Accounted id db s
      → Accounted id db (decode_each calls unmarshal s ms).0
        × All Good (decode_each calls unmarshal s ms).1
  unfolding decode_each
  decode-Accounted id db s [] p a = (a, tt)
  decode-Accounted id db s (m ∷ ms) p a =
      elim (Decoded-cases (decode_selection_stream_message unmarshal m)) [
        | inl (reason, bad) ↦ rw (decode_each-undecoded calls unmarshal s m ms bad) (
            decode-Accounted id db (dead_letter calls s m reason) ms p.1
              (dead_letter-Accounted id db s m reason a))
        | inr (r, fine) ↦
            let (kept, good) = decode-Accounted id db s ms p.1 a in
            rw (decode_each-decoded calls unmarshal s m ms fine) (kept, ((fine, p.0), good))
      ]

  -- A message that the stream holds before a batch is processed is, afterwards, still in the stream, to be
  -- delivered again, or in the dead letter stream, or its result is saved. The message then is one that
  -- belongs to the batch, since what holds of every message of the batch holds of it.
  pub nothing_lost :
      (id : Text) (db : S) (s : Stream) (messages : List StreamMessage)
      → All P messages
      → is_held id s ≡ true
      → let after = process_batch calls save_selection_results unmarshal db s messages in
        Accounted id after.0 after.1
  unfolding process_batch
  nothing_lost id db s messages p h =
      let (kept, good) = decode-Accounted id db s messages p (inl h) in
      valid-Accounted id db (decode_each calls unmarshal s messages).0
        (decode_each calls unmarshal s messages).1 good kept
