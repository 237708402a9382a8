-- ===== src/Enrollment/Stream/Batch.antt =====
-- The batches of the selection stream consumer (internal/enrollment/async/selection_stream_consumer.go). A script
-- that is sent to Redis finds there what `calls` says for the ids of its messages.
use course_forge.Prelude.{Option, none, some, List, [], ◌∷◌, Text, map, if◌then◌else◌}
use course_forge.Enrollment.Errors.{Err, error_text}
use course_forge.Enrollment.Selection.{SelectionResult}
use course_forge.Enrollment.Stream.{
  Stream, StreamMessage, Call, undecoded, decoded, Unmarshalled, decode_selection_stream_message,
  acknowledge_stream_messages, dead_letter_stream_message, is_retryable_selection_persistence_error,
}

-- A message and what it decodes to.
pub record Valid : Type 0 where
  pub message : StreamMessage
  pub result : SelectionResult

abbrev pub ids_of : List Valid → List Text
ids_of vs = map (λ v. v.message.id) vs

abbrev pub results_of : List Valid → List SelectionResult
results_of vs = map (λ v. v.result) vs

module _ (calls : List Text → Call) where
  abbrev pub acknowledge : Stream → List Text → Stream
  acknowledge s ids = (acknowledge_stream_messages (calls ids) s ids).0

  abbrev pub dead_letter : Stream → StreamMessage → Text → Stream
  dead_letter s m reason = (dead_letter_stream_message (calls (m.id ∷ [])) s m reason).0

  -- One message of the loop that isolates a poisonous one, after its result is saved.
  unfoldable pub settle_one : Stream → Valid → Option Err → Stream
  settle_one s v none = acknowledge s (v.message.id ∷ [])
  settle_one s v (some e) =
      if is_retryable_selection_persistence_error (some e)
      then s
      else dead_letter s v.message (error_text e)

  -- The loop that decodes: what cannot be decoded goes to the dead letter stream.
  unfoldable pub decode_each :
      (Text → Unmarshalled) → Stream → List StreamMessage → Stream × List Valid
  unfolding decode_selection_stream_message
  decode_each unmarshal s [] = (s, [])
  decode_each unmarshal s (m ∷ ms) = elim (decode_selection_stream_message unmarshal m) [
    | undecoded reason ↦ decode_each unmarshal (dead_letter s m reason) ms
    | decoded r ↦
        let (s', vs) = decode_each unmarshal s ms in (s', record { message = m; result = r } ∷ vs)
  ]

  module _ {S : Type 0} (save_selection_results : S → List SelectionResult → S × Option Err) where
    unfoldable pub save_each : S → Stream → List Valid → S × Stream
    unfolding settle_one
    save_each db s [] = (db, s)
    save_each db s (v ∷ vs) =
        let (db', e) = save_selection_results db (v.result ∷ []) in
        save_each db' (settle_one s v e) vs

    -- What follows `SaveSelectionResults`.
    unfoldable pub after_save : S → Stream → List Valid → Option Err → S × Stream
    unfolding save_each
    after_save db s vs none = (db, acknowledge s (ids_of vs))
    after_save db s vs (some e) =
        if is_retryable_selection_persistence_error (some e) then (db, s) else save_each db s vs

    unfoldable pub save_valid : S → Stream → List Valid → S × Stream
    unfolding after_save
    save_valid db s [] = (db, s)
    save_valid db s vs =
        let (db', e) = save_selection_results db (results_of vs) in after_save db' s vs e

    unfoldable pub process_batch :
        (Text → Unmarshalled) → S → Stream → List StreamMessage → S × Stream
    unfolding save_valid decode_each
    process_batch unmarshal db s messages =
        let (s', vs) = decode_each unmarshal s messages in save_valid db s' vs
