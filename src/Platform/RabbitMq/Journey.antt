-- ===== src/Platform/RabbitMq/Journey.antt =====
-- The way of a message that keeps failing (internal/platform/rabbitmq/retry.go, consumer.go): through its
-- retry queues and back, until a listener takes it or it is in the dead-letter queue.
use course_forge.Prelude.{
  ℕ, zero, suc, ◌+◌, ◌<◌, ◌≡◌, inl, inr, refl, true, false, ◌&&◌, Option, none, some, List, [], ◌∷◌,
  ◌++◌, Text, codes, text_eq, text_eq_refl, text_eq_sound, length, if◌then◌else◌, arith, Bool-cases,
  Option-cases,
}
use course_forge.Prelude.Int.{pos, pos_part, ltb_ℤ, wrap32}
use course_forge.Platform.RabbitMq.Retry.{
  Bytes, RetryPolicy, Delivery, HeaderValue, integer, string, message, get_header, set_header,
  delivery_retry_count, publishing, retry_count_header, retry_error_header, failed_at_header,
  get_elem?, retry_queue_name, dead_letter_queue_name, Router, confirms, publish, retry,
  dead_letter, declare_failure_topology, declare_retry_queues, retry_queues, queue_names, decimal,
  truncate_error,
}
use course_forge.Platform.RabbitMq.Consumer.{Outcome, handle_delivery_outcome, succeeded}

-- Where a message is after its listener was called some times, with the copy that is there.
pub data Fate : Type 0 where
  taken : Fate
  dead : Delivery → Fate
  queued : Delivery → Fate

sent_to :
    Option (Text × Delivery) → Text → Delivery → (Delivery → Delivery) → (Delivery → Fate) → Fate
sent_to none dlq d redelivered again = again d
sent_to (some (queue, copy)) dlq d redelivered again =
    if text_eq queue dlq then dead copy else again (redelivered copy)

-- The broker confirms every publication, and hands a copy in a retry queue back when its time is over.
unfoldable pub journey :
    RetryPolicy → Router → (Delivery → Delivery) → Text → List Outcome → Delivery → Fate
unfolding sent_to handle_delivery_outcome succeeded
journey p r redelivered failed_at [] d = queued d
journey p r redelivered failed_at (o ∷ os) d =
    let again = journey p r redelivered failed_at os in
    let h =
      handle_delivery_outcome p (some r) d o
        (record { answer = confirms none; failed_at = failed_at }) in
    if succeeded o then taken else sent_to h.sent r.dead_letter_queue d redelivered again

get-set_same :
    (k : Text) (v : HeaderValue) (h : List (Text × HeaderValue))
    → get_header k (set_header k v h) ≡ some v
unfolding get_header set_header
get-set_same k v [] = ground (arith, text_eq_refl k)
get-set_same k v ((j, w) ∷ h) = ground (arith, text_eq_refl k, get-set_same k v h)

get-set_other :
    (k j : Text) (v : HeaderValue) (h : List (Text × HeaderValue))
    → text_eq j k ≡ false
    → get_header k (set_header j v h) ≡ get_header k h
unfolding get_header set_header
get-set_other k j v [] e = ground arith
get-set_other k j v ((i, w) ∷ h) e = elim (Bool-cases (text_eq i j)) [
  | inl same ↦ let i_is : i ≡ j = text_eq_sound i j same in rw (i_is, text_eq_refl j, e) refl
  | inr other ↦ rw other (ground (arith, get-set_other k j v h e))
]

text_eq-cancel : (t a b : Text) → text_eq (t ++ a) (t ++ b) ≡ text_eq a b
unfolding text_eq
text_eq-cancel [] a b = refl
text_eq-cancel (c ∷ t) a b = ground (arith, text_eq-cancel t a b)

retry_queue-not_dead :
    (topic : Text) (n : ℕ)
    → text_eq (retry_queue_name topic n) (dead_letter_queue_name topic) ≡ false
unfolding retry_queue_name dead_letter_queue_name text_eq
retry_queue-not_dead topic n =
    text_eq-cancel topic (codes "_retry_" ++ (decimal n ++ codes "_queue")) (codes "_dlq")

headers_differ :
    (text_eq failed_at_header retry_count_header ≡ false)
    × (text_eq retry_error_header retry_count_header ≡ false)
unfolding text_eq
headers_differ = (refl, refl)

published_count :
    (d : Delivery) (n : ℕ) (e : Option Bytes) (t : Text)
    → n < 2_147_483_648
    → delivery_retry_count (publishing d n e t) ≡ n
unfolding delivery_retry_count publishing wrap32
published_count d n e t small =
    rw
      (
        get-set_other retry_count_header failed_at_header (string t) _ headers_differ.0,
        get-set_other retry_count_header retry_error_header (message (truncate_error e)) _
            headers_differ.1,
        get-set_same retry_count_header (integer (wrap32 (pos n))) d.headers,
      )
      (ground arith)

length-queue_names :
    (n k : ℕ) (topic : Text) (p : RetryPolicy) → length (queue_names (retry_queues n k topic p)) ≡ n
unfolding queue_names retry_queues
length-queue_names zero k topic p = refl
length-queue_names (suc n) k topic p = omega (arith, length-queue_names n (suc k) topic p)

queue_name_at :
    (n k i : ℕ) (topic : Text) (p : RetryPolicy)
    → i < n
    → get_elem? (queue_names (retry_queues n k topic p)) i ≡ some (retry_queue_name topic (k + i))
unfolding queue_names retry_queues get_elem?
queue_name_at zero k i topic p h = absurd (omega arith)
queue_name_at (suc n) k zero topic p h = ground arith
queue_name_at (suc n) k (suc i) topic p h =
    let e : suc k + i ≡ k + suc i = omega arith in
    rw e at (queue_name_at n (suc k) i topic p (omega arith))

-- What is sent when a message is to be retried, with the queues that the policy declares.
retry_sends :
    (topic : Text) (p : RetryPolicy) (d : Delivery) (n : ℕ) (e : Option Bytes) (t : Text)
    → n < pos_part p.max_retries
    → (retry (declare_failure_topology topic p) (confirms none) d (suc n) e t).sent
      ≡ some (retry_queue_name topic (suc n), publishing d (suc n) e t)
unfolding retry publish declare_failure_topology declare_retry_queues
retry_sends topic p d n e t h =
    let len = length-queue_names (pos_part p.max_retries) 1 topic p in
    let name = queue_name_at (pos_part p.max_retries) 1 n topic p h in ground (arith, len, name)

-- Nothing more happens to the message.
abbrev pub IsOver : Fate → Type 0
IsOver taken = Unit
IsOver (dead d) = Unit
IsOver (queued d) = ⊥

retried :
    (topic : Text) (p : RetryPolicy) (d : Delivery) (o : Outcome) (e : Bytes) (t : Text)
    → o.err ≡ some e
    → o.retry ≡ true
    → delivery_retry_count d < pos_part p.max_retries
    → (handle_delivery_outcome p
        (some (declare_failure_topology topic p))
        d
        o
        (record { answer = confirms none; failed_at = t })).sent
      ≡ some (
        retry_queue_name topic (suc (delivery_retry_count d)),
        publishing d (suc (delivery_retry_count d)) (some e) t,
      )
unfolding handle_delivery_outcome
retried topic p d o e t oe r h =
    ground (arith, retry_sends topic p d (delivery_retry_count d) (some e) t h)

buried :
    (topic : Text) (p : RetryPolicy) (d : Delivery) (o : Outcome) (e : Bytes) (t : Text)
    → o.err ≡ some e
    → (o.retry && ltb_ℤ (pos (delivery_retry_count d)) p.max_retries) ≡ false
    → (handle_delivery_outcome p
        (some (declare_failure_topology topic p))
        d
        o
        (record { answer = confirms none; failed_at = t })).sent
      ≡ some (dead_letter_queue_name topic, publishing d (delivery_retry_count d) (some e) t)
unfolding handle_delivery_outcome dead_letter publish declare_failure_topology
buried topic p d o e t oe h = ground arith

dead_letter_queue_is :
    (topic : Text) (p : RetryPolicy)
    → (declare_failure_topology topic p).dead_letter_queue ≡ dead_letter_queue_name topic
unfolding declare_failure_topology
dead_letter_queue_is topic p = refl

not_succeeded : (o : Outcome) {e : Bytes} → o.err ≡ some e → succeeded o ≡ false
unfolding succeeded
not_succeeded o h = rw h refl

-- A message is not retried for ever. Where the broker confirms what is sent to it and hands back a message
-- with its retry count, once the listener was called more often than the policy has retries left for the
-- message, it has taken the message or the message is in the dead-letter queue.
pub journey_ends :
    (topic : Text) (p : RetryPolicy) (redelivered : Delivery → Delivery) (t : Text)
    (os : List Outcome) (d : Delivery)
    → ((c : Delivery) → delivery_retry_count (redelivered c) ≡ delivery_retry_count c)
    → pos_part p.max_retries < 2_147_483_648
    → pos_part p.max_retries < delivery_retry_count d + length os
    → 0 < length os
    → IsOver (journey p (declare_failure_topology topic p) redelivered t os d)
unfolding journey
journey_ends topic p redelivered t [] d keeps small enough some_call = absurd (omega arith)
journey_ends topic p redelivered t (o ∷ os) d keeps small enough some_call =
    elim (Option-cases o.err) [
      | inl fine ↦ ground arith
      | inr (e, failed) ↦
          elim (Bool-cases (o.retry && ltb_ℤ (pos (delivery_retry_count d)) p.max_retries)) [
            | inl again ↦
                let below : delivery_retry_count d < pos_part p.max_retries = ground arith in
                let next = suc (delivery_retry_count d) in
                let counted = published_count d next (some e) t (omega arith) in
                let kept = keeps (publishing d next (some e) t) in
                rw
                  (
                    not_succeeded o failed,
                    retried topic p d o e t failed (ground arith) below,
                    dead_letter_queue_is topic p,
                    retry_queue-not_dead topic next,
                  )
                  (journey_ends topic p redelivered t os
                    (redelivered (publishing d next (some e) t)) keeps small (omega arith)
                    (omega arith))
            | inr no_more ↦
                rw
                  (
                    not_succeeded o failed,
                    buried topic p d o e t failed no_more,
                    dead_letter_queue_is topic p,
                    text_eq_refl (dead_letter_queue_name topic),
                  )
                  tt
          ]
    ]
