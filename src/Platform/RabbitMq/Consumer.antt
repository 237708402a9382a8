-- ===== src/Platform/RabbitMq/Consumer.antt =====
-- internal/platform/rabbitmq/consumer.go: what becomes of a delivery once its listener has answered. The
-- listener is a parameter, its panics are answers of their own; times and metrics are left out.
use course_forge.Prelude.{
  ℕ, suc, ◌+◌, Bool, true, false, not, ◌&&◌, Option, none, some, List, [], ◌∷◌, Text, codes, ◌++◌,
  is_empty, length, every, ◌==◌, if◌then◌else◌,
}
use course_forge.Prelude.Int.{pos, ltb_ℤ}
use course_forge.Platform.RabbitMq.Retry.{
  Bytes, RetryPolicy, Delivery, delivery_retry_count, RouteError, BrokerAnswer, Router, Routed,
  retry, dead_letter, decimal,
}

-- `Ack(false)` and `Nack(false, true)`.
pub data Settlement : Type 0 where
  acknowledged requeued : Settlement

pub record Handled : Type 0 where
  pub router : Option Router
  pub settlement : Settlement
  pub sent : Option (Text × Delivery)

-- A routing that succeeded lets the original go, any other puts it back.
unfoldable pub settled : Option RouteError → Settlement
settled none = acknowledged
settled (some e) = requeued

unfoldable pub after_route : Routed → Handled
unfolding settled
after_route r = record { router = some r.router; settlement = settled r.error; sent = r.sent }

unfoldable pub put_back : Handled
put_back = record { router = none; settlement = requeued; sent = none }

unfoldable pub route_retry : Option Router → BrokerAnswer → Delivery → ℕ → Bytes → Text → Handled
unfolding after_route put_back retry
route_retry none answer d number e failed_at = put_back
route_retry (some r) answer d number e failed_at =
    after_route (retry r answer d number (some e) failed_at)

unfoldable pub route_dead : Option Router → BrokerAnswer → Delivery → Bytes → Text → Handled
unfolding after_route put_back dead_letter
route_dead none answer d e failed_at = put_back
route_dead (some r) answer d e failed_at = after_route (dead_letter r answer d (some e) failed_at)

-- `BatchOutcome`: what a listener answers for one message.
pub record Outcome : Type 0 where
  pub retry : Bool
  pub err : Option Bytes

-- What the broker answers if a message is routed, and the time then.
pub record Surroundings : Type 0 where
  pub answer : BrokerAnswer
  pub failed_at : Text

unfoldable pub failed_delivery :
    RetryPolicy → Option Router → Delivery → Bool → Bytes → Surroundings → Handled
unfolding route_retry route_dead delivery_retry_count
failed_delivery p router d may_retry e x =
    if may_retry && ltb_ℤ (pos (delivery_retry_count d)) p.max_retries
    then route_retry router x.answer d (delivery_retry_count d + 1) e x.failed_at
    else route_dead router x.answer d e x.failed_at

unfoldable pub of_outcome :
    Option Bytes → RetryPolicy → Option Router → Delivery → Bool → Surroundings → Handled
unfolding failed_delivery
of_outcome none p router d may_retry x = record {
  router = router;
  settlement = acknowledged;
  sent = none;
}
of_outcome (some e) p router d may_retry x = failed_delivery p router d may_retry e x

unfoldable pub handle_delivery_outcome :
    RetryPolicy → Option Router → Delivery → Outcome → Surroundings → Handled
unfolding of_outcome
handle_delivery_outcome p router d o x = of_outcome o.err p router d o.retry x

-- `Handle` returns, or panics with a value of which the message is made.
pub data Answer : Type 0 where
  returns : Outcome → Answer
  panics : Bytes → Answer

unfoldable pub invoke_listener : Answer → Outcome
invoke_listener (returns o) = o
invoke_listener (panics v) = record {
  retry = true;
  err = some (codes "RabbitMQ listener panic: " ++ v);
}

unfoldable pub handle_delivery :
    (Bytes → Answer) → RetryPolicy → Option Router → Delivery → Surroundings → Handled
unfolding handle_delivery_outcome invoke_listener
handle_delivery listener p router d x =
    handle_delivery_outcome p router d (invoke_listener (listener d.body)) x

-- `HandleBatch` returns, or panics.
pub data BatchAnswer : Type 0 where
  returns_all : List Outcome → BatchAnswer
  panics_in_batch : Bytes → BatchAnswer

unfoldable pub bodies_of : List Delivery → List Bytes
bodies_of [] = []
bodies_of (d ∷ ds) = d.body ∷ bodies_of ds

-- `make([]BatchOutcome, n)` filled with one outcome.
unfoldable pub repeated : Outcome → List Delivery → List Outcome
repeated o [] = []
repeated o (d ∷ ds) = o ∷ repeated o ds

unfoldable pub invoke_batch_listener : BatchAnswer → List Delivery → List Outcome
unfolding repeated
invoke_batch_listener (returns_all outcomes) ds = outcomes
invoke_batch_listener (panics_in_batch v) ds =
    repeated (record { retry = true; err = some (codes "RabbitMQ batch listener panic: " ++ v) }) ds

unfoldable pub wrong_length : ℕ → ℕ → Bytes
unfolding decimal
wrong_length got wanted =
    codes "RabbitMQ batch listener returned "
    ++ decimal got
    ++ codes " outcomes for "
    ++ decimal wanted
    ++ codes " messages"

-- The outcomes that count, one for each delivery.
unfoldable pub batch_outcomes : (List Bytes → BatchAnswer) → List Delivery → List Outcome
unfolding invoke_batch_listener wrong_length repeated bodies_of
batch_outcomes listener ds =
    let outcomes = invoke_batch_listener (listener (bodies_of ds)) ds in
    if not (length outcomes == length ds)
    then repeated (record { retry = true; err = some (wrong_length (length outcomes) (length ds)) })
        ds
    else outcomes

unfoldable pub succeeded : Outcome → Bool
succeeded o = elim o.err [ none ↦ true | some e ↦ false ]

-- The loop over the deliveries of a batch that did not succeed as a whole. The router is passed on, and
-- each delivery has surroundings of its own.
unfoldable pub handle_each :
    RetryPolicy → Option Router → List Delivery → List Outcome → (ℕ → Surroundings) → List Handled
unfolding handle_delivery_outcome
handle_each p router (d ∷ ds) (o ∷ os) x =
    let h = handle_delivery_outcome p router d o (x 0) in
    h ∷ handle_each p h.router ds os (λ n. x (suc n))
handle_each p router ds os x = []

-- `Ack(true)` on the last delivery acknowledges all of them, the earlier batches being settled.
unfoldable pub all_acknowledged : Option Router → List Delivery → List Handled
all_acknowledged router [] = []
all_acknowledged router (d ∷ ds) =
    record { router = router; settlement = acknowledged; sent = none } ∷ all_acknowledged router ds

unfoldable pub handle_batch :
    (List Bytes → BatchAnswer)
    → RetryPolicy
    → Option Router
    → List Delivery
    → (ℕ → Surroundings)
    → List Handled
unfolding batch_outcomes succeeded handle_each all_acknowledged
handle_batch listener p router ds x =
    let outcomes = batch_outcomes listener ds in
    if not (is_empty ds) && every succeeded outcomes
    then all_acknowledged router ds
    else handle_each p router ds outcomes x
