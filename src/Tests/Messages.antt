-- ===== src/Tests/Messages.antt =====
-- The theorems on RabbitMQ deliveries, at one delivery.
use course_forge.Prelude.{
  ◌≡◌, ◌⊎◌, refl, none, some, List, [], ◌∷◌, Text, codes, arith, true, false,
}
use course_forge.Prelude.Int.{pos}
use course_forge.Platform.RabbitMq.Retry.{
  RetryPolicy, Delivery, confirms, wait_fails, Router, not_routed, publish, publishing,
  declare_failure_topology,
}
use course_forge.Platform.RabbitMq.Consumer.{
  Outcome, BatchAnswer, returns_all, Surroundings, acknowledged, handle_delivery_outcome,
  handle_batch, handle_each, batch_outcomes,
}
use course_forge.Platform.RabbitMq.Journey.{IsOver, journey, journey_ends}
use course_forge.Platform.RabbitMq.Batch.{
  HandedOver, acknowledged_safe, handle_batch-each, stale_return_blamed,
}

abbrev policy : RetryPolicy
policy = record { max_retries = pos 2; delays = pos 1_000_000_000 ∷ pos 5_000_000_000 ∷ [] }

abbrev delivery : Delivery
delivery = record {
  headers = [];
  content_type = codes "application/json";
  content_encoding = [];
  priority = 0;
  correlation_id = [];
  reply_to = [];
  message_id = codes "m1";
  timestamp = 7;
  type = [];
  app_id = [];
  body = 123 ∷ 125 ∷ [];
}

abbrev refused : Outcome
refused = record { retry = true; err = some (codes "boom") }

abbrev taken : Outcome
taken = record { retry = false; err = none }

abbrev router : Router
router = declare_failure_topology (codes "t") policy

abbrev confirming : Surroundings
confirming = record { answer = confirms none; failed_at = codes "12:00" }

journey_ends_example : IsOver (
    journey policy
      (declare_failure_topology (codes "t") policy)
      (λ c. c)
      (codes "12:00")
      (refused ∷ refused ∷ refused ∷ [])
      delivery)
journey_ends_example =
    journey_ends (codes "t") policy (λ c. c) (codes "12:00") (refused ∷ refused ∷ refused ∷ [])
      delivery (λ c. refl) (omega arith) (ground arith) (omega arith)

is_acknowledged :
    (handle_delivery_outcome policy (some router) delivery refused confirming).settlement
    ≡ acknowledged
unfolding handle_delivery_outcome declare_failure_topology
is_acknowledged = refl

acknowledged_safe_example :
    (refused.err ≡ none)
    ⊎ HandedOver delivery confirming
        (handle_delivery_outcome policy (some router) delivery refused confirming)
acknowledged_safe_example =
    acknowledged_safe policy (some router) delivery refused confirming is_acknowledged

abbrev half_taken : List Text → BatchAnswer
half_taken bodies = returns_all (taken ∷ refused ∷ [])

handle_batch-each_example :
    handle_batch half_taken policy (some router) (delivery ∷ delivery ∷ []) (λ n. confirming)
    ≡ handle_each policy
        (some router)
        (delivery ∷ delivery ∷ [])
        (batch_outcomes half_taken (delivery ∷ delivery ∷ []))
        (λ n. confirming)
handle_batch-each_example =
    handle_batch-each half_taken policy (some router) (delivery ∷ delivery ∷ []) (λ n. confirming)

no_returns : router.returns ≡ []
unfolding declare_failure_topology
no_returns = refl

stale_return_blamed_example :
    let first =
      publish router
        (wait_fails (codes "timeout") (some (codes "first")))
        (codes "q")
        delivery
        1
        none
        [] in
    let second = publish first.router (confirms none) (codes "q") delivery 2 none [] in
    (second.error ≡ some (not_routed (codes "first")))
    × (second.sent ≡ some (codes "q", publishing delivery 2 none []))
stale_return_blamed_example =
    stale_return_blamed router (codes "q") (codes "q") delivery delivery 1 2 none none
      (codes "timeout") (codes "first") [] [] no_returns
