-- ===== src/Platform/RabbitMq/Publisher.antt =====
-- internal/platform/rabbitmq/rabbitmq_publisher.go: publishing one message on a channel of the pool. What
-- `encoding/json`, the context and the broker answer to one call is a record of the caller's.
use course_forge.Prelude.{
  Bool, false, not, ◌||◌, Option, none, some, List, [], ◌∷◌, ◌++◌, Text, codes, text_eq,
  if◌then◌else◌,
}
use course_forge.Platform.Outbox.Dispatcher.{Attempt, confirmed, refused, unconfirmed}

-- `amqpPublisherSlot`: the exchanges that it has declared, and the returned messages' replies that the broker
-- has sent on its channel and nobody has read.
pub record AmqpPublisherSlot : Type 0 where
  pub declared_exchanges : List Text
  pub returns : List Text

-- Answers to one call, each an error if there is one: `json.Marshal`, the wait for a channel of the pool,
-- `ExchangeDeclare`, `PublishWithDeferredConfirmWithContext` and `WaitContext`; then whether the broker acks,
-- and its reply when it returns the message.
pub record Answers : Type 0 where
  pub marshal : Option Text
  pub pool : Option Text
  pub declare : Option Text
  pub publish : Option Text
  pub wait : Option Text
  pub acked : Bool
  pub returned : Option Text

unfoldable pub is_declared : Text → List Text → Bool
is_declared topic [] = false
is_declared topic (t ∷ ts) = text_eq t topic || is_declared topic ts

-- The returns of a channel with the one of this message.
abbrev pub with_return : AmqpPublisherSlot → Option Text → AmqpPublisherSlot
with_return s none = s
with_return s (some reply) = record s { returns = s.returns ++ reply ∷ [] }

-- After the confirmation: the first return that waits is taken for this message's.
unfoldable pub after_confirm : AmqpPublisherSlot → AmqpPublisherSlot × Attempt
after_confirm s = elim s.returns [
  | [] ↦ (s, confirmed)
  | reply ∷ later ↦ (record s { returns = later }, unconfirmed reply)
]

-- After the message has been written to the channel.
unfoldable pub after_write : AmqpPublisherSlot → Answers → AmqpPublisherSlot × Attempt
unfolding after_confirm
after_write s a = elim a.wait [
  | some e ↦ (s, unconfirmed e)
  | none ↦
      if not a.acked
      then (s, unconfirmed (codes "RabbitMQ publisher confirm nack"))
      else after_confirm s
]

unfoldable pub publish_declared : AmqpPublisherSlot → Answers → AmqpPublisherSlot × Attempt
unfolding after_write
publish_declared s a = elim a.publish [
  | some e ↦ (s, refused e)
  | none ↦ after_write (with_return s a.returned) a
]

-- `publish` of the slot.
unfoldable pub publish_on : AmqpPublisherSlot → Text → Answers → AmqpPublisherSlot × Attempt
unfolding is_declared publish_declared
publish_on s topic a =
    if is_declared topic s.declared_exchanges then publish_declared s a else elim a.declare [
      | some e ↦ (s, refused e)
      | none ↦ publish_declared (record s { declared_exchanges = topic ∷ s.declared_exchanges }) a
    ]

-- `Publish`, on the slot that the pool gives.
unfoldable pub publish : AmqpPublisherSlot → Text → Answers → AmqpPublisherSlot × Attempt
unfolding publish_on
publish s topic a = elim a.marshal [
  | some e ↦ (s, refused e)
  | none ↦ elim a.pool [ some e ↦ (s, refused e) | none ↦ publish_on s topic a ]
]
