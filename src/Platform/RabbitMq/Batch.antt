-- ===== src/Platform/RabbitMq/Batch.antt =====
-- What a consumer does with deliveries (internal/platform/rabbitmq/consumer.go): it loses none, and a batch
-- ends as its messages would one by one.
use course_forge.Prelude.{
  ℕ, suc, ◌+◌, ◌≡◌, ◌⊎◌, inl, inr, refl, ap, ◌∙◌, ◌-◌, Bool, true, not, ◌||◌, ◌&&◌, Option, none,
  some, List, [], ◌∷◌, ◌++◌, Text, is_empty, length, every, ltb, ◌==◌, arith, Bool-cases,
  Option-cases,
}
use course_forge.Prelude.Int.{pos, ltb_ℤ}
use course_forge.Platform.RabbitMq.Retry.{
  Bytes, RetryPolicy, Delivery, delivery_retry_count, not_routed, BrokerAnswer, confirms,
  wait_fails, Router, publish, publishing, retry, dead_letter, answered, after_confirm, get_elem?,
  publish_fails, gives_no_confirmation, nacks,
}
use course_forge.Platform.RabbitMq.Consumer.{
  Outcome, BatchAnswer, Surroundings, Handled, acknowledged, requeued, handle_delivery_outcome,
  succeeded, repeated, batch_outcomes, handle_each, all_acknowledged, handle_batch, route_retry,
  route_dead, put_back, after_route, settled, failed_delivery, of_outcome, invoke_batch_listener,
  bodies_of, wrong_length,
}

-- The broker has the message: it was handed a copy with the same body for a queue, and has confirmed it without a return.
pub record HandedOver (d : Delivery) (x : Surroundings) (h : Handled) : Type 0 where
  pub queue : Text
  pub copy : Delivery
  pub sent : h.sent ≡ some (queue, copy)
  pub confirmed : x.answer ≡ confirms none
  pub same_body : copy.body ≡ d.body

confirmed_sent :
    (l : List Bytes) (r : Router) (copy : Text × Delivery)
    → (after_confirm l r copy).error ≡ none
    → (l ≡ []) × ((after_confirm l r copy).sent ≡ some copy)
unfolding after_confirm
confirmed_sent [] r copy h = (refl, refl)
confirmed_sent (b ∷ l) r copy h = absurd cc

not_empty : (l : List Bytes) (b : Bytes) → l ++ b ∷ [] ≡ [] → ⊥
not_empty [] b h = cc
not_empty (c ∷ l) b h = cc

answered-safe :
    (answer : BrokerAnswer) (r : Router) (copy : Text × Delivery)
    → (answered answer r copy).error ≡ none
    → (answer ≡ confirms none) × ((answered answer r copy).sent ≡ some copy)
unfolding answered
answered-safe (confirms none) r copy h = (refl, (confirmed_sent (r.returns ++ []) r copy h).1)
answered-safe (confirms (some b)) r copy h =
    absurd (not_empty r.returns b (confirmed_sent (r.returns ++ b ∷ []) r copy h).0)
answered-safe (publish_fails e) r copy h = absurd cc
answered-safe gives_no_confirmation r copy h = absurd cc
answered-safe (wait_fails e late) r copy h = absurd cc
answered-safe nacks r copy h = absurd cc

publish-safe :
    (r : Router) (q : Text) (d : Delivery) (n : ℕ) (e : Option Bytes) (x : Surroundings)
    (h : Handled)
    → (publish r x.answer q d n e x.failed_at).error ≡ none
    → h.sent ≡ (publish r x.answer q d n e x.failed_at).sent
    → HandedOver d x h
unfolding publish publishing
publish-safe r q d n e x h none_is same =
    let (confirmed, sent) = answered-safe x.answer r (q, publishing d n e x.failed_at) none_is in
    record {
      queue = q;
      copy = publishing d n e x.failed_at;
      sent = same ∙ sent;
      confirmed = confirmed;
      same_body = refl;
    }

retry-safe :
    (r : Router) (d : Delivery) (n : ℕ) (e : Option Bytes) (x : Surroundings) (h : Handled)
    → (retry r x.answer d n e x.failed_at).error ≡ none
    → h.sent ≡ (retry r x.answer d n e x.failed_at).sent
    → HandedOver d x h
unfolding retry
retry-safe r d n e x h none_is same =
    elim (Bool-cases (n == 0 || ltb (length r.retry_queue_names) n)) [
      | inl bad ↦ absurd (ground (arith, bad))
      | inr fine ↦ elim (Option-cases (get_elem? r.retry_queue_names (n - 1))) [
        | inl missing ↦ absurd (ground (arith, fine, missing))
        | inr (q, found) ↦
            publish-safe r q d n e x h (rw (fine, found) at none_is) (rw (fine, found) at same)
      ]
    ]

route-safe :
    (router : Option Router) (d : Delivery) (n : ℕ) (e : Bytes) (x : Surroundings)
    → ((route_retry router x.answer d n e x.failed_at).settlement ≡ requeued)
      ⊎ HandedOver d x (route_retry router x.answer d n e x.failed_at)
unfolding route_retry put_back after_route settled
route-safe none d n e x = inl refl
route-safe (some r) d n e x =
    elim (Option-cases (retry r x.answer d n (some e) x.failed_at).error) [
      | inl fine ↦ inr (retry-safe r d n (some e) x _ fine refl)
      | inr (why, failed) ↦ inl (rw failed refl)
    ]

bury-safe :
    (router : Option Router) (d : Delivery) (e : Bytes) (x : Surroundings)
    → ((route_dead router x.answer d e x.failed_at).settlement ≡ requeued)
      ⊎ HandedOver d x (route_dead router x.answer d e x.failed_at)
unfolding route_dead put_back after_route settled dead_letter
bury-safe none d e x = inl refl
bury-safe (some r) d e x =
    elim (Option-cases
      (publish r x.answer r.dead_letter_queue d (delivery_retry_count d) (some e)
        x.failed_at).error) [
          | inl fine ↦
              inr (
                publish-safe r r.dead_letter_queue d (delivery_retry_count d) (some e) x _ fine
                  refl)
          | inr (why, failed) ↦ inl (rw failed refl)
        ]

failed-safe :
    (p : RetryPolicy) (router : Option Router) (d : Delivery) (may_retry : Bool) (e : Bytes)
    (x : Surroundings)
    → ((failed_delivery p router d may_retry e x).settlement ≡ requeued)
      ⊎ HandedOver d x (failed_delivery p router d may_retry e x)
unfolding failed_delivery
failed-safe p router d may_retry e x =
    elim (Bool-cases (may_retry && ltb_ℤ (pos (delivery_retry_count d)) p.max_retries)) [
      | inl again ↦ rw again (route-safe router d (delivery_retry_count d + 1) e x)
      | inr over ↦ rw over (bury-safe router d e x)
    ]

of_outcome-safe :
    (err : Option Bytes) (p : RetryPolicy) (router : Option Router) (d : Delivery)
    (may_retry : Bool) (x : Surroundings)
    → ((of_outcome err p router d may_retry x).settlement ≡ acknowledged)
    → (err ≡ none) ⊎ HandedOver d x (of_outcome err p router d may_retry x)
unfolding of_outcome
of_outcome-safe none p router d may_retry x h = inl refl
of_outcome-safe (some e) p router d may_retry x h = elim (failed-safe p router d may_retry e x) [
  | inl back ↦ absurd cc
  | inr over ↦ inr over
]

-- A delivery that is acknowledged was taken by its listener, or the broker has confirmed a copy of it with
-- the same body: no message is lost.
pub acknowledged_safe :
    (p : RetryPolicy) (router : Option Router) (d : Delivery) (o : Outcome) (x : Surroundings)
    → (handle_delivery_outcome p router d o x).settlement ≡ acknowledged
    → (o.err ≡ none) ⊎ HandedOver d x (handle_delivery_outcome p router d o x)
unfolding handle_delivery_outcome
acknowledged_safe p router d o x h = of_outcome-safe o.err p router d o.retry x h

length-repeated : (o : Outcome) (ds : List Delivery) → length (repeated o ds) ≡ length ds
unfolding repeated
length-repeated o [] = refl
length-repeated o (d ∷ ds) = omega (arith, length-repeated o ds)

length-batch_outcomes :
    (listener : List Bytes → BatchAnswer) (ds : List Delivery)
    → length (batch_outcomes listener ds) ≡ length ds
unfolding batch_outcomes
length-batch_outcomes listener ds =
    let outcomes = invoke_batch_listener (listener (bodies_of ds)) ds in
    elim (Bool-cases (length outcomes == length ds)) [
      | inl same ↦ rw same (ground (arith, same))
      | inr wrong ↦ rw wrong (
          length-repeated
            (record { retry = true; err = some (wrong_length (length outcomes) (length ds)) }) ds)
    ]

each_succeeded :
    (p : RetryPolicy) (router : Option Router) (ds : List Delivery) (os : List Outcome)
    (x : ℕ → Surroundings)
    → length os ≡ length ds
    → every succeeded os ≡ true
    → all_acknowledged router ds ≡ handle_each p router ds os x
unfolding all_acknowledged handle_each handle_delivery_outcome of_outcome succeeded
each_succeeded p router [] os x n h = refl
each_succeeded p router (d ∷ ds) [] x n h = absurd (omega arith)
each_succeeded p router (d ∷ ds) (o ∷ os) x n h = elim (Option-cases o.err) [
  | inl fine ↦ rw fine (
      ap (λ l. record { router = router; settlement = acknowledged; sent = none } ∷ l)
        (each_succeeded p router ds os (λ k. x (suc k)) (omega arith) (ground arith)))
  | inr (e, failed) ↦ absurd (ground arith)
]

-- Whatever the listener of a batch answers, the batch ends as its deliveries would if each were handled
-- on its own with the outcome that counts for it: the single acknowledgement of a batch in which all
-- succeeded settles the same deliveries.
pub handle_batch-each :
    (listener : List Bytes → BatchAnswer) (p : RetryPolicy) (router : Option Router)
    (ds : List Delivery) (x : ℕ → Surroundings)
    → handle_batch listener p router ds x ≡ handle_each p router ds (batch_outcomes listener ds) x
unfolding handle_batch
handle_batch-each listener p router ds x =
    elim (Bool-cases (not (is_empty ds) && every succeeded (batch_outcomes listener ds))) [
      | inl all ↦ rw all (
          each_succeeded p router ds (batch_outcomes listener ds) x
            (length-batch_outcomes listener ds) (ground (arith, all)))
      | inr some_failed ↦ rw some_failed refl
    ]

-- Where waiting for the confirmation of one message fails and its return comes later, the next message is
-- reported as not routed although the broker has confirmed it and returned nothing.
pub stale_return_blamed :
    (r : Router) (q q' : Text) (d d' : Delivery) (n n' : ℕ) (e e' : Option Bytes) (why late : Bytes)
    (t t' : Text)
    → r.returns ≡ []
    → let first = publish r (wait_fails why (some late)) q d n e t in
      let second = publish first.router (confirms none) q' d' n' e' t' in
      (second.error ≡ some (not_routed late)) × (second.sent ≡ some (q', publishing d' n' e' t'))
unfolding publish answered
stale_return_blamed r q q' d d' n n' e e' why late t t' h = rw h (ground arith)
