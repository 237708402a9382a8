-- ===== src/Enrollment/Stream/Worker.antt =====
-- internal/enrollment/async/selection_stream_consumer.go: the configuration of the selection stream consumer, and
-- how a worker reads. The answers of Redis and the clock are parameters: each read has a number, and is told how
-- many messages it may return. A batch size is positive once the configuration is normalized.
use course_forge.Prelude.{
  ℕ, zero, suc, ◌+◌, ◌-◌, ◌≤◌, ◌<◌, ◌≡◌, ◌⊎◌, inl, inr, refl, Bool, true, false, not, ◌||◌, Option,
  none, some, List, [], ◌∷◌, ◌++◌, Text, codes, length, length-append, is_empty, ltb, if◌then◌else◌,
  arith, Bool-cases,
}
use course_forge.Prelude.Int.{ℤ, pos, is_pos}
use course_forge.Enrollment.Errors.{Err}
use course_forge.Enrollment.Stream.{StreamMessage}
use course_forge.Platform.RabbitMq.Retry.{decimal}

pub record SelectionStreamConsumerConfig : Type 0 where
  pub group : Text
  pub consumer_base : Text
  pub concurrency : ℤ
  pub batch_size : ℤ
  pub batch_wait : ℤ
  pub block_timeout : ℤ
  pub claim_idle : ℤ
  pub dead_letter : Text

abbrev default_selection_stream_dead_letter_key : Text
default_selection_stream_dead_letter_key = codes "courseforge:selection:result:stream:dlq"

abbrev or_text : Text → Text → Text
or_text t default = if is_empty t then default else t

abbrev or_positive : ℤ → ℕ → ℤ
or_positive n default = if is_pos n then n else pos default

-- `os.Hostname`, `none` for an error.
abbrev host_of : Option Text → Text
host_of none = codes "unknown-host"
host_of (some t) = or_text t (codes "unknown-host")

-- Durations in nanoseconds.
unfoldable pub normalized :
    Option Text → ℕ → SelectionStreamConsumerConfig → SelectionStreamConsumerConfig
unfolding decimal
normalized hostname pid c = record {
  group = or_text c.group (codes "courseforge-selection-persistence");
  consumer_base =
      or_text c.consumer_base (codes "api")
      ++ (codes "-" ++ (host_of hostname ++ (codes "-" ++ decimal pid)));
  concurrency = or_positive c.concurrency 2;
  batch_size = or_positive c.batch_size 200;
  batch_wait = or_positive c.batch_wait 10_000_000;
  block_timeout = or_positive c.block_timeout 1_000_000_000;
  claim_idle = or_positive c.claim_idle 30_000_000_000;
  dead_letter = or_text c.dead_letter default_selection_stream_dead_letter_key;
}

pub data ReadAnswer : Type 0 where
  read_failed : Err → ReadAnswer
  read_some : List StreamMessage → ReadAnswer

module _ (batch_size : ℕ) (reads : ℕ → ℕ → ReadAnswer) (is_late : ℕ → Bool) where
  -- The loop until the deadline, behind the read of a number. Every round but the last brings a message.
  unfoldable pub read_more : ℕ → ℕ → List StreamMessage → List StreamMessage × Option Err
  read_more zero n messages = (messages, none)
  read_more (suc fuel) n messages =
      if not (ltb (length messages) batch_size) || is_late n
      then (messages, none)
      else elim (reads n (batch_size - length messages)) [
        | read_failed e ↦ (messages, some e)
        | read_some more ↦
            if is_empty more then (messages, none) else read_more fuel (suc n) (messages ++ more)
      ]

  -- What follows the first read.
  unfoldable pub after_first : ReadAnswer → List StreamMessage × Option Err
  unfolding read_more
  after_first (read_failed e) = ([], some e)
  after_first (read_some messages) =
      if is_empty messages || not (ltb (length messages) batch_size)
      then (messages, none)
      else read_more batch_size 1 messages

  unfoldable pub read_new_batch : List StreamMessage × Option Err
  unfolding after_first
  read_new_batch = after_first (reads 0 batch_size)

Answer-cases :
    (a : ReadAnswer)
    → ((e : Err) × (a ≡ read_failed e)) ⊎ ((ms : List StreamMessage) × (a ≡ read_some ms))
Answer-cases (read_failed e) = inl (e, refl)
Answer-cases (read_some ms) = inr (ms, refl)

grown :
    (messages more : List StreamMessage)
    → is_empty more ≡ false
    → length messages < length (messages ++ more)
grown messages [] h = absurd cc
grown messages (m ∷ more) h = omega (arith, length-append messages (m ∷ more))

-- Rounds beyond those that fill the batch change nothing.
enough_rounds :
    (batch_size : ℕ) (reads : ℕ → ℕ → ReadAnswer) (is_late : ℕ → Bool) (fuel n : ℕ)
    (messages : List StreamMessage)
    → batch_size ≤ fuel + length messages
    → read_more batch_size reads is_late (suc fuel) n messages
      ≡ read_more batch_size reads is_late fuel n messages
unfolding read_more
enough_rounds batch_size reads is_late zero n messages h =
    let full : (not (ltb (length messages) batch_size) || is_late n) ≡ true = ground (arith, h) in
    rw full refl
enough_rounds batch_size reads is_late (suc fuel) n messages h =
    elim (Bool-cases (not (ltb (length messages) batch_size) || is_late n)) [
      | inl over ↦ rw over refl
      | inr goes_on ↦ rw goes_on (elim (Answer-cases (reads n (batch_size - length messages))) [
        | inl (e, failed) ↦ rw (failed, read_more) refl
        | inr (more, answered) ↦ elim (Bool-cases (is_empty more)) [
          | inl nothing ↦ rw (answered, nothing, read_more) refl
          | inr something ↦
              rw (answered, something, read_more)
                (enough_rounds batch_size reads is_late fuel (suc n) (messages ++ more)
                  (omega (arith, h, grown messages more something)))
        ]
      ])
    ]

module _ (batch_size : ℕ) (reads : ℕ → ℕ → ReadAnswer) (is_late : ℕ → Bool)
    (counted : (n count : ℕ) (messages : List StreamMessage)
      → reads n count ≡ read_some messages
      → length messages ≤ count) where
  read_more_bound :
      (fuel n : ℕ) (messages : List StreamMessage)
      → length messages ≤ batch_size
      → length (read_more batch_size reads is_late fuel n messages).0 ≤ batch_size
  unfolding read_more
  read_more_bound zero n messages h = h
  read_more_bound (suc fuel) n messages h =
      elim (Bool-cases (not (ltb (length messages) batch_size) || is_late n)) [
        | inl over ↦ rw over h
        | inr goes_on ↦ rw goes_on (elim (Answer-cases (reads n (batch_size - length messages))) [
          | inl (e, failed) ↦ rw (failed, read_more) h
          | inr (more, answered) ↦ elim (Bool-cases (is_empty more)) [
            | inl nothing ↦ rw (answered, nothing, read_more) h
            | inr something ↦
                let few = counted n (batch_size - length messages) more answered in
                rw (answered, something, read_more)
                  (read_more_bound fuel (suc n) (messages ++ more)
                    (omega (arith, h, few, length-append messages more)))
          ]
        ])
      ]

  first_bound :
      (a : ReadAnswer)
      → ((messages : List StreamMessage) → a ≡ read_some messages → length messages ≤ batch_size)
      → length (after_first batch_size reads is_late a).0 ≤ batch_size
  unfolding after_first
  first_bound (read_failed e) h = omega arith
  first_bound (read_some messages) h =
      elim (Bool-cases (is_empty messages || not (ltb (length messages) batch_size))) [
        | inl done ↦ rw done (h messages refl)
        | inr short ↦ rw short (read_more_bound batch_size 1 messages (h messages refl))
      ]

  -- A batch has at most as many messages as the batch size says, when Redis gives no read more than it asked for;
  -- and the loop that fills it ends within as many rounds: one round more than the batch size changes nothing.
  pub read_new_batch_bound :
      (length (read_new_batch batch_size reads is_late).0 ≤ batch_size)
      × ((n : ℕ) (messages : List StreamMessage)
          → read_more batch_size reads is_late (suc batch_size) n messages
            ≡ read_more batch_size reads is_late batch_size n messages)
  unfolding read_new_batch
  read_new_batch_bound = (
    first_bound (reads 0 batch_size) (counted 0 batch_size),
    λ n messages. enough_rounds batch_size reads is_late batch_size n messages (omega arith),
  )
