-- ===== src/Platform/RabbitMq/Retry.antt =====
-- internal/platform/rabbitmq/retry.go: the retry policy and the routing of a failed message. Durations are
-- nanoseconds; bodies and error messages are bytes. The broker is a third-party service: each publication
-- takes what it answers as an argument.
use Prim.Native.Nat.{min, ◌/◌, ◌%◌}
use course_forge.Prelude.{
  ℕ, zero, suc, ◌+◌, ◌-◌, ◌*◌, Bool, true, false, ◌||◌, ◌&&◌, Option, none, some, List, [], ◌∷◌,
  ◌++◌, Text, codes, text_eq, is_empty, length, ltb, leb, ◌==◌, if◌then◌else◌,
}
use course_forge.Prelude.Int.{ℤ, pos, negsuc, is_pos, pos_part, wrap32}

abbrev pub Bytes : Type 0
Bytes = List ℕ

pub record RetryPolicy : Type 0 where
  pub max_retries : ℤ
  pub delays : List ℤ

abbrev pub default_retry_delays : List ℤ
default_retry_delays = pos 1_000_000_000 ∷ pos 5_000_000_000 ∷ pos 30_000_000_000 ∷ []

-- The loop that keeps the positive delays.
unfoldable pub positive_delays : List ℤ → List ℤ
positive_delays [] = []
positive_delays (d ∷ ds) = let rest = positive_delays ds in if is_pos d then d ∷ rest else rest

unfoldable pub new_retry_policy : ℤ → List ℤ → RetryPolicy
unfolding positive_delays
new_retry_policy max_retries delays =
    let normalized = positive_delays delays in
    record {
      max_retries = if is_pos max_retries then max_retries else pos 3;
      delays = if is_empty normalized then default_retry_delays else normalized;
    }

unfoldable pub get_elem? {ℓ} : {A : Type ℓ} → List A → ℕ → Option A
get_elem? [] n = none
get_elem? (x ∷ xs) zero = some x
get_elem? (x ∷ xs) (suc n) = get_elem? xs n

-- None is the panic of an index that is out of range.
unfoldable pub retry_delay : RetryPolicy → ℤ → Option ℤ
unfolding get_elem?
retry_delay p retry_number =
    let number = if is_pos retry_number then pos_part retry_number else 1 in
    if is_empty p.delays then none else get_elem? p.delays (min (number - 1) (length p.delays - 1))

-- `%d` of a number that is not negative; its count of digits is at most its fuel.
decimal_in : ℕ → ℕ → Text
decimal_in zero n = []
decimal_in (suc fuel) n =
    let rest = decimal_in fuel (n / 10) in
    if ltb n 10 then (48 + n) ∷ [] else rest ++ (48 + n % 10) ∷ []

unfoldable pub decimal : ℕ → Text
unfolding decimal_in
decimal n = decimal_in (suc n) n

unfoldable pub retry_queue_name : Text → ℕ → Text
unfolding decimal
retry_queue_name topic retry_number =
    topic ++ (codes "_retry_" ++ (decimal retry_number ++ codes "_queue"))

unfoldable pub dead_letter_queue_name : Text → Text
dead_letter_queue_name topic = topic ++ codes "_dlq"

-- A header as the client decodes it: any of the signed integers, a string, or something else.
pub data HeaderValue : Type 0 where
  integer : ℤ → HeaderValue
  string : Text → HeaderValue
  message : Bytes → HeaderValue
  other_value : HeaderValue

pub record Delivery : Type 0 where
  pub headers : List (Text × HeaderValue)
  pub content_type : Text
  pub content_encoding : Text
  pub priority : ℕ
  pub correlation_id : Text
  pub reply_to : Text
  pub message_id : Text
  pub timestamp : ℕ
  pub type : Text
  pub app_id : Text
  pub body : Bytes

abbrev pub retry_count_header : Text
retry_count_header = codes "x-courseforge-retry-count"

abbrev pub retry_error_header : Text
retry_error_header = codes "x-courseforge-last-error"

abbrev pub failed_at_header : Text
failed_at_header = codes "x-courseforge-failed-at"

-- The Go map behind the headers.
unfoldable pub get_header : Text → List (Text × HeaderValue) → Option HeaderValue
get_header k [] = none
get_header k ((j, v) ∷ h) = if text_eq j k then some v else get_header k h

unfoldable pub set_header :
    Text → HeaderValue → List (Text × HeaderValue) → List (Text × HeaderValue)
set_header k v [] = (k, v) ∷ []
set_header k v ((j, w) ∷ h) = if text_eq j k then (k, v) ∷ h else (j, w) ∷ set_header k v h

-- `strconv.Atoi` on 64 bits.
digits_value : ℕ → Text → Option ℕ
digits_value acc [] = some acc
digits_value acc (c ∷ t) =
    let rest = digits_value (acc * 10 + (c - 48)) t in if leb 48 c && leb c 57 then rest else none

signed_value : Bool → Option ℕ → Option ℤ
signed_value negative none = none
signed_value false (some n) = if ltb n 9_223_372_036_854_775_808 then some (pos n) else none
signed_value true (some n) =
    if leb n 9_223_372_036_854_775_808
    then (if n == 0 then some (pos 0) else some (negsuc (n - 1)))
    else none

unsigned_part : Bool → Text → Option ℤ
unfolding digits_value signed_value
unsigned_part negative t = if is_empty t then none else signed_value negative (digits_value 0 t)

unfoldable pub atoi : Text → Option ℤ
unfolding unsigned_part
atoi [] = none
atoi (c ∷ t) =
    if c == 45
    then unsigned_part true t
    else if c == 43
    then unsigned_part false t
    else unsigned_part false (c ∷ t)

count_of_text : Option ℤ → ℕ
count_of_text none = 0
count_of_text (some n) = pos_part n

-- `max(0, int(count))`.
count_of : Option HeaderValue → ℕ
unfolding count_of_text atoi
count_of (some (integer n)) = pos_part n
count_of (some (string t)) = count_of_text (atoi t)
count_of v = 0

unfoldable pub delivery_retry_count : Delivery → ℕ
unfolding count_of get_header
delivery_retry_count d = count_of (get_header retry_count_header d.headers)

take_bytes : ℕ → Bytes → Bytes
take_bytes zero t = []
take_bytes (suc n) [] = []
take_bytes (suc n) (b ∷ t) = b ∷ take_bytes n t

unfoldable pub truncate_error : Option Bytes → Bytes
unfolding take_bytes
truncate_error none = codes "unknown"
truncate_error (some e) = if ltb 1024 (length e) then take_bytes 1024 e else e

-- The copy that `publish` sends: the properties of the delivery with three headers set.
unfoldable pub publishing : Delivery → ℕ → Option Bytes → Text → Delivery
unfolding set_header truncate_error
publishing d retry_count handle_err failed_at = record d {
  headers = set_header failed_at_header (string failed_at) (
      set_header retry_error_header (message (truncate_error handle_err))
        (set_header retry_count_header (integer (wrap32 (pos retry_count))) d.headers));
}

pub data RouteError : Type 0 where
  invalid_retry_number confirmation_unavailable nacked_by_broker : RouteError
  publish_error confirm_wait_error not_routed : Bytes → RouteError

-- What the broker does with a publication. A `basic.return` comes before the confirmation of its message,
-- or, where waiting for that one failed, at some later time.
pub data BrokerAnswer : Type 0 where
  publish_fails : Bytes → BrokerAnswer
  gives_no_confirmation : BrokerAnswer
  wait_fails : Bytes → Option Bytes → BrokerAnswer
  nacks : BrokerAnswer
  confirms : Option Bytes → BrokerAnswer

-- `amqpFailedMessageRouter`; `returns` is what waits in its channel.
pub record Router : Type 0 where
  pub retry_queue_names : List Text
  pub dead_letter_queue : Text
  pub returns : List Bytes

-- The router afterwards, the error, and the copy that the broker was given with its queue.
pub record Routed : Type 0 where
  pub router : Router
  pub error : Option RouteError
  pub sent : Option (Text × Delivery)

abbrev pub arriving : Option Bytes → List Bytes
arriving none = []
arriving (some r) = r ∷ []

-- The `select` on the channel of returns.
unfoldable pub after_confirm : List Bytes → Router → Text × Delivery → Routed
after_confirm [] r copy = record {
  router = record r { returns = [] };
  error = none;
  sent = some copy;
}
after_confirm (b ∷ rest) r copy = record {
  router = record r { returns = rest };
  error = some (not_routed b);
  sent = some copy;
}

unfoldable pub answered : BrokerAnswer → Router → Text × Delivery → Routed
unfolding after_confirm
answered (publish_fails e) r copy = record {
  router = r;
  error = some (publish_error e);
  sent = none;
}
answered gives_no_confirmation r copy = record {
  router = r;
  error = some confirmation_unavailable;
  sent = some copy;
}
answered (wait_fails e late) r copy = record {
  router = record r { returns = r.returns ++ arriving late };
  error = some (confirm_wait_error e);
  sent = some copy;
}
answered nacks r copy = record { router = r; error = some nacked_by_broker; sent = some copy }
answered (confirms return) r copy = after_confirm (r.returns ++ arriving return) r copy

unfoldable pub publish : Router → BrokerAnswer → Text → Delivery → ℕ → Option Bytes → Text → Routed
unfolding answered publishing
publish r answer queue d retry_count handle_err failed_at =
    answered answer r (queue, publishing d retry_count handle_err failed_at)

named_queue : Option Text → Router → BrokerAnswer → Delivery → ℕ → Option Bytes → Text → Routed
unfolding publish
named_queue none r answer d retry_number handle_err failed_at = record {
  router = r;
  error = some invalid_retry_number;
  sent = none;
}
named_queue (some queue) r answer d retry_number handle_err failed_at =
    publish r answer queue d retry_number handle_err failed_at

unfoldable pub retry : Router → BrokerAnswer → Delivery → ℕ → Option Bytes → Text → Routed
unfolding named_queue
retry r answer d retry_number handle_err failed_at =
    if retry_number == 0 || ltb (length r.retry_queue_names) retry_number
    then record { router = r; error = some invalid_retry_number; sent = none }
    else named_queue (get_elem? r.retry_queue_names (retry_number - 1)) r answer d retry_number
        handle_err failed_at

unfoldable pub dead_letter : Router → BrokerAnswer → Delivery → Option Bytes → Text → Routed
unfolding publish delivery_retry_count
dead_letter r answer d handle_err failed_at =
    publish r answer r.dead_letter_queue d (delivery_retry_count d) handle_err failed_at

-- The queues that `declareFailureTopology` declares for retries, with their time to live in milliseconds;
-- none where a delay does not exist.
pub record RetryQueue : Type 0 where
  pub name : Text
  pub ttl_ms : Option ℤ

milliseconds : Option ℤ → Option ℤ
milliseconds none = none
milliseconds (some (pos n)) = some (pos (n / 1_000_000))
milliseconds (some (negsuc n)) =
    let whole = (n + 1) / 1_000_000 in some (if whole == 0 then pos 0 else negsuc (whole - 1))

unfoldable pub retry_queues : ℕ → ℕ → Text → RetryPolicy → List RetryQueue
unfolding milliseconds retry_delay retry_queue_name
retry_queues zero number topic p = []
retry_queues (suc count) number topic p =
    record {
      name = retry_queue_name topic number;
      ttl_ms = milliseconds (retry_delay p (pos number));
    }
    ∷ retry_queues count (suc number) topic p

unfoldable pub declare_retry_queues : Text → RetryPolicy → List RetryQueue
unfolding retry_queues
declare_retry_queues topic p = retry_queues (pos_part p.max_retries) 1 topic p

unfoldable pub queue_names : List RetryQueue → List Text
queue_names [] = []
queue_names (q ∷ qs) = q.name ∷ queue_names qs

unfoldable pub declare_failure_topology : Text → RetryPolicy → Router
unfolding declare_retry_queues queue_names dead_letter_queue_name
declare_failure_topology topic p = record {
  retry_queue_names = queue_names (declare_retry_queues topic p);
  dead_letter_queue = dead_letter_queue_name topic;
  returns = [];
}
