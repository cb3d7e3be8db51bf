-- ===== src/Kafka.antt =====
-- internal/eventbus/kafka: topics, retries and the configuration (retry.go, bus.go).
pub mod Retry
pub mod Topics
pub mod Wire
pub mod Consumer
pub mod Running
use go_ddd.Prelude.{
  ℕ, zero, suc, ◌+◌, ◌-◌, ◌*◌, ◌/◌, ◌%◌, ◌^◌, ◌≤◌, ◌<◌, min, ◌≡◌, refl, sym, ap, subst, ◌∙◌, ◌≢◌,
  ◌↔◌, ◌⊎◌, inl, inr, Bool, true, false, ◌&&◌, ◌||◌, not, Option, none, some, List, [], ◌∷◌, ◌++◌,
  map, append_assoc, append-nil, arith, ltb, leb, nat_beq, nat_beq_iff, ◌==◌, text_eq, text_beq,
  text_beq_iff, text_beq_refl, length, length-append, take, drop, length-take, length-drop,
  take-append-drop, All, All-append, All-filter, filter, Bool-cases, Option-cases, if◌then◌else◌,
}
use mathlib.Core.Option
use go_ddd.Prelude.Int.{ℤ, pos, negsuc, max_int, leb_ℤ, ltb_ℤ}
use go_ddd.Prelude.Text.{Text, codes}
use go_ddd.Prelude.Text.Decimal.{itoa, atoi}
use go_ddd.Prelude.Result.{Error}
use go_ddd.Shared.{Time, error_text}

-- `2 * d` on a `time.Duration`, which wraps round.
double : ℤ → ℤ
double (pos n) = if leb (2 * n) max_int then pos (2 * n) else negsuc (2 ^ 64 - 2 * n - 1)
double (negsuc n) =
    if leb (2 * n + 1) max_int then negsuc (2 * n + 1) else pos (2 ^ 64 - (2 * n + 2))

backoff_loop : ℕ → ℤ → ℤ → ℤ
backoff_loop zero d max_delay = if ltb_ℤ max_delay d then max_delay else d
backoff_loop (suc i) d max_delay =
    let rest = backoff_loop i (double d) max_delay in
    if leb_ℤ max_delay (double d) then max_delay else rest

-- The rounds of the loop: an attempt below one counts as the first.
rounds : ℤ → ℕ
rounds (pos zero) = 0
rounds (pos (suc n)) = n
rounds (negsuc n) = 0

-- `ExponentialBackoff`
unfoldable pub exponential_backoff : ℤ → ℤ → ℤ → ℤ
unfolding double backoff_loop rounds
exponential_backoff base max_delay attempt = backoff_loop (rounds attempt) base max_delay

pub data Decision : Type 0 where
  retry dead_letter : Decision

unfoldable pub decide_outcome : ℤ → ℤ → Decision
decide_outcome attempt max_retries = if ltb_ℤ max_retries attempt then dead_letter else retry

unfoldable pub default_retry_topic_for : Text → ℤ → Text
default_retry_topic_for topic attempt = topic ++ (codes ".retry." ++ itoa attempt)

unfoldable pub default_dlq_topic_for : Text → Text
default_dlq_topic_for topic = topic ++ codes ".dlq"

-- The text before the first dot, if there is one.
up_to_dot : Text → Option Text
up_to_dot [] = none
up_to_dot (c ∷ s) = if nat_beq c b'.' then some [] else Option.map (λ p. c ∷ p) (up_to_dot s)

or_else : Option Text → Option Text → Option Text
or_else none o = o
or_else (some p) o = some p

-- The text before the second dot, if there is one.
up_to_second : Text → Option Text
up_to_second [] = none
up_to_second (c ∷ s) =
    let later = Option.map (λ p. c ∷ p) (up_to_second s) in
    if nat_beq c b'.' then or_else (Option.map (λ p. c ∷ p) (up_to_dot s)) later else later

events_of : Option Text → Text → Text
events_of none name = name
events_of (some p) name = p ++ codes ".events"

unfoldable pub default_topic_for : Text → Text
unfolding up_to_dot or_else up_to_second events_of
default_topic_for name = events_of (up_to_second name) name

abbrev pub header_attempt : Text
header_attempt = codes "x-retry-attempt"

abbrev pub header_not_before : Text
header_not_before = codes "x-retry-not-before"

abbrev pub header_original_topic : Text
header_original_topic = codes "x-original-topic"

abbrev pub header_last_error : Text
header_last_error = codes "x-last-error"

abbrev pub Headers : Type 0
Headers = List (Text × Text)

-- The layout RFC3339Nano of the standard library: a print of a time, and the times that texts name.
pub record Layout : Type 0 where
  pub format : Time → Text
  pub parse : Text → Option Time

-- What the code relies on: a printed time is read back, and no time prints as the empty text.
pub record IsFaithful (l : Layout) : Type 0 where
  pub parse-format : (t : Time) → l.parse (l.format t) ≡ some t
  pub printed : (t : Time) → l.format t ≢ []

error_header : Option Error → Headers
error_header none = []
error_header (some e) = (header_last_error, error_text e) ∷ []

unfoldable pub retry_headers : Layout → ℤ → Time → Text → Option Error → Headers
unfolding error_header
retry_headers l attempt not_before original_topic last_err =
    (header_attempt, itoa attempt)
    ∷ (header_not_before, l.format not_before)
    ∷ (header_original_topic, original_topic)
    ∷ error_header last_err

unfoldable pub header_value : Headers → Text → Text
header_value [] key = []
header_value ((k, v) ∷ hs) key = if k == key then v else header_value hs key

or_zero : Option ℤ → ℤ
or_zero none = pos 0
or_zero (some n) = n

unfoldable pub attempt_from : Headers → ℤ
unfolding header_value or_zero
attempt_from hs = or_zero (atoi (header_value hs header_attempt))

or_zero_time : Option Time → Time
or_zero_time none = 0
or_zero_time (some t) = t

unfoldable pub not_before_from : Layout → Headers → Time
unfolding header_value or_zero_time
not_before_from l hs =
    let v = header_value hs header_not_before in if v == [] then 0 else or_zero_time (l.parse v)

-- The plain part of `Config`; `none` is a nil function.
pub record Config : Type 0 where
  pub group_id : Text
  pub topic_for : Option (Text → Text)
  pub max_retries : ℤ
  pub backoff : Option (ℤ → ℤ)
  pub retry_topic_for : Option (Text → ℤ → Text)
  pub dlq_topic_for : Option (Text → Text)

-- The configuration with every function there.
pub record Settings : Type 0 where
  pub group_id : Text
  pub topic_for : Text → Text
  pub max_retries : ℤ
  pub backoff : ℤ → ℤ
  pub retry_topic_for : Text → ℤ → Text
  pub dlq_topic_for : Text → Text

given : {A : Type 0} → Option A → A → A
given none d = d
given (some x) d = x

unfoldable pub set_defaults : Config → Settings
unfolding given
set_defaults c = record {
  group_id = if c.group_id == [] then codes "myapp" else c.group_id;
  topic_for = given c.topic_for default_topic_for;
  max_retries = if leb_ℤ c.max_retries (pos 0) then pos 3 else c.max_retries;
  backoff = given c.backoff (exponential_backoff (pos 1_000_000_000) (pos 30_000_000_000));
  retry_topic_for = given c.retry_topic_for default_retry_topic_for;
  dlq_topic_for = given c.dlq_topic_for default_dlq_topic_for;
}
