-- ===== src/Kafka/Retry.antt =====
-- The delays and the headers of a retry.
use go_ddd.Prelude.{
  ℕ, zero, suc, ◌*◌, ◌^◌, ◌≤◌, ◌<◌, min, ◌≡◌, refl, inl, inr, Option, [], arith, leb, text_eq,
  text_beq, text_beq_iff, Bool-cases,
}
use native.Mathlib.Nat.{pow-suc}
use go_ddd.Prelude.Int.{ℤ, pos, IsInt}
use go_ddd.Prelude.Text.{Text}
use go_ddd.Prelude.Text.Decimal.{atoi-itoa}
use go_ddd.Prelude.Result.{Error}
use go_ddd.Shared.{Time}
use go_ddd.Kafka.{
  double, backoff_loop, rounds, exponential_backoff, Layout, IsFaithful, retry_headers,
  header_value, attempt_from, not_before_from, header_original_topic, or_zero, or_zero_time,
}

pow_pos : (i : ℕ) → 1 ≤ 2 ^ i
pow_pos zero = omega arith
pow_pos (suc i) = omega (arith, pow_pos i, pow-suc 2 i)

times_pos : (a b : ℕ) → 1 ≤ b → a ≤ a * b
times_pos a zero h = absurd (omega arith)
times_pos a (suc b) h = omega arith

double-small : (d : ℕ) → d < 2 ^ 62 → double (pos d) ≡ pos (2 * d)
unfolding double
double-small d h = ground arith

shift : (d i : ℕ) → 2 * d * 2 ^ i ≡ d * 2 ^ suc i
shift d i = grind (arith, pow-suc 2 i)

backoff_loop_lem :
    (i d m : ℕ) → d < 2 ^ 62 → m ≤ 2 ^ 62 → backoff_loop i (pos d) (pos m) ≡ pos (min (d * 2 ^ i) m)
unfolding backoff_loop
backoff_loop_lem zero d m small cap = ground arith
backoff_loop_lem (suc i) d m small cap = elim (Bool-cases (leb m (2 * d))) [
  | inl over ↦
      rw (double-small d small)
        (ground (arith, over, times_pos (2 * d) (2 ^ i) (pow_pos i), shift d i))
  | inr below ↦
      rw (double-small d small)
        (ground (arith, below, backoff_loop_lem i (2 * d) m, cap, shift d i))
]

-- With a base below 2 ^ 62 and a cap of at most that, the delay doubles with each attempt from the
-- base on, up to the cap.
pub exponential_backoff-min :
    (base top k : ℕ)
    → base < 2 ^ 62
    → top ≤ 2 ^ 62
    → exponential_backoff (pos base) (pos top) (pos (suc k)) ≡ pos (min (base * 2 ^ k) top)
unfolding exponential_backoff rounds
exponential_backoff-min base top k small low = backoff_loop_lem k base top small low

-- If times are read back as printed and the attempt is an `int`, a message that is sent on carries
-- its attempt, its deadline and its topic so that the next reader finds them.
pub retry_headers-reads :
    (l : Layout) (attempt : ℤ) (t : Time) (topic : Text) (e : Option Error)
    → IsFaithful l
    → IsInt attempt
    → let hs = retry_headers l attempt t topic e in
      (attempt_from hs ≡ attempt)
      × (not_before_from l hs ≡ t)
      × (header_value hs header_original_topic ≡ topic)
unfolding retry_headers header_value attempt_from not_before_from text_beq or_zero or_zero_time
retry_headers-reads l attempt t topic e faithful int = (
  rw (atoi-itoa attempt int) refl,
  ground (arith, faithful.printed t, faithful.parse-format t, text_beq_iff (l.format t) []),
  refl,
)
