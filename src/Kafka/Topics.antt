-- ===== src/Kafka/Topics.antt =====
-- The names of the topics.
use go_ddd.Prelude.{
  ◌≡◌, refl, sym, ap, ◌∙◌, ◌≢◌, some, [], ◌∷◌, ◌++◌, arith, text_eq, All, some_inj,
}
use go_ddd.Prelude.Int.{ℤ, IsInt}
use go_ddd.Prelude.Text.{Text, codes}
use go_ddd.Prelude.Text.Decimal.{itoa, atoi, atoi-itoa}
use go_ddd.Kafka.{
  up_to_dot, up_to_second, or_else, events_of, default_topic_for, default_retry_topic_for,
  default_dlq_topic_for,
}

-- A part of an event name.
abbrev pub Dotless : Text → Type 0
Dotless = All (λ c. c ≢ b'.')

up_to_dot-part : (b rest : Text) → Dotless b → up_to_dot (b ++ b'.' ∷ rest) ≡ some b
unfolding up_to_dot
up_to_dot-part [] rest h = refl
up_to_dot-part (c ∷ b) rest h = ground (arith, h.0, up_to_dot-part b rest h.1)

up_to_second-parts :
    (a b rest : Text)
    → Dotless a
    → Dotless b
    → up_to_second (a ++ b'.' ∷ (b ++ b'.' ∷ rest)) ≡ some (a ++ b'.' ∷ b)
unfolding up_to_second or_else
up_to_second-parts [] b rest h k = rw (up_to_dot-part b rest k) refl
up_to_second-parts (c ∷ a) b rest h k = ground (arith, h.0, up_to_second-parts a b rest h.1 k)

-- All events of one context and version go to one topic: the first two parts of the name, in which
-- there is no dot, and "events".
pub default_topic_for-parts :
    (a b rest : Text)
    → Dotless a
    → Dotless b
    → default_topic_for (a ++ b'.' ∷ (b ++ b'.' ∷ rest)) ≡ (a ++ b'.' ∷ b) ++ codes ".events"
unfolding default_topic_for events_of
default_topic_for-parts a b rest h k = rw (up_to_second-parts a b rest h k) refl

append_inj : (xs ys zs : Text) → xs ++ ys ≡ xs ++ zs → ys ≡ zs
append_inj [] ys zs h = h
append_inj (x ∷ xs) ys zs h = append_inj xs ys zs (ground (arith, h))

-- For attempts that are `int`s: two attempts of one topic that share a retry topic are the same,
-- and that topic is not the dead-letter topic.
pub default_retry_topic_for-injective :
    (topic : Text) (n m : ℤ)
    → IsInt n
    → IsInt m
    → default_retry_topic_for topic n ≡ default_retry_topic_for topic m
    → (n ≡ m) × (default_retry_topic_for topic n ≢ default_dlq_topic_for topic)
unfolding default_retry_topic_for default_dlq_topic_for
default_retry_topic_for-injective topic n m hn hm e = (
  let same =
        append_inj (codes ".retry.") (itoa n) (itoa m)
          (append_inj topic (codes ".retry." ++ itoa n) (codes ".retry." ++ itoa m) e) in
      some_inj (sym (atoi-itoa n hn) ∙ (ap atoi same ∙ atoi-itoa m hm)),
  λ clash.
      let tails = append_inj topic (codes ".retry." ++ itoa n) (codes ".dlq") clash in
      absurd (ground (arith, tails)),
)
