-- ===== src/Kafka/Consumer/Hops.antt =====
-- The way of a message whose handlers keep failing, and of one that could not be sent on.
use go_ddd.Prelude.{
  ℕ, zero, suc, ◌+◌, ◌<◌, ◌≡◌, refl, ap, ◌∙◌, none, some, List, [], ◌∷◌, ◌++◌, map, append_assoc,
  arith, text_eq,
}
use go_ddd.Prelude.Int.{pos, int_succ, max_int}
use go_ddd.Prelude.Text.{Text}
use go_ddd.Prelude.Result.{Error, Result}
use go_ddd.Shared.{Time}
use go_ddd.EventBus.{Event}
use go_ddd.Kafka.{Layout, IsFaithful, attempt_from, decide_outcome, Decision, retry, dead_letter}
use go_ddd.Kafka.Retry.{retry_headers-reads}
use go_ddd.Kafka.Consumer.{
  Message, Bus, Node, Broker, write, written_by, commit, commit_if, retry_message, dead_message,
  dead_letter_message, fail_by, fail, add_duration,
}

module _ {S : Type 0} (layout : Layout) (decode : Text → Result Event) (broker : Broker)
    (bus : Bus S) (topic : Text) (now : Time) where
  -- The message that a failure sends on.
  sent_by : Decision → Message → Error → Message
  sent_by retry m e =
      retry_message layout decode broker bus topic now m (int_succ (attempt_from m.headers)) e
  sent_by dead_letter m e = dead_message layout decode broker bus topic now m e

  abbrev sent_on : Message → Error → Message
  sent_on m e =
      sent_by (decide_outcome (int_succ (attempt_from m.headers)) bus.settings.max_retries) m e

  -- The reader of each topic gets the message that the one before has sent on, and it fails again.
  pub keeps_failing : ℕ → Message → Error → Node S → Node S
  keeps_failing zero m e n = n
  keeps_failing (suc k) m e n =
      keeps_failing k (sent_on m e) e (fail layout decode broker bus topic now m e n)

  abbrev pub topics : List Message → List Text
  topics = map (λ m. m.topic)

  -- The retry topics of `k` attempts from `a` on.
  pub retry_topics : ℕ → ℕ → List Text
  retry_topics a zero = []
  retry_topics a (suc k) = bus.settings.retry_topic_for topic (pos a) ∷ retry_topics (suc a) k

  -- The broker takes every message.
  abbrev pub Takes : Type 0
  Takes = (ms : List Message) (m : Message) → broker ms m ≡ none

  fail_by-written :
      (d : Decision) (m : Message) (e : Error) (n : Node S)
      → Takes
      → (fail_by layout decode broker bus topic now d m
          (int_succ (attempt_from m.headers))
          e
          n).written
        ≡ n.written ++ sent_by d m e ∷ []
  unfolding fail_by sent_by dead_letter_message write written_by commit_if commit
  fail_by-written retry m e n takes =
      rw
        (takes n.written (
          retry_message layout decode broker bus topic now m (int_succ (attempt_from m.headers)) e))
        refl
  fail_by-written dead_letter m e n takes =
      rw (takes n.written (dead_message layout decode broker bus topic now m e)) refl

  fail-written :
      (m : Message) (e : Error) (n : Node S)
      → Takes
      → (fail layout decode broker bus topic now m e n).written ≡ n.written ++ sent_on m e ∷ []
  unfolding fail
  fail-written m e n takes =
      fail_by-written (decide_outcome (int_succ (attempt_from m.headers)) bus.settings.max_retries)
        m e n takes

  next_attempt : (a : ℕ) → a < max_int → int_succ (pos a) ≡ pos (suc a)
  unfolding int_succ
  next_attempt a h = ground arith

  choice :
      (m : Message) (a : ℕ)
      → attempt_from m.headers ≡ pos a
      → a < max_int
      → decide_outcome (int_succ (attempt_from m.headers)) bus.settings.max_retries
        ≡ decide_outcome (pos (suc a)) bus.settings.max_retries
  choice m a at h = rw (at, next_attempt a h) refl

  sent_on-retry :
      (m : Message) (e : Error) (a limit : ℕ)
      → bus.settings.max_retries ≡ pos limit
      → attempt_from m.headers ≡ pos a
      → a < limit
      → limit < max_int
      → sent_on m e ≡ retry_message layout decode broker bus topic now m (pos (suc a)) e
  unfolding sent_by
  sent_on-retry m e a limit top at lt fits =
      let d : decide_outcome (int_succ (attempt_from m.headers)) bus.settings.max_retries ≡ retry =
        choice m a at (omega arith) ∙ rw top (unfold decide_outcome in ground (arith, lt)) in
      rw (d, at, next_attempt a (omega arith)) refl

  sent_on-dead :
      (m : Message) (e : Error) (a : ℕ)
      → bus.settings.max_retries ≡ pos a
      → attempt_from m.headers ≡ pos a
      → a < max_int
      → sent_on m e ≡ dead_message layout decode broker bus topic now m e
  unfolding sent_by
  sent_on-dead m e a top at fits =
      let d : decide_outcome (int_succ (attempt_from m.headers)) bus.settings.max_retries
          ≡ dead_letter =
        choice m a at fits ∙ rw top (unfold decide_outcome in ground arith) in
      rw d refl

  topics-append :
      (ms : List Message) (m : Message) → topics (ms ++ m ∷ []) ≡ topics ms ++ m.topic ∷ []
  topics-append [] m = refl
  topics-append (x ∷ ms) m = ap (◌∷◌ x.topic) (topics-append ms m)

  -- If the broker takes everything, times are read back as printed, and the retry limit is an `int`
  -- that `a` has not passed, a message that has failed `a` times goes through the retry topics of
  -- the attempts that are left, in order, each once, and then to the dead-letter topic.
  pub keeps_failing-topics :
      (k : ℕ) (m : Message) (e : Error) (n : Node S) (a limit : ℕ)
      → bus.settings.max_retries ≡ pos limit
      → attempt_from m.headers ≡ pos a
      → a + k ≡ limit
      → limit < max_int
      → IsFaithful layout
      → Takes
      → topics (keeps_failing (suc k) m e n).written
        ≡ topics n.written ++ (retry_topics (suc a) k ++ bus.settings.dlq_topic_for topic ∷ [])
  unfolding keeps_failing retry_topics retry_message dead_message
  keeps_failing-topics zero m e n a limit top at left fits faithful takes =
      let dead = sent_on-dead m e a (top ∙ ap pos (omega (arith, left))) at (omega arith) in
      ap topics (fail-written m e n takes)
      ∙ topics-append n.written (sent_on m e)
      ∙ ap (λ w. topics n.written ++ w.topic ∷ []) dead
  keeps_failing-topics (suc k) m e n a limit top at left fits faithful takes =
      let next = sent_on m e in
      let on = sent_on-retry m e a limit top at (omega arith) fits in
      let read : attempt_from next.headers ≡ pos (suc a) =
        rw on
          (retry_headers-reads layout (pos (suc a))
            (add_duration now (bus.settings.backoff (pos (suc a)))) topic (some e) faithful
            (omega arith)).0 in
      let ih =
        keeps_failing-topics k next e (fail layout decode broker bus topic now m e n) (suc a) limit
          top read (omega arith) fits faithful takes in
      ih
      ∙ ap (λ ts. ts ++ (retry_topics (suc (suc a)) k ++ bus.settings.dlq_topic_for topic ∷ []))
          (ap topics (fail-written m e n takes)
            ∙ topics-append n.written next
            ∙ ap (λ w. topics n.written ++ w.topic ∷ []) on)
      ∙ append_assoc (topics n.written) (bus.settings.retry_topic_for topic (pos (suc a)) ∷ [])
          (retry_topics (suc (suc a)) k ++ bus.settings.dlq_topic_for topic ∷ [])
