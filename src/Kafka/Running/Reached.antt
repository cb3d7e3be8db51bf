-- ===== src/Kafka/Running/Reached.antt =====
-- The topics that are written to have readers.
use go_ddd.Prelude.{
  ℕ, zero, suc, ◌+◌, ◌≤◌, ◌<◌, ◌≡◌, refl, sym, ap, subst, ◌⊎◌, inl, inr, Bool, some, List, [], ◌∷◌,
  ◌++◌, arith, text_eq, text_beq, text_beq_iff, Bool-cases,
}
use native.Mathlib.Decide.{ℕ_discrete}
use go_ddd.Prelude.Int.{ℤ, pos, int_succ, max_int}
use go_ddd.Prelude.Text.{Text}
use go_ddd.Prelude.Map.{Map, get}
use go_ddd.Prelude.Result.{Result, ok}
use go_ddd.Shared.{Time}
use go_ddd.EventBus.{Event}
use go_ddd.Kafka.{Settings, Layout, attempt_from, decide_outcome, retry}
use go_ddd.Kafka.Consumer.{Message, Bus, Binding, Node, Broker, handle}
use go_ddd.Kafka.Consumer.Outcomes.{handle-recorded}
use go_ddd.Kafka.Running.{
  Reader, Lifecycle, idle, hop_readers, hops, topic_readers, readers_for, topics_of, start,
}

-- One of the readers fetches from the topic and serves the business topic.
abbrev pub Reads : Text → Text → List Reader → Type 0
Reads physical business [] = ⊥
Reads physical business (r ∷ rs) =
    ((r.physical ≡ physical) × (r.business ≡ business)) ⊎ Reads physical business rs

Reads-append_left : (p b : Text) (rs qs : List Reader) → Reads p b rs → Reads p b (rs ++ qs)
Reads-append_left p b [] qs h = absurd h
Reads-append_left p b (r ∷ rs) qs (inl hit) = inl hit
Reads-append_left p b (r ∷ rs) qs (inr later) = inr (Reads-append_left p b rs qs later)

Reads-append_right : (p b : Text) (rs qs : List Reader) → Reads p b qs → Reads p b (rs ++ qs)
Reads-append_right p b [] qs h = h
Reads-append_right p b (r ∷ rs) qs h = inr (Reads-append_right p b rs qs h)

Reads-hop :
    (s : Settings) (t : Text) (from left j : ℕ)
    → from ≤ j
    → j < from + left
    → Reads (s.retry_topic_for t (pos j)) t (hop_readers s t from left)
unfolding hop_readers
Reads-hop s t from zero j low high = absurd (omega arith)
Reads-hop s t from (suc left) j low high = elim (ℕ_discrete from j) [
  | yes same ↦ inl (ap (λ k. s.retry_topic_for t (pos k)) same, refl)
  | no other ↦ inr (Reads-hop s t (suc from) left j (omega arith) (omega arith))
]

Reads-bound :
    {S : Type 0} (s : Settings) (p t : Text) (m : Map (List (Binding S))) (bs : List (Binding S))
    → get m t ≡ some bs
    → Reads p t (topic_readers s t)
    → Reads p t (readers_for s (topics_of m))
unfolding get topics_of readers_for
Reads-bound s p t [] bs bound h = absurd (ground (arith, bound))
Reads-bound s p t ((u, cs) ∷ m) bs bound h = elim (Bool-cases (text_beq u t)) [
  | inl same ↦
      Reads-append_left p t (topic_readers s u) (readers_for s (topics_of m))
        (subst (λ v. Reads p t (topic_readers s v)) (sym ((text_beq_iff u t).0 same)) h)
  | inr other ↦
      Reads-append_right p t (topic_readers s u) (readers_for s (topics_of m))
        (Reads-bound s p t m bs (rw other at bound) h)
]

readers-start :
    {S : Type 0} (bus : Bus S) (life : Lifecycle)
    → start bus idle ≡ ok life
    → life.readers ≡ readers_for bus.settings (topics_of bus.bindings)
unfolding start
readers-start bus life h = ground (arith, h)

-- Every topic that the bus subscribes to is read.
pub Reads-start :
    {S : Type 0} (bus : Bus S) (t : Text) (bs : List (Binding S)) (life : Lifecycle)
    → get bus.bindings t ≡ some bs
    → start bus idle ≡ ok life
    → Reads t t life.readers
Reads-start bus t bs life bound started =
    subst (Reads t t) (sym (readers-start bus life started)) (
      Reads-bound bus.settings t t bus.bindings bs bound (unfold topic_readers in inl (refl, refl)))

next_attempt :
    (a limit : ℕ) (max_retries : ℤ)
    → max_retries ≡ pos limit
    → a < max_int
    → decide_outcome (int_succ (pos a)) max_retries ≡ retry
    → (int_succ (pos a) ≡ pos (suc a)) × (suc a ≤ limit)
unfolding int_succ decide_outcome
next_attempt a limit max_retries top fits allowed = (ground arith, ground arith)

Reads-start_retry :
    {S : Type 0} (bus : Bus S) (t : Text) (bs : List (Binding S)) (life : Lifecycle) (limit a : ℕ)
    → get bus.bindings t ≡ some bs
    → start bus idle ≡ ok life
    → bus.settings.max_retries ≡ pos limit
    → a < max_int
    → decide_outcome (int_succ (pos a)) bus.settings.max_retries ≡ retry
    → Reads (bus.settings.retry_topic_for t (int_succ (pos a))) t life.readers
unfolding topic_readers hops
Reads-start_retry bus t bs life limit a bound started top fits allowed =
    let s = bus.settings in
    let (next, within) = next_attempt a limit s.max_retries top fits allowed in
    let hop : Reads (s.retry_topic_for t (pos (suc a))) t (topic_readers s t) = inr (
      subst (λ n. Reads (s.retry_topic_for t (pos (suc a))) t (hop_readers s t 1 (hops n)))
        (sym top) (Reads-hop s t 1 limit (suc a) (omega arith) (omega arith))) in
    rw (next, readers-start bus life started)
      (Reads-bound s (s.retry_topic_for t (pos (suc a))) t bus.bindings bs bound hop)

-- Once `Run` has started its readers for the bindings of a bus, and the retries allowed are not
-- negative, whatever a reader of a bound topic writes when it handles a message whose attempt
-- header is neither negative nor the largest `int`, is on the dead-letter topic of the business
-- topic, or on a retry topic that some reader fetches from for the same business topic.
pub handle-Reads :
    {S : Type 0} (layout : Layout) (decode : Text → Result Event) (broker : Broker) (bus : Bus S)
    (topic : Text) (now : Time) (bs : List (Binding S)) (life : Lifecycle) (limit a : ℕ)
    (cancelled : Bool) (m : Message) (n n' : Node S)
    → get bus.bindings topic ≡ some bs
    → start bus idle ≡ ok life
    → bus.settings.max_retries ≡ pos limit
    → attempt_from m.headers ≡ pos a
    → a < max_int
    → handle layout decode broker bus topic now cancelled m n ≡ some n'
    → (n'.written ≡ n.written)
      ⊎ ((w : Message) × (n'.written ≡ n.written ++ w ∷ [])
          × ((w.topic ≡ bus.settings.dlq_topic_for topic) ⊎ Reads w.topic topic life.readers))
handle-Reads layout decode broker bus topic now bs life limit a cancelled m n n' bound started top
      at fits h =
    elim (handle-recorded layout decode broker bus topic now cancelled m n n' h) [
      | inr (committed, kept, served) ↦ inl kept
      | inl (inl (committed, kept)) ↦ inl kept
      | inl (inr (w, committed, grown, taken, (key, value, inl dead))) ↦ inr (w, grown, inl dead)
      | inl (inr (w, committed, grown, taken, (key, value, inr (allowed, hop)))) ↦ inr (
        w,
        grown,
        inr (
            rw (hop, at)
              (Reads-start_retry bus topic bs life limit a bound started top fits
                (rw at at allowed))),
      )
    ]
