-- ===== src/Kafka/Consumer/Outcomes.antt =====
-- When a reader commits a message.
use go_ddd.Prelude.{
  ◌≡◌, refl, sym, ap, subst, ◌⊎◌, inl, inr, Bool, ◌&&◌, Option, none, some, List, [], ◌∷◌, ◌++◌,
  arith, ltb, text_eq, Bool-cases, some_inj,
}
use go_ddd.Prelude.Int.{int_succ}
use go_ddd.Prelude.Text.{Text}
use go_ddd.Prelude.Result.{Error, Result, ok, err, other_error}
use go_ddd.Shared.{Time, joined_text}
use go_ddd.EventBus.{Event, Handler, Collected, run_handlers}
use go_ddd.Kafka.{
  Layout, attempt_from, not_before_from, decide_outcome, Decision, retry, dead_letter,
}
use go_ddd.Kafka.Consumer.{
  Message, Bus, Node, Broker, handlers_for, write, written_by, commit, commit_if, retry_message,
  dead_message, dead_letter_message, fail_by, fail, settle, on_node, run_on, dispatch, decoded,
  handle,
}

module _ {S : Type 0} (layout : Layout) (decode : Text → Result Event) (broker : Broker)
    (bus : Bus S) (topic : Text) (now : Time) where
  -- The message stands on the retry topic of its next attempt or on the dead-letter topic, with its
  -- key and its value.
  abbrev pub SentOn : Message → Message → Type 0
  SentOn m w =
      (w.key ≡ m.key)
      × (w.value ≡ m.value)
      × ((w.topic ≡ bus.settings.dlq_topic_for topic)
          ⊎ ((decide_outcome (int_succ (attempt_from m.headers)) bus.settings.max_retries ≡ retry)
              × (w.topic ≡ bus.settings.retry_topic_for topic (int_succ (attempt_from m.headers)))))

  -- Every handler of the event ran without an error.
  abbrev pub Served : Message → S → Type 0
  Served m s =
      (e : Event) × (decode m.value ≡ ok e)
      × ((run_handlers (handlers_for bus topic e.name) e s).0 ≡ some [])

  -- The message is left for redelivery and nothing is written, or the cluster took it on one more
  -- topic and it is committed.
  abbrev pub Passed : Message → Node S → Node S → Type 0
  Passed m n n' =
      ((n'.committed ≡ n.committed) × (n'.written ≡ n.written))
      ⊎ ((w : Message) × (n'.committed ≡ n.committed ++ m ∷ [])
          × (n'.written ≡ n.written ++ w ∷ [])
          × (broker n.written w ≡ none)
          × SentOn m w)

  -- It was served, and is committed.
  abbrev pub Finished : Message → Node S → Node S → Type 0
  Finished m n n' =
      (n'.committed ≡ n.committed ++ m ∷ []) × (n'.written ≡ n.written) × Served m n.sub

  send-Passed :
      (m w : Message) (n : Node S) (r : Option Error)
      → SentOn m w
      → broker n.written w ≡ r
      → Passed m n (
          commit_if layout decode broker bus topic now m
            (written_by layout decode broker bus topic now r w n))
  unfolding written_by commit commit_if
  send-Passed m w n none sent h = inr (w, refl, refl, h, sent)
  send-Passed m w n (some e) sent h = inl (refl, refl)

  dead-Passed :
      (m : Message) (e : Error) (n : Node S)
      → Passed m n (dead_letter_message layout decode broker bus topic now m e n)
  unfolding dead_letter_message dead_message write
  dead-Passed m e n =
      let w = dead_message layout decode broker bus topic now m e in
      send-Passed m w n (broker n.written w) (refl, refl, inl refl) refl

  fail_by-Passed :
      (d : Decision) (m : Message) (e : Error) (n : Node S)
      → decide_outcome (int_succ (attempt_from m.headers)) bus.settings.max_retries ≡ d
      → Passed m n
          (fail_by layout decode broker bus topic now d m (int_succ (attempt_from m.headers)) e n)
  unfolding fail_by retry_message write
  fail_by-Passed retry m e n h =
      let w =
        retry_message layout decode broker bus topic now m (int_succ (attempt_from m.headers)) e in
      send-Passed m w n (broker n.written w) (refl, refl, inr (h, refl)) refl
  fail_by-Passed dead_letter m e n h = dead-Passed m e n

  fail-Passed :
      (m : Message) (e : Error) (n : Node S)
      → Passed m n (fail layout decode broker bus topic now m e n)
  unfolding fail
  fail-Passed m e n =
      fail_by-Passed (decide_outcome (int_succ (attempt_from m.headers)) bus.settings.max_retries) m
        e n refl

  settled :
      (m : Message) (e : Event) (n n' : Node S) (r : Collected × S)
      → decode m.value ≡ ok e
      → run_handlers (handlers_for bus topic e.name) e n.sub ≡ r
      → settle layout decode broker bus topic now m (on_node layout decode broker bus topic now r n)
        ≡ some n'
      → Passed m n n' ⊎ Finished m n n'
  unfolding settle on_node commit
  settled m e n n' (none, s) known ran h = absurd (ground (arith, h))
  settled m e n n' (some [], s) known ran h =
      let same = sym (some_inj h) in
      inr (ap (λ x. x.committed) same, ap (λ x. x.written) same, (e, known, ap (λ p. p.0) ran))
  settled m e n n' (some (x ∷ xs), s) known ran h = inl (
      subst (Passed m n) (some_inj h)
        (fail-Passed m (other_error (joined_text (x ∷ xs))) (record n { sub = s })))

  dispatched :
      (m : Message) (e : Event) (hs : List (Handler S)) (n n' : Node S)
      → decode m.value ≡ ok e
      → handlers_for bus topic e.name ≡ hs
      → dispatch layout decode broker bus topic now m e hs n ≡ some n'
      → Passed m n n' ⊎ Finished m n n'
  unfolding dispatch run_on commit run_handlers
  dispatched m e [] n n' known found h =
      let same = sym (some_inj h) in
      inr (
        ap (λ x. x.committed) same,
        ap (λ x. x.written) same,
        (e, known, ap (λ hs. (run_handlers hs e n.sub).0) found),
      )
  dispatched m e (g ∷ gs) n n' known found h =
      settled m e n n' (run_handlers (g ∷ gs) e n.sub) known
        (ap (λ hs. run_handlers hs e n.sub) found) h

  decoded_lem :
      (m : Message) (r : Result Event) (n n' : Node S)
      → decode m.value ≡ r
      → decoded layout decode broker bus topic now m r n ≡ some n'
      → Passed m n n' ⊎ Finished m n n'
  unfolding decoded
  decoded_lem m (err e) n n' known h = inl (subst (Passed m n) (some_inj h) (dead-Passed m e n))
  decoded_lem m (ok e) n n' known h =
      dispatched m e (handlers_for bus topic e.name) n n' known refl h

  -- Whatever the broker and the handlers answer, the reader commits a message only if all its
  -- handlers succeeded, or if the cluster has taken it, key and value unchanged, on the retry topic
  -- of its next attempt, which the policy allows, or on the dead-letter topic. Otherwise it writes
  -- nothing and commits nothing.
  pub handle-recorded :
      (cancelled : Bool) (m : Message) (n n' : Node S)
      → handle layout decode broker bus topic now cancelled m n ≡ some n'
      → Passed m n n' ⊎ Finished m n n'
  unfolding handle
  handle-recorded cancelled m n n' h =
      elim (Bool-cases (ltb now (not_before_from layout m.headers) && cancelled)) [
        | inl stop ↦
            let same = sym (some_inj (rw stop at h)) in
            inl (inl (ap (λ x. x.committed) same, ap (λ x. x.written) same))
        | inr go ↦ decoded_lem m (decode m.value) n n' refl (rw go at h)
      ]
