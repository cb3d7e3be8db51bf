-- ===== src/Kafka/Consumer/Overtaken.antt =====
-- A message that could not be sent on, and the one after it.
use go_ddd.Prelude.{◌≡◌, refl, ap, ◌∙◌, false, some, List, [], ◌∷◌, ◌++◌, arith, text_eq}
use go_ddd.Prelude.Int.{ℤ, int_succ}
use go_ddd.Prelude.Text.{Text}
use go_ddd.Prelude.Result.{Error, Result, ok, other_error}
use go_ddd.Shared.{Time, joined_text}
use go_ddd.EventBus.{Event, Handler, Collected, run_handlers}
use go_ddd.Kafka.{Layout, attempt_from, decide_outcome, Decision, retry, dead_letter}
use go_ddd.Kafka.Consumer.{
  Message, Bus, Node, Broker, handlers_for, write, written_by, commit, commit_if, retry_message,
  dead_message, dead_letter_message, fail_by, fail, settle, on_node, run_on, dispatch, decoded,
  handle, go_on, consume,
}

module _ {S : Type 0} (layout : Layout) (decode : Text → Result Event) (broker : Broker)
    (bus : Bus S) (topic : Text) (now : Time) where
  handle-decoded :
      (m : Message) (e : Event) (h : Handler S) (hs : List (Handler S)) (n : Node S)
      → decode m.value ≡ ok e
      → handlers_for bus topic e.name ≡ h ∷ hs
      → handle layout decode broker bus topic now false m n
        ≡ settle layout decode broker bus topic now m
            (on_node layout decode broker bus topic now (run_handlers (h ∷ hs) e n.sub) n)
  unfolding handle decoded dispatch run_on
  handle-decoded m e h hs n known found = ground (arith, known, found)

  fail_by-refused :
      (d : Decision) (m : Message) (attempt : ℤ) (e : Error) (n : Node S)
      → ((w : Message) → (x : Error) × (broker n.written w ≡ some x))
      → fail_by layout decode broker bus topic now d m attempt e n ≡ n
  unfolding fail_by dead_letter_message write written_by commit_if
  fail_by-refused retry m attempt e n refuses =
      rw (refuses (retry_message layout decode broker bus topic now m attempt e)).1 refl
  fail_by-refused dead_letter m attempt e n refuses =
      rw (refuses (dead_message layout decode broker bus topic now m e)).1 refl

  -- Handlers there are for the message, and they end like this on the state `s`.
  abbrev pub Runs : Message → S → Collected × S → Type 0
  Runs m s r =
      (e : Event) × (h : Handler S) × (hs : List (Handler S)) × (decode m.value ≡ ok e)
      × (handlers_for bus topic e.name ≡ h ∷ hs)
      × (run_handlers (h ∷ hs) e s ≡ r)

  handle-fails :
      (m : Message) (n : Node S) (x : Error) (xs : List Error) (s : S)
      → Runs m n.sub (some (x ∷ xs), s)
      → ((w : Message) → (y : Error) × (broker n.written w ≡ some y))
      → handle layout decode broker bus topic now false m n ≡ some (record n { sub = s })
  unfolding settle on_node fail
  handle-fails m n x xs s (e, h, hs, known, found, ran) refuses =
      handle-decoded m e h hs n known found
      ∙ rw ran (
          ap some (
            fail_by-refused
              (decide_outcome (int_succ (attempt_from m.headers)) bus.settings.max_retries) m
              (int_succ (attempt_from m.headers)) (other_error (joined_text (x ∷ xs)))
              (record n { sub = s }) refuses))

  handle-serves :
      (m : Message) (n : Node S) (s : S)
      → Runs m n.sub (some [], s)
      → handle layout decode broker bus topic now false m n
        ≡ some (record { sub = s; written = n.written; committed = n.committed ++ m ∷ [] })
  unfolding settle on_node commit
  handle-serves m n s (e, h, hs, known, found, ran) =
      handle-decoded m e h hs n known found ∙ rw ran refl

  -- If the handlers of one message fail while the cluster refuses every write, and those of the
  -- next message succeed, then the reader commits the next one although the first is neither served
  -- nor written to any topic.
  pub consume-overtakes :
      (m m' : Message) (n : Node S) (x : Error) (xs : List Error) (s s' : S)
      → ((w : Message) → (y : Error) × (broker n.written w ≡ some y))
      → Runs m n.sub (some (x ∷ xs), s)
      → Runs m' s (some [], s')
      → consume layout decode broker bus topic now (m ∷ m' ∷ []) n
        ≡ some (record { sub = s'; written = n.written; committed = n.committed ++ m' ∷ [] })
  unfolding consume go_on
  consume-overtakes m m' n x xs s s' refuses fails serves =
      ap
        (λ r.
          go_on layout decode broker bus topic now r
            (consume layout decode broker bus topic now (m' ∷ [])))
        (handle-fails m n x xs s fails refuses)
      ∙ ap (λ r. go_on layout decode broker bus topic now r some)
          (handle-serves m' (record n { sub = s }) s' serves)
