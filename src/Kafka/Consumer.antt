-- ===== src/Kafka/Consumer.antt =====
-- consumer.go: what one reader does with a message.
pub mod Outcomes
pub mod Subscribed
pub mod Hops
pub mod Overtaken
use go_ddd.Prelude.{
  ℕ, zero, suc, ◌+◌, ◌-◌, ◌*◌, ◌/◌, ◌%◌, ◌^◌, ◌≤◌, ◌<◌, min, ◌≡◌, refl, sym, ap, subst, ◌∙◌, ◌≢◌,
  ◌↔◌, ◌⊎◌, inl, inr, Bool, true, false, ◌&&◌, ◌||◌, not, Option, none, some, List, [], ◌∷◌, ◌++◌,
  map, append_assoc, append-nil, arith, ltb, leb, nat_beq, nat_beq_iff, ◌==◌, text_eq, text_beq,
  text_beq_iff, text_beq_refl, length, length-append, take, drop, length-take, length-drop,
  take-append-drop, All, All-append, All-filter, filter, Bool-cases, Option-cases, if◌then◌else◌,
}
use go_ddd.Prelude.Int.{ℤ, pos, negsuc, int_succ}
use go_ddd.Prelude.Text.{Text, codes}
use go_ddd.Prelude.Map.{Map, get, put}
use go_ddd.Prelude.Result.{Error, Result, ok, err, other_error}
use go_ddd.Shared.{Time, error_text, joined_text}
use go_ddd.EventBus.{Event, Handler, Middleware, chain, Collected, run_handlers}
use go_ddd.Kafka.{
  Settings, Headers, Layout, retry_headers, attempt_from, not_before_from, decide_outcome, Decision,
  retry, dead_letter,
}

pub record Message : Type 0 where
  pub topic : Text
  pub key : Text
  pub value : Text
  pub headers : Headers

pub record Binding (S : Type 0) : Type 0 where
  pub event_name : Text
  pub handler : Handler S

-- The part of `Bus` that a reader uses.
pub record Bus (S : Type 0) : Type 0 where
  pub settings : Settings
  pub mw : List (Middleware S)
  -- business topic to handlers
  pub bindings : Map (List (Binding S))

-- What a reader has brought about: the subscribers' state, the messages it has written and those
-- it has committed, in order.
pub record Node (S : Type 0) : Type 0 where
  pub sub : S
  pub written : List Message
  pub committed : List Message

module _ {S : Type 0} where
  or_none : Option (List (Binding S)) → List (Binding S)
  or_none none = []
  or_none (some bs) = bs

  -- Bus.Subscribe; a nil handler is `none`.
  unfoldable pub subscribe : Bus S → Text → Option (Handler S) → Result (Bus S)
  unfolding or_none
  subscribe b name none = err (other_error (codes "kafka: eventName and handler are required"))
  subscribe b name (some h) =
      if name == []
      then err (other_error (codes "kafka: eventName and handler are required"))
      else ok (record b {
        bindings = put b.bindings (b.settings.topic_for name) (
            or_none (get b.bindings (b.settings.topic_for name))
            ++ record { event_name = name; handler = chain h b.mw } ∷ []);
      })

  matching : List (Binding S) → Text → List (Handler S)
  matching [] name = []
  matching (b ∷ bs) name =
      let rest = matching bs name in if b.event_name == name then b.handler ∷ rest else rest

  unfoldable pub handlers_for : Bus S → Text → Text → List (Handler S)
  unfolding matching or_none
  handlers_for b topic name = matching (or_none (get b.bindings topic)) name

-- `t.Add(d)`
unfoldable pub add_duration : Time → ℤ → Time
add_duration t (pos d) = t + d
add_duration t (negsuc d) = t - suc d

-- The cluster takes a message or returns an error, by what was written before.
abbrev pub Broker : Type 0
Broker = List Message → Message → Option Error

module _ {S : Type 0} (layout : Layout) (decode : Text → Result Event) (broker : Broker)
    (bus : Bus S) (topic : Text) (now : Time) where
  written_by : Option Error → Message → Node S → Option Error × Node S
  written_by none m n = (none, record n { written = n.written ++ m ∷ [] })
  written_by (some e) m n = (some e, n)

  -- `WriteMessages`
  write : Message → Node S → Option Error × Node S
  unfolding written_by
  write m n = written_by (broker n.written m) m n

  -- An error of the commit is logged only.
  commit : Message → Node S → Node S
  commit m n = record n { committed = n.committed ++ m ∷ [] }

  -- The commit that follows a write, if the write went through.
  commit_if : Message → Option Error × Node S → Node S
  commit_if m (none, n) = commit m n
  commit_if m (some e, n) = n

  retry_message : Message → ℤ → Error → Message
  retry_message m attempt e = record {
    topic = bus.settings.retry_topic_for topic attempt;
    key = m.key;
    value = m.value;
    headers =
        retry_headers layout attempt (add_duration now (bus.settings.backoff attempt)) topic
          (some e);
  }

  dead_message : Message → Error → Message
  dead_message m e = record {
    topic = bus.settings.dlq_topic_for topic;
    key = m.key;
    value = m.value;
    headers = retry_headers layout (int_succ (attempt_from m.headers)) now topic (some e);
  }

  -- deadLetter, with the commit that each caller does when it succeeds
  dead_letter_message : Message → Error → Node S → Node S
  dead_letter_message m e n = commit_if m (write (dead_message m e) n)

  fail_by : Decision → Message → ℤ → Error → Node S → Node S
  fail_by retry m attempt e n = commit_if m (write (retry_message m attempt e) n)
  fail_by dead_letter m attempt e n = dead_letter_message m e n

  unfoldable pub fail : Message → Error → Node S → Node S
  unfolding write commit commit_if retry_message dead_message dead_letter_message fail_by
  fail m e n =
      let attempt = int_succ (attempt_from m.headers) in
      fail_by (decide_outcome attempt bus.settings.max_retries) m attempt e n

  -- The error of the publication is `errors.Join` of those of the handlers.
  settle : Message → Collected × Node S → Option (Node S)
  settle m (none, n) = none
  settle m (some [], n) = some (commit m n)
  settle m (some (e ∷ es), n) = some (fail m (other_error (joined_text (e ∷ es))) n)

  on_node : Collected × S → Node S → Collected × Node S
  on_node (r, s) n = (r, record n { sub = s })

  run_on : List (Handler S) → Event → Node S → Collected × Node S
  run_on hs e n = on_node (run_handlers hs e n.sub) n

  dispatch : Message → Event → List (Handler S) → Node S → Option (Node S)
  dispatch m e [] n = some (commit m n)
  dispatch m e (h ∷ hs) n = settle m (run_on (h ∷ hs) e n)

  decoded : Message → Result Event → Node S → Option (Node S)
  decoded m (err e) n = some (dead_letter_message m e n)
  decoded m (ok e) n = dispatch m e (handlers_for bus topic e.name) n

  -- `handle`, with the question whether the context ends during the wait. `none` is a panic that
  -- no middleware recovers.
  unfoldable pub handle : Bool → Message → Node S → Option (Node S)
  unfolding fail settle commit dead_letter_message on_node run_on dispatch decoded
  handle cancelled m n =
      if ltb now (not_before_from layout m.headers) && cancelled
      then some n
      else decoded m (decode m.value) n

  go_on : Option (Node S) → (Node S → Option (Node S)) → Option (Node S)
  go_on none rest = none
  go_on (some n) rest = rest n

  -- What `run` does with the messages that it fetches, while the context lasts.
  unfoldable pub consume : List Message → Node S → Option (Node S)
  unfolding go_on
  consume [] n = some n
  consume (m ∷ ms) n = go_on (handle false m n) (consume ms)
