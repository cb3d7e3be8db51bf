-- ===== src/Agentctl/Publish.antt =====
-- cmd/agentctl/main.go: `publish` sends an event on the way of the application itself.
pub mod Found
use go_ddd.Prelude.{
  ℕ, suc, ◌≡◌, ◌≢◌, refl, sym, ap, subst, ◌∙◌, Bool, true, false, ◌||◌, ◌&&◌, Option, none, some,
  List, [], ◌∷◌, ◌++◌, arith, ◌==◌, text_eq, text_beq, text_beq_iff, text_beq_refl, take,
  Bool-cases, inl, inr, ◌⊎◌, if◌then◌else◌,
}
use go_ddd.Prelude.Int.{ℤ, pos}
use go_ddd.Prelude.Text.{Text, codes, index_byte}
use go_ddd.Prelude.Result.{Error, Result, ok, err, other_error, ◌>>=◌}
use go_ddd.Shared.{Time, error_text}
use go_ddd.EventBus.{Event, Payload}
use go_ddd.Kafka.{Settings, Config, set_defaults, default_topic_for}
use go_ddd.Kafka.Consumer.{Message}
use go_ddd.Kafka.Running.{Writer, publish, publish_error}
use go_ddd.Agentctl.{
  or_default, read_payload, Stored, Line, event_line, ConsumeFlags, consume_topic, wanted, asks,
}
use go_ddd.Agentctl.Consume.{lines_of}

pub record PublishFlags : Type 0 where
  pub name : Text
  pub topic : Text
  pub source : Text
  pub aggregate_id : Text
  pub version : ℤ
  pub payload : Text
  pub payload_file : Text
  pub correlation_id : Text
  pub causation_id : Text
  pub id : Text

before_dot : Option ℕ → Text → Text
before_dot none name = name
before_dot (some i) name = take i name

-- The source of the event: by default the first part of its name.
source_for : PublishFlags → Text
unfolding before_dot
source_for f = if f.source == [] then before_dot (index_byte b'.' f.name) f.name else f.source

override : Text → Option (Text → Text)
override topic = if topic == [] then none else some (λ name. topic)

-- The configuration of the bus: the defaults, save for -topic.
unfoldable pub publish_settings : PublishFlags → Settings
unfolding override
publish_settings f = set_defaults (record {
  group_id = [];
  topic_for = override f.topic;
  max_retries = pos 0;
  backoff = none;
  retry_topic_for = none;
  dlq_topic_for = none;
})

-- The clock, the generator of ids with the count of those drawn, and package encoding/json.
pub record Machine : Type 0 where
  pub now : Time
  pub new_id : ℕ → Text
  pub read_file : Text → Result Text
  pub json_valid : Text → Bool
  pub payload_of : Text → Payload

module _ (machine : Machine) where
  checked_json : Text → Result Text
  checked_json body =
      if machine.json_valid body
      then ok body
      else err (other_error (codes "-payload/-payload-file must be valid JSON"))

  checked_payload : PublishFlags → Result Text
  unfolding checked_json
  checked_payload f =
      if f.name == []
      then err (other_error (codes "-name is required"))
      else read_payload f.payload f.payload_file machine.read_file >>= checked_json

  -- The event, and the count of the ids drawn after it.
  event_for : PublishFlags → Text → ℕ → Event × ℕ
  unfolding source_for
  event_for f body n =
      let (event_id, n') = or_default f.id machine.new_id n in
      let (correlation, n'') = or_default f.correlation_id machine.new_id n' in
      (
        record {
          id = event_id;
          name = f.name;
          source = source_for f;
          aggregate_id = f.aggregate_id;
          occurred_at = machine.now;
          version = f.version;
          correlation_id = correlation;
          causation_id = f.causation_id;
          payload = machine.payload_of body;
          metadata = none;
        },
        n'',
      )

  -- What is reported: the event, and the topic that is named for it.
  pub record Report : Type 0 where
    pub event : Event
    pub topic : Text

  reported : PublishFlags → Event → Option Error → Result Report
  reported f e (some x) = err (other_error (codes "publish: " ++ error_text x))
  reported f e none =
      ok (record { event = e; topic = if f.topic == [] then default_topic_for f.name else f.topic })

  module _ {W : Type 0} (encode : Event → Result Text) (writer : Writer W) where
    published : PublishFlags → Result Text → ℕ → W → Result Report × (ℕ × W)
    unfolding event_for reported
    published f (err e) n w = (err e, (n, w))
    published f (ok body) n w =
        let (e, n') = event_for f body n in
        let (r, w') = publish encode (publish_settings f) writer (e ∷ []) w in
        (reported f e r, (n', w'))

    -- `runPublish`
    unfoldable pub run_publish : PublishFlags → ℕ → W → Result Report × (ℕ × W)
    unfolding checked_payload published
    run_publish f n w = published f (checked_payload f) n w
