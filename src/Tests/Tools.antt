-- ===== src/Tests/Tools.antt =====
-- The tool agentctl at concrete inputs.
use go_ddd.Prelude.{
  ℕ, suc, ◌-◌, length, ◌≡◌, refl, true, none, List, [], ◌∷◌, ◌++◌, arith, map, take, text_eq,
  text_beq,
}
use go_ddd.Prelude.Int.{pos}
use go_ddd.Prelude.Text.{Text, codes, index_byte}
use go_ddd.Prelude.Result.{Result, ok, err, other_error}
use go_ddd.EventBus.{Event, object}
use go_ddd.Kafka.{default_topic_for}
use go_ddd.Kafka.Consumer.{Message}
use go_ddd.Kafka.Running.{Writer, publish}
use go_ddd.Agentctl.{
  Stored, event_line, ConsumeFlags, Fetch, fetched, expires, consume_topic, run_consume,
  read_payload, or_default,
}
use go_ddd.Agentctl.Consume.{lines_of, verdict, run_consume-take}
use go_ddd.Agentctl.Tap.{Partition, Cluster, OffsetMark, EventsFlags, list_partitions}
use go_ddd.Agentctl.Tap.Range.{since}
use go_ddd.Agentctl.Publish.{PublishFlags, Machine, Report, run_publish}
use go_ddd.Agentctl.Publish.Found.{run_publish-found}
use go_ddd.Tests.{event_1}

-- The value of a message is the id of its aggregate, and an empty one is no envelope.
abbrev decode : Text → Result Event
decode [] = err (other_error (codes "unexpected end of JSON input"))
decode (c ∷ v) = ok (record event_1 { aggregate_id = c ∷ v })

abbrev stored : ℕ → Text → Stored
stored n v = record { offset = n; value = v; headers = [] }

abbrev log : List Stored
log = stored 0 (codes "u0") ∷ stored 1 [] ∷ stored 2 (codes "u1") ∷ stored 3 (codes "u0") ∷ []

abbrev consume_flags : ConsumeFlags
consume_flags = record {
  topic = [];
  name = codes "customer.v1.created";
  aggregate_id = codes "u0";
  count = pos 2;
}

abbrev topic : Text
topic = codes "customer.v1.events"

run_consume-take_example :
    let ls = take 2 (lines_of decode consume_flags topic log) in
    run_consume decode consume_flags (λ t. map fetched log ++ expires ∷ [])
    ≡ record { lines = ls; error = verdict decode consume_flags topic ls }
unfolding consume_topic text_beq default_topic_for
run_consume-take_example =
    run_consume-take decode consume_flags (λ t. map fetched log ++ expires ∷ []) topic 2 log [] refl
      refl refl

abbrev partition : Partition
partition = record { topic = codes "t"; id = 0 }

-- A cluster of one topic and an internal one, whose partitions keep the messages from the first.
abbrev cluster : ℕ → Cluster
cluster end = record {
  partitions = ok (record { topic = codes "_offsets"; id = 0 } ∷ partition ∷ []);
  bounds = λ p. ok (0, end);
  messages_from = λ p at. ok (since at log);
}

abbrev events_flags : EventsFlags
events_flags = record { topic_matches = λ t. true; name = []; aggregate_id = [] }

listed : (n : ℕ) → list_partitions (codes "b" ∷ []) (cluster n) ≡ ok (partition ∷ [])
unfolding list_partitions
listed n = refl

abbrev mark : OffsetMark
mark = (codes "t/0", pos 2) ∷ []

abbrev publish_flags : PublishFlags
publish_flags = record {
  name = codes "customer.v1.created";
  topic = [];
  source = [];
  aggregate_id = codes "u0";
  version = pos 1;
  payload = codes "{}";
  payload_file = [];
  correlation_id = [];
  causation_id = [];
  id = codes "e9";
}

abbrev machine : Machine
machine = record {
  now = 7;
  new_id = λ n. b'n' ∷ n ∷ [];
  read_file = λ path. err (other_error (codes "no such file"));
  json_valid = λ s. true;
  payload_of = λ s. object [];
}

abbrev encode : Event → Result Text
encode e = ok (e.name ++ e.aggregate_id)

abbrev collects : Writer (List Message)
collects ms log = (none, log ++ ms)

-- The event that is published, and the codec that gives it back.
abbrev published_event : Event
published_event = record {
  id = codes "e9";
  name = codes "customer.v1.created";
  source = codes "customer";
  aggregate_id = codes "u0";
  occurred_at = 7;
  version = pos 1;
  correlation_id = machine.new_id 4;
  causation_id = [];
  payload = object [];
  metadata = none;
}

abbrev to_find : ConsumeFlags
to_find = record consume_flags { count = pos 1 }

abbrev report : Report machine
report = record { event = published_event; topic = topic }

abbrev log_after : List Message
log_after = (run_publish machine encode collects publish_flags 4 []).1.1

-- Partition 0 of the topic, with another message before the one that was sent.
abbrev sent_value : Text
sent_value = codes "customer.v1.createdu0"

abbrev read_one : Text → Result Event
read_one [] = err (other_error (codes "unexpected end of JSON input"))
read_one (c ∷ v) = ok published_event

abbrev partition_0 : Text → List Fetch
partition_0 t =
    map fetched (stored 0 [] ∷ stored 1 sent_value ∷ stored 2 sent_value ∷ []) ++ expires ∷ []

run_publish-found_example :
    ((m : Message) × (collects (m ∷ []) [] ≡ (none, log_after))
      × (m.topic ≡ report.topic)
      × (m.key ≡ publish_flags.aggregate_id)
      × (m.value ≡ sent_value))
    × (run_consume read_one to_find partition_0 ≡ record {
      lines =
          lines_of read_one to_find topic (stored 0 [] ∷ [])
          ++ event_line topic 0 (stored 1 sent_value) published_event
            ∷ take
                (1 - suc (length (lines_of read_one to_find topic (stored 0 [] ∷ []))))
                (lines_of read_one to_find topic (stored 2 sent_value ∷ []));
      error = none;
    })
unfolding run_publish text_beq default_topic_for read_payload publish or_default index_byte
run_publish-found_example =
    run_publish-found machine encode collects publish_flags to_find 4 5 [] log_after report read_one
      sent_value published_event partition_0 (stored 0 [] ∷ []) (stored 2 sent_value ∷ [])
      (stored 1 sent_value) [] 1 refl refl refl refl refl refl refl refl refl refl refl
      (omega arith)
