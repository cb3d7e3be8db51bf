-- ===== src/Tests/Kafka.antt =====
-- The Kafka adapter at concrete inputs.
use go_ddd.Prelude.{
  ℕ, zero, suc, ◌-◌, ◌≡◌, refl, ap, ◌⊎◌, false, none, some, [], ◌∷◌, ◌++◌, arith, ◌==◌, text_eq,
  text_beq, length, if◌then◌else◌,
}
use go_ddd.Prelude.Int.{pos}
use go_ddd.Prelude.Map.{get}
use go_ddd.Prelude.Text.{Text, codes}
use go_ddd.Prelude.Text.Decimal.{atoi}
use go_ddd.Prelude.Result.{Result, ok, other_error}
use go_ddd.Shared.{joined_text, Time}
use go_ddd.EventBus.{Event, Handler, returns, run_handlers}
use go_ddd.Kafka.{
  Layout, IsFaithful, Settings, set_defaults, retry_headers, attempt_from, not_before_from,
  header_value, header_original_topic,
}
use go_ddd.Kafka.Retry.{retry_headers-reads}
use go_ddd.Kafka.Consumer.{Message, Bus, Node, Broker, handlers_for, handle, fail, consume}
use go_ddd.Kafka.Consumer.Outcomes.{Passed, Finished, handle-recorded}
use go_ddd.Kafka.Consumer.Hops.{keeps_failing, topics, retry_topics, keeps_failing-topics}
use go_ddd.Kafka.Consumer.Overtaken.{consume-overtakes}
use go_ddd.Tests.{event_1}

-- Times as unary numerals behind a mark.
abbrev marks : ℕ → Text
marks zero = []
marks (suc n) = b'|' ∷ marks n

abbrev print : Time → Text
print t = b'T' ∷ marks t

abbrev layout : Layout
layout = record { format = print; parse = λ s. some (length s - 1) }

length-marks : (n : ℕ) → length (marks n) ≡ n
length-marks zero = refl
length-marks (suc n) = ap suc (length-marks n)

layout-IsFaithful : IsFaithful layout
layout-IsFaithful = record {
  parse-format = λ t. ap some (omega (arith, length-marks t));
  printed = λ t e. absurd (ground (arith, e));
}

retry_headers-reads_example :
    let hs = retry_headers layout (pos 2) 5 (codes "customer.v1.events") none in
    (attempt_from hs ≡ pos 2)
    × (not_before_from layout hs ≡ 5)
    × (header_value hs header_original_topic ≡ codes "customer.v1.events")
retry_headers-reads_example =
    retry_headers-reads layout (pos 2) 5 (codes "customer.v1.events") none layout-IsFaithful
      (omega arith)

-- A handler that counts its events and accepts those whose aggregate is not empty.
abbrev picky : Handler ℕ
picky e n = (
  returns (if e.aggregate_id == [] then some (other_error (codes "no aggregate")) else none),
  suc n,
)

abbrev settings : Settings
settings = set_defaults (record {
  group_id = [];
  topic_for = none;
  max_retries = pos 2;
  backoff = none;
  retry_topic_for = none;
  dlq_topic_for = none;
})

abbrev bus : Bus ℕ
bus = record {
  settings = settings;
  mw = [];
  bindings =
      (
        codes "customer.v1.events",
        record { event_name = codes "customer.v1.created"; handler = picky } ∷ [],
      )
      ∷ [];
}

-- An envelope whose value is the id of its aggregate.
abbrev decode : Text → Result Event
decode v = ok (record event_1 { aggregate_id = v })

abbrev bad : Message
bad = record { topic = codes "customer.v1.events"; key = codes "k"; value = []; headers = [] }

abbrev good : Message
good = record {
  topic = codes "customer.v1.events";
  key = codes "k";
  value = codes "u0";
  headers = [];
}

abbrev start : Node ℕ
start = record { sub = 0; written = []; committed = [] }

abbrev open_broker : Broker
open_broker ms m = none

abbrev closed_broker : Broker
closed_broker ms m = some (other_error (codes "no leader"))

handled :
    (n : Node ℕ) × (handle layout decode open_broker bus
        (codes "customer.v1.events")
        9
        false
        bad
        start
      ≡ some n)
unfolding handle not_before_from handlers_for get text_beq run_handlers set_defaults joined_text
handled = (
  fail layout decode open_broker bus (codes "customer.v1.events") 9 bad
      (other_error (codes "no aggregate")) (record { sub = 1; written = []; committed = [] }),
  refl,
)

handle-recorded_example :
    Passed layout decode open_broker bus (codes "customer.v1.events") 9 bad start handled.0
    ⊎ Finished layout decode open_broker bus (codes "customer.v1.events") 9 bad start handled.0
handle-recorded_example =
    handle-recorded layout decode open_broker bus (codes "customer.v1.events") 9 false bad start
      handled.0 handled.1

keeps_failing-topics_example :
    topics layout decode open_broker bus
      (codes "t")
      9
      (keeps_failing layout decode open_broker bus
        (codes "t")
        9
        3
        bad
        (other_error (codes "down"))
        start).written
    ≡ []
      ++ (retry_topics layout decode open_broker bus (codes "t") 9 1 2
          ++ bus.settings.dlq_topic_for (codes "t") ∷ [])
unfolding set_defaults attempt_from header_value atoi
keeps_failing-topics_example =
    keeps_failing-topics layout decode open_broker bus (codes "t") 9 2 bad
      (other_error (codes "down")) start 0 2 refl refl (omega arith) (omega arith) layout-IsFaithful
      (λ ms m. refl)

consume-overtakes_example :
    consume layout decode closed_broker bus (codes "customer.v1.events") 9 (bad ∷ good ∷ []) start
    ≡ some (record { sub = 2; written = []; committed = good ∷ [] })
unfolding handlers_for get text_beq run_handlers
consume-overtakes_example =
    consume-overtakes layout decode closed_broker bus (codes "customer.v1.events") 9 bad good start
      (other_error (codes "no aggregate")) [] 1 2 (λ w. (other_error (codes "no leader"), refl))
      (record event_1 { aggregate_id = [] }, picky, [], refl, refl, refl)
      (event_1, picky, [], refl, refl, refl)
