-- ===== src/Tests/Web.antt =====
-- The middleware of the servers, and the running Kafka bus, at concrete inputs.
use go_ddd.Prelude.{
  ℕ, suc, ◌≡◌, refl, ◌⊎◌, true, false, none, some, List, [], ◌∷◌, ◌++◌, arith, text_eq, text_beq,
}
use go_ddd.Prelude.Int.{pos}
use go_ddd.Prelude.Map.{get, put}
use go_ddd.Prelude.Text.{Text, codes}
use go_ddd.Prelude.Text.Decimal.{atoi}
use go_ddd.Prelude.Result.{Result, ok, err, not_found_code, status_error, other_error}
use go_ddd.EventBus.{Event, Handler, returns, chain, run_handlers}
use go_ddd.Shared.{joined_text}
use go_ddd.Kafka.{
  default_topic_for, Layout, Settings, set_defaults, attempt_from, header_value, not_before_from,
}
use go_ddd.Kafka.Consumer.{
  Message, Binding, Bus, Node, Broker, subscribe, handlers_for, handle, fail,
}
use go_ddd.Kafka.Running.{Writer, Lifecycle, idle, start, readers_for, publish, publish_error}
use go_ddd.Kafka.Running.Reached.{Reads, handle-Reads}
use go_ddd.Kafka.Running.Published.{publish-Reads}
use go_ddd.Http
use go_ddd.Http.{
  write_header, write, Request, World, panics, into, request_id_for, request_id_header, stack,
  serve,
}
use go_ddd.Http.Stack.{Answers, serve-stack}
use go_ddd.Http.Tag.{Shows, Chosen, serve-request_id}
use go_ddd.Grpc.Interceptors
use go_ddd.Grpc.Interceptors.{
  Logged, Interceptor, Reply, replies, interceptors, Settled, interceptors_settle,
}
use go_ddd.Tests.{event_1, uuid}

abbrev request : Request
request = record { method = codes "GET"; path = codes "/api"; header = []; logger = none }

abbrev world : World ℕ
world = record { state = 0; log = []; ids = 4 }

-- Routes that write a part of an answer and then panic.
abbrev broken : Http.Handler ℕ
broken r w = (
  write_header (pos 201) ∷ write (codes "par") ∷ [],
  panics (codes "boom"),
  record w { state = 1 },
)

serve-stack_example :
    let tag = request_id_for uuid request world in
    let r = into request ((codes "request_id", tag.0) ∷ []) in
    Answers tag.0 r (broken r tag.1) (serve (stack uuid broken) request world)
serve-stack_example = serve-stack uuid broken request world

abbrev quiet : Http.Handler ℕ
quiet r w = (write (codes "ok") ∷ [], Http.returns, w)

abbrev quiet_answer : Http.Response
quiet_answer = record {
  header = (request_id_header, uuid 4) ∷ [];
  sent = some (pos 200, (request_id_header, uuid 4) ∷ []);
  body = codes "ok";
}

serve-request_id_example :
    (rid : Text) × Chosen uuid request world rid
    × (get quiet_answer.header request_id_header ≡ some rid)
    × Shows rid quiet_answer.sent
unfolding serve stack request_id_for get put text_beq
serve-request_id_example = serve-request_id uuid quiet request world quiet_answer (tt, tt) refl

abbrev missing : Interceptors.Handler ℕ ℕ
missing (s, log) = (replies (err (status_error not_found_code (codes "no such id"))), (suc s, log))

abbrev chained : List (Interceptor ℕ ℕ) → Interceptor ℕ ℕ
chained [] method handler = handler
chained (i ∷ is) method handler = i method (chained is method handler)

interceptors_settle_example :
    Settled (codes "/Get") (missing (0, [])) (chained interceptors (codes "/Get") missing (0, []))
interceptors_settle_example =
    interceptors_settle chained (codes "/Get") missing (0, [])
      (λ method h s. refl, λ i is method h s. refl)

-- A handler that counts its events and fails at each.
abbrev failing : Handler ℕ
failing e n = (returns (some (other_error (codes "down"))), suc n)

abbrev settings : Settings
settings = set_defaults (record {
  group_id = [];
  topic_for = none;
  max_retries = pos 2;
  backoff = none;
  retry_topic_for = none;
  dlq_topic_for = none;
})

abbrev topic : Text
topic = codes "customer.v1.events"

abbrev binding : Binding ℕ
binding = record { event_name = codes "customer.v1.created"; handler = failing }

abbrev new_bus : Bus ℕ
new_bus = record { settings = settings; mw = []; bindings = [] }

abbrev bus : Bus ℕ
bus = record new_bus { bindings = (topic, binding ∷ []) ∷ [] }

abbrev running : Lifecycle
running = record { started = true; readers = readers_for settings (topic ∷ []) }

abbrev layout : Layout
layout = record { format = λ t. b'T' ∷ []; parse = λ s. some 0 }

abbrev decode : Text → Result Event
decode v = ok event_1

abbrev encode : Event → Result Text
encode e = ok e.id

abbrev open_broker : Broker
open_broker ms m = none

abbrev collects : Writer (List Message)
collects ms log = (none, log ++ ms)

abbrev first_try : Message
first_try = record { topic = topic; key = codes "u0"; value = codes "v"; headers = [] }

abbrev fresh_node : Node ℕ
fresh_node = record { sub = 0; written = []; committed = [] }

abbrev failed_node : Node ℕ
failed_node =
    fail layout decode open_broker bus topic 9 first_try (other_error (codes "down"))
      (record fresh_node { sub = 1 })

started_bus : start bus idle ≡ ok running
unfolding start
started_bus = refl

handle-Reads_example :
    (failed_node.written ≡ [])
    ⊎ ((w : Message) × (failed_node.written ≡ [] ++ w ∷ [])
        × ((w.topic ≡ settings.dlq_topic_for topic) ⊎ Reads w.topic topic running.readers))
unfolding handle not_before_from handlers_for get text_beq run_handlers set_defaults attempt_from
    header_value atoi joined_text
handle-Reads_example =
    handle-Reads layout decode open_broker bus topic 9 (binding ∷ []) running 2 0 false first_try
      fresh_node failed_node refl started_bus refl refl (omega arith) refl

publish-Reads_example :
    (m : Message) × (publish encode bus.settings collects (event_1 ∷ []) []
      ≡ (publish_error (collects (m ∷ []) []).0, (collects (m ∷ []) []).1))
    × (m.value ≡ event_1.id)
    × (m.key ≡ event_1.aggregate_id)
    × Reads m.topic m.topic running.readers
    × (handlers_for bus m.topic event_1.name
        ≡ handlers_for new_bus m.topic event_1.name ++ chain failing new_bus.mw ∷ [])
unfolding subscribe set_defaults get put chain text_beq default_topic_for
publish-Reads_example =
    publish-Reads encode collects new_bus bus failing event_1 event_1.id running [] refl started_bus
      refl
