-- ===== src/Bootstrap/Build.antt =====
-- application.go, database.go and messaging.go: what `Build` chooses, opens and closes.
pub mod Balance
pub mod Worker
use go_ddd.Prelude.{
  ℕ, zero, suc, ◌-◌, ◌≡◌, refl, Bool, true, false, Option, none, some, List, [], ◌∷◌, ◌++◌,
  if◌then◌else◌,
}
use go_ddd.Prelude.Result.{Error, Result, ok, err, ◌>>=◌}
use go_ddd.Shared.{Time}
use go_ddd.EventBus.{Bus, new_bus}
use go_ddd.Kafka.{set_defaults, exponential_backoff}
use go_ddd.Kafka.Consumer
use go_ddd.Config.{Config, use_kafka, use_database}
use go_ddd.Outbox.{Store, new_store}
use go_ddd.Outbox.Relay.{Options}
use go_ddd.Bootstrap.{Behind, in_process, over_kafka, register_subscriptions, standard}

-- eventbus.Bus: one of the two adapters.
pub data AppBus : Type 0 where
  local : Bus Behind → AppBus
  kafka : Consumer.Bus Behind → AppBus

-- kafka.New
new_kafka_bus : Config → Consumer.Bus Behind
new_kafka_bus cfg = record {
  settings = set_defaults (record {
    group_id = cfg.kafka.group_id;
    topic_for = none;
    max_retries = cfg.kafka.max_retries;
    backoff = some (exponential_backoff cfg.kafka.retry_base_delay cfg.kafka.retry_max_delay);
    retry_topic_for = none;
    dlq_topic_for = none;
  });
  mw = standard;
  bindings = [];
}

-- `newBus`
unfoldable pub choose_bus : Config → AppBus
unfolding new_kafka_bus
choose_bus cfg = if use_kafka cfg then kafka (new_kafka_bus cfg) else local (new_bus standard)

pub subscribed : Time → AppBus → Result AppBus
subscribed now (local bus) = register_subscriptions in_process now bus >>= λ b. ok (local b)
subscribed now (kafka bus) = register_subscriptions over_kafka now bus >>= λ b. ok (kafka b)

-- What the process does to its pool of connections.
pub data PoolCall : Type 0 where
  opened closed : PoolCall

-- The answers of sql.Open and of the first ping, and of the generated RegisterGateway of both
-- contexts.
pub record Answers : Type 0 where
  pub opening : Option Error
  pub ping : Option Error
  pub customer_gateway : Option Error
  pub order_gateway : Option Error

-- database.Open
open_database : Option Error → Option Error → Result (Unit {0}) × List PoolCall
open_database (some e) ping = (err e, [])
open_database none (some e) = (err e, opened ∷ closed ∷ [])
open_database none none = (ok tt, opened ∷ [])

-- `newPersistence`: whether there is a pool.
unfoldable pub new_persistence : Config → Answers → Result Bool × List PoolCall
unfolding open_database
new_persistence cfg a =
    if use_database cfg
    then (let (r, calls) = open_database a.opening a.ping in (r >>= λ done. ok true, calls))
    else (ok false, [])

-- persistence.close
unfoldable pub close_persistence : Bool → List PoolCall
close_persistence true = closed ∷ []
close_persistence false = []

pub record Application : Type 0 where
  pub bus : AppBus
  pub outbox : Store
  pub relay : Options
  pub pooled : Bool

-- `registerGateway`
first_error : Option Error → Option Error → Option Error
first_error (some e) o = some e
first_error none o = o

finished : Config → Bool → List PoolCall → Result AppBus → Result Application × List PoolCall
finished cfg pooled calls (err e) = (err e, calls ++ close_persistence pooled)
finished cfg pooled calls (ok bus) = (
  ok (record {
    bus = bus;
    outbox = new_store;
    relay = record { interval = cfg.outbox.poll_interval; batch_size = cfg.outbox.batch_size };
    pooled = pooled;
  }),
  calls,
)

wire : Config → Time → Bool → List PoolCall → Option Error → Result Application × List PoolCall
unfolding finished
wire cfg now pooled calls (some e) = (err e, calls ++ close_persistence pooled)
wire cfg now pooled calls none = finished cfg pooled calls (subscribed now (choose_bus cfg))

-- `Build`, up to the servers, with the calls on the pool.
build_with :
    Config → Time → Answers → Result Bool × List PoolCall → Result Application × List PoolCall
build_with cfg now a (err e, calls) = (err e, calls)
build_with cfg now a (ok pooled, calls) =
    wire cfg now pooled calls (first_error a.customer_gateway a.order_gateway)

unfoldable pub build : Config → Time → Answers → Result Application × List PoolCall
unfolding build_with wire finished first_error subscribed choose_bus new_persistence
    close_persistence
build cfg now a = build_with cfg now a (new_persistence cfg a)

-- Application.Close: an error of the bus is ignored.
unfoldable pub close : Application → List PoolCall
unfolding close_persistence
close app = close_persistence app.pooled
