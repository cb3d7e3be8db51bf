-- ===== src/Bootstrap.antt =====
-- internal/bootstrap: the choice of the bus, the subscriptions of every context, and the relay over
-- the bus in process.
pub mod Feed
pub mod Mirrors
pub mod Tracked
pub mod Converged
pub mod Build
pub mod Routes
pub mod Processes
use go_ddd.Prelude.{ℕ, ◌≡◌, Option, none, some, List, [], ◌∷◌, ◌++◌, ◌==◌, text_eq, if◌then◌else◌}
use go_ddd.Prelude.Int.{ℤ}
use go_ddd.Prelude.Text.{Text, codes}
use go_ddd.Prelude.Result.{Error, Result, ok, err, other_error, ◌>>=◌}
use go_ddd.Shared.{Time, joined_text}
use go_ddd.EventBus.{
  Event, Handler, Middleware, Outcome, Bus, Collected, new_bus, subscribe, publish, recover,
  logging,
}
use go_ddd.Kafka.{set_defaults, exponential_backoff}
use go_ddd.Kafka.Consumer
use go_ddd.Config.{Config, use_kafka}
use go_ddd.Outbox.{Store}
use go_ddd.Outbox.Relay.{Options, Pass, drain, with_defaults}
use go_ddd.Customer.Messaging.{
  event_customer_created, event_customer_email_changed, event_customer_deactivated, on_order_placed,
}
use go_ddd.Customer.ReadModel.{Rows, on_created, on_email_changed, on_deactivated}
use go_ddd.Prelude.Text.Trim.Lower.{CaseTables}
use go_ddd.Customer.Commands.{World, new_world}
use go_ddd.Customer.Commands.Tidy.{Command, run}
use go_ddd.Contexts.{Welcome, greet}

-- What the subscribers keep in the in-memory profile: the read model, and the welcomes that were
-- sent.
pub record Behind : Type 0 where
  pub rows : Rows
  pub welcomes : List Welcome

abbrev pub nobody : Behind
nobody = record { rows = []; welcomes = [] }

unfoldable pub on_rows : Handler Rows → Handler Behind
on_rows h e b = let (o, rows) = h e b.rows in (o, record b { rows = rows })

unfoldable pub on_welcomes : Handler (List Welcome) → Handler Behind
on_welcomes h e b = let (o, sent) = h e b.welcomes in (o, record b { welcomes = sent })

-- eventbus.Subscriber, which both adapters implement.
pub record Subscriber (B : Type 0) : Type 0 where
  pub subscribe_to : B → Text → Option (Handler Behind) → Result B

abbrev pub in_process : Subscriber (Bus Behind)
in_process = record { subscribe_to = subscribe }

abbrev pub over_kafka : Subscriber (Consumer.Bus Behind)
over_kafka = record { subscribe_to = Consumer.subscribe }

module _ {B : Type 0} (subscriber : Subscriber B) (now : Time) where
  -- RegisterSubscriptions of the customer module: the read model, then the inbound handlers.
  register_customer : B → Result B
  unfolding on_rows
  register_customer bus = do
    bus ← subscriber.subscribe_to bus event_customer_created (some (on_rows (on_created now)))
    bus ← subscriber.subscribe_to bus event_customer_email_changed (some (on_rows on_email_changed))
    bus ← subscriber.subscribe_to bus event_customer_deactivated (some (on_rows on_deactivated))
    subscriber.subscribe_to bus (codes "order.v1.placed") (some on_order_placed)

  -- RegisterSubscriptions of the notification module
  register_notification : B → Result B
  unfolding on_welcomes
  register_notification bus =
      subscriber.subscribe_to bus event_customer_created (some (on_welcomes greet))

  -- `registerSubscriptions`
  unfoldable pub register_subscriptions : B → Result B
  unfolding register_customer register_notification
  register_subscriptions bus = register_customer bus >>= register_notification

-- The middleware of `newBus`.
abbrev pub standard : {S : Type 0} → List (Middleware S)
standard = recover ∷ logging ∷ []

-- `errors.Join`. A panic of a handler is one of its errors, since Recover is the outermost.
joined : Collected → Option Error
unfolding joined_text
joined none = some (other_error (codes "panic"))
joined (some []) = none
joined (some (x ∷ xs)) = some (other_error (joined_text (x ∷ xs)))

-- What the relay calls for one event: `Publish` of the bus in process.
unfoldable pub deliver : Bus Behind → Event → Behind → Option Error × Behind
unfolding joined
deliver bus e b = let (r, b') = publish bus (e ∷ []) b in (joined r, b')

-- `DrainOutbox`, one pass of the relay
unfoldable pub drain_outbox : Bus Behind → Options → Time → Store → Behind → Option (Pass Behind)
unfolding deliver
drain_outbox bus opts now s b = drain (deliver bus) now (with_defaults opts).batch_size s b

-- A process in the in-memory profile: what the requests write, and what the subscribers keep.
pub record System : Type 0 where
  pub world : World
  pub behind : Behind

abbrev pub new_system : System
new_system = record { world = new_world; behind = nobody }

-- What happens to it: a command, or a tick of the relay.
pub data Step : Type 0 where
  handles : Command → Step
  ticks : Time → Step

relayed : World → Option (Pass Behind) → Option System
relayed w none = none
relayed w (some p) = some (record { world = record w { outbox = p.store }; behind = p.bus })

module _ (tables : CaseTables) (uuid : ℕ → Text) (clock : ℕ → Time) (bus : Bus Behind)
    (opts : Options) where
  unfoldable pub step : Step → System → Option System
  unfolding relayed drain_outbox
  step (handles c) s = some (record s { world = (run tables uuid clock c s.world).1 })
  step (ticks now) s = relayed s.world (drain_outbox bus opts now s.world.outbox s.behind)

  unfoldable pub run_steps : List Step → System → Option System
  unfolding step
  run_steps [] s = some s
  run_steps (x ∷ xs) s = elim (step x s) [ none ↦ none | some s' ↦ run_steps xs s' ]
