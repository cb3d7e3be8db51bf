-- ===== src/Tests/Process.antt =====
-- The wiring of the processes at concrete inputs.
use go_ddd.Prelude.{
  ℕ, suc, ◌+◌, ◌≡◌, refl, ap, true, Option, none, some, List, [], ◌∷◌, ◌++◌, map, arith, text_beq,
  length,
}
use go_ddd.Prelude.Int.{pos}
use go_ddd.Prelude.Map.{Map, get, put}
use go_ddd.Prelude.Text.{codes}
use go_ddd.Prelude.Result.{Error, other_error}
use go_ddd.Shared.{Time}
use go_ddd.EventBus.{Event, subscribe, new_bus, recover, chain}
use go_ddd.Config.{Config, default_config, use_database, use_kafka}
use go_ddd.Outbox.{new_store, pending_count}
use go_ddd.Outbox.Relay.{Options, Signal, tick}
use go_ddd.Outbox.Relay
use go_ddd.Customer.Commands.Tidy.{creates, changes}
use go_ddd.Http.{Request, Response, World, returns, Handler, stack, serve}
use go_ddd.Http.Calls.{sent_status}
use go_ddd.Bootstrap.{register_subscriptions, System, Step, handles, ticks, new_system, run_steps}
use go_ddd.Bootstrap.Feed.{wired_all, register_subscriptions-wired_all}
use go_ddd.Bootstrap.Mirrors.{Mirrors}
use go_ddd.Bootstrap.Tracked.{AllDistinct}
use go_ddd.Bootstrap.Converged.{due_by, run_steps-Mirrors}
use go_ddd.Bootstrap.Build.{local, Answers, Application, build}
use go_ddd.Bootstrap.Build.Balance.{Balanced, build-Balanced}
use go_ddd.Bootstrap.Build.Worker.{build-relays_nothing}
use go_ddd.Bootstrap.Processes.{
  fails, cancelled, relay_first, shuts_down_unread, listen_fails, grpc_background_http, api_run,
}
use go_ddd.Bootstrap.Processes.Reported.{
  count, total, reported, endings, http_errors, http_unread, grpc_errors, grpc_unread,
  api_run-reported,
}
use go_ddd.Bootstrap.Routes.{Documents, routes}
use go_ddd.Bootstrap.Routes.Probes.{outage, probe_status, probe_members, serve-readyz}
use go_ddd.Tests.{tables, uuid, clock}

uuid-AllDistinct : AllDistinct uuid
uuid-AllDistinct i j h = ground (arith, h)

abbrev options : Options
options = record { interval = pos 5; batch_size = pos 1 }

-- A customer is created, the relay ticks, and her address changes.
abbrev steps : List Step
steps =
    handles (creates (codes "Ada") (codes "ada@x.io"))
    ∷ ticks 7
    ∷ handles (changes (codes "u0") (codes "ada@y.io"))
    ∷ []

abbrev times : List Time
times = 8 ∷ 9 ∷ 10 ∷ []

run_steps-Mirrors_example :
    (s : System) × (run_steps tables uuid clock
        (wired_all 1)
        options
        (steps ++ map ticks times)
        new_system
      ≡ some s)
    × (pending_count s.world.outbox ≡ 0)
    × Mirrors 1
        (due_by tables uuid clock 1 options (wired_all 1) (steps ++ map ticks times) new_system)
        s.world.repo
        s.behind
run_steps-Mirrors_example =
    run_steps-Mirrors tables uuid clock 1 options (wired_all 1) steps times
      (register_subscriptions-wired_all 1) uuid-AllDistinct (omega arith)

abbrev config : Config
config = record default_config {
  database = record default_config.database { dsn = codes "postgres://db" };
}

-- The pool is opened, but the database does not answer.
abbrev down : Answers
down = record {
  opening = none;
  ping = some (other_error (codes "connection refused"));
  customer_gateway = none;
  order_gateway = none;
}

build-Balanced_example : Balanced config (build config 1 down)
build-Balanced_example = build-Balanced config 1 down

abbrev up : Answers
up = record down { ping = none }

abbrev application : Application
application = record {
  bus = local (wired_all 1);
  outbox = new_store;
  relay = record { interval = pos 1_000_000_000; batch_size = pos 100 };
  pooled = true;
}

abbrev sends : Event → ℕ → Option Error × ℕ
sends e n = (none, suc n)

build-relays_nothing_example :
    Relay.run sends application.relay (tick 3 ∷ tick 4 ∷ []) application.outbox 0
    ≡ some (record { store = new_store; bus = 0; count = 0 })
unfolding build use_database text_beq use_kafka default_config register_subscriptions subscribe put
    new_bus get recover chain
build-relays_nothing_example =
    build-relays_nothing sends config 1 up application (tick 3 ∷ tick 4 ∷ []) 0 refl

-- The address of the gRPC server is taken, so the relay fails and the HTTP server shuts down, whose
-- own address was taken as well.
api_run-reported_example :
    let all = relay_first (fails (other_error (codes "relay"))) cancelled in
    let http = shuts_down_unread (other_error (codes "http: address in use")) none in
    let grpc = listen_fails (other_error (codes "address in use")) in
    reported (λ e. true) (api_run grpc_background_http http grpc all)
      + (count (λ e. true) (http_unread http) + count (λ e. true) (grpc_unread grpc))
    ≡ count (λ e. true) (http_errors http)
      + count (λ e. true) (grpc_errors grpc)
      + total (λ e. true) (endings all)
api_run-reported_example =
    api_run-reported (λ e. true) grpc_background_http
      (shuts_down_unread (other_error (codes "http: address in use")) none)
      (listen_fails (other_error (codes "address in use")))
      (relay_first (fails (other_error (codes "relay"))) cancelled)

abbrev documents : Documents
documents = record {
  encode_json = λ ms. b'{' ∷ (b'0' + length ms) ∷ [];
  openapi = codes "{}";
  docs = codes "docs";
}

abbrev not_found : Handler ℕ
not_found r w = ([], returns, w)

abbrev pick : Option (Handler ℕ) → Handler ℕ
pick none = not_found
pick (some h) = h

abbrev mux : Map (Handler ℕ) → Handler ℕ
mux table r w = pick (get table (r.method ++ (codes " " ++ r.path))) r w

abbrev request : Request
request = record { method = codes "GET"; path = codes "/readyz"; header = []; logger = none }

abbrev world : World ℕ
world = record { state = 3; log = []; ids = 0 }

abbrev pool : Option (ℕ → Option Error)
pool = some (λ n. some (other_error (codes "connection refused")))

serve-readyz_example :
    let down = outage pool world.state in
    let p = serve (stack uuid (mux (routes documents pool not_found))) request world in
    (res : Response) × (p.0 ≡ some res)
    × (sent_status res ≡ some (probe_status down))
    × (res.body ≡ documents.encode_json (probe_members down))
    × (p.1.state ≡ world.state)
serve-readyz_example =
    serve-readyz documents mux uuid pool not_found request world
      (λ table h r w found. ap (λ o. pick o r w) found) refl refl
