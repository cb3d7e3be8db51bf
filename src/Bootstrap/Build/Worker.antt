-- ===== src/Bootstrap/Build/Worker.antt =====
-- What a build wires, and what that means for the worker process (cmd/worker).
use go_ddd.Prelude.{◌≡◌, refl, subst, Bool, Option, none, some, List, arith}
use go_ddd.Prelude.Result.{Error, Result, ok, err, ok_inj}
use go_ddd.Shared.{Time}
use go_ddd.EventBus.{Event}
use go_ddd.Config.{Config}
use go_ddd.Outbox.{new_store}
use go_ddd.Outbox.Relay
use go_ddd.Outbox.Relay.{Options, Signal}
use go_ddd.Outbox.Relay.Progress.{run-nothing}
use go_ddd.Bootstrap.Build.{
  AppBus, PoolCall, Answers, Application, finished, wire, build_with, build, choose_bus, subscribed,
}

-- What a build hands out, by the bus that has all subscriptions.
abbrev pub Wired : Config → Time → Application → Type 0
Wired cfg now app =
    (subscribed now (choose_bus cfg) ≡ ok app.bus)
    × (app.outbox ≡ new_store)
    × (app.relay.batch_size ≡ cfg.outbox.batch_size)

finished-Wired :
    (cfg : Config) (now : Time) (pooled : Bool) (calls : List PoolCall) (r : Result AppBus)
    (app : Application)
    → subscribed now (choose_bus cfg) ≡ r
    → (finished cfg pooled calls r).0 ≡ ok app
    → Wired cfg now app
unfolding finished
finished-Wired cfg now pooled calls (err e) app h k = absurd (ground (arith, k))
finished-Wired cfg now pooled calls (ok bus) app h k =
    subst (Wired cfg now) (ok_inj k) (h, refl, refl)

wire-Wired :
    (cfg : Config) (now : Time) (pooled : Bool) (calls : List PoolCall) (o : Option Error)
    (app : Application)
    → (wire cfg now pooled calls o).0 ≡ ok app
    → Wired cfg now app
unfolding wire
wire-Wired cfg now pooled calls (some e) app h = absurd (ground (arith, h))
wire-Wired cfg now pooled calls none app h =
    finished-Wired cfg now pooled calls (subscribed now (choose_bus cfg)) app refl h

build_with-Wired :
    (cfg : Config) (now : Time) (a : Answers) (p : Result Bool × List PoolCall) (app : Application)
    → (build_with cfg now a p).0 ≡ ok app
    → Wired cfg now app
unfolding build_with
build_with-Wired cfg now a (err e, calls) app h = absurd (ground (arith, h))
build_with-Wired cfg now a (ok pooled, calls) app h = wire-Wired cfg now pooled calls _ app h

pub build-Wired :
    (cfg : Config) (now : Time) (a : Answers) (app : Application)
    → (build cfg now a).0 ≡ ok app
    → Wired cfg now app
unfolding build
build-Wired cfg now a app h = build_with-Wired cfg now a _ app h

-- The relay of a process that takes no requests, as the worker does, sends nothing, however long it
-- runs and whatever the bus is: the outbox of a build is a new one in the memory of the process.
pub build-relays_nothing :
    {B : Type 0} (send : Event → B → Option Error × B) (cfg : Config) (now : Time) (a : Answers)
    (app : Application) (sigs : List Signal) (b : B)
    → (build cfg now a).0 ≡ ok app
    → Relay.run send app.relay sigs app.outbox b
      ≡ some (record { store = new_store; bus = b; count = 0 })
build-relays_nothing send cfg now a app sigs b h =
    rw (build-Wired cfg now a app h).1 (run-nothing send app.relay sigs b)
