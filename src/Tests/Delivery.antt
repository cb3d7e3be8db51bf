-- ===== src/Tests/Delivery.antt =====
-- The bus, the outbox and its relay at concrete inputs.
use go_ddd.Prelude.{
  ℕ, suc, ◌%◌, ◌≡◌, refl, Option, none, some, List, [], ◌∷◌, nat_beq, text_eq, text_beq,
  if◌then◌else◌,
}
use go_ddd.Prelude.Int.{pos}
use go_ddd.Prelude.Map.{get, put}
use go_ddd.Prelude.Text.{Text, codes}
use go_ddd.Prelude.Result.{Error, other_error}
use go_ddd.EventBus.{
  Event, Bus, Handler, Outcome, returns, panics, new_bus, subscribe, recover, object, chain,
  handlers_of,
}
use go_ddd.EventBus
use go_ddd.EventBus.Delivery.{subscribe_all, errors_of, state_of, deliveries, publish_total}
use go_ddd.Outbox.{Store, new_store, fetch_pending, add, is_published}
use go_ddd.Outbox.Consistent.{IsConsistent, new_store-IsConsistent, add-IsConsistent}
use go_ddd.Outbox.Fetch.{unpublished, first}
use go_ddd.Outbox.Reachable.{
  Operation, publishes, marks_published, marks_failed, operate_all, operate_all-fetch_pending,
}
use go_ddd.Outbox.Relay.{Pass, Signal, tick, done, drain, run}
use go_ddd.Outbox.Relay.Walk.{walk, drain-walk}
use go_ddd.Outbox.Relay.Starvation.{waiting, run-starved}
use go_ddd.Tests.{event_1, event_2}

-- A handler that counts its events and panics at every one.
abbrev shaky : Handler ℕ
shaky e n = (panics (codes "boom"), suc n)

abbrev careful : Handler ℕ
careful e n = (returns none, suc n)

abbrev subscriptions : List (Text × Handler ℕ)
subscriptions = (codes "customer.v1.created", shaky) ∷ (codes "customer.v1.created", careful) ∷ []

abbrev both_bus : Bus ℕ
both_bus = record {
  handlers = (codes "customer.v1.created", recover shaky ∷ recover careful ∷ []) ∷ [];
  mw = recover ∷ [];
}

publish_total_example : EventBus.publish both_bus (event_1 ∷ event_2 ∷ event_1 ∷ []) 0 ≡ (
  some (errors_of (deliveries [] subscriptions (event_1 ∷ event_2 ∷ event_1 ∷ [])) 0),
  state_of (deliveries [] subscriptions (event_1 ∷ event_2 ∷ event_1 ∷ [])) 0,
)
unfolding subscribe_all new_bus subscribe handlers_of chain get put text_beq
publish_total_example =
    publish_total [] subscriptions both_bus (event_1 ∷ event_2 ∷ event_1 ∷ []) 0 refl

abbrev operations : List Operation
operations =
    publishes (event_1 ∷ event_2 ∷ event_1 ∷ []) 3
    ∷ marks_failed (codes "e1") (codes "down")
    ∷ marks_published (codes "e2" ∷ codes "e9" ∷ []) 4
    ∷ []

operate_all-fetch_pending_example :
    IsConsistent (operate_all new_store operations)
    × (fetch_pending (operate_all new_store operations) (pos 10)
        ≡ some (first (pos 10) (unpublished (operate_all new_store operations).by_id)))
operate_all-fetch_pending_example = operate_all-fetch_pending operations (pos 10)

abbrev two : Store
two = add new_store (event_1 ∷ event_2 ∷ []) 3

two-IsConsistent : IsConsistent two
two-IsConsistent = add-IsConsistent new_store (event_1 ∷ event_2 ∷ []) 3 new_store-IsConsistent

-- A bus that refuses every other event.
abbrev alternating : Event → ℕ → Option Error × ℕ
alternating e n = (if nat_beq (n % 2) 0 then none else some (other_error (codes "down")), suc n)

drain-walk_example :
    drain alternating 7 (pos 2) two 0
    ≡ some (record {
      store = record { order = two.order; by_id = (walk alternating 7 2 two.by_id 0).0 };
      bus = (walk alternating 7 2 two.by_id 0).1;
      count = (walk alternating 7 2 two.by_id 0).2;
    })
drain-walk_example = drain-walk alternating 7 two 1 0 two-IsConsistent

abbrev willing : Event → ℕ → Option Error × ℕ
willing e n = (none, suc n)

abbrev broken : Event → ℕ → Option Error × ℕ
broken e n = (some (other_error (codes "down")), n)

abbrev signals : List Signal
signals = tick 7 ∷ tick 8 ∷ done ∷ tick 9 ∷ []

run-starved_example :
    (q : Pass ℕ) × (run broken (record { interval = pos 5; batch_size = pos 1 }) signals two 0
      ≡ some q)
    × (waiting q.store ≡ waiting two)
unfolding add put get text_beq is_published
run-starved_example =
    run-starved broken (pos 5) 0 signals two 0 two-IsConsistent
      ((λ b. (other_error (codes "down"), refl)), tt)
