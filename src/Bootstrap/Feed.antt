-- ===== src/Bootstrap/Feed.antt =====
-- What one pass of the relay brings to the subscribers in process.
use go_ddd.Prelude.{
  ℕ, zero, suc, ◌≡◌, refl, ap, inl, inr, none, List, [], ◌∷◌, ◌++◌, map, text_eq, text_beq, drop,
  All, Bool-cases,
}
use mathlib.Core.List.{foldl}
use go_ddd.Prelude.Text.{Text, codes}
use go_ddd.Prelude.Map.{Map, get, put}
use go_ddd.Prelude.Result.{ok}
use go_ddd.Shared.{Time}
use go_ddd.EventBus.{
  Event, Bus, new_bus, subscribe, recover, logging, publish, chain, handlers_of, run_handlers,
}
use go_ddd.Outbox.{Message, is_published}
use go_ddd.Outbox.Fetch.{unpublished}
use go_ddd.Outbox.Relay.Walk.{walk}
use go_ddd.Customer.Messaging.{
  event_customer_created, event_customer_email_changed, event_customer_deactivated, on_order_placed,
}
use go_ddd.Customer.ReadModel.{on_created, on_email_changed, on_deactivated, non_zero, update}
use go_ddd.Customer.Commands.Effects.{created, changed}
use go_ddd.Contexts.{greet}
use go_ddd.Bootstrap.{
  Behind, on_rows, on_welcomes, in_process, register_subscriptions, standard, deliver,
}

-- The bus in process with all subscriptions.
abbrev pub wired_all : Time → Bus Behind
wired_all now = record {
  handlers =
      (
        event_customer_created,
        recover (logging (on_rows (on_created now))) ∷ recover (logging (on_welcomes greet)) ∷ [],
      )
      ∷ (event_customer_email_changed, recover (logging (on_rows on_email_changed)) ∷ [])
      ∷ (event_customer_deactivated, recover (logging (on_rows on_deactivated)) ∷ [])
      ∷ (codes "order.v1.placed", recover (logging on_order_placed) ∷ [])
      ∷ [];
  mw = standard;
}

pub register_subscriptions-wired_all :
    (now : Time) → register_subscriptions in_process now (new_bus standard) ≡ ok (wired_all now)
unfolding register_subscriptions new_bus subscribe handlers_of get put text_beq chain
register_subscriptions-wired_all now = refl

module _ (now : Time) where
  -- What an event makes of the subscribers' state.
  abbrev pub observe : Behind → Event → Behind
  observe b e = (deliver (wired_all now) e b).1

  -- All subscribers succeed.
  abbrev pub IsAccepted : Event → Type 0
  IsAccepted e = (b : Behind) → (deliver (wired_all now) e b).0 ≡ none

  pub deliver-created :
      (b : Behind) (gid id name email : Text) (at : Time)
      → deliver (wired_all now) (created gid id name email at) b ≡ (
        none,
        record {
          rows = put b.rows id (record {
            id = id;
            name = name;
            email = email;
            status = codes "active";
            created_at = non_zero now at;
          });
          welcomes = b.welcomes ++ record { to = email; name = name } ∷ [];
        },
      )
  unfolding deliver publish handlers_of get text_beq run_handlers recover logging on_created greet
      on_rows on_welcomes
  deliver-created b gid id name email at = refl

  pub deliver-changed :
      (b : Behind) (gid id old new : Text) (at : Time)
      → deliver (wired_all now) (changed gid id old new at) b
        ≡ (none, record b { rows = update id (λ row. record row { email = new }) b.rows })
  unfolding deliver publish handlers_of get text_beq run_handlers recover logging on_email_changed
      on_rows
  deliver-changed b gid id old new at = refl

  pub observe-created :
      (b : Behind) (gid id name email : Text) (at : Time)
      → observe b (created gid id name email at) ≡ record {
        rows = put b.rows id (record {
          id = id;
          name = name;
          email = email;
          status = codes "active";
          created_at = non_zero now at;
        });
        welcomes = b.welcomes ++ record { to = email; name = name } ∷ [];
      }
  observe-created b gid id name email at = ap (λ p. p.1) (deliver-created b gid id name email at)

  pub observe-changed :
      (b : Behind) (gid id old new : Text) (at : Time)
      → observe b (changed gid id old new at)
        ≡ record b { rows = update id (λ row. record row { email = new }) b.rows }
  observe-changed b gid id old new at = ap (λ p. p.1) (deliver-changed b gid id old new at)

  -- What is still to come.
  abbrev pub rest_of : Map Message → List Event
  rest_of m = map (λ x. x.event) (unpublished m)

  abbrev pub AllAccepted : Map Message → Type 0
  AllAccepted = All (λ e. IsAccepted e.1.event)

  -- A pass moves messages from those to come into the state, in their order.
  pub walk-observe :
      (at : Time) (n : ℕ) (m : Map Message) (b : Behind)
      → AllAccepted m
      → let p = walk (deliver (wired_all now)) at n m b in
        (foldl observe p.1 (rest_of p.0) ≡ foldl observe b (rest_of m))
        × (unpublished p.0 ≡ drop n (unpublished m))
        × AllAccepted p.0
  unfolding walk is_published
  walk-observe at zero [] b acc = (refl, refl, tt)
  walk-observe at (suc n) [] b acc = (refl, refl, tt)
  walk-observe at zero (e ∷ m) b acc = (refl, refl, acc)
  walk-observe at (suc n) ((k, x) ∷ m) b acc = elim (Bool-cases (is_published x.status)) [
    | inl skip ↦
        let (same, left, kept) = walk-observe at (suc n) m b acc.1 in
        rw skip (rw skip same, rw skip left, (acc.0, kept))
    | inr sent ↦
        let (same, left, kept) = walk-observe at n m (observe b x.event) acc.1 in
        rw (sent, acc.0 b) (same, left, (acc.0, kept))
  ]
