-- ===== src/Customer/Commands/Recorded.antt =====
-- What CreateCustomer leaves behind in memory.
use go_ddd.Prelude.{ℕ, suc, ◌≡◌, refl, false, none, some, [], ◌∷◌, ◌++◌, ap, arith, text_eq}
use go_ddd.Prelude.Int.{pos}
use go_ddd.Prelude.Text.{Text, codes}
use go_ddd.Prelude.Text.Trim.Lower.{CaseTables}
use go_ddd.Prelude.Map.{get}
use go_ddd.Prelude.Result.{ok}
use go_ddd.Shared.{Time, pull_events, customer_created}
use go_ddd.EventBus.{Event, object}
use go_ddd.Outbox.{pending}
use go_ddd.Outbox.Consistent.{publish_added}
use go_ddd.Customer.Email.{CustomerId, Email, new_email, new_customer_id, is_zero, active}
use go_ddd.Customer.Aggregate.{Customer, to_snapshot, new_customer, validate_name}
use go_ddd.Customer.Repository.{exists_by_email, ensure_available}
use go_ddd.Customer.Repository.Stale.{save-new}
use go_ddd.Customer.Messaging.{source, event_customer_created, dispatch, to_integration_event}
use go_ddd.Customer.Commands.{World, memory_deps, create_customer, create_rest, create_work, noop}

module _ (tables : CaseTables) (uuid : ℕ → Text) (clock : ℕ → Time) where
  -- The integration event of a new customer: its id is the second one that is drawn.
  abbrev pub created_event : Text → Text → Text → World → Event
  created_event id name address w = record {
    id = uuid (suc w.ids);
    name = event_customer_created;
    source = source;
    aggregate_id = id;
    occurred_at = clock w.readings;
    version = pos 1;
    correlation_id = [];
    causation_id = [];
    payload = object ((codes "id", id) ∷ (codes "name", name) ∷ (codes "email", address) ∷ []);
    metadata = some [];
  }

  pub drawn-known :
      (raw : Text) (id : CustomerId) → new_customer_id raw ≡ ok id → is_zero id ≡ false
  unfolding new_customer_id is_zero
  drawn-known raw id h = ground (arith, h)

  -- The customer that `NewCustomer` makes.
  abbrev pub made : CustomerId → Text → Email → Time → Customer
  made id name email now = record {
    root = record { events = customer_created id.value name email.value now ∷ [] };
    id = id;
    name = name;
    email = email;
    status = active;
    created_at = now;
    version = pos 1;
  }

  pub new_customer-made :
      (id : CustomerId) (name : Text) (email : Email) (now : Time)
      → is_zero id ≡ false
      → validate_name name ≡ ok tt
      → new_customer id name email now ≡ ok (made id name email now)
  unfolding new_customer
  new_customer-made id name email now known named = rw (known, named) refl

  -- If the address is valid and free, the name is valid, the id that is drawn for the customer is
  -- new, and the outbox has no message under the id that is drawn for the event, then
  -- CreateCustomer in memory returns the id of the customer, stores the active customer at version
  -- 1, and puts one pending message at the end of the outbox, the created event with the same time,
  -- after those that are there, which it leaves as they are.
  pub create_customer-records :
      (name address : Text) (email : Email) (id : CustomerId) (w : World)
      → new_email tables address ≡ ok email
      → new_customer_id (uuid w.ids) ≡ ok id
      → validate_name name ≡ ok tt
      → exists_by_email email w.repo ≡ false
      → get w.repo.by_id id.value ≡ none
      → get w.outbox.by_id (uuid (suc w.ids)) ≡ none
      → let p = create_customer tables (memory_deps tables uuid clock) name address w in
        (p.0 ≡ ok id.value)
        × (get p.1.repo.by_id id.value
            ≡ some (record {
              id = id.value;
              name = name;
              email = email.value;
              status = codes "active";
              created_at = clock w.readings;
              version = pos 1;
            }))
        × (p.1.outbox.order ≡ w.outbox.order ++ uuid (suc w.ids) ∷ [])
        × (p.1.outbox.by_id
            ≡ w.outbox.by_id
              ++ (
                uuid (suc w.ids),
                record {
                  event = created_event id.value name email.value w;
                  status = pending;
                  attempts = pos 0;
                  created_at = clock (suc w.readings);
                  published_at = none;
                  last_error = [];
                },
              )
                ∷ [])
  unfolding create_customer create_work create_rest ensure_available noop memory_deps dispatch
      pull_events to_integration_event to_snapshot
  create_customer-records name address email id w valid known named free new fresh =
      let c = made id name email (clock w.readings) in
      let built =
        new_customer-made id name email (clock w.readings) (drawn-known (uuid w.ids) id known)
          named in
      let (stored, at, others) = save-new w.repo c new in
      let sent =
        publish_added w.outbox (created_event id.value name email.value w) (clock (suc w.readings))
          fresh in
      rw (valid, known, free, built, stored)
        (refl, at, ap (λ s. s.order) sent, ap (λ s. s.by_id) sent)
