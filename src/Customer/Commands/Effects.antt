-- ===== src/Customer/Commands/Effects.antt =====
-- What one command in memory may write, and how a save and its events go out.
pub mod Creating
pub mod Changing
pub mod Whole
use go_ddd.Prelude.{
  ℕ, suc, ◌≤◌, ◌≡◌, refl, ap, ◌∙◌, ◌⊎◌, inl, inr, false, some, List, [], ◌∷◌, ◌++◌, arith, text_eq,
  Bool-cases,
}
use go_ddd.Prelude.Int.{ℤ, pos, int_succ}
use go_ddd.Prelude.Text.{Text, codes}
use go_ddd.Prelude.Text.Trim.Lower.{CaseTables}
use go_ddd.Prelude.Map.{get, put}
use go_ddd.Prelude.Result.{Error, Result, ok, err, err_conflict}
use go_ddd.Prelude.Exec.{continue}
use go_ddd.Shared.{
  Time, DomainEvent, customer_created, customer_email_changed, record_event, pull_events,
}
use go_ddd.EventBus.{Event, object}
use go_ddd.Outbox
use go_ddd.Customer.Email.{
  CustomerId, Email, Status, active, deactivated, status_text, new_email, new_customer_id,
  email_equals, is_zero,
}
use go_ddd.Customer.Aggregate.{
  Customer, Snapshot, new_customer, change_email, to_snapshot, from_snapshot, validate_name,
}
use go_ddd.Customer.Aggregate.Snapshots.{from_snapshot-kept}
use go_ddd.Customer.Repository.{find_by_id, save, exists_by_email, ensure_available}
use go_ddd.Customer.Repository.Written.{save_or_not, find_by_id-restored}
use go_ddd.Customer.Messaging.{
  source, event_customer_created, event_customer_email_changed, dispatch, to_integration_event,
}
use go_ddd.Customer.Commands.{
  Deps, World, memory_deps, create_customer, change_customer_email, create_rest, create_work,
  change_work, change_email_work, noop,
}
use go_ddd.Customer.Commands.Recorded.{made, new_customer-made, drawn-known}
use go_ddd.Customer.Commands.Tidy.{Command, creates, changes, run, persist, forget, Result-cases}

-- An event as the customer context makes it, with its payload.
abbrev pub sent_event : Text → Text → Text → Time → List (Text × Text) → Event
sent_event gid name id at members = record {
  id = gid;
  name = name;
  source = source;
  aggregate_id = id;
  occurred_at = at;
  version = pos 1;
  correlation_id = [];
  causation_id = [];
  payload = object members;
  metadata = some [];
}

abbrev pub created : Text → Text → Text → Text → Time → Event
created gid id name email at =
    sent_event gid event_customer_created id at
      ((codes "id", id) ∷ (codes "name", name) ∷ (codes "email", email) ∷ [])

abbrev pub changed : Text → Text → Text → Text → Time → Event
changed gid id old new at =
    sent_event gid event_customer_email_changed id at
      ((codes "id", id) ∷ (codes "old_email", old) ∷ (codes "new_email", new) ∷ [])

-- Nothing is written; at most ids are drawn.
abbrev pub Idle : World → World → Type 0
Idle w w' = (w'.repo ≡ w.repo) × (w'.outbox ≡ w.outbox) × (w.ids ≤ w'.ids)

module _ (tables : CaseTables) (uuid : ℕ → Text) (clock : ℕ → Time) where
  abbrev pub deps : Deps World
  deps = memory_deps tables uuid clock

  -- A new customer under the next id, and its created event under the id after that.
  abbrev pub Creates : World → World → Type 0
  Creates w w' =
      (s : Snapshot) × (t : Time) × (s.id ≡ uuid w.ids)
      × (s.status ≡ codes "active")
      × (w'.repo.by_id ≡ put w.repo.by_id s.id s)
      × (w'.outbox
          ≡ Outbox.publish w.outbox
              (created (uuid (suc w.ids)) s.id s.name s.email s.created_at ∷ []) t)
      × (w'.ids ≡ suc (suc w.ids))

  -- A customer with another address, and the event that its address was changed.
  abbrev pub Changes : World → World → Type 0
  Changes w w' =
      (key : Text) × (s : Snapshot) × (new : Text) × (version : ℤ) × (old : Text) × (at t : Time)
      × (get w.repo.by_id key ≡ some s)
      × (w'.repo.by_id ≡ put w.repo.by_id s.id (record s { email = new; version = version }))
      × (w'.outbox ≡ Outbox.publish w.outbox (changed (uuid w.ids) s.id old new at ∷ []) t)
      × (w'.ids ≡ suc w.ids)

  abbrev pub Effect : World → World → Type 0
  Effect w w' = Idle w w' ⊎ Creates w w' ⊎ Changes w w'

  pub persist_or_not :
      (c : Customer) (ds : List DomainEvent) (w : World)
      → (persist tables uuid clock c ds w ≡ (err err_conflict, w))
        ⊎ ((w' : World) × (persist tables uuid clock c ds w ≡ deps.publish ds w')
            × (w'.repo.by_id ≡ put w.repo.by_id c.id.value (to_snapshot c))
            × (w'.outbox ≡ w.outbox)
            × (w'.ids ≡ w.ids))
  unfolding persist memory_deps
  persist_or_not c ds w = elim (save_or_not c w.repo) [
    | inl stale ↦ inl (rw stale refl)
    | inr (r', saved, put_there) ↦
        inr (record w { repo = r' }, rw saved refl, put_there, refl, refl)
  ]
