-- ===== src/Customer/Messaging.antt =====
-- infrastructure/messaging: the integration events of the customer context, and the dispatcher.
pub mod Dispatch
use go_ddd.Prelude.{
  ℕ, zero, suc, ◌+◌, ◌-◌, ◌*◌, ◌/◌, ◌%◌, ◌^◌, ◌≤◌, ◌<◌, min, ◌≡◌, refl, sym, ap, subst, ◌∙◌, ◌≢◌,
  ◌↔◌, ◌⊎◌, inl, inr, Bool, true, false, ◌&&◌, ◌||◌, not, Option, none, some, List, [], ◌∷◌, ◌++◌,
  map, append_assoc, append-nil, arith, ltb, leb, nat_beq, nat_beq_iff, ◌==◌, text_eq, text_beq,
  text_beq_iff, text_beq_refl, length, length-append, take, drop, length-take, length-drop,
  take-append-drop, All, All-append, All-filter, filter, Bool-cases, Option-cases, if◌then◌else◌,
}
use go_ddd.Prelude.Int.{pos}
use go_ddd.Prelude.Text.{Text, codes}
use go_ddd.Prelude.Result.{Error, Result, ok, err}
use go_ddd.Prelude.Exec.{Exec, pure}
use go_ddd.Shared.{
  Time, DomainEvent, customer_created, customer_email_changed, customer_deactivated,
}
use go_ddd.EventBus.{Event, Payload, object, Handler, Outcome, returns}

abbrev pub source : Text
source = codes "customer"

abbrev pub event_customer_created : Text
event_customer_created = codes "customer.v1.created"

abbrev pub event_customer_email_changed : Text
event_customer_email_changed = codes "customer.v1.email_changed"

abbrev pub event_customer_deactivated : Text
event_customer_deactivated = codes "customer.v1.deactivated"

-- `base`; the generated id comes from the caller.
base : Text → Text → Text → Time → List (Text × Text) → Event
base new_id name aggregate at members = record {
  id = new_id;
  name = name;
  source = source;
  aggregate_id = aggregate;
  occurred_at = at;
  version = pos 1;
  correlation_id = [];
  causation_id = [];
  payload = object members;
  metadata = some [];
}

-- The event, given its id, or `none` for a domain event that stays inside.
unfoldable pub to_integration_event : DomainEvent → Option (Text → Event)
unfolding base
to_integration_event (customer_created id name email at) = some (λ new_id.
    base new_id event_customer_created id at
      ((codes "id", id) ∷ (codes "name", name) ∷ (codes "email", email) ∷ []))
to_integration_event (customer_email_changed id old new at) = some (λ new_id.
    base new_id event_customer_email_changed id at
      ((codes "id", id) ∷ (codes "old_email", old) ∷ (codes "new_email", new) ∷ []))
to_integration_event (customer_deactivated id reason at) = some (λ new_id.
    base new_id event_customer_deactivated id at ((codes "id", id) ∷ (codes "reason", reason) ∷ []))
to_integration_event _ = none

-- A call that cannot fail.
abbrev pub total : {S A : Type 0} → (S → A × S) → Exec S A
total f s = let (a, s') = f s in (ok a, s')

module _ {S : Type 0} (new_id : S → Text × S) (publisher : List Event → Exec S (Unit {0})) where
  -- An id is drawn for each event that has a mapping.
  collect_one : Option (Text → Event) → (S → List Event × S) → S → List Event × S
  collect_one none rest s = rest s
  collect_one (some e) rest s =
      let (gid, s') = new_id s in let (es, s'') = rest s' in (e gid ∷ es, s'')

  collect : List DomainEvent → S → List Event × S
  collect [] s = ([], s)
  collect (d ∷ ds) s = collect_one (to_integration_event d) (collect ds) s

  forward : List Event × S → Result (Unit {0}) × S
  forward ([], s) = (ok tt, s)
  forward (e ∷ es, s) = publisher (e ∷ es) s

  -- Dispatcher.Publish
  unfoldable pub dispatch : List DomainEvent → Exec S (Unit {0})
  unfolding collect collect_one forward to_integration_event
  dispatch [] s = (ok tt, s)
  dispatch (d ∷ ds) s = forward (collect (d ∷ ds) s)

-- It only logs.
unfoldable pub on_order_placed : {S : Type 0} → Handler S
on_order_placed e s = (returns none, s)
