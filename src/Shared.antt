-- ===== src/Shared.antt =====
-- internal/shared/domain: the aggregate root, the domain events of every context, and errors.
pub mod Uuid
use go_ddd.Prelude.{
  ℕ, ◌+◌, ◌≡◌, refl, Bool, true, false, List, [], ◌∷◌, ◌++◌, arith, ltb, length, length-append,
  if◌then◌else◌,
}
use go_ddd.Prelude.Text.{Text, codes}
use go_ddd.Prelude.Result.{
  Error, err_not_found, err_conflict, err_validation, err_permission, validation_error,
  status_error, other_error, Code,
}

-- `time.Time` in UTC: nanoseconds since the zero time.
abbrev pub Time : Type 0
Time = ℕ

-- domain_event.go, with the events of the contexts that raise them.
pub data DomainEvent : Type 0 where
  -- customer id, name, email, time
  customer_created : Text → Text → Text → Time → DomainEvent
  -- customer id, old email, new email, time
  customer_email_changed : Text → Text → Text → Time → DomainEvent
  -- customer id, reason, time
  customer_deactivated : Text → Text → Time → DomainEvent
  -- order id, customer id, time
  order_placed : Text → Text → Time → DomainEvent
  -- user id, email, time
  user_registered : Text → Text → Time → DomainEvent
  -- payment id, order id, time
  payment_completed : Text → Text → Time → DomainEvent

unfoldable pub event_name : DomainEvent → Text
event_name (customer_created id name email at) = codes "customer.created"
event_name (customer_email_changed id old new at) = codes "customer.email_changed"
event_name (customer_deactivated id reason at) = codes "customer.deactivated"
event_name (order_placed id customer at) = codes "order.placed"
event_name (user_registered id email at) = codes "identity.user_registered"
event_name (payment_completed id order at) = codes "payment.completed"

unfoldable pub occurred_at : DomainEvent → Time
occurred_at (customer_created id name email at) = at
occurred_at (customer_email_changed id old new at) = at
occurred_at (customer_deactivated id reason at) = at
occurred_at (order_placed id customer at) = at
occurred_at (user_registered id email at) = at
occurred_at (payment_completed id order at) = at

unfoldable pub aggregate_id : DomainEvent → Text
aggregate_id (customer_created id name email at) = id
aggregate_id (customer_email_changed id old new at) = id
aggregate_id (customer_deactivated id reason at) = id
aggregate_id (order_placed id customer at) = id
aggregate_id (user_registered id email at) = id
aggregate_id (payment_completed id order at) = id

pub record AggregateRoot : Type 0 where
  pub events : List DomainEvent

abbrev pub fresh_root : AggregateRoot
fresh_root = record { events = [] }

unfoldable pub record_event : AggregateRoot → DomainEvent → AggregateRoot
record_event a event = record { events = a.events ++ event ∷ [] }

-- The buffered events, and the root with its buffer cleared.
unfoldable pub pull_events : AggregateRoot → List DomainEvent × AggregateRoot
pull_events a = (a.events, record { events = [] })

unfoldable pub has_events : AggregateRoot → Bool
has_events a = ltb 0 (length a.events)

-- `Invalid(msg)`
unfoldable pub invalid : Text → Error
invalid msg = validation_error msg

-- `err.Error()`
unfoldable pub error_text : Error → Text
error_text err_not_found = codes "domain: not found"
error_text err_conflict = codes "domain: conflict"
error_text err_validation = codes "domain: validation failed"
error_text err_permission = codes "domain: permission denied"
error_text (validation_error msg) = codes "domain: " ++ msg
error_text (status_error code msg) = msg
error_text (other_error msg) = msg

-- The text of `errors.Join` of these errors.
unfoldable pub joined_text : List Error → Text
unfolding error_text
joined_text [] = []
joined_text (x ∷ []) = error_text x
joined_text (x ∷ xs) = error_text x ++ (codes "\n" ++ joined_text xs)

-- `errors.Is(err, target)` for the four sentinels as targets
pub data Sentinel : Type 0 where
  not_found conflict validation permission : Sentinel

unfoldable pub error_is : Error → Sentinel → Bool
error_is err_not_found not_found = true
error_is err_conflict conflict = true
error_is err_validation validation = true
error_is err_permission permission = true
error_is (validation_error msg) validation = true
error_is _ _ = false

-- Events are pulled in the order in which they were recorded, once.
pub pull_events-record_event :
    (a : AggregateRoot) (event : DomainEvent)
    → ((pull_events (record_event a event)).0 ≡ a.events ++ event ∷ [])
      × (has_events (record_event a event) ≡ true)
      × (has_events (pull_events (record_event a event)).1 ≡ false)
unfolding pull_events record_event has_events
pull_events-record_event a event = (refl, ground (arith, length-append a.events (event ∷ [])), refl)
