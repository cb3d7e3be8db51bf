-- ===== src/Tests.antt =====
-- The theorems applied to concrete inputs, and the data that these inputs share.
mod Customers
mod Wiring
mod Delivery
mod Kafka
mod Platform
mod Web
mod Tools
mod Process
use Prim.Native.Nat.{ℕ, suc, ◌+◌}
use mathlib.Core.Path.{◌≡◌, refl}
use mathlib.Core.Option.{none, some}
use mathlib.Core.List.{[], ◌∷◌}
use go_ddd.Prelude.Int.{pos}
use go_ddd.Prelude.Text.{Text, codes}
use go_ddd.Prelude.Text.Trim.Lower.{CaseTables}
use go_ddd.Shared.{Time}
use go_ddd.EventBus.{Event, object}
use go_ddd.Customer.Email.{Email, CustomerId}

-- Tables under which a text that is not ASCII becomes empty.
abbrev pub tables : CaseTables
tables = record { fold = λ s. [] }

abbrev pub uuid : ℕ → Text
uuid n = b'u' ∷ (b'0' + n) ∷ []

abbrev pub clock : ℕ → Time
clock n = suc n

abbrev pub ada : Email
ada = record { value = codes "ada@x.io" }

abbrev pub bob : Email
bob = record { value = codes "bob@x.io" }

abbrev pub first_id : CustomerId
first_id = record { value = codes "u0" }

abbrev pub event_1 : Event
event_1 = record {
  id = codes "e1";
  name = codes "customer.v1.created";
  source = codes "customer";
  aggregate_id = codes "u0";
  occurred_at = 5;
  version = pos 1;
  correlation_id = [];
  causation_id = [];
  payload = object (
      (codes "id", codes "u0")
      ∷ (codes "name", codes "Ada")
      ∷ (codes "email", codes "ada@x.io")
      ∷ []);
  metadata = some [];
}

abbrev pub event_2 : Event
event_2 = record event_1 { id = codes "e2"; name = codes "customer.v1.deactivated" }
