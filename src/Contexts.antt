-- ===== src/Contexts.antt =====
-- The skeletons internal/identity and internal/payment, and internal/notification.
use go_ddd.Prelude.{
  ◌≡◌, refl, Option, none, some, List, [], ◌∷◌, ◌++◌, ◌==◌, text_eq, if◌then◌else◌,
}
use go_ddd.Prelude.Text.{Text, codes}
use go_ddd.Prelude.Int.{ℤ}
use go_ddd.Prelude.Result.{Error, Result, ok, err, other_error}
use go_ddd.Shared.{Time, AggregateRoot, invalid}
use go_ddd.EventBus.{Event, Payload, object, malformed, Handler, Outcome, returns, Bus, subscribe}
use go_ddd.Customer.Messaging.{event_customer_created}

pub record UserId : Type 0 where
  pub value : Text

unfoldable pub new_user_id : Text → Result UserId
unfolding invalid
new_user_id v =
    if v == [] then err (invalid (codes "user id must not be empty")) else ok (record { value = v })

pub record User : Type 0 where
  pub root : AggregateRoot
  pub id : UserId
  pub email : Text
  pub password_hash : Text
  pub registered_at : Time

pub record PaymentId : Type 0 where
  pub value : Text

unfoldable pub new_payment_id : Text → Result PaymentId
unfolding invalid
new_payment_id v =
    if v == []
    then err (invalid (codes "payment id must not be empty"))
    else ok (record { value = v })

pub record Payment : Type 0 where
  pub root : AggregateRoot
  pub id : PaymentId
  pub order_id : Text
  pub amount_cents : ℤ
  pub currency : Text
  pub completed_at : Time

-- A member of a decoded object; one that is missing leaves the empty text.
member : Text → List (Text × Text) → Text
member key [] = []
member key ((k, v) ∷ ms) = let rest = member key ms in if k == key then v else rest

-- An address and a name.
pub record Welcome : Type 0 where
  pub to : Text
  pub name : Text

-- LogSender.SendWelcome: a welcome is written to the log, which is all that is kept of it.
unfoldable pub send_welcome : Text → Text → List Welcome → Option Error × List Welcome
send_welcome to name log = (none, log ++ record { to = to; name = name } ∷ [])

returned : Option Error × List Welcome → Outcome × List Welcome
returned (e, log) = (returns e, log)

greeted : Payload → List Welcome → Outcome × List Welcome
unfolding send_welcome
greeted malformed log = (returns (some (other_error (codes "invalid payload"))), log)
greeted (object ms) log =
    returned (send_welcome (member (codes "email") ms) (member (codes "name") ms) log)

-- CustomerCreated.Handle
unfoldable pub greet : Handler (List Welcome)
unfolding greeted returned member
greet e log = greeted e.payload log

-- RegisterSubscriptions of the notification module
unfoldable pub register : Bus (List Welcome) → Result (Bus (List Welcome))
unfolding greet
register bus = subscribe bus event_customer_created (some greet)

-- The handler does not look at the id of an event: one that is delivered twice sends its welcome
-- twice.
pub greet-twice :
    (e : Event) (ms : List (Text × Text)) (log : List Welcome)
    → e.payload ≡ object ms
    → (w : Welcome) × (greet e log ≡ (returns none, log ++ w ∷ []))
      × (greet e (greet e log).1 ≡ (returns none, (log ++ w ∷ []) ++ w ∷ []))
unfolding greet greeted returned send_welcome
greet-twice e ms log h = (
  record { to = member (codes "email") ms; name = member (codes "name") ms },
  rw h refl,
  rw h refl,
)
