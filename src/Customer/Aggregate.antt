-- ===== src/Customer/Aggregate.antt =====
-- internal/customer/domain: the Customer aggregate and its snapshots.
pub mod Lifecycle
pub mod Story
pub mod Snapshots
use go_ddd.Prelude.{
  ℕ, ◌≡◌, refl, Bool, true, false, List, [], ◌∷◌, ltb, ◌==◌, text_eq, length, if◌then◌else◌,
}
use go_ddd.Prelude.Int.{ℤ, pos, int_succ}
use go_ddd.Prelude.Text.{Text, codes}
use go_ddd.Prelude.Text.Trim.Lower.{CaseTables}
use go_ddd.Prelude.Result.{Error, Result, ok, err, err_conflict, ◌>>=◌, ◌>>◌}
use go_ddd.Shared.{
  Time, DomainEvent, customer_created, customer_email_changed, customer_deactivated, AggregateRoot,
  fresh_root, record_event, invalid,
}
use go_ddd.Customer.Email.{
  CustomerId, new_customer_id, is_zero, Email, new_email, email_equals, Status, active, deactivated,
  status_text, parse_status,
}

pub record Customer : Type 0 where
  pub root : AggregateRoot
  pub id : CustomerId
  pub name : Text
  pub email : Email
  pub status : Status
  pub created_at : Time
  pub version : ℤ

-- `len` counts bytes.
unfoldable pub validate_name : Text → Result (Unit {0})
unfolding invalid
validate_name name =
    if name == []
    then err (invalid (codes "customer name is required"))
    else if ltb 200 (length name)
    then err (invalid (codes "customer name must be 200 characters or fewer"))
    else ok tt

unfoldable pub new_customer : CustomerId → Text → Email → Time → Result Customer
unfolding invalid is_zero validate_name record_event
new_customer id name email now =
    if is_zero id then err (invalid (codes "customer id is required")) else do
      validate_name name
      ok (record {
        root = record_event fresh_root (customer_created id.value name email.value now);
        id = id;
        name = name;
        email = email;
        status = active;
        created_at = now;
        version = pos 1;
      })

is_deactivated : Status → Bool
is_deactivated active = false
is_deactivated deactivated = true

unfoldable pub change_email : Customer → Email → Time → Result Customer
unfolding is_deactivated email_equals record_event int_succ
change_email c new now =
    if is_deactivated c.status
    then err err_conflict
    else if email_equals c.email new
    then ok c
    else ok (record c {
      root = record_event c.root (customer_email_changed c.id.value c.email.value new.value now);
      email = new;
      version = int_succ c.version;
    })

-- It never fails.
unfoldable pub deactivate : Customer → Text → Time → Customer
unfolding is_deactivated record_event int_succ
deactivate c reason now = if is_deactivated c.status then c else record c {
  root = record_event c.root (customer_deactivated c.id.value reason now);
  status = deactivated;
  version = int_succ c.version;
}

pub record Snapshot : Type 0 where
  pub id : Text
  pub name : Text
  pub email : Text
  pub status : Text
  pub created_at : Time
  pub version : ℤ

unfoldable pub to_snapshot : Customer → Snapshot
unfolding status_text
to_snapshot c = record {
  id = c.id.value;
  name = c.name;
  email = c.email.value;
  status = status_text c.status;
  created_at = c.created_at;
  version = c.version;
}

-- The value objects are validated again, and no event is recorded.
unfoldable pub from_snapshot : CaseTables → Snapshot → Result Customer
from_snapshot tables s = do
  id ← new_customer_id s.id
  email ← new_email tables s.email
  status ← parse_status s.status
  ok (record {
    root = fresh_root;
    id = id;
    name = s.name;
    email = email;
    status = status;
    created_at = s.created_at;
    version = s.version;
  })
