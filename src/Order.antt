-- ===== src/Order.antt =====
-- internal/order: the Order aggregate, PlaceOrder and its adapters.
pub mod Placing
use go_ddd.Prelude.{
  ℕ, zero, suc, ◌+◌, ◌-◌, ◌*◌, ◌/◌, ◌%◌, ◌^◌, ◌≤◌, ◌<◌, min, ◌≡◌, refl, sym, ap, subst, ◌∙◌, ◌≢◌,
  ◌↔◌, ◌⊎◌, inl, inr, Bool, true, false, ◌&&◌, ◌||◌, not, Option, none, some, List, [], ◌∷◌, ◌++◌,
  map, append_assoc, append-nil, arith, ltb, leb, nat_beq, nat_beq_iff, ◌==◌, text_eq, text_beq,
  text_beq_iff, text_beq_refl, length, length-append, take, drop, length-take, length-drop,
  take-append-drop, All, All-append, All-filter, filter, Bool-cases, Option-cases, some_inj,
  if◌then◌else◌,
}
use go_ddd.Prelude.Text.{Text, codes}
use go_ddd.Prelude.Map.{Map, get, put}
use go_ddd.Prelude.Result.{
  Error, Result, ok, err, err_not_found, status_error, Code, ok_code, not_found_code,
  already_exists, invalid_argument, permission_denied, internal,
}
use go_ddd.Prelude.Exec.{Exec, pure, throw, lift, ◌>>=◌, ◌>>◌}
use go_ddd.Shared.{
  Time, DomainEvent, order_placed, AggregateRoot, fresh_root, record_event, invalid, error_text,
  error_is, not_found, conflict, validation, permission,
}
use go_ddd.Customer.Messaging.{total}
use go_ddd.Customer.ReadModel.{Rows}
use go_ddd.Customer.Server.{get_customer_rpc, CustomerMessage}

pub record OrderId : Type 0 where
  pub value : Text

unfoldable pub new_order_id : Text → Result OrderId
unfolding invalid
new_order_id v =
    if v == []
    then err (invalid (codes "order id must not be empty"))
    else ok (record { value = v })

pub record Order : Type 0 where
  pub root : AggregateRoot
  pub id : OrderId
  pub customer_id : Text
  pub placed_at : Time

unfoldable pub place : OrderId → Text → Time → Result Order
unfolding invalid record_event
place id customer_id now =
    if customer_id == []
    then err (invalid (codes "order requires a customer"))
    else ok (record {
      root = record_event fresh_root (order_placed id.value customer_id now);
      id = id;
      customer_id = customer_id;
      placed_at = now;
    })

-- memory.Repository, which keeps the orders themselves
abbrev pub Repository : Type 0
Repository = Map Order

found : Option Order → Result Order
found none = err err_not_found
found (some o) = ok o

unfoldable pub find_by_id : OrderId → Repository → Result Order
unfolding found
find_by_id id r = found (get r id.value)

unfoldable pub save : Order → Exec Repository (Unit {0})
save o r = (ok tt, put r o.id.value o)

is_not_found : Error → Bool
is_not_found (status_error not_found_code msg) = true
is_not_found _ = false

verified : Result CustomerMessage → Result (Unit {0})
verified (ok c) = ok tt
verified (err e) = if is_not_found e then err err_not_found else err e

-- Verifier.Verify, over the customer service in the same process
unfoldable pub verify : Rows → Text → Result (Unit {0})
unfolding verified is_not_found
verify rows customer_id = verified (get_customer_rpc rows customer_id)

pub record Deps (S : Type 0) : Type 0 where
  pub verify : Text → Exec S (Unit {0})
  pub save : Order → Exec S (Unit {0})
  pub now : S → Time × S
  pub new_id : S → Text × S

-- `mapError` of the server of this context
unfoldable pub map_error : Error → Error
unfolding error_is error_text
map_error e =
    if error_is e not_found
    then status_error not_found_code (error_text e)
    else if error_is e conflict
    then status_error already_exists (error_text e)
    else if error_is e validation
    then status_error invalid_argument (error_text e)
    else if error_is e permission
    then status_error permission_denied (error_text e)
    else status_error internal (codes "internal server error")

module _ {S : Type 0} (deps : Deps S) where
  -- PlaceOrderHandler.Handle: the id of a customer, to the id of the order.
  unfoldable pub place_order : Text → Exec S Text
  place_order customer_id = do
    deps.verify customer_id
    raw ← total deps.new_id
    id ← lift (new_order_id raw)
    now ← total deps.now
    order ← lift (place id customer_id now)
    deps.save order
    pure id.value

  mapped : Result Text → Result Text
  mapped (ok id) = ok id
  mapped (err e) = err (map_error e)

  -- Server.PlaceOrder
  unfoldable pub place_order_rpc : Text → Exec S Text
  unfolding place_order mapped map_error
  place_order_rpc customer_id s = let (r, s') = place_order customer_id s in (mapped r, s')

-- The wiring in memory: the customers' read model is only looked at.
pub record World : Type 0 where
  pub orders : Repository
  pub customers : Rows
  pub ids : ℕ
  pub readings : ℕ

unfoldable pub memory_deps : (ℕ → Text) → (ℕ → Time) → Deps World
unfolding save verify
memory_deps uuid clock = record {
  verify = λ id w. (verify w.customers id, w);
  save = λ o w. let (r, orders) = save o w.orders in (r, record w { orders = orders });
  now = λ w. (clock w.readings, record w { readings = suc w.readings });
  new_id = λ w. (uuid w.ids, record w { ids = suc w.ids });
}
