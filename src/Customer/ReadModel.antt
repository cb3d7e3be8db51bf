-- ===== src/Customer/ReadModel.antt =====
-- infrastructure/projections: the read models that the integration events build, in memory and in
-- Postgres, with the queries of application/queries.
pub mod Projection
pub mod Redelivery
pub mod Paging
use go_ddd.Prelude.{
  ℕ, zero, suc, ◌+◌, ◌-◌, ◌*◌, ◌/◌, ◌%◌, ◌^◌, ◌≤◌, ◌<◌, min, ◌≡◌, refl, sym, ap, subst, ◌∙◌, ◌≢◌,
  ◌↔◌, ◌⊎◌, inl, inr, Bool, true, false, ◌&&◌, ◌||◌, not, Option, none, some, List, [], ◌∷◌, ◌++◌,
  map, append_assoc, append-nil, arith, ltb, leb, nat_beq, nat_beq_iff, ◌==◌, text_eq, text_beq,
  text_beq_iff, text_beq_refl, length, length-append, take, drop, length-take, length-drop,
  take-append-drop, All, All-append, All-filter, filter, Bool-cases, Option-cases, if◌then◌else◌,
}
use go_ddd.Prelude.Int.{ℤ, pos, negsuc, max_int}
use go_ddd.Prelude.Text.{Text, codes, text_ltb}
use go_ddd.Prelude.Map.{Map, get, put}
use go_ddd.Prelude.Result.{Error, Result, ok, err, err_not_found, other_error, ◌>>=◌}
use go_ddd.Shared.{Time}
use go_ddd.EventBus.{Event, Payload, object, malformed, Handler, Outcome, returns, Bus, subscribe}
use go_ddd.Pagination.{Page, Listing}
use go_ddd.Customer.Messaging.{
  event_customer_created, event_customer_email_changed, event_customer_deactivated,
}

-- dto.Customer
pub record Row : Type 0 where
  pub id : Text
  pub name : Text
  pub email : Text
  pub status : Text
  pub created_at : Time

abbrev pub Rows : Type 0
Rows = Map Row

-- A member of a decoded object. One that is missing leaves the zero value.
member : Text → List (Text × Text) → Text
member key [] = []
member key ((k, v) ∷ ms) = let rest = member key ms in if k == key then v else rest

-- `nonZero`, at the time `now`
unfoldable pub non_zero : Time → Time → Time
non_zero now t = if nat_beq t 0 then now else t

bad_payload : Outcome
bad_payload = returns (some (other_error (codes "invalid payload")))

-- The fields that the handlers decode, or the error of `json.Unmarshal`.
decoded : Payload → (List (Text × Text) → Rows → Rows) → Rows → Outcome × Rows
decoded malformed f rows = (bad_payload, rows)
decoded (object ms) f rows = (returns none, f ms rows)

created_row : Time → Event → List (Text × Text) → Row
created_row now e ms = record {
  id = member (codes "id") ms;
  name = member (codes "name") ms;
  email = member (codes "email") ms;
  status = codes "active";
  created_at = non_zero now e.occurred_at;
}

unfoldable pub on_created : Time → Handler Rows
unfolding decoded bad_payload member created_row non_zero
on_created now e rows =
    decoded e.payload (λ ms r. put r (member (codes "id") ms) (created_row now e ms)) rows

-- An update of one row, if it is there.
pub update : Text → (Row → Row) → Rows → Rows
update id f rows = elim (get rows id) [ none ↦ rows | some row ↦ put rows id (f row) ]

unfoldable pub on_email_changed : Handler Rows
unfolding decoded bad_payload member update
on_email_changed e rows =
    decoded e.payload
      (λ ms.
        update (member (codes "id") ms)
          (λ row. record row { email = member (codes "new_email") ms }))
      rows

unfoldable pub on_deactivated : Handler Rows
unfolding decoded bad_payload member update
on_deactivated e rows =
    decoded e.payload
      (λ ms. update (member (codes "id") ms) (λ row. record row { status = codes "inactive" })) rows

-- `Register`
unfoldable pub register : Time → Bus Rows → Result (Bus Rows)
unfolding on_created on_email_changed on_deactivated
register now bus = do
  b1 ← subscribe bus event_customer_created (some (on_created now))
  b2 ← subscribe b1 event_customer_email_changed (some on_email_changed)
  subscribe b2 event_customer_deactivated (some on_deactivated)

found : Option Row → Result Row
found none = err err_not_found
found (some row) = ok row

-- GetCustomerHandler.Handle and `GetByID`
unfoldable pub get_by_id : Rows → Text → Result Row
unfolding found
get_by_id rows id = found (get rows id)

-- The order of the list: by time of creation, then by id.
unfoldable pub row_less : Row → Row → Bool
row_less a b =
    if nat_beq a.created_at b.created_at then text_ltb a.id b.id else ltb a.created_at b.created_at

insert : Row → List Row → List Row
insert x [] = x ∷ []
insert x (y ∷ ys) = let rest = insert x ys in if row_less y x then y ∷ rest else x ∷ y ∷ ys

-- `sort.Slice` with this order
unfoldable pub sort_rows : List Row → List Row
unfolding insert
sort_rows [] = []
sort_rows (x ∷ xs) = insert x (sort_rows xs)

-- `all[lo:hi]`; `none` is a panic. The sum wraps round beyond the largest `int`.
window : List Row → ℕ → ℤ → Option (List Row)
window all lo (negsuc n) = none
window all lo (pos n) = if leb (lo + n) max_int then some (take n (drop lo all)) else none

slice : List Row → Page → Option (List Row)
slice all page = elim page.offset [
  | pos o ↦ window all (min o (length all)) page.limit
  | negsuc o ↦ none
]

listing : List Row → Page → Option (Listing Row)
listing all page = elim (slice all page) [
  | none ↦ none
  | some items ↦
      some (record { items = items; total = length all; limit = page.limit; offset = page.offset })
]

-- ListCustomersHandler.Handle and `List`, over the rows in any order of the map.
unfoldable pub list_rows : List Row → Page → Option (Listing Row)
unfolding sort_rows window slice listing row_less
list_rows rows page = listing (sort_rows rows) page

-- `List` of PostgresReadModel: a negative LIMIT or OFFSET is an error of the database.
database_slice : List Row → Page → Result (List Row)
database_slice all page = elim page.limit [
  | negsuc n ↦ err (other_error (codes "LIMIT must not be negative"))
  | pos l ↦ elim page.offset [
    | negsuc o ↦ err (other_error (codes "OFFSET must not be negative"))
    | pos o ↦ ok (take l (drop o all))
  ]
]

-- The rows come in the order of the memory list: the ids are compared by their bytes, which is the
-- collation C of the database.
unfoldable pub list_table : List Row → Page → Result (Listing Row)
unfolding database_slice sort_rows row_less
list_table rows page = do
  items ← database_slice (sort_rows rows) page
  ok (record { items = items; total = length rows; limit = page.limit; offset = page.offset })

upserted : Option Row → Row → Row
upserted none new = new
upserted (some row) new = record row { name = new.name; email = new.email }

-- What the table keeps of a row, given what a column of type TIMESTAMPTZ keeps of a time.
abbrev pub in_column : (Time → Time) → Row → Row
in_column column row = record row { created_at = column row.created_at }

-- `onCreated` of PostgresReadModel: a row that is there keeps its status and its time.
unfoldable pub on_created_table : (Time → Time) → Time → Handler Rows
unfolding decoded bad_payload member created_row upserted
on_created_table column now e rows =
    decoded e.payload
      (λ ms r.
        put r (member (codes "id") ms)
          (upserted (get r (member (codes "id") ms)) (in_column column (created_row now e ms))))
      rows

-- `onEmailChanged` and `onDeactivated` of PostgresReadModel: an UPDATE of the row with the id, if
-- it is there.
unfoldable pub on_email_changed_table : Handler Rows
unfolding decoded bad_payload member update
on_email_changed_table e rows =
    decoded e.payload
      (λ ms.
        update (member (codes "id") ms)
          (λ row. record row { email = member (codes "new_email") ms }))
      rows

unfoldable pub on_deactivated_table : Handler Rows
unfolding decoded bad_payload member update
on_deactivated_table e rows =
    decoded e.payload
      (λ ms. update (member (codes "id") ms) (λ row. record row { status = codes "inactive" })) rows

-- `Register` of PostgresReadModel
unfoldable pub register_table : (Time → Time) → Time → Bus Rows → Result (Bus Rows)
unfolding on_created_table on_email_changed_table on_deactivated_table
register_table column now bus = do
  b1 ← subscribe bus event_customer_created (some (on_created_table column now))
  b2 ← subscribe b1 event_customer_email_changed (some on_email_changed_table)
  subscribe b2 event_customer_deactivated (some on_deactivated_table)

-- `GetByID` of PostgresReadModel: no row is ErrNotFound.
unfoldable pub get_table_row : Rows → Text → Result Row
unfolding found
get_table_row rows id = found (get rows id)
