-- ===== src/Customer/Server.antt =====
-- interfaces/grpc/server.go: the handlers of the customer service.
pub mod Lists
use go_ddd.Prelude.{
  ℕ, zero, suc, ◌+◌, ◌-◌, ◌*◌, ◌/◌, ◌%◌, ◌^◌, ◌≤◌, ◌<◌, min, ◌≡◌, refl, sym, ap, subst, ◌∙◌, ◌≢◌,
  ◌↔◌, ◌⊎◌, inl, inr, Bool, true, false, ◌&&◌, ◌||◌, not, Option, none, some, List, [], ◌∷◌, ◌++◌,
  map, append_assoc, append-nil, arith, ltb, leb, nat_beq, nat_beq_iff, ◌==◌, text_eq, text_beq,
  text_beq_iff, text_beq_refl, length, length-append, take, drop, length-take, length-drop,
  take-append-drop, All, All-append, All-filter, filter, Bool-cases, Option-cases, some_inj,
  if◌then◌else◌,
}
use go_ddd.Prelude.Int.{ℤ, pos, negsuc}
use go_ddd.Prelude.Text.{Text, codes}
use go_ddd.Prelude.Text.Trim.Lower.{CaseTables}
use go_ddd.Prelude.Result.{Error, Result, ok, err}
use go_ddd.Prelude.Exec.{Exec}
use go_ddd.Shared.{Time}
use go_ddd.Grpc.{
  map_error, http_status_metadata_key, location_metadata_key, status_code_option,
  outgoing_header_matcher,
}
use go_ddd.Pagination.{new_page, Listing}
use go_ddd.Customer.Commands.{Deps, create_customer, change_customer_email}
use go_ddd.Customer.ReadModel.{Row, Rows, get_by_id, list_rows}

-- The message `Customer`.
pub record CustomerMessage : Type 0 where
  pub id : Text
  pub name : Text
  pub email : Text
  pub status : Text
  pub created_at : Time

unfoldable pub to_proto : Row → CustomerMessage
to_proto c = record {
  id = c.id;
  name = c.name;
  email = c.email;
  status = c.status;
  created_at = c.created_at;
}

-- `int32(n)`, which keeps the low 32 bits.
low_32 : ℕ → ℤ
low_32 n = if ltb n (2 ^ 31) then pos n else negsuc (2 ^ 32 - n - 1)

unfoldable pub to_int32 : ℤ → ℤ
unfolding low_32
to_int32 (pos n) = low_32 (n % 2 ^ 32)
to_int32 (negsuc n) = low_32 (2 ^ 32 - 1 - n % 2 ^ 32)

mapped : {A B : Type 0} → (A → B) → Result A → Result B
mapped f (ok a) = ok (f a)
mapped f (err e) = err (map_error e)

-- The response metadata of a new customer.
abbrev pub created_headers : Text → List (Text × List Text)
created_headers id =
    (http_status_metadata_key, codes "201" ∷ [])
    ∷ (location_metadata_key, (codes "/api/v1/customers/" ++ id) ∷ [])
    ∷ []

-- A response and the metadata that the handler has set.
headers_of : Result Text → List (Text × List Text)
headers_of (ok id) = created_headers id
headers_of (err e) = []

module _ {S : Type 0} (tables : CaseTables) (deps : Deps S) where
  unfoldable pub create_customer_rpc : Text → Text → S → (Result Text × List (Text × List Text)) × S
  unfolding mapped headers_of map_error
  create_customer_rpc name email s =
      let (r, s') = create_customer tables deps name email s in
      ((mapped (λ id. id) r, headers_of r), s')

  unfoldable pub change_customer_email_rpc : Text → Text → Exec S (Unit {0})
  unfolding mapped map_error
  change_customer_email_rpc id email s =
      let (r, s') = change_customer_email tables deps id email s in (mapped (λ d. d) r, s')

unfoldable pub get_customer_rpc : Rows → Text → Result CustomerMessage
unfolding mapped map_error to_proto
get_customer_rpc rows id = mapped to_proto (get_by_id rows id)

-- The message `ListCustomersResponse`.
pub record ListMessage : Type 0 where
  pub items : List CustomerMessage
  pub total : ℤ
  pub limit : ℤ
  pub offset : ℤ

list_message : Listing Row → ListMessage
list_message r = record {
  items = map to_proto r.items;
  total = to_int32 (pos r.total);
  limit = to_int32 r.limit;
  offset = to_int32 r.offset;
}

-- The rows come in any order of the map; `none` is a panic.
unfoldable pub list_customers_rpc : List Row → ℤ → ℤ → Option ListMessage
unfolding list_message to_int32 to_proto new_page
list_customers_rpc rows limit offset = elim (list_rows rows (new_page limit offset)) [
  | none ↦ none
  | some r ↦ some (list_message r)
]
