-- ===== src/Order/Placing.antt =====
-- When an order is placed.
use go_ddd.Prelude.{
  ℕ, ◌≡◌, refl, suc, ◌⊎◌, inl, inr, Option-cases, Bool-cases, false, ◌==◌, sym, subst, ◌≢◌, none,
  some, [], ◌∷◌, arith, text_eq, text_beq, text_beq_iff, text_beq_refl,
}
use go_ddd.Prelude.Text.{Text, codes}
use go_ddd.Prelude.Map.{SameBut, get, get-put}
use go_ddd.Prelude.Result.{
  Result, ok, err, err_not_found, status_error, not_found_code, invalid_argument,
}
use go_ddd.Shared.{Time, order_placed, error_text}
use go_ddd.Customer.ReadModel.{Rows, Row, get_by_id}
use go_ddd.Customer.Server.{get_customer_rpc}
use go_ddd.Order.{
  new_order_id, Order, place, find_by_id, save, verify, verified, place_order, place_order_rpc,
  map_error, mapped, World, memory_deps, found,
}

-- A customer whom the read model does not have gets no order: the caller sees the status NotFound,
-- and nothing is stored, nor is an id drawn.
pub place_order_rpc-unknown :
    (uuid : ℕ → Text) (clock : ℕ → Time) (customer_id : Text) (w : World)
    → get w.customers customer_id ≡ none
    → place_order_rpc (memory_deps uuid clock) customer_id w
      ≡ (err (status_error not_found_code (error_text err_not_found)), w)
unfolding place_order_rpc memory_deps verified verify get_customer_rpc get_by_id place_order
    map_error
place_order_rpc-unknown uuid clock customer_id w h = rw h refl

verify-known :
    (rows : Rows) (customer_id : Text) (row : Row)
    → get rows customer_id ≡ some row
    → verify rows customer_id ≡ ok tt
unfolding verify verified get_customer_rpc get_by_id
verify-known rows customer_id row h = rw h refl

new_order_id-ok : (v : Text) → v ≢ [] → new_order_id v ≡ ok (record { value = v })
unfolding new_order_id
new_order_id-ok v h = ground (arith, h, text_beq_iff v [])

abbrev pub placed : Text → Text → Time → Order
placed id customer_id now = record {
  root = record { events = order_placed id customer_id now ∷ [] };
  id = record { value = id };
  customer_id = customer_id;
  placed_at = now;
}

place-ok :
    (id customer_id : Text) (now : Time)
    → customer_id ≢ []
    → place (record { value = id }) customer_id now ≡ ok (placed id customer_id now)
unfolding place
place-ok id customer_id now h = ground (arith, h, text_beq_iff customer_id [])

-- No order is for a customer without an id, even if the read model has a row for it.
place_order_rpc-unnamed :
    (uuid : ℕ → Text) (clock : ℕ → Time) (row : Row) (w : World)
    → get w.customers [] ≡ some row
    → uuid w.ids ≢ []
    → place_order_rpc (memory_deps uuid clock) [] w ≡ (
      err (status_error invalid_argument (codes "domain: order requires a customer")),
      record w { ids = suc w.ids; readings = suc w.readings },
    )
unfolding place_order_rpc memory_deps place_order mapped map_error place text_beq
place_order_rpc-unnamed uuid clock row w h drawn =
    rw (verify-known w.customers [] row h, new_order_id-ok (uuid w.ids) drawn) refl

-- If the read model has the customer and neither its id nor the drawn one is empty, then an order
-- is stored under the id that the caller gets, for this customer, with its event recorded, no
-- other order changes, and the read model is as it was.
place_order_rpc-known :
    (uuid : ℕ → Text) (clock : ℕ → Time) (customer_id : Text) (row : Row) (w : World)
    → get w.customers customer_id ≡ some row
    → customer_id ≢ []
    → uuid w.ids ≢ []
    → let p = place_order_rpc (memory_deps uuid clock) customer_id w in
      (p.0 ≡ ok (uuid w.ids))
      × (find_by_id (record { value = uuid w.ids }) p.1.orders
          ≡ ok (placed (uuid w.ids) customer_id (clock w.readings)))
      × SameBut (uuid w.ids) w.orders p.1.orders
      × (p.1.customers ≡ w.customers)
unfolding place_order_rpc memory_deps place_order mapped find_by_id save found
place_order_rpc-known uuid clock customer_id row w h named drawn =
    let id = uuid w.ids in
    let order = placed id customer_id (clock w.readings) in
    rw
      (
        verify-known w.customers customer_id row h,
        new_order_id-ok id drawn,
        place-ok id customer_id (clock w.readings) named,
      )
      (
        refl,
        rw (get-put w.orders id id order, text_beq_refl id) refl,
        λ k ne. ground (arith, ne, text_beq_iff id k, get-put w.orders id k order),
        refl,
      )

-- What a caller of PlaceOrder may get, and what the stores are afterwards.
abbrev pub Outcomes : (ℕ → Text) → (ℕ → Time) → Text → World → Type 0
Outcomes uuid clock customer_id w =
    let p = place_order_rpc (memory_deps uuid clock) customer_id w in
    ((get w.customers customer_id ≡ none)
      × (p ≡ (err (status_error not_found_code (error_text err_not_found)), w)))
    ⊎ ((row : Row) × (get w.customers customer_id ≡ some row)
        × (((customer_id ≡ [])
              × (p ≡ (
                err (status_error invalid_argument (codes "domain: order requires a customer")),
                record w { ids = suc w.ids; readings = suc w.readings },
              )))
            ⊎ ((customer_id ≢ [])
                × (p.0 ≡ ok (uuid w.ids))
                × (find_by_id (record { value = uuid w.ids }) p.1.orders
                    ≡ ok (placed (uuid w.ids) customer_id (clock w.readings)))
                × SameBut (uuid w.ids) w.orders p.1.orders
                × (p.1.customers ≡ w.customers))))

-- While the drawn id is not empty, PlaceOrder over the stores in memory has three outcomes. Without
-- a row for the customer in the read model the caller gets NotFound and nothing changes, nor is an
-- id drawn. With a row but an empty customer id the caller gets InvalidArgument, an id and a time
-- have been drawn, and nothing is stored. Otherwise the caller gets the drawn id, the order stands
-- under it with its event, no other order changes, and the read model is as it was.
pub place_order_rpc-Outcomes :
    (uuid : ℕ → Text) (clock : ℕ → Time) (customer_id : Text) (w : World)
    → uuid w.ids ≢ []
    → Outcomes uuid clock customer_id w
place_order_rpc-Outcomes uuid clock customer_id w drawn =
    elim (Option-cases (get w.customers customer_id)) [
      | inl gone ↦ inl (gone, place_order_rpc-unknown uuid clock customer_id w gone)
      | inr (row, shown) ↦ inr (
        row,
        shown,
        elim (Bool-cases (customer_id == [])) [
          | inl empty ↦
              let none_given = (text_beq_iff customer_id []).0 empty in
              inl (
                none_given,
                subst (λ id. place_order_rpc (memory_deps uuid clock) id w ≡ unnamed)
                    (sym none_given)
                    (place_order_rpc-unnamed uuid clock row w
                      (subst (λ id. get w.customers id ≡ some row) none_given shown) drawn),
              )
          | inr given ↦
              let (answered, stored, others, customers) =
                place_order_rpc-known uuid clock customer_id row w shown (named given) drawn in
              inr (named given, answered, stored, others, customers)
        ],
      )
    ]
  where
    unnamed : Result Text × World
    unnamed = (
      err (status_error invalid_argument (codes "domain: order requires a customer")),
      record w { ids = suc w.ids; readings = suc w.readings },
    )

    named : (customer_id == []) ≡ false → customer_id ≢ []
    named given e = absurd (ground (arith, given, e, text_beq_iff customer_id []))
