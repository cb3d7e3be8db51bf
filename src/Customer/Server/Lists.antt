-- ===== src/Customer/Server/Lists.antt =====
-- ListCustomers over the wire.
use go_ddd.Prelude.{
  ℕ, suc, ◌+◌, ◌≤◌, ◌≡◌, refl, ap, ◌∙◌, Option, none, some, List, [], ◌∷◌, map, arith, text_eq,
  length, take, drop, length-take,
}
use go_ddd.Prelude.Int.{ℤ, pos, max_int}
use go_ddd.Pagination.{max_limit, Listing, new_page-shape}
use go_ddd.Customer.ReadModel.{Row, list_rows, sort_rows}
use go_ddd.Customer.ReadModel.Paging.{list_rows-list_table}
use go_ddd.Customer.Server.{list_customers_rpc, list_message, to_int32, to_proto, ListMessage}

-- Whatever limit and offset a caller sends, and while an `int` counts the rows, ListCustomers
-- answers, without a panic, with a window of the sorted customers that has at most 100 entries.
pub list_customers_rpc-answers :
    (rows : List Row) (limit offset : ℤ)
    → length rows + max_limit ≤ max_int
    → (r : ListMessage) × (l : ℕ) × (o : ℕ) × (list_customers_rpc rows limit offset ≡ some r)
      × (r.items ≡ map to_proto (take l (drop o (sort_rows rows))))
      × (length r.items ≤ max_limit)
unfolding list_customers_rpc list_message
list_customers_rpc-answers rows limit offset fits =
    let (l, o, page, small) = new_page-shape limit offset in
    let items = take l (drop o (sort_rows rows)) in
    let r : ListMessage = record {
      items = map to_proto items;
      total = to_int32 (pos (length rows));
      limit = to_int32 (pos l);
      offset = to_int32 (pos o);
    } in
    (
      r,
      l,
      o,
      ap (λ p. answer (list_rows rows p)) page
          ∙ ap answer (list_rows-list_table rows l o small fits).0,
      refl,
      omega (arith, length-map items, length-take l (drop o (sort_rows rows)), small),
    )
  where
    answer : Option (Listing Row) → Option ListMessage
    answer none = none
    answer (some x) = some (list_message x)

    length-map : (xs : List Row) → length (map to_proto xs) ≡ length xs
    length-map [] = refl
    length-map (x ∷ xs) = ap suc (length-map xs)
