-- ===== src/Tests/Customers.antt =====
-- The customer's values, aggregate, repositories and read model at concrete inputs.
use go_ddd.Prelude.{
  ◌-◌, ◌%◌, ℕ, ◌≤◌, ◌≡◌, refl, ◌↔◌, some, List, [], ◌∷◌, map, arith, text_eq, text_beq, length,
  take, drop,
}
use mathlib.Core.List.{Permᴰ}
use go_ddd.Prelude.Int.{pos, negsuc}
use go_ddd.Prelude.Map.{SameBut, get}
use go_ddd.Prelude.Text.{codes, index_byte, count_byte, contains_byte}
use go_ddd.Prelude.Text.Trim.{trim_space}
use go_ddd.Prelude.Text.Trim.Lower.{to_lower}
use go_ddd.Prelude.Result.{ok, err, err_conflict}
use go_ddd.Shared.{Time, fresh_root, customer_created, record_event}
use go_ddd.EventBus.{publish}
use go_ddd.Customer.Email.{new_email, check_email, active, deactivated, is_zero}
use go_ddd.Customer.Email.Address.{IsAddress, new_email_iff}
use go_ddd.Customer.Aggregate.{Customer, new_customer, validate_name, to_snapshot, from_snapshot}
use go_ddd.Customer.Aggregate.Lifecycle.{
  Call, changes_email, deactivates, run, replay, facts, replay-run_new,
}
use go_ddd.Customer.Aggregate.Snapshots.{IsWellFormed, from_snapshot-to_snapshot}
use go_ddd.Customer.Repository.{new_repository, save, save_row}
use go_ddd.Customer.Repository.Index.{IsIndexed, Free, new_repository-IsIndexed, save-IsIndexed}
use go_ddd.Customer.Repository.Stale.{save_twice-save_row_twice}
use go_ddd.Customer.ReadModel.{Row, list_rows, list_table, sort_rows}
use go_ddd.Customer.ReadModel.Projection.Table.{wired_table, Keeps, publish-wired_table}
use go_ddd.Customer.ReadModel.Projection.{wired, translate, row_of, publish-shows}
use go_ddd.Customer.ReadModel.Paging.{Apart, list_rows-perm, list_rows-list_table}
use go_ddd.Customer.Server.{list_customers_rpc, to_proto, ListMessage}
use go_ddd.Customer.Server.Lists.{list_customers_rpc-answers}
use go_ddd.Pagination.{max_limit}
use go_ddd.Tests.{tables, uuid, ada, bob, first_id}

abbrev customer_ada : Customer
customer_ada = record {
  root = record { events = customer_created (codes "u0") (codes "Ada") (codes "ada@x.io") 5 ∷ [] };
  id = first_id;
  name = codes "Ada";
  email = ada;
  status = active;
  created_at = 5;
  version = pos 1;
}

ada_made : new_customer first_id (codes "Ada") ada 5 ≡ ok customer_ada
unfolding new_customer validate_name is_zero record_event text_beq
ada_made = refl

abbrev calls : List Call
calls =
    changes_email bob 6
    ∷ changes_email bob 7
    ∷ deactivates (codes "left") 8
    ∷ changes_email ada 9
    ∷ []

replay-run_new_example : replay (run customer_ada calls) ≡ facts (run customer_ada calls)
replay-run_new_example = replay-run_new first_id (codes "Ada") ada 5 customer_ada calls ada_made

ada_normal : new_email tables (codes "ada@x.io") ≡ ok ada
unfolding new_email check_email to_lower trim_space index_byte count_byte contains_byte text_beq
ada_normal = refl

from_snapshot-to_snapshot_example :
    from_snapshot tables (to_snapshot customer_ada) ≡ ok (record customer_ada { root = fresh_root })
from_snapshot-to_snapshot_example = from_snapshot-to_snapshot tables customer_ada well_formed
  where
    well_formed : IsWellFormed tables customer_ada
    well_formed = record {
      identified = λ e. absurd (ground (arith, e));
      named = λ e. absurd (ground (arith, e));
      short_name = omega arith;
      normal = ada_normal;
    }

new_email_iff_example : (new_email tables (codes " Ada@X.io") ≡ ok ada) ↔ (
    IsAddress (to_lower tables (trim_space (codes " Ada@X.io")))
    × (ada.value ≡ to_lower tables (trim_space (codes " Ada@X.io"))))
new_email_iff_example = new_email_iff tables (codes " Ada@X.io") ada

save-IsIndexed_example : IsIndexed (save customer_ada new_repository).1
unfolding get
save-IsIndexed_example = save-IsIndexed new_repository customer_ada new_repository-IsIndexed free
  where
    free : Free new_repository (to_snapshot customer_ada)
    free id e = absurd (ground (arith, e))

abbrev moved : Customer
moved = record customer_ada { email = bob; version = pos 2 }

abbrev renamed : Customer
renamed = record customer_ada { status = deactivated; version = pos 2 }

save_twice-save_row_twice_example :
    ((save renamed (save moved new_repository).1).0 ≡ ok tt)
    × (get (save renamed (save moved new_repository).1).1.by_id (codes "u0")
        ≡ some (to_snapshot renamed))
    × (save_row renamed (save_row moved []).1 ≡ (err err_conflict, (save_row moved []).1))
unfolding save save_row get
save_twice-save_row_twice_example =
    save_twice-save_row_twice new_repository [] moved renamed refl refl refl refl

publish-shows_example :
    let p = publish (wired 1) (translate uuid 0 (run customer_ada calls).root.events) [] in
    (p.0 ≡ some [])
    × (get p.1 (run customer_ada calls).id.value ≡ some (row_of 1 (facts (run customer_ada calls))))
    × SameBut (run customer_ada calls).id.value [] p.1
publish-shows_example =
    publish-shows 1 uuid 0 [] first_id (codes "Ada") ada 5 customer_ada calls ada_made

-- A column that keeps whole thousands.
abbrev column : Time → Time
column t = t - t % 1000

publish-wired_table_example :
    Keeps column 1 uuid
      (publish (wired_table column 1) (translate uuid 0 (run customer_ada calls).root.events) [])
      (publish (wired 1) (translate uuid 0 (run customer_ada calls).root.events) [])
unfolding get
publish-wired_table_example =
    publish-wired_table column 1 uuid 0 [] first_id (codes "Ada") ada 5 customer_ada calls ada_made
      refl

abbrev row_1 : Row
row_1 = record {
  id = codes "u0";
  name = codes "Ada";
  email = codes "ada@x.io";
  status = codes "active";
  created_at = 5;
}

abbrev row_2 : Row
row_2 = record row_1 { id = codes "u1"; created_at = 4 }

list_rows-perm_example :
    list_rows (row_1 ∷ row_2 ∷ []) (record { limit = pos 1; offset = pos 0 })
    ≡ list_rows (row_2 ∷ row_1 ∷ []) (record { limit = pos 1; offset = pos 0 })
list_rows-perm_example =
    list_rows-perm (row_1 ∷ row_2 ∷ []) (row_2 ∷ row_1 ∷ [])
      (record { limit = pos 1; offset = pos 0 }) (Permᴰ.swap refl refl) apart
  where
    apart : Apart (row_1 ∷ row_2 ∷ [])
    apart = ((λ e. absurd (ground (arith, e)), tt), (tt, tt))

list_rows-list_table_example :
    (list_rows (row_1 ∷ row_2 ∷ []) (record { limit = pos 1; offset = pos 1 })
      ≡ some (record {
        items = take 1 (drop 1 (sort_rows (row_1 ∷ row_2 ∷ [])));
        total = 2;
        limit = pos 1;
        offset = pos 1;
      }))
    × (list_table (row_1 ∷ row_2 ∷ []) (record { limit = pos 1; offset = pos 1 })
        ≡ ok (record {
          items = take 1 (drop 1 (sort_rows (row_1 ∷ row_2 ∷ [])));
          total = 2;
          limit = pos 1;
          offset = pos 1;
        }))
list_rows-list_table_example =
    list_rows-list_table (row_1 ∷ row_2 ∷ []) 1 1 (omega arith) (omega arith)

list_customers_rpc-answers_example :
    (r : ListMessage) × (l : ℕ) × (o : ℕ) × (list_customers_rpc
        (row_1 ∷ row_2 ∷ [])
        (pos 500)
        (negsuc 3)
      ≡ some r)
    × (r.items ≡ map to_proto (take l (drop o (sort_rows (row_1 ∷ row_2 ∷ [])))))
    × (length r.items ≤ max_limit)
list_customers_rpc-answers_example =
    list_customers_rpc-answers (row_1 ∷ row_2 ∷ []) (pos 500) (negsuc 3) (omega arith)
