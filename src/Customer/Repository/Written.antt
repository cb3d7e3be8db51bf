-- ===== src/Customer/Repository/Written.antt =====
-- What a save in memory leaves.
use go_ddd.Prelude.{◌≡◌, refl, ◌⊎◌, inl, inr, Bool-cases, Option, none, some, arith}
use go_ddd.Prelude.Text.Trim.Lower.{CaseTables}
use go_ddd.Customer.Email.{CustomerId}
use go_ddd.Prelude.Map.{get, put}
use go_ddd.Prelude.Result.{ok, err, err_conflict}
use go_ddd.Customer.Aggregate.{Customer, Snapshot, to_snapshot, from_snapshot}
use go_ddd.Customer.Repository.{
  Repository, find_by_id, restore, save, save_snapshot, is_newer, write,
}

-- A save fails and changes nothing, or it puts the snapshot under the id of the customer.
pub save_or_not :
    (c : Customer) (r : Repository)
    → (save c r ≡ (err err_conflict, r))
      ⊎ ((r' : Repository) × (save c r ≡ (ok tt, r'))
          × (r'.by_id ≡ put r.by_id c.id.value (to_snapshot c)))
unfolding save save_snapshot write to_snapshot
save_or_not c r = elim (Bool-cases (is_newer (get r.by_id c.id.value) (to_snapshot c))) [
  | inl stale ↦ inl (rw stale refl)
  | inr fresh ↦ inr (write (to_snapshot c) r, rw fresh refl, refl)
]

-- A customer that is found was restored from a snapshot.
pub find_by_id-restored :
    (tables : CaseTables) (id : CustomerId) (r : Repository) (c : Customer)
    → find_by_id tables id r ≡ ok c
    → (s : Snapshot) × (get r.by_id id.value ≡ some s) × (from_snapshot tables s ≡ ok c)
unfolding find_by_id restore
find_by_id-restored tables id r c h = go (get r.by_id id.value) refl h
  where
    go :
        (o : Option Snapshot)
        → get r.by_id id.value ≡ o
        → restore tables o ≡ ok c
        → (s : Snapshot) × (get r.by_id id.value ≡ some s) × (from_snapshot tables s ≡ ok c)
    go none h k = absurd (ground (arith, k))
    go (some s) h k = (s, h, k)
