-- ===== src/Customer/Repository.antt =====
-- The repositories of customers: persistence/memory, persistence/postgres, and the domain service
-- that asks them for a free address (domain/services/email_uniqueness.go).
pub mod Index
pub mod Stale
pub mod Written
use go_ddd.Prelude.{
  ℕ, zero, suc, ◌+◌, ◌-◌, ◌*◌, ◌/◌, ◌%◌, ◌^◌, ◌≤◌, ◌<◌, min, ◌≡◌, refl, sym, ap, ◌∙◌, ◌≢◌, ◌↔◌, ◌⊎◌,
  inl, inr, Bool, true, false, ◌&&◌, ◌||◌, not, Option, none, some, List, [], ◌∷◌, ◌++◌, map,
  append_assoc, append-nil, arith, ltb, leb, nat_beq, nat_beq_iff, ◌==◌, text_eq, text_beq,
  text_beq_iff, text_beq_refl, length, length-append, take, drop, length-take, length-drop,
  take-append-drop, All, All-append, All-filter, filter, Bool-cases, Option-cases, if◌then◌else◌,
}
use go_ddd.Prelude.Int.{ℤ, ltb_ℤ, leb_ℤ}
use go_ddd.Prelude.Text.{Text, codes}
use go_ddd.Prelude.Text.Trim.Lower.{CaseTables}
use go_ddd.Prelude.Map.{Map, get, put, delete}
use go_ddd.Prelude.Result.{Error, Result, ok, err, err_not_found, err_conflict, other_error}
use go_ddd.Prelude.Exec.{Exec, pure, throw, lift, ◌>>=◌}
use go_ddd.Customer.Email.{CustomerId, Email}
use go_ddd.Customer.Aggregate.{Customer, Snapshot, to_snapshot, from_snapshot}

-- memory.Repository, without its lock: each of its methods is one critical section.
pub record Repository : Type 0 where
  pub by_id : Map Snapshot
  -- email to id
  pub by_email : Map Text

abbrev pub new_repository : Repository
new_repository = record { by_id = []; by_email = [] }

restore : CaseTables → Option Snapshot → Result Customer
restore tables none = err err_not_found
restore tables (some snap) = from_snapshot tables snap

unfoldable pub find_by_id : CaseTables → CustomerId → Repository → Result Customer
unfolding restore
find_by_id tables id r = restore tables (get r.by_id id.value)

is_newer : Option Snapshot → Snapshot → Bool
is_newer none snap = false
is_newer (some existing) snap = ltb_ℤ snap.version existing.version

-- The index without the address that the customer gives up.
release : Option Snapshot → Snapshot → Map Text → Map Text
release none snap index = index
release (some existing) snap index =
    if existing.email == snap.email then index else delete index existing.email

write : Snapshot → Repository → Repository
unfolding release
write snap r = record {
  by_id = put r.by_id snap.id snap;
  by_email = put (release (get r.by_id snap.id) snap r.by_email) snap.email snap.id;
}

save_snapshot : Snapshot → Exec Repository (Unit {0})
unfolding is_newer write
save_snapshot snap r =
    if is_newer (get r.by_id snap.id) snap then (err err_conflict, r) else (ok tt, write snap r)

unfoldable pub save : Customer → Exec Repository (Unit {0})
unfolding save_snapshot
save c r = save_snapshot (to_snapshot c) r

is_some : {A : Type 0} → Option A → Bool
is_some none = false
is_some (some x) = true

unfoldable pub exists_by_email : Email → Repository → Bool
unfolding is_some
exists_by_email email r = is_some (get r.by_email email.value)

module _ {S : Type 0} where
  -- `EnsureAvailable`, over any repository.
  unfoldable pub ensure_available : (Email → Exec S Bool) → Email → Exec S (Unit {0})
  ensure_available exists email = do
    taken ← exists email
    if taken then throw err_conflict else pure tt

-- The table `customers`, with its key `id` and the UNIQUE constraint on `email`.
abbrev pub Table : Type 0
Table = Map Snapshot

-- Another row has the address.
email_taken : Table → Text → Text → Bool
email_taken [] id email = false
email_taken ((k, row) ∷ t) id email =
    let rest = email_taken t id email in (if k == id then false else row.email == email) || rest

unique_violation : Error
unique_violation =
    other_error (codes "duplicate key value violates unique constraint \"customers_email_key\"")

-- The row that `DO UPDATE` leaves: `created_at` is not in its list.
updated : Snapshot → Snapshot → Snapshot
updated row s = record row {
  name = s.name;
  email = s.email;
  status = s.status;
  version = s.version;
}

-- postgres.Repository.Save: the upsert, and the conflict when it affects no row.
upsert : Option Snapshot → Snapshot → Exec Table (Unit {0})
unfolding email_taken unique_violation updated
upsert none s t =
    if email_taken t s.id s.email then (err unique_violation, t) else (ok tt, put t s.id s)
upsert (some row) s t =
    if ltb_ℤ row.version s.version
    then if email_taken t s.id s.email
      then (err unique_violation, t)
      else (ok tt, put t s.id (updated row s))
    else (err err_conflict, t)

unfoldable pub save_row : Customer → Exec Table (Unit {0})
unfolding upsert
save_row c t = upsert (get t c.id.value) (to_snapshot c) t

unfoldable pub find_row : CaseTables → CustomerId → Table → Result Customer
unfolding restore
find_row tables id t = restore tables (get t id.value)

has_email : Table → Text → Bool
has_email [] email = false
has_email ((k, row) ∷ t) email = let rest = has_email t email in (row.email == email) || rest

unfoldable pub row_exists_by_email : Email → Table → Bool
unfolding has_email
row_exists_by_email email t = has_email t email.value
