-- ===== src/Customer/Repository/Stale.antt =====
-- What each repository makes of two writers that loaded the same version.
use go_ddd.Prelude.{
  ◌≡◌, refl, ap, subst, ◌∙◌, ◌≢◌, false, Option, none, some, arith, text_eq, text_beq_iff,
  text_beq_refl,
}
use go_ddd.Prelude.Int.{ℤ, pos, negsuc, ltb_ℤ}
use go_ddd.Prelude.Text.{Text}
use go_ddd.Prelude.Map.{get, put, get-put}
use go_ddd.Prelude.Result.{ok, err, err_conflict}
use go_ddd.Customer.Aggregate.{Customer, Snapshot, to_snapshot}
use go_ddd.Customer.Repository.{
  Repository, Table, write, is_newer, save_snapshot, save, save_row, upsert,
}

ltb_ℤ_irrefl : (x : ℤ) → ltb_ℤ x x ≡ false
ltb_ℤ_irrefl (pos n) = ground arith
ltb_ℤ_irrefl (negsuc n) = ground arith

save-written :
    (r : Repository) (c : Customer) → (save c r).0 ≡ ok tt → (save c r).1 ≡ write (to_snapshot c) r
unfolding save save_snapshot
save-written r c h = ground (arith, h)

save-fresh :
    (r : Repository) (c : Customer)
    → is_newer (get r.by_id c.id.value) (to_snapshot c) ≡ false
    → save c r ≡ (ok tt, write (to_snapshot c) r)
unfolding save save_snapshot to_snapshot
save-fresh r c h = rw h refl

-- A new id is never refused.
pub save-new :
    (r : Repository) (c : Customer)
    → get r.by_id c.id.value ≡ none
    → ((save c r).0 ≡ ok tt)
      × (get (save c r).1.by_id c.id.value ≡ some (to_snapshot c))
      × ((id : Text) → c.id.value ≢ id → get (save c r).1.by_id id ≡ get r.by_id id)
unfolding is_newer write to_snapshot
save-new r c new =
    let saved = save-fresh r c (rw (new, is_newer) refl) in
    (
      ap (λ p. p.0) saved,
      ap (λ p. get p.1.by_id c.id.value) saved
          ∙ ground (
            arith,
            text_beq_refl c.id.value,
            get-put r.by_id c.id.value c.id.value (to_snapshot c),
          ),
      λ id ne.
          ap (λ p. get p.1.by_id id) saved
          ∙ ground (
            arith,
            ne,
            text_beq_iff c.id.value id,
            get-put r.by_id c.id.value id (to_snapshot c),
          ),
    )

get-write : (r : Repository) (s : Snapshot) → get (write s r).by_id s.id ≡ some s
unfolding write
get-write r s = ground (arith, text_beq_refl s.id, get-put r.by_id s.id s.id s)

upsert-ok :
    (old : Option Snapshot) (s : Snapshot) (t : Table)
    → (upsert old s t).0 ≡ ok tt
    → (row : Snapshot) × ((upsert old s t).1 ≡ put t s.id row) × (row.version ≡ s.version)
unfolding upsert
upsert-ok none s t h = (s, ground (arith, h), refl)
upsert-ok (some row) s t h = (
  record row { name = s.name; email = s.email; status = s.status; version = s.version },
  ground (arith, h),
  refl,
)

upsert-stale :
    (row s : Snapshot) (t : Table)
    → row.version ≡ s.version
    → upsert (some row) s t ≡ (err err_conflict, t)
unfolding upsert
upsert-stale row s t h = rw (h, ltb_ℤ_irrefl s.version) refl

memory_overwrites :
    (r : Repository) (a b : Customer)
    → a.id.value ≡ b.id.value
    → a.version ≡ b.version
    → (save a r).0 ≡ ok tt
    → ((save b (save a r).1).0 ≡ ok tt)
      × (get (save b (save a r).1).1.by_id b.id.value ≡ some (to_snapshot b))
unfolding is_newer to_snapshot
memory_overwrites r a b same version first =
    let r' = write (to_snapshot a) r in
    let found : get r'.by_id b.id.value ≡ some (to_snapshot a) =
      subst (λ k. get (write (to_snapshot a) r).by_id k ≡ some (to_snapshot a)) same
        (get-write r (to_snapshot a)) in
    let older : is_newer (get r'.by_id b.id.value) (to_snapshot b) ≡ false =
      rw (found, version) (ltb_ℤ_irrefl b.version) in
    let saved : save b (save a r).1 ≡ (ok tt, write (to_snapshot b) r') =
      rw (save-written r a first) (save-fresh r' b older) in
    (ap (λ p. p.0) saved, ap (λ p. get p.1.by_id b.id.value) saved ∙ get-write r' (to_snapshot b))

table_refuses :
    (t : Table) (a b : Customer)
    → a.id.value ≡ b.id.value
    → a.version ≡ b.version
    → (save_row a t).0 ≡ ok tt
    → save_row b (save_row a t).1 ≡ (err err_conflict, (save_row a t).1)
unfolding save_row to_snapshot
table_refuses t a b same version first =
    let (row, written, v) = upsert-ok (get t a.id.value) (to_snapshot a) t first in
    let found : get (put t a.id.value row) b.id.value ≡ some row =
      ground
        (arith, get-put t a.id.value b.id.value row, text_beq_iff a.id.value b.id.value, same) in
    rw (written, found) (upsert-stale row (to_snapshot b) (put t a.id.value row) (v ∙ version))

-- Two writers made their own changes to one loaded customer, so both have the same new version.
-- In memory the second save overwrites the first without an error; the table refuses it and keeps
-- the row of the first.
pub save_twice-save_row_twice :
    (r : Repository) (t : Table) (a b : Customer)
    → a.id.value ≡ b.id.value
    → a.version ≡ b.version
    → (save a r).0 ≡ ok tt
    → (save_row a t).0 ≡ ok tt
    → ((save b (save a r).1).0 ≡ ok tt)
      × (get (save b (save a r).1).1.by_id b.id.value ≡ some (to_snapshot b))
      × (save_row b (save_row a t).1 ≡ (err err_conflict, (save_row a t).1))
save_twice-save_row_twice r t a b same version first first_row =
    let m = memory_overwrites r a b same version first in
    (m.0, m.1, table_refuses t a b same version first_row)
