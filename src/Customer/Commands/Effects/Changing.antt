-- ===== src/Customer/Commands/Effects/Changing.antt =====
-- What the unit of work of ChangeCustomerEmail writes in memory.
use go_ddd.Prelude.{
  ℕ, suc, ◌≡◌, refl, ap, ◌∙◌, ◌⊎◌, inl, inr, false, some, [], ◌∷◌, ◌++◌, arith, text_eq, Bool-cases,
}
use go_ddd.Prelude.Int.{int_succ}
use go_ddd.Prelude.Text.{Text}
use go_ddd.Prelude.Text.Trim.Lower.{CaseTables}
use go_ddd.Prelude.Map.{get, put}
use go_ddd.Prelude.Result.{Error, ok, err, err_conflict}
use go_ddd.Shared.{Time, customer_email_changed, record_event, pull_events}
use go_ddd.Customer.Email.{CustomerId, Email, Status, active, deactivated, email_equals}
use go_ddd.Customer.Aggregate.{Customer, Snapshot, change_email, to_snapshot, from_snapshot}
use go_ddd.Customer.Aggregate.Snapshots.{from_snapshot-kept}
use go_ddd.Customer.Repository.{find_by_id, save, exists_by_email, ensure_available}
use go_ddd.Customer.Repository.Written.{find_by_id-restored}
use go_ddd.Customer.Messaging.{dispatch, to_integration_event}
use go_ddd.Customer.Commands.{World, memory_deps, change_work, change_email_work}
use go_ddd.Customer.Commands.Tidy.{persist, Result-cases}
use go_ddd.Customer.Commands.Effects.{Changes, Effect, persist_or_not}

module _ (tables : CaseTables) (uuid : ℕ → Text) (clock : ℕ → Time) where
  publish-Changes :
      (key : Text) (s : Snapshot) (c : Customer) (new : Email) (at : Time) (w w' : World)
      → get w.repo.by_id key ≡ some s
      → from_snapshot tables s ≡ ok c
      → w'.repo.by_id
        ≡ put w.repo.by_id c.id.value
            (to_snapshot (record c { email = new; version = int_succ c.version }))
      → w'.outbox ≡ w.outbox
      → w'.ids ≡ w.ids
      → Changes tables uuid clock w
          ((memory_deps tables uuid clock).publish
            (customer_email_changed c.id.value c.email.value new.value at ∷ [])
            w').1
  unfolding memory_deps dispatch to_integration_event to_snapshot
  publish-Changes key s c new at w w' found restored stored same drawn =
      let (root, named, name, since, status) = from_snapshot-kept tables s c restored in
      (
        key,
        s,
        new.value,
        int_succ c.version,
        c.email.value,
        at,
        clock w'.readings,
        found,
        stored ∙ rw (named, name, since, status) refl,
        rw (same, drawn, named) refl,
        ap suc drawn,
      )

  abbrev moved : Customer → Email → Time → Customer
  moved c new at = record c {
    root = record_event c.root (customer_email_changed c.id.value c.email.value new.value at);
    email = new;
    version = int_succ c.version;
  }

  change_email_or_not :
      (c : Customer) (new : Email) (at : Time)
      → email_equals c.email new ≡ false
      → ((e : Error) × (change_email c new at ≡ err e))
        ⊎ (change_email c new at ≡ ok (moved c new at))
  unfolding change_email
  change_email_or_not c new at other = go c.status refl
    where
      go :
          (st : Status)
          → c.status ≡ st
          → ((e : Error) × (change_email c new at ≡ err e))
            ⊎ (change_email c new at ≡ ok (moved c new at))
      go active h = inr (rw (h, other) refl)
      go deactivated h = inl (err_conflict, rw h refl)

  persist-moved-Effect :
      (key : Text) (s : Snapshot) (c : Customer) (new : Email) (at : Time) (w0 w : World)
      → get w0.repo.by_id key ≡ some s
      → from_snapshot tables s ≡ ok c
      → w.repo ≡ w0.repo
      → w.outbox ≡ w0.outbox
      → w.ids ≡ w0.ids
      → Effect tables uuid clock w0
          (persist tables uuid clock
            (moved c new at)
            (c.root.events ++ customer_email_changed c.id.value c.email.value new.value at ∷ [])
            w).1
  unfolding record_event to_snapshot
  persist-moved-Effect key s c new at w0 w found restored repo outbox ids =
      let e = customer_email_changed c.id.value c.email.value new.value at in
      let only : c.root.events ++ e ∷ [] ≡ e ∷ [] =
        ap (λ r. r.events ++ e ∷ []) (from_snapshot-kept tables s c restored).0 in
      elim (persist_or_not tables uuid clock (moved c new at) (c.root.events ++ e ∷ []) w) [
        | inl stale ↦ rw stale (inl (repo, outbox, omega (arith, ids)))
        | inr (w', stored, there, same, drawn) ↦
            rw (stored, only)
              (inr (
                inr (
                  publish-Changes key s c new at w0 w' found restored
                    (there
                      ∙ ap
                          (λ r.
                            put r.by_id c.id.value (
                              to_snapshot (record c { email = new; version = int_succ c.version })))
                          repo)
                    (same ∙ outbox) (drawn ∙ ids))))
      ]

  change_work-Effect :
      (key : Text) (s : Snapshot) (c : Customer) (new : Email) (w : World)
      → get w.repo.by_id key ≡ some s
      → from_snapshot tables s ≡ ok c
      → email_equals c.email new ≡ false
      → Effect tables uuid clock w (change_work tables (memory_deps tables uuid clock) c new w).1
  unfolding change_work ensure_available memory_deps save persist pull_events record_event
      to_snapshot
  change_work-Effect key s c new w found restored other =
      elim (Bool-cases (exists_by_email new w.repo)) [
        | inl taken ↦ rw taken (inl (refl, refl, omega arith))
        | inr free ↦ elim (change_email_or_not c new (clock w.readings) other) [
          | inl (e, bad) ↦ rw (free, bad) (inl (refl, refl, omega arith))
          | inr good ↦
              rw (free, good)
                (persist-moved-Effect key s c new (clock w.readings) w
                  (record w { readings = suc w.readings }) found restored refl refl refl)
        ]
      ]

  pub change_email_work-Effect :
      (id : CustomerId) (email : Email) (w : World)
      → Effect tables uuid clock w
          (change_email_work tables (memory_deps tables uuid clock) id email w).1
  unfolding change_email_work memory_deps
  change_email_work-Effect id email w =
      elim (Result-cases tables uuid clock (find_by_id tables id w.repo)) [
        | inl (e, missing) ↦ rw missing (inl (refl, refl, omega arith))
        | inr (c, found) ↦ elim (Bool-cases (email_equals c.email email)) [
          | inl same ↦ rw (found, same) (inl (refl, refl, omega arith))
          | inr other ↦
              let (s, there, restored) = find_by_id-restored tables id w.repo c found in
              rw (found, other) (change_work-Effect id.value s c email w there restored other)
        ]
      ]
