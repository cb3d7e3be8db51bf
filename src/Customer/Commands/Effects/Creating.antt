-- ===== src/Customer/Commands/Effects/Creating.antt =====
-- What the unit of work of CreateCustomer writes in memory.
use go_ddd.Prelude.{
  ℕ, suc, ◌≡◌, refl, ap, ◌∙◌, inl, inr, false, [], ◌∷◌, arith, text_eq, Bool-cases,
}
use go_ddd.Prelude.Text.{Text}
use go_ddd.Prelude.Text.Trim.Lower.{CaseTables}
use go_ddd.Prelude.Map.{put}
use go_ddd.Prelude.Result.{Error, err}
use go_ddd.Shared.{Time, customer_created, pull_events}
use go_ddd.Customer.Email.{CustomerId, Email, status_text, is_zero}
use go_ddd.Customer.Aggregate.{new_customer, to_snapshot, validate_name}
use go_ddd.Customer.Repository.{save, exists_by_email, ensure_available}
use go_ddd.Customer.Messaging.{dispatch, to_integration_event}
use go_ddd.Customer.Commands.{World, memory_deps, create_rest, create_work}
use go_ddd.Customer.Commands.Recorded.{made, new_customer-made}
use go_ddd.Customer.Commands.Tidy.{persist, Result-cases}
use go_ddd.Customer.Commands.Effects.{Idle, Creates, Effect, persist_or_not}

module _ (tables : CaseTables) (uuid : ℕ → Text) (clock : ℕ → Time) where
  new_customer-unnamed :
      (id : CustomerId) (name : Text) (email : Email) (now : Time) (e : Error)
      → is_zero id ≡ false
      → validate_name name ≡ err e
      → new_customer id name email now ≡ err e
  unfolding new_customer
  new_customer-unnamed id name email now e known bad = rw (known, bad) refl

  publish-Creates :
      (id : CustomerId) (name : Text) (email : Email) (at : Time) (w w' : World)
      → id.value ≡ uuid w.ids
      → w'.repo.by_id
        ≡ put w.repo.by_id id.value (to_snapshot (made tables uuid clock id name email at))
      → w'.outbox ≡ w.outbox
      → w'.ids ≡ suc w.ids
      → Creates tables uuid clock w
          ((memory_deps tables uuid clock).publish
            (customer_created id.value name email.value at ∷ [])
            w').1
  unfolding memory_deps dispatch to_integration_event to_snapshot status_text
  publish-Creates id name email at w w' named stored same drawn = (
    to_snapshot (made tables uuid clock id name email at),
    clock w'.readings,
    named,
    refl,
    stored,
    rw (same, drawn) refl,
    ap suc drawn,
  )

  persist-created-Effect :
      (id : CustomerId) (name : Text) (email : Email) (at : Time) (w0 w : World)
      → id.value ≡ uuid w0.ids
      → w.repo ≡ w0.repo
      → w.outbox ≡ w0.outbox
      → w.ids ≡ suc w0.ids
      → Effect tables uuid clock w0
          (persist tables uuid clock
            (made tables uuid clock id name email at)
            (customer_created id.value name email.value at ∷ [])
            w).1
  persist-created-Effect id name email at w0 w named repo outbox ids =
      elim (persist_or_not tables uuid clock (made tables uuid clock id name email at)
        (customer_created id.value name email.value at ∷ []) w) [
          | inl stale ↦ rw stale (inl (repo, outbox, omega (arith, ids)))
          | inr (w', stored, there, same, drawn) ↦ rw stored (
              inr (
                inl (
                  publish-Creates id name email at w0 w' named
                    (there
                      ∙ ap
                          (λ r.
                            put r.by_id id.value
                              (to_snapshot (made tables uuid clock id name email at)))
                          repo)
                    (same ∙ outbox) (drawn ∙ ids))))
        ]

  pub create_work-Effect :
      (id : CustomerId) (name : Text) (email : Email) (w0 : World)
      → id.value ≡ uuid w0.ids
      → is_zero id ≡ false
      → Effect tables uuid clock w0
          (create_work tables
            (memory_deps tables uuid clock)
            id
            name
            email
            (record w0 { ids = suc w0.ids })).1
  unfolding create_work create_rest ensure_available memory_deps save persist pull_events
  create_work-Effect id name email w0 named known =
      let idle : Idle w0 (record w0 { ids = suc w0.ids }) = (refl, refl, omega arith) in
      elim (Bool-cases (exists_by_email email w0.repo)) [
        | inl taken ↦ rw taken (inl idle)
        | inr free ↦ elim (Result-cases tables uuid clock (validate_name name)) [
          | inl (e, bad) ↦
              rw (free, new_customer-unnamed id name email (clock w0.readings) e known bad)
                (inl (refl, refl, omega arith))
          | inr (done, good) ↦
              rw
                (
                  free,
                  new_customer-made tables uuid clock id name email (clock w0.readings) known good,
                )
                (persist-created-Effect id name email (clock w0.readings) w0
                  (record w0 { ids = suc w0.ids; readings = suc w0.readings }) named refl refl refl)
        ]
      ]
