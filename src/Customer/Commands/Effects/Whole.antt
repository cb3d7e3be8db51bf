-- ===== src/Customer/Commands/Effects/Whole.antt =====
-- What a whole command writes in memory.
use go_ddd.Prelude.{ℕ, suc, ◌≡◌, refl, inl, inr, arith, text_eq}
use go_ddd.Prelude.Text.{Text}
use go_ddd.Prelude.Text.Trim.Lower.{CaseTables}
use go_ddd.Prelude.Result.{Result, ok, err}
use go_ddd.Prelude.Exec.{continue}
use go_ddd.Shared.{Time}
use go_ddd.Customer.Email.{CustomerId, new_email, new_customer_id}
use go_ddd.Customer.Commands.{
  World, memory_deps, create_customer, change_customer_email, create_work, noop,
}
use go_ddd.Customer.Commands.Recorded.{drawn-known}
use go_ddd.Customer.Commands.Tidy.{Command, creates, changes, run, forget, Result-cases}
use go_ddd.Customer.Commands.Effects.{Effect}
use go_ddd.Customer.Commands.Effects.Creating.{create_work-Effect}
use go_ddd.Customer.Commands.Effects.Changing.{change_email_work-Effect}

module _ (tables : CaseTables) (uuid : ℕ → Text) (clock : ℕ → Time) where
  forget-Effect :
      (w : World) (x : Text) (p : Result (Unit {0}) × World)
      → Effect tables uuid clock w p.1
      → Effect tables uuid clock w
          (forget tables uuid clock (continue p.0 (λ d s. (ok x, s)) p.1)).1
  forget-Effect w x (ok d, w') h = h
  forget-Effect w x (err e, w') h = h

  drawn-id : (raw : Text) (id : CustomerId) → new_customer_id raw ≡ ok id → id.value ≡ raw
  unfolding new_customer_id
  drawn-id raw id h = ground (arith, h)

  -- What a command does to the customers and the outbox: nothing, or the creation of a customer, or
  -- the change of an address, each with the one event that tells of it.
  pub run-Effect :
      (c : Command) (w : World) → Effect tables uuid clock w (run tables uuid clock c w).1
  unfolding run create_customer change_customer_email noop memory_deps
  run-Effect (creates name address) w =
      elim (Result-cases tables uuid clock (new_email tables address)) [
        | inl (e, bad) ↦ rw bad (inl (refl, refl, omega arith))
        | inr (email, good) ↦ elim (Result-cases tables uuid clock (new_customer_id (uuid w.ids))) [
          | inl (e, bad) ↦ rw (good, bad) (inl (refl, refl, omega arith))
          | inr (id, known) ↦
              rw (good, known)
                (forget-Effect w id.value
                  (create_work tables (memory_deps tables uuid clock) id name email
                    (record w { ids = suc w.ids }))
                  (create_work-Effect tables uuid clock id name email w
                    (drawn-id (uuid w.ids) id known)
                    (drawn-known tables uuid clock (uuid w.ids) id known)))
        ]
      ]
  run-Effect (changes raw address) w = elim (Result-cases tables uuid clock (new_customer_id raw)) [
    | inl (e, bad) ↦ rw bad (inl (refl, refl, omega arith))
    | inr (id, known) ↦ elim (Result-cases tables uuid clock (new_email tables address)) [
      | inl (e, bad) ↦ rw (known, bad) (inl (refl, refl, omega arith))
      | inr (email, good) ↦ rw (known, good) (change_email_work-Effect tables uuid clock id email w)
    ]
  ]
