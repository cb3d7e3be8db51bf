-- ===== src/Customer/Commands/Tidy.antt =====
-- What one command in memory does to the customers and the outbox.
use go_ddd.Prelude.{
  ℕ, suc, ◌≡◌, refl, ap, ◌⊎◌, inl, inr, false, List, [], ◌∷◌, arith, text_eq, text_beq_iff,
  Bool-cases,
}
use go_ddd.Prelude.Text.{Text}
use go_ddd.Prelude.Text.Trim.Lower.{CaseTables}
use go_ddd.Prelude.Result.{Error, Result, ok, err}
use go_ddd.Prelude.Exec.{Exec, continue, ◌>>◌}
use go_ddd.Shared.{Time, DomainEvent, pull_events}
use go_ddd.Customer.Email.{CustomerId, Email, new_email, new_customer_id, email_equals}
use go_ddd.Customer.Aggregate.{Customer, new_customer, change_email}
use go_ddd.Customer.Repository.{find_by_id, save, exists_by_email, ensure_available}
use go_ddd.Customer.Repository.Index.{save-err}
use go_ddd.Customer.Messaging.Dispatch.{dispatch-keeps}
use go_ddd.Customer.Commands.{
  Deps, World, memory_deps, create_customer, change_customer_email, create_rest, create_work,
  change_work, change_email_work, noop, draw_id, world_publish,
}

pub data Command : Type 0 where
  -- name, address
  creates : Text → Text → Command
  -- id, address
  changes : Text → Text → Command

module _ (tables : CaseTables) (uuid : ℕ → Text) (clock : ℕ → Time) where
  abbrev deps : Deps World
  deps = memory_deps tables uuid clock

  -- What a unit of work may leave behind: with an error, the repository and the outbox as they
  -- were; without one, at most one save of a customer whose address nobody had.
  abbrev pub Tidy : World → Result (Unit {0}) × World → Type 0
  Tidy w (err e, w') = (w'.repo ≡ w.repo) × (w'.outbox ≡ w.outbox)
  Tidy w (ok done, w') =
      (w'.repo ≡ w.repo)
      ⊎ ((c : Customer) × (exists_by_email c.email w.repo ≡ false) × (w'.repo ≡ (save c w.repo).1))

  unfoldable pub persist : Customer → List DomainEvent → Exec World (Unit {0})
  persist c ds = do deps.store c; deps.publish ds

  kept-Tidy :
      (w : World) (p : Result (Unit {0}) × World)
      → p.0 ≡ ok tt
      → (p.1.repo ≡ w.repo)
        ⊎ ((c : Customer) × (exists_by_email c.email w.repo ≡ false)
            × (p.1.repo ≡ (save c w.repo).1))
      → Tidy w p
  kept-Tidy w (ok tt, w') done h = h
  kept-Tidy w (err e, w') done h = absurd (ground (arith, done))

  persist-Tidy :
      (c : Customer) (ds : List DomainEvent) (w : World)
      → exists_by_email c.email w.repo ≡ false
      → Tidy w (persist c ds w)
  unfolding persist memory_deps
  persist-Tidy c ds w free = go (save c w.repo).0 refl
    where
      go :
          (r : Result (Unit {0}))
          → (save c w.repo).0 ≡ r
          → Tidy w (continue r (λ x. deps.publish ds) (record w { repo = (save c w.repo).1 }))
      go (err e) h = (save-err w.repo c e h, refl)
      go (ok tt) h =
          let w' = record w { repo = (save c w.repo).1 } in
          let (done, kept) =
            dispatch-keeps (draw_id tables uuid clock) (world_publish tables uuid clock)
              (λ v. v.repo) (λ v. refl) ds w' (λ es v. (refl, refl)) in
          kept-Tidy w (deps.publish ds w') done (inr (c, free, kept))

  pub Result-cases :
      {A : Type 0} (r : Result A) → ((e : Error) × (r ≡ err e)) ⊎ ((a : A) × (r ≡ ok a))
  Result-cases (ok a) = inr (a, refl)
  Result-cases (err e) = inl (e, refl)

  id_email : (a b : Email) → a.value ≡ b.value → a ≡ b
  id_email a b h = ap (λ v. record { value = v }) h

  new_customer-email :
      (id : CustomerId) (name : Text) (email : Email) (now : Time) (c : Customer)
      → new_customer id name email now ≡ ok c
      → c.email ≡ email
  unfolding new_customer
  new_customer-email id name email now c h = ground (arith, h)

  change_email-email :
      (old : Customer) (email : Email) (now : Time) (c : Customer)
      → change_email old email now ≡ ok c
      → c.email ≡ email
  unfolding change_email email_equals
  change_email-email old email now c h =
      id_email c.email email (ground (arith, h, text_beq_iff old.email.value email.value))

  create_work-Tidy :
      (id : CustomerId) (name : Text) (email : Email) (w : World)
      → Tidy w (create_work tables deps id name email w)
  unfolding create_work create_rest ensure_available memory_deps save persist
  create_work-Tidy id name email w = elim (Bool-cases (exists_by_email email w.repo)) [
    | inl taken ↦ rw taken (refl, refl)
    | inr free ↦ elim (Result-cases (new_customer id name email (clock w.readings))) [
      | inl (e, bad) ↦ rw (free, bad) (refl, refl)
      | inr (c, good) ↦
          rw (free, good)
            (persist-Tidy c (pull_events c.root).0 (record w { readings = suc w.readings })
              (rw (new_customer-email id name email (clock w.readings) c good) free))
    ]
  ]

  change_work-Tidy :
      (customer : Customer) (email : Email) (w : World)
      → Tidy w (change_work tables deps customer email w)
  unfolding change_work ensure_available memory_deps save persist
  change_work-Tidy customer email w = elim (Bool-cases (exists_by_email email w.repo)) [
    | inl taken ↦ rw taken (refl, refl)
    | inr free ↦ elim (Result-cases (change_email customer email (clock w.readings))) [
      | inl (e, bad) ↦ rw (free, bad) (refl, refl)
      | inr (c, good) ↦
          rw (free, good)
            (persist-Tidy c (pull_events c.root).0 (record w { readings = suc w.readings })
              (rw (change_email-email customer email (clock w.readings) c good) free))
    ]
  ]

  change_email_work-Tidy :
      (id : CustomerId) (email : Email) (w : World)
      → Tidy w (change_email_work tables deps id email w)
  unfolding change_email_work memory_deps
  change_email_work-Tidy id email w = elim (Result-cases (find_by_id tables id w.repo)) [
    | inl (e, missing) ↦ rw missing (refl, refl)
    | inr (c, found) ↦ elim (Bool-cases (email_equals c.email email)) [
      | inl same ↦ rw (found, same) (inl refl)
      | inr new ↦ rw (found, new) (change_work-Tidy c email w)
    ]
  ]

  abbrev pub forget : Result Text × World → Result (Unit {0}) × World
  forget (ok x, w) = (ok tt, w)
  forget (err e, w) = (err e, w)

  -- Whether a command fails, and the world after it.
  unfoldable pub run : Command → World → Result (Unit {0}) × World
  run (creates name address) w = forget (create_customer tables deps name address w)
  run (changes id address) w = change_customer_email tables deps id address w

  unfoldable pub run_all : List Command → World → World
  run_all [] w = w
  run_all (c ∷ cs) w = run_all cs (run c w).1

  forget-Tidy :
      (w : World) (x : Text) (p : Result (Unit {0}) × World)
      → Tidy w p
      → Tidy w (forget (continue p.0 (λ d s. (ok x, s)) p.1))
  forget-Tidy w x (ok d, w') h = h
  forget-Tidy w x (err e, w') h = h

  pub run-Tidy : (c : Command) (w : World) → Tidy w (run c w)
  unfolding run create_customer change_customer_email noop memory_deps
  run-Tidy (creates name address) w = elim (Result-cases (new_email tables address)) [
    | inl (e, bad) ↦ rw bad (refl, refl)
    | inr (email, good) ↦ elim (Result-cases (new_customer_id (uuid w.ids))) [
      | inl (e, bad) ↦ rw (good, bad) (refl, refl)
      | inr (id, known) ↦
          let drawn = record w { ids = suc w.ids } in
          rw (good, known)
            (forget-Tidy w id.value (create_work tables deps id name email drawn)
              (create_work-Tidy id name email drawn))
    ]
  ]
  run-Tidy (changes raw address) w = elim (Result-cases (new_customer_id raw)) [
    | inl (e, bad) ↦ rw bad (refl, refl)
    | inr (id, known) ↦ elim (Result-cases (new_email tables address)) [
      | inl (e, bad) ↦ rw (known, bad) (refl, refl)
      | inr (email, good) ↦ rw (known, good) (change_email_work-Tidy id email w)
    ]
  ]
