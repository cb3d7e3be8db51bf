-- ===== src/Customer/Commands/Race.antt =====
-- Two CreateCustomer requests at once, in memory: no lock is held from the check of the address to
-- the save.
use go_ddd.Prelude.{
  ℕ, suc, ◌≡◌, refl, sym, ap, subst, ◌∙◌, ◌≢◌, false, none, some, List, [], ◌∷◌, arith, text_eq,
}
use go_ddd.Prelude.Text.{Text}
use go_ddd.Prelude.Text.Trim.Lower.{CaseTables}
use go_ddd.Prelude.Map.{get}
use go_ddd.Prelude.Result.{Result, ok}
use go_ddd.Shared.{Time, pull_events}
use go_ddd.Customer.Email.{CustomerId, Email}
use go_ddd.Customer.Aggregate.{Customer, Snapshot, to_snapshot, new_customer}
use go_ddd.Customer.Repository.{save, exists_by_email, ensure_available}
use go_ddd.Customer.Repository.Stale.{save-new}
use go_ddd.Customer.Messaging.Dispatch.{dispatch-keeps}
use go_ddd.Customer.Commands.{World, memory_deps, create_rest, draw_id, world_publish}

module _ (tables : CaseTables) (uuid : ℕ → Text) (clock : ℕ → Time) where
  -- The steps of two requests for one address, in this order: both check, then each goes on.
  pub interleaved :
      CustomerId → Text → CustomerId → Text → Email → World → List (Result (Unit {0})) × World
  interleaved id name id' name' email w =
      let deps = memory_deps tables uuid clock in
      let (r1, w1) = ensure_available deps.exists email w in
      let (r2, w2) = ensure_available deps.exists email w1 in
      let (r3, w3) = create_rest tables deps id name email w2 in
      let (r4, w4) = create_rest tables deps id' name' email w3 in (r1 ∷ r2 ∷ r3 ∷ r4 ∷ [], w4)

  new_customer-id :
      (id : CustomerId) (name : Text) (email : Email) (now : Time) (c : Customer)
      → new_customer id name email now ≡ ok c
      → (c.id ≡ id) × (c.email ≡ email)
  unfolding new_customer
  new_customer-id id name email now c h = ground (arith, h)

  rest-stores :
      (id : CustomerId) (name : Text) (email : Email) (w : World) (c : Customer)
      → new_customer id name email (clock w.readings) ≡ ok c
      → get w.repo.by_id c.id.value ≡ none
      → ((create_rest tables (memory_deps tables uuid clock) id name email w).0 ≡ ok tt)
        × ((create_rest tables (memory_deps tables uuid clock) id name email w).1.repo
            ≡ (save c w.repo).1)
  unfolding create_rest memory_deps
  rest-stores id name email w c good new =
      let (stored, at, others) = save-new w.repo c new in
      let (done, kept) =
        dispatch-keeps (draw_id tables uuid clock) (world_publish tables uuid clock) (λ v. v.repo)
          (λ v. refl) (pull_events c.root).0
          (record w { repo = (save c w.repo).1; readings = suc w.readings })
          (λ es v. (refl, refl)) in
      rw (good, stored) (done, kept)

  ensure-free :
      (email : Email) (w : World)
      → exists_by_email email w.repo ≡ false
      → ensure_available (memory_deps tables uuid clock).exists email w ≡ (ok tt, w)
  unfolding ensure_available memory_deps
  ensure-free email w free = rw free refl

  -- One request that passed its check: it stores a row with its address, and no other row changes.
  rest-adds :
      (id : CustomerId) (name : Text) (email : Email) (w : World)
      → get w.repo.by_id id.value ≡ none
      → ((at : Time) → (x : Customer) × (new_customer id name email at ≡ ok x))
      → let p = create_rest tables (memory_deps tables uuid clock) id name email w in
        (s : Snapshot) × (p.0 ≡ ok tt)
        × (get p.1.repo.by_id id.value ≡ some s)
        × (s.email ≡ email.value)
        × ((k : Text) → id.value ≢ k → get p.1.repo.by_id k ≡ get w.repo.by_id k)
  unfolding to_snapshot
  rest-adds id name email w new good =
      let (c, made) = good (clock w.readings) in
      let (own, address) = new_customer-id id name email (clock w.readings) c made in
      let new' : get w.repo.by_id c.id.value ≡ none = rw own new in
      let (done, kept) = rest-stores id name email w c made new' in
      let (stored, at, others) = save-new w.repo c new' in
      (
        to_snapshot c,
        done,
        ap (λ r. get r.by_id id.value) kept
            ∙ subst (λ k. get (save c w.repo).1.by_id k ≡ some (to_snapshot c))
                (ap (λ i. i.value) own) at,
        ap (λ e. e.value) address,
        λ k ne. ap (λ r. get r.by_id k) kept ∙ others k (λ e. ne (ap (λ i. i.value) (sym own) ∙ e)),
      )

  -- If two requests for one free address, with ids that are new, both check it before either saves,
  -- then neither gets an error and two customers have the address.
  pub interleaved-shares :
      (id id' : CustomerId) (name name' : Text) (email : Email) (w : World)
      → exists_by_email email w.repo ≡ false
      → get w.repo.by_id id.value ≡ none
      → get w.repo.by_id id'.value ≡ none
      → id.value ≢ id'.value
      → ((at : Time) → (x : Customer) × (new_customer id name email at ≡ ok x))
      → ((at : Time) → (x : Customer) × (new_customer id' name' email at ≡ ok x))
      → ((interleaved id name id' name' email w).0 ≡ ok tt ∷ ok tt ∷ ok tt ∷ ok tt ∷ [])
        × ((s : Snapshot) × (s' : Snapshot) × (get
                (interleaved id name id' name' email w).1.repo.by_id
                id.value
              ≡ some s)
            × (get (interleaved id name id' name' email w).1.repo.by_id id'.value ≡ some s')
            × (s.email ≡ s'.email))
  unfolding interleaved
  interleaved-shares id id' name name' email w free new new' ne good good' =
      let deps = memory_deps tables uuid clock in
      let checked = ensure-free email w free in
      let w3 = (create_rest tables deps id name email w).1 in
      let (s, done, at, address, others) = rest-adds id name email w new good in
      let (s', done', at', address', others') =
        rest-adds id' name' email w3 (others id'.value ne ∙ new') good' in
      rw (checked, checked)
        (
          ap (λ r. ok tt ∷ ok tt ∷ r ∷ (create_rest tables deps id' name' email w3).0 ∷ []) done
              ∙ ap (λ r. ok tt ∷ ok tt ∷ ok tt ∷ r ∷ []) done',
          (s, s', others' id.value (λ e. ne (sym e)) ∙ at, at', address ∙ sym address'),
        )
