-- ===== src/Customer/Commands.antt =====
-- application/commands: the handlers over their ports, and the wiring in memory (module.go, with
-- transaction.Noop).
pub mod Tidy
pub mod Uniqueness
pub mod Recorded
pub mod Effects
pub mod Race
use go_ddd.Prelude.{
  ℕ, zero, suc, ◌+◌, ◌-◌, ◌*◌, ◌/◌, ◌%◌, ◌^◌, ◌≤◌, ◌<◌, min, ◌≡◌, refl, sym, ap, subst, ◌∙◌, ◌≢◌,
  ◌↔◌, ◌⊎◌, inl, inr, Bool, true, false, ◌&&◌, ◌||◌, not, Option, none, some, List, [], ◌∷◌, ◌++◌,
  map, append_assoc, append-nil, arith, ltb, leb, nat_beq, nat_beq_iff, ◌==◌, text_eq, text_beq,
  text_beq_iff, text_beq_refl, length, length-append, take, drop, length-take, length-drop,
  take-append-drop, All, All-append, All-filter, filter, Bool-cases, Option-cases, if◌then◌else◌,
}
use go_ddd.Prelude.Text.{Text, codes}
use go_ddd.Prelude.Text.Trim.Lower.{CaseTables}
use go_ddd.Prelude.Result.{Error, Result, ok, err}
use go_ddd.Prelude.Exec.{Exec, pure, throw, lift, ◌>>=◌, ◌>>◌}
use go_ddd.Shared.{Time, DomainEvent, pull_events}
use go_ddd.EventBus.{Event}
use go_ddd.Outbox.{Store, new_store}
use go_ddd.Outbox
use go_ddd.Customer.Email.{CustomerId, new_customer_id, Email, new_email, email_equals}
use go_ddd.Customer.Aggregate.{Customer, new_customer, change_email}
use go_ddd.Customer.Repository.{
  Repository, new_repository, find_by_id, save, exists_by_email, ensure_available,
}
use go_ddd.Customer.Messaging.{total, dispatch}

-- The ports, over the state `S` of everything behind them.
pub record Deps (S : Type 0) : Type 0 where
  pub find : CustomerId → Exec S Customer
  pub store : Customer → Exec S (Unit {0})
  pub exists : Email → Exec S Bool
  pub within : Exec S (Unit {0}) → Exec S (Unit {0})
  pub publish : List DomainEvent → Exec S (Unit {0})
  pub now : S → Time × S
  pub new_id : S → Text × S

module _ {S : Type 0} (tables : CaseTables) (deps : Deps S) where
  -- What `CreateCustomer` does once the address was found free.
  create_rest : CustomerId → Text → Email → Exec S (Unit {0})
  create_rest id name email = do
    now ← total deps.now
    customer ← lift (new_customer id name email now)
    deps.store customer
    deps.publish (pull_events customer.root).0

  -- What `CreateCustomer` runs in its unit of work.
  pub create_work : CustomerId → Text → Email → Exec S (Unit {0})
  create_work id name email = do ensure_available deps.exists email; create_rest id name email

  -- CreateCustomerHandler.Handle: a name and an address, to the id.
  unfoldable pub create_customer : Text → Text → Exec S Text
  unfolding create_work create_rest ensure_available pull_events
  create_customer name address = do
    email ← lift (new_email tables address)
    raw ← total deps.new_id
    id ← lift (new_customer_id raw)
    deps.within (create_work id name email)
    pure id.value

  -- The rest of the unit of work, once the address is known to be a new one.
  change_work : Customer → Email → Exec S (Unit {0})
  change_work customer email = do
    ensure_available deps.exists email
    now ← total deps.now
    changed ← lift (change_email customer email now)
    deps.store changed
    deps.publish (pull_events changed.root).0

  pub change_email_work : CustomerId → Email → Exec S (Unit {0})
  change_email_work id email = do
    customer ← deps.find id
    if email_equals customer.email email then pure tt else change_work customer email

  -- ChangeCustomerEmailHandler.Handle: an id and an address.
  unfoldable pub change_customer_email : Text → Text → Exec S (Unit {0})
  unfolding change_work change_email_work ensure_available pull_events email_equals
  change_customer_email raw address = do
    id ← lift (new_customer_id raw)
    email ← lift (new_email tables address)
    deps.within (change_email_work id email)

-- transaction.Noop
unfoldable pub noop : {S : Type 0} → Exec S (Unit {0}) → Exec S (Unit {0})
noop work = work

-- The state in memory, with the count of the ids drawn and of the readings of the clock.
pub record World : Type 0 where
  pub repo : Repository
  pub outbox : Store
  pub ids : ℕ
  pub readings : ℕ

abbrev pub new_world : World
new_world = record { repo = new_repository; outbox = new_store; ids = 0; readings = 0 }

module _ (tables : CaseTables) (uuid : ℕ → Text) (clock : ℕ → Time) where
  draw_id : World → Text × World
  draw_id w = (uuid w.ids, record w { ids = suc w.ids })

  read_clock : World → Time × World
  read_clock w = (clock w.readings, record w { readings = suc w.readings })

  world_save : Customer → Exec World (Unit {0})
  world_save c w = let (r, repo) = save c w.repo in (r, record w { repo = repo })

  -- outbox.Publisher; `Store.Add` reads the clock.
  world_publish : List Event → Exec World (Unit {0})
  world_publish es w = (
    ok tt,
    record w { outbox = Outbox.publish w.outbox es (clock w.readings); readings = suc w.readings },
  )

  unfoldable pub memory_deps : Deps World
  unfolding draw_id read_clock world_save world_publish
  memory_deps = record {
    find = λ id w. (find_by_id tables id w.repo, w);
    store = world_save;
    exists = λ email w. (ok (exists_by_email email w.repo), w);
    within = noop;
    publish = dispatch draw_id world_publish;
    now = read_clock;
    new_id = draw_id;
  }
