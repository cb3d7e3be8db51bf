-- ===== src/Customer/Commands/Uniqueness.antt =====
-- Commands one after the other, in memory.
use go_ddd.Prelude.{ℕ, ◌≡◌, inl, inr, false, some, List, [], ◌∷◌, arith, text_eq}
use go_ddd.Prelude.Text.{Text}
use go_ddd.Prelude.Text.Trim.Lower.{CaseTables}
use go_ddd.Prelude.Map.{get}
use go_ddd.Prelude.Result.{Error, Result, ok, err}
use go_ddd.Shared.{Time}
use go_ddd.Customer.Aggregate.{Customer, Snapshot, to_snapshot}
use go_ddd.Customer.Repository.{Repository, exists_by_email}
use go_ddd.Customer.Repository.Index.{
  IsIndexed, Free, new_repository-IsIndexed, save-IsIndexed, unique_email,
}
use go_ddd.Customer.Commands.{World, new_world}
use go_ddd.Customer.Commands.Tidy.{Command, Tidy, run, run_all, run-Tidy}

-- No two customers have the same address.
abbrev pub HasUniqueEmails : Repository → Type 0
HasUniqueEmails r =
    (id id' : Text) (s s' : Snapshot)
    → get r.by_id id ≡ some s
    → get r.by_id id' ≡ some s'
    → s.email ≡ s'.email
    → id ≡ id'

module _ (tables : CaseTables) (uuid : ℕ → Text) (clock : ℕ → Time) where
  Free-of :
      (r : Repository) (c : Customer) → exists_by_email c.email r ≡ false → Free r (to_snapshot c)
  unfolding exists_by_email to_snapshot
  Free-of r c h id listed = absurd (ground (arith, h, listed))

  Tidy-IsIndexed :
      (w : World) (p : Result (Unit {0}) × World)
      → Tidy tables uuid clock w p
      → IsIndexed w.repo
      → IsIndexed p.1.repo
  Tidy-IsIndexed w (err e, w') t ix = rw t.0 ix
  Tidy-IsIndexed w (ok d, w') (inl same) ix = rw same ix
  Tidy-IsIndexed w (ok d, w') (inr (c, free, saved)) ix =
      rw saved (save-IsIndexed w.repo c ix (Free-of w.repo c free))

  run_all-IsIndexed :
      (cs : List Command) (w : World)
      → IsIndexed w.repo
      → IsIndexed (run_all tables uuid clock cs w).repo
  unfolding run_all
  run_all-IsIndexed [] w ix = ix
  run_all-IsIndexed (c ∷ cs) w ix =
      run_all-IsIndexed cs (run tables uuid clock c w).1
        (Tidy-IsIndexed w (run tables uuid clock c w) (run-Tidy tables uuid clock c w) ix)

  -- After any commands, one after the other from the empty repository, no two customers have the
  -- same address, and the index holds exactly the addresses of the customers.
  pub run_all_unique :
      (cs : List Command)
      → IsIndexed (run_all tables uuid clock cs new_world).repo
        × HasUniqueEmails (run_all tables uuid clock cs new_world).repo
  run_all_unique cs =
      let ix = run_all-IsIndexed cs new_world new_repository-IsIndexed in
      (
        ix,
        λ id id' s s' h h' e.
            unique_email (run_all tables uuid clock cs new_world).repo id id' s s' ix h h' e,
      )

  -- In the wiring in memory, whose unit of work is Noop and whose outbox takes every event, a
  -- command that returns an error leaves the customers and the outbox as they were.
  pub run-error :
      (c : Command) (w : World) (e : Error)
      → (run tables uuid clock c w).0 ≡ err e
      → ((run tables uuid clock c w).1.repo ≡ w.repo)
        × ((run tables uuid clock c w).1.outbox ≡ w.outbox)
  run-error c w e h = go (run tables uuid clock c w) (run-Tidy tables uuid clock c w) h
    where
      go :
          (p : Result (Unit {0}) × World)
          → Tidy tables uuid clock w p
          → p.0 ≡ err e
          → (p.1.repo ≡ w.repo) × (p.1.outbox ≡ w.outbox)
      go (err x, w') t eq = t
      go (ok d, w') t eq = absurd (ground (arith, eq))
