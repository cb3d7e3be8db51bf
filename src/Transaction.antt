-- ===== src/Transaction.antt =====
-- internal/shared/infrastructure/transaction: the unit of work over a database.
pub mod Settled
use go_ddd.Prelude.{ℕ, suc, ◌-◌, Option, none, some, text_eq}
use go_ddd.Prelude.Result.{Error}
use go_ddd.EventBus.{Outcome, returns, panics}

-- How the database takes a commit: it keeps the changes, it refuses them, or it keeps them and its
-- answer is lost.
pub data Commit : Type 0 where
  keeps : Commit
  refuses loses_answer : Error → Commit

-- What the database answers in one unit of work.
pub record Answers : Type 0 where
  pub begin : Option Error
  pub rollback : Option Error
  pub commit : Commit

-- A database: what it keeps, and the number of its open transactions.
pub record Database (D : Type 0) : Type 0 where
  pub stored : D
  pub running : ℕ

module _ {D : Type 0} where
  -- `BeginTx`, without its transaction, which sees what the database keeps.
  begin_tx : Answers → Database D → Option Error × Database D
  begin_tx a db =
      (a.begin, elim a.begin [ none ↦ record db { running = suc db.running } | some e ↦ db ])

  -- `Tx.Rollback`: whatever it answers, the transaction ends, and nothing of it is kept.
  rollback_tx : Answers → Database D → Option Error × Database D
  rollback_tx a db = (a.rollback, record db { running = db.running - 1 })

  committed : Commit → D → Database D → Option Error × Database D
  committed keeps tx db = (none, record { stored = tx; running = db.running - 1 })
  committed (refuses e) tx db = (some e, record db { running = db.running - 1 })
  committed (loses_answer e) tx db = (some e, record { stored = tx; running = db.running - 1 })

  -- `Tx.Commit` of a transaction that has come to `tx`
  commit_tx : Answers → D → Database D → Option Error × Database D
  unfolding committed
  commit_tx a tx db = committed a.commit tx db

  -- The error of the rollback hides that of the work.
  failed : Error → Option Error × Database D → Outcome × Database D
  failed e (none, db) = (returns (some e), db)
  failed e (some r, db) = (returns (some r), db)

  -- The rest of `Within`, with the deferred function, once the work has ended.
  finish : Answers → Database D → Outcome → D → Outcome × Database D
  unfolding rollback_tx commit_tx failed
  finish a db (panics p) tx = (panics p, (rollback_tx a db).1)
  finish a db (returns (some e)) tx = failed e (rollback_tx a db)
  finish a db (returns none) tx = let (e, db') = commit_tx a tx db in (returns e, db')

-- `D` is what the database keeps and `O` is everything that does not take part in its
-- transactions: the work sees both.
module _ {D O : Type 0} where
  begun :
      Answers
      → (D × O → Outcome × (D × O))
      → Option Error × Database D
      → O
      → Outcome × (Database D × O)
  unfolding finish
  begun a work (some e, db) o = (returns (some e), (db, o))
  begun a work (none, db) o =
      let (r, (tx, o')) = work (db.stored, o) in let (r', db') = finish a db r tx in (r', (db', o'))

  -- SQL.Within
  unfoldable pub within :
      Answers → (D × O → Outcome × (D × O)) → Database D × O → Outcome × (Database D × O)
  unfolding begin_tx begun
  within a work (db, o) = begun a work (begin_tx a db) o
