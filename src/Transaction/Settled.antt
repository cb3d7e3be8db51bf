-- ===== src/Transaction/Settled.antt =====
-- How a unit of work leaves its database.
use go_ddd.Prelude.{ℕ, suc, ◌-◌, ◌≡◌, refl, ◌⊎◌, inl, inr, Option, none, some, arith, text_eq}
use go_ddd.Prelude.Result.{Error}
use go_ddd.EventBus.{Outcome, returns, panics}
use go_ddd.Transaction.{
  Commit, keeps, refuses, loses_answer, Answers, Database, begin_tx, rollback_tx, committed,
  commit_tx, failed, finish, begun, within,
}

-- The result of the unit and the database agree: without an error the work's changes are all there,
-- with a panic none is, and with an error none is, unless the answer to the commit was lost.
abbrev pub Atomic : {D : Type 0} → Commit → D → D → Outcome → D → Type 0
Atomic commit before after (returns none) d = d ≡ after
Atomic commit before after (returns (some e)) d =
    (d ≡ before) ⊎ ((commit ≡ loses_answer e) × (d ≡ after))
Atomic commit before after (panics p) d = d ≡ before

-- What the caller learns of the work: its panic, an error if it had one, and otherwise that it
-- returned.
abbrev pub Tells : Outcome → Outcome → Type 0
Tells (panics p) r = r ≡ panics p
Tells (returns (some e)) r = (x : Error) × (r ≡ returns (some x))
Tells (returns none) r = (x : Option Error) × (r ≡ returns x)

suc_pred : (n : ℕ) → suc n - 1 ≡ n
suc_pred n = omega arith

module _ {D : Type 0} where
  finish-Atomic :
      (a : Answers) (db : Database D) (r : Outcome) (tx : D)
      → let p = finish a (record db { running = suc db.running }) r tx in
        Atomic a.commit db.stored tx p.0 p.1.stored × Tells r p.0 × (p.1.running ≡ db.running)
  unfolding finish rollback_tx commit_tx failed committed
  finish-Atomic a db (panics p) tx = (refl, refl, suc_pred db.running)
  finish-Atomic a db (returns (some e)) tx = go a.rollback
    where
      go :
          (o : Option Error)
          → let p = failed e (o, record db { running = suc db.running - 1 }) in
            Atomic a.commit db.stored tx p.0 p.1.stored
            × ((x : Error) × (p.0 ≡ returns (some x)))
            × (p.1.running ≡ db.running)
      go none = (inl refl, (e, refl), suc_pred db.running)
      go (some x) = (inl refl, (x, refl), suc_pred db.running)
  finish-Atomic a db (returns none) tx = go a.commit
    where
      go :
          (c : Commit)
          → let p = committed c tx (record db { running = suc db.running }) in
            Atomic c db.stored tx (returns p.0) p.1.stored
            × ((x : Option Error) × (returns p.0 ≡ returns x))
            × (p.1.running ≡ db.running)
      go keeps = (refl, (none, refl), suc_pred db.running)
      go (refuses e) = (inl refl, (some e, refl), suc_pred db.running)
      go (loses_answer e) = (inr (refl, refl), (some e, refl), suc_pred db.running)

module _ {D O : Type 0} where
  -- Once the transaction has begun, the database keeps all of a unit that ends without an error,
  -- nothing of one that panics, and nothing of one that ends with an error, unless the answer to
  -- its commit was lost. In every case the transaction has ended: as many are open as before. The
  -- caller gets the panic of the work, and an error if the work returned one. What the work did
  -- outside the database stays in every case: the outbox in memory keeps the events of a unit that
  -- was rolled back.
  pub within-Atomic :
      (a : Answers) (work : D × O → Outcome × (D × O)) (db : Database D) (o : O)
      → a.begin ≡ none
      → let w = work (db.stored, o) in
        let p = within a work (db, o) in
        Atomic a.commit db.stored w.1.0 p.0 p.1.0.stored
        × Tells w.0 p.0
        × (p.1.0.running ≡ db.running)
        × (p.1.1 ≡ w.1.1)
  unfolding within begun begin_tx
  within-Atomic a work db o h =
      let w = work (db.stored, o) in
      let (atomic, tells, closed) = finish-Atomic a db w.0 w.1.0 in
      rw h (atomic, tells, closed, refl)
