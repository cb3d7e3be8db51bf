-- ===== src/Outbox/Relay/Starvation.antt =====
-- A relay that runs into messages which the bus keeps refusing.
use go_ddd.Prelude.{
  ℕ, zero, suc, ◌≡◌, refl, ap, ◌∙◌, Option, some, List, [], ◌∷◌, map, arith, text_eq, take, All,
}
use go_ddd.Prelude.Int.{ℤ, pos}
use go_ddd.Prelude.Result.{Error}
use go_ddd.EventBus.{Event}
use go_ddd.Outbox.{Message, Store}
use go_ddd.Outbox.Consistent.{IsConsistent}
use go_ddd.Outbox.Fetch.{unpublished}
use go_ddd.Outbox.Relay.{Pass, Signal, tick, done, run, run_from, with_defaults}
use go_ddd.Outbox.Relay.Progress.{Refused, Refused-pass}

-- The events that wait for delivery, the oldest first.
abbrev pub waiting : Store → List Event
waiting s = map (λ m. m.event) (unpublished s.by_id)

batch_kept :
    (interval : ℤ) (n : ℕ)
    → (with_defaults (record { interval = interval; batch_size = pos (suc n) })).batch_size
      ≡ pos (suc n)
unfolding with_defaults
batch_kept interval n = ground arith

module _ {B : Type 0} (send : Event → B → Option Error × B) where
  -- The bus returns an error for this event, whatever its state.
  abbrev pub Poison : Event → Type 0
  Poison e = (b : B) → (x : Error) × ((send e b).0 ≡ some x)

  poisoned :
      (n : ℕ) (ms : List Message)
      → All Poison (take n (map (λ m. m.event) ms))
      → All (Refused send 0) (take n ms)
  poisoned zero ms p = tt
  poisoned (suc n) [] p = tt
  poisoned (suc n) (m ∷ ms) p = (p.0, poisoned n ms p.1)

  starved_from :
      (n : ℕ) (sigs : List Signal) (p : Pass B)
      → IsConsistent p.store
      → All Poison (take (suc n) (waiting p.store))
      → (q : Pass B) × (run_from send (pos (suc n)) sigs (some p) ≡ some q)
        × (waiting q.store ≡ waiting p.store)
  unfolding run_from
  starved_from n [] p c bad = (p, refl, refl)
  starved_from n (done ∷ sigs) p c bad = (p, refl, refl)
  starved_from n (tick now ∷ sigs) p c bad =
      let (q, drained, zero_count, same, c') =
        Refused-pass send now p.store n p.bus c
          (poisoned (suc n) (unpublished p.store.by_id) bad) in
      let (final, ends, kept) = starved_from n sigs q c' (rw same bad) in
      (final, ap (run_from send (pos (suc n)) sigs) drained ∙ ends, kept ∙ same)

  -- If, in a consistent store, the bus refuses the oldest messages, a whole batch of them, then the
  -- relay never delivers any event: after any signals the same events wait in the same order, those
  -- behind the batch included.
  pub run-starved :
      (interval : ℤ) (n : ℕ) (sigs : List Signal) (s : Store) (b : B)
      → IsConsistent s
      → All Poison (take (suc n) (waiting s))
      → (q : Pass B) × (run send (record { interval = interval; batch_size = pos (suc n) }) sigs s b
          ≡ some q)
        × (waiting q.store ≡ waiting s)
  unfolding run
  run-starved interval n sigs s b c bad =
      rw (batch_kept interval n)
        (starved_from n sigs (record { store = s; bus = b; count = 0 }) c bad)
