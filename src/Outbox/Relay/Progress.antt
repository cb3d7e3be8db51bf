-- ===== src/Outbox/Relay/Progress.antt =====
-- What the relay gets done: everything when the bus answers, and nothing behind a full batch of
-- messages that the bus refuses.
use go_ddd.Prelude.{
  ℕ, zero, suc, ◌≤◌, ◌≡◌, refl, sym, ap, ◌∙◌, inl, inr, Option, none, some, List, [], ◌∷◌, map,
  arith, text_eq, length, take, All, Bool-cases,
}
use go_ddd.Prelude.Int.{ℤ, pos}
use go_ddd.Prelude.Text.{Text}
use go_ddd.Prelude.Map.{Map}
use go_ddd.Prelude.Result.{Error}
use go_ddd.Shared.{Time}
use go_ddd.EventBus.{Event}
use go_ddd.Outbox.{
  Message, Store, new_store, fetch_pending, is_published, pending_count, count_unpublished,
}
use go_ddd.Outbox.Consistent.{keys, Own, IsConsistent}
use go_ddd.Outbox.Fetch.{unpublished}
use go_ddd.Outbox.Relay
use go_ddd.Outbox.Relay.{
  Pass, Options, Signal, tick, done, with_defaults, run_from, drain_loop, drain,
}
use go_ddd.Outbox.Relay.Walk.{walk, settle, drain-walk}

nil_of_length : (xs : List Message) → length xs ≤ 0 → xs ≡ []
nil_of_length [] h = refl
nil_of_length (x ∷ xs) h = absurd (omega arith)

module _ {B : Type 0} (send : Event → B → Option Error × B) where
  module _ (now : Time) where
    pub keys-walk : (n : ℕ) (m : Map Message) (b : B) → keys (walk send now n m b).0 ≡ keys m
    unfolding walk
    keys-walk zero [] b = refl
    keys-walk (suc n) [] b = refl
    keys-walk zero (e ∷ m) b = refl
    keys-walk (suc n) ((k, x) ∷ m) b =
        ground (arith, keys-walk (suc n) m b, keys-walk n m (send x.event b).1)

    settle-event : (x : Message) (r : Option Error) → (settle now x r).event ≡ x.event
    settle-event x none = refl
    settle-event x (some e) = refl

    Own-walk : (n : ℕ) (m : Map Message) (b : B) → All Own m → All Own (walk send now n m b).0
    unfolding walk
    Own-walk zero [] b o = tt
    Own-walk (suc n) [] b o = tt
    Own-walk zero (e ∷ m) b o = o
    Own-walk (suc n) ((k, x) ∷ m) b o = ground (
      arith,
      Own-walk (suc n) m b o.1,
      Own-walk n m (send x.event b).1 o.1,
      settle-event x (send x.event b).0,
    )

    -- The bus takes whatever it is given.
    abbrev pub Accepts : Type 0
    Accepts = (e : Event) (b : B) → (send e b).0 ≡ none

    walk_all :
        (n : ℕ) (m : Map Message) (b : B)
        → Accepts
        → length (unpublished m) ≤ n
        → (unpublished (walk send now n m b).0 ≡ [])
          × ((walk send now n m b).2 ≡ length (unpublished m))
    unfolding walk is_published
    walk_all zero [] b acc h = (refl, refl)
    walk_all (suc n) [] b acc h = (refl, refl)
    walk_all zero ((k, x) ∷ m) b acc h =
        let e = nil_of_length (unpublished ((k, x) ∷ m)) h in (e, ap length (sym e))
    walk_all (suc n) ((k, x) ∷ m) b acc h =
        ground (arith, acc x.event b, walk_all (suc n) m b acc, walk_all n m (send x.event b).1 acc)

    -- The bus returns an error for this message, whatever its state.
    abbrev pub Refused : Message → Type 0
    Refused x = (b : B) → (e : Error) × ((send x.event b).0 ≡ some e)

    still_open :
        (k : Text) (x : Message) (e : Error) (m : Map Message)
        → unpublished ((k, settle now x (some e)) ∷ m) ≡ settle now x (some e) ∷ unpublished m
    unfolding is_published
    still_open k x e m = refl

    walk_none :
        (n : ℕ) (m : Map Message) (b : B)
        → All Refused (take n (unpublished m))
        → ((walk send now n m b).2 ≡ 0)
          × (map (λ x. x.event) (unpublished (walk send now n m b).0)
              ≡ map (λ x. x.event) (unpublished m))
    unfolding walk
    walk_none zero [] b r = (refl, refl)
    walk_none (suc n) [] b r = (refl, refl)
    walk_none zero (e ∷ m) b r = (refl, refl)
    walk_none (suc n) ((k, x) ∷ m) b r = elim (Bool-cases (is_published x.status)) [
      | inl skip ↦
          let ih = walk_none (suc n) m b (rw skip at r) in
          rw skip (omega (arith, ih.0), rw skip ih.1)
      | inr sent ↦
          let r' = rw sent at r in
          let (e, refused) = r'.0 b in
          let ih = walk_none n m (send x.event b).1 r'.1 in
          rw (sent, refused)
            (
              omega (arith, ih.0),
              ap (map (λ y. y.event)) (still_open k x e (walk send now n m (send x.event b).1).0)
                  ∙ ap (◌∷◌ x.event) ih.1,
            )
    ]

    pub IsConsistent-walk :
        (s : Store) (n : ℕ) (b : B)
        → IsConsistent s
        → IsConsistent (record s { by_id = (walk send now n s.by_id b).0 })
    IsConsistent-walk s n b c =
        let same = keys-walk n s.by_id b in
        record {
          listed = c.listed ∙ sym same;
          distinct = rw same c.distinct;
          own = Own-walk n s.by_id b c.own;
        }

    count_unpublished-length : (m : Map Message) → count_unpublished m ≡ length (unpublished m)
    unfolding count_unpublished
    count_unpublished-length [] = refl
    count_unpublished-length ((k, x) ∷ m) = ground (arith, count_unpublished-length m)

    pub pending_count-length : (s : Store) → pending_count s ≡ length (unpublished s.by_id)
    unfolding pending_count
    pending_count-length s = count_unpublished-length s.by_id

    -- If the store is consistent, the bus accepts everything and the batch is large enough, one
    -- pass delivers all messages that were not published, and none is left pending.
    pub drain_accepts :
        (s : Store) (n : ℕ) (b : B)
        → IsConsistent s
        → Accepts
        → pending_count s ≤ suc n
        → (p : Pass B) × (drain send now (pos (suc n)) s b ≡ some p)
          × (pending_count p.store ≡ 0)
          × (p.count ≡ pending_count s)
    unfolding pending_count
    drain_accepts s n b c acc fits =
        let all =
          walk_all (suc n) s.by_id b acc (omega (arith, count_unpublished-length s.by_id)) in
        (
          record {
            store = record s { by_id = (walk send now (suc n) s.by_id b).0 };
            bus = (walk send now (suc n) s.by_id b).1;
            count = (walk send now (suc n) s.by_id b).2;
          },
          drain-walk send now s n b c,
          count_unpublished-length (walk send now (suc n) s.by_id b).0 ∙ ap length all.0,
          all.1 ∙ sym (count_unpublished-length s.by_id),
        )

    -- A pass over a batch that the bus refuses.
    pub Refused-pass :
        (s : Store) (n : ℕ) (b : B)
        → IsConsistent s
        → All Refused (take (suc n) (unpublished s.by_id))
        → (p : Pass B) × (drain send now (pos (suc n)) s b ≡ some p)
          × (p.count ≡ 0)
          × (map (λ x. x.event) (unpublished p.store.by_id)
              ≡ map (λ x. x.event) (unpublished s.by_id))
          × IsConsistent p.store
    Refused-pass s n b c r =
        let same = walk_none (suc n) s.by_id b r in
        (
          record {
            store = record s { by_id = (walk send now (suc n) s.by_id b).0 };
            bus = (walk send now (suc n) s.by_id b).1;
            count = (walk send now (suc n) s.by_id b).2;
          },
          drain-walk send now s n b c,
          same.0,
          same.1,
          IsConsistent-walk s (suc n) b c,
        )

  drain_nothing :
      (now : Time) (batch : ℤ) (b : B)
      → drain send now batch new_store b ≡ some (record { store = new_store; bus = b; count = 0 })
  unfolding drain drain_loop fetch_pending
  drain_nothing now batch b = refl

  -- A relay over a store that nothing is added to sends nothing.
  pub run-nothing :
      (opts : Options) (sigs : List Signal) (b : B)
      → Relay.run send opts sigs new_store b
        ≡ some (record { store = new_store; bus = b; count = 0 })
  unfolding Relay.run run_from
  run-nothing opts sigs b = go sigs
    where
      go :
          (xs : List Signal)
          → run_from send
              (with_defaults opts).batch_size
              xs
              (some (record { store = new_store; bus = b; count = 0 }))
            ≡ some (record { store = new_store; bus = b; count = 0 })
      go [] = refl
      go (done ∷ xs) = refl
      go (tick now ∷ xs) =
          ap (run_from send (with_defaults opts).batch_size xs)
            (drain_nothing now (with_defaults opts).batch_size b)
          ∙ go xs
