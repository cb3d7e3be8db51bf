-- ===== src/Bootstrap/Converged.antt =====
-- The read model and the welcomes, once the relay has caught up.
use go_ddd.Prelude.{
  ℕ, zero, suc, ◌+◌, ◌-◌, ◌≤◌, ◌≡◌, refl, sym, ap, subst, ◌∙◌, none, some, append_assoc, append-nil,
  List, [], ◌∷◌, ◌++◌, map, arith, text_eq, length, length-drop, drop,
}
use mathlib.Core.List.{foldl}
use go_ddd.Prelude.Int.{ℤ, pos, negsuc}
use go_ddd.Prelude.Text.{Text}
use go_ddd.Prelude.Text.Trim.Lower.{CaseTables}
use go_ddd.Prelude.Map.{get}
use go_ddd.Shared.{Time}
use go_ddd.Prelude.Result.{ok, ok_inj}
use go_ddd.EventBus.{Bus, new_bus}
use go_ddd.Outbox.{Message, pending_count}
use go_ddd.Outbox.Consistent.{new_store-IsConsistent}
use go_ddd.Outbox.Fetch.{unpublished}
use go_ddd.Outbox.Relay.{Options, with_defaults}
use go_ddd.Outbox.Relay.Walk.{walk, drain-walk}
use go_ddd.Outbox.Relay.Progress.{pending_count-length}
use go_ddd.Customer.Commands.{new_world}
use go_ddd.Customer.Commands.Tidy.{run}
use go_ddd.Bootstrap.{
  Behind, nobody, System, new_system, Step, handles, ticks, deliver, drain_outbox, relayed, step,
  run_steps, in_process, register_subscriptions, standard,
}
use go_ddd.Bootstrap.Feed.{wired_all, register_subscriptions-wired_all, observe}
use go_ddd.Bootstrap.Mirrors.{Mirrors}
use go_ddd.Bootstrap.Tracked.{AllDistinct, IsTracked}
use go_ddd.Bootstrap.Tracked.Steps.{
  greetings, no_greetings, Idle-newcomers, run-IsTracked, pass-IsTracked, run-unpublished,
}
use go_ddd.Contexts.{Welcome}

batch_size-positive : (opts : Options) → (n : ℕ) × ((with_defaults opts).batch_size ≡ pos (suc n))
unfolding with_defaults
batch_size-positive opts = go opts.batch_size refl
  where
    go : (z : ℤ) → opts.batch_size ≡ z → (n : ℕ) × ((with_defaults opts).batch_size ≡ pos (suc n))
    go (pos zero) h = (99, rw h refl)
    go (pos (suc n)) h = (n, rw h (ground arith))
    go (negsuc n) h = (99, rw h (ground arith))

new_system-IsTracked : (now : Time) (uuid : ℕ → Text) → IsTracked now uuid [] new_world nobody
unfolding get
new_system-IsTracked now uuid = record {
  consistent = new_store-IsConsistent;
  accepted = tt;
  drawn = tt;
  owned = λ k s h. absurd (ground (arith, h));
  mirrored = (λ id. refl, refl, refl);
}

nil_of_length : (xs : List Message) → length xs ≡ 0 → xs ≡ []
nil_of_length [] h = refl
nil_of_length (x ∷ xs) h = absurd (omega (arith, h))

module _ (tables : CaseTables) (uuid : ℕ → Text) (clock : ℕ → Time) (now : Time)
    (opts : Options) where
  waiting : System → ℕ
  waiting s = length (unpublished s.world.outbox.by_id)

  abbrev Tracked : List Welcome → System → Type 0
  Tracked due s = IsTracked now uuid due s.world s.behind

  -- The welcomes of the customers that these steps add, each to the address and by the name that
  -- the customer has when it is added.
  abbrev pub due_by : Bus Behind → List Step → System → List Welcome
  due_by bus [] s = []
  due_by bus (x ∷ xs) s = elim (step tables uuid clock bus opts x s) [
    | none ↦ []
    | some s' ↦ greetings s.world s'.world ++ due_by bus xs s'
  ]

  drop_shorter : (n : ℕ) (xs : List Message) → length (drop n xs) ≤ length xs - n
  drop_shorter n xs = omega (arith, length-drop n xs)

  tick-Tracked :
      (due : List Welcome) (at : Time) (s : System)
      → Tracked due s
      → (s' : System) × (step tables uuid clock (wired_all now) opts (ticks at) s ≡ some s')
        × Tracked due s'
        × (waiting s' ≤ waiting s - 1)
        × (s'.world.repo ≡ s.world.repo)
  unfolding step relayed drain_outbox waiting
  tick-Tracked due at s t =
      let (n, batch) = batch_size-positive opts in
      let send = deliver (wired_all now) in
      let p = walk send at (suc n) s.world.outbox.by_id s.behind in
      let (kept, left) = pass-IsTracked now uuid due s.world s.behind at (suc n) t in
      (
        record {
          world = record s.world { outbox = record s.world.outbox { by_id = p.0 } };
          behind = p.1;
        },
        rw (batch, drain-walk send at s.world.outbox n s.behind t.consistent, relayed) refl,
        kept,
        omega (arith, ap length left, drop_shorter (suc n) (unpublished s.world.outbox.by_id)),
        refl,
      )

  go_on :
      (x : Step) (xs : List Step) (s s' : System)
      → step tables uuid clock (wired_all now) opts x s ≡ some s'
      → run_steps tables uuid clock (wired_all now) opts (x ∷ xs) s
        ≡ run_steps tables uuid clock (wired_all now) opts xs s'
  unfolding run_steps
  go_on x xs s s' h = rw (h, run_steps) refl

  -- What one step makes of a process.
  abbrev Steps : List Welcome → Step → System → System → Type 0
  Steps due x s s' =
      (step tables uuid clock (wired_all now) opts x s ≡ some s')
      × Tracked (due ++ greetings s.world s'.world) s'
      × (waiting s' ≤ suc (waiting s))

  step-Tracked :
      (due : List Welcome) (x : Step) (s : System)
      → AllDistinct uuid
      → Tracked due s
      → (s' : System) × Steps due x s s'
  unfolding step waiting
  step-Tracked due (handles c) s distinct t = (
    record s { world = (run tables uuid clock c s.world).1 },
    (
      refl,
      run-IsTracked now uuid tables clock c due s.world s.behind distinct t,
      run-unpublished now uuid tables clock c due s.world s.behind distinct t,
    ),
  )
  step-Tracked due (ticks at) s distinct t =
      let (s', ran, t', fewer, kept) = tick-Tracked due at s t in
      let same = no_greetings due s.world s'.world (Idle-newcomers s.world s'.world kept) in
      (s', (ran, subst (λ ds. Tracked ds s') (sym same) t', omega (arith, fewer)))

  due_by-step :
      (x : Step) (xs : List Step) (s s' : System)
      → step tables uuid clock (wired_all now) opts x s ≡ some s'
      → due_by (wired_all now) (x ∷ xs) s
        ≡ greetings s.world s'.world ++ due_by (wired_all now) xs s'
  due_by-step x xs s s' h = rw (due_by, h) refl

  more_due :
      (due : List Welcome) (x : Step) (xs : List Step) (s s' : System)
      → step tables uuid clock (wired_all now) opts x s ≡ some s'
      → (due ++ greetings s.world s'.world) ++ due_by (wired_all now) xs s'
        ≡ due ++ due_by (wired_all now) (x ∷ xs) s
  more_due due x xs s s' ran =
      append_assoc due (greetings s.world s'.world) (due_by (wired_all now) xs s')
      ∙ ap (λ ds. due ++ ds) (sym (due_by-step x xs s s' ran))

  -- Any steps, and then passes enough for what they may have left.
  run_steps-settles :
      (due : List Welcome) (xs : List Step) (ts : List Time) (s : System)
      → AllDistinct uuid
      → waiting s + length xs ≤ length ts
      → Tracked due s
      → (s' : System) × (run_steps tables uuid clock (wired_all now) opts (xs ++ map ticks ts) s
          ≡ some s')
        × Tracked (due ++ due_by (wired_all now) (xs ++ map ticks ts) s) s'
        × (waiting s' ≡ 0)
  run_steps-settles due [] [] s distinct enough t = (
    s,
    unfold run_steps in refl,
    subst (λ ds. Tracked ds s) (sym (append-nil due)) t,
    omega (arith, enough),
  )
  run_steps-settles due [] (at ∷ ts) s distinct enough t =
      let (s', ran, t', fewer, kept) = tick-Tracked due at s t in
      let (last, ran', t'', none_left) =
        run_steps-settles due [] ts s' distinct (omega (arith, enough, fewer)) t' in
      let quiet = no_greetings due s.world s'.world (Idle-newcomers s.world s'.world kept) in
      (
        last,
        go_on (ticks at) (map ticks ts) s s' ran ∙ ran',
        subst (λ ds. Tracked ds last)
            (ap (λ ds. ds ++ due_by (wired_all now) (map ticks ts) s') (sym quiet)
              ∙ more_due due (ticks at) (map ticks ts) s s' ran)
            t'',
        none_left,
      )
  run_steps-settles due (x ∷ xs) ts s distinct enough t =
      let (s', (ran, t', more)) = step-Tracked due x s distinct t in
      let (last, ran', t'', none_left) =
        run_steps-settles (due ++ greetings s.world s'.world) xs ts s' distinct
          (omega (arith, enough, more)) t' in
      (
        last,
        go_on x (xs ++ map ticks ts) s s' ran ∙ ran',
        subst (λ ds. Tracked ds last) (more_due due x (xs ++ map ticks ts) s s' ran) t'',
        none_left,
      )

  -- After any commands and ticks of the relay, as many ticks more as there were steps bring a
  -- process in memory, with the subscriptions of every context, to rest without a panic: nothing is
  -- pending in the outbox, the read model shows exactly the customers of the repository, each as it
  -- is stored, and the welcomes that were sent are, in order, one for each customer, to the address
  -- and by the name that it had when it was added, if no id is drawn twice.
  pub run_steps-Mirrors :
      (bus : Bus Behind) (xs : List Step) (ts : List Time)
      → register_subscriptions in_process now (new_bus standard) ≡ ok bus
      → AllDistinct uuid
      → length xs ≤ length ts
      → (s : System) × (run_steps tables uuid clock bus opts (xs ++ map ticks ts) new_system
          ≡ some s)
        × (pending_count s.world.outbox ≡ 0)
        × Mirrors now (due_by bus (xs ++ map ticks ts) new_system) s.world.repo s.behind
  unfolding waiting
  run_steps-Mirrors bus xs ts registered distinct enough =
      let (s, ran, t, rest) =
        run_steps-settles [] xs ts new_system distinct (omega (arith, enough))
          (new_system-IsTracked now uuid) in
      let empty : unpublished s.world.outbox.by_id ≡ [] =
        nil_of_length (unpublished s.world.outbox.by_id) rest in
      let same : wired_all now ≡ bus =
        ok_inj (sym (register_subscriptions-wired_all now) ∙ registered) in
      let due = λ (b : Bus Behind). due_by b (xs ++ map ticks ts) new_system in
      (
        s,
        subst (λ b. run_steps tables uuid clock b opts (xs ++ map ticks ts) new_system ≡ some s)
            same ran,
        pending_count-length (deliver (wired_all now)) now s.world.outbox ∙ rest,
        subst (λ b. Mirrors now (due b) s.world.repo s.behind) same
            (subst (λ b. Mirrors now (due (wired_all now)) s.world.repo b)
              (ap (λ ms. foldl (observe now) s.behind (map (λ m. m.event) ms)) empty) t.mirrored),
      )
