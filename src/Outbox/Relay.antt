-- ===== src/Outbox/Relay.antt =====
-- relay.go: polling the store and forwarding to the bus.
pub mod Walk
pub mod Progress
pub mod Starvation
use go_ddd.Prelude.{
  ℕ, zero, suc, ◌+◌, ◌-◌, ◌*◌, ◌/◌, ◌%◌, ◌^◌, ◌≤◌, ◌<◌, min, ◌≡◌, refl, sym, ap, ◌∙◌, ◌≢◌, ◌↔◌, ◌⊎◌,
  inl, inr, Bool, true, false, ◌&&◌, ◌||◌, not, Option, none, some, List, [], ◌∷◌, ◌++◌, map,
  append_assoc, append-nil, arith, ltb, leb, nat_beq, nat_beq_iff, ◌==◌, text_eq, text_beq,
  text_beq_iff, text_beq_refl, length, length-append, take, drop, length-take, length-drop,
  take-append-drop, All, All-append, All-filter, filter, Bool-cases, Option-cases, if◌then◌else◌,
}
use go_ddd.Prelude.Int.{ℤ, pos, leb_ℤ}
use go_ddd.Prelude.Text.{Text, codes}
use go_ddd.Prelude.Result.{Error}
use go_ddd.Shared.{Time, error_text}
use go_ddd.EventBus.{Event}
use go_ddd.Outbox.{Message, Store, fetch_pending, mark_published, mark_failed}

-- Durations are nanoseconds.
pub record Options : Type 0 where
  pub interval : ℤ
  pub batch_size : ℤ

abbrev pub second : ℕ
second = 1_000_000_000

-- The defaults of `NewRelay`.
unfoldable pub with_defaults : Options → Options
with_defaults opts = record {
  interval = if leb_ℤ opts.interval (pos 0) then pos second else opts.interval;
  batch_size = if leb_ℤ opts.batch_size (pos 0) then pos 100 else opts.batch_size;
}

-- `B` is the state of everything behind the bus.
pub record Pass (B : Type 0) : Type 0 where
  pub store : Store
  pub bus : B
  pub count : ℕ

-- What the `select` of `Run` receives.
pub data Signal : Type 0 where
  tick : Time → Signal
  done : Signal

module _ {B : Type 0} (send : Event → B → Option Error × B) where
  -- One round of the loop of `drain`: a message that fails is marked, and the loop goes on.
  round : Time → Message → Pass B → Option Error × B → Pass B
  round now m p (none, b) = record {
    store = mark_published p.store (m.event.id ∷ []) now;
    bus = b;
    count = suc p.count;
  }
  round now m p (some e, b) = record {
    store = mark_failed p.store m.event.id (error_text e);
    bus = b;
    count = p.count;
  }

  drain_loop : Time → List Message → Pass B → Pass B
  drain_loop now [] p = p
  drain_loop now (m ∷ ms) p = drain_loop now ms (round now m p (send m.event p.bus))

  -- `none` is a panic of `FetchPending`. The store itself returns no errors.
  unfoldable pub drain : Time → ℤ → Store → B → Option (Pass B)
  unfolding round drain_loop
  drain now batch s b = elim (fetch_pending s batch) [
    | none ↦ none
    | some ms ↦ some (drain_loop now ms (record { store = s; bus = b; count = 0 }))
  ]

  run_from : ℤ → List Signal → Option (Pass B) → Option (Pass B)
  run_from batch sigs none = none
  run_from batch [] (some p) = some p
  run_from batch (done ∷ sigs) (some p) = some p
  run_from batch (tick now ∷ sigs) (some p) = run_from batch sigs (drain now batch p.store p.bus)

  -- `Run`, up to its return or as far as the signals go.
  unfoldable pub run : Options → List Signal → Store → B → Option (Pass B)
  unfolding run_from with_defaults
  run opts sigs s b =
      run_from (with_defaults opts).batch_size sigs
        (some (record { store = s; bus = b; count = 0 }))
