-- ===== src/Bootstrap/Build/Balance.antt =====
-- The pool of connections over a build and the close.
use go_ddd.Prelude.{
  ℕ, suc, ◌≡◌, refl, sym, Bool, true, false, Option, none, some, List, [], ◌∷◌, ◌++◌, Bool-cases,
  inl, inr, if◌then◌else◌,
}
use go_ddd.Prelude.Result.{Error, Result, ok, err, ◌>>=◌}
use go_ddd.Shared.{Time}
use go_ddd.Config.{Config, use_database}
use go_ddd.Bootstrap.Build.{
  AppBus, PoolCall, opened, closed, Answers, Application, open_database, new_persistence,
  first_error, finished, wire, build_with, build, close, choose_bus, subscribed, close_persistence,
}

abbrev pub openings : List PoolCall → ℕ
openings [] = 0
openings (opened ∷ cs) = suc (openings cs)
openings (closed ∷ cs) = openings cs

abbrev pub closings : List PoolCall → ℕ
closings [] = 0
closings (opened ∷ cs) = closings cs
closings (closed ∷ cs) = suc (closings cs)

-- What a build leaves open.
abbrev pub Balanced : Config → Result Application × List PoolCall → Type 0
Balanced cfg (err e, calls) = openings calls ≡ closings calls
Balanced cfg (ok app, calls) =
    (app.pooled ≡ use_database cfg)
    × (openings calls ≡ (if use_database cfg then 1 else 0))
    × (closings calls ≡ 0)
    × (openings (calls ++ close app) ≡ closings (calls ++ close app))

finished-Balanced :
    (cfg : Config) (pooled : Bool) (r : Result AppBus)
    → pooled ≡ use_database cfg
    → Balanced cfg (finished cfg pooled (if pooled then opened ∷ [] else []) r)
unfolding finished close close_persistence
finished-Balanced cfg true (err e) h = refl
finished-Balanced cfg false (err e) h = refl
finished-Balanced cfg true (ok bus) h = (h, rw (← h) refl, refl, refl)
finished-Balanced cfg false (ok bus) h = (h, rw (← h) refl, refl, refl)

wire-Balanced :
    (cfg : Config) (now : Time) (pooled : Bool) (o : Option Error)
    → pooled ≡ use_database cfg
    → Balanced cfg (wire cfg now pooled (if pooled then opened ∷ [] else []) o)
unfolding wire close_persistence
wire-Balanced cfg now true (some e) h = refl
wire-Balanced cfg now false (some e) h = refl
wire-Balanced cfg now pooled none h =
    finished-Balanced cfg pooled (subscribed now (choose_bus cfg)) h

with_pool :
    (cfg : Config) (now : Time) (a : Answers) (open_error ping_error : Option Error)
    → use_database cfg ≡ true
    → let (r, calls) = open_database open_error ping_error in
      Balanced cfg (build_with cfg now a (r >>= λ done. ok true, calls))
unfolding build_with open_database
with_pool cfg now a (some e) ping h = refl
with_pool cfg now a none (some e) h = refl
with_pool cfg now a none none h =
    wire-Balanced cfg now true (first_error a.customer_gateway a.order_gateway) (sym h)

-- A build that fails leaves no pool open. One that succeeds has opened a pool exactly if there is a
-- database, and Close closes it.
pub build-Balanced : (cfg : Config) (now : Time) (a : Answers) → Balanced cfg (build cfg now a)
unfolding build new_persistence build_with
build-Balanced cfg now a = elim (Bool-cases (use_database cfg)) [
  | inl with_database ↦ rw with_database (with_pool cfg now a a.opening a.ping with_database)
  | inr in_memory ↦
      rw in_memory (
        wire-Balanced cfg now false (first_error a.customer_gateway a.order_gateway)
          (sym in_memory))
]
