-- ===== src/EventBus.antt =====
-- internal/eventbus: the event envelope, middleware, and the in-process bus (local/bus.go).
pub mod Delivery
use go_ddd.Prelude.{
  ℕ, zero, suc, ◌+◌, ◌-◌, ◌*◌, ◌/◌, ◌%◌, ◌^◌, ◌≤◌, ◌<◌, min, ◌≡◌, refl, sym, ap, ◌∙◌, ◌≢◌, ◌↔◌, ◌⊎◌,
  inl, inr, Bool, true, false, ◌&&◌, ◌||◌, not, Option, none, some, List, [], ◌∷◌, ◌++◌, map,
  append_assoc, append-nil, arith, ltb, leb, nat_beq, nat_beq_iff, ◌==◌, text_eq, text_beq,
  text_beq_iff, text_beq_refl, length, length-append, take, drop, length-take, length-drop,
  take-append-drop, All, All-append, All-filter, filter, Bool-cases, Option-cases, if◌then◌else◌,
}
use mathlib.Core.Option
use go_ddd.Prelude.Int.{ℤ}
use go_ddd.Prelude.Text.{Text, codes}
use go_ddd.Prelude.Map.{Map, get, put}
use go_ddd.Prelude.Result.{Error, Result, ok, err, other_error}
use go_ddd.Prelude.Exec.{Exec}
use go_ddd.Shared.{Time}

-- A serialized body, by what `json.Unmarshal` into a struct of strings finds in it: the members
-- of an object, or an error.
pub data Payload : Type 0 where
  object : List (Text × Text) → Payload
  malformed : Payload

pub record Event : Type 0 where
  pub id : Text
  pub name : Text
  pub source : Text
  pub aggregate_id : Text
  pub occurred_at : Time
  pub version : ℤ
  pub correlation_id : Text
  pub causation_id : Text
  pub payload : Payload
  -- `none` is a nil map
  pub metadata : Option (Map Text)

-- How a call of a handler ends: it returns an error or nil, or it panics.
pub data Outcome : Type 0 where
  returns : Option Error → Outcome
  panics : Text → Outcome

-- A handler acts on the state `S` of its subscriber.
abbrev pub Handler : Type 0 → Type 0
Handler S = Event → S → Outcome × S

abbrev pub Middleware : Type 0 → Type 0
Middleware S = Handler S → Handler S

recovered : Outcome → Outcome
recovered (returns e) = returns e
recovered (panics p) = returns (some (other_error (codes "handler panic: " ++ p)))

-- What a loop has collected: the errors so far, or a panic that ended it.
abbrev pub Collected : Type 0
Collected = Option (List Error)

pub record Bus (S : Type 0) : Type 0 where
  pub handlers : Map (List (Handler S))
  pub mw : List (Middleware S)

module _ {S : Type 0} where
  -- The first of the list is the outermost.
  unfoldable pub chain : Handler S → List (Middleware S) → Handler S
  chain h [] = h
  chain h (m ∷ mw) = m (chain h mw)

  -- A panic becomes an error; what the handler wrote before it stays.
  unfoldable pub recover : Middleware S
  unfolding recovered
  recover next e s = let (o, s') = next e s in (recovered o, s')

  -- The log record is all that it adds.
  unfoldable pub logging : Middleware S
  logging next e s = next e s

  unfoldable pub new_bus : List (Middleware S) → Bus S
  new_bus mw = record { handlers = []; mw = mw }

  or_empty : Option (List (Handler S)) → List (Handler S)
  or_empty none = []
  or_empty (some hs) = hs

  -- The handlers of one name, in the order of subscription.
  unfoldable pub handlers_of : Bus S → Text → List (Handler S)
  unfolding or_empty
  handlers_of b name = or_empty (get b.handlers name)

  -- A nil handler is `none`.
  unfoldable pub subscribe : Bus S → Text → Option (Handler S) → Result (Bus S)
  unfolding handlers_of
  subscribe b name none = err (other_error (codes "local: eventName and handler are required"))
  subscribe b name (some h) =
      if name == []
      then err (other_error (codes "local: eventName and handler are required"))
      else ok
          (record b { handlers = put b.handlers name (handlers_of b name ++ chain h b.mw ∷ []) })

  collect : Outcome → (S → Collected × S) → S → Collected × S
  collect (panics p) rest s = (none, s)
  collect (returns none) rest s = rest s
  collect (returns (some x)) rest s = let (r, s') = rest s in (Option.map (λ xs. x ∷ xs) r, s')

  -- Every handler of one event runs, whatever the others return. A panic ends the loop.
  unfoldable pub run_handlers : List (Handler S) → Event → S → Collected × S
  unfolding collect
  run_handlers [] e s = (some [], s)
  run_handlers (h ∷ hs) e s = let (o, s') = h e s in collect o (run_handlers hs e) s'

  join : Collected → (S → Collected × S) → S → Collected × S
  join none rest s = (none, s)
  join (some xs) rest s = let (r, s') = rest s in (Option.map (λ ys. xs ++ ys) r, s')

  -- `errors.Join(errs...)`: `some []` is nil.
  unfoldable pub publish : Bus S → List Event → S → Collected × S
  unfolding run_handlers join handlers_of
  publish b [] s = (some [], s)
  publish b (e ∷ es) s =
      let (r, s') = run_handlers (handlers_of b e.name) e s in join r (publish b es) s'
