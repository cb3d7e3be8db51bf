-- ===== src/Bootstrap/Tracked.antt =====
-- What every process in memory keeps.
pub mod Steps
use go_ddd.Prelude.{
  ℕ, suc, ◌≤◌, ◌<◌, ◌≡◌, refl, sym, ap, subst, ◌∙◌, ◌≢◌, inl, inr, Option, none, some, some_inj,
  List, [], ◌∷◌, ◌++◌, map, arith, text_eq, text_beq, text_beq_iff, length, length-append, drop,
  All, All-append, Bool-cases, if◌then◌else◌,
}
use mathlib.Core.List.{foldl, foldl-append, map-append}
use go_ddd.Prelude.Text.{Text}
use go_ddd.Prelude.Text.Trim.Lower.{CaseTables}
use go_ddd.Prelude.Map.{Map, get, put, get-put}
use go_ddd.Shared.{Time}
use go_ddd.EventBus.{Event}
use go_ddd.Outbox.{is_published, Message, Store, fresh_message, pending_count}
use go_ddd.Outbox
use go_ddd.Outbox.Consistent.{keys, keys-append, IsConsistent, publish-IsConsistent, publish_new}
use go_ddd.Outbox.Fetch.{unpublished}
use go_ddd.Outbox.Relay.Walk.{walk}
use go_ddd.Outbox.Relay.Progress.{keys-walk, IsConsistent-walk}
use go_ddd.Customer.Aggregate.{Snapshot}
use go_ddd.Customer.Commands.{World}
use go_ddd.Customer.Commands.Tidy.{Command, run}
use go_ddd.Customer.Commands.Effects.{created, changed, Idle, Creates, Changes}
use go_ddd.Contexts.{Welcome}
use go_ddd.Bootstrap.{Behind, deliver}
use go_ddd.Bootstrap.Feed.{
  deliver-created, deliver-changed, wired_all, observe, IsAccepted, AllAccepted, rest_of,
  walk-observe,
}
use go_ddd.Bootstrap.Mirrors.{Mirrors, created-Mirrors, changed-Mirrors}

-- No id is drawn twice.
abbrev pub AllDistinct : (ℕ → Text) → Type 0
AllDistinct uuid = (i j : ℕ) → uuid i ≡ uuid j → i ≡ j

-- The invariant of a process.
module _ (now : Time) (uuid : ℕ → Text) where
  -- The id is one of the first that were drawn.
  abbrev pub IsDrawn : ℕ → Text → Type 0
  IsDrawn ids k = (j : ℕ) × (j < ids) × (k ≡ uuid j)

  pub record IsTracked (due : List Welcome) (w : World) (b : Behind) : Type 0 where
    pub consistent : IsConsistent w.outbox
    pub accepted : AllAccepted now w.outbox.by_id
    pub drawn : All (IsDrawn w.ids) (keys w.outbox.by_id)
    pub owned :
        (k : Text) (s : Snapshot) → get w.repo.by_id k ≡ some s → (k ≡ s.id) × IsDrawn w.ids k
    pub mirrored : Mirrors now due w.repo (foldl (observe now) b (rest_of now w.outbox.by_id))

  pub IsDrawn-later : (n n' : ℕ) (k : Text) → n ≤ n' → IsDrawn n k → IsDrawn n' k
  IsDrawn-later n n' k h (j, low, same) = (j, omega (arith, low, h), same)

  pub All-IsDrawn : (n n' : ℕ) (ks : List Text) → n ≤ n' → All (IsDrawn n) ks → All (IsDrawn n') ks
  All-IsDrawn n n' [] h a = tt
  All-IsDrawn n n' (k ∷ ks) h a = (IsDrawn-later n n' k h a.0, All-IsDrawn n n' ks h a.1)

  -- A later id is none of those that were drawn.
  not_drawn : (n m : ℕ) (k : Text) → AllDistinct uuid → n ≤ m → IsDrawn n k → k ≢ uuid m
  not_drawn n m k distinct h (j, low, same) eq =
      absurd (omega (arith, low, h, distinct j m (sym same ∙ eq)))

  pub absent :
      (n m : ℕ) (xs : Map Message)
      → AllDistinct uuid
      → n ≤ m
      → All (IsDrawn n) (keys xs)
      → get xs (uuid m) ≡ none
  unfolding get
  absent n m [] distinct h a = refl
  absent n m ((k, x) ∷ xs) distinct h a =
      ground (
        arith,
        text_beq_iff k (uuid m),
        not_drawn n m k distinct h a.0,
        absent n m xs distinct h a.1,
      )

  pub absent_id :
      (due : List Welcome) (w : World) (b : Behind) (m : ℕ)
      → AllDistinct uuid
      → w.ids ≤ m
      → IsTracked due w b
      → get w.repo.by_id (uuid m) ≡ none
  absent_id due w b m distinct h t = go (get w.repo.by_id (uuid m)) refl
    where
      go : (o : Option Snapshot) → get w.repo.by_id (uuid m) ≡ o → o ≡ none
      go none eq = refl
      go (some s) eq = absurd (not_drawn w.ids m (uuid m) distinct h (t.owned (uuid m) s eq).1 refl)

  pub unpublished-append :
      (m : Map Message) (k : Text) (e : Event) (at : Time)
      → unpublished (m ++ (k, fresh_message e at) ∷ []) ≡ unpublished m ++ fresh_message e at ∷ []
  unfolding is_published
  unpublished-append [] k e at = refl
  unpublished-append ((j, x) ∷ m) k e at = elim (Bool-cases (is_published x.status)) [
    | inl skip ↦ rw skip (unpublished-append m k e at)
    | inr sent ↦ rw sent (ap (λ es. x ∷ es) (unpublished-append m k e at))
  ]

  rest_of-append :
      (m : Map Message) (k : Text) (e : Event) (at : Time)
      → rest_of now (m ++ (k, fresh_message e at) ∷ []) ≡ rest_of now m ++ e ∷ []
  rest_of-append m k e at =
      ap (map (λ x. x.event)) (unpublished-append m k e at)
      ∙ map-append (λ x. x.event) (unpublished m) (fresh_message e at ∷ [])

  -- An event that is added is the last to come.
  pub rest_of-publish :
      (s : Store) (e : Event) (at : Time) (b : Behind)
      → get s.by_id e.id ≡ none
      → foldl (observe now) b (rest_of now (Outbox.publish s (e ∷ []) at).by_id)
        ≡ observe now (foldl (observe now) b (rest_of now s.by_id)) e
  rest_of-publish s e at b new =
      ap (λ m. foldl (observe now) b (rest_of now m)) (publish_new s e at new)
      ∙ ap (foldl (observe now) b) (rest_of-append s.by_id e.id e at)
      ∙ foldl-append (observe now) b (rest_of now s.by_id) (e ∷ [])

  pub keys-publish :
      (s : Store) (e : Event) (at : Time)
      → get s.by_id e.id ≡ none
      → keys (Outbox.publish s (e ∷ []) at).by_id ≡ keys s.by_id ++ e.id ∷ []
  keys-publish s e at new =
      ap keys (publish_new s e at new) ∙ keys-append s.by_id e.id (fresh_message e at)

  pub accepted-publish :
      (s : Store) (e : Event) (at : Time)
      → get s.by_id e.id ≡ none
      → IsAccepted now e
      → AllAccepted now s.by_id
      → AllAccepted now (Outbox.publish s (e ∷ []) at).by_id
  accepted-publish s e at new ok_now acc = subst (AllAccepted now) (sym (publish_new s e at new)) (
      All-append (λ x. IsAccepted now x.1.event) s.by_id ((e.id, fresh_message e at) ∷ []) acc
        (ok_now, tt))
