-- ===== src/Bootstrap/Tracked/Steps.antt =====
-- What commands and the relay keep.
use go_ddd.Prelude.{
  ℕ, suc, ◌≤◌, ◌≡◌, refl, sym, ap, subst, ◌∙◌, inl, inr, none, some, some_inj, List, [], ◌∷◌, ◌++◌,
  map, append-nil, arith, text_eq, text_beq, text_beq_iff, length, length-append, drop, All-append,
  Bool-cases, if◌then◌else◌,
}
use mathlib.Core.List.{foldl}
use go_ddd.Prelude.Text.{Text}
use go_ddd.Prelude.Text.Trim.Lower.{CaseTables}
use go_ddd.Prelude.Map.{get, put, get-put}
use go_ddd.Shared.{Time}
use go_ddd.EventBus.{Event}
use go_ddd.Outbox.{is_published, Message, Store, fresh_message, pending_count}
use go_ddd.Outbox
use go_ddd.Outbox.Consistent.{keys, publish-IsConsistent, publish_new}
use go_ddd.Outbox.Fetch.{unpublished}
use go_ddd.Outbox.Relay.Walk.{walk}
use go_ddd.Outbox.Relay.Progress.{keys-walk, IsConsistent-walk}
use go_ddd.Customer.Aggregate.{Snapshot}
use go_ddd.Customer.Commands.{World}
use go_ddd.Customer.Commands.Tidy.{Command, run}
use go_ddd.Customer.Commands.Effects.{created, changed, Idle, Creates, Changes}
use go_ddd.Customer.Commands.Effects.Whole.{run-Effect}
use go_ddd.Bootstrap.{Behind, deliver}
use go_ddd.Bootstrap.Feed.{
  deliver-created, deliver-changed, wired_all, observe, IsAccepted, rest_of, walk-observe,
}
use go_ddd.Bootstrap.Mirrors.{
  Mirrors, welcome_of, newcomers, newcomers-none, newcomers-put_new, newcomers-put_old,
  created-Mirrors, changed-Mirrors,
}
use go_ddd.Contexts.{Welcome}
use go_ddd.Bootstrap.Tracked.{
  AllDistinct, IsDrawn, IsTracked, IsDrawn-later, All-IsDrawn, absent, absent_id,
  unpublished-append, rest_of-publish, keys-publish, accepted-publish,
}

-- The welcomes of the customers that were added.
abbrev pub greetings : World → World → List Welcome
greetings w w' = map welcome_of (newcomers w.repo.by_id w'.repo.by_id)

pub no_greetings :
    (due : List Welcome) (w w' : World)
    → newcomers w.repo.by_id w'.repo.by_id ≡ []
    → due ++ greetings w w' ≡ due
no_greetings due w w' nobody = ap (λ ss. due ++ map welcome_of ss) nobody ∙ append-nil due

pub Idle-newcomers : (w w' : World) → w'.repo ≡ w.repo → newcomers w.repo.by_id w'.repo.by_id ≡ []
Idle-newcomers w w' repo =
    ap (λ r. newcomers w.repo.by_id r.by_id) repo
    ∙ newcomers-none w.repo.by_id w.repo.by_id (λ k there. there)

module _ (now : Time) (uuid : ℕ → Text) where
  -- A command keeps the invariant, with the welcomes of those whom it adds.
  Idle-IsTracked :
      (due : List Welcome) (w w' : World) (b : Behind)
      → Idle w w'
      → IsTracked now uuid due w b
      → IsTracked now uuid (due ++ greetings w w') w' b
  Idle-IsTracked due w w' b (repo, outbox, ids) t =
      subst (λ ds. IsTracked now uuid ds w' b)
        (sym (no_greetings due w w' (Idle-newcomers w w' repo)))
        (record {
          consistent = rw outbox t.consistent;
          accepted = rw outbox t.accepted;
          drawn = rw outbox (All-IsDrawn now uuid w.ids w'.ids (keys w.outbox.by_id) ids t.drawn);
          owned = λ k s h.
              let (same, d) = t.owned k s (ap (λ r. get r.by_id k) (sym repo) ∙ h) in
              (same, IsDrawn-later now uuid w.ids w'.ids k ids d);
          mirrored = rw (repo, outbox) t.mirrored;
        })

  -- An event under a new id, written together with a change of one customer.
  wrote-IsTracked :
      (due due' : List Welcome) (w w' : World) (b : Behind) (e : Event) (at : Time) (s : Snapshot)
      → get w.outbox.by_id e.id ≡ none
      → IsAccepted now e
      → IsDrawn now uuid w'.ids e.id
      → w.ids ≤ w'.ids
      → w'.outbox ≡ Outbox.publish w.outbox (e ∷ []) at
      → w'.repo.by_id ≡ put w.repo.by_id s.id s
      → IsDrawn now uuid w'.ids s.id
      → Mirrors now due' w'.repo
          (observe now (foldl (observe now) b (rest_of now w.outbox.by_id)) e)
      → IsTracked now uuid due w b
      → IsTracked now uuid due' w' b
  wrote-IsTracked due due' w w' b e at s new fine own ids outbox stored d mirrored t = record {
    consistent = rw outbox (publish-IsConsistent w.outbox (e ∷ []) at t.consistent);
    accepted = rw outbox (accepted-publish now uuid w.outbox e at new fine t.accepted);
    drawn =
        rw (outbox, keys-publish now uuid w.outbox e at new)
          (All-append (IsDrawn now uuid w'.ids) (keys w.outbox.by_id) (e.id ∷ [])
            (All-IsDrawn now uuid w.ids w'.ids (keys w.outbox.by_id) ids t.drawn) (own, tt));
    owned = λ k x h.
        let h' : (if text_beq s.id k then some s else get w.repo.by_id k) ≡ some x =
          sym (get-put w.repo.by_id s.id k s) ∙ ap (λ m. get m k) (sym stored) ∙ h in
        elim (Bool-cases (text_beq s.id k)) [
          | inl same ↦
              let here : s.id ≡ k = (text_beq_iff s.id k).0 same in
              (
                sym here ∙ ap (λ y. y.id) (some_inj (rw same at h')),
                subst (IsDrawn now uuid w'.ids) here d,
              )
          | inr other ↦
              let (same, d') = t.owned k x (rw other at h') in
              (same, IsDrawn-later now uuid w.ids w'.ids k ids d')
        ];
    mirrored = rw (outbox, rest_of-publish now uuid w.outbox e at b new) mirrored;
  }

  Creates-IsTracked :
      (tables : CaseTables) (clock : ℕ → Time) (due : List Welcome) (w w' : World) (b : Behind)
      → AllDistinct uuid
      → Creates tables uuid clock w w'
      → IsTracked now uuid due w b
      → IsTracked now uuid (due ++ greetings w w') w' b
  Creates-IsTracked tables clock due w w' b distinct (s, at, named, status, stored, outbox, ids) t =
      let e = created (uuid (suc w.ids)) s.id s.name s.email s.created_at in
      let new : get w.repo.by_id s.id ≡ none =
        rw named (absent_id now uuid due w b w.ids distinct (omega arith) t) in
      let joined : greetings w w' ≡ welcome_of s ∷ [] =
        ap (λ m. map welcome_of (newcomers w.repo.by_id m)) stored
        ∙ ap (map welcome_of) (newcomers-put_new w.repo.by_id s.id s new) in
      subst (λ ds. IsTracked now uuid (due ++ ds) w' b) (sym joined)
        (wrote-IsTracked due (due ++ welcome_of s ∷ []) w w' b e at s
          (absent now uuid w.ids (suc w.ids) w.outbox.by_id distinct (omega arith) t.drawn)
          (λ b'.
            ap (λ p. p.0)
              (deliver-created now b' (uuid (suc w.ids)) s.id s.name s.email s.created_at))
          (suc w.ids, omega (arith, ids), refl) (omega (arith, ids)) outbox stored
          (w.ids, omega (arith, ids), named)
          (created-Mirrors now due w.repo w'.repo
            (foldl (observe now) b (rest_of now w.outbox.by_id)) s (uuid (suc w.ids)) status new
            stored t.mirrored)
          t)

  Changes-IsTracked :
      (tables : CaseTables) (clock : ℕ → Time) (due : List Welcome) (w w' : World) (b : Behind)
      → AllDistinct uuid
      → Changes tables uuid clock w w'
      → IsTracked now uuid due w b
      → IsTracked now uuid (due ++ greetings w w') w' b
  Changes-IsTracked tables clock due w w' b distinct
        (key, s, new, version, old, at, t', found, stored, outbox, ids) t =
      let e = changed (uuid w.ids) s.id old new at in
      let (here, d) = t.owned key s found in
      let found' : get w.repo.by_id s.id ≡ some s =
        subst (λ k. get w.repo.by_id k ≡ some s) here found in
      let s' : Snapshot = record s { email = new; version = version } in
      let nobody : newcomers w.repo.by_id w'.repo.by_id ≡ [] =
        ap (newcomers w.repo.by_id) stored ∙ newcomers-put_old w.repo.by_id s.id s' s found' in
      subst (λ ds. IsTracked now uuid ds w' b) (sym (no_greetings due w w' nobody))
        (wrote-IsTracked due due w w' b e t' (record s { email = new; version = version })
          (absent now uuid w.ids w.ids w.outbox.by_id distinct (omega arith) t.drawn)
          (λ b'. ap (λ p. p.0) (deliver-changed now b' (uuid w.ids) s.id old new at))
          (w.ids, omega (arith, ids), refl) (omega (arith, ids)) outbox stored
          (subst (IsDrawn now uuid w'.ids) here
            (IsDrawn-later now uuid w.ids w'.ids key (omega (arith, ids)) d))
          (changed-Mirrors now due w.repo w'.repo
            (foldl (observe now) b (rest_of now w.outbox.by_id)) s (uuid w.ids) old new version at
            found' stored t.mirrored)
          t)

  pub run-IsTracked :
      (tables : CaseTables) (clock : ℕ → Time) (c : Command) (due : List Welcome) (w : World)
      (b : Behind)
      → AllDistinct uuid
      → IsTracked now uuid due w b
      → let w' = (run tables uuid clock c w).1 in IsTracked now uuid (due ++ greetings w w') w' b
  run-IsTracked tables clock c due w b distinct t =
      let w' = (run tables uuid clock c w).1 in
      elim (run-Effect tables uuid clock c w) [
        | inl idle ↦ Idle-IsTracked due w w' b idle t
        | inr (inl made) ↦ Creates-IsTracked tables clock due w w' b distinct made t
        | inr (inr moved) ↦ Changes-IsTracked tables clock due w w' b distinct moved t
      ]

  -- A pass of the relay with a positive batch.
  pub pass-IsTracked :
      (due : List Welcome) (w : World) (b : Behind) (at : Time) (n : ℕ)
      → IsTracked now uuid due w b
      → let p = walk (deliver (wired_all now)) at n w.outbox.by_id b in
        IsTracked now uuid due (record w { outbox = record w.outbox { by_id = p.0 } }) p.1
        × (unpublished p.0 ≡ drop n (unpublished w.outbox.by_id))
  pass-IsTracked due w b at n t =
      let send = deliver (wired_all now) in
      let (same, left, kept) = walk-observe now at n w.outbox.by_id b t.accepted in
      (
        record {
          consistent = IsConsistent-walk send at w.outbox n b t.consistent;
          accepted = kept;
          drawn = rw (keys-walk send at n w.outbox.by_id b) t.drawn;
          owned = t.owned;
          mirrored = rw same t.mirrored;
        },
        left,
      )

  one_more :
      (s s' : Store) (e : Event) (at : Time)
      → s' ≡ Outbox.publish s (e ∷ []) at
      → get s.by_id e.id ≡ none
      → length (unpublished s'.by_id) ≡ suc (length (unpublished s.by_id))
  one_more s s' e at outbox new =
      ap (λ x. length (unpublished x.by_id)) outbox
      ∙ ap (λ m. length (unpublished m)) (publish_new s e at new)
      ∙ ap length (unpublished-append now uuid s.by_id e.id e at)
      ∙ length-append (unpublished s.by_id) (fresh_message e at ∷ [])
      ∙ omega arith

  -- A command adds one message at most.
  pub run-unpublished :
      (tables : CaseTables) (clock : ℕ → Time) (c : Command) (due : List Welcome) (w : World)
      (b : Behind)
      → AllDistinct uuid
      → IsTracked now uuid due w b
      → length (unpublished (run tables uuid clock c w).1.outbox.by_id)
        ≤ suc (length (unpublished w.outbox.by_id))
  run-unpublished tables clock c due w b distinct t =
      let w' = (run tables uuid clock c w).1 in
      elim (run-Effect tables uuid clock c w) [
        | inl (repo, outbox, ids) ↦ omega (arith, ap (λ s. length (unpublished s.by_id)) outbox)
        | inr (inl (s, at, named, status, stored, outbox, ids)) ↦ omega (
          arith,
          one_more w.outbox w'.outbox (created (uuid (suc w.ids)) s.id s.name s.email s.created_at)
              at outbox
              (absent now uuid w.ids (suc w.ids) w.outbox.by_id distinct (omega arith) t.drawn),
        )
        | inr (inr (key, s, new, version, old, at, at', found, stored, outbox, ids)) ↦ omega (
          arith,
          one_more w.outbox w'.outbox (changed (uuid w.ids) s.id old new at) at' outbox
              (absent now uuid w.ids w.ids w.outbox.by_id distinct (omega arith) t.drawn),
        )
      ]
