-- ===== src/EventBus/Delivery.antt =====
-- What the in-process bus delivers: to whom, in which order, and what a bad handler cannot do.
use mathlib.Core.Option
use go_ddd.Prelude.{
  sym, ap, ◌∙◌, map, append-nil, append_assoc, text_beq_iff, if◌then◌else◌, ◌≡◌, refl, inl, inr,
  none, some, List, [], ◌∷◌, ◌++◌, arith, text_eq, text_beq, Bool-cases,
}
use go_ddd.Prelude.Text.{Text, codes}
use go_ddd.Prelude.Map.{get, put, get-put}
use go_ddd.Prelude.Result.{Error, Result, ok, err, other_error, ok_inj, ◌>>=◌}
use go_ddd.EventBus.{
  Event, Outcome, returns, panics, Handler, Middleware, chain, recover, Bus, new_bus, handlers_of,
  subscribe, run_handlers, publish, recovered, collect, Collected,
}

-- The errors of a call: the one that it returned, or one that tells of its panic.
abbrev pub note : Outcome → List Error → List Error
note (returns (some x)) xs = x ∷ xs
note (returns none) xs = xs
note (panics p) xs = other_error (codes "handler panic: " ++ p) ∷ xs

-- `Subscribe` for each of these, in order
unfoldable pub subscribe_all : {S : Type 0} → Bus S → List (Text × Handler S) → Result (Bus S)
subscribe_all b [] = ok b
subscribe_all b ((name, h) ∷ subs) = do b' ← subscribe b name (some h); subscribe_all b' subs

module _ {S : Type 0} where
  abbrev calls : Event → List (Handler S) → List (Handler S × Event)
  calls e [] = []
  calls e (h ∷ hs) = (h, e) ∷ calls e hs

  -- The handlers that were subscribed to a name, in order, each within these middleware.
  abbrev pub asked : List (Middleware S) → Text → List (Text × Handler S) → List (Handler S)
  asked mw name [] = []
  asked mw name ((n, h) ∷ subs) =
      let rest = asked mw name subs in if text_beq n name then chain h mw ∷ rest else rest

  -- The calls that a publication makes, in order.
  pub deliveries :
      List (Middleware S) → List (Text × Handler S) → List Event → List (Handler S × Event)
  deliveries mw subs [] = []
  deliveries mw subs (e ∷ es) = calls e (asked mw e.name subs) ++ deliveries mw subs es

  -- The errors of the calls, each made in the state that the last one left, and the last state.
  pub errors_of : List (Handler S × Event) → S → List Error
  errors_of [] s = []
  errors_of ((h, e) ∷ ds) s = note (h e s).0 (errors_of ds (h e s).1)

  pub state_of : List (Handler S × Event) → S → S
  state_of [] s = s
  state_of ((h, e) ∷ ds) s = state_of ds (h e s).1

  errors_of-append :
      (ds es : List (Handler S × Event)) (s : S)
      → errors_of (ds ++ es) s ≡ errors_of ds s ++ errors_of es (state_of ds s)
  unfolding errors_of state_of
  errors_of-append [] es s = refl
  errors_of-append ((h, e) ∷ ds) es s = go (h e s).0 (errors_of-append ds es (h e s).1)
    where
      s' : S
      s' = (h e s).1

      go :
          (o : Outcome)
          → errors_of (ds ++ es) s' ≡ errors_of ds s' ++ errors_of es (state_of ds s')
          → note o (errors_of (ds ++ es) s')
            ≡ note o (errors_of ds s') ++ errors_of es (state_of ds s')
      go (returns none) ih = ih
      go (returns (some x)) ih = ap (λ xs. x ∷ xs) ih
      go (panics p) ih = ap (λ xs. other_error (codes "handler panic: " ++ p) ∷ xs) ih

  state_of-append :
      (ds es : List (Handler S × Event)) (s : S)
      → state_of (ds ++ es) s ≡ state_of es (state_of ds s)
  unfolding state_of
  state_of-append [] es s = refl
  state_of-append ((h, e) ∷ ds) es s = state_of-append ds es (h e s).1

  -- What `recover` returns is collected as the error of the call, and the loop goes on.
  collect-recovered :
      (o : Outcome) (rest : S → Collected × S) (s : S) (xs : List Error)
      → (rest s).0 ≡ some xs
      → collect (recovered o) rest s ≡ (some (note o xs), (rest s).1)
  unfolding collect recovered
  collect-recovered (returns none) rest s xs h = ap (λ r. (r, (rest s).1)) h
  collect-recovered (returns (some x)) rest s xs h =
      ap (λ r. (Option.map (λ ys. x ∷ ys) r, (rest s).1)) h
  collect-recovered (panics p) rest s xs h =
      ap (λ r. (Option.map (λ ys. other_error (codes "handler panic: " ++ p) ∷ ys) r, (rest s).1)) h

  abbrev all_recovered : List (Handler S) → List (Handler S)
  all_recovered hs = map recover hs

  run_handlers-recovered :
      (hs : List (Handler S)) (e : Event) (s : S)
      → run_handlers (all_recovered hs) e s
        ≡ (some (errors_of (calls e hs) s), state_of (calls e hs) s)
  unfolding run_handlers errors_of state_of recover
  run_handlers-recovered [] e s = refl
  run_handlers-recovered (h ∷ hs) e s =
      let ih = run_handlers-recovered hs e (h e s).1 in
      collect-recovered (h e s).0 (run_handlers (all_recovered hs) e) (h e s).1
        (errors_of (calls e hs) (h e s).1) (ap (λ p. p.0) ih)
      ∙ ap (λ p. (some (note (h e s).0 (errors_of (calls e hs) (h e s).1)), p.1)) ih

  asked-recover :
      (mw : List (Middleware S)) (name : Text) (subs : List (Text × Handler S))
      → asked (recover ∷ mw) name subs ≡ all_recovered (asked mw name subs)
  unfolding chain
  asked-recover mw name [] = refl
  asked-recover mw name ((n, h) ∷ subs) = elim (Bool-cases (text_beq n name)) [
    | inl hit ↦ rw hit (ap (λ hs. recover (chain h mw) ∷ hs) (asked-recover mw name subs))
    | inr miss ↦ rw miss (asked-recover mw name subs)
  ]

  -- A bus holds, for each name, the handlers that were subscribed to it.
  abbrev Holds : Bus S → List (Middleware S) → List (Text × Handler S) → Bus S → Type 0
  Holds b mw subs b' =
      (b'.mw ≡ mw)
      × ((name : Text) → handlers_of b' name ≡ handlers_of b name ++ asked mw name subs)

  subscribed :
      (b b' : Bus S) (name : Text) (h : Handler S)
      → subscribe b name (some h) ≡ ok b'
      → Holds b b.mw ((name, h) ∷ []) b'
  unfolding subscribe handlers_of
  subscribed b b' name h done =
      let added = handlers_of b name ++ chain h b.mw ∷ [] in
      let same : record b { handlers = put b.handlers name added } ≡ b' = ground (arith, done) in
      rw (← same) (
        refl,
        λ k. elim (Bool-cases (text_beq name k)) [
          | inl hit ↦ rw (get-put b.handlers name k added, hit, (text_beq_iff name k).0 hit) refl
          | inr miss ↦
              rw (get-put b.handlers name k added, miss) (sym (append-nil (handlers_of b k)))
        ],
      )

  subscribe_all-Holds :
      (subs : List (Text × Handler S)) (b b' : Bus S)
      → subscribe_all b subs ≡ ok b'
      → Holds b b.mw subs b'
  unfolding subscribe_all
  subscribe_all-Holds [] b b' done =
      let same : b ≡ b' = ok_inj done in rw (← same) (refl, λ k. sym (append-nil (handlers_of b k)))
  subscribe_all-Holds ((name, h) ∷ subs) b b' done =
      go (subscribe b name (some h)) refl done (λ b₁. subscribe_all-Holds subs b₁ b')
    where
      joined :
          (k : Text)
          → asked b.mw k ((name, h) ∷ []) ++ asked b.mw k subs ≡ asked b.mw k ((name, h) ∷ subs)
      joined k = elim (Bool-cases (text_beq name k)) [
        | inl hit ↦ rw hit refl
        | inr miss ↦ rw miss refl
      ]

      go :
          (r : Result (Bus S))
          → subscribe b name (some h) ≡ r
          → (r >>= (λ b₁. subscribe_all b₁ subs)) ≡ ok b'
          → ((b₁ : Bus S) → subscribe_all b₁ subs ≡ ok b' → Holds b₁ b₁.mw subs b')
          → Holds b b.mw ((name, h) ∷ subs) b'
      go (err e) made done ih = absurd (ground (arith, done))
      go (ok b₁) made done ih =
          let (mw, one) = subscribed b b₁ name h made in
          let (mw', rest) = ih b₁ done in
          (
            mw' ∙ mw,
            λ k.
                rest k
                ∙ ap (λ x. handlers_of b₁ k ++ asked x k subs) mw
                ∙ ap (λ hs. hs ++ asked b.mw k subs) (one k)
                ∙ append_assoc (handlers_of b k) (asked b.mw k ((name, h) ∷ [])) (asked b.mw k subs)
                ∙ ap (λ hs. handlers_of b k ++ hs) (joined k),
          )

  -- On a new bus with Recover as its outermost middleware, after any subscriptions, a publication
  -- calls, for each event in turn, every handler that was subscribed to its name, in the order of
  -- subscription, whatever the others return and also after one that panics. It returns the errors
  -- joined in that order, with one for each panic, and never panics itself.
  pub publish_total :
      (mw : List (Middleware S)) (subs : List (Text × Handler S)) (b : Bus S) (es : List Event)
      (s : S)
      → subscribe_all (new_bus (recover ∷ mw)) subs ≡ ok b
      → publish b es s
        ≡ (some (errors_of (deliveries mw subs es) s), state_of (deliveries mw subs es) s)
  unfolding publish deliveries errors_of state_of handlers_of new_bus get
  publish_total mw subs b es s built = published b es s (λ k.
      (subscribe_all-Holds subs (new_bus (recover ∷ mw)) b built).1 k ∙ asked-recover mw k subs)
    where
      published :
          (b : Bus S) (es : List Event) (s : S)
          → ((k : Text) → handlers_of b k ≡ all_recovered (asked mw k subs))
          → publish b es s
            ≡ (some (errors_of (deliveries mw subs es) s), state_of (deliveries mw subs es) s)
      published b [] s known = refl
      published b (e ∷ es) s known =
          let ds = calls e (asked mw e.name subs) in
          let first =
            ap (λ hs. run_handlers hs e s) (known e.name)
            ∙ run_handlers-recovered (asked mw e.name subs) e s in
          ground (
            arith,
            first,
            published b es (state_of ds s) known,
            errors_of-append ds (deliveries mw subs es) s,
            state_of-append ds (deliveries mw subs es) s,
          )
