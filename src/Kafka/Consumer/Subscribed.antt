-- ===== src/Kafka/Consumer/Subscribed.antt =====
-- What a subscription adds to the bindings.
use go_ddd.Prelude.{◌≡◌, refl, ap, ◌∙◌, some, List, [], ◌∷◌, ◌++◌, arith, text_eq, text_beq_refl}
use go_ddd.Prelude.Text.{Text}
use go_ddd.Prelude.Map.{get, put, get-put}
use go_ddd.Prelude.Result.{ok}
use go_ddd.EventBus.{Handler, chain}
use go_ddd.Kafka.Consumer.{Bus, Binding, or_none, matching, subscribe, handlers_for}

module _ {S : Type 0} where
  matching-append :
      (bs cs : List (Binding S)) (name : Text)
      → matching (bs ++ cs) name ≡ matching bs name ++ matching cs name
  unfolding matching
  matching-append [] cs name = refl
  matching-append (b ∷ bs) cs name = ground (arith, matching-append bs cs name)

  -- The bus after a subscription that succeeds.
  abbrev bound : Bus S → Text → Handler S → Bus S
  bound b name h = record b {
    bindings = put b.bindings (b.settings.topic_for name) (
        or_none (get b.bindings (b.settings.topic_for name))
        ++ record { event_name = name; handler = chain h b.mw } ∷ []);
  }

  subscribe-bound :
      (b b' : Bus S) (name : Text) (h : Handler S)
      → subscribe b name (some h) ≡ ok b'
      → b' ≡ bound b name h
  unfolding subscribe
  subscribe-bound b b' name h e = ground (arith, e)

  -- A subscription changes the bindings alone. Its topic has a list of bindings afterwards, and the
  -- handlers of its event are those from before and then the new one behind the middleware.
  pub subscribe-handlers_for :
      (b b' : Bus S) (name : Text) (h : Handler S)
      → subscribe b name (some h) ≡ ok b'
      → (b'.settings ≡ b.settings)
        × ((bs : List (Binding S)) × (get b'.bindings (b.settings.topic_for name) ≡ some bs))
        × (handlers_for b' (b.settings.topic_for name) name
            ≡ handlers_for b (b.settings.topic_for name) name ++ chain h b.mw ∷ [])
  unfolding handlers_for
  subscribe-handlers_for b b' name h e =
      let t = b.settings.topic_for name in
      let new : Binding S = record { event_name = name; handler = chain h b.mw } in
      let bs = or_none (get b.bindings t) ++ new ∷ [] in
      let same = subscribe-bound b b' name h e in
      let there : get (put b.bindings t bs) t ≡ some bs =
        get-put b.bindings t t bs ∙ rw (text_beq_refl t) refl in
      (
        ap (λ x. x.settings) same,
        (bs, ap (λ x. get x.bindings t) same ∙ there),
        ap (λ x. matching (or_none (get x.bindings t)) name) same
            ∙ ap (λ o. matching (or_none o) name) there
            ∙ (unfold or_none in matching-append (or_none (get b.bindings t)) (new ∷ []) name)
            ∙ (unfold matching in rw (text_beq_refl name) refl),
      )
