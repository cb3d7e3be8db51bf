-- ===== src/Agentctl/Publish/Found.antt =====
-- An event that `publish` sends is one that `consume` looks for.
use go_ddd.Prelude.Int.{pos}
use go_ddd.Prelude.{
  suc, ◌-◌, ◌<◌, ◌++◌, map, take, length, ℕ, ◌≡◌, refl, sym, ap, ◌∙◌, true, false, Option, none,
  some, List, [], ◌∷◌, arith, ◌==◌, text_eq, text_beq_iff, inl, inr, ◌⊎◌, if◌then◌else◌,
}
use go_ddd.Prelude.Text.{Text, codes}
use go_ddd.Prelude.Result.{Error, Result, ok, err, ok_inj}
use go_ddd.EventBus.{Event}
use go_ddd.Kafka.{set_defaults, default_topic_for}
use go_ddd.Kafka.Consumer.{Message}
use go_ddd.Kafka.Running.{Writer, publish, publish_error}
use go_ddd.Agentctl.{
  Stored, event_line, ConsumeFlags, Fetch, fetched, expires, consume_topic, run_consume, wanted,
}
use go_ddd.Agentctl.Consume.{lines_of, verdict, run_consume-take}
use go_ddd.Agentctl.Consume.Among.{lines_of-found, take_past, verdict-found}
use go_ddd.Agentctl.Publish.{
  PublishFlags, Machine, Report, publish_settings, override, checked_payload, event_for, reported,
  published, run_publish,
}

pair_eq : {A B : Type 0} {a : A} {b : B} (p : A × B) → p.0 ≡ a → p.1 ≡ b → p ≡ (a, b)
pair_eq {a = a} p h k = ap (λ x. (x, p.1)) h ∙ ap (λ y. (a, y)) k

module _ {W : Type 0} (machine : Machine) (encode : Event → Result Text) (writer : Writer W) where
  topic_for_name :
      (f : PublishFlags) (name : Text)
      → (publish_settings f).topic_for name
        ≡ (if f.topic == [] then default_topic_for name else f.topic)
  unfolding publish_settings override set_defaults
  topic_for_name f name = ground arith

  -- The message that goes out for an event.
  abbrev message_of : PublishFlags → Event → Text → Message
  message_of f e value = record {
    topic = (publish_settings f).topic_for e.name;
    key = e.aggregate_id;
    value = value;
    headers = (codes "x-event-name", e.name) ∷ [];
  }

  publish_one :
      (f : PublishFlags) (e : Event) (w : W) (r : Result Text)
      → encode e ≡ r
      → ((x : Error) × ((publish encode (publish_settings f) writer (e ∷ []) w).0 ≡ some x))
        ⊎ ((value : Text) × (encode e ≡ ok value)
            × (publish encode (publish_settings f) writer (e ∷ []) w ≡ (
              publish_error (writer (message_of f e value ∷ []) w).0,
              (writer (message_of f e value ∷ []) w).1,
            )))
  unfolding publish
  publish_one f e w (err x) h = inl (x, rw h refl)
  publish_one f e w (ok value) h = inr (value, h, rw h refl)

  reported_ok :
      (f : PublishFlags) (e : Event) (x : Option Error) (report : Report machine)
      → reported machine f e x ≡ ok report
      → (x ≡ none)
        × (report.event ≡ e)
        × (report.topic ≡ (if f.topic == [] then default_topic_for f.name else f.topic))
  unfolding reported
  reported_ok f e none report h = ground (arith, h)
  reported_ok f e (some x) report h = absurd (ground (arith, h))

  publish_error-none : (o : Option Error) → publish_error o ≡ none → o ≡ none
  unfolding publish_error
  publish_error-none none h = refl
  publish_error-none (some e) h = absurd (ground (arith, h))

  -- What a report of success means.
  abbrev pub Sent : PublishFlags → Report machine → W → W → Type 0
  Sent f report w w' =
      (m : Message) × (writer (m ∷ []) w ≡ (none, w'))
      × (encode report.event ≡ ok m.value)
      × (m.key ≡ f.aggregate_id)
      × (m.topic ≡ report.topic)
      × (report.topic ≡ (if f.topic == [] then default_topic_for f.name else f.topic))

  published-Sent :
      (f : PublishFlags) (r : Result Text) (n n' : ℕ) (w w' : W) (report : Report machine)
      → published machine encode writer f r n w ≡ (ok report, (n', w'))
      → Sent f report w w'
        × (report.event.name ≡ f.name)
        × (report.event.aggregate_id ≡ f.aggregate_id)
  unfolding published event_for
  published-Sent f (err e) n n' w w' report h = absurd (ground (arith, ap (λ p. p.0) h))
  published-Sent f (ok body) n n' w w' report h =
      let e = (event_for machine f body n).0 in
      let result = publish encode (publish_settings f) writer (e ∷ []) w in
      let (clean, same, named) = reported_ok f e result.0 report (ap (λ p. p.0) h) in
      elim (publish_one f e w (encode e) refl) [
        | inl (x, failed) ↦ absurd (ground (arith, sym failed ∙ clean))
        | inr (value, encoded, wrote) ↦ (
          (
            message_of f e value,
            pair_eq (writer (message_of f e value ∷ []) w)
                (publish_error-none (writer (message_of f e value ∷ []) w).0
                  (sym (ap (λ p. p.0) wrote) ∙ clean))
                (sym (ap (λ p. p.1) wrote) ∙ ap (λ p. p.1.1) h),
            ap encode same ∙ encoded,
            refl,
            topic_for_name f f.name ∙ sym named,
            named,
          ),
          ap (λ x. x.name) same,
          ap (λ x. x.aggregate_id) same,
        )
      ]

  name_given :
      (f : PublishFlags) (body : Text) → checked_payload machine f ≡ ok body → f.name == [] ≡ false
  unfolding checked_payload
  name_given f body h = ground (arith, h)

  success-name :
      (f : PublishFlags) (r : Result Text) (n n' : ℕ) (w w' : W) (report : Report machine)
      → checked_payload machine f ≡ r
      → published machine encode writer f r n w ≡ (ok report, (n', w'))
      → f.name == [] ≡ false
  unfolding published
  success-name f (err e) n n' w w' report made h = absurd (ground (arith, ap (λ p. p.0) h))
  success-name f (ok body) n n' w w' report made h = name_given f body made

  consumes :
      (f : PublishFlags) (g : ConsumeFlags)
      → g.topic ≡ f.topic
      → g.name ≡ f.name
      → f.name == [] ≡ false
      → consume_topic g ≡ ok (if f.topic == [] then default_topic_for f.name else f.topic)
  unfolding consume_topic
  consumes f g topics names given = rw (topics, names, given) (ground arith)

  wanted_own :
      (g : ConsumeFlags) (e : Event)
      → e.name ≡ g.name
      → e.aggregate_id ≡ g.aggregate_id
      → wanted g.name g.aggregate_id e ≡ true
  unfolding wanted
  wanted_own g e names ids = ground (
    arith,
    (text_beq_iff g.name e.name).1 (sym names),
    (text_beq_iff g.aggregate_id e.aggregate_id).1 (sym ids),
  )

  -- When publish reports success, the cluster has taken one message that holds the event. Suppose
  -- that partition 0 of its topic, the only one that consume reads, yields a message with this
  -- value between others until the timeout; that the codec reads the value back with the name and
  -- the aggregate of the event; and that fewer messages before it match than -count asks for. Then
  -- consume, with the same name, topic and aggregate, succeeds, and prints the line of this message
  -- after those of the matching messages before it, and then those behind it as far as -count goes.
  pub run_publish-found :
      (f : PublishFlags) (g : ConsumeFlags) (n n' : ℕ) (w w' : W) (report : Report machine)
      (decode : Text → Result Event) (value : Text) (e : Event) (fetches : Text → List Fetch)
      (before after : List Stored) (s : Stored) (rest : List Fetch) (k : ℕ)
      → run_publish machine encode writer f n w ≡ (ok report, (n', w'))
      → g.topic ≡ f.topic
      → g.name ≡ f.name
      → g.aggregate_id ≡ f.aggregate_id
      → encode report.event ≡ ok value
      → decode value ≡ ok e
      → e.name ≡ report.event.name
      → e.aggregate_id ≡ report.event.aggregate_id
      → s.value ≡ value
      → fetches report.topic ≡ map fetched (before ++ s ∷ after) ++ expires ∷ rest
      → g.count ≡ pos k
      → length (lines_of decode g report.topic before) < k
      → ((m : Message) × (writer (m ∷ []) w ≡ (none, w'))
          × (m.topic ≡ report.topic)
          × (m.key ≡ f.aggregate_id)
          × (m.value ≡ value))
        × (run_consume decode g fetches ≡ record {
          lines =
              lines_of decode g report.topic before
              ++ event_line report.topic 0 s e
                ∷ take
                    (k - suc (length (lines_of decode g report.topic before)))
                    (lines_of decode g report.topic after);
          error = none;
        })
  unfolding run_publish
  run_publish-found f g n n' w w' report decode value e fetches before after s rest k h topics names
        ids encoded known e_name e_id holds yields count low =
      let ((m, wrote, encoded', key, topic, named), own_name, own_id) =
        published-Sent f (checked_payload machine f) n n' w w' report h in
      let given = success-name f (checked_payload machine f) n n' w w' report refl h in
      let hit : wanted g.name g.aggregate_id e ≡ true =
        wanted_own g e (e_name ∙ own_name ∙ sym names) (e_id ∙ own_id ∙ sym ids) in
      let chosen : consume_topic g ≡ ok report.topic =
        consumes f g topics names given ∙ ap ok (sym named) in
      let t = report.topic in
      let taken =
        ap (take k) (lines_of-found decode g t s e before after (ap decode holds ∙ known) hit)
        ∙ take_past k (lines_of decode g t before) (lines_of decode g t after) (event_line t 0 s e)
            low in
      (
        (m, wrote, topic, key, ok_inj (sym encoded' ∙ encoded)),
        run_consume-take decode g fetches t k (before ++ s ∷ after) rest chosen count yields
            ∙ ap (λ ls. record { lines = ls; error = verdict decode g t ls }) taken
            ∙ ap
                (λ o. record {
                  lines =
                      lines_of decode g t before
                      ++ event_line t 0 s e
                        ∷ take (k - suc (length (lines_of decode g t before)))
                            (lines_of decode g t after);
                  error = o;
                })
                (verdict-found decode g t (lines_of decode g t before)
                  (take (k - suc (length (lines_of decode g t before))) (lines_of decode g t after))
                  (event_line t 0 s e)),
      )
