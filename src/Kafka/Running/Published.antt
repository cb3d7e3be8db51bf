-- ===== src/Kafka/Running/Published.antt =====
-- From the producer to the handlers.
use go_ddd.Prelude.{◌≡◌, refl, sym, ap, subst, some, [], ◌∷◌, ◌++◌, text_eq}
use go_ddd.Prelude.Text.{Text}
use go_ddd.Prelude.Result.{Result, ok}
use go_ddd.EventBus.{Event, Handler, chain}
use go_ddd.Kafka.Consumer.{Message, Bus, subscribe, handlers_for}
use go_ddd.Kafka.Consumer.Subscribed.{subscribe-handlers_for}
use go_ddd.Kafka.Running.{
  Lifecycle, idle, start, Writer, publish, messages, message_for, write_all, publish_error,
}
use go_ddd.Kafka.Running.Reached.{Reads, Reads-start}

module _ {S W : Type 0} (encode : Event → Result Text) (writer : Writer W) where
  -- When a bus takes a subscription and `Run` starts its readers, then an event of this name that
  -- is published becomes one message under the key of its aggregate, on a topic that a reader
  -- fetches from as that business topic. The handlers that this reader finds for it are those from
  -- before the subscription and then the new one behind the middleware.
  pub publish-Reads :
      (b b' : Bus S) (h : Handler S) (e : Event) (value : Text) (life : Lifecycle) (w : W)
      → subscribe b e.name (some h) ≡ ok b'
      → start b' idle ≡ ok life
      → encode e ≡ ok value
      → (m : Message) × (publish encode b'.settings writer (e ∷ []) w
          ≡ (publish_error (writer (m ∷ []) w).0, (writer (m ∷ []) w).1))
        × (m.value ≡ value)
        × (m.key ≡ e.aggregate_id)
        × Reads m.topic m.topic life.readers
        × (handlers_for b' m.topic e.name ≡ handlers_for b m.topic e.name ++ chain h b.mw ∷ [])
  unfolding publish messages message_for write_all
  publish-Reads b b' h e value life w subscribed started encoded =
      let (same, (bs, bound), found) = subscribe-handlers_for b b' e.name h subscribed in
      let topics = ap (λ s. s.topic_for e.name) same in
      (
        message_for b'.settings e value,
        rw encoded refl,
        refl,
        refl,
        subst (λ t. Reads t t life.readers) (sym topics)
            (Reads-start b' (b.settings.topic_for e.name) bs life bound started),
        subst (λ t. handlers_for b' t e.name ≡ handlers_for b t e.name ++ chain h b.mw ∷ [])
            (sym topics) found,
      )
