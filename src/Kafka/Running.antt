-- ===== src/Kafka/Running.antt =====
-- bus.go: what the bus produces, the readers that it starts, and how it closes.
pub mod Reached
pub mod Published
use go_ddd.Prelude.{
  ℕ, zero, suc, ◌≡◌, Bool, true, false, Option, none, some, List, [], ◌∷◌, ◌++◌, map,
}
use go_ddd.Prelude.Int.{ℤ, pos, negsuc}
use go_ddd.Prelude.Text.{Text, codes}
use go_ddd.Prelude.Map.{Map}
use go_ddd.Prelude.Result.{Error, Result, ok, err, other_error, ◌>>=◌}
use go_ddd.Shared.{error_text}
use go_ddd.EventBus.{Event}
use go_ddd.Kafka.{Settings}
use go_ddd.Kafka.Consumer.{Message, Bus, Binding}

-- The message of one event, given its encoded value.
message_for : Settings → Event → Text → Message
message_for settings e value = record {
  topic = settings.topic_for e.name;
  key = e.aggregate_id;
  value = value;
  headers = (codes "x-event-name", e.name) ∷ [];
}

-- The loop of `Publish`: nothing is sent if one event cannot be encoded.
messages : (Event → Result Text) → Settings → List Event → Result (List Message)
messages encode settings [] = ok []
messages encode settings (e ∷ es) = do
  value ← encode e
  rest ← messages encode settings es
  ok (message_for settings e value ∷ rest)

unfoldable pub publish_error : Option Error → Option Error
publish_error none = none
publish_error (some e) = some (other_error (codes "kafka: publish: " ++ error_text e))

-- The cluster `W` takes the messages of one call or returns an error, which may come after a part.
abbrev pub Writer : Type 0 → Type 0
Writer W = List Message → W → Option Error × W

module _ {W : Type 0} (encode : Event → Result Text) (settings : Settings) (writer : Writer W) where
  write_all : Result (List Message) → W → Option Error × W
  write_all (err e) w = (some e, w)
  write_all (ok ms) w = let (r, w') = writer ms w in (publish_error r, w')

  -- Bus.Publish
  unfoldable pub publish : List Event → W → Option Error × W
  unfolding messages message_for publish_error write_all
  publish [] w = (none, w)
  publish (e ∷ es) w = write_all (messages encode settings (e ∷ es)) w

-- A consumer-group reader: the topic that it fetches from and the business topic that it serves.
pub record Reader : Type 0 where
  pub physical : Text
  pub business : Text

-- The retry hops of one topic from an attempt on, as many as are left.
hop_readers : Settings → Text → ℕ → ℕ → List Reader
hop_readers settings topic attempt zero = []
hop_readers settings topic attempt (suc left) =
    record { physical = settings.retry_topic_for topic (pos attempt); business = topic }
    ∷ hop_readers settings topic (suc attempt) left

-- The rounds of `for attempt := 1; attempt <= MaxRetries; attempt++`, for a limit that an `int`
-- exceeds.
hops : ℤ → ℕ
hops (pos n) = n
hops (negsuc n) = 0

topic_readers : Settings → Text → List Reader
topic_readers settings topic =
    record { physical = topic; business = topic }
    ∷ hop_readers settings topic 1 (hops settings.max_retries)

-- The loop of `Run` over the topics, in the order in which the map yields them.
unfoldable pub readers_for : Settings → List Text → List Reader
unfolding hop_readers hops topic_readers
readers_for settings [] = []
readers_for settings (t ∷ ts) = topic_readers settings t ++ readers_for settings ts

-- What `Run` and `Close` keep of a bus.
pub record Lifecycle : Type 0 where
  pub started : Bool
  pub readers : List Reader

abbrev pub idle : Lifecycle
idle = record { started = false; readers = [] }

module _ {S : Type 0} where
  topics_of : Map (List (Binding S)) → List Text
  topics_of [] = []
  topics_of ((t, bs) ∷ m) = t ∷ topics_of m

  start_by : Bool → Bus S → Lifecycle → Result (Lifecycle)
  start_by true bus life = err (other_error (codes "kafka: Run already called"))
  start_by false bus life = ok (record {
    started = true;
    readers = life.readers ++ readers_for bus.settings (topics_of bus.bindings);
  })

  -- `Run`, up to the wait for the end of its context.
  unfoldable pub start : Bus S → Lifecycle → Result Lifecycle
  unfolding start_by topics_of
  start bus life = start_by life.started bus life

-- The loop of `Close` over the readers, each of which may fail.
close_readers : (Reader → Option Error) → List Reader → List Error
close_readers close [] = []
close_readers close (r ∷ rs) = elim (close r) [
  | none ↦ close_readers close rs
  | some e ↦ e ∷ close_readers close rs
]

-- Bus.Close: the errors that `errors.Join` gets.
unfoldable pub close : Option Error → (Reader → Option Error) → Lifecycle → List Error
unfolding close_readers
close none close_reader life = close_readers close_reader life.readers
close (some e) close_reader life = e ∷ close_readers close_reader life.readers
