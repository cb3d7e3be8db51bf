-- ===== src/Agentctl.antt =====
-- cmd/agentctl: the tool that publishes and reads events (main.go), and the event tap (tap.go).
pub mod Consume
pub mod Tap
pub mod Publish
use go_ddd.Prelude.{
  ℕ, zero, suc, ◌≡◌, Bool, true, false, ◌&&◌, ◌||◌, not, Option, none, some, List, [], ◌∷◌, ◌++◌,
  ◌==◌, text_eq, if◌then◌else◌,
}
use go_ddd.Prelude.Int.{ℤ, pos, ltb_ℤ}
use go_ddd.Prelude.Text.{Text, codes}
use go_ddd.Prelude.Text.Trim.{trim_space}
use go_ddd.Prelude.Result.{Error, Result, ok, err, other_error, ◌>>=◌}
use go_ddd.Shared.{error_text}
use go_ddd.EventBus.{Event}
use go_ddd.Config.{split}
use go_ddd.Kafka.{default_topic_for}

-- The subcommands, with the arguments left to each.
pub data Command : Type 0 where
  publish_command consume_command mark_command events_command : List Text → Command

abbrev unknown_command : List Text → Result Command
unknown_command args = err (other_error (codes "unknown command"))

subcommand : Text → List Text → Result Command
subcommand name rest =
    if name == codes "publish"
    then ok (publish_command rest)
    else if name == codes "consume"
    then ok (consume_command rest)
    else if name == codes "mark"
    then ok (mark_command rest)
    else if name == codes "events"
    then ok (events_command rest)
    else err (other_error (codes "unknown kafka subcommand"))

-- The choice that `run` makes. The texts of its errors quote the arguments.
unfoldable pub parse_command : List Text → Result Command
unfolding subcommand
parse_command [] = err (other_error (codes "no command given"))
parse_command (a ∷ []) = unknown_command (a ∷ [])
parse_command (a ∷ b ∷ rest) =
    if a == codes "kafka" then subcommand b rest else unknown_command (a ∷ b ∷ rest)

keep_parts : List Text → List Text
keep_parts [] = []
keep_parts (p ∷ ps) =
    let rest = keep_parts ps in if trim_space p == [] then rest else trim_space p ∷ rest

-- `splitCSV`
unfoldable pub split_csv : Text → List Text
unfolding keep_parts
split_csv s = keep_parts (split b',' s)

-- `orDefault`, with the count of the ids drawn
unfoldable pub or_default : Text → (ℕ → Text) → ℕ → Text × ℕ
or_default v gen n = if v == [] then (gen n, suc n) else (v, n)

-- `readPayload`, given what reading the file gives
unfoldable pub read_payload : Text → Text → (Text → Result Text) → Result Text
read_payload inline file read_file =
    if file == []
    then if inline == []
      then err (other_error (codes "one of -payload or -payload-file is required"))
      else ok inline
    else read_file file

-- A message of a topic, with its place in the partition.
pub record Stored : Type 0 where
  pub offset : ℕ
  pub value : Text
  pub headers : List (Text × Text)

-- What is printed of a message: the event that it holds, or why it holds none.
pub data Line : Type 0 where
  -- topic, partition
  event_line : Text → ℕ → Stored → Event → Line
  raw_line : Text → ℕ → Stored → Error → Line

-- An empty flag asks for nothing.
asks : Text → Text → Bool
asks flag value = (flag == []) || (flag == value)

-- The filters of -name and -aggregate-id.
unfoldable pub wanted : Text → Text → Event → Bool
unfolding asks
wanted name aggregate e = asks name e.name && asks aggregate e.aggregate_id

pub record ConsumeFlags : Type 0 where
  pub topic : Text
  pub name : Text
  pub aggregate_id : Text
  pub count : ℤ

-- What `FetchMessage` gives: a message, the end of the timeout, or another error.
pub data Fetch : Type 0 where
  fetched : Stored → Fetch
  expires : Fetch
  fails : Error → Fetch

-- The topic that is read.
unfoldable pub consume_topic : ConsumeFlags → Result Text
consume_topic f =
    if f.topic == []
    then if f.name == []
      then err (other_error (codes "one of -topic or -name is required"))
      else ok (default_topic_for f.name)
    else ok f.topic

-- What a loop has printed, and how it ended.
pub record Printed : Type 0 where
  pub lines : List Line
  pub error : Option Error

module _ (decode : Text → Result Event) (f : ConsumeFlags) (topic : Text) where
  -- A message that is printed, if it is.
  shown : Stored → Result Event → List Line
  shown m (err e) = []
  shown m (ok e) = if wanted f.name f.aggregate_id e then event_line topic 0 m e ∷ [] else []

  no_match : ℕ → Option Error
  no_match zero = some (other_error (codes "no matching message"))
  no_match (suc n) = none

  -- The loop of `runConsume`: it ends when enough messages have matched.
  consume_loop : List Fetch → ℕ → List Line → Printed
  unfolding shown no_match
  consume_loop [] matched out = record { lines = out; error = no_match matched }
  consume_loop (expires ∷ fs) matched out = record { lines = out; error = no_match matched }
  consume_loop (fails e ∷ fs) matched out =
      if ltb_ℤ (pos matched) f.count
      then record { lines = out; error = some (other_error (codes "fetch: " ++ error_text e)) }
      else record { lines = out; error = no_match matched }
  consume_loop (fetched m ∷ fs) matched out = elim (ltb_ℤ (pos matched) f.count) [
    | false ↦ record { lines = out; error = no_match matched }
    | true ↦ elim (shown m (decode m.value)) [
      | [] ↦ consume_loop fs matched out
      | line ∷ more ↦ consume_loop fs (suc matched) (out ++ line ∷ [])
    ]
  ]

consume_by : (Text → Result Event) → ConsumeFlags → (Text → List Fetch) → Result Text → Printed
consume_by decode f fetches (err e) = record { lines = []; error = some e }
consume_by decode f fetches (ok topic) = consume_loop decode f topic (fetches topic) 0 []

-- `runConsume`, over what partition 0 of each topic yields
unfoldable pub run_consume : (Text → Result Event) → ConsumeFlags → (Text → List Fetch) → Printed
unfolding consume_topic consume_loop consume_by
run_consume decode f fetches = consume_by decode f fetches (consume_topic f)
