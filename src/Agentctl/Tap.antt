-- ===== src/Agentctl/Tap.antt =====
-- cmd/agentctl/tap.go: `mark` notes where every partition ends, and `events` prints what came
-- after.
pub mod Range
pub mod Keys
pub mod Order
pub mod Since
use go_ddd.Prelude.{
  ℕ, suc, ◌≡◌, Bool, true, false, ◌&&◌, ◌||◌, not, Option, none, some, List, [], ◌∷◌, ◌++◌, ◌==◌,
  text_eq, ltb, leb, nat_beq, filter, if◌then◌else◌,
}
use go_ddd.Prelude.Int.{ℤ, pos, negsuc}
use go_ddd.Prelude.Text.{Text, codes, text_ltb}
use go_ddd.Prelude.Text.Decimal.{itoa}
use go_ddd.Prelude.Map.{Map, get, put}
use go_ddd.Prelude.Result.{Error, Result, ok, err, other_error}
use go_ddd.Prelude.Exec.{Exec, pure, throw, ◌>>=◌, ◌>>◌}
use go_ddd.EventBus.{Event}
use go_ddd.Agentctl.{Stored, Line, event_line, raw_line, wanted}

pub record Partition : Type 0 where
  pub topic : Text
  pub id : ℕ

-- What the cluster answers: its partitions, the first and the end offset of one, and the messages
-- that a connection to one yields from an offset on, up to the read that fails.
pub record Cluster : Type 0 where
  pub partitions : Result (List Partition)
  pub bounds : Partition → Result (ℕ × ℕ)
  pub messages_from : Partition → ℕ → Result (List Stored)

-- offsetMark, the content of the file of a mark
abbrev pub OffsetMark : Type 0
OffsetMark = Map ℤ

unfoldable pub mark_key : Text → ℕ → Text
mark_key topic partition = topic ++ (codes "/" ++ itoa (pos partition))

-- `strings.HasPrefix(p.Topic, "_")`
unfoldable pub is_internal : Text → Bool
is_internal [] = false
is_internal (c ∷ s) = nat_beq c b'_'

partition_less : Partition → Partition → Bool
partition_less p q = if p.topic == q.topic then ltb p.id q.id else text_ltb p.topic q.topic

insert : Partition → List Partition → List Partition
insert p [] = p ∷ []
insert p (q ∷ qs) = let rest = insert p qs in if partition_less q p then q ∷ rest else p ∷ q ∷ qs

-- `sort.Slice` with this order
sort_partitions : List Partition → List Partition
sort_partitions [] = []
sort_partitions (p ∷ ps) = insert p (sort_partitions ps)

listed : Result (List Partition) → Result (List Partition)
listed (err e) = err e
listed (ok all) = ok (sort_partitions (filter (λ p. not (is_internal p.topic)) all))

-- `listPartitions`
unfoldable pub list_partitions : List Text → Cluster → Result (List Partition)
unfolding listed sort_partitions insert partition_less is_internal
list_partitions [] c = err (other_error (codes "no brokers given"))
list_partitions (b ∷ bs) c = listed c.partitions

mark_next :
    Partition → Result (ℕ × ℕ) → OffsetMark → (OffsetMark → Result OffsetMark) → Result OffsetMark
mark_next p (err e) m rest = err e
mark_next p (ok (first, end)) m rest = rest (put m (mark_key p.topic p.id) (pos end))

mark_loop : Cluster → List Partition → OffsetMark → Result OffsetMark
mark_loop c [] m = ok m
mark_loop c (p ∷ ps) m = mark_next p (c.bounds p) m (mark_loop c ps)

mark_all : Cluster → Result (List Partition) → Result OffsetMark
mark_all c (err e) = err e
mark_all c (ok ps) = mark_loop c ps []

-- `runMark`, up to the print of the mark
unfoldable pub run_mark : List Text → Cluster → Result OffsetMark
unfolding mark_all mark_loop mark_next
run_mark brokers c = mark_all c (list_partitions brokers c)

-- Where the reading starts: an offset before the first one is raised to it.
unfoldable pub start_at : ℤ → ℕ → ℕ
start_at (pos n) first = if ltb n first then first else n
start_at (negsuc n) first = first

deadline : Error
deadline = other_error (codes "read: i/o timeout")

module _ {W : Type 0} (f : Stored → Exec W (Unit {0})) where
  read_next : ℕ → ℕ → Result (Unit {0}) × W → Exec W (Unit {0}) → Result (Unit {0}) × W
  read_next end offset (err e, w) rest = (err e, w)
  read_next end offset (ok done, w) rest = if leb end (suc offset) then (ok tt, w) else rest w

  -- The loop of `readRange`: it ends at the message before the end offset. The read that yields
  -- nothing more runs into its deadline.
  unfoldable pub read_loop : ℕ → List Stored → Exec W (Unit {0})
  unfolding deadline read_next
  read_loop end [] w = (err deadline, w)
  read_loop end (m ∷ ms) w = read_next end m.offset (f m w) (read_loop end ms)

  read_opened : ℕ → Result (List Stored) → Exec W (Unit {0})
  read_opened end (err e) w = (err e, w)
  read_opened end (ok ms) w = read_loop end ms w

  read_bounded : Cluster → Partition → ℤ → Result (ℕ × ℕ) → Exec W (Unit {0})
  read_bounded c p from (err e) w = (err e, w)
  read_bounded c p from (ok (first, end)) w =
      let at = start_at from first in
      if leb end at then (ok tt, w) else read_opened end (c.messages_from p at) w

  -- `readRange`
  unfoldable pub read_range : Cluster → Partition → ℤ → Exec W (Unit {0})
  unfolding read_loop read_opened read_bounded start_at
  read_range c p from w = read_bounded c p from (c.bounds p) w

-- The flags of `events`, with the test of -topic-regex, which passes every topic if it is not
-- given.
pub record EventsFlags : Type 0 where
  pub topic_matches : Text → Bool
  pub name : Text
  pub aggregate_id : Text

unfoldable pub line_of : EventsFlags → Text → ℕ → Stored → Result Event → List Line
line_of f topic partition m (err e) = raw_line topic partition m e ∷ []
line_of f topic partition m (ok e) =
    if wanted f.name f.aggregate_id e then event_line topic partition m e ∷ [] else []

-- What the tap prints of one message, on an output that takes everything.
unfoldable pub print_message :
    (Text → Result Event) → EventsFlags → Partition → Stored → Exec (List Line) (Unit {0})
unfolding line_of
print_message decode f p m out = (ok tt, out ++ line_of f p.topic p.id m (decode m.value))

-- A partition that the mark does not have starts at zero.
marked : Option ℤ → ℤ
marked none = pos 0
marked (some n) = n

module _ (decode : Text → Result Event) (f : EventsFlags) (c : Cluster) (start : OffsetMark) where
  events_one : Partition → Exec (List Line) (Unit {0})
  events_one p =
      if f.topic_matches p.topic
      then read_range (print_message decode f p) c p (marked (get start (mark_key p.topic p.id)))
      else pure tt

  events_loop : List Partition → Exec (List Line) (Unit {0})
  events_loop [] = pure tt
  events_loop (p ∷ ps) = do events_one p; events_loop ps

  events_all : Result (List Partition) → Exec (List Line) (Unit {0})
  events_all (err e) = throw e
  events_all (ok ps) = events_loop ps

-- `runEvents`, given the mark of -since-mark, which is empty without the flag
unfoldable pub run_events :
    (Text → Result Event)
    → EventsFlags
    → OffsetMark
    → List Text
    → Cluster
    → Exec (List Line) (Unit {0})
unfolding events_all events_loop events_one marked
run_events decode f start brokers c = events_all decode f c start (list_partitions brokers c)

put_header : List (Text × Text) → Map Text → Map Text
put_header [] m = m
put_header ((k, v) ∷ hs) m = put_header hs (put m k v)

-- `headerMap`: the last of the headers with one key counts; without headers there is no map.
unfoldable pub header_map : List (Text × Text) → Option (Map Text)
unfolding put_header
header_map [] = none
header_map (h ∷ hs) = some (put_header (h ∷ hs) [])
