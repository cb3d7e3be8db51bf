-- ===== src/Agentctl/Tap/Range.antt =====
-- What one partition is read for.
use go_ddd.Prelude.{ℕ, suc, ◌≡◌, List, [], ◌∷◌, leb, filter}
use go_ddd.Prelude.Result.{Result, ok, err}
use go_ddd.Prelude.Exec.{Exec}
use go_ddd.Agentctl.{Stored}
use go_ddd.Agentctl.Tap.{Partition, Cluster}

-- The offsets of the messages are consecutive, from the first to the end.
abbrev pub Fills : ℕ → List Stored → ℕ → Type 0
Fills first [] end = first ≡ end
Fills first (m ∷ ms) end = (m.offset ≡ first) × Fills (suc first) ms end

-- The messages at an offset and after it.
abbrev pub since : ℕ → List Stored → List Stored
since at = filter (λ m. leb at m.offset)

-- What a connection answers to a seek and reads: the messages of the log from the offset on, and
-- those that come in meanwhile.
abbrev pub Yields : Cluster → Partition → List Stored → Type 0
Yields c p log = (at : ℕ) → c.messages_from p at ≡ ok (since at log)

module _ {W : Type 0} (f : Stored → Exec W (Unit {0})) where
  unfoldable pub for_next : Result (Unit {0}) × W → Exec W (Unit {0}) → Result (Unit {0}) × W
  for_next (err e, w) rest = (err e, w)
  for_next (ok done, w) rest = rest w

  -- `for each message, in order, up to the first error`
  unfoldable pub for_each : List Stored → Exec W (Unit {0})
  unfolding for_next
  for_each [] w = (ok tt, w)
  for_each (m ∷ ms) w = for_next (f m w) (for_each ms)
