-- ===== src/Agentctl/Tap/Since.antt =====
-- `mark` and then `events`.
use go_ddd.Prelude.{
  ℕ, ◌≡◌, refl, ap, ◌∙◌, Bool, true, false, ◌||◌, Option, some, List, [], ◌∷◌, ◌++◌, arith, text_eq,
  text_beq_iff, Bool-cases, inl, inr, if◌then◌else◌,
}
use go_ddd.Prelude.Int.{ℤ, pos}
use go_ddd.Prelude.Text.{Text}
use go_ddd.Prelude.Result.{Result, ok}
use go_ddd.EventBus.{Event}
use go_ddd.Agentctl.{Stored, Line}
use go_ddd.Agentctl.Tap.{Partition, Cluster, start_at, EventsFlags, line_of}
use go_ddd.Agentctl.Tap.Range.{Fills, since, Yields}
use go_ddd.Agentctl.Tap.Keys.{same_partition, member}

-- The lines that the tap prints of some messages.
abbrev pub lines_of : (Text → Result Event) → EventsFlags → Partition → List Stored → List Line
lines_of decode f p [] = []
lines_of decode f p (m ∷ ms) = line_of f p.topic p.id m (decode m.value) ++ lines_of decode f p ms

-- The cluster `c` at the time of the mark, with the bounds of its partitions, and `c'` at the time
-- of `events`, with the logs of its partitions and what comes in while they are read.
module _ (decode : Text → Result Event) (f : EventsFlags) (c c' : Cluster)
    (ends first' end' : Partition → ℕ) (log later : Partition → List Stored)
    (qs : List Partition) where
  -- The end of a partition at the mark.
  abbrev pub Ended : Partition → Type 0
  Ended p = (n : ℕ) × (c.bounds p ≡ ok (n, ends p))

  -- What the cluster answers for a partition later: its bounds, consecutive offsets between them,
  -- and the messages from any offset on.
  abbrev pub Kept : Partition → Type 0
  Kept p =
      (c'.bounds p ≡ ok (first' p, end' p))
      × Fills (first' p) (log p) (end' p)
      × Yields c' p (log p ++ later p)

  -- Where the tap starts on a partition: at the end that it had, if it was there.
  abbrev pub mark_of : Partition → ℤ
  mark_of p = if member p qs then pos (ends p) else pos 0

  -- What the tap prints: for each partition in turn, if its topic passes, the messages from there
  -- on.
  abbrev pub tapped : List Partition → List Line
  tapped [] = []
  tapped (p ∷ ps) =
      let rest = tapped ps in
      (if f.topic_matches p.topic
        then lines_of decode f p (since (start_at (mark_of p) (first' p)) (log p))
        else [])
      ++ rest

  same-eq : (p q : Partition) → same_partition p q ≡ true → p ≡ q
  same-eq p q h =
      let topics = (text_beq_iff p.topic q.topic).0 (ground (arith, h)) in
      let ids : p.id ≡ q.id = ground (arith, h) in
      ap (λ t. record { topic = t; id = p.id }) topics
      ∙ ap (λ n. record { topic = q.topic; id = n }) ids

  joined :
      (b : Bool) (p q : Partition) (o : Option ℤ)
      → (if b then some (pos (ends q)) else (if same_partition p q then some (pos (ends p)) else o))
        ≡ (if b || same_partition p q then some (pos (ends q)) else o)
  joined true p q o = refl
  joined false p q o = elim (Bool-cases (same_partition p q)) [
    | inl same ↦ rw same (ap (λ x. some (pos (ends x))) (same-eq p q same))
    | inr other ↦ rw other refl
  ]
