-- ===== src/Agentctl/Consume/Among.antt =====
-- Where a wanted event stands among the lines that consume prints.
use go_ddd.Prelude.{
  zero, suc, ◌-◌, ◌<◌, ◌++◌, take, length, Bool-cases, ℕ, ◌≡◌, refl, ap, ◌∙◌, true, none, List, [],
  ◌∷◌, arith, text_eq, inl, inr, if◌then◌else◌,
}
use go_ddd.Prelude.Text.{Text}
use go_ddd.Prelude.Result.{Result, ok, err}
use go_ddd.EventBus.{Event}
use go_ddd.Agentctl.{Stored, Line, event_line, ConsumeFlags, wanted}
use go_ddd.Agentctl.Consume.{lines_of, verdict}

pub lines_of-found :
    (decode : Text → Result Event) (g : ConsumeFlags) (topic : Text) (s : Stored) (e : Event)
    (before after : List Stored)
    → decode s.value ≡ ok e
    → wanted g.name g.aggregate_id e ≡ true
    → lines_of decode g topic (before ++ s ∷ after)
      ≡ lines_of decode g topic before ++ event_line topic 0 s e ∷ lines_of decode g topic after
lines_of-found decode g topic s e [] after known hit = ground (arith, known, hit)
lines_of-found decode g topic s e (m ∷ before) after known hit =
    go (decode m.value) (lines_of-found decode g topic s e before after known hit)
  where
    rest : List Line
    rest = lines_of decode g topic before ++ event_line topic 0 s e ∷ lines_of decode g topic after

    go :
        (r : Result Event)
        → lines_of decode g topic (before ++ s ∷ after) ≡ rest
        → (elim r [
          | err x ↦ lines_of decode g topic (before ++ s ∷ after)
          | ok x ↦
              if wanted g.name g.aggregate_id x
              then event_line topic 0 m x ∷ lines_of decode g topic (before ++ s ∷ after)
              else lines_of decode g topic (before ++ s ∷ after)
        ])
          ≡ (elim r [
            | err x ↦ lines_of decode g topic before
            | ok x ↦
                if wanted g.name g.aggregate_id x
                then event_line topic 0 m x ∷ lines_of decode g topic before
                else lines_of decode g topic before
          ])
            ++ event_line topic 0 s e ∷ lines_of decode g topic after
    go (err x) ih = ih
    go (ok x) ih = elim (Bool-cases (wanted g.name g.aggregate_id x)) [
      | inl shown ↦ rw shown (ap (λ ls. event_line topic 0 m x ∷ ls) ih)
      | inr hidden ↦ rw hidden ih
    ]

pub take_past :
    (k : ℕ) (xs ys : List Line) (y : Line)
    → length xs < k
    → take k (xs ++ y ∷ ys) ≡ xs ++ y ∷ take (k - suc (length xs)) ys
take_past zero xs ys y low = absurd (omega (arith, low))
take_past (suc k) [] ys y low = let one : k ≡ suc k - 1 = omega arith in ap (λ n. y ∷ take n ys) one
take_past (suc k) (x ∷ xs) ys y low =
    let less : k - suc (length xs) ≡ suc k - suc (suc (length xs)) = omega arith in
    ap (λ ls. x ∷ ls)
      (take_past k xs ys y (omega (arith, low)) ∙ ap (λ n. xs ++ y ∷ take n ys) less)

pub verdict-found :
    (decode : Text → Result Event) (g : ConsumeFlags) (topic : Text) (xs ys : List Line) (y : Line)
    → verdict decode g topic (xs ++ y ∷ ys) ≡ none
verdict-found decode g topic [] ys y = refl
verdict-found decode g topic (x ∷ xs) ys y = refl
