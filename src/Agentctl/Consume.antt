-- ===== src/Agentctl/Consume.antt =====
-- What `agentctl kafka consume` prints.
pub mod Among
use go_ddd.Prelude.{
  ℕ, zero, suc, ◌+◌, ◌≡◌, refl, sym, ap, ◌∙◌, ◌⊎◌, inl, inr, true, false, Option, none, some, List,
  [], ◌∷◌, ◌++◌, map, append_assoc, append-nil, arith, length, take, Bool-cases, if◌then◌else◌,
  text_eq,
}
use go_ddd.Prelude.Int.{ℤ, pos, ltb_ℤ}
use go_ddd.Prelude.Text.{Text, codes}
use go_ddd.Prelude.Result.{Error, Result, ok, err, other_error}
use go_ddd.EventBus.{Event}
use go_ddd.Agentctl.{
  Stored, Line, event_line, ConsumeFlags, Fetch, fetched, expires, Printed, wanted, consume_topic,
  shown, no_match, consume_loop, consume_by, run_consume,
}

module _ (decode : Text → Result Event) (f : ConsumeFlags) (topic : Text) where
  -- The lines of the messages that hold a wanted event, in order.
  abbrev pub lines_of : List Stored → List Line
  lines_of [] = []
  lines_of (m ∷ ms) = elim (decode m.value) [
    | err e ↦ lines_of ms
    | ok e ↦
        if wanted f.name f.aggregate_id e then event_line topic 0 m e ∷ lines_of ms else lines_of ms
  ]

  abbrev pub verdict : List Line → Option Error
  verdict [] = some (other_error (codes "no matching message"))
  verdict (l ∷ ls) = none

  shown-lines_of :
      (m : Stored) (ms : List Stored)
      → lines_of (m ∷ ms) ≡ shown decode f topic m (decode m.value) ++ lines_of ms
  unfolding shown
  shown-lines_of m ms = ground arith

  shown_short :
      (m : Stored) (r : Result Event)
      → (shown decode f topic m r ≡ []) ⊎ ((l : Line) × (shown decode f topic m r ≡ l ∷ []))
  unfolding shown
  shown_short m (err e) = inl refl
  shown_short m (ok e) = elim (Bool-cases (wanted f.name f.aggregate_id e)) [
    | inl yes_it_is ↦ inr (event_line topic 0 m e, rw yes_it_is refl)
    | inr other ↦ inl (rw other refl)
  ]

  loop_stop :
      (m : Stored) (fs : List Fetch) (matched : ℕ) (out : List Line)
      → ltb_ℤ (pos matched) f.count ≡ false
      → consume_loop decode f topic (fetched m ∷ fs) matched out
        ≡ record { lines = out; error = no_match decode f topic matched }
  unfolding consume_loop
  loop_stop m fs matched out full = rw (full, consume_loop) refl

  loop_skip :
      (m : Stored) (fs : List Fetch) (matched : ℕ) (out : List Line)
      → ltb_ℤ (pos matched) f.count ≡ true
      → shown decode f topic m (decode m.value) ≡ []
      → consume_loop decode f topic (fetched m ∷ fs) matched out
        ≡ consume_loop decode f topic fs matched out
  unfolding consume_loop
  loop_skip m fs matched out more nothing = rw (more, nothing, consume_loop) refl

  loop_print :
      (m : Stored) (l : Line) (fs : List Fetch) (matched : ℕ) (out : List Line)
      → ltb_ℤ (pos matched) f.count ≡ true
      → shown decode f topic m (decode m.value) ≡ l ∷ []
      → consume_loop decode f topic (fetched m ∷ fs) matched out
        ≡ consume_loop decode f topic fs (suc matched) (out ++ l ∷ [])
  unfolding consume_loop
  loop_print m l fs matched out more line = rw (more, line, consume_loop) refl

  full : (matched : ℕ) (c : ℤ) → c ≡ pos (matched + 0) → ltb_ℤ (pos matched) c ≡ false
  full matched c h = ground arith

  open_yet : (matched k : ℕ) (c : ℤ) → c ≡ pos (matched + suc k) → ltb_ℤ (pos matched) c ≡ true
  open_yet matched k c h = ground arith

  -- The state of the loop when it has printed these lines more.
  abbrev after : ℕ → List Line → List Line → Printed
  after matched out ls = record {
    lines = out ++ ls;
    error = no_match decode f topic (matched + length ls);
  }

  after_none :
      (matched : ℕ) (out : List Line)
      → record { lines = out; error = no_match decode f topic matched } ≡ after matched out []
  after_none matched out =
      ap (λ l. record { lines = l; error = no_match decode f topic matched }) (sym (append-nil out))
      ∙ ap (λ n. record { lines = out ++ []; error = no_match decode f topic n }) (omega arith)

  after_one :
      (matched : ℕ) (out : List Line) (l : Line) (ls : List Line)
      → after (suc matched) (out ++ l ∷ []) ls ≡ after matched out (l ∷ ls)
  after_one matched out l ls =
      ap (λ x. record { lines = x; error = no_match decode f topic (suc matched + length ls) })
        (append_assoc out (l ∷ []) ls)
      ∙ ap (λ n. record { lines = out ++ l ∷ ls; error = no_match decode f topic n }) (omega arith)

  consume_loop-take :
      (k : ℕ) (ms : List Stored) (rest : List Fetch) (matched : ℕ) (out : List Line)
      → f.count ≡ pos (matched + k)
      → consume_loop decode f topic (map fetched ms ++ expires ∷ rest) matched out
        ≡ after matched out (take k (lines_of ms))
  consume_loop-take zero [] rest matched out count = unfold consume_loop in after_none matched out
  consume_loop-take (suc k) [] rest matched out count =
      unfold consume_loop in after_none matched out
  consume_loop-take zero (m ∷ ms) rest matched out count =
      loop_stop m (map fetched ms ++ expires ∷ rest) matched out (full matched f.count count)
      ∙ after_none matched out
  consume_loop-take (suc k) (m ∷ ms) rest matched out count =
      let more = open_yet matched k f.count count in
      let fs = map fetched ms ++ expires ∷ rest in
      elim (shown_short m (decode m.value)) [
        | inl nothing ↦
            loop_skip m fs matched out more nothing
            ∙ consume_loop-take (suc k) ms rest matched out count
            ∙ ap (λ ls. after matched out (take (suc k) ls))
                (sym (shown-lines_of m ms ∙ ap (λ x. x ++ lines_of ms) nothing))
        | inr (l, line) ↦
            loop_print m l fs matched out more line
            ∙ consume_loop-take k ms rest (suc matched) (out ++ l ∷ [])
                (count ∙ ap pos (omega arith))
            ∙ after_one matched out l (take k (lines_of ms))
            ∙ ap (λ ls. after matched out (take (suc k) ls))
                (sym (shown-lines_of m ms ∙ ap (λ x. x ++ lines_of ms) line))
      ]

  zero_add : (n : ℕ) → 0 + n ≡ n
  zero_add n = omega arith

  no_match-verdict : (ls : List Line) → no_match decode f topic (0 + length ls) ≡ verdict ls
  unfolding no_match
  no_match-verdict [] = refl
  no_match-verdict (l ∷ ls) = ap (no_match decode f topic) (zero_add (suc (length ls)))

-- If the partition yields these messages until the timeout, then consume prints the first of those
-- that hold a wanted event, as many as -count says, in their order, each once, and skips the
-- others. It fails exactly when it has printed nothing.
pub run_consume-take :
    (decode : Text → Result Event) (f : ConsumeFlags) (fetches : Text → List Fetch) (topic : Text)
    (k : ℕ) (ms : List Stored) (rest : List Fetch)
    → consume_topic f ≡ ok topic
    → f.count ≡ pos k
    → fetches topic ≡ map fetched ms ++ expires ∷ rest
    → let ls = take k (lines_of decode f topic ms) in
      run_consume decode f fetches ≡ record { lines = ls; error = verdict decode f topic ls }
unfolding run_consume consume_by
run_consume-take decode f fetches topic k ms rest chosen count yields =
    let ls = take k (lines_of decode f topic ms) in
    rw (chosen, yields)
      (consume_loop-take decode f topic k ms rest 0 [] (count ∙ ap pos (omega arith))
        ∙ ap (λ e. record { lines = ls; error = e }) (no_match-verdict decode f topic ls))
