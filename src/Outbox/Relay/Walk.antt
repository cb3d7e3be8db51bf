-- ===== src/Outbox/Relay/Walk.antt =====
-- One pass of the relay, seen as one walk over the messages in their order.
use go_ddd.Prelude.{
  ℕ, zero, suc, ◌+◌, ◌≡◌, sym, ◌≢◌, inl, inr, Option, none, some, List, [], ◌∷◌, ◌++◌, append_assoc,
  arith, text_eq, text_beq_iff, text_beq_refl, take, All, All-append, Bool-cases, if◌then◌else◌,
}
use go_ddd.Prelude.Int.{pos, int_succ}
use go_ddd.Prelude.Text.{Text}
use go_ddd.Prelude.Map.{Map, get, put}
use go_ddd.Prelude.Result.{Error}
use go_ddd.Shared.{Time, error_text}
use go_ddd.EventBus.{Event}
use go_ddd.Outbox.{Message, Store, published, failed, is_published, mark_published, mark_failed}
use go_ddd.Outbox.Consistent.{keys, Distinct, Own, IsConsistent}
use go_ddd.Outbox.Fetch.{unpublished, fetch_pending-first}
use go_ddd.Outbox.Relay.{Pass, round, drain_loop, drain}

-- A message after the bus has answered.
abbrev pub settle : Time → Message → Option Error → Message
settle now m none = record m { status = published; published_at = some now; last_error = [] }
settle now m (some e) = record m {
  status = failed;
  attempts = int_succ m.attempts;
  last_error = error_text e;
}

abbrev tally : Option Error → ℕ
tally none = 1
tally (some e) = 0

abbrev hold : {B : Type 0} → Text × Message → ℕ → Map Message × B × ℕ → Map Message × B × ℕ
hold e n (m, b, c) = (e ∷ m, b, n + c)

module _ {B : Type 0} (send : Event → B → Option Error × B) (now : Time) where
  -- From the oldest on, up to `budget` messages that are not published are sent.
  unfoldable pub walk : ℕ → Map Message → B → Map Message × B × ℕ
  walk budget [] b = ([], b, 0)
  walk zero (e ∷ m) b = (e ∷ m, b, 0)
  walk (suc n) ((k, x) ∷ m) b =
      let skipped = hold (k, x) 0 (walk (suc n) m b) in
      let (r, b') = send x.event b in
      let sent = hold (k, settle now x r) (tally r) (walk n m b') in
      if is_published x.status then skipped else sent

  -- No key of `rest` stands in `pre`.
  abbrev Apart : Map Message → Map Message → Type 0
  Apart pre = All (λ e. All (λ d. d.0 ≢ e.0) pre)

  Apart-nil : (rest : Map Message) → Apart [] rest
  Apart-nil [] = tt
  Apart-nil (e ∷ rest) = (tt, Apart-nil rest)

  Apart-snoc :
      (pre rest : Map Message) (k : Text) (x : Message)
      → Apart pre rest
      → All (λ j. j ≢ k) (keys rest)
      → Apart (pre ++ (k, x) ∷ []) rest
  Apart-snoc pre [] k x a d = tt
  Apart-snoc pre ((j, y) ∷ rest) k x a d = (
    All-append (λ e. e.0 ≢ j) pre ((k, x) ∷ []) a.0 ((λ p. d.0 (sym p)), tt),
    Apart-snoc pre rest k x a.1 d.1,
  )

  get_at :
      (pre rest : Map Message) (k : Text) (x : Message)
      → All (λ e. e.0 ≢ k) pre
      → get (pre ++ (k, x) ∷ rest) k ≡ some x
  unfolding get
  get_at [] rest k x a = ground (arith, text_beq_refl k)
  get_at ((j, y) ∷ pre) rest k x a = ground (arith, text_beq_iff j k, get_at pre rest k x a.1)

  put_at :
      (pre rest : Map Message) (k : Text) (x y : Message)
      → All (λ e. e.0 ≢ k) pre
      → put (pre ++ (k, x) ∷ rest) k y ≡ pre ++ (k, y) ∷ rest
  unfolding put
  put_at [] rest k x y a = ground (arith, text_beq_refl k)
  put_at ((j, z) ∷ pre) rest k x y a = ground (arith, text_beq_iff j k, put_at pre rest k x y a.1)

  -- The pass so far: `pre` is behind it and `rest` before it.
  abbrev at : List Text → Map Message → B → ℕ → Pass B
  at order m b c = record { store = record { order = order; by_id = m }; bus = b; count = c }

  round-at :
      (order : List Text) (pre rest : Map Message) (k : Text) (x : Message) (b b' : B) (c : ℕ)
      (r : Option Error)
      → All (λ e. e.0 ≢ k) pre
      → x.event.id ≡ k
      → round send now x (at order (pre ++ (k, x) ∷ rest) b c) (r, b')
        ≡ at order (pre ++ (k, settle now x r) ∷ rest) b' (c + tally r)
  unfolding round mark_published
  round-at order pre rest k x b b' c none a own =
      ground (arith, get_at pre rest k x a, put_at pre rest k x (settle now x none) a)
  round-at order pre rest k x b b' c (some e) a own =
      unfold mark_failed in
      ground (arith, get_at pre rest k x a, put_at pre rest k x (settle now x (some e)) a)

  drain_loop-walk :
      (order : List Text) (pre rest : Map Message) (b : B) (c budget : ℕ)
      → Apart pre rest
      → Distinct (keys rest)
      → All Own rest
      → drain_loop send now (take budget (unpublished rest)) (at order (pre ++ rest) b c)
        ≡ at order
            (pre ++ (walk budget rest b).0)
            (walk budget rest b).1
            (c + (walk budget rest b).2)
  unfolding drain_loop walk
  drain_loop-walk order pre [] b c zero a d o = ground arith
  drain_loop-walk order pre [] b c (suc n) a d o = ground arith
  drain_loop-walk order pre ((k, x) ∷ rest) b c zero a d o = ground arith
  drain_loop-walk order pre ((k, x) ∷ rest) b c (suc n) a d o =
      elim (Bool-cases (is_published x.status)) [
        | inl skip ↦ rw skip (
            ground (
              arith,
              drain_loop-walk order (pre ++ (k, x) ∷ []) rest b c (suc n)
                  (Apart-snoc pre rest k x a.1 d.0) d.1 o.1,
              append_assoc pre ((k, x) ∷ []) rest,
              append_assoc pre ((k, x) ∷ []) (walk (suc n) rest b).0,
            ))
        | inr sent ↦
            let r = (send x.event b).0 in
            let b' = (send x.event b).1 in
            let y = settle now x r in
            rw sent (
              ground (
                arith,
                round-at order pre rest k x b b' c r a.0 o.0,
                drain_loop-walk order (pre ++ (k, y) ∷ []) rest b' (c + tally r) n
                    (Apart-snoc pre rest k y a.1 d.0) d.1 o.1,
                append_assoc pre ((k, y) ∷ []) rest,
                append_assoc pre ((k, y) ∷ []) (walk n rest b').0,
              ))
      ]

  -- On a consistent store one `drain` with a positive batch is one walk: it delivers in the order
  -- of insertion, marks each message by the answer of the bus, counts the deliveries, and touches
  -- nothing else.
  pub drain-walk :
      (s : Store) (n : ℕ) (b : B)
      → IsConsistent s
      → drain send now (pos (suc n)) s b
        ≡ some (
            at s.order
              (walk (suc n) s.by_id b).0
              (walk (suc n) s.by_id b).1
              (walk (suc n) s.by_id b).2)
  unfolding drain
  drain-walk s n b c =
      rw (fetch_pending-first s (pos (suc n)) c, drain)
        (ground (
          arith,
          drain_loop-walk s.order [] s.by_id b 0 (suc n) (Apart-nil s.by_id) c.distinct c.own,
        ))
