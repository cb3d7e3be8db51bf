-- ===== src/Migrate/Pending.antt =====
-- The plan of an upward run, and what is left after it.
use go_ddd.Prelude.{
  ℕ, zero, suc, ◌+◌, ◌≡◌, refl, sym, ap, ◌∙◌, ◌⊎◌, inl, inr, Bool, true, false, ◌||◌, not, Option,
  none, some, List, [], ◌∷◌, ◌++◌, append_assoc, append-nil, arith, text_eq, text_beq,
  text_beq_refl, length, take, All, filter, Bool-cases,
}
use go_ddd.Prelude.Int.{ℤ, pos, negsuc, ltb_ℤ}
use go_ddd.Prelude.Text.{Text}
use go_ddd.Prelude.Result.{Error, Result, ok, err}
use go_ddd.Migrate.{
  Migration, up, is_applied, up_loop, pending_up, apply_one, applied_next, apply_all,
}

abbrev pub waits : List Text → Migration → Bool
waits applied m = not (is_applied applied m.version)

-- A cap that is not positive is no cap.
abbrev pub first : ℤ → List Migration → List Migration
first (pos (suc n)) ms = take (suc n) ms
first _ ms = ms

length_snoc : (ms : List Migration) (m : Migration) → length (ms ++ m ∷ []) ≡ suc (length ms)
length_snoc [] m = refl
length_snoc (x ∷ ms) m = ap suc (length_snoc ms m)

up_capped :
    (applied : List Text) (n room : ℕ) (ms plan : List Migration)
    → length plan + suc room ≡ suc n
    → up_loop applied (pos (suc n)) ms plan ≡ plan ++ take (suc room) (filter (waits applied) ms)
unfolding up_loop
up_capped applied n room [] plan h = rw append-nil
up_capped applied n zero (m ∷ ms) plan h =
    ground (arith, length_snoc plan m, up_capped applied n zero ms plan h)
up_capped applied n (suc room) (m ∷ ms) plan h = ground (
  arith,
  length_snoc plan m,
  up_capped applied n (suc room) ms plan h,
  up_capped applied n room ms (plan ++ m ∷ []),
  append_assoc plan (m ∷ []) (take (suc room) (filter (waits applied) ms)),
)

up_all :
    (applied : List Text) (steps : ℤ) (ms plan : List Migration)
    → ltb_ℤ (pos 0) steps ≡ false
    → up_loop applied steps ms plan ≡ plan ++ filter (waits applied) ms
unfolding up_loop
up_all applied steps [] plan h = rw append-nil
up_all applied steps (m ∷ ms) plan h = ground (
  arith,
  h,
  up_all applied steps ms plan h,
  up_all applied steps ms (plan ++ m ∷ []) h,
  append_assoc plan (m ∷ []) (filter (waits applied) ms),
)

-- The plan of a run upwards has the migrations that are not applied, in the order of their list, as
-- many as the cap allows.
pub pending_up-first :
    (ms : List Migration) (applied : List Text) (steps : ℤ)
    → pending_up ms applied steps ≡ first steps (filter (waits applied) ms)
unfolding pending_up
pending_up-first ms applied (pos zero) = up_all applied (pos 0) ms [] (ground arith)
pending_up-first ms applied (pos (suc n)) = up_capped applied n n ms [] (omega arith)
pending_up-first ms applied (negsuc n) = up_all applied (negsuc n) ms [] (ground arith)

pub is_applied-append :
    (ws : List Text) (v w : Text) → is_applied (ws ++ v ∷ []) w ≡ (is_applied ws w || text_beq v w)
unfolding is_applied
is_applied-append [] v w = ground arith
is_applied-append (x ∷ ws) v w = ground (arith, is_applied-append ws v w)

-- What was applied stays so.
abbrev Grows : List Text → List Text → Type 0
Grows a b = (v : Text) → is_applied a v ≡ true → is_applied b v ≡ true

grown : (a : List Text) (v : Text) → Grows a (a ++ v ∷ []) × (is_applied (a ++ v ∷ []) v ≡ true)
grown a v = (
  λ w h. ground (arith, h, is_applied-append a v w),
  ground (arith, is_applied-append a v v, text_beq_refl v),
)

pub apply_one-up :
    (execute : Text → Option Error) (m : Migration) (a b : List Text)
    → apply_one execute up m a ≡ ok b
    → b ≡ a ++ m.version ∷ []
unfolding apply_one
apply_one-up execute m a b h = ground (arith, h)

pub Result-cases :
    (r : Result (List Text)) → ((e : Error) × (r ≡ err e)) ⊎ ((a : List Text) × (r ≡ ok a))
Result-cases (ok a) = inr (a, refl)
Result-cases (err e) = inl (e, refl)

applied_next-err :
    (e : Error) (a : List Text) (rest : List Text → Option Error × List Text)
    → applied_next (err e) a rest ≡ (some e, a)
unfolding applied_next
applied_next-err e a rest = refl

first_nil : (steps : ℤ) → first steps [] ≡ []
first_nil (pos zero) = refl
first_nil (pos (suc n)) = refl
first_nil (negsuc n) = refl

apply_all-Grows :
    (execute : Text → Option Error) (ms : List Migration) (a b : List Text)
    → apply_all execute up ms a ≡ (none, b)
    → Grows a b × All (λ m. is_applied b m.version ≡ true) ms
unfolding apply_all applied_next
apply_all-Grows execute [] a b h = (λ v k. rw (ap (λ p. p.1) (sym h)) k, tt)
apply_all-Grows execute (m ∷ ms) a b h = elim (Result-cases (apply_one execute up m a)) [
  | inl (e, one) ↦ absurd (
      ground (
        arith,
        sym (ap (λ r. applied_next r a (apply_all execute up ms)) one) ∙ h,
        applied_next-err e a (apply_all execute up ms),
      ))
  | inr (a', one) ↦
      let (more, rest) =
        apply_all-Grows execute ms a' b
          (sym (ap (λ r. applied_next r a (apply_all execute up ms)) one) ∙ h) in
      let (kept, there) = grown a m.version in
      let same = apply_one-up execute m a a' one in
      (λ v k. more v (rw same (kept v k)), (more m.version (rw same there), rest))
]

filter_none :
    (p : Migration → Bool) (ms : List Migration) → All (λ m. p m ≡ false) ms → filter p ms ≡ []
filter_none p [] h = refl
filter_none p (m ∷ ms) h = rw h.0 (filter_none p ms h.1)

All-applied :
    (a b : List Text) (ms : List Migration)
    → Grows a b
    → All (λ m. is_applied b m.version ≡ true) (filter (waits a) ms)
    → All (λ m. waits b m ≡ false) ms
All-applied a b [] g h = tt
All-applied a b (m ∷ ms) g h = elim (Bool-cases (is_applied a m.version)) [
  | inl before ↦ (ap not (g m.version before), All-applied a b ms g (rw before at h))
  | inr open_one ↦ let h' = rw open_one at h in (ap not h'.0, All-applied a b ms g h'.1)
]

-- When a run upwards without a cap succeeds, nothing is pending afterwards, whatever the cap of the
-- next run.
pub apply_all-pending_up :
    (execute : Text → Option Error) (ms : List Migration) (applied applied' : List Text) (steps : ℤ)
    → apply_all execute up (pending_up ms applied (pos 0)) applied ≡ (none, applied')
    → pending_up ms applied' steps ≡ []
apply_all-pending_up execute ms applied applied' steps h =
    let (kept, done) = apply_all-Grows execute (filter (waits applied) ms) applied applied' (
      ap (λ plan. apply_all execute up plan applied) (sym (pending_up-first ms applied (pos 0)))
      ∙ h) in
    let empty = filter_none (waits applied') ms (All-applied applied applied' ms kept done) in
    pending_up-first ms applied' steps ∙ (ap (first steps) empty ∙ first_nil steps)
