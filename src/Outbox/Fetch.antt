-- ===== src/Outbox/Fetch.antt =====
-- What `FetchPending` returns.
use go_ddd.Prelude.{
  ℕ, zero, suc, ◌+◌, ◌≡◌, refl, ap, ◌≢◌, ◌⊎◌, inl, inr, Bool, not, some, List, [], ◌∷◌, ◌++◌,
  append_assoc, append-nil, arith, text_eq, text_beq_iff, text_beq_refl, length, take, All,
  if◌then◌else◌,
}
use go_ddd.Prelude.Int.{ℤ, pos, negsuc}
use go_ddd.Prelude.Text.{Text}
use go_ddd.Prelude.Map.{Map, get}
use go_ddd.Outbox.{Message, Store, is_published, fetch_loop, fetch_pending}
use go_ddd.Outbox.Consistent.{keys, Distinct, IsConsistent}

-- The messages still to be delivered, in the order of insertion.
abbrev pub is_open : Message → Bool
is_open m = not (is_published m.status)

abbrev pub unpublished : Map Message → List Message
unpublished [] = []
unpublished ((k, m) ∷ rest) =
    let ms = unpublished rest in if is_published m.status then ms else m ∷ ms

-- A limit that is not positive is no limit.
abbrev pub first : ℤ → List Message → List Message
first (pos (suc n)) xs = take (suc n) xs
first _ xs = xs

-- Each entry is what its key finds.
abbrev pub Finds : Map Message → Map Message → Type 0
Finds m = All (λ e. get m e.0 ≡ some e.1)

Finds-tail :
    (j : Text) (y : Message) (m rest : Map Message)
    → All (λ k. k ≢ j) (keys rest)
    → Finds m rest
    → Finds ((j, y) ∷ m) rest
unfolding get
Finds-tail j y m [] a f = tt
Finds-tail j y m ((k, x) ∷ rest) a f =
    (ground (arith, text_beq_iff j k, a.0, f.0), Finds-tail j y m rest a.1 f.1)

pub Finds-self : (m : Map Message) → Distinct (keys m) → Finds m m
unfolding get
Finds-self [] d = tt
Finds-self ((k, x) ∷ m) d =
    (ground (arith, text_beq_refl k), Finds-tail k x m m d.0 (Finds-self m d.1))

length_snoc : (xs : List Message) (x : Message) → length (xs ++ x ∷ []) ≡ suc (length xs)
length_snoc [] x = refl
length_snoc (y ∷ ys) x = ap suc (length_snoc ys x)

fetch_bounded :
    (m rest : Map Message) (out : List Message) (n room : ℕ)
    → Finds m rest
    → length out + suc room ≡ suc n
    → fetch_loop m (pos (suc n)) (keys rest) out ≡ some (out ++ take (suc room) (unpublished rest))
unfolding fetch_loop
fetch_bounded m [] out n room f h = rw append-nil
fetch_bounded m ((k, x) ∷ rest) out n zero f h =
    rw (f.0, fetch_loop) (ground (arith, length_snoc out x, fetch_bounded m rest out n zero f.1 h))
fetch_bounded m ((k, x) ∷ rest) out n (suc room) f h =
    rw (f.0, fetch_loop)
      (ground (
        arith,
        length_snoc out x,
        fetch_bounded m rest out n (suc room) f.1 h,
        fetch_bounded m rest (out ++ x ∷ []) n room f.1,
        append_assoc out (x ∷ []) (take (suc room) (unpublished rest)),
      ))

fetch_unbounded :
    (m rest : Map Message) (out : List Message) (limit : ℤ)
    → Finds m rest
    → (limit ≡ pos 0) ⊎ ((n : ℕ) × (limit ≡ negsuc n))
    → fetch_loop m limit (keys rest) out ≡ some (out ++ unpublished rest)
unfolding fetch_loop
fetch_unbounded m [] out limit f h = rw append-nil
fetch_unbounded m ((k, x) ∷ rest) out limit f h =
    rw (f.0, fetch_loop)
      (ground (
        arith,
        fetch_unbounded m rest out limit f.1 h,
        fetch_unbounded m rest (out ++ x ∷ []) limit f.1 h,
        append_assoc out (x ∷ []) (unpublished rest),
      ))

-- The oldest messages that are not published, failed ones included, as many as the limit allows;
-- there is no nil message to panic on.
pub fetch_pending-first :
    (s : Store) (limit : ℤ)
    → IsConsistent s
    → fetch_pending s limit ≡ some (first limit (unpublished s.by_id))
unfolding fetch_pending
fetch_pending-first s (pos zero) c =
    rw c.listed
      (fetch_unbounded s.by_id s.by_id [] (pos 0) (Finds-self s.by_id c.distinct) (inl refl))
fetch_pending-first s (pos (suc n)) c =
    rw c.listed (fetch_bounded s.by_id s.by_id [] n n (Finds-self s.by_id c.distinct) (omega arith))
fetch_pending-first s (negsuc n) c =
    rw c.listed (
      fetch_unbounded s.by_id s.by_id [] (negsuc n) (Finds-self s.by_id c.distinct) (inr (n, refl)))
