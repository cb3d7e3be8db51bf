-- ===== src/Prelude/Map.antt =====
-- Go's maps with string keys, as association lists with one entry for each key.
use mathlib.Core.Path.{◌≡◌, refl}
use mathlib.Core.Logic.{◌≢◌}
use mathlib.Core.Option.{Option, none, some}
use mathlib.Core.List.{List, [], ◌∷◌}
use native.Mathlib.Omega.{arith}
use Prim.Native.Nat.{ℕ}
use go_ddd.Prelude.Tests.{text_beq, text_beq_iff, if◌then◌else◌}

abbrev pub Map {ℓ} : Type ℓ → Type ℓ
Map V = List (List ℕ × V)

module _ {ℓ} {V : Type ℓ} where
  -- `v, ok := m[k]`
  unfoldable pub get : Map V → List ℕ → Option V
  get [] k = none
  get ((j, v) ∷ m) k = if text_beq j k then some v else get m k

  -- `m[k] = v`: a key that is there keeps its place
  unfoldable pub put : Map V → List ℕ → V → Map V
  put [] k v = (k, v) ∷ []
  put ((j, w) ∷ m) k v = if text_beq j k then (j, v) ∷ m else (j, w) ∷ put m k v

  -- `delete(m, k)`
  unfoldable pub delete : Map V → List ℕ → Map V
  delete [] k = []
  delete ((j, v) ∷ m) k = let rest = delete m k in if text_beq j k then rest else (j, v) ∷ rest

  -- The maps agree at every other key.
  abbrev pub SameBut : List ℕ → Map V → Map V → Type ℓ
  SameBut key before after = (k : List ℕ) → key ≢ k → get after k ≡ get before k

  pub get-put :
      (m : Map V) (k j : List ℕ) (v : V)
      → get (put m k v) j ≡ (if text_beq k j then some v else get m j)
  unfolding get put
  get-put [] k j v = refl
  get-put ((i, w) ∷ m) k j v =
      ground (arith, text_beq_iff k j, text_beq_iff i k, text_beq_iff i j, get-put m k j v)

  pub get-delete :
      (m : Map V) (k j : List ℕ) → get (delete m k) j ≡ (if text_beq k j then none else get m j)
  unfolding get delete
  get-delete [] k j = ground arith
  get-delete ((i, w) ∷ m) k j =
      ground (arith, text_beq_iff k j, text_beq_iff i k, text_beq_iff i j, get-delete m k j)

pub ruleset map_laws = (get-put, get-delete)
