-- ===== src/Pagination.antt =====
-- pkg/pagination/pagination.go: the window of a list query.
use go_ddd.Prelude.{
  ℕ, ◌≤◌, ◌≡◌, ap, ◌∙◌, ◌⊎◌, inl, inr, Option, some, List, [], ◌∷◌, arith, ltb, leb, text_eq,
  Bool-cases, if◌then◌else◌,
}
use go_ddd.Prelude.Int.{ℤ, pos, negsuc, leb_ℤ, ltb_ℤ, ◌≤ℤ◌, ◌<ℤ◌}
use go_ddd.Prelude.Text.{Text, codes}
use go_ddd.Prelude.Text.Decimal.{atoi_value}
use go_ddd.Prelude.Map.{Map, get}

abbrev pub default_limit : ℕ
default_limit = 20

abbrev pub max_limit : ℕ
max_limit = 100

pub record Page : Type 0 where
  pub limit : ℤ
  pub offset : ℤ

clamp_limit : ℤ → ℤ
clamp_limit limit =
    let l = if leb_ℤ limit (pos 0) then pos default_limit else limit in
    if ltb_ℤ (pos max_limit) l then pos max_limit else l

-- `New`
unfoldable pub new_page : ℤ → ℤ → Page
unfolding clamp_limit
new_page limit offset = record {
  limit = clamp_limit limit;
  offset = if ltb_ℤ offset (pos 0) then pos 0 else offset;
}

-- `url.Values.Get`: the first value, or the empty text.
first_value : Option (List Text) → Text
first_value (some (v ∷ vs)) = v
first_value _ = []

-- `FromQuery`: the errors of `Atoi` are ignored, its values are not.
unfoldable pub from_query : Map (List Text) → Page
unfolding first_value new_page
from_query q =
    new_page (atoi_value (first_value (get q (codes "limit"))))
      (atoi_value (first_value (get q (codes "offset"))))

-- The result of a list query, for items of any type.
pub record Listing (A : Type 0) : Type 0 where
  pub items : List A
  pub total : ℕ
  pub limit : ℤ
  pub offset : ℤ

-- Whatever is asked for, the page has from 1 to 100 items and starts at the beginning or after it;
-- what lies inside these bounds is kept.
pub new_page-bounds :
    (limit offset : ℤ)
    → (pos 1 ≤ℤ (new_page limit offset).limit)
      × ((new_page limit offset).limit ≤ℤ pos max_limit)
      × (pos 0 ≤ℤ (new_page limit offset).offset)
      × (((new_page limit offset).limit ≡ limit) ⊎ ((limit <ℤ pos 1) ⊎ (pos max_limit <ℤ limit)))
      × (((new_page limit offset).offset ≡ offset) ⊎ (offset <ℤ pos 0))
unfolding new_page clamp_limit
new_page-bounds (pos l) (pos o) = ground arith
new_page-bounds (pos l) (negsuc o) = ground arith
new_page-bounds (negsuc l) (pos o) = ground arith
new_page-bounds (negsuc l) (negsuc o) = ground arith

limit_shape : (limit : ℤ) → (l : ℕ) × (clamp_limit limit ≡ pos l) × (l ≤ max_limit)
unfolding clamp_limit
limit_shape (pos l) = elim (Bool-cases (leb l 0)) [
  | inl low ↦ (default_limit, ground (arith, low), omega arith)
  | inr more ↦ elim (Bool-cases (ltb max_limit l)) [
    | inl high ↦ (max_limit, ground (arith, more, high), omega arith)
    | inr fits ↦ (l, ground (arith, more, fits), ground (arith, fits))
  ]
]
limit_shape (negsuc l) = (default_limit, ground arith, omega arith)

offset_shape : (offset : ℤ) → (o : ℕ) × ((if ltb_ℤ offset (pos 0) then pos 0 else offset) ≡ pos o)
offset_shape (pos o) = (o, ground arith)
offset_shape (negsuc o) = (0, ground arith)

-- A clamped page is written with natural numbers.
pub new_page-shape :
    (limit offset : ℤ)
    → (l : ℕ) × (o : ℕ) × (new_page limit offset ≡ record { limit = pos l; offset = pos o })
      × (l ≤ max_limit)
unfolding new_page
new_page-shape limit offset =
    let (l, e, small) = limit_shape limit in
    let (o, e') = offset_shape offset in
    (
      l,
      o,
      ap (λ x. record { limit = x; offset = if ltb_ℤ offset (pos 0) then pos 0 else offset }) e
          ∙ ap (λ y. record { limit = pos l; offset = y }) e',
      small,
    )
