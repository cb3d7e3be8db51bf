-- ===== src/Customer/ReadModel/Paging.antt =====
-- The list of the read model: its order and its pages.
use go_ddd.Prelude.{
  ℕ, zero, suc, ◌+◌, ◌≤◌, min, ◌≡◌, refl, sym, ap, subst, ◌∙◌, ◌≢◌, inl, inr, true, false, some,
  List, [], ◌∷◌, arith, leb, text_eq, length, take, drop, All, Bool-cases,
}
use mathlib.Core.List.{Permᴰ}
use go_ddd.Prelude.Int.{pos, max_int}
use go_ddd.Prelude.Text.{text_ltb_irrefl, text_ltb_trans, text_ltb_total}
use go_ddd.Prelude.Result.{ok}
use go_ddd.Pagination.{Page, max_limit}
use go_ddd.Customer.ReadModel.{
  Row, row_less, insert, sort_rows, list_rows, slice, window, listing, list_table, database_slice,
}

less_trans : (a b c : Row) → row_less a b ≡ true → row_less b c ≡ true → row_less a c ≡ true
unfolding row_less
less_trans a b c h k = ground (arith, h, k, text_ltb_trans a.id b.id c.id)

less_total : (a b : Row) → a.id ≢ b.id → row_less a b ≡ false → row_less b a ≡ true
unfolding row_less
less_total a b ne h = ground (arith, h, text_ltb_total a.id b.id ne)

less_irrefl : (a : Row) → row_less a a ≡ false
unfolding row_less
less_irrefl a = ground (arith, text_ltb_irrefl a.id)

less_asym : (a b : Row) → row_less a b ≡ true → row_less b a ≡ false
less_asym a b h = ground (arith, h, less_trans a b a h, less_irrefl a)

insert_comm :
    (x y : Row) (zs : List Row) → x.id ≢ y.id → insert x (insert y zs) ≡ insert y (insert x zs)
unfolding insert
insert_comm x y [] ne = ground (arith, less_total x y ne, less_asym x y, less_asym y x)
insert_comm x y (z ∷ zs) ne = ground (
  arith,
  less_total x y ne,
  less_asym x y,
  less_asym y x,
  less_trans x y z,
  less_trans y x z,
  less_trans z x y,
  less_trans z y x,
  insert_comm x y zs ne,
)

-- No two rows have the same id.
abbrev pub Apart : List Row → Type 0
Apart [] = Unit
Apart (x ∷ xs) = All (λ y. x.id ≢ y.id) xs × Apart xs

All-perm : (P : Row → Type 0) {xs ys : List Row} → Permᴰ xs ys → All P xs → All P ys
All-perm P Permᴰ.nil h = h
All-perm P (Permᴰ.cons e p) h = (subst P e h.0, All-perm P p h.1)
All-perm P (Permᴰ.swap e e') h = (subst P e' h.1.0, (subst P e h.0, h.1.1))
All-perm P (Permᴰ.trans p q) h = All-perm P q (All-perm P p h)

sort_perm : {xs ys : List Row} → Permᴰ xs ys → Apart xs → Apart ys × (sort_rows xs ≡ sort_rows ys)
unfolding sort_rows
sort_perm Permᴰ.nil h = (h, refl)
sort_perm (Permᴰ.cons {a} {b} {l₁} {l₂} e p) h =
    let (h', same) = sort_perm p h.1 in
    let apart = All-perm (λ y. a.id ≢ y.id) p h.0 in
    (
      (subst (λ r. All (λ y. r.id ≢ y.id) l₂) e apart, h'),
      ap (insert a) same ∙ ap (λ r. insert r (sort_rows l₂)) e,
    )
sort_perm (Permᴰ.swap {a} {b} {a'} {b'} {l} e e') h =
    let apart : Apart (b ∷ a ∷ l) = ((λ q. h.0.0 (sym q), h.1.0), (h.0.1, h.1.1)) in
    (
      subst (λ r. Apart (a' ∷ r ∷ l)) e (subst (λ r. Apart (r ∷ a ∷ l)) e' apart),
      insert_comm a b (sort_rows l) h.0.0
          ∙ ap (λ r. insert r (insert a (sort_rows l))) e'
          ∙ ap (λ r. insert a' (insert r (sort_rows l))) e,
    )
sort_perm (Permᴰ.trans p q) h =
    let (h', same) = sort_perm p h in let (h'', same') = sort_perm q h' in (h'', same ∙ same')

-- If the rows have different ids, the list does not depend on the order in which the map yields
-- them.
pub list_rows-perm :
    (xs ys : List Row) (page : Page)
    → Permᴰ xs ys
    → Apart xs
    → list_rows xs page ≡ list_rows ys page
unfolding list_rows
list_rows-perm xs ys page p h = ap (λ all. listing all page) (sort_perm p h).1

length-insert : (x : Row) (ys : List Row) → length (insert x ys) ≡ suc (length ys)
unfolding insert
length-insert x [] = refl
length-insert x (y ∷ ys) = ground (arith, length-insert x ys)

length-sort_rows : (xs : List Row) → length (sort_rows xs) ≡ length xs
unfolding sort_rows
length-sort_rows [] = refl
length-sort_rows (x ∷ xs) = length-insert x (sort_rows xs) ∙ ap suc (length-sort_rows xs)

drop_beyond : {A : Type 0} (n : ℕ) (xs : List A) → length xs ≤ n → drop n xs ≡ []
drop_beyond zero [] h = refl
drop_beyond zero (x ∷ xs) h = absurd (omega arith)
drop_beyond (suc n) [] h = refl
drop_beyond (suc n) (x ∷ xs) h = drop_beyond n xs (omega arith)

drop-min : {A : Type 0} (n : ℕ) (xs : List A) → drop (min n (length xs)) xs ≡ drop n xs
drop-min n xs = elim (Bool-cases (leb n (length xs))) [
  | inl below ↦ ap (λ k. drop k xs) (ground (arith, below))
  | inr beyond ↦
      drop_beyond (min n (length xs)) xs (ground (arith, beyond))
      ∙ sym (drop_beyond n xs (ground (arith, beyond)))
]

-- For a page that `New` has clamped, and rows that an `int` counts, both read models return the
-- same window of the sorted rows and neither fails: the rows from the offset on, at most as many as
-- the limit says, and the number of all rows.
pub list_rows-list_table :
    (rows : List Row) (l o : ℕ)
    → l ≤ max_limit
    → length rows + max_limit ≤ max_int
    → (list_rows rows (record { limit = pos l; offset = pos o })
        ≡ some (record {
          items = take l (drop o (sort_rows rows));
          total = length rows;
          limit = pos l;
          offset = pos o;
        }))
      × (list_table rows (record { limit = pos l; offset = pos o })
          ≡ ok (record {
            items = take l (drop o (sort_rows rows));
            total = length rows;
            limit = pos l;
            offset = pos o;
          }))
unfolding list_rows list_table database_slice listing slice window
list_rows-list_table rows l o small fits =
    let all = sort_rows rows in
    (ground (arith, length-sort_rows rows, drop-min o all, small, fits), refl)
