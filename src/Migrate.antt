-- ===== src/Migrate.antt =====
-- cmd/migrate: which migrations a run applies, and in which order.
pub mod Pending
pub mod Command
use go_ddd.Prelude.{
  ℕ, zero, suc, ◌+◌, ◌-◌, ◌*◌, ◌/◌, ◌%◌, ◌^◌, ◌≤◌, ◌<◌, min, ◌≡◌, refl, sym, ap, subst, ◌∙◌, ◌≢◌,
  ◌↔◌, ◌⊎◌, inl, inr, Bool, true, false, ◌&&◌, ◌||◌, not, Option, none, some, List, [], ◌∷◌, ◌++◌,
  map, append_assoc, append-nil, arith, ltb, leb, nat_beq, nat_beq_iff, ◌==◌, text_eq, text_beq,
  text_beq_iff, text_beq_refl, length, length-append, take, drop, length-take, length-drop,
  take-append-drop, All, All-append, All-filter, filter, Bool-cases, Option-cases, some_inj,
  if◌then◌else◌,
}
use go_ddd.Prelude.Int.{ℤ, pos, negsuc, leb_ℤ, ltb_ℤ}
use go_ddd.Prelude.Text.{Text, codes, text_ltb}
use go_ddd.Prelude.Text.Decimal.{parse_uint}
use go_ddd.Prelude.Map.{Map, get, put}
use go_ddd.Prelude.Result.{Error, Result, ok, err, other_error, ◌>>=◌, ◌>>◌}

pub record Migration : Type 0 where
  pub version : Text
  pub name : Text
  pub up_path : Text
  pub down_path : Text

pub data Direction : Type 0 where
  up down : Direction

-- A file whose name matches the pattern, by the groups of the match and its path.
pub record File : Type 0 where
  pub version : Text
  pub name : Text
  pub kind : Direction
  pub path : Text

with_path : Migration → Direction → Text → Migration
with_path m up path = record m { up_path = path }
with_path m down path = record m { down_path = path }

or_new : Option Migration → File → Migration
or_new none f = record { version = f.version; name = f.name; up_path = []; down_path = [] }
or_new (some m) f = m

-- One round of the loop over the directory.
pair_up : Map Migration → File → Map Migration
unfolding with_path or_new
pair_up by_version f =
    put by_version f.version (with_path (or_new (get by_version f.version) f) f.kind f.path)

numbers_less : Option ℕ → Option ℕ → Text → Text → Bool
numbers_less (some n) (some m) v w = ltb n m
numbers_less _ _ v w = text_ltb v w

unfoldable pub version_less : Text → Text → Bool
unfolding numbers_less
version_less v w = numbers_less (parse_uint v) (parse_uint w) v w

insert_version : (Text → Text → Bool) → Text → List Text → List Text
insert_version less v [] = v ∷ []
insert_version less v (w ∷ ws) =
    let rest = insert_version less v ws in if less w v then w ∷ rest else v ∷ w ∷ ws

unfoldable pub sort_versions : (Text → Text → Bool) → List Text → List Text
unfolding insert_version
sort_versions less [] = []
sort_versions less (v ∷ vs) = insert_version less v (sort_versions less vs)

collect : Map Migration → List Text → List Migration
collect by_version [] = []
collect by_version (v ∷ vs) = elim (get by_version v) [
  | none ↦ collect by_version vs
  | some m ↦ m ∷ collect by_version vs
]

pair_all : List File → Map Migration → Map Migration
pair_all [] by_version = by_version
pair_all (f ∷ fs) by_version = pair_all fs (pair_up by_version f)

-- `loadMigrations`, from the matching files in the order of the directory
unfoldable pub load_migrations : List File → List Migration
unfolding pair_up pair_all collect sort_versions version_less
load_migrations files =
    let by_version = pair_all files [] in
    collect by_version (sort_versions version_less (map (λ e. e.0) by_version))

unfoldable pub path_for : Migration → Direction → Text
path_for m up = m.up_path
path_for m down = m.down_path

-- `applied[v]`
unfoldable pub is_applied : List Text → Text → Bool
is_applied [] v = false
is_applied (w ∷ ws) v = (w == v) || is_applied ws v

-- The loop of `pendingUp`; the cap is tested after each migration.
up_loop : List Text → ℤ → List Migration → List Migration → List Migration
up_loop applied steps [] plan = plan
up_loop applied steps (m ∷ ms) plan =
    let plan' = if is_applied applied m.version then plan else plan ++ m ∷ [] in
    let rest = up_loop applied steps ms plan' in
    if ltb_ℤ (pos 0) steps && leb_ℤ (pos (length plan')) steps && leb_ℤ steps (pos (length plan'))
    then plan'
    else rest

unfoldable pub pending_up : List Migration → List Text → ℤ → List Migration
unfolding up_loop is_applied
pending_up migrations applied steps = up_loop applied steps migrations []

find_version : List Migration → Text → Option Migration
find_version [] v = none
find_version (m ∷ ms) v =
    let later = find_version ms v in
    elim later [ some n ↦ some n | none ↦ if m.version == v then some m else none ]

missing_file : Text → Error
missing_file v =
    other_error
      (codes "version " ++ (v ++ codes " is applied but has no migration file in this directory"))

-- The loop of `pendingDown`, over the versions from the last to the first.
down_loop : List Migration → List Text → ℕ → List Migration → Result (List Migration)
down_loop migrations [] steps plan = ok plan
down_loop migrations (v ∷ vs) steps plan = elim (find_version migrations v) [
  | none ↦ err (missing_file v)
  | some m ↦
      let rest = down_loop migrations vs steps (plan ++ m ∷ []) in
      if nat_beq (length (plan ++ m ∷ [])) steps then ok (plan ++ m ∷ []) else rest
]

down_steps : ℤ → ℕ
down_steps (pos (suc n)) = suc n
down_steps _ = 1

-- `sort.Reverse(sort.StringSlice(...))`: by text, from the last on
later_text : Text → Text → Bool
later_text v w = text_ltb w v

unfoldable pub pending_down : List Migration → List Text → ℤ → Result (List Migration)
unfolding down_loop down_steps find_version missing_file sort_versions later_text
pending_down migrations applied steps =
    down_loop migrations (sort_versions later_text applied) (down_steps steps) []

without : List Text → Text → List Text
without [] v = []
without (w ∷ ws) v = let rest = without ws v in if w == v then rest else w ∷ rest

-- `applyOne`: the statements of the file run in the database, whose answer `execute` gives, and the
-- table of versions changes in the same transaction.
unfoldable pub apply_one :
    (Text → Option Error) → Direction → Migration → List Text → Result (List Text)
unfolding path_for without
apply_one execute direction m applied =
    if path_for m direction == []
    then err (other_error (codes "no sql file for version " ++ m.version))
    else elim (execute (path_for m direction)) [
      | some e ↦ err e
      | none ↦ elim direction [
        | up ↦
            if is_applied applied m.version
            then err (other_error (codes "duplicate key value violates unique constraint"))
            else ok (applied ++ m.version ∷ [])
        | down ↦ ok (without applied m.version)
      ]
    ]

applied_next :
    Result (List Text)
    → List Text
    → (List Text → Option Error × List Text)
    → Option Error × List Text
applied_next (err e) applied rest = (some e, applied)
applied_next (ok applied') applied rest = rest applied'

-- The loop of `run`: the first error ends it, and what was applied before stays applied.
unfoldable pub apply_all :
    (Text → Option Error) → Direction → List Migration → List Text → Option Error × List Text
unfolding apply_one applied_next
apply_all execute direction [] applied = (none, applied)
apply_all execute direction (m ∷ ms) applied =
    applied_next (apply_one execute direction m applied) applied (apply_all execute direction ms)
