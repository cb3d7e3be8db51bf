-- ===== src/Migrate/Command.antt =====
-- cmd/migrate: main, `run` and `printPlan`.
pub mod Resumed
use go_ddd.Prelude.{
  ℕ, suc, ◌+◌, Option, none, some, List, [], ◌∷◌, ◌++◌, ◌==◌, text_eq, nat_beq, length,
  if◌then◌else◌,
}
use mathlib.Core.List.{reverse}
use go_ddd.Prelude.Int.{ℤ}
use go_ddd.Prelude.Text.{Text, codes}
use go_ddd.Prelude.Result.{Error, Result, ok, err, other_error}
use go_ddd.Shared.{error_text}
use go_ddd.Migrate.{Migration, Direction, up, down, path_for, pending_up, pending_down, apply_one}

-- What is printed.
pub data Line : Type 0 where
  plan_of : Direction → Text → Line
  no_migrations : Line
  planned : ℕ → Text → Line
  plan_only : Line
  nothing_to_do : Line
  applying : ℕ → Direction → Line
  applied_file : Text → Line

-- What a run leaves: its error, the versions in schema_migrations, and what it has printed.
pub record Ran : Type 0 where
  pub error : Option Error
  pub table : List Text
  pub lines : List Line

-- The answers of the database: to the connection and its ping, to CREATE TABLE IF NOT EXISTS, to
-- the SELECT of the versions, and to the statements of a file.
pub record Database : Type 0 where
  pub connect : Option Error
  pub ensure : Option Error
  pub select : Option Error
  pub execute : Text → Option Error

direction_text : Direction → Text
direction_text up = codes "up"
direction_text down = codes "down"

-- The direction is up if the command line names none.
unfoldable pub parse_direction : Text → Result Direction
parse_direction arg =
    if arg == []
    then ok up
    else if arg == codes "up"
    then ok up
    else if arg == codes "down"
    then ok down
    else err (other_error (codes "unknown direction \"" ++ (arg ++ codes "\" (want: up | down)")))

after_slash : Text → Text → Text
after_slash out [] = out
after_slash out (c ∷ s) =
    let rest = after_slash (out ++ c ∷ []) s in
    let fresh = after_slash [] s in if nat_beq c b'/' then fresh else rest

-- `filepath.Base`, for a path that does not end in a slash
base_name : Text → Text
unfolding after_slash
base_name path = if path == [] then codes "." else after_slash [] path

-- `fmt.Errorf("...: %w", err)`
wrapped : Text → Error → Error
wrapped prefix e = other_error (prefix ++ (codes ": " ++ error_text e))

apply_next :
    Migration
    → Direction
    → Result (List Text)
    → List Text
    → List Line
    → (List Text → List Line → Ran)
    → Ran
unfolding base_name wrapped
apply_next m direction (err e) table lines rest = record {
  error = some (wrapped (base_name (path_for m direction)) e);
  table = table;
  lines = lines;
}
apply_next m direction (ok table') table lines rest =
    rest table' (lines ++ applied_file (base_name (path_for m direction)) ∷ [])

-- The loop of `run` over the plan.
apply_plan : (Text → Option Error) → Direction → List Migration → List Text → List Line → Ran
unfolding apply_next
apply_plan execute direction [] table lines = record { error = none; table = table; lines = lines }
apply_plan execute direction (m ∷ ms) table lines =
    apply_next m direction (apply_one execute direction m table) table lines
      (apply_plan execute direction ms)

plan_for : Direction → ℤ → List Migration → List Text → Result (List Migration)
plan_for up steps ms table = ok (pending_up ms table steps)
plan_for down steps ms table = pending_down ms table steps

run_plan : (Text → Option Error) → Direction → List Text → Result (List Migration) → Ran
unfolding apply_plan
run_plan execute direction table (err e) = record { error = some e; table = table; lines = [] }
run_plan execute direction table (ok []) = record {
  error = none;
  table = table;
  lines = nothing_to_do ∷ [];
}
run_plan execute direction table (ok (m ∷ ms)) =
    apply_plan execute direction (m ∷ ms) table (applying (length (m ∷ ms)) direction ∷ [])

stopped : Text → Option Error → List Text → Ran → Ran
unfolding wrapped
stopped step none table rest = rest
stopped step (some e) table rest = record {
  error = some (wrapped step e);
  table = table;
  lines = [];
}

-- `run`, with the versions that the table has before it.
unfoldable pub run : Database → Direction → ℤ → List Migration → List Text → Ran
unfolding stopped run_plan plan_for
run d direction steps ms table = stopped (codes "connect") d.connect table (
    stopped (codes "ensure schema_migrations") d.ensure table (
      stopped (codes "load applied versions") d.select table
        (run_plan d.execute direction table (plan_for direction steps ms table))))

-- The path of a migration in the plan, or what stands for it.
plan_path : Direction → Migration → Text
unfolding direction_text
plan_path direction m =
    if path_for m direction == []
    then m.version
      ++ (codes "_"
          ++ (m.name ++ (codes "." ++ (direction_text direction ++ codes ".sql (missing)"))))
    else path_for m direction

numbered : Direction → ℕ → List Migration → List Line
unfolding plan_path
numbered direction n [] = []
numbered direction n (m ∷ ms) = planned n (plan_path direction m) ∷ numbered direction (suc n) ms

in_order : Direction → List Migration → List Migration
in_order up ms = ms
in_order down ms = reverse ms

-- `printPlan`
unfoldable pub print_plan : Direction → Text → List Migration → List Line
unfolding numbered in_order
print_plan direction dir [] = plan_of direction dir ∷ no_migrations ∷ []
print_plan direction dir (m ∷ ms) =
    plan_of direction dir ∷ numbered direction 1 (in_order direction (m ∷ ms))

failing : Error → List Text → Ran
failing e table = record { error = some e; table = table; lines = [] }

started : Text → ℤ → Text → Database → List Text → Result Direction → Result (List Migration) → Ran
unfolding failing
started dir steps dsn d table (err e) loaded = failing e table
started dir steps dsn d table (ok direction) (err e) = failing e table
started dir steps dsn d table (ok direction) (ok ms) =
    if dsn == []
    then record {
      error = none;
      table = table;
      lines = print_plan direction dir ms ++ plan_only ∷ [];
    }
    else run d direction steps ms table

-- `main`, with the flags, the first argument, DATABASE_URL and what loadMigrations returns. The
-- error is printed, and the process exits with 1.
unfoldable pub main : Text → ℤ → Text → Text → Database → Result (List Migration) → List Text → Ran
unfolding started parse_direction
main dir steps arg dsn d loaded table = started dir steps dsn d table (parse_direction arg) loaded
