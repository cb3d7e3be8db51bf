-- ===== src/Migrate/Command/Resumed.antt =====
-- What a run upwards leaves to the next one.
use go_ddd.Prelude.{◌≡◌, ◌≢◌, Option, none, some, List, [], ◌∷◌, ◌++◌, map, text_eq, All}
use go_ddd.Prelude.Text.{Text}
use go_ddd.Prelude.Result.{Error}
use go_ddd.Migrate.{Migration}
use go_ddd.Migrate.Command.{Ran}

-- No version has two migrations.
abbrev pub Apart : List Migration → Type 0
Apart [] = Unit
Apart (m ∷ ms) = All (λ n. n.version ≢ m.version) ms × Apart ms

abbrev pub versions : List Migration → List Text
versions = map (λ m. m.version)

-- How far a run has come in its plan: to the end, or to a migration that failed.
abbrev pub Reached : List Migration → List Migration → Option Error → Type 0
Reached done [] o = o ≡ none
Reached done (m ∷ left) o = (e : Error) × (o ≡ some e)

abbrev Splits : List Migration → List Text → Ran → Type 0
Splits plan a ran =
    (done : List Migration) × (left : List Migration) × (plan ≡ done ++ left)
    × (ran.table ≡ a ++ versions done)
    × Reached done left ran.error
