-- ===== src/Tests/Platform.antt =====
-- The orders, the transactions, the migrations and the configuration at concrete inputs.
use go_ddd.Prelude.{
  ℕ, suc, ◌≡◌, refl, ◌≢◌, true, Option, none, some, List, [], ◌∷◌, ◌==◌, if◌then◌else◌, arith,
  text_eq, text_beq,
}
use go_ddd.Prelude.Int.{ℤ}
use go_ddd.Prelude.Map.{get}
use go_ddd.Prelude.Text.{Text, codes}
use go_ddd.Prelude.Text.Decimal.{atoi}
use go_ddd.Prelude.Result.{Error, ok, err, err_not_found, other_error}
use go_ddd.EventBus.{Outcome, returns}
use go_ddd.Order.{World}
use go_ddd.Order.Placing.{Outcomes, place_order_rpc-Outcomes}
use go_ddd.Transaction.{loses_answer, Answers, within}
use go_ddd.Transaction
use go_ddd.Transaction.Settled.{Atomic, Tells, within-Atomic}
use go_ddd.Migrate.{Migration}
use go_ddd.Migrate.Command.{Database}
use go_ddd.Config.{
  Config, default_config, Files, file_config, load_file, config_path, load, validate, use_kafka,
  getenv, apply_env,
}
use go_ddd.Config.Loading.{read_or, load-environment}
use go_ddd.Customer.ReadModel.{Row}
use go_ddd.Tests.{uuid, clock}

abbrev row : Row
row = record {
  id = codes "c1";
  name = codes "Ada";
  email = codes "ada@x.io";
  status = codes "active";
  created_at = 5;
}

abbrev world : World
world = record { orders = []; customers = (codes "c1", row) ∷ []; ids = 0; readings = 0 }

place_order_rpc-Outcomes_example : Outcomes uuid clock (codes "c1") world
place_order_rpc-Outcomes_example = place_order_rpc-Outcomes uuid clock (codes "c1") world drawn
  where
    drawn : uuid 0 ≢ []
    drawn e = absurd (ground (arith, e))

-- The answer to the commit is lost.
abbrev answers : Answers
answers = record {
  begin = none;
  rollback = none;
  commit = loses_answer (other_error (codes "connection lost"));
}

-- Work that writes to the database and to the outbox.
abbrev work : ℕ × ℕ → Outcome × (ℕ × ℕ)
work (d, o) = (returns none, (suc d, suc o))

abbrev database_3 : Transaction.Database ℕ
database_3 = record { stored = 3; running = 2 }

within-Atomic_example :
    let p = within answers work (database_3, 8) in
    Atomic answers.commit 3 4 p.0 p.1.0.stored
    × Tells (returns none) p.0
    × (p.1.0.running ≡ 2)
    × (p.1.1 ≡ 9)
within-Atomic_example = within-Atomic answers work database_3 8 refl

abbrev migrations : List Migration
migrations =
    record {
      version = codes "0001";
      name = codes "a";
      up_path = codes "a.up";
      down_path = codes "a.down";
    }
    ∷ record {
      version = codes "0002";
      name = codes "b";
      up_path = codes "b.up";
      down_path = codes "b.down";
    }
    ∷ []

-- The second file fails.
abbrev fails_second : Text → Option Error
fails_second path = if path == codes "b.up" then some (other_error (codes "syntax error")) else none

abbrev database : Database
database = record { connect = none; ensure = none; select = none; execute = fails_second }

abbrev environment : List (Text × Text)
environment =
    (codes "KAFKA_BROKERS", codes "a:9092,b:9092") ∷ (codes "OUTBOX_BATCH_SIZE", codes "25") ∷ []

abbrev no_durations : Text → Option ℤ
no_durations s = none

-- A directory with one file, which names the environment.
abbrev one_file : Files
one_file = record {
  exists = λ path. path == codes "configs/config.json";
  read =
      λ path. if path == codes "configs/config.json" then ok (codes "prod") else err err_not_found;
  decode = λ text c. ok (record c { env = text });
}

abbrev in_file : Config
in_file = record default_config { env = codes "prod" }

abbrev effective : Config
effective = apply_env environment no_durations in_file

load-environment_example :
    (file : Config) × (file_config environment one_file ≡ ok file)
    × (effective ≡ apply_env environment no_durations file)
    × (validate effective ≡ ok tt)
    × (use_kafka effective
        ≡ (if getenv environment (codes "KAFKA_BROKERS") == [] then use_kafka file else true))
    × (effective.outbox.batch_size
        ≡ read_or (atoi (getenv environment (codes "OUTBOX_BATCH_SIZE"))) file.outbox.batch_size)
unfolding load file_config load_file config_path validate default_config apply_env getenv get
    text_beq
load-environment_example = load-environment environment no_durations one_file effective refl
