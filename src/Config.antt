-- ===== src/Config.antt =====
-- internal/platform/config/config.go: defaults, file, environment, validation.
pub mod Loading
use go_ddd.Prelude.{
  ℕ, zero, suc, ◌+◌, ◌-◌, ◌*◌, ◌/◌, ◌%◌, ◌^◌, ◌≤◌, ◌<◌, min, ◌≡◌, refl, sym, ap, subst, ◌∙◌, ◌≢◌,
  ◌↔◌, ◌⊎◌, inl, inr, Bool, true, false, ◌&&◌, ◌||◌, not, Option, none, some, List, [], ◌∷◌, ◌++◌,
  map, append_assoc, append-nil, arith, ltb, leb, nat_beq, nat_beq_iff, ◌==◌, text_eq, text_beq,
  text_beq_iff, text_beq_refl, length, length-append, take, drop, length-take, length-drop,
  take-append-drop, All, All-append, All-filter, filter, Bool-cases, Option-cases, some_inj,
  if◌then◌else◌,
}
use go_ddd.Prelude.Int.{ℤ, pos}
use go_ddd.Prelude.Text.{Text, codes}
use go_ddd.Prelude.Text.Decimal.{itoa, atoi, atoi-itoa}
use go_ddd.Prelude.Int.{IsInt}
use go_ddd.Prelude.Map.{Map, get}
use go_ddd.Shared.{error_text}
use go_ddd.Prelude.Result.{Error, Result, ok, err, other_error, ◌>>=◌, ◌>>◌}

pub record HttpConfig : Type 0 where
  pub addr : Text
  pub read_timeout : ℤ
  pub write_timeout : ℤ
  pub shutdown_timeout : ℤ

pub record LogConfig : Type 0 where
  pub level : Text
  pub format : Text

pub record DatabaseConfig : Type 0 where
  pub dsn : Text
  pub max_open_conns : ℤ
  pub max_idle_conns : ℤ
  pub conn_max_lifetime : ℤ

pub record KafkaConfig : Type 0 where
  pub brokers : List Text
  pub group_id : Text
  pub max_retries : ℤ
  pub retry_base_delay : ℤ
  pub retry_max_delay : ℤ

pub record OutboxConfig : Type 0 where
  pub poll_interval : ℤ
  pub batch_size : ℤ

pub record Config : Type 0 where
  pub env : Text
  pub http : HttpConfig
  pub grpc_addr : Text
  pub log : LogConfig
  pub database : DatabaseConfig
  pub kafka : KafkaConfig
  pub outbox : OutboxConfig

abbrev second : ℕ
second = 1_000_000_000

-- `Default`
unfoldable pub default_config : Config
default_config = record {
  env = codes "dev";
  http = record {
    addr = codes ":8080";
    read_timeout = pos (10 * second);
    write_timeout = pos (15 * second);
    shutdown_timeout = pos (20 * second);
  };
  grpc_addr = codes ":9090";
  log = record { level = codes "info"; format = codes "text" };
  database = record {
    dsn = [];
    max_open_conns = pos 20;
    max_idle_conns = pos 10;
    conn_max_lifetime = pos (1800 * second);
  };
  kafka = record {
    brokers = [];
    group_id = codes "myapp";
    max_retries = pos 3;
    retry_base_delay = pos second;
    retry_max_delay = pos (30 * second);
  };
  outbox = record { poll_interval = pos second; batch_size = pos 100 };
}

-- `os.Getenv`: a variable that is missing is empty.
present : Option Text → Text
present none = []
present (some v) = v

unfoldable pub getenv : Map Text → Text → Text
unfolding present
getenv environment name = present (get environment name)

-- `strings.Split` at one byte
unfoldable pub split : ℕ → Text → List Text
split sep [] = [] ∷ []
split sep (c ∷ s) = elim (split sep s) [
  | [] ↦ [] ∷ []
  | part ∷ parts ↦ if nat_beq c sep then [] ∷ part ∷ parts else (c ∷ part) ∷ parts
]

or_kept : {A : Type 0} → Option A → A → A
or_kept none old = old
or_kept (some new) old = new

-- The variables of the process, and `time.ParseDuration`, whose errors are ignored.
module _ (environment : Map Text) (parse_duration : Text → Option ℤ) where
  set_str : Text → Text → Text
  set_str old name = let v = getenv environment name in if v == [] then old else v

  unfoldable pub set_int : ℤ → Text → ℤ
  unfolding or_kept getenv
  set_int old name =
      let v = getenv environment name in if v == [] then old else or_kept (atoi v) old

  set_dur : ℤ → Text → ℤ
  set_dur old name =
      let v = getenv environment name in if v == [] then old else or_kept (parse_duration v) old

  set_brokers : List Text → List Text
  set_brokers old =
      let v = getenv environment (codes "KAFKA_BROKERS") in if v == [] then old else split b',' v

  unfoldable pub apply_env : Config → Config
  unfolding set_str set_int set_dur set_brokers or_kept getenv
  apply_env c = record {
    env = set_str c.env (codes "APP_ENV");
    http = record {
      addr = set_str c.http.addr (codes "HTTP_ADDR");
      read_timeout = set_dur c.http.read_timeout (codes "HTTP_READ_TIMEOUT");
      write_timeout = set_dur c.http.write_timeout (codes "HTTP_WRITE_TIMEOUT");
      shutdown_timeout = set_dur c.http.shutdown_timeout (codes "HTTP_SHUTDOWN_TIMEOUT");
    };
    grpc_addr = set_str c.grpc_addr (codes "GRPC_ADDR");
    log = record {
      level = set_str c.log.level (codes "LOG_LEVEL");
      format = set_str c.log.format (codes "LOG_FORMAT");
    };
    database = record {
      dsn = set_str c.database.dsn (codes "DATABASE_URL");
      max_open_conns = set_int c.database.max_open_conns (codes "DATABASE_MAX_OPEN_CONNS");
      max_idle_conns = set_int c.database.max_idle_conns (codes "DATABASE_MAX_IDLE_CONNS");
      conn_max_lifetime = set_dur c.database.conn_max_lifetime (codes "DATABASE_CONN_MAX_LIFETIME");
    };
    kafka = record {
      brokers = set_brokers c.kafka.brokers;
      group_id = set_str c.kafka.group_id (codes "KAFKA_GROUP_ID");
      max_retries = set_int c.kafka.max_retries (codes "KAFKA_MAX_RETRIES");
      retry_base_delay = set_dur c.kafka.retry_base_delay (codes "KAFKA_RETRY_BASE_DELAY");
      retry_max_delay = set_dur c.kafka.retry_max_delay (codes "KAFKA_RETRY_MAX_DELAY");
    };
    outbox = record {
      poll_interval = set_dur c.outbox.poll_interval (codes "OUTBOX_POLL_INTERVAL");
      batch_size = set_int c.outbox.batch_size (codes "OUTBOX_BATCH_SIZE");
    };
  }

unfoldable pub validate : Config → Result (Unit {0})
validate c =
    if c.http.addr == []
    then err (other_error (codes "config: http.addr is required"))
    else if c.grpc_addr == []
    then err (other_error (codes "config: grpc.addr is required"))
    else if c.log.format == codes "json" || c.log.format == codes "text"
    then ok tt
    else err (other_error (codes "config: log.format must be json or text"))

unfoldable pub use_database : Config → Bool
use_database c = not (c.database.dsn == [])

unfoldable pub use_kafka : Config → Bool
use_kafka c = ltb 0 (length c.kafka.brokers)

-- What `Load` asks of the process: whether `os.Stat` finds a file, `os.ReadFile`, and what
-- `Decode` makes of a text over the values so far, unknown members refused.
pub record Files : Type 0 where
  pub exists : Text → Bool
  pub read : Text → Result Text
  pub decode : Text → Config → Result Config

parsed : Text → Result Config → Result Config
parsed path (ok c) = ok c
parsed path (err e) =
    err (other_error (codes "config: parsing " ++ path ++ codes ": " ++ error_text e))

-- `loadFile`
unfoldable pub load_file : Files → Text → Config → Result Config
unfolding parsed
load_file files path c = do b ← files.read path; parsed path (files.decode b c)

-- The file that `Load` reads, empty for none.
unfoldable pub config_path : Map Text → Files → Text
unfolding getenv
config_path environment files =
    let path = getenv environment (codes "CONFIG_PATH") in
    if path == []
    then (if files.exists (codes "configs/config.json") then codes "configs/config.json" else [])
    else path

-- The values before the variables of the process.
unfoldable pub file_config : Map Text → Files → Result Config
unfolding config_path load_file
file_config environment files =
    let path = config_path environment files in
    if path == [] then ok default_config else load_file files path default_config

-- `Load`
unfoldable pub load : Map Text → (Text → Option ℤ) → Files → Result Config
unfolding file_config apply_env validate
load environment parse_duration files = do
  file ← file_config environment files
  let c = apply_env environment parse_duration file
  validate c
  ok c
