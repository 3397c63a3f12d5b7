-- ===== src/Config.antt =====
-- internal/config/config.go: the configuration of the process. The environment of the process,
-- `time.ParseDuration` and `Duration.String` are the record `Os`.
pub mod Valid
use bluestaq_takehome.Prelude.{
  ℕ, zero, suc, ◌-◌, ◌*◌, ◌^◌, String, Bool, true, false, not, ◌&&◌, ◌||◌, Option, none, some, List,
  [], ◌∷◌, ◌++◌, any, keep, map, ltb, ◌==◌, if◌then◌else◌,
}
use bluestaq_takehome.Prelude.Text.{Text, codes, text_eq, is_empty, byte_len, trim_space}
use bluestaq_takehome.Prelude.Integer.{ℤ, pos, negsuc, ltb_ℤ, wrap, shifted}
use bluestaq_takehome.Prelude.Decimal.{parse_int}
use bluestaq_takehome.Httpx.Problems.{Message, say, lit, num, text}

pub record StorageConfig : Type 0 where
  pub endpoint : Text
  pub region : Text
  pub bucket : Text
  pub access_key : Text
  pub secret_key : Text
  pub use_path_style : Bool
  pub upload_ttl : ℤ
  pub download_ttl : ℤ
  pub max_attachment_bytes : ℤ
  pub allowed_mime_prefix : List Text

-- Durations are in nanoseconds.
pub record Config : Type 0 where
  pub port : ℤ
  pub admin_port : ℤ
  pub database_url : Text
  pub max_db_conns : ℤ
  pub request_timeout : ℤ
  pub statement_timeout : ℤ
  pub idle_in_tx_timeout : ℤ
  pub jwt_secret : Text
  pub jwt_ttl : ℤ
  pub log_level : Text
  pub cors_origins : List Text
  pub shutdown_wait : ℤ
  pub storage : StorageConfig

pub record Os : Type 0 where
  pub getenv : String → Text
  pub parse_duration : Text → Option ℤ
  pub duration_text : ℤ → Text

abbrev pub concat : List (List Message) → List Message
concat [] = []
concat (ms ∷ mss) = ms ++ concat mss

abbrev pub seconds : ℕ → ℤ
seconds n = pos (n * 10 ^ 9)

abbrev pub write_timeout : ℤ
write_timeout = seconds 60

-- A value, and what `fail` has collected on the way to it.
abbrev pub Checked : Type 0 → Type 0
Checked A = A × List Message

module _ {A : Type 0} where
  -- `def` where the variable is not set; `def` and an error where it does not parse.
  abbrev pub parsed : String → String → Text → A → Option A → Checked A
  parsed key what v default none =
      (default, (lit key ∷ lit " must be " ∷ lit what ∷ lit ", got " ∷ text v ∷ []) ∷ [])
  parsed key what v default (some a) = (a, [])

  unfoldable pub env_parsed : Os → String → String → (Text → Option A) → A → Checked A
  env_parsed os key what parse default =
      if is_empty (os.getenv key)
      then (default, [])
      else parsed key what (os.getenv key) default (parse (os.getenv key))

abbrev int_of : Bool × ℕ → ℤ
int_of (false, n) = pos n
int_of (true, zero) = pos 0
int_of (true, suc n) = negsuc n

abbrev signed_of : Option (Bool × ℕ) → Option ℤ
signed_of none = none
signed_of (some x) = some (int_of x)

-- `strconv.Atoi`.
unfoldable pub atoi : Text → Option ℤ
atoi v = signed_of (parse_int (2 ^ 63 - 1) v)

abbrev one_of : List String → Text → Bool
one_of [] v = false
one_of (s ∷ ss) v = text_eq v (codes s) || one_of ss v

-- `strconv.ParseBool`.
unfoldable pub parse_bool : Text → Option Bool
parse_bool v =
    if one_of ("1" ∷ "t" ∷ "T" ∷ "true" ∷ "TRUE" ∷ "True" ∷ []) v
    then some true
    else if one_of ("0" ∷ "f" ∷ "F" ∷ "false" ∷ "FALSE" ∷ "False" ∷ []) v
    then some false
    else none

unfoldable pub env_default : Os → String → Text → Text
env_default os key default = if is_empty (os.getenv key) then default else os.getenv key

unfoldable pub env_int : Os → String → ℕ → Checked ℤ
env_int os key default = env_parsed os key "an integer" atoi (pos default)

unfoldable pub env_bool : Os → String → Bool → Checked Bool
env_bool os key default = env_parsed os key "a boolean" parse_bool default

unfoldable pub env_duration : Os → String → ℤ → Checked ℤ
env_duration os key default =
    env_parsed os key "a duration such as 15m or 24h" os.parse_duration default

abbrev in_front : ℕ → List Text → List Text
in_front c [] = (c ∷ []) ∷ []
in_front c (p ∷ ps) = (c ∷ p) ∷ ps

-- `strings.Split(v, ",")`.
unfoldable pub split_commas : Text → List Text
split_commas [] = [] ∷ []
split_commas (c ∷ s) = if c == 44 then [] ∷ split_commas s else in_front c (split_commas s)

unfoldable pub env_list_default : Os → String → List Text → List Text
env_list_default os key default =
    if is_empty (trim_space (os.getenv key))
    then default
    else keep (λ p. not (is_empty p)) (map trim_space (split_commas (trim_space (os.getenv key))))

unfoldable pub env_list : Os → String → List Text
env_list os key = env_list_default os key []

-- a <= 0, a >= b and a == b.
abbrev pub not_positive : ℤ → Bool
not_positive a = not (ltb_ℤ (pos 0) a)

abbrev pub not_below : ℤ → ℤ → Bool
not_below a b = not (ltb_ℤ a b)

abbrev pub same_int : ℤ → ℤ → Bool
same_int a b = not (ltb_ℤ a b) && not (ltb_ℤ b a)

-- An `if … { fail(…) }`.
abbrev pub Check : Type 0
Check = Bool × Message

abbrev pub failures : List Check → List Message
failures [] = []
failures ((b, m) ∷ cs) = if b then m ∷ failures cs else failures cs

-- The checks behind the reading.
unfoldable pub checks : Os → Config → List Check
checks os cfg =
    (is_empty cfg.database_url, say "DATABASE_URL is required")
    ∷ (
      ltb (byte_len cfg.jwt_secret) 32,
      lit "JWT_SECRET is required and must be at least 32 bytes (got "
          ∷ num (byte_len cfg.jwt_secret)
          ∷ lit ")"
          ∷ [],
    )
    ∷ (is_empty cfg.storage.bucket, say "S3_BUCKET is required")
    ∷ (
      same_int cfg.port cfg.admin_port,
      say "PORT and ADMIN_PORT must differ: the admin listener must not be publicly routable",
    )
    ∷ (
      ltb_ℤ (seconds 86400) cfg.storage.download_ttl,
      say "S3_DOWNLOAD_TTL above 24h widens the revoke gap unacceptably",
    )
    ∷ (
      not_positive cfg.request_timeout,
      lit "REQUEST_TIMEOUT must be positive, got "
          ∷ text (os.duration_text cfg.request_timeout)
          ∷ [],
    )
    ∷ (
      not_below cfg.request_timeout write_timeout,
      lit "REQUEST_TIMEOUT ("
          ∷ text (os.duration_text cfg.request_timeout)
          ∷ lit ") must be below the "
          ∷ text (os.duration_text write_timeout)
          ∷ lit " write timeout"
          ∷ [],
    )
    ∷ (
      not_positive cfg.statement_timeout,
      lit "STATEMENT_TIMEOUT must be positive, got "
          ∷ text (os.duration_text cfg.statement_timeout)
          ∷ [],
    )
    ∷ (
      not_positive cfg.idle_in_tx_timeout,
      lit "IDLE_IN_TX_TIMEOUT must be positive, got "
          ∷ text (os.duration_text cfg.idle_in_tx_timeout)
          ∷ [],
    )
    ∷ (
      not_below cfg.statement_timeout cfg.request_timeout,
      lit "STATEMENT_TIMEOUT ("
          ∷ text (os.duration_text cfg.statement_timeout)
          ∷ lit ") must be below REQUEST_TIMEOUT ("
          ∷ text (os.duration_text cfg.request_timeout)
          ∷ lit "), or the request deadline always wins"
          ∷ [],
    )
    ∷ []

-- What the reading of each variable gives, in the order of `Load`.
pub record Readings : Type 0 where
  pub port : Checked ℤ
  pub admin_port : Checked ℤ
  pub max_db_conns : Checked ℤ
  pub request_timeout : Checked ℤ
  pub statement_timeout : Checked ℤ
  pub idle_in_tx_timeout : Checked ℤ
  pub jwt_ttl : Checked ℤ
  pub shutdown_wait : Checked ℤ
  pub path_style : Checked Bool
  pub upload_ttl : Checked ℤ
  pub download_ttl : Checked ℤ
  pub max_attachment_mb : Checked ℤ

unfoldable pub readings : Os → Readings
readings os = record {
  port = env_int os "PORT" 8080;
  admin_port = env_int os "ADMIN_PORT" 9090;
  max_db_conns = env_int os "DB_MAX_CONNS" 10;
  request_timeout = env_duration os "REQUEST_TIMEOUT" (seconds 15);
  statement_timeout = env_duration os "STATEMENT_TIMEOUT" (seconds 3);
  idle_in_tx_timeout = env_duration os "IDLE_IN_TX_TIMEOUT" (seconds 10);
  jwt_ttl = env_duration os "JWT_TTL" (seconds 86400);
  shutdown_wait = env_duration os "SHUTDOWN_WAIT" (seconds 15);
  path_style = env_bool os "S3_PATH_STYLE" true;
  upload_ttl = env_duration os "S3_UPLOAD_TTL" (seconds 900);
  download_ttl = env_duration os "S3_DOWNLOAD_TTL" (seconds 3600);
  max_attachment_mb = env_int os "MAX_ATTACHMENT_MB" 100;
}

unfoldable pub each_error : Readings → List (List Message)
each_error v =
    v.port.1 ∷ v.admin_port.1 ∷ v.max_db_conns.1 ∷ v.request_timeout.1 ∷ v.statement_timeout.1
    ∷ v.idle_in_tx_timeout.1 ∷ v.jwt_ttl.1 ∷ v.shutdown_wait.1 ∷ v.path_style.1 ∷ v.upload_ttl.1
    ∷ v.download_ttl.1 ∷ v.max_attachment_mb.1 ∷ []

unfoldable pub reading_errors : Readings → List Message
reading_errors v = concat (each_error v)

unfoldable pub config_of : Os → Readings → Config
config_of os v = record {
  port = v.port.0;
  admin_port = v.admin_port.0;
  database_url = os.getenv "DATABASE_URL";
  max_db_conns = wrap 32 v.max_db_conns.0;
  request_timeout = v.request_timeout.0;
  statement_timeout = v.statement_timeout.0;
  idle_in_tx_timeout = v.idle_in_tx_timeout.0;
  jwt_secret = os.getenv "JWT_SECRET";
  jwt_ttl = v.jwt_ttl.0;
  log_level = env_default os "LOG_LEVEL" (codes "info");
  cors_origins = env_list os "CORS_ALLOWED_ORIGINS";
  shutdown_wait = v.shutdown_wait.0;
  storage = record {
    endpoint = os.getenv "S3_ENDPOINT";
    region = env_default os "S3_REGION" (codes "us-east-1");
    bucket = os.getenv "S3_BUCKET";
    access_key = os.getenv "S3_ACCESS_KEY";
    secret_key = os.getenv "S3_SECRET_KEY";
    use_path_style = v.path_style.0;
    upload_ttl = v.upload_ttl.0;
    download_ttl = v.download_ttl.0;
    max_attachment_bytes = wrap 64 (shifted 20 v.max_attachment_mb.0);
    allowed_mime_prefix =
        env_list_default os "ALLOWED_MIME"
          (codes "image/" ∷ codes "video/mp4" ∷ codes "application/pdf" ∷ []);
  };
}

-- The configuration with every error that was met; no error is Go's nil.
unfoldable pub load : Os → Config × List Message
load os = (
  config_of os (readings os),
  reading_errors (readings os) ++ failures (checks os (config_of os (readings os))),
)
