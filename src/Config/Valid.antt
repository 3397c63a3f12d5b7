-- ===== src/Config/Valid.antt =====
-- What a configuration that starts the process satisfies (internal/config/config.go).
use bluestaq_takehome.Prelude.{
  String, Option, Option-cases, none, some, inl, inr, sym, ◌∙◌, if◌then◌else◌, ℕ, ◌≤◌, ◌≡◌, refl,
  ◌↔◌, ◌⊎◌, true, false, List, [], ◌∷◌, ◌++◌, ltb, All, arith,
}
use bluestaq_takehome.Prelude.Text.{Text, is_empty, byte_len}
use bluestaq_takehome.Prelude.Integer.{ℤ, pos, ltb_ℤ, Below}
use bluestaq_takehome.Httpx.Problems.{Message}
use bluestaq_takehome.Config.{
  concat, each_error, parsed, env_parsed, env_int, env_bool, env_duration, atoi, parse_bool, Config,
  Os, seconds, write_timeout, not_below, same_int, Check, failures, checks, readings,
  reading_errors, config_of, load,
}

append-nil : (xs ys : List Message) → xs ++ ys ≡ [] → (xs ≡ []) × (ys ≡ [])
append-nil [] ys e = (refl, e)
append-nil (x ∷ xs) ys e = cc

abbrev Passes : Check → Type 0
Passes c = c.0 ≡ false

failures-nil : (cs : List Check) → failures cs ≡ [] → All Passes cs
failures-nil [] e = tt
failures-nil ((true, m) ∷ cs) e = cc
failures-nil ((false, m) ∷ cs) e = (refl, failures-nil cs e)

Passes-failures : (cs : List Check) → All Passes cs → failures cs ≡ []
Passes-failures [] p = refl
Passes-failures ((true, m) ∷ cs) p = cc
Passes-failures ((false, m) ∷ cs) p = Passes-failures cs p.1

-- The time budgets nest: a statement ends within its request, a request within the time to write.
pub record IsValid (cfg : Config) : Type 0 where
  pub database_url : ¬ (cfg.database_url ≡ [])
  pub jwt_secret : 32 ≤ byte_len cfg.jwt_secret
  pub bucket : ¬ (cfg.storage.bucket ≡ [])
  pub ports : Below cfg.port cfg.admin_port ⊎ Below cfg.admin_port cfg.port
  pub download_ttl : ¬ Below (seconds 86400) cfg.storage.download_ttl
  pub statement_timeout : Below (pos 0) cfg.statement_timeout
  pub within_request : Below cfg.statement_timeout cfg.request_timeout
  pub within_write : Below cfg.request_timeout write_timeout
  pub idle_in_tx_timeout : Below (pos 0) cfg.idle_in_tx_timeout

is_empty_iff : (t : Text) → (is_empty t ≡ false) ↔ (¬ (t ≡ []))
unfolding is_empty
is_empty_iff [] = (λ e. cc, λ n. absurd (n refl))
is_empty_iff (c ∷ t) = (λ e. λ h. cc, λ n. refl)

not_below_iff : (a b : ℤ) → (not_below a b ≡ false) ↔ Below a b
not_below_iff a b = ground arith

above_iff : (a b : ℤ) → (ltb_ℤ a b ≡ false) ↔ (¬ Below a b)
above_iff a b = ground arith

same_int_iff : (a b : ℤ) → (same_int a b ≡ false) ↔ (Below a b ⊎ Below b a)
same_int_iff a b = ground arith

enough_iff : (n : ℕ) → (ltb n 32 ≡ false) ↔ (32 ≤ n)
enough_iff n = ground arith

Below-trans : (a b c : ℤ) → Below a b → Below b c → Below a c
Below-trans a b c p q = omega arith

positive_request : (cfg : Config) → IsValid cfg → Below (pos 0) cfg.request_timeout
positive_request cfg v =
    Below-trans (pos 0) cfg.statement_timeout cfg.request_timeout v.statement_timeout
      v.within_request

checks-IsValid : (os : Os) (cfg : Config) → All Passes (checks os cfg) → IsValid cfg
unfolding checks
checks-IsValid os cfg (du, (js, (bu, (po, (dt, (rt, (within, (st, (idle, (sr, _)))))))))) = record {
  database_url = (is_empty_iff cfg.database_url).0 du;
  jwt_secret = (enough_iff (byte_len cfg.jwt_secret)).0 js;
  bucket = (is_empty_iff cfg.storage.bucket).0 bu;
  ports = (same_int_iff cfg.port cfg.admin_port).0 po;
  download_ttl = (above_iff (seconds 86400) cfg.storage.download_ttl).0 dt;
  statement_timeout = (not_below_iff (pos 0) cfg.statement_timeout).0 st;
  within_request = (not_below_iff cfg.statement_timeout cfg.request_timeout).0 sr;
  within_write = (not_below_iff cfg.request_timeout write_timeout).0 within;
  idle_in_tx_timeout = (not_below_iff (pos 0) cfg.idle_in_tx_timeout).0 idle;
}

IsValid-checks : (os : Os) (cfg : Config) → IsValid cfg → All Passes (checks os cfg)
unfolding checks
IsValid-checks os cfg v = (
  (is_empty_iff cfg.database_url).1 v.database_url,
  (
    (enough_iff (byte_len cfg.jwt_secret)).1 v.jwt_secret,
    (
      (is_empty_iff cfg.storage.bucket).1 v.bucket,
      (
        (same_int_iff cfg.port cfg.admin_port).1 v.ports,
        (
          (above_iff (seconds 86400) cfg.storage.download_ttl).1 v.download_ttl,
          (
            (not_below_iff (pos 0) cfg.request_timeout).1 (positive_request cfg v),
            (
              (not_below_iff cfg.request_timeout write_timeout).1 v.within_write,
              (
                (not_below_iff (pos 0) cfg.statement_timeout).1 v.statement_timeout,
                (
                  (not_below_iff (pos 0) cfg.idle_in_tx_timeout).1 v.idle_in_tx_timeout,
                  (
                    (not_below_iff cfg.statement_timeout cfg.request_timeout).1 v.within_request,
                    tt,
                  ),
                ),
              ),
            ),
          ),
        ),
      ),
    ),
  ),
)

-- The variable is not set, or it reads as a value.
abbrev pub IsReadable : {A : Type 0} → Os → (Text → Option A) → String → Type 0
IsReadable {A} os parse key = (os.getenv key ≡ []) ⊎ ((a : A) × (parse (os.getenv key) ≡ some a))

-- The integers, the durations and the Boolean of the environment.
pub record IsReadableAll (os : Os) : Type 0 where
  pub port : IsReadable os atoi "PORT"
  pub admin_port : IsReadable os atoi "ADMIN_PORT"
  pub max_db_conns : IsReadable os atoi "DB_MAX_CONNS"
  pub request_timeout : IsReadable os os.parse_duration "REQUEST_TIMEOUT"
  pub statement_timeout : IsReadable os os.parse_duration "STATEMENT_TIMEOUT"
  pub idle_in_tx_timeout : IsReadable os os.parse_duration "IDLE_IN_TX_TIMEOUT"
  pub jwt_ttl : IsReadable os os.parse_duration "JWT_TTL"
  pub shutdown_wait : IsReadable os os.parse_duration "SHUTDOWN_WAIT"
  pub path_style : IsReadable os parse_bool "S3_PATH_STYLE"
  pub upload_ttl : IsReadable os os.parse_duration "S3_UPLOAD_TTL"
  pub download_ttl : IsReadable os os.parse_duration "S3_DOWNLOAD_TTL"
  pub max_attachment_mb : IsReadable os atoi "MAX_ATTACHMENT_MB"

abbrev IsNil : List Message → Type 0
IsNil ms = ms ≡ []

concat-IsNil : (mss : List (List Message)) → concat mss ≡ [] → All IsNil mss
concat-IsNil [] e = tt
concat-IsNil (ms ∷ mss) e =
    let (here, there) = append-nil ms (concat mss) e in (here, concat-IsNil mss there)

IsNil-concat : (mss : List (List Message)) → All IsNil mss → concat mss ≡ []
IsNil-concat [] a = refl
IsNil-concat (ms ∷ mss) (e, a) = rw e (IsNil-concat mss a)

module _ {A : Type 0} (os : Os) (parse : Text → Option A) (key what : String) (default : A) where
  parsed_iff :
      (v : Text)
      → ((if is_empty v then (default, []) else parsed key what v default (parse v)).1 ≡ [])
        ↔ ((v ≡ []) ⊎ ((a : A) × (parse v ≡ some a)))
  unfolding is_empty
  parsed_iff [] = (λ e. inl refl, λ r. refl)
  parsed_iff (c ∷ v) = elim (Option-cases (parse (c ∷ v))) [
    | inl e ↦ (λ h. absurd (not_nil (rw e at h)), λ r. absurd (go r e))
    | inr (a, e) ↦ (λ h. inr (a, e), λ r. rw e refl)
  ]
    where
      not_nil : {m : Message} → m ∷ [] ≡ [] → ⊥
      not_nil e = cc

      go : ((c ∷ v ≡ []) ⊎ ((a : A) × (parse (c ∷ v) ≡ some a))) → parse (c ∷ v) ≡ none → ⊥
      go (inl h) e = cc
      go (inr (a, h)) e = cc (sym h ∙ e)

  IsReadable-iff : ((env_parsed os key what parse default).1 ≡ []) ↔ IsReadable os parse key
  unfolding env_parsed
  IsReadable-iff = parsed_iff (os.getenv key)

readings-nil : (os : Os) → reading_errors (readings os) ≡ [] → IsReadableAll os
unfolding reading_errors each_error readings env_int env_bool env_duration
readings-nil os e =
    let (p, (ap_, (m, (rt, (st, (it, (jt, (sw, (ps, (ut, (dt, (mb, _)))))))))))) =
      concat-IsNil (each_error (readings os)) e in
    record {
      port = (IsReadable-iff os _ _ _ _).0 p;
      admin_port = (IsReadable-iff os _ _ _ _).0 ap_;
      max_db_conns = (IsReadable-iff os _ _ _ _).0 m;
      request_timeout = (IsReadable-iff os _ _ _ _).0 rt;
      statement_timeout = (IsReadable-iff os _ _ _ _).0 st;
      idle_in_tx_timeout = (IsReadable-iff os _ _ _ _).0 it;
      jwt_ttl = (IsReadable-iff os _ _ _ _).0 jt;
      shutdown_wait = (IsReadable-iff os _ _ _ _).0 sw;
      path_style = (IsReadable-iff os _ _ _ _).0 ps;
      upload_ttl = (IsReadable-iff os _ _ _ _).0 ut;
      download_ttl = (IsReadable-iff os _ _ _ _).0 dt;
      max_attachment_mb = (IsReadable-iff os _ _ _ _).0 mb;
    }

nil-readings : (os : Os) → IsReadableAll os → reading_errors (readings os) ≡ []
unfolding reading_errors each_error readings env_int env_bool env_duration
nil-readings os r = IsNil-concat (each_error (readings os)) (
  (IsReadable-iff os _ _ _ _).1 r.port,
  (
    (IsReadable-iff os _ _ _ _).1 r.admin_port,
    (
      (IsReadable-iff os _ _ _ _).1 r.max_db_conns,
      (
        (IsReadable-iff os _ _ _ _).1 r.request_timeout,
        (
          (IsReadable-iff os _ _ _ _).1 r.statement_timeout,
          (
            (IsReadable-iff os _ _ _ _).1 r.idle_in_tx_timeout,
            (
              (IsReadable-iff os _ _ _ _).1 r.jwt_ttl,
              (
                (IsReadable-iff os _ _ _ _).1 r.shutdown_wait,
                (
                  (IsReadable-iff os _ _ _ _).1 r.path_style,
                  (
                    (IsReadable-iff os _ _ _ _).1 r.upload_ttl,
                    (
                      (IsReadable-iff os _ _ _ _).1 r.download_ttl,
                      ((IsReadable-iff os _ _ _ _).1 r.max_attachment_mb, tt),
                    ),
                  ),
                ),
              ),
            ),
          ),
        ),
      ),
    ),
  ),
)

-- `Load` returns no error exactly where each of the twelve variables that are numbers, durations or
-- Booleans is not set or reads as its type, and the configuration is valid: the database and the
-- bucket are named, the signing key has 32 bytes, the listeners' ports differ, a download URL lives 24
-- hours at most, and the time budgets nest: 0 < statement < request < write timeout, with a positive
-- limit on an idle transaction.
pub load-IsValid : (os : Os) → ((load os).1 ≡ []) ↔ (IsReadableAll os × IsValid (load os).0)
unfolding load
load-IsValid os = (
  λ e.
      let (r, f) =
        append-nil (reading_errors (readings os))
          (failures (checks os (config_of os (readings os)))) e in
      (
        readings-nil os r,
        checks-IsValid os (config_of os (readings os))
            (failures-nil (checks os (config_of os (readings os))) f),
      ),
  λ h. rw (nil-readings os h.0) (
      Passes-failures (checks os (config_of os (readings os)))
        (IsValid-checks os (config_of os (readings os)) h.1)),
)
