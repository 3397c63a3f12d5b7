-- ===== src/Examples/ConfigCases.antt =====
-- A run of `config.Load` (internal/config/config.go).
use bluestaq_takehome.Prelude.{◌≡◌, refl, ◌↔◌, String, none, List, [], ◌∷◌, if◌then◌else◌}
use bluestaq_takehome.Prelude.Text.{Text, codes, text_eq, is_empty, byte_len}
use bluestaq_takehome.Prelude.Decimal.{parse_int, in_range, parse_sign, signed, scan}
use bluestaq_takehome.Config.{
  Os, each_error, reading_errors, readings, load, atoi, env_int, env_parsed, env_duration, env_bool,
  checks, config_of,
}
use bluestaq_takehome.Config.Valid.{IsReadableAll, IsValid, load-IsValid}

abbrev variable : List (String × String) → Text → Text
variable [] key = []
variable ((k, v) ∷ vs) key = if text_eq (codes k) key then codes v else variable vs key

abbrev minimal : Os
minimal = record {
  getenv = λ key.
      variable
        (("DATABASE_URL", "postgres://db")
          ∷ ("JWT_SECRET", "0123456789abcdef0123456789abcdef")
          ∷ ("S3_BUCKET", "notes")
          ∷ ("PORT", "8081")
          ∷ ("CORS_ALLOWED_ORIGINS", " a, ,b ")
          ∷ [])
        (codes key);
  parse_duration = λ t. none;
  duration_text = λ d. [];
}

minimal_errors : (load minimal).1 ≡ []
unfolding load readings reading_errors each_error env_int env_parsed is_empty text_eq atoi parse_int
    in_range parse_sign signed scan env_duration env_bool checks config_of byte_len
minimal_errors = refl

load-IsValid_example :
    ((load minimal).1 ≡ []) ↔ (IsReadableAll minimal × IsValid ((load minimal).0))
load-IsValid_example = load-IsValid minimal
