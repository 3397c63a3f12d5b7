-- ===== src/Auth.antt =====
-- internal/auth: the access tokens (token.go) and the middleware that reads them (middleware.go).
-- golang-jwt is the record `Jwt`. Times are in nanoseconds.
pub mod Bearer
use bluestaq_takehome.Prelude.{
  ℕ, ◌+◌, ◌-◌, ◌%◌, ◌^◌, String, Bool, true, ◌&&◌, Option, none, some, List, [], ◌∷◌, map, leb,
  ◌==◌, if◌then◌else◌,
}
use bluestaq_takehome.Prelude.Text.{Text, codes, text_eq, is_empty, trim_space}
use bluestaq_takehome.Httpx.Problems.{problem, errorf, say}
use bluestaq_takehome.Httpx.{Request, Reply, write_problem}
use bluestaq_takehome.Store.World.{Env, World}

-- `jwt.RegisteredClaims`, as far as they are set.
pub record Claims : Type 0 where
  pub subject : Text
  pub issuer : Text
  pub issued_at : ℕ
  pub not_before : ℕ
  pub expires_at : ℕ
  pub id : Text

pub record ParserOptions : Type 0 where
  pub valid_methods : List String
  pub issuer : Text
  pub expiration_required : Bool

-- `SignedString` takes the algorithm, the secret and the claims; `ParseWithClaims` the options, the
-- secret, the time and the text.
pub record Jwt : Type 0 where
  pub signed_string : String → Text → Claims → Option Text
  pub parse_with_claims : ParserOptions → Text → ℕ → Text → Option Claims

pub record Tokens : Type 0 where
  pub secret : Text
  pub ttl : ℕ

abbrev pub service_issuer : Text
service_issuer = codes "notes-api"

-- `jwt.NewNumericDate`: whole seconds.
abbrev pub numeric_date : ℕ → ℕ
numeric_date t = t - t % 10 ^ 9

unfoldable pub claims_for : Tokens → Text → Text → ℕ → Claims
claims_for t subject id now = record {
  subject = subject;
  issuer = service_issuer;
  issued_at = numeric_date now;
  not_before = numeric_date now;
  expires_at = numeric_date (now + t.ttl);
  id = id;
}

abbrev pub with_expiry : ℕ → Option Text → Option (Text × ℕ)
with_expiry expires none = none
with_expiry expires (some signed) = some (signed, expires)

-- The token with its time of expiry, for the subject and the id of the token.
unfoldable pub issue : Jwt → Tokens → Text → Text → ℕ → Option (Text × ℕ)
issue jwt t subject id now =
    with_expiry (now + t.ttl) (jwt.signed_string "HS256" t.secret (claims_for t subject id now))

abbrev pub parser_options : ParserOptions
parser_options = record {
  valid_methods = "HS256" ∷ [];
  issuer = service_issuer;
  expiration_required = true;
}

unfoldable pub subject_id : Env → Option Claims → Option ℕ
subject_id env none = none
subject_id env (some claims) = env.uuid_parse claims.subject

-- `none` is ErrInvalidToken.
unfoldable pub parse : Env → Jwt → Tokens → ℕ → Text → Option ℕ
parse env jwt t now raw = subject_id env (jwt.parse_with_claims parser_options t.secret now raw)

abbrev pub in_scheme : ℕ → Option (Text × Text) → Option (Text × Text)
in_scheme c none = none
in_scheme c (some (scheme, token)) = some (c ∷ scheme, token)

-- `strings.Cut(h, " ")`.
unfoldable pub cut_space : Text → Option (Text × Text)
cut_space [] = none
cut_space (c ∷ h) = if c == 32 then some ([], h) else in_scheme c (cut_space h)

-- `strings.EqualFold(scheme, "bearer")`: no other rune folds to one of these letters.
abbrev pub lower_ascii : ℕ → ℕ
lower_ascii c = if leb 65 c && leb c 90 then c + 32 else c

unfoldable pub is_bearer : Text → Bool
is_bearer scheme = text_eq (map lower_ascii scheme) (codes "bearer")

abbrev pub not_blank : Text → Option Text
not_blank token = if is_empty token then none else some token

unfoldable pub token_of : Option (Text × Text) → Option Text
token_of none = none
token_of (some (scheme, token)) = if is_bearer scheme then not_blank (trim_space token) else none

-- The value of the Authorization header, empty where there is none.
unfoldable pub bearer_token : Text → Option Text
bearer_token h = if is_empty h then none else token_of (cut_space h)

-- A reply with the WWW-Authenticate header.
pub record Answer (A : Type 0) : Type 0 where
  pub www_authenticate : Option String
  pub reply : Reply A

abbrev pub with_user_id : Request → ℕ → Request
with_user_id r id = record r { user_id = id }

module _ {A : Type 0} where
  unfoldable pub unauthorized : Request → String → Answer A
  unauthorized r detail = record {
    www_authenticate = some "Bearer realm=\"notes\"";
    reply = write_problem r (problem (errorf 401 (say detail)));
  }

  abbrev pub answered : Reply A × World → Answer A × World
  answered (reply, w) = (record { www_authenticate = none; reply = reply }, w)

  module _ (jwt : Jwt) (t : Tokens) (clock : ℕ → ℕ) (next : Request → World → Reply A × World) where
    unfoldable pub authenticated : Request → World → Option ℕ → Answer A × World
    authenticated r w none = (unauthorized r "invalid or expired token", w)
    authenticated r w (some id) = answered (next (with_user_id r id) w)

    unfoldable pub authenticate : Request → World → Option Text → Answer A × World
    authenticate r w none = (unauthorized r "a bearer token is required", w)
    authenticate r w (some raw) = authenticated r w (parse w.env jwt t (clock w.calls) raw)

    unfoldable pub middleware : Text → Request → World → Answer A × World
    middleware authorization r w = authenticate r w (bearer_token authorization)
