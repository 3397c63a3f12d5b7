-- ===== src/Users/Sessions.antt =====
-- A session: login of internal/users/handler.go, then a request with the token through the middleware
-- of internal/auth/middleware.go.
use bluestaq_takehome.Prelude.{
  ℕ, suc, ◌+◌, ◌≤◌, ◌<◌, ◌≡◌, refl, true, false, none, some, find, ◌++◌,
}
use bluestaq_takehome.Prelude.Text.{Text, codes}
use bluestaq_takehome.Httpx.{Request, Reply, value, decode_json, respond, written, write_json}
use bluestaq_takehome.Store.Models
use bluestaq_takehome.Store.World.{
  World, ask, lift, pure, catch, handle, continue, stmt, outcome, landed, kept, query, call_number,
  ◌>>=◌, ◌>>◌,
}
use bluestaq_takehome.Store.TeamQueries.{one}
use bluestaq_takehome.Store.UserQueries.{is_live_email, get_user_by_email}
use bluestaq_takehome.Auth
use bluestaq_takehome.Auth.{claims_for, numeric_date, with_user_id, answered, middleware}
use bluestaq_takehome.Auth.Bearer.{IsVerified, middleware-issue}
use bluestaq_takehome.Users.{
  Handler, LoginRequest, Payload, token_payload, to_user, normalize_email,
}
use bluestaq_takehome.Users.Endpoints.{login, checked, issue, issued}
use bluestaq_takehome.Users.Routes.{login_call, route, serve}

-- The account that the address names, and its password.
abbrev pub IsRight : Handler → LoginRequest → World → Models.User → Type 0
IsRight h req w u =
    (find (is_live_email w.env.citext_eq (normalize_email w.env.lower_rune req.email)) w.db.users
      ≡ some u)
    × (h.compare u.password_hash req.password ≡ true)

-- The time at which a login in `w` signs, and the id of its token.
abbrev pub signed_at : Handler → World → ℕ
signed_at h w = h.clock (suc w.calls)

abbrev pub token_id : Handler → World → Text
token_id h w = h.new_token_id (suc w.calls)

abbrev pub logged_in : Handler → World → Models.User → Text → Reply Payload
logged_in h w u token = write_json 200 (
    token_payload (record {
      access_token = token;
      expires_at = signed_at h w + h.tokens.ttl;
      user = to_user u;
    }))

abbrev pub IsSigned : Handler → World → Models.User → Text → Type 0
IsSigned h w u token =
    h.jwt.signed_string "HS256" h.tokens.secret
      (claims_for h.tokens (w.env.uuid_string u.id) (token_id h w) (signed_at h w))
    ≡ some token

login-logged_in :
    (h : Handler) (r : Request) (req : LoginRequest) (w : World) (u : Models.User) (token : Text)
    → w.fault w.calls ≡ none
    → IsRight h req w u
    → IsSigned h w u token
    → (serve h r (login_call (value req false)) w).0 ≡ logged_in h w u token
unfolding serve route login respond written decode_json ask lift pure catch handle get_user_by_email
    query stmt outcome landed kept one checked ◌>>=◌ ◌>>◌ continue issue issued call_number
    Auth.issue
login-logged_in h r req w u token calm right signed = rw (calm, right.0, right.1, signed) refl

issue-IsSigned :
    (h : Handler) (w : World) (u : Models.User) (token : Text)
    → IsSigned h w u token
    → Auth.issue h.jwt h.tokens (w.env.uuid_string u.id) (token_id h w) (signed_at h w)
      ≡ some (token, signed_at h w + h.tokens.ttl)
unfolding Auth.issue
issue-IsSigned h w u token signed = rw signed refl

-- A login with an address and its password answers 200 with a token, and every later request that
-- carries the token, until the second of its expiry, is served as that user. The call of the database
-- meets no fault, signing succeeds and the library verifies what it has signed.
pub login_then_request :
    (h : Handler) (r : Request) (req : LoginRequest) (w : World) (u : Models.User) (token : Text)
    → w.fault w.calls ≡ none
    → IsRight h req w u
    → IsSigned h w u token
    → IsVerified h.jwt h.tokens w.env u.id (token_id h w) (signed_at h w) token
    → {A : Type 0} (next : Request → World → Reply A × World) (later : Request) (w1 : World)
    → w1.env ≡ w.env
    → numeric_date (signed_at h w) ≤ h.clock w1.calls
    → h.clock w1.calls < numeric_date (signed_at h w + h.tokens.ttl)
    → ((serve h r (login_call (value req false)) w).0 ≡ logged_in h w u token)
      × (middleware h.jwt h.tokens h.clock next (codes "Bearer " ++ token) later w1
          ≡ answered (next (with_user_id later u.id) w1))
login_then_request h r req w u token calm right signed v next later w1 same from until = (
  login-logged_in h r req w u token calm right signed,
  middleware-issue h.jwt h.tokens h.clock next later w1 u.id (token_id h w) (signed_at h w) token
      (signed_at h w + h.tokens.ttl) (rw same (issue-IsSigned h w u token signed)) (rw same v) from
      until,
)
