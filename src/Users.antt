-- ===== src/Users.antt =====
-- internal/users/handler.go, with the password rules of internal/auth/password.go. The bcrypt and JWT
-- packages, the ids of tokens and the clock of the process are parameters.
pub mod Endpoints
pub mod Routes
pub mod Errors
pub mod Logins
pub mod Closing
pub mod Sessions
use bluestaq_takehome.Prelude.{
  ℕ, ◌+◌, ◌==◌, String, Bool, true, false, not, ◌&&◌, ◌||◌, Option, none, some, List, [], ◌∷◌, ◌++◌,
  leb, ltb, length, any, if◌then◌else◌,
}
use bluestaq_takehome.Prelude.Text.{Text, is_empty, byte_len, trim_space, to_lower}
use bluestaq_takehome.Httpx.Problems.{
  Err, Result, ok, err, Message, problem, failure, lit, num, say, errorf, not_found, invalid,
}
use bluestaq_takehome.Httpx.{
  Request, Reply, Decoded, decode_json, write_json, write_status, respond,
}
use bluestaq_takehome.Auth.{Jwt, Tokens}
use bluestaq_takehome.Store.Errors.{is_not_found, is_unique_violation}
use bluestaq_takehome.Store.Models
use bluestaq_takehome.Store.World.{
  World, M, pure, throw, ask, lift, catch, tx, call_number, ◌>>=◌, ◌>>◌,
}
use bluestaq_takehome.Store.UserQueries.{
  create_user, get_user, get_user_by_email, find_user_by_exact_email, update_user_profile,
  update_user_password, soft_delete_user, delete_user_share_grants,
}

-- What the handler is given: bcrypt, whose salt depends on the call, the tokens with
-- golang-jwt, the ids of tokens and the clock, each read by the number of the call.
pub record Handler : Type 0 where
  pub generate : ℕ → Text → Option Text
  pub compare : Text → Text → Bool
  pub jwt : Jwt
  pub tokens : Tokens
  pub new_token_id : ℕ → Text
  pub clock : ℕ → ℕ

pub record User : Type 0 where
  pub id : ℕ
  pub email : Text
  pub display_name : Text
  pub created_at : ℕ
  pub deleted : Bool

abbrev pub is_some : Option ℕ → Bool
is_some none = false
is_some (some a) = true

abbrev pub to_user : Models.User → User
to_user u = record {
  id = u.id;
  email = u.email;
  display_name = u.display_name;
  created_at = u.created_at;
  deleted = is_some u.deleted_at;
}

pub record RegisterRequest : Type 0 where
  pub email : Text
  pub password : Text
  pub display_name : Text

pub record LoginRequest : Type 0 where
  pub email : Text
  pub password : Text

pub record UpdateMeRequest : Type 0 where
  pub display_name : Option Text
  pub email : Option Text

pub record ChangePasswordRequest : Type 0 where
  pub current_password : Text
  pub new_password : Text

pub record TokenResponse : Type 0 where
  pub access_token : Text
  pub expires_at : ℕ
  pub user : User

pub data Payload : Type 0 where
  token_payload : TokenResponse → Payload
  user_payload : User → Payload

unfoldable pub normalize_email : (ℕ → ℕ) → Text → Text
normalize_email lower s = to_lower lower (trim_space s)

-- The parts before and behind the last `c`.
unfoldable pub cut_last : ℕ → Text → Option (Text × Text)
cut_last c [] = none
cut_last c (x ∷ s) = elim (cut_last c s) [
  | some (a, b) ↦ some (x ∷ a, b)
  | none ↦ if x == c then some ([], s) else none
]

unfoldable pub at_parts : Option (Text × Text) → Bool
at_parts none = false
at_parts (some (a, b)) = not (is_empty a) && not (is_empty b) && any (λ c. c == 46) b

unfoldable pub valid_email : Text → Bool
valid_email s =
    leb 3 (byte_len s)
    && leb (byte_len s) 254
    && at_parts (cut_last 64 s)
    && not (any (λ c. (c == 32) || (c == 9) || (c == 13) || (c == 10)) s)

abbrev pub min_password_len : ℕ
min_password_len = 12

abbrev pub max_password_len : ℕ
max_password_len = 72

-- `ValidatePassword`: the error's text, if any. Runes below, bytes above.
unfoldable pub validate_password : Text → Option Message
validate_password plain =
    if ltb (length plain) min_password_len
    then some (lit "password must be at least " ∷ num min_password_len ∷ lit " characters" ∷ [])
    else if ltb max_password_len (byte_len plain)
    then some (lit "password must be at most " ∷ num max_password_len ∷ lit " bytes" ∷ [])
    else none

unfoldable pub generated : Option Text → Result Text
generated none = err (failure "hashing password")
generated (some hash) = ok hash

unfoldable pub hash_checked : Handler → ℕ → Text → Option Message → Result Text
hash_checked h n plain none = generated (h.generate n plain)
hash_checked h n plain (some m) = err (failure "password")

-- `HashPassword`.
unfoldable pub hash_password : Handler → Text → M Text
hash_password h plain = do n ← call_number; lift (hash_checked h n plain (validate_password plain))
