-- ===== src/Users/Endpoints.antt =====
-- The endpoints of internal/users/handler.go.
use bluestaq_takehome.Prelude.{
  ℕ, ◌==◌, Bool, ◌||◌, Option, none, some, List, [], ◌∷◌, ◌++◌, ltb, if◌then◌else◌,
}
use bluestaq_takehome.Prelude.Text.{Text, is_empty, byte_len, trim_space}
use bluestaq_takehome.Httpx.Problems.{
  Err, Result, ok, err, Message, problem, failure, say, errorf, not_found, invalid,
}
use bluestaq_takehome.Httpx.{Request, Reply, Decoded, decode_json, write_json, write_status}
use bluestaq_takehome.Auth
use bluestaq_takehome.Store.Errors.{is_not_found, is_unique_violation}
use bluestaq_takehome.Store.Models
use bluestaq_takehome.Store.World.{M, pure, throw, ask, lift, catch, tx, call_number, ◌>>=◌, ◌>>◌}
use bluestaq_takehome.Store.UserQueries.{
  create_user, get_user, get_user_by_email, find_user_by_exact_email, update_user_profile,
  update_user_password, soft_delete_user, delete_user_share_grants,
}
use bluestaq_takehome.Users.{
  Handler, to_user, RegisterRequest, LoginRequest, UpdateMeRequest, ChangePasswordRequest, Payload,
  token_payload, user_payload, normalize_email, valid_email, validate_password, hash_password,
}

abbrev Fields : Type 0
Fields = List (Message × Message)

unfoldable pub email_field : Text → Fields
email_field email =
    if valid_email email then [] else (say "email", say "must be a valid email address") ∷ []

unfoldable pub name_field : Text → Fields
name_field name =
    if is_empty name || ltb 128 (byte_len name)
    then (say "display_name", say "must be between 1 and 128 characters") ∷ []
    else []

unfoldable pub password_field : Option Message → Fields
password_field none = []
password_field (some m) = (say "password", m) ∷ []

unfoldable pub refuse_fields : Fields → Result (Unit {0})
refuse_fields [] = ok tt
refuse_fields (f ∷ fields) = err (problem (invalid (f ∷ fields)))

abbrev pub email_taken : Err
email_taken = problem (errorf 409 (say "an account with that email already exists"))

abbrev pub bad_credentials : Err
bad_credentials = problem (errorf 401 (say "invalid email or password"))

abbrev pub no_account : Err
no_account = problem (errorf 401 (say "account no longer exists"))

abbrev pub registered : Err → Err
registered e = if is_unique_violation e "users_email_live_uniq" then email_taken else e

unfoldable pub issued : Models.User → Option (Text × ℕ) → Result (Reply Payload)
issued u none = err (failure "signing token")
issued u (some (token, expires)) = ok (
    write_json 200
      (token_payload (record { access_token = token; expires_at = expires; user = to_user u })))

unfoldable pub issue : Handler → Models.User → M (Reply Payload)
issue h u = do
  n ← call_number
  env ← ask
  lift (issued u (Auth.issue h.jwt h.tokens (env.uuid_string u.id) (h.new_token_id n) (h.clock n)))

unfoldable pub register : Handler → Decoded RegisterRequest → M (Reply Payload)
register h body = do
  req ← decode_json body
  env ← ask
  let email = normalize_email env.lower_rune req.email
  let name = trim_space req.display_name
  lift (
      refuse_fields
        (email_field email ++ (name_field name ++ password_field (validate_password req.password))))
  hash ← hash_password h req.password
  u ←
      catch (create_user (record { email = email; password_hash = hash; display_name = name }))
        (λ e. throw (registered e))
  issue h u

-- An unknown address takes as long as a known one: `DummyCompare`, which has no effect.
abbrev pub hide_account : Err → Err
hide_account e = if is_not_found e then bad_credentials else e

unfoldable pub checked : Err → Bool → Result (Unit {0})
checked e matches = if matches then ok tt else err e

unfoldable pub login : Handler → Decoded LoginRequest → M (Reply Payload)
login h body = do
  req ← decode_json body
  env ← ask
  u ←
      catch (get_user_by_email (normalize_email env.lower_rune req.email))
        (λ e. throw (hide_account e))
  lift (checked bad_credentials (h.compare u.password_hash req.password))
  issue h u

abbrev pub account_gone : Err → Err
account_gone e = if is_not_found e then no_account else e

unfoldable pub me : Request → M (Reply Payload)
me r = do
  u ← catch (get_user r.user_id) (λ e. throw (account_gone e))
  pure (write_json 200 (user_payload (to_user u)))

abbrev pub optional : {A B : Type 0} → (A → B) → Option A → Option B
optional f none = none
optional f (some a) = some (f a)

abbrev pub fields_of : {A : Type 0} → (A → Fields) → Option A → Fields
fields_of f none = []
fields_of f (some a) = f a

abbrev pub profile_error : Err → Err
profile_error e =
    if is_unique_violation e "users_email_live_uniq" then email_taken else account_gone e

unfoldable pub update_me : Request → Decoded UpdateMeRequest → M (Reply Payload)
update_me r body = do
  req ← decode_json body
  env ← ask
  let email = optional (normalize_email env.lower_rune) req.email
  let name = optional trim_space req.display_name
  lift (refuse_fields (fields_of email_field email ++ fields_of name_field name))
  u ← catch (update_user_profile r.user_id name email) (λ e. throw (profile_error e))
  pure (write_json 200 (user_payload (to_user u)))

unfoldable pub valid_new : Option Message → Result (Unit {0})
valid_new none = ok tt
valid_new (some m) = err (problem (invalid ((say "new_password", m) ∷ [])))

-- Every error of the read is a 401.
unfoldable pub change_password :
    Handler → Request → Decoded ChangePasswordRequest → M (Reply Payload)
change_password h r body = do
  req ← decode_json body
  u ← catch (get_user r.user_id) (λ e. throw no_account)
  lift (
      checked (problem (errorf 403 (say "current password is incorrect")))
        (h.compare u.password_hash req.current_password))
  lift (valid_new (validate_password req.new_password))
  hash ← hash_password h req.new_password
  n ← update_user_password r.user_id hash
  pure (write_status 204)

unfoldable pub some_deleted : ℕ → Result (Unit {0})
some_deleted n = if n == 0 then err (failure "already deleted") else ok tt

unfoldable pub delete_body : ℕ → M (Unit {0})
delete_body user_id = do
  n ← soft_delete_user user_id
  lift (some_deleted n)
  grants ← delete_user_share_grants user_id
  pure tt

unfoldable pub delete_me : Request → M (Reply Payload)
delete_me r = do catch (tx (delete_body r.user_id)) (λ e. throw no_account); pure (write_status 204)

unfoldable pub email_given : Text → Result (Unit {0})
email_given email =
    if is_empty email
    then err (
        problem (
          errorf 400
            (say "the email query parameter is required; user search is exact-match only")))
    else ok tt

abbrev pub hide_user : Err → Err
hide_user e = if is_not_found e then problem (not_found "user") else e

unfoldable pub lookup : Request → M (Reply Payload)
lookup r = do
  env ← ask
  let email = normalize_email env.lower_rune r.email_query
  lift (email_given email)
  u ← catch (find_user_by_exact_email email r.user_id) (λ e. throw (hide_user e))
  pure (write_json 200 (user_payload (to_user u)))
