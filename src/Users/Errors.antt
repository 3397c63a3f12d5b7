-- ===== src/Users/Errors.antt =====
-- What an error of an account endpoint leaves behind.
use bluestaq_takehome.Prelude.{ℕ, ◌≡◌, refl, some}
use bluestaq_takehome.Prelude.Text.{Text}
use bluestaq_takehome.Auth
use bluestaq_takehome.Auth.{Claims, claims_for}
use bluestaq_takehome.Httpx.{Request}
use bluestaq_takehome.Httpx.Atomic.{Keeps-decode_json, Agrees-decode_json, respond-Whole}
use bluestaq_takehome.Store.Whole.{Whole, Agrees, Closes, AllOrNothing, quiet, whole_rules}
use bluestaq_takehome.Store.Models.{Db}
use bluestaq_takehome.Store.Models
use bluestaq_takehome.Store.World.{World, ask, lift, call_number, continue, ◌>>=◌}
use bluestaq_takehome.Store.Hoare.{Keeps}
use bluestaq_takehome.Store.Keeps.{keeps_rules}
use bluestaq_takehome.Store.UserQueries.{
  soft_delete_user, delete_user_share_grants, create_user, get_user, get_user_by_email,
  find_user_by_exact_email, update_user_profile, update_user_password,
}
use bluestaq_takehome.Users.{Handler, hash_password}
use bluestaq_takehome.Users.Endpoints.{
  delete_body, issued, issue, register, login, me, update_me, change_password, delete_me, lookup,
}
use bluestaq_takehome.Users.Routes.{Call, me_call, route, serve}

-- Signing with a secret of bytes does not fail.
abbrev pub Signs : Handler → Type 0
Signs h =
    (claims : Claims)
    → (token : Text) × (h.jwt.signed_string "HS256" h.tokens.secret claims ≡ some token)

module _ {P : Db → Type 0} where
  Keeps-call_number : Keeps P call_number
  unfolding call_number
  Keeps-call_number = record { at = λ w p. p }

  Keeps-hash_password : (h : Handler) (plain : Text) → Keeps P (hash_password h plain)
  unfolding hash_password
  Keeps-hash_password h plain = search (keeps_rules, Keeps-call_number) depth 8

  Keeps-issue : (h : Handler) (u : Models.User) → Keeps P (issue h u)
  unfolding issue
  Keeps-issue h u = search (keeps_rules, Keeps-call_number) depth 8

Agrees-hash_password : (h : Handler) (plain : Text) → Agrees (hash_password h plain)
unfolding hash_password
Agrees-hash_password h plain = search whole_rules depth 8

-- Signing does not fail, and writes nothing.
Closes-issue : (h : Handler) (u : Models.User) → Signs h → Closes (issue h u)
unfolding issue Auth.issue issued call_number ask lift ◌>>=◌ continue
Closes-issue h u signs = record {
  at = λ w.
      let (token, e) =
        signs (
          claims_for h.tokens (w.env.uuid_string u.id) (h.new_token_id w.calls)
            (h.clock w.calls)) in
      rw e (tt, refl);
}

Agrees-delete_body : (id : ℕ) → Agrees (delete_body id)
unfolding delete_body soft_delete_user delete_user_share_grants
Agrees-delete_body id = search whole_rules depth 10

module _ (h : Handler) (signs : Signs h) where
  Closes-signed : (u : Models.User) → Closes (issue h u)
  Closes-signed u = Closes-issue h u signs

  ruleset account_rules = (
    whole_rules, keeps_rules, Keeps-decode_json, Agrees-decode_json, Keeps-hash_password,
    Agrees-hash_password, Keeps-issue, Closes-signed, Agrees-delete_body,
  )

  route-Whole : (r : Request) (c : Call) → Whole (route h r c)
  unfolding route register login me update_me change_password delete_me lookup create_user get_user
      get_user_by_email find_user_by_exact_email update_user_profile update_user_password
  route-Whole r me_call = search account_rules depth 12
  route-Whole r _ = search account_rules depth 12

-- All or nothing, whatever faults the calls meet and whether they strike before the effect of a call
-- or behind it: where signing a token does not fail, an account endpoint leaves the tables as they
-- were, or it leaves them as it does where no call meets a fault and it ends in no error.
pub account_error_atomic :
    (h : Handler) (r : Request) (c : Call) (w : World)
    → Signs h
    → AllOrNothing w.db (serve h r c w).1.db (route h r c (quiet w))
unfolding serve
account_error_atomic h r c w signs = respond-Whole r (route h r c) w (route-Whole h signs r c)
