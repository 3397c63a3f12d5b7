-- ===== src/Examples/UserCases.antt =====
-- The theorems on accounts at concrete inputs.
use bluestaq_takehome.Prelude.{
  ◌≡◌, refl, true, false, ◌&&◌, ◌||◌, ◌==◌, inr, none, some, [], ◌∷◌, any, find,
}
use bluestaq_takehome.Prelude.Text.{
  codes, text_eq, is_empty, to_lower, trim_space, trim_left, trim_right, before_trimmed, is_space,
}
use bluestaq_takehome.Httpx.{Request, value, write_json, write_status}
use bluestaq_takehome.Store.NoteQueries.{is_note}
use bluestaq_takehome.Store.ShareQueries.{is_live_user}
use bluestaq_takehome.Store.TeamQueries.{is_grant_to}
use bluestaq_takehome.Store.UserQueries.{is_live_email, share_a_team}
use bluestaq_takehome.Notes.Dto.{from_access}
use bluestaq_takehome.Notes.IfMatch.{set_etag}
use bluestaq_takehome.Notes.Routes
use bluestaq_takehome.Notes.Routes.{get_call}
use bluestaq_takehome.Auth.{Jwt, Tokens, Claims, service_issuer}
use bluestaq_takehome.Store.Whole.{AllOrNothing, quiet}
use bluestaq_takehome.Users.{Handler, LoginRequest, normalize_email}
use bluestaq_takehome.Users.Routes.{me_call, delete_me_call, lookup_call, login_call, route, serve}
use bluestaq_takehome.Users.Errors.{account_error_atomic}
use bluestaq_takehome.Users.Logins.{unauthorized, unknown_user, login_uniform, lookup_uniform}
use bluestaq_takehome.Users.Closing.{account_gone_reply, closing_account, closed_owner_reads}
use bluestaq_takehome.Examples.Data.{late, world, db, request, note, user, env}

abbrev user_claims : Claims
user_claims = record {
  subject = 1 ∷ [];
  issuer = service_issuer;
  issued_at = 0;
  not_before = 0;
  expires_at = 3600000000000;
  id = 0 ∷ [];
}

abbrev tokens : Tokens
tokens = record { secret = codes "secret"; ttl = 3600000000000 }

-- A signer whose one token is "t".
abbrev jwt : Jwt
jwt = record {
  signed_string = λ alg secret claims. some (codes "t");
  parse_with_claims = λ options secret now token. some user_claims;
}

abbrev handler : Handler
handler = record {
  generate = λ n plain. some plain;
  compare = λ hash plain. text_eq hash plain;
  jwt = jwt;
  tokens = tokens;
  new_token_id = λ n. n ∷ [];
  clock = λ n. n;
}

-- The commit of the closing takes effect, and the reply is a 503.
account_error_atomic_example :
    AllOrNothing db
      (serve handler (request 1 10 []) delete_me_call (late 3)).1.db
      (route handler (request 1 10 []) delete_me_call (quiet (late 3)))
account_error_atomic_example =
    account_error_atomic handler (request 1 10 []) delete_me_call (late 3)
      (λ claims. (codes "t", refl))

abbrev wrong : LoginRequest
wrong = record { email = codes "a@b.c"; password = codes "other" }

found :
    find (is_live_email env.citext_eq (normalize_email env.lower_rune wrong.email)) db.users
    ≡ some (user 1)
unfolding find normalize_email to_lower trim_space trim_left trim_right before_trimmed is_space
    text_eq
found = refl

other_password : text_eq (user 1).password_hash wrong.password ≡ false
unfolding text_eq
other_password = refl

login_uniform_example :
    (serve handler (request 1 10 []) (login_call (value wrong false)) world).0 ≡ unauthorized
login_uniform_example =
    login_uniform handler (request 1 10 []) wrong world refl (inr (user 1, found, other_password))

abbrev searching : Request
searching = record (request 3 10 []) { email_query = codes "x@y.z" }

given : is_empty (normalize_email env.lower_rune searching.email_query) ≡ false
unfolding normalize_email to_lower trim_space trim_left trim_right before_trimmed is_space is_empty
given = refl

stranger :
    any
      (λ u.
        is_live_email env.citext_eq (normalize_email env.lower_rune searching.email_query) u
        && ((u.id == 3) || share_a_team db.team_members 3 u.id))
      db.users
    ≡ false
unfolding any normalize_email to_lower trim_space trim_left trim_right before_trimmed is_space
    text_eq
stranger = refl

lookup_uniform_example : (serve handler searching lookup_call world).0 ≡ unknown_user
lookup_uniform_example = lookup_uniform handler searching world refl given stranger

live : any (is_live_user 1) db.users ≡ true
unfolding any
live = refl

closing_account_example :
    ((serve handler (request 1 10 []) delete_me_call world).0 ≡ write_status 204)
    × ((serve handler
          (request 1 10 [])
          me_call
          (serve handler (request 1 10 []) delete_me_call world).1).0
        ≡ account_gone_reply)
    × (any
          (is_grant_to "user" 1)
          (serve handler (request 1 10 []) delete_me_call world).1.db.note_shares
        ≡ false)
    × ((serve handler (request 1 10 []) delete_me_call world).1.db.notes ≡ db.notes)
closing_account_example = closing_account handler (request 1 10 []) world (λ k. refl) live

first_note : find (is_note 10) db.notes ≡ some (note 10 none)
unfolding find
first_note = refl

closed_owner_reads_example :
    ((serve handler (request 1 10 []) delete_me_call world).0 ≡ write_status 204)
    × ((Routes.serve
          (request 1 10 [])
          get_call
          (serve handler (request 1 10 []) delete_me_call world).1).0
        ≡ set_etag 3
            (write_json 200 (from_access (record { note = note 10 none; effective_role = 3 }) 3)))
closed_owner_reads_example =
    closed_owner_reads handler (request 1 10 []) world 10 (note 10 none)
      (refl, first_note, refl, λ k. refl) refl live
