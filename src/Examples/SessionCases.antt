-- ===== src/Examples/SessionCases.antt =====
-- A session of the first user, and requests at the public listener.
use bluestaq_takehome.Prelude.{
  true, any, ℕ, ◌≡◌, refl, ◌⊎◌, ◌↔◌, false, some, [], ◌∷◌, ◌++◌, find, arith,
}
use bluestaq_takehome.Prelude.Text.{
  codes, text_eq, is_empty, to_lower, trim_space, trim_left, trim_right, before_trimmed, is_space,
}
use bluestaq_takehome.Httpx.{Request, Reply, value, write_json}
use bluestaq_takehome.Store.World.{World}
use bluestaq_takehome.Auth.{Jwt, Tokens, claims_for, answered, with_user_id, middleware}
use bluestaq_takehome.Auth.Bearer.{IsVerified}
use bluestaq_takehome.Prelude.Integer.{pos}
use bluestaq_takehome.Notes.Routes.{delete_call}
use bluestaq_takehome.Server.{Deps, HttpRequest, note_endpoint, handle, public_router}
use bluestaq_takehome.Server.Doors.{IsSignIn, IsAdmitted, public_router-IsAdmitted}
use bluestaq_takehome.Server.Methods.{is_callable, origin_of, IsShareUpdate, blocked_iff}
use bluestaq_takehome.Users.{Handler, LoginRequest, normalize_email}
use bluestaq_takehome.Users.Routes.{login_call, serve}
use bluestaq_takehome.Users.Sessions.{IsRight, logged_in, login_then_request}
use bluestaq_takehome.Examples.Data.{world, request, user, env}

-- An hour.
abbrev tokens : Tokens
tokens = record { secret = codes "secret"; ttl = 3600000000000 }

-- A signer of one token, which stands for what the login in `world` signs.
abbrev jwt : Jwt
jwt = record {
  signed_string = λ alg secret claims. some (codes "t");
  parse_with_claims = λ options secret now token. some (claims_for tokens (1 ∷ []) (1 ∷ []) 1);
}

abbrev handler : Handler
handler = record {
  generate = λ n plain. some plain;
  compare = λ hash plain. text_eq hash plain;
  jwt = jwt;
  tokens = tokens;
  new_token_id = λ n. n ∷ [];
  clock = λ n. n;
}

abbrev login : LoginRequest
login = record { email = codes "a@b.c"; password = [] }

right : IsRight handler login world (user 1)
unfolding find normalize_email to_lower trim_space trim_left trim_right before_trimmed is_space
    text_eq
right = (refl, refl)

verified : IsVerified jwt tokens env 1 (1 ∷ []) 1 (codes "t")
unfolding trim_space trim_left trim_right before_trimmed is_space is_empty
verified = record {
  verified = λ options alg at signed valid same from until. refl;
  compact = refl;
  not_blank = refl;
  uuid_back = refl;
}

-- A handler that answers with the user that it is run as.
abbrev whoami : Request → World → Reply ℕ × World
whoami r w = (write_json 200 r.user_id, w)

login_then_request_example :
    ((serve handler (request 0 10 []) (login_call (value login false)) world).0
      ≡ logged_in handler world (user 1) (codes "t"))
    × (middleware jwt tokens (λ n. n) whoami (codes "Bearer " ++ codes "t") (request 0 10 []) world
        ≡ answered (whoami (with_user_id (request 0 10 []) 1) world))
login_then_request_example =
    login_then_request handler (request 0 10 []) login world (user 1) (codes "t") refl right refl
      verified whoami (request 0 10 []) world refl (omega arith) (omega arith)

abbrev deps : Deps
deps = record {
  cors_origins = codes "https://a" ∷ [];
  new_request_id = λ n. codes "q";
  users = handler;
  notes = record { upload_ttl = 1; download_ttl = 1; max_bytes = pos 100; allowed_mime = [] };
}

-- A browser asks to delete a note, with a scheme that is not Bearer.
abbrev basic : HttpRequest
basic = record {
  is_options = false;
  origin = codes "https://a";
  authorization = codes "Basic t";
  request_id = [];
  endpoint = note_endpoint delete_call;
  request = request 0 10 [];
}

public_router-IsAdmitted_example :
    ((public_router deps basic world).1 ≡ world)
    ⊎ (IsSignIn (note_endpoint delete_call)
        ⊎ ((id : ℕ) × IsAdmitted deps basic world id
            × ((public_router deps basic world).1
                ≡ (handle deps (note_endpoint delete_call) (request id 10 []) world).1)))
public_router-IsAdmitted_example = public_router-IsAdmitted deps basic world

-- Its preflight.
abbrev asking : HttpRequest
asking = record basic { is_options = true; authorization = [] }

given : is_empty asking.origin ≡ false
unfolding is_empty
given = refl

listed : any (text_eq asking.origin) deps.cors_origins ≡ true
unfolding any text_eq
listed = refl

blocked_iff_example :
    ((public_router deps asking world).0.answer.reply.status ≡ 204)
    × (origin_of (public_router deps asking world).0.cors_headers ≡ some (codes "https://a"))
    × ((is_callable (public_router deps asking world).0.cors_headers (note_endpoint delete_call)
          ≡ false)
        ↔ IsShareUpdate (note_endpoint delete_call))
blocked_iff_example = blocked_iff deps asking world (note_endpoint delete_call) refl given listed
