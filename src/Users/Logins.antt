-- ===== src/Users/Logins.antt =====
-- What login and lookup of internal/users/handler.go give away.
use bluestaq_takehome.Prelude.{
  ◌≡◌, refl, false, ◌&&◌, ◌||◌, ◌⊎◌, inl, inr, none, some, find, any, ◌==◌,
}
use bluestaq_takehome.Prelude.Counting.{not_any→find}
use bluestaq_takehome.Prelude.Text.{Text, is_empty}
use bluestaq_takehome.Httpx.Problems.{errorf, say, not_found}
use bluestaq_takehome.Httpx.{
  Request, Reply, value, decode_json, problem_json, respond, written, write_problem, classify,
}
use bluestaq_takehome.Store.Errors.{is_not_found}
use bluestaq_takehome.Store.Models
use bluestaq_takehome.Store.World.{
  World, throw, ask, lift, pure, catch, handle, continue, stmt, outcome, landed, kept, query, ◌>>=◌,
  ◌>>◌,
}
use bluestaq_takehome.Store.TeamQueries.{one}
use bluestaq_takehome.Store.UserQueries.{
  is_live_email, share_a_team, get_user_by_email, find_user_by_exact_email,
}
use bluestaq_takehome.Users.{Handler, LoginRequest, Payload, normalize_email}
use bluestaq_takehome.Users.Endpoints.{login, lookup, checked, email_given}
use bluestaq_takehome.Users.Routes.{login_call, lookup_call, route, serve}

abbrev pub unauthorized : Reply Payload
unauthorized = record {
  status = 401;
  etag = none;
  content = problem_json (errorf 401 (say "invalid email or password"));
}

abbrev pub unknown_user : Reply Payload
unknown_user = record { status = 404; etag = none; content = problem_json (not_found "user") }

-- The address has no live account, or it has one whose password is another.
abbrev pub IsWrong : Handler → LoginRequest → World → Type 0
IsWrong h req w =
    (find (is_live_email w.env.citext_eq (normalize_email w.env.lower_rune req.email)) w.db.users
      ≡ none)
    ⊎ ((u : Models.User) × (find
            (is_live_email w.env.citext_eq (normalize_email w.env.lower_rune req.email)) w.db.users
          ≡ some u)
        × (h.compare u.password_hash req.password ≡ false))

-- A failed login does not tell an address without an account from a wrong password: both get one and
-- the same 401. The call of the database meets no fault.
pub login_uniform :
    (h : Handler) (r : Request) (req : LoginRequest) (w : World)
    → w.fault w.calls ≡ none
    → IsWrong h req w
    → (serve h r (login_call (value req false)) w).0 ≡ unauthorized
unfolding serve route login respond written write_problem classify decode_json ask lift pure throw
    catch handle get_user_by_email query stmt outcome landed kept one checked ◌>>=◌ ◌>>◌ continue
    is_not_found errorf
login_uniform h r req w calm (inl gone) = rw (calm, gone) refl
login_uniform h r req w calm (inr (u, there, other)) = rw (calm, there, other) refl

-- Nobody with the address is the caller or is in a team with the caller.
abbrev pub IsStranger : Request → Text → World → Type 0
IsStranger r email w =
    any
      (λ u.
        is_live_email w.env.citext_eq email u
        && ((u.id == r.user_id) || share_a_team w.db.team_members r.user_id u.id))
      w.db.users
    ≡ false

-- Lookup does not tell an address without an account from the account of a person who shares no team
-- with the caller: both get one and the same 404. The call of the database meets no fault.
pub lookup_uniform :
    (h : Handler) (r : Request) (w : World)
    → w.fault w.calls ≡ none
    → is_empty (normalize_email w.env.lower_rune r.email_query) ≡ false
    → IsStranger r (normalize_email w.env.lower_rune r.email_query) w
    → (serve h r lookup_call w).0 ≡ unknown_user
unfolding serve route lookup respond written write_problem classify ask lift pure throw catch handle
    find_user_by_exact_email query stmt outcome landed kept one email_given ◌>>=◌ ◌>>◌ continue
    is_not_found errorf not_found
lookup_uniform h r w calm given stranger = rw (given, calm, not_any→find _ w.db.users stranger) refl
