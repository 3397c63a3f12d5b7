-- ===== src/Httpx.antt =====
-- internal/httpx: requests, replies, `WriteProblem` and `DecodeJSON`. The router, the middleware
-- and the JSON codec of the standard library hand a handler the parts of a `Request`.
pub mod Problems
pub mod Failures
pub mod Atomic
use Problems.{
  Part, lit, num, say, ErrorClass, Problem, errorf, SqlState, query_canceled, Err, problem, pg,
  canceled, deadline_exceeded, Result, ok, err,
}
use bluestaq_takehome.Prelude.{
  ℕ, ◌^◌, String, Bool, true, false, ◌&&◌, Option, none, List, [], ◌∷◌, if◌then◌else◌,
}
use bluestaq_takehome.Prelude.Text.{Text}
use bluestaq_takehome.Store.World.{World, M, pure, throw}

pub record Request : Type 0 where
  pub user_id : ℕ  -- `MustUserID`: every handler here is behind the auth middleware
  pub context_done : Bool  -- `r.Context().Err() != nil`
  pub url_param : String → Text
  pub principal_type : String  -- the path parameter of that name
  pub if_match : Text
  pub email_query : Text
  pub url_query : String → List Text  -- the values of a parameter of the query

pub data Content (A : Type 0) : Type 0 where
  nothing : Content A
  json : A → Content A
  problem_json : Problem → Content A

pub record Reply (A : Type 0) : Type 0 where
  pub status : ℕ
  pub etag : Option Text
  pub content : Content A

abbrev pub status_client_closed_request : ℕ
status_client_closed_request = 499

abbrev pub too_slow : Problem
too_slow = errorf 503 (say "the server took too long to handle this request; retry shortly")

-- The `switch` of `WriteProblem`.
unfoldable pub classify : Err → Problem
unfolding errorf
classify deadline_exceeded = too_slow
classify (pg query_canceled) = too_slow
classify (problem p) = p
classify _ = errorf 500 (say "an internal error occurred")

abbrev pub is_canceled : Err → Bool
is_canceled canceled = true
is_canceled _ = false

module _ {A : Type 0} where
  -- `WriteProblem`; its log lines are left out.
  unfoldable pub write_problem : Request → Err → Reply A
  unfolding classify
  write_problem r e =
      if is_canceled e && r.context_done
      then record { status = status_client_closed_request; etag = none; content = nothing }
      else record { status = (classify e).status; etag = none; content = problem_json (classify e) }

  -- `WriteJSON` with a body, and with none.
  unfoldable pub write_json : ℕ → A → Reply A
  write_json status v = record { status = status; etag = none; content = json v }

  unfoldable pub write_status : ℕ → Reply A
  write_status status = record { status = status; etag = none; content = nothing }

  unfoldable pub written : Request → Result (Reply A) × World → Reply A × World
  unfolding write_problem
  written r (ok reply, w) = (reply, w)
  written r (err e, w) = (write_problem r e, w)

  -- A handler: where it ends in an error it calls `WriteProblem` and returns.
  unfoldable pub respond : Request → M (Reply A) → World → Reply A × World
  unfolding written
  respond r m w = written r (m w)

-- What the JSON decoder finds in the body; `more` says that a second value follows.
pub data Decoded (A : Type 0) : Type 0 where
  value : A → Bool → Decoded A
  over_limit end_of_input malformed : Decoded A

abbrev pub max_request_bytes : ℕ
max_request_bytes = 2 ^ 20

unfoldable pub decode_json : {A : Type 0} → Decoded A → M A
unfolding throw pure errorf
decode_json (value v more) =
    if more
    then throw (problem (errorf 400 (say "request body must contain a single JSON object")))
    else pure v
decode_json over_limit =
    throw (
      problem
        (errorf 413 (lit "request body exceeds " ∷ num max_request_bytes ∷ lit " bytes" ∷ [])))
decode_json end_of_input = throw (problem (errorf 400 (say "a request body is required")))
decode_json malformed = throw (problem (errorf 400 (say "malformed JSON")))
