-- ===== src/Httpx/Problems.antt =====
-- internal/httpx/problem.go: the problem document, and the errors that reach `WriteProblem`.
use bluestaq_takehome.Prelude.{ℕ, suc, String, Option, none, List, [], ◌∷◌, leb, if◌then◌else◌}
use bluestaq_takehome.Prelude.Text.{Text}
use bluestaq_takehome.Prelude.Integer.{ℤ, pos, negsuc}
use bluestaq_takehome.Notes.Dto.{Note}

-- A format string with its arguments in place: `%s`, `%q`, `%d` and `%v` are left unexpanded.
pub data Part : Type 0 where
  lit : String → Part
  num : ℕ → Part
  text : Text → Part
  uuid : ℕ → Part

abbrev pub Message : Type 0
Message = List Part

abbrev pub say : String → Message
say s = lit s ∷ []

-- A number with its sign.
abbrev pub signed_num : ℤ → Message
signed_num (pos n) = num n ∷ []
signed_num (negsuc n) = lit "-" ∷ num (suc n) ∷ []

pub data ErrorClass : Type 0 where
  section_15_5 section_15_6 : ErrorClass

pub record Problem : Type 0 where
  pub type : ErrorClass
  pub status : ℕ  -- `Title` is `http.StatusText(status)`, a function of it
  pub detail : Message
  pub errors : List (Message × Message)
  pub conflict : Option Note

-- `problemType`: the two URLs are the sections of RFC 9110.
problem_type : ℕ → ErrorClass
problem_type status = if leb 500 status then section_15_6 else section_15_5

unfoldable pub errorf : ℕ → Message → Problem
unfolding problem_type
errorf status detail = record {
  type = problem_type status;
  status = status;
  detail = detail;
  errors = [];
  conflict = none;
}

unfoldable pub not_found : String → Problem
unfolding errorf
not_found resource = errorf 404 (lit resource ∷ lit " not found" ∷ [])

unfoldable pub forbidden : String → Problem
unfolding errorf
forbidden action = errorf 403 (lit "you do not have permission to " ∷ lit action ∷ [])

unfoldable pub invalid : List (Message × Message) → Problem
unfolding errorf
invalid fields = record (errorf 400 (say "the request body failed validation")) { errors = fields }

-- The classes of a database error that the program looks at, by their SQLSTATE.
pub data SqlState : Type 0 where
  unique_violation : String → SqlState  -- 23505, with the constraint
  foreign_key_violation : SqlState  -- 23503
  check_violation : SqlState  -- 23514
  query_canceled : SqlState  -- 57014
  other_state : SqlState

-- A value of Go's `error`.
pub data Err : Type 0 where
  problem : Problem → Err
  no_rows : Err  -- pgx.ErrNoRows
  pg : SqlState → Err
  canceled deadline_exceeded : Err  -- the context's errors
  no_such_key : Err  -- the object store's
  failure : String → Err  -- any other error

pub data Result {ℓ} (A : Type ℓ) : Type ℓ where
  ok : A → Result A
  err : Err → Result A
