-- ===== src/Httpx/Failures.antt =====
-- A handler whose first step fails: the reply is `WriteProblem` of that error.
use bluestaq_takehome.Prelude.{◌≡◌, arith}
use bluestaq_takehome.Httpx.Problems.{Err, Result, ok, err}
use bluestaq_takehome.Httpx.{Request, Reply, respond, written, write_problem}
use bluestaq_takehome.Store.World.{World, M, continue, ◌>>=◌}

-- An error at the head of a handler is the reply's.
module _ {A B : Type 0} (m : M A) (f : A → M (Reply B)) (r : Request) (w : World) where
  pub continue-err : (x : Result A × World) (e : Err) → x.0 ≡ err e → (continue x f).0 ≡ err e
  unfolding continue
  continue-err (ok a, w) e h = cc
  continue-err (err e', w) e h = ground arith

  written-err :
      (x : Result (Reply B) × World) (e : Err) → x.0 ≡ err e → (written r x).0 ≡ write_problem r e
  unfolding written
  written-err (ok a, w) e h = cc
  written-err (err e', w) e h = ground arith

  pub respond-bind_err : (e : Err) → (m w).0 ≡ err e → (respond r (m >>= f) w).0 ≡ write_problem r e
  unfolding respond ◌>>=◌
  respond-bind_err e h = written-err _ e (continue-err (m w) e h)
