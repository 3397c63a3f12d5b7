-- ===== src/Store/World.antt =====
-- What a request runs in: the database, the counters of the metrics, and an environment that
-- stands for what is not in the repository. A computation may fail and keeps the state it reached.
use bluestaq_takehome.Prelude.{
  ℕ, suc, String, Bool, true, Option, none, some, List, ◌∷◌, if◌then◌else◌,
}
use bluestaq_takehome.Prelude.Text.{Text}
use bluestaq_takehome.Prelude.Integer.{ℤ}
use bluestaq_takehome.Httpx.Problems.{
  Err, Result, ok, err, canceled, deadline_exceeded, pg, query_canceled, failure,
}
use bluestaq_takehome.Store.Models.{Db, Note}

-- How a call of a database or of the object store can fail for reasons of its own.
pub data Fault : Type 0 where
  client_gone deadline statement_timeout : Fault
  broken : String → Fault

unfoldable pub fault_err : Fault → Err
fault_err client_gone = canceled
fault_err deadline = deadline_exceeded
fault_err statement_timeout = pg query_canceled
fault_err (broken s) = failure s

-- internal/storage: `ObjectInfo`.
pub record ObjectInfo : Type 0 where
  pub size : ℕ
  pub content_type : Text
  pub etag : Text

-- The client of github.com/minio/minio-go, on the configured bucket.
pub record ObjectClient : Type 0 where
  pub presigned_put_object : ℕ → Text → ℕ → Result Text
  pub presigned_get_object : ℕ → Text → ℕ → Option Text → Result Text
  pub stat_object : ℕ → Text → Result ObjectInfo
  pub remove_object : ℕ → Text → Option Err

-- Each call has a number; the environment says what that call draws.
pub record Env : Type 0 where
  pub now : ℕ → ℕ  -- now() of Postgres
  pub gen_random_uuid : ℕ → ℕ
  pub uuid_parse : Text → Option ℕ  -- github.com/google/uuid
  pub uuid_string : ℕ → Text
  pub new_uuid : ℕ → ℕ  -- uuid.NewString, before it is printed
  pub object_client : ObjectClient
  pub format_float : ℤ → Text  -- strconv, on the order-preserving numbering of float32
  pub parse_float : Text → Option ℤ
  pub search_match : Text → Note → Bool  -- search_tsv @@ websearch_to_tsquery('english', …)
  pub ts_rank : Text → Note → ℕ
  pub is_print : ℕ → Bool  -- the table of strconv.IsPrint
  pub lower_rune : ℕ → ℕ  -- the table of unicode.ToLower
  pub citext_eq : Text → Text → Bool  -- the equality of emails
  pub collate : Text → Text → Bool  -- the text order of the database

pub record World : Type 0 where
  pub env : Env
  pub fault : ℕ → Option Fault  -- what each call meets
  pub lands : ℕ → Bool  -- a call that meets a fault has its effect all the same
  pub db : Db
  pub calls : ℕ
  pub conflicts : ℕ  -- Metrics.Conflicts
  pub presigns : ℕ  -- Metrics.Presigns
  pub removals : List Text  -- the keys that the object store removed, the last one first

abbrev pub M : Type 0 → Type 0
M A = World → Result A × World

unfoldable pub pure : {A : Type 0} → A → M A
pure a w = (ok a, w)

unfoldable pub throw : {A : Type 0} → Err → M A
throw e w = (err e, w)

unfoldable pub ask : M Env
ask w = (ok w.env, w)

-- `Metrics.Conflicts.Inc()`.
unfoldable pub count_conflict : M (Unit {0})
count_conflict w = (ok tt, record w { conflicts = suc w.conflicts })

-- `Metrics.Presigns.WithLabelValues(…).Inc()`.
unfoldable pub count_presign : M (Unit {0})
count_presign w = (ok tt, record w { presigns = suc w.presigns })

-- A call of the object store that changes nothing there.
unfoldable pub external : {A : Type 0} → (World → Result A) → M A
external f w = (f w, record w { calls = suc w.calls })

-- A removal is noted where the store reports it done.
unfoldable pub removed : Text → Option Err → M (Unit {0})
removed key none w = (ok tt, record w { calls = suc w.calls; removals = key ∷ w.removals })
removed key (some e) w = (err e, record w { calls = suc w.calls })

-- The number of the next call.
unfoldable pub call_number : M ℕ
call_number w = (ok w.calls, w)

-- `if err != nil { return err }` on the result of a pure function.
unfoldable pub lift : {A : Type 0} → Result A → M A
lift r w = (r, w)

-- `none` is the callee's error, which the caller replaces by its own.
unfoldable pub or_throw : {A : Type 0} → Err → Option A → M A
unfolding pure throw
or_throw e none = throw e
or_throw e (some a) = pure a

module _ {A B : Type 0} where
  unfoldable pub continue : Result A × World → (A → M B) → Result B × World
  continue (ok a, w) f = f a w
  continue (err e, w) f = (err e, w)

  infixl 5 ◌>>=◌ ◌>>◌
  unfoldable pub ◌>>=◌ : M A → (A → M B) → M B
  unfolding continue
  ◌>>=◌ m f w = continue (m w) f

  unfoldable pub ◌>>◌ : M A → M B → M B
  unfolding ◌>>=◌
  m >> n = m >>= λ _. n

module _ {A : Type 0} where
  -- `if err != nil { … }` at a call site: the handler decides on the error.
  unfoldable pub handle : Result A × World → (Err → M A) → Result A × World
  handle (ok a, w) f = (ok a, w)
  handle (err e, w) f = f e w

  unfoldable pub catch : M A → (Err → M A) → M A
  unfolding handle
  catch m f w = handle (m w) f

  -- One statement: the effect of the SQL is all or nothing. A fault of its own hides what the SQL
  -- says, and may strike before the effect or behind it: the backend goes on after the client is gone.
  unfoldable pub landed : Result (A × Db) → World → Result A × World
  landed (ok (a, d)) w = (ok a, record w { db = d; calls = suc w.calls })
  landed (err e) w = (err e, record w { calls = suc w.calls })

  abbrev pub left_by : Bool → Result (A × Db) → Db → Db
  left_by true (ok (a, d)) before = d
  left_by _ _ before = before

  unfoldable pub outcome : Option Fault → (World → Result (A × Db)) → World → Result A × World
  unfolding landed
  outcome none f w = landed (f w) w
  outcome (some x) f w = (
    err (fault_err x),
    record w { db = left_by (w.lands w.calls) (f w) w.db; calls = suc w.calls },
  )

  unfoldable pub stmt : (World → Result (A × Db)) → M A
  unfolding outcome
  stmt f w = outcome (w.fault w.calls) f w

  unfoldable pub kept : Db → Result A → Result (A × Db)
  kept d (ok a) = ok (a, d)
  kept d (err e) = err e

  -- A statement that only reads.
  unfoldable pub query : (World → Result A) → M A
  unfolding stmt kept
  query f = stmt λ w. kept w.db (f w)

  -- `Tx` of internal/store/store.go: begin, the body, and commit, or a rollback of every write.
  -- A commit that reports a fault has written all or nothing.
  unfoldable pub ended : Db → Option Fault → A → World → Result A × World
  ended before none a w = (ok a, record w { calls = suc w.calls })
  ended before (some x) a w = (
    err (fault_err x),
    record w { db = if w.lands w.calls then w.db else before; calls = suc w.calls },
  )

  unfoldable pub commit : Db → Result A × World → Result A × World
  unfolding ended
  commit before (err e, w) = (err e, record w { db = before })
  commit before (ok a, w) = ended before (w.fault w.calls) a w

  unfoldable pub begun : Option Fault → M A → World → Result A × World
  unfolding commit
  begun (some x) body w = (err (fault_err x), record w { calls = suc w.calls })
  begun none body w = commit w.db (body (record w { calls = suc w.calls }))

  unfoldable pub tx : M A → M A
  unfolding begun
  tx body w = begun (w.fault w.calls) body w
