-- ===== src/Server/Health.antt =====
-- internal/server/health.go: the two probes of the admin listener.
use bluestaq_takehome.Prelude.{String, Option, none, some}
use bluestaq_takehome.Httpx.Problems.{Err, problem, errorf, say}
use bluestaq_takehome.Httpx.{Request, Reply, write_json, write_problem}

-- The reply's field `status`.
abbrev pub Status : Type 0
Status = String

unfoldable pub handle_live : Request → Reply Status
handle_live r = write_json 200 "ok"

-- `ping` is the error of `db.Ping`, with its deadline of two seconds.
unfoldable pub handle_ready : Option Err → Request → Reply Status
handle_ready (some e) r = write_problem r (problem (errorf 503 (say "database unreachable")))
handle_ready none r = write_json 200 "ready"
