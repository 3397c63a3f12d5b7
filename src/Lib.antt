-- ===== src/Lib.antt =====
-- A model of the notes service: an HTTP API over Postgres and an object store for notes with versions,
-- grants to users and teams, teams, accounts and attachments, and the sweep of abandoned uploads.
--
-- A request passes the public listener (internal/server) and, but for the sign-in, the middleware that
-- reads its token (internal/auth); a handler of internal/notes, internal/teams or internal/users checks
-- who asks (internal/authz), runs SQL (internal/store), calls the object store (internal/storage) and
-- replies with JSON or with a problem document (internal/httpx). The files follow that:
--
--   Prelude           lists, numbers and text as the program uses them: Lists, Text, Decimal, Tests,
--                     Integer (Go's signed integers), Base64; Counting, Every and Descending (sorted
--                     lists and their pages) are lemmas
--   Authz             internal/authz/role.go: roles, actions, the decision table; Table its theorems
--   Config            internal/config/config.go: Load; Valid its theorem
--   Auth              internal/auth/token.go and middleware.go; Bearer its theorems
--   Store/Models      the tables of migrations/ as rows (internal/store/sqlcgen/models.go)
--   Store/World       what a request runs in: the tables, the environment, faults; `Tx` of
--                     internal/store/store.go
--   Store/Errors      IsNotFound and its kin of internal/store/store.go
--   Store/*Queries    internal/store/sqlcgen/*.sql.go: a query is its SQL over the lists of rows
--   Store/Cursor      Cursor of internal/store/notes_list.go; NotesList its ListNotes
--   Store/Hoare       triples over the tables, one rule for each way to build a computation; Keeps
--                     the rules for invariants, Whole those for computations that write all or nothing
--   Httpx, Problems   internal/httpx/problem.go: WriteProblem, WriteJSON, DecodeJSON, the problems
--   Httpx/Atomic      what a handler leaves in the tables, whatever it replies; Failures: errors of
--                     the first step
--   Storage           internal/storage/storage.go
--   Teams             internal/teams/handler.go; Race is two calls of removeFromTeam at once; the
--                     other children are theorems: Errors, Governed, Pending, LastAdmin and Admins
--                     (the invariant), Access
--   Notes             internal/notes: Dto (dto.go), Tags, IfMatch, Load, Handler and Routes
--                     (handler.go), Shares (shares.go), List (list.go), References, Filenames, Uploads
--                     and Attachments (attachments.go); the other children are theorems: Visibility,
--                     Access and Gate (who sees a note), Roles, Errors, Sound and Keeping (the
--                     invariant), Granting, Updating and Versions (If-Match), Trash and Recovery
--                     (delete and restore), Gathering and TagRules, Etags; Listed, Pages, Following and
--                     Limits (lists); Stored, Storing, Aimed, Completing, Refusing, Removing,
--                     UploadErrors and FilenameRules (attachments)
--   Users             internal/users/handler.go and the password rules of internal/auth/password.go:
--                     Endpoints and Routes; Errors, Logins, Closing and Sessions are theorems
--   Sweep             cmd/sweep/main.go; Totals, Spares and Clears are theorems
--   Server            internal/server/server.go, with RequestID of internal/obs/middleware.go; Health
--                     (health.go); Doors and Methods are theorems
--   Examples          concrete inputs for the theorems
--
-- A handler is a function `Request → M (Reply A)`, where `M A` is `World → Result A × World`: Go's
-- `if err != nil` is `>>=`, and `catch` where the handler looks at the error. Each database call has
-- a number. What is not in the repository is a field of `Env`, read by that number where it can
-- change: the clock and the uuids of Postgres, the answers of the object store, the parser and printer
-- of google/uuid, the floats of strconv, the text search and its rank, the tables of package unicode,
-- the collation, and the equality of citext.
--
-- A fault (a lost client, a deadline, a statement timeout, any other error) is a field of `World`, by
-- the number of the call, and hides the call's answer. It strikes before the statement or the commit
-- takes effect, or behind it (`World.lands`): the database goes on where the client is gone. A commit
-- that meets a fault has written all or nothing.
--
-- The object store is not a table: its removals are a log of keys. The packages bcrypt and JWT and the
-- clock of the process are the record `Users.Handler`; the environment of the process is the record
-- `Os` of Config.
--
-- A uuid is a number, and 0 is uuid.Nil. The rank of the text search, a float32 that is not negative,
-- is a number in the order of the floats. A string that the program walks is a list of code points of
-- valid UTF-8, and a byte that is no part of one is the number 0x110000; `len` counts bytes. A decoded
-- body is a value, or the class of the decoder's error. Messages keep their format arguments apart.
--
-- SQL is kept with its keys, checks and foreign keys. Rows come in table order where a query gives
-- none. `version` is 32 bits wide: an update that would leave the range fails, as in Postgres.
-- `validateBodyReferences` walks a Go map, whose order is open; the model takes the body's order. The
-- digits of `itoa` come with fuel one more than the number, which a number of digits never exceeds;
-- the pages of a list come with fuel for their number, for which the number of rows is enough.
-- Requests run one after the other, except in Teams/Race, where two calls interleave statement by
-- statement as read committed lets them.
--
-- Not modelled: the matching of paths, which chi does; metrics, logs, the recovery from panics and
-- the deadline of a request, whose effect is a fault of the model; the entry points of the processes
-- other than the sweep, which are start-up and I/O; the seeding of a database; and the support of the
-- tests.
mod Prelude
pub mod Authz
pub mod Store
pub mod Httpx
pub mod Config
pub mod Auth
pub mod Storage
pub mod Notes
pub mod Teams
pub mod Users
pub mod Sweep
pub mod Server
pub mod Examples
