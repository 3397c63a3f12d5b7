-- ===== src/Sweep.antt =====
-- cmd/sweep/main.go: the command that deletes abandoned uploads, once it has its connections.
pub mod Totals
pub mod Spares
pub mod Clears
use bluestaq_takehome.Prelude.{
  ℕ, zero, suc, ◌-◌, Bool, true, false, ◌||◌, Option, none, some, List, [], ◌∷◌, length, ltb,
  if◌then◌else◌,
}
use bluestaq_takehome.Httpx.Problems.{Err, Message, num, lit}
use bluestaq_takehome.Storage
use bluestaq_takehome.Store.World.{M, pure, throw, catch, ◌>>=◌, ◌>>◌}
use bluestaq_takehome.Store.AttachmentQueries.{
  ListStaleUploadsRow, list_stale_uploads, delete_attachment_by_id,
}

-- What the command prints, and the error it exits with.
pub record Report : Type 0 where
  pub found : ℕ
  pub deleted : ℕ
  pub failed : ℕ
  pub error : Option Message

pub record Tally : Type 0 where
  pub deleted : ℕ
  pub failed : ℕ

abbrev pub is_nil : {A : Type 0} → List A → Bool
is_nil [] = true
is_nil (x ∷ xs) = false

-- An object that is not there is no error.
unfoldable pub tolerate : Err → M (Unit {0})
tolerate e = if Storage.is_not_found e then pure tt else throw e

-- Object first, row second.
unfoldable pub sweep_row : ListStaleUploadsRow → M ℕ
sweep_row a = do catch (Storage.delete a.object_key) tolerate; delete_attachment_by_id a.id

-- `failed++; continue` where one of the two calls fails.
unfoldable pub try_row : ListStaleUploadsRow → M Bool
try_row a = catch (do n ← sweep_row a; pure true) (λ e. pure false)

abbrev pub counted : Bool → Tally → Tally
counted true t = record t { deleted = suc t.deleted }
counted false t = record t { failed = suc t.failed }

unfoldable pub sweep_rows : List ListStaleUploadsRow → Tally → M Tally
sweep_rows [] t = pure t
sweep_rows (a ∷ rows) t = do done ← try_row a; sweep_rows rows (counted done t)

abbrev pub error_of : ℕ → Option Message
error_of failed =
    if ltb 0 failed then some (num failed ∷ lit " attachment(s) could not be swept" ∷ []) else none

unfoldable pub sweep_found : List ListStaleUploadsRow → M Report
sweep_found stale = do
  t ← sweep_rows stale (record { deleted = 0; failed = 0 })
  pure (record {
    found = length stale;
    deleted = t.deleted;
    failed = t.failed;
    error = error_of t.failed;
  })

abbrev pub untouched : List ListStaleUploadsRow → Report
untouched stale = record { found = length stale; deleted = 0; failed = 0; error = none }

unfoldable pub sweep_or_report : List ListStaleUploadsRow → Bool → M Report
sweep_or_report stale dry_run =
    if is_nil stale || dry_run then pure (untouched stale) else sweep_found stale

-- `clock` is time.Now().
unfoldable pub run : (clock age batch : ℕ) → Bool → M Report
run clock age batch dry_run = do
  stale ← list_stale_uploads (clock - age) batch
  sweep_or_report stale dry_run
