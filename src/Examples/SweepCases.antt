-- ===== src/Examples/SweepCases.antt =====
-- The theorems on the sweep at concrete inputs.
use bluestaq_takehome.Prelude.{
  none, false, ℕ, ◌-◌, ◌≤◌, ◌≡◌, refl, false, [], ◌∷◌, arith, any, keep, count_if, length,
}
use bluestaq_takehome.Prelude.Text.{codes}
use bluestaq_takehome.Httpx.Problems.{ok}
use bluestaq_takehome.Store.Models.{Attachment}
use bluestaq_takehome.Store.World.{World}
use bluestaq_takehome.Store.AttachmentQueries.{is_attachment}
use bluestaq_takehome.Sweep.{run}
use bluestaq_takehome.Sweep.Totals.{Returns, Adds, swept, run_total}
use bluestaq_takehome.Sweep.Spares.{is_wanted, run-is_wanted}
use bluestaq_takehome.Sweep.Clears.{all_deleted, is_abandoned, run_clears}
use bluestaq_takehome.Examples.Data.{env, db, upload}

abbrev young : Attachment
young = record upload { id = 11; object_key = codes "l"; created_at = 95 }

abbrev uploads : World
uploads = record {
  env = env;
  db = record db { attachments = upload ∷ young ∷ [] };
  calls = 0;
  fault = λ k. none;
  lands = λ k. false;
  conflicts = 0;
  presigns = 0;
  removals = [];
}

run_total_example :
    Returns (Adds (swept (100 - 24) 500 uploads)) (run 100 24 500 false uploads)
    × (length (swept (100 - 24) 500 uploads) ≤ 500)
run_total_example = run_total 100 24 500 uploads refl

one_id : (id : ℕ) → count_if (is_attachment id) uploads.db.attachments ≤ 1
unfolding count_if
one_id id = ground arith

run-is_wanted_example :
    keep (is_wanted (100 - 24)) (run 100 24 500 false uploads).1.db.attachments
    ≡ keep (is_wanted (100 - 24)) uploads.db.attachments
run-is_wanted_example = run-is_wanted 100 24 500 false uploads one_id

run_clears_example :
    ((run 100 24 500 false uploads).0
      ≡ ok (all_deleted (count_if (is_abandoned (100 - 24)) uploads.db.attachments)))
    × (any (is_abandoned (100 - 24)) (run 100 24 500 false uploads).1.db.attachments ≡ false)
unfolding count_if
run_clears_example = run_clears 100 24 500 uploads (λ k. refl, λ k key. refl) (omega arith)
