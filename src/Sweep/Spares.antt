-- ===== src/Sweep/Spares.antt =====
-- What the sweep leaves alone.
use mathlib.Core.Path.{subst}
use bluestaq_takehome.Prelude.{
  str_eq, leb, ◌||◌, ℕ, ◌-◌, ◌≤◌, ◌≡◌, refl, sym, ap, ◌∙◌, Bool, true, false, not, List, [], ◌∷◌,
  All, keep, drop_if, count_if, take, map, arith,
}
use bluestaq_takehome.Prelude.Counting.{
  keep_ext, count_if-keep, keep_comm, drop_none, count_if-drop_if_le,
}
use bluestaq_takehome.Prelude.Every.{All-map, All-sort_by, All-take, All-mapped}
use bluestaq_takehome.Httpx.Problems.{Result, ok, err}
use bluestaq_takehome.Store.Models.{Db, Attachment}
use bluestaq_takehome.Store.World.{World}
use bluestaq_takehome.Store.Hoare.{Post, Keeps, Hoare-lands, Hoare-bind, Hoare-query}
use bluestaq_takehome.Store.Keeps.{
  Keeps-bind, Keeps-pure, Keeps-catch, Keeps-then, Keeps-if, Keeps-throw,
}
use bluestaq_takehome.Store.AttachmentQueries.{
  ListStaleUploadsRow, is_attachment, is_stale, stale_rows, stale_row, list_stale_uploads,
  delete_attachment_by_id,
}
use bluestaq_takehome.Notes.Stored.{IsStored, delete_attachment_by_id-IsStored}
use bluestaq_takehome.Notes.Storing.{Keeps-delete}
use bluestaq_takehome.Notes.Updating.{Hoare-given}
use bluestaq_takehome.Sweep.{
  Tally, tolerate, sweep_row, try_row, counted, sweep_rows, sweep_found, sweep_or_report, run,
}

-- The rows of a table that a sweep with this cutoff has no business with.
abbrev spared : ℕ → Db → List Attachment
spared cutoff d = drop_if (is_stale cutoff) d.attachments

-- The rows that are ready, or not older than the cutoff.
abbrev pub is_wanted : ℕ → Attachment → Bool
is_wanted cutoff a = not (str_eq a.status "pending") || leb cutoff a.created_at

spared-is_wanted : (cutoff : ℕ) (d : Db) → spared cutoff d ≡ keep (is_wanted cutoff) d.attachments
spared-is_wanted cutoff d =
    keep_ext (λ a. not (is_stale cutoff a)) (is_wanted cutoff) (λ a. ground arith) d.attachments

-- No spared row has the id.
abbrev IsFree : ℕ → List Attachment → ListStaleUploadsRow → Type 0
IsFree cutoff rest row = count_if (is_attachment row.id) rest ≡ 0

counts_itself : (xs : List Attachment) → All (λ x. 1 ≤ count_if (is_attachment x.id) xs) xs
unfolding count_if
counts_itself [] = tt
counts_itself (x ∷ xs) = (
  ground arith,
  All-map (λ y. 1 ≤ count_if (is_attachment y.id) xs) (λ y h. omega (arith, h)) xs
      (counts_itself xs),
)

stale-IsFree :
    (cutoff : ℕ) (xs : List Attachment)
    → ((id : ℕ) → count_if (is_attachment id) xs ≤ 1)
    → All
        (λ x. count_if (is_attachment x.id) (drop_if (is_stale cutoff) xs) ≡ 0)
        (keep (is_stale cutoff) xs)
stale-IsFree cutoff xs one =
    All-map (λ x. 1 ≤ count_if (is_attachment x.id) (keep (is_stale cutoff) xs))
      (λ x h. omega (arith, h, one x.id, count_if-keep (is_attachment x.id) (is_stale cutoff) xs))
      (keep (is_stale cutoff) xs) (counts_itself (keep (is_stale cutoff) xs))

found-IsFree :
    (cutoff batch : ℕ) (xs : List Attachment)
    → ((id : ℕ) → count_if (is_attachment id) xs ≤ 1)
    → All
        (IsFree cutoff (drop_if (is_stale cutoff) xs))
        (map stale_row (take batch (stale_rows cutoff xs)))
unfolding stale_rows
found-IsFree cutoff batch xs one =
    All-mapped (IsFree cutoff (drop_if (is_stale cutoff) xs)) stale_row _
      (All-take _ batch _ (All-sort_by _ _ _ (stale-IsFree cutoff xs one)))

All-any : {A : Type 0} (xs : List A) → All (λ x. Unit {0}) xs
All-any [] = tt
All-any (x ∷ xs) = (tt, All-any xs)

either : {A : Type 0} (P : Db → Type 0) (x : Result A × World) → Post (λ _. P) P x → P x.1.db
either P (ok a, w) p = p
either P (err e, w) p = p

ok_injective : {A : Type 0} (a b : A) → ok a ≡ ok b → a ≡ b
ok_injective a b e = ap (value_or a) e
  where
    value_or : {A : Type 0} → A → Result A → A
    value_or a (ok b) = b
    value_or a (err x) = a

-- What the deletion of each row keeps, the sweep keeps.
module _ (P : Db → Type 0) (F : ListStaleUploadsRow → Type 0)
    (drop : (row : ListStaleUploadsRow) → F row → Keeps P (delete_attachment_by_id row.id)) where
  row-Keeps : (row : ListStaleUploadsRow) → F row → Keeps P (try_row row)
  unfolding try_row sweep_row tolerate
  row-Keeps row free =
      Keeps-catch _ _
        (Keeps-bind _ _
          (Keeps-then _ _
            (Keeps-catch _ _ (Keeps-delete row.object_key)
              (λ e. Keeps-if _ _ _ (Keeps-pure tt) (Keeps-throw e)))
            (drop row free))
          (λ n. Keeps-pure true))
        (λ e. Keeps-pure false)

  rows-Keeps :
      (rows : List ListStaleUploadsRow) (t : Tally) → All F rows → Keeps P (sweep_rows rows t)
  unfolding sweep_rows
  rows-Keeps [] t h = Keeps-pure t
  rows-Keeps (row ∷ rows) t (free, h) =
      Keeps-bind _ _ (row-Keeps row free) (λ done. rows-Keeps rows (counted done t) h)

  chosen-Keeps :
      (rows : List ListStaleUploadsRow) (dry_run : Bool)
      → All F rows
      → Keeps P (sweep_or_report rows dry_run)
  unfolding sweep_or_report sweep_found
  chosen-Keeps rows dry_run h =
      Keeps-if _ _ _ (Keeps-pure _) (Keeps-bind _ _ (rows-Keeps rows _ h) (λ t. Keeps-pure _))

  -- The rows come from the first query.
  run-Keeps :
      (clock age batch : ℕ) (dry_run : Bool)
      → ((w : World)
          → P w.db
          → All F (map stale_row (take batch (stale_rows (clock - age) w.db.attachments))))
      → Keeps P (run clock age batch dry_run)
  unfolding run list_stale_uploads
  run-Keeps clock age batch dry_run all_free =
      Hoare-bind {Q = λ rows d. All F rows × P d} _ _
        (Hoare-query _ (λ w rows p e. (subst (All F) (ok_injective _ _ e) (all_free w p), p))
          (λ d p. p))
        (λ rows. Hoare-given _ (λ h. chosen-Keeps rows dry_run h))

module _ (cutoff : ℕ) (rest : List Attachment) where
  -- The spared rows are still those, and ids are unique.
  record Spares (d : Db) : Type 0 where
    same : spared cutoff d ≡ rest
    one_id : (id : ℕ) → count_if (is_attachment id) d.attachments ≤ 1

  deleted-Spares :
      (row : ListStaleUploadsRow)
      → IsFree cutoff rest row
      → Keeps Spares (delete_attachment_by_id row.id)
  unfolding delete_attachment_by_id
  deleted-Spares row free =
      Hoare-lands _
        (λ w p. record {
          same =
              keep_comm (λ x. not (is_stale cutoff x)) (λ x. not (is_attachment row.id x))
                w.db.attachments
              ∙ ap (drop_if (is_attachment row.id)) p.same
              ∙ drop_none (is_attachment row.id) rest free;
          one_id = λ id. omega (
            arith,
            p.one_id id,
            count_if-drop_if_le (is_attachment id) (is_attachment row.id) w.db.attachments,
          );
        })
        (λ d e. e) (λ n d e. e)

run-Spares :
    (clock age batch : ℕ) (dry_run : Bool) (rest : List Attachment)
    → Keeps (Spares (clock - age) rest) (run clock age batch dry_run)
run-Spares clock age batch dry_run rest =
    run-Keeps (Spares (clock - age) rest) (IsFree (clock - age) rest)
      (deleted-Spares (clock - age) rest) clock age batch dry_run
      (λ w p.
        subst
          (λ xs.
            All (IsFree (clock - age) xs)
              (map stale_row (take batch (stale_rows (clock - age) w.db.attachments))))
          p.same (found-IsFree (clock - age) batch w.db.attachments p.one_id))

-- A sweep deletes nothing but abandoned uploads: whatever faults it meets, the rows that are ready, or
-- that were created at the cutoff or later, are those from before, in their order. Ids of attachments
-- are unique.
pub run-is_wanted :
    (clock age batch : ℕ) (dry_run : Bool) (w : World)
    → ((id : ℕ) → count_if (is_attachment id) w.db.attachments ≤ 1)
    → keep (is_wanted (clock - age)) (run clock age batch dry_run w).1.db.attachments
      ≡ keep (is_wanted (clock - age)) w.db.attachments
run-is_wanted clock age batch dry_run w one =
    let kept =
      either (Spares (clock - age) (spared (clock - age) w.db)) (run clock age batch dry_run w) (
        (run-Spares clock age batch dry_run (spared (clock - age) w.db)).at w
          (record { same = refl; one_id = one })) in
    sym (spared-is_wanted (clock - age) (run clock age batch dry_run w).1.db)
    ∙ kept.same
    ∙ spared-is_wanted (clock - age) w.db

-- A sweep keeps the invariant of the table of attachments.
pub run-IsStored :
    (top clock age batch : ℕ) (dry_run : Bool) (w : World)
    → IsStored top w.db
    → IsStored top (run clock age batch dry_run w).1.db
run-IsStored top clock age batch dry_run w g =
    either (IsStored top) (run clock age batch dry_run w) (
      (run-Keeps (IsStored top) (λ row. Unit {0})
          (λ row u. delete_attachment_by_id-IsStored top row.id) clock age batch dry_run
          (λ v p. All-any _)).at
        w g)
