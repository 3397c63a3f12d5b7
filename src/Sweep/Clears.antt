-- ===== src/Sweep/Clears.antt =====
-- A sweep that no call fails clears the table of what is abandoned.
use bluestaq_takehome.Prelude.{
  not, ℕ, zero, suc, ◌+◌, ◌-◌, ◌≤◌, ◌≡◌, refl, sym, ap, ◌∙◌, Bool, true, false, Bool-cases, inl,
  inr, Option, none, some, List, [], ◌∷◌, All, any, keep, drop_if, count_if, insert_by, sort_by,
  length, take, map, ◌==◌, arith,
}
use bluestaq_takehome.Prelude.Text.{Text}
use bluestaq_takehome.Prelude.Counting.{count_if_ext, any_ext, count_if→any, count_if-sort_by}
use bluestaq_takehome.Prelude.Every.{All-map}
use bluestaq_takehome.Httpx.Problems.{Err, ok}
use bluestaq_takehome.Storage
use bluestaq_takehome.Store.Models.{Attachment}
use bluestaq_takehome.Store.World.{
  World, pure, catch, handle, continue, stmt, query, outcome, landed, kept, removed, ◌>>=◌, ◌>>◌,
}
use bluestaq_takehome.Store.AttachmentQueries.{
  ListStaleUploadsRow, is_attachment, is_stale, stale_rows, stale_row, list_stale_uploads,
  delete_attachment_by_id,
}
use bluestaq_takehome.Notes.Visibility.{step_call}
use bluestaq_takehome.Notes.Refusing.{removals_after}
use bluestaq_takehome.Sweep.{
  Report, Tally, tolerate, sweep_row, try_row, counted, sweep_rows, sweep_found, sweep_or_report,
  run,
}
use bluestaq_takehome.Sweep.Spares.{is_wanted}
use bluestaq_takehome.Sweep.Totals.{stale_found}

abbrev pub is_tolerated : Option Err → Bool
is_tolerated none = true
is_tolerated (some e) = Storage.is_not_found e

-- No call of the database fails, and the object store removes what it is asked to, or does not have it.
abbrev pub IsWilling : World → Type 0
IsWilling w =
    ((k : ℕ) → w.fault k ≡ none)
    × ((k : ℕ) (key : Text) → is_tolerated (w.env.object_client.remove_object k key) ≡ true)

abbrev row_after : ListStaleUploadsRow → World → World
row_after row w = record w {
  db = record w.db { attachments = drop_if (is_attachment row.id) w.db.attachments };
  calls = suc (suc w.calls);
  removals =
      removals_after w.removals row.object_key
        (w.env.object_client.remove_object w.calls row.object_key);
}

try_row-done :
    (row : ListStaleUploadsRow) (w : World) (o : Option Err)
    → w.env.object_client.remove_object w.calls row.object_key ≡ o
    → is_tolerated o ≡ true
    → w.fault (suc w.calls) ≡ none
    → try_row row w ≡ (ok true, row_after row w)
unfolding try_row sweep_row Storage.delete removed tolerate delete_attachment_by_id catch handle
    stmt outcome landed continue pure ◌>>=◌ ◌>>◌
try_row-done row w none e t calm = rw (e, calm) refl
try_row-done row w (some x) e t calm = rw (e, t, calm) refl

abbrev rows_after : List ListStaleUploadsRow → World → World
rows_after [] w = w
rows_after (row ∷ rows) w = rows_after rows (row_after row w)

abbrev add_deleted : ℕ → Tally → Tally
add_deleted zero t = t
add_deleted (suc n) t = add_deleted n (counted true t)

sweep_rows-done :
    (rows : List ListStaleUploadsRow) (t : Tally) (w : World)
    → IsWilling w
    → sweep_rows rows t w ≡ (ok (add_deleted (length rows) t), rows_after rows w)
unfolding sweep_rows pure ◌>>=◌ continue
sweep_rows-done [] t w h = refl
sweep_rows-done (row ∷ rows) t w (calm, willing) =
    rw (try_row-done row w _ refl (willing w.calls row.object_key) (calm (suc w.calls)))
      (sweep_rows-done rows (counted true t) (row_after row w) (calm, willing))

deleted-add_deleted : (n : ℕ) (t : Tally) → (add_deleted n t).deleted ≡ t.deleted + n
deleted-add_deleted zero t = omega arith
deleted-add_deleted (suc n) t = omega (arith, deleted-add_deleted n (counted true t))

failed-add_deleted : (n : ℕ) (t : Tally) → (add_deleted n t).failed ≡ t.failed
failed-add_deleted zero t = refl
failed-add_deleted (suc n) t = failed-add_deleted n (counted true t)

-- All of `n` rows are deleted.
abbrev pub all_deleted : ℕ → Report
all_deleted n = record { found = n; deleted = n; failed = 0; error = none }

chosen-done :
    (rows : List ListStaleUploadsRow) (w : World)
    → IsWilling w
    → sweep_or_report rows false w ≡ (ok (all_deleted (length rows)), rows_after rows w)
unfolding sweep_or_report sweep_found pure ◌>>=◌ continue
chosen-done [] w h = refl
chosen-done (row ∷ rows) w h =
    let one : Tally = record { deleted = 1; failed = 0 } in
    let total : (add_deleted (length rows) one).deleted ≡ suc (length rows) =
      omega (arith, deleted-add_deleted (length rows) one) in
    rw
      (
        sweep_rows-done (row ∷ rows) (record { deleted = 0; failed = 0 }) w h,
        total,
        failed-add_deleted (length rows) one,
      )
      refl

-- The row is on the list.
abbrev is_listed : List ListStaleUploadsRow → Attachment → Bool
is_listed rows x = any (λ row. x.id == row.id) rows

abbrev Listed : ℕ → List ListStaleUploadsRow → Attachment → Type 0
Listed cutoff rows x = is_stale cutoff x ≡ true → is_listed rows x ≡ true

All-dropped :
    (cutoff : ℕ) (row : ListStaleUploadsRow) (rows : List ListStaleUploadsRow)
    (xs : List Attachment)
    → All (Listed cutoff (row ∷ rows)) xs
    → All (Listed cutoff rows) (drop_if (is_attachment row.id) xs)
unfolding keep any
All-dropped cutoff row rows [] a = tt
All-dropped cutoff row rows (x ∷ xs) (p, a) = elim (Bool-cases (x.id == row.id)) [
  | inl e ↦ rw e (All-dropped cutoff row rows xs a)
  | inr e ↦ rw e ((λ s. rw e at (p s)), All-dropped cutoff row rows xs a)
]

nothing_stale :
    (cutoff : ℕ) (xs : List Attachment)
    → All (Listed cutoff []) xs
    → any (is_stale cutoff) xs ≡ false
unfolding any
nothing_stale cutoff [] a = refl
nothing_stale cutoff (x ∷ xs) (p, a) = elim (Bool-cases (is_stale cutoff x)) [
  | inl e ↦ absurd (ground (arith, p e))
  | inr e ↦ rw (e, nothing_stale cutoff xs a) refl
]

cleared :
    (cutoff : ℕ) (rows : List ListStaleUploadsRow) (w : World)
    → All (Listed cutoff rows) w.db.attachments
    → any (is_stale cutoff) (rows_after rows w).db.attachments ≡ false
cleared cutoff [] w a = nothing_stale cutoff w.db.attachments a
cleared cutoff (row ∷ rows) w a =
    cleared cutoff rows (row_after row w) (All-dropped cutoff row rows w.db.attachments a)

-- Every stale row is on the list, where the list is not cut.
abbrev has_id_of : Attachment → Attachment → Bool
has_id_of x y = x.id == y.id

any-map_stale :
    (x : Attachment) (ys : List Attachment) → is_listed (map stale_row ys) x ≡ any (has_id_of x) ys
unfolding any
any-map_stale x [] = refl
any-map_stale x (y ∷ ys) = rw (any-map_stale x ys) refl

abbrev Kept : ℕ → List Attachment → Attachment → Type 0
Kept cutoff xs x = is_stale cutoff x ≡ true → 1 ≤ count_if (has_id_of x) (keep (is_stale cutoff) xs)

each_counts : (cutoff : ℕ) (xs : List Attachment) → All (Kept cutoff xs) xs
unfolding keep count_if
each_counts cutoff [] = tt
each_counts cutoff (x ∷ xs) = (
  (λ s. rw s (ground arith)),
  All-map (Kept cutoff xs) (λ y h s. ground (arith, h s)) xs (each_counts cutoff xs),
)

length-keep : (p : Attachment → Bool) (xs : List Attachment) → length (keep p xs) ≡ count_if p xs
unfolding keep count_if
length-keep p [] = refl
length-keep p (x ∷ xs) = ground (arith, length-keep p xs)

length-insert_by :
    (le : Attachment → Attachment → Bool) (x : Attachment) (xs : List Attachment)
    → length (insert_by le x xs) ≡ suc (length xs)
unfolding insert_by
length-insert_by le x [] = refl
length-insert_by le x (y ∷ ys) = ground (arith, length-insert_by le x ys)

length-sort_by :
    (le : Attachment → Attachment → Bool) (xs : List Attachment)
    → length (sort_by le xs) ≡ length xs
unfolding sort_by
length-sort_by le [] = refl
length-sort_by le (x ∷ xs) = length-insert_by le x (sort_by le xs) ∙ ap suc (length-sort_by le xs)

take_all : (n : ℕ) (xs : List Attachment) → length xs ≤ n → take n xs ≡ xs
unfolding take
take_all zero [] h = refl
take_all zero (x ∷ xs) h = absurd (omega arith)
take_all (suc n) [] h = refl
take_all (suc n) (x ∷ xs) h = ap (◌∷◌ x) (take_all n xs (omega (arith, h)))

length-stale_rows :
    (cutoff : ℕ) (xs : List Attachment)
    → length (stale_rows cutoff xs) ≡ count_if (is_stale cutoff) xs
unfolding stale_rows
length-stale_rows cutoff xs = length-sort_by _ _ ∙ length-keep (is_stale cutoff) xs

length-map_stale : (xs : List Attachment) → length (map stale_row xs) ≡ length xs
length-map_stale [] = refl
length-map_stale (x ∷ xs) = ap suc (length-map_stale xs)

Kept-Listed :
    (cutoff : ℕ) (xs : List Attachment) (x : Attachment)
    → Kept cutoff xs x
    → Listed cutoff (map stale_row (stale_rows cutoff xs)) x
unfolding stale_rows
Kept-Listed cutoff xs x k s =
    any-map_stale x (stale_rows cutoff xs)
    ∙ count_if→any (has_id_of x) (stale_rows cutoff xs)
        (rw (count_if-sort_by (has_id_of x) _ (keep (is_stale cutoff) xs)) (k s))

module _ (cutoff batch : ℕ) (w : World)
    (h : count_if (is_stale cutoff) w.db.attachments ≤ batch) where
  found_all : stale_found cutoff batch w ≡ map stale_row (stale_rows cutoff w.db.attachments)
  found_all = ap (map stale_row) (
      take_all batch (stale_rows cutoff w.db.attachments)
        (rw (length-stale_rows cutoff w.db.attachments) h))

  found_number : length (stale_found cutoff batch w) ≡ count_if (is_stale cutoff) w.db.attachments
  found_number = rw found_all (
      length-map_stale (stale_rows cutoff w.db.attachments)
      ∙ length-stale_rows cutoff w.db.attachments)

  found_Listed : All (Listed cutoff (stale_found cutoff batch w)) w.db.attachments
  found_Listed = rw found_all (
      All-map (Kept cutoff w.db.attachments) (Kept-Listed cutoff w.db.attachments) w.db.attachments
        (each_counts cutoff w.db.attachments))

stale_cleared :
    (clock age batch : ℕ) (w : World)
    → IsWilling w
    → count_if (is_stale (clock - age)) w.db.attachments ≤ batch
    → ((run clock age batch false w).0
        ≡ ok (all_deleted (count_if (is_stale (clock - age)) w.db.attachments)))
      × (any (is_stale (clock - age)) (run clock age batch false w).1.db.attachments ≡ false)
unfolding run list_stale_uploads query stmt outcome landed kept ◌>>=◌ continue
stale_cleared clock age batch w (calm, willing) h =
    rw (calm w.calls, chosen-done (stale_found (clock - age) batch w) (step_call w) (calm, willing))
      (
        ap (λ n. ok (all_deleted n)) (found_number (clock - age) batch w h),
        cleared (clock - age) (stale_found (clock - age) batch w) (step_call w)
            (found_Listed (clock - age) batch w h),
      )

-- Neither ready nor as young as the cutoff.
abbrev pub is_abandoned : ℕ → Attachment → Bool
is_abandoned cutoff a = not (is_wanted cutoff a)

is_abandoned-is_stale : (cutoff : ℕ) (a : Attachment) → is_abandoned cutoff a ≡ is_stale cutoff a
is_abandoned-is_stale cutoff a = ground arith

-- Where no call fails and the object store removes what it is asked to, or does not have it, and no more
-- uploads are abandoned than a batch holds, one sweep deletes each of them: the report counts them all
-- as deleted, with no error, and no row older than the cutoff is pending any more.
pub run_clears :
    (clock age batch : ℕ) (w : World)
    → IsWilling w
    → count_if (is_abandoned (clock - age)) w.db.attachments ≤ batch
    → ((run clock age batch false w).0
        ≡ ok (all_deleted (count_if (is_abandoned (clock - age)) w.db.attachments)))
      × (any (is_abandoned (clock - age)) (run clock age batch false w).1.db.attachments ≡ false)
run_clears clock age batch w willing h =
    rw
      (
        count_if_ext (is_abandoned (clock - age)) (is_stale (clock - age))
            (is_abandoned-is_stale (clock - age)) w.db.attachments,
        any_ext (is_abandoned (clock - age)) (is_stale (clock - age))
            (is_abandoned-is_stale (clock - age)) (run clock age batch false w).1.db.attachments,
      )
      (stale_cleared clock age batch w willing (
        rw
          (sym (
            count_if_ext (is_abandoned (clock - age)) (is_stale (clock - age))
              (is_abandoned-is_stale (clock - age)) w.db.attachments))
          h))
