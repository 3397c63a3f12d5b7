-- ===== src/Notes/Following.antt =====
-- A client that follows `next_cursor` of `ListNotes` (internal/store/notes_list.go) to the end.
use mathlib.Core.List.{append-nil}
use native.Mathlib.Numerals.{add-one}
use bluestaq_takehome.Prelude.{
  ℕ, zero, suc, ◌+◌, ◌≤◌, ◌<◌, ◌≡◌, refl, ap, ◌∙◌, Bool, true, false, Bool-cases, inl, inr, Option,
  none, some, List, [], ◌∷◌, ◌++◌, keep, count_if, length, take, ltb, arith,
}
use bluestaq_takehome.Prelude.Counting.{count_if-sort_by}
use bluestaq_takehome.Prelude.Descending.{
  IsDescending, last, drop, last-All, take-All, keep-below_last, take-drop,
}
use bluestaq_takehome.Httpx.Problems.{ok}
use bluestaq_takehome.Store.World.{
  World, M, pure, query, stmt, outcome, landed, kept, continue, ◌>>=◌,
}
use bluestaq_takehome.Store.NoteQueries.{is_note}
use bluestaq_takehome.Store.Cursor.{Cursor}
use bluestaq_takehome.Store.NotesList.{
  ListFilter, ListRow, is_past, all_rows, sorted_rows, cursor_at, last_cursor, page_of, list_notes,
  by_relevance,
}
use bluestaq_takehome.Notes.Visibility.{step_call}
use bluestaq_takehome.Notes.Pages.{
  row_before, row-IsOrder, from_cursor, sorted_past, sorted_rows-next, sorted_rows-IsDescending,
}

-- The next page, if there is one.
abbrev pub next_page : (Cursor → M (List ListRow)) → Option Cursor → M (List ListRow)
next_page follow none = pure []
next_page follow (some c) = follow c

-- At most `fuel` pages, one after the other.
unfoldable pub follow : ℕ → ListFilter → M (List ListRow)
follow zero f = pure []
follow (suc fuel) f = do
  (rows, next) ← list_notes f
  rest ← next_page (λ c. follow fuel (from_cursor f c)) next
  pure (rows ++ rest)

take_all : (n : ℕ) (xs : List ListRow) → length xs ≤ n → take n xs ≡ xs
unfolding take
take_all zero [] h = refl
take_all zero (x ∷ xs) h = absurd (omega arith)
take_all (suc n) [] h = refl
take_all (suc n) (x ∷ xs) h = ap (◌∷◌ x) (take_all n xs (omega (arith, h)))

take-take_more : (n : ℕ) (xs : List ListRow) → take n (take (suc n) xs) ≡ take n xs
unfolding take
take-take_more zero xs = refl
take-take_more (suc n) [] = refl
take-take_more (suc n) (x ∷ xs) = ap (◌∷◌ x) (take-take_more n xs)

length-take_more : (n : ℕ) (xs : List ListRow) → n < length xs → length (take (suc n) xs) ≡ suc n
unfolding take
length-take_more n [] h = absurd (omega arith)
length-take_more zero (x ∷ xs) h = refl
length-take_more (suc n) (x ∷ xs) h = ap suc (length-take_more n xs (omega (arith, h)))

length-drop : (n : ℕ) (xs : List ListRow) → 1 ≤ n → n < length xs → length (drop n xs) < length xs
unfolding drop
length-drop zero xs p h = absurd (omega arith)
length-drop (suc n) [] p h = absurd (omega arith)
length-drop (suc zero) (x ∷ xs) p h = omega arith
length-drop (suc (suc n)) (x ∷ xs) p h =
    omega (arith, length-drop (suc n) xs (omega arith) (omega (arith, h)))

-- The two shapes of a page.
page-whole : (n : ℕ) (xs : List ListRow) → length xs ≤ n → page_of n (take (n + 1) xs) ≡ (xs, none)
unfolding page_of
page-whole n xs h =
    let short : ltb n (length xs) ≡ false = ground arith in
    rw (take_all (n + 1) xs (omega (arith, h)), short) refl

page-cut :
    (n : ℕ) (xs : List ListRow)
    → n < length xs
    → page_of n (take (n + 1) xs) ≡ (take n xs, last_cursor (take n xs))
unfolding page_of
page-cut n xs h =
    let long : ltb n (suc n) ≡ true = ground arith in
    rw (add-one, length-take_more n xs h, long, take-take_more n xs) refl

-- A page that is cut ends with a row, and the cursor is at that row.
last_of :
    (x : ListRow) (xs : List ListRow)
    → (m : ListRow) × (last (x ∷ xs) ≡ some m) × (last_cursor (x ∷ xs) ≡ some (cursor_at m))
last_of x [] = (x, refl, refl)
last_of x (y ∷ xs) = last_of y xs

last_of_page :
    (n : ℕ) (xs : List ListRow)
    → 1 ≤ n
    → n < length xs
    → (m : ListRow) × (last (take n xs) ≡ some m) × (last_cursor (take n xs) ≡ some (cursor_at m))
unfolding take
last_of_page zero xs p h = absurd (omega arith)
last_of_page (suc n) [] p h = absurd (omega arith)
last_of_page (suc n) (x ∷ xs) p h = last_of x (take n xs)

list_notes-calm :
    (f : ListFilter) (w : World)
    → w.fault w.calls ≡ none
    → list_notes f w
      ≡ (ok (page_of f.limit (take (f.limit + 1) (sorted_rows w.env w.db f))), step_call w)
unfolding list_notes query stmt outcome landed kept
list_notes-calm f w calm = rw calm refl

next_rows :
    (f : ListFilter) (w : World) (m : ListRow)
    → ((id : ℕ) → count_if (is_note id) w.db.notes ≤ 1)
    → last (take f.limit (sorted_rows w.env w.db f)) ≡ some m
    → sorted_rows w.env w.db (from_cursor f (cursor_at m)) ≡ drop f.limit (sorted_rows w.env w.db f)
next_rows f w m one e =
    let rows = sorted_rows w.env w.db f in
    let past =
      last-All (λ row. is_past f f.cursor row ≡ true) (take f.limit rows) m
        (take-All (λ row. is_past f f.cursor row ≡ true) f.limit rows
          (sorted_past w.env w.db f one))
        e in
    sorted_rows-next w.env w.db f one m past
    ∙ keep-below_last (row_before (by_relevance f)) (row-IsOrder (by_relevance f)) f.limit rows m
        (sorted_rows-IsDescending w.env w.db f one) e

empty_list : (xs : List ListRow) → length xs ≤ 0 → xs ≡ []
empty_list [] h = refl
empty_list (x ∷ xs) h = absurd (omega arith)

-- The last page.
follow-whole :
    (fuel : ℕ) (f : ListFilter) (w : World)
    → w.fault w.calls ≡ none
    → length (sorted_rows w.env w.db f) ≤ f.limit
    → follow (suc fuel) f w ≡ (ok (sorted_rows w.env w.db f), step_call w)
unfolding follow ◌>>=◌ continue pure
follow-whole fuel f w calm h =
    rw
      (
        list_notes-calm f w calm,
        page-whole f.limit (sorted_rows w.env w.db f) h,
        append-nil (sorted_rows w.env w.db f),
      )
      refl

-- A page with others behind it.
follow-cut :
    (fuel : ℕ) (f : ListFilter) (w v : World) (c : Cursor) (rest : List ListRow)
    → w.fault w.calls ≡ none
    → f.limit < length (sorted_rows w.env w.db f)
    → last_cursor (take f.limit (sorted_rows w.env w.db f)) ≡ some c
    → follow fuel (from_cursor f c) (step_call w) ≡ (ok rest, v)
    → follow (suc fuel) f w ≡ (ok (take f.limit (sorted_rows w.env w.db f) ++ rest), v)
unfolding follow ◌>>=◌ continue pure
follow-cut fuel f w v c rest calm h e later =
    rw (list_notes-calm f w calm, page-cut f.limit (sorted_rows w.env w.db f) h, e, later) refl

follow-all :
    (fuel : ℕ) (f : ListFilter) (w : World)
    → ((id : ℕ) → count_if (is_note id) w.db.notes ≤ 1)
    → ((k : ℕ) → w.fault k ≡ none)
    → 1 ≤ f.limit
    → length (sorted_rows w.env w.db f) ≤ fuel
    → (v : World) × (follow fuel f w ≡ (ok (sorted_rows w.env w.db f), v))
unfolding follow pure
follow-all zero f w one calm some_rows h = (w, rw (empty_list (sorted_rows w.env w.db f) h) refl)
follow-all (suc fuel) f w one calm some_rows h =
    elim (Bool-cases (ltb f.limit (length (sorted_rows w.env w.db f)))) [
      | inr whole ↦ (step_call w, follow-whole fuel f w (calm w.calls) (ground arith))
      | inl cut ↦
          let rows = sorted_rows w.env w.db f in
          let longer : f.limit < length rows = ground arith in
          let end = last_of_page f.limit rows some_rows longer in
          let next = next_rows f w end.0 one end.1 in
          let fewer : length (sorted_rows w.env w.db (from_cursor f (cursor_at end.0))) ≤ fuel =
            rw next (omega (arith, length-drop f.limit rows some_rows longer, h)) in
          let later =
            follow-all fuel (from_cursor f (cursor_at end.0)) (step_call w) one calm some_rows
              fewer in
          (
            later.0,
            follow-cut fuel f w later.0 (cursor_at end.0) _ (calm w.calls) longer end.2 later.1
                ∙ ap (λ xs. (ok xs, later.0))
                    (ap (λ xs. take f.limit rows ++ xs) next ∙ take-drop f.limit rows),
          )
    ]

-- Where a client follows `next_cursor` from page to page, what it has read at the end is the list that
-- the query without its limit gives, so that no note is skipped and none comes twice: the rows come in
-- strictly descending order of the time of update, or of the relevance, and then the id, and each
-- kind `p` of row occurs as often as among the notes that the filter lets through. The tables do not change
-- meanwhile, no call meets a fault, ids of notes are unique, a page holds a row at least, and there
-- are no more pages than `fuel`, for which as many as there are rows is enough.
pub follow-sorted_rows :
    (fuel : ℕ) (f : ListFilter) (w : World) (p : ListRow → Bool)
    → ((id : ℕ) → count_if (is_note id) w.db.notes ≤ 1)
    → ((k : ℕ) → w.fault k ≡ none)
    → 1 ≤ f.limit
    → length (sorted_rows w.env w.db f) ≤ fuel
    → ((follow fuel f w).0 ≡ ok (sorted_rows w.env w.db f))
      × IsDescending (row_before (by_relevance f)) (sorted_rows w.env w.db f)
      × (count_if p (sorted_rows w.env w.db f)
          ≡ count_if p (keep (is_past f f.cursor) (all_rows w.env w.db f)))
unfolding sorted_rows
follow-sorted_rows fuel f w p one calm some_rows h =
    let read = follow-all fuel f w one calm some_rows h in
    (
      ap (λ x. x.0) read.1,
      sorted_rows-IsDescending w.env w.db f one,
      count_if-sort_by p _ (keep (is_past f f.cursor) (all_rows w.env w.db f)),
    )
