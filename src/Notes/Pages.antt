-- ===== src/Notes/Pages.antt =====
-- Following `next_cursor` of `ListNotes` (internal/store/notes_list.go) from page to page.
use bluestaq_takehome.Prelude.{
  ℕ, ◌≤◌, ◌≡◌, refl, sym, ap, ◌∙◌, Bool, true, false, ◌||◌, Bool-cases, inl, inr, Option, none,
  some, List, [], ◌∷◌, All, keep, count_if, map, sort_by, ◌==◌, arith,
}
use bluestaq_takehome.Prelude.Every.{All-map, All-keep, All-sort_by, All-mapped}
use bluestaq_takehome.Prelude.Descending.{
  IsOrder, IsDescending, IsApart, at_least, sort-IsDescending, IsApart-keep, keep-sort,
}
use bluestaq_takehome.Store.Models.{Db, Note}
use bluestaq_takehome.Store.World.{Env}
use bluestaq_takehome.Store.NoteQueries.{is_note}
use bluestaq_takehome.Store.Cursor.{Cursor}
use bluestaq_takehome.Store.NotesList.{
  ListFilter, ListRow, Position, position, cursor_position, is_before, is_past, comes_first,
  matches, matches_text, list_row, all_rows, sorted_rows, cursor_at, by_relevance,
}

-- The order of the rows of a list.
abbrev pub row_before : Bool → ListRow → ListRow → Bool
row_before relevance a b = is_before (position relevance a) (position relevance b)

is_before_trans :
    (p q r : Position) → is_before p q ≡ true → is_before q r ≡ true → is_before p r ≡ true
unfolding is_before
is_before_trans p q r h k = ground arith

is_before-asym : (p q : Position) → is_before p q ≡ true → is_before q p ≡ false
unfolding is_before
is_before-asym p q h = ground arith

pub row-IsOrder : (relevance : Bool) → IsOrder (row_before relevance)
row-IsOrder relevance = record {
  trans = λ x y z h k.
      is_before_trans (position relevance x) (position relevance y) (position relevance z) h k;
  asym = λ x y h. is_before-asym (position relevance x) (position relevance y) h;
}

-- Rows of different notes are told apart.
apart : (p q : Position) → (p.id == q.id) ≡ false → (is_before p q || is_before q p) ≡ true
unfolding is_before
apart p q h = ground arith

other_ids :
    (n : Note) (ns : List Note)
    → count_if (is_note n.id) ns ≡ 0
    → All (λ m. (n.id == m.id) ≡ false) ns
unfolding count_if
other_ids n [] h = tt
other_ids n (m ∷ ns) h = (ground arith, other_ids n ns (ground arith))

module _ (env : Env) (d : Db) (f : ListFilter) where
  abbrev before : ListRow → ListRow → Bool
  before = row_before (by_relevance f)

  rows-IsApart :
      (ns : List Note)
      → ((id : ℕ) → count_if (is_note id) ns ≤ 1)
      → IsApart before (map (list_row env d f) (keep (matches env d f) ns))
  unfolding keep count_if list_row
  rows-IsApart [] one = tt
  rows-IsApart (n ∷ ns) one =
      let none_left : count_if (is_note n.id) ns ≡ 0 = ground (arith, one n.id) in
      let rest = rows-IsApart ns (λ id. omega (arith, one id)) in
      elim (Bool-cases (matches env d f n)) [
        | inl e ↦ rw e (
          All-mapped
              (λ row. (before (list_row env d f n) row || before row (list_row env d f n)) ≡ true)
              (list_row env d f) (keep (matches env d f) ns)
              (All-map (λ m. (n.id == m.id) ≡ false) (λ m h. apart _ _ h) _
                (All-keep _ (matches env d f) ns (other_ids n ns none_left))),
          rest,
        )
        | inr e ↦ rw e rest
      ]

-- The filter of the next page.
abbrev pub from_cursor : ListFilter → Cursor → ListFilter
from_cursor f c = record f { cursor = some c }

kept_true : {A : Type 0} (p : A → Bool) (xs : List A) → All (λ x. p x ≡ true) (keep p xs)
unfolding keep
kept_true p [] = tt
kept_true p (x ∷ xs) = elim (Bool-cases (p x)) [
  | inl e ↦ rw e (e, kept_true p xs)
  | inr e ↦ rw e (kept_true p xs)
]

keep-keep :
    {A : Type 0} (p q : A → Bool)
    → ((x : A) → p x ≡ true → q x ≡ true)
    → (xs : List A) → keep p (keep q xs) ≡ keep p xs
unfolding keep
keep-keep p q h [] = refl
keep-keep p q h (x ∷ xs) = ground (arith, h x, keep-keep p q h xs)

before-is_past :
    (f : ListFilter) (c : Option Cursor) (x m : ListRow)
    → is_past f c m ≡ true
    → row_before (by_relevance f) x m ≡ true
    → is_past f c x ≡ true
unfolding is_past
before-is_past f none x m h k = refl
before-is_past f (some c) x m h k =
    is_before_trans (position (by_relevance f) x) (position (by_relevance f) m)
      (cursor_position (by_relevance f) c) k h

module _ (env : Env) (d : Db) (f : ListFilter)
    (one : (id : ℕ) → count_if (is_note id) d.notes ≤ 1) where
  IsApart-rows :
      IsApart (row_before (by_relevance f)) (keep (is_past f f.cursor) (all_rows env d f))
  unfolding all_rows
  IsApart-rows =
      IsApart-keep (row_before (by_relevance f)) (is_past f f.cursor) _
        (rows-IsApart env d f d.notes one)

  pub sorted_rows-IsDescending : IsDescending (row_before (by_relevance f)) (sorted_rows env d f)
  unfolding sorted_rows comes_first
  sorted_rows-IsDescending =
      sort-IsDescending (row_before (by_relevance f)) (row-IsOrder (by_relevance f)) _ IsApart-rows

  pub sorted_past : All (λ row. is_past f f.cursor row ≡ true) (sorted_rows env d f)
  unfolding sorted_rows
  sorted_past = All-sort_by _ _ _ (kept_true (is_past f f.cursor) (all_rows env d f))

  -- The rows behind a cursor are those of the whole list that come after it.
  pub sorted_rows-next :
      (m : ListRow)
      → is_past f f.cursor m ≡ true
      → sorted_rows env d (from_cursor f (cursor_at m))
        ≡ keep (λ y. row_before (by_relevance f) y m) (sorted_rows env d f)
  unfolding sorted_rows comes_first is_past all_rows matches matches_text list_row
  sorted_rows-next m h =
      let order = row-IsOrder (by_relevance f) in
      let behind = λ (y : ListRow). row_before (by_relevance f) y m in
      ap (sort_by (at_least (row_before (by_relevance f)))) (
        sym (
          keep-keep behind (is_past f f.cursor) (λ x k. before-is_past f f.cursor x m h k)
            (all_rows env d f)))
      ∙ sym (keep-sort (row_before (by_relevance f)) order behind _ IsApart-rows)
