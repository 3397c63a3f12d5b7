-- ===== src/Notes/Listed.antt =====
-- Which notes `ListNotes` (internal/store/notes_list.go) shows: those that the single read shows.
use bluestaq_takehome.Prelude.{
  ℕ, ◌≤◌, ◌≡◌, refl, Bool, true, false, not, ◌&&◌, Bool-cases, Option-cases, inl, inr, List, [],
  ◌∷◌, All, any, keep, length, ltb, ◌==◌, arith,
}
use bluestaq_takehome.Prelude.Every.{All-map, All-keep, All-sort_by, All-take, All-mapped}
use bluestaq_takehome.Authz.{can, read, minimum_role, permits}
use bluestaq_takehome.Httpx.Problems.{Result, ok, err}
use bluestaq_takehome.Store.Models.{Db, TeamMember, Note, NoteShare}
use bluestaq_takehome.Store.World.{Env, World, query, stmt, outcome, landed, kept}
use bluestaq_takehome.Store.NoteQueries.{
  is_note, is_set, effective_role, max_rank, grant_rank, grants_to,
}
use bluestaq_takehome.Store.ShareQueries.{share_fits}
use bluestaq_takehome.Store.NotesList.{
  ListFilter, ListRow, is_authorized, is_in_view, matches, list_row, all_rows, sorted_rows, page_of,
  list_notes,
}
use bluestaq_takehome.Notes.Sound.{IsSound, IsGrant}

fits-grant_rank : (s : NoteShare) → share_fits s ≡ true → 1 ≤ grant_rank s.role
unfolding share_fits grant_rank
fits-grant_rank s h = ground arith

-- Every grant carries a role, so that a grant that names the caller gives one.
ranked :
    (ns : List Note) (members : List TeamMember) (user_id note_id : ℕ) (ss : List NoteShare)
    → All (IsGrant ns) ss
    → any (grants_to members user_id note_id) ss ≡ not (max_rank members user_id note_id ss == 0)
unfolding any max_rank
ranked ns members user_id note_id [] h = refl
ranked ns members user_id note_id (s ∷ ss) (p, h) =
    ground (arith, fits-grant_rank s p.0, ranked ns members user_id note_id ss h)

-- The list's clause and the role of the single read agree.
pub is_authorized-can_read :
    (d : Db) (user_id : ℕ) (n : Note)
    → IsSound d
    → is_authorized d user_id n ≡ can (effective_role d user_id n) read
unfolding is_authorized effective_role can minimum_role permits
is_authorized-can_read d user_id n g =
    let same = ranked d.notes d.team_members user_id n.id d.note_shares g.grants in
    elim (Bool-cases (n.owner_user_id == user_id)) [
      | inl e ↦ rw e refl
      | inr e ↦ rw (e, same) (ground arith)
    ]

-- A row shows a note that the caller may read, with the caller's role on it; a deleted note only to
-- its owner.
abbrev pub IsReadable : Db → ℕ → ListRow → Type 0
IsReadable d user_id row =
    (any (is_note row.note.id) d.notes ≡ true)
    × (row.effective_role ≡ effective_role d user_id row.note)
    × (can row.effective_role read ≡ true)
    × ((is_set row.note.deleted_at && not (row.note.owner_user_id == user_id)) ≡ false)

matched-IsReadable :
    (env : Env) (d : Db) (f : ListFilter) (n : Note)
    → IsSound d
    → any (is_note n.id) d.notes ≡ true
    → matches env d f n ≡ true
    → IsReadable d f.user_id (list_row env d f n)
unfolding list_row matches is_in_view
matched-IsReadable env d f n g there m =
    let readable = is_authorized-can_read d f.user_id n g in
    (there, refl, ground arith, ground arith)

each_there : (ns : List Note) → All (λ n. any (is_note n.id) ns ≡ true) ns
unfolding any
each_there [] = tt
each_there (n ∷ ns) = (
  ground arith,
  All-map (λ m. any (is_note m.id) ns ≡ true) (λ m h. ground arith) ns (each_there ns),
)

All-kept :
    {A : Type 0} (P Q : A → Type 0) (p : A → Bool)
    → ((x : A) → P x → p x ≡ true → Q x)
    → (xs : List A) → All P xs
    → All Q (keep p xs)
unfolding keep
All-kept P Q p h [] a = tt
All-kept P Q p h (x ∷ xs) (q, a) = elim (Bool-cases (p x)) [
  | inl e ↦ rw e (h x q e, All-kept P Q p h xs a)
  | inr e ↦ rw e (All-kept P Q p h xs a)
]

all_rows-IsReadable :
    (env : Env) (d : Db) (f : ListFilter)
    → IsSound d
    → All (IsReadable d f.user_id) (all_rows env d f)
unfolding all_rows
all_rows-IsReadable env d f g =
    All-mapped (IsReadable d f.user_id) (list_row env d f) (keep (matches env d f) d.notes) (
      All-kept (λ n. any (is_note n.id) d.notes ≡ true)
        (λ n. IsReadable d f.user_id (list_row env d f n)) (matches env d f)
        (λ n there m. matched-IsReadable env d f n g there m) d.notes (each_there d.notes))

page-IsReadable :
    (P : ListRow → Type 0) (limit : ℕ) (out : List ListRow)
    → All P out
    → All P (page_of limit out).0
unfolding page_of
page-IsReadable P limit out a = elim (Bool-cases (ltb limit (length out))) [
  | inl e ↦ rw e (All-take P limit out a)
  | inr e ↦ rw e a
]

-- What holds of the result, where there is one.
abbrev pub Yields : {A : Type 0} → (A → Type 0) → Result A × World → Type 0
Yields P (ok a, w) = P a
Yields P (err e, w) = Unit

-- Whatever the filters say, each row of a page is a note of the table that the caller may read, carries
-- the role that the single read gives the caller, and is not deleted unless the caller owns it: no
-- filter is a way in. The tables satisfy the invariant of notes and grants.
pub list_notes-IsReadable :
    (f : ListFilter) (w : World)
    → IsSound w.db
    → Yields (λ page. All (IsReadable w.db f.user_id) page.0) (list_notes f w)
unfolding list_notes query stmt outcome landed kept sorted_rows
list_notes-IsReadable f w g = elim (Option-cases (w.fault w.calls)) [
  | inl calm ↦ rw calm (
      page-IsReadable (IsReadable w.db f.user_id) f.limit _
        (All-take _ _ _ (All-sort_by _ _ _ (All-keep _ _ _ (all_rows-IsReadable w.env w.db f g)))))
  | inr (x, faulty) ↦ rw faulty tt
]
