-- ===== src/Store/NoteQueries.antt =====
-- internal/store/sqlcgen/notes.sql.go: each query is its SQL over the tables.
use Prim.Native.Nat.{max}
use bluestaq_takehome.Prelude.{
  ℕ, ◌+◌, ◌^◌, String, Bool, true, false, not, ◌&&◌, ◌||◌, Option, none, some, List, [], ◌∷◌, ◌++◌,
  leb, ltb, ◌==◌, str_eq, if◌then◌else◌, find, any, count_if, update_if, length,
}
use bluestaq_takehome.Prelude.Text.{Text}
use bluestaq_takehome.Httpx.Problems.{
  Result, ok, err, no_rows, pg, unique_violation, foreign_key_violation, check_violation,
  other_state,
}
use bluestaq_takehome.Store.Models.{Db, TeamMember, Note, NoteShare, Attachment, NoteWithAccess}
use bluestaq_takehome.Store.World.{M, stmt, query}

abbrev pub is_note : ℕ → Note → Bool
is_note id n = n.id == id

abbrev pub is_set : {A : Type 0} → Option A → Bool
is_set none = false
is_set (some a) = true

-- coalesce(new, old).
abbrev pub coalesce : {A : Type 0} → Option A → A → A
coalesce none old = old
coalesce (some new) old = new

-- check (length(title) between 1 and 512), in characters.
unfoldable pub title_fits : Text → Bool
title_fits title = leb 1 (length title) && leb (length title) 512

-- `version` is an integer of 32 bits: Postgres refuses a value out of its range.
abbrev pub version_limit : ℕ
version_limit = 2 ^ 31

pub record CreateNoteParams : Type 0 where
  pub owner_user_id : ℕ
  pub title : Text
  pub body : Text
  pub tags : List Text

unfoldable pub insert_note : Note → Db → Result (Note × Db)
insert_note n d =
    if not (title_fits n.title)
    then err (pg check_violation)
    else if any (is_note n.id) d.notes
    then err (pg (unique_violation "notes_pkey"))
    else if any (λ u. u.id == n.owner_user_id) d.users
    then ok (n, record d { notes = d.notes ++ n ∷ [] })
    else err (pg foreign_key_violation)

unfoldable pub create_note : CreateNoteParams → M Note
create_note arg = stmt λ w.
    insert_note
      (record {
        id = w.env.gen_random_uuid w.calls;
        owner_user_id = arg.owner_user_id;
        title = arg.title;
        body = arg.body;
        tags = arg.tags;
        version = 1;
        created_at = w.env.now w.calls;
        updated_at = w.env.now w.calls;
        deleted_at = none;
      })
      w.db

-- The rank of a grant's role.
unfoldable pub grant_rank : String → ℕ
grant_rank role = if str_eq role "editor" then 2 else if str_eq role "viewer" then 1 else 0

-- A grant on the note that names the user, or a team that the user is in.
unfoldable pub grants_to : List TeamMember → ℕ → ℕ → NoteShare → Bool
grants_to members user_id note_id s =
    (s.note_id == note_id)
    && ((str_eq s.principal_type "user" && (s.principal_id == user_id))
        || (str_eq s.principal_type "team"
            && any (λ m. (m.team_id == s.principal_id) && (m.user_id == user_id)) members))

-- coalesce(max(rank), 0) over the grants that match.
unfoldable pub max_rank : List TeamMember → ℕ → ℕ → List NoteShare → ℕ
max_rank members user_id note_id [] = 0
max_rank members user_id note_id (s ∷ ss) =
    max (if grants_to members user_id note_id s then grant_rank s.role else 0)
      (max_rank members user_id note_id ss)

unfoldable pub effective_role : Db → ℕ → Note → ℕ
effective_role d user_id n =
    if n.owner_user_id == user_id then 3 else max_rank d.team_members user_id n.id d.note_shares

unfoldable pub with_access : Db → ℕ → Option Note → Result NoteWithAccess
with_access d user_id none = err no_rows
with_access d user_id (some n) =
    ok (record { note = n; effective_role = effective_role d user_id n })

unfoldable pub get_note_with_access : ℕ → ℕ → M NoteWithAccess
get_note_with_access user_id note_id =
    query λ w. with_access w.db user_id (find (is_note note_id) w.db.notes)

pub record UpdateNoteParams : Type 0 where
  pub title : Option Text
  pub body : Option Text
  pub tags : Option (List Text)
  pub id : ℕ
  pub expected_version : ℕ

-- where id = … and version = … and deleted_at is null.
abbrev pub is_target : ℕ → ℕ → Note → Bool
is_target id version n = (n.id == id) && (n.version == version) && not (is_set n.deleted_at)

unfoldable pub edited : UpdateNoteParams → ℕ → Note → Note
edited arg now n = record n {
  title = coalesce arg.title n.title;
  body = coalesce arg.body n.body;
  tags = coalesce arg.tags n.tags;
  version = n.version + 1;
  updated_at = now;
}

-- An update of the rows that pass `test`, of which `found` is the first: no row, a row that breaks a
-- check or leaves the range of the version, or the new row.
unfoldable pub change_note : (Note → Bool) → (Note → Note) → Db → Option Note → Result (Note × Db)
change_note test f d none = err no_rows
change_note test f d (some n) =
    if not (title_fits (f n).title)
    then err (pg check_violation)
    else if ltb (f n).version version_limit
    then ok (f n, record d { notes = update_if test f d.notes })
    else err (pg other_state)

unfoldable pub update_note : UpdateNoteParams → M Note
update_note arg = stmt λ w.
    change_note (is_target arg.id arg.expected_version) (edited arg (w.env.now w.calls)) w.db
      (find (is_target arg.id arg.expected_version) w.db.notes)

abbrev pub is_live : ℕ → Note → Bool
is_live id n = (n.id == id) && not (is_set n.deleted_at)

abbrev pub is_deleted : ℕ → Note → Bool
is_deleted id n = (n.id == id) && is_set n.deleted_at

unfoldable pub soft_deleted : ℕ → Note → Note
soft_deleted now n = record n { deleted_at = some now; updated_at = now; version = n.version + 1 }

-- An `:execrows` statement answers how many rows it changed.
unfoldable pub rows_changed : Db → ℕ → Result (Note × Db) → Result (ℕ × Db)
rows_changed d n (ok (row, d')) = ok (n, d')
rows_changed d n (err no_rows) = ok (0, d)
rows_changed d n (err e) = err e

unfoldable pub soft_delete_note : ℕ → M ℕ
soft_delete_note id = stmt λ w. rows_changed w.db (count_if (is_live id) w.db.notes) (
    change_note (is_live id) (soft_deleted (w.env.now w.calls)) w.db (find (is_live id) w.db.notes))

unfoldable pub restored : ℕ → Note → Note
restored now n = record n { deleted_at = none; updated_at = now; version = n.version + 1 }

unfoldable pub restore_note : ℕ → M Note
restore_note id = stmt λ w.
    change_note (is_deleted id) (restored (w.env.now w.calls)) w.db
      (find (is_deleted id) w.db.notes)

abbrev pub is_ready_on : ℕ → Attachment → Bool
is_ready_on note_id a = (a.note_id == note_id) && str_eq a.status "ready"

unfoldable pub count_note_attachments : ℕ → M ℕ
count_note_attachments note_id = query λ w. ok (count_if (is_ready_on note_id) w.db.attachments)
