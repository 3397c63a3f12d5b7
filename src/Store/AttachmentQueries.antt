-- ===== src/Store/AttachmentQueries.antt =====
-- internal/store/sqlcgen/attachments.sql.go: each query is its SQL over the tables.
use bluestaq_takehome.Prelude.{
  ℕ, Bool, not, ◌&&◌, ◌||◌, Option, none, some, List, [], ◌∷◌, ◌++◌, leb, ltb, ◌==◌, str_eq,
  if◌then◌else◌, find, any, keep, drop_if, count_if, update_if, sort_by, length, take, map,
}
use bluestaq_takehome.Prelude.Text.{Text, text_eq}
use bluestaq_takehome.Prelude.Integer.{ℤ, pos_part}
use bluestaq_takehome.Httpx.Problems.{
  Result, ok, err, no_rows, pg, unique_violation, foreign_key_violation, check_violation,
  other_state,
}
use bluestaq_takehome.Store.Models.{Db, Attachment}
use bluestaq_takehome.Store.World.{M, stmt, query}
use bluestaq_takehome.Store.NoteQueries.{is_ready_on, is_note}
use bluestaq_takehome.Store.ShareQueries.{is_user}
use bluestaq_takehome.Store.TeamQueries.{one}

abbrev pub is_attachment : ℕ → Attachment → Bool
is_attachment id a = a.id == id

abbrev pub is_attachment_on : ℕ → ℕ → Attachment → Bool
is_attachment_on id note_id a = (a.id == id) && (a.note_id == note_id)

abbrev pub has_key : Text → Attachment → Bool
has_key object_key a = text_eq a.object_key object_key

-- A text column takes valid UTF-8 with no NUL. What a cut through a rune leaves of it is a code point
-- above Unicode here.
unfoldable pub is_valid_text : Text → Bool
is_valid_text s = not (any (λ c. (c == 0) || leb 0x110000 c) s)

-- check (length(filename) between 1 and 255), in characters; check (size_bytes > 0).
unfoldable pub attachment_fits : Attachment → Bool
attachment_fits a = leb 1 (length a.filename) && leb (length a.filename) 255 && leb 1 a.size_bytes

pub record CreateAttachmentParams : Type 0 where
  pub note_id : ℕ
  pub object_key : Text
  pub filename : Text
  pub mime_type : Text
  pub size_bytes : ℤ
  pub uploaded_by : ℕ

unfoldable pub insert_attachment : Attachment → Db → Result (Attachment × Db)
insert_attachment a d =
    if not (is_valid_text a.filename && is_valid_text a.mime_type && is_valid_text a.object_key)
    then err (pg other_state)
    else if not (attachment_fits a)
    then err (pg check_violation)
    else if any (is_attachment a.id) d.attachments
    then err (pg (unique_violation "attachments_pkey"))
    else if any (has_key a.object_key) d.attachments
    then err (pg (unique_violation "attachments_object_key_key"))
    else if any (is_note a.note_id) d.notes && any (is_user a.uploaded_by) d.users
    then ok (a, record d { attachments = d.attachments ++ a ∷ [] })
    else err (pg foreign_key_violation)

-- A size that is not positive fails the check, as 0 does.
unfoldable pub create_attachment : CreateAttachmentParams → M Attachment
create_attachment arg = stmt λ w.
    insert_attachment
      (record {
        id = w.env.gen_random_uuid w.calls;
        note_id = arg.note_id;
        object_key = arg.object_key;
        filename = arg.filename;
        mime_type = arg.mime_type;
        size_bytes = pos_part arg.size_bytes;
        checksum = none;
        status = "pending";
        uploaded_by = arg.uploaded_by;
        created_at = w.env.now w.calls;
        ready_at = none;
      })
      w.db

unfoldable pub get_attachment : ℕ → ℕ → M Attachment
get_attachment id note_id = query λ w. one (find (is_attachment_on id note_id) w.db.attachments)

unfoldable pub list_note_attachments : ℕ → M (List Attachment)
list_note_attachments note_id = query λ w.
    ok
      (sort_by (λ a b. leb a.created_at b.created_at) (keep (is_ready_on note_id) w.db.attachments))

-- where id = $1 and status = 'pending'.
abbrev pub is_pending : ℕ → Attachment → Bool
is_pending id a = (a.id == id) && str_eq a.status "pending"

unfoldable pub completed : ℕ → Text → ℕ → Attachment → Attachment
completed size_bytes checksum now a = record a {
  status = "ready";
  ready_at = some now;
  size_bytes = size_bytes;
  checksum = some checksum;
}

-- An update of the rows that pass `test`, of which `found` is the first.
unfoldable pub change_attachment :
    (Attachment → Bool)
    → (Attachment → Attachment)
    → Db
    → Option Attachment
    → Result (Attachment × Db)
change_attachment test f d none = err no_rows
change_attachment test f d (some a) =
    if not (attachment_fits (f a))
    then err (pg check_violation)
    else ok (f a, record d { attachments = update_if test f d.attachments })

unfoldable pub mark_attachment_ready : ℕ → ℕ → Text → M Attachment
mark_attachment_ready id size_bytes checksum = stmt λ w.
    change_attachment (is_pending id) (completed size_bytes checksum (w.env.now w.calls)) w.db
      (find (is_pending id) w.db.attachments)

unfoldable pub delete_attachment : ℕ → ℕ → M ℕ
delete_attachment id note_id = stmt λ w. ok (
  count_if (is_attachment_on id note_id) w.db.attachments,
  record w.db { attachments = drop_if (is_attachment_on id note_id) w.db.attachments },
)

-- A row of `ListStaleUploads`.
pub record ListStaleUploadsRow : Type 0 where
  pub id : ℕ
  pub object_key : Text

-- where status = 'pending' and created_at < $1.
abbrev pub is_stale : ℕ → Attachment → Bool
is_stale cutoff a = str_eq a.status "pending" && ltb a.created_at cutoff

unfoldable pub stale_rows : ℕ → List Attachment → List Attachment
stale_rows cutoff rows =
    sort_by (λ a b. leb a.created_at b.created_at) (keep (is_stale cutoff) rows)

abbrev pub stale_row : Attachment → ListStaleUploadsRow
stale_row a = record { id = a.id; object_key = a.object_key }

unfoldable pub list_stale_uploads : ℕ → ℕ → M (List ListStaleUploadsRow)
list_stale_uploads cutoff limit =
    query λ w. ok (map stale_row (take limit (stale_rows cutoff w.db.attachments)))

unfoldable pub delete_attachment_by_id : ℕ → M ℕ
delete_attachment_by_id id = stmt λ w. ok (
  count_if (is_attachment id) w.db.attachments,
  record w.db { attachments = drop_if (is_attachment id) w.db.attachments },
)
