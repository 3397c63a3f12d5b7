-- ===== src/Store/NotesList.antt =====
-- `ListNotes` of internal/store/notes_list.go: one page of notes, as its SQL over the tables.
use bluestaq_takehome.Prelude.{
  ℕ, ◌+◌, Bool, true, not, ◌&&◌, ◌||◌, Option, none, some, List, [], ◌∷◌, map, any, keep, count_if,
  sort_by, take, length, ltb, ◌==◌, str_eq, if◌then◌else◌,
}
use bluestaq_takehome.Prelude.Text.{Text, text_eq, is_empty}
use bluestaq_takehome.Prelude.Integer.{ℤ, pos, ltb_ℤ}
use bluestaq_takehome.Httpx.Problems.{ok}
use bluestaq_takehome.Store.Models.{Db, TeamMember, Note, NoteShare}
use bluestaq_takehome.Store.World.{Env, M, query}
use bluestaq_takehome.Store.NoteQueries.{grants_to, effective_role, is_set, is_ready_on}
use bluestaq_takehome.Store.Cursor.{Cursor}

pub record ListFilter : Type 0 where
  pub user_id : ℕ
  pub text_query : Text
  pub tags : List Text
  pub owner : Option ℕ
  pub team : Option ℕ
  pub shared_with_me : Bool
  pub deleted : Bool
  pub limit : ℕ
  pub cursor : Option Cursor

pub record ListRow : Type 0 where
  pub note : Note
  pub effective_role : ℕ
  pub attachments : ℕ
  pub rank : ℤ

-- The authorization predicate.
unfoldable pub is_authorized : Db → ℕ → Note → Bool
is_authorized d user_id n =
    (n.owner_user_id == user_id) || any (grants_to d.team_members user_id n.id) d.note_shares

-- Deleted notes are the owner's.
unfoldable pub is_in_view : ℕ → Bool → Note → Bool
is_in_view user_id deleted n =
    if deleted
    then is_set n.deleted_at && (n.owner_user_id == user_id)
    else not (is_set n.deleted_at)

abbrev pub has_owner : Option ℕ → Note → Bool
has_owner none n = true
has_owner (some owner) n = n.owner_user_id == owner

-- A grant to the team, of which the caller is a member.
abbrev pub is_team_grant : List TeamMember → ℕ → ℕ → Note → NoteShare → Bool
is_team_grant members user_id team n s =
    (s.note_id == n.id)
    && str_eq s.principal_type "team"
    && (s.principal_id == team)
    && any (λ m. (m.team_id == s.principal_id) && (m.user_id == user_id)) members

abbrev pub is_shared_with : Db → ℕ → Option ℕ → Note → Bool
is_shared_with d user_id none n = true
is_shared_with d user_id (some team) n =
    any (is_team_grant d.team_members user_id team n) d.note_shares

-- `n.tags @> …`: every tag of the filter is on the note.
abbrev pub has_tags : List Text → List Text → Bool
has_tags [] on_note = true
has_tags (t ∷ tags) on_note = any (text_eq t) on_note && has_tags tags on_note

abbrev pub by_relevance : ListFilter → Bool
by_relevance f = not (is_empty f.text_query)

unfoldable pub matches_text : Env → ListFilter → Note → Bool
matches_text env f n = if by_relevance f then env.search_match f.text_query n else true

-- The clauses on the note, without that of the cursor.
unfoldable pub matches : Env → Db → ListFilter → Note → Bool
matches env d f n =
    is_authorized d f.user_id n
    && (is_in_view f.user_id f.deleted n
        && (has_owner f.owner n
            && ((if f.shared_with_me then not (n.owner_user_id == f.user_id) else true)
                && (is_shared_with d f.user_id f.team n
                    && (has_tags f.tags n.tags && matches_text env f n)))))

unfoldable pub list_row : Env → Db → ListFilter → Note → ListRow
list_row env d f n = record {
  note = n;
  effective_role = effective_role d f.user_id n;
  attachments = count_if (is_ready_on n.id) d.attachments;
  rank = if by_relevance f then pos (env.ts_rank f.text_query n) else pos 0;
}

-- The pair that the order and the keyset predicate compare.
pub record Position : Type 0 where
  pub key : ℤ
  pub id : ℕ

abbrev pub position : Bool → ListRow → Position
position relevance row = record {
  key = if relevance then row.rank else pos row.note.updated_at;
  id = row.note.id;
}

abbrev pub cursor_position : Bool → Cursor → Position
cursor_position relevance c = record { key = if relevance then c.rank else c.updated_at; id = c.id }

-- The row comparison of SQL, (a, b) < (x, y).
unfoldable pub is_before : Position → Position → Bool
is_before p q = ltb_ℤ p.key q.key || (not (ltb_ℤ q.key p.key) && ltb p.id q.id)

unfoldable pub is_past : ListFilter → Option Cursor → ListRow → Bool
is_past f none row = true
is_past f (some c) row =
    is_before (position (by_relevance f) row) (cursor_position (by_relevance f) c)

-- order by … desc, id desc.
unfoldable pub comes_first : Bool → ListRow → ListRow → Bool
comes_first relevance a b = not (is_before (position relevance a) (position relevance b))

unfoldable pub all_rows : Env → Db → ListFilter → List ListRow
all_rows env d f = map (list_row env d f) (keep (matches env d f) d.notes)

-- The rows of the query without its limit.
unfoldable pub sorted_rows : Env → Db → ListFilter → List ListRow
sorted_rows env d f =
    sort_by (comes_first (by_relevance f)) (keep (is_past f f.cursor) (all_rows env d f))

abbrev pub cursor_at : ListRow → Cursor
cursor_at row = record { updated_at = pos row.note.updated_at; id = row.note.id; rank = row.rank }

-- `out[len(out)-1]`.
abbrev pub last_cursor : List ListRow → Option Cursor
last_cursor [] = none
last_cursor (row ∷ []) = some (cursor_at row)
last_cursor (row ∷ next ∷ rows) = last_cursor (next ∷ rows)

-- One row more than the page says that there is a next one.
unfoldable pub page_of : ℕ → List ListRow → List ListRow × Option Cursor
page_of limit out =
    if ltb limit (length out) then (take limit out, last_cursor (take limit out)) else (out, none)

unfoldable pub list_notes : ListFilter → M (List ListRow × Option Cursor)
list_notes f = query λ w. ok (page_of f.limit (take (f.limit + 1) (sorted_rows w.env w.db f)))
