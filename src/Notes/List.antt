-- ===== src/Notes/List.antt =====
-- internal/notes/list.go: `GET /notes`.
use bluestaq_takehome.Prelude.{
  ℕ, ◌-◌, ◌^◌, String, Bool, true, false, ◌&&◌, not, Option, none, some, List, [], ◌∷◌, keep, map,
  ltb, ◌==◌, if◌then◌else◌,
}
use bluestaq_takehome.Prelude.Text.{Text, codes, text_eq, is_empty, trim_space, to_lower}
use bluestaq_takehome.Prelude.Decimal.{parse_int}
use bluestaq_takehome.Authz.{role_string}
use bluestaq_takehome.Httpx.Problems.{Result, ok, err, problem, say, invalid}
use bluestaq_takehome.Httpx.{Request, Reply, write_json, respond}
use bluestaq_takehome.Store.World.{Env, World, M, pure, ask, lift, ◌>>=◌}
use bluestaq_takehome.Store.Cursor.{Cursor, encode, decode_cursor}
use bluestaq_takehome.Store.NotesList.{ListFilter, ListRow, list_notes}
use bluestaq_takehome.Notes.Dto.{Note}

abbrev pub default_limit : ℕ
default_limit = 25

abbrev pub max_limit : ℕ
max_limit = 100

pub record ListItem : Type 0 where
  pub note : Note
  pub attachment_count : ℕ

pub record ListResponse : Type 0 where
  pub notes : List ListItem
  pub next_cursor : Option Text
  pub has_more : Bool

-- `q.Get`: the first value.
abbrev pub first_value : List Text → Text
first_value [] = []
first_value (v ∷ vs) = v

abbrev get : Request → String → Text
get r name = first_value (r.url_query name)

-- The tags that are not blank.
abbrev pub filter_tags : (ℕ → ℕ) → List Text → List Text
filter_tags lower tags =
    keep (λ t. not (is_empty t)) (map (λ t. to_lower lower (trim_space t)) tags)

abbrev pub refused : {A : Type 0} → String → String → Result A
refused field why = err (problem (invalid ((say field, say why) ∷ [])))

abbrev pub id_or_refused : String → String → Option ℕ → Result (Option ℕ)
id_or_refused field why none = refused field why
id_or_refused field why (some id) = ok (some id)

unfoldable pub owner_of : Env → ℕ → Text → Result (Option ℕ)
owner_of env user_id raw =
    if is_empty raw
    then ok none
    else if text_eq raw (codes "me")
    then ok (some user_id)
    else id_or_refused "owner" "must be a uuid or \"me\"" (env.uuid_parse raw)

unfoldable pub team_of : Env → Text → Result (Option ℕ)
team_of env raw =
    if is_empty raw then ok none else id_or_refused "team" "must be a uuid" (env.uuid_parse raw)

-- Clamped rather than rejected.
abbrev pub clamped : Option (Bool × ℕ) → Result ℕ
clamped none = refused "limit" "must be a positive integer"
clamped (some (true, n)) = refused "limit" "must be a positive integer"
clamped (some (false, n)) =
    if ltb n 1
    then refused "limit" "must be a positive integer"
    else ok (if ltb max_limit n then max_limit else n)

unfoldable pub limit_of : Text → Result ℕ
limit_of raw = if is_empty raw then ok default_limit else clamped (parse_int (2 ^ 63 - 1) raw)

abbrev pub cursor_or_refused : Option Cursor → Result (Option Cursor)
cursor_or_refused none = refused "cursor" "malformed; use the next_cursor from a previous response"
cursor_or_refused (some c) = ok (some c)

unfoldable pub cursor_of : Env → Text → Result (Option Cursor)
cursor_of env raw = if is_empty raw then ok none else cursor_or_refused (decode_cursor env raw)

abbrev pub is_own : ℕ → Option ℕ → Bool
is_own user_id none = false
is_own user_id (some owner) = owner == user_id

unfoldable pub not_contradictory : ListFilter → Result ListFilter
not_contradictory f =
    if f.shared_with_me && is_own f.user_id f.owner
    then refused "shared_with_me" "cannot combine with owner=me; they exclude each other"
    else ok f

unfoldable pub parse_list_filter : Request → M ListFilter
parse_list_filter r = do
  env ← ask
  owner ← lift (owner_of env r.user_id (get r "owner"))
  team ← lift (team_of env (get r "team"))
  limit ← lift (limit_of (get r "limit"))
  cursor ← lift (cursor_of env (get r "cursor"))
  lift (
      not_contradictory (record {
        user_id = r.user_id;
        text_query = trim_space (get r "q");
        tags = filter_tags env.lower_rune (r.url_query "tag");
        owner = owner;
        team = team;
        shared_with_me = text_eq (get r "shared_with_me") (codes "true");
        deleted = text_eq (get r "deleted") (codes "true");
        limit = limit;
        cursor = cursor;
      }))

unfoldable pub list_item : ListRow → ListItem
list_item row = record {
  note = record {
    id = row.note.id;
    owner_user_id = row.note.owner_user_id;
    title = row.note.title;
    body = row.note.body;
    tags = row.note.tags;
    version = row.note.version;
    created_at = row.note.created_at;
    updated_at = row.note.updated_at;
    deleted_at = row.note.deleted_at;
    your_role = role_string row.effective_role;
  };
  attachment_count = row.attachments;
}

unfoldable pub list_response : Env → List ListRow → Option Cursor → ListResponse
list_response env rows none = record {
  notes = map list_item rows;
  next_cursor = none;
  has_more = false;
}
list_response env rows (some c) = record {
  notes = map list_item rows;
  next_cursor = some (encode env c);
  has_more = true;
}

unfoldable pub list : Request → M (Reply ListResponse)
list r = do
  filter ← parse_list_filter r
  (rows, next) ← list_notes filter
  env ← ask
  pure (write_json 200 (list_response env rows next))

unfoldable pub list_serve : Request → World → Reply ListResponse × World
list_serve r = respond r (list r)
