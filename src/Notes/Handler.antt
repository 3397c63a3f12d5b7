-- ===== src/Notes/Handler.antt =====
-- internal/notes/handler.go: create, get, update, delete and restore.
use bluestaq_takehome.Prelude.{
  ℕ, ◌==◌, Bool, ◌||◌, Option, none, some, List, [], ◌∷◌, ◌++◌, ltb, if◌then◌else◌,
}
use bluestaq_takehome.Prelude.Text.{Text, is_empty, byte_len, trim_space}
use bluestaq_takehome.Authz.{Role}
use bluestaq_takehome.Authz
use bluestaq_takehome.Httpx.Problems.{
  Err, Result, ok, err, Message, problem, lit, num, say, errorf, not_found, invalid,
}
use bluestaq_takehome.Httpx.{Request, Reply, Decoded, decode_json, write_json, write_status}
use bluestaq_takehome.Store.Errors.{is_not_found}
use bluestaq_takehome.Store.Models
use bluestaq_takehome.Store.Models.{NoteWithAccess}
use bluestaq_takehome.Store.World.{M, pure, throw, ask, lift, catch, count_conflict, ◌>>=◌, ◌>>◌}
use bluestaq_takehome.Store.NoteQueries.{
  create_note, get_note_with_access, update_note, soft_delete_note, restore_note, is_set,
}
use bluestaq_takehome.Notes.Dto.{Note, from_create, from_access, from_update, from_restore}
use bluestaq_takehome.Notes.Tags.{Tags, good, bad, normalize_tags}
use bluestaq_takehome.Notes.IfMatch.{set_etag, if_match_version}
use bluestaq_takehome.Notes.References.{referenced_ids, validate_body_references}
use bluestaq_takehome.Notes.Load.{load}

abbrev pub max_title_len : ℕ
max_title_len = 512

pub record CreateRequest : Type 0 where
  pub title : Text
  pub body : Text
  pub tags : List Text

pub record UpdateRequest : Type 0 where
  pub title : Option Text
  pub body : Option Text
  pub tags : Option (List Text)

abbrev title_message : Message
title_message = lit "must be between 1 and " ∷ num max_title_len ∷ lit " characters" ∷ []

-- t == "" || len(t) > maxTitleLen.
unfoldable pub bad_title : Text → Bool
bad_title t = is_empty t || ltb max_title_len (byte_len t)

unfoldable pub tags_or_invalid : Tags → Result (List Text)
tags_or_invalid (good tags) = ok tags
tags_or_invalid (bad m) = err (problem (invalid ((say "tags", m) ∷ [])))

unfoldable pub title_or_invalid : Text → Result Text
title_or_invalid t =
    if bad_title t then err (problem (invalid ((say "title", title_message) ∷ []))) else ok t

unfoldable pub no_references : List ℕ → Result (Unit {0})
no_references [] = ok tt
no_references (id ∷ ids) = err (
    problem (
      errorf 400 (
        say
          "a new note cannot reference attachments; create it first, upload, then edit the body")))

unfoldable pub create : Request → Decoded CreateRequest → M (Reply Note)
create r body = do
  req ← decode_json body
  env ← ask
  tags ← lift (tags_or_invalid (normalize_tags env.lower_rune req.tags))
  title ← lift (title_or_invalid (trim_space req.title))
  lift (no_references (referenced_ids env.uuid_parse req.body))
  n ←
      create_note
        (record { owner_user_id = r.user_id; title = title; body = req.body; tags = tags })
  pure (set_etag n.version (write_json 201 (from_create n)))

unfoldable pub get : Request → M (Reply Note)
get r = do
  (row, role) ← load r Authz.read
  pure (set_etag row.note.version (write_json 200 (from_access row role)))

-- The fields of the request with what is wrong with each: the map `fields`.
unfoldable pub title_field : Option Text → List (Message × Message)
title_field none = []
title_field (some t) = if bad_title (trim_space t) then (say "title", title_message) ∷ [] else []

unfoldable pub tags_field : Option Tags → List (Message × Message)
tags_field none = []
tags_field (some (good tags)) = []
tags_field (some (bad m)) = (say "tags", m) ∷ []

unfoldable pub refuse_fields : List (Message × Message) → Result (Unit {0})
refuse_fields [] = ok tt
refuse_fields (f ∷ fields) = err (problem (invalid (f ∷ fields)))

abbrev pub trimmed : Option Text → Option Text
trimmed none = none
trimmed (some t) = some (trim_space t)

abbrev pub normalized : (ℕ → ℕ) → Option (List Text) → Option Tags
normalized lower none = none
normalized lower (some tags) = some (normalize_tags lower tags)

-- `params.Tags`: a nil slice where the request has none, or where they are refused.
abbrev pub good_tags : Option Tags → Option (List Text)
good_tags (some (good tags)) = some tags
good_tags _ = none

unfoldable pub check_body : ℕ → Option Text → M (Unit {0})
check_body note_id none = pure tt
check_body note_id (some body) = validate_body_references note_id body

unfoldable pub conflict_of : ℕ → NoteWithAccess → M Err
conflict_of expected row =
    if is_set row.note.deleted_at then pure (problem (not_found "note")) else do
      count_conflict
      pure (
          problem
            (record (errorf 409 (
              lit "the note has changed since you read it (you sent version "
              ∷ num expected
              ∷ lit ", current is "
              ∷ num row.note.version
              ∷ lit ")"
              ∷ [])) { conflict = some (from_access row row.effective_role) }))

-- Any error of the second read is a 404.
unfoldable pub conflict : ℕ → ℕ → ℕ → M Err
conflict note_id user_id expected =
    catch (do row ← get_note_with_access user_id note_id; conflict_of expected row)
      (λ e. pure (problem (not_found "note")))

unfoldable pub lost_update : Request → ℕ → ℕ → Err → M Models.Note
lost_update r note_id expected e =
    if is_not_found e then (do c ← conflict note_id r.user_id expected; throw c) else throw e

unfoldable pub update : Request → Decoded UpdateRequest → M (Reply Note)
update r body = do
  (row, role) ← load r Authz.update
  expected ← lift (if_match_version r.if_match)
  req ← decode_json body
  env ← ask
  let tags = normalized env.lower_rune req.tags
  lift (refuse_fields (title_field req.title ++ tags_field tags))
  check_body row.note.id req.body
  n ←
      catch
        (update_note (record {
          title = trimmed req.title;
          body = req.body;
          tags = good_tags tags;
          id = row.note.id;
          expected_version = expected;
        }))
        (lost_update r row.note.id expected)
  pure (set_etag n.version (write_json 200 (from_update n role)))

-- Both branches on the number of rows answer a 204.
unfoldable pub delete : Request → M (Reply Note)
delete r = do
  (row, role) ← load r Authz.delete
  n ← soft_delete_note row.note.id
  if n == 0 then pure (write_status 204) else pure (write_status 204)

unfoldable pub only_deleted : Option ℕ → Result (Unit {0})
only_deleted none = err (problem (errorf 409 (say "the note is not deleted")))
only_deleted (some at) = ok tt

unfoldable pub restore : Request → M (Reply Note)
restore r = do
  (row, role) ← load r Authz.restore
  lift (only_deleted row.note.deleted_at)
  n ← restore_note row.note.id
  pure (set_etag n.version (write_json 200 (from_restore n role)))
