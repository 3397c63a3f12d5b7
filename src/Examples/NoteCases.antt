-- ===== src/Examples/NoteCases.antt =====
-- The theorems on notes at concrete inputs.
use bluestaq_takehome.Prelude.{
  count_if, ◌≡◌, refl, true, false, ◌||◌, inl, inr, none, some, [], ◌∷◌, ◌++◌, arith, find, any,
  update_if, ◌==◌,
}
use bluestaq_takehome.Prelude.Text.{
  codes, trim_space, trim_left, trim_right, before_trimmed, is_space, is_empty, to_lower, byte_len,
  rune_len, text_eq,
}
use bluestaq_takehome.Authz.{can, update, delete, minimum_role, permits}
use bluestaq_takehome.Httpx.Problems.{ok}
use bluestaq_takehome.Httpx.{Decoded, value, write_json, write_status, decode_json, Request, Reply}
use bluestaq_takehome.Store.Models.{Note}
use bluestaq_takehome.Store.World.{
  World, continue, ◌>>=◌, ◌>>◌, lift, ask, pure, catch, handle, stmt, outcome, landed,
}
use bluestaq_takehome.Store.Whole.{AllOrNothing, quiet}
use bluestaq_takehome.Store.NoteQueries.{
  update_note, change_note, edited, title_fits, is_note, effective_role, max_rank, grants_to,
  grant_rank,
}
use bluestaq_takehome.Notes.Tags.{good, normal, gather, capped, normalize_tags}
use bluestaq_takehome.Notes.TagRules.{IsNormalized, normalize_tags-IsNormalized}
use bluestaq_takehome.Notes.IfMatch.{set_etag, etag_text, if_match_version}
use bluestaq_takehome.Notes.Etags.{if_match_version-etag_text}
use bluestaq_takehome.Notes.Roles.{grants_action, can-effective_role, only_owner}
use bluestaq_takehome.Notes.Access.{no_note, may_not, serve_hidden, serve_barred}
use bluestaq_takehome.Notes.Errors.{note_error_atomic}
use bluestaq_takehome.Notes.Handler.{
  UpdateRequest, refuse_fields, title_field, tags_field, bad_title, check_body,
}
use bluestaq_takehome.Notes.Handler
use bluestaq_takehome.Notes.Updating.{succeeds}
use bluestaq_takehome.Notes.Versions.{IsUpdated, update-IsUpdated, first_writer_wins}
use bluestaq_takehome.Store.ShareQueries.{share_fits}
use bluestaq_takehome.Notes.Sound.{IsSound}
use bluestaq_takehome.Notes.Keeping.{note_serve-IsSound}
use bluestaq_takehome.Notes.Trash.{restored_reply, load_owner}
use bluestaq_takehome.Notes.Load.{load, is_restore}
use bluestaq_takehome.Notes.Dto.{from_update}
use bluestaq_takehome.Notes.Dto
use bluestaq_takehome.Notes.Recovery.{final_row, deleted_hides, delete_then_restore}
use bluestaq_takehome.Prelude.Integer.{pos}
use bluestaq_takehome.Notes.Uploads.{StorageDeps}
use bluestaq_takehome.Notes.Attachments.{list_attachments_call, attachment_serve}
use bluestaq_takehome.Notes.Routes.{route, update_call, get_call, delete_call, restore_call, serve}
use bluestaq_takehome.Examples.Data.{late, world, db, request, note}

first_note : find (is_note 10) db.notes ≡ some (note 10 none)
unfolding find
first_note = refl

-- A viewer's role on the first note.
viewer_role : effective_role db 2 (note 10 none) ≡ 1
unfolding effective_role max_rank grants_to grant_rank
viewer_role = refl

no_role : effective_role db 3 (note 10 none) ≡ 0
unfolding effective_role max_rank grants_to grant_rank
no_role = refl

can-effective_role_example :
    can (effective_role db 2 (note 10 none)) update
    ≡ ((1 == 2) || any (grants_action db.team_members 2 10 update) db.note_shares)
can-effective_role_example = can-effective_role db 2 (note 10 none) update

only_owner_example : can (effective_role db 2 (note 10 none)) delete ≡ false
only_owner_example = only_owner db 2 (note 10 none) delete refl

serve_hidden_example : (serve (request 3 10 []) get_call world).0 ≡ no_note
serve_hidden_example =
    serve_hidden (request 3 10 []) get_call world
      (inr (inr (note 10 none, (10, refl, first_note, refl), inl no_role)))

viewer_may_not : can (effective_role db 2 (note 10 none)) delete ≡ false
unfolding can minimum_role permits
viewer_may_not = rw viewer_role refl

serve_barred_example : (serve (request 2 10 []) delete_call world).0 ≡ may_not delete
serve_barred_example =
    serve_barred (request 2 10 []) delete_call world
      (note 10 none, (10, refl, first_note, refl), rw viewer_role refl, refl, viewer_may_not)

-- The statement of the delete has its effect, and the reply is a 503.
note_error_atomic_example :
    AllOrNothing db
      (serve (request 1 10 []) delete_call (late 1)).1.db
      (route (request 1 10 []) delete_call (quiet (late 1)))
note_error_atomic_example = note_error_atomic (request 1 10 []) delete_call (late 1)

normalized :
    normalize_tags (λ c. c) (codes " a" ∷ codes "b" ∷ codes "a" ∷ [])
    ≡ good (codes "a" ∷ codes "b" ∷ [])
unfolding normalize_tags capped gather normal trim_space trim_left trim_right before_trimmed
    is_space is_empty to_lower byte_len rune_len text_eq any
normalized = refl

normalize_tags-IsNormalized_example :
    IsNormalized (λ c. c) (codes " a" ∷ codes "b" ∷ codes "a" ∷ []) (codes "a" ∷ codes "b" ∷ [])
normalize_tags-IsNormalized_example =
    normalize_tags-IsNormalized (λ c. c) (codes " a" ∷ codes "b" ∷ codes "a" ∷ [])
      (codes "a" ∷ codes "b" ∷ []) normalized

if_match_version-etag_text_example :
    (if_match_version (etag_text 3) ≡ ok 3) × (if_match_version (codes "W/" ++ etag_text 3) ≡ ok 3)
if_match_version-etag_text_example = if_match_version-etag_text 3 (omega arith) (omega arith)

-- Both callers send the entity tag of version 3.
abbrev sent : Request
sent = request 1 10 (etag_text 3)

abbrev retitled : Decoded UpdateRequest
retitled = value (record { title = some (codes "new"); body = none; tags = none }) false

abbrev retagged : Decoded UpdateRequest
retagged = value (record { title = none; body = none; tags = some (codes "t" ∷ []) }) false

tag_3 : if_match_version (etag_text 3) ≡ ok 3
tag_3 = let (strong, _) = if_match_version-etag_text 3 (omega arith) (omega arith) in strong

-- The row that the first update writes, by its second call, and what it replies.
abbrev new_row : Note
new_row = record (note 10 none) { title = codes "new"; version = 4; updated_at = 101 }

abbrev after : World
after = record world { db = record db { notes = new_row ∷ note 11 (some 7) ∷ [] }; calls = 2 }

abbrev reply : Reply Dto.Note
reply = set_etag 4 (write_json 200 (from_update new_row 3))

owner_loads :
    load sent update world
    ≡ (ok (record { note = note 10 none; effective_role = 3 }, 3), record world { calls = 1 })
owner_loads =
    load_owner sent update world 10 (note 10 none) (refl, first_note, refl, λ k. refl) refl

updated : Handler.update sent retitled world ≡ (ok reply, after)
unfolding Handler.update ◌>>=◌ ◌>>◌ continue lift ask decode_json pure refuse_fields title_field
    tags_field bad_title check_body catch handle update_note stmt outcome landed change_note edited
    title_fits find update_if trim_space trim_left trim_right before_trimmed is_space is_empty
    byte_len rune_len
updated = rw (owner_loads, tag_3) refl

update-IsUpdated_example : (reply.etag ≡ some (etag_text 4)) × IsUpdated db 10 3 after.db
update-IsUpdated_example =
    update-IsUpdated sent retitled world after 10 3 reply (refl, tag_3) updated

first_succeeds : succeeds (Handler.update sent retitled world) ≡ true
first_succeeds = rw updated refl

-- The second request finds what the first has left.
abbrev later : World
later = record world { db = (Handler.update sent retitled world).1.db }

first_writer_wins_example :
    (succeeds (Handler.update sent retagged later) ≡ false)
    × ((Handler.update sent retagged later).1.db ≡ later.db)
first_writer_wins_example =
    first_writer_wins sent sent retitled retagged world later 10 3 (refl, tag_3) (refl, tag_3)
      first_succeeds refl

writable : title_fits (codes "hi") ≡ true
unfolding title_fits
writable = refl

abbrev uploads_for : StorageDeps
uploads_for = record { upload_ttl = 1; download_ttl = 1; max_bytes = pos 100; allowed_mime = [] }

deleted_hides_example :
    ((serve (request 2 10 []) get_call (serve (request 1 10 []) delete_call world).1).0 ≡ no_note)
    × ((attachment_serve uploads_for
          (request 2 10 [])
          list_attachments_call
          (serve (request 1 10 []) delete_call world).1).0
        ≡ no_note)
unfolding is_restore
deleted_hides_example =
    deleted_hides (request 1 10 []) (request 2 10 []) get_call uploads_for list_attachments_call
      world 10 (note 10 none) (refl, first_note, refl, λ k. refl) refl (writable, omega arith) refl
      refl

delete_then_restore_example :
    ((serve (request 1 10 []) delete_call world).0 ≡ write_status 204)
    × ((serve (request 1 10 []) restore_call (serve (request 1 10 []) delete_call world).1).0
        ≡ restored_reply (final_row world (note 10 none)))
    × (find
          (is_note 10)
          (serve
            (request 1 10 [])
            restore_call
            (serve (request 1 10 []) delete_call world).1).1.db.notes
        ≡ some (final_row world (note 10 none)))
delete_then_restore_example =
    delete_then_restore (request 1 10 []) world 10 (note 10 none)
      (refl, first_note, refl, λ k. refl) refl (writable, omega arith)

sound : IsSound db
unfolding count_if any title_fits share_fits
sound = record {
  one_note = λ id. ground arith;
  rows = ((refl, omega arith, omega arith), ((refl, omega arith, omega arith), tt));
  one_share = λ n t p. ground arith;
  grants = ((refl, refl), tt);
}

note_serve-IsSound_example : IsSound (serve sent (update_call retitled) world).1.db
note_serve-IsSound_example = note_serve-IsSound sent (update_call retitled) world sound
