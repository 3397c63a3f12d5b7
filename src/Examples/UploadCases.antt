-- ===== src/Examples/UploadCases.antt =====
-- The theorems on attachments at concrete inputs.
use bluestaq_takehome.Prelude.{
  true, if◌then◌else◌, ◌==◌, none, some, ℕ, ◌≤◌, ◌≡◌, refl, false, inl, none, some, [], ◌∷◌, arith,
  find, any, count_if, length,
}
use bluestaq_takehome.Prelude.Text.{codes}
use bluestaq_takehome.Prelude.Integer.{pos}
use bluestaq_takehome.Authz.{can, add_attachment, remove_attachment, minimum_role, permits}
use bluestaq_takehome.Httpx.{Request}
use bluestaq_takehome.Store.World.{deadline, World, ObjectInfo}
use bluestaq_takehome.Store.NoteQueries.{is_note, effective_role}
use bluestaq_takehome.Store.AttachmentQueries.{is_attachment_on, attachment_fits}
use bluestaq_takehome.Notes.Stored.{IsStored}
use bluestaq_takehome.Notes.Storing.{attachment_serve-IsStored}
use bluestaq_takehome.Notes.UploadErrors.{attachment_error, Remains}
use bluestaq_takehome.Notes.Aimed.{IsAimed}
use bluestaq_takehome.Notes.Completing.{
  ready_row, ready_reply, at_stat, after_completion, complete_twice,
}
use bluestaq_takehome.Notes.Refusing.{refusal, complete_over_limit}
use bluestaq_takehome.Notes.Removing.{
  is_referenced, delete_status, delete_db, delete_removals, delete_attachment-referenced,
}
use bluestaq_takehome.Notes.FilenameRules.{is_harmful, sanitize_filename-IsHarmless}
use bluestaq_takehome.Notes.Filenames.{sanitize_filename}
use bluestaq_takehome.Notes.Uploads.{StorageDeps}
use bluestaq_takehome.Notes.Attachments.{
  complete_attachment_call, delete_attachment_call, attachment_serve,
}
use bluestaq_takehome.Examples.Data.{env, db, request, note, upload}

abbrev uploads : World
uploads = record {
  env = env;
  db = record db { attachments = upload ∷ [] };
  calls = 0;
  fault = λ k. none;
  lands = λ k. false;
  conflicts = 0;
  presigns = 0;
  removals = [];
}

abbrev deps : ℕ → StorageDeps
deps max_bytes = record {
  upload_ttl = 900;
  download_ttl = 3600;
  max_bytes = pos max_bytes;
  allowed_mime = codes "image/" ∷ [];
}

abbrev owner : Request
owner = request 1 10 []

owner_role : effective_role uploads.db 1 (note 10 none) ≡ 3
unfolding effective_role
owner_role = refl

there : find (is_note 10) uploads.db.notes ≡ some (note 10 none)
unfolding find
there = refl

attached : find (is_attachment_on 10 10) uploads.db.attachments ≡ some upload
unfolding find
attached = refl

adds : IsAimed owner add_attachment uploads (note 10 none) upload
unfolding can minimum_role permits
adds = (refl, refl, there, attached, refl, rw owner_role refl, λ k. refl)

removes : IsAimed owner remove_attachment uploads (note 10 none) upload
unfolding can minimum_role permits
removes = (refl, refl, there, attached, refl, rw owner_role refl, λ k. refl)

stored : IsStored 100 uploads.db
unfolding count_if any attachment_fits
stored = record {
  one_id = λ id. ground arith;
  one_key = λ key. ground arith;
  uploads = ((refl, omega arith, inl refl, refl), tt);
}

attachment_serve-IsStored_example :
    IsStored 100 (attachment_serve (deps 100) owner complete_attachment_call uploads).1.db
attachment_serve-IsStored_example =
    attachment_serve-IsStored (deps 100) owner complete_attachment_call uploads stored

abbrev object : ObjectInfo
object = record { size = 40; content_type = []; etag = codes "e" }

complete_twice_example :
    ((attachment_serve (deps 100) owner complete_attachment_call uploads).0
      ≡ ready_reply (ready_row uploads object upload))
    × (find
          (is_attachment_on 10 10)
          (attachment_serve (deps 100) owner complete_attachment_call uploads).1.db.attachments
        ≡ some (ready_row uploads object upload))
    × (attachment_serve
          (deps 100)
          owner
          complete_attachment_call
          (attachment_serve (deps 100) owner complete_attachment_call uploads).1
        ≡ (
          ready_reply (ready_row uploads object upload),
          at_stat (after_completion uploads object upload),
        ))
complete_twice_example =
    complete_twice (deps 100) owner uploads (note 10 none) upload object (adds, stored, refl, refl)
      refl (omega arith)

complete_over_limit_example :
    attachment_serve (deps 30) owner complete_attachment_call uploads
    ≡ (refusal 40 (pos 30), record uploads { calls = 4; removals = upload.object_key ∷ [] })
complete_over_limit_example =
    complete_over_limit (deps 30) owner uploads (note 10 none) upload object adds refl refl refl

delete_attachment-referenced_example :
    ((attachment_serve (deps 100) owner delete_attachment_call uploads).0.status
      ≡ delete_status (is_referenced uploads (note 10 none) upload))
    × (any
          (is_attachment_on 10 10)
          (attachment_serve (deps 100) owner delete_attachment_call uploads).1.db.attachments
        ≡ is_referenced uploads (note 10 none) upload)
    × ((attachment_serve (deps 100) owner delete_attachment_call uploads).1.db
        ≡ delete_db (is_referenced uploads (note 10 none) upload) uploads (note 10 none) upload)
    × ((attachment_serve (deps 100) owner delete_attachment_call uploads).1.removals
        ≡ delete_removals (is_referenced uploads (note 10 none) upload) uploads upload)
delete_attachment-referenced_example =
    delete_attachment-referenced (deps 100) owner uploads (note 10 none) upload removes

sanitize_filename-IsHarmless_example :
    (any is_harmful (sanitize_filename (codes "../a/b.png")) ≡ false)
    × (length (sanitize_filename (codes "../a/b.png")) ≤ 255)
sanitize_filename-IsHarmless_example = sanitize_filename-IsHarmless (codes "../a/b.png")

-- The completion takes effect, and the reply is a 503.
abbrev late_uploads : World
late_uploads = record uploads {
  fault = λ k. if k == 3 then some deadline else none;
  lands = λ k. true;
}

attachment_error_example :
    Remains
      (deps 100)
      owner
      complete_attachment_call
      late_uploads
      (attachment_serve (deps 100) owner complete_attachment_call late_uploads).1.db
attachment_error_example = attachment_error (deps 100) owner complete_attachment_call late_uploads
