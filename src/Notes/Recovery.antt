-- ===== src/Notes/Recovery.antt =====
-- A note that is deleted and restored: `delete` and `restore` of internal/notes/handler.go in turn.
use bluestaq_takehome.Prelude.{
  ℕ, suc, ◌+◌, ◌≡◌, refl, sym, ◌∙◌, ap, true, false, inr, none, some, find, arith,
}
use bluestaq_takehome.Httpx.{Request, write_status}
use bluestaq_takehome.Store.Models.{Note}
use bluestaq_takehome.Store.World.{World}
use bluestaq_takehome.Store.NoteQueries.{is_note, is_live, is_deleted, soft_deleted, restored}
use bluestaq_takehome.Notes.Load.{is_restore}
use bluestaq_takehome.Notes.Access.{no_note, serve_hidden}
use bluestaq_takehome.Notes.Trash.{
  IsOwned, IsWritable, trashed, back, restored_reply, find-update_if, found-id, serve_delete,
  serve_restore,
}
use bluestaq_takehome.Notes.Uploads.{StorageDeps}
use bluestaq_takehome.Notes.Attachments.{
  AttachmentCall, list_attachments_call, attachment_action, attachment_serve,
}
use bluestaq_takehome.Notes.Gate.{attachment_hidden}
use bluestaq_takehome.Notes.Routes.{Call, delete_call, restore_call, action_of, serve}

-- The row between the two, and the row after them.
abbrev pub trash_row : World → Note → Note
trash_row w n = soft_deleted (w.env.now (suc w.calls)) n

abbrev pub final_row : World → Note → Note
final_row w n = record n {
  version = n.version + 2;
  updated_at = w.env.now (suc (suc (suc w.calls)));
}

module _ (w : World) (id : ℕ) (n : Note) where
  live-is_live : find (is_note id) w.db.notes ≡ some n → n.deleted_at ≡ none → is_live id n ≡ true
  live-is_live there live =
      let e : n.id ≡ id = found-id id w.db.notes n there in rw live (ground arith)

  trashed-find :
      find (is_note id) w.db.notes ≡ some n
      → n.deleted_at ≡ none
      → find (is_note id) (trashed w id).db.notes ≡ some (trash_row w n)
  unfolding soft_deleted
  trashed-find there live =
      find-update_if id (is_live id) (soft_deleted (w.env.now (suc w.calls))) (λ m. refl) w.db.notes
        n there (live-is_live there live)

  trash-is_deleted : find (is_note id) w.db.notes ≡ some n → is_deleted id (trash_row w n) ≡ true
  unfolding soft_deleted
  trash-is_deleted there = let e : n.id ≡ id = found-id id w.db.notes n there in ground arith

  final-row :
      n.deleted_at ≡ none
      → restored (w.env.now (suc (suc (suc w.calls)))) (trash_row w n) ≡ final_row w n
  unfolding soft_deleted restored
  final-row live =
      let now : ℕ = w.env.now (suc (suc (suc w.calls))) in
      let two : n.version + 1 + 1 ≡ n.version + 2 = omega arith in
      ap (λ v. record n { version = v; updated_at = now; deleted_at = none }) two
      ∙ ap (λ o. record n { version = n.version + 2; updated_at = now; deleted_at = o }) (sym live)

  back-find :
      find (is_note id) w.db.notes ≡ some n
      → n.deleted_at ≡ none
      → find (is_note id) (back (trashed w id) id).db.notes ≡ some (final_row w n)
  unfolding soft_deleted restored
  back-find there live =
      find-update_if id (is_deleted id) (restored (w.env.now (suc (suc (suc w.calls))))) (λ m. refl)
        (trashed w id).db.notes (trash_row w n) (trashed-find there live) (trash-is_deleted there)
      ∙ ap some (final-row live)

no_restore : (a : AttachmentCall) → is_restore (attachment_action a) ≡ false
unfolding is_restore
no_restore list_attachments_call = refl
no_restore _ = refl

-- After the owner has deleted a note, every caller, the owner included, gets the 404 of a note that
-- is not there, from every endpoint of the note, of its shares and of its attachments but `restore`. No
-- call meets a fault, and the row keeps to the checks of its table.
pub deleted_hides :
    (r r' : Request) (c : Call) (h : StorageDeps) (a : AttachmentCall) (w : World) (id : ℕ)
    (n : Note)
    → IsOwned r w id n
    → n.deleted_at ≡ none
    → IsWritable n 1
    → is_restore (action_of c) ≡ false
    → w.env.uuid_parse (r'.url_param "id") ≡ some id
    → ((serve r' c (serve r delete_call w).1).0 ≡ no_note)
      × ((attachment_serve h r' a (serve r delete_call w).1).0 ≡ no_note)
unfolding soft_deleted
deleted_hides r r' c h a w id n (e, there, own, calm) live writable other aimed =
    rw (serve_delete r w id n (e, there, own, calm) (rw live refl) writable) (
      serve_hidden r' c (trashed w id) (
          inr (
            inr (
              trash_row w n,
              (id, aimed, trashed-find w id n there live, calm (suc (suc w.calls))),
              inr (refl, other),
            ))),
      attachment_hidden h r' a (trashed w id) (
          inr (
            inr (
              trash_row w n,
              (id, aimed, trashed-find w id n there live, calm (suc (suc w.calls))),
              inr (refl, no_restore a),
            ))),
    )

serve_restore-trashed :
    (r : Request) (w : World) (id : ℕ) (n : Note)
    → IsOwned r w id n
    → n.deleted_at ≡ none
    → IsWritable n 2
    → serve r restore_call (trashed w id) ≡ (restored_reply (final_row w n), back (trashed w id) id)
unfolding soft_deleted
serve_restore-trashed r w id n (e, there, own, calm) live (fits, low) =
    serve_restore r (trashed w id) id (trash_row w n) (e, trashed-find w id n there live, own, calm)
      refl (fits, omega arith)
    ∙ ap (λ m. (restored_reply m, back (trashed w id) id)) (final-row w id n live)

-- Deleting is soft. The owner's delete of a live note answers 204; the owner's restore after it
-- answers 200 with the note; and the row is the one from before, with a version two higher and a
-- new time of update, so that an If-Match from before the deletion does not match it. No call meets
-- a fault, and the row keeps to the checks of its table.
pub delete_then_restore :
    (r : Request) (w : World) (id : ℕ) (n : Note)
    → IsOwned r w id n
    → n.deleted_at ≡ none
    → IsWritable n 2
    → ((serve r delete_call w).0 ≡ write_status 204)
      × ((serve r restore_call (serve r delete_call w).1).0 ≡ restored_reply (final_row w n))
      × (find (is_note id) (serve r restore_call (serve r delete_call w).1).1.db.notes
          ≡ some (final_row w n))
delete_then_restore r w id n (e, there, own, calm) live (fits, low) =
    rw
      (
        serve_delete r w id n (e, there, own, calm) (rw live refl) (fits, omega arith),
        serve_restore-trashed r w id n (e, there, own, calm) live (fits, low),
      )
      (refl, refl, back-find w id n there live)
