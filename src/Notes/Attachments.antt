-- ===== src/Notes/Attachments.antt =====
-- internal/notes/attachments.go: complete, list and delete, and the routes of a note's attachments.
use bluestaq_takehome.Prelude.{ℕ, List, [], ◌∷◌, ◌++◌, ◌==◌, any, str_eq, if◌then◌else◌}
use bluestaq_takehome.Prelude.Integer.{ℤ, pos, ltb_ℤ}
use bluestaq_takehome.Authz.{Action}
use bluestaq_takehome.Authz
use bluestaq_takehome.Httpx.Problems.{
  signed_num, Err, Result, ok, err, Problem, problem, lit, num, uuid, say, errorf, not_found,
}
use bluestaq_takehome.Httpx.{Request, Reply, Decoded, write_json, write_status, respond}
use bluestaq_takehome.Storage
use bluestaq_takehome.Store.Errors.{is_not_found}
use bluestaq_takehome.Store.Models
use bluestaq_takehome.Store.Models.{NoteWithAccess}
use bluestaq_takehome.Store.World.{
  World, ObjectInfo, M, pure, throw, ask, lift, or_throw, catch, count_presign, ◌>>=◌, ◌>>◌,
}
use bluestaq_takehome.Store.AttachmentQueries
use bluestaq_takehome.Notes.References.{referenced_ids}
use bluestaq_takehome.Notes.Load.{load}
use bluestaq_takehome.Notes.Uploads.{
  StorageDeps, Attachment, CreateAttachmentRequest, CreateAttachmentResponse, to_attachment,
  create_attachment,
}

abbrev pub hide_attachment : Err → Err
hide_attachment e = if is_not_found e then problem (not_found "attachment") else e

unfoldable pub load_attachment : Request → ℕ → M Models.Attachment
load_attachment r note_id = do
  env ← ask
  id ← or_throw (problem (not_found "attachment")) (env.uuid_parse (r.url_param "attachmentID"))
  catch (AttachmentQueries.get_attachment id note_id) (λ e. throw (hide_attachment e))

-- What is left of an error of `Stat`.
abbrev pub no_object : Err → Err
no_object e =
    if Storage.is_not_found e
    then problem (errorf 409 (say "no object was uploaded; PUT the file to the upload_url first"))
    else e

abbrev pub too_large_problem : ℕ → ℤ → Problem
too_large_problem size max_bytes = errorf 413 (
    lit "uploaded "
    ∷ num size
    ∷ lit " bytes, which exceeds the "
    ∷ (signed_num max_bytes ++ lit " byte limit; the object was discarded" ∷ []))

-- An error of this removal is dropped.
unfoldable pub discard : Models.Attachment → ObjectInfo → ℤ → M (Reply Attachment)
discard att info max_bytes = do
  catch (Storage.delete att.object_key) (λ e. pure tt)
  throw (problem (too_large_problem info.size max_bytes))

unfoldable pub accept : Models.Attachment → ObjectInfo → M (Reply Attachment)
accept att info = do
  ready ← AttachmentQueries.mark_attachment_ready att.id info.size info.etag
  pure (write_json 200 (to_attachment ready []))

unfoldable pub verify : StorageDeps → Models.Attachment → M (Reply Attachment)
verify h att = do
  info ← catch (Storage.stat att.object_key) (λ e. throw (no_object e))
  if ltb_ℤ h.max_bytes (pos info.size) then discard att info h.max_bytes else accept att info

unfoldable pub complete_attachment : StorageDeps → Request → M (Reply Attachment)
complete_attachment h r = do
  (row, role) ← load r Authz.add_attachment
  att ← load_attachment r row.note.id
  if str_eq att.status "ready" then pure (write_json 200 (to_attachment att [])) else verify h att

-- The loop over the rows.
unfoldable pub presign_rows : ℕ → List Models.Attachment → M (List Attachment)
presign_rows ttl [] = pure []
presign_rows ttl (a ∷ rows) = do
  url ← Storage.presign_get a.object_key a.filename ttl
  count_presign
  out ← presign_rows ttl rows
  pure (to_attachment a url ∷ out)

unfoldable pub list_attachments : StorageDeps → Request → M (Reply (List Attachment))
list_attachments h r = do
  (row, role) ← load r Authz.download_attachment
  rows ← AttachmentQueries.list_note_attachments row.note.id
  out ← presign_rows h.download_ttl rows
  pure (write_json 200 out)

abbrev pub still_referenced : ℕ → Problem
still_referenced id = errorf 409 (
    lit "the note body still references this attachment (attachment:"
    ∷ uuid id
    ∷ lit "); remove the reference before deleting it"
    ∷ [])

unfoldable pub unreferenced : List ℕ → ℕ → Result (Unit {0})
unreferenced refs id =
    if any (λ i. i == id) refs then err (problem (still_referenced id)) else ok tt

-- Row first, object second; a removal that fails is logged.
unfoldable pub delete_attachment : Request → M (Reply Attachment)
delete_attachment r = do
  (row, role) ← load r Authz.remove_attachment
  att ← load_attachment r row.note.id
  env ← ask
  lift (unreferenced (referenced_ids env.uuid_parse row.note.body) att.id)
  AttachmentQueries.delete_attachment att.id row.note.id
  catch (Storage.delete att.object_key) (λ e. pure tt)
  pure (write_status 204)

-- The endpoints of a note's attachments, each with its decoded body.
pub data AttachmentCall : Type 0 where
  list_attachments_call complete_attachment_call delete_attachment_call : AttachmentCall
  create_attachment_call : Decoded CreateAttachmentRequest → AttachmentCall

abbrev pub AttachmentBody : AttachmentCall → Type 0
AttachmentBody list_attachments_call = List Attachment
AttachmentBody (create_attachment_call b) = CreateAttachmentResponse
AttachmentBody _ = Attachment

abbrev pub attachment_action : AttachmentCall → Action
attachment_action list_attachments_call = Authz.download_attachment
attachment_action (create_attachment_call b) = Authz.add_attachment
attachment_action complete_attachment_call = Authz.add_attachment
attachment_action delete_attachment_call = Authz.remove_attachment

unfoldable pub attachment_route :
    StorageDeps → Request → (c : AttachmentCall) → M (Reply (AttachmentBody c))
attachment_route h r list_attachments_call = list_attachments h r
attachment_route h r (create_attachment_call b) = create_attachment h r b
attachment_route h r complete_attachment_call = complete_attachment h r
attachment_route h r delete_attachment_call = delete_attachment r

unfoldable pub attachment_serve :
    StorageDeps → Request → (c : AttachmentCall) → World → Reply (AttachmentBody c) × World
attachment_serve h r c = respond r (attachment_route h r c)
