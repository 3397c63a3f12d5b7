-- ===== src/Notes/Gate.antt =====
-- Who may reach a note's attachments: `load` in front of the endpoints of internal/notes/attachments.go.
use bluestaq_takehome.Prelude.{◌≡◌, ◌∙◌}
use bluestaq_takehome.Httpx.Problems.{Err, err}
use bluestaq_takehome.Httpx.{Request, write_problem}
use bluestaq_takehome.Httpx.Failures.{respond-bind_err}
use bluestaq_takehome.Store.World.{World}
use bluestaq_takehome.Notes.Load.{load}
use bluestaq_takehome.Notes.Access.{
  IsHidden, IsBarred, load_hidden, load_barred, no_note, may_not, write_problem-no_note,
  write_problem-may_not,
}
use bluestaq_takehome.Notes.Uploads.{StorageDeps, create_attachment}
use bluestaq_takehome.Notes.Attachments.{
  complete_attachment, list_attachments, delete_attachment, AttachmentCall, list_attachments_call,
  complete_attachment_call, delete_attachment_call, create_attachment_call, attachment_action,
  attachment_route, attachment_serve,
}

serve-load :
    (h : StorageDeps) (r : Request) (c : AttachmentCall) (w : World) (e : Err)
    → (load r (attachment_action c) w).0 ≡ err e
    → (attachment_serve h r c w).0 ≡ write_problem r e
unfolding attachment_serve attachment_route complete_attachment list_attachments delete_attachment
    create_attachment
serve-load h r list_attachments_call w e p = respond-bind_err (load r _) _ r w e p
serve-load h r complete_attachment_call w e p = respond-bind_err (load r _) _ r w e p
serve-load h r delete_attachment_call w e p = respond-bind_err (load r _) _ r w e p
serve-load h r (create_attachment_call b) w e p = respond-bind_err (load r _) _ r w e p

-- The endpoints of attachments answer the same 404 as those of the note, where the note is not the
-- caller's to see: no id in the URL, no such note, no role on it, or a note that is deleted. The read
-- meets no fault.
pub attachment_hidden :
    (h : StorageDeps) (r : Request) (c : AttachmentCall) (w : World)
    → IsHidden r (attachment_action c) w
    → (attachment_serve h r c w).0 ≡ no_note
attachment_hidden h r c w p =
    serve-load h r c w _ (load_hidden r (attachment_action c) w p) ∙ write_problem-no_note r

-- A caller who sees the note and whose role is too low, a viewer who uploads, gets the 403 that names
-- the action. The read meets no fault.
pub attachment_barred :
    (h : StorageDeps) (r : Request) (c : AttachmentCall) (w : World)
    → IsBarred r (attachment_action c) w
    → (attachment_serve h r c w).0 ≡ may_not (attachment_action c)
attachment_barred h r c w p =
    serve-load h r c w _ (load_barred r (attachment_action c) w p)
    ∙ write_problem-may_not r (attachment_action c)
