-- ===== src/Notes/Refusing.antt =====
-- `completeAttachment` of internal/notes/attachments.go: the uploads that it refuses.
use bluestaq_takehome.Prelude.{
  ℕ, suc, ◌≡◌, refl, ◌∙◌, true, false, Option, none, some, List, ◌∷◌, find, arith,
}
use bluestaq_takehome.Prelude.Text.{Text}
use bluestaq_takehome.Prelude.Integer.{ℤ, pos, pos_part, ltb_ℤ}
use bluestaq_takehome.Authz
use bluestaq_takehome.Httpx.Problems.{say, Err, ok, errorf}
use bluestaq_takehome.Httpx.{
  Request, Reply, respond, written, write_problem, classify, problem_json,
}
use bluestaq_takehome.Storage
use bluestaq_takehome.Store.Models
use bluestaq_takehome.Store.Models.{Db, Note}
use bluestaq_takehome.Store.World.{
  World, ObjectInfo, pure, throw, catch, handle, continue, outcome, landed, stmt, external, removed,
  ◌>>=◌, ◌>>◌,
}
use bluestaq_takehome.Store.AttachmentQueries.{
  is_pending, attachment_fits, completed, change_attachment, mark_attachment_ready,
}
use bluestaq_takehome.Notes.Visibility.{step_call}
use bluestaq_takehome.Notes.Uploads.{StorageDeps, Attachment}
use bluestaq_takehome.Notes.Aimed.{IsAimed}
use bluestaq_takehome.Notes.Attachments.{
  discard, accept, verify, too_large_problem, complete_attachment_call, attachment_serve,
}
use bluestaq_takehome.Notes.Completing.{
  at_stat, Reports, IsUploaded, serve-verify, pending_row, within_limit,
}

abbrev pub refusal : ℕ → ℤ → Reply Attachment
refusal size max = record {
  status = 413;
  etag = none;
  content = problem_json (too_large_problem size max);
}

-- A removal that is asked for: noted where the store reports it done.
abbrev pub removals_after : List Text → Text → Option Err → List Text
removals_after done key none = key ∷ done
removals_after done key (some e) = done

discarded :
    (r : Request) (v : World) (a : Models.Attachment) (info : ObjectInfo) (max : ℤ) (o : Option Err)
    → v.env.object_client.remove_object v.calls a.object_key ≡ o
    → respond r (discard a info max) v ≡ (
      refusal info.size max,
      record v { calls = suc v.calls; removals = removals_after v.removals a.object_key o },
    )
unfolding respond written discard Storage.delete removed catch handle throw pure write_problem
    classify errorf ◌>>=◌ ◌>>◌ continue
discarded r v a info max none e = rw e refl
discarded r v a info max (some x) e = rw e refl

over_limit :
    (h : StorageDeps) (r : Request) (v : World) (a : Models.Attachment) (info : ObjectInfo)
    → v.env.object_client.stat_object v.calls a.object_key ≡ ok info
    → ltb_ℤ h.max_bytes (pos info.size) ≡ true
    → respond r (verify h a) v ≡ respond r (discard a info h.max_bytes) (step_call v)
unfolding respond verify Storage.stat external catch handle ◌>>=◌ continue
over_limit h r v a info there large = rw (there, large) refl

-- The limit is enforced by what was stored: where the object is over it, the reply is a 413 with the
-- two sizes, no table changes, so that the row stays pending, and the object is removed, unless the
-- store reports an error, which is dropped. The caller may add attachments, the attachment is pending,
-- the store reports the object, and no call of the database meets a fault.
pub complete_over_limit :
    (h : StorageDeps) (r : Request) (w : World) (n : Note) (a : Models.Attachment)
    (info : ObjectInfo)
    → IsAimed r Authz.add_attachment w n a
    → a.status ≡ "pending"
    → Reports w a info
    → ltb_ℤ h.max_bytes (pos info.size) ≡ true
    → attachment_serve h r complete_attachment_call w ≡ (
      refusal info.size h.max_bytes,
      record w {
        calls = suc (suc (suc (suc w.calls)));
        removals =
            removals_after w.removals a.object_key
              (w.env.object_client.remove_object (suc (suc (suc w.calls))) a.object_key);
      },
    )
complete_over_limit h r w n a info aimed new there large =
    serve-verify h r w n a aimed (rw new refl)
    ∙ over_limit h r (at_stat w) a info there large
    ∙ discarded r (step_call (at_stat w)) a info h.max_bytes _ refl

-- What the database refuses is answered as an internal error.
abbrev pub internal_error : Reply Attachment
internal_error = record {
  status = 500;
  etag = none;
  content = problem_json (errorf 500 (say "an internal error occurred"));
}

not_accepted :
    (r : Request) (v : World) (a : Models.Attachment) (info : ObjectInfo)
    → v.fault v.calls ≡ none
    → find (is_pending a.id) v.db.attachments ≡ some a
    → attachment_fits (completed info.size info.etag (v.env.now v.calls) a) ≡ false
    → respond r (accept a info) v ≡ (internal_error, step_call v)
unfolding respond written accept mark_attachment_ready stmt outcome landed change_attachment ◌>>=◌
    continue pure write_problem classify
not_accepted r v a info calm there unfit = rw (calm, there, unfit) refl

completed-unfit :
    (size : ℕ) (sum : Text) (now : ℕ) (a : Models.Attachment)
    → size ≡ 0
    → attachment_fits (completed size sum now a) ≡ false
unfolding attachment_fits completed
completed-unfit size sum now a e = ground arith

-- An empty file cannot be completed: where the object that was put has no bytes, the row never leaves
-- pending, and the reply is a 500. The attachment is pending, the caller may add attachments, the
-- limit is not negative, the tables satisfy the invariant of attachments, and no call meets a fault.
pub complete_empty :
    (h : StorageDeps) (r : Request) (w : World) (n : Note) (a : Models.Attachment)
    (info : ObjectInfo)
    → IsUploaded h r w n a info
    → ltb_ℤ h.max_bytes (pos 0) ≡ false
    → info.size ≡ 0
    → attachment_serve h r complete_attachment_call w
      ≡ (internal_error, record w { calls = suc (suc (suc (suc w.calls))) })
complete_empty h r w n a info (aimed, g, new, there) positive empty =
    serve-verify h r w n a aimed (rw new refl)
    ∙ within_limit h r (at_stat w) a info there (ground arith)
    ∙ not_accepted r (step_call (at_stat w)) a info (aimed.6 (suc (suc (suc w.calls))))
        (pending_row (pos_part h.max_bytes) w.db n a g aimed.3 new)
        (completed-unfit info.size info.etag (w.env.now (suc (suc (suc w.calls)))) a empty)
