-- ===== src/Notes/Completing.antt =====
-- `completeAttachment` of internal/notes/attachments.go: what it comes to.
use bluestaq_takehome.Prelude.{
  ℕ, suc, ◌≤◌, ◌≡◌, refl, ◌∙◌, true, false, none, some, [], find, update_if, str_eq, eq_iff, arith,
}
use bluestaq_takehome.Prelude.Text.{Text}
use bluestaq_takehome.Prelude.Integer.{pos, pos_part, ltb_ℤ}
use bluestaq_takehome.Prelude.Counting.{find-some, find-narrow, find-update_if_kept}
use bluestaq_takehome.Prelude.Every.{All-find}
use bluestaq_takehome.Authz
use bluestaq_takehome.Httpx.Problems.{ok}
use bluestaq_takehome.Httpx.{Request, Reply, write_json, respond, written}
use bluestaq_takehome.Storage
use bluestaq_takehome.Store.Models
use bluestaq_takehome.Store.Models.{Db, Note}
use bluestaq_takehome.Store.World.{
  World, ObjectInfo, pure, catch, handle, continue, outcome, landed, stmt, external, ◌>>=◌,
}
use bluestaq_takehome.Store.NoteQueries.{effective_role}
use bluestaq_takehome.Store.AttachmentQueries.{
  is_attachment, is_attachment_on, is_pending, attachment_fits, completed, change_attachment,
  mark_attachment_ready,
}
use bluestaq_takehome.Notes.Visibility.{step_call}
use bluestaq_takehome.Notes.Stored.{IsStored, IsUpload}
use bluestaq_takehome.Notes.Uploads.{StorageDeps, Attachment, to_attachment}
use bluestaq_takehome.Notes.Aimed.{IsAimed, load-aimed, load_attachment-aimed}
use bluestaq_takehome.Notes.Attachments.{
  accept, verify, complete_attachment, complete_attachment_call, attachment_route, attachment_serve,
}

-- The world of the third call, in which the object store is asked.
abbrev pub at_stat : World → World
at_stat w = step_call (step_call w)

-- The object that the store reports under the attachment's key.
abbrev pub Reports : World → Models.Attachment → ObjectInfo → Type 0
Reports w a info = w.env.object_client.stat_object (suc (suc w.calls)) a.object_key ≡ ok info

-- The row that the completion writes: the size and the checksum are the stored object's.
abbrev pub ready_row : World → ObjectInfo → Models.Attachment → Models.Attachment
ready_row w info a = record a {
  size_bytes = info.size;
  checksum = some info.etag;
  status = "ready";
  ready_at = some (w.env.now (suc (suc (suc w.calls))));
}

abbrev pub after_completion : World → ObjectInfo → Models.Attachment → World
after_completion w info a = record w {
  db = record w.db {
    attachments =
        update_if (is_pending a.id)
          (completed info.size info.etag (w.env.now (suc (suc (suc w.calls))))) w.db.attachments;
  };
  calls = suc (suc (suc (suc w.calls)));
}

abbrev pub ready_reply : Models.Attachment → Reply Attachment
ready_reply a = write_json 200 (to_attachment a [])

module _ (h : StorageDeps) (r : Request) (w : World) (n : Note) (a : Models.Attachment) where
  -- A row that is ready is answered as it is.
  pub serve-ready :
      IsAimed r Authz.add_attachment w n a
      → str_eq a.status "ready" ≡ true
      → attachment_serve h r complete_attachment_call w ≡ (ready_reply a, at_stat w)
  unfolding attachment_serve attachment_route respond written complete_attachment ◌>>=◌ continue
      pure
  serve-ready aimed ready =
      rw
        (
          load-aimed r Authz.add_attachment w n a aimed,
          load_attachment-aimed r Authz.add_attachment w n a aimed,
          ready,
        )
        refl

  -- A row that is pending is verified.
  pub serve-verify :
      IsAimed r Authz.add_attachment w n a
      → str_eq a.status "ready" ≡ false
      → attachment_serve h r complete_attachment_call w ≡ respond r (verify h a) (at_stat w)
  unfolding attachment_serve attachment_route respond complete_attachment ◌>>=◌ continue
  serve-verify aimed pending =
      rw
        (
          load-aimed r Authz.add_attachment w n a aimed,
          load_attachment-aimed r Authz.add_attachment w n a aimed,
          pending,
        )
        refl

pub pending_row :
    (top : ℕ) (d : Db) (n : Note) (a : Models.Attachment)
    → IsStored top d
    → find (is_attachment_on a.id n.id) d.attachments ≡ some a
    → a.status ≡ "pending"
    → find (is_pending a.id) d.attachments ≡ some a
pending_row top d n a g there new =
    find-narrow (is_pending a.id) (is_attachment_on a.id n.id) (is_attachment a.id)
      (λ x e. ground arith) (λ x e. ground arith) d.attachments a there
      (ground (arith, eq_iff a.status "pending")) (g.one_id a.id)

completed-fits :
    (size : ℕ) (sum : Text) (now : ℕ) (a : Models.Attachment)
    → attachment_fits a ≡ true
    → 1 ≤ size
    → attachment_fits (completed size sum now a) ≡ true
unfolding attachment_fits completed
completed-fits size sum now a fits some_bytes = ground arith

accepted :
    (r : Request) (v : World) (a : Models.Attachment) (info : ObjectInfo)
    → v.fault v.calls ≡ none
    → find (is_pending a.id) v.db.attachments ≡ some a
    → attachment_fits (completed info.size info.etag (v.env.now v.calls) a) ≡ true
    → respond r (accept a info) v ≡ (
      ready_reply (completed info.size info.etag (v.env.now v.calls) a),
      record v {
        db = record v.db {
          attachments =
              update_if
                (is_pending a.id)
                (completed info.size info.etag (v.env.now v.calls))
                v.db.attachments;
        };
        calls = suc v.calls;
      },
    )
unfolding respond written accept mark_attachment_ready stmt outcome landed change_attachment ◌>>=◌
    continue pure
accepted r v a info calm there fits = rw (calm, there, fits) refl

pub within_limit :
    (h : StorageDeps) (r : Request) (v : World) (a : Models.Attachment) (info : ObjectInfo)
    → v.env.object_client.stat_object v.calls a.object_key ≡ ok info
    → ltb_ℤ h.max_bytes (pos info.size) ≡ false
    → respond r (verify h a) v ≡ respond r (accept a info) (step_call v)
unfolding respond verify Storage.stat external catch handle ◌>>=◌ continue
within_limit h r v a info there small = rw (there, small) refl

-- The attachment that the URL names waits for its upload, and the store holds an object under its key.
abbrev pub IsUploaded :
    StorageDeps → Request → World → Note → Models.Attachment → ObjectInfo → Type 0
IsUploaded h r w n a info =
    IsAimed r Authz.add_attachment w n a
    × IsStored (pos_part h.max_bytes) w.db
    × (a.status ≡ "pending")
    × Reports w a info

module _ (h : StorageDeps) (r : Request) (w : World) (n : Note) (a : Models.Attachment)
    (info : ObjectInfo) where
  not_ready : a.status ≡ "pending" → str_eq a.status "ready" ≡ false
  not_ready new = rw new refl

  serve-accepts :
      IsUploaded h r w n a info
      → ltb_ℤ h.max_bytes (pos info.size) ≡ false
      → 1 ≤ info.size
      → attachment_serve h r complete_attachment_call w
        ≡ (ready_reply (ready_row w info a), after_completion w info a)
  unfolding completed
  serve-accepts (aimed, g, new, there) small some_bytes =
      let found = aimed.3 in
      let upload =
        All-find (IsUpload (pos_part h.max_bytes) w.db.notes) (is_attachment_on a.id n.id)
          w.db.attachments a found g.uploads in
      serve-verify h r w n a aimed (not_ready new)
      ∙ within_limit h r (at_stat w) a info there small
      ∙ accepted r (step_call (at_stat w)) a info (aimed.6 (suc (suc (suc w.calls))))
          (pending_row (pos_part h.max_bytes) w.db n a g found new)
          (completed-fits info.size info.etag (w.env.now (suc (suc (suc w.calls)))) a upload.0
            some_bytes)

  ready_found :
      IsUploaded h r w n a info
      → find (is_attachment_on a.id n.id) (after_completion w info a).db.attachments
        ≡ some (ready_row w info a)
  unfolding completed
  ready_found (aimed, g, new, there) =
      find-update_if_kept (is_attachment_on a.id n.id) (is_pending a.id)
        (completed info.size info.etag (w.env.now (suc (suc (suc w.calls))))) (λ b. refl)
        w.db.attachments a aimed.3
        (find-some (is_pending a.id) w.db.attachments a
          (pending_row (pos_part h.max_bytes) w.db n a g aimed.3 new))

  IsAimed-again :
      IsUploaded h r w n a info
      → IsAimed r Authz.add_attachment (after_completion w info a) n (ready_row w info a)
  unfolding completed effective_role
  IsAimed-again (aimed, g, new, there) =
      (aimed.0, aimed.1, aimed.2, ready_found (aimed, g, new, there), aimed.4, aimed.5, aimed.6)

-- Completing an upload is idempotent, and the size is what was stored: where the attachment is
-- pending and the store holds an object of 1 byte to the limit under its key, the reply is a 200 with
-- the row, now ready and with the object's size, whatever size was declared; the table holds that row;
-- and a second call gives the same reply and changes no table. The caller may add attachments, the
-- tables satisfy the invariant of attachments, and no call meets a fault.
pub complete_twice :
    (h : StorageDeps) (r : Request) (w : World) (n : Note) (a : Models.Attachment)
    (info : ObjectInfo)
    → IsUploaded h r w n a info
    → ltb_ℤ h.max_bytes (pos info.size) ≡ false
    → 1 ≤ info.size
    → ((attachment_serve h r complete_attachment_call w).0 ≡ ready_reply (ready_row w info a))
      × (find
            (is_attachment_on a.id n.id)
            (attachment_serve h r complete_attachment_call w).1.db.attachments
          ≡ some (ready_row w info a))
      × (attachment_serve h r complete_attachment_call
            (attachment_serve h r complete_attachment_call w).1
          ≡ (ready_reply (ready_row w info a), at_stat (after_completion w info a)))
unfolding completed
complete_twice h r w n a info up small some_bytes =
    rw (serve-accepts h r w n a info up small some_bytes) (
      refl,
      ready_found h r w n a info up,
      serve-ready h r (after_completion w info a) n (ready_row w info a)
          (IsAimed-again h r w n a info up) refl,
    )
