-- ===== src/Notes/Removing.antt =====
-- `deleteAttachment` of internal/notes/attachments.go.
use bluestaq_takehome.Prelude.{
  ℕ, suc, ◌≡◌, refl, Bool, true, false, Bool-cases, inl, inr, Option, none, some, List, find, any,
  drop_if, ◌==◌, if◌then◌else◌,
}
use bluestaq_takehome.Prelude.Text.{Text}
use bluestaq_takehome.Prelude.Counting.{any-drop_if_within, find→count_if, count_if→any}
use bluestaq_takehome.Authz
use bluestaq_takehome.Httpx.Problems.{Err, errorf}
use bluestaq_takehome.Httpx.{
  Request, Reply, write_status, respond, written, write_problem, classify, problem_json,
}
use bluestaq_takehome.Storage
use bluestaq_takehome.Store.Models
use bluestaq_takehome.Store.Models.{Note}
use bluestaq_takehome.Store.World.{
  World, ask, lift, pure, catch, handle, continue, outcome, landed, stmt, removed, ◌>>=◌, ◌>>◌,
}
use bluestaq_takehome.Store.AttachmentQueries
use bluestaq_takehome.Store.AttachmentQueries.{
  is_attachment_on, attachment_fits, completed, change_attachment, mark_attachment_ready,
}
use bluestaq_takehome.Notes.References.{referenced_ids}
use bluestaq_takehome.Notes.Uploads.{StorageDeps, Attachment}
use bluestaq_takehome.Notes.Aimed.{IsAimed, load-aimed, load_attachment-aimed}
use bluestaq_takehome.Notes.Completing.{at_stat}
use bluestaq_takehome.Notes.Refusing.{removals_after}
use bluestaq_takehome.Notes.Attachments.{
  still_referenced, unreferenced, delete_attachment, delete_attachment_call, attachment_route,
  attachment_serve,
}

-- The body of the note mentions the attachment.
abbrev pub is_referenced : World → Note → Models.Attachment → Bool
is_referenced w n a = any (λ i. i == a.id) (referenced_ids w.env.uuid_parse n.body)

abbrev refused_reply : ℕ → Reply Attachment
refused_reply id = record {
  status = 409;
  etag = none;
  content = problem_json (still_referenced id);
}

module _ (h : StorageDeps) (r : Request) (w : World) (n : Note) (a : Models.Attachment) where
  refused :
      IsAimed r Authz.remove_attachment w n a
      → is_referenced w n a ≡ true
      → attachment_serve h r delete_attachment_call w ≡ (refused_reply a.id, at_stat w)
  unfolding attachment_serve attachment_route respond written delete_attachment unreferenced lift
      ask write_problem classify errorf ◌>>=◌ ◌>>◌ continue
  refused aimed mentioned =
      rw
        (
          load-aimed r Authz.remove_attachment w n a aimed,
          load_attachment-aimed r Authz.remove_attachment w n a aimed,
          mentioned,
        )
        refl

  abbrev gone : Option Err → World
  gone o = record w {
    db = record w.db { attachments = drop_if (is_attachment_on a.id n.id) w.db.attachments };
    calls = suc (suc (suc (suc w.calls)));
    removals = removals_after w.removals a.object_key o;
  }

  deleted :
      (o : Option Err)
      → IsAimed r Authz.remove_attachment w n a
      → is_referenced w n a ≡ false
      → w.env.object_client.remove_object (suc (suc (suc w.calls))) a.object_key ≡ o
      → attachment_serve h r delete_attachment_call w ≡ (write_status 204, gone o)
  unfolding attachment_serve attachment_route respond written delete_attachment unreferenced lift
      ask AttachmentQueries.delete_attachment stmt outcome landed Storage.delete removed catch
      handle pure ◌>>=◌ ◌>>◌ continue
  deleted none aimed free e =
      rw
        (
          load-aimed r Authz.remove_attachment w n a aimed,
          load_attachment-aimed r Authz.remove_attachment w n a aimed,
          free,
          aimed.6 (suc (suc w.calls)),
          e,
        )
        refl
  deleted (some x) aimed free e =
      rw
        (
          load-aimed r Authz.remove_attachment w n a aimed,
          load_attachment-aimed r Authz.remove_attachment w n a aimed,
          free,
          aimed.6 (suc (suc w.calls)),
          e,
        )
        refl

-- The two outcomes by one test.
abbrev pub delete_status : Bool → ℕ
delete_status referenced = if referenced then 409 else 204

abbrev pub delete_removals : Bool → World → Models.Attachment → List Text
delete_removals referenced w a =
    if referenced
    then w.removals
    else removals_after w.removals a.object_key
        (w.env.object_client.remove_object (suc (suc (suc w.calls))) a.object_key)

-- The tables without that row, or as they were.
abbrev pub delete_db : Bool → World → Note → Models.Attachment → Models.Db
delete_db referenced w n a =
    if referenced
    then w.db
    else record w.db { attachments = drop_if (is_attachment_on a.id n.id) w.db.attachments }

row_there :
    (w : World) (n : Note) (a : Models.Attachment)
    → find (is_attachment_on a.id n.id) w.db.attachments ≡ some a
    → any (is_attachment_on a.id n.id) w.db.attachments ≡ true
row_there w n a there =
    count_if→any (is_attachment_on a.id n.id) w.db.attachments
      (find→count_if (is_attachment_on a.id n.id) w.db.attachments a there)

-- An attachment goes exactly if the note's body does not mention it: where it does, the reply is a
-- 409, the row stays, no table changes and the object store is not asked; otherwise the reply is a 204,
-- the row is gone and nothing else has changed in the tables, and the store is asked for the object's
-- removal, which is done unless the store reports an error, and that is dropped. The caller may remove
-- attachments of the note, the URL names one, and no call of the database meets a fault.
pub delete_attachment-referenced :
    (h : StorageDeps) (r : Request) (w : World) (n : Note) (a : Models.Attachment)
    → IsAimed r Authz.remove_attachment w n a
    → ((attachment_serve h r delete_attachment_call w).0.status
        ≡ delete_status (is_referenced w n a))
      × (any
            (is_attachment_on a.id n.id)
            (attachment_serve h r delete_attachment_call w).1.db.attachments
          ≡ is_referenced w n a)
      × ((attachment_serve h r delete_attachment_call w).1.db
          ≡ delete_db (is_referenced w n a) w n a)
      × ((attachment_serve h r delete_attachment_call w).1.removals
          ≡ delete_removals (is_referenced w n a) w a)
unfolding write_status
delete_attachment-referenced h r w n a aimed = elim (Bool-cases (is_referenced w n a)) [
  | inl mentioned ↦
      rw (refused h r w n a aimed mentioned, mentioned) (refl, row_there w n a aimed.3, refl, refl)
  | inr free ↦
      rw (deleted h r w n a _ aimed free refl, free)
        (
          refl,
          any-drop_if_within (is_attachment_on a.id n.id) (is_attachment_on a.id n.id) (λ x e. e)
              w.db.attachments,
          refl,
          refl,
        )
]
