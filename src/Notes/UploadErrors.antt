-- ===== src/Notes/UploadErrors.antt =====
-- What an error of an attachment's endpoint (internal/notes/attachments.go) leaves behind.
use bluestaq_takehome.Prelude.{ℕ, ◌≡◌, refl, ap, ◌⊎◌, inl, inr, Option, none, some, [], ◌∷◌, ◌++◌}
use bluestaq_takehome.Prelude.Text.{Text}
use bluestaq_takehome.Prelude.Integer.{ℤ}
use bluestaq_takehome.Httpx.{Request, Decoded, Reply, write_status}
use bluestaq_takehome.Httpx.Atomic.{Keeps-decode_json, respond-keeps, respond-Whole, respond_either}
use bluestaq_takehome.Httpx.Problems.{Err}
use bluestaq_takehome.Store.Whole.{
  Whole, Agrees, Closes, Returns, AllOrNothing, SameAs-answer, quiet, whole_rules,
}
use bluestaq_takehome.Storage
use bluestaq_takehome.Store.Models
use bluestaq_takehome.Store.Models.{Db}
use bluestaq_takehome.Store.World.{
  World, ObjectInfo, M, pure, catch, handle, continue, external, removed, ◌>>=◌, ◌>>◌,
}
use bluestaq_takehome.Store.Hoare.{Lands, Hoare, Keeps, Hoare-bind, Hoare-lands, Lands-if}
use bluestaq_takehome.Store.Keeps.{keeps_rules, Keeps-ask, Keeps-lift}
use bluestaq_takehome.Store.AttachmentQueries
use bluestaq_takehome.Notes.Errors.{Keeps-load, Agrees-load}
use bluestaq_takehome.Notes.Updating.{Hoare-fails}
use bluestaq_takehome.Notes.Uploads.{
  StorageDeps, Attachment, CreateAttachmentRequest, create_attachment,
}
use bluestaq_takehome.Notes.Storing.{
  Keeps-delete, Keeps-count_presign, Keeps-call_number, Keeps-presign_put, Keeps-stat,
  Keeps-presign_rows, Keeps-load_attachment,
}
use bluestaq_takehome.Notes.Attachments.{
  load_attachment, discard, accept, verify, complete_attachment, list_attachments,
  delete_attachment, AttachmentCall, list_attachments_call, complete_attachment_call,
  delete_attachment_call, create_attachment_call, attachment_route, attachment_serve,
}

Agrees-stat : (key : Text) → Agrees (Storage.stat key)
unfolding Storage.stat external
Agrees-stat key = record { at = λ w. SameAs-answer _ _ }

Agrees-load_attachment : (r : Request) (note_id : ℕ) → Agrees (load_attachment r note_id)
unfolding load_attachment AttachmentQueries.get_attachment
Agrees-load_attachment r note_id = search whole_rules depth 10

module _ {P : Db → Type 0} where
  Keeps-discard :
      (att : Models.Attachment) (info : ObjectInfo) (max : ℤ) → Keeps P (discard att info max)
  unfolding discard
  Keeps-discard att info max = search (keeps_rules, Keeps-delete) depth 8

accept-Whole : (att : Models.Attachment) (info : ObjectInfo) → Whole (accept att info)
unfolding accept AttachmentQueries.mark_attachment_ready
accept-Whole att info = search whole_rules depth 8

verify-Whole : (h : StorageDeps) (att : Models.Attachment) → Whole (verify h att)
unfolding verify
verify-Whole h att =
    search (whole_rules, keeps_rules, Agrees-stat, Keeps-stat, Keeps-discard, accept-Whole) depth 10

complete-Whole : (h : StorageDeps) (r : Request) → Whole (complete_attachment h r)
unfolding complete_attachment
complete-Whole h r =
    search
      (
        whole_rules, keeps_rules, Keeps-load, Agrees-load, Keeps-load_attachment,
        Agrees-load_attachment, verify-Whole,
      )
      depth 10

-- A removal whose error is dropped does not fail.
Closes-dropped :
    (key : Text)
    → Closes (catch (Storage.delete key) (λ e. pure tt) >> pure (write_status {A = Attachment} 204))
unfolding Storage.delete removed catch handle pure ◌>>◌ ◌>>=◌ continue
Closes-dropped key = record { at = λ w. go w (w.env.object_client.remove_object w.calls key) }
  where
    go :
        (w : World) (o : Option Err)
        → Returns
            (continue
              (handle (removed key o w) (λ e. pure tt))
              (λ u. pure (write_status {A = Attachment} 204))).0
          × ((continue
                (handle (removed key o w) (λ e. pure tt))
                (λ u. pure (write_status {A = Attachment} 204))).1.db
              ≡ w.db)
    go w none = (tt, refl)
    go w (some e) = (tt, refl)

delete-Whole : (r : Request) → Whole (delete_attachment r)
unfolding delete_attachment AttachmentQueries.delete_attachment
delete-Whole r =
    search
      (
        whole_rules, keeps_rules, Keeps-load, Agrees-load, Keeps-load_attachment,
        Agrees-load_attachment, Closes-dropped,
      )
      depth 12

module _ {P : Db → Type 0} where
  Keeps-list : (h : StorageDeps) (r : Request) → Keeps P (list_attachments h r)
  unfolding list_attachments AttachmentQueries.list_note_attachments
  Keeps-list h r = search (keeps_rules, Keeps-load, Keeps-presign_rows) depth 8

-- One row more, which is pending.
abbrev pub IsAbandoned : Db → Db → Type 0
IsAbandoned before d =
    (a : Models.Attachment) × (a.status ≡ "pending")
    × (d ≡ record before { attachments = before.attachments ++ a ∷ [] })

module _ (before : Db) where
  abbrev Untouched : Db → Type 0
  Untouched d = d ≡ before

  abbrev Left : Db → Type 0
  Left d = (d ≡ before) ⊎ IsAbandoned before d

  inserted-Left :
      (a : Models.Attachment) (d : Db)
      → a.status ≡ "pending"
      → d ≡ before
      → Lands (λ b. Left) (AttachmentQueries.insert_attachment a d)
  unfolding AttachmentQueries.insert_attachment
  inserted-Left a d new e =
      let added : Left (record d { attachments = d.attachments ++ a ∷ [] }) =
        inr (
          a,
          new,
          ap {A = Db} (λ (b : Db). record b { attachments = b.attachments ++ a ∷ [] }) e,
        ) in
      search (Lands-if, added) depth 8

  stored-Left :
      (arg : AttachmentQueries.CreateAttachmentParams)
      → Hoare Untouched (AttachmentQueries.create_attachment arg) (λ a. Left) Left
  unfolding AttachmentQueries.create_attachment
  stored-Left arg = Hoare-lands _ (λ w e. inserted-Left _ w.db refl e) (λ d e. inl e) (λ a d l. l)

  -- A step that only reads may fail where nothing is written.
  read_first :
      {A B : Type 0} (m : M A) (f : A → M (Reply B))
      → Keeps Untouched m
      → ((a : A) → Hoare Untouched (f a) (λ reply. Left) Left)
      → Hoare Untouched (m >>= f) (λ reply. Left) Left
  read_first m f hm hf = Hoare-bind m f (Hoare-fails hm (λ d e. inl e)) hf

  create-Left :
      (h : StorageDeps) (r : Request) (b : Decoded CreateAttachmentRequest)
      → Hoare Untouched (create_attachment h r b) (λ reply. Left) Left
  unfolding create_attachment ◌>>◌
  create-Left h r b = read_first _ _ (Keeps-load r _) (λ a.
      read_first _ _ (Keeps-decode_json b) (λ req. read_first _ _ Keeps-ask (λ env.
        read_first _ _ (Keeps-lift _) (λ u. read_first _ _ Keeps-call_number (λ k.
          Hoare-bind _ _ (stored-Left _)
            (λ att. search (keeps_rules, Keeps-presign_put, Keeps-count_presign) depth 8))))))

-- What each endpoint may leave, the reply being a success or an error.
abbrev pub Remains : StorageDeps → Request → AttachmentCall → World → Db → Type 0
Remains h r list_attachments_call w d = d ≡ w.db
Remains h r (create_attachment_call b) w d = (d ≡ w.db) ⊎ IsAbandoned w.db d
Remains h r complete_attachment_call w d = AllOrNothing w.db d (complete_attachment h r (quiet w))
Remains h r delete_attachment_call w d = AllOrNothing w.db d (delete_attachment r (quiet w))

-- Whatever faults the calls meet, before or behind their effect, and whatever the object store
-- reports: listing changes no table; creating leaves the tables as they were or with one row more, that
-- is pending, so that the sweep finds it; and completing and deleting leave them as they were, or as
-- they do where no call meets a fault and they end in no error.
pub attachment_error :
    (h : StorageDeps) (r : Request) (c : AttachmentCall) (w : World)
    → Remains h r c w (attachment_serve h r c w).1.db
unfolding attachment_serve attachment_route
attachment_error h r list_attachments_call w =
    respond-keeps {P = λ d. d ≡ w.db} r _ (Keeps-list h r) w refl
attachment_error h r complete_attachment_call w = respond-Whole r _ w (complete-Whole h r)
attachment_error h r delete_attachment_call w = respond-Whole r _ w (delete-Whole r)
attachment_error h r (create_attachment_call b) w =
    respond_either (λ d. (d ≡ w.db) ⊎ IsAbandoned w.db d) r _ w (create-Left w.db h r b)
