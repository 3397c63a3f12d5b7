-- ===== src/Notes/Storing.antt =====
-- The endpoints of internal/notes/attachments.go keep the invariant of the table of attachments.
use bluestaq_takehome.Prelude.{
  ℕ, ◌≤◌, ◌≡◌, refl, false, Option, none, some, List, [], ◌∷◌, ◌++◌, arith,
}
use bluestaq_takehome.Prelude.Text.{Text}
use bluestaq_takehome.Prelude.Integer.{ℤ, pos, pos_part, ltb_ℤ}
use bluestaq_takehome.Httpx.Problems.{Err, Result, ok, err, Message}
use bluestaq_takehome.Httpx.{Request, Decoded}
use bluestaq_takehome.Httpx.Atomic.{Keeps-decode_json, respond-keeps}
use bluestaq_takehome.Storage
use bluestaq_takehome.Store.Models
use bluestaq_takehome.Store.Models.{Db}
use bluestaq_takehome.Store.World.{
  World, Env, M, lift, continue, ObjectInfo, external, removed, count_presign, call_number, ◌>>=◌,
  ◌>>◌,
}
use bluestaq_takehome.Store.Hoare.{Post, Keeps, Hoare-if}
use bluestaq_takehome.Store.Keeps.{keeps_rules, Keeps-bind, Keeps-then, Keeps-ask, Keeps-pure}
use bluestaq_takehome.Store.AttachmentQueries
use bluestaq_takehome.Notes.Errors.{Keeps-load}
use bluestaq_takehome.Notes.Handler.{refuse_fields}
use bluestaq_takehome.Notes.Filenames.{sanitize_filename}
use bluestaq_takehome.Notes.Stored.{
  IsStored, create_attachment-IsStored, mark_attachment_ready-IsStored, delete_attachment-IsStored,
}
use bluestaq_takehome.Notes.Uploads.{
  StorageDeps, CreateAttachmentRequest, create_attachment, upload_fields, size_field,
  filename_field,
}
use bluestaq_takehome.Notes.Attachments.{
  load_attachment, discard, accept, verify, complete_attachment, presign_rows, list_attachments,
  delete_attachment, AttachmentCall, list_attachments_call, complete_attachment_call,
  delete_attachment_call, create_attachment_call, attachment_route, attachment_serve,
}

module _ (P : Db → Type 0) where
  either_Post : {A : Type 0} (x : Result A) (w : World) → P w.db → Post (λ _. P) P (x, w)
  either_Post (ok a) w p = p
  either_Post (err e) w p = p

  removed-Post :
      (key : Text) (o : Option Err) (w : World) → P w.db → Post (λ _. P) P (removed key o w)
  unfolding removed
  removed-Post key none w p = p
  removed-Post key (some e) w p = p

module _ {P : Db → Type 0} where
  Keeps-external : {A : Type 0} (f : World → Result A) → Keeps P (external f)
  unfolding external
  Keeps-external f = record { at = λ w p. either_Post P (f w) _ p }

  pub Keeps-delete : (key : Text) → Keeps P (Storage.delete key)
  unfolding Storage.delete
  Keeps-delete key = record { at = λ w p. removed-Post P key _ w p }

  pub Keeps-count_presign : Keeps P count_presign
  unfolding count_presign
  Keeps-count_presign = record { at = λ w p. p }

  pub Keeps-call_number : Keeps P call_number
  unfolding call_number
  Keeps-call_number = record { at = λ w p. p }

  pub Keeps-presign_put : (key : Text) (ttl : ℕ) → Keeps P (Storage.presign_put key ttl)
  unfolding Storage.presign_put
  Keeps-presign_put key ttl = Keeps-external _

  Keeps-presign_get : (key name : Text) (ttl : ℕ) → Keeps P (Storage.presign_get key name ttl)
  unfolding Storage.presign_get
  Keeps-presign_get key name ttl = Keeps-external _

  pub Keeps-stat : (key : Text) → Keeps P (Storage.stat key)
  unfolding Storage.stat
  Keeps-stat key = Keeps-external _

  pub Keeps-presign_rows :
      (ttl : ℕ) (rows : List Models.Attachment) → Keeps P (presign_rows ttl rows)
  unfolding presign_rows
  Keeps-presign_rows ttl [] = search keeps_rules
  Keeps-presign_rows ttl (a ∷ rows) =
      Keeps-bind _ _ (Keeps-presign_get a.object_key a.filename ttl) (λ url.
        Keeps-then _ _ Keeps-count_presign
          (Keeps-bind _ _ (Keeps-presign_rows ttl rows) (λ out. Keeps-pure _)))

  pub Keeps-load_attachment : (r : Request) (note_id : ℕ) → Keeps P (load_attachment r note_id)
  unfolding load_attachment AttachmentQueries.get_attachment
  Keeps-load_attachment r note_id = search keeps_rules depth 8

  Keeps-discard :
      (att : Models.Attachment) (info : ObjectInfo) (max : ℤ) → Keeps P (discard att info max)
  unfolding discard
  Keeps-discard att info max = search (keeps_rules, Keeps-delete) depth 8

-- What the two tests on sizes leave.
size_field-le : (max size : ℤ) → size_field max size ≡ [] → pos_part size ≤ pos_part max
size_field-le max size h = ground arith

not_over : (max : ℤ) (size : ℕ) → ltb_ℤ max (pos size) ≡ false → size ≤ pos_part max
not_over max size h = ground arith

append-nil_right : {A : Type 0} (xs ys : List A) → xs ++ ys ≡ [] → ys ≡ []
append-nil_right [] ys h = h
append-nil_right (x ∷ xs) ys h = cc

append-nil_left : {A : Type 0} (xs ys : List A) → xs ++ ys ≡ [] → xs ≡ []
append-nil_left [] ys h = refl
append-nil_left (x ∷ xs) ys h = cc

module _ (h : StorageDeps) where
  abbrev top : ℕ
  top = pos_part h.max_bytes

  upload_fields-small :
      (env : Env) (filename : Text) (req : CreateAttachmentRequest)
      → upload_fields env h filename req ≡ []
      → pos_part req.size_bytes ≤ top
  unfolding upload_fields
  upload_fields-small env filename req e = size_field-le h.max_bytes req.size_bytes (
      append-nil_left (size_field h.max_bytes req.size_bytes) _
        (append-nil_right (filename_field filename) _ e))

  -- What follows a list of refused fields runs only where it is empty.
  refuse_fields-Keeps :
      {A : Type 0} (P : Db → Type 0) (fields : List (Message × Message)) (m : M A)
      → (fields ≡ [] → Keeps P m)
      → Keeps P (lift (refuse_fields fields) >> m)
  unfolding refuse_fields lift ◌>>◌ ◌>>=◌ continue
  refuse_fields-Keeps P [] m k = record { at = λ w p. (k refl).at w p }
  refuse_fields-Keeps P (f ∷ fields) m k = record { at = λ w p. p }

  accept-IsStored :
      (att : Models.Attachment) (info : ObjectInfo)
      → info.size ≤ top
      → Keeps (IsStored top) (accept att info)
  unfolding accept
  accept-IsStored att info small =
      search (keeps_rules, mark_attachment_ready-IsStored top att.id info.size info.etag small)
        depth 8

  verify-IsStored : (att : Models.Attachment) → Keeps (IsStored top) (verify h att)
  unfolding verify
  verify-IsStored att = Keeps-bind _ _ (search (keeps_rules, Keeps-stat) depth 8) (λ info.
      Hoare-if _ _ _ (λ over. Keeps-discard att info h.max_bytes)
        (λ within. accept-IsStored att info (not_over h.max_bytes info.size within)))

  complete-IsStored : (r : Request) → Keeps (IsStored top) (complete_attachment h r)
  unfolding complete_attachment
  complete-IsStored r =
      search (keeps_rules, Keeps-load, Keeps-load_attachment, verify-IsStored) depth 8

  delete-IsStored : (r : Request) → Keeps (IsStored top) (delete_attachment r)
  unfolding delete_attachment
  delete-IsStored r =
      search
        (
          keeps_rules,
          Keeps-load,
          Keeps-load_attachment,
          delete_attachment-IsStored top,
          Keeps-delete,
        )
        depth 12

  list-IsStored : (r : Request) → Keeps (IsStored top) (list_attachments h r)
  unfolding list_attachments AttachmentQueries.list_note_attachments
  list-IsStored r = search (keeps_rules, Keeps-load, Keeps-presign_rows) depth 8

  create-IsStored :
      (r : Request) (b : Decoded CreateAttachmentRequest)
      → Keeps (IsStored top) (create_attachment h r b)
  unfolding create_attachment
  create-IsStored r b = Keeps-bind _ _ (Keeps-load r _) (λ a.
      Keeps-bind _ _ (Keeps-decode_json b) (λ req. Keeps-bind _ _ Keeps-ask (λ env.
        refuse_fields-Keeps (IsStored top) _ _ (λ e.
          let small = upload_fields-small env (sanitize_filename req.filename) req e in
          search
            (
              keeps_rules,
              create_attachment-IsStored top,
              small,
              Keeps-call_number,
              Keeps-count_presign,
              Keeps-presign_put,
            )
            depth 12))))

  route-IsStored :
      (r : Request) (c : AttachmentCall) → Keeps (IsStored top) (attachment_route h r c)
  unfolding attachment_route
  route-IsStored r list_attachments_call = list-IsStored r
  route-IsStored r complete_attachment_call = complete-IsStored r
  route-IsStored r delete_attachment_call = delete-IsStored r
  route-IsStored r (create_attachment_call b) = create-IsStored r b

-- Every endpoint of a note's attachments, failing or not, whatever faults its calls meet and whatever
-- the object store reports, keeps the invariant: ids and object keys are unique, a row is pending or
-- ready and on a note that is there, its name has 1 to 255 characters, and its size is at least 1
-- byte and at most the limit, which the size of the stored object replaces on completion.
pub attachment_serve-IsStored :
    (h : StorageDeps) (r : Request) (c : AttachmentCall) (w : World)
    → IsStored (pos_part h.max_bytes) w.db
    → IsStored (pos_part h.max_bytes) (attachment_serve h r c w).1.db
unfolding attachment_serve
attachment_serve-IsStored h r c w g =
    respond-keeps r (attachment_route h r c) (route-IsStored h r c) w g
