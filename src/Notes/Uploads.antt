-- ===== src/Notes/Uploads.antt =====
-- internal/notes/attachments.go: `createAttachment` and the wire form of an attachment.
use bluestaq_takehome.Prelude.{ℕ, Option, List, [], ◌∷◌, ◌++◌, String, if◌then◌else◌}
use bluestaq_takehome.Prelude.Text.{Text, codes, is_empty}
use bluestaq_takehome.Prelude.Integer.{ℤ, pos, ltb_ℤ}
use bluestaq_takehome.Authz.{Action}
use bluestaq_takehome.Authz
use bluestaq_takehome.Httpx.Problems.{signed_num, Message, lit, num, text, uuid, say}
use bluestaq_takehome.Httpx.{Request, Reply, Decoded, decode_json, write_json}
use bluestaq_takehome.Storage
use bluestaq_takehome.Store.Models
use bluestaq_takehome.Store.Models.{NoteWithAccess}
use bluestaq_takehome.Store.World.{Env, M, pure, ask, lift, call_number, count_presign, ◌>>=◌, ◌>>◌}
use bluestaq_takehome.Store.AttachmentQueries
use bluestaq_takehome.Notes.Handler.{refuse_fields}
use bluestaq_takehome.Notes.Load.{load}
use bluestaq_takehome.Notes.Filenames.{sanitize_filename, allowed_mime, ext}

-- `StorageDeps` of handler.go: the policy; the store itself is in the environment.
pub record StorageDeps : Type 0 where
  pub upload_ttl : ℕ
  pub download_ttl : ℕ
  pub max_bytes : ℤ
  pub allowed_mime : List Text

-- The wire form.
pub record Attachment : Type 0 where
  pub id : ℕ
  pub filename : Text
  pub mime_type : Text
  pub size_bytes : ℕ
  pub status : String
  pub created_at : ℕ
  pub ready_at : Option ℕ
  pub download_url : Text

unfoldable pub to_attachment : Models.Attachment → Text → Attachment
to_attachment a download_url = record {
  id = a.id;
  filename = a.filename;
  mime_type = a.mime_type;
  size_bytes = a.size_bytes;
  status = a.status;
  created_at = a.created_at;
  ready_at = a.ready_at;
  download_url = download_url;
}

pub record CreateAttachmentRequest : Type 0 where
  pub filename : Text
  pub mime_type : Text
  pub size_bytes : ℤ

pub record CreateAttachmentResponse : Type 0 where
  pub attachment : Attachment
  pub upload_url : Text
  pub instructions : Message

abbrev pub filename_field : Text → List (Message × Message)
filename_field filename = if is_empty filename then (say "filename", say "is required") ∷ [] else []

-- The second test overwrites the entry of the first.
abbrev pub size_field : ℤ → ℤ → List (Message × Message)
size_field max_bytes size =
    if ltb_ℤ max_bytes size
    then (say "size_bytes", lit "exceeds the " ∷ (signed_num max_bytes ++ lit " byte limit" ∷ []))
      ∷ []
    else if ltb_ℤ (pos 0) size
    then []
    else (say "size_bytes", say "must be a positive byte count") ∷ []

-- `strings.Join(…, ", ")`, with the entries apart.
abbrev pub join : List Text → Message
join [] = []
join (t ∷ []) = text t ∷ []
join (t ∷ u ∷ ts) = text t ∷ lit ", " ∷ join (u ∷ ts)

abbrev pub mime_field : (ℕ → ℕ) → List Text → Text → List (Message × Message)
mime_field lower allowed mime =
    if allowed_mime lower allowed mime
    then []
    else (say "mime_type", lit "must be one of: " ∷ join allowed) ∷ []

unfoldable pub upload_fields :
    Env → StorageDeps → Text → CreateAttachmentRequest → List (Message × Message)
upload_fields env h filename req =
    filename_field filename
    ++ (size_field h.max_bytes req.size_bytes
        ++ mime_field env.lower_rune h.allowed_mime req.mime_type)

-- "notes/%s/%s%s".
unfoldable pub object_key_of : (ℕ → Text) → ℕ → ℕ → Text → Text
object_key_of uuid_string note_id id filename =
    codes "notes/" ++ (uuid_string note_id ++ (codes "/" ++ (uuid_string id ++ ext filename)))

abbrev pub instructions_for : ℕ → ℕ → ℕ → Message
instructions_for ttl note_id id =
    lit "PUT the file bytes to upload_url within "
    ∷ num ttl
    ∷ lit ", then POST to /v1/notes/"
    ∷ uuid note_id
    ∷ lit "/attachments/"
    ∷ uuid id
    ∷ lit "/complete"
    ∷ []

unfoldable pub create_attachment :
    StorageDeps → Request → Decoded CreateAttachmentRequest → M (Reply CreateAttachmentResponse)
create_attachment h r body = do
  (row, role) ← load r Authz.add_attachment
  req ← decode_json body
  env ← ask
  let filename = sanitize_filename req.filename
  lift (refuse_fields (upload_fields env h filename req))
  k ← call_number
  let object_key = object_key_of env.uuid_string row.note.id (env.new_uuid k) filename
  att ← AttachmentQueries.create_attachment (record {
    note_id = row.note.id;
    object_key = object_key;
    filename = filename;
    mime_type = req.mime_type;
    size_bytes = req.size_bytes;
    uploaded_by = r.user_id;
  })
  upload_url ← Storage.presign_put object_key h.upload_ttl
  count_presign
  pure (
      write_json 201 (record {
        attachment = to_attachment att [];
        upload_url = upload_url;
        instructions = instructions_for h.upload_ttl row.note.id att.id;
      }))
