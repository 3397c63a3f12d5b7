-- ===== src/Store/Models.antt =====
-- The tables of migrations/ as rows (internal/store/sqlcgen/models.go), and the database.
-- A uuid and a timestamp are numbers. `search_tsv` is generated by Postgres and left out.
use bluestaq_takehome.Prelude.{ℕ, String, Option, List}
use bluestaq_takehome.Prelude.Text.{Text}

pub record User : Type 0 where
  pub id : ℕ
  pub email : Text
  pub password_hash : Text
  pub display_name : Text
  pub created_at : ℕ
  pub updated_at : ℕ
  pub deleted_at : Option ℕ

pub record Team : Type 0 where
  pub id : ℕ
  pub name : Text
  pub created_at : ℕ
  pub updated_at : ℕ

pub record TeamMember : Type 0 where
  pub team_id : ℕ
  pub user_id : ℕ
  pub role : String
  pub created_at : ℕ

pub record Note : Type 0 where
  pub id : ℕ
  pub owner_user_id : ℕ
  pub title : Text
  pub body : Text
  pub tags : List Text
  pub version : ℕ
  pub created_at : ℕ
  pub updated_at : ℕ
  pub deleted_at : Option ℕ

pub record NoteShare : Type 0 where
  pub note_id : ℕ
  pub principal_type : String
  pub principal_id : ℕ
  pub role : String
  pub granted_by : ℕ
  pub created_at : ℕ

pub record Attachment : Type 0 where
  pub id : ℕ
  pub note_id : ℕ
  pub object_key : Text
  pub filename : Text
  pub mime_type : Text
  pub size_bytes : ℕ
  pub checksum : Option Text
  pub status : String
  pub uploaded_by : ℕ
  pub created_at : ℕ
  pub ready_at : Option ℕ

pub record Db : Type 0 where
  pub users : List User
  pub teams : List Team
  pub team_members : List TeamMember
  pub notes : List Note
  pub note_shares : List NoteShare
  pub attachments : List Attachment

-- A row of `GetNoteWithAccess`: the note and the caller's effective role.
pub record NoteWithAccess : Type 0 where
  pub note : Note
  pub effective_role : ℕ
