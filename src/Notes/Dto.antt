-- ===== src/Notes/Dto.antt =====
-- The wire form of a note: `Note` of internal/notes/handler.go and the conversions of
-- internal/notes/dto.go.
use bluestaq_takehome.Prelude.{ℕ, String, Option, List}
use bluestaq_takehome.Prelude.Text.{Text}
use bluestaq_takehome.Authz.{Role, role_owner, role_string}
use bluestaq_takehome.Store.Models
use bluestaq_takehome.Store.Models.{NoteWithAccess}

pub record Note : Type 0 where
  pub id : ℕ
  pub owner_user_id : ℕ
  pub title : Text
  pub body : Text
  pub tags : List Text
  pub version : ℕ
  pub created_at : ℕ
  pub updated_at : ℕ
  pub deleted_at : Option ℕ
  pub your_role : String

-- The row types of the four queries have one column list, so one row type stands for them.
abbrev from_row : Models.Note → String → Note
from_row n role = record {
  id = n.id;
  owner_user_id = n.owner_user_id;
  title = n.title;
  body = n.body;
  tags = n.tags;
  version = n.version;
  created_at = n.created_at;
  updated_at = n.updated_at;
  deleted_at = n.deleted_at;
  your_role = role;
}

unfoldable pub from_create : Models.Note → Note
from_create n = from_row n (role_string role_owner)

unfoldable pub from_access : NoteWithAccess → Role → Note
from_access n role = from_row n.note (role_string role)

unfoldable pub from_update : Models.Note → Role → Note
from_update n role = from_row n (role_string role)

unfoldable pub from_restore : Models.Note → Role → Note
from_restore n role = from_row n (role_string role)
