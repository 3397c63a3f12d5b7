-- ===== src/Authz.antt =====
-- internal/authz/role.go: the roles of a caller on a note, the actions, and the decision table.
-- `Role` is an `int` in the source; a value outside the four constants is kept, as there.
pub mod Table
use bluestaq_takehome.Prelude.{
  ℕ, String, Bool, false, Option, none, some, List, [], ◌∷◌, leb, str_eq, ◌==◌, if◌then◌else◌,
}

abbrev pub Role : Type 0
Role = ℕ

abbrev pub role_none : Role
role_none = 0

abbrev pub role_viewer : Role
role_viewer = 1

abbrev pub role_editor : Role
role_editor = 2

abbrev pub role_owner : Role
role_owner = 3

-- `Role.String`.
unfoldable pub role_string : Role → String
role_string r =
    if r == role_viewer
    then "viewer"
    else if r == role_editor
    then "editor"
    else if r == role_owner
    then "owner"
    else "none"

-- `none` is the error "invalid grant role".
unfoldable pub parse_grant_role : String → Option Role
parse_grant_role s =
    if str_eq s "viewer"
    then some role_viewer
    else if str_eq s "editor"
    then some role_editor
    else none

pub data Action : Type 0 where
  read list_shares download_attachment : Action
  update add_attachment remove_attachment : Action
  delete restore share revoke_share : Action

-- `Action.String`; the `default` arm is for integers that are no `Action`.
pub action_string : Action → String
action_string read = "read this note"
action_string list_shares = "view this note's sharing"
action_string download_attachment = "download this attachment"
action_string update = "update this note"
action_string add_attachment = "add an attachment"
action_string remove_attachment = "remove an attachment"
action_string delete = "delete this note"
action_string restore = "restore this note"
action_string share = "share this note"
action_string revoke_share = "revoke access to this note"

-- The map `minimumRole`: a lookup answers `none` for an action that is not in the table.
unfoldable pub minimum_role : Action → Option Role
minimum_role read = some role_viewer
minimum_role list_shares = some role_viewer
minimum_role download_attachment = some role_viewer
minimum_role update = some role_editor
minimum_role add_attachment = some role_editor
minimum_role remove_attachment = some role_editor
minimum_role delete = some role_owner
minimum_role restore = some role_owner
minimum_role share = some role_owner
minimum_role revoke_share = some role_owner

unfoldable pub permits : Option Role → Role → Bool
permits none role = false
permits (some required) role = leb required role

-- `Can`.
unfoldable pub can : Role → Action → Bool
unfolding minimum_role permits
can role action = permits (minimum_role action) role

unfoldable pub actions : List Action
actions =
    read ∷ list_shares ∷ download_attachment ∷ update ∷ add_attachment ∷ remove_attachment ∷ delete
    ∷ restore ∷ share ∷ revoke_share ∷ []

unfoldable pub roles : List Role
roles = role_none ∷ role_viewer ∷ role_editor ∷ role_owner ∷ []
