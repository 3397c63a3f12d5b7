-- ===== src/Authz/Table.antt =====
-- What the decision table of internal/authz/role.go grants.
use bluestaq_takehome.Prelude.{ℕ, ◌≤◌, ◌≡◌, String, true, false, some, ◌↔◌, arith, eq_iff}
use bluestaq_takehome.Authz.{
  Role, Action, read, list_shares, download_attachment, update, add_attachment, remove_attachment,
  delete, restore, share, revoke_share, can, parse_grant_role, role_string,
}

-- The three groups of actions, as the doc comment of the table describes them.
pub data Kind : Type 0 where
  reading editing owning : Kind

abbrev pub kind : Action → Kind
kind read = reading
kind list_shares = reading
kind download_attachment = reading
kind update = editing
kind add_attachment = editing
kind remove_attachment = editing
kind delete = owning
kind restore = owning
kind share = owning
kind revoke_share = owning

abbrev pub least : Kind → ℕ
least reading = 1
least editing = 2
least owning = 3

-- A role may do exactly the actions whose group needs at most that role, and what a role may do
-- every higher role may do too.
pub can-kind :
    (r s : Role) (a : Action)
    → ((can r a ≡ true) ↔ (least (kind a) ≤ r)) × (r ≤ s → can r a ≡ true → can s a ≡ true)
unfolding can
can-kind r s read = ground arith
can-kind r s _ = ground arith

-- A grant never carries the owner's actions: a role that `ParseGrantRole` accepts is viewer or
-- editor, prints back as the text it was read from, and may neither share, revoke, delete nor
-- restore; it may always read.
pub parse_grant_role-can :
    (s : String) (r : Role)
    → parse_grant_role s ≡ some r
    → (role_string r ≡ s) × (can r read ≡ true) × ((a : Action) → kind a ≡ owning → can r a ≡ false)
unfolding parse_grant_role role_string can
parse_grant_role-can s r h =
    (ground (arith, eq_iff s "viewer", eq_iff s "editor"), ground arith, λ a owned. ground (arith))
