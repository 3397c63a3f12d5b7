-- ===== src/Teams/Errors.antt =====
-- What an error of a team endpoint leaves behind.
use bluestaq_takehome.Prelude.{ℕ, refl, String, Option, none, some}
use bluestaq_takehome.Prelude.Text.{Text}
use bluestaq_takehome.Httpx.{Request}
use bluestaq_takehome.Httpx.Atomic.{Keeps-decode_json, Agrees-decode_json, respond-Whole}
use bluestaq_takehome.Store.Models.{Db}
use bluestaq_takehome.Store.World.{World}
use bluestaq_takehome.Store.Hoare.{Keeps}
use bluestaq_takehome.Store.Keeps.{keeps_rules}
use bluestaq_takehome.Store.Whole.{
  Whole, Agrees, Agrees-absent, Throws-throw, is_not_found-fault_err, AllOrNothing, quiet,
  whole_rules,
}
use bluestaq_takehome.Store.TeamQueries.{
  create_team, add_team_member, delete_team_share_grants, delete_team, remove_team_member,
  count_team_admins, get_team, list_my_teams, get_membership, list_team_members, update_team,
}
use bluestaq_takehome.Teams.{
  AddMemberRequest, absent, role_in_team, guard_admin, guard_last_admin, enough_admins, removed,
  remove_body, add_body, create_body, delete_body, deleted, Call, list_call, membership, admit,
  create, list, get, update, delete, list_members, add_member, remove_from_team, remove_member,
  leave, route, serve,
}

module _ {P : Db → Type 0} where
  pub Keeps-membership : (r : Request) (required : String) → Keeps P (membership r required)
  unfolding membership get_membership admit
  Keeps-membership r required = search keeps_rules depth 8

Agrees-membership : (r : Request) (required : String) → Agrees (membership r required)
unfolding membership get_membership admit
Agrees-membership r required = search whole_rules depth 10

Agrees-role_in_team : (t u : ℕ) → Agrees (role_in_team t u)
unfolding role_in_team get_membership
Agrees-role_in_team t u =
    Agrees-absent _ _ absent (λ w. refl) (λ e. search whole_rules depth 8)
      (λ x. rw (is_not_found-fault_err x) (Throws-throw _))

Agrees-guard_admin : (t : ℕ) (o : Option String) → Agrees (guard_admin t o)
unfolding guard_admin count_team_admins enough_admins
Agrees-guard_admin t none = search whole_rules depth 8
Agrees-guard_admin t (some role) = search whole_rules depth 8

ruleset body_rules = (whole_rules, Agrees-role_in_team, Agrees-guard_admin)

Agrees-remove_body : (t u : ℕ) → Agrees (remove_body t u)
unfolding remove_body guard_last_admin remove_team_member removed
Agrees-remove_body t u = search body_rules depth 10

Agrees-add_body : (t : ℕ) (req : AddMemberRequest) → Agrees (add_body t req)
unfolding add_body guard_last_admin add_team_member
Agrees-add_body t req = search body_rules depth 10

Agrees-create_body : (u : ℕ) (name : Text) → Agrees (create_body u name)
unfolding create_body create_team add_team_member
Agrees-create_body u name = search body_rules depth 10

Agrees-delete_body : (t : ℕ) → Agrees (delete_body t)
unfolding delete_body delete_team_share_grants delete_team deleted
Agrees-delete_body t = search body_rules depth 10

ruleset team_rules = (
  whole_rules, keeps_rules, Keeps-membership, Agrees-membership, Keeps-decode_json,
  Agrees-decode_json, Agrees-remove_body, Agrees-add_body, Agrees-create_body, Agrees-delete_body,
)

route-Whole : (r : Request) (c : Call) → Whole (route r c)
unfolding route create list get update delete list_members add_member remove_member leave
    remove_from_team update_team list_my_teams get_team list_team_members
route-Whole r list_call = search team_rules depth 8
route-Whole r _ = search team_rules depth 10

-- All or nothing, whatever faults the calls meet and whether they strike before the effect of a call
-- or behind it, the commit's too: an endpoint of teams leaves the tables as they were, or it leaves
-- them as it does where no call meets a fault and it ends in no error.
pub serve_error_atomic :
    (r : Request) (c : Call) (w : World)
    → AllOrNothing w.db (serve r c w).1.db (route r c (quiet w))
unfolding serve
serve_error_atomic r c w = respond-Whole r (route r c) w (route-Whole r c)
