-- ===== src/Teams.antt =====
-- internal/teams/handler.go: the endpoints of teams and memberships.
pub mod Errors
pub mod Governed
pub mod Pending
pub mod LastAdmin
pub mod Admins
pub mod Access
pub mod Race
use bluestaq_takehome.Prelude.{
  ℕ, ◌==◌, leb, ltb, String, Bool, not, ◌&&◌, ◌||◌, Option, List, [], ◌∷◌, map, str_eq,
  if◌then◌else◌,
}
use bluestaq_takehome.Prelude.Text.{Text, is_empty, byte_len, trim_space}
use bluestaq_takehome.Httpx.Problems.{
  Err, Result, ok, err, problem, no_rows, say, errorf, not_found, forbidden, invalid,
}
use bluestaq_takehome.Httpx.{
  Request, Reply, Decoded, decode_json, write_json, write_status, respond,
}
use bluestaq_takehome.Store.Errors.{is_not_found, is_foreign_key_violation}
use bluestaq_takehome.Store.Models
use bluestaq_takehome.Store.World.{
  World, M, pure, throw, ask, lift, or_throw, catch, ◌>>=◌, ◌>>◌, tx,
}
use bluestaq_takehome.Store.TeamQueries
use bluestaq_takehome.Store.TeamQueries.{
  create_team, get_team, update_team, delete_team, delete_team_share_grants, list_my_teams,
  get_membership, list_team_members, add_team_member, remove_team_member, count_team_admins,
}

abbrev pub max_name_len : ℕ
max_name_len = 128

abbrev pub role_member : String
role_member = "member"

abbrev pub role_admin : String
role_admin = "admin"

pub record Team : Type 0 where
  pub id : ℕ
  pub name : Text
  pub created_at : ℕ
  pub updated_at : ℕ
  pub your_role : String

pub record Member : Type 0 where
  pub user_id : ℕ
  pub email : Text
  pub display_name : Text
  pub role : String
  pub joined_at : ℕ

pub record NameRequest : Type 0 where
  pub name : Text

pub record AddMemberRequest : Type 0 where
  pub user_id : ℕ
  pub role : String

pub data Payload : Type 0 where
  team : Team → Payload
  teams : List Team → Payload
  members : List Member → Payload

abbrev team_view : Models.Team → String → Team
team_view t role = record {
  id = t.id;
  name = t.name;
  created_at = t.created_at;
  updated_at = t.updated_at;
  your_role = role;
}

pub valid_name : Text → Result Text
valid_name s =
    let name = trim_space s in
    if is_empty name || ltb max_name_len (byte_len name)
    then err (problem (invalid ((say "name", say "must be between 1 and 128 characters") ∷ [])))
    else ok name

-- Who asks for a missing team, or for a team that the caller is not in, gets a 404.
abbrev pub hide_team : Err → Err
hide_team e = if is_not_found e then problem (not_found "team") else e

pub admit : String → ℕ → String → M (ℕ × String)
admit required team_id role =
    if str_eq required role_admin && not (str_eq role role_admin)
    then throw (problem (forbidden "manage this team"))
    else pure (team_id, role)

pub membership : Request → String → M (ℕ × String)
membership r required = do
  env ← ask
  team_id ← or_throw (problem (not_found "team")) (env.uuid_parse (r.url_param "id"))
  role ← catch (get_membership team_id r.user_id) (λ e. throw (hide_team e))
  admit required team_id role

-- The error of a count that finds the last admin.
pub enough_admins : ℕ → M (Unit {0})
enough_admins admins =
    if leb admins 1
    then throw
        (problem (errorf 409 (say "this is the team's last admin; promote another member first")))
    else pure tt

pub guard_admin : ℕ → Option String → M (Unit {0})
guard_admin team_id Option.none = pure tt
guard_admin team_id (Option.some role) =
    if str_eq role role_admin
    then (do admins ← count_team_admins team_id; enough_admins admins)
    else pure tt

-- `errors.Is(err, pgx.ErrNoRows)`: not a member, nothing to strand.
abbrev pub absent : Err → M (Option String)
absent e = if is_not_found e then pure Option.none else throw e

pub role_in_team : ℕ → ℕ → M (Option String)
role_in_team team_id user_id =
    catch (do role ← get_membership team_id user_id; pure (Option.some role)) absent

pub guard_last_admin : ℕ → ℕ → M (Unit {0})
guard_last_admin team_id user_id = do role ← role_in_team team_id user_id; guard_admin team_id role

pub removed : ℕ → M (Unit {0})
removed n = if n == 0 then throw (problem (not_found "member")) else pure tt

-- The body of the transaction of `removeFromTeam`.
pub remove_body : ℕ → ℕ → M (Unit {0})
remove_body team_id user_id = do
  guard_last_admin team_id user_id
  n ← remove_team_member team_id user_id
  removed n

pub remove_from_team : ℕ → ℕ → M (Unit {0})
remove_from_team team_id user_id = tx (remove_body team_id user_id)

pub create_body : ℕ → Text → M Models.Team
create_body user_id name = do t ← create_team name; add_team_member t.id user_id role_admin; pure t

pub create : Request → Decoded NameRequest → M (Reply Payload)
create r body = do
  req ← decode_json body
  name ← lift (valid_name req.name)
  t ← tx (create_body r.user_id name)
  pure (write_json 201 (team (team_view t role_admin)))

pub list : Request → M (Reply Payload)
list r = do
  rows ← list_my_teams r.user_id
  pure (write_json 200 (teams (map (λ (t : TeamQueries.MyTeam). team_view t.team t.role) rows)))

-- Any error of `GetTeam` is a 404.
pub get : Request → M (Reply Payload)
get r = do
  (team_id, role) ← membership r role_member
  t ← catch (get_team team_id) (λ e. throw (problem (not_found "team")))
  pure (write_json 200 (team (team_view t role)))

pub update : Request → Decoded NameRequest → M (Reply Payload)
update r body = do
  (team_id, role) ← membership r role_admin
  req ← decode_json body
  name ← lift (valid_name req.name)
  t ← update_team team_id name
  pure (write_json 200 (team (team_view t role_admin)))

pub deleted : ℕ → M (Unit {0})
deleted n = if n == 0 then throw no_rows else pure tt

pub delete_body : ℕ → M (Unit {0})
delete_body team_id = do delete_team_share_grants team_id; n ← delete_team team_id; deleted n

pub delete : Request → M (Reply Payload)
delete r = do
  (team_id, role) ← membership r role_admin
  catch (tx (delete_body team_id)) (λ e. throw (hide_team e))
  pure (write_status 204)

abbrev member_view : TeamQueries.TeamMemberRow → Member
member_view m = record {
  user_id = m.user.id;
  email = m.user.email;
  display_name = m.user.display_name;
  role = m.role;
  joined_at = m.created_at;
}

pub list_members : Request → M (Reply Payload)
list_members r = do
  (team_id, role) ← membership r role_member
  rows ← list_team_members team_id
  pure (write_json 200 (members (map member_view rows)))

-- The two checks of `addMember` on the request, with the default role filled in.
pub valid_member : AddMemberRequest → Result AddMemberRequest
valid_member req =
    let role = if str_eq req.role "" then role_member else req.role in
    if not (str_eq role role_member) && not (str_eq role role_admin)
    then err (problem (invalid ((say "role", say "must be member or admin") ∷ [])))
    else if req.user_id == 0
    then err (
        problem (
          invalid
            ((say "user_id", say "is required; find the user with GET /v1/users?email=") ∷ [])))
    else ok (record req { role = role })

-- Demoting the last admin is refused too.
pub add_body : ℕ → AddMemberRequest → M (Unit {0})
add_body team_id req = do
  if str_eq req.role role_member then guard_last_admin team_id req.user_id else pure tt
  add_team_member team_id req.user_id req.role
  pure tt

abbrev no_user : Err → Err
no_user e = if is_foreign_key_violation e then problem (not_found "user") else e

pub add_member : Request → Decoded AddMemberRequest → M (Reply Payload)
add_member r body = do
  (team_id, role) ← membership r role_admin
  sent ← decode_json body
  req ← lift (valid_member sent)
  catch (tx (add_body team_id req)) (λ e. throw (no_user e))
  pure (write_status 204)

pub remove_member : Request → M (Reply Payload)
remove_member r = do
  (team_id, role) ← membership r role_admin
  env ← ask
  target ← or_throw (problem (not_found "member")) (env.uuid_parse (r.url_param "userID"))
  remove_from_team team_id target
  pure (write_status 204)

pub leave : Request → M (Reply Payload)
leave r = do
  (team_id, role) ← membership r role_member
  remove_from_team team_id r.user_id
  pure (write_status 204)

-- `Routes`: an endpoint with its decoded body.
pub data Call : Type 0 where
  list_call get_call delete_call list_members_call remove_member_call leave_call : Call
  create_call update_call : Decoded NameRequest → Call
  add_member_call : Decoded AddMemberRequest → Call

pub route : Request → Call → M (Reply Payload)
route r list_call = list r
route r get_call = get r
route r delete_call = delete r
route r list_members_call = list_members r
route r remove_member_call = remove_member r
route r leave_call = leave r
route r (create_call body) = create r body
route r (update_call body) = update r body
route r (add_member_call body) = add_member r body

pub serve : Request → Call → World → Reply Payload × World
serve r c = respond r (route r c)
