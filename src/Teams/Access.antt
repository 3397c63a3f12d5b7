-- ===== src/Teams/Access.antt =====
-- Who may reach a team: `membership` of internal/teams/handler.go, in front of every endpoint that
-- names a team.
use bluestaq_takehome.Prelude.{
  ℕ, suc, ◌≡◌, refl, ◌∙◌, String, Bool, true, false, ◌⊎◌, inl, inr, none, some, str_eq, find,
}
use bluestaq_takehome.Httpx.Problems.{err, problem, not_found, forbidden, errorf}
use bluestaq_takehome.Httpx.{Request, Reply, problem_json, write_problem, classify}
use bluestaq_takehome.Store.Errors.{is_not_found}
use bluestaq_takehome.Store.Models.{TeamMember}
use bluestaq_takehome.Store.World.{
  World, throw, ask, or_throw, catch, handle, outcome, landed, kept, stmt, query, ◌>>=◌,
}
use bluestaq_takehome.Store.TeamQueries.{is_membership, membership_role, get_membership}
use bluestaq_takehome.Httpx.Failures.{respond-bind_err}
use bluestaq_takehome.Teams.{
  Call, list_call, delete_call, remove_member_call, create_call, update_call, add_member_call,
  role_admin, role_member, admit, membership, get, update, delete, list_members, add_member,
  remove_member, leave, route, serve,
}

abbrev pub step_call : World → World
step_call w = record w { calls = suc w.calls }

-- The caller has no membership in the team that the URL names, or the URL names none.
abbrev pub IsOutsider : Request → World → Type 0
IsOutsider r w =
    (w.env.uuid_parse (r.url_param "id") ≡ none)
    ⊎ ((t : ℕ) × (w.env.uuid_parse (r.url_param "id") ≡ some t)
        × (find (is_membership t r.user_id) w.db.team_members ≡ none)
        × (w.fault w.calls ≡ none))

-- The endpoints that name a team.
abbrev pub names_team : Call → Bool
names_team list_call = false
names_team (create_call b) = false
names_team _ = true

abbrev pub no_team : {A : Type 0} → Reply A
no_team = record { status = 404; etag = none; content = problem_json (not_found "team") }

-- The role that an endpoint asks for.
abbrev pub required_role : Call → String
required_role delete_call = role_admin
required_role remove_member_call = role_admin
required_role (update_call b) = role_admin
required_role (add_member_call b) = role_admin
required_role _ = role_member

membership_outsider :
    (r : Request) (required : String) (w : World)
    → IsOutsider r w
    → (membership r required w).0 ≡ err (problem (not_found "team"))
unfolding membership ask or_throw catch handle throw get_membership query stmt outcome landed kept
    membership_role ◌>>=◌ is_not_found
membership_outsider r required w (inl bad) = rw bad
membership_outsider r required w (inr (t, e, gone, calm)) = rw (e, calm, gone)

-- The caller is in the team, and not as an admin.
abbrev pub IsPlainMember : Request → World → Type 0
IsPlainMember r w =
    (t : ℕ) × (m : TeamMember) × (w.env.uuid_parse (r.url_param "id") ≡ some t)
    × (find (is_membership t r.user_id) w.db.team_members ≡ some m)
    × (str_eq m.role role_admin ≡ false)
    × (w.fault w.calls ≡ none)

abbrev pub not_manager : {A : Type 0} → Reply A
not_manager = record {
  status = 403;
  etag = none;
  content = problem_json (forbidden "manage this team");
}

membership_plain :
    (r : Request) (w : World)
    → IsPlainMember r w
    → (membership r role_admin w).0 ≡ err (problem (forbidden "manage this team"))
unfolding membership ask or_throw catch handle throw admit get_membership query stmt outcome landed
    kept membership_role ◌>>=◌ is_not_found
membership_plain r w (t, m, e, there, plain, calm) = rw (e, calm, there, plain)

write_problem-no_team :
    {A : Type 0} (r : Request) → write_problem {A = A} r (problem (not_found "team")) ≡ no_team
unfolding write_problem classify not_found errorf
write_problem-no_team r = refl

write_problem-not_manager :
    {A : Type 0} (r : Request)
    → write_problem {A = A} r (problem (forbidden "manage this team")) ≡ not_manager
unfolding write_problem classify forbidden errorf
write_problem-not_manager r = refl

-- A caller outside the team gets one and the same 404 from every endpoint that names a team,
-- whether the team exists or not, and so does a caller whose URL holds no id. The read of the
-- membership meets no fault.
pub serve_outsider :
    (r : Request) (c : Call) (w : World)
    → names_team c ≡ true
    → IsOutsider r w
    → (serve r c w).0 ≡ no_team
unfolding serve route get update delete list_members add_member remove_member leave
serve_outsider r list_call w named out = cc
serve_outsider r (create_call b) w named out = cc
serve_outsider r c w named out =
    respond-bind_err (membership r (required_role c)) _ r w _
      (membership_outsider r (required_role c) w out)
    ∙ write_problem-no_team r

-- A member who is no admin gets a 403 from every endpoint that manages the team, where the read of
-- the membership meets no fault.
pub serve_plain_member :
    (r : Request) (c : Call) (w : World)
    → str_eq (required_role c) role_admin ≡ true
    → IsPlainMember r w
    → (serve r c w).0 ≡ not_manager
unfolding serve route get update delete list_members add_member remove_member leave
serve_plain_member r delete_call w managed plain =
    respond-bind_err (membership r role_admin) _ r w _ (membership_plain r w plain)
    ∙ write_problem-not_manager r
serve_plain_member r remove_member_call w managed plain =
    respond-bind_err (membership r role_admin) _ r w _ (membership_plain r w plain)
    ∙ write_problem-not_manager r
serve_plain_member r (update_call b) w managed plain =
    respond-bind_err (membership r role_admin) _ r w _ (membership_plain r w plain)
    ∙ write_problem-not_manager r
serve_plain_member r (add_member_call b) w managed plain =
    respond-bind_err (membership r role_admin) _ r w _ (membership_plain r w plain)
    ∙ write_problem-not_manager r
serve_plain_member r _ w managed plain = cc
