-- ===== src/Store/TeamQueries.antt =====
-- internal/store/sqlcgen/teams.sql.go: each query is its SQL over the tables.
use bluestaq_takehome.Prelude.{
  ℕ, String, Bool, not, ◌&&◌, ◌||◌, Option, none, some, List, [], ◌∷◌, ◌++◌, leb, ◌==◌, str_eq,
  if◌then◌else◌, find, any, drop_if, count_if, update_if, length, sort_by,
}
use bluestaq_takehome.Prelude.Text.{Text}
use bluestaq_takehome.Httpx.Problems.{
  Result, ok, err, no_rows, pg, unique_violation, foreign_key_violation, check_violation,
}
use bluestaq_takehome.Store.Models.{Db, User, Team, TeamMember, NoteShare}
use bluestaq_takehome.Store.World.{M, stmt, query}

abbrev pub is_team : ℕ → Team → Bool
is_team id t = t.id == id

abbrev pub is_membership : ℕ → ℕ → TeamMember → Bool
is_membership team_id user_id m = (m.team_id == team_id) && (m.user_id == user_id)

abbrev pub is_admin_of : ℕ → TeamMember → Bool
is_admin_of team_id m = (m.team_id == team_id) && str_eq m.role "admin"

abbrev pub is_grant_to : String → ℕ → NoteShare → Bool
is_grant_to principal_type id s = str_eq s.principal_type principal_type && (s.principal_id == id)

-- A `:one` query: the first row, or `pgx.ErrNoRows`.
unfoldable pub one : {A : Type 0} → Option A → Result A
one none = err no_rows
one (some a) = ok a

-- check (length(name) between 1 and 128), in characters.
unfoldable pub name_fits : Text → Bool
name_fits name = leb 1 (length name) && leb (length name) 128

-- check (role in ('member', 'admin')).
unfoldable pub member_role_fits : String → Bool
member_role_fits role = str_eq role "member" || str_eq role "admin"

unfoldable pub insert_team : Team → Db → Result (Team × Db)
insert_team t d =
    if not (name_fits t.name)
    then err (pg check_violation)
    else if any (is_team t.id) d.teams
    then err (pg (unique_violation "teams_pkey"))
    else ok (t, record d { teams = d.teams ++ t ∷ [] })

unfoldable pub create_team : Text → M Team
create_team name = stmt λ w.
    insert_team
      (record {
        id = w.env.gen_random_uuid w.calls;
        name = name;
        created_at = w.env.now w.calls;
        updated_at = w.env.now w.calls;
      })
      w.db

unfoldable pub get_team : ℕ → M Team
get_team id = query λ w. one (find (is_team id) w.db.teams)

abbrev pub renamed : Text → ℕ → Team → Team
renamed name now t = record t { name = name; updated_at = now }

unfoldable pub rename_team : ℕ → Text → ℕ → Db → Option Team → Result (Team × Db)
rename_team id name now d none = err no_rows
rename_team id name now d (some t) =
    if name_fits name
    then ok
        (renamed name now t, record d { teams = update_if (is_team id) (renamed name now) d.teams })
    else err (pg check_violation)

unfoldable pub update_team : ℕ → Text → M Team
update_team id name =
    stmt λ w. rename_team id name (w.env.now w.calls) w.db (find (is_team id) w.db.teams)

-- `team_members` has `on delete cascade` on `team_id`.
unfoldable pub delete_team : ℕ → M ℕ
delete_team id = stmt λ w. ok (
  count_if (is_team id) w.db.teams,
  record w.db {
    teams = drop_if (is_team id) w.db.teams;
    team_members = drop_if (λ m. m.team_id == id) w.db.team_members;
  },
)

unfoldable pub delete_team_share_grants : ℕ → M ℕ
delete_team_share_grants id = stmt λ w. ok (
  count_if (is_grant_to "team" id) w.db.note_shares,
  record w.db { note_shares = drop_if (is_grant_to "team" id) w.db.note_shares },
)

-- A row of `ListMyTeams`.
pub record MyTeam : Type 0 where
  pub team : Team
  pub role : String

-- `join` on the team of each membership, for the memberships of one user.
unfoldable pub my_teams : ℕ → List TeamMember → Team → List MyTeam
my_teams user_id [] t = []
my_teams user_id (m ∷ ms) t =
    let rest = my_teams user_id ms t in
    if is_membership t.id user_id m then record { team = t; role = m.role } ∷ rest else rest

unfoldable pub join_teams : ℕ → List TeamMember → List Team → List MyTeam
join_teams user_id ms [] = []
join_teams user_id ms (t ∷ ts) = my_teams user_id ms t ++ join_teams user_id ms ts

unfoldable pub list_my_teams : ℕ → M (List MyTeam)
list_my_teams user_id = query λ w. ok (
    sort_by (λ a b. w.env.collate a.team.name b.team.name)
      (join_teams user_id w.db.team_members w.db.teams))

unfoldable pub membership_role : Option TeamMember → Result String
membership_role none = err no_rows
membership_role (some m) = ok m.role

unfoldable pub get_membership : ℕ → ℕ → M String
get_membership team_id user_id =
    query λ w. membership_role (find (is_membership team_id user_id) w.db.team_members)

-- A row of `ListTeamMembers`.
pub record TeamMemberRow : Type 0 where
  pub user : User
  pub role : String
  pub created_at : ℕ

unfoldable pub member_row : TeamMember → Option User → List TeamMemberRow
member_row m none = []
member_row m (some u) = record { user = u; role = m.role; created_at = m.created_at } ∷ []

unfoldable pub join_users : ℕ → List User → List TeamMember → List TeamMemberRow
join_users team_id users [] = []
join_users team_id users (m ∷ ms) =
    let rest = join_users team_id users ms in
    if m.team_id == team_id
    then member_row m (find (λ u. u.id == m.user_id) users) ++ rest
    else rest

-- `order by tm.role, u.display_name`: the two roles are 'admin' and 'member'.
abbrev pub member_le : (Text → Text → Bool) → TeamMemberRow → TeamMemberRow → Bool
member_le collate a b =
    if str_eq a.role b.role
    then collate a.user.display_name b.user.display_name
    else str_eq a.role "admin"

unfoldable pub list_team_members : ℕ → M (List TeamMemberRow)
list_team_members team_id =
    query
      λ w. ok (sort_by (member_le w.env.collate) (join_users team_id w.db.users w.db.team_members))

-- `on conflict (team_id, user_id) do update set role = excluded.role`. A role outside the check is
-- refused first; the two references are checked for a new row only.
unfoldable pub place_member : TeamMember → Db → Option TeamMember → Result (TeamMember × Db)
place_member m d (some old) = ok (
  record old { role = m.role },
  record d {
    team_members =
        update_if (is_membership m.team_id m.user_id) (λ n. record n { role = m.role })
          d.team_members;
  },
)
place_member m d none =
    if any (is_team m.team_id) d.teams && any (λ u. u.id == m.user_id) d.users
    then ok (m, record d { team_members = d.team_members ++ m ∷ [] })
    else err (pg foreign_key_violation)

unfoldable pub upsert_member : TeamMember → Db → Result (TeamMember × Db)
upsert_member m d =
    if member_role_fits m.role
    then place_member m d (find (is_membership m.team_id m.user_id) d.team_members)
    else err (pg check_violation)

unfoldable pub add_team_member : ℕ → ℕ → String → M TeamMember
add_team_member team_id user_id role = stmt λ w.
    upsert_member
      (record { team_id = team_id; user_id = user_id; role = role; created_at = w.env.now w.calls })
      w.db

unfoldable pub remove_team_member : ℕ → ℕ → M ℕ
remove_team_member team_id user_id = stmt λ w. ok (
  count_if (is_membership team_id user_id) w.db.team_members,
  record w.db { team_members = drop_if (is_membership team_id user_id) w.db.team_members },
)

unfoldable pub set_member_role : ℕ → ℕ → String → M ℕ
set_member_role team_id user_id role = stmt λ w.
    if member_role_fits role || not (any (is_membership team_id user_id) w.db.team_members)
    then ok (
      count_if (is_membership team_id user_id) w.db.team_members,
      record w.db {
        team_members =
            update_if (is_membership team_id user_id) (λ n. record n { role = role })
              w.db.team_members;
      },
    )
    else err (pg check_violation)

unfoldable pub count_team_admins : ℕ → M ℕ
count_team_admins team_id = query λ w. ok (count_if (is_admin_of team_id) w.db.team_members)
