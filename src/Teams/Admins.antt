-- ===== src/Teams/Admins.antt =====
-- Every team endpoint keeps the invariant of the team tables, whatever faults it meets.
use bluestaq_takehome.Prelude.{
  ℕ, ◌≡◌, refl, String, true, ◌&&◌, ◌⊎◌, inl, inr, Option, none, some, arith, ◌==◌, str_eq,
  if◌then◌else◌, find, any, Bool-cases,
}
use bluestaq_takehome.Prelude.Text.{Text}
use bluestaq_takehome.Httpx.Problems.{Result, ok, err}
use bluestaq_takehome.Httpx.{Request}
use bluestaq_takehome.Httpx.Atomic.{respond-keeps}
use bluestaq_takehome.Store.Models
use bluestaq_takehome.Store.Models.{Db, TeamMember}
use bluestaq_takehome.Store.World.{World, pure, ◌>>◌, tx}
use bluestaq_takehome.Store.Hoare.{
  Post, Lands, Hoare, Keeps, Hoare-pure, Hoare-lands, Hoare-bind, Hoare-tx, Hoare-if,
}
use bluestaq_takehome.Store.Keeps.{keeps_rules}
use bluestaq_takehome.Store.TeamQueries.{
  is_team, is_membership, name_fits, member_role_fits, place_member, upsert_member, insert_team,
  create_team, get_team, update_team, rename_team, delete_team, delete_team_share_grants,
  list_my_teams, list_team_members, add_team_member,
}
use bluestaq_takehome.Teams.{
  Call, list_call, AddMemberRequest, guard_last_admin, create_body, deleted, delete_body, add_body,
  create, list, get, update, delete, list_members, add_member, remove_member, leave, route, serve,
  role_member,
}
use bluestaq_takehome.Httpx.Atomic.{Keeps-decode_json}
use bluestaq_takehome.Teams.Errors.{Keeps-membership}
use bluestaq_takehome.Teams.Governed.{IsGoverned, IsSpare, IsGoverned-set_role, IsGoverned-add}
use bluestaq_takehome.Teams.Pending.{
  IsUngranted, IsGoverned-drop_grants, IsUngranted-drop_grants, IsGoverned-delete_team,
  IsGoverned-rename, IsPending, IsPending-insert, IsGoverned-first_admin,
}
use bluestaq_takehome.Teams.LastAdmin.{
  Rolled, Spared, Spared-guard_last_admin, Governed, deleted-Governed, remove_from_team-IsGoverned,
}

-- The three ways an insert of a membership can end.
placed-Governed :
    (m : TeamMember) (d : Db) (o : Option TeamMember)
    → find (is_membership m.team_id m.user_id) d.team_members ≡ o
    → (str_eq m.role "member" ≡ true) ⊎ (str_eq m.role "admin" ≡ true)
    → (str_eq m.role "member" ≡ true → IsSpare m.team_id m.user_id d)
    → IsGoverned d
    → Lands Governed (place_member m d o)
unfolding place_member
placed-Governed m d (some old) e fits s g = IsGoverned-set_role m.team_id m.user_id m.role g fits s
placed-Governed m d none e fits s g =
    elim (Bool-cases (any (is_team m.team_id) d.teams && any (λ u. u.id == m.user_id) d.users)) [
      | inl there ↦ rw there (IsGoverned-add m g e (ground arith))
      | inr gone ↦ rw gone tt
    ]

fits_cases :
    (r : String)
    → member_role_fits r ≡ true
    → (str_eq r "member" ≡ true) ⊎ (str_eq r "admin" ≡ true)
unfolding member_role_fits
fits_cases r h = ground arith

upserted-Governed :
    (m : TeamMember) (d : Db)
    → (str_eq m.role "member" ≡ true → IsSpare m.team_id m.user_id d)
    → IsGoverned d
    → Lands Governed (upsert_member m d)
unfolding upsert_member
upserted-Governed m d s g = elim (Bool-cases (member_role_fits m.role)) [
  | inl fits ↦ rw fits (placed-Governed m d _ refl (fits_cases m.role fits) s g)
  | inr bad ↦ rw bad tt
]

-- What the guard of `addMember` has established before the upsert.
abbrev Prepared : ℕ → ℕ → String → Unit {0} → Db → Type 0
Prepared t u role x d = IsGoverned d × (str_eq role "member" ≡ true → IsSpare t u d)

add_team_member-Governed :
    (t u : ℕ) (role : String)
    → Hoare (Prepared t u role tt) (add_team_member t u role) Governed Rolled
unfolding add_team_member
add_team_member-Governed t u role =
    Hoare-lands _ (λ w p. upserted-Governed _ w.db p.1 p.0) (λ d p. tt) (λ a d p. tt)

Prepared-guard :
    (t u : ℕ) (role : String)
    → Hoare IsGoverned
        (if str_eq role role_member then guard_last_admin t u else pure tt)
        (Prepared t u role)
        Rolled
Prepared-guard t u role =
    Hoare-if (str_eq role role_member) _ _
      (λ h. record {
        at = λ w g. weaken (guard_last_admin t u w) ((Spared-guard_last_admin t u).at w g);
      })
      (λ h. Hoare-pure tt (λ d g. (g, λ h'. cc)))
  where
    weaken :
        (r : Result (Unit {0}) × World)
        → Post (Spared t u) Rolled r
        → Post (Prepared t u role) Rolled r
    weaken (ok x, w) p = (p.0, λ h. p.1)
    weaken (err e, w) p = tt

add_body-Governed :
    (t : ℕ) (req : AddMemberRequest) → Hoare IsGoverned (add_body t req) Governed Rolled
unfolding add_body ◌>>◌
add_body-Governed t req = Hoare-bind _ _ (Prepared-guard t req.user_id req.role) (λ x.
    Hoare-bind _ _ (add_team_member-Governed t req.user_id req.role)
      (λ m. Hoare-pure tt (λ d p. p)))

abbrev Pending : Models.Team → Db → Type 0
Pending t d = IsPending t.id d

inserted-Pending : (t : Models.Team) (d : Db) → IsGoverned d → Lands Pending (insert_team t d)
unfolding insert_team
inserted-Pending t d g = elim (Bool-cases (name_fits t.name)) [
  | inl fits ↦ elim (Bool-cases (any (is_team t.id) d.teams)) [
    | inl taken ↦ rw (fits, taken) tt
    | inr fresh ↦ rw (fits, fresh) (IsPending-insert t g fresh)
  ]
  | inr bad ↦ rw bad tt
]

create_team-Pending : (name : Text) → Hoare IsGoverned (create_team name) Pending Rolled
unfolding create_team
create_team-Pending name =
    Hoare-lands _ (λ w g. inserted-Pending _ w.db g) (λ d p. tt) (λ a d p. tt)

placed_first-Governed :
    (m : TeamMember) (d : Db) (o : Option TeamMember)
    → find (is_membership m.team_id m.user_id) d.team_members ≡ o
    → str_eq m.role "admin" ≡ true
    → IsPending m.team_id d
    → Lands Governed (place_member m d o)
unfolding place_member
placed_first-Governed m d (some old) e admin p = cc (e, p.empty m.user_id)
placed_first-Governed m d none e admin p =
    elim (Bool-cases (any (is_team m.team_id) d.teams && any (λ u. u.id == m.user_id) d.users)) [
      | inl there ↦ rw there (IsGoverned-first_admin m p admin)
      | inr gone ↦ rw gone tt
    ]

upserted_first-Governed :
    (m : TeamMember) (d : Db)
    → str_eq m.role "admin" ≡ true
    → IsPending m.team_id d
    → Lands Governed (upsert_member m d)
unfolding upsert_member
upserted_first-Governed m d admin p = elim (Bool-cases (member_role_fits m.role)) [
  | inl fits ↦ rw fits (placed_first-Governed m d _ refl admin p)
  | inr bad ↦ rw bad tt
]

first_admin-Governed : (t u : ℕ) → Hoare (IsPending t) (add_team_member t u "admin") Governed Rolled
unfolding add_team_member
first_admin-Governed t u =
    Hoare-lands _ (λ w p. upserted_first-Governed _ w.db refl p) (λ d p. tt) (λ a d p. tt)

create_body-Governed : (u : ℕ) (name : Text) → Hoare IsGoverned (create_body u name) Governed Rolled
unfolding create_body ◌>>◌
create_body-Governed u name =
    Hoare-bind (create_team name) _ (create_team-Pending name)
      (λ t. Hoare-bind _ _ (first_admin-Governed t.id u) (λ m. Hoare-pure t (λ d p. p)))

-- The grants go first, so none names the team when it goes.
delete_body-Governed : (t : ℕ) → Hoare IsGoverned (delete_body t) Governed Rolled
unfolding delete_body ◌>>◌ delete_team_share_grants delete_team
delete_body-Governed t =
    Hoare-bind {Q = λ n d. IsGoverned d × IsUngranted t d} _ _
      (Hoare-lands _ (λ w g. (IsGoverned-drop_grants t g, IsUngranted-drop_grants t w.db))
        (λ d p. tt) (λ a d p. tt))
      (λ n.
        Hoare-bind {Q = Governed} _ deleted
          (Hoare-lands _ (λ w p. IsGoverned-delete_team t p.0 p.1) (λ d p. tt) (λ a d p. tt))
          deleted-Governed)

renamed-Governed :
    (id : ℕ) (name : Text) (now : ℕ) (d : Db) (o : Option Models.Team)
    → IsGoverned d
    → Lands Governed (rename_team id name now d o)
unfolding rename_team
renamed-Governed id name now d none g = tt
renamed-Governed id name now d (some t) g = elim (Bool-cases (name_fits name)) [
  | inl fits ↦ rw fits (IsGoverned-rename id name now g)
  | inr bad ↦ rw bad tt
]

update_team-IsGoverned : (id : ℕ) (name : Text) → Keeps IsGoverned (update_team id name)
unfolding update_team
update_team-IsGoverned id name =
    Hoare-lands _ (λ w g. renamed-Governed id name _ w.db _ g) (λ d p. p) (λ a d p. p)

create_tx-IsGoverned : (u : ℕ) (name : Text) → Keeps IsGoverned (tx (create_body u name))
create_tx-IsGoverned u name = Hoare-tx _ (create_body-Governed u name) (λ d p. p) (λ a d p. p)

delete_tx-IsGoverned : (t : ℕ) → Keeps IsGoverned (tx (delete_body t))
delete_tx-IsGoverned t = Hoare-tx _ (delete_body-Governed t) (λ d p. p) (λ a d p. p)

add_tx-IsGoverned : (t : ℕ) (req : AddMemberRequest) → Keeps IsGoverned (tx (add_body t req))
add_tx-IsGoverned t req = Hoare-tx _ (add_body-Governed t req) (λ d p. p) (λ a d p. p)

ruleset governed_rules = (
  keeps_rules, Keeps-membership, Keeps-decode_json, remove_from_team-IsGoverned,
  create_tx-IsGoverned, delete_tx-IsGoverned, add_tx-IsGoverned, update_team-IsGoverned,
)

route-IsGoverned : (r : Request) (c : Call) → Keeps IsGoverned (route r c)
unfolding route create list get update delete list_members add_member remove_member leave
    list_my_teams get_team list_team_members
route-IsGoverned r list_call = search governed_rules depth 8
route-IsGoverned r _ = search governed_rules depth 8

-- Every endpoint, failing or not and whatever faults its calls meet, keeps the invariant: each team
-- has an admin, no user is twice in a team, and no membership and no grant names a missing team.
pub serve-IsGoverned :
    (r : Request) (c : Call) (w : World) → IsGoverned w.db → IsGoverned (serve r c w).1.db
unfolding serve
serve-IsGoverned r c w g = respond-keeps r (route r c) (route-IsGoverned r c) w g
