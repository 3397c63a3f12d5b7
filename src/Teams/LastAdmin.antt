-- ===== src/Teams/LastAdmin.antt =====
-- The last-admin guard of internal/teams/handler.go keeps an admin in every team.
use bluestaq_takehome.Prelude.{
  ℕ, ◌≡◌, refl, String, Option, none, some, arith, ◌==◌, leb, str_eq, find, count_if,
}
use bluestaq_takehome.Store.Errors.{is_not_found}
use bluestaq_takehome.Store.Whole.{is_not_found-fault_err}
use bluestaq_takehome.Store.Models.{Db, TeamMember}
use bluestaq_takehome.Store.World.{
  Fault, World, M, pure, throw, catch, handle, continue, outcome, landed, kept, stmt, query, ◌>>=◌,
  ◌>>◌,
}
use bluestaq_takehome.Store.Hoare.{
  Post, Hoare, Keeps, Hoare-pure, Hoare-throw, Hoare-lands, Hoare-query, Hoare-bind, Hoare-tx,
  Hoare-if,
}
use bluestaq_takehome.Store.TeamQueries.{
  is_membership, is_admin_of, membership_role, get_membership, remove_team_member,
  count_team_admins,
}
use bluestaq_takehome.Teams.{
  absent, role_in_team, enough_admins, guard_admin, guard_last_admin, removed, remove_body,
  remove_from_team, deleted,
}
use bluestaq_takehome.Teams.Governed.{
  IsGoverned, IsSpare, IsSpare-absent, IsSpare-member, IsSpare-many, IsGoverned-remove,
}

-- Inside a transaction an error is rolled back, so nothing is asked of it.
abbrev pub Rolled : Db → Type 0
Rolled d = Unit

abbrev Fits : Option String → Option TeamMember → Type 0
Fits none f = f ≡ none
Fits (some role) f = (m : TeamMember) × (f ≡ some m) × (m.role ≡ role)

-- The role that was read is that of the membership row.
abbrev Seen : ℕ → ℕ → Option String → Db → Type 0
Seen t u o d = IsGoverned d × Fits o (find (is_membership t u) d.team_members)

module _ (t u : ℕ) (w : World) (g : IsGoverned w.db) where
  seen :
      (f : Option TeamMember)
      → find (is_membership t u) w.db.team_members ≡ f
      → Post (Seen t u) Rolled (
          handle
            (continue (landed (kept w.db (membership_role f)) w) (λ role. pure (some role)))
            absent)
  unfolding handle continue landed kept membership_role pure is_not_found
  seen none e = (g, e)
  seen (some m) e = (g, (m, e, refl))

  Seen-outcome :
      (o : Option Fault)
      → Post (Seen t u) Rolled (
          handle
            (continue
              (outcome o
                (λ v. kept v.db (membership_role (find (is_membership t u) v.db.team_members)))
                w)
              (λ role. pure (some role)))
            absent)
  unfolding outcome handle continue throw
  Seen-outcome none = seen (find (is_membership t u) w.db.team_members) refl
  Seen-outcome (some x) = rw (is_not_found-fault_err x) tt

Seen-role_in_team : (t u : ℕ) → Hoare IsGoverned (role_in_team t u) (Seen t u) Rolled
unfolding role_in_team get_membership query stmt catch ◌>>=◌
Seen-role_in_team t u = record { at = λ w g. Seen-outcome t u w g (w.fault w.calls) }

abbrev pub Spared : ℕ → ℕ → Unit {0} → Db → Type 0
Spared t u x d = IsGoverned d × IsSpare t u d

Spared-enough_admins :
    (t u n : ℕ)
    → Hoare
        (λ d. IsGoverned d × (n ≡ count_if (is_admin_of t) d.team_members))
        (enough_admins n)
        (Spared t u)
        Rolled
unfolding enough_admins
Spared-enough_admins t u n =
    Hoare-if (leb n 1) _ _ (λ h. Hoare-throw _ (λ d p. tt))
      (λ h. Hoare-pure tt (λ d p. (p.0, IsSpare-many t u p.0 (ground arith))))

Counted-count_team_admins :
    (t : ℕ)
    → Hoare IsGoverned
        (count_team_admins t)
        (λ n d. IsGoverned d × (n ≡ count_if (is_admin_of t) d.team_members))
        Rolled
unfolding count_team_admins
Counted-count_team_admins t = Hoare-query _ (λ w n p e. (p, ground arith)) (λ d p. tt)

Seen-IsGoverned :
    (t u : ℕ) (role : String) {A : Type 0} (m : M A) {Q : A → Db → Type 0}
    → Hoare IsGoverned m Q Rolled
    → Hoare (Seen t u (some role)) m Q Rolled
Seen-IsGoverned t u role m h = record { at = λ w p. h.at w p.0 }

Spared-guard_admin :
    (t u : ℕ) (o : Option String) → Hoare (Seen t u o) (guard_admin t o) (Spared t u) Rolled
unfolding guard_admin
Spared-guard_admin t u none = Hoare-pure tt (λ d p. (p.0, IsSpare-absent t u p.0 p.1))
Spared-guard_admin t u (some role) =
    Hoare-if (str_eq role "admin") _ _
      (λ h. Seen-IsGoverned t u role _ (
        Hoare-bind (count_team_admins t) enough_admins (Counted-count_team_admins t)
          (Spared-enough_admins t u)))
      (λ h.
        Hoare-pure tt (λ d p. let (m, e, r) = p.1 in (p.0, IsSpare-member t u p.0 m e (rw r h))))

pub Spared-guard_last_admin :
    (t u : ℕ) → Hoare IsGoverned (guard_last_admin t u) (Spared t u) Rolled
unfolding guard_last_admin
Spared-guard_last_admin t u =
    Hoare-bind (role_in_team t u) (guard_admin t) (Seen-role_in_team t u) (Spared-guard_admin t u)

-- What a transaction must end in.
abbrev pub Governed : {A : Type 0} → A → Db → Type 0
Governed a d = IsGoverned d

remove_team_member-Governed :
    (t u : ℕ) → Hoare (Spared t u tt) (remove_team_member t u) Governed Rolled
unfolding remove_team_member
remove_team_member-Governed t u =
    Hoare-lands _ (λ w p. IsGoverned-remove t u p.0 p.1) (λ d p. tt) (λ a d p. tt)

removed-Governed : (n : ℕ) → Hoare IsGoverned (removed n) Governed Rolled
unfolding removed
removed-Governed n =
    Hoare-if (n == 0) _ _ (λ h. Hoare-throw _ (λ d p. tt)) (λ h. Hoare-pure tt (λ d p. p))

pub deleted-Governed : (n : ℕ) → Hoare IsGoverned (deleted n) Governed Rolled
unfolding deleted
deleted-Governed n =
    Hoare-if (n == 0) _ _ (λ h. Hoare-throw _ (λ d p. tt)) (λ h. Hoare-pure tt (λ d p. p))

remove_body-Governed : (t u : ℕ) → Hoare IsGoverned (remove_body t u) Governed Rolled
unfolding remove_body ◌>>◌
remove_body-Governed t u = Hoare-bind (guard_last_admin t u) _ (Spared-guard_last_admin t u) (λ x.
    Hoare-bind (remove_team_member t u) removed (remove_team_member-Governed t u) removed-Governed)

pub remove_from_team-IsGoverned : (t u : ℕ) → Keeps IsGoverned (remove_from_team t u)
unfolding remove_from_team
remove_from_team-IsGoverned t u =
    Hoare-tx (remove_body t u) (remove_body-Governed t u) (λ d p. p) (λ a d p. p)
