-- ===== src/Teams/Pending.antt =====
-- The invariant of the team tables where a team comes, is renamed or goes.
use bluestaq_takehome.Prelude.{
  ℕ, ◌≤◌, ◌≡◌, refl, true, false, none, [], ◌∷◌, ◌++◌, arith, ◌==◌, str_eq, find, any, drop_if,
  count_if, update_if, Bool-cases, inl, inr,
}
use bluestaq_takehome.Prelude.Counting.{
  count_if-append, any-append, any-append_last, any-append_ne, not_any→find, count_if-drop_if_le,
  count_if-drop_if_apart, any-drop_if_apart, any-drop_if, any-drop_if_within, any-update_if,
}
use bluestaq_takehome.Store.Models.{Db, Team, TeamMember}
use bluestaq_takehome.Store.TeamQueries.{is_team, is_membership, is_admin_of, is_grant_to, renamed}
use bluestaq_takehome.Prelude.Text.{Text}
use bluestaq_takehome.Teams.Governed.{IsGoverned, unique_append, placed_append, governed_append}

-- No grant names `t`.
pub IsUngranted : ℕ → Db → Type 0
IsUngranted t d = any (is_grant_to "team" t) d.note_shares ≡ false

pub IsGoverned-drop_grants :
    (t : ℕ) {d : Db}
    → IsGoverned d
    → IsGoverned (record d { note_shares = drop_if (is_grant_to "team" t) d.note_shares })
IsGoverned-drop_grants t {d} g = record {
  unique = g.unique;
  governed = g.governed;
  placed = g.placed;
  granted = λ t' e.
      g.granted t' (any-drop_if (is_grant_to "team" t') (is_grant_to "team" t) d.note_shares e);
}

pub IsUngranted-drop_grants :
    (t : ℕ) (d : Db)
    → IsUngranted t (record d { note_shares = drop_if (is_grant_to "team" t) d.note_shares })
unfolding IsUngranted
IsUngranted-drop_grants t d =
    any-drop_if_within (is_grant_to "team" t) (is_grant_to "team" t) (λ x h. h) d.note_shares

module _ (t : ℕ) {d : Db} (g : IsGoverned d) (none_left : IsUngranted t d) where
  abbrev without_team : Db
  without_team = record d {
    teams = drop_if (is_team t) d.teams;
    team_members = drop_if (λ m. m.team_id == t) d.team_members;
  }

  apart : (t' : ℕ) → any (is_team t') without_team.teams ≡ true → (t' == t) ≡ false
  apart t' e = elim (Bool-cases (t' == t)) [
    | inl same ↦ cc (e, any-drop_if_within (is_team t') (is_team t) (λ x h. ground arith) d.teams)
    | inr other ↦ other
  ]

  still_there :
      (t' : ℕ)
      → (t' == t) ≡ false
      → any (is_team t') d.teams ≡ true
      → any (is_team t') without_team.teams ≡ true
  still_there t' ne e =
      rw (any-drop_if_apart (is_team t') (is_team t) (λ x h. ground arith) d.teams) e

  members_apart :
      (t' u : ℕ) → any (is_membership t' u) without_team.team_members ≡ true → (t' == t) ≡ false
  members_apart t' u e = elim (Bool-cases (t' == t)) [
    | inl same ↦ cc (
      e,
      any-drop_if_within (is_membership t' u) (λ m. m.team_id == t) (λ x h. ground arith)
          d.team_members,
    )
    | inr other ↦ other
  ]

  granted_apart : (t' : ℕ) → any (is_grant_to "team" t') d.note_shares ≡ true → (t' == t) ≡ false
  unfolding IsUngranted
  granted_apart t' e = elim (Bool-cases (t' == t)) [
    | inl same ↦ let e' : t' ≡ t = ground arith in cc (e', e, none_left)
    | inr other ↦ other
  ]

  pub IsGoverned-delete_team : IsGoverned without_team
  IsGoverned-delete_team = record {
    unique = λ t' u. omega (
      arith,
      g.unique t' u,
      count_if-drop_if_le (is_membership t' u) (λ m. m.team_id == t) d.team_members,
    );
    governed = λ t' e.
        rw
          (count_if-drop_if_apart (is_admin_of t') (λ m. m.team_id == t)
            (λ m h. let ne = apart t' e in ground arith) d.team_members)
          (g.governed t' (any-drop_if (is_team t') (is_team t) d.teams e));
    placed = λ t' u e.
        still_there t' (members_apart t' u e)
          (g.placed t' u (any-drop_if (is_membership t' u) (λ m. m.team_id == t) d.team_members e));
    granted = λ t' e. still_there t' (granted_apart t' e) (g.granted t' e);
  }

-- A new name changes no id.
pub IsGoverned-rename :
    (id : ℕ) (name : Text) (now : ℕ) {d : Db}
    → IsGoverned d
    → IsGoverned (record d { teams = update_if (is_team id) (renamed name now) d.teams })
IsGoverned-rename id name now {d} g = record {
  unique = g.unique;
  governed = λ t e. g.governed t (rw (same t) at e);
  placed = λ t u e. rw (same t) (g.placed t u e);
  granted = λ t e. rw (same t) (g.granted t e);
}
  where
    same :
        (t : ℕ)
        → any (is_team t) (update_if (is_team id) (renamed name now) d.teams)
          ≡ any (is_team t) d.teams
    same t = any-update_if (is_team t) (is_team id) (renamed name now) (λ x. refl) d.teams

-- Every team but `t`, a team that is there, has an admin.
pub record IsPending (t : ℕ) (d : Db) : Type 0 where
  pub unique : (t' u : ℕ) → count_if (is_membership t' u) d.team_members ≤ 1
  pub others :
      (t' : ℕ)
      → any (is_team t') d.teams ≡ true
      → (t' == t) ≡ false
      → 1 ≤ count_if (is_admin_of t') d.team_members
  pub there : any (is_team t) d.teams ≡ true
  pub empty : (u : ℕ) → find (is_membership t u) d.team_members ≡ none
  pub placed :
      (t' u : ℕ) → any (is_membership t' u) d.team_members ≡ true → any (is_team t') d.teams ≡ true
  pub granted :
      (t' : ℕ) → any (is_grant_to "team" t') d.note_shares ≡ true → any (is_team t') d.teams ≡ true

pub IsPending-insert :
    (t : Team) {d : Db}
    → IsGoverned d
    → any (is_team t.id) d.teams ≡ false
    → IsPending t.id (record d { teams = d.teams ++ t ∷ [] })
IsPending-insert t {d} g fresh = record {
  unique = g.unique;
  others = λ t' e ne. g.governed t' (rw (any-append_ne (is_team t') d.teams t (ground arith)) at e);
  there = any-append_last (is_team t.id) d.teams t (ground arith);
  empty = λ u. elim (Bool-cases (any (is_membership t.id u) d.team_members)) [
    | inl stale ↦ cc (g.placed t.id u stale, fresh)
    | inr clean ↦ not_any→find (is_membership t.id u) d.team_members clean
  ];
  placed = λ t' u e. any-append (is_team t') d.teams t (g.placed t' u e);
  granted = λ t' e. any-append (is_team t') d.teams t (g.granted t' e);
}

-- The pending team has its admin.
pub IsGoverned-first_admin :
    (m : TeamMember) {d : Db}
    → IsPending m.team_id d
    → str_eq m.role "admin" ≡ true
    → IsGoverned (record d { team_members = d.team_members ++ m ∷ [] })
IsGoverned-first_admin m {d} g admin = record {
  unique = unique_append m d.team_members (g.empty m.user_id) g.unique;
  governed = λ t e. elim (Bool-cases (t == m.team_id)) [
    | inl same ↦ rw (count_if-append (is_admin_of t) d.team_members m) (ground arith)
    | inr other ↦ omega (arith, g.others t e other, governed_append m d.team_members t)
  ];
  placed = placed_append m d.team_members (λ t. any (is_team t) d.teams ≡ true) g.there g.placed;
  granted = g.granted;
}
