-- ===== src/Teams/Governed.antt =====
-- The invariant of the team tables: every team has an admin, no user is in a team twice, and
-- neither a membership nor a grant names a team that is gone.
use bluestaq_takehome.Prelude.{
  ℕ, ◌≤◌, ◌≡◌, refl, String, true, false, none, some, List, [], ◌∷◌, ◌++◌, arith, ◌==◌, ==_iff,
  str_eq, eq_iff, ◌⊎◌, find, any, drop_if, count_if, update_if, Bool-cases, inl, inr,
}
use bluestaq_takehome.Prelude.Counting.{
  count_if-append, any-append_ne, find-none, count_if-drop_if, count_if-drop_if_le,
  count_if-drop_if_apart, any-drop_if, both-le, find-count_if, count_if-update_if_lost,
  count_if-update_if, any-update_if, count_if-update_if_le,
}
use bluestaq_takehome.Store.Models.{Db, TeamMember}
use bluestaq_takehome.Store.TeamQueries.{is_team, is_membership, is_admin_of, is_grant_to}

pub record IsGoverned (d : Db) : Type 0 where
  pub unique : (t u : ℕ) → count_if (is_membership t u) d.team_members ≤ 1
  pub governed :
      (t : ℕ) → any (is_team t) d.teams ≡ true → 1 ≤ count_if (is_admin_of t) d.team_members
  pub placed :
      (t u : ℕ) → any (is_membership t u) d.team_members ≡ true → any (is_team t) d.teams ≡ true
  pub granted :
      (t : ℕ) → any (is_grant_to "team" t) d.note_shares ≡ true → any (is_team t) d.teams ≡ true

-- An admin of `t` is left when `u` goes.
pub record IsSpare (t u : ℕ) (d : Db) : Type 0 where
  pub left :
      any (is_team t) d.teams ≡ true
      → 1 ≤ count_if (is_admin_of t) (drop_if (is_membership t u) d.team_members)

module _ (t u : ℕ) {d : Db} (g : IsGoverned d) where
  abbrev here : List TeamMember
  here = d.team_members

  pub IsSpare-absent : find (is_membership t u) here ≡ none → IsSpare t u d
  IsSpare-absent h = record {
    left = λ e. omega (
      arith,
      g.governed t e,
      find-none (is_membership t u) here h,
      count_if-drop_if (is_admin_of t) (is_membership t u) here,
      both-le (is_admin_of t) (is_membership t u) here,
    );
  }

  pub IsSpare-member :
      (m : TeamMember)
      → find (is_membership t u) here ≡ some m
      → str_eq m.role "admin" ≡ false
      → IsSpare t u d
  IsSpare-member m h r = record {
    left = λ e. ground (
      arith,
      g.governed t e,
      g.unique t u,
      r,
      count_if-drop_if (is_admin_of t) (is_membership t u) here,
      find-count_if (is_admin_of t) (is_membership t u) here m h (g.unique t u),
    );
  }

  pub IsSpare-many : 2 ≤ count_if (is_admin_of t) here → IsSpare t u d
  IsSpare-many h = record {
    left = λ e. omega (
      arith,
      g.unique t u,
      count_if-drop_if (is_admin_of t) (is_membership t u) here,
      both-le (is_admin_of t) (is_membership t u) here,
    );
  }

-- Memberships of two teams, or of two users, are told apart.
other_team :
    (t t' u : ℕ) (m : TeamMember)
    → (t' == t) ≡ false
    → is_admin_of t' m ≡ true
    → is_membership t u m ≡ false
other_team t t' u m h e = ground arith

module _ (t u : ℕ) {d : Db} (g : IsGoverned d) (s : IsSpare t u d) where
  left_governed :
      (t' : ℕ)
      → any (is_team t') d.teams ≡ true
      → 1 ≤ count_if (is_admin_of t') (drop_if (is_membership t u) d.team_members)
  left_governed t' e = elim (Bool-cases (t' == t)) [
    | inl same ↦ rw ((==_iff t' t).0 same) (s.left (rw (← (==_iff t' t).0 same) e))
    | inr other ↦
        rw
          (count_if-drop_if_apart (is_admin_of t') (is_membership t u)
            (λ m. other_team t t' u m other))
          (g.governed t' e)
  ]

  pub IsGoverned-remove :
      IsGoverned (record d { team_members = drop_if (is_membership t u) d.team_members })
  IsGoverned-remove = record {
    unique = λ t' u'. omega (
      arith,
      g.unique t' u',
      count_if-drop_if_le (is_membership t' u') (is_membership t u) d.team_members,
    );
    governed = left_governed;
    placed = λ t' u' e.
        g.placed t' u' (any-drop_if (is_membership t' u') (is_membership t u) d.team_members e);
    granted = g.granted;
  }

abbrev pub with_role : String → TeamMember → TeamMember
with_role r n = record n { role = r }

member-ne-admin : (r : String) → str_eq r "member" ≡ true → str_eq r "admin" ≡ false
member-ne-admin r h = rw ((eq_iff r "member").0 h) refl

module _ (t u : ℕ) (r : String) {d : Db} (g : IsGoverned d) where
  abbrev changed : List TeamMember
  changed = update_if (is_membership t u) (with_role r) d.team_members

  unique_changed : (t' u' : ℕ) → count_if (is_membership t' u') changed ≤ 1
  unique_changed t' u' =
      rw (count_if-update_if (is_membership t' u') (is_membership t u) (with_role r) (λ m. refl))
        (g.unique t' u')

  placed_changed :
      (t' u' : ℕ) → any (is_membership t' u') changed ≡ true → any (is_team t') d.teams ≡ true
  placed_changed t' u' e = g.placed t' u' (
      rw
        (any-update_if (is_membership t' u') (is_membership t u) (with_role r) (λ m. refl)
          d.team_members)
        at e)

  governed_changed :
      (str_eq r "member" ≡ true) ⊎ (str_eq r "admin" ≡ true)
      → (str_eq r "member" ≡ true → IsSpare t u d)
      → (t' : ℕ) → any (is_team t') d.teams ≡ true
      → 1 ≤ count_if (is_admin_of t') changed
  governed_changed (inl low) s t' e =
      rw
        (count_if-update_if_lost (is_admin_of t') (is_membership t u) (with_role r)
          (λ m. ground (arith, member-ne-admin r low)))
        (left_governed t u g (s low) t' e)
  governed_changed (inr high) s t' e = omega (
    arith,
    g.governed t' e,
    count_if-update_if_le (is_admin_of t') (is_membership t u) (with_role r)
        (λ m h. ground (arith, high)) d.team_members,
  )

  pub IsGoverned-set_role :
      (str_eq r "member" ≡ true) ⊎ (str_eq r "admin" ≡ true)
      → (str_eq r "member" ≡ true → IsSpare t u d)
      → IsGoverned (record d { team_members = changed })
  IsGoverned-set_role fits s = record {
    unique = unique_changed;
    governed = governed_changed fits s;
    placed = placed_changed;
    granted = g.granted;
  }

module _ (m : TeamMember) (ms : List TeamMember) where
  none_yet :
      (t u : ℕ)
      → is_membership t u m ≡ true
      → find (is_membership m.team_id m.user_id) ms ≡ none
      → count_if (is_membership t u) ms ≡ 0
  none_yet t u same fresh =
      let e : m.team_id ≡ t = ground arith in
      let e' : m.user_id ≡ u = ground arith in
      rw (← e, ← e') (find-none (is_membership m.team_id m.user_id) ms fresh)

  pub unique_append :
      find (is_membership m.team_id m.user_id) ms ≡ none
      → ((t u : ℕ) → count_if (is_membership t u) ms ≤ 1)
      → (t u : ℕ) → count_if (is_membership t u) (ms ++ m ∷ []) ≤ 1
  unique_append fresh old t u = elim (Bool-cases (is_membership t u m)) [
    | inl same ↦
        rw (count_if-append (is_membership t u) ms m, same) (omega (arith, none_yet t u same fresh))
    | inr other ↦ rw (count_if-append (is_membership t u) ms m, other) (omega (arith, old t u))
  ]

  pub placed_append :
      (P : ℕ → Type 0)
      → P m.team_id
      → ((t u : ℕ) → any (is_membership t u) ms ≡ true → P t)
      → (t u : ℕ) → any (is_membership t u) (ms ++ m ∷ []) ≡ true
      → P t
  placed_append P new old t u h = elim (Bool-cases (is_membership t u m)) [
    | inl same ↦ let e : m.team_id ≡ t = ground arith in rw (← e) new
    | inr other ↦ old t u (rw (any-append_ne (is_membership t u) ms m other) at h)
  ]

  pub governed_append :
      (t : ℕ) → count_if (is_admin_of t) ms ≤ count_if (is_admin_of t) (ms ++ m ∷ [])
  governed_append t = omega (arith, count_if-append (is_admin_of t) ms m)

-- A new membership of a team that is there.
pub IsGoverned-add :
    (m : TeamMember) {d : Db}
    → IsGoverned d
    → find (is_membership m.team_id m.user_id) d.team_members ≡ none
    → any (is_team m.team_id) d.teams ≡ true
    → IsGoverned (record d { team_members = d.team_members ++ m ∷ [] })
IsGoverned-add m {d} g fresh there = record {
  unique = unique_append m d.team_members fresh g.unique;
  governed = λ t e. omega (arith, g.governed t e, governed_append m d.team_members t);
  placed = placed_append m d.team_members (λ t. any (is_team t) d.teams ≡ true) there g.placed;
  granted = g.granted;
}
