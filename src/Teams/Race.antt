-- ===== src/Teams/Race.antt =====
-- Two calls of `removeFromTeam` at once (internal/teams/handler.go). `Tx` of internal/store/store.go
-- begins a transaction at the isolation level of the database, which is read committed unless it is
-- configured: each statement sees what is committed when it starts. A turn is one statement, or the
-- commit that makes the delete visible. A delete waits while the other call has the row's lock.
use bluestaq_takehome.Prelude.{
  ℕ, ◌≡◌, ◌≤◌, refl, Bool, true, false, ◌&&◌, Option, none, some, List, [], ◌∷◌, arith, ◌==◌, leb,
  str_eq, if◌then◌else◌, find, drop_if, count_if,
}
use bluestaq_takehome.Prelude.Counting.{
  find→count_if, find-some, find-drop_if_apart, count_if-drop_if, count_if-drop_if_apart,
  find-count_if,
}
use bluestaq_takehome.Store.Models.{TeamMember}
use bluestaq_takehome.Store.TeamQueries.{is_membership, is_admin_of}

-- How far one call is: at its start, after its role was read as admin, after the guard passed, after
-- the delete, and the three ways to end.
pub data Stage : Type 0 where
  begun is_admin guarded pending : Stage
  committed refused missing : Stage

pub record Session : Type 0 where
  pub user : ℕ
  pub stage : Stage

abbrev pub holds_lock : Stage → Bool
holds_lock pending = true
holds_lock _ = false

-- `GetMembership` in `guardLastAdmin`.
abbrev pub looked_up : Option TeamMember → Stage
looked_up none = guarded
looked_up (some m) = if str_eq m.role "admin" then is_admin else guarded

-- One turn of the session `s` in the team `t`, beside `other`.
unfoldable pub turn : ℕ → Session → Session → List TeamMember → Stage → Stage × List TeamMember
turn t other s ms begun = (looked_up (find (is_membership t s.user) ms), ms)
turn t other s ms is_admin = (if leb (count_if (is_admin_of t) ms) 1 then refused else guarded, ms)
turn t other s ms guarded =
    if holds_lock other.stage && (other.user == s.user)
    then (guarded, ms)
    else if count_if (is_membership t s.user) ms == 0
    then (missing, ms)
    else (pending, ms)
turn t other s ms pending = (committed, drop_if (is_membership t s.user) ms)
turn t other s ms ended = (ended, ms)

pub record Shared : Type 0 where
  pub members : List TeamMember
  pub left : Session
  pub right : Session

pub data Side : Type 0 where
  left_turn right_turn : Side

unfoldable pub step : ℕ → Side → Shared → Shared
step t left_turn s =
    let (stage, ms) = turn t s.right s.left s.members s.left.stage in
    record s { members = ms; left = record s.left { stage = stage } }
step t right_turn s =
    let (stage, ms) = turn t s.left s.right s.members s.right.stage in
    record s { members = ms; right = record s.right { stage = stage } }

unfoldable pub run : ℕ → List Side → Shared → Shared
run t [] s = s
run t (side ∷ sides) s = run t sides (step t side s)

abbrev pub both : ℕ → ℕ → List TeamMember → Shared
both a b ms = record {
  members = ms;
  left = record { user = a; stage = begun };
  right = record { user = b; stage = begun };
}

-- Each reads its role, each counts the admins, and then each deletes and commits.
abbrev pub interleaved : List Side
interleaved =
    left_turn ∷ right_turn ∷ left_turn ∷ right_turn ∷ left_turn ∷ right_turn ∷ left_turn
    ∷ right_turn ∷ []

abbrev pub one_by_one : List Side
one_by_one =
    left_turn ∷ left_turn ∷ left_turn ∷ left_turn ∷ right_turn ∷ right_turn ∷ right_turn
    ∷ right_turn ∷ []

-- Two admins are all that the team has.
pub record IsPair (t a b : ℕ) (ms : List TeamMember) : Type 0 where
  pub distinct : (a == b) ≡ false
  pub left_row : TeamMember
  pub left_found : find (is_membership t a) ms ≡ some left_row
  pub left_admin : str_eq left_row.role "admin" ≡ true
  pub right_row : TeamMember
  pub right_found : find (is_membership t b) ms ≡ some right_row
  pub right_admin : str_eq right_row.role "admin" ≡ true
  pub two : count_if (is_admin_of t) ms ≡ 2
  pub unique : (u : ℕ) → count_if (is_membership t u) ms ≤ 1

apart :
    (t a b : ℕ) (m : TeamMember)
    → (a == b) ≡ false
    → (is_admin_of t m && is_membership t b m) ≡ true
    → is_membership t a m ≡ false
apart t a b m h e = ground arith

module _ (t a b : ℕ) (ms : List TeamMember) (p : IsPair t a b ms) where
  abbrev after_left : List TeamMember
  after_left = drop_if (is_membership t a) ms

  run-interleaved : run t interleaved (both a b ms) ≡ record {
    members = drop_if (is_membership t b) after_left;
    left = record { user = a; stage = committed };
    right = record { user = b; stage = committed };
  }
  unfolding run step turn
  run-interleaved =
      rw (p.left_found, p.right_found, p.left_admin, p.right_admin, p.two)
        (ground (
          arith,
          p.distinct,
          find→count_if (is_membership t a) ms p.left_row p.left_found,
          find→count_if (is_membership t b) ms p.right_row p.right_found,
        ))

  left_counted : count_if (λ m. is_admin_of t m && is_membership t a m) ms ≡ 1
  left_counted = ground (
    arith,
    p.left_admin,
    find-some (is_membership t a) ms p.left_row p.left_found,
    find-count_if (is_admin_of t) (is_membership t a) ms p.left_row p.left_found (p.unique a),
  )

  right_counted : count_if (λ m. is_admin_of t m && is_membership t b m) ms ≡ 1
  right_counted = ground (
    arith,
    p.right_admin,
    find-some (is_membership t b) ms p.right_row p.right_found,
    find-count_if (is_admin_of t) (is_membership t b) ms p.right_row p.right_found (p.unique b),
  )

  one_left : count_if (is_admin_of t) after_left ≡ 1
  one_left =
      omega (arith, p.two, left_counted, count_if-drop_if (is_admin_of t) (is_membership t a) ms)

  none_left : count_if (is_admin_of t) (drop_if (is_membership t b) after_left) ≡ 0
  none_left = omega (
    arith,
    one_left,
    right_counted,
    count_if-drop_if (is_admin_of t) (is_membership t b) after_left,
    count_if-drop_if_apart (λ m. is_admin_of t m && is_membership t b m) (is_membership t a)
        (λ m. apart t a b m p.distinct) ms,
  )

  right_still : find (is_membership t b) after_left ≡ some p.right_row
  right_still =
      rw
        (find-drop_if_apart (is_membership t b) (is_membership t a)
          (λ m h. let ne = p.distinct in ground arith) ms)
        p.right_found

  run-one_by_one : run t one_by_one (both a b ms) ≡ record {
    members = after_left;
    left = record { user = a; stage = committed };
    right = record { user = b; stage = refused };
  }
  unfolding run step turn
  run-one_by_one =
      rw (p.left_found, p.left_admin, p.two)
        (ground (
          arith,
          right_still,
          one_left,
          p.right_admin,
          find→count_if (is_membership t a) ms p.left_row p.left_found,
        ))

  -- Two admins who leave, or are removed, at the same time: under read committed both calls
  -- succeed and the team has no admin. One call after the other keeps an admin: the second is
  -- refused.
  pub race_strands_team :
      ((run t interleaved (both a b ms)).left.stage ≡ committed)
      × ((run t interleaved (both a b ms)).right.stage ≡ committed)
      × (count_if (is_admin_of t) (run t interleaved (both a b ms)).members ≡ 0)
      × ((run t one_by_one (both a b ms)).right.stage ≡ refused)
      × (count_if (is_admin_of t) (run t one_by_one (both a b ms)).members ≡ 1)
  race_strands_team = rw (run-interleaved, run-one_by_one) (refl, refl, none_left, refl, one_left)
