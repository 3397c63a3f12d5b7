-- ===== src/Examples/TeamCases.antt =====
-- The theorems on teams and on the decision table at concrete inputs.
use bluestaq_takehome.Prelude.{
  ◌≡◌, refl, inr, none, some, List, [], ◌∷◌, arith, find, any, count_if,
}
use bluestaq_takehome.Store.Models.{TeamMember}
use bluestaq_takehome.Store.TeamQueries.{is_membership, is_admin_of}
use bluestaq_takehome.Store.Whole.{AllOrNothing, quiet}
use bluestaq_takehome.Teams.{route, leave_call, get_call, delete_call, serve}
use bluestaq_takehome.Teams.Errors.{serve_error_atomic}
use bluestaq_takehome.Teams.Governed.{IsGoverned}
use bluestaq_takehome.Teams.Admins.{serve-IsGoverned}
use bluestaq_takehome.Teams.Access.{no_team, serve_outsider}
use bluestaq_takehome.Teams.Race.{
  IsPair, run, both, interleaved, one_by_one, committed, refused, race_strands_team,
}
use bluestaq_takehome.Examples.Data.{late, world, db, request, member}

governed : IsGoverned db
unfolding any count_if
governed = record {
  unique = λ t u. ground arith;
  governed = λ t h. ground arith;
  placed = λ t u h. ground arith;
  granted = λ t h. ground arith;
}

-- The only admin leaves, and is refused.
serve-IsGoverned_example : IsGoverned (serve (request 1 5 []) leave_call world).1.db
serve-IsGoverned_example = serve-IsGoverned (request 1 5 []) leave_call world governed

no_third : find (is_membership 5 3) db.team_members ≡ none
unfolding find
no_third = refl

second : find (is_membership 5 2) db.team_members ≡ some (member 2 "member")
unfolding find
second = refl

-- The commit of the deletion takes effect, and the reply is a 503.
serve_error_atomic_example :
    AllOrNothing db
      (serve (request 1 5 []) delete_call (late 4)).1.db
      (route (request 1 5 []) delete_call (quiet (late 4)))
serve_error_atomic_example = serve_error_atomic (request 1 5 []) delete_call (late 4)

serve_outsider_example : (serve (request 3 5 []) get_call world).0 ≡ no_team
serve_outsider_example =
    serve_outsider (request 3 5 []) get_call world refl (inr (5, refl, no_third, refl))

abbrev admins : List TeamMember
admins = member 1 "admin" ∷ member 4 "admin" ∷ []

pair : IsPair 5 1 4 admins
unfolding find count_if
pair = record {
  distinct = refl;
  left_row = member 1 "admin";
  left_found = refl;
  left_admin = refl;
  right_row = member 4 "admin";
  right_found = refl;
  right_admin = refl;
  two = refl;
  unique = λ u. ground arith;
}

race_strands_team_example :
    ((run 5 interleaved (both 1 4 admins)).left.stage ≡ committed)
    × ((run 5 interleaved (both 1 4 admins)).right.stage ≡ committed)
    × (count_if (is_admin_of 5) (run 5 interleaved (both 1 4 admins)).members ≡ 0)
    × ((run 5 one_by_one (both 1 4 admins)).right.stage ≡ refused)
    × (count_if (is_admin_of 5) (run 5 one_by_one (both 1 4 admins)).members ≡ 1)
race_strands_team_example = race_strands_team 5 1 4 admins pair
