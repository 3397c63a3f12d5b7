-- ===== src/Store/UserQueries.antt =====
-- internal/store/sqlcgen/users.sql.go: each query is its SQL over the tables.
use bluestaq_takehome.Prelude.{
  ℕ, Bool, not, ◌&&◌, ◌||◌, Option, none, some, List, [], ◌∷◌, ◌++◌, leb, ◌==◌, if◌then◌else◌, find,
  any, drop_if, count_if, update_if, length,
}
use bluestaq_takehome.Prelude.Text.{Text}
use bluestaq_takehome.Httpx.Problems.{
  Result, ok, err, no_rows, pg, unique_violation, check_violation,
}
use bluestaq_takehome.Store.Models.{Db, User, TeamMember}
use bluestaq_takehome.Store.World.{M, stmt, query}
use bluestaq_takehome.Store.NoteQueries.{is_set, coalesce}
use bluestaq_takehome.Store.ShareQueries.{is_user, is_live_user}
use bluestaq_takehome.Store.TeamQueries.{one, is_grant_to}

pub record CreateUserParams : Type 0 where
  pub email : Text
  pub password_hash : Text
  pub display_name : Text

-- where email = … and deleted_at is null.
abbrev pub is_live_email : (Text → Text → Bool) → Text → User → Bool
is_live_email eq email u = eq u.email email && not (is_set u.deleted_at)

-- check (length(display_name) between 1 and 128), in characters.
unfoldable pub display_name_fits : Text → Bool
display_name_fits name = leb 1 (length name) && leb (length name) 128

unfoldable pub insert_user : (Text → Text → Bool) → User → Db → Result (User × Db)
insert_user eq u d =
    if not (display_name_fits u.display_name)
    then err (pg check_violation)
    else if any (is_user u.id) d.users
    then err (pg (unique_violation "users_pkey"))
    else if any (is_live_email eq u.email) d.users
    then err (pg (unique_violation "users_email_live_uniq"))
    else ok (u, record d { users = d.users ++ u ∷ [] })

unfoldable pub create_user : CreateUserParams → M User
create_user arg = stmt λ w.
    insert_user w.env.citext_eq
      (record {
        id = w.env.gen_random_uuid w.calls;
        email = arg.email;
        password_hash = arg.password_hash;
        display_name = arg.display_name;
        created_at = w.env.now w.calls;
        updated_at = w.env.now w.calls;
        deleted_at = none;
      })
      w.db

unfoldable pub get_user : ℕ → M User
get_user id = query λ w. one (find (is_live_user id) w.db.users)

unfoldable pub get_user_by_email : Text → M User
get_user_by_email email = query λ w. one (find (is_live_email w.env.citext_eq email) w.db.users)

unfoldable pub get_user_for_display : ℕ → M User
get_user_for_display id = query λ w. one (find (is_user id) w.db.users)

-- Some team has both as members.
unfoldable pub share_a_team : List TeamMember → ℕ → ℕ → Bool
share_a_team members caller_id id =
    any
      (λ caller.
        (caller.user_id == caller_id)
        && any (λ target. (target.team_id == caller.team_id) && (target.user_id == id)) members)
      members

abbrev pub is_findable : (Text → Text → Bool) → List TeamMember → Text → ℕ → User → Bool
is_findable eq members email caller_id u =
    is_live_email eq email u && ((u.id == caller_id) || share_a_team members caller_id u.id)

unfoldable pub find_user_by_exact_email : Text → ℕ → M User
find_user_by_exact_email email caller_id =
    query λ w. one (find (is_findable w.env.citext_eq w.db.team_members email caller_id) w.db.users)

abbrev pub with_profile : Option Text → Option Text → ℕ → User → User
with_profile display_name email now u = record u {
  display_name = coalesce display_name u.display_name;
  email = coalesce email u.email;
  updated_at = now;
}

-- The row `u'` takes the place of the live row of its id.
unfoldable pub put_profile : (Text → Text → Bool) → User → Db → Result (User × Db)
put_profile eq u' d =
    if not (display_name_fits u'.display_name)
    then err (pg check_violation)
    else if any (λ u. is_live_email eq u'.email u && not (u.id == u'.id)) d.users
    then err (pg (unique_violation "users_email_live_uniq"))
    else ok (u', record d { users = update_if (is_live_user u'.id) (λ u. u') d.users })

unfoldable pub found_profile :
    (Text → Text → Bool) → (User → User) → Db → Option User → Result (User × Db)
found_profile eq f d none = err no_rows
found_profile eq f d (some u) = put_profile eq (f u) d

unfoldable pub update_user_profile : ℕ → Option Text → Option Text → M User
update_user_profile id display_name email = stmt λ w.
    found_profile w.env.citext_eq (with_profile display_name email (w.env.now w.calls)) w.db
      (find (is_live_user id) w.db.users)

unfoldable pub update_user_password : ℕ → Text → M ℕ
update_user_password id hash = stmt λ w. ok (
  count_if (is_live_user id) w.db.users,
  record w.db {
    users =
        update_if (is_live_user id)
          (λ u. record u { password_hash = hash; updated_at = w.env.now w.calls }) w.db.users;
  },
)

abbrev pub closed : ℕ → User → User
closed now u = record u { deleted_at = some now; updated_at = now }

unfoldable pub soft_delete_user : ℕ → M ℕ
soft_delete_user id = stmt λ w. ok (
  count_if (is_live_user id) w.db.users,
  record w.db { users = update_if (is_live_user id) (closed (w.env.now w.calls)) w.db.users },
)

unfoldable pub delete_user_share_grants : ℕ → M ℕ
delete_user_share_grants id = stmt λ w. ok (
  count_if (is_grant_to "user" id) w.db.note_shares,
  record w.db { note_shares = drop_if (is_grant_to "user" id) w.db.note_shares },
)
