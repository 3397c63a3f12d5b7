-- ===== src/Store/ShareQueries.antt =====
-- internal/store/sqlcgen/shares.sql.go: each query is its SQL over the tables.
use bluestaq_takehome.Prelude.{
  ℕ, String, Bool, not, ◌&&◌, ◌||◌, Option, none, some, List, [], ◌∷◌, ◌++◌, ◌==◌, str_eq,
  if◌then◌else◌, find, any, drop_if, count_if, update_if, sort_by,
}
use bluestaq_takehome.Prelude.Text.{Text, codes}
use bluestaq_takehome.Httpx.Problems.{Result, ok, err, pg, foreign_key_violation, check_violation}
use bluestaq_takehome.Store.Models.{Db, User, Team, NoteShare}
use bluestaq_takehome.Store.World.{M, stmt, query}
use bluestaq_takehome.Store.NoteQueries.{is_set, is_note}
use bluestaq_takehome.Store.TeamQueries.{is_team, is_membership}

-- The primary key (note_id, principal_type, principal_id).
abbrev pub is_share : ℕ → String → ℕ → NoteShare → Bool
is_share note_id principal_type principal_id s =
    (s.note_id == note_id)
    && str_eq s.principal_type principal_type
    && (s.principal_id == principal_id)

abbrev pub is_user : ℕ → User → Bool
is_user id u = u.id == id

abbrev pub is_live_user : ℕ → User → Bool
is_live_user id u = (u.id == id) && not (is_set u.deleted_at)

unfoldable pub share_fits : NoteShare → Bool
share_fits s =
    (str_eq s.principal_type "user" || str_eq s.principal_type "team")
    && (str_eq s.role "viewer" || str_eq s.role "editor")

abbrev pub regranted : NoteShare → NoteShare → NoteShare
regranted new old = record old { role = new.role; granted_by = new.granted_by }

-- `on conflict … do update`: the two references are those of the proposed row.
unfoldable pub place_share : NoteShare → Db → Option NoteShare → Result (NoteShare × Db)
place_share s d (some old) =
    if any (is_user s.granted_by) d.users
    then ok (
      regranted s old,
      record d {
        note_shares =
            update_if (is_share s.note_id s.principal_type s.principal_id) (regranted s)
              d.note_shares;
      },
    )
    else err (pg foreign_key_violation)
place_share s d none =
    if any (is_note s.note_id) d.notes && any (is_user s.granted_by) d.users
    then ok (s, record d { note_shares = d.note_shares ++ s ∷ [] })
    else err (pg foreign_key_violation)

unfoldable pub upsert_share_row : NoteShare → Db → Result (NoteShare × Db)
upsert_share_row s d =
    if share_fits s
    then place_share s d (find (is_share s.note_id s.principal_type s.principal_id) d.note_shares)
    else err (pg check_violation)

unfoldable pub upsert_note_share : ℕ → String → ℕ → String → ℕ → M NoteShare
upsert_note_share note_id principal_type principal_id role granted_by = stmt λ w.
    upsert_share_row
      (record {
        note_id = note_id;
        principal_type = principal_type;
        principal_id = principal_id;
        role = role;
        granted_by = granted_by;
        created_at = w.env.now w.calls;
      })
      w.db

-- A row of `ListNoteShares`.
pub record ListNoteSharesRow : Type 0 where
  pub share : NoteShare
  pub principal_name : Text
  pub principal_email : Option Text

-- The two left joins: the user of a grant to a user, the team of a grant to a team.
unfoldable pub joined_user : Db → NoteShare → Option User
joined_user d s =
    if str_eq s.principal_type "user" then find (is_user s.principal_id) d.users else none

unfoldable pub joined_team : Db → NoteShare → Option Team
joined_team d s =
    if str_eq s.principal_type "team" then find (is_team s.principal_id) d.teams else none

unfoldable pub named_share : NoteShare → Option User → Option Team → ListNoteSharesRow
named_share s (some u) t = record {
  share = s;
  principal_name = u.display_name;
  principal_email = some u.email;
}
named_share s none (some t) = record { share = s; principal_name = t.name; principal_email = none }
named_share s none none = record {
  share = s;
  principal_name = codes "(deleted)";
  principal_email = none;
}

unfoldable pub share_rows : Db → ℕ → List NoteShare → List ListNoteSharesRow
share_rows d note_id [] = []
share_rows d note_id (s ∷ ss) =
    let rest = share_rows d note_id ss in
    if s.note_id == note_id then named_share s (joined_user d s) (joined_team d s) ∷ rest else rest

-- `order by s.principal_type, principal_name`; the two types are 'team' and 'user'.
abbrev pub share_le : (Text → Text → Bool) → ListNoteSharesRow → ListNoteSharesRow → Bool
share_le collate a b =
    if str_eq a.share.principal_type b.share.principal_type
    then collate a.principal_name b.principal_name
    else str_eq a.share.principal_type "team"

unfoldable pub list_note_shares : ℕ → M (List ListNoteSharesRow)
list_note_shares note_id =
    query λ w. ok (sort_by (share_le w.env.collate) (share_rows w.db note_id w.db.note_shares))

unfoldable pub delete_note_share : ℕ → String → ℕ → M ℕ
delete_note_share note_id principal_type principal_id = stmt λ w. ok (
  count_if (is_share note_id principal_type principal_id) w.db.note_shares,
  record w.db {
    note_shares = drop_if (is_share note_id principal_type principal_id) w.db.note_shares;
  },
)

unfoldable pub team_exists : ℕ → M Bool
team_exists id = query λ w. ok (any (is_team id) w.db.teams)

unfoldable pub user_exists : ℕ → M Bool
user_exists id = query λ w. ok (any (is_live_user id) w.db.users)

unfoldable pub is_team_member : ℕ → ℕ → M Bool
is_team_member team_id user_id =
    query λ w. ok (any (is_membership team_id user_id) w.db.team_members)
