-- ===== src/Notes/Shares.antt =====
-- internal/notes/shares.go: who a note is shared with.
use bluestaq_takehome.Prelude.{
  ℕ, ◌==◌, String, Bool, not, ◌&&◌, Option, none, some, List, [], ◌∷◌, map, str_eq, if◌then◌else◌,
}
use bluestaq_takehome.Prelude.Text.{Text}
use bluestaq_takehome.Authz.{Role, parse_grant_role}
use bluestaq_takehome.Authz
use bluestaq_takehome.Httpx.Problems.{Result, ok, err, problem, say, errorf, not_found, invalid}
use bluestaq_takehome.Httpx.{Request, Reply, Decoded, decode_json, write_json, write_status}
use bluestaq_takehome.Store.World.{M, pure, ask, lift, ◌>>=◌, ◌>>◌}
use bluestaq_takehome.Store.ShareQueries.{
  ListNoteSharesRow, list_note_shares, upsert_note_share, delete_note_share, team_exists,
  user_exists, is_team_member,
}
use bluestaq_takehome.Notes.Load.{load}

pub record Share : Type 0 where
  pub principal_type : String
  pub principal_id : ℕ
  pub principal_name : Text
  pub email : Option Text
  pub role : String
  pub created_at : ℕ

pub record ShareRequest : Type 0 where
  pub principal_type : String
  pub principal_id : ℕ
  pub role : String

abbrev pub share_view : ListNoteSharesRow → Share
share_view s = record {
  principal_type = s.share.principal_type;
  principal_id = s.share.principal_id;
  principal_name = s.principal_name;
  email = s.principal_email;
  role = s.share.role;
  created_at = s.share.created_at;
}

unfoldable pub list_shares : Request → M (Reply (List Share))
list_shares r = do
  (row, role) ← load r Authz.list_shares
  rows ← list_note_shares row.note.id
  pure (write_json 200 (map share_view rows))

-- The checks of `upsertShare` on the request.
unfoldable pub valid_share : ShareRequest → Option Role → Result (Unit {0})
valid_share req none = err (problem (invalid ((say "role", say "must be viewer or editor") ∷ [])))
valid_share req (some role) =
    if not (str_eq req.principal_type "user") && not (str_eq req.principal_type "team")
    then err (problem (invalid ((say "principal_type", say "must be user or team") ∷ [])))
    else if req.principal_id == 0
    then err (problem (invalid ((say "principal_id", say "is required") ∷ [])))
    else ok tt

unfoldable pub not_self : ShareRequest → ℕ → Result (Unit {0})
not_self req owner =
    if str_eq req.principal_type "user" && (req.principal_id == owner)
    then err (problem (errorf 400 (say "you already own this note")))
    else ok tt

unfoldable pub must : String → Bool → Result (Unit {0})
must resource holds = if holds then ok tt else err (problem (not_found resource))

unfoldable pub validate_user : ℕ → M (Unit {0})
validate_user id = do exists ← user_exists id; lift (must "user" exists)

unfoldable pub validate_team : ℕ → ℕ → M (Unit {0})
validate_team id owner = do
  exists ← team_exists id
  lift (must "team" exists)
  member ← is_team_member id owner
  lift (must "team" member)

unfoldable pub validate_principal : ShareRequest → ℕ → M (Unit {0})
validate_principal req owner =
    if str_eq req.principal_type "user"
    then validate_user req.principal_id
    else if str_eq req.principal_type "team"
    then validate_team req.principal_id owner
    else pure tt

unfoldable pub upsert_share : Request → Decoded ShareRequest → M (Reply (List Share))
upsert_share r body = do
  (row, role) ← load r Authz.share
  req ← decode_json body
  lift (valid_share req (parse_grant_role req.role))
  lift (not_self req r.user_id)
  validate_principal req r.user_id
  s ← upsert_note_share row.note.id req.principal_type req.principal_id req.role r.user_id
  pure (write_status 204)

-- The path's principal type is text, compared with the two literals.
unfoldable pub principal_of : String → Option ℕ → Result ℕ
principal_of principal_type parsed =
    if not (str_eq principal_type "user") && not (str_eq principal_type "team")
    then err (problem (not_found "share"))
    else elim parsed [ none ↦ err (problem (not_found "share")) | some id ↦ ok id ]

unfoldable pub some_revoked : ℕ → Result (Unit {0})
some_revoked n = if n == 0 then err (problem (not_found "share")) else ok tt

unfoldable pub revoke_share : Request → M (Reply (List Share))
revoke_share r = do
  (row, role) ← load r Authz.revoke_share
  env ← ask
  id ← lift (principal_of r.principal_type (env.uuid_parse (r.url_param "principalID")))
  n ← delete_note_share row.note.id r.principal_type id
  lift (some_revoked n)
  pure (write_status 204)
