-- ===== src/Examples/GrantCases.antt =====
-- The theorem on grants at a concrete input.
use bluestaq_takehome.Prelude.{◌≡◌, refl, false, none, some, [], ◌∷◌, find, any}
use bluestaq_takehome.Authz
use bluestaq_takehome.Authz.{parse_grant_role, can, update, delete, minimum_role, permits}
use bluestaq_takehome.Httpx.Problems.{ok}
use bluestaq_takehome.Httpx.{value, write_status, decode_json}
use bluestaq_takehome.Store.World.{
  query, kept, World, continue, ◌>>=◌, ◌>>◌, lift, pure, stmt, outcome, landed,
}
use bluestaq_takehome.Store.NoteQueries.{is_note}
use bluestaq_takehome.Store.ShareQueries.{
  share_fits, user_exists, upsert_note_share, upsert_share_row, place_share,
}
use bluestaq_takehome.Notes.Shares.{
  ShareRequest, upsert_share, valid_share, not_self, validate_principal, validate_user, must,
}
use bluestaq_takehome.Notes.Granting.{Shared, upsert_share-Shared}
use bluestaq_takehome.Notes.Trash.{load_owner}
use bluestaq_takehome.Notes.Load.{load}
use bluestaq_takehome.Examples.Data.{share, world, db, request, note}

first_note : find (is_note 10) db.notes ≡ some (note 10 none)
unfolding find
first_note = refl

abbrev sharing : ShareRequest
sharing = record { principal_type = "user"; principal_id = 3; role = "editor" }

abbrev shared_world : World
shared_world = record world {
  db = record db {
    note_shares =
        share
        ∷ record {
          note_id = 10;
          principal_type = "user";
          principal_id = 3;
          role = "editor";
          granted_by = 1;
          created_at = 102;
        }
        ∷ [];
  };
  calls = 3;
}

owner_shares :
    load (request 1 10 []) Authz.share world
    ≡ (ok (record { note = note 10 none; effective_role = 3 }, 3), record world { calls = 1 })
owner_shares =
    load_owner (request 1 10 []) Authz.share world 10 (note 10 none)
      (refl, first_note, refl, λ k. refl) refl

share_done :
    upsert_share (request 1 10 []) (value sharing false) world
    ≡ (ok (write_status 204), shared_world)
unfolding upsert_share ◌>>=◌ ◌>>◌ continue lift pure decode_json valid_share not_self
    validate_principal validate_user must user_exists upsert_note_share upsert_share_row place_share
    share_fits query stmt outcome landed kept find any parse_grant_role
share_done = rw owner_shares refl

upsert_share-Shared_example : Shared (request 1 10 []) sharing 10 db shared_world.db
upsert_share-Shared_example =
    upsert_share-Shared (request 1 10 []) sharing world shared_world 10 (write_status 204) refl
      share_done
