-- ===== src/Notes/Routes.antt =====
-- `Routes` of internal/notes/handler.go: the endpoints of one note and of its shares, each with its
-- decoded body.
use bluestaq_takehome.Prelude.{List}
use bluestaq_takehome.Authz.{Action}
use bluestaq_takehome.Authz
use bluestaq_takehome.Httpx.{Request, Reply, Decoded, respond}
use bluestaq_takehome.Store.World.{World, M}
use bluestaq_takehome.Notes.Dto.{Note}
use bluestaq_takehome.Notes.Handler.{
  CreateRequest, UpdateRequest, create, get, update, delete, restore,
}
use bluestaq_takehome.Notes.Shares.{Share, ShareRequest, list_shares, upsert_share, revoke_share}

-- The endpoints whose URL names a note.
pub data Call : Type 0 where
  get_call delete_call restore_call list_shares_call revoke_share_call : Call
  update_call : Decoded UpdateRequest → Call
  upsert_share_call : Decoded ShareRequest → Call

-- What the reply to an endpoint carries.
abbrev pub Body : Call → Type 0
Body list_shares_call = List Share
Body revoke_share_call = List Share
Body (upsert_share_call b) = List Share
Body _ = Note

-- The action that each endpoint asks `load` for.
abbrev pub action_of : Call → Action
action_of get_call = Authz.read
action_of delete_call = Authz.delete
action_of restore_call = Authz.restore
action_of list_shares_call = Authz.list_shares
action_of revoke_share_call = Authz.revoke_share
action_of (update_call b) = Authz.update
action_of (upsert_share_call b) = Authz.share

unfoldable pub route : Request → (c : Call) → M (Reply (Body c))
route r get_call = get r
route r delete_call = delete r
route r restore_call = restore r
route r list_shares_call = list_shares r
route r revoke_share_call = revoke_share r
route r (update_call b) = update r b
route r (upsert_share_call b) = upsert_share r b

unfoldable pub serve : Request → (c : Call) → World → Reply (Body c) × World
serve r c = respond r (route r c)

-- `POST /notes` names no note.
unfoldable pub serve_create : Request → Decoded CreateRequest → World → Reply Note × World
serve_create r b = respond r (create r b)
