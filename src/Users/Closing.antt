-- ===== src/Users/Closing.antt =====
-- `deleteMe` of internal/users/handler.go, and what is left of the account.
use bluestaq_takehome.Prelude.{
  ℕ, suc, ◌≡◌, refl, true, false, none, List, [], ◌∷◌, find, any, count_if, update_if, drop_if,
  ◌==◌, arith,
}
use bluestaq_takehome.Prelude.Counting.{any-drop_if_within, any→count_if}
use bluestaq_takehome.Authz
use bluestaq_takehome.Httpx.Problems.{errorf, say}
use bluestaq_takehome.Httpx.{
  Request, Reply, problem_json, respond, written, write_problem, classify, write_json, write_status,
}
use bluestaq_takehome.Store.Errors.{is_not_found}
use bluestaq_takehome.Store.Models.{Note}
use bluestaq_takehome.Store.Models
use bluestaq_takehome.Store.World.{
  World, throw, lift, pure, catch, handle, continue, stmt, outcome, landed, kept, query, begun,
  commit, ended, tx, ◌>>=◌, ◌>>◌,
}
use bluestaq_takehome.Store.ShareQueries.{is_live_user}
use bluestaq_takehome.Store.TeamQueries.{one, is_grant_to}
use bluestaq_takehome.Store.UserQueries.{
  closed, get_user, soft_delete_user, delete_user_share_grants,
}
use bluestaq_takehome.Notes.Dto.{from_access}
use bluestaq_takehome.Notes.IfMatch.{set_etag}
use bluestaq_takehome.Notes.Trash.{IsOwned, load_owner}
use bluestaq_takehome.Notes.Handler.{get}
use bluestaq_takehome.Notes.Routes
use bluestaq_takehome.Notes.Routes.{get_call}
use bluestaq_takehome.Users.{Handler, Payload}
use bluestaq_takehome.Users.Endpoints.{me, delete_me, delete_body, some_deleted}
use bluestaq_takehome.Users.Routes.{me_call, delete_me_call, route, serve}

-- The world behind a successful `deleteMe`: begin, two statements and commit.
abbrev pub closed_world : Request → World → World
closed_world r w = record w {
  db = record w.db {
    users = update_if (is_live_user r.user_id) (closed (w.env.now (suc w.calls))) w.db.users;
    note_shares = drop_if (is_grant_to "user" r.user_id) w.db.note_shares;
  };
  calls = suc (suc (suc (suc w.calls)));
}

abbrev pub account_gone_reply : Reply Payload
account_gone_reply = record {
  status = 401;
  etag = none;
  content = problem_json (errorf 401 (say "account no longer exists"));
}

abbrev pub IsCalm : World → Type 0
IsCalm w = (k : ℕ) → w.fault k ≡ none

serve_delete_me :
    (h : Handler) (r : Request) (w : World)
    → IsCalm w
    → any (is_live_user r.user_id) w.db.users ≡ true
    → serve h r delete_me_call w ≡ (write_status 204, closed_world r w)
unfolding serve route delete_me delete_body respond written catch handle tx begun commit ended
    soft_delete_user delete_user_share_grants stmt outcome landed lift some_deleted pure ◌>>=◌ ◌>>◌
    continue
serve_delete_me h r w calm live =
    let rows : (count_if (is_live_user r.user_id) w.db.users == 0) ≡ false =
      ground (arith, any→count_if (is_live_user r.user_id) w.db.users live) in
    rw
      (
        calm w.calls,
        calm (suc w.calls),
        rows,
        calm (suc (suc w.calls)),
        calm (suc (suc (suc w.calls))),
      )
      refl

closed-none :
    (id now : ℕ) (us : List Models.User)
    → find (is_live_user id) (update_if (is_live_user id) (closed now) us) ≡ none
unfolding find update_if
closed-none id now [] = refl
closed-none id now (u ∷ us) = ground (arith, closed-none id now us)

me_closed :
    (h : Handler) (r : Request) (w : World)
    → IsCalm w
    → (serve h r me_call (closed_world r w)).0 ≡ account_gone_reply
unfolding serve route me respond written write_problem classify throw catch handle get_user query
    stmt outcome landed kept one ◌>>=◌ continue is_not_found errorf
me_closed h r w calm =
    rw
      (
        calm (suc (suc (suc (suc w.calls)))),
        closed-none r.user_id (w.env.now (suc w.calls)) w.db.users,
      )
      refl

-- Closing a live account answers 204; from then on `me` answers that the account is gone; no grant
-- names the user any more; and the notes are all still there. No call meets a fault.
pub closing_account :
    (h : Handler) (r : Request) (w : World)
    → IsCalm w
    → any (is_live_user r.user_id) w.db.users ≡ true
    → ((serve h r delete_me_call w).0 ≡ write_status 204)
      × ((serve h r me_call (serve h r delete_me_call w).1).0 ≡ account_gone_reply)
      × (any (is_grant_to "user" r.user_id) (serve h r delete_me_call w).1.db.note_shares ≡ false)
      × ((serve h r delete_me_call w).1.db.notes ≡ w.db.notes)
closing_account h r w calm live = rw (serve_delete_me h r w calm live) (
  refl,
  me_closed h r w calm,
  any-drop_if_within (is_grant_to "user" r.user_id) (is_grant_to "user" r.user_id) (λ s e. e)
      w.db.note_shares,
  refl,
)

serve_get :
    (r : Request) (w : World) (id : ℕ) (n : Note)
    → IsOwned r w id n
    → n.deleted_at ≡ none
    → (Routes.serve r get_call w).0
      ≡ set_etag n.version
          (write_json 200 (from_access (record { note = n; effective_role = 3 }) 3))
unfolding Routes.serve Routes.route get respond written pure ◌>>=◌ continue
serve_get r w id n owned live = rw (load_owner r Authz.read w id n owned (rw live refl)) refl

-- A token outlives the account: after `deleteMe` has answered 204, a request with the same user id
-- still reads the notes that the account owns. No call meets a fault.
pub closed_owner_reads :
    (h : Handler) (r : Request) (w : World) (id : ℕ) (n : Note)
    → IsOwned r w id n
    → n.deleted_at ≡ none
    → any (is_live_user r.user_id) w.db.users ≡ true
    → ((serve h r delete_me_call w).0 ≡ write_status 204)
      × ((Routes.serve r get_call (serve h r delete_me_call w).1).0
          ≡ set_etag n.version
              (write_json 200 (from_access (record { note = n; effective_role = 3 }) 3)))
closed_owner_reads h r w id n (e, there, own, calm) gone live =
    rw (serve_delete_me h r w calm live)
      (refl, serve_get r (closed_world r w) id n (e, there, own, calm) gone)
