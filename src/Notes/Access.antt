-- ===== src/Notes/Access.antt =====
-- Who may reach a note: `load` in front of every endpoint that names one.
use bluestaq_takehome.Prelude.{
  ℕ, ◌≡◌, refl, ◌∙◌, true, false, not, ◌&&◌, ◌⊎◌, inl, inr, Option, none, some, arith, ◌==◌, find,
}
use bluestaq_takehome.Authz.{Action, can, action_string}
use bluestaq_takehome.Httpx.Problems.{Err, err, problem, not_found, forbidden, errorf}
use bluestaq_takehome.Httpx.{Request, Reply, problem_json, write_problem, classify}
use bluestaq_takehome.Store.Models.{Note}
use bluestaq_takehome.Store.World.{World, ask, or_throw, throw, continue, ◌>>=◌}
use bluestaq_takehome.Store.NoteQueries.{is_note, is_set, effective_role}
use bluestaq_takehome.Notes.Load.{load, is_restore}
use bluestaq_takehome.Notes.Visibility.{verdict, load-verdict}
use bluestaq_takehome.Notes.Handler.{get, update, delete}
use bluestaq_takehome.Notes.Handler
use bluestaq_takehome.Notes.Shares.{list_shares, upsert_share, revoke_share}
use bluestaq_takehome.Notes.Routes.{
  Call, get_call, delete_call, restore_call, list_shares_call, revoke_share_call, update_call,
  upsert_share_call, action_of, route, serve,
}
use bluestaq_takehome.Httpx.Failures.{respond-bind_err}

abbrev pub no_note : {A : Type 0} → Reply A
no_note = record { status = 404; etag = none; content = problem_json (not_found "note") }

abbrev pub may_not : {A : Type 0} → Action → Reply A
may_not action = record {
  status = 403;
  etag = none;
  content = problem_json (forbidden (action_string action));
}

-- The id of the URL, and what the table holds under it; the first call meets no fault.
abbrev pub IsNamed : Request → World → Option Note → Type 0
IsNamed r w o =
    (id : ℕ) × (w.env.uuid_parse (r.url_param "id") ≡ some id)
    × (find (is_note id) w.db.notes ≡ o)
    × (w.fault w.calls ≡ none)

-- The note is not the caller's to see: there is none, or no grant and no ownership reaches it, or
-- it is deleted and the endpoint is not the one that restores it.
abbrev pub IsHidden : Request → Action → World → Type 0
IsHidden r action w =
    (w.env.uuid_parse (r.url_param "id") ≡ none)
    ⊎ (IsNamed r w none
        ⊎ ((n : Note) × IsNamed r w (some n)
            × ((effective_role w.db r.user_id n ≡ 0)
                ⊎ ((is_set n.deleted_at ≡ true) × (is_restore action ≡ false)))))

verdict-deleted :
    (r : Request) (action : Action) (w : World) (n : Note)
    → is_set n.deleted_at ≡ true
    → is_restore action ≡ false
    → verdict w.db r.user_id action (some n) ≡ err (problem (not_found "note"))
verdict-deleted r action w n gone other = ground arith

pub load_hidden :
    (r : Request) (action : Action) (w : World)
    → IsHidden r action w
    → (load r action w).0 ≡ err (problem (not_found "note"))
unfolding load ask or_throw throw ◌>>=◌ continue
load_hidden r action w (inl bad) = rw bad refl
load_hidden r action w (inr (inl (id, e, there, calm))) =
    rw (load-verdict r action w id e calm, there) refl
load_hidden r action w (inr (inr (n, (id, e, there, calm), inl h))) =
    rw (load-verdict r action w id e calm, there, h) refl
load_hidden r action w (inr (inr (n, (id, e, there, calm), inr (gone, other)))) =
    rw (load-verdict r action w id e calm, there) (verdict-deleted r action w n gone other)

-- The caller sees the note, and the role does not allow the action.
abbrev pub IsBarred : Request → Action → World → Type 0
IsBarred r action w =
    (n : Note) × IsNamed r w (some n)
    × ((effective_role w.db r.user_id n == 0) ≡ false)
    × ((is_set n.deleted_at && not (is_restore action)) ≡ false)
    × (can (effective_role w.db r.user_id n) action ≡ false)

pub load_barred :
    (r : Request) (action : Action) (w : World)
    → IsBarred r action w
    → (load r action w).0 ≡ err (problem (forbidden (action_string action)))
load_barred r action w (n, (id, e, there, calm), some_role, live, refused) =
    rw (load-verdict r action w id e calm, there, some_role, live, refused) refl

pub write_problem-no_note :
    {A : Type 0} (r : Request) → write_problem {A = A} r (problem (not_found "note")) ≡ no_note
unfolding write_problem classify not_found errorf
write_problem-no_note r = refl

pub write_problem-may_not :
    {A : Type 0} (r : Request) (action : Action)
    → write_problem {A = A} r (problem (forbidden (action_string action))) ≡ may_not action
unfolding write_problem classify forbidden errorf
write_problem-may_not r action = refl

-- Every endpoint starts with `load`, and fails as it does.
serve-load :
    (r : Request) (c : Call) (w : World) (e : Err)
    → (load r (action_of c) w).0 ≡ err e
    → (serve r c w).0 ≡ write_problem r e
unfolding serve route get update delete Handler.restore list_shares upsert_share revoke_share
serve-load r get_call w e h = respond-bind_err (load r _) _ r w e h
serve-load r delete_call w e h = respond-bind_err (load r _) _ r w e h
serve-load r restore_call w e h = respond-bind_err (load r _) _ r w e h
serve-load r list_shares_call w e h = respond-bind_err (load r _) _ r w e h
serve-load r revoke_share_call w e h = respond-bind_err (load r _) _ r w e h
serve-load r (update_call b) w e h = respond-bind_err (load r _) _ r w e h
serve-load r (upsert_share_call b) w e h = respond-bind_err (load r _) _ r w e h

-- Every endpoint of a note answers one and the same 404 where the URL holds no id, where no note
-- has the id, where the note exists and neither ownership nor a grant gives the caller a role on
-- it, and where the note is deleted, unless the endpoint is `restore`. The read meets no fault.
pub serve_hidden :
    (r : Request) (c : Call) (w : World) → IsHidden r (action_of c) w → (serve r c w).0 ≡ no_note
serve_hidden r c w h =
    serve-load r c w _ (load_hidden r (action_of c) w h) ∙ write_problem-no_note r

-- Where the caller has a role on the note and sees it, and the role does not allow the action of
-- the endpoint, the reply is a 403 that names the action. The read meets no fault.
pub serve_barred :
    (r : Request) (c : Call) (w : World)
    → IsBarred r (action_of c) w
    → (serve r c w).0 ≡ may_not (action_of c)
serve_barred r c w h =
    serve-load r c w _ (load_barred r (action_of c) w h) ∙ write_problem-may_not r (action_of c)
