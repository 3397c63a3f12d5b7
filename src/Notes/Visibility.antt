-- ===== src/Notes/Visibility.antt =====
-- What `load` of internal/notes/handler.go lets a caller see.
use bluestaq_takehome.Prelude.{
  ℕ, suc, ◌≡◌, refl, not, ◌&&◌, Option, none, some, arith, ◌==◌, if◌then◌else◌, find,
}
use bluestaq_takehome.Authz.{Role, Action, read, can, minimum_role, permits, action_string}
use bluestaq_takehome.Httpx.Problems.{Result, ok, err, problem, not_found, forbidden}
use bluestaq_takehome.Httpx.{Request}
use bluestaq_takehome.Store.Errors.{is_not_found}
use bluestaq_takehome.Store.Models.{Db, Note, NoteWithAccess}
use bluestaq_takehome.Store.World.{
  World, pure, throw, ask, or_throw, catch, handle, continue, outcome, landed, kept, stmt, query,
  ◌>>=◌,
}
use bluestaq_takehome.Store.NoteQueries.{
  is_note, is_set, get_note_with_access, with_access, effective_role,
}
use bluestaq_takehome.Notes.Load.{load, enforce, hide_note, is_restore}

abbrev pub step_call : World → World
step_call w = record w { calls = suc w.calls }

-- What `load` answers, said without the code: by the note that the id names, if any.
abbrev pub verdict : Db → ℕ → Action → Option Note → Result (NoteWithAccess × Role)
verdict d user action none = err (problem (not_found "note"))
verdict d user action (some n) =
    let role = effective_role d user n in
    if role == 0
    then err (problem (not_found "note"))
    else if is_set n.deleted_at && not (is_restore action)
    then err (problem (not_found "note"))
    else if can role action
    then ok (record { note = n; effective_role = role }, role)
    else err (problem (forbidden (action_string action)))

-- A role may read exactly if it is not `RoleNone`.
can-read : (role : ℕ) → can role read ≡ not (role == 0)
unfolding can minimum_role permits
can-read role = ground arith

enforce-verdict :
    (d : Db) (user : ℕ) (action : Action) (w : World) (o : Option Note)
    → continue
        (handle (landed (kept w.db (with_access d user o)) w) (λ e. throw (hide_note e)))
        (enforce action)
      ≡ (verdict d user action o, step_call w)
unfolding enforce landed kept with_access handle pure throw continue is_not_found
enforce-verdict d user action w none = refl
enforce-verdict d user action w (some n) = rw (can-read (effective_role d user n)) (ground arith)

-- Without a fault `load` is one read, and its answer is the verdict on the note that is there.
pub load-verdict :
    (r : Request) (action : Action) (w : World) (id : ℕ)
    → w.env.uuid_parse (r.url_param "id") ≡ some id
    → w.fault w.calls ≡ none
    → load r action w ≡ (verdict w.db r.user_id action (find (is_note id) w.db.notes), step_call w)
unfolding load get_note_with_access query stmt outcome ask or_throw catch pure ◌>>=◌ continue
load-verdict r action w id e calm =
    rw (e, calm) (enforce-verdict w.db r.user_id action w (find (is_note id) w.db.notes))
