-- ===== src/Notes/Load.antt =====
-- `load` of internal/notes/handler.go: the note that the URL names, and the caller's role on it.
use bluestaq_takehome.Prelude.{Bool, not, ◌&&◌, if◌then◌else◌}
use bluestaq_takehome.Authz.{Role, Action, read, restore, can, action_string}
use bluestaq_takehome.Httpx.Problems.{Err, problem, not_found, forbidden}
use bluestaq_takehome.Httpx.{Request}
use bluestaq_takehome.Store.Errors.{is_not_found}
use bluestaq_takehome.Store.Models.{NoteWithAccess}
use bluestaq_takehome.Store.World.{M, pure, throw, ask, or_throw, catch, ◌>>=◌}
use bluestaq_takehome.Store.NoteQueries.{get_note_with_access, is_set}

-- action != ActionRestore.
unfoldable pub is_restore : Action → Bool
is_restore restore = Bool.true
is_restore _ = Bool.false

abbrev pub hide_note : Err → Err
hide_note e = if is_not_found e then problem (not_found "note") else e

-- The three checks on the row.
unfoldable pub enforce : Action → NoteWithAccess → M (NoteWithAccess × Role)
enforce action row =
    if not (can row.effective_role read)
    then throw (problem (not_found "note"))
    else if is_set row.note.deleted_at && not (is_restore action)
    then throw (problem (not_found "note"))
    else if not (can row.effective_role action)
    then throw (problem (forbidden (action_string action)))
    else pure (row, row.effective_role)

unfoldable pub load : Request → Action → M (NoteWithAccess × Role)
load r action = do
  env ← ask
  note_id ← or_throw (problem (not_found "note")) (env.uuid_parse (r.url_param "id"))
  row ← catch (get_note_with_access r.user_id note_id) (λ e. throw (hide_note e))
  enforce action row
