-- ===== src/Notes/Aimed.antt =====
-- `load` and `loadAttachment` (internal/notes) where the URL names a note and one of its attachments.
use bluestaq_takehome.Prelude.{
  ℕ, suc, ◌≡◌, refl, true, false, not, ◌&&◌, Bool-cases, inl, inr, none, some, find, ◌==◌, arith,
}
use bluestaq_takehome.Authz.{Action, can}
use bluestaq_takehome.Httpx.Problems.{ok}
use bluestaq_takehome.Httpx.{Request}
use bluestaq_takehome.Store.Models.{Note, Attachment}
use bluestaq_takehome.Store.World.{
  World, ask, or_throw, pure, catch, handle, continue, outcome, landed, kept, stmt, query, ◌>>=◌,
}
use bluestaq_takehome.Store.TeamQueries.{one}
use bluestaq_takehome.Store.NoteQueries.{is_note, is_set, effective_role}
use bluestaq_takehome.Store.AttachmentQueries.{is_attachment_on, get_attachment}
use bluestaq_takehome.Notes.Load.{load, is_restore}
use bluestaq_takehome.Notes.Roles.{can-none}
use bluestaq_takehome.Notes.Visibility.{step_call, load-verdict}
use bluestaq_takehome.Notes.Attachments.{load_attachment}

-- The URL names the note `n` and its attachment `a`, the note is not deleted, the caller's role allows
-- the action, and no call of the request meets a fault.
abbrev pub IsAimed : Request → Action → World → Note → Attachment → Type 0
IsAimed r action w n a =
    (w.env.uuid_parse (r.url_param "id") ≡ some n.id)
    × (w.env.uuid_parse (r.url_param "attachmentID") ≡ some a.id)
    × (find (is_note n.id) w.db.notes ≡ some n)
    × (find (is_attachment_on a.id n.id) w.db.attachments ≡ some a)
    × (is_set n.deleted_at ≡ false)
    × (can (effective_role w.db r.user_id n) action ≡ true)
    × ((k : ℕ) → w.fault k ≡ none)

some_role : (role : ℕ) (action : Action) → can role action ≡ true → (role == 0) ≡ false
some_role role action h = elim (Bool-cases (role == 0)) [
  | inl e ↦
      let zero_role : role ≡ 0 = ground arith in ground (arith, rw zero_role at h, can-none action)
  | inr e ↦ e
]

module _ (r : Request) (action : Action) (w : World) (n : Note) (a : Attachment) where
  pub load-aimed :
      IsAimed r action w n a
      → load r action w ≡ (
        ok (
          record { note = n; effective_role = effective_role w.db r.user_id n },
          effective_role w.db r.user_id n,
        ),
        step_call w,
      )
  load-aimed (named, aimed, note, there, live, allowed, calm) =
      let shown : (is_set n.deleted_at && not (is_restore action)) ≡ false = ground arith in
      rw
        (
          load-verdict r action w n.id named (calm w.calls),
          note,
          some_role (effective_role w.db r.user_id n) action allowed,
          shown,
          allowed,
        )
        refl

  pub load_attachment-aimed :
      IsAimed r action w n a
      → load_attachment r n.id (step_call w) ≡ (ok a, step_call (step_call w))
  unfolding load_attachment get_attachment query stmt outcome landed kept one ask or_throw catch
      handle pure ◌>>=◌ continue
  load_attachment-aimed (named, aimed, note, there, live, allowed, calm) =
      rw (aimed, calm (suc w.calls), there) refl
