-- ===== src/Notes/Versions.antt =====
-- Optimistic concurrency: `update` of internal/notes/handler.go, with `UpdateNote`.
use mathlib.Core.Path.{subst}
use bluestaq_takehome.Prelude.{
  ℕ, ◌+◌, ◌≡◌, refl, sym, ◌∙◌, ap, true, false, Bool-cases, inl, inr, Option, none, some, List, [],
  ◌∷◌, find, update_if, ltb, arith,
}
use bluestaq_takehome.Prelude.Counting.{find-some}
use bluestaq_takehome.Httpx.Problems.{Result, ok, err}
use bluestaq_takehome.Httpx.{Request, Reply, Decoded}
use bluestaq_takehome.Store.Models.{Db, NoteWithAccess}
use bluestaq_takehome.Store.Models
use bluestaq_takehome.Store.World.{World}
use bluestaq_takehome.Store.Hoare.{Post, Lands, Hoare, Hoare-lands}
use bluestaq_takehome.Store.NoteQueries.{
  is_target, title_fits, change_note, edited, UpdateNoteParams, update_note, version_limit,
}
use bluestaq_takehome.Notes.Dto.{Note}
use bluestaq_takehome.Notes.IfMatch.{etag_text, set_etag, if_match_version}
use bluestaq_takehome.Notes.Handler.{UpdateRequest, update}
use bluestaq_takehome.Notes.Updating.{Same, Hoare-weaken, Steps, update-Post, succeeds}

-- A change of a note that `update` may make: a new version, and neither a new owner nor a deletion.
abbrev pub IsEdit : (Models.Note → Models.Note) → Type 0
IsEdit f =
    (n : Models.Note)
    → ((f n).id ≡ n.id)
      × ((f n).version ≡ n.version + 1)
      × ((f n).owner_user_id ≡ n.owner_user_id)
      × ((f n).deleted_at ≡ n.deleted_at)
      × ((f n).created_at ≡ n.created_at)

-- The note was live and at version `v`, and only the rows of which that holds are changed.
abbrev pub IsUpdated : Db → ℕ → ℕ → Db → Type 0
IsUpdated before id v after =
    (n : Models.Note) × (find (is_target id v) before.notes ≡ some n)
    × (f : Models.Note → Models.Note) × IsEdit f
    × (after ≡ record before { notes = update_if (is_target id v) f before.notes })

edited-IsEdit : (arg : UpdateNoteParams) (now : ℕ) → IsEdit (edited arg now)
unfolding edited
edited-IsEdit arg now = λ n. (refl, refl, refl, refl, refl)

module _ (before : Db) (id v : ℕ) where
  target-version : (n : Models.Note) → find (is_target id v) before.notes ≡ some n → n.version ≡ v
  target-version n e = ground (arith, find-some (is_target id v) before.notes n e)

  abbrev Anywhere : Db → Type 0
  Anywhere d = Unit

  abbrev Updated : Models.Note → Db → Type 0
  Updated n d = (n.version ≡ v + 1) × IsUpdated before id v d

  change_note-Updated :
      (f : Models.Note → Models.Note) (o : Option Models.Note)
      → IsEdit f
      → find (is_target id v) before.notes ≡ o
      → Lands Updated (change_note (is_target id v) f before o)
  unfolding change_note
  change_note-Updated f none edit e = tt
  change_note-Updated f (some n) edit e =
      let stepped : (f n).version ≡ v + 1 = (edit n).1 ∙ ap (λ k. k + 1) (target-version n e) in
      let landed_note : Updated (f n)
          (record before { notes = update_if (is_target id v) f before.notes }) =
        (stepped, (n, e, f, edit, refl)) in
      elim (Bool-cases (title_fits (f n).title)) [
        | inl fits ↦ elim (Bool-cases (ltb (f n).version version_limit)) [
          | inl low ↦ rw (fits, low) landed_note
          | inr high ↦ rw (fits, high) tt
        ]
        | inr bad ↦ rw bad tt
      ]

  update_note-Updated :
      (arg : UpdateNoteParams)
      → arg.id ≡ id
      → arg.expected_version ≡ v
      → Hoare (Same before id) (update_note arg) Updated Anywhere
  unfolding update_note
  update_note-Updated arg i j =
      rw (i, j)
        (Hoare-lands _
          (λ w s. rw s (
            change_note-Updated
              (edited (record arg { id = id; expected_version = v }) (w.env.now w.calls)) _
              (edited-IsEdit _ _) refl))
          (λ d p. tt) (λ n d u. tt))

  -- With no note at that version, the statement returns no row.
  update_note-none :
      (arg : UpdateNoteParams)
      → find (is_target id v) before.notes ≡ none
      → arg.id ≡ id
      → arg.expected_version ≡ v
      → Hoare (Same before id) (update_note arg) (λ n d. ⊥) (Same before id)
  unfolding update_note change_note
  update_note-none arg gone i j =
      rw (i, j) (Hoare-lands _ (λ w s. rw (s, gone) tt) (λ d p. p) (λ n d u. absurd u))

  -- Where every note at the version is changed by an edit, none is left at it.
  updated-none :
      (f : Models.Note → Models.Note)
      → IsEdit f
      → (ns : List Models.Note) → find (is_target id v) (update_if (is_target id v) f ns) ≡ none
  unfolding find update_if
  updated-none f edit [] = refl
  updated-none f edit (n ∷ ns) = ground (arith, (edit n).1, updated-none f edit ns)

  IsUpdated-none :
      (after : Db) → IsUpdated before id v after → find (is_target id v) after.notes ≡ none
  IsUpdated-none after (n, there, f, edit, e) =
      subst (λ d. find (is_target id v) d.notes ≡ none) (sym e) (updated-none f edit before.notes)

-- The request names the note `id` in its URL, and carries `v` in its If-Match header.
abbrev pub IsAimed : Request → World → ℕ → ℕ → Type 0
IsAimed r w id v =
    (w.env.uuid_parse (r.url_param "id") ≡ some id) × (if_match_version r.if_match ≡ ok v)

abbrev Replied : ℕ → ℕ → Db → Reply Note → Db → Type 0
Replied id v before reply after =
    (reply.etag ≡ some (etag_text (v + 1))) × IsUpdated before id v after

Replied-steps :
    (before : Db) (id v : ℕ) → Steps (Replied id v before) (Anywhere before id v) before id v
unfolding set_etag
Replied-steps before id v arg role i j =
    Hoare-weaken (update_note-Updated before id v arg i j)
      (λ n d u. (ap (λ k. some (etag_text k)) u.0, u.1))

update-Replied :
    (r : Request) (body : Decoded UpdateRequest) (w : World) (id v : ℕ)
    → IsAimed r w id v
    → Post (Replied id v w.db) (Anywhere w.db id v) (update r body w)
update-Replied r body w id v (e, match) =
    update-Post (Replied id v w.db) (Anywhere w.db id v) w.db id v r body w refl e match (λ d p. tt)
      (Replied-steps w.db id v)

-- An update that succeeds with the If-Match version `v` found the note at version `v` and not
-- deleted; its entity tag is that of `v + 1`; and it changed no row but that note's, which keeps
-- its id, its owner, its time of creation and moves on to `v + 1`.
pub update-IsUpdated :
    (r : Request) (body : Decoded UpdateRequest) (w w' : World) (id v : ℕ) (reply : Reply Note)
    → IsAimed r w id v
    → update r body w ≡ (ok reply, w')
    → (reply.etag ≡ some (etag_text (v + 1))) × IsUpdated w.db id v w'.db
update-IsUpdated r body w w' id v reply aim e =
    subst (Post (Replied id v w.db) (Anywhere w.db id v)) e (update-Replied r body w id v aim)

-- A database in which no note `id` is live at version `v` refuses the update and stays as it is.
Fails : {A : Type 0} → Db → Result A × World → Type 0
Fails before x = (succeeds x ≡ false) × (x.1.db ≡ before)

Fails-of_Post :
    (before : Db) (id : ℕ) (x : Result (Reply Note) × World)
    → Post (λ _ _. ⊥) (Same before id) x
    → Fails before x
unfolding Fails
Fails-of_Post before id (ok a, w) p = absurd p
Fails-of_Post before id (err e, w) p = (refl, p)

update_stale :
    (r : Request) (body : Decoded UpdateRequest) (w : World) (id v : ℕ)
    → IsAimed r w id v
    → find (is_target id v) w.db.notes ≡ none
    → Fails w.db (update r body w)
update_stale r body w id v (e, match) gone = Fails-of_Post w.db id _ (
    update-Post (λ _ _. ⊥) (Same w.db id) w.db id v r body w refl e match (λ d p. p)
      (λ arg role i j. update_note-none w.db id v arg gone i j))

none-of_success :
    (before : Db) (id v : ℕ) (x : Result (Reply Note) × World)
    → Post (Replied id v before) (Anywhere before id v) x
    → succeeds x ≡ true
    → find (is_target id v) x.1.db.notes ≡ none
none-of_success before id v (ok reply, w) p h = IsUpdated-none before id v w.db p.1
none-of_success before id v (err e, w) p h = cc

-- The first writer wins. Two updates of a note carry the same version in If-Match, from whatever
-- callers and with whatever bodies; once one has succeeded, the other one fails on the database
-- that the first left, and changes nothing there.
pub first_writer_wins :
    (r r' : Request) (body body' : Decoded UpdateRequest) (w w' : World) (id v : ℕ)
    → IsAimed r w id v
    → IsAimed r' w' id v
    → succeeds (update r body w) ≡ true
    → w'.db ≡ (update r body w).1.db
    → (succeeds (update r' body' w') ≡ false) × ((update r' body' w').1.db ≡ w'.db)
unfolding Fails
first_writer_wins r r' body body' w w' id v aim aim' first e =
    update_stale r' body' w' id v aim'
      (rw e (none-of_success w.db id v (update r body w) (update-Replied r body w id v aim) first))
