-- ===== src/Notes/Trash.antt =====
-- Soft deletion: `delete` and `restore` of internal/notes/handler.go.
use bluestaq_takehome.Prelude.{
  ℕ, suc, ◌+◌, ◌<◌, ◌≡◌, refl, ◌∙◌, ap, Bool, true, false, not, ◌&&◌, Option, none, some, List, [],
  ◌∷◌, find, count_if, update_if, ltb, ◌==◌, if◌then◌else◌, arith,
}
use bluestaq_takehome.Prelude.Counting.{find-some}
use bluestaq_takehome.Authz.{Role, Action, can}
use bluestaq_takehome.Authz
use bluestaq_takehome.Httpx.Problems.{ok}
use bluestaq_takehome.Httpx.{Request, Reply, write_json, write_status, respond, written}
use bluestaq_takehome.Store.Models.{Db, Note}
use bluestaq_takehome.Store.World.{World, pure, lift, continue, outcome, landed, stmt, ◌>>=◌, ◌>>◌}
use bluestaq_takehome.Store.NoteQueries.{
  is_note, is_set, is_live, is_deleted, title_fits, change_note, rows_changed, soft_deleted,
  restored, soft_delete_note, restore_note, effective_role, version_limit,
}
use bluestaq_takehome.Notes.Dto.{from_restore}
use bluestaq_takehome.Notes.IfMatch.{set_etag}
use bluestaq_takehome.Notes.Load.{load, is_restore}
use bluestaq_takehome.Notes.Roles.{can-owner}
use bluestaq_takehome.Notes.Visibility.{verdict, step_call, load-verdict}
use bluestaq_takehome.Notes.Handler.{delete, only_deleted}
use bluestaq_takehome.Notes.Handler
use bluestaq_takehome.Notes.Routes.{Body, delete_call, restore_call, route, serve}

module _ (id : ℕ) where
  find-live :
      (ns : List Note) (n : Note)
      → find (is_note id) ns ≡ some n
      → is_set n.deleted_at ≡ false
      → find (is_live id) ns ≡ some n
  unfolding find
  find-live [] n e live = cc
  find-live (m ∷ ns) n e live = ground (arith, find-live ns n)

  find-deleted :
      (ns : List Note) (n : Note)
      → find (is_note id) ns ≡ some n
      → is_set n.deleted_at ≡ true
      → find (is_deleted id) ns ≡ some n
  unfolding find
  find-deleted [] n e gone = cc
  find-deleted (m ∷ ns) n e gone = ground (arith, find-deleted ns n)

  pub find-update_if :
      (test : Note → Bool) (f : Note → Note)
      → ((n : Note) → (f n).id ≡ n.id)
      → (ns : List Note) (n : Note) → find (is_note id) ns ≡ some n
      → test n ≡ true
      → find (is_note id) (update_if test f ns) ≡ some (f n)
  unfolding find update_if
  find-update_if test f keeps [] n e t = cc
  find-update_if test f keeps (m ∷ ns) n e t =
      ground (arith, keeps m, find-update_if test f keeps ns n)

-- The caller owns the note that the URL names, and no call of the request meets a fault.
abbrev pub IsOwned : Request → World → ℕ → Note → Type 0
IsOwned r w id n =
    (w.env.uuid_parse (r.url_param "id") ≡ some id)
    × (find (is_note id) w.db.notes ≡ some n)
    × (n.owner_user_id ≡ r.user_id)
    × ((k : ℕ) → w.fault k ≡ none)

owner-verdict :
    (d : Db) (user : ℕ) (action : Action) (n : Note)
    → n.owner_user_id ≡ user
    → (is_set n.deleted_at && not (is_restore action)) ≡ false
    → verdict d user action (some n) ≡ ok (record { note = n; effective_role = 3 }, 3)
unfolding effective_role
owner-verdict d user action n own shown =
    let e : (n.owner_user_id == user) ≡ true = ground arith in rw (e, shown, can-owner action) refl

pub load_owner :
    (r : Request) (action : Action) (w : World) (id : ℕ) (n : Note)
    → IsOwned r w id n
    → (is_set n.deleted_at && not (is_restore action)) ≡ false
    → load r action w ≡ (ok (record { note = n; effective_role = 3 }, 3), step_call w)
load_owner r action w id n (e, there, own, calm) shown =
    rw
      (
        load-verdict r action w id e (calm w.calls),
        there,
        owner-verdict w.db r.user_id action n own shown,
      )
      refl

-- The world after one more call, which wrote the notes `ns`.
abbrev pub wrote : World → List Note → World
wrote w ns = record w { db = record w.db { notes = ns }; calls = suc w.calls }

soft_delete_note-live :
    (w : World) (id : ℕ) (n : Note)
    → w.fault w.calls ≡ none
    → find (is_live id) w.db.notes ≡ some n
    → title_fits n.title ≡ true
    → n.version + 1 < version_limit
    → soft_delete_note id w ≡ (
      ok (count_if (is_live id) w.db.notes),
      wrote w (update_if (is_live id) (soft_deleted (w.env.now w.calls)) w.db.notes),
    )
unfolding soft_delete_note stmt outcome landed rows_changed change_note soft_deleted
soft_delete_note-live w id n calm there fits low =
    let small : ltb (n.version + 1) version_limit ≡ true = ground arith in
    rw (calm, there, fits, small) refl

restore_note-deleted :
    (w : World) (id : ℕ) (n : Note)
    → w.fault w.calls ≡ none
    → find (is_deleted id) w.db.notes ≡ some n
    → title_fits n.title ≡ true
    → n.version + 1 < version_limit
    → restore_note id w ≡ (
      ok (restored (w.env.now w.calls) n),
      wrote w (update_if (is_deleted id) (restored (w.env.now w.calls)) w.db.notes),
    )
unfolding restore_note stmt outcome landed change_note restored
restore_note-deleted w id n calm there fits low =
    let small : ltb (n.version + 1) version_limit ≡ true = ground arith in
    rw (calm, there, fits, small) refl

-- What Postgres demands of a row that it writes: a title that fits, a version of 32 bits.
abbrev pub IsWritable : Note → ℕ → Type 0
IsWritable n changes = (title_fits n.title ≡ true) × (n.version + changes < version_limit)

abbrev pub trashed : World → ℕ → World
trashed w id =
    wrote (step_call w) (update_if (is_live id) (soft_deleted (w.env.now (suc w.calls))) w.db.notes)

same_reply :
    (r : Request) (b : Bool) (w : World)
    → written {A = Body delete_call} r
        ((if b then pure (write_status 204) else pure (write_status 204)) w)
      ≡ (write_status 204, w)
unfolding pure written
same_reply r true w = refl
same_reply r false w = refl

pub found-id : (id : ℕ) (ns : List Note) (n : Note) → find (is_note id) ns ≡ some n → n.id ≡ id
found-id id ns n e = ground (arith, find-some (is_note id) ns n e)

pub serve_delete :
    (r : Request) (w : World) (id : ℕ) (n : Note)
    → IsOwned r w id n
    → is_set n.deleted_at ≡ false
    → IsWritable n 1
    → serve r delete_call w ≡ (write_status 204, trashed w id)
unfolding serve respond route delete ◌>>=◌ continue
serve_delete r w id n (e, there, own, calm) live (fits, low) =
    let shown : (is_set n.deleted_at && not (is_restore Authz.delete)) ≡ false = ground arith in
    rw
      (
        load_owner r Authz.delete w id n (e, there, own, calm) shown,
        ap (λ i. soft_delete_note i (step_call w)) (found-id id w.db.notes n there)
            ∙ soft_delete_note-live (step_call w) id n (calm (suc w.calls))
                (find-live id w.db.notes n there live) fits low,
      )
      (same_reply r _ _)

abbrev pub back : World → ℕ → World
back w id =
    wrote (step_call w) (update_if (is_deleted id) (restored (w.env.now (suc w.calls))) w.db.notes)

-- The reply of `restore` with the row that the statement returns.
abbrev pub restored_reply : Note → Reply (Body restore_call)
restored_reply n = set_etag n.version (write_json 200 (from_restore n 3))

only_deleted-set : (o : Option ℕ) → is_set o ≡ true → only_deleted o ≡ ok tt
unfolding only_deleted
only_deleted-set none h = cc
only_deleted-set (some at) h = refl

pub serve_restore :
    (r : Request) (w : World) (id : ℕ) (n : Note)
    → IsOwned r w id n
    → is_set n.deleted_at ≡ true
    → IsWritable n 1
    → serve r restore_call w ≡ (restored_reply (restored (w.env.now (suc w.calls)) n), back w id)
unfolding serve respond route Handler.restore ◌>>=◌ ◌>>◌ continue lift pure written is_restore
serve_restore r w id n (e, there, own, calm) gone (fits, low) =
    let shown : (is_set n.deleted_at && not (is_restore Authz.restore)) ≡ false = ground arith in
    rw
      (
        load_owner r Authz.restore w id n (e, there, own, calm) shown,
        only_deleted-set n.deleted_at gone,
        ap (λ i. restore_note i (step_call w)) (found-id id w.db.notes n there)
            ∙ restore_note-deleted (step_call w) id n (calm (suc w.calls))
                (find-deleted id w.db.notes n there gone) fits low,
      )
      refl
