-- ===== src/Notes/Keeping.antt =====
-- Every endpoint of internal/notes that is modelled keeps the invariant of the tables of notes and
-- grants, whatever faults it meets.
use bluestaq_takehome.Prelude.{
  ℕ, ◌+◌, ◌≡◌, refl, String, Bool, true, Bool-cases, inl, inr, Option, none, some, find, any, ltb,
  ◌==◌, arith,
}
use bluestaq_takehome.Httpx.Problems.{Result, ok, err, no_rows}
use bluestaq_takehome.Httpx.{Request, Decoded}
use bluestaq_takehome.Httpx.Atomic.{Keeps-decode_json, respond-keeps}
use bluestaq_takehome.Store.Models.{Db, Note, NoteShare}
use bluestaq_takehome.Store.World.{World}
use bluestaq_takehome.Store.Hoare.{Lands, Keeps, Hoare-lands}
use bluestaq_takehome.Store.Keeps.{keeps_rules}
use bluestaq_takehome.Store.NoteQueries.{
  is_note, is_target, is_live, is_deleted, title_fits, version_limit, insert_note, create_note,
  change_note, rows_changed, edited, soft_deleted, restored, UpdateNoteParams, CreateNoteParams,
  update_note, soft_delete_note, restore_note,
}
use bluestaq_takehome.Store.ShareQueries.{
  is_share, share_fits, place_share, upsert_share_row, upsert_note_share, delete_note_share,
  list_note_shares,
}
use bluestaq_takehome.Notes.Sound.{
  IsSound, IsSound-insert_note, IsSound-change_note, IsSound-add_share, IsSound-regrant,
  IsSound-drop_share,
}
use bluestaq_takehome.Notes.Errors.{
  Keeps-load, Keeps-check_body, Keeps-lost_update, Keeps-validate_principal,
}
use bluestaq_takehome.Notes.Handler
use bluestaq_takehome.Notes.Handler.{CreateRequest, create, get, update, delete}
use bluestaq_takehome.Notes.Shares.{list_shares, upsert_share, revoke_share}
use bluestaq_takehome.Notes.Routes.{Call, get_call, route, serve, serve_create}

abbrev Sound : {A : Type 0} → A → Db → Type 0
Sound a d = IsSound d

inserted-Sound : (n : Note) (d : Db) → n.version ≡ 1 → IsSound d → Lands Sound (insert_note n d)
unfolding insert_note
inserted-Sound n d first g = elim (Bool-cases (title_fits n.title)) [
  | inl fits ↦ elim (Bool-cases (any (is_note n.id) d.notes)) [
    | inl taken ↦ rw (fits, taken) tt
    | inr fresh ↦ elim (Bool-cases (any (λ u. u.id == n.owner_user_id) d.users)) [
      | inl there ↦
          rw (fits, fresh, there) (IsSound-insert_note d g n fresh (fits, omega arith, omega arith))
      | inr gone ↦ rw (fits, fresh, gone) tt
    ]
  ]
  | inr bad ↦ rw bad tt
]

create_note-IsSound : (arg : CreateNoteParams) → Keeps IsSound (create_note arg)
unfolding create_note
create_note-IsSound arg =
    Hoare-lands _ (λ w g. inserted-Sound _ w.db refl g) (λ d p. p) (λ a d p. p)

-- A change that moves a note to its next version and passes over every other id.
record IsChange (id : ℕ) (test : Note → Bool) (f : Note → Note) : Type 0 where
  only : (m : Note) → test m ≡ true → is_note id m ≡ true
  same : (m : Note) → (f m).id ≡ m.id
  next : (m : Note) → (f m).version ≡ m.version + 1

changed-Sound :
    (id : ℕ) (test : Note → Bool) (f : Note → Note) (d : Db) (o : Option Note)
    → IsChange id test f
    → find test d.notes ≡ o
    → IsSound d
    → Lands Sound (change_note test f d o)
unfolding change_note
changed-Sound id test f d none c e g = tt
changed-Sound id test f d (some n) c e g = elim (Bool-cases (title_fits (f n).title)) [
  | inl fits ↦ elim (Bool-cases (ltb (f n).version version_limit)) [
    | inl low ↦
        rw (fits, low)
          (IsSound-change_note d g id test f n c.only c.same e
            (fits, omega (arith, c.next n), ground arith))
    | inr high ↦ rw (fits, high) tt
  ]
  | inr bad ↦ rw bad tt
]

edit-IsChange :
    (arg : UpdateNoteParams) (now : ℕ)
    → IsChange arg.id (is_target arg.id arg.expected_version) (edited arg now)
unfolding edited
edit-IsChange arg now = record { only = λ m h. ground arith; same = λ m. refl; next = λ m. refl }

trash-IsChange : (id now : ℕ) → IsChange id (is_live id) (soft_deleted now)
unfolding soft_deleted
trash-IsChange id now = record { only = λ m h. ground arith; same = λ m. refl; next = λ m. refl }

back-IsChange : (id now : ℕ) → IsChange id (is_deleted id) (restored now)
unfolding restored
back-IsChange id now = record { only = λ m h. ground arith; same = λ m. refl; next = λ m. refl }

update_note-IsSound : (arg : UpdateNoteParams) → Keeps IsSound (update_note arg)
unfolding update_note
update_note-IsSound arg =
    Hoare-lands _ (λ w g. changed-Sound arg.id _ _ w.db _ (edit-IsChange arg _) refl g) (λ d p. p)
      (λ a d p. p)

restore_note-IsSound : (id : ℕ) → Keeps IsSound (restore_note id)
unfolding restore_note
restore_note-IsSound id =
    Hoare-lands _ (λ w g. changed-Sound id _ _ w.db _ (back-IsChange id _) refl g) (λ d p. p)
      (λ a d p. p)

counted-Sound :
    (d : Db) (n : ℕ) (r : Result (Note × Db))
    → IsSound d
    → Lands Sound r
    → Lands Sound (rows_changed d n r)
unfolding rows_changed
counted-Sound d n (ok (row, d')) g s = s
counted-Sound d n (err no_rows) g s = g
counted-Sound d n (err e) g s = ground arith

soft_delete_note-IsSound : (id : ℕ) → Keeps IsSound (soft_delete_note id)
unfolding soft_delete_note
soft_delete_note-IsSound id =
    Hoare-lands _
      (λ w g. counted-Sound w.db _ _ g (changed-Sound id _ _ w.db _ (trash-IsChange id _) refl g))
      (λ d p. p) (λ a d p. p)

placed-Sound :
    (s : NoteShare) (d : Db) (o : Option NoteShare)
    → share_fits s ≡ true
    → find (is_share s.note_id s.principal_type s.principal_id) d.note_shares ≡ o
    → IsSound d
    → Lands Sound (place_share s d o)
unfolding place_share
placed-Sound s d (some old) fits e g = elim (Bool-cases (any (λ u. u.id == s.granted_by) d.users)) [
  | inl there ↦ rw there (IsSound-regrant d g s fits)
  | inr gone ↦ rw gone tt
]
placed-Sound s d none fits e g = elim (Bool-cases (any (is_note s.note_id) d.notes)) [
  | inl note ↦ elim (Bool-cases (any (λ u. u.id == s.granted_by) d.users)) [
    | inl there ↦ rw (note, there) (IsSound-add_share d g s e (fits, note))
    | inr gone ↦ rw (note, gone) tt
  ]
  | inr gone ↦ rw gone tt
]

upserted-Sound : (s : NoteShare) (d : Db) → IsSound d → Lands Sound (upsert_share_row s d)
unfolding upsert_share_row
upserted-Sound s d g = elim (Bool-cases (share_fits s)) [
  | inl fits ↦ rw fits (placed-Sound s d _ fits refl g)
  | inr bad ↦ rw bad tt
]

upsert_note_share-IsSound :
    (note_id : ℕ) (t : String) (p : ℕ) (role : String) (by : ℕ)
    → Keeps IsSound (upsert_note_share note_id t p role by)
unfolding upsert_note_share
upsert_note_share-IsSound note_id t p role by =
    Hoare-lands _ (λ w g. upserted-Sound _ w.db g) (λ d h. h) (λ a d h. h)

delete_note_share-IsSound :
    (note_id : ℕ) (t : String) (p : ℕ) → Keeps IsSound (delete_note_share note_id t p)
unfolding delete_note_share
delete_note_share-IsSound note_id t p =
    Hoare-lands _ (λ w g. IsSound-drop_share w.db g note_id t p) (λ d h. h) (λ a d h. h)

ruleset sound_rules = (
  keeps_rules, Keeps-decode_json, Keeps-load, Keeps-check_body, Keeps-lost_update,
  Keeps-validate_principal, create_note-IsSound, update_note-IsSound, soft_delete_note-IsSound,
  restore_note-IsSound, upsert_note_share-IsSound, delete_note_share-IsSound,
)

route-IsSound : (r : Request) (c : Call) → Keeps IsSound (route r c)
unfolding route get update delete Handler.restore list_shares upsert_share revoke_share
    list_note_shares
route-IsSound r get_call = search sound_rules depth 12
route-IsSound r _ = search sound_rules depth 12

create-IsSound : (r : Request) (b : Decoded CreateRequest) → Keeps IsSound (create r b)
unfolding create
create-IsSound r b = search sound_rules depth 12

-- Every endpoint of a note or of its shares, failing or not and whatever faults its calls meet,
-- keeps the invariant: ids of notes and keys of grants are unique, a title fits, a version is
-- positive and of 32 bits, and a grant is on a note that is there and carries viewer or editor.
pub note_serve-IsSound :
    (r : Request) (c : Call) (w : World) → IsSound w.db → IsSound (serve r c w).1.db
unfolding serve
note_serve-IsSound r c w g = respond-keeps r (route r c) (route-IsSound r c) w g

-- `POST /notes` keeps the same invariant.
pub serve_create-IsSound :
    (r : Request) (b : Decoded CreateRequest) (w : World)
    → IsSound w.db
    → IsSound (serve_create r b w).1.db
unfolding serve_create
serve_create-IsSound r b w g = respond-keeps r (create r b) (create-IsSound r b) w g
