-- ===== src/Notes/Granting.antt =====
-- What a successful `upsertShare` of internal/notes/shares.go leaves in `note_shares`.
use mathlib.Core.Path.{subst}
use bluestaq_takehome.Prelude.{
  ℕ, ◌≡◌, refl, sym, Bool, true, false, ◌&&◌, Bool-cases, inl, inr, Option, none, some, List, [],
  ◌∷◌, ◌++◌, find, any, keep, drop_if, update_if, eq_iff, ◌==◌, arith,
}
use bluestaq_takehome.Authz.{parse_grant_role}
use bluestaq_takehome.Store.Models.{Db, NoteShare}
use bluestaq_takehome.Store.ShareQueries.{
  is_share, share_fits, regranted, place_share, upsert_share_row, upsert_note_share,
}
use bluestaq_takehome.Store.NoteQueries.{is_note}
use bluestaq_takehome.Store.World.{World, lift, pure, ◌>>=◌}
use bluestaq_takehome.Store.Hoare.{
  Post, Lands, Hoare, Hoare-lands, Hoare-bind, Hoare-pure, continue-Post,
}
use bluestaq_takehome.Httpx.{Request, Reply, value, decode_json}
use bluestaq_takehome.Authz
use bluestaq_takehome.Store.Keeps.{Keeps-lift}
use bluestaq_takehome.Notes.Load.{load}
use bluestaq_takehome.Notes.Errors.{Keeps-validate_principal}
use bluestaq_takehome.Notes.Updating.{
  Same, load-Loaded, Hoare-given, Post-fails, Hoare-lift_ok, Hoare-then,
}
use bluestaq_takehome.Notes.Shares.{Share, ShareRequest, upsert_share}
use bluestaq_takehome.Httpx.Problems.{Result, ok, err}

-- The grant under a key, with the role and the granter of `s`.
abbrev pub IsGranted : NoteShare → Db → Type 0
IsGranted s d =
    (g : NoteShare) × (find (is_share s.note_id s.principal_type s.principal_id) d.note_shares
      ≡ some g)
    × (g.role ≡ s.role)
    × (g.granted_by ≡ s.granted_by)

find-append_none :
    {A : Type 0} (p : A → Bool) (xs : List A) (y : A)
    → find p xs ≡ none
    → p y ≡ true
    → find p (xs ++ y ∷ []) ≡ some y
unfolding find
find-append_none p [] y e h = rw h refl
find-append_none p (x ∷ xs) y e h = ground (arith, find-append_none p xs y)

find-update_if :
    {A : Type 0} (p : A → Bool) (f : A → A) (xs : List A) (y : A)
    → ((x : A) → p (f x) ≡ p x)
    → find p xs ≡ some y
    → find p (update_if p f xs) ≡ some (f y)
unfolding find update_if
find-update_if p f [] y k e = cc
find-update_if p f (x ∷ xs) y k e = ground (arith, k x, find-update_if p f xs y k)

drop_if-append :
    {A : Type 0} (p : A → Bool) (xs : List A) (y : A)
    → p y ≡ true
    → drop_if p (xs ++ y ∷ []) ≡ drop_if p xs
unfolding keep
drop_if-append p [] y h = rw h refl
drop_if-append p (x ∷ xs) y h = rw (drop_if-append p xs y h) refl

drop_if-update_if :
    {A : Type 0} (p : A → Bool) (f : A → A)
    → ((x : A) → p (f x) ≡ p x)
    → (xs : List A) → drop_if p (update_if p f xs) ≡ drop_if p xs
unfolding keep update_if
drop_if-update_if p f k [] = refl
drop_if-update_if p f k (x ∷ xs) = elim (Bool-cases (p x)) [
  | inl e ↦ rw (e, k x, e) (drop_if-update_if p f k xs)
  | inr e ↦ rw (e, e, drop_if-update_if p f k xs) refl
]

abbrev pub key_of : NoteShare → NoteShare → Bool
key_of s = is_share s.note_id s.principal_type s.principal_id

-- The grant is there, it is of a known kind and role, and no grant under another key has changed.
abbrev pub IsPlaced : NoteShare → Db → Db → Type 0
IsPlaced s before after =
    IsGranted s after
    × (share_fits s ≡ true)
    × (drop_if (key_of s) after.note_shares ≡ drop_if (key_of s) before.note_shares)

own_key : (s : NoteShare) → key_of s s ≡ true
own_key s = ground (arith, eq_iff s.principal_type s.principal_type)

place_share-IsPlaced :
    (s : NoteShare) (d : Db) (o : Option NoteShare)
    → share_fits s ≡ true
    → find (key_of s) d.note_shares ≡ o
    → Lands (λ _. IsPlaced s d) (place_share s d o)
unfolding place_share
place_share-IsPlaced s d (some old) fits e =
    elim (Bool-cases (any (λ u. u.id == s.granted_by) d.users)) [
      | inl there ↦ rw there (
        (
          regranted s old,
          find-update_if (key_of s) (regranted s) d.note_shares old (λ x. refl) e,
          refl,
          refl,
        ),
        fits,
        drop_if-update_if (key_of s) (regranted s) (λ x. refl) d.note_shares,
      )
      | inr gone ↦ rw gone tt
    ]
place_share-IsPlaced s d none fits e =
    elim (Bool-cases (any (is_note s.note_id) d.notes && any (λ u. u.id == s.granted_by) d.users)) [
      | inl there ↦ rw there (
        (s, find-append_none (key_of s) d.note_shares s e (own_key s), refl, refl),
        fits,
        drop_if-append (key_of s) d.note_shares s (own_key s),
      )
      | inr gone ↦ rw gone tt
    ]

upsert_share_row-IsPlaced :
    (s : NoteShare) (d : Db) → Lands (λ _. IsPlaced s d) (upsert_share_row s d)
unfolding upsert_share_row
upsert_share_row-IsPlaced s d = elim (Bool-cases (share_fits s)) [
  | inl fits ↦ rw fits (place_share-IsPlaced s d _ fits refl)
  | inr bad ↦ rw bad tt
]

-- What the request asks for, with whatever time of creation.
abbrev pub Shared : Request → ShareRequest → ℕ → Db → Db → Type 0
Shared r req id before after =
    (now : ℕ) × IsPlaced
      (record {
        note_id = id;
        principal_type = req.principal_type;
        principal_id = req.principal_id;
        role = req.role;
        granted_by = r.user_id;
        created_at = now;
      })
      before after

Lands-map :
    {A : Type 0} {Q Q' : A → Db → Type 0} (r : Result (A × Db))
    → ((a : A) (d : Db) → Q a d → Q' a d)
    → Lands Q r
    → Lands Q' r
Lands-map (ok (a, d)) h q = h a d q
Lands-map (err e) h q = tt

upsert_note_share-Shared :
    (r : Request) (req : ShareRequest) (id : ℕ) (before : Db)
    → Hoare
        (Same before id)
        (upsert_note_share id req.principal_type req.principal_id req.role r.user_id)
        (λ s. Shared r req id before)
        (λ d. Unit)
unfolding upsert_note_share
upsert_note_share-Shared r req id before =
    Hoare-lands _
      (λ w s. rw s (
        Lands-map (upsert_share_row _ before) (λ a d q. (w.env.now w.calls, q))
          (upsert_share_row-IsPlaced _ before)))
      (λ d p. tt) (λ s d q. tt)

decode_json-value : (req : ShareRequest) → decode_json (value req false) ≡ lift (ok req)
unfolding decode_json lift pure
decode_json-value req = refl

-- `upsertShare` behind `load`.
upsert_share-Post :
    (r : Request) (req : ShareRequest) (w : World) (id : ℕ)
    → w.env.uuid_parse (r.url_param "id") ≡ some id
    → Post (λ reply. Shared r req id w.db) (λ d. Unit) (upsert_share r (value req false) w)
unfolding upsert_share ◌>>=◌
upsert_share-Post r req w id e =
    continue-Post (load r Authz.share w) _
      (Post-fails _ (load r Authz.share w) (λ d p. tt) (load-Loaded r Authz.share w id e))
      (λ a. Hoare-given _ (λ named. rw (decode_json-value req) (
        Hoare-lift_ok req _ (
          Hoare-then (λ d p. tt) _ _ (Keeps-lift _)
            (Hoare-then (λ d p. tt) _ _ (Keeps-lift _)
              (Hoare-then (λ d p. tt) _ _ (Keeps-validate_principal req r.user_id)
                (Hoare-bind _ _
                  (subst
                    (λ i.
                      Hoare (Same w.db id)
                        (upsert_note_share i req.principal_type req.principal_id req.role r.user_id)
                        (λ s. Shared r req id w.db) (λ d. Unit))
                    (sym named) (upsert_note_share-Shared r req id w.db))
                  (λ s. Hoare-pure _ (λ d p. p)))))))))

-- Where `upsertShare` succeeds, the note of the URL has a grant to the principal of the request, with
-- the role of the request, which is viewer or editor, granted by the caller; and no other grant has
-- changed, whether the grant is new or replaces an older one.
pub upsert_share-Shared :
    (r : Request) (req : ShareRequest) (w w' : World) (id : ℕ) (reply : Reply (List Share))
    → w.env.uuid_parse (r.url_param "id") ≡ some id
    → upsert_share r (value req false) w ≡ (ok reply, w')
    → Shared r req id w.db w'.db
upsert_share-Shared r req w w' id reply e done =
    subst (Post (λ reply. Shared r req id w.db) (λ d. Unit)) done (upsert_share-Post r req w id e)
