-- ===== src/Notes/Updating.antt =====
-- `update` of internal/notes/handler.go step by step: what it comes to, by what its statement does.
use mathlib.Core.Path.{subst}
use bluestaq_takehome.Prelude.{
  ℕ, ◌≡◌, refl, Bool, true, false, Option-cases, inl, inr, Option, none, some, find, if◌then◌else◌,
  arith,
}
use bluestaq_takehome.Prelude.Counting.{find-some}
use bluestaq_takehome.Authz.{Role, Action, can}
use bluestaq_takehome.Authz
use bluestaq_takehome.Httpx.Problems.{Err, Result, ok, err}
use bluestaq_takehome.Httpx.{Request, Reply, Decoded, write_json}
use bluestaq_takehome.Httpx.Atomic.{Keeps-decode_json}
use bluestaq_takehome.Store.Models.{Db, NoteWithAccess}
use bluestaq_takehome.Store.Models
use bluestaq_takehome.Store.World.{
  World, M, pure, throw, ask, lift, or_throw, catch, handle, continue, outcome, stmt, query, ◌>>=◌,
  ◌>>◌,
}
use bluestaq_takehome.Store.Hoare.{
  left_by-kept, Post, Hoare, Keeps, continue-Post, Hoare-bind, Hoare-pure, Hoare-throw, Hoare-if,
  Hoare-catch,
}
use bluestaq_takehome.Store.Keeps.{Keeps-ask, Keeps-lift}
use bluestaq_takehome.Store.NoteQueries.{
  is_note, UpdateNoteParams, update_note, get_note_with_access,
}
use bluestaq_takehome.Notes.Dto.{Note, from_update}
use bluestaq_takehome.Notes.IfMatch.{set_etag, if_match_version}
use bluestaq_takehome.Notes.Load.{load}
use bluestaq_takehome.Notes.Visibility.{verdict, load-verdict}
use bluestaq_takehome.Notes.Handler.{UpdateRequest, update, lost_update}
use bluestaq_takehome.Notes.Errors.{Keeps-check_body, Keeps-conflict}

abbrev pub succeeds : {A : Type 0} → Result A × World → Bool
succeeds (ok a, w) = true
succeeds (err e, w) = false

module _ {A : Type 0} (Q : A → Db → Type 0) (R : Db → Type 0) where
  Post-if :
      (b : Bool) (x y : Result A) (w : World)
      → Post Q R (x, w)
      → Post Q R (y, w)
      → Post Q R (if b then x else y, w)
  Post-if true x y w p q = p
  Post-if false x y w p q = q

module _ (before : Db) (id : ℕ) where
  abbrev pub Loaded : NoteWithAccess × Role → Db → Type 0
  Loaded a d = (a.0.note.id ≡ id) × (d ≡ before)

  abbrev pub Same : Db → Type 0
  Same d = d ≡ before

  verdict-Loaded :
      (user : ℕ) (action : Action) (o : Option Models.Note) (w : World)
      → ((n : Models.Note) → o ≡ some n → n.id ≡ id)
      → w.db ≡ before
      → Post Loaded Same (verdict before user action o, w)
  verdict-Loaded user action none w h s = s
  verdict-Loaded user action (some n) w h s =
      let found : n.id ≡ id = h n refl in search (Post-if, found, s) depth 6

  found-id : (d : Db) (n : Models.Note) → find (is_note id) d.notes ≡ some n → n.id ≡ id
  found-id d n e = ground (arith, find-some (is_note id) d.notes n e)

-- `load` reads, and what it returns is the note of the URL.
pub load-Loaded :
    (r : Request) (action : Action) (w : World) (id : ℕ)
    → w.env.uuid_parse (r.url_param "id") ≡ some id
    → Post (Loaded w.db id) (Same w.db id) (load r action w)
unfolding load get_note_with_access query stmt outcome ask or_throw catch handle throw pure ◌>>=◌
    continue
load-Loaded r action w id e = elim (Option-cases (w.fault w.calls)) [
  | inl calm ↦ rw (load-verdict r action w id e calm) (
      verdict-Loaded w.db id r.user_id action (find (is_note id) w.db.notes) _
        (found-id w.db id w.db) refl)
  | inr (x, faulty) ↦ rw (e, faulty) (left_by-kept (Same w.db id) (w.lands w.calls) _ w.db refl)
]

module _ {A : Type 0} {P R : Db → Type 0} {Q Q' : A → Db → Type 0} where
  pub Hoare-weaken :
      {m : M A} → Hoare P m Q R → ((a : A) (d : Db) → Q a d → Q' a d) → Hoare P m Q' R
  Hoare-weaken {m} h k = record { at = λ w p. weaken (m w) (h.at w p) }
    where
      weaken : (x : Result A × World) → Post Q R x → Post Q' R x
      weaken (ok a, w) q = k a w.db q
      weaken (err e, w) q = q

module _ {A : Type 0} {R R' : Db → Type 0} (Q : A → Db → Type 0) where
  pub Post-fails : (x : Result A × World) → ((d : Db) → R d → R' d) → Post Q R x → Post Q R' x
  Post-fails (ok a, w) k q = q
  Post-fails (err e, w) k q = k w.db q

module _ {A : Type 0} {P R R' : Db → Type 0} {Q : A → Db → Type 0} where
  pub Hoare-fails : {m : M A} → Hoare P m Q R → ((d : Db) → R d → R' d) → Hoare P m Q R'
  Hoare-fails {m} h k = record { at = λ w p. Post-fails Q (m w) k (h.at w p) }

module _ {A : Type 0} {X : Type 0} {P R : Db → Type 0} {Q : A → Db → Type 0} where
  pub Hoare-given : (m : M A) → (X → Hoare P m Q R) → Hoare (λ d. X × P d) m Q R
  Hoare-given m h = record { at = λ w p. (h p.0).at w p.1 }

module _ {A B : Type 0} {P R : Db → Type 0} {S : B → Db → Type 0} where
  pub Hoare-lift_ok : (a : A) (f : A → M B) → Hoare P (f a) S R → Hoare P (lift (ok a) >>= f) S R
  unfolding lift ◌>>=◌ continue
  Hoare-lift_ok a f h = record { at = λ w p. h.at w p }

-- A step that keeps `P` may fail there.
module _ {A B : Type 0} {P R : Db → Type 0} {S : B → Db → Type 0} (k : (d : Db) → P d → R d) where
  pub Hoare-first :
      (m : M A) (f : A → M B) → Keeps P m → ((a : A) → Hoare P (f a) S R) → Hoare P (m >>= f) S R
  Hoare-first m f hm hf = Hoare-bind m f (Hoare-fails hm k) hf

  pub Hoare-then : (m : M A) (n : M B) → Keeps P m → Hoare P n S R → Hoare P (m >> n) S R
  unfolding ◌>>◌
  Hoare-then m n hm hn = Hoare-first m (λ _. n) hm (λ _. hn)

module _ {P : Db → Type 0} {Q : Models.Note → Db → Type 0} where
  -- The handler of a refused update only reads, and never returns a note.
  lost_update-throws :
      (r : Request) (note_id expected : ℕ) (e : Err)
      → Hoare P (lost_update r note_id expected e) Q P
  unfolding lost_update
  lost_update-throws r note_id expected e =
      Hoare-if _ _ _
        (λ _.
          Hoare-bind _ _ (Keeps-conflict note_id r.user_id expected)
            (λ c. Hoare-throw c (λ d p. p)))
        (λ _. Hoare-throw e (λ d p. p))

-- What `update` does, by what its statement does.
module _ (S : Reply Note → Db → Type 0) (R : Db → Type 0) (before : Db) (id v : ℕ) where
  abbrev pub Steps : Type 0
  Steps =
      (arg : UpdateNoteParams) (role : Role)
      → arg.id ≡ id
      → arg.expected_version ≡ v
      → Hoare (Same before id) (update_note arg)
          (λ n d. S (set_etag n.version (write_json 200 (from_update n role))) d) R

  pub update-Post :
      (r : Request) (body : Decoded UpdateRequest) (w : World)
      → w.db ≡ before
      → w.env.uuid_parse (r.url_param "id") ≡ some id
      → if_match_version r.if_match ≡ ok v
      → ((d : Db) → Same before id d → R d)
      → Steps
      → Post S R (update r body w)
  unfolding update ◌>>=◌
  update-Post r body w s e match k steps =
      continue-Post (load r Authz.update w) _
        (Post-fails (Loaded before id) (load r Authz.update w) k (
          subst (λ b. Post (Loaded b id) (Same b id) (load r Authz.update w)) s
            (load-Loaded r Authz.update w id e)))
        (λ a. Hoare-given _ (λ named. rw match (
          Hoare-lift_ok v _ (
            Hoare-first k _ _ (Keeps-decode_json body) (λ req. Hoare-first k _ _ Keeps-ask (λ env.
              Hoare-then k _ _ (Keeps-lift _) (
                Hoare-then k _ _ (Keeps-check_body a.0.note.id req.body) (
                  Hoare-bind _ _
                    (Hoare-catch _ _ (steps _ a.1 named refl) (lost_update-throws r a.0.note.id v))
                    (λ n. Hoare-pure _ (λ d p. p))))))))))
