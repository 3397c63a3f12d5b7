-- ===== src/Notes/Limits.antt =====
-- How much one request to `GET /notes` (internal/notes/list.go) can ask for.
use mathlib.Core.Path.{subst}
use bluestaq_takehome.Prelude.{
  ℕ, zero, suc, ◌+◌, ◌-◌, ◌≤◌, ◌≡◌, refl, ap, Bool, true, false, ◌&&◌, Bool-cases, inl, inr, Option,
  none, some, List, [], ◌∷◌, length, take, map, ltb, ◌^◌, arith,
}
use bluestaq_takehome.Prelude.Text.{Text, is_empty}
use bluestaq_takehome.Prelude.Decimal.{parse_int}
use bluestaq_takehome.Httpx.Problems.{Err, Result, ok, err}
use bluestaq_takehome.Httpx.{
  Request, Reply, Content, nothing, json, problem_json, write_json, write_problem, written, respond,
  is_canceled,
}
use bluestaq_takehome.Store.World.{Env, World, M, lift}
use bluestaq_takehome.Store.Hoare.{Post, Hoare, Hoare-bind, Hoare-query, Hoare-pure}
use bluestaq_takehome.Store.Keeps.{Keeps-ask, Keeps-lift}
use bluestaq_takehome.Store.Cursor.{Cursor}
use bluestaq_takehome.Store.NotesList.{ListFilter, ListRow, page_of, list_notes, sorted_rows}
use bluestaq_takehome.Notes.List.{
  ListResponse, clamped, limit_of, not_contradictory, parse_list_filter, list_response, list,
  list_serve, is_own,
}

-- A computation whose value, where there is one, `Q` holds of.
abbrev pub Gives : {A : Type 0} → (A → Type 0) → M A → Type 0
Gives Q m = Hoare (λ d. Unit {0}) m (λ a d. Q a) (λ d. Unit {0})

module _ {A : Type 0} {X : Type 0} {Q : A → Type 0} where
  known : (m : M A) → (X → Gives Q m) → Hoare (λ d. X) m (λ a d. Q a) (λ d. Unit {0})
  known m h = record { at = λ w x. (h x).at w tt }

abbrev pub IsLimit : ℕ → Type 0
IsLimit n = (1 ≤ n) × (n ≤ 100)

Allowed : Result ℕ → Type 0
Allowed (ok n) = IsLimit n
Allowed (err e) = Unit

clamped-Allowed : (o : Option (Bool × ℕ)) → Allowed (clamped o)
unfolding Allowed
clamped-Allowed none = tt
clamped-Allowed (some (true, n)) = tt
clamped-Allowed (some (false, n)) = elim (Bool-cases (ltb n 1)) [
  | inl e ↦ rw e tt
  | inr e ↦ elim (Bool-cases (ltb 100 n)) [
    | inl over ↦ rw (e, over) (omega arith, omega arith)
    | inr within ↦ rw (e, within) (ground arith, ground arith)
  ]
]

limit_of-Allowed : (raw : Text) → Allowed (limit_of raw)
unfolding limit_of Allowed
limit_of-Allowed raw = elim (Bool-cases (is_empty raw)) [
  | inl e ↦ rw e (omega arith, omega arith)
  | inr e ↦ rw e (clamped-Allowed (parse_int (2 ^ 63 - 1) raw))
]

lift-Allowed : (x : Result ℕ) → Allowed x → Gives IsLimit (lift x)
unfolding lift Allowed
lift-Allowed (ok n) h = record { at = λ w p. h }
lift-Allowed (err e) h = record { at = λ w p. tt }

abbrev pub IsBounded : ListFilter → Type 0
IsBounded f = IsLimit f.limit

not_contradictory-limit :
    (f : ListFilter) → IsBounded f → Gives IsBounded (lift (not_contradictory f))
unfolding not_contradictory lift
not_contradictory-limit f h = elim (Bool-cases (f.shared_with_me && is_own f.user_id f.owner)) [
  | inl e ↦ rw e (record { at = λ w p. tt })
  | inr e ↦ rw e (record { at = λ w p. h })
]

parse_list_filter-limit : (r : Request) → Gives IsBounded (parse_list_filter r)
unfolding parse_list_filter
parse_list_filter-limit r = Hoare-bind _ _ Keeps-ask (λ env. Hoare-bind _ _ (Keeps-lift _) (λ owner.
    Hoare-bind _ _ (Keeps-lift _) (λ team.
      Hoare-bind _ _ (lift-Allowed _ (limit_of-Allowed _)) (λ limit.
        known _ (λ h. Hoare-bind _ _ (Keeps-lift _) (λ cursor. not_contradictory-limit _ h))))))

length-take : (n : ℕ) (xs : List ListRow) → length (take n xs) ≤ n
unfolding take
length-take zero xs = omega arith
length-take (suc n) [] = omega arith
length-take (suc n) (x ∷ xs) = omega (arith, length-take n xs)

page_of-le : (limit : ℕ) (out : List ListRow) → length (page_of limit out).0 ≤ limit
unfolding page_of
page_of-le limit out = elim (Bool-cases (ltb limit (length out))) [
  | inl e ↦ rw e (length-take limit out)
  | inr e ↦ rw e (ground arith)
]

abbrev IsPage : ℕ → List ListRow × Option Cursor → Type 0
IsPage limit page = length page.0 ≤ limit

abbrev Paged : ℕ → Result (List ListRow × Option Cursor) → Type 0
Paged limit (ok page) = IsPage limit page
Paged limit (err e) = Unit

list_notes-IsPage : (f : ListFilter) → Gives (IsPage f.limit) (list_notes f)
unfolding list_notes
list_notes-IsPage f =
    Hoare-query _
      (λ w page p e.
        subst (Paged f.limit) e
          (page_of-le f.limit (take (f.limit + 1) (sorted_rows w.env w.db f))))
      (λ d p. tt)

length-map : {A B : Type 0} (f : A → B) (xs : List A) → length (map f xs) ≡ length xs
length-map f [] = refl
length-map f (x ∷ xs) = ap suc (length-map f xs)

response-le :
    (env : Env) (rows : List ListRow) (next : Option Cursor)
    → length rows ≤ 100
    → length (list_response env rows next).notes ≤ 100
unfolding list_response
response-le env rows none h = rw (length-map _ rows) h
response-le env rows (some c) h = rw (length-map _ rows) h

-- A list of 100 notes at most, or none.
abbrev pub IsShort : Content ListResponse → Type 0
IsShort nothing = Unit
IsShort (problem_json p) = Unit
IsShort (json v) = length v.notes ≤ 100

abbrev IsShortReply : Reply ListResponse → Type 0
IsShortReply reply = IsShort reply.content

list-IsShort : (r : Request) → Gives IsShortReply (list r)
unfolding list write_json
list-IsShort r = Hoare-bind _ _ (parse_list_filter-limit r) (λ f. known _ (λ h.
    Hoare-bind _ _ (list_notes-IsPage f) (λ page. known _ (λ p.
      Hoare-bind _ _ Keeps-ask
        (λ env. Hoare-pure _ (λ d u. response-le env page.0 page.1 (omega (arith, p, h.1))))))))

problem-IsShort : (r : Request) (e : Err) → IsShortReply (write_problem r e)
unfolding write_problem
problem-IsShort r e = elim (Bool-cases (is_canceled e && r.context_done)) [
  | inl gone ↦ rw gone tt
  | inr here ↦ rw here tt
]

written-IsShort :
    (r : Request) (x : Result (Reply ListResponse) × World)
    → Post (λ reply d. IsShortReply reply) (λ d. Unit {0}) x
    → IsShortReply (written r x).0
unfolding written
written-IsShort r (ok reply, w) h = h
written-IsShort r (err e, w) h = problem-IsShort r e

-- Whatever a request asks for, the page that it gets holds at most 100 notes.
pub list_serve-IsShort : (r : Request) (w : World) → IsShort (list_serve r w).0.content
unfolding list_serve respond
list_serve-IsShort r w = written-IsShort r (list r w) ((list-IsShort r).at w tt)
