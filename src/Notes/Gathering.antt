-- ===== src/Notes/Gathering.antt =====
-- The loop of `normalizeTags` (internal/notes/handler.go): one tag after the other.
use bluestaq_takehome.Httpx.Problems.{Message, lit, text, num}
use bluestaq_takehome.Prelude.{
  ◌⊎◌, ℕ, ◌≤◌, ◌≡◌, refl, true, false, ◌||◌, Bool-cases, inl, inr, List, [], ◌∷◌, ◌++◌, any, All,
  ltb, arith,
}
use bluestaq_takehome.Prelude.Text.{Text, text_eq, is_empty, byte_len}
use bluestaq_takehome.Notes.Tags.{max_tag_len, Tags, good, bad, holds, normal, gather}

-- One tag of a note: normalized from a tag of the request, not empty, and within the limit.
abbrev pub IsTag : (ℕ → ℕ) → List Text → Text → Type 0
IsTag lower raws t =
    (any (λ raw. text_eq (normal lower raw) t) raws ≡ true)
    × (is_empty t ≡ false)
    × (byte_len t ≤ max_tag_len)

-- No tag stands in the list twice.
abbrev pub IsDistinct : List Text → Type 0
IsDistinct [] = Unit
IsDistinct (t ∷ ts) = (holds t ts ≡ false) × IsDistinct ts

-- Every tag of the request that is not blank is in the list.
abbrev pub IsCovering : (ℕ → ℕ) → List Text → List Text → Type 0
IsCovering lower raws ts =
    All (λ raw. (is_empty (normal lower raw) || holds (normal lower raw) ts) ≡ true) raws

abbrev pub Good : (List Text → Type 0) → Tags → Type 0
Good P (good ts) = P ts
Good P (bad m) = Unit

pub text_eq_refl : (t : Text) → text_eq t t ≡ true
unfolding text_eq
text_eq_refl [] = refl
text_eq_refl (c ∷ t) = ground (arith, text_eq_refl t)

text_eq_sym : (s t : Text) → text_eq s t ≡ text_eq t s
unfolding text_eq
text_eq_sym [] [] = refl
text_eq_sym [] (b ∷ t) = refl
text_eq_sym (a ∷ s) [] = refl
text_eq_sym (a ∷ s) (b ∷ t) = ground (arith, text_eq_sym s t)

pub holds-append :
    (t u : Text) (ts : List Text) → holds t (ts ++ u ∷ []) ≡ (holds t ts || text_eq t u)
unfolding any
holds-append t u [] = ground arith
holds-append t u (s ∷ ts) = ground (arith, holds-append t u ts)

IsDistinct-append :
    (t : Text) (ts : List Text) → IsDistinct ts → holds t ts ≡ false → IsDistinct (ts ++ t ∷ [])
unfolding any
IsDistinct-append t [] d h = (refl, tt)
IsDistinct-append t (s ∷ ts) (fresh, d) h = (
  rw (holds-append s t ts, text_eq_sym s t) (ground arith),
  IsDistinct-append t ts d (ground arith),
)

-- How the loop takes its first tag.
abbrev Skips : (ℕ → ℕ) → Text → List Text → List Text → Type 0
Skips lower raw rest out =
    ((is_empty (normal lower raw) || holds (normal lower raw) out) ≡ true)
    × (gather lower (raw ∷ rest) out ≡ gather lower rest out)

abbrev Adds : (ℕ → ℕ) → Text → List Text → List Text → Type 0
Adds lower raw rest out =
    (is_empty (normal lower raw) ≡ false)
    × (byte_len (normal lower raw) ≤ max_tag_len)
    × (holds (normal lower raw) out ≡ false)
    × (gather lower (raw ∷ rest) out ≡ gather lower rest (out ++ normal lower raw ∷ []))

abbrev Refuses : (ℕ → ℕ) → Text → List Text → List Text → Type 0
Refuses lower raw rest out = (m : Message) × (gather lower (raw ∷ rest) out ≡ bad m)

pub gather-cases :
    (lower : ℕ → ℕ) (raw : Text) (rest out : List Text)
    → Skips lower raw rest out ⊎ (Adds lower raw rest out ⊎ Refuses lower raw rest out)
unfolding gather
gather-cases lower raw rest out = elim (Bool-cases (is_empty (normal lower raw))) [
  | inl e ↦ inl (rw e refl, rw e refl)
  | inr e ↦ elim (Bool-cases (ltb max_tag_len (byte_len (normal lower raw)))) [
    | inl l ↦ inr (
        inr (
          lit "tag "
              ∷ text (normal lower raw)
              ∷ lit " exceeds "
              ∷ num max_tag_len
              ∷ lit " characters"
              ∷ [],
          rw (e, l) refl,
        ))
    | inr l ↦ elim (Bool-cases (holds (normal lower raw) out)) [
      | inl h ↦ inl (rw (e, h) refl, rw (e, l, h) refl)
      | inr h ↦ inr (inl (e, ground arith, h, rw (e, l, h) refl))
    ]
  ]
]

module _ (lower : ℕ → ℕ) where
  pub gather-IsDistinct :
      (raws out : List Text) → IsDistinct out → Good IsDistinct (gather lower raws out)
  unfolding gather
  gather-IsDistinct [] out d = d
  gather-IsDistinct (raw ∷ rest) out d = elim (gather-cases lower raw rest out) [
    | inl (skip, e) ↦ rw e (gather-IsDistinct rest out d)
    | inr (inl (some_text, fits, fresh, e)) ↦ rw e (
        gather-IsDistinct rest (out ++ normal lower raw ∷ [])
          (IsDistinct-append (normal lower raw) out d fresh))
    | inr (inr (m, e)) ↦ rw e tt
  ]

  -- A property that every tag has that the loop can add.
  module _ (Q : Text → Type 0) where
    All-append : (t : Text) (ts : List Text) → All Q ts → Q t → All Q (ts ++ t ∷ [])
    All-append t [] a q = (q, tt)
    All-append t (s ∷ ts) (p, a) q = (p, All-append t ts a q)

    pub gather-All :
        (raws out : List Text)
        → All
            (λ raw.
              is_empty (normal lower raw) ≡ false
              → byte_len (normal lower raw) ≤ max_tag_len
              → Q (normal lower raw))
            raws
        → All Q out
        → Good (All Q) (gather lower raws out)
    unfolding gather
    gather-All [] out h a = a
    gather-All (raw ∷ rest) out (q, h) a = elim (gather-cases lower raw rest out) [
      | inl (skip, e) ↦ rw e (gather-All rest out h a)
      | inr (inl (some_text, fits, fresh, e)) ↦ rw e (
          gather-All rest (out ++ normal lower raw ∷ []) h
            (All-append (normal lower raw) out a (q some_text fits)))
      | inr (inr (m, e)) ↦ rw e tt
    ]
