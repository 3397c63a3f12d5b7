-- ===== src/Notes/TagRules.antt =====
-- What `normalizeTags` of internal/notes/handler.go lets through.
use mathlib.Core.Path.{subst}
use bluestaq_takehome.Prelude.{
  ℕ, ◌≤◌, ◌≡◌, refl, Bool, true, false, ◌||◌, Bool-cases, inl, inr, List, [], ◌∷◌, ◌++◌, any,
  length, All, ltb, arith,
}
use bluestaq_takehome.Prelude.Text.{Text, text_eq, is_empty, byte_len}
use bluestaq_takehome.Notes.Tags.{
  max_tags, max_tag_len, Tags, good, bad, holds, normal, gather, capped, normalize_tags,
}
use bluestaq_takehome.Notes.Gathering.{
  IsTag, IsDistinct, IsCovering, Good, text_eq_refl, holds-append, gather-cases, gather-IsDistinct,
  gather-All,
}

-- Every tag of the request is one of its own.
module _ (lower : ℕ → ℕ) where
  All-own :
      (raws xs : List Text)
      → ((t : Text)
          → any (λ raw. text_eq (normal lower raw) t) xs ≡ true
          → any (λ raw. text_eq (normal lower raw) t) raws ≡ true)
      → All
          (λ raw.
            is_empty (normal lower raw) ≡ false
            → byte_len (normal lower raw) ≤ max_tag_len
            → IsTag lower raws (normal lower raw))
          xs
  unfolding any
  All-own raws [] h = tt
  All-own raws (x ∷ xs) h = (
    λ some_text fits.
        (h (normal lower x) (rw (text_eq_refl (normal lower x)) refl), some_text, fits),
    All-own raws xs (λ t e. h t (ground arith)),
  )

  abbrev Extends : List Text → List Text → Type 0
  Extends out ts = (t : Text) → holds t out ≡ true → holds t ts ≡ true

  gather-Extends : (raws out : List Text) → Good (Extends out) (gather lower raws out)
  unfolding gather
  gather-Extends [] out = λ t h. h
  gather-Extends (raw ∷ rest) out = elim (gather-cases lower raw rest out) [
    | inl (skip, e) ↦ rw e (gather-Extends rest out)
    | inr (inl (some_text, fits, fresh, e)) ↦ rw e (
        shorten (gather lower rest (out ++ normal lower raw ∷ []))
          (gather-Extends rest (out ++ normal lower raw ∷ [])))
    | inr (inr (m, e)) ↦ rw e tt
  ]
    where
      shorten : (g : Tags) → Good (Extends (out ++ normal lower raw ∷ [])) g → Good (Extends out) g
      shorten (good ts) h = λ t k. h t (rw (holds-append t (normal lower raw) out, k) refl)
      shorten (bad m) h = tt

  abbrev covered : Text → List Text → Bool
  covered raw ts = is_empty (normal lower raw) || holds (normal lower raw) ts

  covered-Extends :
      (raw : Text) (out : List Text) (rest : List Text) (g : Tags)
      → covered raw out ≡ true
      → Good (Extends out) g
      → Good (IsCovering lower rest) g
      → Good (IsCovering lower (raw ∷ rest)) g
  covered-Extends raw out rest (bad m) c h k = tt
  covered-Extends raw out rest (good ts) c h k = (ground (arith, h (normal lower raw)), k)

  gather-IsCovering : (raws out : List Text) → Good (IsCovering lower raws) (gather lower raws out)
  unfolding gather
  gather-IsCovering [] out = tt
  gather-IsCovering (raw ∷ rest) out = elim (gather-cases lower raw rest out) [
    | inl (skip, e) ↦ rw e (
        covered-Extends raw out rest (gather lower rest out) skip (gather-Extends rest out)
          (gather-IsCovering rest out))
    | inr (inl (some_text, fits, fresh, e)) ↦
        let more = out ++ normal lower raw ∷ [] in
        rw e (
          covered-Extends raw more rest (gather lower rest more)
            (rw
              (
                holds-append (normal lower raw) (normal lower raw) out,
                text_eq_refl (normal lower raw),
                some_text,
                fresh,
              )
              refl)
            (gather-Extends rest more) (gather-IsCovering rest more))
    | inr (inr (m, e)) ↦ rw e tt
  ]

-- What a list of tags promises that a note is given.
abbrev pub IsNormalized : (ℕ → ℕ) → List Text → List Text → Type 0
IsNormalized lower raws ts =
    IsDistinct ts × All (IsTag lower raws) ts × IsCovering lower raws ts × (length ts ≤ max_tags)

capped-Good :
    (lower : ℕ → ℕ) (raws : List Text) (g : Tags)
    → Good IsDistinct g
    → Good (All (IsTag lower raws)) g
    → Good (IsCovering lower raws) g
    → Good (IsNormalized lower raws) (capped g)
unfolding capped
capped-Good lower raws (bad m) d a c = tt
capped-Good lower raws (good ts) d a c = elim (Bool-cases (ltb max_tags (length ts))) [
  | inl e ↦ rw e tt
  | inr e ↦ rw e (d, a, c, ground arith)
]

normalize_tags-Good :
    (lower : ℕ → ℕ) (raws : List Text) → Good (IsNormalized lower raws) (normalize_tags lower raws)
unfolding normalize_tags
normalize_tags-Good lower raws =
    capped-Good lower raws (gather lower raws []) (gather-IsDistinct lower raws [] tt)
      (gather-All lower (IsTag lower raws) raws [] (All-own lower raws raws (λ t e. e)) tt)
      (gather-IsCovering lower raws [])

-- Where the tags of a request are taken, no tag stands twice in the list that is stored; each one
-- is a tag of the request, trimmed and in lower case, not empty and of 64 bytes at most; every tag
-- of the request that is not blank is there; and there are 32 at most.
pub normalize_tags-IsNormalized :
    (lower : ℕ → ℕ) (raws ts : List Text)
    → normalize_tags lower raws ≡ good ts
    → IsNormalized lower raws ts
normalize_tags-IsNormalized lower raws ts e =
    subst (Good (IsNormalized lower raws)) e (normalize_tags-Good lower raws)
