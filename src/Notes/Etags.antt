-- ===== src/Notes/Etags.antt =====
-- The version of a note as an entity tag: `setETag` and `ifMatchVersion` of
-- internal/notes/handler.go.
use bluestaq_takehome.Prelude.{ℕ, ◌≤◌, ◌≡◌, refl, ◌++◌, Bool, true, false, [], ◌∷◌, arith}
use bluestaq_takehome.Prelude.Text.{
  Text, codes, text_eq, is_empty, is_space, is_quote, trim_left, trim_right, before_trimmed,
  trim_space, trim_quotes, after_prefix, trim_prefix,
}
use bluestaq_takehome.Prelude.Decimal.{
  itoa, parse_int, is_digit, Digits, digit, itoa-Digits, itoa_some, parse_int-itoa,
}
use bluestaq_takehome.Httpx.Problems.{ok}
use bluestaq_takehome.Notes.IfMatch.{etag_text, max_int32, version_of, if_match_version}

trim_right-last :
    (cut : ℕ → Bool) (c : ℕ) (s : Text) → cut c ≡ false → trim_right cut (s ++ c ∷ []) ≡ s ++ c ∷ []
unfolding trim_right before_trimmed
trim_right-last cut c [] h = rw h refl
trim_right-last cut c (a ∷ []) h = rw h refl
trim_right-last cut c (a ∷ b ∷ s) h = rw (trim_right-last cut c (b ∷ s) h) refl

digit-not_quote : (c : ℕ) → is_digit c ≡ true → is_quote c ≡ false
digit-not_quote c h = ground arith

trim_right-Digits : (s : Text) → Digits s → trim_right is_quote (s ++ 34 ∷ []) ≡ s
unfolding trim_right before_trimmed
trim_right-Digits [] d = refl
trim_right-Digits (c ∷ []) (digit e d) = rw (digit-not_quote c e) refl
trim_right-Digits (c ∷ b ∷ s) (digit e d) = rw (trim_right-Digits (b ∷ s) d) refl

trim_left-Digits :
    (s : Text) → Digits s → is_empty s ≡ false → trim_left is_quote (s ++ 34 ∷ []) ≡ s ++ 34 ∷ []
unfolding trim_left is_empty
trim_left-Digits [] d h = cc
trim_left-Digits (c ∷ s) (digit e d) h = rw (digit-not_quote c e) refl

trim_quotes-etag_text : (v : ℕ) → trim_quotes (etag_text v) ≡ itoa v
unfolding trim_quotes etag_text trim_left
trim_quotes-etag_text v =
    rw (trim_left-Digits (itoa v) (itoa-Digits v) (itoa_some v))
      (trim_right-Digits (itoa v) (itoa-Digits v))

trim_space-etag_text : (v : ℕ) → trim_space (etag_text v) ≡ etag_text v
unfolding trim_space etag_text trim_left is_space
trim_space-etag_text v = trim_right-last is_space 34 (34 ∷ itoa v) refl

trim_space-weak : (v : ℕ) → trim_space (codes "W/" ++ etag_text v) ≡ codes "W/" ++ etag_text v
unfolding trim_space etag_text trim_left is_space
trim_space-weak v = trim_right-last is_space 34 (87 ∷ 47 ∷ 34 ∷ itoa v) refl

version_of-itoa :
    (raw : Text) (v : ℕ)
    → 1 ≤ v
    → v ≤ max_int32
    → version_of raw (parse_int max_int32 (itoa v)) ≡ ok v
unfolding version_of
version_of-itoa raw v low high = rw (parse_int-itoa max_int32 v high) (ground arith)

-- What the code compares the trimmed header with.
etag_shape :
    (v : ℕ)
    → (is_empty (etag_text v) ≡ false)
      × (text_eq (etag_text v) (codes "*") ≡ false)
      × (trim_prefix (etag_text v) (codes "W/") ≡ etag_text v)
      × (trim_prefix (codes "W/" ++ etag_text v) (codes "W/") ≡ etag_text v)
unfolding etag_text is_empty text_eq trim_prefix after_prefix
etag_shape v = (refl, refl, refl, refl)

weak_shape :
    (s : Text)
    → (is_empty (codes "W/" ++ s) ≡ false) × (text_eq (codes "W/" ++ s) (codes "*") ≡ false)
unfolding is_empty text_eq
weak_shape s = (refl, refl)

if_match-strong : (v : ℕ) → 1 ≤ v → v ≤ max_int32 → if_match_version (etag_text v) ≡ ok v
unfolding if_match_version
if_match-strong v low high =
    let (some_text, no_star, bare, _) = etag_shape v in
    rw (trim_space-etag_text v, some_text, no_star, bare, trim_quotes-etag_text v)
      (version_of-itoa (etag_text v) v low high)

if_match-weak :
    (v : ℕ) → 1 ≤ v → v ≤ max_int32 → if_match_version (codes "W/" ++ etag_text v) ≡ ok v
unfolding if_match_version
if_match-weak v low high =
    let (_, _, _, bare) = etag_shape v in
    let (some_text, no_star) = weak_shape (etag_text v) in
    rw (trim_space-weak v, some_text, no_star, bare, trim_quotes-etag_text v)
      (version_of-itoa (codes "W/" ++ etag_text v) v low high)

-- The entity tag that a reply carries for the version `v`, a positive 32-bit integer, is read back
-- as `v` from an If-Match header, and so is the same tag marked as weak.
pub if_match_version-etag_text :
    (v : ℕ)
    → 1 ≤ v
    → v ≤ max_int32
    → (if_match_version (etag_text v) ≡ ok v)
      × (if_match_version (codes "W/" ++ etag_text v) ≡ ok v)
if_match_version-etag_text v low high = (if_match-strong v low high, if_match-weak v low high)
