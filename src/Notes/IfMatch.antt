-- ===== src/Notes/IfMatch.antt =====
-- `setETag` and `ifMatchVersion` of internal/notes/handler.go.
use bluestaq_takehome.Prelude.{
  ℕ, ◌^◌, ◌-◌, ◌++◌, Bool, ◌||◌, Option, none, some, [], ◌∷◌, ltb, if◌then◌else◌,
}
use bluestaq_takehome.Prelude.Text.{
  Text, codes, text_eq, is_empty, trim_space, trim_quotes, trim_prefix,
}
use bluestaq_takehome.Prelude.Decimal.{itoa, parse_int}
use bluestaq_takehome.Httpx.Problems.{Result, ok, err, problem, errorf, say, lit, text}
use bluestaq_takehome.Httpx.{Reply}

-- strconv.Quote of the digits.
unfoldable pub etag_text : ℕ → Text
etag_text version = 34 ∷ (itoa version ++ 34 ∷ [])

unfoldable pub set_etag : {A : Type 0} → ℕ → Reply A → Reply A
set_etag version reply = record reply { etag = some (etag_text version) }

abbrev pub max_int32 : ℕ
max_int32 = 2 ^ 31 - 1

-- err != nil || v < 1.
unfoldable pub version_of : Text → Option (Bool × ℕ) → Result ℕ
version_of raw none =
    err (
      problem (errorf 400 (lit "If-Match must be the note's version number, got " ∷ text raw ∷ [])))
version_of raw (some (minus, v)) =
    if minus || ltb v 1
    then err (
        problem
          (errorf 400 (lit "If-Match must be the note's version number, got " ∷ text raw ∷ [])))
    else ok v

unfoldable pub if_match_version : Text → Result ℕ
if_match_version header =
    let raw = trim_space header in
    if is_empty raw
    then err (
        problem (
          errorf 428 (
            say
              "an If-Match header carrying the note's current version is required; read the note first and send back its ETag")))
    else if text_eq raw (codes "*")
    then err
        (problem (errorf 428 (say "If-Match: * is not accepted; send the note's current version")))
    else version_of raw (parse_int max_int32 (trim_quotes (trim_prefix raw (codes "W/"))))
