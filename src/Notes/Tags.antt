-- ===== src/Notes/Tags.antt =====
-- `normalizeTags` of internal/notes/handler.go.
use bluestaq_takehome.Prelude.{ℕ, Bool, List, [], ◌∷◌, ◌++◌, any, length, ltb, if◌then◌else◌}
use bluestaq_takehome.Prelude.Text.{Text, text_eq, is_empty, byte_len, trim_space, to_lower}
use bluestaq_takehome.Httpx.Problems.{lit, text, num, Message}

abbrev pub max_tags : ℕ
max_tags = 32

abbrev pub max_tag_len : ℕ
max_tag_len = 64

-- The list of tags, or the error's text.
pub data Tags : Type 0 where
  good : List Text → Tags
  bad : Message → Tags

-- The map `seen` holds the tags of `out`.
abbrev pub holds : Text → List Text → Bool
holds t out = any (text_eq t) out

unfoldable pub normal : (ℕ → ℕ) → Text → Text
normal lower t = to_lower lower (trim_space t)

-- The loop, with `out`. What a `let` binds waits, so one branch is taken.
unfoldable pub gather : (ℕ → ℕ) → List Text → List Text → Tags
gather lower [] out = good out
gather lower (raw ∷ rest) out =
    let t = normal lower raw in
    let skipped = gather lower rest out in
    let added = gather lower rest (out ++ t ∷ []) in
    if is_empty t
    then skipped
    else if ltb max_tag_len (byte_len t)
    then bad (lit "tag " ∷ text t ∷ lit " exceeds " ∷ num max_tag_len ∷ lit " characters" ∷ [])
    else if holds t out
    then skipped
    else added

unfoldable pub capped : Tags → Tags
capped (bad m) = bad m
capped (good out) =
    if ltb max_tags (length out)
    then bad (lit "a note may carry at most " ∷ num max_tags ∷ lit " tags" ∷ [])
    else good out

unfoldable pub normalize_tags : (ℕ → ℕ) → List Text → Tags
normalize_tags lower tags = capped (gather lower tags [])
