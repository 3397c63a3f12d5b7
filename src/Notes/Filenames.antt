-- ===== src/Notes/Filenames.antt =====
-- `sanitizeFilename` and `allowedMIME` of internal/notes/attachments.go, with the parts of
-- `path/filepath` that the attachment endpoints call.
use bluestaq_takehome.Prelude.{
  ℕ, ◌-◌, Bool, true, false, not, ◌||◌, Option, none, some, List, [], ◌∷◌, map, ltb, leb, ◌==◌,
  if◌then◌else◌, keep, any,
}
use bluestaq_takehome.Prelude.Text.{
  Text, codes, text_eq, is_empty, rune_len, byte_len, trim_space, trim_right, after_prefix,
  to_lower,
}

abbrev pub is_slash : ℕ → Bool
is_slash c = c == 47

-- What follows the last slash, or `whole`.
unfoldable pub last_element : Text → Text → Text
last_element whole [] = whole
last_element whole (c ∷ s) = last_element (if is_slash c then s else whole) s

unfoldable pub or_default : Text → Text → Text
or_default other s = if is_empty s then other else s

-- `filepath.Base`: trailing slashes are stripped first.
unfoldable pub base : Text → Text
base path =
    if is_empty path
    then codes "."
    else or_default (codes "/") (last_element (trim_right is_slash path) (trim_right is_slash path))

-- `filepath.Ext`: from the last dot behind the last slash.
unfoldable pub ext_from : Text → Text → Text
ext_from found [] = found
ext_from found (c ∷ s) = ext_from (if is_slash c then [] else if c == 46 then c ∷ s else found) s

unfoldable pub ext : Text → Text
ext path = ext_from [] path

-- `strings.ReplaceAll(s, "\\", "/")`.
abbrev pub forward : ℕ → ℕ
forward c = if c == 92 then 47 else c

-- What `strings.Map` drops.
abbrev pub is_unsafe : ℕ → Bool
is_unsafe c = ltb c 32 || (c == 127) || (c == 34)

abbrev pub max_filename_bytes : ℕ
max_filename_bytes = 255

-- `s[:n]`, in bytes. A rune that the cut divides leaves an incomplete sequence, which stands as one
-- code point above Unicode.
unfoldable pub cut_bytes : ℕ → Text → Text
cut_bytes n [] = []
cut_bytes n (c ∷ s) =
    let more = cut_bytes (n - rune_len c) s in
    if leb (rune_len c) n then c ∷ more else if n == 0 then [] else 0x110000 ∷ []

unfoldable pub cleaned : Text → Text
cleaned s = keep (λ c. not (is_unsafe c)) (base (map forward (trim_space s)))

unfoldable pub bounded : Text → Text
bounded s =
    if text_eq s (codes ".") || text_eq s (codes "..") || text_eq s (codes "/")
    then []
    else if ltb max_filename_bytes (byte_len s)
    then cut_bytes max_filename_bytes s
    else s

unfoldable pub sanitize_filename : Text → Text
sanitize_filename s = bounded (cleaned s)

unfoldable pub ends_with_slash : Text → Bool
ends_with_slash [] = false
ends_with_slash (c ∷ []) = is_slash c
ends_with_slash (c ∷ d ∷ s) = ends_with_slash (d ∷ s)

abbrev pub found : Option Text → Bool
found none = false
found (some rest) = true

-- `strings.HasPrefix`.
abbrev pub has_prefix : Text → Text → Bool
has_prefix s prefix = found (after_prefix prefix s)

-- One entry of `AllowedMIME`.
abbrev pub matches_mime : Text → Text → Bool
matches_mime mime allowed =
    if ends_with_slash allowed then has_prefix mime allowed else text_eq mime allowed

unfoldable pub allowed_mime : (ℕ → ℕ) → List Text → Text → Bool
allowed_mime lower allowed mime = any (matches_mime (to_lower lower (trim_space mime))) allowed
