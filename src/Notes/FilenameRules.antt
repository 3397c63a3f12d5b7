-- ===== src/Notes/FilenameRules.antt =====
-- What `sanitizeFilename` of internal/notes/attachments.go lets through.
use mathlib.Core.List.{append_assoc}
use bluestaq_takehome.Prelude.{
  ℕ, ◌-◌, ◌≤◌, ◌≡◌, refl, sym, ◌⊎◌, Bool, true, false, not, ◌||◌, Bool-cases, inl, inr, [], ◌∷◌,
  ◌++◌, map, any, keep, length, ltb, ◌==◌, if◌then◌else◌, arith,
}
use bluestaq_takehome.Prelude.Text.{
  Text, codes, text_eq, is_empty, rune_len, byte_len, trim_space, trim_right, before_trimmed,
}
use bluestaq_takehome.Notes.Filenames.{
  is_slash, last_element, or_default, base, forward, is_unsafe, max_filename_bytes, cut_bytes,
  cleaned, bounded, sanitize_filename,
}

-- A control character of ASCII, which is below 32 or is 127, a quote, or a separator of paths.
abbrev pub is_harmful : ℕ → Bool
is_harmful c = ltb c 32 || (c == 127) || (c == 34) || (c == 47) || (c == 92)

any-append_false :
    (p : ℕ → Bool) (s t : Text) → any p s ≡ false → any p t ≡ false → any p (s ++ t) ≡ false
unfolding any
any-append_false p [] t h k = k
any-append_false p (c ∷ s) t h k = ground (arith, any-append_false p s t)

any-before_trimmed :
    (p cut : ℕ → Bool) (c : ℕ) (s : Text)
    → any p (c ∷ s) ≡ false
    → any p (before_trimmed cut c s) ≡ false
unfolding any before_trimmed
any-before_trimmed p cut c [] h = ground arith
any-before_trimmed p cut c (d ∷ s) h = h

-- What no character of a text passes, no character of its parts passes.
any-trim_right : (p cut : ℕ → Bool) (s : Text) → any p s ≡ false → any p (trim_right cut s) ≡ false
unfolding any trim_right
any-trim_right p cut [] h = h
any-trim_right p cut (c ∷ s) h =
    any-before_trimmed p cut c (trim_right cut s) (ground (arith, any-trim_right p cut s))

any-last_element :
    (p : ℕ → Bool) (whole s : Text)
    → any p whole ≡ false
    → any p s ≡ false
    → any p (last_element whole s) ≡ false
unfolding any last_element
any-last_element p whole [] h k = h
any-last_element p whole (c ∷ s) h k =
    any-last_element p (if is_slash c then s else whole) s (ground arith) (ground arith)

any-keep : (p q : ℕ → Bool) (s : Text) → any p s ≡ false → any p (keep q s) ≡ false
unfolding any keep
any-keep p q [] h = h
any-keep p q (c ∷ s) h = ground (arith, any-keep p q s)

-- `strings.Map` leaves none of what it drops.
any-dropped : (p : ℕ → Bool) (s : Text) → any p (keep (λ c. not (p c)) s) ≡ false
unfolding any keep
any-dropped p [] = refl
any-dropped p (c ∷ s) = ground (arith, any-dropped p s)

-- The last element holds no slash: what is in front of the rest of it has none.
last_element-no_slash :
    (front s : Text)
    → any is_slash front ≡ false
    → any is_slash (last_element (front ++ s) s) ≡ false
unfolding any last_element
last_element-no_slash front [] h = any-append_false is_slash front [] h refl
last_element-no_slash front (c ∷ s) h = elim (Bool-cases (is_slash c)) [
  | inl e ↦ rw e (last_element-no_slash [] s refl)
  | inr e ↦
      let longer : any is_slash (front ++ c ∷ []) ≡ false =
        any-append_false is_slash front (c ∷ []) h (rw e refl) in
      rw (e, sym (append_assoc front (c ∷ []) s)) (last_element-no_slash (front ++ c ∷ []) s longer)
]

forward-not_back : (s : Text) → any (λ c. c == 92) (map forward s) ≡ false
unfolding any
forward-not_back [] = refl
forward-not_back (c ∷ s) = ground (arith, forward-not_back s)

any-or :
    (p q : ℕ → Bool) (s : Text)
    → any p s ≡ false
    → any q s ≡ false
    → any (λ c. p c || q c) s ≡ false
unfolding any
any-or p q [] h k = refl
any-or p q (c ∷ s) h k = ground (arith, any-or p q s)

-- A name made of harmless characters, or the root.
abbrev IsClean : Text → Type 0
IsClean s = (any is_harmful s ≡ false) ⊎ (s ≡ codes "/")

any-mono_false :
    (p q : ℕ → Bool) (s : Text)
    → ((c : ℕ) → p c ≡ true → q c ≡ true)
    → any q s ≡ false
    → any p s ≡ false
unfolding any
any-mono_false p q [] h k = refl
any-mono_false p q (c ∷ s) h k = ground (arith, h c, any-mono_false p q s h)

split_harm : (c : ℕ) → is_harmful c ≡ true → (is_unsafe c || (is_slash c || (c == 92))) ≡ true
split_harm c h = ground arith

kept-IsClean :
    (t : Text)
    → any (λ c. c == 92) t ≡ false
    → any is_slash t ≡ false
    → any is_harmful (keep (λ c. not (is_unsafe c)) t) ≡ false
kept-IsClean t back slash =
    any-mono_false is_harmful (λ c. is_unsafe c || (is_slash c || (c == 92))) _ split_harm
      (any-or is_unsafe (λ c. is_slash c || (c == 92)) _ (any-dropped is_unsafe t)
        (any-or is_slash (λ c. c == 92) _ (any-keep is_slash (λ c. not (is_unsafe c)) t slash)
          (any-keep (λ c. c == 92) (λ c. not (is_unsafe c)) t back)))

base-IsClean :
    (s : Text) → any (λ c. c == 92) s ≡ false → IsClean (keep (λ c. not (is_unsafe c)) (base s))
unfolding base or_default any keep
base-IsClean s back = elim (Bool-cases (is_empty s)) [
  | inl e ↦ rw e (inl refl)
  | inr e ↦
      let path = trim_right is_slash s in
      let last = last_element path path in
      elim (Bool-cases (is_empty last)) [
        | inl none_left ↦ rw (e, none_left) (inr refl)
        | inr left ↦
            rw (e, left)
              (inl (
                kept-IsClean last
                  (any-last_element (λ c. c == 92) path path
                    (any-trim_right (λ c. c == 92) is_slash s back)
                    (any-trim_right (λ c. c == 92) is_slash s back))
                  (last_element-no_slash [] path refl)))
      ]
]

any-cut_bytes :
    (n : ℕ) (s : Text) → any is_harmful s ≡ false → any is_harmful (cut_bytes n s) ≡ false
unfolding any cut_bytes
any-cut_bytes n [] h = refl
any-cut_bytes n (c ∷ s) h = ground (arith, any-cut_bytes (n - rune_len c) s)

rune_len-pos : (c : ℕ) → 1 ≤ rune_len c
unfolding rune_len
rune_len-pos c = ground arith

length-cut_bytes : (n : ℕ) (s : Text) → length (cut_bytes n s) ≤ n
unfolding cut_bytes
length-cut_bytes n [] = omega arith
length-cut_bytes n (c ∷ s) = ground (arith, rune_len-pos c, length-cut_bytes (n - rune_len c) s)

length-le-byte_len : (s : Text) → length s ≤ byte_len s
unfolding byte_len
length-le-byte_len [] = omega arith
length-le-byte_len (c ∷ s) = omega (arith, rune_len-pos c, length-le-byte_len s)

abbrev IsHarmless : Text → Type 0
IsHarmless s = (any is_harmful s ≡ false) × (length s ≤ 255)

bounded-IsHarmless : (s : Text) → IsClean s → IsHarmless (bounded s)
unfolding bounded any text_eq
bounded-IsHarmless s (inr root) = rw root (refl, omega arith)
bounded-IsHarmless s (inl clean) =
    elim (Bool-cases (text_eq s (codes ".") || text_eq s (codes "..") || text_eq s (codes "/"))) [
      | inl special ↦ rw special (refl, omega arith)
      | inr plain ↦ elim (Bool-cases (ltb max_filename_bytes (byte_len s))) [
        | inl long ↦ rw (plain, long) (any-cut_bytes 255 s clean, length-cut_bytes 255 s)
        | inr short ↦ rw (plain, short) (clean, ground (arith, length-le-byte_len s))
      ]
    ]

-- Whatever name a client sends, what is stored and echoed in a Content-Disposition header holds no
-- character below 32 and no DEL, the control characters of ASCII, no quote and neither kind of slash,
-- and has at most 255 characters, which is what the table takes.
pub sanitize_filename-IsHarmless :
    (s : Text)
    → (any is_harmful (sanitize_filename s) ≡ false) × (length (sanitize_filename s) ≤ 255)
unfolding sanitize_filename cleaned
sanitize_filename-IsHarmless s =
    bounded-IsHarmless _
      (base-IsClean (map forward (trim_space s)) (forward-not_back (trim_space s)))
