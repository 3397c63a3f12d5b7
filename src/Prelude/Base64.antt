-- ===== src/Prelude/Base64.antt =====
-- `base64.RawURLEncoding` of the standard library, on bytes.
use Prim.Native.Nat.{ℕ, ◌+◌, ◌-◌, ◌*◌, ◌/◌, ◌%◌, ◌<◌}
use mathlib.Core.Path.{◌≡◌, refl}
use mathlib.Core.Bool.{Bool, not, ◌&&◌, ◌||◌}
use mathlib.Core.List.{List, [], ◌∷◌, map}
use mathlib.Core.Option.{Option, none, some}
use native.Mathlib.Omega.{arith}
use bluestaq_takehome.Prelude.Tests.{ltb, leb, ◌==◌, if◌then◌else◌}
use bluestaq_takehome.Prelude.Lists.{All, keep}

-- The alphabet A-Z a-z 0-9 - _.
abbrev pub letter : ℕ → ℕ
letter n =
    if ltb n 26
    then n + 65
    else if ltb n 52
    then n + 71
    else if ltb n 62
    then n - 4
    else if n == 62
    then 45
    else 95

abbrev pub sextet : ℕ → Option ℕ
sextet c =
    if leb 65 c && leb c 90
    then some (c - 65)
    else if leb 97 c && leb c 122
    then some (c - 71)
    else if leb 48 c && leb c 57
    then some (c + 4)
    else if c == 45
    then some 62
    else if c == 95
    then some 63
    else none

-- Groups of six bits.
unfoldable pub groups : List ℕ → List ℕ
groups [] = []
groups (a ∷ []) = a / 4 ∷ (a % 4 * 16) ∷ []
groups (a ∷ b ∷ []) = a / 4 ∷ (a % 4 * 16 + b / 16) ∷ (b % 16 * 4) ∷ []
groups (a ∷ b ∷ c ∷ s) = a / 4 ∷ (a % 4 * 16 + b / 16) ∷ (b % 16 * 4 + c / 64) ∷ c % 64 ∷ groups s

unfoldable pub encode : List ℕ → List ℕ
encode s = map letter (groups s)

-- The values of the letters; the decoder passes over line ends.
abbrev is_line_end : ℕ → Bool
is_line_end c = (c == 10) || (c == 13)

abbrev pub put : Option ℕ → Option (List ℕ) → Option (List ℕ)
put none rest = none
put (some n) none = none
put (some n) (some rest) = some (n ∷ rest)

unfoldable pub sextets : List ℕ → Option (List ℕ)
sextets [] = some []
sextets (c ∷ s) = put (sextet c) (sextets s)

-- The bits that a last group has too many of are not looked at.
unfoldable pub bytes_of : List ℕ → Option (List ℕ)
bytes_of [] = some []
bytes_of (p ∷ []) = none
bytes_of (p ∷ q ∷ []) = some ((p * 4 + q / 16) ∷ [])
bytes_of (p ∷ q ∷ r ∷ []) = some ((p * 4 + q / 16) ∷ (q % 16 * 16 + r / 4) ∷ [])
bytes_of (p ∷ q ∷ r ∷ t ∷ s) =
    put (some (p * 4 + q / 16))
      (put (some (q % 16 * 16 + r / 4)) (put (some (r % 4 * 64 + t)) (bytes_of s)))

unfoldable pub bytes_of_all : Option (List ℕ) → Option (List ℕ)
bytes_of_all none = none
bytes_of_all (some s) = bytes_of s

unfoldable pub decode : List ℕ → Option (List ℕ)
decode s = bytes_of_all (sextets (keep (λ c. not (is_line_end c)) s))

abbrev pub IsByte : ℕ → Type 0
IsByte b = b < 256

sextet-letter : (n : ℕ) → n < 64 → sextet (letter n) ≡ some n
sextet-letter n h = ground arith

letter-kept : (n : ℕ) → n < 64 → not (is_line_end (letter n)) ≡ Bool.true
letter-kept n h = ground arith

groups-lt : (s : List ℕ) → All IsByte s → All (λ n. n < 64) (groups s)
unfolding groups
groups-lt [] h = tt
groups-lt (a ∷ []) (p, h) = (omega arith, (omega arith, tt))
groups-lt (a ∷ b ∷ []) (p, (q, h)) = (omega arith, (omega arith, (omega arith, tt)))
groups-lt (a ∷ b ∷ c ∷ s) (p, (q, (t, h))) =
    (omega arith, (omega arith, (omega arith, (omega arith, groups-lt s h))))

sextets-letters :
    (xs : List ℕ)
    → All (λ n. n < 64) xs
    → sextets (keep (λ c. not (is_line_end c)) (map letter xs)) ≡ some xs
unfolding sextets keep
sextets-letters [] h = refl
sextets-letters (x ∷ xs) (p, h) = rw (letter-kept x p, sextets-letters xs h, sextet-letter x p) refl

bytes_of-groups : (s : List ℕ) → All IsByte s → bytes_of (groups s) ≡ some s
unfolding bytes_of groups
bytes_of-groups [] h = refl
bytes_of-groups (a ∷ []) (p, h) = let e : a / 4 * 4 + a % 4 * 16 / 16 ≡ a = omega arith in rw e refl
bytes_of-groups (a ∷ b ∷ []) (p, (q, h)) =
    let e : a / 4 * 4 + (a % 4 * 16 + b / 16) / 16 ≡ a = omega arith in
    let f : (a % 4 * 16 + b / 16) % 16 * 16 + b % 16 * 4 / 4 ≡ b = omega arith in rw (e, f) refl
bytes_of-groups (a ∷ b ∷ c ∷ s) (p, (q, (t, h))) =
    let e : a / 4 * 4 + (a % 4 * 16 + b / 16) / 16 ≡ a = omega arith in
    let f : (a % 4 * 16 + b / 16) % 16 * 16 + (b % 16 * 4 + c / 64) / 4 ≡ b = omega arith in
    let g : (b % 16 * 4 + c / 64) % 4 * 64 + c % 64 ≡ c = omega arith in
    rw (bytes_of-groups s h, e, f, g) refl

-- What is encoded is decoded to itself.
pub decode-encode : (s : List ℕ) → All IsByte s → decode (encode s) ≡ some s
unfolding decode encode bytes_of_all
decode-encode s h = rw (sextets-letters (groups s) (groups-lt s h)) (bytes_of-groups s h)
