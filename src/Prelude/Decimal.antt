-- ===== src/Prelude/Decimal.antt =====
-- `strconv.Itoa` of a number that is not negative, and `strconv.ParseInt` in base 10.
use Prim.Native.Nat.{ℕ, zero, suc, ◌+◌, ◌*◌, ◌-◌, ◌/◌, ◌%◌, ◌≤◌, ◌<◌}
use mathlib.Core.Path.{◌≡◌, refl, ap, ◌∙◌}
use native.Mathlib.Numerals.{add-one}
use mathlib.Core.Bool.{Bool, true, false, ◌&&◌}
use mathlib.Core.List.{[], ◌∷◌}
use mathlib.Core.Logic.{inl, inr}
use mathlib.Core.Option.{Option, none, some}
use native.Mathlib.Omega.{arith}
use bluestaq_takehome.Prelude.Tests.{ltb, leb, ◌==◌, if◌then◌else◌, Bool-cases}
use bluestaq_takehome.Prelude.Text.{Text, is_empty}

-- The digits of `n` in front of `out`; the fuel is more than `n`.
unfoldable pub emit : ℕ → ℕ → Text → Text
emit zero n out = out
emit (suc f) n out =
    let more = emit f (n / 10) ((48 + n % 10) ∷ out) in if ltb n 10 then (48 + n) ∷ out else more

unfoldable pub itoa : ℕ → Text
itoa n = emit (n + 1) n []

unfoldable pub scan : ℕ → Text → Option ℕ
scan n [] = some n
scan n (c ∷ s) = if leb 48 c && leb c 57 then scan (n * 10 + (c - 48)) s else none

-- A sign and a magnitude: `true` is minus.
unfoldable pub signed : Bool → Text → Option (Bool × ℕ)
signed minus [] = none
signed minus (c ∷ s) = elim (scan 0 (c ∷ s)) [ none ↦ none | some n ↦ some (minus, n) ]

unfoldable pub parse_sign : Text → Option (Bool × ℕ)
parse_sign [] = none
parse_sign (c ∷ s) =
    if c == 43 then signed false s else if c == 45 then signed true s else signed false (c ∷ s)

-- The range of a signed integer whose greatest value is `top`.
unfoldable pub in_range : ℕ → Option (Bool × ℕ) → Option (Bool × ℕ)
in_range top none = none
in_range top (some (minus, n)) =
    if leb n (if minus then top + 1 else top) then some (minus, n) else none

-- `none` is the error.
unfoldable pub parse_int : ℕ → Text → Option (Bool × ℕ)
parse_int top s = in_range top (parse_sign s)

-- Text of digits alone.
abbrev pub is_digit : ℕ → Bool
is_digit c = leb 48 c && leb c 57

pub data Digits : Text → Type 0 where
  end : Digits []
  digit : {c : ℕ} {s : Text} → is_digit c ≡ true → Digits s → Digits (c ∷ s)

emit-Digits : (f n : ℕ) (out : Text) → Digits out → Digits (emit f n out)
unfolding emit
emit-Digits zero n out h = h
emit-Digits (suc f) n out h = elim (Bool-cases (ltb n 10)) [
  | inl small ↦ rw small (digit (ground arith) h)
  | inr large ↦ rw large (emit-Digits f (n / 10) ((48 + n % 10) ∷ out) (digit (ground arith) h))
]

scan-digit : (m d : ℕ) (s : Text) → d < 10 → scan m ((48 + d) ∷ s) ≡ scan (m * 10 + d) s
unfolding scan
scan-digit m d s h =
    let e : m * 10 + (48 + d - 48) ≡ m * 10 + d = omega arith in
    let t : is_digit (48 + d) ≡ true = ground arith in rw (t, e) refl

scan-emit : (f n : ℕ) (out : Text) → n < f → scan 0 (emit f n out) ≡ scan n out
unfolding emit
scan-emit zero n out h = absurd (omega arith)
scan-emit (suc f) n out h = elim (Bool-cases (ltb n 10)) [
  | inl small ↦ rw small (scan-digit 0 n out (ground arith) ∙ ap (λ k. scan k out) (omega arith))
  | inr large ↦ rw large (
      scan-emit f (n / 10) ((48 + n % 10) ∷ out) (ground arith)
      ∙ scan-digit (n / 10) (n % 10) out (omega arith)
      ∙ ap (λ k. scan k out) (omega arith))
]

emit_some : (f n c : ℕ) (out : Text) → is_empty (emit f n (c ∷ out)) ≡ false
unfolding emit is_empty
emit_some zero n c out = refl
emit_some (suc f) n c out = ground (arith, emit_some f (n / 10) (48 + n % 10) (c ∷ out))

pub itoa_some : (n : ℕ) → is_empty (itoa n) ≡ false
unfolding itoa emit is_empty
itoa_some n = rw add-one (ground (arith, emit_some n (n / 10) (48 + n % 10) []))

pub itoa-Digits : (n : ℕ) → Digits (itoa n)
unfolding itoa
itoa-Digits n = emit-Digits (n + 1) n [] end

scan-itoa : (n : ℕ) → scan 0 (itoa n) ≡ some n
unfolding itoa scan
scan-itoa n = scan-emit (n + 1) n [] (omega arith)

parse_sign-Digits :
    (s : Text)
    → Digits s
    → is_empty s ≡ false
    → parse_sign s ≡ (elim (scan 0 s) [ none ↦ none | some n ↦ some (false, n) ])
unfolding parse_sign signed is_empty
parse_sign-Digits [] d h = cc
parse_sign-Digits (c ∷ s) (digit e d) h = ground arith

-- Reading back a number that was printed gives it, where it is in range.
pub parse_int-itoa : (top n : ℕ) → n ≤ top → parse_int top (itoa n) ≡ some (false, n)
unfolding parse_int in_range
parse_int-itoa top n h =
    rw (parse_sign-Digits (itoa n) (itoa-Digits n) (itoa_some n), scan-itoa n) (ground arith)
