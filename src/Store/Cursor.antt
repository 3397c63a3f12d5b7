-- ===== src/Store/Cursor.antt =====
-- `Cursor` of internal/store/notes_list.go: its text, and what is read back.
use bluestaq_takehome.Prelude.{
  ltb, ℕ, suc, zero, ◌-◌, ◌^◌, ◌≤◌, ◌≡◌, refl, Bool, true, false, Option, none, some, List, [], ◌∷◌,
  ◌++◌, All, ◌==◌, if◌then◌else◌, arith,
}
use bluestaq_takehome.Prelude.Text.{Text}
use bluestaq_takehome.Prelude.Integer.{ℤ, pos, negsuc}
use bluestaq_takehome.Prelude.Decimal.{itoa, parse_int, parse_int-itoa, Digits, itoa-Digits}
use bluestaq_takehome.Prelude.Base64
use bluestaq_takehome.Prelude.Base64.{IsByte, decode-encode}
use bluestaq_takehome.Store.World.{Env}

pub record Cursor : Type 0 where
  pub updated_at : ℤ  -- UnixNano
  pub id : ℕ
  pub rank : ℤ

abbrev bar : ℕ
bar = 124

-- The verb %d of `fmt`.
unfoldable pub format_int : ℤ → Text
format_int (pos n) = itoa n
format_int (negsuc n) = 45 ∷ itoa (suc n)

unfoldable pub encode : Env → Cursor → Text
encode env c =
    Base64.encode
      (format_int c.updated_at ++ bar ∷ (env.uuid_string c.id ++ bar ∷ env.format_float c.rank))

-- The first part of a text, and the parts behind a bar.
abbrev extend : ℕ → List Text → List Text
extend c [] = (c ∷ []) ∷ []
extend c (p ∷ ps) = (c ∷ p) ∷ ps

-- `strings.Split(s, "|")`.
unfoldable pub split_bars : Text → List Text
split_bars [] = [] ∷ []
split_bars (c ∷ s) = if c == bar then [] ∷ split_bars s else extend c (split_bars s)

abbrev int_of : Bool × ℕ → ℤ
int_of (false, n) = pos n
int_of (true, zero) = pos 0
int_of (true, suc n) = negsuc n

abbrev cursor_of : Option (Bool × ℕ) → Option ℕ → Option ℤ → Option Cursor
cursor_of (some nanos) (some id) (some rank) =
    some (record { updated_at = int_of nanos; id = id; rank = rank })
cursor_of _ _ _ = none

unfoldable pub cursor_of_parts : Env → List Text → Option Cursor
cursor_of_parts env (nanos ∷ id ∷ rank ∷ []) =
    cursor_of (parse_int (2 ^ 63 - 1) nanos) (env.uuid_parse id) (env.parse_float rank)
cursor_of_parts env _ = none

unfoldable pub cursor_of_bytes : Env → Option Text → Option Cursor
cursor_of_bytes env none = none
cursor_of_bytes env (some raw) = cursor_of_parts env (split_bars raw)

-- `none` is the error.
unfoldable pub decode_cursor : Env → Text → Option Cursor
decode_cursor env s = cursor_of_bytes env (Base64.decode s)

abbrev pub is_plain : ℕ → Bool
is_plain c = if c == bar then false else ltb c 256

-- Bytes, and no bar among them.
abbrev pub IsPlain : Text → Type 0
IsPlain s = All (λ c. is_plain c ≡ true) s

split_bars-append : (s rest : Text) → IsPlain s → split_bars (s ++ bar ∷ rest) ≡ s ∷ split_bars rest
unfolding split_bars
split_bars-append [] rest h = refl
split_bars-append (c ∷ s) rest (p, h) = rw (split_bars-append s rest h) (ground arith)

split_bars-IsPlain : (s : Text) → IsPlain s → split_bars s ≡ s ∷ []
unfolding split_bars
split_bars-IsPlain [] h = refl
split_bars-IsPlain (c ∷ s) (p, h) = rw (split_bars-IsPlain s h) (ground arith)

Digits-IsPlain : {s : Text} → Digits s → IsPlain s
Digits-IsPlain Digits.end = tt
Digits-IsPlain (Digits.digit e d) = (ground arith, Digits-IsPlain d)

bytes-append : (s t : Text) → All IsByte s → All IsByte t → All IsByte (s ++ t)
bytes-append [] t h k = k
bytes-append (c ∷ s) t (p, h) k = (p, bytes-append s t h k)

plain-bytes : (s : Text) → IsPlain s → All IsByte s
plain-bytes [] h = tt
plain-bytes (c ∷ s) (p, h) = (ground arith, plain-bytes s h)

-- What the cursor relies on: google/uuid and strconv read back what they print, and print plain text.
pub record IsReadBack (env : Env) (id : ℕ) (rank : ℤ) : Type 0 where
  pub uuid_back : env.uuid_parse (env.uuid_string id) ≡ some id
  pub uuid_plain : IsPlain (env.uuid_string id)
  pub float_back : env.parse_float (env.format_float rank) ≡ some rank
  pub float_plain : IsPlain (env.format_float rank)

-- A cursor that the server hands out is read back as it was: the position of a note at a time of not
-- more than 63 bits. The uuid and the rank are read back as they are printed, without a bar.
pub decode_cursor-encode :
    (env : Env) (time id : ℕ) (rank : ℤ)
    → time ≤ 2 ^ 63 - 1
    → IsReadBack env id rank
    → decode_cursor env (encode env (record { updated_at = pos time; id = id; rank = rank }))
      ≡ some (record { updated_at = pos time; id = id; rank = rank })
unfolding decode_cursor encode format_int cursor_of_bytes cursor_of_parts
decode_cursor-encode env time id rank low back =
    let digits = Digits-IsPlain (itoa-Digits time) in
    let tail =
      bytes-append (env.uuid_string id) (bar ∷ env.format_float rank)
        (plain-bytes _ back.uuid_plain) (omega arith, plain-bytes _ back.float_plain) in
    rw
      (
        decode-encode (itoa time ++ bar ∷ (env.uuid_string id ++ bar ∷ env.format_float rank))
            (bytes-append (itoa time) _ (plain-bytes _ digits) (omega arith, tail)),
        split_bars-append (itoa time) (env.uuid_string id ++ bar ∷ env.format_float rank) digits,
        split_bars-append (env.uuid_string id) (env.format_float rank) back.uuid_plain,
        split_bars-IsPlain (env.format_float rank) back.float_plain,
        parse_int-itoa (2 ^ 63 - 1) time low,
        back.uuid_back,
        back.float_back,
      )
      refl
