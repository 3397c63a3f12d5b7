-- ===== src/Storage.antt =====
-- internal/storage/storage.go: the object store. The client of minio-go is `Env.object_client`.
use bluestaq_takehome.Prelude.{
  ℕ, zero, suc, ◌+◌, ◌/◌, ◌%◌, Bool, true, false, not, ◌&&◌, ◌||◌, Option, none, some, [], ◌∷◌,
  ◌++◌, ltb, leb, ◌==◌, if◌then◌else◌,
}
use bluestaq_takehome.Prelude.Text.{Text, codes, is_empty, after_prefix}
use bluestaq_takehome.Httpx.Problems.{Err, no_such_key}
use bluestaq_takehome.Store.World.{M, ObjectInfo, external, removed}
use bluestaq_takehome.Config.{StorageConfig}

-- minio.Options, and what `New` gives them.
pub data BucketLookup : Type 0 where
  bucket_lookup_path bucket_lookup_dns : BucketLookup

pub record Options : Type 0 where
  pub endpoint : Text
  pub access_key : Text
  pub secret_key : Text
  pub secure : Bool
  pub region : Text
  pub lookup : BucketLookup

abbrev pub bucket_lookup : Bool → BucketLookup
bucket_lookup true = bucket_lookup_path
bucket_lookup false = bucket_lookup_dns

-- `len(s) > len(prefix) && s[:len(prefix)] == prefix`, with the rest.
unfoldable pub longer_than_prefix : Option Text → Option Text
longer_than_prefix none = none
longer_than_prefix (some []) = none
longer_than_prefix (some (c ∷ s)) = some (c ∷ s)

unfoldable pub trim_https : Text → Option Text → Text × Bool
trim_https endpoint none = (endpoint, false)
trim_https endpoint (some s) = (s, false)

unfoldable pub trim_http : Text → Option Text → Text × Bool
trim_http endpoint none =
    trim_https endpoint (longer_than_prefix (after_prefix (codes "https://") endpoint))
trim_http endpoint (some s) = (s, true)

unfoldable pub trim_scheme : Text → Text × Bool
trim_scheme endpoint =
    trim_http endpoint (longer_than_prefix (after_prefix (codes "http://") endpoint))

unfoldable pub client_options : StorageConfig → Options
client_options cfg = record {
  endpoint =
      if is_empty cfg.endpoint
      then codes "s3." ++ (cfg.region ++ codes ".amazonaws.com")
      else (trim_scheme cfg.endpoint).0;
  access_key = cfg.access_key;
  secret_key = cfg.secret_key;
  secure = if is_empty cfg.endpoint then true else not (trim_scheme cfg.endpoint).1;
  region = cfg.region;
  lookup = bucket_lookup cfg.use_path_style;
}

-- The verb %q of `fmt`, `strconv.Quote`: the low `n` digits of base 16.
abbrev hex_digit : ℕ → ℕ
hex_digit d = if ltb d 10 then 48 + d else 87 + d

unfoldable pub hex : ℕ → ℕ → Text → Text
hex zero c out = out
hex (suc n) c out = hex n (c / 16) (hex_digit (c % 16) ∷ out)

-- The letter of the escapes that have one.
abbrev letter_of : ℕ → Option ℕ
letter_of c =
    if c == 34 || (c == 92)
    then some c
    else if leb 7 c && leb c 13
    then some (
        if c == 7
        then 97
        else if c == 8
        then 98
        else if c == 9
        then 116
        else if c == 10
        then 110
        else if c == 11
        then 118
        else if c == 12
        then 102
        else 114)
    else none

unfoldable pub escape : (ℕ → Bool) → ℕ → Option ℕ → Text
escape is_print c (some l) = 92 ∷ l ∷ []
escape is_print c none =
    if is_print c
    then c ∷ []
    else if ltb c 32 || (c == 127)
    then 92 ∷ 120 ∷ hex 2 c []
    else if ltb c 0x10000
    then 92 ∷ 117 ∷ hex 4 c []
    else 92 ∷ 85 ∷ hex 8 c []

unfoldable pub escape_all : (ℕ → Bool) → Text → Text
escape_all is_print [] = []
escape_all is_print (c ∷ s) = escape is_print c (letter_of c) ++ escape_all is_print s

unfoldable pub quote : (ℕ → Bool) → Text → Text
quote is_print s = 34 ∷ (escape_all is_print s ++ 34 ∷ [])

-- The parameter `response-content-disposition`.
unfoldable pub disposition : (ℕ → Bool) → Text → Option Text
disposition is_print filename =
    if is_empty filename
    then none
    else some (codes "attachment; filename=" ++ quote is_print filename)

unfoldable pub presign_get : Text → Text → ℕ → M Text
presign_get key filename ttl = external λ w.
    w.env.object_client.presigned_get_object w.calls key ttl (disposition w.env.is_print filename)

unfoldable pub presign_put : Text → ℕ → M Text
presign_put key ttl = external λ w. w.env.object_client.presigned_put_object w.calls key ttl

unfoldable pub stat : Text → M ObjectInfo
stat key = external λ w. w.env.object_client.stat_object w.calls key

unfoldable pub delete : Text → M (Unit {0})
unfolding removed
delete key w = removed key (w.env.object_client.remove_object w.calls key) w

unfoldable pub is_not_found : Err → Bool
is_not_found no_such_key = true
is_not_found _ = false
