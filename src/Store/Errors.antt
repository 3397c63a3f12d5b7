-- ===== src/Store/Errors.antt =====
-- The tests on errors of internal/store/store.go.
use Prim.Native.String.{String}
use bluestaq_takehome.Prelude.{Bool, true, false, ◌||◌, str_eq}
use bluestaq_takehome.Httpx.Problems.{
  Err, no_rows, pg, unique_violation, foreign_key_violation, query_canceled,
}

unfoldable pub is_not_found : Err → Bool
is_not_found no_rows = true
is_not_found _ = false

unfoldable pub is_unique_violation : Err → String → Bool
is_unique_violation (pg (unique_violation name)) constraint =
    str_eq constraint "" || str_eq name constraint
is_unique_violation _ constraint = false

unfoldable pub is_foreign_key_violation : Err → Bool
is_foreign_key_violation (pg foreign_key_violation) = true
is_foreign_key_violation _ = false

unfoldable pub is_query_canceled : Err → Bool
is_query_canceled (pg query_canceled) = true
is_query_canceled _ = false
