-- ===== src/Examples/ListCases.antt =====
-- The theorems on listing at concrete inputs.
use bluestaq_takehome.Prelude.{
  ◌≡◌, refl, true, false, none, some, [], All, any, keep, count_if, length, arith,
}
use bluestaq_takehome.Prelude.Integer.{pos}
use bluestaq_takehome.Prelude.Descending.{IsDescending}
use bluestaq_takehome.Httpx.Problems.{ok}
use bluestaq_takehome.Store.NoteQueries.{title_fits}
use bluestaq_takehome.Store.ShareQueries.{share_fits}
use bluestaq_takehome.Store.Cursor.{IsReadBack, encode, decode_cursor, decode_cursor-encode}
use bluestaq_takehome.Store.NotesList.{
  ListFilter, is_past, all_rows, sorted_rows, list_notes, by_relevance,
}
use bluestaq_takehome.Notes.Sound.{IsSound}
use bluestaq_takehome.Notes.Listed.{IsReadable, Yields, list_notes-IsReadable}
use bluestaq_takehome.Notes.Pages.{row_before}
use bluestaq_takehome.Notes.Following.{follow, follow-sorted_rows}
use bluestaq_takehome.Notes.Limits.{IsShort, list_serve-IsShort}
use bluestaq_takehome.Notes.List.{list_serve}
use bluestaq_takehome.Examples.Data.{env, db, world, request}

abbrev plain : ListFilter
plain = record {
  user_id = 1;
  text_query = [];
  tags = [];
  owner = none;
  team = none;
  shared_with_me = false;
  deleted = false;
  limit = 1;
  cursor = none;
}

sound : IsSound world.db
unfolding count_if any title_fits share_fits
sound = record {
  one_note = λ id. ground arith;
  rows = ((refl, omega arith, omega arith), ((refl, omega arith, omega arith), tt));
  one_share = λ n t p. ground arith;
  grants = ((refl, refl), tt);
}

list_notes-IsReadable_example :
    Yields (λ page. All (IsReadable db 1) page.0) (list_notes plain world)
list_notes-IsReadable_example = list_notes-IsReadable plain world sound

follow-sorted_rows_example :
    ((follow (length (sorted_rows env db plain)) plain world).0 ≡ ok (sorted_rows env db plain))
    × IsDescending (row_before (by_relevance plain)) (sorted_rows env db plain)
    × (count_if (λ row. true) (sorted_rows env db plain)
        ≡ count_if (λ row. true) (keep (is_past plain none) (all_rows env db plain)))
follow-sorted_rows_example =
    follow-sorted_rows (length (sorted_rows env db plain)) plain world (λ row. true) sound.one_note
      (λ k. refl) (omega arith) (omega arith)

list_serve-IsShort_example : IsShort (list_serve (request 1 10 []) world).0.content
list_serve-IsShort_example = list_serve-IsShort (request 1 10 []) world

read_back : IsReadBack env 10 (pos 0)
read_back = record {
  uuid_back = refl;
  uuid_plain = (refl, tt);
  float_back = refl;
  float_plain = (refl, tt);
}

decode_cursor-encode_example :
    decode_cursor env (encode env (record { updated_at = pos 77; id = 10; rank = pos 0 }))
    ≡ some (record { updated_at = pos 77; id = 10; rank = pos 0 })
decode_cursor-encode_example = decode_cursor-encode env 77 10 (pos 0) (omega arith) read_back
