-- ===== src/Notes/References.antt =====
-- The attachment references in a note's body: `attachmentRef`, `referencedIDs` and
-- `validateBodyReferences` of internal/notes/attachments.go.
use bluestaq_takehome.Prelude.{
  ℕ, zero, suc, Bool, ◌&&◌, ◌||◌, Option, none, some, List, [], ◌∷◌, ◌++◌, leb, ◌==◌, any, str_eq,
  if◌then◌else◌,
}
use bluestaq_takehome.Prelude.Text.{Text, codes, after_prefix}
use bluestaq_takehome.Httpx.Problems.{Err, Message, uuid, say, problem, errorf}
use bluestaq_takehome.Store.Errors.{is_not_found}
use bluestaq_takehome.Store.Models.{Attachment}
use bluestaq_takehome.Store.World.{M, pure, throw, ask, catch, ◌>>=◌}
use bluestaq_takehome.Store.AttachmentQueries.{get_attachment}

-- The class [0-9a-fA-F-].
abbrev pub is_id_char : ℕ → Bool
is_id_char c =
    (leb 48 c && leb c 57) || (leb 97 c && leb c 102) || (leb 65 c && leb c 70) || (c == 45)

-- The first `n` characters, if each is of the class.
unfoldable pub id_chars : ℕ → Text → Option Text
id_chars zero s = some []
id_chars (suc n) [] = none
id_chars (suc n) (c ∷ s) =
    let rest = id_chars n s in
    if is_id_char c then elim rest [ none ↦ none | some t ↦ some (c ∷ t) ] else none

-- The group of a match that starts here.
unfoldable pub match_group : Option Text → Option Text
match_group none = none
match_group (some s) = id_chars 36 s

unfoldable pub match_here : Text → Option Text
match_here s = match_group (after_prefix (codes "attachment:") s)

abbrev pub push_group : Option Text → List Text → List Text
push_group none gs = gs
push_group (some g) gs = g ∷ gs

-- Characters that a match takes after its first.
abbrev pub to_skip : Option Text → ℕ
to_skip none = 0
to_skip (some g) = 46

-- `FindAllStringSubmatch(body, -1)`: the matches from the left that do not overlap. The first
-- argument counts the characters that the last match still covers.
unfoldable pub find_all : ℕ → Text → List Text
find_all k [] = []
find_all (suc k) (c ∷ s) = find_all k s
find_all zero (c ∷ s) = push_group (match_here (c ∷ s)) (find_all (to_skip (match_here (c ∷ s))) s)

-- The ids that parse, each once; the order of a Go map is open, here it is that of the body.
unfoldable pub insert_id : Option ℕ → List ℕ → List ℕ
insert_id none ids = ids
insert_id (some id) ids = if any (λ i. i == id) ids then ids else ids ++ id ∷ []

unfoldable pub parse_ids : (Text → Option ℕ) → List Text → List ℕ → List ℕ
parse_ids parse [] ids = ids
parse_ids parse (g ∷ gs) ids = parse_ids parse gs (insert_id (parse g) ids)

unfoldable pub referenced_ids : (Text → Option ℕ) → Text → List ℕ
referenced_ids parse body = parse_ids parse (find_all zero body) []

-- What is wrong with one reference, if anything.
abbrev pub complaint : Attachment → Option Message
complaint a = if str_eq a.status "ready" then none else some (say "upload has not been completed")

abbrev pub no_attachment : Err → M (Option Message)
no_attachment e =
    if is_not_found e then pure (some (say "no such attachment on this note")) else throw e

unfoldable pub check_reference : ℕ → ℕ → M (Option Message)
check_reference note_id id =
    catch (do a ← get_attachment id note_id; pure (complaint a)) no_attachment

abbrev pub add_complaint : ℕ → Option Message → List (Message × Message) → List (Message × Message)
add_complaint id none bad = bad
add_complaint id (some m) bad = (uuid id ∷ [], m) ∷ bad

-- The loop over the references, with the map `bad`.
unfoldable pub check_references : ℕ → List ℕ → M (List (Message × Message))
check_references note_id [] = pure []
check_references note_id (id ∷ ids) = do
  c ← check_reference note_id id
  bad ← check_references note_id ids
  pure (add_complaint id c bad)

unfoldable pub refuse_bad : List (Message × Message) → M (Unit {0})
refuse_bad [] = pure tt
refuse_bad (b ∷ bad) = throw (
    problem
      (record (errorf 400
        (say "the body references attachments that are not usable on this note")) {
          errors = b ∷ bad;
        }))

unfoldable pub validate_body_references : ℕ → Text → M (Unit {0})
validate_body_references note_id body = do
  env ← ask
  bad ← check_references note_id (referenced_ids env.uuid_parse body)
  refuse_bad bad
