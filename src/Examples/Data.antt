-- ===== src/Examples/Data.antt =====
-- A database with one team and two notes, a calm environment, and requests.
use bluestaq_takehome.Prelude.{
  ℕ, ◌+◌, leb, ◌==◌, if◌then◌else◌, String, true, false, Option, none, some, [], ◌∷◌,
}
use bluestaq_takehome.Prelude.Text.{Text, codes, text_eq}
use bluestaq_takehome.Prelude.Integer.{pos}
use bluestaq_takehome.Httpx.Problems.{ok}
use bluestaq_takehome.Httpx.{Request}
use bluestaq_takehome.Store.Models.{User, TeamMember, Note, NoteShare, Attachment, Db}
use bluestaq_takehome.Store.World.{deadline, ObjectClient, Env, World}

abbrev pub user : ℕ → User
user id = record {
  id = id;
  email = codes "a@b.c";
  password_hash = [];
  display_name = codes "A";
  created_at = 0;
  updated_at = 0;
  deleted_at = none;
}

abbrev pub member : ℕ → String → TeamMember
member user_id role = record { team_id = 5; user_id = user_id; role = role; created_at = 0 }

abbrev pub note : ℕ → Option ℕ → Note
note id deleted_at = record {
  id = id;
  owner_user_id = 1;
  title = codes "hi";
  body = [];
  tags = [];
  version = 3;
  created_at = 0;
  updated_at = 0;
  deleted_at = deleted_at;
}

abbrev pub share : NoteShare
share = record {
  note_id = 10;
  principal_type = "user";
  principal_id = 2;
  role = "viewer";
  granted_by = 1;
  created_at = 0;
}

-- An upload of the first note that is not completed.
abbrev pub upload : Attachment
upload = record {
  id = 10;
  note_id = 10;
  object_key = codes "k";
  filename = codes "f";
  mime_type = codes "image/png";
  size_bytes = 5;
  checksum = none;
  status = "pending";
  uploaded_by = 1;
  created_at = 0;
  ready_at = none;
}

abbrev pub db : Db
db = record {
  users = user 1 ∷ user 2 ∷ user 3 ∷ [];
  teams = record { id = 5; name = codes "T"; created_at = 0; updated_at = 0 } ∷ [];
  team_members = member 1 "admin" ∷ member 2 "member" ∷ [];
  notes = note 10 none ∷ note 11 (some 7) ∷ [];
  note_shares = share ∷ [];
  attachments = [];
}

-- The first code point stands for the id.
abbrev pub parse : Text → Option ℕ
parse [] = none
parse (c ∷ s) = some c

-- A store in which every key holds an object of 40 bytes.
abbrev pub objects : ObjectClient
objects = record {
  presigned_put_object = λ k key ttl. ok key;
  presigned_get_object = λ k key ttl disposition. ok key;
  stat_object = λ k key. ok (record { size = 40; content_type = []; etag = codes "e" });
  remove_object = λ k key. none;
}

abbrev pub env : Env
env = record {
  now = λ k. 100 + k;
  gen_random_uuid = λ k. 1000 + k;
  uuid_parse = parse;
  uuid_string = λ id. id ∷ [];
  new_uuid = λ k. 2000 + k;
  object_client = objects;
  format_float = λ x. codes "0";
  parse_float = λ s. some (pos 0);
  search_match = λ q n. true;
  ts_rank = λ q n. 0;
  is_print = λ c. leb 32 c;
  lower_rune = λ c. c;
  citext_eq = text_eq;
  collate = λ s t. true;
}

abbrev pub world : World
world = record {
  env = env;
  fault = λ k. none;
  lands = λ k. false;
  db = db;
  calls = 0;
  conflicts = 0;
  presigns = 0;
  removals = [];
}

-- The same where one call meets a deadline and has its effect all the same.
abbrev pub late : ℕ → World
late call = record world {
  fault = λ k. if k == call then some deadline else none;
  lands = λ k. true;
}

abbrev pub request : ℕ → ℕ → Text → Request
request user_id id if_match = record {
  user_id = user_id;
  context_done = false;
  url_param = λ name. id ∷ [];
  principal_type = "user";
  if_match = if_match;
  email_query = [];
  url_query = λ name. [];
}
