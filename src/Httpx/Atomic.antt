-- ===== src/Httpx/Atomic.antt =====
-- What a handler leaves behind, whatever it replies: the reply to an error changes no table.
use bluestaq_takehome.Prelude.{◌≡◌, refl}
use bluestaq_takehome.Httpx.Problems.{Result, ok, err}
use bluestaq_takehome.Httpx.{
  Request, Reply, written, respond, Decoded, value, over_limit, end_of_input, malformed,
  decode_json,
}
use bluestaq_takehome.Store.Models.{Db}
use bluestaq_takehome.Store.World.{World, M}
use bluestaq_takehome.Store.Hoare.{Post, Hoare, Keeps}
use bluestaq_takehome.Store.Keeps.{keeps_rules}
use bluestaq_takehome.Store.Whole.{Whole, Agrees, AllOrNothing, quiet, whole_rules}

module _ {B : Type 0} where
  written-keeps :
      (P : Db → Type 0) (r : Request) (x : Result (Reply B) × World)
      → Post (λ _. P) P x
      → P (written r x).1.db
  unfolding written
  written-keeps P r (ok reply, w) p = p
  written-keeps P r (err e, w) p = p

  pub respond-keeps :
      {P : Db → Type 0} (r : Request) (m : M (Reply B))
      → Keeps P m
      → (w : World) → P w.db
      → P (respond r m w).1.db
  unfolding respond
  respond-keeps {P} r m h w p = written-keeps P r (m w) (h.at w p)

  pub respond_either :
      (R : Db → Type 0) (r : Request) (m : M (Reply B)) (w : World)
      → Hoare (λ d. d ≡ w.db) m (λ reply. R) R
      → R (respond r m w).1.db
  unfolding respond
  respond_either R r m w h = written-keeps R r (m w) (h.at w refl)

  -- The same of all or nothing: the reply to an error changes no table.
  pub respond-Whole :
      (r : Request) (m : M (Reply B)) (w : World)
      → Whole m
      → AllOrNothing w.db (respond r m w).1.db (m (quiet w))
  unfolding respond written
  respond-Whole r m w h = go (m w) (h.at w)
    where
      go :
          (x : Result (Reply B) × World)
          → AllOrNothing w.db x.1.db (m (quiet w))
          → AllOrNothing w.db (written r x).1.db (m (quiet w))
      go (ok reply, v) p = p
      go (err e, v) p = p

module _ {P : Db → Type 0} where
  pub Keeps-decode_json : {A : Type 0} (b : Decoded A) → Keeps P (decode_json b)
  unfolding decode_json
  Keeps-decode_json (value v more) = search keeps_rules
  Keeps-decode_json over_limit = search keeps_rules
  Keeps-decode_json end_of_input = search keeps_rules
  Keeps-decode_json malformed = search keeps_rules

pub Agrees-decode_json : {A : Type 0} (b : Decoded A) → Agrees (decode_json b)
unfolding decode_json
Agrees-decode_json (value v more) = search whole_rules
Agrees-decode_json over_limit = search whole_rules
Agrees-decode_json end_of_input = search whole_rules
Agrees-decode_json malformed = search whole_rules
