-- ===== src/Notes/Errors.antt =====
-- What an error of a note's endpoint leaves behind.
use bluestaq_takehome.Prelude.{
  ℕ, ◌≡◌, refl, ap, false, Bool-cases, inl, inr, ◌<◌, arith, String, Bool, List, [], ◌∷◌, Option,
  none, some, count_if, drop_if, keep, ◌==◌,
}
use bluestaq_takehome.Prelude.Text.{Text}
use bluestaq_takehome.Authz.{Action}
use bluestaq_takehome.Httpx.Problems.{Err, Message}
use bluestaq_takehome.Httpx.{Request, Decoded, write_json, write_status}
use bluestaq_takehome.Httpx.Atomic.{Keeps-decode_json, Agrees-decode_json, respond-Whole}
use bluestaq_takehome.Store.Models.{Db, NoteWithAccess}
use bluestaq_takehome.Store.World.{World, continue, pure, lift, count_conflict, ◌>>=◌, ◌>>◌}
use bluestaq_takehome.Store.Hoare.{Keeps}
use bluestaq_takehome.Store.Keeps.{Keeps-bind, Keeps-pure, keeps_rules}
use bluestaq_takehome.Store.Whole.{
  Whole, Closes, Agrees-absent, Whole-checked, Throws-throw, is_not_found-fault_err, Agrees,
  Agrees-bind, Agrees-pure, AllOrNothing, quiet, whole_rules,
}
use bluestaq_takehome.Store.NoteQueries.{
  get_note_with_access, create_note, update_note, soft_delete_note, restore_note,
}
use bluestaq_takehome.Store.ShareQueries.{
  list_note_shares, upsert_note_share, delete_note_share, team_exists, user_exists, is_team_member,
  is_share,
}
use bluestaq_takehome.Store.AttachmentQueries.{get_attachment}
use bluestaq_takehome.Notes.IfMatch.{set_etag}
use bluestaq_takehome.Notes.Load.{load, enforce}
use bluestaq_takehome.Notes.References
use bluestaq_takehome.Notes.Handler
use bluestaq_takehome.Notes.Handler.{
  CreateRequest, check_body, lost_update, conflict, conflict_of, create, get, update, delete,
}
use bluestaq_takehome.Notes.Shares.{
  Share, ShareRequest, some_revoked, validate_user, validate_team, validate_principal, list_shares,
  upsert_share, revoke_share,
}
use bluestaq_takehome.Notes.Routes.{
  Call, get_call, delete_call, restore_call, list_shares_call, revoke_share_call, update_call,
  upsert_share_call, route, serve, serve_create,
}

pub status-set_etag_200 :
    {A : Type 0} (v : ℕ) (a : A) → (set_etag v (write_json 200 a)).status < 400
unfolding set_etag write_json
status-set_etag_200 v a = omega arith

pub status-set_etag_201 :
    {A : Type 0} (v : ℕ) (a : A) → (set_etag v (write_json 201 a)).status < 400
unfolding set_etag write_json
status-set_etag_201 v a = omega arith

keep_all : {A : Type 0} (q : A → Bool) (xs : List A) → count_if q xs ≡ 0 → drop_if q xs ≡ xs
unfolding count_if keep
keep_all q [] h = refl
keep_all q (x ∷ xs) h = ground (arith, keep_all q xs)

module _ {P : Db → Type 0} where
  pub Keeps-enforce : (action : Action) (row : NoteWithAccess) → Keeps P (enforce action row)
  unfolding enforce
  Keeps-enforce action row = search keeps_rules depth 8

  pub Keeps-load : (r : Request) (action : Action) → Keeps P (load r action)
  unfolding load get_note_with_access
  Keeps-load r action = search (keeps_rules, Keeps-enforce) depth 8

  Keeps-count_conflict : Keeps P count_conflict
  unfolding count_conflict
  Keeps-count_conflict = record { at = λ w p. p }

  pub Keeps-conflict : (note_id user_id expected : ℕ) → Keeps P (conflict note_id user_id expected)
  unfolding conflict conflict_of get_note_with_access
  Keeps-conflict note_id user_id expected = search (keeps_rules, Keeps-count_conflict) depth 8

  pub Keeps-lost_update :
      (r : Request) (note_id expected : ℕ) (e : Err) → Keeps P (lost_update r note_id expected e)
  unfolding lost_update
  Keeps-lost_update r note_id expected e = search (keeps_rules, Keeps-conflict) depth 8

  Keeps-check_reference : (note_id id : ℕ) → Keeps P (References.check_reference note_id id)
  unfolding References.check_reference get_attachment
  Keeps-check_reference note_id id = search keeps_rules depth 8

  Keeps-check_references :
      (note_id : ℕ) (ids : List ℕ) → Keeps P (References.check_references note_id ids)
  unfolding References.check_references
  Keeps-check_references note_id [] = search keeps_rules depth 8
  Keeps-check_references note_id (id ∷ ids) =
      Keeps-bind _ _ (Keeps-check_reference note_id id)
        (λ c. Keeps-bind _ _ (Keeps-check_references note_id ids) (λ bad. Keeps-pure _))

  Keeps-refuse_bad : (bad : List (Message × Message)) → Keeps P (References.refuse_bad bad)
  unfolding References.refuse_bad
  Keeps-refuse_bad [] = search keeps_rules
  Keeps-refuse_bad (b ∷ bad) = search keeps_rules

  pub Keeps-check_body : (note_id : ℕ) (body : Option Text) → Keeps P (check_body note_id body)
  unfolding check_body References.validate_body_references
  Keeps-check_body note_id none = search keeps_rules
  Keeps-check_body note_id (some body) =
      search (keeps_rules, Keeps-check_references, Keeps-refuse_bad) depth 8

  pub Keeps-validate_principal :
      (req : ShareRequest) (owner : ℕ) → Keeps P (validate_principal req owner)
  unfolding validate_principal validate_user validate_team user_exists team_exists is_team_member
  Keeps-validate_principal req owner = search keeps_rules depth 8

Agrees-enforce : (action : Action) (row : NoteWithAccess) → Agrees (enforce action row)
unfolding enforce
Agrees-enforce action row = search whole_rules depth 8

pub Agrees-load : (r : Request) (action : Action) → Agrees (load r action)
unfolding load get_note_with_access
Agrees-load r action = search (whole_rules, Agrees-enforce) depth 10

Agrees-check_reference : (note_id id : ℕ) → Agrees (References.check_reference note_id id)
unfolding References.check_reference get_attachment
Agrees-check_reference note_id id =
    Agrees-absent _ _ References.no_attachment (λ w. refl) (λ e. search whole_rules depth 8)
      (λ x. rw (is_not_found-fault_err x) (Throws-throw _))

Agrees-check_references :
    (note_id : ℕ) (ids : List ℕ) → Agrees (References.check_references note_id ids)
unfolding References.check_references
Agrees-check_references note_id [] = search whole_rules depth 8
Agrees-check_references note_id (id ∷ ids) =
    Agrees-bind _ _ (Agrees-check_reference note_id id)
      (λ c. Agrees-bind _ _ (Agrees-check_references note_id ids) (λ bad. Agrees-pure _))

Agrees-refuse_bad : (bad : List (Message × Message)) → Agrees (References.refuse_bad bad)
unfolding References.refuse_bad
Agrees-refuse_bad [] = search whole_rules
Agrees-refuse_bad (b ∷ bad) = search whole_rules

Agrees-check_body : (note_id : ℕ) (body : Option Text) → Agrees (check_body note_id body)
unfolding check_body References.validate_body_references
Agrees-check_body note_id none = search whole_rules
Agrees-check_body note_id (some body) =
    search (whole_rules, Agrees-check_references, Agrees-refuse_bad) depth 8

Agrees-validate_principal : (req : ShareRequest) (owner : ℕ) → Agrees (validate_principal req owner)
unfolding validate_principal validate_user validate_team user_exists team_exists is_team_member
Agrees-validate_principal req owner = search whole_rules depth 10

Closes-revoked :
    (n : ℕ)
    → (n == 0) ≡ false
    → Closes (lift (some_revoked n) >> pure (write_status {A = List Share} 204))
unfolding some_revoked lift pure ◌>>◌ ◌>>=◌ continue
Closes-revoked n e = rw e (record { at = λ w. (tt, refl) })

-- `revokeShare` refuses after its statement, where the statement removed no row.
revoked-Whole :
    (note_id : ℕ) (principal_type : String) (id : ℕ)
    → Whole (do
      n ← delete_note_share note_id principal_type id
      lift (some_revoked n)
      pure (write_status {A = List Share} 204))
unfolding delete_note_share
revoked-Whole note_id principal_type id =
    Whole-checked _ _ (λ w. refl)
      (λ w.
        let gone = is_share note_id principal_type id in
        elim (Bool-cases (count_if gone w.db.note_shares == 0)) [
          | inl e ↦ inr (
            (λ b. search keeps_rules depth 8),
            ap (λ ss. record w.db { note_shares = ss })
                (keep_all gone w.db.note_shares (ground arith)),
          )
          | inr e ↦ inl (Closes-revoked _ e)
        ])

ruleset note_rules = (
  revoked-Whole, whole_rules, keeps_rules, Keeps-decode_json, Keeps-load, Keeps-check_body,
  Keeps-lost_update, Keeps-validate_principal, Agrees-decode_json, Agrees-load, Agrees-check_body,
  Agrees-validate_principal,
)

route-Whole : (r : Request) (c : Call) → Whole (route r c)
unfolding route get update delete Handler.restore list_shares upsert_share revoke_share update_note
    soft_delete_note restore_note list_note_shares upsert_note_share
route-Whole r get_call = search note_rules depth 8
route-Whole r delete_call = search note_rules depth 8
route-Whole r restore_call = search note_rules depth 8
route-Whole r list_shares_call = search note_rules depth 8
route-Whole r revoke_share_call = search note_rules depth 10
route-Whole r (update_call b) = search note_rules depth 12
route-Whole r (upsert_share_call b) = search note_rules depth 12

create-Whole : (r : Request) (b : Decoded CreateRequest) → Whole (create r b)
unfolding create create_note
create-Whole r b = search note_rules depth 12

-- All or nothing, whatever faults the calls meet and whether they strike before the effect of a call
-- or behind it: an endpoint of a note, or of its shares, leaves the tables as they were, or it leaves
-- them as it does where no call meets a fault and it ends in no error.
pub note_error_atomic :
    (r : Request) (c : Call) (w : World)
    → AllOrNothing w.db (serve r c w).1.db (route r c (quiet w))
unfolding serve
note_error_atomic r c w = respond-Whole r (route r c) w (route-Whole r c)

-- The same of `POST /notes`.
pub create_error_atomic :
    (r : Request) (b : Decoded CreateRequest) (w : World)
    → AllOrNothing w.db (serve_create r b w).1.db (create r b (quiet w))
unfolding serve_create
create_error_atomic r b w = respond-Whole r (create r b) w (create-Whole r b)
