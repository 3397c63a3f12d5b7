-- ===== src/Notes/Roles.antt =====
-- The role that `GetNoteWithAccess` (internal/store/sqlcgen/notes.sql.go) computes, with the
-- decision table of internal/authz/role.go.
use Prim.Native.Nat.{max}
use bluestaq_takehome.Prelude.{
  ℕ, ◌≡◌, refl, Bool, true, false, ◌&&◌, ◌||◌, Bool-cases, inl, inr, List, [], ◌∷◌, any, ◌==◌, leb,
  arith, String,
}
use bluestaq_takehome.Authz.{Action, can, minimum_role, permits}
use bluestaq_takehome.Authz
use bluestaq_takehome.Authz.Table.{kind, least, owning}
use bluestaq_takehome.Store.Models.{Db, Note, NoteShare, TeamMember}
use bluestaq_takehome.Store.NoteQueries.{grant_rank, grants_to, max_rank, effective_role}

can-least : (role : ℕ) (action : Action) → can role action ≡ leb (least (kind action)) role
unfolding can minimum_role permits
can-least role Authz.read = refl
can-least role _ = refl

-- Two roles together allow what one of them allows; no role allows nothing, and an owner all.
can-max : (a b : ℕ) (action : Action) → can (max a b) action ≡ (can a action || can b action)
can-max a b action =
    rw (can-least (max a b) action, can-least a action, can-least b action) (ground arith)

pub can-none : (action : Action) → can 0 action ≡ false
unfolding can minimum_role permits
can-none Authz.read = refl
can-none _ = refl

pub can-owner : (action : Action) → can 3 action ≡ true
unfolding can minimum_role permits
can-owner Authz.read = refl
can-owner _ = refl

-- A grant that names the caller on this note and whose role allows the action.
abbrev pub grants_action : List TeamMember → ℕ → ℕ → Action → NoteShare → Bool
grants_action members user_id note_id action s =
    grants_to members user_id note_id s && can (grant_rank s.role) action

can-max_rank :
    (members : List TeamMember) (user_id note_id : ℕ) (action : Action) (ss : List NoteShare)
    → can (max_rank members user_id note_id ss) action
      ≡ any (grants_action members user_id note_id action) ss
unfolding max_rank any
can-max_rank members user_id note_id action [] = can-none action
can-max_rank members user_id note_id action (s ∷ ss) =
    elim (Bool-cases (grants_to members user_id note_id s)) [
      | inl e ↦
          rw
            (
              e,
              can-max (grant_rank s.role) (max_rank members user_id note_id ss) action,
              can-max_rank members user_id note_id action ss,
            )
            refl
      | inr e ↦
          rw
            (
              e,
              can-max 0 (max_rank members user_id note_id ss) action,
              can-none action,
              can-max_rank members user_id note_id action ss,
            )
            refl
    ]

-- The role that the query computes allows an action exactly if the caller owns the note, or if one
-- grant on this note names the caller, or a team of the caller, and its role allows the action:
-- grants do not add up, the strongest decides, and their order does not matter.
pub can-effective_role :
    (d : Db) (user_id : ℕ) (n : Note) (action : Action)
    → can (effective_role d user_id n) action ≡ (
        (n.owner_user_id == user_id)
        || any (grants_action d.team_members user_id n.id action) d.note_shares)
unfolding effective_role
can-effective_role d user_id n action = elim (Bool-cases (n.owner_user_id == user_id)) [
  | inl e ↦ rw (e, can-owner action) refl
  | inr e ↦ rw (e, can-max_rank d.team_members user_id n.id action d.note_shares) refl
]

-- A grant alone never reaches what is kept for the owner.
not_owner-can :
    (rank : String) (action : Action) → kind action ≡ owning → can (grant_rank rank) action ≡ false
unfolding grant_rank
not_owner-can rank action h = rw (can-least (grant_rank rank) action, h) (ground arith)

no_owning_grant :
    (members : List TeamMember) (user_id note_id : ℕ) (action : Action) (ss : List NoteShare)
    → kind action ≡ owning
    → any (grants_action members user_id note_id action) ss ≡ false
unfolding any
no_owning_grant members user_id note_id action [] h = refl
no_owning_grant members user_id note_id action (s ∷ ss) h =
    rw (not_owner-can s.role action h)
      (ground (arith, no_owning_grant members user_id note_id action ss h))

-- Deleting, restoring, sharing and revoking are the owner's alone: whatever rows `note_shares`
-- holds, the role of a caller who does not own the note allows none of them.
pub only_owner :
    (d : Db) (user_id : ℕ) (n : Note) (action : Action)
    → kind action ≡ owning
    → can (effective_role d user_id n) action ≡ (n.owner_user_id == user_id)
only_owner d user_id n action h =
    rw
      (
        can-effective_role d user_id n action,
        no_owning_grant d.team_members user_id n.id action d.note_shares h,
      )
      (ground arith)
