-- ===== src/Notes/Stored.antt =====
-- The invariant of the table of attachments, and what the statements of
-- internal/store/sqlcgen/attachments.sql.go do to it.
use mathlib.Core.Path.{subst}
use bluestaq_takehome.Prelude.{
  ℕ, ◌≤◌, ◌≡◌, refl, ◌∙◌, ◌⊎◌, Bool, true, false, Bool-cases, inl, inr, Option, none, some, List,
  [], ◌∷◌, ◌++◌, All, find, any, drop_if, count_if, update_if, arith,
}
use bluestaq_takehome.Prelude.Text.{Text, text_eq}
use bluestaq_takehome.Prelude.Integer.{pos_part}
use bluestaq_takehome.Prelude.Counting.{
  count_if-append, not_any→count_if, count_if_mono, count_if-drop_if_le, count_if-update_if,
}
use bluestaq_takehome.Prelude.Every.{All-append, All-find, All-drop_if, All-update_one}
use bluestaq_takehome.Store.Models.{Db, Note, Attachment}
use bluestaq_takehome.Store.Hoare.{Lands, Keeps, Hoare-lands}
use bluestaq_takehome.Store.NoteQueries.{is_note}
use bluestaq_takehome.Store.AttachmentQueries.{
  is_attachment, is_attachment_on, is_pending, has_key, attachment_fits, CreateAttachmentParams,
  insert_attachment, create_attachment, completed, change_attachment, mark_attachment_ready,
  delete_attachment, delete_attachment_by_id,
}

-- A row: its name and size pass the checks, the size is within the limit, it is pending or ready, and
-- its note is there.
abbrev pub IsUpload : ℕ → List Note → Attachment → Type 0
IsUpload top ns a =
    (attachment_fits a ≡ true)
    × (a.size_bytes ≤ top)
    × ((a.status ≡ "pending") ⊎ (a.status ≡ "ready"))
    × (any (is_note a.note_id) ns ≡ true)

pub record IsStored (top : ℕ) (d : Db) : Type 0 where
  pub one_id : (id : ℕ) → count_if (is_attachment id) d.attachments ≤ 1
  pub one_key : (key : Text) → count_if (has_key key) d.attachments ≤ 1
  pub uploads : All (IsUpload top d.notes) d.attachments

text_eq_left : (s t u : Text) → text_eq s t ≡ true → text_eq u s ≡ text_eq u t
unfolding text_eq
text_eq_left [] [] u h = refl
text_eq_left [] (b ∷ t) u h = cc
text_eq_left (a ∷ s) [] u h = cc
text_eq_left (a ∷ s) (b ∷ t) [] h = refl
text_eq_left (a ∷ s) (b ∷ t) (c ∷ u) h = ground (arith, text_eq_left s t u)

-- One more row under a key that no row has.
one_more :
    (p : Attachment → Bool) (a : Attachment) (rows : List Attachment)
    → (p a ≡ true → count_if p rows ≡ 0)
    → count_if p rows ≤ 1
    → count_if p (rows ++ a ∷ []) ≤ 1
one_more p a rows fresh one = elim (Bool-cases (p a)) [
  | inl e ↦ rw (count_if-append p rows a, fresh e, e) (omega arith)
  | inr e ↦ rw (count_if-append p rows a, e) (omega (arith, one))
]

module _ (top : ℕ) where
  abbrev pub Stored : {A : Type 0} → A → Db → Type 0
  Stored a d = IsStored top d

  module _ (d : Db) (g : IsStored top d) where
    pub IsStored-insert :
        (a : Attachment)
        → any (is_attachment a.id) d.attachments ≡ false
        → any (has_key a.object_key) d.attachments ≡ false
        → IsUpload top d.notes a
        → IsStored top (record d { attachments = d.attachments ++ a ∷ [] })
    IsStored-insert a new_id new_key up = record {
      one_id = λ id.
          one_more (is_attachment id) a d.attachments
            (λ e.
              let same : a.id ≡ id = ground arith in
              subst (λ i. count_if (is_attachment i) d.attachments ≡ 0) same
                (not_any→count_if (is_attachment a.id) d.attachments new_id))
            (g.one_id id);
      one_key = λ key.
          one_more (has_key key) a d.attachments
            (λ e. omega (
              arith,
              not_any→count_if (has_key a.object_key) d.attachments new_key,
              count_if_mono (has_key key) (has_key a.object_key)
                  (λ x k. text_eq_left a.object_key key x.object_key e ∙ k) d.attachments,
            ))
            (g.one_key key);
      uploads = All-append (IsUpload top d.notes) d.attachments a g.uploads up;
    }

    pub IsStored-drop :
        (test : Attachment → Bool)
        → IsStored top (record d { attachments = drop_if test d.attachments })
    IsStored-drop test = record {
      one_id = λ id.
          omega (arith, g.one_id id, count_if-drop_if_le (is_attachment id) test d.attachments);
      one_key =
          λ key. omega (arith, g.one_key key, count_if-drop_if_le (has_key key) test d.attachments);
      uploads = All-drop_if (IsUpload top d.notes) test d.attachments g.uploads;
    }

    pub IsStored-change :
        (id : ℕ) (test : Attachment → Bool) (f : Attachment → Attachment) (a : Attachment)
        → ((b : Attachment) → test b ≡ true → is_attachment id b ≡ true)
        → ((b : Attachment) → (f b).id ≡ b.id)
        → ((b : Attachment) → (f b).object_key ≡ b.object_key)
        → find test d.attachments ≡ some a
        → IsUpload top d.notes (f a)
        → IsStored top (record d { attachments = update_if test f d.attachments })
    IsStored-change id test f a only ids keys there up = record {
      one_id = λ i.
          rw (count_if-update_if (is_attachment i) test f (λ b. rw (ids b) refl) d.attachments)
            (g.one_id i);
      one_key = λ key.
          rw (count_if-update_if (has_key key) test f (λ b. rw (keys b) refl) d.attachments)
            (g.one_key key);
      uploads =
          All-update_one (IsUpload top d.notes) test f a up d.attachments there
            (omega (arith, g.one_id id, count_if_mono test (is_attachment id) only d.attachments))
            g.uploads;
    }

  inserted-Stored :
      (a : Attachment) (d : Db)
      → a.size_bytes ≤ top
      → a.status ≡ "pending"
      → IsStored top d
      → Lands Stored (insert_attachment a d)
  unfolding insert_attachment
  inserted-Stored a d small new g = elim (Bool-cases (attachment_fits a)) [
    | inl fits ↦ elim (Bool-cases (any (is_attachment a.id) d.attachments)) [
      | inl taken ↦ rw (fits, taken) (ground arith)
      | inr new_id ↦ elim (Bool-cases (any (has_key a.object_key) d.attachments)) [
        | inl taken ↦ rw (fits, new_id, taken) (ground arith)
        | inr new_key ↦ elim (Bool-cases (any (is_note a.note_id) d.notes)) [
          | inl there ↦
              let stored = IsStored-insert d g a new_id new_key (fits, small, inl new, there) in
              rw (fits, new_id, new_key, there) (ground (arith, stored))
          | inr gone ↦ rw (fits, new_id, new_key, gone) (ground arith)
        ]
      ]
    ]
    | inr bad ↦ rw bad (ground arith)
  ]

  pub create_attachment-IsStored :
      (arg : CreateAttachmentParams)
      → pos_part arg.size_bytes ≤ top
      → Keeps (IsStored top) (create_attachment arg)
  unfolding create_attachment
  create_attachment-IsStored arg small =
      Hoare-lands _ (λ w g. inserted-Stored _ w.db small refl g) (λ d p. p) (λ a d p. p)

  completed-Stored :
      (id size : ℕ) (sum : Text) (now : ℕ) (d : Db) (o : Option Attachment)
      → size ≤ top
      → find (is_pending id) d.attachments ≡ o
      → IsStored top d
      → Lands Stored (change_attachment (is_pending id) (completed size sum now) d o)
  unfolding change_attachment completed
  completed-Stored id size sum now d none small e g = tt
  completed-Stored id size sum now d (some a) small e g =
      elim (Bool-cases (attachment_fits (completed size sum now a))) [
        | inl fits ↦ rw fits (
            IsStored-change d g id (is_pending id) (completed size sum now) a (λ b h. ground arith)
              (λ b. refl) (λ b. refl) e
              (
                fits,
                small,
                inr refl,
                (All-find (IsUpload top d.notes) (is_pending id) d.attachments a e g.uploads).3,
              ))
        | inr bad ↦ rw bad tt
      ]

  pub mark_attachment_ready-IsStored :
      (id size : ℕ) (sum : Text)
      → size ≤ top
      → Keeps (IsStored top) (mark_attachment_ready id size sum)
  unfolding mark_attachment_ready
  mark_attachment_ready-IsStored id size sum small =
      Hoare-lands _ (λ w g. completed-Stored id size sum _ w.db _ small refl g) (λ d p. p)
        (λ a d p. p)

  pub delete_attachment-IsStored :
      (id note_id : ℕ) → Keeps (IsStored top) (delete_attachment id note_id)
  unfolding delete_attachment
  delete_attachment-IsStored id note_id =
      Hoare-lands _ (λ w g. IsStored-drop w.db g (is_attachment_on id note_id)) (λ d p. p)
        (λ a d p. p)

  pub delete_attachment_by_id-IsStored :
      (id : ℕ) → Keeps (IsStored top) (delete_attachment_by_id id)
  unfolding delete_attachment_by_id
  delete_attachment_by_id-IsStored id =
      Hoare-lands _ (λ w g. IsStored-drop w.db g (is_attachment id)) (λ d p. p) (λ a d p. p)
