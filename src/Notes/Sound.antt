-- ===== src/Notes/Sound.antt =====
-- The invariant of the tables of notes and grants, and what the statements on them do to it.
use mathlib.Core.Path.{subst}
use bluestaq_takehome.Prelude.{
  ℕ, ◌≤◌, ◌<◌, ◌≡◌, refl, ◌∙◌, String, Bool, true, false, Bool-cases, inl, inr, none, some, List,
  [], ◌∷◌, ◌++◌, All, find, any, drop_if, count_if, update_if, eq_iff, ◌==◌, arith,
}
use bluestaq_takehome.Prelude.Counting.{
  count_if-append, not_any→count_if, any-append, find-none, count_if_mono, count_if-drop_if_le,
  count_if-update_if, any-update_if,
}
use bluestaq_takehome.Prelude.Every.{
  All-append, All-map, All-update_if, All-drop_if, All-update_one,
}
use bluestaq_takehome.Store.Models.{Db, Note, NoteShare}
use bluestaq_takehome.Store.NoteQueries.{is_note, title_fits, version_limit}
use bluestaq_takehome.Store.ShareQueries.{is_share, share_fits, regranted}

abbrev pub IsRow : Note → Type 0
IsRow n = (title_fits n.title ≡ true) × (1 ≤ n.version) × (n.version < version_limit)

-- A grant is on a note that is there, of a known kind, and carries viewer or editor.
abbrev pub IsGrant : List Note → NoteShare → Type 0
IsGrant ns s = (share_fits s ≡ true) × (any (is_note s.note_id) ns ≡ true)

pub record IsSound (d : Db) : Type 0 where
  pub one_note : (id : ℕ) → count_if (is_note id) d.notes ≤ 1
  pub rows : All IsRow d.notes
  pub one_share : (n : ℕ) (t : String) (p : ℕ) → count_if (is_share n t p) d.note_shares ≤ 1
  pub grants : All (IsGrant d.notes) d.note_shares

same_key :
    (s x : NoteShare) (n : ℕ) (t : String) (p : ℕ)
    → is_share n t p s ≡ true
    → is_share n t p x ≡ true
    → is_share s.note_id s.principal_type s.principal_id x ≡ true
same_key s x n t p h k = ground (
  arith,
  eq_iff s.principal_type t,
  eq_iff x.principal_type t,
  eq_iff x.principal_type s.principal_type,
)

module _ (d : Db) (g : IsSound d) where
  one_note_more :
      (n : Note)
      → any (is_note n.id) d.notes ≡ false
      → (id : ℕ) → count_if (is_note id) (d.notes ++ n ∷ []) ≤ 1
  one_note_more n fresh id = elim (Bool-cases (n.id == id)) [
    | inl e ↦
        let same : n.id ≡ id = ground arith in
        let zero_rows : count_if (is_note id) d.notes ≡ 0 =
          subst (λ i. count_if (is_note i) d.notes ≡ 0) same
            (not_any→count_if (is_note n.id) d.notes fresh) in
        rw (count_if-append (is_note id) d.notes n, zero_rows, e) (omega arith)
    | inr e ↦ rw (count_if-append (is_note id) d.notes n, e) (omega (arith, g.one_note id))
  ]

  one_share_more :
      (s : NoteShare)
      → find (is_share s.note_id s.principal_type s.principal_id) d.note_shares ≡ none
      → (n : ℕ) (t : String) (p : ℕ) → count_if (is_share n t p) (d.note_shares ++ s ∷ []) ≤ 1
  one_share_more s fresh n t p = elim (Bool-cases (is_share n t p s)) [
    | inl e ↦
        rw (count_if-append (is_share n t p) d.note_shares s, e)
          (omega (
            arith,
            find-none (is_share s.note_id s.principal_type s.principal_id) d.note_shares fresh,
            count_if_mono (is_share n t p) (is_share s.note_id s.principal_type s.principal_id)
                (λ x k. same_key s x n t p e k) d.note_shares,
          ))
    | inr e ↦
        rw (count_if-append (is_share n t p) d.note_shares s, e) (omega (arith, g.one_share n t p))
  ]

  -- A new note, at version 1 and under an id that no note has.
  pub IsSound-insert_note :
      (n : Note)
      → any (is_note n.id) d.notes ≡ false
      → IsRow n
      → IsSound (record d { notes = d.notes ++ n ∷ [] })
  IsSound-insert_note n fresh row = record {
    one_note = λ id. one_note_more n fresh id;
    rows = All-append IsRow d.notes n g.rows row;
    one_share = g.one_share;
    grants =
        All-map (IsGrant d.notes) (λ s h. (h.0, any-append (is_note s.note_id) d.notes n h.1))
          d.note_shares g.grants;
  }

  -- A change of the notes that pass a test for one id.
  pub IsSound-change_note :
      (id : ℕ) (test : Note → Bool) (f : Note → Note) (n : Note)
      → ((m : Note) → test m ≡ true → is_note id m ≡ true)
      → ((m : Note) → (f m).id ≡ m.id)
      → find test d.notes ≡ some n
      → IsRow (f n)
      → IsSound (record d { notes = update_if test f d.notes })
  IsSound-change_note id test f n only keeps there row = record {
    one_note = λ i.
        rw (count_if-update_if (is_note i) test f (λ m. rw (keeps m) refl) d.notes) (g.one_note i);
    rows =
        All-update_one IsRow test f n row d.notes there
          (omega (arith, g.one_note id, count_if_mono test (is_note id) only d.notes)) g.rows;
    one_share = g.one_share;
    grants =
        All-map (IsGrant d.notes)
          (λ s h.
            (h.0, any-update_if (is_note s.note_id) test f (λ m. rw (keeps m) refl) d.notes ∙ h.1))
          d.note_shares g.grants;
  }

  pub IsSound-add_share :
      (s : NoteShare)
      → find (is_share s.note_id s.principal_type s.principal_id) d.note_shares ≡ none
      → IsGrant d.notes s
      → IsSound (record d { note_shares = d.note_shares ++ s ∷ [] })
  IsSound-add_share s fresh grant = record {
    one_note = g.one_note;
    rows = g.rows;
    one_share = λ n t p. one_share_more s fresh n t p;
    grants = All-append (IsGrant d.notes) d.note_shares s g.grants grant;
  }

  pub IsSound-regrant :
      (s : NoteShare)
      → share_fits s ≡ true
      → IsSound (record d {
        note_shares =
            update_if
              (is_share s.note_id s.principal_type s.principal_id)
              (regranted s)
              d.note_shares;
      })
  unfolding share_fits
  IsSound-regrant s fits = record {
    one_note = g.one_note;
    rows = g.rows;
    one_share = λ n t p.
        rw
          (count_if-update_if (is_share n t p) (is_share s.note_id s.principal_type s.principal_id)
            (regranted s) (λ o. refl) d.note_shares)
          (g.one_share n t p);
    grants =
        All-update_if (IsGrant d.notes) _ (regranted s) (λ o h. (ground (arith, h.0), h.1))
          d.note_shares g.grants;
  }

  pub IsSound-drop_share :
      (n : ℕ) (t : String) (p : ℕ)
      → IsSound (record d { note_shares = drop_if (is_share n t p) d.note_shares })
  IsSound-drop_share n t p = record {
    one_note = g.one_note;
    rows = g.rows;
    one_share = λ n' t' p'. omega (
      arith,
      count_if-drop_if_le (is_share n' t' p') (is_share n t p) d.note_shares,
      g.one_share n' t' p',
    );
    grants = All-drop_if (IsGrant d.notes) _ d.note_shares g.grants;
  }
