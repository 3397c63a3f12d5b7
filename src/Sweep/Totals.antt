-- ===== src/Sweep/Totals.antt =====
-- The sweep accounts for every row, whatever its calls meet.
use bluestaq_takehome.Prelude.{
  ℕ, zero, suc, ◌+◌, ◌-◌, ◌≤◌, ◌≡◌, refl, ap, Bool, true, false, none, List, [], ◌∷◌, length, ltb,
  Bool-cases, inl, inr, not, any, count_if, sym, ◌∙◌, take, map, arith,
}
use bluestaq_takehome.Httpx.Problems.{Result, ok, err}
use bluestaq_takehome.Store.World.{
  World, M, pure, throw, catch, handle, continue, stmt, query, outcome, landed, kept, ◌>>=◌, ◌>>◌,
}
use bluestaq_takehome.Storage
use bluestaq_takehome.Store.NoteQueries.{is_set}
use bluestaq_takehome.Store.AttachmentQueries.{
  ListStaleUploadsRow, delete_attachment_by_id, list_stale_uploads, stale_rows, stale_row,
}
use bluestaq_takehome.Sweep.{
  Report, Tally, tolerate, sweep_row, try_row, counted, sweep_rows, sweep_found, sweep_or_report,
  error_of, run,
}

-- A computation that returns a value that `P` holds of, whatever the state.
abbrev pub Returns : {A : Type 0} → (A → Type 0) → Result A × World → Type 0
Returns P (ok a, w) = P a
Returns P (err e, w) = ⊥

module _ {A B : Type 0} (P : A → Type 0) (Q : B → Type 0) where
  pub continue-Returns :
      (x : Result A × World) (f : A → M B)
      → Returns P x
      → ((a : A) (w : World) → P a → Returns Q (f a w))
      → Returns Q (continue x f)
  unfolding continue
  continue-Returns (ok a, w) f p k = k a w p
  continue-Returns (err e, w) f p k = absurd p

abbrev has_succeeded : Result ℕ → Bool
has_succeeded (ok n) = true
has_succeeded (err e) = false

-- The object store has removed the object, or it has none.
abbrev is_rid : Result (Unit {0}) → Bool
is_rid (ok u) = true
is_rid (err e) = Storage.is_not_found e

abbrev succeeded : Result ℕ × World → Bool × World
succeeded (x, w) = (has_succeeded x, w)

-- The second call is made where the first has succeeded.
abbrev after_delete : Bool → ListStaleUploadsRow → World → Bool × World
after_delete true a w = succeeded (delete_attachment_by_id a.id w)
after_delete false a w = (false, w)

abbrev attempt : ListStaleUploadsRow → World → Bool × World
attempt a w =
    after_delete (is_rid (Storage.delete a.object_key w).0) a (Storage.delete a.object_key w).1

-- For each row, one after the other: both calls for it have succeeded.
abbrev pub attempts : List ListStaleUploadsRow → World → List Bool
attempts [] w = []
attempts (a ∷ rows) w = (attempt a w).0 ∷ attempts rows (attempt a w).1

done_or_not :
    (x : Result ℕ × World)
    → handle (continue x (λ n. pure true)) (λ e. pure false) ≡ (ok (succeeded x).0, (succeeded x).1)
unfolding handle continue pure
done_or_not (ok n, w) = refl
done_or_not (err e, w) = refl

try_row-attempt :
    (a : ListStaleUploadsRow) (w : World) → try_row a w ≡ (ok (attempt a w).0, (attempt a w).1)
unfolding try_row sweep_row catch ◌>>=◌ ◌>>◌ handle continue tolerate pure throw
try_row-attempt a w = go (Storage.delete a.object_key w)
  where
    go :
        (x : Result (Unit {0}) × World)
        → handle
            (continue
              (continue (handle x tolerate) (λ u. delete_attachment_by_id a.id))
              (λ n. pure true))
            (λ e. pure false)
          ≡ (ok (after_delete (is_rid x.0) a x.1).0, (after_delete (is_rid x.0) a x.1).1)
    go (ok u, v) = done_or_not (delete_attachment_by_id a.id v)
    go (err e, v) = elim (Bool-cases (Storage.is_not_found e)) [
      | inl gone ↦ rw gone (done_or_not (delete_attachment_by_id a.id v))
      | inr there ↦ rw there refl
    ]

Returns-map :
    {A : Type 0} (P Q : A → Type 0) (x : Result A × World)
    → ((a : A) → P a → Q a)
    → Returns P x
    → Returns Q x
Returns-map P Q (ok a, w) k p = k a p
Returns-map P Q (err e, w) k p = p

abbrev is_done : Bool → Bool
is_done b = b

abbrev Accounts : List Bool → Tally → Tally → Type 0
Accounts done t u =
    (u.deleted ≡ t.deleted + count_if is_done done) × (u.failed ≡ t.failed + count_if not done)

one_more :
    (b : Bool) (done : List Bool) (t u : Tally)
    → Accounts done (counted b t) u
    → Accounts (b ∷ done) t u
unfolding count_if
one_more true done t u p = (omega (arith, p.0), omega (arith, p.1))
one_more false done t u p = (omega (arith, p.0), omega (arith, p.1))

sweep_rows-Returns :
    (rows : List ListStaleUploadsRow) (t : Tally) (w : World)
    → Returns (Accounts (attempts rows w) t) (sweep_rows rows t w)
unfolding sweep_rows pure count_if ◌>>=◌ continue
sweep_rows-Returns [] t w = (omega arith, omega arith)
sweep_rows-Returns (a ∷ rows) t w = rw (try_row-attempt a w) (
    Returns-map (Accounts (attempts rows (attempt a w).1) (counted (attempt a w).0 t))
      (Accounts (attempts (a ∷ rows) w) t) _
      (one_more (attempt a w).0 (attempts rows (attempt a w).1) t)
      (sweep_rows-Returns rows (counted (attempt a w).0 t) (attempt a w).1))

is_set-error_of : (failed : ℕ) → is_set (error_of failed) ≡ ltb 0 failed
is_set-error_of failed = ground arith

any-count_if : (done : List Bool) → any not done ≡ ltb 0 (count_if not done)
unfolding any count_if
any-count_if [] = refl
any-count_if (true ∷ done) = ground (arith, any-count_if done)
any-count_if (false ∷ done) = ground arith

attempts-length :
    (rows : List ListStaleUploadsRow) (w : World) → length (attempts rows w) ≡ length rows
attempts-length [] w = refl
attempts-length (a ∷ rows) w = ap suc (attempts-length rows (attempt a w).1)

-- The report of a run over rows of which these are done.
abbrev pub Adds : List Bool → Report → Type 0
Adds done rep =
    (rep.found ≡ length done)
    × (rep.deleted ≡ count_if is_done done)
    × (rep.failed ≡ count_if not done)
    × (is_set rep.error ≡ any not done)

sweep_found-Returns :
    (stale : List ListStaleUploadsRow) (w : World)
    → Returns (Adds (attempts stale w)) (sweep_found stale w)
unfolding sweep_found pure ◌>>=◌
sweep_found-Returns stale w =
    continue-Returns (Accounts (attempts stale w) (record { deleted = 0; failed = 0 }))
      (Adds (attempts stale w)) (sweep_rows stale (record { deleted = 0; failed = 0 }) w) _
      (sweep_rows-Returns stale _ w)
      (λ u v p. (
        sym (attempts-length stale w),
        omega (arith, p.0),
        omega (arith, p.1),
        is_set-error_of u.failed
            ∙ ap (ltb 0) (omega (arith, p.1))
            ∙ sym (any-count_if (attempts stale w)),
      ))

-- What the first query answers where it meets no fault.
abbrev pub stale_found : ℕ → ℕ → World → List ListStaleUploadsRow
stale_found cutoff batch w = map stale_row (take batch (stale_rows cutoff w.db.attachments))

length-map : {A B : Type 0} (f : A → B) (xs : List A) → length (map f xs) ≡ length xs
length-map f [] = refl
length-map f (x ∷ xs) = ap suc (length-map f xs)

length-take : {A : Type 0} (n : ℕ) (xs : List A) → length (take n xs) ≤ n
unfolding take
length-take zero xs = omega arith
length-take (suc n) [] = omega arith
length-take (suc n) (x ∷ xs) = omega (arith, length-take n xs)

pub stale_found-le : (cutoff batch : ℕ) (w : World) → length (stale_found cutoff batch w) ≤ batch
stale_found-le cutoff batch w =
    rw (length-map stale_row (take batch (stale_rows cutoff w.db.attachments)))
      (length-take batch (stale_rows cutoff w.db.attachments))

-- Nothing to sweep, or a sweep of what is found.
chosen-Returns :
    (stale : List ListStaleUploadsRow) (w : World)
    → Returns (Adds (attempts stale w)) (sweep_or_report stale false w)
unfolding sweep_or_report pure count_if any
chosen-Returns [] w = (refl, refl, refl, refl)
chosen-Returns (a ∷ stale) w = sweep_found-Returns (a ∷ stale) w

-- What each row that the query finds comes to, from the world behind the query.
abbrev pub swept : ℕ → ℕ → World → List Bool
swept cutoff batch w = attempts (stale_found cutoff batch w) (record w { calls = suc w.calls })

-- A run ends with a report, whatever faults the two calls for a row meet and whatever the object store
-- reports: it counts as deleted the rows for which both calls succeeded, where an object that is not
-- there counts as removed, and as failed all others; it has an error exactly where there is one of
-- these; and there are as many rows as the query finds, at most `batch`. The query itself meets no
-- fault.
pub run_total :
    (clock age batch : ℕ) (w : World)
    → w.fault w.calls ≡ none
    → Returns (Adds (swept (clock - age) batch w)) (run clock age batch false w)
      × (length (swept (clock - age) batch w) ≤ batch)
unfolding run list_stale_uploads query stmt outcome landed kept ◌>>=◌ continue
run_total clock age batch w calm = (
  rw calm (chosen-Returns _ _),
  rw (attempts-length (stale_found (clock - age) batch w) (record w { calls = suc w.calls }))
      (stale_found-le (clock - age) batch w),
)
