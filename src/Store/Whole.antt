-- ===== src/Store/Whole.antt =====
-- All or nothing, whatever faults the calls meet: a computation that fails leaves the tables as they
-- were, or as it leaves them where no call meets a fault and it does not fail.
use mathlib.Core.Path.{subst}
use bluestaq_takehome.Prelude.{
  suc, ◌≡◌, refl, sym, ◌∙◌, ◌⊎◌, inl, inr, Bool, true, false, Bool-cases, Option, none, some,
  if◌then◌else◌,
}
use bluestaq_takehome.Httpx.Problems.{Err, Result, ok, err}
use bluestaq_takehome.Store.Errors.{is_not_found}
use bluestaq_takehome.Store.Models.{Db}
use bluestaq_takehome.Store.World.{
  Fault, client_gone, deadline, statement_timeout, broken, fault_err, World, M, pure, throw, ask,
  lift, or_throw, call_number, continue, ◌>>=◌, ◌>>◌, handle, catch, landed, left_by, ended,
  outcome, stmt, query, kept, commit, begun, tx,
}
use bluestaq_takehome.Store.Hoare.{Post, Keeps}

-- The same world in which no call meets a fault.
abbrev pub quiet : World → World
quiet w = record w { fault = λ k. none; lands = λ k. false }

abbrev pub Returns : {A : Type 0} → Result A → Type 0
Returns (ok a) = Unit
Returns (err e) = ⊥

abbrev ThrowsIn : {A : Type 0} → Result A × World → Type 0
ThrowsIn (ok a, w) = ⊥
ThrowsIn (err e, w) = Unit

abbrev SameAs : {A : Type 0} → Result A × World → Result A × World → Type 0
SameAs (ok a, w) y = y ≡ (ok a, quiet w)
SameAs (err e, w) y = Unit

-- Where `m` returns, it returns the same without the faults.
pub record Agrees {A : Type 0} (m : M A) : Type 0 where
  pub at : (w : World) → SameAs (m w) (m (quiet w))

-- `m` never returns.
pub record Throws {A : Type 0} (m : M A) : Type 0 where
  pub at : (w : World) → ThrowsIn (m w)

abbrev pub Kept : {A : Type 0} → M A → Type 0
Kept m = (b : Db) → Keeps (λ d. d ≡ b) m

-- `m` returns, and the tables stay.
pub record Closes {A : Type 0} (m : M A) : Type 0 where
  pub at : (w : World) → Returns (m w).0 × ((m w).1.db ≡ w.db)

abbrev pub AllOrNothing : {A : Type 0} → Db → Db → Result A × World → Type 0
AllOrNothing before d y = (d ≡ before) ⊎ (Returns y.0 × (d ≡ y.1.db))

pub record Whole {A : Type 0} (m : M A) : Type 0 where
  pub at : (w : World) → AllOrNothing w.db (m w).1.db (m (quiet w))

module _ {A : Type 0} where
  same-kept : (b : Db) (x : Result A × World) → Post (λ _ d. d ≡ b) (λ d. d ≡ b) x → x.1.db ≡ b
  same-kept b (ok a, w) p = p
  same-kept b (err e, w) p = p

  pub Kept-db : (m : M A) → Kept m → (w : World) → (m w).1.db ≡ w.db
  Kept-db m k w = same-kept w.db (m w) ((k w.db).at w refl)

  pub Agrees-pure : (a : A) → Agrees (pure a)
  unfolding pure
  Agrees-pure a = record { at = λ w. refl }

  pub Agrees-throw : (e : Err) → Agrees (throw {A = A} e)
  unfolding throw
  Agrees-throw e = record { at = λ w. tt }

  pub Agrees-lift : (r : Result A) → Agrees (lift r)
  unfolding lift
  Agrees-lift (ok a) = record { at = λ w. refl }
  Agrees-lift (err e) = record { at = λ w. tt }

  pub Agrees-or_throw : (e : Err) (o : Option A) → Agrees (or_throw e o)
  unfolding or_throw
  Agrees-or_throw e none = Agrees-throw e
  Agrees-or_throw e (some a) = Agrees-pure a

  landed-same : (r : Result (A × Db)) (w : World) → SameAs (landed r w) (landed r (quiet w))
  unfolding landed
  landed-same (ok (a, d)) w = refl
  landed-same (err e) w = tt

-- What a statement computes does not depend on the faults.
abbrev pub Blind : {A : Type 0} → (World → A) → Type 0
Blind f = (w : World) → f (quiet w) ≡ f w

module _ {A : Type 0} where
  outcome-same :
      (o : Option Fault) (f : World → Result (A × Db)) (w : World)
      → f (quiet w) ≡ f w
      → SameAs (outcome o f w) (outcome none f (quiet w))
  unfolding outcome
  outcome-same none f w e = rw e (landed-same (f w) w)
  outcome-same (some x) f w e = tt

  pub Agrees-stmt : (f : World → Result (A × Db)) → Blind f → Agrees (stmt f)
  unfolding stmt
  Agrees-stmt f b = record { at = λ w. outcome-same (w.fault w.calls) f w (b w) }

  outcome-whole :
      (o : Option Fault) (f : World → Result (A × Db)) (w : World)
      → f (quiet w) ≡ f w
      → AllOrNothing w.db (outcome o f w).1.db (outcome none f (quiet w))
  unfolding outcome landed
  outcome-whole none f w e = rw e (go (f w))
    where
      go : (r : Result (A × Db)) → AllOrNothing w.db (landed r w).1.db (landed r (quiet w))
      go (ok (a, d)) = inr (tt, refl)
      go (err x) = inl refl
  outcome-whole (some x) f w e = rw e (go (w.lands w.calls) (f w))
    where
      go :
          (b : Bool) (r : Result (A × Db))
          → AllOrNothing w.db (left_by b r w.db) (landed r (quiet w))
      go true (ok (a, d)) = inr (tt, refl)
      go true (err x) = inl refl
      go false (ok (a, d)) = inl refl
      go false (err x) = inl refl

  pub Whole-stmt : (f : World → Result (A × Db)) → Blind f → Whole (stmt f)
  unfolding stmt
  Whole-stmt f b = record { at = λ w. outcome-whole (w.fault w.calls) f w (b w) }

  pub Agrees-query : (f : World → Result A) → Blind f → Agrees (query f)
  unfolding query kept
  Agrees-query f b = Agrees-stmt (λ w. kept w.db (f w)) (λ w. rw (b w) refl)

  -- An answer that does not depend on the tables.
  pub SameAs-answer : (r : Result A) (w : World) → SameAs (r, w) (r, quiet w)
  SameAs-answer (ok a) w = refl
  SameAs-answer (err e) w = tt

  Throws-same : (x y : Result A × World) → ThrowsIn x → SameAs x y
  Throws-same (ok a, v) y q = absurd q
  Throws-same (err e, v) y q = tt

  handle-same :
      (x y : Result A × World) (f : Err → M A)
      → SameAs x y
      → ((e : Err) → Throws (f e))
      → SameAs (handle x f) (handle y f)
  unfolding handle
  handle-same (ok a, w) y f p t = rw p refl
  handle-same (err e, w) y f p t = Throws-same (f e w) _ ((t e).at w)

  pub Agrees-catch :
      (m : M A) (f : Err → M A) → Agrees m → ((e : Err) → Throws (f e)) → Agrees (catch m f)
  unfolding catch
  Agrees-catch m f a t = record { at = λ w. handle-same (m w) (m (quiet w)) f (a.at w) t }

  handle-whole :
      (b : Db) (x y : Result A × World) (f : Err → M A)
      → AllOrNothing b x.1.db y
      → ((e : Err) → Kept (f e))
      → AllOrNothing b (handle x f).1.db (handle y f)
  unfolding handle
  handle-whole b (ok a, w) (ok a', w') f p k = p
  handle-whole b (ok a, w) (err e', w') f (inl p) k = inl p
  handle-whole b (ok a, w) (err e', w') f (inr p) k = absurd p.0
  handle-whole b (err e, w) (ok a', w') f (inl p) k = inl (Kept-db (f e) (k e) w ∙ p)
  handle-whole b (err e, w) (ok a', w') f (inr p) k = inr (tt, Kept-db (f e) (k e) w ∙ p.1)
  handle-whole b (err e, w) (err e', w') f (inl p) k = inl (Kept-db (f e) (k e) w ∙ p)
  handle-whole b (err e, w) (err e', w') f (inr p) k = absurd p.0

  pub Whole-catch :
      (m : M A) (f : Err → M A) → Whole m → ((e : Err) → Kept (f e)) → Whole (catch m f)
  unfolding catch
  Whole-catch m f a k = record { at = λ w. handle-whole w.db (m w) (m (quiet w)) f (a.at w) k }

  pub Whole-Kept : (m : M A) → Kept m → Whole m
  Whole-Kept m k = record { at = λ w. inl (Kept-db m k w) }

  ended-same :
      (before : Db) (o : Option Fault) (a : A) (w : World)
      → SameAs (ended before o a w) (ended before none a (quiet w))
  unfolding ended
  ended-same before none a w = refl
  ended-same before (some x) a w = tt

  commit-same :
      (before : Db) (x y : Result A × World)
      → SameAs x y
      → SameAs (commit before x) (commit before y)
  unfolding commit
  commit-same before (ok a, w) y p = rw p (ended-same before (w.fault w.calls) a w)
  commit-same before (err e, w) y p = tt

  begun-same :
      (o : Option Fault) (body : M A) (w : World)
      → Agrees body
      → SameAs (begun o body w) (begun none body (quiet w))
  unfolding begun
  begun-same none body w a = commit-same w.db _ _ (a.at (record w { calls = suc w.calls }))
  begun-same (some x) body w a = tt

  pub Agrees-tx : (body : M A) → Agrees body → Agrees (tx body)
  unfolding tx
  Agrees-tx body a = record { at = λ w. begun-same (w.fault w.calls) body w a }

  ended-whole :
      (before : Db) (o : Option Fault) (a : A) (w : World)
      → AllOrNothing before (ended before o a w).1.db (ended before none a (quiet w))
  unfolding ended
  ended-whole before none a w = inr (tt, refl)
  ended-whole before (some x) a w = elim (Bool-cases (w.lands w.calls)) [
    | inl e ↦ rw e (inr (tt, refl))
    | inr e ↦ rw e (inl refl)
  ]

  commit-whole :
      (before : Db) (x y : Result A × World)
      → SameAs x y
      → AllOrNothing before (commit before x).1.db (commit before y)
  unfolding commit
  commit-whole before (ok a, w) y p = rw p (ended-whole before (w.fault w.calls) a w)
  commit-whole before (err e, w) y p = inl refl

  begun-whole :
      (o : Option Fault) (body : M A) (w : World)
      → Agrees body
      → AllOrNothing w.db (begun o body w).1.db (begun none body (quiet w))
  unfolding begun
  begun-whole none body w a = commit-whole w.db _ _ (a.at (record w { calls = suc w.calls }))
  begun-whole (some x) body w a = inl refl

  pub Whole-tx : (body : M A) → Agrees body → Whole (tx body)
  unfolding tx
  Whole-tx body a = record { at = λ w. begun-whole (w.fault w.calls) body w a }

  pub Agrees-if : (b : Bool) (m n : M A) → Agrees m → Agrees n → Agrees (if b then m else n)
  Agrees-if true m n p q = p
  Agrees-if false m n p q = q

  pub Whole-if : (b : Bool) (m n : M A) → Whole m → Whole n → Whole (if b then m else n)
  Whole-if true m n p q = p
  Whole-if false m n p q = q

  pub Throws-throw : (e : Err) → Throws (throw {A = A} e)
  unfolding throw
  Throws-throw e = record { at = λ w. tt }

  pub Throws-if : (b : Bool) (m n : M A) → Throws m → Throws n → Throws (if b then m else n)
  Throws-if true m n p q = p
  Throws-if false m n p q = q

  pub Closes-pure : (a : A) → Closes (pure a)
  unfolding pure
  Closes-pure a = record { at = λ w. (tt, refl) }

  pub Closes-if : (b : Bool) (m n : M A) → Closes m → Closes n → Closes (if b then m else n)
  Closes-if true m n p q = p
  Closes-if false m n p q = q

module _ {A B : Type 0} where
  pub Throws-bind : (m : M A) (f : A → M B) → ((a : A) → Throws (f a)) → Throws (m >>= f)
  unfolding ◌>>=◌ continue
  Throws-bind m f t = record { at = λ w. go (m w) }
    where
      go : (x : Result A × World) → ThrowsIn (continue x f)
      go (ok a, w) = (t a).at w
      go (err e, w) = tt

  continue-same :
      (x y : Result A × World) (f : A → M B)
      → SameAs x y
      → ((a : A) → Agrees (f a))
      → SameAs (continue x f) (continue y f)
  unfolding continue
  continue-same (ok a, w) y f p h = rw p ((h a).at w)
  continue-same (err e, w) y f p h = tt

  pub Agrees-bind : (m : M A) (f : A → M B) → Agrees m → ((a : A) → Agrees (f a)) → Agrees (m >>= f)
  unfolding ◌>>=◌
  Agrees-bind m f a h = record { at = λ w. continue-same (m w) (m (quiet w)) f (a.at w) h }

  first-Whole :
      (b : Db) (x y : Result A × World) (f : A → M B)
      → SameAs x y
      → x.1.db ≡ b
      → ((a : A) → Whole (f a))
      → AllOrNothing b (continue x f).1.db (continue y f)
  unfolding continue
  first-Whole b (ok a, w) y f p e h =
      rw p (subst (λ c. AllOrNothing c (f a w).1.db (f a (quiet w))) e ((h a).at w))
  first-Whole b (err x, w) y f p e h = inl e

  -- Reads first.
  pub Whole-first :
      (m : M A) (f : A → M B) → Agrees m → Kept m → ((a : A) → Whole (f a)) → Whole (m >>= f)
  unfolding ◌>>=◌
  Whole-first m f a k h = record {
    at = λ w. first-Whole w.db (m w) (m (quiet w)) f (a.at w) (Kept-db m k w) h;
  }

  last-whole :
      (b : Db) (x y : Result A × World) (f : A → M B)
      → AllOrNothing b x.1.db y
      → ((a : A) → Closes (f a))
      → AllOrNothing b (continue x f).1.db (continue y f)
  unfolding continue
  last-whole b x (ok a', w') f (inr p) h =
      inr (((h a').at w').0, after x ∙ p.1 ∙ sym ((h a').at w').1)
    where
      after : (x : Result A × World) → (continue x f).1.db ≡ x.1.db
      after (ok a, w) = ((h a).at w).1
      after (err e, w) = refl
  last-whole b x (err e', w') f (inr p) h = absurd p.0
  last-whole b (ok a, w) y f (inl p) h = inl (((h a).at w).1 ∙ p)
  last-whole b (err e, w) y f (inl p) h = inl p

  -- The write, and then what cannot fail.
  pub Whole-last : (m : M A) (f : A → M B) → Whole m → ((a : A) → Closes (f a)) → Whole (m >>= f)
  unfolding ◌>>=◌
  Whole-last m f a h = record { at = λ w. last-whole w.db (m w) (m (quiet w)) f (a.at w) h }

  pub Agrees-then : (m : M A) (n : M B) → Agrees m → Agrees n → Agrees (m >> n)
  unfolding ◌>>◌
  Agrees-then m n a h = Agrees-bind m (λ _. n) a (λ _. h)

  pub Whole-first_then : (m : M A) (n : M B) → Agrees m → Kept m → Whole n → Whole (m >> n)
  unfolding ◌>>◌
  Whole-first_then m n a k h = Whole-first m (λ _. n) a k (λ _. h)

  pub Whole-last_then : (m : M A) (n : M B) → Whole m → Closes n → Whole (m >> n)
  unfolding ◌>>◌
  Whole-last_then m n a h = Whole-last m (λ _. n) a (λ _. h)

-- The error of a fault is no `pgx.ErrNoRows`.
pub is_not_found-fault_err : (x : Fault) → is_not_found (fault_err x) ≡ false
unfolding is_not_found fault_err
is_not_found-fault_err client_gone = refl
is_not_found-fault_err deadline = refl
is_not_found-fault_err statement_timeout = refl
is_not_found-fault_err (broken s) = refl

module _ {A B : Type 0} (f : World → Result A) (g : A → B) (h : Err → M B) where
  absent-same :
      (o : Option Fault) (w : World)
      → f (quiet w) ≡ f w
      → ((e : Err) → Agrees (h e))
      → ((x : Fault) → Throws (h (fault_err x)))
      → SameAs
          (handle (continue (outcome o (λ v. kept v.db (f v)) w) (λ a. pure (g a))) h)
          (handle (continue (outcome none (λ v. kept v.db (f v)) (quiet w)) (λ a. pure (g a))) h)
  unfolding outcome handle continue landed kept pure
  absent-same none w b a t = rw b (go (f w))
    where
      go :
          (r : Result A)
          → SameAs
              (handle (continue (landed (kept w.db r) w) (λ a. pure (g a))) h)
              (handle (continue (landed (kept w.db r) (quiet w)) (λ a. pure (g a))) h)
      go (ok v) = refl
      go (err e) = (a e).at (record w { calls = suc w.calls })
  absent-same (some x) w b a t = Throws-same _ _ ((t x).at _)

  -- A handler that looks only for `pgx.ErrNoRows` does not take a fault for it.
  pub Agrees-absent :
      Blind f
      → ((e : Err) → Agrees (h e))
      → ((x : Fault) → Throws (h (fault_err x)))
      → Agrees (catch (query f >>= λ a. pure (g a)) h)
  unfolding catch query stmt ◌>>=◌
  Agrees-absent b a t = record { at = λ w. absent-same (w.fault w.calls) w (b w) a t }

module _ {A B : Type 0} (f : World → Result (A × Db)) (k : A → M B) where
  -- What is left to do closes, or only reads where the statement has changed nothing.
  abbrev Ends : World → Result (A × Db) → Type 0
  Ends w (ok (a, d)) = Closes (k a) ⊎ (Kept (k a) × (d ≡ w.db))
  Ends w (err e) = Unit

  landed-Ends :
      (w : World) (r : Result (A × Db))
      → Ends w r
      → AllOrNothing w.db (continue (landed r w) k).1.db (continue (landed r (quiet w)) k)
  unfolding continue landed
  landed-Ends w (ok (a, d)) (inl c) = inr ((c.at _).0, (c.at _).1 ∙ sym (c.at _).1)
  landed-Ends w (ok (a, d)) (inr (s, e)) = inl (Kept-db (k a) s _ ∙ e)
  landed-Ends w (err e) u = inl refl

  left-Ends :
      (w : World) (b : Bool) (r : Result (A × Db))
      → Ends w r
      → AllOrNothing w.db (left_by b r w.db) (continue (landed r (quiet w)) k)
  unfolding continue landed
  left-Ends w true (ok (a, d)) (inl c) = inr ((c.at _).0, sym (c.at _).1)
  left-Ends w true (ok (a, d)) (inr (s, e)) = inl e
  left-Ends w true (err e) u = inl refl
  left-Ends w false (ok (a, d)) u = inl refl
  left-Ends w false (err e) u = inl refl

  checked-whole :
      (o : Option Fault) (w : World)
      → f (quiet w) ≡ f w
      → Ends w (f w)
      → AllOrNothing w.db (continue (outcome o f w) k).1.db (continue (outcome none f (quiet w)) k)
  unfolding outcome continue
  checked-whole none w b e = rw b (landed-Ends w (f w) e)
  checked-whole (some x) w b e = rw b (left-Ends w (w.lands w.calls) (f w) e)

  pub Whole-checked : Blind f → ((w : World) → Ends w (f w)) → Whole (stmt f >>= k)
  unfolding stmt ◌>>=◌
  Whole-checked b e = record { at = λ w. checked-whole (w.fault w.calls) w (b w) (e w) }

pub Agrees-ask : Agrees ask
unfolding ask
Agrees-ask = record { at = λ w. refl }

pub Agrees-call_number : Agrees call_number
unfolding call_number
Agrees-call_number = record { at = λ w. refl }

pub same_value : {A : Type 0} (a : A) → a ≡ a
same_value a = refl

pub ruleset whole_rules = (
  Agrees-pure, Agrees-throw, Agrees-lift, Agrees-or_throw, Agrees-ask, Agrees-call_number,
  Agrees-stmt, Agrees-query, Agrees-catch, Agrees-tx, Agrees-if, Agrees-bind, Agrees-then,
  Throws-throw, Throws-if, Throws-bind, Whole-stmt, Whole-tx, Whole-catch, Whole-Kept, Whole-if,
  Whole-first, Whole-last, Whole-first_then, Whole-last_then, Closes-pure, Closes-if, same_value,
)
