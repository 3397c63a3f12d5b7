-- ===== src/Store/Hoare.antt =====
-- Triples over the database: from `P` a computation ends in `Q` of its value, or fails in `R`.
-- One rule for each way to build a computation.
use mathlib.Core.Path.{subst}
use bluestaq_takehome.Prelude.{
  suc, ◌≡◌, refl, Bool, true, false, Bool-cases, inl, inr, Option, none, some, if◌then◌else◌,
}
use bluestaq_takehome.Httpx.Problems.{Err, Result, ok, err}
use bluestaq_takehome.Store.Models.{Db}
use bluestaq_takehome.Store.World.{
  Fault, World, M, pure, throw, continue, ◌>>=◌, handle, catch, landed, left_by, ended, outcome,
  stmt, query, kept, commit, begun, tx,
}

abbrev pub Post : {A : Type 0} → (A → Db → Type 0) → (Db → Type 0) → Result A × World → Type 0
Post Q R (ok a, w) = Q a w.db
Post Q R (err e, w) = R w.db

abbrev pub Lands : {A : Type 0} → (A → Db → Type 0) → Result (A × Db) → Type 0
Lands Q (ok (a, d)) = Q a d
Lands Q (err e) = Unit

pub record Hoare {A : Type 0} (P : Db → Type 0) (m : M A) (Q : A → Db → Type 0) (R : Db → Type 0)
    : Type 0 where
  pub at : (w : World) → P w.db → Post Q R (m w)

-- `m` keeps `P` whether it returns or fails.
abbrev pub Keeps : {A : Type 0} → (Db → Type 0) → M A → Type 0
Keeps P m = Hoare P m (λ _. P) P

module _ {A : Type 0} (R : Db → Type 0) where
  pub left_by-kept : (b : Bool) (r : Result A) (d : Db) → R d → R (left_by b (kept d r) d)
  unfolding kept
  left_by-kept true (ok a) d k = k
  left_by-kept true (err e) d k = k
  left_by-kept false (ok a) d k = k
  left_by-kept false (err e) d k = k

module _ {A : Type 0} (Q : A → Db → Type 0) (R : Db → Type 0) where
  landed-Post :
      (r : Result (A × Db)) (w : World)
      → ((a : A) (d : Db) → r ≡ ok (a, d) → Q a d)
      → R w.db
      → Post Q R (landed r w)
  unfolding landed
  landed-Post (ok (a, d)) w h k = h a d refl
  landed-Post (err e) w h k = k

  left_by-cases :
      (b : Bool) (r : Result (A × Db)) (d : Db)
      → ((a : A) (d' : Db) → r ≡ ok (a, d') → R d')
      → R d
      → R (left_by b r d)
  left_by-cases true (ok (a, d')) d l k = l a d' refl
  left_by-cases true (err e) d l k = k
  left_by-cases false (ok (a, d')) d l k = k
  left_by-cases false (err e) d l k = k

  outcome-Post :
      (o : Option Fault) (f : World → Result (A × Db)) (w : World)
      → ((a : A) (d : Db) → f w ≡ ok (a, d) → Q a d)
      → R w.db
      → ((a : A) (d : Db) → f w ≡ ok (a, d) → R d)
      → Post Q R (outcome o f w)
  unfolding outcome
  outcome-Post none f w h k l = landed-Post (f w) w h k
  outcome-Post (some x) f w h k l = left_by-cases (w.lands w.calls) (f w) w.db l k

  kept-Post :
      (r : Result A) (w : World)
      → ((a : A) → r ≡ ok a → Q a w.db)
      → R w.db
      → Post Q R (landed (kept w.db r) w)
  unfolding kept landed
  kept-Post (ok a) w h k = h a refl
  kept-Post (err e) w h k = k

  outcome-kept-Post :
      (o : Option Fault) (f : World → Result A) (w : World)
      → ((a : A) → f w ≡ ok a → Q a w.db)
      → R w.db
      → Post Q R (outcome o (λ v. kept v.db (f v)) w)
  unfolding outcome
  outcome-kept-Post none f w h k = kept-Post (f w) w h k
  outcome-kept-Post (some x) f w h k = left_by-kept R (w.lands w.calls) (f w) w.db k

  handle-Post :
      {R' : Db → Type 0} (r : Result A × World) (f : Err → M A)
      → Post Q R' r
      → ((e : Err) → Hoare R' (f e) Q R)
      → Post Q R (handle r f)
  unfolding handle
  handle-Post (ok a, w) f p h = p
  handle-Post (err e, w) f p h = (h e).at w p

  ended-Post :
      (before : Db) (o : Option Fault) (a : A) (w : World)
      → Q a w.db
      → R before
      → R w.db
      → Post Q R (ended before o a w)
  unfolding ended
  ended-Post before none a w q r l = q
  ended-Post before (some x) a w q r l = elim (Bool-cases (w.lands w.calls)) [
    | inl e ↦ rw e l
    | inr e ↦ rw e r
  ]

  commit-Post :
      (R' : Db → Type 0) (before : Db) (r : Result A × World)
      → Post Q R' r
      → R before
      → ((a : A) (d : Db) → Q a d → R d)
      → Post Q R (commit before r)
  unfolding commit
  commit-Post R' before (ok a, w) p r l = ended-Post before (w.fault w.calls) a w p r (l a w.db p)
  commit-Post R' before (err e, w) p r l = r

module _ {A : Type 0} (S : A → Db → Type 0) where
  pub Lands-if :
      (b : Bool) (x y : Result (A × Db)) → Lands S x → Lands S y → Lands S (if b then x else y)
  Lands-if true x y p q = p
  Lands-if false x y p q = q

module _ {A : Type 0} {P R : Db → Type 0} {Q : A → Db → Type 0} where
  pub Hoare-pure : (a : A) → ((d : Db) → P d → Q a d) → Hoare P (pure a) Q R
  unfolding pure
  Hoare-pure a h = record { at = λ w p. h w.db p }

  pub Hoare-throw : (e : Err) → ((d : Db) → P d → R d) → Hoare P (throw {A = A} e) Q R
  unfolding throw
  Hoare-throw e h = record { at = λ w p. h w.db p }

  -- A statement that reports a fault leaves what it found, or what it would have left.
  pub Hoare-stmt :
      (f : World → Result (A × Db))
      → ((w : World) (a : A) (d : Db) → P w.db → f w ≡ ok (a, d) → Q a d × R d)
      → ((d : Db) → P d → R d)
      → Hoare P (stmt f) Q R
  unfolding stmt
  Hoare-stmt f h k = record {
    at = λ w p.
        outcome-Post Q R (w.fault w.calls) f w (λ a d e. (h w a d p e).0) (k w.db p)
          (λ a d e. (h w a d p e).1);
  }

  -- The same with the result computed: `Lands` says what the new tables satisfy.
  pub Hoare-lands :
      (f : World → Result (A × Db))
      → ((w : World) → P w.db → Lands Q (f w))
      → ((d : Db) → P d → R d)
      → ((a : A) (d : Db) → Q a d → R d)
      → Hoare P (stmt f) Q R
  Hoare-lands f h k l =
      Hoare-stmt f (λ w a d p e. let q = subst (Lands Q) e (h w p) in (q, l a d q)) k

  pub Hoare-query :
      (f : World → Result A)
      → ((w : World) (a : A) → P w.db → f w ≡ ok a → Q a w.db)
      → ((d : Db) → P d → R d)
      → Hoare P (query f) Q R
  unfolding query stmt
  Hoare-query f h k = record {
    at = λ w p. outcome-kept-Post Q R (w.fault w.calls) f w (λ a e. h w a p e) (k w.db p);
  }

  pub Hoare-if :
      (b : Bool) (m n : M A)
      → (b ≡ true → Hoare P m Q R)
      → (b ≡ false → Hoare P n Q R)
      → Hoare P (if b then m else n) Q R
  Hoare-if true m n hm hn = hm refl
  Hoare-if false m n hm hn = hn refl

  pub Hoare-catch :
      {R' : Db → Type 0} (m : M A) (f : Err → M A)
      → Hoare P m Q R'
      → ((e : Err) → Hoare R' (f e) Q R)
      → Hoare P (catch m f) Q R
  unfolding catch
  Hoare-catch m f hm hf = record { at = λ w p. handle-Post Q R (m w) f (hm.at w p) hf }

  begun-Post :
      {R' : Db → Type 0} (o : Option Fault) (body : M A) (w : World)
      → Hoare P body Q R'
      → ((d : Db) → P d → R d)
      → ((a : A) (d : Db) → Q a d → R d)
      → P w.db
      → Post Q R (begun o body w)
  unfolding begun
  begun-Post {R' = R'} none body w h k l p =
      commit-Post Q R R' w.db _ (h.at (record w { calls = suc w.calls }) p) (k w.db p) l
  begun-Post (some x) body w h k l p = k w.db p

  -- What the body writes before it fails is rolled back: only `P` is left, or, where the commit
  -- reports a fault, what the body ended in.
  pub Hoare-tx :
      {R' : Db → Type 0} (body : M A)
      → Hoare P body Q R'
      → ((d : Db) → P d → R d)
      → ((a : A) (d : Db) → Q a d → R d)
      → Hoare P (tx body) Q R
  unfolding tx
  Hoare-tx body h k l = record { at = λ w p. begun-Post (w.fault w.calls) body w h k l p }

module _ {A B : Type 0} {R : Db → Type 0} {Q : A → Db → Type 0} {S : B → Db → Type 0} where
  pub continue-Post :
      (r : Result A × World) (f : A → M B)
      → Post Q R r
      → ((a : A) → Hoare (Q a) (f a) S R)
      → Post S R (continue r f)
  unfolding continue
  continue-Post (ok a, w) f p h = (h a).at w p
  continue-Post (err e, w) f p h = p

module _ {A B : Type 0} {P R : Db → Type 0} {Q : A → Db → Type 0} {S : B → Db → Type 0} where
  pub Hoare-bind :
      (m : M A) (f : A → M B)
      → Hoare P m Q R
      → ((a : A) → Hoare (Q a) (f a) S R)
      → Hoare P (m >>= f) S R
  unfolding ◌>>=◌
  Hoare-bind m f hm hf = record { at = λ w p. continue-Post (m w) f (hm.at w p) hf }
