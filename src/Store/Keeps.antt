-- ===== src/Store/Keeps.antt =====
-- What a computation keeps whether it returns or fails: one rule for each way to build it.
use bluestaq_takehome.Prelude.{Bool, Option, none, some, if◌then◌else◌}
use bluestaq_takehome.Httpx.Problems.{Err, Result, ok, err}
use bluestaq_takehome.Store.Models.{Db}
use bluestaq_takehome.Store.World.{
  World, M, pure, throw, ask, lift, or_throw, ◌>>=◌, ◌>>◌, catch, query, tx,
}
use bluestaq_takehome.Store.Hoare.{
  Keeps, Hoare-pure, Hoare-throw, Hoare-query, Hoare-tx, Hoare-if, Hoare-catch, Hoare-bind,
}

module _ {P : Db → Type 0} where
  pub Keeps-ask : Keeps P ask
  unfolding ask
  Keeps-ask = record { at = λ w p. p }

module _ {A : Type 0} {P : Db → Type 0} where
  pub Keeps-pure : (a : A) → Keeps P (pure a)
  Keeps-pure a = Hoare-pure a (λ d p. p)

  pub Keeps-throw : (e : Err) → Keeps P (throw {A = A} e)
  Keeps-throw e = Hoare-throw e (λ d p. p)

  pub Keeps-lift : (r : Result A) → Keeps P (lift r)
  unfolding lift
  Keeps-lift (ok a) = record { at = λ w p. p }
  Keeps-lift (err e) = record { at = λ w p. p }

  pub Keeps-or_throw : (e : Err) (o : Option A) → Keeps P (or_throw e o)
  unfolding or_throw
  Keeps-or_throw e none = Keeps-throw e
  Keeps-or_throw e (some a) = Keeps-pure a

  pub Keeps-query : (f : World → Result A) → Keeps P (query f)
  Keeps-query f = Hoare-query f (λ w a p e. p) (λ d p. p)

  pub Keeps-tx : (body : M A) → Keeps P body → Keeps P (tx body)
  Keeps-tx body h = Hoare-tx body h (λ d p. p) (λ a d p. p)

  pub Keeps-if : (b : Bool) (m n : M A) → Keeps P m → Keeps P n → Keeps P (if b then m else n)
  Keeps-if b m n hm hn = Hoare-if b m n (λ _. hm) (λ _. hn)

  pub Keeps-catch :
      (m : M A) (f : Err → M A) → Keeps P m → ((e : Err) → Keeps P (f e)) → Keeps P (catch m f)
  Keeps-catch m f hm hf = Hoare-catch m f hm hf

module _ {A B : Type 0} {P : Db → Type 0} where
  pub Keeps-bind :
      (m : M A) (f : A → M B) → Keeps P m → ((a : A) → Keeps P (f a)) → Keeps P (m >>= f)
  Keeps-bind m f hm hf = Hoare-bind m f hm hf

  pub Keeps-then : (m : M A) (n : M B) → Keeps P m → Keeps P n → Keeps P (m >> n)
  unfolding ◌>>◌
  Keeps-then m n hm hn = Hoare-bind m (λ _. n) hm (λ _. hn)

pub ruleset keeps_rules = (
  Keeps-pure, Keeps-throw, Keeps-lift, Keeps-or_throw, Keeps-query, Keeps-ask, Keeps-if,
  Keeps-catch, Keeps-tx, Keeps-bind, Keeps-then,
)
