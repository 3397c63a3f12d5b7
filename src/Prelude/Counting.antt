-- ===== src/Prelude/Counting.antt =====
-- What `count_if`, `any` and `find` say of a list that an insert, a delete or an update changed.
use bluestaq_takehome.Prelude.Tests.{if◌then◌else◌}
use bluestaq_takehome.Prelude.Lists.{
  find, any, keep, drop_if, count_if, update_if, insert_by, sort_by,
}
use Prim.Native.Nat.{◌+◌, ◌≤◌}
use mathlib.Core.Path.{◌≡◌, refl}
use mathlib.Core.Bool.{Bool, true, false, ◌&&◌}
use mathlib.Core.List.{List, [], ◌∷◌, ◌++◌}
use mathlib.Core.Option.{none, some}
use native.Mathlib.Omega.{arith}

module _ {ℓ} {A : Type ℓ} (p : A → Bool) where
  pub count_if-append :
      (xs : List A) (y : A) → count_if p (xs ++ y ∷ []) ≡ count_if p xs + (if p y then 1 else 0)
  unfolding count_if
  count_if-append [] y = ground arith
  count_if-append (x ∷ xs) y = omega (arith, count_if-append xs y)

  pub any→count_if : (xs : List A) → any p xs ≡ true → 1 ≤ count_if p xs
  unfolding any count_if
  any→count_if [] h = ground arith
  any→count_if (x ∷ xs) h = ground (arith, any→count_if xs)

  pub not_any→count_if : (xs : List A) → any p xs ≡ false → count_if p xs ≡ 0
  unfolding any count_if
  not_any→count_if [] h = refl
  not_any→count_if (x ∷ xs) h = ground (arith, not_any→count_if xs)

  pub count_if→any : (xs : List A) → 1 ≤ count_if p xs → any p xs ≡ true
  unfolding any count_if
  count_if→any [] h = absurd (omega arith)
  count_if→any (x ∷ xs) h = ground (arith, count_if→any xs)

  pub any-append : (xs : List A) (y : A) → any p xs ≡ true → any p (xs ++ y ∷ []) ≡ true
  unfolding any
  any-append [] y h = ground arith
  any-append (x ∷ xs) y h = ground (arith, any-append xs y)

  pub any-append_last : (xs : List A) (y : A) → p y ≡ true → any p (xs ++ y ∷ []) ≡ true
  unfolding any
  any-append_last [] y h = ground arith
  any-append_last (x ∷ xs) y h = ground (arith, any-append_last xs y h)

  pub any-append_ne : (xs : List A) (y : A) → p y ≡ false → any p (xs ++ y ∷ []) ≡ any p xs
  unfolding any
  any-append_ne [] y h = ground arith
  any-append_ne (x ∷ xs) y h = ground (arith, any-append_ne xs y h)

  pub not_any→find : (xs : List A) → any p xs ≡ false → find p xs ≡ none
  unfolding any find
  not_any→find [] h = refl
  not_any→find (x ∷ xs) h = ground (arith, not_any→find xs)

  pub find-none : (xs : List A) → find p xs ≡ none → count_if p xs ≡ 0
  unfolding find count_if
  find-none [] h = refl
  find-none (x ∷ xs) h = ground (arith, find-none xs)

  pub find→count_if : (xs : List A) (y : A) → find p xs ≡ some y → 1 ≤ count_if p xs
  unfolding find count_if
  find→count_if [] y h = ground arith
  find→count_if (x ∷ xs) y h = ground (arith, find→count_if xs y)

  pub find-some : (xs : List A) (y : A) → find p xs ≡ some y → p y ≡ true
  unfolding find
  find-some [] y h = ground arith
  find-some (x ∷ xs) y h = ground (arith, find-some xs y)

module _ {ℓ} {A : Type ℓ} (p q : A → Bool) where
  pub count_if-drop_if :
      (xs : List A) → count_if p (drop_if q xs) + count_if (λ x. p x && q x) xs ≡ count_if p xs
  unfolding keep count_if
  count_if-drop_if [] = refl
  count_if-drop_if (x ∷ xs) = ground (arith, count_if-drop_if xs)

  pub count_if_mono :
      ((x : A) → p x ≡ true → q x ≡ true) → (xs : List A) → count_if p xs ≤ count_if q xs
  unfolding count_if
  count_if_mono h [] = omega arith
  count_if_mono h (x ∷ xs) = ground (arith, h x, count_if_mono h xs)

  pub any_mono :
      ((x : A) → p x ≡ true → q x ≡ true) → (xs : List A) → any p xs ≡ true → any q xs ≡ true
  unfolding any
  any_mono h [] e = ground arith
  any_mono h (x ∷ xs) e = ground (arith, h x, any_mono h xs)

  pub count_if-drop_if_le : (xs : List A) → count_if p (drop_if q xs) ≤ count_if p xs
  unfolding keep count_if
  count_if-drop_if_le [] = omega arith
  count_if-drop_if_le (x ∷ xs) = ground (arith, count_if-drop_if_le xs)

  pub count_if-drop_if_apart :
      ((x : A) → p x ≡ true → q x ≡ false)
      → (xs : List A) → count_if p (drop_if q xs) ≡ count_if p xs
  unfolding keep count_if
  count_if-drop_if_apart h [] = refl
  count_if-drop_if_apart h (x ∷ xs) = ground (arith, h x, count_if-drop_if_apart h xs)

  pub any-drop_if_apart :
      ((x : A) → p x ≡ true → q x ≡ false) → (xs : List A) → any p (drop_if q xs) ≡ any p xs
  unfolding keep any
  any-drop_if_apart h [] = refl
  any-drop_if_apart h (x ∷ xs) = ground (arith, h x, any-drop_if_apart h xs)

  pub find-drop_if_apart :
      ((x : A) → p x ≡ true → q x ≡ false) → (xs : List A) → find p (drop_if q xs) ≡ find p xs
  unfolding keep find
  find-drop_if_apart h [] = refl
  find-drop_if_apart h (x ∷ xs) = ground (arith, h x, find-drop_if_apart h xs)

  pub any-drop_if : (xs : List A) → any p (drop_if q xs) ≡ true → any p xs ≡ true
  unfolding keep any
  any-drop_if [] h = h
  any-drop_if (x ∷ xs) h = ground (arith, any-drop_if xs)

  pub any-drop_if_within :
      ((x : A) → p x ≡ true → q x ≡ true) → (xs : List A) → any p (drop_if q xs) ≡ false
  unfolding keep any
  any-drop_if_within h [] = refl
  any-drop_if_within h (x ∷ xs) = ground (arith, h x, any-drop_if_within h xs)

module _ {ℓ} {A : Type ℓ} (p q : A → Bool) where
  both→right : (x : A) → (p x && q x) ≡ true → q x ≡ true
  both→right x h = ground arith

  pub both-le : (xs : List A) → count_if (λ x. p x && q x) xs ≤ count_if q xs
  both-le xs = count_if_mono (λ x. p x && q x) q both→right xs

  -- A key that one row at most has: the row that `find` shows decides the count.
  pub find-count_if :
      (xs : List A) (y : A)
      → find q xs ≡ some y
      → count_if q xs ≤ 1
      → count_if (λ x. p x && q x) xs ≡ (if p y then 1 else 0)
  unfolding find count_if
  find-count_if [] y h u = ground arith
  find-count_if (x ∷ xs) y h u = ground (arith, both-le xs, find-count_if xs y)

module _ {ℓ} {A : Type ℓ} (p q : A → Bool) (f : A → A) where
  pub count_if-update_if_lost :
      ((x : A) → p (f x) ≡ false)
      → (xs : List A) → count_if p (update_if q f xs) ≡ count_if p (drop_if q xs)
  unfolding keep count_if update_if
  count_if-update_if_lost h [] = refl
  count_if-update_if_lost h (x ∷ xs) = ground (arith, h x, count_if-update_if_lost h xs)

  pub count_if-update_if :
      ((x : A) → p (f x) ≡ p x) → (xs : List A) → count_if p (update_if q f xs) ≡ count_if p xs
  unfolding count_if update_if
  count_if-update_if h [] = refl
  count_if-update_if h (x ∷ xs) = ground (arith, h x, count_if-update_if h xs)

  pub any-update_if :
      ((x : A) → p (f x) ≡ p x) → (xs : List A) → any p (update_if q f xs) ≡ any p xs
  unfolding any update_if
  any-update_if h [] = refl
  any-update_if h (x ∷ xs) = ground (arith, h x, any-update_if h xs)

  pub count_if-update_if_le :
      ((x : A) → p x ≡ true → p (f x) ≡ true)
      → (xs : List A) → count_if p xs ≤ count_if p (update_if q f xs)
  unfolding count_if update_if
  count_if-update_if_le h [] = omega arith
  count_if-update_if_le h (x ∷ xs) = ground (arith, h x, count_if-update_if_le h xs)

  -- A change that keeps a test is seen by the search for that test.
  pub find-update_if_kept :
      ((x : A) → p (f x) ≡ p x)
      → (xs : List A) (y : A) → find p xs ≡ some y
      → q y ≡ true
      → find p (update_if q f xs) ≡ some (f y)
  unfolding find update_if
  find-update_if_kept h [] y e t = cc
  find-update_if_kept h (x ∷ xs) y e t = ground (arith, h x, find-update_if_kept h xs y)

-- Two tests that single out one row find the same.
pub find-narrow {ℓ} :
    {A : Type ℓ} (p q r : A → Bool)
    → ((x : A) → p x ≡ true → r x ≡ true)
    → ((x : A) → q x ≡ true → r x ≡ true)
    → (xs : List A) (y : A) → find q xs ≡ some y
    → p y ≡ true
    → count_if r xs ≤ 1
    → find p xs ≡ some y
unfolding find count_if
find-narrow p q r hp hq [] y e t c = cc
find-narrow p q r hp hq (x ∷ xs) y e t c = ground (
  arith,
  hp x,
  hq x,
  find→count_if r xs y,
  find-narrow r q r (λ z k. k) hq xs y,
  hq y,
  find-some q xs y,
  find-narrow p q r hp hq xs y,
)

module _ {ℓ} {A : Type ℓ} (p q : A → Bool) where
  pub count_if-keep :
      (xs : List A) → count_if p (keep q xs) + count_if p (drop_if q xs) ≡ count_if p xs
  unfolding keep count_if
  count_if-keep [] = refl
  count_if-keep (x ∷ xs) = ground (arith, count_if-keep xs)

  pub keep_ext : ((x : A) → p x ≡ q x) → (xs : List A) → keep p xs ≡ keep q xs
  unfolding keep
  keep_ext h [] = refl
  keep_ext h (x ∷ xs) = ground (arith, h x, keep_ext h xs)

  pub any_ext : ((x : A) → p x ≡ q x) → (xs : List A) → any p xs ≡ any q xs
  unfolding any
  any_ext h [] = refl
  any_ext h (x ∷ xs) = ground (arith, h x, any_ext h xs)

  pub count_if_ext : ((x : A) → p x ≡ q x) → (xs : List A) → count_if p xs ≡ count_if q xs
  unfolding count_if
  count_if_ext h [] = refl
  count_if_ext h (x ∷ xs) = ground (arith, h x, count_if_ext h xs)

  -- Two filters in either order.
  pub keep_comm : (xs : List A) → keep p (keep q xs) ≡ keep q (keep p xs)
  unfolding keep
  keep_comm [] = refl
  keep_comm (x ∷ xs) = ground (arith, keep_comm xs)

  pub any-keep_none :
      (xs : List A) → ((x : A) → q x ≡ true → p x ≡ false) → any p (keep q xs) ≡ false
  unfolding keep any
  any-keep_none [] h = refl
  any-keep_none (x ∷ xs) h = ground (arith, h x, any-keep_none xs h)

pub drop_none {ℓ} :
    {A : Type ℓ} (q : A → Bool) (xs : List A) → count_if q xs ≡ 0 → drop_if q xs ≡ xs
unfolding count_if keep
drop_none q [] h = refl
drop_none q (x ∷ xs) h = ground (arith, drop_none q xs)

module _ {ℓ} {A : Type ℓ} (p : A → Bool) (le : A → A → Bool) where
  pub count_if-insert_by :
      (x : A) (xs : List A)
      → count_if p (insert_by le x xs) ≡ (if p x then 1 else 0) + count_if p xs
  unfolding count_if insert_by
  count_if-insert_by x [] = refl
  count_if-insert_by x (y ∷ ys) = ground (arith, count_if-insert_by x ys)

  -- A sort keeps the rows: every test counts the same.
  pub count_if-sort_by : (xs : List A) → count_if p (sort_by le xs) ≡ count_if p xs
  unfolding count_if sort_by
  count_if-sort_by [] = refl
  count_if-sort_by (x ∷ xs) =
      omega (arith, count_if-insert_by x (sort_by le xs), count_if-sort_by xs)
