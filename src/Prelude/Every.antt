-- ===== src/Prelude/Every.antt =====
-- What holds of every row of a list that an insert, a delete or an update changed.
use bluestaq_takehome.Prelude.Tests.{Bool-cases}
use bluestaq_takehome.Prelude.Lists.{
  find, keep, drop_if, count_if, update_if, insert_by, sort_by, take, All,
}
use Prim.Native.Nat.{ℕ, zero, suc, ◌≤◌}
use mathlib.Core.Path.{◌≡◌, refl, sym, subst}
use mathlib.Core.Bool.{Bool}
use mathlib.Core.List.{List, [], ◌∷◌, ◌++◌, map}
use mathlib.Core.Logic.{inl, inr}
use mathlib.Core.Option.{some}
use native.Mathlib.Omega.{arith}

module _ {A : Type 0} where
  update_if-none :
      (q : A → Bool) (f : A → A) (xs : List A) → count_if q xs ≡ 0 → update_if q f xs ≡ xs
  unfolding update_if count_if
  update_if-none q f [] h = refl
  update_if-none q f (x ∷ xs) h = ground (arith, update_if-none q f xs)

module _ {A : Type 0} (P : A → Type 0) where
  pub All-append : (xs : List A) (y : A) → All P xs → P y → All P (xs ++ y ∷ [])
  All-append [] y a p = (p, tt)
  All-append (x ∷ xs) y (q, a) p = (q, All-append xs y a p)

  pub All-map : {Q : A → Type 0} → ((x : A) → P x → Q x) → (xs : List A) → All P xs → All Q xs
  All-map h [] a = tt
  All-map h (x ∷ xs) (p, a) = (h x p, All-map h xs a)

  pub All-update_if :
      (q : A → Bool) (f : A → A)
      → ((x : A) → P x → P (f x))
      → (xs : List A) → All P xs
      → All P (update_if q f xs)
  unfolding update_if
  All-update_if q f h [] a = tt
  All-update_if q f h (x ∷ xs) (p, a) = elim (Bool-cases (q x)) [
    | inl e ↦ rw e (h x p, All-update_if q f h xs a)
    | inr e ↦ rw e (p, All-update_if q f h xs a)
  ]

  pub All-find : (q : A → Bool) (xs : List A) (y : A) → find q xs ≡ some y → All P xs → P y
  unfolding find
  All-find q [] y e a = cc
  All-find q (x ∷ xs) y e (p, a) = elim (Bool-cases (q x)) [
    | inl h ↦ let same : x ≡ y = ground arith in subst P same p
    | inr h ↦ All-find q xs y (rw h at e) a
  ]

  pub All-drop_if : (q : A → Bool) (xs : List A) → All P xs → All P (drop_if q xs)
  unfolding keep
  All-drop_if q [] a = tt
  All-drop_if q (x ∷ xs) (p, a) = elim (Bool-cases (q x)) [
    | inl e ↦ rw e (All-drop_if q xs a)
    | inr e ↦ rw e (p, All-drop_if q xs a)
  ]

  -- Where one row at most passes the test, it is the row that `find` shows.
  pub All-update_one :
      (q : A → Bool) (f : A → A) (y : A)
      → P (f y)
      → (xs : List A) → find q xs ≡ some y
      → count_if q xs ≤ 1
      → All P xs
      → All P (update_if q f xs)
  unfolding update_if find count_if
  All-update_one q f y p [] e c a = tt
  All-update_one q f y p (x ∷ xs) e c (px, a) = elim (Bool-cases (q x)) [
    | inl h ↦
        let same : x ≡ y = ground arith in
        let rest : count_if q xs ≡ 0 = ground arith in
        rw h (subst (λ z. P (f z)) (sym same) p, subst (All P) (sym (update_if-none q f xs rest)) a)
    | inr h ↦ rw h (px, All-update_one q f y p xs (ground arith) (ground arith) a)
  ]

  pub All-keep : (q : A → Bool) (xs : List A) → All P xs → All P (keep q xs)
  unfolding keep
  All-keep q [] a = tt
  All-keep q (x ∷ xs) (p, a) = elim (Bool-cases (q x)) [
    | inl e ↦ rw e (p, All-keep q xs a)
    | inr e ↦ rw e (All-keep q xs a)
  ]

  pub All-insert_by :
      (le : A → A → Bool) (x : A) (xs : List A) → P x → All P xs → All P (insert_by le x xs)
  unfolding insert_by
  All-insert_by le x [] p a = (p, tt)
  All-insert_by le x (y ∷ ys) p (q, a) = elim (Bool-cases (le x y)) [
    | inl e ↦ rw e (p, (q, a))
    | inr e ↦ rw e (q, All-insert_by le x ys p a)
  ]

  pub All-sort_by : (le : A → A → Bool) (xs : List A) → All P xs → All P (sort_by le xs)
  unfolding sort_by
  All-sort_by le [] a = tt
  All-sort_by le (x ∷ xs) (p, a) = All-insert_by le x (sort_by le xs) p (All-sort_by le xs a)

  pub All-take : (n : ℕ) (xs : List A) → All P xs → All P (take n xs)
  unfolding take
  All-take zero xs a = tt
  All-take (suc n) [] a = tt
  All-take (suc n) (x ∷ xs) (p, a) = (p, All-take n xs a)

-- What holds of the images.
pub All-mapped :
    {A B : Type 0} (P : B → Type 0) (f : A → B) (xs : List A)
    → All (λ x. P (f x)) xs
    → All P (map f xs)
All-mapped P f [] a = tt
All-mapped P f (x ∷ xs) (p, a) = (p, All-mapped P f xs a)
