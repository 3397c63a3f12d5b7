-- ===== src/Prelude/Descending.antt =====
-- Lists in strictly descending order of a Boolean relation: what the insertion sort makes of rows that
-- the relation tells apart, and what a filter by one of them leaves.
use Prim.Native.Nat.{ℕ, zero, suc}
use mathlib.Core.Path.{subst, ◌≡◌, refl, sym, ap}
use mathlib.Core.Bool.{Bool, true, false, not, ◌||◌}
use mathlib.Core.List.{List, [], ◌∷◌, ◌++◌}
use mathlib.Core.Logic.{inl, inr}
use mathlib.Core.Option.{Option, none, some}
use native.Mathlib.Omega.{arith}
use bluestaq_takehome.Prelude.Tests.{if◌then◌else◌, Bool-cases}
use bluestaq_takehome.Prelude.Lists.{keep, insert_by, sort_by, take, All}
use bluestaq_takehome.Prelude.Every.{All-map, All-keep, All-insert_by, All-sort_by}

pub record IsOrder {A : Type 0} (lt : A → A → Bool) : Type 0 where
  pub trans : (x y z : A) → lt x y ≡ true → lt y z ≡ true → lt x z ≡ true
  pub asym : (x y : A) → lt x y ≡ true → lt y x ≡ false

unfoldable pub drop : {A : Type 0} → ℕ → List A → List A
drop zero xs = xs
drop (suc n) [] = []
drop (suc n) (x ∷ xs) = drop n xs

abbrev pub last : {A : Type 0} → List A → Option A
last [] = none
last (x ∷ []) = some x
last (x ∷ y ∷ xs) = last (y ∷ xs)

module _ {A : Type 0} where
  keep_all : (q : A → Bool) (xs : List A) → All (λ y. q y ≡ true) xs → keep q xs ≡ xs
  unfolding keep
  keep_all q [] h = refl
  keep_all q (x ∷ xs) (p, h) = rw (p, keep_all q xs h) refl

  pub last-All : (P : A → Type 0) (xs : List A) (m : A) → All P xs → last xs ≡ some m → P m
  last-All P [] m a e = cc
  last-All P (x ∷ []) m (p, a) e = let same : x ≡ m = cc in rw (← same) p
  last-All P (x ∷ y ∷ xs) m (p, a) e = last-All P (y ∷ xs) m a e

  pub take-All : (P : A → Type 0) (n : ℕ) (xs : List A) → All P xs → All P (take n xs)
  unfolding take
  take-All P zero xs a = tt
  take-All P (suc n) [] a = tt
  take-All P (suc n) (x ∷ xs) (p, a) = (p, take-All P n xs a)

  pub take-drop : (n : ℕ) (xs : List A) → take n xs ++ drop n xs ≡ xs
  unfolding take drop
  take-drop zero xs = refl
  take-drop (suc n) [] = refl
  take-drop (suc n) (x ∷ xs) = ap (◌∷◌ x) (take-drop n xs)

module _ {A : Type 0} (lt : A → A → Bool) where
  abbrev pub IsDescending : List A → Type 0
  IsDescending [] = Unit
  IsDescending (x ∷ xs) = All (λ y. lt y x ≡ true) xs × IsDescending xs

  -- Any two rows are told apart.
  abbrev pub IsApart : List A → Type 0
  IsApart [] = Unit
  IsApart (x ∷ xs) = All (λ y. (lt x y || lt y x) ≡ true) xs × IsApart xs

  -- The order of the sort: not smaller.
  abbrev pub at_least : A → A → Bool
  at_least x y = not (lt x y)

  insert-smaller :
      (o : IsOrder lt) (x : A) (ys : List A)
      → All (λ y. lt y x ≡ true) ys
      → insert_by at_least x ys ≡ x ∷ ys
  unfolding insert_by
  insert-smaller o x [] h = refl
  insert-smaller o x (y ∷ ys) (p, h) = rw (o.asym y x p) refl

  insert-IsDescending :
      (o : IsOrder lt) (x : A) (ys : List A)
      → All (λ y. (lt x y || lt y x) ≡ true) ys
      → IsDescending ys
      → IsDescending (insert_by at_least x ys)
  unfolding insert_by
  insert-IsDescending o x [] a d = (tt, tt)
  insert-IsDescending o x (y ∷ ys) (p, a) (below, d) = elim (Bool-cases (lt x y)) [
    | inl e ↦
        rw e
          (All-insert_by (λ z. lt z y ≡ true) at_least x ys e below, insert-IsDescending o x ys a d)
    | inr e ↦
        let smaller : lt y x ≡ true = ground arith in
        rw e (
          (smaller, All-map (λ z. lt z y ≡ true) (λ z h. o.trans z y x h smaller) ys below),
          (below, d),
        )
  ]

  pub sort-IsDescending :
      (o : IsOrder lt) (xs : List A) → IsApart xs → IsDescending (sort_by at_least xs)
  unfolding sort_by
  sort-IsDescending o [] a = tt
  sort-IsDescending o (x ∷ xs) (p, a) =
      insert-IsDescending o x (sort_by at_least xs)
        (All-sort_by (λ y. (lt x y || lt y x) ≡ true) at_least xs p) (sort-IsDescending o xs a)

  pub IsApart-keep : (q : A → Bool) (xs : List A) → IsApart xs → IsApart (keep q xs)
  unfolding keep
  IsApart-keep q [] a = tt
  IsApart-keep q (x ∷ xs) (p, a) = elim (Bool-cases (q x)) [
    | inl e ↦ rw e (All-keep (λ y. (lt x y || lt y x) ≡ true) q xs p, IsApart-keep q xs a)
    | inr e ↦ rw e (IsApart-keep q xs a)
  ]

  keep-insert :
      (o : IsOrder lt) (q : A → Bool) (x : A) (ys : List A)
      → All (λ y. (lt x y || lt y x) ≡ true) ys
      → IsDescending ys
      → keep q (insert_by at_least x ys)
        ≡ (if q x then insert_by at_least x (keep q ys) else keep q ys)
  unfolding keep insert_by
  keep-insert o q x [] a d = refl
  keep-insert o q x (y ∷ ys) (p, a) (below, d) = elim (Bool-cases (lt x y)) [
    | inl e ↦
        let later = keep-insert o q x ys a d in
        elim (Bool-cases (q x)) [
          | inl qx ↦ elim (Bool-cases (q y)) [
            | inl qy ↦ rw (e, later, qx, qy, e) refl
            | inr qy ↦ rw (e, later, qx, qy) refl
          ]
          | inr qx ↦ rw (e, later, qx) refl
        ]
    | inr e ↦
        let smaller : lt y x ≡ true = ground arith in
        let under = All-map (λ z. lt z y ≡ true) (λ z h. o.trans z y x h smaller) ys below in
        elim (Bool-cases (q x)) [
          | inl qx ↦
              rw (e, qx)
                (sym (
                  insert-smaller o x (keep q (y ∷ ys))
                    (All-keep (λ z. lt z x ≡ true) q (y ∷ ys) (smaller, under))))
          | inr qx ↦ rw (e, qx) refl
        ]
  ]

  -- A filter of the sorted rows is the sort of the filtered ones.
  pub keep-sort :
      (o : IsOrder lt) (q : A → Bool) (xs : List A)
      → IsApart xs
      → keep q (sort_by at_least xs) ≡ sort_by at_least (keep q xs)
  unfolding keep sort_by
  keep-sort o q [] a = refl
  keep-sort o q (x ∷ xs) (p, a) =
      let sorted = sort_by at_least xs in
      let first =
        keep-insert o q x sorted (All-sort_by (λ y. (lt x y || lt y x) ≡ true) at_least xs p)
          (sort-IsDescending o xs a) in
      elim (Bool-cases (q x)) [
        | inl qx ↦ rw (first, qx, keep-sort o q xs a) refl
        | inr qx ↦ rw (first, qx) (keep-sort o q xs a)
      ]

  irrefl : (o : IsOrder lt) (x : A) → lt x x ≡ false
  irrefl o x = elim (Bool-cases (lt x x)) [ inl e ↦ o.asym x x e | inr e ↦ e ]

  -- What is below the last of the first `n` rows is what follows them.
  pub keep-below_last :
      (o : IsOrder lt) (n : ℕ) (xs : List A) (m : A)
      → IsDescending xs
      → last (take n xs) ≡ some m
      → keep (λ y. lt y m) xs ≡ drop n xs
  unfolding keep take drop
  keep-below_last o zero xs m d e = cc
  keep-below_last o (suc n) [] m d e = cc
  keep-below_last o (suc zero) (x ∷ xs) m (below, d) e =
      let same : x ≡ m = cc in
      subst (λ z. keep (λ y. lt y z) (x ∷ xs) ≡ xs) same
        (rw (irrefl o x) (keep_all (λ y. lt y x) xs below))
  keep-below_last o (suc (suc n)) (x ∷ []) m (below, d) e =
      let same : x ≡ m = cc in rw (← same, irrefl o x) refl
  keep-below_last o (suc (suc n)) (x ∷ y ∷ xs) m (below, d) e =
      let smaller =
        last-All (λ z. lt z x ≡ true) (take (suc n) (y ∷ xs)) m
          (take-All (λ z. lt z x ≡ true) (suc n) (y ∷ xs) below) e in
      rw (o.asym m x smaller) (keep-below_last o (suc n) (y ∷ xs) m d e)
