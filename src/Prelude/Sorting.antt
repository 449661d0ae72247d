-- ===== src/Prelude/Sorting.antt =====
-- `Array.prototype.sort`, which is stable, as a stable insertion sort over a test `le`.
use Prim.Native.Nat.{ℕ, zero, suc}
use mathlib.Core.Path.{◌≡◌, refl, ap, ◌∙◌}
use mathlib.Core.Bool.{Bool, true, false}
use mathlib.Core.List.{List, [], ◌∷◌, Perm, Permᴰ}
use mathlib.Core.List.Perm
use mathlib.Core.Logic.{∥∥₁_elim, inl, inr}
use native.Mathlib.Omega.{arith}
use omi_imo.Prelude.Tests.{if◌then◌else◌, Bool-cases}
use omi_imo.Prelude.Lists.{All, Some, length, take, All-take}

module _ {ℓ} {A : Type ℓ} (le : A → A → Bool) where
  pub insert_sorted : A → List A → List A
  insert_sorted x [] = x ∷ []
  insert_sorted x (y ∷ ys) = if le x y then x ∷ y ∷ ys else y ∷ insert_sorted x ys

  unfoldable pub sort : List A → List A
  unfolding insert_sorted
  sort [] = []
  sort (x ∷ xs) = insert_sorted x (sort xs)

  abbrev pub IsSorted : List A → Type 0
  IsSorted [] = Unit
  IsSorted (x ∷ xs) = All (λ y. le x y ≡ true) xs × IsSorted xs

  insert_sorted-perm : (x : A) (xs : List A) → Perm (insert_sorted x xs) (x ∷ xs)
  unfolding insert_sorted
  insert_sorted-perm x [] = Perm.refl _
  insert_sorted-perm x (y ∷ ys) = elim (Bool-cases (le x y)) [
    | inl e ↦ rw e (Perm.refl _)
    | inr e ↦ rw e (Perm.trans (Perm.cons y (insert_sorted-perm x ys)) (Perm.swap x y ys))
  ]

  pub sort-perm : (xs : List A) → Perm (sort xs) xs
  unfolding sort
  sort-perm [] = Perm.refl _
  sort-perm (x ∷ xs) = Perm.trans (insert_sorted-perm x (sort xs)) (Perm.cons x (sort-perm xs))

  Some-insert_sorted :
      (P : A → Type 0) (x : A) (xs : List A) → Some P (x ∷ xs) → Some P (insert_sorted x xs)
  unfolding insert_sorted
  Some-insert_sorted P x [] h = h
  Some-insert_sorted P x (y ∷ ys) h = elim (Bool-cases (le x y)) [
    | inl e ↦ rw e h
    | inr e ↦ rw e (past h (Some-insert_sorted P x ys))
  ]
    where
      past :
          Some P (x ∷ y ∷ ys)
          → (Some P (x ∷ ys) → Some P (insert_sorted x ys))
          → Some P (y ∷ insert_sorted x ys)
      past (inl p) ih = inr (ih (inl p))
      past (inr (inl p)) ih = inl p
      past (inr (inr q)) ih = inr (ih (inr q))

  -- Sorting keeps what is in the list.
  pub Some-sort : (P : A → Type 0) (xs : List A) → Some P xs → Some P (sort xs)
  unfolding sort
  Some-sort P [] h = h
  Some-sort P (x ∷ xs) (inl p) = Some-insert_sorted P x (sort xs) (inl p)
  Some-sort P (x ∷ xs) (inr h) = Some-insert_sorted P x (sort xs) (inr (Some-sort P xs h))

  length-insert : (x : A) (xs : List A) → length (insert_sorted x xs) ≡ suc (length xs)
  unfolding insert_sorted
  length-insert x [] = refl
  length-insert x (y ∷ ys) = elim (Bool-cases (le x y)) [
    | inl e ↦ rw e refl
    | inr e ↦ rw e (ap suc (length-insert x ys))
  ]

  pub length-sort : (xs : List A) → length (sort xs) ≡ length xs
  unfolding sort
  length-sort [] = refl
  length-sort (x ∷ xs) = length-insert x (sort xs) ∙ ap suc (length-sort xs)

  All-insert {κ} :
      (P : A → Type κ) (x : A) (xs : List A) → P x → All P xs → All P (insert_sorted x xs)
  unfolding insert_sorted
  All-insert P x [] p h = (p, tt)
  All-insert P x (y ∷ ys) p (q, h) = elim (Bool-cases (le x y)) [
    | inl e ↦ rw e (p, (q, h))
    | inr e ↦ rw e (q, All-insert P x ys p h)
  ]

  pub All-sort {κ} : (P : A → Type κ) (xs : List A) → All P xs → All P (sort xs)
  unfolding sort
  All-sort P [] h = tt
  All-sort P (x ∷ xs) (p, h) = All-insert P x (sort xs) p (All-sort P xs h)

  pub IsSorted-take : (n : ℕ) (xs : List A) → IsSorted xs → IsSorted (take n xs)
  IsSorted-take zero xs s = tt
  IsSorted-take (suc n) [] s = tt
  IsSorted-take (suc n) (x ∷ xs) s = (All-take _ n xs s.0, IsSorted-take n xs s.1)

  sort-cons : (x : A) (xs : List A) → All (λ y. le x y ≡ true) xs → insert_sorted x xs ≡ x ∷ xs
  unfolding insert_sorted
  sort-cons x [] h = refl
  sort-cons x (y ∷ ys) h = rw h.0

  -- A list in order stays as it is.
  pub sort_of_sorted : (xs : List A) → IsSorted xs → sort xs ≡ xs
  unfolding sort
  sort_of_sorted [] s = refl
  sort_of_sorted (x ∷ xs) s = rw (sort_of_sorted xs s.1) (sort-cons x xs s.0)

  module _ (total : (a b : A) → le a b ≡ false → le b a ≡ true)
      (trans : (a b c : A) → le a b ≡ true → le b c ≡ true → le a c ≡ true) where
    All-insert_sorted :
        (z x : A) (xs : List A)
        → le z x ≡ true
        → All (λ y. le z y ≡ true) xs
        → All (λ y. le z y ≡ true) (insert_sorted x xs)
    unfolding insert_sorted
    All-insert_sorted z x [] h k = (h, tt)
    All-insert_sorted z x (y ∷ ys) h k = elim (Bool-cases (le x y)) [
      | inl e ↦ rw e (h, k)
      | inr e ↦ rw e (k.0, All-insert_sorted z x ys h k.1)
    ]

    All-weaken :
        (z x : A) (xs : List A)
        → le z x ≡ true
        → All (λ y. le x y ≡ true) xs
        → All (λ y. le z y ≡ true) xs
    All-weaken z x [] h k = tt
    All-weaken z x (y ∷ ys) h k = (trans z x y h k.0, All-weaken z x ys h k.1)

    insert_sorted-IsSorted : (x : A) (xs : List A) → IsSorted xs → IsSorted (insert_sorted x xs)
    unfolding insert_sorted
    insert_sorted-IsSorted x [] s = (tt, tt)
    insert_sorted-IsSorted x (y ∷ ys) s = elim (Bool-cases (le x y)) [
      | inl e ↦ rw e ((e, All-weaken x y ys e s.0), s)
      | inr e ↦ rw e (All-insert_sorted y x ys (total x y e) s.0, insert_sorted-IsSorted x ys s.1)
    ]

    pub sort-IsSorted : (xs : List A) → IsSorted (sort xs)
    unfolding sort
    sort-IsSorted [] = tt
    sort-IsSorted (x ∷ xs) = insert_sorted-IsSorted x (sort xs) (sort-IsSorted xs)

    module _ (antisym : (a b : A) → le a b ≡ true → le b a ≡ true → a ≡ b) where
      insert_sorted_comm :
          (x y : A) (l : List A)
          → insert_sorted x (insert_sorted y l) ≡ insert_sorted y (insert_sorted x l)
      unfolding insert_sorted
      insert_sorted_comm x y [] = ground (arith, total x y, total y x, antisym x y)
      insert_sorted_comm x y (z ∷ zs) = ground (
        arith,
        total x y,
        total y x,
        antisym x y,
        total x z,
        total y z,
        trans x y z,
        trans y x z,
        insert_sorted_comm x y zs,
      )

      sort-permᴰ : {xs ys : List A} → Permᴰ xs ys → sort xs ≡ sort ys
      unfolding sort
      sort-permᴰ Permᴰ.nil = refl
      sort-permᴰ (Permᴰ.cons e p) = rw e (ap (insert_sorted _) (sort-permᴰ p))
      sort-permᴰ (Permᴰ.swap {a = x} {b = y} {l = l} e f) =
          rw (e, f) (insert_sorted_comm _ _ (sort l))
      sort-permᴰ (Permᴰ.trans p q) = sort-permᴰ p ∙ sort-permᴰ q

      -- The order of the input does not matter.
      pub sort_congr : IsSet A → (xs ys : List A) → Perm xs ys → sort xs ≡ sort ys
      sort_congr s xs ys p = ∥∥₁_elim p (hlevel s) sort-permᴰ
