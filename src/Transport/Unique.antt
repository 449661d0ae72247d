-- ===== src/Transport/Unique.antt =====
-- `uniqueSorted`: its result depends on nothing but which texts occur.
use omi_imo.Prelude.{
  subst, ◌≡◌, refl, sym, ap, ◌∙◌, Bool, true, false, ◌||◌, List, [], ◌∷◌, ◌++◌, Text, text_eq,
  text_eq_refl, text_eq_sound, text_le_total, text_le_trans, text_le_antisym, text_le, any,
  if◌then◌else◌, arith, Bool-cases, inl, inr,
}
use native.Mathlib.Nat.{ℕ_set}
use mathlib.Core.Logic.{∥∥₁_elim}
use mathlib.Core.List.{
  Mem, Nodup, Nodup-nil, Nodup-cons, not-mem-nil, Perm, eq-or-mem_of_mem-cons, mem-cons_self,
  mem-cons_of_mem, perm_ext_iff_of_Nodup,
}
use mathlib.Core.List.Perm
use omi_imo.Prelude.Sorting.{sort, sort-perm, sort_congr}
use omi_imo.Transport.Adapter.{push_unique, unique_sorted}

unfoldable pub has : Text → List Text → Bool
has a xs = any (text_eq a) xs

-- No text occurs twice.
IsUnique : List Text → Type 0
IsUnique [] = Unit
IsUnique (x ∷ xs) = (has x xs ≡ false) × IsUnique xs

pub has-append : (a : Text) (xs ys : List Text) → has a (xs ++ ys) ≡ (has a xs || has a ys)
unfolding has any
has-append a [] ys = refl
has-append a (x ∷ xs) ys = ground (arith, has-append a xs ys)

push_step : Text → List Text → List Text
push_step x out = if any (text_eq x) out then out else out ++ x ∷ []

has-push_step :
    (a x : Text) (out : List Text) → has a (push_step x out) ≡ (has a out || text_eq a x)
unfolding push_step
has-push_step a x out = elim (Bool-cases (any (text_eq x) out)) [
  | inr new ↦ rw new (has-append a out (x ∷ []) ∙ unfold has any in ground arith)
  | inl old ↦ elim (Bool-cases (text_eq a x)) [
    | inr other ↦ rw (old, other) (ground arith)
    | inl same ↦ rw (old, same) (rw (text_eq_sound a x same) (unfold has in rw old refl))
  ]
]

has-push_unique :
    (a : Text) (out xs : List Text) → has a (push_unique out xs) ≡ (has a out || has a xs)
unfolding push_unique push_step
has-push_unique a out [] = unfold has any in ground arith
has-push_unique a out (x ∷ xs) =
    has-push_unique a (push_step x out) xs
    ∙ rw (has-push_step a x out) (unfold has any in ground arith)

pub text_eq_sym : (a b : Text) → text_eq a b ≡ false → text_eq b a ≡ false
text_eq_sym a b h = elim (Bool-cases (text_eq b a)) [
  | inr other ↦ other
  | inl same ↦ absurd (no (text_eq_sound b a same))
]
  where
    no : b ≡ a → ⊥
    no e = ground (arith, h, subst (λ t. text_eq a t ≡ true) (sym e) (text_eq_refl a))

snoc-IsUnique :
    (x : Text) (xs : List Text) → IsUnique xs → has x xs ≡ false → IsUnique (xs ++ x ∷ [])
unfolding IsUnique
snoc-IsUnique x [] u h = (unfold has any in refl, tt)
snoc-IsUnique x (y ∷ xs) u h =
    let apart : text_eq x y ≡ false = unfold has any in ground arith in
    let turned = text_eq_sym x y apart in
    (
      has-append y xs (x ∷ []) ∙ unfold has any in ground (arith, u.0),
      snoc-IsUnique x xs u.1 (unfold has any in ground arith),
    )

push_step-IsUnique : (x : Text) (out : List Text) → IsUnique out → IsUnique (push_step x out)
unfolding push_step
push_step-IsUnique x out u = elim (Bool-cases (any (text_eq x) out)) [
  | inr new ↦ rw new (snoc-IsUnique x out u (unfold has in new))
  | inl old ↦ rw old u
]

push_unique-IsUnique : (out xs : List Text) → IsUnique out → IsUnique (push_unique out xs)
unfolding push_unique push_step
push_unique-IsUnique out [] u = u
push_unique-IsUnique out (x ∷ xs) u =
    push_unique-IsUnique (push_step x out) xs (push_step-IsUnique x out u)

mem-has : {a : Text} (xs : List Text) → Mem a xs → has a xs ≡ true
unfolding has any
mem-has [] m = absurd (not-mem-nil m)
mem-has {a} (x ∷ xs) m = ∥∥₁_elim (eq-or-mem_of_mem-cons m) (hlevel) λ o. elim o [
  | inl e ↦ rw (subst (λ t. text_eq a t ≡ true) e (text_eq_refl a)) refl
  | inr later ↦ (let below = mem-has xs later in unfold has in ground arith)
]

has-mem : {a : Text} (xs : List Text) → has a xs ≡ true → Mem a xs
unfolding has any
has-mem [] h = cc
has-mem {a} (x ∷ xs) h = elim (Bool-cases (text_eq a x)) [
  | inl same ↦ subst (λ t. Mem a (t ∷ xs)) (text_eq_sound a x same) mem-cons_self
  | inr other ↦ mem-cons_of_mem x (has-mem xs (unfold has in ground arith))
]

IsUnique-Nodup : (xs : List Text) → IsUnique xs → Nodup xs
unfolding IsUnique
IsUnique-Nodup [] u = Nodup-nil
IsUnique-Nodup (x ∷ xs) u = Nodup-cons.1 (λ m. absurd (absent m), IsUnique-Nodup xs u.1)
  where
    absent : Mem x xs → ⊥
    absent m = let there = mem-has xs m in ground (arith, u.0)

pub unique_sorted_congr :
    (xs ys : List Text) → ((a : Text) → has a xs ≡ has a ys) → unique_sorted xs ≡ unique_sorted ys
unfolding unique_sorted
unique_sorted_congr xs ys h =
    sort_congr text_le text_le_total text_le_trans text_le_antisym (hlevel ℕ_set) _ _ (
      (perm_ext_iff_of_Nodup (unique xs) (unique ys)).1 λ a.
        (λ m. has-mem _ (sym (members a) ∙ mem-has _ m), λ m. has-mem _ (members a ∙ mem-has _ m)))
  where
    unique : (l : List Text) → Nodup (push_unique [] l)
    unique l = IsUnique-Nodup _ (push_unique-IsUnique [] l (unfold IsUnique in tt))

    members : (a : Text) → has a (push_unique [] xs) ≡ has a (push_unique [] ys)
    members a = has-push_unique a [] xs ∙ (ap (has a [] ||◌) (h a) ∙ sym (has-push_unique a [] ys))

has-perm : (a : Text) {xs ys : List Text} → Perm xs ys → has a xs ≡ true → has a ys ≡ true
has-perm a {xs} {ys} p h = mem-has ys (Perm.subset p a (has-mem xs h))

-- Sorting keeps the texts that occur.
pub has-sort : (a : Text) (xs : List Text) → has a (sort text_le xs) ≡ has a xs
has-sort a xs = elim (Bool-cases (has a xs)) [
  | inl there ↦ has-perm a (Perm.symm (sort-perm text_le xs)) there ∙ sym there
  | inr absent ↦ elim (Bool-cases (has a (sort text_le xs))) [
    | inl there ↦ (let here = has-perm a (sort-perm text_le xs) there in cc)
    | inr gone ↦ gone ∙ sym absent
  ]
]

-- The texts that occur are those of the list.
pub has-unique_sorted : (a : Text) (xs : List Text) → has a (unique_sorted xs) ≡ has a xs
unfolding unique_sorted
has-unique_sorted a xs =
    has-sort a (push_unique [] xs) ∙ (has-push_unique a [] xs ∙ unfold has any in refl)
