-- ===== src/Polyform/Delta.antt =====
-- The reduced differences: their range, and what exchanging the two blocks does to them.
use omi_imo.Prelude.{
  ℕ, ◌+◌, ◌%◌, ◌≤◌, ◌<◌, ◌≡◌, ◌↔◌, refl, arith, ℤ, pos, neg, abs, abs-neg, List, [], ◌∷◌, map, ◌≢◌,
  ap, ◌∙◌,
}
use omi_imo.Polyform.Closure.{
  reduced_signed_delta, closure_distance_class, closure_orientation, orient, primary_from,
}

pub reduced_signed_delta-neg : (a b : ℕ) → reduced_signed_delta b a ≡ neg (reduced_signed_delta a b)
unfolding reduced_signed_delta
reduced_signed_delta-neg a b = ground arith

pub reduced_signed_delta-abs-le : (a b : ℕ) → abs (reduced_signed_delta a b) ≤ 2
unfolding reduced_signed_delta
reduced_signed_delta-abs-le a b = ground arith

pub reduced_signed_delta-zero : (a b : ℕ) → (reduced_signed_delta a b ≡ pos 0) ↔ (a ≡ b)
unfolding reduced_signed_delta
reduced_signed_delta-zero a b = ground arith

pub closure_distance_class-neg :
    (x y z w : ℤ)
    → closure_distance_class (neg x) (neg y) (neg z) (neg w) ≡ closure_distance_class x y z w
unfolding closure_distance_class
closure_distance_class-neg x y z w = ground arith

pub closure_distance_class-le : (x y z w : ℤ) → closure_distance_class x y z w ≤ 6
unfolding closure_distance_class
closure_distance_class-le x y z w = ground arith

pub closure_distance_class-zero :
    (x y z w : ℤ)
    → closure_distance_class x y z w ≡ 0
    → (x ≡ pos 0) × (y ≡ pos 0) × (z ≡ pos 0) × (w ≡ pos 0)
unfolding closure_distance_class
closure_distance_class-zero x y z w h = ground arith

pub closure_orientation-lt : (x y z w : ℤ) → closure_orientation x y z w < 4
unfolding closure_orientation
closure_orientation-lt x y z w = omega arith

-- Negating every difference keeps the index of the largest and negates it.
primary_from-neg :
    (i p : ℕ) (b : ℤ) (ds : List ℤ)
    → primary_from i p (neg b) (map neg ds)
      ≡ ((primary_from i p b ds).0, neg (primary_from i p b ds).1)
unfolding primary_from
primary_from-neg i p b [] = refl
primary_from-neg i p b (d ∷ ds) =
    ground (
      arith,
      abs-neg b,
      abs-neg d,
      primary_from-neg (i + 1) i d ds,
      primary_from-neg (i + 1) p b ds,
    )

primary_from-le : (i p : ℕ) (b : ℤ) (ds : List ℤ) → abs b ≤ abs (primary_from i p b ds).1
unfolding primary_from
primary_from-le i p b [] = omega arith
primary_from-le i p b (d ∷ ds) =
    ground (arith, primary_from-le (i + 1) i d ds, primary_from-le (i + 1) p b ds)

abbrev largest_of : ℤ → ℤ → ℤ → ℤ → ℕ
largest_of x y z w = abs (primary_from 1 0 x (y ∷ z ∷ w ∷ [])).1

largest_bounds :
    (x y z w : ℤ)
    → (abs x ≤ largest_of x y z w)
      × (abs y ≤ largest_of x y z w)
      × (abs z ≤ largest_of x y z w)
      × (abs w ≤ largest_of x y z w)
unfolding primary_from
largest_bounds x y z w = ground arith

flip_primary : (q : ℕ × ℤ) → q.1 ≢ pos 0 → orient (q.0, neg q.1) ≡ (orient q + 2) % 4
flip_primary (p, b) ne = ground arith

abs_zero : (a : ℤ) → abs a ≤ 0 → a ≡ pos 0
abs_zero a h = ground arith

nonzero :
    (x y z w : ℤ)
    → ¬ ((x ≡ pos 0) × (y ≡ pos 0) × (z ≡ pos 0) × (w ≡ pos 0))
    → (primary_from 1 0 x (y ∷ z ∷ w ∷ [])).1 ≢ pos 0
nonzero x y z w moved e =
    let (bx, by, bz, bw) = largest_bounds x y z w in
    let none_left = ap abs e in
    moved (
      abs_zero x (omega arith),
      abs_zero y (omega arith),
      abs_zero z (omega arith),
      abs_zero w (omega arith),
    )

-- Unless all differences are zero, negating them turns the orientation by two.
pub closure_orientation-neg :
    (x y z w : ℤ)
    → ¬ ((x ≡ pos 0) × (y ≡ pos 0) × (z ≡ pos 0) × (w ≡ pos 0))
    → closure_orientation (neg x) (neg y) (neg z) (neg w) ≡ (closure_orientation x y z w + 2) % 4
unfolding closure_orientation
closure_orientation-neg x y z w moved =
    ap orient (primary_from-neg 1 0 x (y ∷ z ∷ w ∷ []))
    ∙ flip_primary (primary_from 1 0 x (y ∷ z ∷ w ∷ [])) (nonzero x y z w moved)
