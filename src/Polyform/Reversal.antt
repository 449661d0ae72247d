-- ===== src/Polyform/Reversal.antt =====
-- Closures between blocks are valid, and reversing one is exchanging its blocks.
use omi_imo.Prelude.{
  ℕ, ◌+◌, ◌*◌, ◌%◌, ◌≤◌, ◌≡◌, ◌≢◌, ◌↔◌, refl, sym, ap, ◌∙◌, subst, true, none, some, arith, ℤ, pos,
  neg, neg-neg,
}
use native.Mathlib.Decide.{ℕ_discrete}
use omi_imo.Polyform.Block.{Block, validate_timing}
use omi_imo.Polyform.Closure.{
  Closure, reduced_signed_delta, closure_distance_class, closure_orientation, closure_from_blocks,
  validate_closure, reverse_closure, seal, readout, closure_receipt_hash,
}
use omi_imo.Polyform.Validity.{IsClosed, validate_closure-IsClosed, IsClosed-validate_closure}
use omi_imo.Polyform.Delta.{
  reduced_signed_delta-neg, reduced_signed_delta-zero, closure_distance_class-neg,
  closure_distance_class-le, closure_distance_class-zero, closure_orientation-lt,
  closure_orientation-neg,
}

-- `closureFromBlocks` on its four differences.
abbrev closure_of : ℤ → ℤ → ℤ → ℤ → Closure
closure_of x y z w =
    let class = closure_distance_class x y z w in
    seal x y z w class class (class * 10 % 60) (closure_orientation x y z w)

abbrev pub SamePlace : Block → Block → Type 0
SamePlace a b = (a.x ≡ b.x) × (a.y ≡ b.y) × (a.z ≡ b.z) × (a.w ≡ b.w)

closure_of-IsClosed :
    (x y z w : ℤ) → closure_distance_class x y z w ≢ 0 → IsClosed (closure_of x y z w)
unfolding seal closure_distance_class closure_receipt_hash
closure_of-IsClosed x y z w ne = record {
  class_low = omega arith;
  class_high = closure_distance_class-le x y z w;
  class_eq = refl;
  slot_eq = refl;
  orientation_le = omega (arith, closure_orientation-lt x y z w);
  frame_eq = refl;
  moved = ground arith;
  readout_eq = refl;
  receipt_eq = refl;
}

closure_distance_class-origin : closure_distance_class (pos 0) (pos 0) (pos 0) (pos 0) ≡ 0
unfolding closure_distance_class
closure_distance_class-origin = refl

abbrev class_between : Block → Block → ℕ
class_between a b =
    closure_distance_class (reduced_signed_delta a.x b.x) (reduced_signed_delta a.y b.y)
      (reduced_signed_delta a.z b.z) (reduced_signed_delta a.w b.w)

abbrev between : Block → Block → Closure
between a b =
    closure_of (reduced_signed_delta a.x b.x) (reduced_signed_delta a.y b.y)
      (reduced_signed_delta a.z b.z) (reduced_signed_delta a.w b.w)

from_blocks_cases :
    (a b : Block) {c : Closure}
    → closure_from_blocks a b ≡ some c
    → (validate_timing a.clock ≡ true)
      × (validate_timing b.clock ≡ true)
      × (class_between a b ≢ 0)
      × (between a b ≡ c)
unfolding closure_from_blocks
from_blocks_cases a b h = (ground arith, ground arith, ground arith, ground arith)

from_blocks_some :
    (a b : Block)
    → validate_timing a.clock ≡ true
    → validate_timing b.clock ≡ true
    → class_between a b ≢ 0
    → closure_from_blocks a b ≡ some (between a b)
unfolding closure_from_blocks
from_blocks_some a b ta tb ne = ground arith

from_blocks_none : (a b : Block) → class_between a b ≡ 0 → closure_from_blocks a b ≡ none
unfolding closure_from_blocks
from_blocks_none a b e = ground arith

class_between-zero_iff : (a b : Block) → (class_between a b ≡ 0) ↔ SamePlace a b
class_between-zero_iff a b = (same, zero)
  where
    same : class_between a b ≡ 0 → SamePlace a b
    same e =
        let (x, y, z, w) = closure_distance_class-zero _ _ _ _ e in
        (
          (reduced_signed_delta-zero _ _).0 x,
          (reduced_signed_delta-zero _ _).0 y,
          (reduced_signed_delta-zero _ _).0 z,
          (reduced_signed_delta-zero _ _).0 w,
        )

    zero : SamePlace a b → class_between a b ≡ 0
    zero (x, y, z, w) =
        rw
          (
            (reduced_signed_delta-zero _ _).1 x,
            (reduced_signed_delta-zero _ _).1 y,
            (reduced_signed_delta-zero _ _).1 z,
            (reduced_signed_delta-zero _ _).1 w,
          )
          closure_distance_class-origin

-- The closure of two blocks passes `validateClosure`.
pub closure_from_blocks-validate_closure :
    (a b : Block) {c : Closure} → closure_from_blocks a b ≡ some c → validate_closure c ≡ true
closure_from_blocks-validate_closure a b h =
    let (ta, tb, ne, e) = from_blocks_cases a b h in
    subst (λ k. validate_closure k ≡ true) e
      (IsClosed-validate_closure _ (closure_of-IsClosed _ _ _ _ ne))

-- Between blocks with the standard timing there is no closure exactly when all four coordinates
-- agree.
pub closure_from_blocks-none_iff :
    (a b : Block)
    → validate_timing a.clock ≡ true
    → validate_timing b.clock ≡ true
    → (closure_from_blocks a b ≡ none) ↔ SamePlace a b
closure_from_blocks-none_iff a b ta tb = (only, none_of_same)
  where
    only : closure_from_blocks a b ≡ none → SamePlace a b
    only h = elim (ℕ_discrete (class_between a b) 0) [
      | yes e ↦ (class_between-zero_iff a b).0 e
      | no ne ↦ cc (from_blocks_some a b ta tb ne)
    ]

    none_of_same : SamePlace a b → closure_from_blocks a b ≡ none
    none_of_same s = from_blocks_none a b ((class_between-zero_iff a b).1 s)

closure_of-neg :
    (x y z w : ℤ)
    → closure_distance_class x y z w ≢ 0
    → reverse_closure (closure_of x y z w) ≡ some (closure_of (neg x) (neg y) (neg z) (neg w))
unfolding reverse_closure seal
closure_of-neg x y z w ne = rw (IsClosed-validate_closure _ (closure_of-IsClosed x y z w ne)) (
    ap some (λ i.
      seal (neg x) (neg y) (neg z) (neg w) (class i) (class i) (class i * 10 % 60) (turned i)))
  where
    class : closure_distance_class x y z w ≡ closure_distance_class (neg x) (neg y) (neg z) (neg w)
    class = sym (closure_distance_class-neg x y z w)

    turned :
        (closure_orientation x y z w + 2) % 4 ≡ closure_orientation (neg x) (neg y) (neg z) (neg w)
    turned = sym (
        closure_orientation-neg x y z w
          λ e. ne (rw (e.0, e.1, e.2, e.3) closure_distance_class-origin))

-- Reversing a closure of two blocks gives the closure of the blocks exchanged.
pub reverse_closure-closure_from_blocks :
    (a b : Block) {c : Closure}
    → closure_from_blocks a b ≡ some c
    → reverse_closure c ≡ closure_from_blocks b a
reverse_closure-closure_from_blocks a b {c} h =
    let (ta, tb, ne, e) = from_blocks_cases a b h in
    subst (λ k. reverse_closure k ≡ closure_from_blocks b a) e
      (closure_of-neg _ _ _ _ ne ∙ sym (exchanged ta tb ne))
  where
    swapped : SamePlace b a → SamePlace a b
    swapped (x, y, z, w) = (sym x, sym y, sym z, sym w)

    exchanged :
        validate_timing a.clock ≡ true
        → validate_timing b.clock ≡ true
        → class_between a b ≢ 0
        → closure_from_blocks b a
          ≡ some (
              closure_of
                (neg (reduced_signed_delta a.x b.x))
                (neg (reduced_signed_delta a.y b.y))
                (neg (reduced_signed_delta a.z b.z))
                (neg (reduced_signed_delta a.w b.w)))
    exchanged ta tb ne =
        rw
          (
            ← reduced_signed_delta-neg a.x b.x,
            ← reduced_signed_delta-neg a.y b.y,
            ← reduced_signed_delta-neg a.z b.z,
            ← reduced_signed_delta-neg a.w b.w,
          )
          (from_blocks_some b a tb ta
            (λ e. ne ((class_between-zero_iff a b).1 (swapped ((class_between-zero_iff b a).0 e)))))

IsClosed-seal :
    {c : Closure}
    → IsClosed c
    → c
      ≡ seal c.delta_x c.delta_y c.delta_z c.delta_w c.distance_squared c.distance_class
          c.sexagesimal_slot c.orientation4
unfolding seal closure_receipt_hash
IsClosed-seal {c} v = λ i. record c {
  public_frame240 = v.frame_eq i;
  sexagesimal_readout = v.readout_eq i;
  receipt_hash = (v.receipt_eq ∙ same_receipt) i;
}
  where
    same_receipt :
        closure_receipt_hash c
        ≡ closure_receipt_hash (record c {
          public_frame240 = c.orientation4 * 60 + c.sexagesimal_slot;
          sexagesimal_readout = readout c.orientation4 c.sexagesimal_slot;
        })
    same_receipt = λ i.
        closure_receipt_hash
          (record c { public_frame240 = v.frame_eq i; sexagesimal_readout = v.readout_eq i })

orientation_back : (n : ℕ) → n ≤ 3 → ((n + 2) % 4 + 2) % 4 ≡ n
orientation_back n h = omega arith

abbrev turned : Closure → Closure
turned c =
    seal (neg c.delta_x) (neg c.delta_y) (neg c.delta_z) (neg c.delta_w) c.distance_squared
      c.distance_class c.sexagesimal_slot ((c.orientation4 + 2) % 4)

turned-IsClosed : {c : Closure} → IsClosed c → IsClosed (turned c)
unfolding seal closure_receipt_hash
turned-IsClosed v = record {
  class_low = v.class_low;
  class_high = v.class_high;
  class_eq = v.class_eq;
  slot_eq = v.slot_eq;
  orientation_le = omega arith;
  frame_eq = refl;
  moved = ground (arith, v.moved);
  readout_eq = refl;
  receipt_eq = refl;
}

turned-turned : {c : Closure} → IsClosed c → turned (turned c) ≡ c
unfolding seal
turned-turned {c} v =
    rw (neg-neg c.delta_x, neg-neg c.delta_y, neg-neg c.delta_z, neg-neg c.delta_w)
      (ap
          (seal c.delta_x c.delta_y c.delta_z c.delta_w c.distance_squared c.distance_class
            c.sexagesimal_slot)
          (orientation_back c.orientation4 v.orientation_le)
        ∙ sym (IsClosed-seal v))

-- A valid closure has a reverse, which is valid and has the closure itself for its reverse.
pub reverse_closure-reverse_closure :
    (c : Closure)
    → validate_closure c ≡ true
    → (r : Closure) × (reverse_closure c ≡ some r)
      × (validate_closure r ≡ true)
      × (reverse_closure r ≡ some c)
unfolding reverse_closure
reverse_closure-reverse_closure c h =
    let v = validate_closure-IsClosed c h in
    let valid = IsClosed-validate_closure _ (turned-IsClosed v) in
    (turned c, rw h, valid, rw valid (ap some (turned-turned v)))
