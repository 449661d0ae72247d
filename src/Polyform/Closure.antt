-- ===== src/Polyform/Closure.antt =====
-- Closures: the reduced differences of two blocks, with the frame that they fall into.
use omi_imo.Prelude.{
  ℕ, ◌+◌, ◌-◌, ◌*◌, ◌%◌, Bool, not, ◌&&◌, Option, none, some, List, [], ◌∷◌, ◌++◌, Text, text_eq,
  ltb, leb, ◌==◌, if◌then◌else◌, ℤ, pos, neg, neg_of, abs, is_neg, int_eq,
}
use omi_imo.Identity.Json.{end, obj, nat_field, int_field, text_field, decimal}
use omi_imo.Identity.Fnv.{receipt_of}
use omi_imo.Polyform.Block.{Block, timing, validate_timing}

-- The coordinates are unsigned hashes, so the distance is the larger less the smaller.
unfoldable pub reduced_signed_delta : ℕ → ℕ → ℤ
reduced_signed_delta left right =
    let distance = if ltb left right then right - left else left - right in
    let reduced = 1 + (distance - 1) % 2 in
    if distance == 0 then pos 0 else if ltb left right then pos reduced else neg_of reduced

unfoldable pub closure_distance_class : ℤ → ℤ → ℤ → ℤ → ℕ
closure_distance_class dx dy dz dw =
    let magnitude = abs dx + abs dy + abs dz + abs dw in
    if magnitude == 0 then 0 else 1 + (magnitude - 1) % 6

-- The loop of `closureOrientation` from index `i` on; `primary` is the index of `best`.
unfoldable pub primary_from : ℕ → ℕ → ℤ → List ℤ → ℕ × ℤ
primary_from i primary best [] = (primary, best)
primary_from i primary best (d ∷ rest) =
    let next = if ltb (abs best) (abs d) then i else primary in
    let larger = if ltb (abs best) (abs d) then d else best in primary_from (i + 1) next larger rest

abbrev pub orient : ℕ × ℤ → ℕ
orient (primary, best) = (primary + (if is_neg best then 2 else 0)) % 4

unfoldable pub closure_orientation : ℤ → ℤ → ℤ → ℤ → ℕ
closure_orientation dx dy dz dw = orient (primary_from 1 0 dx (dy ∷ dz ∷ dw ∷ []))

pub record Closure : Type 0 where
  pub delta_x : ℤ
  pub delta_y : ℤ
  pub delta_z : ℤ
  pub delta_w : ℤ
  pub distance_squared : ℕ
  pub distance_class : ℕ
  pub sexagesimal_slot : ℕ
  pub orientation4 : ℕ
  pub public_frame240 : ℕ
  pub sexagesimal_readout : Text
  pub receipt_hash : ℕ

unfoldable pub closure_receipt_hash : Closure → ℕ
closure_receipt_hash c = receipt_of (
    obj (
      int_field "delta_x" c.delta_x (
        int_field "delta_y" c.delta_y (
          int_field "delta_z" c.delta_z (
            int_field "delta_w" c.delta_w (
              nat_field "distance_squared" c.distance_squared (
                nat_field "distance_class" c.distance_class (
                  nat_field "sexagesimal_slot" c.sexagesimal_slot (
                    nat_field "orientation4" c.orientation4 (
                      nat_field "public_frame240" c.public_frame240
                        (text_field "sexagesimal_readout" c.sexagesimal_readout end)))))))))))

-- `String(orientation4) + ":" + String(slot)`
unfoldable pub readout : ℕ → ℕ → Text
unfolding decimal
readout orientation slot = decimal orientation ++ b':' ∷ decimal slot

-- The fields that follow from the differences, the class and the orientation, and the receipt.
unfoldable pub seal : ℤ → ℤ → ℤ → ℤ → ℕ → ℕ → ℕ → ℕ → Closure
seal dx dy dz dw squared class slot orientation =
    let open_closure : Closure = record {
      delta_x = dx;
      delta_y = dy;
      delta_z = dz;
      delta_w = dw;
      distance_squared = squared;
      distance_class = class;
      sexagesimal_slot = slot;
      orientation4 = orientation;
      public_frame240 = orientation * timing.local_60 + slot;
      sexagesimal_readout = readout orientation slot;
      receipt_hash = 0;
    } in
    record open_closure { receipt_hash = closure_receipt_hash open_closure }

unfoldable pub closure_from_blocks : Block → Block → Option Closure
closure_from_blocks car cdr =
    let dx = reduced_signed_delta car.x cdr.x in
    let dy = reduced_signed_delta car.y cdr.y in
    let dz = reduced_signed_delta car.z cdr.z in
    let dw = reduced_signed_delta car.w cdr.w in
    let class = closure_distance_class dx dy dz dw in
    if not (validate_timing car.clock && validate_timing cdr.clock)
    then none
    else if class == 0
    then none
    else some (
        seal dx dy dz dw class class (class * 10 % timing.local_60)
          (closure_orientation dx dy dz dw))

is_zero : ℤ → Bool
is_zero d = int_eq d (pos 0)

unfoldable pub validate_closure : Closure → Bool
unfolding is_zero
validate_closure c =
    (leb 1 c.distance_squared && leb c.distance_squared 6)
    && (c.distance_class == c.distance_squared
        && (c.sexagesimal_slot == c.distance_class * 10 % timing.local_60
            && (leb c.orientation4 3
                && (c.public_frame240 == c.orientation4 * timing.local_60 + c.sexagesimal_slot
                    && (ltb c.public_frame240 timing.public_240
                        && (not (
                              is_zero c.delta_x
                              && (is_zero c.delta_y && (is_zero c.delta_z && is_zero c.delta_w)))
                            && (text_eq c.sexagesimal_readout
                                  (readout c.orientation4 c.sexagesimal_slot)
                                && c.receipt_hash == closure_receipt_hash c)))))))

unfoldable pub reverse_closure : Closure → Option Closure
reverse_closure c =
    if validate_closure c
    then some (
        seal (neg c.delta_x) (neg c.delta_y) (neg c.delta_z) (neg c.delta_w) c.distance_squared
          c.distance_class c.sexagesimal_slot ((c.orientation4 + 2) % 4))
    else none
