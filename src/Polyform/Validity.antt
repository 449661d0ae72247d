-- ===== src/Polyform/Validity.antt =====
-- What `validateClosure` accepts, as a predicate.
use omi_imo.Prelude.{
  ◌+◌, ◌*◌, ◌%◌, ◌≤◌, ◌≡◌, ◌≢◌, ◌⊎◌, true, arith, text_eq_sound, text_eq_refl, pos,
}
use omi_imo.Polyform.Closure.{Closure, readout, closure_receipt_hash, validate_closure}

pub record IsClosed (c : Closure) : Type 0 where
  pub class_low : 1 ≤ c.distance_squared
  pub class_high : c.distance_squared ≤ 6
  pub class_eq : c.distance_class ≡ c.distance_squared
  pub slot_eq : c.sexagesimal_slot ≡ c.distance_class * 10 % 60
  pub orientation_le : c.orientation4 ≤ 3
  pub frame_eq : c.public_frame240 ≡ c.orientation4 * 60 + c.sexagesimal_slot
  pub moved :
      (c.delta_x ≢ pos 0) ⊎ ((c.delta_y ≢ pos 0) ⊎ ((c.delta_z ≢ pos 0) ⊎ (c.delta_w ≢ pos 0)))
  pub readout_eq : c.sexagesimal_readout ≡ readout c.orientation4 c.sexagesimal_slot
  pub receipt_eq : c.receipt_hash ≡ closure_receipt_hash c

pub validate_closure-IsClosed : (c : Closure) → validate_closure c ≡ true → IsClosed c
unfolding validate_closure
validate_closure-IsClosed c h = record {
  class_low = ground arith;
  class_high = ground arith;
  class_eq = ground arith;
  slot_eq = ground arith;
  orientation_le = ground arith;
  frame_eq = ground arith;
  moved = ground arith;
  readout_eq =
      ground
        (arith, text_eq_sound c.sexagesimal_readout (readout c.orientation4 c.sexagesimal_slot));
  receipt_eq = ground arith;
}

pub IsClosed-validate_closure : (c : Closure) → IsClosed c → validate_closure c ≡ true
unfolding validate_closure
IsClosed-validate_closure c v =
    ground (arith, text_eq_refl (readout c.orientation4 c.sexagesimal_slot))
