-- ===== src/Polyform/Examples.antt =====
-- The theorems about coordinates at concrete blocks, and runs of the code.
use omi_imo.Prelude.{ℕ, ◌≡◌, ◌↔◌, ◌⊎◌, refl, true, false, none, some, [], codes, pos, negsuc}
use omi_imo.Identity.Json.{end}
use omi_imo.Polyform.Block.{
  Entry, Options, Block, timing, validate_timing, content, from_lookup_entry, apply_overlay,
}
use omi_imo.Polyform.Closure.{
  Closure, seal, closure_from_blocks, validate_closure, reverse_closure, reduced_signed_delta,
  closure_distance_class, closure_orientation, primary_from,
}
use omi_imo.Polyform.Reversal.{
  SamePlace, closure_from_blocks-validate_closure, closure_from_blocks-none_iff,
  reverse_closure-closure_from_blocks, reverse_closure-reverse_closure,
}
use omi_imo.Polyform.Places.{IsJoined, from_lookup_entry-IsJoined}
use omi_imo.Polyform.Overlay.{SameIdentity, apply_overlay-identity}

abbrev door : Entry
door = record {
  plane = codes "US";
  path = codes "world.a/objects/door/primitive";
  fs = codes "world.a";
  gs = codes "objects";
  rs = codes "door";
  us = codes "primitive";
  value = content (codes "cube");
}

abbrev no_options : Options
no_options = record { basis = []; degree = []; sign = []; depth = [] }

abbrev pub at : ℕ → ℕ → ℕ → ℕ → Block
at a b c d = record {
  omi_path = codes "world.a/objects/door";
  fs = codes "world.a";
  gs = codes "objects";
  rs = codes "door";
  us = [];
  x = a;
  y = b;
  z = c;
  w = d;
  basis = codes "polyform";
  degree = codes "record";
  sign = codes "structural";
  depth = codes "inspect";
  clock = timing;
  overlay = none;
  receipt_hash = 0;
}

abbrev pub car : Block
car = at 10 20 30 40

abbrev pub cdr : Block
cdr = at 11 20 28 40

-- dx = 1 and dz = -2, so the class is 3 and the orientation that of -z.
abbrev pub car_cdr : Closure
car_cdr = seal (pos 1) (pos 0) (negsuc 1) (pos 0) 3 3 30 0

car_cdr_run : closure_from_blocks car cdr ≡ some car_cdr
unfolding closure_from_blocks validate_timing reduced_signed_delta closure_distance_class
    closure_orientation primary_from
car_cdr_run = refl

car-valid : validate_timing car.clock ≡ true
unfolding validate_timing
car-valid = refl

-- Passed on for the examples of the edges.
pub car_cdr-valid : validate_closure car_cdr ≡ true
car_cdr-valid = closure_from_blocks-validate_closure car cdr car_cdr_run

closure_from_blocks-validate_closure_example : validate_closure car_cdr ≡ true
closure_from_blocks-validate_closure_example =
    closure_from_blocks-validate_closure car cdr car_cdr_run

closure_from_blocks-none_iff_example : (closure_from_blocks car cdr ≡ none) ↔ SamePlace car cdr
closure_from_blocks-none_iff_example = closure_from_blocks-none_iff car cdr car-valid car-valid

reverse_closure-closure_from_blocks_example : reverse_closure car_cdr ≡ closure_from_blocks cdr car
reverse_closure-closure_from_blocks_example =
    reverse_closure-closure_from_blocks car cdr car_cdr_run

reverse_closure-reverse_closure_example :
    (r : Closure) × (reverse_closure car_cdr ≡ some r)
    × (validate_closure r ≡ true)
    × (reverse_closure r ≡ some car_cdr)
reverse_closure-reverse_closure_example =
    reverse_closure-reverse_closure car_cdr
      (closure_from_blocks-validate_closure car cdr car_cdr_run)

abbrev dock : Entry
dock = record door { rs = codes "dock" }

from_lookup_entry-IsJoined_example :
    ((from_lookup_entry door no_options ≡ none) ↔ ((door.path ≡ []) ⊎ (door.fs ≡ [])))
    × ((a b : Block)
        → from_lookup_entry door no_options ≡ some a
        → from_lookup_entry dock no_options ≡ some b
        → IsJoined door dock a b)
from_lookup_entry-IsJoined_example = from_lookup_entry-IsJoined door dock no_options no_options

apply_overlay-identity_example :
    ((apply_overlay car end ≡ none) ↔ (validate_timing car.clock ≡ false))
    × ((b' : Block) → apply_overlay car end ≡ some b' → SameIdentity car cdr end b')
apply_overlay-identity_example = apply_overlay-identity car cdr end
