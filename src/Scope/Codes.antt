-- ===== src/Scope/Codes.antt =====
-- `encodeScope` and `decodeScope`.
use omi_imo.Prelude.{
  ℕ, ◌≡◌, refl, Option, none, some, List, [], ◌∷◌, ◌++◌, Text, codes, text_eq, split, ◌==◌,
  if◌then◌else◌,
}
use omi_imo.Identity.Values.{prototype_names}

-- `VISIBILITY` and `LOCATION`.
abbrev pub visibility_names : List (Text × ℕ)
visibility_names = (codes "public", 0) ∷ (codes "private", 1) ∷ (codes "protected", 2) ∷ []

abbrev pub location_names : List (Text × ℕ)
location_names = (codes "global", 0) ∷ (codes "local", 1) ∷ (codes "remote", 2) ∷ []

-- `Object.keys(table).find(key => table[key] === code)`
unfoldable pub name_of : List (Text × ℕ) → ℕ → Option Text
name_of [] code = none
name_of ((name, n) ∷ rest) code = if n == code then some name else name_of rest code

-- What `table[name]` gives for a name that is `in` the table: its code, or what a plain object
-- inherits from `Object.prototype`, which `in` finds too.
pub data Slot : Type 0 where
  code : ℕ → Slot
  inherited : Text → Slot

unfoldable pub inherited_slot : List Text → Text → Option Slot
inherited_slot [] name = none
inherited_slot (p ∷ rest) name =
    if text_eq name p then some (inherited name) else inherited_slot rest name

unfoldable pub slot_of : List (Text × ℕ) → Text → Option Slot
slot_of [] name = inherited_slot prototype_names name
slot_of ((n, c) ∷ rest) name = if text_eq name n then some (code c) else slot_of rest name

unfoldable pub encode_scope : ℕ → ℕ → Option Text
encode_scope visibility location = elim (name_of visibility_names visibility) [
  | none ↦ none
  | some v ↦ elim (name_of location_names location) [ none ↦ none | some l ↦ some (v ++ b'.' ∷ l) ]
]

-- The two names are truthy, since no name is empty.
unfoldable pub decode_parts : List Text → Option (Slot × Slot)
decode_parts (v ∷ l ∷ []) = elim (slot_of visibility_names v) [
  | none ↦ none
  | some vis ↦ elim (slot_of location_names l) [ none ↦ none | some loc ↦ some (vis, loc) ]
]
decode_parts _ = none

unfoldable pub decode_scope : Text → Option (Slot × Slot)
unfolding decode_parts
decode_scope scope_class = decode_parts (split b'.' scope_class)

encode_run : encode_scope 1 2 ≡ some (codes "private.remote")
unfolding encode_scope name_of
encode_run = refl
