-- ===== src/Identity/Values.antt =====
-- JSON values as the code reads them without a schema: properties that may be absent, `===`,
-- truthiness and `String(value)`. An absent property, `undefined`, is `none`.
use omi_imo.Prelude.{
  ℕ, Bool, true, false, not, Option, none, some, List, [], ◌∷◌, ◌++◌, map, Text, codes, text_eq,
  join, if◌then◌else◌, String, Result, ok, throw, any, pos, int_eq,
}
use omi_imo.Identity.Json.{
  Value, null, bool, num, str, arr, obj, Items, nil, cons, Fields, end, field, stable_string,
  object_text, int_text,
}
use omi_imo.Identity.Fnv.{fnv1a}

unfoldable pub get_field : Text → Fields → Option Value
get_field k end = none
get_field k (field j v rest) = if text_eq j k then some v else get_field k rest

unfoldable pub set_field : Text → Value → Fields → Fields
set_field k v end = field k v end
set_field k v (field j w rest) =
    if text_eq j k then field j v rest else field j w (set_field k v rest)

-- `value.key` where the value is no object without properties, such as after a test that it is
-- truthy.
unfoldable pub prop : String → Option Value → Option Value
prop key (some (obj fields)) = get_field (codes key) fields
prop key _ = none

-- The host's message when a property of `undefined` or `null` is read.
unfoldable pub no_properties : String → String → Text
no_properties kind key =
    codes "Cannot read properties of "
    ++ (codes kind ++ (codes " (reading '" ++ (codes key ++ codes "')")))

-- `value.key` where the value may be anything.
unfoldable pub read : String → Option Value → Result Text (Option Value)
read key none = throw (no_properties "undefined" key)
read key (some null) = throw (no_properties "null" key)
read key (some (obj fields)) = ok (get_field (codes key) fields)
read key (some _) = ok none

unfoldable pub truthy_value : Option Value → Bool
truthy_value none = false
truthy_value (some null) = false
truthy_value (some (bool b)) = b
truthy_value (some (num n)) = not (int_eq n (pos 0))
truthy_value (some (str [])) = false
truthy_value (some _) = true

-- `a || b`
unfoldable pub or_value : Option Value → Option Value → Option Value
or_value a b = if truthy_value a then a else b

abbrev bool_eq : Bool → Bool → Bool
bool_eq true b = b
bool_eq false b = not b

-- `a === b`. Objects and arrays out of two documents are never the same object.
unfoldable pub same_value : Option Value → Option Value → Bool
same_value none none = true
same_value (some null) (some null) = true
same_value (some (bool a)) (some (bool b)) = bool_eq a b
same_value (some (num a)) (some (num b)) = int_eq a b
same_value (some (str a)) (some (str b)) = text_eq a b
same_value _ _ = false

bool_name : Bool → Text
bool_name true = codes "true"
bool_name false = codes "false"

unfoldable mutual
  unfolding bool_name int_text join

  -- `String(value)`
  pub to_text : Value → Text
  to_text null = codes "null"
  to_text (bool b) = bool_name b
  to_text (num n) = int_text n
  to_text (str s) = s
  to_text (arr items) = join (codes ",") (item_texts items)
  to_text (obj fields) = codes "[object Object]"

  pub item_texts : Items → List Text
  item_texts nil = []
  item_texts (cons v rest) = item_text v ∷ item_texts rest

  -- An item of a joined array: `null` is empty.
  pub item_text : Value → Text
  item_text null = []
  item_text (bool b) = bool_name b
  item_text (num n) = int_text n
  item_text (str s) = s
  item_text (arr items) = join (codes ",") (item_texts items)
  item_text (obj fields) = codes "[object Object]"

unfoldable pub opt_to_text : Option Value → Text
opt_to_text none = codes "undefined"
opt_to_text (some v) = to_text v

-- `stableString` of an object that was just written out, where a property may be `undefined`.
unfoldable pub stable_opt : Option Value → Text
stable_opt none = codes "undefined"
stable_opt (some v) = stable_string v

unfoldable pub open_receipt : List (Text × Option Value) → ℕ
open_receipt props = fnv1a (object_text (map (λ p. (p.0, stable_opt p.1)) props))

-- The items of an array, and none for any other value.
unfoldable pub items_of : Items → List Value
items_of nil = []
items_of (cons v rest) = v ∷ items_of rest

-- The names that every object inherits: a plain object used as a table has them all.
abbrev pub prototype_names : List Text
prototype_names =
    codes "constructor"
    ∷ codes "__defineGetter__"
    ∷ codes "__defineSetter__"
    ∷ codes "hasOwnProperty"
    ∷ codes "__lookupGetter__"
    ∷ codes "__lookupSetter__"
    ∷ codes "isPrototypeOf"
    ∷ codes "propertyIsEnumerable"
    ∷ codes "toString"
    ∷ codes "valueOf"
    ∷ codes "__proto__"
    ∷ codes "toLocaleString"
    ∷ []

unfoldable pub is_inherited : Text → Bool
is_inherited k = any (text_eq k) prototype_names

-- A text as a property, and a number.
abbrev pub text_value : Text → Option Value
text_value t = some (str t)

abbrev pub nat_value : ℕ → Option Value
nat_value n = some (num (pos n))

unfoldable pub value_items : List Value → Items
value_items [] = nil
value_items (v ∷ rest) = cons v (value_items rest)
