-- ===== src/Identity/Json.antt =====
-- JSON values and `stableString`, the canonical text of a value.
-- Numbers are integers, which is all that receipts hold; `undefined` does not occur.
use omi_imo.Prelude.{
  ℕ, zero, suc, ◌+◌, ◌-◌, ◌/◌, ◌%◌, ◌≡◌, refl, Bool, true, false, not, ◌&&◌, ◌||◌, Option, none,
  some, String, List, [], ◌∷◌, ◌++◌, map, Text, codes, text_eq, text_le, join, ltb, leb, ◌==◌,
  if◌then◌else◌, ℤ, pos, negsuc,
}
use omi_imo.Prelude.Sorting.{sort}

mutual
  pub data Value : Type 0 where
    obj : Fields → Value
    arr : Items → Value
    str : Text → Value
    num : ℤ → Value
    bool : Bool → Value
    null : Value

  pub data Fields : Type 0 where
    end : Fields
    field : Text → Value → Fields → Fields

  pub data Items : Type 0 where
    nil : Items
    cons : Value → Items → Items

-- The properties of the records that receipts are taken of.
abbrev pub nat_field : String → ℕ → Fields → Fields
nat_field key n = field (codes key) (num (pos n))

abbrev pub int_field : String → ℤ → Fields → Fields
int_field key n = field (codes key) (num n)

abbrev pub text_field : String → Text → Fields → Fields
text_field key t = field (codes key) (str t)

abbrev pub bool_field : String → Bool → Fields → Fields
bool_field key b = field (codes key) (bool b)

-- A number or null.
abbrev pub opt_value : Option ℕ → Value
opt_value none = null
opt_value (some n) = num (pos n)

abbrev pub opt_field : String → Option ℕ → Fields → Fields
opt_field key o = field (codes key) (opt_value o)

-- An array of numbers, and one of texts.
unfoldable pub opt_items : List (Option ℕ) → Items
opt_items [] = nil
opt_items (o ∷ rest) = cons (opt_value o) (opt_items rest)

unfoldable pub text_items : List Text → Items
text_items [] = nil
text_items (t ∷ rest) = cons (str t) (text_items rest)

-- `String(n)`: a number has at most as many digits as `n + 1`.
unfoldable pub digits_of : ℕ → ℕ → Text → Text
digits_of zero n acc = acc
digits_of (suc fuel) n acc =
    let rest = digits_of fuel (n / 10) ((b'0' + n % 10) ∷ acc) in
    if ltb n 10 then (b'0' + n) ∷ acc else rest

unfoldable pub decimal : ℕ → Text
unfolding digits_of
decimal n = digits_of (n + 1) n []

unfoldable pub int_text : ℤ → Text
unfolding decimal
int_text (pos n) = decimal n
int_text (negsuc n) = b'-' ∷ decimal (suc n)

hex_digit : ℕ → ℕ
hex_digit d = if ltb d 10 then b'0' + d else b'a' + (d - 10)

-- `\uXXXX`
unicode_escape : ℕ → Text
unfolding hex_digit
unicode_escape c =
    b'\\'
    ∷ b'u'
    ∷ hex_digit (c / 4096 % 16)
    ∷ hex_digit (c / 256 % 16)
    ∷ hex_digit (c / 16 % 16)
    ∷ hex_digit (c % 16)
    ∷ []

is_high : ℕ → Bool
is_high c = leb 0xd800 c && leb c 0xdbff

is_low : ℕ → Bool
is_low c = leb 0xdc00 c && leb c 0xdfff

-- One code unit that is no half of a surrogate pair, as `JSON.stringify` writes it.
escape : ℕ → Text
unfolding unicode_escape is_high is_low
escape c =
    if c == 34
    then b'\\' ∷ 34 ∷ []
    else if c == 92
    then b'\\' ∷ 92 ∷ []
    else if c == 8
    then codes "\\b"
    else if c == 9
    then codes "\\t"
    else if c == 10
    then codes "\\n"
    else if c == 12
    then codes "\\f"
    else if c == 13
    then codes "\\r"
    else if ltb c 32 || is_high c || is_low c
    then unicode_escape c
    else c ∷ []

starts_low : Text → Bool
starts_low [] = false
starts_low (d ∷ _) = is_low d

-- `paired` says that the unit before was the high half of a pair with this one.
escape_from : Bool → Text → Text
unfolding escape starts_low
escape_from paired [] = []
escape_from paired (c ∷ rest) =
    let opens = not paired && is_high c && starts_low rest in
    (if paired || opens then c ∷ [] else escape c) ++ escape_from opens rest

-- `JSON.stringify` of a text.
unfoldable pub quote : Text → Text
unfolding escape_from
quote text = 34 ∷ escape_from false text ++ 34 ∷ []

bool_text : Bool → Text
bool_text true = codes "true"
bool_text false = codes "false"

-- `Object.keys`, and a property of an object whose properties have been written out.
abbrev pub keys : List (Text × Text) → List Text
keys = map (λ p. p.0)

unfoldable pub get_or_empty : Text → List (Text × Text) → Text
get_or_empty k [] = []
get_or_empty k ((j, v) ∷ rest) = if text_eq k j then v else get_or_empty k rest

-- One `key:value` of the result.
unfoldable pub member : List (Text × Text) → Text → Text
unfolding quote get_or_empty
member props key = quote key ++ b':' ∷ get_or_empty key props

unfoldable pub object_text : List (Text × Text) → Text
unfolding member sort text_le join
object_text props =
    b'{' ∷ join (codes ",") (map (member props) (sort text_le (keys props))) ++ codes "}"

unfoldable mutual
  unfolding bool_text int_text quote object_text join

  pub stable_string : Value → Text
  stable_string null = codes "null"
  stable_string (bool b) = bool_text b
  stable_string (num n) = int_text n
  stable_string (str s) = quote s
  stable_string (arr xs) = b'[' ∷ join (codes ",") (stable_items xs) ++ codes "]"
  stable_string (obj fs) = object_text (stable_fields fs)

  pub stable_items : Items → List Text
  stable_items nil = []
  stable_items (cons x xs) = stable_string x ∷ stable_items xs

  pub stable_fields : Fields → List (Text × Text)
  stable_fields end = []
  stable_fields (field k v fs) = (k, stable_string v) ∷ stable_fields fs

-- Keys come out sorted, at every depth, and texts are quoted.
sample_text :
    stable_string (
      obj (
        field
          (codes "b")
          (num (negsuc 11))
          (field (codes "a") (arr (cons null (cons (str (codes "x\"y")) nil))) end)))
    ≡ codes "{\"a\":[null,\"x\\\"y\"],\"b\":-12}"
unfolding stable_string text_eq
sample_text = refl
