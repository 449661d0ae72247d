-- ===== src/Identity/Fnv.antt =====
-- `fnv1a`: the 32-bit FNV-1a hash over the code units of a text.
use omi_imo.Prelude.{ℕ, ◌*◌, ◌%◌, ◌^◌, ◌≡◌, [], ◌∷◌, Text, bit_xor, codes, refl}
use omi_imo.Identity.Json.{Value, stable_string}

-- `hash ^= c; hash = Math.imul(hash, 16777619) >>> 0`. The signs of the two 32-bit operations
-- drop out under `>>> 0`.
unfoldable pub fnv_step : ℕ → ℕ → ℕ
fnv_step hash c = bit_xor hash c * 16777619 % 2 ^ 32

-- The loop over the text, from any intermediate hash.
unfoldable pub fnv_from : ℕ → Text → ℕ
unfolding fnv_step
fnv_from hash [] = hash
fnv_from hash (c ∷ text) = fnv_from (fnv_step hash c) text

unfoldable pub fnv1a : Text → ℕ
unfolding fnv_from
fnv1a text = fnv_from 2166136261 text

-- `fnv1a(stableString(value))`, the receipt of a value.
unfoldable pub receipt_of : Value → ℕ
unfolding fnv1a stable_string
receipt_of value = fnv1a (stable_string value)

-- The published test vector of the algorithm for the text "a".
fnv1a_a : fnv1a (codes "a") ≡ 0xe40c292c
unfolding fnv1a
fnv1a_a = refl
