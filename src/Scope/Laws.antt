-- ===== src/Scope/Laws.antt =====
-- The scope codes: a round trip both ways, and the names that only look like scopes.
use omi_imo.Prelude.{
  ℕ, zero, suc, ◌<◌, ◌≡◌, ◌≢◌, ◌∙◌, refl, some, List, [], ◌∷◌, arith, Text, codes, text_eq,
  text_eq_sound, split, join, join-split, ap, subst,
}
use omi_imo.Identity.Values.{prototype_names}
use omi_imo.Scope.Codes.{
  visibility_names, location_names, name_of, code, slot_of, inherited_slot, encode_scope,
  decode_parts, decode_scope,
}

encode_table :
    (v l : ℕ)
    → v < 3
    → l < 3
    → (s : Text) × (encode_scope v l ≡ some s) × (decode_scope s ≡ some (code v, code l))
unfolding encode_scope name_of decode_scope slot_of text_eq split
encode_table zero zero h k = (codes "public.global", refl, refl)
encode_table zero (suc zero) h k = (codes "public.local", refl, refl)
encode_table zero (suc (suc zero)) h k = (codes "public.remote", refl, refl)
encode_table zero (suc (suc (suc l))) h k = absurd (omega arith)
encode_table (suc zero) zero h k = (codes "private.global", refl, refl)
encode_table (suc zero) (suc zero) h k = (codes "private.local", refl, refl)
encode_table (suc zero) (suc (suc zero)) h k = (codes "private.remote", refl, refl)
encode_table (suc zero) (suc (suc (suc l))) h k = absurd (omega arith)
encode_table (suc (suc zero)) zero h k = (codes "protected.global", refl, refl)
encode_table (suc (suc zero)) (suc zero) h k = (codes "protected.local", refl, refl)
encode_table (suc (suc zero)) (suc (suc zero)) h k = (codes "protected.remote", refl, refl)
encode_table (suc (suc zero)) (suc (suc (suc l))) h k = absurd (omega arith)
encode_table (suc (suc (suc v))) l h k = absurd (omega arith)

encode_range : (v l : ℕ) {s : Text} → encode_scope v l ≡ some s → (v < 3) × (l < 3)
unfolding encode_scope name_of
encode_range v l h = ground arith

-- Every scope that `encodeScope` writes is read back by `decodeScope` as the two codes.
pub decode_scope-encode_scope :
    (v l : ℕ) {s : Text} → encode_scope v l ≡ some s → decode_scope s ≡ some (code v, code l)
decode_scope-encode_scope v l {s} h =
    let (small_v, small_l) = encode_range v l h in
    let (t, written, read) = encode_table v l small_v small_l in
    subst (λ k. decode_scope k ≡ some (code v, code l)) (same t written) read
  where
    same : (t : Text) → encode_scope v l ≡ some t → t ≡ s
    same t w = cc

inherited_slot-ne-code :
    (names : List Text) (t : Text) (n : ℕ) → inherited_slot names t ≢ some (code n)
unfolding inherited_slot
inherited_slot-ne-code [] t n h = cc
inherited_slot-ne-code (p ∷ names) t n h = ground (arith, inherited_slot-ne-code names t n)

slot_of-name_of :
    (t : Text) (n : ℕ)
    → ((slot_of visibility_names t ≡ some (code n)) → (name_of visibility_names n ≡ some t))
      × ((slot_of location_names t ≡ some (code n)) → (name_of location_names n ≡ some t))
unfolding slot_of name_of
slot_of-name_of t n = (
  λ h. ground (
    arith,
    text_eq_sound t (codes "public"),
    text_eq_sound t (codes "private"),
    text_eq_sound t (codes "protected"),
    inherited_slot-ne-code prototype_names t n,
  ),
  λ h. ground (
    arith,
    text_eq_sound t (codes "global"),
    text_eq_sound t (codes "local"),
    text_eq_sound t (codes "remote"),
    inherited_slot-ne-code prototype_names t n,
  ),
)

decode_parts-encode_scope :
    (parts : List Text) (v l : ℕ)
    → decode_parts parts ≡ some (code v, code l)
    → encode_scope v l ≡ some (join (codes ".") parts)
unfolding decode_parts encode_scope join
decode_parts-encode_scope [] v l h = cc
decode_parts-encode_scope (a ∷ []) v l h = cc
decode_parts-encode_scope (a ∷ b ∷ []) v l h =
    ground (arith, (slot_of-name_of a v).0, (slot_of-name_of b l).1)
decode_parts-encode_scope (a ∷ b ∷ c ∷ rest) v l h = cc

-- A text that `decodeScope` reads as two codes is the one that `encodeScope` writes for them.
pub encode_scope-decode_scope :
    (s : Text) (v l : ℕ) → decode_scope s ≡ some (code v, code l) → encode_scope v l ≡ some s
unfolding decode_scope
encode_scope-decode_scope s v l h =
    decode_parts-encode_scope (split b'.' s) v l h ∙ ap some (join-split b'.' s)
