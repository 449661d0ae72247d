-- ===== src/Identity/Stable.antt =====
-- The canonical text of an object does not depend on the order in which its properties were set.
use mathlib.Core.List.{Perm, Permᴰ, Nodup, Nodup-cons, mem-cons}
use mathlib.Core.List.Perm
use mathlib.Core.Logic.{∥∥₁_elim}
use mathlib.Core.Logic.Or
use native.Mathlib.Nat.{ℕ_set}
use mathlib.Core.Path.{fun_ext}
use omi_imo.Prelude.{
  ◌≡◌, ◌≢◌, refl, ap, ◌∙◌, List, ◌∷◌, ◌++◌, map, ap₂, arith, Text, codes, join, text_le,
  text_eq_sound, text_le_total, text_le_trans, text_le_antisym,
}
use omi_imo.Prelude.Sorting.{sort_congr}
use omi_imo.Identity.Json.{
  Fields, obj, keys, quote, get_or_empty, member, object_text, stable_string, stable_fields,
}

Text-set : IsSet Text
Text-set = hlevel ℕ_set

get_or_empty-swap :
    (k j i : Text) (v w : Text) (l : List (Text × Text))
    → j ≢ i
    → get_or_empty k ((j, v) ∷ (i, w) ∷ l) ≡ get_or_empty k ((i, w) ∷ (j, v) ∷ l)
unfolding get_or_empty
get_or_empty-swap k j i v w l ne =
    ground (arith, text_eq_sound k j, text_eq_sound k i, λ (e : j ≡ i). ne e)

get_or_empty-permᴰ :
    {xs ys : List (Text × Text)}
    → Permᴰ xs ys
    → Nodup (keys xs)
    → (k : Text) → get_or_empty k xs ≡ get_or_empty k ys
unfolding get_or_empty
get_or_empty-permᴰ Permᴰ.nil n k = refl
get_or_empty-permᴰ (Permᴰ.cons e p) n k =
    let ih = get_or_empty-permᴰ p (Nodup-cons.0 n).1 k in rw e (ground (arith, ih))
get_or_empty-permᴰ (Permᴰ.swap {a = a} {b = b} {l = l} e f) n k =
    rw (← e, ← f)
      (get_or_empty-swap k a.0 b.0 a.1 b.1 l
        (λ same. (Nodup-cons.0 n).0 (mem-cons.1 (Or.inl same))))
get_or_empty-permᴰ (Permᴰ.trans p q) n k =
    get_or_empty-permᴰ p n k ∙ get_or_empty-permᴰ q (Perm.nodup (Perm.map _ ∣ p ∣₁) n) k

-- Two lists of written properties that differ in order alone make the same text.
object_text-perm :
    (xs ys : List (Text × Text)) → Perm xs ys → Nodup (keys xs) → object_text xs ≡ object_text ys
unfolding object_text member
object_text-perm xs ys p n =
    ap (λ t. b'{' ∷ join (codes ",") t ++ codes "}")
      (ap₂ map (fun_ext same_member) (
        sort_congr text_le text_le_total text_le_trans text_le_antisym Text-set _ _ (Perm.map _ p)))
  where
    same_member : (k : Text) → member xs k ≡ member ys k
    same_member k =
        ap (λ v. quote k ++ b':' ∷ v) (∥∥₁_elim p (Text-set _ _) (λ d. get_or_empty-permᴰ d n k))

-- Two objects with no key twice, whose properties are the same in some order once their values
-- are written as texts, have the same canonical text.
pub stable_string-perm :
    (fs gs : Fields)
    → Nodup (keys (stable_fields fs))
    → Perm (stable_fields fs) (stable_fields gs)
    → stable_string (obj fs) ≡ stable_string (obj gs)
unfolding stable_string
stable_string-perm fs gs n p = object_text-perm _ _ p n
