-- ===== src/Identity/Examples.antt =====
-- The theorems about receipts at concrete texts and values.
use mathlib.Core.List.{Perm, Nodup, Nodup-cons, Nodup-nil, mem-cons, not-mem-nil}
use mathlib.Core.List.Perm
use mathlib.Core.Logic.Or
use mathlib.Core.HLevel.{⊥_prop}
use omi_imo.Prelude.{◌≡◌, ◌≢◌, ◌++◌, ◌∷◌, arith, codes}
use omi_imo.Identity.Json.{Fields, end, obj, nat_field, keys, stable_string, stable_fields}
use omi_imo.Identity.Fnv.{fnv1a}
use omi_imo.Identity.Collision.{fnv1a-single_change}
use omi_imo.Identity.Stable.{stable_string-perm}

fnv1a-single_change_example :
    fnv1a (codes "do" ++ b'o' ∷ codes "r") ≢ fnv1a (codes "do" ++ b'e' ∷ codes "r")
fnv1a-single_change_example =
    fnv1a-single_change (codes "do") (codes "r") b'o' b'e' (omega arith) (omega arith) (omega arith)
      (omega arith)

abbrev ab : Fields
ab = nat_field "a" 1 (nat_field "b" 2 end)

abbrev ba : Fields
ba = nat_field "b" 2 (nat_field "a" 1 end)

ab-Nodup : Nodup (keys (stable_fields ab))
unfolding stable_fields
ab-Nodup = Nodup-cons.1 (
  λ m. Or.elim ⊥_prop (mem-cons.0 m) (λ e. ground arith) not-mem-nil,
  Nodup-cons.1 (not-mem-nil, Nodup-nil),
)

ab-perm : Perm (stable_fields ab) (stable_fields ba)
unfolding stable_fields
ab-perm = Perm.swap _ _ _

stable_string-perm_example : stable_string (obj ab) ≡ stable_string (obj ba)
stable_string-perm_example = stable_string-perm ab ba ab-Nodup ab-perm
