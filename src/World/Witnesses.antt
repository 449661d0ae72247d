-- ===== src/World/Witnesses.antt =====
-- The values that a package must name (workbench/src/autonomous_world_package_sync.js: requireValue,
-- snapshotWitnesses).
use omi_imo.Prelude.{
  ◌≡◌, refl, sym, Option, none, some, [], ◌∷◌, ◌≢◌, Bool-cases, inl, inr, if◌then◌else◌, String,
  ok_inj, ok, >>=-eq-ok, subst,
}
use omi_imo.Identity.Json.{Value, end, null, bool, num, str, arr, obj}
use omi_imo.Identity.Values.{prop, read, get_field, truthy_value, or_value}
use omi_imo.World.Package.{require_value, require_part, witness_part, witness_of, or_object}

-- A value that `requireValue` takes: neither undefined nor null, nor the empty text.
pub IsThere : Option Value → Type 0
IsThere v = (w : Value) × (v ≡ some w) × (w ≢ null) × (w ≢ str [])

-- Where the witnesses of a snapshot stand: in itself, or else in its report.
witnesses_in : Value → Option Value
witnesses_in s =
    if truthy_value (prop "witnesses" (some s))
    then prop "witnesses" (some s)
    else prop "report" (some s)

-- The witnesses of a snapshot have a part with a value under the key.
pub HasWitness : Value → String → String → Type 0
HasWitness s part key = IsThere (prop key (prop part (witnesses_in s)))

pub read-ok :
    (key : String) (v : Option Value) {w : Option Value} → read key v ≡ ok w → prop key v ≡ w
unfolding read prop
read-ok key none h = cc
read-ok key (some null) h = cc
read-ok key (some (bool b)) h = ok_inj h
read-ok key (some (num z)) h = ok_inj h
read-ok key (some (str t)) h = ok_inj h
read-ok key (some (arr items)) h = ok_inj h
read-ok key (some (obj fields)) h = ok_inj h

pub require_value-IsThere :
    (v : Option Value) (name : String) {w : Option Value} → require_value v name ≡ ok w → IsThere v
unfolding require_value IsThere
require_value-IsThere none name h = cc
require_value-IsThere (some null) name h = cc
require_value-IsThere (some (bool b)) name h = (bool b, refl, λ e. cc, λ e. cc)
require_value-IsThere (some (num z)) name h = (num z, refl, λ e. cc, λ e. cc)
require_value-IsThere (some (str [])) name h = cc
require_value-IsThere (some (str (c ∷ t))) name h = (str (c ∷ t), refl, λ e. cc, λ e. cc)
require_value-IsThere (some (arr items)) name h = (arr items, refl, λ e. cc, λ e. cc)
require_value-IsThere (some (obj fields)) name h = (obj fields, refl, λ e. cc, λ e. cc)

nothing_there : (key : String) → IsThere (prop key (some (obj end))) → ⊥
unfolding prop get_field IsThere
nothing_there key (w, e, _, _) = cc

no_part : (key part : String) → IsThere (prop key (prop part (some (obj end)))) → ⊥
unfolding prop get_field IsThere
no_part key part (w, e, _, _) = cc

or_object-IsThere :
    (key : String) (v : Option Value) → IsThere (prop key (or_object v)) → IsThere (prop key v)
unfolding or_value
or_object-IsThere key v h = elim (Bool-cases (truthy_value v)) [
  | inl truthy ↦ rw truthy at h
  | inr falsy ↦ absurd (nothing_there key (rw falsy at h))
]

or_object-prop :
    (part : String) (v : Option Value) (key : String)
    → IsThere (prop key (prop part (or_object v)))
    → IsThere (prop key (prop part v))
unfolding or_value
or_object-prop part v key h = elim (Bool-cases (truthy_value v)) [
  | inl truthy ↦ rw truthy at h
  | inr falsy ↦ absurd (no_part key part (rw falsy at h))
]

witness_part-HasWitness :
    (part key : String) (s : Value)
    → IsThere (prop key (witness_part part (some s)))
    → HasWitness s part key
unfolding witness_part witness_of HasWitness witnesses_in
witness_part-HasWitness part key s h =
    elim (Bool-cases (truthy_value (prop "witnesses" (some s)))) [
      | inl own ↦ rw own (rw own at h)
      | inr other ↦ rw other (
          or_object-prop part (prop "report" (some s)) key (
            or_object-IsThere key (prop part (or_object (prop "report" (some s)))) (rw other at h)))
    ]

pub require_part-HasWitness :
    (part key name : String) (s : Value)
    → require_part part key name (some s) ≡ ok tt
    → HasWitness s part key
unfolding require_part
require_part-HasWitness part key name s h =
    let (found, got, h1) = >>=-eq-ok (read key (witness_part part (some s))) _ h in
    let (_, there, _) = >>=-eq-ok (require_value found name) _ h1 in
    witness_part-HasWitness part key s (
      subst IsThere (sym (read-ok key (witness_part part (some s)) got))
        (require_value-IsThere found name there))
