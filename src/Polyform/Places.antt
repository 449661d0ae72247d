-- ===== src/Polyform/Places.antt =====
-- Blocks from lookup entries, and the closures between them (workbench/src/polyform_coordinate.js).
use omi_imo.Prelude.{
  ℕ, ◌^◌, ◌<◌, ◌≡◌, ◌≢◌, ◌↔◌, refl, sym, ap, ◌∙◌, true, none, some, [], ◌∷◌, ◌++◌, arith, Text, ◌⊎◌,
  inl, inr, subst, Option-cases,
}
use omi_imo.Identity.Fnv.{fnv1a}
use omi_imo.Identity.Collision.{IsUnits, fnv1a-single_change}
use omi_imo.Polyform.Block.{
  Entry, Options, Block, is_empty, hash_or_zero, validate_timing, timing, block_of,
  from_lookup_entry,
}
use omi_imo.Polyform.Closure.{Closure, closure_from_blocks}
use omi_imo.Polyform.Reversal.{SamePlace, closure_from_blocks-none_iff}

-- Two texts of 16-bit code units that differ in exactly one place.
pub record OneChange (s t : Text) : Type 0 where
  pub before : Text
  pub after : Text
  pub old : ℕ
  pub new : ℕ
  pub is_old : s ≡ before ++ old ∷ after
  pub is_new : t ≡ before ++ new ∷ after
  pub old_lt : old < 2 ^ 16
  pub new_lt : new < 2 ^ 16
  pub units_after : IsUnits after
  pub apart : old ≢ new

-- Two entries with the same document, group, record and unit.
pub SameNames : Entry → Entry → Type 0
SameNames d e = (d.fs ≡ e.fs) × (d.gs ≡ e.gs) × (d.rs ≡ e.rs) × (d.us ≡ e.us)

-- Two entries of which the document, the group, the record or the unit differ in one place.
pub OneNameChange : Entry → Entry → Type 0
OneNameChange d e =
    OneChange d.fs e.fs ⊎ (OneChange d.gs e.gs ⊎ (OneChange d.rs e.rs ⊎ OneChange d.us e.us))

timing-valid : validate_timing timing ≡ true
unfolding validate_timing
timing-valid = refl

is_empty_iff : (t : Text) → (is_empty t ≡ true) ↔ (t ≡ [])
unfolding is_empty
is_empty_iff [] = (λ _. refl, λ _. refl)
is_empty_iff (c ∷ t) = (λ h. cc, λ h. cc)

OneChange-fnv1a : {s t : Text} → OneChange s t → fnv1a s ≢ fnv1a t
OneChange-fnv1a c e =
    fnv1a-single_change c.before c.after c.old c.new c.old_lt c.new_lt c.units_after c.apart
      (ap fnv1a (sym c.is_old) ∙ (e ∙ ap fnv1a c.is_new))

hash_or_zero-full : (s t : Text) (x : ℕ) → hash_or_zero (s ++ x ∷ t) ≡ fnv1a (s ++ x ∷ t)
unfolding hash_or_zero
hash_or_zero-full [] t x = refl
hash_or_zero-full (c ∷ s) t x = refl

OneChange-hash_or_zero : {s t : Text} → OneChange s t → hash_or_zero s ≢ hash_or_zero t
OneChange-hash_or_zero c e =
    fnv1a-single_change c.before c.after c.old c.new c.old_lt c.new_lt c.units_after c.apart (
      sym (hash_or_zero-full c.before c.after c.old)
      ∙ (ap hash_or_zero (sym c.is_old)
          ∙ (e ∙ (ap hash_or_zero c.is_new ∙ hash_or_zero-full c.before c.after c.new))))

SameNames-SamePlace :
    (d e : Entry) (o p : Options) → SameNames d e → SamePlace (block_of d o) (block_of e p)
unfolding block_of SameNames
SameNames-SamePlace d e o p (f, g, r, u) = (ap fnv1a f, ap fnv1a g, ap fnv1a r, ap hash_or_zero u)

OneNameChange-SamePlace :
    (d e : Entry) (o p : Options) → OneNameChange d e → SamePlace (block_of d o) (block_of e p) → ⊥
unfolding block_of OneNameChange
OneNameChange-SamePlace d e o p (inl f) (x, y, z, w) = OneChange-fnv1a f x
OneNameChange-SamePlace d e o p (inr (inl g)) (x, y, z, w) = OneChange-fnv1a g y
OneNameChange-SamePlace d e o p (inr (inr (inl r))) (x, y, z, w) = OneChange-fnv1a r z
OneNameChange-SamePlace d e o p (inr (inr (inr u))) (x, y, z, w) = OneChange-hash_or_zero u w

block_of-closure_iff :
    (d e : Entry) (o p : Options)
    → (closure_from_blocks (block_of d o) (block_of e p) ≡ none)
      ↔ SamePlace (block_of d o) (block_of e p)
unfolding block_of
block_of-closure_iff d e o p =
    closure_from_blocks-none_iff (block_of d o) (block_of e p) timing-valid timing-valid

-- No closure joins two entries of the same names, and one joins two entries of which a name differs
-- in one place.
pub IsJoined : Entry → Entry → Block → Block → Type 0
IsJoined d e a b =
    (SameNames d e → closure_from_blocks a b ≡ none)
    × (OneNameChange d e → (k : Closure) × (closure_from_blocks a b ≡ some k))

block_of-IsJoined : (d e : Entry) (o p : Options) → IsJoined d e (block_of d o) (block_of e p)
unfolding IsJoined
block_of-IsJoined d e o p = (
  λ same. (block_of-closure_iff d e o p).1 (SameNames-SamePlace d e o p same),
  λ change. elim (Option-cases (closure_from_blocks (block_of d o) (block_of e p))) [
    | inl missing ↦
        absurd (OneNameChange-SamePlace d e o p change ((block_of-closure_iff d e o p).0 missing))
    | inr found ↦ found
  ],
)

-- A block is made exactly from the entries that have a path and a document. Whatever the options,
-- there is no closure between the blocks of two entries with the same document, group, record and
-- unit, and there is one if one of these four differs in exactly one 16-bit code unit.
pub from_lookup_entry-IsJoined :
    (d e : Entry) (o p : Options)
    → ((from_lookup_entry d o ≡ none) ↔ ((d.path ≡ []) ⊎ (d.fs ≡ [])))
      × ((a b : Block)
          → from_lookup_entry d o ≡ some a
          → from_lookup_entry e p ≡ some b
          → IsJoined d e a b)
unfolding from_lookup_entry
from_lookup_entry-IsJoined d e o p = (
  (
    λ h. ground (arith, (is_empty_iff d.path).0, (is_empty_iff d.fs).0),
    λ h. ground (arith, (is_empty_iff d.path).1, (is_empty_iff d.fs).1),
  ),
  λ a b h k.
      let first : block_of d o ≡ a = ground (arith, h) in
      let second : block_of e p ≡ b = ground (arith, k) in
      subst (λ x. IsJoined d e x b) first
        (subst (λ y. IsJoined d e (block_of d o) y) second (block_of-IsJoined d e o p)),
)
