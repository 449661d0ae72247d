-- ===== src/Identity/Collision.antt =====
-- What a changed text does to its hash.
use omi_imo.Prelude.{
  ℕ, ◌*◌, ◌%◌, ◌^◌, ◌<◌, ◌≡◌, ◌≢◌, sym, ap, ◌∙◌, refl, [], ◌∷◌, ◌++◌, arith, Text, bit_xor, All,
}
use omi_imo.Prelude.Xor.{bit_xor_cancel, bit_xor_comm, bit_xor-lt}
use omi_imo.Identity.Fnv.{fnv_step, fnv_from, fnv1a}

pub fnv_step-lt : (h c : ℕ) → fnv_step h c < 2 ^ 32
unfolding fnv_step
fnv_step-lt h c = omega arith

-- 899433627 is the inverse of the FNV prime modulo 2 ^ 32.
times_prime_inj :
    (x y : ℕ) → x < 2 ^ 32 → y < 2 ^ 32 → x * 16777619 % 2 ^ 32 ≡ y * 16777619 % 2 ^ 32 → x ≡ y
times_prime_inj x y hx hy e =
    omega (arith, back x, back y, ap (λ (t : ℕ). t * 899433627 % 2 ^ 32) e)
  where
    back : (z : ℕ) → z * 16777619 % 2 ^ 32 * 899433627 % 2 ^ 32 ≡ z % 2 ^ 32
    back z = omega arith

bit_xor_inj_right : (a b c : ℕ) → bit_xor a b ≡ bit_xor a c → b ≡ c
bit_xor_inj_right a b c e = sym (bit_xor_cancel a b) ∙ ap (bit_xor a) e ∙ bit_xor_cancel a c

bit_xor_inj_left : (a b c : ℕ) → bit_xor a c ≡ bit_xor b c → a ≡ b
bit_xor_inj_left a b c e = bit_xor_inj_right c a b (bit_xor_comm c a ∙ e ∙ bit_xor_comm b c)

-- A round is one to one in the hash, and in the code unit.
fnv_step_inj_left :
    (g h c : ℕ) → g < 2 ^ 32 → h < 2 ^ 32 → c < 2 ^ 16 → fnv_step g c ≡ fnv_step h c → g ≡ h
unfolding fnv_step
fnv_step_inj_left g h c hg hh hc e = bit_xor_inj_left g h c (
    times_prime_inj _ _ (bit_xor-lt 32 g c hg (omega arith)) (bit_xor-lt 32 h c hh (omega arith)) e)

fnv_step_inj_right :
    (h c d : ℕ) → h < 2 ^ 32 → c < 2 ^ 16 → d < 2 ^ 16 → fnv_step h c ≡ fnv_step h d → c ≡ d
unfolding fnv_step
fnv_step_inj_right h c d hh hc hd e = bit_xor_inj_right h c d (
    times_prime_inj _ _ (bit_xor-lt 32 h c hh (omega arith)) (bit_xor-lt 32 h d hh (omega arith)) e)

abbrev pub IsUnits : Text → Type 0
IsUnits t = All (λ c. c < 2 ^ 16) t

fnv_from-lt : (h : ℕ) (t : Text) → h < 2 ^ 32 → fnv_from h t < 2 ^ 32
unfolding fnv_from
fnv_from-lt h [] k = k
fnv_from-lt h (c ∷ t) k = fnv_from-lt (fnv_step h c) t (fnv_step-lt h c)

fnv_from_inj :
    (g h : ℕ) (t : Text) → g < 2 ^ 32 → h < 2 ^ 32 → IsUnits t → fnv_from g t ≡ fnv_from h t → g ≡ h
unfolding fnv_from
fnv_from_inj g h [] hg hh u e = e
fnv_from_inj g h (c ∷ t) hg hh u e =
    fnv_step_inj_left g h c hg hh u.0
      (fnv_from_inj (fnv_step g c) (fnv_step h c) t (fnv_step-lt g c) (fnv_step-lt h c) u.1 e)

fnv_from-append : (h : ℕ) (s t : Text) → fnv_from h (s ++ t) ≡ fnv_from (fnv_from h s) t
unfolding fnv_from
fnv_from-append h [] t = refl
fnv_from-append h (c ∷ s) t = fnv_from-append (fnv_step h c) s t

-- Every hash is an unsigned 32-bit number.
pub fnv1a-lt : (t : Text) → fnv1a t < 2 ^ 32
unfolding fnv1a
fnv1a-lt t = fnv_from-lt 2166136261 t (omega arith)

-- Two texts of 16-bit code units that differ in exactly one place have different hashes.
pub fnv1a-single_change :
    (before after : Text) (c d : ℕ)
    → c < 2 ^ 16
    → d < 2 ^ 16
    → IsUnits after
    → c ≢ d
    → fnv1a (before ++ c ∷ after) ≢ fnv1a (before ++ d ∷ after)
unfolding fnv1a fnv_from
fnv1a-single_change before after c d hc hd u ne e = ne (
    fnv_step_inj_right start c d small hc hd (
      fnv_from_inj _ _ after (fnv_step-lt start c) (fnv_step-lt start d) u
        (sym (split c) ∙ e ∙ split d)))
  where
    start : ℕ
    start = fnv_from 2166136261 before

    small : start < 2 ^ 32
    small = fnv_from-lt 2166136261 before (omega arith)

    split : (x : ℕ) → fnv_from 2166136261 (before ++ x ∷ after) ≡ fnv_from (fnv_step start x) after
    split x = fnv_from-append 2166136261 before (x ∷ after)
