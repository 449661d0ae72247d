-- ===== src/Polyform/Overlay.antt =====
-- Overlays on blocks (workbench/src/polyform_coordinate.js).
use omi_imo.Prelude.{◌≡◌, ◌↔◌, refl, false, none, some, arith, subst}
use omi_imo.Identity.Json.{Fields}
use omi_imo.Polyform.Block.{Block, validate_timing, receipt_hash_of, apply_overlay}
use omi_imo.Polyform.Closure.{closure_from_blocks}

-- `b'` is `b` under an overlay, as far as its identity and its closures with `d` tell.
abbrev pub SameIdentity : Block → Block → Fields → Block → Type 0
SameIdentity b d overlay b' =
    (b'.overlay ≡ some overlay)
    × (b'.receipt_hash ≡ b.receipt_hash)
    × (receipt_hash_of b' ≡ receipt_hash_of b)
    × (closure_from_blocks b' d ≡ closure_from_blocks b d)
    × (closure_from_blocks d b' ≡ closure_from_blocks d b)

-- An overlay is refused exactly on a block with foreign timing. Otherwise it changes nothing that
-- identifies the block: neither receipt, nor any closure from or to it.
pub apply_overlay-identity :
    (b d : Block) (overlay : Fields)
    → ((apply_overlay b overlay ≡ none) ↔ (validate_timing b.clock ≡ false))
      × ((b' : Block) → apply_overlay b overlay ≡ some b' → SameIdentity b d overlay b')
unfolding apply_overlay receipt_hash_of closure_from_blocks
apply_overlay-identity b d overlay = (
  ground arith,
  λ b' h.
      let made : record b { overlay = some overlay } ≡ b' = ground arith in
      subst (SameIdentity b d overlay) made (refl, refl, refl, refl, refl),
)
