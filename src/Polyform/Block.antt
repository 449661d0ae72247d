-- ===== src/Polyform/Block.antt =====
-- Blocks: a lookup entry of the parsed document with its four hashed coordinates.
-- A text that is missing in the source is empty here; both are falsy there.
use omi_imo.Prelude.{
  ℕ, Bool, true, false, ◌&&◌, Option, none, some, List, [], ◌∷◌, Text, codes, text_eq, ◌==◌,
  if◌then◌else◌,
}
use omi_imo.Identity.Json.{Value, Fields, end, field, obj, nat_field, text_field}
use omi_imo.Identity.Fnv.{fnv1a, receipt_of}

pub record Timing : Type 0 where
  pub master_5040 : ℕ
  pub public_240 : ℕ
  pub local_60 : ℕ
  pub operator_16 : ℕ
  pub fano_7 : ℕ
  pub byte_8 : ℕ

-- `TIMING`
abbrev pub timing : Timing
timing = record {
  master_5040 = 5040;
  public_240 = 240;
  local_60 = 60;
  operator_16 = 16;
  fano_7 = 7;
  byte_8 = 8;
}

unfoldable pub validate_timing : Timing → Bool
validate_timing t =
    t.master_5040 == timing.master_5040
    && (t.public_240 == timing.public_240
        && (t.local_60 == timing.local_60
            && (t.operator_16 == timing.operator_16
                && (t.fano_7 == timing.fano_7 && t.byte_8 == timing.byte_8))))

pub record UnitEntry : Type 0 where
  pub key : Text
  pub content : Text

pub data EntryValue : Type 0 where
  group : EntryValue
  units : List UnitEntry → EntryValue
  content : Text → EntryValue

-- An entry of `document.lookup`.
pub record Entry : Type 0 where
  pub plane : Text
  pub path : Text
  pub fs : Text
  pub gs : Text
  pub rs : Text
  pub us : Text
  pub value : EntryValue

-- `a || b` on texts.
abbrev pub or_text : Text → Text → Text
or_text [] d = d
or_text (c ∷ t) d = c ∷ t

unfoldable pub find_primitive : List UnitEntry → Option Text
find_primitive [] = none
find_primitive (u ∷ rest) =
    if text_eq u.key (codes "primitive") then some u.content else find_primitive rest

default_basis : Entry → Text
default_basis e = if text_eq e.gs (codes "interactions") then codes "relation" else codes "polyform"

basis_of_units : Entry → Option Text → Text
unfolding default_basis
basis_of_units e (some t) = t
basis_of_units e none = default_basis e

unfoldable pub infer_basis : Entry → Text
unfolding find_primitive basis_of_units text_eq
infer_basis e =
    if text_eq e.plane (codes "US") && text_eq e.us (codes "primitive")
    then elim e.value [ content t ↦ or_text t (codes "polyform") | _ ↦ codes "polyform" ]
    else if text_eq e.plane (codes "RS")
    then elim e.value [ units us ↦ basis_of_units e (find_primitive us) | _ ↦ default_basis e ]
    else default_basis e

unfoldable pub infer_degree : Entry → Text
unfolding text_eq
infer_degree e =
    if text_eq e.plane (codes "US")
    then codes "unit"
    else if text_eq e.plane (codes "RS")
    then (if text_eq e.gs (codes "interactions") then codes "edge" else codes "record")
    else if text_eq e.plane (codes "GS")
    then codes "group"
    else codes "root"

unfoldable pub infer_sign : Entry → Text
unfolding text_eq
infer_sign e =
    if text_eq e.gs (codes "interactions") then codes "relation-closure" else codes "structural"

pub record Options : Type 0 where
  pub basis : Text
  pub degree : Text
  pub sign : Text
  pub depth : Text

pub record Block : Type 0 where
  pub omi_path : Text
  pub fs : Text
  pub gs : Text
  pub rs : Text
  pub us : Text
  pub x : ℕ
  pub y : ℕ
  pub z : ℕ
  pub w : ℕ
  pub basis : Text
  pub degree : Text
  pub sign : Text
  pub depth : Text
  pub clock : Timing
  pub overlay : Option Fields
  pub receipt_hash : ℕ

abbrev timing_value : Value
timing_value = obj (
    nat_field "master_5040" timing.master_5040 (
      nat_field "public_240" timing.public_240 (
        nat_field "local_60" timing.local_60 (
          nat_field "operator_16" timing.operator_16
            (nat_field "fano_7" timing.fano_7 (nat_field "byte_8" timing.byte_8 end))))))

-- `receiptHash`
unfoldable pub receipt_hash_of : Block → ℕ
receipt_hash_of b = receipt_of (
    obj (
      text_field "omi_path" b.omi_path (
        text_field "fs" b.fs (
          text_field "gs" b.gs (
            text_field "rs" b.rs (
              text_field "us" b.us (
                nat_field "x" b.x (
                  nat_field "y" b.y (
                    nat_field "z" b.z (
                      nat_field "w" b.w (
                        text_field "basis" b.basis (
                          text_field "degree" b.degree (
                            text_field "sign" b.sign (
                              text_field "depth" b.depth
                                (field (codes "timing") timing_value end)))))))))))))))

unfoldable pub hash_or_zero : Text → ℕ
hash_or_zero [] = 0
hash_or_zero (c ∷ t) = fnv1a (c ∷ t)

unfoldable pub is_empty : Text → Bool
is_empty [] = true
is_empty (c ∷ t) = false

-- The block that `fromLookupEntry` builds, receipt included.
unfoldable pub block_of : Entry → Options → Block
unfolding hash_or_zero
block_of e o =
    let block : Block = record {
      omi_path = e.path;
      fs = e.fs;
      gs = e.gs;
      rs = e.rs;
      us = e.us;
      x = fnv1a e.fs;
      y = fnv1a e.gs;
      z = fnv1a e.rs;
      w = hash_or_zero e.us;
      basis = or_text o.basis (infer_basis e);
      degree = or_text o.degree (infer_degree e);
      sign = or_text o.sign (infer_sign e);
      depth = or_text o.depth (codes "inspect");
      clock = timing;
      overlay = none;
      receipt_hash = 0;
    } in
    record block { receipt_hash = receipt_hash_of block }

unfoldable pub from_lookup_entry : Entry → Options → Option Block
unfolding is_empty
from_lookup_entry e o =
    if is_empty e.path then none else if is_empty e.fs then none else some (block_of e o)

unfoldable pub apply_overlay : Block → Fields → Option Block
unfolding validate_timing
apply_overlay b overlay =
    if validate_timing b.clock then some (record b { overlay = some overlay }) else none
