-- ===== src/RawBinary/Index.antt =====
-- The index over the chunks, and its projections.
use omi_imo.Prelude.{
  ℕ, zero, suc, ◌+◌, Bool, not, Option, none, some, List, [], ◌∷◌, Text, codes, Result, throw, ok,
  ◌>>=◌, length, if◌then◌else◌, ℤ, pos, negsuc,
}
use omi_imo.Identity.Json.{
  Value, Items, nil, cons, Fields, end, field, obj, arr, num, nat_field, text_field, bool_field,
  opt_field,
}
use omi_imo.Identity.Fnv.{receipt_of}
use omi_imo.RawBinary.Chunks.{
  Mode, lazy, greedy, static, animated, normalize_mode, InputError, invalid_block_size,
  invalid_projection_mode, RawInput, normalize_byte_array, Input, Chunk, create_chunks,
}

-- The properties of an input object and of the options, a missing text as the empty one.
pub record Source : Type 0 where
  pub raw : RawInput
  pub size_option : Option ℤ
  pub id_text : Text
  pub path_text : Text
  pub scope_text : Text
  pub anchor_text : Text
  pub projection_text : Text
  pub view_text : Text

abbrev default_to : Text → Text → Text
default_to [] other = other
default_to (c ∷ text) other = c ∷ text

-- `toInteger`, the default block size, and the test that it is positive.
unfoldable pub block_size_of : Option ℤ → Result InputError ℕ
block_size_of none = ok 4096
block_size_of (some (pos zero)) = throw invalid_block_size
block_size_of (some (pos (suc n))) = ok (suc n)
block_size_of (some (negsuc n)) = throw invalid_block_size

unfoldable pub mode_of : Text → Result InputError Mode
mode_of text = elim (normalize_mode text) [ none ↦ throw invalid_projection_mode | some m ↦ ok m ]

unfoldable pub normalize_input : Source → Result InputError Input
normalize_input s = do
  bytes ← normalize_byte_array s.raw
  block_size ← block_size_of s.size_option
  projection ← mode_of s.projection_text
  view ← mode_of s.view_text
  let id = default_to s.id_text (codes "raw.binary.index")
  ok (record {
    bytes = bytes;
    block_size = block_size;
    index_id = id;
    omi_path = default_to s.path_text id;
    scope = default_to s.scope_text (codes "public.global");
    identity_anchor = default_to s.anchor_text id;
    projection_mode = projection;
    view_mode = view;
  })

pub record Index : Type 0 where
  pub index_id : Text
  pub omi_path : Text
  pub scope : Text
  pub identity_anchor : Text
  pub block_size : ℕ
  pub total_size : ℕ
  pub chunk_count : ℕ
  pub sparse_chunk_count : ℕ
  pub dense_chunk_count : ℕ
  pub chunks : List Chunk
  pub index_receipt : ℕ
  pub identity_receipt : ℕ
  pub active_projection : Mode
  pub active_view : Mode

-- `chunks.filter(...).length`
unfoldable pub count_where : (Chunk → Bool) → List Chunk → ℕ
count_where p [] = 0
count_where p (c ∷ rest) = if p c then suc (count_where p rest) else count_where p rest

chunk_fields : Chunk → Fields → Fields
chunk_fields c rest = nat_field "index" c.index (
    nat_field "offset" c.offset (
      nat_field "size" c.size (
        bool_field "sparse" c.sparse (
          bool_field "present" c.present (
            text_field "sparse_marker" c.sparse_marker (
              nat_field "byte_length" c.byte_length (
                opt_field "content_hash" c.content_hash
                  (nat_field "chunk_receipt" c.chunk_receipt rest))))))))

unfoldable pub chunk_receipt_index : List Chunk → Items
unfolding chunk_fields
chunk_receipt_index [] = nil
chunk_receipt_index (c ∷ rest) = cons (obj (chunk_fields c end)) (chunk_receipt_index rest)

unfoldable pub index_receipt_of : Input → List Chunk → ℕ
index_receipt_of input chunks = receipt_of (
    obj (
      text_field "index_id" input.index_id (
        text_field "omi_path" input.omi_path (
          text_field "scope" input.scope (
            text_field "identity_anchor" input.identity_anchor (
              nat_field "block_size" input.block_size (
                nat_field "total_size" (length input.bytes)
                  (field (codes "chunk_index") (arr (chunk_receipt_index chunks)) end))))))))

unfoldable pub index_of : Input → Index
index_of input =
    let chunks = create_chunks input in
    let receipt = index_receipt_of input chunks in
    record {
      index_id = input.index_id;
      omi_path = input.omi_path;
      scope = input.scope;
      identity_anchor = input.identity_anchor;
      block_size = input.block_size;
      total_size = length input.bytes;
      chunk_count = length chunks;
      sparse_chunk_count = count_where (λ c. c.sparse) chunks;
      dense_chunk_count = count_where (λ c. not c.sparse) chunks;
      chunks = chunks;
      index_receipt = receipt;
      identity_receipt = receipt;
      active_projection = input.projection_mode;
      active_view = input.view_mode;
    }

unfoldable pub create_index : Source → Result InputError Index
create_index source = normalize_input source >>= λ input. ok (index_of input)

-- The projected surface of a mode: the summary, the mode, its lens, and one object per chunk.
unfoldable pub summary_fields : Index → Fields → Fields
summary_fields i rest = text_field "index_id" i.index_id (
    text_field "omi_path" i.omi_path (
      text_field "scope" i.scope (
        text_field "identity_anchor" i.identity_anchor (
          nat_field "block_size" i.block_size (
            nat_field "total_size" i.total_size (
              nat_field "chunk_count" i.chunk_count (
                nat_field "sparse_chunk_count" i.sparse_chunk_count (
                  nat_field "dense_chunk_count" i.dense_chunk_count
                    (nat_field "index_receipt" i.index_receipt rest)))))))))

mode_name : Mode → Text
mode_name lazy = codes "lazy"
mode_name greedy = codes "greedy"
mode_name static = codes "static"
mode_name animated = codes "animated"

place_fields : Chunk → Fields → Fields
place_fields c rest =
    nat_field "offset" c.offset (nat_field "size" c.size (bool_field "sparse" c.sparse rest))

sealed_items : List Chunk → Items
unfolding place_fields
sealed_items [] = nil
sealed_items (c ∷ rest) =
    cons
      (obj (
        nat_field "index" c.index (place_fields c (nat_field "chunk_receipt" c.chunk_receipt end))))
      (sealed_items rest)

layout_items : List Chunk → Items
unfolding place_fields
layout_items [] = nil
layout_items (c ∷ rest) =
    cons
      (obj (
        nat_field "index" c.index (
          place_fields c (
            text_field "sparse_marker" c.sparse_marker (
              opt_field "content_hash" c.content_hash
                (nat_field "chunk_receipt" c.chunk_receipt end))))))
      (layout_items rest)

timeline_items : ℕ → List Chunk → Items
unfolding place_fields
timeline_items frame [] = nil
timeline_items frame (c ∷ rest) =
    cons
      (obj (
        nat_field "frame" frame (
          nat_field "chunk_index" c.index
            (place_fields c (nat_field "chunk_receipt" c.chunk_receipt end)))))
      (timeline_items (frame + 1) rest)

receipt_items : List Chunk → Items
receipt_items [] = nil
receipt_items (c ∷ rest) = cons (num (pos c.chunk_receipt)) (receipt_items rest)

unfoldable pub cycle_receipt : Index → ℕ
unfolding receipt_items
cycle_receipt i = receipt_of (
    obj (
      nat_field "identity_receipt" i.identity_receipt (
        nat_field "frame_count" 5040
          (field (codes "chunk_receipts") (arr (receipt_items i.chunks)) end))))

unfoldable pub mode_fields : Mode → Index → Fields → Fields
unfolding sealed_items layout_items timeline_items
mode_fields lazy i rest = text_field "mode" (codes "lazy") (
    text_field "lens" (codes "sealed-chunk-manifest")
      (field (codes "sealed_chunks") (arr (sealed_items i.chunks)) rest))
mode_fields greedy i rest = text_field "mode" (codes "greedy") (
    text_field "lens" (codes "expanded-chunk-chart")
      (field (codes "chunks") (arr (chunk_receipt_index i.chunks)) rest))
mode_fields static i rest = text_field "mode" (codes "static") (
    text_field "lens" (codes "receipt-reconciliation")
      (field (codes "layout") (arr (layout_items i.chunks)) rest))
mode_fields animated i rest = text_field "mode" (codes "animated") (
    text_field "lens" (codes "offset-sweep") (
      nat_field "frame_count" 5040 (
        field (codes "timeline") (arr (timeline_items 0 i.chunks))
          (nat_field "cycle_receipt" (cycle_receipt i) rest))))

unfoldable pub surface_fields : Mode → Index → Fields → Fields
surface_fields mode i rest = summary_fields i (mode_fields mode i rest)

pub record Projection : Type 0 where
  pub projected_mode : Mode
  pub presentation : Mode
  pub surface : Value
  pub projected_identity : ℕ
  pub projection_receipt : ℕ
  pub view_receipt : ℕ

unfoldable pub projection_of : Mode → Mode → Index → Projection
unfolding mode_name
projection_of mode view i =
    let bare_surface = obj (surface_fields mode i end) in
    let projected = receipt_of (
      obj (
        nat_field "identity_receipt" i.identity_receipt (
          text_field "projection_mode" (mode_name mode)
            (field (codes "surface") bare_surface end)))) in
    let view_surface = obj (
      surface_fields mode i (
        nat_field "identity_receipt" i.identity_receipt (
          nat_field "projection_receipt" projected
            (text_field "presentation" (mode_name view) end)))) in
    record {
      projected_mode = mode;
      presentation = view;
      surface = view_surface;
      projected_identity = i.identity_receipt;
      projection_receipt = projected;
      view_receipt = receipt_of (
          obj (
            nat_field "identity_receipt" i.identity_receipt (
              text_field "view_mode" (mode_name view) (field (codes "surface") view_surface end))));
    }

-- A mode that is not given is the active one.
unfoldable pub chosen_mode : Option Text → Mode → Option Mode
chosen_mode none active = some active
chosen_mode (some text) active = normalize_mode text

unfoldable pub project_index : Index → Option Text → Option Text → Option Projection
project_index i mode view = elim (chosen_mode mode i.active_projection) [
  | none ↦ none
  | some m ↦ elim (chosen_mode view i.active_view) [
    | none ↦ none
    | some v ↦ some (projection_of m v i)
  ]
]
