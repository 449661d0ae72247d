-- ===== src/RawBinary/Chunks.antt =====
-- The bytes of an input, cut into blocks, and the record of each block.
use omi_imo.Prelude.{
  ℕ, zero, suc, ◌+◌, ◌%◌, Bool, not, ◌||◌, Option, none, some, List, [], ◌∷◌, map, Text, codes,
  text_eq, Result, throw, ok, ◌>>=◌, all, length, take, drop, leb, ◌==◌, if◌then◌else◌, ℤ, pos,
  negsuc,
}
use omi_imo.Identity.Json.{end, obj, nat_field, text_field, bool_field, opt_field}
use omi_imo.Identity.Fnv.{fnv_from, receipt_of}

pub data Mode : Type 0 where
  lazy greedy static animated : Mode

-- `String(value || "lazy")` and the names that each mode has.
unfoldable pub normalize_mode : Text → Option Mode
normalize_mode [] = some lazy
normalize_mode (c ∷ text) =
    let mode = c ∷ text in
    if text_eq mode (codes "barcode") || text_eq mode (codes "lazy")
    then some lazy
    else if text_eq mode (codes "chart") || text_eq mode (codes "greedy")
    then some greedy
    else if text_eq mode (codes "static")
    then some static
    else if text_eq mode (codes "animated")
    then some animated
    else none

pub data InputError : Type 0 where
  missing_raw_bytes invalid_raw_byte invalid_block_size invalid_projection_mode : InputError

-- `validateByte`, on integers.
unfoldable pub validate_byte : ℤ → Result InputError ℕ
validate_byte (pos n) = if leb n 255 then ok n else throw invalid_raw_byte
validate_byte (negsuc n) = throw invalid_raw_byte

unfoldable pub validate_bytes : List ℤ → Result InputError (List ℕ)
validate_bytes [] = ok []
validate_bytes (x ∷ xs) = validate_byte x >>= λ b. validate_bytes xs >>= λ bs. ok (b ∷ bs)

-- The forms of an input: nothing, a buffer or a typed array of bytes, an array of numbers, and a
-- text, of which the low byte of each code unit counts.
pub data RawInput : Type 0 where
  absent : RawInput
  buffer : List ℕ → RawInput
  numbers : List ℤ → RawInput
  characters : Text → RawInput

unfoldable pub normalize_byte_array : RawInput → Result InputError (List ℕ)
normalize_byte_array absent = throw missing_raw_bytes
normalize_byte_array (buffer bytes) = ok bytes
normalize_byte_array (numbers values) = validate_bytes values
normalize_byte_array (characters text) = ok (map (λ c. c % 256) text)

pub record Input : Type 0 where
  pub bytes : List ℕ
  pub block_size : ℕ
  pub index_id : Text
  pub omi_path : Text
  pub scope : Text
  pub identity_anchor : Text
  pub projection_mode : Mode
  pub view_mode : Mode

pub record Chunk : Type 0 where
  pub index : ℕ
  pub offset : ℕ
  pub size : ℕ
  pub sparse : Bool
  pub present : Bool
  pub sparse_marker : Text
  pub byte_length : ℕ
  pub content_hash : Option ℕ
  pub chunk_receipt : ℕ

-- `hash ^= byte & 0xff` is the step of `fnv1a`, from the same start.
unfoldable pub byte_hash : List ℕ → ℕ
byte_hash bytes = fnv_from 2166136261 (map (λ b. b % 256) bytes)

unfoldable pub is_sparse : List ℕ → Bool
is_sparse bytes = all (λ b. b == 0) bytes

unfoldable pub chunk_receipt_of : Chunk → Input → ℕ
chunk_receipt_of c input = receipt_of (
    obj (
      text_field "index_id" input.index_id (
        text_field "omi_path" input.omi_path (
          text_field "scope" input.scope (
            text_field "identity_anchor" input.identity_anchor (
              nat_field "block_size" input.block_size (
                nat_field "index" c.index (
                  nat_field "offset" c.offset (
                    nat_field "size" c.size (
                      bool_field "sparse" c.sparse (
                        bool_field "present" c.present (
                          text_field "sparse_marker" c.sparse_marker (
                            nat_field "byte_length" c.byte_length
                              (opt_field "content_hash" c.content_hash end))))))))))))))

unfoldable pub normalize_chunk : List ℕ → ℕ → ℕ → ℕ → Input → Chunk
normalize_chunk chunk_bytes index offset size input =
    let sparse = is_sparse chunk_bytes in
    let chunk : Chunk = record {
      index = index;
      offset = offset;
      size = size;
      sparse = sparse;
      present = not sparse;
      sparse_marker = if sparse then codes "declarative-hole" else codes "present-bytes";
      byte_length = size;
      content_hash = if sparse then none else some (byte_hash chunk_bytes);
      chunk_receipt = 0;
    } in
    record chunk { chunk_receipt = chunk_receipt_of chunk input }

-- The loop of `createChunks`: `rest` is what is left of the bytes from `offset` on.
unfoldable pub chunks_from : ℕ → Input → ℕ → ℕ → List ℕ → List Chunk
chunks_from zero input count offset rest = []
chunks_from (suc fuel) input count offset [] = []
chunks_from (suc fuel) input count offset (b ∷ rest) =
    let chunk_bytes = take input.block_size (b ∷ rest) in
    normalize_chunk chunk_bytes count offset (length chunk_bytes) input
    ∷ chunks_from fuel input (count + 1) (offset + input.block_size)
        (drop input.block_size (b ∷ rest))

-- A block has at least one byte, so there are at most as many blocks as bytes.
unfoldable pub create_chunks : Input → List Chunk
create_chunks input = chunks_from (length input.bytes) input 0 0 input.bytes
