-- ===== src/RawBinary/Partition.antt =====
-- The chunks of an input against its bytes.
use omi_imo.Prelude.{
  ℕ, zero, suc, ◌+◌, ◌-◌, ◌≤◌, ◌<◌, ◌≡◌, refl, sym, not, Option, none, some, List, [], ◌∷◌, length,
  take, drop, length-take, length-drop, min, ltb, if◌then◌else◌, arith,
}
use omi_imo.RawBinary.Chunks.{Input, Chunk, normalize_chunk, chunks_from, create_chunks}
use omi_imo.RawBinary.Index.{count_where, index_of}

-- The chunk with the number `count` over the bytes of `rest` from `start` on, if there are any.
abbrev pub chunk_at : Input → ℕ → ℕ → ℕ → List ℕ → Option Chunk
chunk_at input count offset start rest =
    if ltb start (length rest)
    then some (
        normalize_chunk (take input.block_size (drop start rest)) count offset
          (min input.block_size (length rest - start)) input)
    else none

drop-shorter :
    (n fuel b : ℕ) (rest : List ℕ) → 0 < n → length rest ≤ fuel → length (drop n (b ∷ rest)) ≤ fuel
drop-shorter n fuel b rest p h = omega (arith, length-drop n (b ∷ rest), p, h)

-- The sizes of chunks, added up.
abbrev pub sizes : List Chunk → ℕ
sizes [] = 0
sizes (c ∷ rest) = c.size + sizes rest

chunks_from-sizes :
    (fuel : ℕ) (input : Input) (count offset : ℕ) (rest : List ℕ)
    → 0 < input.block_size
    → length rest ≤ fuel
    → sizes (chunks_from fuel input count offset rest) ≡ length rest
unfolding chunks_from normalize_chunk
chunks_from-sizes zero input count offset [] p h = refl
chunks_from-sizes zero input count offset (b ∷ rest) p h = omega (arith, h)
chunks_from-sizes (suc fuel) input count offset [] p h = refl
chunks_from-sizes (suc fuel) input count offset (b ∷ rest) p h =
    let n = input.block_size in
    let later =
      chunks_from-sizes fuel input (count + 1) (offset + n) (drop n (b ∷ rest)) p
        (drop-shorter n fuel b rest p (omega (arith, h))) in
    omega (arith, later, length-take n (b ∷ rest), length-drop n (b ∷ rest))

count_where-not :
    (chunks : List Chunk)
    → count_where (λ c. c.sparse) chunks + count_where (λ c. not c.sparse) chunks ≡ length chunks
unfolding count_where
count_where-not [] = refl
count_where-not (c ∷ rest) = ground (arith, count_where-not rest)

-- Where the block size is positive, the sizes of the chunks of an index add up to the number of
-- the bytes and to its total size, and each chunk is counted once, as sparse or as dense.
pub index_of-covers :
    (input : Input)
    → 0 < input.block_size
    → (sizes (index_of input).chunks ≡ length input.bytes)
      × ((index_of input).total_size ≡ sizes (index_of input).chunks)
      × ((index_of input).sparse_chunk_count + (index_of input).dense_chunk_count
          ≡ (index_of input).chunk_count)
unfolding index_of create_chunks
index_of-covers input p =
    let whole = chunks_from-sizes (length input.bytes) input 0 0 input.bytes p (omega arith) in
    (whole, sym whole, count_where-not (create_chunks input))
