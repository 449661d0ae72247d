-- ===== src/RawBinary/Examples.antt =====
-- The theorems on the chunk index at five bytes in blocks of two.
use omi_imo.Prelude.{◌≡◌, ◌+◌, refl, [], ◌∷◌, codes, arith, map}
use omi_imo.RawBinary.Chunks.{Input, lazy, static, normalize_chunk, chunks_from, create_chunks}
use omi_imo.RawBinary.Index.{index_of}
use omi_imo.RawBinary.Partition.{sizes, index_of-covers}

abbrev sample : Input
sample = record {
  bytes = 1 ∷ 2 ∷ 0 ∷ 0 ∷ 5 ∷ [];
  block_size = 2;
  index_id = codes "raw.test";
  omi_path = codes "raw.test";
  scope = codes "public.global";
  identity_anchor = codes "raw.test";
  projection_mode = lazy;
  view_mode = static;
}

-- Three chunks, of which the second is a hole and the last is short.
sample_sizes : map (λ c. c.size) (create_chunks sample) ≡ 2 ∷ 2 ∷ 1 ∷ []
unfolding create_chunks chunks_from normalize_chunk
sample_sizes = refl

index_of-covers_example :
    (sizes (index_of sample).chunks ≡ 5)
    × ((index_of sample).total_size ≡ sizes (index_of sample).chunks)
    × ((index_of sample).sparse_chunk_count + (index_of sample).dense_chunk_count
        ≡ (index_of sample).chunk_count)
index_of-covers_example = index_of-covers sample (omega arith)
