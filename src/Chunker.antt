-- ===== src/Chunker.antt =====
-- How a file is cut into chunks: internal/chunking/chunker.go. Opening and measuring the file are the
-- caller's; the model takes its size.
pub mod Tiling
pub mod Tests
use storhub.Prelude.{
  ℕ, zero, suc, ◌+◌, ◌-◌, ◌*◌, ◌/◌, ◌≤◌, ◌<◌, Bool, true, false, Option, none, some, ltb, leb,
  if◌then◌else◌,
}
use storhub.Ranges.{Int64, plus, minus}

abbrev pub max_release_asset_size : ℕ
max_release_asset_size = 2147483647

abbrev pub default_chunk_size : ℕ
default_chunk_size = max_release_asset_size

abbrev pub max_int32 : ℕ
max_int32 = 2147483647

-- NormalizedSize
pub normalized_size : Int64 → ℕ × Bool
normalized_size (minus n) = (default_chunk_size, true)
normalized_size (plus zero) = (default_chunk_size, true)
normalized_size (plus (suc n)) =
    if ltb max_release_asset_size (suc n) then (max_release_asset_size, true) else (suc n, false)

-- StreamingChunker, without the open file.
pub record StreamingChunker : Type 0 where
  pub file_size : ℕ
  pub chunk_size : ℕ
  pub num_chunks : ℕ

pub chunk_count : ℕ → ℕ → ℕ
chunk_count file_size chunk_size = (file_size + chunk_size - 1) / chunk_size

-- NewStreamingChunker, none for a file that needs too many chunks.
pub new_streaming_chunker : ℕ → Int64 → Option StreamingChunker
unfolding normalized_size chunk_count
new_streaming_chunker file_size requested =
    let size = (normalized_size requested).0 in
    if ltb max_int32 (chunk_count file_size size)
    then none
    else some
        record { file_size = file_size; chunk_size = size; num_chunks = chunk_count file_size size }

-- ChunkReader: where it reads.
pub record ChunkReader : Type 0 where
  pub offset : ℕ
  pub size : ℕ

-- GetChunk, none for an index out of range.
pub get_chunk : StreamingChunker → ℕ → Option ChunkReader
get_chunk s index =
    let offset = index * s.chunk_size in
    if leb s.num_chunks index
    then none
    else some record {
      offset = offset;
      size = if ltb s.file_size (offset + s.chunk_size) then s.file_size - offset else s.chunk_size;
    }
