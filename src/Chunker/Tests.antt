-- ===== src/Chunker/Tests.antt =====
-- A file of ten bytes in chunks of four.
use storhub.Prelude.{◌/◌, ◌&&◌, some, ltb, ◌==◌, ◌≡◌, refl, arith}
use storhub.Ranges.{plus}
use storhub.Chunker.{StreamingChunker, new_streaming_chunker, chunk_count}
use storhub.Chunker.Tiling.{IsPlan, reads, reads_lem}

abbrev ten_by_four : StreamingChunker
ten_by_four = record { file_size = 10; chunk_size = 4; num_chunks = 3 }

planned : new_streaming_chunker 10 (plus 4) ≡ some ten_by_four
unfolding new_streaming_chunker
planned = refl

ten_by_four-IsPlan : IsPlan ten_by_four
unfolding chunk_count
ten_by_four-IsPlan = record { positive = omega arith; counted = refl }

reads_lem_example :
    reads ten_by_four 2 9 ≡ (ltb 9 ten_by_four.file_size && 2 == 9 / ten_by_four.chunk_size)
reads_lem_example = reads_lem ten_by_four 2 9 ten_by_four-IsPlan
