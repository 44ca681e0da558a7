-- ===== src/Playlist.antt =====
-- Chunk playlists of internal/storage/patch.go: a file is a list of views into uploaded assets, and
-- an edit is arithmetic on the list. Uploads, release lookups and the digest fields are not part of
-- the layout.
pub mod Content
pub mod Splice
pub mod Slices
pub mod Sorted
pub mod Tests
use storhub.Prelude.{
  ℕ, zero, suc, ◌+◌, ◌-◌, ◌*◌, ◌/◌, ◌≤◌, ◌<◌, Bool, true, false, ◌&&◌, ◌||◌, List, [], ◌∷◌, ◌++◌,
  Option, none, some, ltb, leb, ◌==◌, if◌then◌else◌, length, min, max,
}

-- ChunkInfo: `asset` names the uploaded asset, and the view starts `asset_offset` bytes into it.
pub record ChunkInfo : Type 0 where
  pub asset : ℕ
  pub offset : ℕ
  pub size : ℕ
  pub asset_offset : ℕ

unfoldable pub chunk_end : ChunkInfo → ℕ
chunk_end c = c.offset + c.size

-- `offset + (inserted - deleted)`; the shifted offsets lie past the deleted span.
unfoldable pub shift_offset : ℕ → ℕ → ℕ → ℕ
shift_offset deleted inserted offset = offset + inserted - deleted

-- What the loop of spliceEdit appends for one chunk.
unfoldable pub splice_chunk : ℕ → ℕ → ℕ → ChunkInfo → List ChunkInfo
unfolding chunk_end shift_offset
splice_chunk patch_offset deleted inserted_len c =
    let patch_end = patch_offset + deleted in
    let moved = shift_offset deleted inserted_len in
    let prefix = record c { size = patch_offset - c.offset } in
    let suffix = record c {
      offset = moved patch_end;
      size = chunk_end c - patch_end;
      asset_offset = c.asset_offset + (patch_end - c.offset);
    } in
    if leb (chunk_end c) patch_offset || leb patch_end c.offset
    then (if leb patch_end c.offset then record c { offset = moved c.offset } else c) ∷ []
    else (if ltb c.offset patch_offset then prefix ∷ [] else [])
      ++ (if ltb patch_end (chunk_end c) then suffix ∷ [] else [])

unfoldable pub splice_chunks : ℕ → ℕ → ℕ → List ChunkInfo → List ChunkInfo
unfolding splice_chunk
splice_chunks patch_offset deleted inserted_len [] = []
splice_chunks patch_offset deleted inserted_len (c ∷ cs) =
    splice_chunk patch_offset deleted inserted_len c
    ++ splice_chunks patch_offset deleted inserted_len cs

-- spliceEdit
unfoldable pub splice_edit : List ChunkInfo → ℕ → ℕ → ℕ → List ChunkInfo → List ChunkInfo
unfolding splice_chunks
splice_edit chunks patch_offset deleted inserted_len inserted =
    splice_chunks patch_offset deleted inserted_len chunks ++ inserted

-- sort.SliceStable by offset.
insert_chunk : ChunkInfo → List ChunkInfo → List ChunkInfo
insert_chunk c [] = c ∷ []
insert_chunk c (q ∷ qs) = if ltb q.offset c.offset then q ∷ insert_chunk c qs else c ∷ q ∷ qs

sort_chunks : List ChunkInfo → List ChunkInfo
unfolding insert_chunk
sort_chunks [] = []
sort_chunks (c ∷ cs) = insert_chunk c (sort_chunks cs)

-- The scan of finalizePlaylist for a chunk that starts before the one in front of it.
has_inversion : List ChunkInfo → Bool
has_inversion [] = false
has_inversion (c ∷ []) = false
has_inversion (c ∷ d ∷ cs) = if ltb d.offset c.offset then true else has_inversion (d ∷ cs)

-- finalizePlaylist
pub finalize_playlist : List ChunkInfo → List ChunkInfo
unfolding has_inversion sort_chunks
finalize_playlist chunks = if has_inversion chunks then sort_chunks chunks else chunks

-- sliceChunkView
pub slice_chunk_view : ChunkInfo → ℕ → ℕ → ChunkInfo
slice_chunk_view original new_offset new_size = record original {
  offset = new_offset;
  size = new_size;
  asset_offset = original.asset_offset + (new_offset - original.offset);
}

-- The body of the loop of referenceFileRangeChunks.
reference_chunk : ℕ → ℕ → ChunkInfo → List ChunkInfo
unfolding chunk_end slice_chunk_view
reference_chunk start end c =
    let seg_start = max c.offset start in
    let seg_end = min (chunk_end c) end in
    if leb (chunk_end c) start || leb end c.offset
    then []
    else if seg_start == c.offset && seg_end == chunk_end c
    then record c { offset = seg_start } ∷ []
    else slice_chunk_view c seg_start (seg_end - seg_start) ∷ []

reference_chunks : ℕ → ℕ → List ChunkInfo → List ChunkInfo
unfolding reference_chunk
reference_chunks start end [] = []
reference_chunks start end (c ∷ cs) = reference_chunk start end c ++ reference_chunks start end cs

-- referenceFileRangeChunks, on the chunks of the file that the catalog holds.
pub reference_file_range : List ChunkInfo → ℕ → ℕ → List ChunkInfo
unfolding reference_chunks
reference_file_range chunks start end =
    if leb end start then [] else reference_chunks start end chunks
