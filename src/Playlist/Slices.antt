-- ===== src/Playlist/Slices.antt =====
-- referenceFileRangeChunks and the content of the file.
use storhub.Prelude.{
  ℕ, ◌&&◌, ◌||◌, List, [], ◌∷◌, Option, none, ltb, leb, ◌==◌, if◌then◌else◌, min, max, ◌≡◌, refl,
  sym, ◌∙◌, arith, Bool-cases, inl, inr,
}
use storhub.Playlist.{
  ChunkInfo, chunk_end, slice_chunk_view, reference_chunk, reference_chunks, reference_file_range,
}
use storhub.Playlist.Content.{Assets, holds, chunk_byte, content, content-append}

-- The part of the content within `start` and `end`.
abbrev pub within : ℕ → ℕ → (ℕ → Option ℕ) → ℕ → Option ℕ
within start end before x = if leb start x && ltb x end then before x else none

reference_chunk-content :
    (assets : Assets) (start end : ℕ) (c : ChunkInfo) (x : ℕ)
    → content assets (reference_chunk start end c) x ≡ within start end (content assets (c ∷ [])) x
unfolding reference_chunk content chunk_end slice_chunk_view holds chunk_byte
reference_chunk-content assets start end c x =
    elim (Bool-cases (leb (chunk_end c) start || leb end c.offset)) [
      | inl e ↦ rw e (ground arith)
      | inr e ↦
          rw e
            (elim (Bool-cases
              (max c.offset start == c.offset && min (chunk_end c) end == chunk_end c)) [
                | inl w ↦ rw w (ground arith)
                | inr w ↦ rw w (ground arith)
              ])
    ]

reference_chunks-content :
    (assets : Assets) (start end : ℕ) (cs : List ChunkInfo) (x : ℕ)
    → content assets (reference_chunks start end cs) x ≡ within start end (content assets cs) x
unfolding reference_chunks content
reference_chunks-content assets start end [] x = ground arith
reference_chunks-content assets start end (c ∷ cs) x =
    content-append assets (reference_chunk start end c) (reference_chunks start end cs) x
    ∙ rw
        (
          reference_chunk-content assets start end c x,
          reference_chunks-content assets start end cs x,
        )
        (elim (Bool-cases (leb start x && ltb x end)) [
          | inl t ↦ rw t (sym (content-append assets (c ∷ []) cs x))
          | inr t ↦ rw t refl
        ])

-- The chunks of referenceFileRangeChunks hold the content of the file inside the range, and nothing
-- outside it.
pub reference_file_range-content :
    (assets : Assets) (chunks : List ChunkInfo) (start end x : ℕ)
    → content assets (reference_file_range chunks start end) x
      ≡ within start end (content assets chunks) x
unfolding reference_file_range content
reference_file_range-content assets chunks start end x = elim (Bool-cases (leb end start)) [
  | inl t ↦ rw t (ground arith)
  | inr t ↦ rw t (reference_chunks-content assets start end chunks x)
]
