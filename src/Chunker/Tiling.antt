-- ===== src/Chunker/Tiling.antt =====
-- The chunks that NewStreamingChunker plans and GetChunk answers, and the bytes that they read.
use native.Mathlib.Nat.{le-div_iff_mul-le, div-lt_iff_lt-mul, suc-mul}
use storhub.Prelude.{
  ◌==◌, ◌&&◌, ℕ, zero, suc, ◌+◌, ◌-◌, ◌*◌, ◌/◌, ◌≤◌, ◌<◌, Bool, true, false, Option, none, some,
  ltb, leb, ◌≡◌, ◌↔◌, refl, sym, ◌∙◌, ap, arith, Bool-cases, inl, inr, if-true, if-false,
}
use storhub.Ranges.{Int64, plus, minus}
use storhub.Chunker.{
  normalized_size, StreamingChunker, new_streaming_chunker, chunk_count, ChunkReader, get_chunk,
  max_int32,
}

normalized_size-pos : (n : Int64) → 0 < (normalized_size n).0
unfolding normalized_size
normalized_size-pos (minus n) = omega arith
normalized_size-pos (plus zero) = omega arith
normalized_size-pos (plus (suc n)) = ground arith

count_iff : (n c i : ℕ) → 0 < c → (suc i ≤ chunk_count n c) ↔ (i * c < n)
unfolding chunk_count
count_iff n c i h =
    let fits = le-div_iff_mul-le {k = c} {x = suc i} {y = n + c - 1} h in
    (λ a. omega (arith, fits.0 a, suc-mul i c, h), λ b. fits.1 (omega (arith, suc-mul i c, b, h)))

quotient_iff : (x c i : ℕ) → 0 < c → ((i == x / c) ≡ true) ↔ ((i * c ≤ x) × (x < i * c + c))
quotient_iff x c i h =
    let low = le-div_iff_mul-le {k = c} {x = i} {y = x} h in
    let high = div-lt_iff_lt-mul {k = c} {x = x} {y = suc i} h in
    (
      λ e. (low.0 (ground (arith, e)), omega (arith, high.0 (ground (arith, e)), suc-mul i c)),
      λ b. ground (arith, low.1 b.0, high.1 (omega (arith, b.1, suc-mul i c))),
    )

-- The chunker was planned for its file.
pub record IsPlan (s : StreamingChunker) : Type 0 where
  pub positive : 0 < s.chunk_size
  pub counted : s.num_chunks ≡ chunk_count s.file_size s.chunk_size

abbrev chunker_or : StreamingChunker → Option StreamingChunker → StreamingChunker
chunker_or s none = s
chunker_or s (some t) = t

-- A chunker that NewStreamingChunker answers, for any requested size, has a positive chunk size, the
-- number of chunks that the file needs, and no more chunks than an int32 counts.
pub new_streaming_chunker-IsPlan :
    (n : ℕ) (requested : Int64) (s : StreamingChunker)
    → new_streaming_chunker n requested ≡ some s
    → IsPlan s × (s.file_size ≡ n) × (s.num_chunks ≤ max_int32)
unfolding new_streaming_chunker
new_streaming_chunker-IsPlan n requested s h =
    let size = (normalized_size requested).0 in
    elim (Bool-cases (ltb max_int32 (chunk_count n size))) [
      | inl t ↦ ground (arith, sym (if-true {b = ltb max_int32 (chunk_count n size)} _ _ t) ∙ h)
      | inr t ↦
          rw
            (sym (
              ap (chunker_or s)
                (sym (if-false {b = ltb max_int32 (chunk_count n size)} _ _ t) ∙ h)))
            (
              record { positive = normalized_size-pos requested; counted = refl },
              refl,
              ground (arith, t),
            )
    ]

has_byte : Option ChunkReader → ℕ → Bool
has_byte none x = false
has_byte (some r) x = leb r.offset x && ltb x (r.offset + r.size)

-- The chunk with the index reads the byte at the offset.
pub reads : StreamingChunker → ℕ → ℕ → Bool
unfolding has_byte
reads s index x = has_byte (get_chunk s index) x

-- The chunks of a planned file tile it: the chunk with an index reads exactly the bytes of the file whose
-- offset has that quotient by the chunk size.
pub reads_lem :
    (s : StreamingChunker) (index x : ℕ)
    → IsPlan s
    → reads s index x ≡ (ltb x s.file_size && index == x / s.chunk_size)
unfolding reads get_chunk has_byte
reads_lem s index x plan =
    let c = s.chunk_size in
    let q = quotient_iff x c index plan.positive in
    let count = count_iff s.file_size c index plan.positive in
    elim (Bool-cases (leb s.num_chunks index)) [
      | inl t ↦ rw t (ground (arith, q, count, plan.counted, t))
      | inr t ↦ rw t (ground (arith, q, count, plan.counted, t))
    ]
