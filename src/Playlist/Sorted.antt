-- ===== src/Playlist/Sorted.antt =====
-- finalizePlaylist and the content of the file.
use storhub.Prelude.{
  ℕ, ◌+◌, ◌≤◌, false, ◌&&◌, List, [], ◌∷◌, Option, some, ltb, leb, if◌then◌else◌, ◌≡◌, ◌⊎◌, refl,
  ap, ◌∙◌, arith, All, Bool-cases, inl, inr,
}
use storhub.Playlist.{ChunkInfo, insert_chunk, sort_chunks, has_inversion, finalize_playlist}
use storhub.Playlist.Content.{Assets, holds, chunk_byte, content}

abbrev pub Apart : ChunkInfo → ChunkInfo → Type 0
Apart c d = (c.offset + c.size ≤ d.offset) ⊎ (d.offset + d.size ≤ c.offset)

-- No two chunks share an offset.
abbrev pub IsDisjoint : List ChunkInfo → Type 0
IsDisjoint [] = Unit
IsDisjoint (c ∷ cs) = All (Apart c) cs × IsDisjoint cs

-- The chunks start in order, from `lo` on.
abbrev pub StartsFrom : ℕ → List ChunkInfo → Type 0
StartsFrom lo [] = Unit
StartsFrom lo (c ∷ cs) = (lo ≤ c.offset) × StartsFrom c.offset cs

insert_chunk-All :
    (P : ChunkInfo → Type 0) (c : ChunkInfo) (cs : List ChunkInfo)
    → P c
    → All P cs
    → All P (insert_chunk c cs)
unfolding insert_chunk
insert_chunk-All P c [] h a = (h, tt)
insert_chunk-All P c (q ∷ qs) h a = elim (Bool-cases (ltb q.offset c.offset)) [
  | inl t ↦ rw t (a.0, insert_chunk-All P c qs h a.1)
  | inr t ↦ rw t (h, a)
]

sort_chunks-All : (P : ChunkInfo → Type 0) (cs : List ChunkInfo) → All P cs → All P (sort_chunks cs)
unfolding sort_chunks
sort_chunks-All P [] a = tt
sort_chunks-All P (c ∷ cs) a = insert_chunk-All P c (sort_chunks cs) a.0 (sort_chunks-All P cs a.1)

-- Two chunks apart may change places.
swap-content :
    (assets : Assets) (c q : ChunkInfo) (x : ℕ) (rest : Option ℕ)
    → Apart c q
    → (if holds q x
        then some (chunk_byte assets q x)
        else if holds c x
        then some (chunk_byte assets c x)
        else rest)
      ≡ (if holds c x
          then some (chunk_byte assets c x)
          else if holds q x
          then some (chunk_byte assets q x)
          else rest)
unfolding holds
swap-content assets c q x rest h = elim (Bool-cases (leb c.offset x && ltb x (c.offset + c.size))) [
  | inl s ↦ rw s (ground (arith, h, s))
  | inr s ↦ rw s refl
]

insert_chunk-content :
    (assets : Assets) (c : ChunkInfo) (cs : List ChunkInfo) (x : ℕ)
    → All (Apart c) cs
    → content assets (insert_chunk c cs) x ≡ content assets (c ∷ cs) x
unfolding insert_chunk content
insert_chunk-content assets c [] x a = refl
insert_chunk-content assets c (q ∷ qs) x a = elim (Bool-cases (ltb q.offset c.offset)) [
  | inl t ↦
      rw (t, insert_chunk-content assets c qs x a.1)
        (swap-content assets c q x (content assets qs x) a.0)
  | inr t ↦ rw t refl
]

sort_chunks-content :
    (assets : Assets) (cs : List ChunkInfo) (x : ℕ)
    → IsDisjoint cs
    → content assets (sort_chunks cs) x ≡ content assets cs x
unfolding sort_chunks content
sort_chunks-content assets [] x d = refl
sort_chunks-content assets (c ∷ cs) x d =
    insert_chunk-content assets c (sort_chunks cs) x (sort_chunks-All (Apart c) cs d.0)
    ∙ ap (λ rest. if holds c x then some (chunk_byte assets c x) else rest)
        (sort_chunks-content assets cs x d.1)

insert_chunk-StartsFrom :
    (lo : ℕ) (c : ChunkInfo) (cs : List ChunkInfo)
    → lo ≤ c.offset
    → StartsFrom lo cs
    → StartsFrom lo (insert_chunk c cs)
unfolding insert_chunk
insert_chunk-StartsFrom lo c [] h s = (h, tt)
insert_chunk-StartsFrom lo c (q ∷ qs) h s = elim (Bool-cases (ltb q.offset c.offset)) [
  | inl t ↦ rw t (s.0, insert_chunk-StartsFrom q.offset c qs (ground arith) s.1)
  | inr t ↦ rw t (h, (ground (arith, t), s.1))
]

sort_chunks-StartsFrom : (cs : List ChunkInfo) → StartsFrom 0 (sort_chunks cs)
unfolding sort_chunks
sort_chunks-StartsFrom [] = tt
sort_chunks-StartsFrom (c ∷ cs) =
    insert_chunk-StartsFrom 0 c (sort_chunks cs) (omega arith) (sort_chunks-StartsFrom cs)

has_inversion-StartsFrom :
    (c : ChunkInfo) (cs : List ChunkInfo) → has_inversion (c ∷ cs) ≡ false → StartsFrom c.offset cs
unfolding has_inversion
has_inversion-StartsFrom c [] h = tt
has_inversion-StartsFrom c (d ∷ ds) h =
    (ground (arith, h), has_inversion-StartsFrom d ds (ground (arith, h)))

-- Where no two chunks share an offset, finalizePlaylist answers chunks that start in order and keeps the
-- content.
pub finalize_playlist_lem :
    (assets : Assets) (cs : List ChunkInfo)
    → IsDisjoint cs
    → StartsFrom 0 (finalize_playlist cs)
      × ((x : ℕ) → content assets (finalize_playlist cs) x ≡ content assets cs x)
unfolding finalize_playlist has_inversion
finalize_playlist_lem assets [] d = (tt, λ x. refl)
finalize_playlist_lem assets (c ∷ cs) d = elim (Bool-cases (has_inversion (c ∷ cs))) [
  | inl t ↦ rw t (sort_chunks-StartsFrom (c ∷ cs), λ x. sort_chunks-content assets (c ∷ cs) x d)
  | inr t ↦ rw t ((omega arith, has_inversion-StartsFrom c cs t), λ x. refl)
]
