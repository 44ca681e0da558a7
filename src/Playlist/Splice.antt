-- ===== src/Playlist/Splice.antt =====
-- spliceEdit and the content of the file.
use storhub.Prelude.{
  ℕ, ◌+◌, ◌-◌, ◌≤◌, ◌<◌, true, ◌||◌, List, [], ◌∷◌, ◌++◌, Option, none, some, ltb, leb,
  if◌then◌else◌, ◌≡◌, refl, arith, All, Bool-cases, inl, inr, ◌⊎◌, ◌∙◌, sym, ltb→lt,
}
use storhub.Playlist.{ChunkInfo, chunk_end, splice_chunk, splice_chunks, splice_edit, shift_offset}
use storhub.Playlist.Content.{Assets, holds, chunk_byte, content, or_else, content-append}

-- The content after `deleted` bytes at `off` are replaced by `len` bytes of the inserted chunks.
abbrev pub edited : ℕ → ℕ → ℕ → (ℕ → Option ℕ) → (ℕ → Option ℕ) → ℕ → Option ℕ
edited off deleted len inserted before x =
    if ltb x off
    then before x
    else if ltb x (off + len)
    then inserted x
    else before (x + deleted - len)

-- A chunk off the edited span: kept, or moved as a whole.
splice_chunk-outside :
    (assets : Assets) (off deleted len : ℕ) (c : ChunkInfo) (x : ℕ)
    → leb (chunk_end c) off || leb (off + deleted) c.offset ≡ true
    → content assets (splice_chunk off deleted len c) x
      ≡ edited off deleted len (λ y. none) (content assets (c ∷ [])) x
unfolding splice_chunk content chunk_end shift_offset holds chunk_byte
splice_chunk-outside assets off deleted len c x e = rw e (ground arith)

-- A chunk that the edited span meets: its bytes before the span, and its bytes after it, moved.
splice_chunk-across :
    (assets : Assets) (off deleted len : ℕ) (c : ChunkInfo) (x : ℕ)
    → off < chunk_end c
    → c.offset < off + deleted
    → content assets
        ((if ltb c.offset off then record c { size = off - c.offset } ∷ [] else [])
          ++ (if ltb (off + deleted) (chunk_end c)
              then record c {
                offset = off + deleted + len - deleted;
                size = chunk_end c - (off + deleted);
                asset_offset = c.asset_offset + (off + deleted - c.offset);
              }
                ∷ []
              else []))
        x
      ≡ edited off deleted len (λ y. none) (content assets (c ∷ [])) x
unfolding content chunk_end holds chunk_byte
splice_chunk-across assets off deleted len c x l r = elim (Bool-cases (ltb c.offset off)) [
  | inl p ↦ elim (Bool-cases (ltb (off + deleted) (chunk_end c))) [
    | inl q ↦
        rw (p, q)
          (elim (Bool-cases (ltb x off)) [
            | inl s ↦ rw s (ground arith)
            | inr s ↦ elim (Bool-cases (ltb x (off + len))) [
              | inl t ↦ rw (s, t) (ground arith)
              | inr t ↦ rw (s, t) (ground arith)
            ]
          ])
    | inr q ↦ rw (p, q) (ground arith)
  ]
  | inr p ↦ elim (Bool-cases (ltb (off + deleted) (chunk_end c))) [
    | inl q ↦ rw (p, q) (ground arith)
    | inr q ↦ rw (p, q) (ground arith)
  ]
]

splice_chunk-content :
    (assets : Assets) (off deleted len : ℕ) (c : ChunkInfo) (x : ℕ)
    → content assets (splice_chunk off deleted len c) x
      ≡ edited off deleted len (λ y. none) (content assets (c ∷ [])) x
unfolding splice_chunk shift_offset
splice_chunk-content assets off deleted len c x =
    elim (Bool-cases (leb (chunk_end c) off || leb (off + deleted) c.offset)) [
      | inl e ↦ splice_chunk-outside assets off deleted len c x e
      | inr e ↦ rw e (splice_chunk-across assets off deleted len c x (ground arith) (ground arith))
    ]

splice_chunks-content :
    (assets : Assets) (off deleted len : ℕ) (cs : List ChunkInfo) (x : ℕ)
    → content assets (splice_chunks off deleted len cs) x
      ≡ edited off deleted len (λ y. none) (content assets cs) x
unfolding splice_chunks content
splice_chunks-content assets off deleted len [] x = ground arith
splice_chunks-content assets off deleted len (c ∷ cs) x =
    content-append assets (splice_chunk off deleted len c) (splice_chunks off deleted len cs) x
    ∙ rw
        (
          splice_chunk-content assets off deleted len c x,
          splice_chunks-content assets off deleted len cs x,
        )
        (elim (Bool-cases (ltb x off)) [
          | inl s ↦ rw s (sym (content-append assets (c ∷ []) cs x))
          | inr s ↦ rw s (elim (Bool-cases (ltb x (off + len))) [
            | inl t ↦ rw t refl
            | inr t ↦ rw t (sym (content-append assets (c ∷ []) cs (x + deleted - len)))
          ])
        ])

or_else-none : (a : Option ℕ) → or_else a none ≡ a
or_else-none none = refl
or_else-none (some v) = refl

-- Every chunk lies within a span.
abbrev pub Within : ℕ → ℕ → List ChunkInfo → Type 0
Within start end = All (λ c. (start ≤ c.offset) × (c.offset + c.size ≤ end))

content-Within :
    (assets : Assets) (start end : ℕ) (cs : List ChunkInfo) (x : ℕ)
    → Within start end cs
    → (x < start) ⊎ (end ≤ x)
    → content assets cs x ≡ none
unfolding content holds
content-Within assets start end [] x w o = refl
content-Within assets start end (c ∷ cs) x w o =
    ground (arith, content-Within assets start end cs x w.1 o)

-- spliceEdit edits the content: the bytes before the patch stay, the inserted chunks fill their span,
-- and the bytes after the deleted span follow. The inserted chunks must lie within the inserted span.
pub splice_edit-content :
    (assets : Assets) (chunks : List ChunkInfo) (off deleted len : ℕ) (inserted : List ChunkInfo)
    (x : ℕ)
    → Within off (off + len) inserted
    → content assets (splice_edit chunks off deleted len inserted) x
      ≡ edited off deleted len (content assets inserted) (content assets chunks) x
unfolding splice_edit
splice_edit-content assets chunks off deleted len inserted x w =
    content-append assets (splice_chunks off deleted len chunks) inserted x
    ∙ rw (splice_chunks-content assets off deleted len chunks x) (elim (Bool-cases (ltb x off)) [
      | inl s ↦
          rw (s, content-Within assets off (off + len) inserted x w (inl (ltb→lt x off s)))
            (or_else-none _)
      | inr s ↦ rw s (elim (Bool-cases (ltb x (off + len))) [
        | inl t ↦ rw t refl
        | inr t ↦
            rw (t, content-Within assets off (off + len) inserted x w (inr (ground arith)))
              (or_else-none _)
      ])
    ])
