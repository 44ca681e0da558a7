-- ===== src/Playlist/Content.antt =====
-- What a playlist holds at a file offset: the byte of the first chunk around it.
use storhub.Prelude.{
  ℕ, ◌+◌, ◌-◌, Bool, ◌&&◌, List, [], ◌∷◌, ◌++◌, Option, none, some, ltb, leb, if◌then◌else◌, ◌≡◌,
  refl, arith,
}
use storhub.Playlist.{ChunkInfo}

-- The bytes of the uploaded assets.
abbrev pub Assets : Type 0
Assets = ℕ → ℕ → ℕ

unfoldable pub holds : ChunkInfo → ℕ → Bool
holds c x = leb c.offset x && ltb x (c.offset + c.size)

unfoldable pub chunk_byte : Assets → ChunkInfo → ℕ → ℕ
chunk_byte assets c x = assets c.asset (c.asset_offset + (x - c.offset))

unfoldable pub content : Assets → List ChunkInfo → ℕ → Option ℕ
unfolding holds chunk_byte
content assets [] x = none
content assets (c ∷ cs) x = if holds c x then some (chunk_byte assets c x) else content assets cs x

-- The first of two answers.
abbrev pub or_else : Option ℕ → Option ℕ → Option ℕ
or_else none b = b
or_else (some v) b = some v

pub content-append :
    (assets : Assets) (ps qs : List ChunkInfo) (x : ℕ)
    → content assets (ps ++ qs) x ≡ or_else (content assets ps x) (content assets qs x)
unfolding content
content-append assets [] qs x = refl
content-append assets (p ∷ ps) qs x = ground (arith, content-append assets ps qs x)
