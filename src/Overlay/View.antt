-- ===== src/Overlay/View.antt =====
-- What an overlay shows at each offset, and what is assumed of the base behind it.
use storhub.Prelude.{
  ℕ, suc, ◌+◌, ◌≤◌, ◌<◌, true, false, Option, none, some, ◌≡◌, ltb, if◌then◌else◌, min,
}
use storhub.Ranges.Cover.{covers, IsCanonical}
use storhub.LocalFile.{File, byte_at, slice}
use storhub.Overlay.{Overlay, Hub, temp_or_new}

-- The byte at an offset of the open file: the temp's where it is dirty, the committed file's below
-- the base and logical sizes, and 0 elsewhere.
unfoldable pub view : File → Overlay → ℕ → ℕ
view base w x =
    if covers w.dirty x
    then byte_at (temp_or_new w) x
    else if ltb x (min w.base_size w.logical_size)
    then byte_at base x
    else 0

-- The hub answers a read inside the committed file by a first part of its bytes that is not empty.
pub record Serves (hub : Hub) (base : File) : Type 0 where
  pub answer :
      (offset len : ℕ)
      → 0 < len
      → offset + len ≤ base.size
      → (n : ℕ) × (suc n ≤ len) × (hub offset len ≡ some (slice (byte_at base) offset (suc n)))

-- A local snapshot of the base, where there is one, holds the committed bytes.
abbrev pub Snapshots : Option File → File → Type 0
Snapshots none base = Unit
Snapshots (some f) base =
    (base.size ≤ f.size) × ((x : ℕ) → x < base.size → f.byte x ≡ byte_at base x)

-- The overlay stands over this committed file, and its dirty set is canonical.
pub record IsOver (base : File) (w : Overlay) : Type 0 where
  pub canonical : IsCanonical w.dirty
  pub base_is : base.size ≡ w.base_size
  pub snapshot : Snapshots w.base_temp base

-- What the operations keep of an overlay: a canonical dirty set inside the file, a temp file that
-- does not reach past it and is 0 at clean offsets past the base, and, where the temp is
-- authoritative, no clean offset that only the base could fill.
pub record IsSound (w : Overlay) : Type 0 where
  pub sorted : IsCanonical w.dirty
  pub below : (x : ℕ) → covers w.dirty x ≡ true → x < w.logical_size
  pub temp_fits : (temp_or_new w).size ≤ w.logical_size
  pub full :
      w.temp_authoritative ≡ true
      → (x : ℕ) → x < w.logical_size
      → covers w.dirty x ≡ false
      → w.base_size ≤ x
  pub holes : (x : ℕ) → covers w.dirty x ≡ false → w.base_size ≤ x → byte_at (temp_or_new w) x ≡ 0
