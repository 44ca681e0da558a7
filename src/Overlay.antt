-- ===== src/Overlay.antt =====
-- The write overlay of one inode, internal/fusefs/fuse_write.go, fuse_write_ranges.go and the write
-- of fuse_write_commit.go: a temp file that holds the dirty spans over a base that is read from a
-- local snapshot or from the hub. A file is its size and the bytes below it; operations on local
-- temp files succeed, and the hub is a parameter that may fail or answer short.

pub mod View
pub mod Read
pub mod Bounded
pub mod Resize
pub mod Write
pub mod Tests
use storhub.LocalFile.{File, empty_file, truncate, write_at, read_at, zeros}
use storhub.Prelude.{
  ℕ, zero, suc, ◌+◌, ◌-◌, ◌≤◌, ◌<◌, Bool, true, false, ◌&&◌, List, [], ◌∷◌, ◌++◌, Option, none,
  some, ltb, leb, ◌==◌, if◌then◌else◌, length, min, max,
}
use storhub.Ranges.{
  ByteRange, range, mark_dirty, truncate_dirty, next_dirty_range, NextDirty, inside, before_next,
  past_last, Int64, plus, minus,
}

-- inodeWriteState: the fields that decide the content.
pub record Overlay : Type 0 where
  pub temp : Option File
  pub base_temp : Option File
  pub poisoned : Bool
  pub base_size : ℕ
  pub logical_size : ℕ
  pub dirty : List ByteRange
  pub temp_authoritative : Bool

pub data Errno : Type 0 where
  eio einval no_progress hub_failed : Errno

pub data Result {ℓ} (A : Type ℓ) : Type ℓ where
  ok : A → Result A
  err : Errno → Result A

infixl 5 ◌>>=◌
abbrev pub ◌>>=◌ {ℓ κ} : {A : Type ℓ} {B : Type κ} → Result A → (A → Result B) → Result B
ok a >>= f = f a
err e >>= f = err e

-- ReadFileAtContext of the hub: the bytes of a span of the committed file, or a failure.
abbrev pub Hub : Type 0
Hub = ℕ → ℕ → Option (List ℕ)

abbrev pub max_dirty_ranges : ℕ
max_dirty_ranges = 1024

unfoldable pub temp_or_new : Overlay → File
temp_or_new w = elim (w.temp) [ some f ↦ f | none ↦ truncate w.logical_size empty_file ]

-- ensureTempLocked
pub ensure_temp : Overlay → Overlay
ensure_temp w = record w { temp = some (temp_or_new w) }

-- setLogicalSizeLocked
pub set_logical_size : ℕ → Overlay → Overlay
set_logical_size n w = record w {
  temp = some (truncate n (temp_or_new w));
  logical_size = n;
  dirty = truncate_dirty n w.dirty;
}

-- The zero-fill loop of setSizeLocked, a page at a time.
pub zero_fill : ℕ → ℕ → ℕ → ℕ → File → File
zero_fill zero page offset size f = f
zero_fill (suc fuel) page offset size f =
    let n = if ltb (size - offset) page then size - offset else page in
    let rest = zero_fill fuel page (offset + n) size (write_at (zeros n) offset f) in
    if ltb offset size then rest else f

-- setSizeLocked; a negative size is `minus`.
pub set_size : ℕ → Int64 → Overlay → Result Overlay
set_size page (minus n) w = err einval
set_size page (plus size) w =
    let resized = set_logical_size size w in
    if w.poisoned
    then err eio
    else if size == 0
    then ok (record resized { temp_authoritative = true; base_temp = none })
    else if ltb w.logical_size size && (if w.temp_authoritative then false else true)
    then ok (record resized {
      temp = some (zero_fill size page w.logical_size size (temp_or_new resized));
      dirty = mark_dirty (plus w.logical_size) (plus size) resized.dirty;
    })
    else ok resized

-- What one turn of the loop of readIntoLocked finds at an offset.
pub data Segment : Type 0 where
  got : List ℕ → Segment
  stuck : Errno → Segment

-- readBaseRangeLocked and the checks behind it.
from_hub : Option (List ℕ) → Segment
from_hub none = stuck hub_failed
from_hub (some []) = stuck no_progress
from_hub (some (b ∷ bytes)) = got (b ∷ bytes)

from_snapshot : List ℕ → Segment
from_snapshot [] = stuck no_progress
from_snapshot (b ∷ bytes) = got (b ∷ bytes)

pub read_base : Hub → Option File → ℕ → ℕ → Segment
unfolding from_hub from_snapshot
read_base hub (some f) offset len = from_snapshot (read_at offset len f)
read_base hub none offset len = from_hub (hub offset len)

-- A dirty segment: the temp's bytes, padded by zeros where the temp is short.
pub read_dirty : File → ℕ → ℕ → List ℕ
read_dirty f start stop =
    let bytes = read_at start (stop - start) f in bytes ++ zeros ((stop - start) - length bytes)

-- A clean segment up to `stop`: zeros past the visible base, and otherwise the base.
read_clean : Hub → Overlay → ℕ → ℕ → Segment
unfolding read_base
read_clean hub w start stop =
    let visible = min w.base_size w.logical_size in
    if leb visible start
    then got (zeros (stop - start))
    else read_base hub w.base_temp start (min stop visible - start)

read_found : Hub → Overlay → ℕ → ℕ → NextDirty → Segment
unfolding read_clean
read_found hub w start stop (inside r) = got (read_dirty (temp_or_new w) start (min r.end stop))
read_found hub w start stop (before_next r) = read_clean hub w start (min r.start stop)
read_found hub w start stop past_last = read_clean hub w start stop

-- One turn of the loop at `start`, for a read that ends at `stop`.
pub read_segment : Hub → Overlay → ℕ → ℕ → Segment
unfolding read_found
read_segment hub w start stop = read_found hub w start stop (next_dirty_range start w.dirty)

after_segment : Segment → (List ℕ → Result (List ℕ)) → Result (List ℕ)
after_segment (got bytes) continue = continue bytes
after_segment (stuck e) continue = err e

append_to : List ℕ → Result (List ℕ) → Result (List ℕ)
append_to bytes (ok more) = ok (bytes ++ more)
append_to bytes (err e) = err e

-- The loop of readIntoLocked. Every turn fills at least one byte, so as much fuel as bytes is enough.
pub read_loop : ℕ → Hub → Overlay → ℕ → ℕ → Result (List ℕ)
unfolding after_segment append_to
read_loop zero hub w start stop = ok []
read_loop (suc fuel) hub w start stop =
    let turn =
      after_segment (read_segment hub w start stop)
        (λ bytes. append_to bytes (read_loop fuel hub w (start + length bytes) stop)) in
    if ltb start stop then turn else ok []

-- readIntoLocked: the bytes that land in a buffer of length `len`.
pub read_into : Hub → Overlay → ℕ → ℕ → Result (List ℕ)
read_into hub w off len =
    if leb w.logical_size off
    then ok []
    else read_loop len hub w off (off + min len (w.logical_size - off))
