-- ===== src/Overlay/Write.antt =====
-- storhubHandle.Write of internal/fusefs/fuse_write_commit.go on the overlay: the append rule, the
-- zero gap, the bytes, the new size, the dirty mark and the bound on spans. The staging of cleared
-- mode bits and the commit of an O_SYNC write are not part of the content.
pub mod Laws
use storhub.Prelude.{
  ℕ, ◌+◌, Bool, true, false, ◌&&◌, List, [], ◌∷◌, Option, some, ltb, leb, if◌then◌else◌, length,
}
use storhub.Ranges.{mark_dirty, plus}
use storhub.LocalFile.{write_at}
use storhub.Overlay.{Overlay, Hub, temp_or_new, ensure_temp, set_logical_size, Result, ok, err, eio}
use storhub.Overlay.Bounded.{ensure_dirty_bounded}

-- Where the bytes land: at the end of the file for an O_APPEND write that does not point inside it.
unfoldable pub write_offset : Bool → ℕ → Overlay → ℕ
write_offset append off w = if append && leb w.logical_size off then w.logical_size else off

size_at_least : ℕ → Overlay → Overlay
size_at_least end w = if ltb w.logical_size end then set_logical_size end w else w

marked : ℕ → ℕ → Overlay → Overlay
marked from to w = record w { dirty = mark_dirty (plus from) (plus to) w.dirty }

-- A write past the end first grows the file; the gap is dirty, and reads as zeros.
fill_gap : ℕ → Overlay → Overlay
unfolding marked
fill_gap off w =
    if ltb w.logical_size off then marked w.logical_size off (set_logical_size off w) else w

-- temp.WriteAt, the new size, and the dirty mark.
put_bytes : List ℕ → ℕ → Overlay → Overlay
unfolding size_at_least marked
put_bytes bytes off w =
    let end = off + length bytes in
    marked off end
      (size_at_least end (record w { temp = some (write_at bytes off (temp_or_new w)) }))

-- Write
pub write : Hub → ℕ → Bool → List ℕ → ℕ → Overlay → Result Overlay
unfolding fill_gap put_bytes
write hub page append bytes off w =
    let start = write_offset append off w in
    if w.poisoned
    then err eio
    else ensure_dirty_bounded hub page (put_bytes bytes start (fill_gap start (ensure_temp w)))
