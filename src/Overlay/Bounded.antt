-- ===== src/Overlay/Bounded.antt =====
-- ensureDirtyBounded, coalesceDirtyLocked and backfillGapLocked: past the cap on spans the dirty set
-- collapses to one, after the clean gaps are copied from the base into the temp.
pub mod Laws
use storhub.Prelude.{
  ℕ, zero, suc, ◌+◌, ◌-◌, ◌≤◌, ◌<◌, Bool, true, false, ◌&&◌, ◌||◌, not, List, [], ◌∷◌, ◌++◌, Option,
  none, some, ◌≡◌, arith, ltb, leb, ◌==◌, if◌then◌else◌, min, max, length, Bool-cases, inl, inr,
  refl, ap, sym, ◌∙◌,
}
use storhub.Ranges.{ByteRange, range}
use storhub.Ranges.Cover.{covers, within, Gapped, IsCanonical, covers_below}
use storhub.LocalFile.{
  File, byte_at, truncate, slice, length-slice, write_at, byte_at-write_at, byte_at-truncate,
  byte_or_zero,
}
use storhub.Overlay.{
  Overlay, Hub, temp_or_new, read_base, Segment, got, stuck, Result, ok, err, ◌>>=◌,
  max_dirty_ranges,
}
use storhub.Overlay.View.{view, Serves, Snapshots, IsOver}
use storhub.Overlay.Read.{read_base_lem}

backfill_page : Segment → (List ℕ → Result File) → Result File
backfill_page (got bytes) continue = continue bytes
backfill_page (stuck e) continue = err e

-- The loop of backfillGapLocked: a page, or what is left, is read and written at its offset.
backfill_loop : ℕ → Hub → ℕ → Option File → ℕ → ℕ → File → Result File
unfolding backfill_page
backfill_loop zero hub page snapshot offset to f = ok f
backfill_loop (suc fuel) hub page snapshot offset to f =
    let want = if ltb (to - offset) page then to - offset else page in
    let turn = backfill_page (read_base hub snapshot offset want) (λ bytes.
      backfill_loop fuel hub page snapshot (offset + length bytes) to (write_at bytes offset f)) in
    if ltb offset to then turn else ok f

-- backfillGapLocked
backfill_gap : Hub → ℕ → Option File → ℕ → ℕ → ℕ → File → Result File
backfill_gap hub page snapshot base_size from to f =
    let top = if ltb base_size to then base_size else to in
    if leb top from then ok f else backfill_loop (top - from) hub page snapshot from top f

-- The gaps of coalesceDirtyLocked: before each span, and behind the last one.
backfill_gaps : Hub → ℕ → Option File → ℕ → ℕ → ℕ → List ByteRange → File → Result File
unfolding backfill_gap
backfill_gaps hub page snapshot base_size logical pos [] f =
    backfill_gap hub page snapshot base_size pos logical f
backfill_gaps hub page snapshot base_size logical pos (r ∷ rs) f = do
  f' ← backfill_gap hub page snapshot base_size pos r.start f
  backfill_gaps hub page snapshot base_size logical r.end rs f'

-- The one span of a collapsed dirty set.
whole_file : ℕ → List ByteRange
whole_file n = if n == 0 then [] else range 0 n ∷ []

-- coalesceDirtyLocked
pub coalesce_dirty : Hub → ℕ → Overlay → Result Overlay
coalesce_dirty hub page w = do
  f ← backfill_gaps hub page w.base_temp w.base_size w.logical_size 0 w.dirty (temp_or_new w)
  ok (record w {
    temp = some (truncate w.logical_size f);
    dirty = whole_file w.logical_size;
    temp_authoritative = true;
  })

-- ensureDirtyBounded
pub ensure_dirty_bounded : Hub → ℕ → Overlay → Result Overlay
ensure_dirty_bounded hub page w =
    if leb (length w.dirty) max_dirty_ranges
    then ok w
    else if w.temp_authoritative
    then ok (record w { dirty = whole_file w.logical_size })
    else coalesce_dirty hub page w
