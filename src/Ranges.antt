-- ===== src/Ranges.antt =====
-- Byte spans: internal/fs/range.go, internal/storage/byterange.go and the dirty-range list of
-- internal/fusefs/fuse_write_ranges.go. A span is half-open; offsets within a file are naturals,
-- and the raw offsets that a caller passes in (an int64) are `Int64`, which may be negative.
pub mod Cover
pub mod Merge
pub mod Mark
pub mod Insert
pub mod Query
pub mod Planned
pub mod Strategy
pub mod Tests
use storhub.Prelude.{
  ℕ, zero, suc, ◌+◌, ◌-◌, ◌*◌, ◌/◌, Bool, true, false, ◌&&◌, ◌||◌, List, [], ◌∷◌, ◌++◌, Option,
  none, some, ltb, leb, ◌==◌, if◌then◌else◌, length, min, max,
}

pub record ByteRange : Type 0 where
  pub start : ℕ
  pub end : ℕ

abbrev pub range : ℕ → ℕ → ByteRange
range s e = record { start = s; end = e }

-- A signed offset as a caller passes it: `minus n` is -(n + 1).
pub data Int64 : Type 0 where
  plus : ℕ → Int64
  minus : ℕ → Int64

pub data RangeResult : Type 0 where
  valid : ByteRange → RangeResult
  invalid_argument : RangeResult

-- ValidateByteRange: both ends are at least 0 and the end is not below the start.
unfoldable pub validate_byte_range : Int64 → Int64 → RangeResult
validate_byte_range (minus s) e = invalid_argument
validate_byte_range (plus s) (minus e) = invalid_argument
validate_byte_range (plus s) (plus e) = if ltb e s then invalid_argument else valid (range s e)

-- ByteRange.Len
pub range_len : ByteRange → ℕ
range_len r = r.end - r.start

-- The comparison that MergeByteRanges hands to sort.Slice.
pub range_less : ByteRange → ByteRange → Bool
range_less a b = if a.start == b.start then ltb a.end b.end else ltb a.start b.start

insert_range : ByteRange → List ByteRange → List ByteRange
insert_range r [] = r ∷ []
insert_range r (q ∷ qs) = if range_less q r then q ∷ insert_range r qs else r ∷ q ∷ qs

-- sort.Slice: spans that compare equal are equal, so every sort gives this list.
pub sort_ranges : List ByteRange → List ByteRange
sort_ranges [] = []
sort_ranges (r ∷ rs) = insert_range r (sort_ranges rs)

-- The loop of MergeByteRanges; `last` is the span that may still grow.
pub merge_loop : ByteRange → List ByteRange → List ByteRange
merge_loop last [] = last ∷ []
merge_loop last (r ∷ rs) =
    let grown = merge_loop (if ltb last.end r.end then record last { end = r.end } else last) rs in
    let apart = last ∷ merge_loop r rs in if leb r.start last.end then grown else apart

merge_sorted : List ByteRange → List ByteRange
merge_sorted [] = []
merge_sorted (r ∷ rs) = merge_loop r rs

-- MergeByteRanges
pub merge_byte_ranges : List ByteRange → List ByteRange
unfolding merge_sorted
merge_byte_ranges rs = merge_sorted (sort_ranges rs)

-- The first loop of markDirtyLocked: skip the spans that end before `start`.
pub skip_before : ℕ → List ByteRange → List ByteRange × List ByteRange
skip_before start [] = ([], [])
skip_before start (r ∷ rs) =
    let (before, rest) = skip_before start rs in
    if ltb r.end start then (r ∷ before, rest) else ([], r ∷ rs)

keep_touching : ℕ → ByteRange → List ByteRange × List ByteRange → List ByteRange × List ByteRange
keep_touching end r ([], after) = if ltb end r.start then ([], r ∷ after) else (r ∷ [], after)
keep_touching end r (q ∷ touching, after) = (r ∷ q ∷ touching, after)

-- The second loop, from the back: drop the spans that begin after `end`.
pub split_after : ℕ → List ByteRange → List ByteRange × List ByteRange
split_after end [] = ([], [])
split_after end (r ∷ rs) = keep_touching end r (split_after end rs)

pub last_end : ByteRange → List ByteRange → ℕ
last_end r [] = r.end
last_end r (q ∷ qs) = last_end q qs

pub hull_start : ℕ → List ByteRange → ℕ
hull_start start [] = start
hull_start start (r ∷ rs) = if ltb r.start start then r.start else start

pub hull_end : ℕ → List ByteRange → ℕ
unfolding last_end
hull_end end [] = end
hull_end end (r ∷ rs) = if ltb end (last_end r rs) then last_end r rs else end

-- markDirtyLocked past its two guards.
pub mark_span : ℕ → ℕ → List ByteRange → List ByteRange
mark_span start end dirty =
    let (before, rest) = skip_before start dirty in
    let (touching, after) = split_after end rest in
    before ++ range (hull_start start touching) (hull_end end touching) ∷ after

-- A negative start is taken for 0.
pub clamp_offset : Int64 → ℕ
clamp_offset (plus n) = n
clamp_offset (minus n) = 0

-- markDirtyLocked. `end <= start` also holds of every negative end, once start is at least 0.
pub mark_dirty : Int64 → Int64 → List ByteRange → List ByteRange
unfolding clamp_offset
mark_dirty start (minus e) dirty = dirty
mark_dirty start (plus e) dirty =
    if leb e (clamp_offset start) then dirty else mark_span (clamp_offset start) e dirty

-- truncateDirtyRangesLocked
pub truncate_dirty : ℕ → List ByteRange → List ByteRange
truncate_dirty size [] = []
truncate_dirty size (r ∷ rs) =
    let trimmed = truncate_dirty size rs in
    if leb size r.start
    then trimmed
    else (if ltb size r.end then record r { end = size } else r) ∷ trimmed

-- The loop of coversRangeLocked.
covers_loop : ℕ → ℕ → List ByteRange → Bool
covers_loop covered end [] = leb end covered
covers_loop covered end (r ∷ rs) =
    let skip = covers_loop covered end rs in
    let onward = covers_loop r.end end rs in
    if leb r.end covered
    then skip
    else if ltb covered r.start
    then false
    else if leb end r.end
    then true
    else onward

-- coversRangeLocked
pub covers_range : ℕ → ℕ → List ByteRange → Bool
unfolding covers_loop
covers_range start end dirty = if leb end start then true else covers_loop start end dirty

-- nextDirtyRangeLocked: inside a dirty span, before one, or past the last one (the span -1, -1).
pub data NextDirty : Type 0 where
  inside : ByteRange → NextDirty
  before_next : ByteRange → NextDirty
  past_last : NextDirty

pub next_dirty_range : ℕ → List ByteRange → NextDirty
next_dirty_range offset [] = past_last
next_dirty_range offset (r ∷ rs) =
    if leb r.start offset && ltb offset r.end
    then inside r
    else if ltb offset r.start
    then before_next r
    else next_dirty_range offset rs

-- totalByteRanges and dirtyBytesLocked
pub total_byte_ranges : List ByteRange → ℕ
total_byte_ranges [] = 0
total_byte_ranges (r ∷ rs) = (r.end - r.start) + total_byte_ranges rs

-- The loop of mergeByteRange in internal/storage/byterange.go; `cur` grows until it is inserted.
pub insert_loop : ByteRange → Bool → List ByteRange → List ByteRange
insert_loop cur inserted [] = if inserted then [] else cur ∷ []
insert_loop cur inserted (r ∷ rs) =
    let before = r ∷ insert_loop cur inserted rs in
    let after = insert_loop cur true rs in
    let grown = insert_loop (range (min r.start cur.start) (max r.end cur.end)) inserted rs in
    if ltb r.end cur.start
    then before
    else if ltb cur.end r.start
    then (if inserted then r ∷ after else cur ∷ r ∷ after)
    else grown

-- mergeByteRange of internal/storage
pub insert_byte_range : List ByteRange → ByteRange → List ByteRange
insert_byte_range existing next =
    if leb next.end next.start then existing else insert_loop next false existing

-- mergeByteRange of internal/fusefs: append, then MergeByteRanges.
pub merge_byte_range : List ByteRange → ByteRange → List ByteRange
merge_byte_range existing next =
    if leb next.end next.start then existing else merge_byte_ranges (existing ++ next ∷ [])

-- rangeOverlapsAny of internal/storage/patch.go
pub range_overlaps_any : ByteRange → List ByteRange → Bool
range_overlaps_any target [] = false
range_overlaps_any target (r ∷ rs) =
    if leb r.end target.start
    then range_overlaps_any target rs
    else if leb target.end r.start
    then false
    else true

-- The body of the loop of plannedRangesLocked: a dirty span widened to chunk borders below the base.
pub plan_range : ℕ → ℕ → ByteRange → ByteRange
plan_range chunk_size base_size dirty =
    let start =
      if ltb dirty.start base_size then dirty.start / chunk_size * chunk_size else dirty.start in
    let rounded = (dirty.end + chunk_size - 1) / chunk_size * chunk_size in
    let capped = if ltb base_size rounded then base_size else rounded in
    let wide = if ltb dirty.end base_size then capped else dirty.end in
    range start (if ltb wide dirty.end then dirty.end else wide)

plan_loop : ℕ → ℕ → List ByteRange → List ByteRange → List ByteRange
plan_loop chunk_size base_size planned [] = planned
plan_loop chunk_size base_size planned (d ∷ ds) =
    plan_loop chunk_size base_size (merge_byte_range planned (plan_range chunk_size base_size d)) ds

-- plannedRangesLocked
pub planned_ranges : ℕ → ℕ → List ByteRange → List ByteRange
unfolding plan_loop
planned_ranges chunk_size base_size dirty = plan_loop chunk_size base_size [] dirty

-- shouldReplaceLocked, with the thresholds 3/4, 12 spans over 1/3, and 1/2.
pub should_replace : ℕ → ℕ → List ByteRange → List ByteRange → Bool
should_replace base_size logical_size dirty planned =
    let file_size = max base_size logical_size in
    let dirty_bytes = total_byte_ranges dirty in
    if file_size == 0
    then false
    else if leb (file_size * 3) (dirty_bytes * 4)
    then true
    else if leb 12 (length planned) && leb (file_size * 1) (dirty_bytes * 3)
    then true
    else if leb (file_size * 1) (dirty_bytes * 2)
    then true
    else false

-- shouldChunkRewriteLocked
pub should_chunk_rewrite : ℕ → ℕ → List ByteRange → Bool
should_chunk_rewrite base_size logical_size planned =
    if length planned == 0
    then false
    else if leb 4 (length planned)
    then true
    else if leb 2 (length planned)
        && ltb (total_byte_ranges planned) (max base_size logical_size / 2)
    then true
    else false
