-- ===== src/Commit.antt =====
-- The commit of an overlay by a patch: commitPatch, removeDirtyRangeLocked and commitCacheRefreshLocked
-- of internal/fusefs/fuse_write_commit.go, refreshBaseSnapshotLocked of internal/fusefs/fuse_write.go,
-- and behind the hub PatchFileRangesContext of internal/storage/verbs_upload.go and
-- buildPatchedRangeChunks of internal/storage/patch.go. The upload of bytes as chunks is a parameter.
pub mod Spans
pub mod Edits
pub mod Stored
pub mod Batch
pub mod Removed
pub mod Copies
pub mod Refresh
pub mod Stale
pub mod Tests
use storhub.Prelude.{
  ℕ, zero, suc, ◌+◌, ◌-◌, Bool, true, false, ◌&&◌, ◌||◌, not, List, [], ◌∷◌, ◌++◌, Option, none,
  some, ltb, leb, ◌==◌, if◌then◌else◌, length, min, stored_at,
}
use storhub.LocalFile.{File, truncate, write_at, read_at, zeros}
use storhub.Ranges.{ByteRange, range}
use storhub.Overlay.{Overlay, Hub, temp_or_new, read_into, Result, ok, err, eio, no_progress, ◌>>=◌}
use storhub.Playlist.{ChunkInfo, splice_edit, finalize_playlist}

-- RangeEdit
pub record RangeEdit : Type 0 where
  pub start : ℕ
  pub delete_size : ℕ
  pub bytes : List ℕ

-- RangeEdit.End
abbrev pub edit_end : RangeEdit → ℕ
edit_end e = e.start + e.delete_size

-- Where the page at this offset of a span ends.
abbrev pub page_end : ℕ → ℕ → ℕ → ℕ
page_end page offset stop = if ltb stop (offset + page) then stop else offset + page

-- The bytes of the committed file that a page replaces.
abbrev pub delete_of : ℕ → ℕ → ℕ → ℕ
delete_of base_size offset end =
    if leb base_size offset
    then 0
    else if ltb (base_size - offset) (end - offset)
    then base_size - offset
    else end - offset

-- One turn of the inner loop of commitPatch, on the bytes that readIntoLocked gave.
unfoldable pub page_edit : Overlay → ℕ → ℕ → List ℕ → Result RangeEdit
unfolding zeros
page_edit w offset end bytes =
    if ltb (length bytes) (end - offset) && ltb (offset + length bytes) w.logical_size
    then err eio
    else ok record {
      start = offset;
      delete_size = delete_of w.base_size offset end;
      bytes = bytes ++ zeros ((end - offset) - length bytes);
    }

-- The inner loop of commitPatch. A page is not empty, so as much fuel as bytes is enough.
unfoldable pub page_edits : ℕ → Hub → Overlay → ℕ → ℕ → ℕ → Result (List RangeEdit)
unfolding page_edit
page_edits zero hub w page offset stop = ok []
page_edits (suc fuel) hub w page offset stop =
    let end = page_end page offset stop in
    let turn = (do
      bytes ← read_into hub w offset (end - offset)
      edit ← page_edit w offset end bytes
      more ← page_edits fuel hub w page end stop
      ok (edit ∷ more)) in
    if ltb offset stop then turn else ok []

-- The loop of commitPatch over the dirty spans.
unfoldable pub patch_edits : Hub → Overlay → ℕ → List ByteRange → Result (List RangeEdit)
unfolding page_edits
patch_edits hub w page [] = ok []
patch_edits hub w page (dirty ∷ planned) = do
  edits ← page_edits (dirty.end - dirty.start) hub w page dirty.start dirty.end
  more ← patch_edits hub w page planned
  ok (edits ++ more)

abbrev pub is_nil : List RangeEdit → Bool
is_nil [] = true
is_nil (e ∷ edits) = false

-- The checks of PatchFileRangesContext on a batch and, in `fits_size`, on the size of the file.
unfoldable pub shape_ok : ℕ → List RangeEdit → Bool
shape_ok before [] = true
shape_ok before (e ∷ edits) =
    not ((e.delete_size == 0) && (length e.bytes == 0))
    && leb before e.start
    && shape_ok (edit_end e) edits

unfoldable pub fits_size : ℕ → List RangeEdit → Bool
fits_size size [] = true
fits_size size (e ∷ edits) = leb (edit_end e) size && fits_size size edits

unfoldable pub admits_edits : ℕ → List RangeEdit → Bool
unfolding shape_ok fits_size
admits_edits size edits = not (is_nil edits) && shape_ok 0 edits && fits_size size edits

-- The upload of bytes that are to stand at an offset of the file.
abbrev pub Upload : Type 0
Upload = ℕ → List ℕ → List ChunkInfo

-- The loop of buildPatchedRangeChunks; its shift is what was inserted less what was deleted.
unfoldable pub fold_edits : Upload → ℕ → ℕ → List ChunkInfo → List RangeEdit → List ChunkInfo
fold_edits upload inserted deleted chunks [] = chunks
fold_edits upload inserted deleted chunks (e ∷ edits) =
    let at = e.start + inserted - deleted in
    fold_edits upload (inserted + length e.bytes) (deleted + e.delete_size)
      (splice_edit chunks at e.delete_size (length e.bytes) (upload at e.bytes)) edits

-- buildPatchedRangeChunks
unfoldable pub build_patched_range_chunks :
    Upload → List ChunkInfo → List RangeEdit → List ChunkInfo
unfolding fold_edits
build_patched_range_chunks upload chunks edits =
    finalize_playlist (fold_edits upload 0 0 chunks edits)

unfoldable pub total_delete : List RangeEdit → ℕ
total_delete [] = 0
total_delete (e ∷ edits) = e.delete_size + total_delete edits

unfoldable pub total_insert : List RangeEdit → ℕ
total_insert [] = 0
total_insert (e ∷ edits) = length e.bytes + total_insert edits

-- PatchFileRangesContext on a file of this size and playlist: its new size and playlist, or none.
unfoldable pub patch_file_ranges :
    Upload → ℕ → List ChunkInfo → List RangeEdit → Option (ℕ × List ChunkInfo)
unfolding admits_edits build_patched_range_chunks total_delete total_insert
patch_file_ranges upload size chunks edits =
    if admits_edits size edits
    then some (
      size + total_insert edits - total_delete edits,
      build_patched_range_chunks upload chunks edits,
    )
    else none

-- What removeDirtyRangeLocked keeps of one span.
unfoldable pub kept_of : ℕ → ℕ → ByteRange → List ByteRange
kept_of start end r =
    if leb r.end start || leb end r.start
    then r ∷ []
    else (if ltb r.start start then range r.start start ∷ [] else [])
      ++ (if ltb end r.end then range end r.end ∷ [] else [])

-- The loop of removeDirtyRangeLocked. It filters the spans in place, `dirtyRanges[:0]`, so what it has
-- kept stands over the first spans: what it has kept, the position it reads, and what stood from there
-- on.
unfoldable pub remove_loop : ℕ → ℕ → List ByteRange → ℕ → List ByteRange → List ByteRange
unfolding kept_of
remove_loop start end kept i [] = kept
remove_loop start end kept i (r ∷ rest) =
    remove_loop start end (kept ++ kept_of start end (stored_at kept i r)) (suc i) rest

-- removeDirtyRangeLocked
unfoldable pub remove_dirty_range : ℕ → ℕ → List ByteRange → List ByteRange
unfolding remove_loop
remove_dirty_range start end dirty = remove_loop start end [] 0 dirty

-- The spans that commitPatch reads, which are the dirty set's own: an array, up to its capacity, and
-- the dirty set, which is the first part of that array until an append outgrows it.
pub record Consuming : Type 0 where
  pub array : List ByteRange
  pub dirty : List ByteRange
  pub shared : Bool

abbrev pub overwritten : List ByteRange → List ByteRange → List ByteRange
overwritten [] array = array
overwritten (k ∷ kept) [] = []
overwritten (k ∷ kept) (r ∷ array) = k ∷ overwritten kept array

unfoldable pub consume_range : ByteRange → Consuming → Consuming
unfolding remove_dirty_range
consume_range r c =
    let kept = remove_dirty_range r.start r.end c.dirty in
    record {
      array = if c.shared then overwritten kept c.array else c.array;
      dirty = kept;
      shared = c.shared && leb (length kept) (length c.array);
    }

-- The loop of commitPatch that consumes the spans, over the spans that were planned.
unfoldable pub consume_loop : ℕ → List ByteRange → Consuming → Consuming
unfolding consume_range
consume_loop i [] c = c
consume_loop i (r ∷ planned) c =
    consume_loop (suc i) planned (consume_range (stored_at c.array i r) c)

-- The dirty set behind that loop, of an array with this much spare capacity.
unfoldable pub consume_dirty : List ByteRange → List ByteRange → List ByteRange
unfolding consume_loop
consume_dirty spare dirty =
    (consume_loop 0 dirty record { array = dirty ++ spare; dirty = dirty; shared = true }).dirty

-- The inner loop of refreshBaseSnapshotLocked: a page of the temp, written at its offset.
unfoldable pub refresh_write : List ℕ → ℕ → File → (File → Result File) → Result File
refresh_write [] offset snapshot on = err no_progress
refresh_write (b ∷ bytes) offset snapshot on = on (write_at (b ∷ bytes) offset snapshot)

unfoldable pub refresh_span : ℕ → ℕ → File → ℕ → ℕ → File → Result File
unfolding refresh_write read_at
refresh_span zero page temp offset stop snapshot = ok snapshot
refresh_span (suc fuel) page temp offset stop snapshot =
    let want = if ltb (stop - offset) page then stop - offset else page in
    let bytes = read_at offset want temp in
    let turn =
      refresh_write bytes offset snapshot
        (λ f. refresh_span fuel page temp (offset + length bytes) stop f) in
    if ltb offset stop then turn else ok snapshot

unfoldable pub refresh_spans : ℕ → File → List ByteRange → File → Result File
unfolding refresh_span
refresh_spans page temp [] snapshot = ok snapshot
refresh_spans page temp (r ∷ dirty) snapshot = do
  f ← refresh_span (r.end - r.start) page temp r.start r.end snapshot
  refresh_spans page temp dirty f

unfoldable pub refresh_from : ℕ → Overlay → Option File → Result (Option File)
unfolding refresh_spans
refresh_from page w none = ok none
refresh_from page w (some f) = do
  g ← refresh_spans page (temp_or_new w) w.dirty (truncate w.logical_size f)
  ok (some g)

-- refreshBaseSnapshotLocked: the new snapshot, where there is one.
unfoldable pub refresh_base_snapshot : ℕ → Overlay → Result (Option File)
unfolding refresh_from
refresh_base_snapshot page w = refresh_from page w w.base_temp

-- A failed refresh drops the snapshot.
abbrev pub refreshed : Result (Option File) → Option File
refreshed (ok snapshot) = snapshot
refreshed (err e) = none

-- commitCacheRefreshLocked
unfoldable pub commit_cache_refresh : ℕ → ℕ → Overlay → Overlay
unfolding refresh_base_snapshot
commit_cache_refresh page logical_size w = record w {
  base_temp = refreshed (refresh_base_snapshot page w);
  base_size = logical_size;
  dirty = [];
  temp_authoritative = false;
}

-- What commitPatch does to the overlay once the storage has the edits and the size.
unfoldable pub patch_cache_refresh : ℕ → List ByteRange → Overlay → Overlay
unfolding consume_dirty commit_cache_refresh
patch_cache_refresh page spare w =
    commit_cache_refresh page w.logical_size record w { dirty = consume_dirty spare w.dirty }
