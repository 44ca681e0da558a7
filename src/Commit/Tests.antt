-- ===== src/Commit/Tests.antt =====
-- Runs and instances for a commit that patches: internal/fusefs/fuse_write_commit.go.
use storhub.Prelude.{
  ℕ, zero, suc, inl, ◌+◌, ◌≤◌, ◌<◌, false, List, [], ◌∷◌, ◌≡◌, refl, none, some, arith, length,
  if◌then◌else◌,
}
use storhub.LocalFile.{File, truncate, slice, byte_at, byte_or_zero}
use storhub.Ranges.{range}
use storhub.Ranges.Cover.{covers, within}
use storhub.Overlay.{Overlay, ok, temp_or_new}
use storhub.Overlay.View.{view, IsOver, IsSound}
use storhub.Overlay.Tests.{four_bytes, one_byte_hub, one_byte_hub-Serves}
use storhub.Playlist.{ChunkInfo, splice_edit, splice_chunks, splice_chunk, chunk_end, shift_offset}
use storhub.Playlist.Content.{Assets, content, holds, chunk_byte}
use storhub.Playlist.Sorted.{IsDisjoint}
use storhub.Commit.{
  RangeEdit, patch_edits, patch_file_ranges, admits_edits, shape_ok, fits_size, fold_edits,
  build_patched_range_chunks, total_delete, total_insert, Upload, commit_cache_refresh,
  patch_cache_refresh, consume_dirty, remove_dirty_range, remove_loop, kept_of,
}
use storhub.Commit.Spans.{page_spans, all_spans}
use storhub.Commit.Edits.{patch_file_ranges-refuses, patch_edits-dirty}
use storhub.Commit.Batch.{patch_file_ranges-content}
use storhub.Commit.Stored.{IsStored}
use storhub.Commit.Removed.{consume_dirty-first}
use storhub.Commit.Stale.{patch_cache_refresh-stale}
use storhub.Commit.Refresh.{Exact, shown, commit_cache_refresh_lem}

abbrev eight_sevens : File
eight_sevens = record { size = 8; byte = λ x. 7 }

-- The four bytes, with 7s from offset 2 up to this size.
abbrev grown : ℕ → Overlay
grown size = record {
  temp = some record { size = size; byte = λ x. 7 };
  base_temp = none;
  poisoned = false;
  base_size = 4;
  logical_size = size;
  dirty = range 2 size ∷ [];
  temp_authoritative = false;
}

grown-IsOver : (n : ℕ) → 2 < n → IsOver four_bytes (grown n)
grown-IsOver n h = record { canonical = (omega arith, h, tt); base_is = refl; snapshot = tt }

grown-IsSound : (n : ℕ) → 2 < n → IsSound (grown n)
unfolding covers within temp_or_new byte_at
grown-IsSound n h = record {
  sorted = (omega arith, h, tt);
  below = λ x c. ground (arith, c);
  temp_fits = omega arith;
  full = λ e x l c. ground (arith, e);
  holes = λ x c l. ground (arith, c);
}

abbrev one_chunk : List ChunkInfo
one_chunk = record { asset = 1; offset = 0; size = 4; asset_offset = 0 } ∷ []

-- Each upload is an asset of its own, and all of their bytes are 7.
abbrev as_one_chunk : Upload
as_one_chunk off bytes =
    record { asset = 2 + off; offset = off; size = length bytes; asset_offset = 0 } ∷ []

abbrev all_sevens : Assets
all_sevens asset i = 7

-- In pages of 2, the page at offset 6 starts past the committed file's end.
patch_file_ranges-refuses_example :
    (edits : List RangeEdit) × (patch_edits one_byte_hub (grown 8) 2 (grown 8).dirty ≡ ok edits)
    × (patch_file_ranges as_one_chunk 4 one_chunk edits ≡ none)
unfolding covers within
patch_file_ranges-refuses_example =
    patch_file_ranges-refuses one_byte_hub four_bytes one_byte_hub-Serves 2 (omega arith) (grown 8)
      (grown-IsOver 8 (omega arith)) (grown-IsSound 8 (omega arith)) as_one_chunk one_chunk 6 refl
      (omega arith)

abbrev two_edits : List RangeEdit
two_edits =
    record { start = 2; delete_size = 2; bytes = 7 ∷ 7 ∷ [] }
    ∷ record { start = 4; delete_size = 0; bytes = 7 ∷ 7 ∷ [] }
    ∷ []

-- After the commit by a patch, which has consumed the dirty set.
commit_cache_refresh_lem_example :
    IsOver (shown four_bytes (grown 6)) (commit_cache_refresh 2 6 record (grown 6) { dirty = [] })
    × IsSound (commit_cache_refresh 2 6 record (grown 6) { dirty = [] })
    × Exact
        (commit_cache_refresh 2 6 record (grown 6) { dirty = [] }).base_temp
        (shown four_bytes (grown 6))
    × ((x : ℕ)
        → view
            (shown four_bytes (grown 6))
            (commit_cache_refresh 2 6 record (grown 6) { dirty = [] })
            x
          ≡ view four_bytes (grown 6) x)
commit_cache_refresh_lem_example =
    commit_cache_refresh_lem 2 four_bytes (grown 6) [] (grown-IsOver 6 (omega arith))
      (grown-IsSound 6 (omega arith)) tt (inl refl)

abbrev with_snapshot : Overlay
with_snapshot = record (grown 6) { base_temp = some four_bytes }

-- At offset 2 the snapshot keeps 67, where the open file shows 7.
patch_cache_refresh-stale_example :
    ((patch_cache_refresh 2 [] with_snapshot).dirty ≡ [])
    × ((patch_cache_refresh 2 [] with_snapshot).base_temp ≡ some (truncate 6 four_bytes))
    × (¬ IsOver (shown four_bytes with_snapshot) (patch_cache_refresh 2 [] with_snapshot))
unfolding within temp_or_new byte_at
patch_cache_refresh-stale_example =
    patch_cache_refresh-stale 2 [] four_bytes four_bytes with_snapshot (range 2 6) 2 refl refl
      (omega arith) (omega arith) refl (λ e. omega (arith, e))

-- Spans 0-1, 2-3 and 4-5: the one in the middle is left.
three_spans_consumed : consume_dirty [] (range 0 1 ∷ range 2 3 ∷ range 4 5 ∷ []) ≡ range 2 3 ∷ []
three_spans_consumed =
    (consume_dirty-first (range 0 1) (range 2 3) (range 4 5) []
      (omega arith, omega arith, (omega arith, omega arith, (omega arith, omega arith, tt)))).2

-- The removal of 3-5 splits the first span over the second, which is lost.
split_span_lost :
    remove_dirty_range 3 5 (range 0 10 ∷ range 20 30 ∷ [])
    ≡ range 0 3 ∷ range 5 10 ∷ range 5 10 ∷ []
unfolding remove_dirty_range remove_loop kept_of
split_span_lost = refl

two_edits_made : patch_edits one_byte_hub (grown 6) 2 (grown 6).dirty ≡ ok two_edits
unfolding all_spans page_spans view slice covers within temp_or_new byte_at
two_edits_made =
    patch_edits-dirty one_byte_hub four_bytes one_byte_hub-Serves 2 (omega arith) (grown 6)
      (grown-IsOver 6 (omega arith)) (grown-IsSound 6 (omega arith))

two_edits_apart : IsDisjoint (fold_edits as_one_chunk 0 0 one_chunk two_edits)
unfolding fold_edits splice_edit splice_chunks splice_chunk chunk_end shift_offset
two_edits_apart =
    ((inl (omega arith), (inl (omega arith), tt)), ((inl (omega arith), tt), (tt, tt)))

two_edits_patched :
    patch_file_ranges as_one_chunk 4 one_chunk two_edits
    ≡ some (6, build_patched_range_chunks as_one_chunk one_chunk two_edits)
unfolding patch_file_ranges admits_edits shape_ok fits_size total_delete total_insert
two_edits_patched = refl

sevens_IsStored :
    (start delete_size : ℕ)
    → IsStored all_sevens as_one_chunk
        (record { start = start; delete_size = delete_size; bytes = 7 ∷ 7 ∷ [] })
unfolding content holds chunk_byte byte_or_zero
sevens_IsStored start delete_size = record {
  inside = ((omega arith, omega arith), tt);
  stored = λ i l. sevens_stored start i l;
}
  where
    sevens_stored :
        (start i : ℕ)
        → i < 2
        → content all_sevens (as_one_chunk start (7 ∷ 7 ∷ [])) (start + i)
          ≡ some (byte_or_zero (7 ∷ 7 ∷ []) i)
    sevens_stored start zero l = ground arith
    sevens_stored start (suc zero) l = ground arith
    sevens_stored start (suc (suc i)) l = absurd (omega arith)

past_one_chunk : (y : ℕ) → 4 ≤ y → content all_sevens one_chunk y ≡ none
unfolding content holds
past_one_chunk y l = ground arith

patch_file_ranges-content_example :
    content all_sevens (build_patched_range_chunks as_one_chunk one_chunk two_edits) 5 ≡ (
      if covers (grown 6).dirty 5
      then some (view four_bytes (grown 6) 5)
      else content all_sevens one_chunk 5)
patch_file_ranges-content_example =
    patch_file_ranges-content one_byte_hub four_bytes one_byte_hub-Serves 2 (omega arith) (grown 6)
      (grown-IsOver 6 (omega arith)) (grown-IsSound 6 (omega arith)) all_sevens as_one_chunk
      one_chunk two_edits 6 (build_patched_range_chunks as_one_chunk one_chunk two_edits)
      (sevens_IsStored 2 2, (sevens_IsStored 4 0, tt)) past_one_chunk two_edits_made two_edits_apart
      two_edits_patched 5
