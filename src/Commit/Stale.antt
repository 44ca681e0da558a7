-- ===== src/Commit/Stale.antt =====
-- The snapshot behind a commit by a patch: commitPatch of internal/fusefs/fuse_write_commit.go.
use storhub.Prelude.{
  ℕ, ◌<◌, true, List, [], ◌∷◌, some, ◌≡◌, ◌≢◌, Option, none, refl, ap, sym, ◌∙◌, arith,
}
use storhub.LocalFile.{File, byte_at, truncate}
use storhub.Ranges.{ByteRange}
use storhub.Ranges.Cover.{within, covers}
use storhub.Overlay.{Overlay, temp_or_new}
use storhub.Overlay.View.{view, Snapshots, IsOver}
use storhub.Commit.Refresh.{shown}
use storhub.Commit.Removed.{consume_dirty-one}
use storhub.Commit.{
  consume_dirty, refresh_spans, refresh_base_snapshot, refresh_from, refreshed,
  commit_cache_refresh, patch_cache_refresh,
}

stale_snapshot :
    (page : ℕ) (spare : List ByteRange) (f : File) (w : Overlay) (r : ByteRange)
    → w.dirty ≡ r ∷ []
    → w.base_temp ≡ some f
    → r.start < r.end
    → (patch_cache_refresh page spare w).base_temp ≡ some (truncate w.logical_size f)
unfolding patch_cache_refresh commit_cache_refresh refresh_base_snapshot refresh_from
stale_snapshot page spare f w r d s n =
    let none_left = ap (consume_dirty spare) d ∙ consume_dirty-one spare r n in
    ap
      (λ (left : List ByteRange).
        refreshed (refresh_from page record w { dirty = left } w.base_temp))
      none_left
    ∙ ap (λ (t : Option File). refreshed (refresh_from page record w { dirty = [] } t)) s
    ∙ unfold refresh_spans in refl

covered :
    (w : Overlay) (r : ByteRange) (x : ℕ)
    → w.dirty ≡ r ∷ []
    → within r x ≡ true
    → covers w.dirty x ≡ true
unfolding covers
covered w r x d i = rw (d, i) refl

shown_byte :
    (base : File) (w : Overlay) (r : ByteRange) (x : ℕ)
    → w.dirty ≡ r ∷ []
    → x < w.logical_size
    → within r x ≡ true
    → byte_at (shown base w) x ≡ byte_at (temp_or_new w) x
unfolding shown view byte_at
shown_byte base w r x d l i = ground (arith, covered w r x d i, l)

snapshot_bytes :
    (base : File) (o : Option File) (g : File)
    → o ≡ some g
    → Snapshots o base
    → (x : ℕ) → x < base.size
    → g.byte x ≡ byte_at base x
snapshot_bytes base none g e h x l = absurd (ground (arith, e))
snapshot_bytes base (some f) g e h x l = ap (λ (o : Option File). or_file f o x) (sym e) ∙ h.1 x l
  where
    or_file : File → Option File → ℕ → ℕ
    or_file f none x = f.byte x
    or_file f (some g) x = g.byte x

-- A commit by a patch of one dirty span, over an overlay with a local snapshot of the committed file,
-- leaves the snapshot as it was and nothing dirty: where a byte of the span differs from the
-- snapshot's, the overlay does not stand over the file that holds what the open file showed.
pub patch_cache_refresh-stale :
    (page : ℕ) (spare : List ByteRange) (base f : File) (w : Overlay) (r : ByteRange) (x : ℕ)
    → w.dirty ≡ r ∷ []
    → w.base_temp ≡ some f
    → r.start < r.end
    → x < w.logical_size
    → within r x ≡ true
    → byte_at (temp_or_new w) x ≢ byte_at f x
    → ((patch_cache_refresh page spare w).dirty ≡ [])
      × ((patch_cache_refresh page spare w).base_temp ≡ some (truncate w.logical_size f))
      × (¬ IsOver (shown base w) (patch_cache_refresh page spare w))
patch_cache_refresh-stale page spare base f w r x d s n l i differs =
    let left = stale_snapshot page spare f w r d s n in
    (
      unfold patch_cache_refresh commit_cache_refresh in refl,
      left,
      λ over. differs (
          sym (shown_byte base w r x d l i)
          ∙ sym (
              snapshot_bytes (shown base w) _ (truncate w.logical_size f) left over.snapshot x
                (unfold shown in l))
          ∙ unfold truncate in refl),
    )
