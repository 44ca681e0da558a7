-- ===== src/Commit/Refresh.antt =====
-- The overlay behind a commit: commitCacheRefreshLocked of internal/fusefs/fuse_write_commit.go and
-- refreshBaseSnapshotLocked of internal/fusefs/fuse_write.go.
use storhub.Prelude.{
  ℕ, ◌≤◌, ◌<◌, false, List, [], ◌≡◌, ◌⊎◌, inl, inr, refl, arith, All, Option, none, some,
}
use storhub.LocalFile.{File, byte_at, truncate}
use storhub.Ranges.{ByteRange}
use storhub.Ranges.Cover.{covers}
use storhub.Overlay.{Overlay, temp_or_new, Result, ok, err, ◌>>=◌}
use storhub.Overlay.View.{view, Snapshots, IsOver, IsSound}
use storhub.Commit.{
  refresh_spans, refresh_base_snapshot, refresh_from, refreshed, commit_cache_refresh,
}
use storhub.Commit.Copies.{IsCopy, Copies, refresh_spans-Copies}
use storhub.Commit.Edits.{ends_within}

-- The file that a commit of the overlay leaves behind the hub: the bytes that the open file shows.
unfoldable pub shown : File → Overlay → File
unfolding view
shown base w = record { size = w.logical_size; byte = view base w }

-- A local snapshot of the committed file has its size.
abbrev pub Exact : Option File → File → Type 0
Exact none base = Unit
Exact (some f) base = f.size ≡ base.size

snapshot_byte :
    (base : File) (w : Overlay) (f g : File)
    → IsOver base w
    → Snapshots (some f) base
    → f.size ≡ base.size
    → IsCopy (temp_or_new w) (covers w.dirty) (truncate w.logical_size f) g
    → (x : ℕ) → x < w.logical_size
    → g.byte x ≡ byte_at (shown base w) x
unfolding shown truncate byte_at view
snapshot_byte base w f g over snap size c x l =
    ground (arith, c.byte x, c.size, snap.1 x, size, over.base_is)

snapshot_of :
    (page : ℕ) (base : File) (w : Overlay) (f : File) (r : Result File)
    → IsOver base w
    → Snapshots (some f) base
    → f.size ≡ base.size
    → Copies (temp_or_new w) (covers w.dirty) (truncate w.logical_size f) r
    → Snapshots (refreshed (r >>= (λ g. ok (some g)))) (shown base w)
      × Exact (refreshed (r >>= (λ g. ok (some g)))) (shown base w)
unfolding shown truncate
snapshot_of page base w f (err e) over snap size c = (tt, tt)
snapshot_of page base w f (ok g) over snap size c =
    ((omega (arith, c.size), snapshot_byte base w f g over snap size c), c.size)

past_temp : (f : File) (n x : ℕ) → f.size ≤ n → n ≤ x → byte_at f x ≡ 0
unfolding byte_at
past_temp f n x h l = ground arith

same_view :
    (base : File) (w : Overlay) (snapshot : Option File)
    → IsSound w
    → (x : ℕ)
    → view
        (shown base w)
        (record w {
          base_temp = snapshot;
          base_size = w.logical_size;
          dirty = [];
          temp_authoritative = false;
        })
        x
      ≡ view base w x
unfolding view covers shown byte_at
same_view base w snapshot sound x = ground (arith, sound.below x)

base_snapshot :
    (page : ℕ) (base : File) (w : Overlay) (snapshot : Option File)
    → IsOver base w
    → Snapshots snapshot base
    → Exact snapshot base
    → All (λ (r : ByteRange). r.end ≤ w.logical_size) w.dirty
    → Snapshots (refreshed (refresh_from page w snapshot)) (shown base w)
      × Exact (refreshed (refresh_from page w snapshot)) (shown base w)
unfolding refresh_from
base_snapshot page base w none over snap exact ends = (tt, tt)
base_snapshot page base w (some f) over snap exact ends =
    snapshot_of page base w f
      (refresh_spans page (temp_or_new w) w.dirty (truncate w.logical_size f)) over snap exact
      (refresh_spans-Copies page (temp_or_new w) w.dirty (truncate w.logical_size f)
        (unfold truncate in ends))

left_snapshot :
    (page : ℕ) (base : File) (w : Overlay) (left : List ByteRange)
    → IsOver base w
    → IsSound w
    → Exact w.base_temp base
    → (w.base_temp ≡ none) ⊎ (left ≡ w.dirty)
    → Snapshots (refreshed (refresh_from page record w { dirty = left } w.base_temp)) (shown base w)
      × Exact (refreshed (refresh_from page record w { dirty = left } w.base_temp)) (shown base w)
unfolding refresh_from
left_snapshot page base w left over sound exact (inl e) = rw e (tt, tt)
left_snapshot page base w left over sound exact (inr e) = rw e (
    base_snapshot page base w w.base_temp over over.snapshot exact
      (ends_within w.logical_size 0 w.dirty over.canonical sound.below))

-- After a commit whose file holds what the open file showed, and that left the dirty set as it was (as
-- commitChunkRewrite and commitReplace do) or any dirty set where there is no local snapshot (as
-- commitPatch may), the refreshed overlay stands over that file: it shows the same byte at every
-- offset, its dirty set is empty, it is sound, and its local snapshot, where one is left, holds the new
-- file exactly.
pub commit_cache_refresh_lem :
    (page : ℕ) (base : File) (w : Overlay) (left : List ByteRange)
    → IsOver base w
    → IsSound w
    → Exact w.base_temp base
    → (w.base_temp ≡ none) ⊎ (left ≡ w.dirty)
    → IsOver (shown base w) (commit_cache_refresh page w.logical_size record w { dirty = left })
      × IsSound (commit_cache_refresh page w.logical_size record w { dirty = left })
      × Exact
          (commit_cache_refresh page w.logical_size record w { dirty = left }).base_temp
          (shown base w)
      × ((x : ℕ)
          → view
              (shown base w)
              (commit_cache_refresh page w.logical_size record w { dirty = left })
              x
            ≡ view base w x)
unfolding commit_cache_refresh refresh_base_snapshot
commit_cache_refresh_lem page base w left over sound exact kept =
    let (snapshots, exactly) = left_snapshot page base w left over sound exact kept in
    (
      record { canonical = tt; base_is = unfold shown in refl; snapshot = snapshots },
      record {
        sorted = tt;
        below = λ x c. unfold covers in ground (arith, c);
        temp_fits = unfold temp_or_new in sound.temp_fits;
        full = λ e x l c. ground (arith, e);
        holes = λ x c l.
            unfold temp_or_new in past_temp (temp_or_new w) w.logical_size x sound.temp_fits l;
      },
      exactly,
      λ x.
          same_view base w (refreshed (refresh_from page record w { dirty = left } w.base_temp))
            sound x,
    )
