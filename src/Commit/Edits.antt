-- ===== src/Commit/Edits.antt =====
-- The checks of PatchFileRangesContext on the batch of a commit: internal/storage/verbs_upload.go.
use storhub.Prelude.{
  ℕ, ◌+◌, ◌-◌, ◌≤◌, ◌<◌, true, false, Bool, ◌&&◌, List, [], ◌∷◌, ◌≡◌, refl, ◌∙◌, arith, leb, All,
  none,
}
use storhub.LocalFile.{File, length-slice}
use storhub.Ranges.{ByteRange}
use storhub.Ranges.Cover.{covers, within, Gapped}
use storhub.Overlay.{Overlay, Hub, ok}
use storhub.Overlay.View.{view, Serves, IsOver, IsSound}
use storhub.Playlist.{ChunkInfo}
use storhub.Commit.{
  RangeEdit, delete_of, shape_ok, fits_size, admits_edits, patch_edits, Upload, patch_file_ranges,
}
use storhub.Commit.Spans.{
  all_spans, span_edits, patch_edits-spans, Ascending, Paged, all_spans-Ascending, all_spans-Paged,
  covers-all_spans,
}

-- Every span starts by this offset.
unfoldable pub starts_by : ℕ → List ByteRange → Bool
starts_by b [] = true
starts_by b (r ∷ rs) = leb r.start b && starts_by b rs

pub starts_by-cons :
    (b : ℕ) (r : ByteRange) (rs : List ByteRange)
    → starts_by b (r ∷ rs) ≡ true
    → (r.start ≤ b) × (starts_by b rs ≡ true)
unfolding starts_by
starts_by-cons b r rs h = ground (arith, h)

pub shape_ok-spans :
    (bytes : ℕ → ℕ) (b lo before : ℕ) (spans : List ByteRange)
    → before ≤ lo
    → Ascending lo spans
    → shape_ok before (span_edits bytes b spans) ≡ true
unfolding shape_ok
shape_ok-spans bytes b lo before [] h a = refl
shape_ok-spans bytes b lo before (r ∷ rs) h a = rw (length-slice bytes r.start (r.end - r.start)) (
    ground (
      arith,
      a.0,
      a.1,
      shape_ok-spans bytes b r.end (r.start + delete_of b r.start r.end) rs (ground (arith, a.1))
          a.2,
    ))

-- An edit ends inside the file exactly if it starts by its end.
pub fits_size-spans :
    (bytes : ℕ → ℕ) (b lo : ℕ) (spans : List ByteRange)
    → Ascending lo spans
    → fits_size b (span_edits bytes b spans) ≡ starts_by b spans
unfolding fits_size starts_by
fits_size-spans bytes b lo [] a = refl
fits_size-spans bytes b lo (r ∷ rs) a = ground (arith, a.1, fits_size-spans bytes b r.end rs a.2)

-- A page that holds an offset a page past the base starts past the base.
late_start :
    (b page : ℕ) (spans : List ByteRange) (x : ℕ)
    → Paged page spans
    → covers spans x ≡ true
    → b + page ≤ x
    → starts_by b spans ≡ false
unfolding starts_by covers within
late_start b page [] x p c l = ground (arith, c)
late_start b page (r ∷ rs) x p c l = ground (arith, p.0, late_start b page rs x p.1, c, l)

rejected :
    (upload : Upload) (size : ℕ) (chunks : List ChunkInfo) (edits : List RangeEdit)
    → fits_size size edits ≡ false
    → patch_file_ranges upload size chunks edits ≡ none
unfolding patch_file_ranges admits_edits
rejected upload size chunks edits e = ground (arith, e)

pub ends_within :
    (n lo : ℕ) (dirty : List ByteRange)
    → Gapped lo dirty
    → ((x : ℕ) → covers dirty x ≡ true → x < n)
    → All (λ (r : ByteRange). r.end ≤ n) dirty
unfolding covers within
ends_within n lo [] g h = tt
ends_within n lo (r ∷ rs) g h = (
  ground (arith, h (r.end - 1), g.1),
  ends_within n (r.end + 1) rs g.2 (λ x c. h x (ground (arith, c))),
)

module _ (hub : Hub) (base : File) (serves : Serves hub base) (page : ℕ) (some_page : 0 < page)
    (w : Overlay) (over : IsOver base w) (sound : IsSound w) where
  -- The edits of a commit, as pages of the dirty spans.
  pub patch_edits-dirty :
      patch_edits hub w page w.dirty
      ≡ ok (span_edits (view base w) w.base_size (all_spans page w.dirty))
  patch_edits-dirty =
      patch_edits-spans hub base serves page some_page w over w.dirty
        (ends_within w.logical_size 0 w.dirty over.canonical sound.below)

  -- A commit that patches makes its edits without an error, but where a dirty offset lies a page or
  -- more past the committed file's end, the storage refuses the batch, whatever the playlist and the
  -- uploads are, so the commit cannot succeed.
  pub patch_file_ranges-refuses :
      (upload : Upload) (chunks : List ChunkInfo) (x : ℕ)
      → covers w.dirty x ≡ true
      → w.base_size + page ≤ x
      → (edits : List RangeEdit) × (patch_edits hub w page w.dirty ≡ ok edits)
        × (patch_file_ranges upload w.base_size chunks edits ≡ none)
  patch_file_ranges-refuses upload chunks x c l =
      let spans = all_spans page w.dirty in
      let edits = span_edits (view base w) w.base_size spans in
      (
        edits,
        patch_edits-dirty,
        rejected upload w.base_size chunks edits (
            fits_size-spans (view base w) w.base_size 0 spans
              (all_spans-Ascending page 0 w.dirty some_page over.canonical)
            ∙ late_start w.base_size page spans x (all_spans-Paged page w.dirty)
                (covers-all_spans page w.dirty x some_page ∙ c) l),
      )
