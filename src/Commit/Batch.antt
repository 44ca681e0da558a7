-- ===== src/Commit/Batch.antt =====
-- The playlist behind a commit that patches: buildPatchedRangeChunks of internal/storage/patch.go.
use storhub.Prelude.{
  ℕ, ◌+◌, ◌-◌, ◌≤◌, ◌<◌, true, Bool, List, [], ◌∷◌, ◌≡◌, refl, ap, sym, ◌∙◌, subst, arith,
  if◌then◌else◌, All, Bool-cases, inl, inr, Option, none, some,
}
use storhub.LocalFile.{File, slice, length-slice}
use storhub.Ranges.{ByteRange}
use storhub.Ranges.Cover.{covers, within}
use storhub.Overlay.{Overlay, Hub, Result, ok, err}
use storhub.Overlay.View.{view, Serves, IsOver, IsSound}
use storhub.Playlist.{ChunkInfo, splice_edit}
use storhub.Playlist.Content.{Assets, content}
use storhub.Playlist.Sorted.{IsDisjoint, finalize_playlist_lem}
use storhub.Commit.{
  RangeEdit, delete_of, Upload, fold_edits, build_patched_range_chunks, patch_file_ranges,
  patch_edits, admits_edits, fits_size,
}
use storhub.Commit.Spans.{
  all_spans, span_edit, span_edits, Ascending, all_spans-Ascending, covers-all_spans,
}
use storhub.Commit.Stored.{IsStored, delete_of-cases, splice_span, outside}
use storhub.Commit.Edits.{starts_by, starts_by-cons, fits_size-spans, patch_edits-dirty}

module _ (assets : Assets) (upload : Upload) (bytes : ℕ → ℕ) (b : ℕ) where
  -- One turn of the loop, on the edit of a page.
  fold_edits-cons :
      (r : ByteRange) (chunks : List ChunkInfo) (shift : ℕ) (edits : List RangeEdit)
      → fold_edits upload shift shift chunks (span_edit bytes b r ∷ edits)
        ≡ fold_edits upload
            (shift + (r.end - r.start))
            (shift + delete_of b r.start r.end)
            (splice_edit chunks r.start
              (delete_of b r.start r.end)
              (r.end - r.start)
              (upload r.start (slice bytes r.start (r.end - r.start))))
            edits
  unfolding fold_edits
  fold_edits-cons r chunks shift edits =
      let span = slice bytes r.start (r.end - r.start) in
      let d = delete_of b r.start r.end in
      ap
        (λ (m : ℕ).
          fold_edits upload (shift + m) (shift + d)
            (splice_edit chunks (r.start + shift - shift) d m
              (upload (r.start + shift - shift) span))
            edits)
        (length-slice bytes r.start (r.end - r.start))
      ∙ ap
          (λ (p : ℕ).
            fold_edits upload (shift + (r.end - r.start)) (shift + d)
              (splice_edit chunks p d (r.end - r.start) (upload p span)) edits)
          {x = r.start + shift - shift} {y = r.start} (omega arith)

  both :
      (r : ByteRange) (rs : List ByteRange) (x : ℕ) (c : Option ℕ)
      → (if covers rs x then some (bytes x) else (if within r x then some (bytes x) else c))
        ≡ (if covers (r ∷ rs) x then some (bytes x) else c)
  unfolding covers
  both r rs x c = ground arith

  -- Behind a page that ends past the file no page starts by its end.
  no_more :
      (r : ByteRange) (rs : List ByteRange) (cs : List ChunkInfo) (i d x : ℕ)
      → b < r.end
      → Ascending r.end rs
      → starts_by b rs ≡ true
      → content assets (fold_edits upload i d cs (span_edits bytes b rs)) x
        ≡ (if covers rs x then some (bytes x) else content assets cs x)
  unfolding fold_edits covers
  no_more r [] cs i d x o a s = refl
  no_more r (q ∷ rs) cs i d x o a s = absurd (ground (arith, starts_by-cons b q rs s, a.0))

  pub fold_edits-content :
      (spans : List ByteRange) (chunks : List ChunkInfo) (lo shift : ℕ) (x : ℕ)
      → All (IsStored assets upload) (span_edits bytes b spans)
      → Ascending lo spans
      → starts_by b spans ≡ true
      → ((y : ℕ) → b ≤ y → content assets chunks y ≡ none)
      → content assets (fold_edits upload shift shift chunks (span_edits bytes b spans)) x
        ≡ (if covers spans x then some (bytes x) else content assets chunks x)
  unfolding fold_edits
  fold_edits-content [] chunks lo shift x up a s past = unfold covers in refl
  fold_edits-content (r ∷ rs) chunks lo shift x up a s past =
      let starts : (r.start ≤ b) × (starts_by b rs ≡ true) = starts_by-cons b r rs s in
      let here = λ (x : ℕ). splice_span assets upload bytes b chunks r x up.0 in
      ap (λ (cs : List ChunkInfo). content assets cs x)
        (fold_edits-cons r chunks shift (span_edits bytes b rs))
      ∙ (elim (delete_of-cases b r.start r.end a.1 starts.0) [
        | inl (below, e) ↦
            ap
              (λ (d : ℕ).
                content assets
                  (fold_edits upload (shift + (r.end - r.start)) (shift + d)
                    (splice_edit chunks r.start (delete_of b r.start r.end) (r.end - r.start)
                      (upload r.start (slice bytes r.start (r.end - r.start))))
                    (span_edits bytes b rs))
                  x)
              e
            ∙ fold_edits-content rs
                (splice_edit chunks r.start (delete_of b r.start r.end) (r.end - r.start)
                  (upload r.start (slice bytes r.start (r.end - r.start))))
                r.end (shift + (r.end - r.start)) x up.1 a.2 starts.1
                (λ y l.
                  here y a.1 starts.0 past
                  ∙ outside bytes r y (content assets chunks y) (past y l) (omega arith))
            ∙ ap (λ (c : Option ℕ). if covers rs x then some (bytes x) else c)
                (here x a.1 starts.0 past)
            ∙ both r rs x (content assets chunks x)
        | inr (over, e) ↦
            no_more r rs
              (splice_edit chunks r.start (delete_of b r.start r.end) (r.end - r.start)
                (upload r.start (slice bytes r.start (r.end - r.start))))
              (shift + (r.end - r.start)) (shift + delete_of b r.start r.end) x over a.2 starts.1
            ∙ ap (λ (c : Option ℕ). if covers rs x then some (bytes x) else c)
                (here x a.1 starts.0 past)
            ∙ both r rs x (content assets chunks x)
      ])

abbrev edits_of : Result (List RangeEdit) → List RangeEdit
edits_of (ok edits) = edits
edits_of (err e) = []

abbrev playlist_of : Option (ℕ × List ChunkInfo) → List ChunkInfo
playlist_of none = []
playlist_of (some (size, chunks)) = chunks

patch_file_ranges-some :
    (upload : Upload) (b size : ℕ) (chunks patched : List ChunkInfo) (edits : List RangeEdit)
    → patch_file_ranges upload b chunks edits ≡ some (size, patched)
    → (fits_size b edits ≡ true) × (patched ≡ build_patched_range_chunks upload chunks edits)
unfolding patch_file_ranges
patch_file_ranges-some upload b size chunks patched edits e =
    elim (Bool-cases (admits_edits b edits)) [
      | inl h ↦ (unfold admits_edits in ground (arith, h), sym (ap playlist_of (rw h at e)))
      | inr h ↦ ground (arith, e, h)
    ]

-- A batch of a commit that the storage admits, and whose bytes the uploads hold, is patched into the
-- playlist: the dirty offsets then hold the bytes that the open file shows, and every other offset
-- holds what it held. The old playlist must hold nothing past the file's size, and the new one be
-- free of overlaps before it is put in order.
pub patch_file_ranges-content :
    (hub : Hub) (base : File) (serves : Serves hub base) (page : ℕ) (some_page : 0 < page)
    (w : Overlay) (over : IsOver base w) (sound : IsSound w) (assets : Assets) (upload : Upload)
    (chunks : List ChunkInfo) (edits : List RangeEdit) (size : ℕ) (patched : List ChunkInfo)
    → All (IsStored assets upload) edits
    → ((y : ℕ) → w.base_size ≤ y → content assets chunks y ≡ none)
    → patch_edits hub w page w.dirty ≡ ok edits
    → IsDisjoint (fold_edits upload 0 0 chunks edits)
    → patch_file_ranges upload w.base_size chunks edits ≡ some (size, patched)
    → (x : ℕ)
    → content assets patched x
      ≡ (if covers w.dirty x then some (view base w x) else content assets chunks x)
unfolding build_patched_range_chunks
patch_file_ranges-content hub base serves page some_page w over sound assets upload chunks edits
      size patched up past made disjoint done x =
    let spans = all_spans page w.dirty in
    let ascending = all_spans-Ascending page 0 w.dirty some_page over.canonical in
    let made_of : edits ≡ span_edits (view base w) w.base_size spans =
      ap edits_of (sym made ∙ patch_edits-dirty hub base serves page some_page w over sound) in
    let (fits, built) = patch_file_ranges-some upload w.base_size size chunks patched edits done in
    ap (λ (cs : List ChunkInfo). content assets cs x) built
    ∙ (finalize_playlist_lem assets (fold_edits upload 0 0 chunks edits) disjoint).1 x
    ∙ ap (λ (es : List RangeEdit). content assets (fold_edits upload 0 0 chunks es) x) made_of
    ∙ fold_edits-content assets upload (view base w) w.base_size spans chunks 0 0 x
        (subst (λ (es : List RangeEdit). All (IsStored assets upload) es) made_of up) ascending
        (sym (fits_size-spans (view base w) w.base_size 0 spans ascending)
          ∙ ap (fits_size w.base_size) (sym made_of)
          ∙ fits)
        past
    ∙ ap (λ (c : Bool). if c then some (view base w x) else content assets chunks x)
        (covers-all_spans page w.dirty x some_page)
