-- ===== src/Commit/Stored.antt =====
-- One edit of a commit in the playlist: buildPatchedRangeChunks of internal/storage/patch.go.
use storhub.Prelude.{
  ℕ, ◌+◌, ◌-◌, ◌≤◌, ◌<◌, ◌&&◌, List, ◌≡◌, ap, sym, ◌∙◌, subst, arith, ltb, leb, if◌then◌else◌,
  length, Bool-cases, inl, inr, ◌⊎◌, Option, none, some,
}
use storhub.LocalFile.{slice, length-slice, byte_or_zero, byte_or_zero-slice}
use storhub.Ranges.{ByteRange}
use storhub.Ranges.Cover.{within}
use storhub.Playlist.{ChunkInfo, splice_edit}
use storhub.Playlist.Content.{Assets, content}
use storhub.Playlist.Splice.{Within, edited, splice_edit-content}
use storhub.Commit.{RangeEdit, delete_of, Upload}
use storhub.Commit.Spans.{span_edit}

-- The upload of an edit's bytes gives chunks inside their span, and these hold them.
pub record IsStored (assets : Assets) (upload : Upload) (e : RangeEdit) : Type 0 where
  pub inside : Within e.start (e.start + length e.bytes) (upload e.start e.bytes)
  pub stored :
      (i : ℕ)
      → i < length e.bytes
      → content assets (upload e.start e.bytes) (e.start + i) ≡ some (byte_or_zero e.bytes i)

-- What a page deletes is its length, or all that the file has from there on.
pub delete_of-cases :
    (b start end : ℕ)
    → start < end
    → start ≤ b
    → ((end ≤ b) × (delete_of b start end ≡ end - start))
      ⊎ ((b < end) × (start + delete_of b start end ≡ b))
delete_of-cases b start end n h = elim (Bool-cases (ltb b end)) [
  | inl e ↦ inr (ground (arith, e), ground (arith, e))
  | inr e ↦ inl (ground (arith, e), ground (arith, e))
]

behind :
    (bytes : ℕ → ℕ) (b : ℕ) (before : ℕ → Option ℕ) (r : ByteRange) (x : ℕ)
    → r.start < r.end
    → r.start ≤ b
    → ((y : ℕ) → b ≤ y → before y ≡ none)
    → r.end ≤ x
    → before (x + delete_of b r.start r.end - (r.end - r.start))
      ≡ (if leb r.start x && ltb x r.end then some (bytes x) else before x)
behind bytes b before r x n s past h =
    (elim (delete_of-cases b r.start r.end n s) [
      | inl (below, e) ↦ ap before (omega (arith, e))
      | inr (over, e) ↦
          past (x + delete_of b r.start r.end - (r.end - r.start)) (omega (arith, e))
          ∙ sym (past x (omega arith))
    ])
    ∙ unmet
  where
    unmet : before x ≡ (if leb r.start x && ltb x r.end then some (bytes x) else before x)
    unmet = ground arith

pub outside :
    (bytes : ℕ → ℕ) (r : ByteRange) (y : ℕ) (c : Option ℕ)
    → c ≡ none
    → r.end ≤ y
    → (if within r y then some (bytes y) else c) ≡ none
unfolding within
outside bytes r y c e h = ground (arith, e)

edited_span :
    (bytes : ℕ → ℕ) (b : ℕ) (before inserted : ℕ → Option ℕ) (r : ByteRange) (x : ℕ)
    → r.start < r.end
    → r.start ≤ b
    → ((y : ℕ) → b ≤ y → before y ≡ none)
    → (r.start ≤ x → x < r.end → inserted x ≡ some (bytes x))
    → edited r.start (delete_of b r.start r.end) (r.end - r.start) inserted before x
      ≡ (if within r x then some (bytes x) else before x)
unfolding within
edited_span bytes b before inserted r x n s past stored = elim (Bool-cases (ltb x r.start)) [
  | inl e ↦ rw e (ground (arith, e))
  | inr e ↦ elim (Bool-cases (ltb x (r.start + (r.end - r.start)))) [
    | inl u ↦ rw (e, u) (ground (arith, e, u, stored))
    | inr u ↦ rw (e, u) (behind bytes b before r x n s past (ground (arith, e, u)))
  ]
]

module _ (assets : Assets) (upload : Upload) (bytes : ℕ → ℕ) (b : ℕ) where
  stored_span :
      (r : ByteRange) (x : ℕ)
      → IsStored assets upload (span_edit bytes b r)
      → r.start ≤ x
      → x < r.end
      → content assets (upload r.start (slice bytes r.start (r.end - r.start))) x ≡ some (bytes x)
  stored_span r x up l u =
      let n = r.end - r.start in
      let i = x - r.start in
      ap (content assets (upload r.start (slice bytes r.start n))) (omega arith)
      ∙ up.stored i (omega (arith, length-slice bytes r.start n))
      ∙ ap some (byte_or_zero-slice bytes r.start n i (omega arith) ∙ ap bytes (omega arith))

  -- The edit of a page that starts by the end of the file.
  pub splice_span :
      (chunks : List ChunkInfo) (r : ByteRange) (x : ℕ)
      → IsStored assets upload (span_edit bytes b r)
      → r.start < r.end
      → r.start ≤ b
      → ((y : ℕ) → b ≤ y → content assets chunks y ≡ none)
      → content assets
          (splice_edit chunks r.start
            (delete_of b r.start r.end)
            (r.end - r.start)
            (upload r.start (slice bytes r.start (r.end - r.start))))
          x
        ≡ (if within r x then some (bytes x) else content assets chunks x)
  splice_span chunks r x up n s past =
      splice_edit-content assets chunks r.start (delete_of b r.start r.end) (r.end - r.start)
        (upload r.start (slice bytes r.start (r.end - r.start))) x
        (subst
          (λ (m : ℕ).
            Within r.start (r.start + m) (upload r.start (slice bytes r.start (r.end - r.start))))
          (length-slice bytes r.start (r.end - r.start)) up.inside)
      ∙ edited_span bytes b (content assets chunks)
          (content assets (upload r.start (slice bytes r.start (r.end - r.start)))) r x n s past
          (stored_span r x up)
