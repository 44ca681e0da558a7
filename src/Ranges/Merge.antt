-- ===== src/Ranges/Merge.antt =====
-- MergeByteRanges and the offsets that its result covers.
use storhub.Prelude.{
  ℕ, ◌+◌, ◌≤◌, ◌<◌, false, ◌||◌, List, [], ◌∷◌, ◌≡◌, refl, arith, ltb, leb, All, Bool-cases, inl,
  inr, true, ◌∙◌,
}
use storhub.Ranges.{
  ByteRange, range_less, insert_range, sort_ranges, merge_loop, merge_sorted, merge_byte_ranges,
}
use storhub.Ranges.Cover.{within, covers, Gapped, IsCanonical}

-- The spans begin at `lo` or later, in the order of their starts.
abbrev StartsFrom : ℕ → List ByteRange → Type 0
StartsFrom lo [] = Unit
StartsFrom lo (r ∷ rs) = (lo ≤ r.start) × StartsFrom r.start rs

abbrev pub NotEmpty : ByteRange → Type 0
NotEmpty r = r.start < r.end

covers-insert_range :
    (r : ByteRange) (rs : List ByteRange) (x : ℕ)
    → covers (insert_range r rs) x ≡ (within r x || covers rs x)
unfolding insert_range covers
covers-insert_range r [] x = refl
covers-insert_range r (q ∷ qs) x = ground (arith, covers-insert_range r qs x)

covers-sort_ranges : (rs : List ByteRange) (x : ℕ) → covers (sort_ranges rs) x ≡ covers rs x
unfolding sort_ranges covers
covers-sort_ranges [] x = refl
covers-sort_ranges (r ∷ rs) x =
    ground (arith, covers-insert_range r (sort_ranges rs) x, covers-sort_ranges rs x)

range_less_le : (a b : ByteRange) → range_less a b ≡ true → a.start ≤ b.start
unfolding range_less
range_less_le a b h = ground arith

range_not_less_le : (a b : ByteRange) → range_less a b ≡ false → b.start ≤ a.start
unfolding range_less
range_not_less_le a b h = ground arith

StartsFrom-le : (lo mid : ℕ) (rs : List ByteRange) → lo ≤ mid → StartsFrom mid rs → StartsFrom lo rs
StartsFrom-le lo mid [] h s = tt
StartsFrom-le lo mid (r ∷ rs) h s = (omega arith, s.1)

insert_range-StartsFrom :
    (lo : ℕ) (r : ByteRange) (rs : List ByteRange)
    → lo ≤ r.start
    → StartsFrom lo rs
    → StartsFrom lo (insert_range r rs)
unfolding insert_range
insert_range-StartsFrom lo r [] h s = omega arith
insert_range-StartsFrom lo r (q ∷ qs) h s = elim (Bool-cases (range_less q r)) [
  | inl e ↦ rw e (s.0, insert_range-StartsFrom q.start r qs (range_less_le q r e) s.1)
  | inr e ↦ rw e (h, (range_not_less_le q r e, s.1))
]

insert_range-All :
    (r : ByteRange) (rs : List ByteRange)
    → NotEmpty r
    → All NotEmpty rs
    → All NotEmpty (insert_range r rs)
unfolding insert_range
insert_range-All r [] h a = (h, tt)
insert_range-All r (q ∷ qs) h a = ground (arith, insert_range-All r qs h a.1)

sort_ranges-StartsFrom : (rs : List ByteRange) → StartsFrom 0 (sort_ranges rs)
unfolding sort_ranges
sort_ranges-StartsFrom [] = tt
sort_ranges-StartsFrom (r ∷ rs) =
    insert_range-StartsFrom 0 r (sort_ranges rs) (omega arith) (sort_ranges-StartsFrom rs)

sort_ranges-All : (rs : List ByteRange) → All NotEmpty rs → All NotEmpty (sort_ranges rs)
unfolding sort_ranges
sort_ranges-All [] a = tt
sort_ranges-All (r ∷ rs) a = insert_range-All r (sort_ranges rs) a.0 (sort_ranges-All rs a.1)

covers-merge_loop :
    (r : ByteRange) (rs : List ByteRange) (x : ℕ)
    → StartsFrom r.start rs
    → covers (merge_loop r rs) x ≡ (within r x || covers rs x)
unfolding merge_loop covers
covers-merge_loop r [] x s = refl
covers-merge_loop r (q ∷ qs) x s = elim (Bool-cases (leb q.start r.end)) [
  | inr apart ↦ rw apart (ground (arith, covers-merge_loop q qs x s.1))
  | inl touch ↦ rw touch (elim (Bool-cases (ltb r.end q.end)) [
    | inl longer ↦ rw longer (
        ground (
          arith,
          covers-merge_loop (record r { end = q.end }) qs x
              (StartsFrom-le r.start q.start qs s.0 s.1),
        ))
    | inr shorter ↦
        rw shorter
          (ground (arith, covers-merge_loop r qs x (StartsFrom-le r.start q.start qs s.0 s.1)))
  ])
]

covers-merge_sorted :
    (rs : List ByteRange) (x : ℕ) → StartsFrom 0 rs → covers (merge_sorted rs) x ≡ covers rs x
unfolding merge_sorted covers
covers-merge_sorted [] x s = refl
covers-merge_sorted (r ∷ rs) x s = covers-merge_loop r rs x s.1

merge_loop-Gapped :
    (lo : ℕ) (r : ByteRange) (rs : List ByteRange)
    → lo ≤ r.start
    → r.start < r.end
    → StartsFrom r.start rs
    → All NotEmpty rs
    → Gapped lo (merge_loop r rs)
unfolding merge_loop
merge_loop-Gapped lo r [] h n s a = (h, n, tt)
merge_loop-Gapped lo r (q ∷ qs) h n s a = elim (Bool-cases (leb q.start r.end)) [
  | inr apart ↦ rw apart (h, n, merge_loop-Gapped (r.end + 1) q qs (ground arith) a.0 s.1 a.1)
  | inl touch ↦ rw touch (elim (Bool-cases (ltb r.end q.end)) [
    | inl longer ↦ rw longer (
        merge_loop-Gapped lo (record r { end = q.end }) qs h (ground arith)
          (StartsFrom-le r.start q.start qs s.0 s.1) a.1)
    | inr shorter ↦
        rw shorter (merge_loop-Gapped lo r qs h n (StartsFrom-le r.start q.start qs s.0 s.1) a.1)
  ])
]

merge_sorted-IsCanonical :
    (rs : List ByteRange) → StartsFrom 0 rs → All NotEmpty rs → IsCanonical (merge_sorted rs)
unfolding merge_sorted
merge_sorted-IsCanonical [] s a = tt
merge_sorted-IsCanonical (r ∷ rs) s a = merge_loop-Gapped 0 r rs s.0 a.0 s.1 a.1

-- MergeByteRanges covers exactly the offsets that the given spans cover, whatever their order and
-- also where some are empty or inverted.
pub covers-merge_byte_ranges :
    (rs : List ByteRange) (x : ℕ) → covers (merge_byte_ranges rs) x ≡ covers rs x
unfolding merge_byte_ranges
covers-merge_byte_ranges rs x =
    covers-merge_sorted (sort_ranges rs) x (sort_ranges-StartsFrom rs) ∙ covers-sort_ranges rs x

-- If no given span is empty, the result of MergeByteRanges is sorted and disjoint, and a gap of at
-- least one offset parts neighbours.
pub merge_byte_ranges-IsCanonical :
    (rs : List ByteRange) → All NotEmpty rs → IsCanonical (merge_byte_ranges rs)
unfolding merge_byte_ranges
merge_byte_ranges-IsCanonical rs a =
    merge_sorted-IsCanonical (sort_ranges rs) (sort_ranges-StartsFrom rs) (sort_ranges-All rs a)

-- Where no given span is empty, MergeByteRanges gives spans that are sorted and disjoint, with a gap
-- of at least one offset between neighbours, and that cover exactly the offsets of the given ones.
pub merge_byte_ranges_lem :
    (rs : List ByteRange)
    → All NotEmpty rs
    → IsCanonical (merge_byte_ranges rs) × ((x : ℕ) → covers (merge_byte_ranges rs) x ≡ covers rs x)
merge_byte_ranges_lem rs a = (merge_byte_ranges-IsCanonical rs a, covers-merge_byte_ranges rs)
