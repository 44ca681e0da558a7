-- ===== src/Ranges/Tests.antt =====
-- Small span lists: a canonical one with two spans, and one that is neither sorted nor merged.
use storhub.Prelude.{ℕ, ◌≤◌, ◌<◌, true, List, [], ◌∷◌, ◌≡◌, ◌↔◌, arith}
use storhub.Ranges.{
  ByteRange, range, plus, merge_byte_ranges, mark_dirty, covers_range, next_dirty_range,
  insert_byte_range, merge_byte_range, planned_ranges,
}
use storhub.Ranges.Cover.{covers, IsCanonical}
use storhub.Ranges.Merge.{merge_byte_ranges_lem}
use storhub.Ranges.Insert.{mark_dirty-eq-merges}
use storhub.Ranges.Query.{covers_range_iff, next_dirty_range-Answers, Answers}
use storhub.Ranges.Planned.{planned_ranges_lem}

abbrev two_spans : List ByteRange
two_spans = range 2 5 ∷ range 9 12 ∷ []

abbrev unsorted : List ByteRange
unsorted = range 9 12 ∷ range 1 4 ∷ range 4 6 ∷ []

two_spans-IsCanonical : IsCanonical two_spans
two_spans-IsCanonical = (omega arith, omega arith, (omega arith, omega arith, tt))

mark_dirty-eq-merges_example :
    (mark_dirty (plus 4) (plus 9) two_spans ≡ insert_byte_range two_spans (range 4 9))
    × (mark_dirty (plus 4) (plus 9) two_spans ≡ merge_byte_range two_spans (range 4 9))
mark_dirty-eq-merges_example = mark_dirty-eq-merges two_spans 4 9 two_spans-IsCanonical

covers_range_iff_example :
    (covers_range 2 5 two_spans ≡ true) ↔ ((x : ℕ) → 2 ≤ x → x < 5 → covers two_spans x ≡ true)
covers_range_iff_example = covers_range_iff 2 5 two_spans two_spans-IsCanonical

next_dirty_range-Answers_example : Answers 6 two_spans (next_dirty_range 6 two_spans)
next_dirty_range-Answers_example = next_dirty_range-Answers 6 0 two_spans two_spans-IsCanonical

planned_ranges_lem_example :
    IsCanonical (planned_ranges 8 10 two_spans)
    × ((x : ℕ) → covers two_spans x ≡ true → covers (planned_ranges 8 10 two_spans) x ≡ true)
    × ((x : ℕ) → covers (planned_ranges 8 10 two_spans) x ≡ true → x < 12)
planned_ranges_lem_example =
    planned_ranges_lem 8 10 12 two_spans (omega arith) (omega arith, (omega arith, tt))

merge_byte_ranges_lem_example :
    IsCanonical (merge_byte_ranges unsorted)
    × ((x : ℕ) → covers (merge_byte_ranges unsorted) x ≡ covers unsorted x)
merge_byte_ranges_lem_example =
    merge_byte_ranges_lem unsorted (omega arith, (omega arith, (omega arith, tt)))
