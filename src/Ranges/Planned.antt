-- ===== src/Ranges/Planned.antt =====
-- plannedRangesLocked: the spans that a commit uploads.
use storhub.Prelude.{ℕ, ◌*◌, ◌/◌, ◌≤◌, ◌<◌, true, ◌||◌, List, [], ◌∷◌, ◌≡◌, arith, All, max}
use storhub.Ranges.{ByteRange, merge_byte_range, plan_range, plan_loop, planned_ranges}
use storhub.Ranges.Cover.{within, covers, IsCanonical}
use storhub.Ranges.Insert.{covers-merge_byte_range, merge_byte_range-IsCanonical}

round_down_le : (n c : ℕ) → n / c * c ≤ n
round_down_le n c = grind arith

-- Widening only grows a span, and past the base size it does not grow it.
plan_range_bounds :
    (c b : ℕ) (r : ByteRange)
    → ((plan_range c b r).start ≤ r.start)
      × (r.end ≤ (plan_range c b r).end)
      × ((plan_range c b r).end ≤ max b r.end)
unfolding plan_range
plan_range_bounds c b r = (ground (arith, round_down_le r.start c), ground arith, ground arith)

within-plan_range :
    (c b : ℕ) (r : ByteRange) (x : ℕ) → within r x ≡ true → within (plan_range c b r) x ≡ true
unfolding within
within-plan_range c b r x w = ground (arith, plan_range_bounds c b r)

plan_loop-IsCanonical :
    (c b : ℕ) (planned ds : List ByteRange)
    → IsCanonical planned
    → IsCanonical (plan_loop c b planned ds)
unfolding plan_loop
plan_loop-IsCanonical c b planned [] g = g
plan_loop-IsCanonical c b planned (d ∷ ds) g =
    plan_loop-IsCanonical c b (merge_byte_range planned (plan_range c b d)) ds
      (merge_byte_range-IsCanonical planned (plan_range c b d) g)

covers-plan_loop :
    (c b : ℕ) (planned ds : List ByteRange) (x : ℕ)
    → (covers planned x || covers ds x) ≡ true
    → covers (plan_loop c b planned ds) x ≡ true
unfolding plan_loop covers
covers-plan_loop c b planned [] x h = ground arith
covers-plan_loop c b planned (d ∷ ds) x h =
    covers-plan_loop c b (merge_byte_range planned (plan_range c b d)) ds x (
      ground
        (arith, covers-merge_byte_range planned (plan_range c b d) x, within-plan_range c b d x))

EndsBy : ℕ → List ByteRange → Type 0
EndsBy n rs = All (λ (r : ByteRange). r.end ≤ n) rs

plan_loop-bound :
    (c b n : ℕ) (planned ds : List ByteRange) (x : ℕ)
    → b ≤ n
    → EndsBy n ds
    → (covers planned x ≡ true → x < n)
    → covers (plan_loop c b planned ds) x ≡ true
    → x < n
unfolding plan_loop EndsBy
plan_loop-bound c b n planned [] x hb ends low h = low h
plan_loop-bound c b n planned (d ∷ ds) x hb ends low h =
    plan_loop-bound c b n (merge_byte_range planned (plan_range c b d)) ds x hb ends.1
      (λ k.
        unfold within in
        ground
          (arith, covers-merge_byte_range planned (plan_range c b d) x, plan_range_bounds c b d))
      h

-- The planned spans are canonical, hold every dirty offset, and hold no offset past both the base
-- size and the end of the last dirty span.
pub planned_ranges_lem :
    (chunk_size base_size n : ℕ) (dirty : List ByteRange)
    → base_size ≤ n
    → All (λ (r : ByteRange). r.end ≤ n) dirty
    → IsCanonical (planned_ranges chunk_size base_size dirty)
      × ((x : ℕ)
          → covers dirty x ≡ true
          → covers (planned_ranges chunk_size base_size dirty) x ≡ true)
      × ((x : ℕ) → covers (planned_ranges chunk_size base_size dirty) x ≡ true → x < n)
unfolding planned_ranges covers
planned_ranges_lem c b n dirty hb ends = (
  plan_loop-IsCanonical c b [] dirty tt,
  (λ x h. covers-plan_loop c b [] dirty x h),
  λ x h. unfold EndsBy in plan_loop-bound c b n [] dirty x hb ends (λ k. absurd (ground arith)) h,
)
