-- ===== src/Ranges/Strategy.antt =====
-- When a commit replaces the whole file: shouldReplaceLocked.
use storhub.Prelude.{ℕ, ◌*◌, ◌&&◌, ◌||◌, List, ltb, leb, length, max, ◌≡◌, arith}
use storhub.Ranges.{ByteRange, total_byte_ranges, should_replace}

-- shouldReplaceLocked replaces a file that is not empty exactly if half of it is dirty, or a third of
-- it in twelve planned spans or more; its first test, for three quarters, never decides.
pub should_replace_lem :
    (base_size logical_size : ℕ) (dirty planned : List ByteRange)
    → should_replace base_size logical_size dirty planned ≡ (
        ltb 0 (max base_size logical_size)
        && (leb (max base_size logical_size) (total_byte_ranges dirty * 2)
            || (leb 12 (length planned)
                && leb (max base_size logical_size) (total_byte_ranges dirty * 3))))
unfolding should_replace
should_replace_lem base_size logical_size dirty planned = ground arith
