-- ===== src/Window/Tests.antt =====
-- Runs and instances for the window reader: internal/storage/window.go.
use storhub.Prelude.{ℕ, ◌+◌, true, Bool, List, [], ◌∷◌, ◌≡◌, refl, ap, sym, none, arith, min}
use storhub.LocalFile.{
  File, slice, length-slice, empty_file, read_at, write_at, byte_at, byte_or_zero,
}
use storhub.Ranges.{plus, minus}
use storhub.Window.{
  LiveRead, window_overrun, seek_start, seek_current, new_window_reader, teed, after_live, replay,
  pull, read_turn, take_turn, read_loop, read, seek, seek_to,
}
use storhub.Window.Causes.{Caused}
use storhub.Window.Mirror.{Streams}
use storhub.Window.Trace.{
  Call, read_call, seek_call, gave, stands_at, refused, run, Follows, new_window_reader-Follows,
}

-- A stream of 7s that gives two bytes at a time; its state is its position.
abbrev sevens : ℕ → ℕ
sevens x = 7

two_at_a_time : ℕ → ℕ → LiveRead ℕ
unfolding slice
two_at_a_time at n = record { bytes = slice sevens at (min 2 n); error = none; rest = at + min 2 n }

abbrev at_itself : ℕ → ℕ
at_itself at = at

sevens-Streams : Streams sevens at_itself two_at_a_time
unfolding two_at_a_time
sevens-Streams = record {
  short = λ s n. omega (arith, length-slice sevens s (min 2 n));
  next = λ s n. ap (slice sevens s) (sym (length-slice sevens s (min 2 n)));
  moved = λ s n. ap (λ (k : ℕ). s + k) (sym (length-slice sevens s (min 2 n)));
}

abbrev disk_works : File → ℕ → Bool
disk_works f at = true

abbrev session : List Call
session =
    read_call (0 ∷ 0 ∷ 0 ∷ [])
    ∷ seek_call (plus 1) seek_start
    ∷ read_call (0 ∷ 0 ∷ 0 ∷ 0 ∷ [])
    ∷ seek_call (minus 0) seek_current
    ∷ seek_call (plus 5) seek_start
    ∷ read_call (0 ∷ [])
    ∷ []

-- A window of 4 bytes: a read, a rewind, a read to the end, a byte back, a seek past the end.
session_answered :
    run two_at_a_time disk_works disk_works (new_window_reader 4) 0 session
    ≡ gave (7 ∷ 7 ∷ 7 ∷ []) none
      ∷ stands_at 1
      ∷ gave (7 ∷ 7 ∷ 7 ∷ []) none
      ∷ stands_at 3
      ∷ refused window_overrun
      ∷ gave (7 ∷ []) none
      ∷ []
unfolding run two_at_a_time new_window_reader empty_file read read_loop take_turn read_turn replay
    pull after_live teed read_at write_at byte_at byte_or_zero slice seek seek_to
session_answered = refl

new_window_reader-Follows_example :
    Follows
      (Caused two_at_a_time disk_works disk_works)
      sevens
      4
      0
      0
      session
      (run two_at_a_time disk_works disk_works (new_window_reader 4) 0 session)
new_window_reader-Follows_example =
    new_window_reader-Follows two_at_a_time disk_works disk_works sevens at_itself sevens-Streams 4
      0 session refl
