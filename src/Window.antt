-- ===== src/Window.antt =====
-- The seekable view over one upload window: internal/storage/window.go. The upstream cursor (an
-- io.Reader) and the disk's failures are parameters.
pub mod Mirror
pub mod Turns
pub mod Reading
pub mod Seeking
pub mod Causes
pub mod Trace
pub mod Tests
use storhub.Prelude.{
  ℕ, zero, suc, ◌+◌, ◌-◌, min, Bool, true, false, ◌||◌, not, Option, none, some, List, [], ◌∷◌,
  ◌++◌, ltb, take, ◌&&◌, leb, ◌==◌, if◌then◌else◌, length, drop,
}
use storhub.LocalFile.{File, empty_file, write_at, read_at}
use storhub.Ranges.{Int64, plus, minus}

-- windowReader, without its lock and its live stream.
pub record WindowReader : Type 0 where
  pub spool : File
  pub size : ℕ
  pub mirrored : ℕ
  pub pos : ℕ

-- newWindowReader, on an empty spool file.
unfoldable pub new_window_reader : ℕ → WindowReader
unfolding empty_file
new_window_reader size = record { spool = empty_file; size = size; mirrored = 0; pos = 0 }

pub data WindowError : Type 0 where
  eof unexpected_eof no_progress : WindowError
  live_failed spool_read_failed spool_write_failed : WindowError
  window_overrun seek_ahead invalid_whence : WindowError
  -- The model's own, for a loop that is out of fuel.
  out_of_fuel : WindowError

-- What io.Reader.Read may report beside its bytes.
pub data LiveError : Type 0 where
  live_eof live_broken : LiveError

-- An answer of the live stream: the bytes, an error, and the stream behind them.
pub record LiveRead (S : Type 0) : Type 0 where
  pub bytes : List ℕ
  pub error : Option LiveError
  pub rest : S

-- What a call of Read leaves: the window, the stream, the filled part of the buffer and the error.
pub record ReadResult (S : Type 0) : Type 0 where
  pub window : WindowReader
  pub live : S
  pub bytes : List ℕ
  pub error : Option WindowError

-- What one turn of the loop does: it returns, or it fills this much more of the buffer.
pub data Turn (S : Type 0) : Type 0 where
  halted : WindowReader → S → List ℕ → Option WindowError → Turn S
  filled : WindowReader → S → List ℕ → Turn S

abbrev pub advanced : WindowReader → ℕ → WindowReader
advanced w n = record { spool = w.spool; size = w.size; mirrored = w.mirrored; pos = w.pos + n }

-- The window behind a live read of these bytes.
unfoldable pub teed : WindowReader → List ℕ → WindowReader
unfolding write_at
teed w bytes = record {
  spool = write_at bytes w.pos w.spool;
  size = w.size;
  mirrored = w.pos + length bytes;
  pos = w.pos + length bytes;
}

abbrev pub eof_at_start : Bool → Option WindowError
eof_at_start true = some eof
eof_at_start false = none

abbrev pub is_nil : List ℕ → Bool
is_nil [] = true
is_nil (b ∷ bytes) = false

-- What follows a live read: its error, or the next turn.
unfoldable pub after_live :
    {S : Type 0} → WindowReader → S → Bool → List ℕ → Option LiveError → Turn S
after_live w s first bytes (some live_eof) =
    if not (w.pos == w.size)
    then halted w s bytes (some unexpected_eof)
    else halted w s bytes (eof_at_start (first && is_nil bytes))
after_live w s first bytes (some live_broken) = halted w s bytes (some live_failed)
after_live w s first bytes none =
    if is_nil bytes then halted w s bytes (some no_progress) else filled w s bytes

module _ {S : Type 0} (live_read : S → ℕ → LiveRead S)
    (disk_reads disk_writes : File → ℕ → Bool) where
  unfoldable pub replay : WindowReader → S → List ℕ → Turn S
  unfolding read_at
  replay w s buf =
      let n = min (length buf) (w.mirrored - w.pos) in
      let got = read_at w.pos n w.spool in
      if disk_reads w.spool w.pos
      then filled (advanced w n) s (got ++ drop (length got) (take n buf))
      else halted w s [] (some spool_read_failed)

  unfoldable pub pull : WindowReader → S → Bool → List ℕ → Turn S
  unfolding after_live teed
  pull w s first buf =
      let r = live_read s (min (length buf) (w.size - w.pos)) in
      if is_nil r.bytes
      then after_live w r.rest first [] r.error
      else if disk_writes w.spool w.pos
      then after_live (teed w r.bytes) r.rest first r.bytes r.error
      else halted w r.rest [] (some spool_write_failed)

  -- One turn; `first` says that nothing of the buffer is filled yet.
  unfoldable pub read_turn : WindowReader → S → Bool → List ℕ → Turn S
  unfolding replay pull
  read_turn w s first buf =
      if leb w.size w.pos
      then halted w s [] (eof_at_start first)
      else if ltb w.pos w.mirrored
      then replay w s buf
      else pull w s first buf

  unfoldable pub take_turn :
      Turn S → List ℕ → (WindowReader → S → List ℕ → ReadResult S) → ReadResult S
  take_turn (halted w s bytes e) done on = record {
    window = w;
    live = s;
    bytes = done ++ bytes;
    error = e;
  }
  take_turn (filled w s bytes) done on = on w s bytes

  -- The loop of Read, over the filled and the free part of the buffer.
  unfoldable pub read_loop : ℕ → WindowReader → S → List ℕ → List ℕ → ReadResult S
  unfolding read_turn take_turn
  read_loop zero w s done buf = record {
    window = w;
    live = s;
    bytes = done;
    error = some out_of_fuel;
  }
  read_loop (suc fuel) w s done [] = record { window = w; live = s; bytes = done; error = none }
  read_loop (suc fuel) w s done (b ∷ buf) =
      take_turn (read_turn w s (is_nil done) (b ∷ buf)) done
        (λ v r bytes. read_loop fuel v r (done ++ bytes) (drop (length bytes) (b ∷ buf)))

  -- Read
  unfoldable pub read : WindowReader → S → List ℕ → ReadResult S
  unfolding read_loop
  read w s buf = read_loop (suc (length buf)) w s [] buf

-- What Seek leaves, with the new position or the error.
pub data SeekResult : Type 0 where
  sought : WindowReader → ℕ → SeekResult
  seek_failed : WindowError → SeekResult

-- A target, none where it is negative; `minus n` is -(n + 1).
abbrev pub offset_from : ℕ → Int64 → Option ℕ
offset_from base (plus n) = some (base + n)
offset_from base (minus n) = if ltb base (n + 1) then none else some (base - (n + 1))

-- io.SeekStart, io.SeekCurrent and io.SeekEnd
pub data Whence : Type 0 where
  seek_start seek_current seek_end other_whence : Whence

unfoldable pub seek_to : WindowReader → Option ℕ → SeekResult
seek_to w none = seek_failed window_overrun
seek_to w (some target) =
    if ltb w.size target
    then seek_failed window_overrun
    else if ltb w.mirrored target
    then seek_failed seek_ahead
    else sought record { spool = w.spool; size = w.size; mirrored = w.mirrored; pos = target }
        target

-- Seek
unfoldable pub seek : WindowReader → Int64 → Whence → SeekResult
unfolding seek_to
seek w offset seek_start = seek_to w (offset_from 0 offset)
seek w offset seek_current = seek_to w (offset_from w.pos offset)
seek w offset seek_end = seek_to w (offset_from w.size offset)
seek w offset other_whence = seek_failed invalid_whence
