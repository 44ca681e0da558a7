-- ===== src/Window/Mirror.antt =====
-- The spool as a mirror of the live stream: internal/storage/window.go.
use storhub.Prelude.{
  ℕ, ◌+◌, ◌-◌, ◌≤◌, ◌<◌, max, Option, none, some, List, [], ◌≡◌, ◌≢◌, length, refl, ap, ◌∙◌, arith,
}
use storhub.LocalFile.{
  byte_at, slice, write_at, byte_at-write_at, byte_or_zero, byte_or_zero-slice, size-write_at-le,
}
use storhub.Window.{
  WindowReader, WindowError, LiveRead, eof, unexpected_eof, no_progress, live_failed,
  spool_read_failed, spool_write_failed, window_overrun, seek_ahead, invalid_whence, out_of_fuel,
  teed, advanced,
}

module _ {S : Type 0} (content : ℕ → ℕ) (cursor : S → ℕ) where
  -- The live stream answers a read by at most that many bytes, the next ones of its content.
  pub record Streams (live_read : S → ℕ → LiveRead S) : Type 0 where
    pub short : (s : S) (n : ℕ) → length (live_read s n).bytes ≤ n
    pub next :
        (s : S) (n : ℕ)
        → (live_read s n).bytes ≡ slice content (cursor s) (length (live_read s n).bytes)
    pub moved :
        (s : S) (n : ℕ) → cursor (live_read s n).rest ≡ cursor s + length (live_read s n).bytes

  -- The spool holds what came from the stream, and the stream stands at the high-water mark.
  pub record IsMirror (w : WindowReader) (s : S) : Type 0 where
    pub reached : w.pos ≤ w.mirrored
    pub within : w.mirrored ≤ w.size
    pub spooled : w.mirrored ≤ w.spool.size
    pub same : (x : ℕ) → x < w.mirrored → byte_at w.spool x ≡ content x
    pub at : cursor s ≡ w.mirrored

  -- What holds at the end of a call, by its error: after a failed write to the spool nothing more.
  abbrev pub Ends : Type 0 → Type 0 → Option WindowError → WindowReader → S → Type 0
  Ends full nothing none w s = IsMirror w s × full
  Ends full nothing (some eof) w s = IsMirror w s × nothing
  Ends full nothing (some spool_write_failed) w s = Unit
  Ends full nothing (some out_of_fuel) w s = ⊥
  Ends full nothing (some unexpected_eof) w s = IsMirror w s × (w.pos ≢ w.size)
  Ends full nothing (some no_progress) w s = IsMirror w s
  Ends full nothing (some live_failed) w s = IsMirror w s
  Ends full nothing (some spool_read_failed) w s = IsMirror w s
  Ends full nothing (some window_overrun) w s = ⊥
  Ends full nothing (some seek_ahead) w s = ⊥
  Ends full nothing (some invalid_whence) w s = ⊥

  pub Ends-map :
      (f g m n : Type 0) (e : Option WindowError) (w : WindowReader) (s : S)
      → (f → g)
      → (m → n)
      → Ends f m e w s
      → Ends g n e w s
  Ends-map f g m n none w s i j h = (h.0, i h.1)
  Ends-map f g m n (some eof) w s i j h = (h.0, j h.1)
  Ends-map f g m n (some spool_write_failed) w s i j h = h
  Ends-map f g m n (some out_of_fuel) w s i j h = h
  Ends-map f g m n (some unexpected_eof) w s i j h = h
  Ends-map f g m n (some no_progress) w s i j h = h
  Ends-map f g m n (some live_failed) w s i j h = h
  Ends-map f g m n (some spool_read_failed) w s i j h = h
  Ends-map f g m n (some window_overrun) w s i j h = h
  Ends-map f g m n (some seek_ahead) w s i j h = h
  Ends-map f g m n (some invalid_whence) w s i j h = h

  -- The bytes are the stream's from where the window stands, and the window moves behind them;
  -- its mark is the furthest that it got.
  pub record Delivers (w : WindowReader) (room : ℕ) (v : WindowReader) (bytes : List ℕ)
      : Type 0 where
    pub same : bytes ≡ slice content w.pos (length bytes)
    pub fits : length bytes ≤ room
    pub moved : v.pos ≡ w.pos + length bytes
    pub size : v.size ≡ w.size
    pub mark : v.mirrored ≡ max w.mirrored v.pos

  pub Delivers-none : (w : WindowReader) (room : ℕ) → w.pos ≤ w.mirrored → Delivers w room w []
  Delivers-none w room p = record {
    same = unfold slice in refl;
    fits = omega arith;
    moved = omega arith;
    size = refl;
    mark = omega arith;
  }

  pub advanced-IsMirror :
      (w : WindowReader) (s : S) (n : ℕ)
      → n ≤ w.mirrored - w.pos
      → IsMirror w s
      → IsMirror (advanced w n) s
  advanced-IsMirror w s n h m = record {
    reached = omega (arith, m.reached);
    within = m.within;
    spooled = m.spooled;
    same = m.same;
    at = m.at;
  }

  teed_new :
      (w : WindowReader) (s : S) (bytes : List ℕ)
      → w.mirrored ≤ w.pos
      → bytes ≡ slice content (cursor s) (length bytes)
      → IsMirror w s
      → (x : ℕ) → x < w.pos + length bytes
      → w.pos ≤ x
      → byte_or_zero bytes (x - w.pos) ≡ content x
  teed_new w s bytes p e m x l h =
      ap (λ (b : List ℕ). byte_or_zero b (x - w.pos)) e
      ∙ byte_or_zero-slice content (cursor s) (length bytes) (x - w.pos) (omega arith)
      ∙ ap content (omega (arith, m.at, m.reached))

  teed_byte :
      (w : WindowReader) (s : S) (bytes : List ℕ)
      → w.mirrored ≤ w.pos
      → bytes ≡ slice content (cursor s) (length bytes)
      → IsMirror w s
      → (x : ℕ) → x < w.pos + length bytes
      → byte_at (write_at bytes w.pos w.spool) x ≡ content x
  teed_byte w s bytes p e m x l =
      rw (byte_at-write_at bytes w.pos w.spool x)
        (ground (arith, m.same x, m.at, m.reached, teed_new w s bytes p e m x l))

  -- Where the window stands at the mark, a live read keeps the mirror.
  pub teed-IsMirror :
      (w : WindowReader) (s r : S) (bytes : List ℕ)
      → w.mirrored ≤ w.pos
      → length bytes ≤ w.size - w.pos
      → 0 < length bytes
      → bytes ≡ slice content (cursor s) (length bytes)
      → cursor r ≡ cursor s + length bytes
      → IsMirror w s
      → IsMirror (teed w bytes) r
  unfolding teed
  teed-IsMirror w s r bytes p room some_bytes e c m = record {
    reached = omega arith;
    within = omega (arith, m.within, m.reached);
    spooled = size-write_at-le bytes w.pos w.spool some_bytes;
    same = teed_byte w s bytes p e m;
    at = omega (arith, m.at, m.reached);
  }
