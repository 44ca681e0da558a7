-- ===== src/Window/Reading.antt =====
-- A call of Read: internal/storage/window.go.
use storhub.Prelude.{
  ℕ, zero, suc, ◌+◌, ◌≤◌, ◌<◌, Bool, true, Option, List, [], ◌∷◌, ◌++◌, ◌≡◌, ◌⊎◌, inl, inr, length,
  drop, ap, sym, ◌∙◌, arith, length-drop, length-append,
}
use storhub.LocalFile.{File, slice, slice-add}
use storhub.Window.{
  WindowReader, WindowError, LiveRead, ReadResult, Turn, halted, filled, take_turn, read_turn,
  read_loop, read, is_nil,
}
use storhub.Window.Mirror.{Streams, IsMirror, Ends, Ends-map, Delivers, Delivers-none}
use storhub.Window.Turns.{OnTurn, read_turn-OnTurn, is_nil-length}

module _ {S : Type 0} (content : ℕ → ℕ) (cursor : S → ℕ) where
  -- What a call of Read gives on a buffer of this length: the stream's next bytes from where the
  -- window stands. Without an error the buffer is full or the window is at its end; `eof` comes with
  -- no bytes and at the end only.
  abbrev pub Reads : WindowReader → ℕ → ReadResult S → Type 0
  Reads w room r =
      Delivers content cursor w room r.window r.bytes
      × Ends content cursor ((length r.bytes ≡ room) ⊎ (r.window.pos ≡ r.window.size))
          ((r.window.pos ≡ r.window.size) × (length r.bytes ≡ 0)) r.error r.window r.live

  Delivers-append :
      (w v u : WindowReader) (total room : ℕ) (done bytes : List ℕ)
      → length done + room ≡ total
      → Delivers content cursor w total v done
      → Delivers content cursor v room u bytes
      → Delivers content cursor w total u (done ++ bytes)
  Delivers-append w v u total room done bytes e d b = record {
    same =
        (λ i. d.same i ++ b.same i)
        ∙ ap (λ (p : ℕ). slice content w.pos (length done) ++ slice content p (length bytes))
            d.moved
        ∙ sym (slice-add content w.pos (length done) (length bytes))
        ∙ ap (slice content w.pos) (sym (length-append done bytes));
    fits = omega (arith, length-append done bytes, d.fits, b.fits);
    moved = omega (arith, length-append done bytes, d.moved, b.moved);
    size = b.size ∙ d.size;
    mark = omega (arith, b.mark, d.mark, b.moved);
  }

  halted-Reads :
      (w v u : WindowReader) (r : S) (total room : ℕ) (done bytes : List ℕ) (e : Option WindowError)
      → length done + room ≡ total
      → Delivers content cursor w total v done
      → OnTurn content cursor v (is_nil done) room (halted u r bytes e)
      → Reads w total record { window = u; live = r; bytes = done ++ bytes; error = e }
  halted-Reads w v u r total room done bytes e eq d (b, ends) = (
    Delivers-append w v u total room done bytes eq d b,
    Ends-map content cursor (u.pos ≡ u.size) ((length (done ++ bytes) ≡ total) ⊎ (u.pos ≡ u.size))
        ((u.pos ≡ u.size) × (is_nil done ≡ true) × (length bytes ≡ 0))
        ((u.pos ≡ u.size) × (length (done ++ bytes) ≡ 0)) e u r inr
        (λ n. (n.0, omega (arith, length-append done bytes, is_nil-length done n.1, n.2))) ends,
  )

  module _ (live_read : S → ℕ → LiveRead S) (streams : Streams content cursor live_read)
      (disk_reads disk_writes : File → ℕ → Bool) where
    -- A loop that reads.
    abbrev Reading :
        WindowReader → ℕ → (WindowReader → S → List ℕ → ReadResult S) → List ℕ → ℕ → Type 0
    Reading w total on done room =
        (v : WindowReader) (r : S) (bytes : List ℕ)
        → Delivers content cursor w total v (done ++ bytes)
        → IsMirror content cursor v r
        → 0 < length bytes
        → length bytes ≤ room
        → Reads w total (on v r bytes)

    take_turn-Reads :
        (w v : WindowReader) (total room : ℕ) (done : List ℕ) (t : Turn S)
        (on : WindowReader → S → List ℕ → ReadResult S)
        → length done + room ≡ total
        → Delivers content cursor w total v done
        → OnTurn content cursor v (is_nil done) room t
        → Reading w total on done room
        → Reads w total (take_turn live_read disk_reads disk_writes t done on)
    unfolding take_turn
    take_turn-Reads w v total room done (halted u r bytes e) on eq d o k =
        halted-Reads w v u r total room done bytes e eq d o
    take_turn-Reads w v total room done (filled u r bytes) on eq d (b, m, some_bytes) k =
        k u r bytes (Delivers-append w v u total room done bytes eq d b) m some_bytes b.fits

    read_loop-Reads :
        (fuel : ℕ) (w v : WindowReader) (s : S) (total : ℕ) (done buf : List ℕ)
        → length buf < fuel
        → length done + length buf ≡ total
        → Delivers content cursor w total v done
        → IsMirror content cursor v s
        → Reads w total (read_loop live_read disk_reads disk_writes fuel v s done buf)
    unfolding read_loop
    read_loop-Reads zero w v s total done buf f e d m = absurd (omega arith)
    read_loop-Reads (suc fuel) w v s total done [] f e d m = (d, (m, inl (omega arith)))
    read_loop-Reads (suc fuel) w v s total done (b ∷ buf) f e d m =
        take_turn-Reads w v total (length (b ∷ buf)) done
          (read_turn live_read disk_reads disk_writes v s (is_nil done) (b ∷ buf))
          (λ u r bytes.
            read_loop live_read disk_reads disk_writes fuel u r (done ++ bytes)
              (drop (length bytes) (b ∷ buf)))
          e d
          (read_turn-OnTurn content cursor live_read streams disk_reads disk_writes v s
            (is_nil done) (b ∷ buf) m (omega arith))
          (λ u r bytes dd mm some_bytes fits.
            let room = length-drop (length bytes) (b ∷ buf) in
            read_loop-Reads fuel w u r total (done ++ bytes) (drop (length bytes) (b ∷ buf))
              (omega arith) (omega (arith, length-append done bytes)) dd mm)

    -- Where the spool mirrors the stream, a call of Read with any buffer and any failures of the disk
    -- gives the stream's next bytes from where the window stands, at most as many as the buffer
    -- holds, and moves the window behind them. It never runs out of fuel. Without an error it fills
    -- the buffer or ends at the window's end; `eof` comes with no bytes and at the end only,
    -- `unexpected_eof` not at the end. But for a failed write to the spool the mirror is kept.
    pub read_lem :
        (w : WindowReader) (s : S) (buf : List ℕ)
        → IsMirror content cursor w s
        → Reads w (length buf) (read live_read disk_reads disk_writes w s buf)
    unfolding read
    read_lem w s buf m =
        read_loop-Reads (suc (length buf)) w w s (length buf) [] buf (omega arith) (omega arith)
          (Delivers-none content cursor w (length buf) m.reached) m
