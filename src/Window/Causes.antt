-- ===== src/Window/Causes.antt =====
-- The errors of Read and their causes: internal/storage/window.go.
use storhub.Prelude.{
  ℕ, zero, suc, ◌-◌, ◌<◌, min, Bool, true, false, ◌&&◌, Option, none, some, List, [], ◌∷◌, ◌++◌,
  ltb, leb, ◌==◌, length, drop, ◌≡◌, refl, arith, Bool-cases, inl, inr,
}
use storhub.LocalFile.{File}
use storhub.Window.{
  WindowReader, WindowError, LiveRead, LiveError, live_eof, live_broken, ReadResult, eof,
  unexpected_eof, no_progress, live_failed, spool_read_failed, spool_write_failed, window_overrun,
  seek_ahead, invalid_whence, out_of_fuel, Turn, halted, filled, eof_at_start, is_nil, after_live,
  teed, replay, pull, read_turn, take_turn, read_loop, read,
}

module _ {S : Type 0} (live_read : S → ℕ → LiveRead S)
    (disk_reads disk_writes : File → ℕ → Bool) where
  -- The live stream reported this error.
  abbrev pub Reported : LiveError → Type 0
  Reported e = (s : S) × (n : ℕ) × ((live_read s n).error ≡ some e)

  -- The live stream answered a read of some bytes by none and no error.
  abbrev pub Stalled : Type 0
  Stalled =
      (s : S) × (n : ℕ) × (0 < n)
      × (is_nil (live_read s n).bytes ≡ true)
      × ((live_read s n).error ≡ none)

  -- A read of the spool failed, or a write.
  abbrev pub Failed : (File → ℕ → Bool) → Type 0
  Failed works = (f : File) × (at : ℕ) × (works f at ≡ false)

  -- What the surroundings did where a read ends by an error. A seek has the errors that are left.
  abbrev pub Caused : Option WindowError → Type 0
  Caused none = Unit
  Caused (some eof) = Unit
  Caused (some unexpected_eof) = Reported live_eof
  Caused (some no_progress) = Stalled
  Caused (some live_failed) = Reported live_broken
  Caused (some spool_read_failed) = Failed disk_reads
  Caused (some spool_write_failed) = Failed disk_writes
  Caused (some window_overrun) = ⊥
  Caused (some seek_ahead) = ⊥
  Caused (some invalid_whence) = ⊥
  Caused (some out_of_fuel) = Unit

  abbrev TurnCaused : Turn S → Type 0
  TurnCaused (halted w s bytes e) = Caused e
  TurnCaused (filled w s bytes) = Unit

  eof_at_start-Caused : (b : Bool) → Caused (eof_at_start b)
  eof_at_start-Caused true = tt
  eof_at_start-Caused false = tt

  after_live-Caused :
      (w : WindowReader) (r s : S) (n : ℕ) (first : Bool) (bytes : List ℕ) (e : Option LiveError)
      → 0 < n
      → (live_read s n).bytes ≡ bytes
      → (live_read s n).error ≡ e
      → TurnCaused (after_live w r first bytes e)
  unfolding after_live
  after_live-Caused w r s n first bytes (some live_broken) p b h = (s, n, h)
  after_live-Caused w r s n first bytes (some live_eof) p b h =
      elim (Bool-cases (w.pos == w.size)) [
        | inl k ↦ rw k (eof_at_start-Caused (first && is_nil bytes))
        | inr k ↦ rw k (s, n, h)
      ]
  after_live-Caused w r s n first [] none p b h = (s, n, p, rw b refl, h)
  after_live-Caused w r s n first (c ∷ bytes) none p b h = tt

  nil_bytes : (bytes : List ℕ) → is_nil bytes ≡ true → bytes ≡ []
  nil_bytes [] h = refl
  nil_bytes (b ∷ bytes) h = ground (arith, h)

  replay-Caused :
      (w : WindowReader) (s : S) (buf : List ℕ)
      → TurnCaused (replay live_read disk_reads disk_writes w s buf)
  unfolding replay
  replay-Caused w s buf = elim (Bool-cases (disk_reads w.spool w.pos)) [
    | inl h ↦ rw h tt
    | inr h ↦ rw h (w.spool, w.pos, h)
  ]

  pull-Caused :
      (w : WindowReader) (s : S) (first : Bool) (buf : List ℕ)
      → 0 < min (length buf) (w.size - w.pos)
      → TurnCaused (pull live_read disk_reads disk_writes w s first buf)
  unfolding pull
  pull-Caused w s first buf p =
      let n = min (length buf) (w.size - w.pos) in
      let r = live_read s n in
      elim (Bool-cases (is_nil r.bytes)) [
        | inl h ↦
            rw h (after_live-Caused w r.rest s n first [] r.error p (nil_bytes r.bytes h) refl)
        | inr h ↦ elim (Bool-cases (disk_writes w.spool w.pos)) [
          | inl k ↦
              rw (h, k)
                (after_live-Caused (teed w r.bytes) r.rest s n first r.bytes r.error p refl refl)
          | inr k ↦ rw (h, k) (w.spool, w.pos, k)
        ]
      ]

  read_turn-Caused :
      (w : WindowReader) (s : S) (first : Bool) (buf : List ℕ)
      → 0 < length buf
      → TurnCaused (read_turn live_read disk_reads disk_writes w s first buf)
  unfolding read_turn
  read_turn-Caused w s first buf p = elim (Bool-cases (leb w.size w.pos)) [
    | inl h ↦ rw h (eof_at_start-Caused first)
    | inr h ↦ elim (Bool-cases (ltb w.pos w.mirrored)) [
      | inl k ↦ rw (h, k) (replay-Caused w s buf)
      | inr k ↦ rw (h, k) (pull-Caused w s first buf (ground (arith, h, p)))
    ]
  ]

  take_turn-Caused :
      (t : Turn S) (done : List ℕ) (on : WindowReader → S → List ℕ → ReadResult S)
      → TurnCaused t
      → ((w : WindowReader) (s : S) (bytes : List ℕ) → Caused (on w s bytes).error)
      → Caused (take_turn live_read disk_reads disk_writes t done on).error
  unfolding take_turn
  take_turn-Caused (halted w s bytes e) done on h k = h
  take_turn-Caused (filled w s bytes) done on h k = k w s bytes

  read_loop-Caused :
      (fuel : ℕ) (w : WindowReader) (s : S) (done buf : List ℕ)
      → Caused (read_loop live_read disk_reads disk_writes fuel w s done buf).error
  unfolding read_loop
  read_loop-Caused zero w s done buf = tt
  read_loop-Caused (suc fuel) w s done [] = tt
  read_loop-Caused (suc fuel) w s done (b ∷ buf) =
      take_turn-Caused (read_turn live_read disk_reads disk_writes w s (is_nil done) (b ∷ buf)) done
        (λ v r bytes.
          read_loop live_read disk_reads disk_writes fuel v r (done ++ bytes)
            (drop (length bytes) (b ∷ buf)))
        (read_turn-Caused w s (is_nil done) (b ∷ buf) (omega arith))
        (λ v r bytes. read_loop-Caused fuel v r (done ++ bytes) (drop (length bytes) (b ∷ buf)))

  pub read-Caused :
      (w : WindowReader) (s : S) (buf : List ℕ)
      → Caused (read live_read disk_reads disk_writes w s buf).error
  unfolding read
  read-Caused w s buf = read_loop-Caused (suc (length buf)) w s [] buf
