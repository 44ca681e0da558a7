-- ===== src/Window/Trace.antt =====
-- Any sequence of calls of Read and Seek, beside a reader that knows the stream's bytes, its position
-- and how far it got: internal/storage/window.go.
use storhub.Prelude.{
  ℕ, ◌+◌, ◌≤◌, ◌<◌, max, Bool, Option, none, some, List, [], ◌∷◌, ◌≡◌, ◌≢◌, ◌⊎◌, inl, inr, ◌∙◌,
  length, sym, arith, subst,
}
use storhub.LocalFile.{File, slice}
use storhub.Ranges.{Int64}
use storhub.Window.{
  WindowReader, WindowError, LiveRead, ReadResult, read, Whence, SeekResult, sought, seek_failed,
  seek, eof, unexpected_eof, no_progress, live_failed, spool_read_failed, spool_write_failed,
  window_overrun, seek_ahead, invalid_whence, out_of_fuel, new_window_reader,
}
use storhub.Window.Mirror.{Streams, IsMirror, Ends}
use storhub.Window.Seeking.{Target, Seeks, seek_at, seek-Seeks}
use storhub.Window.Reading.{Reads, read_lem}
use storhub.Window.Causes.{Caused, read-Caused}

pub data Call : Type 0 where
  read_call : List ℕ → Call
  seek_call : Int64 → Whence → Call

pub data Answer : Type 0 where
  gave : List ℕ → Option WindowError → Answer
  stands_at : ℕ → Answer
  refused : WindowError → Answer

-- After a failed write to the spool nothing more is asked of the answers.
abbrev pub Unfailed : Option WindowError → Type 0 → Type 0
Unfailed none P = P
Unfailed (some spool_write_failed) P = Unit
Unfailed (some eof) P = P
Unfailed (some unexpected_eof) P = P
Unfailed (some no_progress) P = P
Unfailed (some live_failed) P = P
Unfailed (some spool_read_failed) P = P
Unfailed (some window_overrun) P = P
Unfailed (some seek_ahead) P = P
Unfailed (some invalid_whence) P = P
Unfailed (some out_of_fuel) P = ⊥

-- How a read ends that gave so many bytes into so much room and stands at this position: without an
-- error the buffer is full or the window at its end, `eof` comes with no bytes and at the end only,
-- and `unexpected_eof` before the end.
abbrev pub Ending : ℕ → ℕ → ℕ → ℕ → Option WindowError → Type 0
Ending size at count room none = (count ≡ room) ⊎ (at ≡ size)
Ending size at count room (some eof) = (at ≡ size) × (count ≡ 0)
Ending size at count room (some unexpected_eof) = at ≢ size
Ending size at count room (some no_progress) = Unit
Ending size at count room (some live_failed) = Unit
Ending size at count room (some spool_read_failed) = Unit
Ending size at count room (some spool_write_failed) = Unit
Ending size at count room (some window_overrun) = Unit
Ending size at count room (some seek_ahead) = Unit
Ending size at count room (some invalid_whence) = Unit
Ending size at count room (some out_of_fuel) = Unit

-- The answers of a reader at this position that got as far as the mark: a read gives the next bytes
-- and ends by an error with a cause only, a seek goes to its target where that is not past the mark
-- and is refused otherwise.
pub Follows : (Option WindowError → Type 0) → (ℕ → ℕ) → ℕ → ℕ → ℕ → List Call → List Answer → Type 0
Follows cause content size pos mark [] [] = Unit
Follows cause content size pos mark [] (answer ∷ answers) = ⊥
Follows cause content size pos mark (call ∷ calls) [] = ⊥
Follows cause content size pos mark (read_call buf ∷ calls) (gave bytes e ∷ answers) =
    (bytes ≡ slice content pos (length bytes))
    × (length bytes ≤ length buf)
    × cause e
    × Ending size (pos + length bytes) (length bytes) (length buf) e
    × Unfailed e (
        (pos + length bytes ≤ size)
        × Follows cause content size (pos + length bytes) (max mark (pos + length bytes)) calls
            answers)
Follows cause content size pos mark (read_call buf ∷ calls) (stands_at p ∷ answers) = ⊥
Follows cause content size pos mark (read_call buf ∷ calls) (refused e ∷ answers) = ⊥
Follows cause content size pos mark (seek_call offset whence ∷ calls) (gave bytes e ∷ answers) = ⊥
Follows cause content size pos mark (seek_call offset whence ∷ calls) (stands_at p ∷ answers) =
    Target size pos offset whence p × (p ≤ mark) × Follows cause content size p mark calls answers
Follows cause content size pos mark (seek_call offset whence ∷ calls) (refused e ∷ answers) =
    ((q : ℕ) → Target size pos offset whence q → mark < q)
    × Follows cause content size pos mark calls answers

abbrev seek_then : SeekResult → WindowReader → (WindowReader → List Answer) → List Answer
seek_then (sought v p) w on = stands_at p ∷ on v
seek_then (seek_failed e) w on = refused e ∷ on w

Unfailed-from :
    {S : Type 0} (content : ℕ → ℕ) (cursor : S → ℕ) (full nothing P : Type 0)
    (e : Option WindowError) (w : WindowReader) (s : S)
    → Ends content cursor full nothing e w s
    → (IsMirror content cursor w s → P)
    → Unfailed e P
Unfailed-from content cursor full nothing P none w s h f = f h.0
Unfailed-from content cursor full nothing P (some spool_write_failed) w s h f = tt
Unfailed-from content cursor full nothing P (some eof) w s h f = f h.0
Unfailed-from content cursor full nothing P (some unexpected_eof) w s h f = f h.0
Unfailed-from content cursor full nothing P (some no_progress) w s h f = f h
Unfailed-from content cursor full nothing P (some live_failed) w s h f = f h
Unfailed-from content cursor full nothing P (some spool_read_failed) w s h f = f h
Unfailed-from content cursor full nothing P (some window_overrun) w s h f = absurd h
Unfailed-from content cursor full nothing P (some seek_ahead) w s h f = absurd h
Unfailed-from content cursor full nothing P (some invalid_whence) w s h f = absurd h
Unfailed-from content cursor full nothing P (some out_of_fuel) w s h f = absurd h

Ending-from :
    {S : Type 0} (content : ℕ → ℕ) (cursor : S → ℕ) (size at count room : ℕ)
    (e : Option WindowError) (w : WindowReader) (s : S)
    → w.pos ≡ at
    → w.size ≡ size
    → Ends content cursor ((count ≡ room) ⊎ (w.pos ≡ w.size)) ((w.pos ≡ w.size) × (count ≡ 0)) e w s
    → Ending size at count room e
Ending-from content cursor size at count room none w s p z (m, inl h) = inl h
Ending-from content cursor size at count room none w s p z (m, inr h) = inr (sym p ∙ h ∙ z)
Ending-from content cursor size at count room (some eof) w s p z (m, (h, n)) = (sym p ∙ h ∙ z, n)
Ending-from content cursor size at count room (some unexpected_eof) w s p z (m, h) =
    λ q. h (p ∙ q ∙ sym z)
Ending-from content cursor size at count room (some no_progress) w s p z h = tt
Ending-from content cursor size at count room (some live_failed) w s p z h = tt
Ending-from content cursor size at count room (some spool_read_failed) w s p z h = tt
Ending-from content cursor size at count room (some spool_write_failed) w s p z h = tt
Ending-from content cursor size at count room (some window_overrun) w s p z h = tt
Ending-from content cursor size at count room (some seek_ahead) w s p z h = tt
Ending-from content cursor size at count room (some invalid_whence) w s p z h = tt
Ending-from content cursor size at count room (some out_of_fuel) w s p z h = tt

module _ {S : Type 0} (live_read : S → ℕ → LiveRead S)
    (disk_reads disk_writes : File → ℕ → Bool) where
  -- The answers of the window to a sequence of calls.
  unfoldable pub run : WindowReader → S → List Call → List Answer
  unfolding read seek
  run w s [] = []
  run w s (read_call buf ∷ calls) =
      let r = read live_read disk_reads disk_writes w s buf in
      gave r.bytes r.error ∷ run r.window r.live calls
  run w s (seek_call offset whence ∷ calls) =
      seek_then (seek w offset whence) w (λ v. run v s calls)

  module _ (content : ℕ → ℕ) (cursor : S → ℕ) (streams : Streams content cursor live_read) where
    abbrev Cause : Option WindowError → Type 0
    Cause = Caused live_read disk_reads disk_writes

    run-seek :
        (w : WindowReader) (offset : Int64) (whence : Whence) (calls : List Call) (r : SeekResult)
        (on : WindowReader → List Answer)
        → Seeks (Target w.size w.pos offset whence) w r
        → ((p : ℕ)
            → p ≤ w.mirrored
            → Follows Cause content w.size p w.mirrored calls (on (seek_at w p)))
        → Follows Cause content w.size w.pos w.mirrored calls (on w)
        → Follows Cause content w.size w.pos w.mirrored
            (seek_call offset whence ∷ calls)
            (seek_then r w on)
    unfolding Follows
    run-seek w offset whence calls (sought v p) on (t, b, e) k l = (
      t,
      b,
      subst (λ (u : WindowReader). Follows Cause content w.size p w.mirrored calls (on u)) (sym e)
          (k p b),
    )
    run-seek w offset whence calls (seek_failed e) on h k l = (h, l)

    Follows-at :
        (size pos mark z p k : ℕ) (calls : List Call) (answers : List Answer)
        → z ≡ size
        → p ≡ pos
        → k ≡ mark
        → Follows Cause content z p k calls answers
        → Follows Cause content size pos mark calls answers
    Follows-at size pos mark z p k calls answers ez ep ek h =
        subst (λ (x : ℕ). Follows Cause content x pos mark calls answers) ez
          (subst (λ (x : ℕ). Follows Cause content z x mark calls answers) ep
            (subst (λ (x : ℕ). Follows Cause content z p x calls answers) ek h))

    run-read :
        (w : WindowReader) (buf : List ℕ) (calls : List Call) (r : ReadResult S)
        (answers : List Answer)
        → Reads content cursor w (length buf) r
        → Cause r.error
        → (IsMirror content cursor r.window r.live
            → Follows Cause content r.window.size r.window.pos r.window.mirrored calls answers)
        → Follows Cause content w.size w.pos w.mirrored
            (read_call buf ∷ calls)
            (gave r.bytes r.error ∷ answers)
    unfolding Follows
    run-read w buf calls r answers (d, ends) c ih =
        let v = r.window in
        let len = length r.bytes in
        (
          d.same,
          d.fits,
          c,
          Ending-from content cursor w.size (w.pos + len) len (length buf) r.error v r.live d.moved
              d.size ends,
          Unfailed-from content cursor ((length r.bytes ≡ length buf) ⊎ (v.pos ≡ v.size))
              ((v.pos ≡ v.size) × (length r.bytes ≡ 0))
              ((w.pos + len ≤ w.size)
                × Follows Cause content w.size (w.pos + len) (max w.mirrored (w.pos + len)) calls
                    answers)
              r.error v r.live ends
              (λ m. (
                omega (arith, m.reached, m.within, d.moved, d.size),
                Follows-at w.size (w.pos + len) (max w.mirrored (w.pos + len)) v.size v.pos
                    v.mirrored calls answers d.size d.moved (omega (arith, d.mark, d.moved)) (ih m),
              )),
        )

    run-Follows :
        (calls : List Call) (w : WindowReader) (s : S)
        → IsMirror content cursor w s
        → Follows Cause content w.size w.pos w.mirrored calls (run w s calls)
    unfolding run
    run-Follows [] w s m = unfold Follows in tt
    run-Follows (read_call buf ∷ calls) w s m =
        let r = read live_read disk_reads disk_writes w s buf in
        run-read w buf calls r (run r.window r.live calls)
          (read_lem content cursor live_read streams disk_reads disk_writes w s buf m)
          (read-Caused live_read disk_reads disk_writes w s buf) (run-Follows calls r.window r.live)
    run-Follows (seek_call offset whence ∷ calls) w s m =
        run-seek w offset whence calls (seek w offset whence) (λ v. run v s calls)
          (seek-Seeks w m.within offset whence)
          (λ p b. run-Follows calls (seek_at w p) s record {
            reached = b;
            within = m.within;
            spooled = m.spooled;
            same = m.same;
            at = m.at;
          })
          (run-Follows calls w s m)

    -- From a new window over a live stream, any sequence of calls of Read and Seek, with any failures
    -- of reads from the spool, is answered as by a reader that knows the stream's bytes: each read
    -- gives the bytes from its position, also behind a rewind, inside the window; without an error it
    -- fills its buffer or ends at the window's end, and an error has a cause: the end of the window,
    -- an error or an empty answer of the live stream, or a failure of the spool. A seek is refused
    -- exactly where it has no target or its target is past the furthest position read. After a failed
    -- write to the spool nothing is claimed of the later answers.
    pub new_window_reader-Follows :
        (size : ℕ) (s : S) (calls : List Call)
        → cursor s ≡ 0
        → Follows
            (Caused live_read disk_reads disk_writes)
            content
            size
            0
            0
            calls
            (run (new_window_reader size) s calls)
    unfolding new_window_reader
    new_window_reader-Follows size s calls at =
        run-Follows calls (new_window_reader size) s record {
          reached = omega arith;
          within = omega arith;
          spooled = omega arith;
          same = λ x l. absurd (omega arith);
          at = at;
        }
