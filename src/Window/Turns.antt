-- ===== src/Window/Turns.antt =====
-- One turn of Read's loop: internal/storage/window.go.
use storhub.Prelude.{
  ℕ, zero, suc, ◌+◌, ◌-◌, ◌≤◌, ◌<◌, min, max, Bool, true, false, ◌&&◌, Option, none, some, List, [],
  ◌∷◌, ◌++◌, ◌≡◌, length, take, drop, refl, ap, sym, ◌∙◌, arith, append-nil, Bool-cases, inl, inr,
  ltb, leb, ◌==◌, length-take, ==_iff,
}
use storhub.LocalFile.{File, byte_at, slice, length-slice, read_at, read_at-inside, slice-eq}
use storhub.Window.{
  WindowReader, LiveRead, LiveError, live_eof, live_broken, teed, advanced, Turn, halted, filled,
  replay, pull, read_turn, after_live, is_nil, eof_at_start,
}
use storhub.Window.Mirror.{
  Streams, IsMirror, Ends, Delivers, Delivers-none, advanced-IsMirror, teed-IsMirror,
}

replay_bytes :
    (content : ℕ → ℕ) (f : File) (pos n : ℕ) (buf : List ℕ)
    → pos + n ≤ f.size
    → n ≤ length buf
    → ((x : ℕ) → pos ≤ x → x < pos + n → byte_at f x ≡ content x)
    → read_at pos n f ++ drop (length (read_at pos n f)) (take n buf) ≡ slice content pos n
replay_bytes content f pos n buf fits room same =
    let got : read_at pos n f ≡ slice content pos n =
      read_at-inside f pos n fits
      ∙ slice-eq f.byte content pos n (λ x l u. unfold byte_at in ground (arith, same x l u)) in
    rw (got, length-slice content pos n)
      (ap (λ (rest : List ℕ). slice content pos n ++ rest)
          (drop_all n (take n buf) (omega (arith, length-take n buf)))
        ∙ append-nil (slice content pos n))
  where
    drop_all : (n : ℕ) (xs : List ℕ) → length xs ≤ n → drop n xs ≡ []
    drop_all zero [] h = refl
    drop_all zero (x ∷ xs) h = absurd (omega arith)
    drop_all (suc n) [] h = refl
    drop_all (suc n) (x ∷ xs) h = drop_all n xs (omega arith)

pub is_nil-length : (bytes : List ℕ) → is_nil bytes ≡ true → length bytes ≡ 0
is_nil-length [] h = refl
is_nil-length (b ∷ bytes) h = ground (arith, h)

not_nil-length : (bytes : List ℕ) → is_nil bytes ≡ false → 0 < length bytes
not_nil-length [] h = ground (arith, h)
not_nil-length (b ∷ bytes) h = omega arith

module _ {S : Type 0} (content : ℕ → ℕ) (cursor : S → ℕ) where
  -- What a turn does to the window, the stream and the buffer.
  abbrev pub OnTurn : WindowReader → Bool → ℕ → Turn S → Type 0
  OnTurn w first room (halted v r bytes e) =
      Delivers content cursor w room v bytes
      × Ends content cursor (v.pos ≡ v.size)
          ((v.pos ≡ v.size) × (first ≡ true) × (length bytes ≡ 0)) e v r
  OnTurn w first room (filled v r bytes) =
      Delivers content cursor w room v bytes × IsMirror content cursor v r × (0 < length bytes)

  at_start-Ends :
      (first : Bool) (bytes : List ℕ) (v : WindowReader) (r : S)
      → IsMirror content cursor v r
      → v.pos ≡ v.size
      → Ends content cursor
          (v.pos ≡ v.size)
          ((v.pos ≡ v.size) × (first ≡ true) × (length bytes ≡ 0))
          (eof_at_start (first && is_nil bytes))
          v
          r
  at_start-Ends true [] v r m e = (m, (e, refl, refl))
  at_start-Ends true (b ∷ bytes) v r m e = (m, e)
  at_start-Ends false bytes v r m e = (m, e)

  after_live-OnTurn :
      (w v : WindowReader) (r : S) (first : Bool) (room : ℕ) (bytes : List ℕ) (e : Option LiveError)
      → Delivers content cursor w room v bytes
      → IsMirror content cursor v r
      → OnTurn w first room (after_live v r first bytes e)
  unfolding after_live
  after_live-OnTurn w v r first room bytes (some live_broken) d m = (d, m)
  after_live-OnTurn w v r first room bytes (some live_eof) d m =
      elim (Bool-cases (v.pos == v.size)) [
        | inl h ↦ rw h (d, at_start-Ends first bytes v r m ((==_iff v.pos v.size).0 h))
        | inr h ↦ rw h (d, (m, λ q. ground (arith, q, h)))
      ]
  after_live-OnTurn w v r first room bytes none d m = elim (Bool-cases (is_nil bytes)) [
    | inl h ↦ rw h (d, m)
    | inr h ↦ rw h (d, m, not_nil-length bytes h)
  ]

  start-Ends :
      (first : Bool) (v : WindowReader) (r : S)
      → IsMirror content cursor v r
      → v.pos ≡ v.size
      → Ends content cursor
          (v.pos ≡ v.size)
          ((v.pos ≡ v.size) × (first ≡ true) × (length {A = ℕ} [] ≡ 0))
          (eof_at_start first)
          v
          r
  start-Ends true v r m e = (m, (e, refl, refl))
  start-Ends false v r m e = (m, e)

  rest-IsMirror :
      (w : WindowReader) (s r : S)
      → cursor r ≡ cursor s
      → IsMirror content cursor w s
      → IsMirror content cursor w r
  rest-IsMirror w s r e m = record {
    reached = m.reached;
    within = m.within;
    spooled = m.spooled;
    same = m.same;
    at = e ∙ m.at;
  }

  teed-Delivers :
      (w : WindowReader) (room : ℕ) (bytes : List ℕ)
      → length bytes ≤ room
      → w.mirrored ≤ w.pos
      → bytes ≡ slice content w.pos (length bytes)
      → Delivers content cursor w room (teed w bytes) bytes
  unfolding teed
  teed-Delivers w room bytes h l e = record {
    same = e;
    fits = h;
    moved = refl;
    size = refl;
    mark = omega arith;
  }

  slice-Delivers :
      (w v : WindowReader) (room n : ℕ)
      → n ≤ room
      → v.pos ≡ w.pos + n
      → v.size ≡ w.size
      → v.mirrored ≡ max w.mirrored v.pos
      → Delivers content cursor w room v (slice content w.pos n)
  slice-Delivers w v room n h p z k = record {
    same = ap (slice content w.pos) (sym (length-slice content w.pos n));
    fits = omega (arith, length-slice content w.pos n);
    moved = omega (arith, length-slice content w.pos n);
    size = z;
    mark = k;
  }

  module _ (live_read : S → ℕ → LiveRead S) (streams : Streams content cursor live_read)
      (disk_reads disk_writes : File → ℕ → Bool) where
    replay-OnTurn :
        (w : WindowReader) (s : S) (first : Bool) (buf : List ℕ)
        → IsMirror content cursor w s
        → w.pos < w.mirrored
        → 0 < length buf
        → OnTurn w first (length buf) (replay live_read disk_reads disk_writes w s buf)
    unfolding replay
    replay-OnTurn w s first buf m l b = elim (Bool-cases (disk_reads w.spool w.pos)) [
      | inr h ↦ rw h (Delivers-none content cursor w (length buf) m.reached, m)
      | inl h ↦
          let n = min (length buf) (w.mirrored - w.pos) in
          rw
            (
              h,
              replay_bytes content w.spool w.pos n buf (omega (arith, m.spooled)) (omega arith)
                  (λ x lo hi. m.same x (omega arith)),
            )
            (
              slice-Delivers w (advanced w n) (length buf) n (omega arith) refl refl (omega arith),
              advanced-IsMirror content cursor w s n (omega arith) m,
              omega (arith, length-slice content w.pos n),
            )
    ]

    pull-OnTurn :
        (w : WindowReader) (s : S) (first : Bool) (buf : List ℕ)
        → IsMirror content cursor w s
        → w.mirrored ≤ w.pos
        → 0 < length buf
        → OnTurn w first (length buf) (pull live_read disk_reads disk_writes w s first buf)
    unfolding pull
    pull-OnTurn w s first buf m l b =
        let n = min (length buf) (w.size - w.pos) in
        let r = live_read s n in
        let short = streams.short s n in
        let moved = streams.moved s n in
        elim (Bool-cases (is_nil r.bytes)) [
          | inl h ↦ rw h (
              after_live-OnTurn w w r.rest first (length buf) [] r.error
                (Delivers-none content cursor w (length buf) m.reached)
                (rest-IsMirror w s r.rest (omega (arith, moved, is_nil-length r.bytes h)) m))
          | inr h ↦ elim (Bool-cases (disk_writes w.spool w.pos)) [
            | inr k ↦ rw (h, k) (Delivers-none content cursor w (length buf) m.reached, tt)
            | inl k ↦
                rw (h, k)
                  (after_live-OnTurn w (teed w r.bytes) r.rest first (length buf) r.bytes r.error
                    (teed-Delivers w (length buf) r.bytes (omega (arith, short)) l (
                      streams.next s n
                      ∙ ap (λ (c : ℕ). slice content c (length r.bytes))
                          (omega (arith, m.at, m.reached))))
                    (teed-IsMirror content cursor w s r.rest r.bytes l (omega (arith, short))
                      (not_nil-length r.bytes h) (streams.next s n) moved m))
          ]
        ]

    pub read_turn-OnTurn :
        (w : WindowReader) (s : S) (first : Bool) (buf : List ℕ)
        → IsMirror content cursor w s
        → 0 < length buf
        → OnTurn w first (length buf) (read_turn live_read disk_reads disk_writes w s first buf)
    unfolding read_turn
    read_turn-OnTurn w s first buf m b = elim (Bool-cases (leb w.size w.pos)) [
      | inl h ↦ rw h (
        Delivers-none content cursor w (length buf) m.reached,
        start-Ends first w s m (ground (arith, m.reached, m.within, h)),
      )
      | inr h ↦ elim (Bool-cases (ltb w.pos w.mirrored)) [
        | inl k ↦ rw (h, k) (replay-OnTurn w s first buf m (ground (arith, k)) b)
        | inr k ↦ rw (h, k) (pull-OnTurn w s first buf m (ground (arith, k)) b)
      ]
    ]
