-- ===== src/Overlay/Bounded/Laws.antt =====
-- coalesceDirtyLocked and ensureDirtyBounded, and the bytes that the open file shows.
use storhub.Prelude.{
  ℕ, zero, suc, ◌+◌, ◌-◌, ◌≤◌, ◌<◌, true, ◌&&◌, not, List, [], ◌∷◌, Option, some, ◌≡◌, arith, ltb,
  leb, ◌==◌, if◌then◌else◌, min, length, Bool-cases, if-true, if-false, inl, inr, refl, ap, ◌∙◌,
}
use storhub.Ranges.{ByteRange}
use storhub.Ranges.Cover.{covers, within, Gapped, IsCanonical, covers_below}
use storhub.LocalFile.{
  File, byte_at, truncate, slice, length-slice, write_at, byte_at-write_at, byte_at-truncate,
  byte_or_zero-slice,
}
use storhub.Overlay.{Overlay, Hub, temp_or_new, ok, max_dirty_ranges}
use storhub.Overlay.View.{view, Serves, Snapshots, IsOver, IsSound}
use storhub.Overlay.Read.{read_base_lem}
use storhub.Overlay.Bounded.{
  backfill_loop, backfill_gap, backfill_gaps, whole_file, coalesce_dirty, ensure_dirty_bounded,
}

-- Writing a slice of the base at its offset.
byte_at-write_slice :
    (b : ℕ → ℕ) (off n : ℕ) (f : File) (x : ℕ)
    → byte_at (write_at (slice b off n) off f) x
      ≡ (if leb off x && ltb x (off + n) then b x else byte_at f x)
byte_at-write_slice b off n f x =
    byte_at-write_at (slice b off n) off f x
    ∙ rw (length-slice b off n) (elim (Bool-cases (leb off x && ltb x (off + n))) [
      | inr out ↦ rw out
      | inl in_ ↦ rw in_ (byte_or_zero-slice b off n (x - off) (ground arith) ∙ ap b (ground arith))
    ])

-- A file that is another with the base's bytes in a span.
abbrev Patched : File → ℕ → ℕ → File → File → Type 0
Patched base from to f f' =
    (x : ℕ) → byte_at f' x ≡ (if leb from x && ltb x to then byte_at base x else byte_at f x)

top_is_min : (a b : ℕ) → (if ltb a b then a else b) ≡ min a b
top_is_min a b = ground arith

module _ (hub : Hub) (base : File) (serves : Serves hub base) (page : ℕ) (page_pos : 0 < page)
    (snapshot : Option File) (snap : Snapshots snapshot base) where
  backfill_loop_lem :
      (fuel offset to : ℕ) (f : File)
      → to - offset ≤ fuel
      → to ≤ base.size
      → (f' : File) × (backfill_loop fuel hub page snapshot offset to f ≡ ok f')
        × Patched base offset to f f'
  unfolding backfill_loop
  backfill_loop_lem zero offset to f h b = (f, refl, λ x. ground arith)
  backfill_loop_lem (suc fuel) offset to f h b = elim (Bool-cases (ltb offset to)) [
    | inr done ↦ (f, rw done, λ x. ground arith)
    | inl more ↦
        let want = if ltb (to - offset) page then to - offset else page in
        let (k, fits, read) =
          read_base_lem hub base serves snapshot offset want (ground arith) snap (ground arith) in
        let (f', e, same) =
          backfill_loop_lem fuel (offset + suc k) to
            (write_at (slice (byte_at base) offset (suc k)) offset f) (omega arith) b in
        (
          f',
          rw (more, read) (rw (length-slice (byte_at base) offset (suc k)) e),
          λ x. same x ∙ rw (byte_at-write_slice (byte_at base) offset (suc k) f x) (ground arith),
        )
  ]

  backfill_gap_lem :
      (from to b : ℕ) (f : File)
      → base.size ≡ b
      → (f' : File) × (backfill_gap hub page snapshot b from to f ≡ ok f')
        × Patched base from (min b to) f f'
  unfolding backfill_gap
  backfill_gap_lem from to b f size =
      rw (top_is_min b to) (elim (Bool-cases (leb (min b to) from)) [
        | inl empty ↦ (f, rw empty, λ x. ground arith)
        | inr some_ ↦
            let (f', e, same) =
              backfill_loop_lem (min b to - from) from (min b to) f (omega arith) (omega arith) in
            (f', rw some_ e, same)
      ])

  backfill_gaps_lem :
      (logical pos lo b : ℕ) (rs : List ByteRange) (f : File)
      → Gapped lo rs
      → pos ≤ lo
      → ((x : ℕ) → covers rs x ≡ true → x < logical)
      → base.size ≡ b
      → (f' : File) × (backfill_gaps hub page snapshot b logical pos rs f ≡ ok f')
        × ((x : ℕ)
            → byte_at f' x ≡ (
                if leb pos x && ltb x (min b logical) && not (covers rs x)
                then byte_at base x
                else byte_at f x))
  unfolding backfill_gaps covers
  backfill_gaps_lem logical pos lo b [] f g h below size =
      let (f', e, same) = backfill_gap_lem pos logical b f size in
      (f', e, λ x. ground (arith, same x))
  backfill_gaps_lem logical pos lo b (r ∷ rs) f g h below size =
      let (f1, e1, same1) = backfill_gap_lem pos r.start b f size in
      let (f2, e2, same2) =
        backfill_gaps_lem logical r.end (r.end + 1) b rs f1 g.2 (omega arith)
          (λ x c. below x (ground arith)) size in
      (
        f2,
        rw e1 e2,
        λ x.
            unfold within in
            ground (
              arith,
              same1 x,
              same2 x,
              covers_below (r.end + 1) rs x g.2,
              below r.start,
              below (r.end - 1),
            ),
      )

covers-whole_file : (n x : ℕ) → covers (whole_file n) x ≡ ltb x n
unfolding whole_file covers within
covers-whole_file zero x = ground arith
covers-whole_file (suc n) x = ground arith

whole_file-IsCanonical : (n : ℕ) → IsCanonical (whole_file n)
unfolding whole_file
whole_file-IsCanonical n = elim (Bool-cases (n == 0)) [
  | inl e ↦ rw e tt
  | inr e ↦ rw e (omega arith, ground arith, tt)
]

length-whole_file : (n : ℕ) → length (whole_file n) ≤ 1
unfolding whole_file
length-whole_file n = elim (Bool-cases (n == 0)) [
  | inl e ↦ rw e (omega arith)
  | inr e ↦ rw e (omega arith)
]

-- Two overlays of one file that show the same bytes.
pub record SameView (base : File) (w w' : Overlay) : Type 0 where
  pub same_size : w'.logical_size ≡ w.logical_size
  pub same_bytes : (x : ℕ) → x < w.logical_size → view base w' x ≡ view base w x

abbrev pub Kept : File → Overlay → Overlay → Type 0
Kept base w w' =
    IsSound w' × IsOver base w' × SameView base w w' × (length w'.dirty ≤ max_dirty_ranges)

collapsed : File → Overlay → Overlay
collapsed f w = record w {
  temp = some (truncate w.logical_size f);
  dirty = whole_file w.logical_size;
  temp_authoritative = true;
}

-- The dirty set of a whole file, over any temp that fits it.
spanned-IsSound :
    (w : Overlay)
    → w.dirty ≡ whole_file w.logical_size
    → (temp_or_new w).size ≤ w.logical_size
    → IsSound w
spanned-IsSound w e fits = record {
  sorted = rw e (whole_file-IsCanonical w.logical_size);
  below = λ x c. ground (arith, covers-whole_file w.logical_size x);
  temp_fits = fits;
  full = λ a x l c. absurd (ground (arith, covers-whole_file w.logical_size x));
  holes = λ x c b. unfold byte_at in ground (arith, covers-whole_file w.logical_size x);
}

collapsed-IsOver :
    {base : File} (f : File) (w : Overlay) → IsOver base w → IsOver base (collapsed f w)
unfolding collapsed
collapsed-IsOver f w over = record {
  canonical = whole_file-IsCanonical w.logical_size;
  base_is = over.base_is;
  snapshot = over.snapshot;
}

collapsed-SameView :
    {base : File} (f : File) (w : Overlay)
    → IsSound w
    → ((x : ℕ)
        → byte_at f x ≡ (
            if leb 0 x && ltb x (min w.base_size w.logical_size) && not (covers w.dirty x)
            then byte_at base x
            else byte_at (temp_or_new w) x))
    → SameView base w (collapsed f w)
collapsed-SameView f w sound same = record {
  same_size = unfold collapsed in refl;
  same_bytes = λ x h.
      unfold collapsed view temp_or_new in
      ground (
        arith,
        covers-whole_file w.logical_size x,
        byte_at-truncate w.logical_size f x,
        same x,
        sound.holes x,
      );
}

-- An authoritative temp needs no copy.
respan : Overlay → Overlay
respan w = record w { dirty = whole_file w.logical_size }

respan-Kept :
    (base : File) (w : Overlay)
    → IsSound w
    → IsOver base w
    → w.temp_authoritative ≡ true
    → Kept base w (respan w)
unfolding respan
respan-Kept base w sound over auth = (
  spanned-IsSound (record w { dirty = whole_file w.logical_size }) refl
      (unfold temp_or_new in sound.temp_fits),
  record {
    canonical = whole_file-IsCanonical w.logical_size;
    base_is = over.base_is;
    snapshot = over.snapshot;
  },
  record {
    same_size = refl;
    same_bytes = λ x h.
        unfold view temp_or_new in
        ground (arith, covers-whole_file w.logical_size x, sound.full auth x h, sound.holes x);
  },
  omega (arith, length-whole_file w.logical_size),
)

module _ (hub : Hub) (base : File) (serves : Serves hub base) (page : ℕ) (page_pos : 0 < page) where
  -- coalesceDirtyLocked succeeds over any hub that serves the base, leaves at most maxDirtyRanges dirty
  -- spans, keeps every byte that the open file shows, and stays sound.
  pub coalesce_dirty_lem :
      (w : Overlay)
      → IsSound w
      → IsOver base w
      → (w' : Overlay) × (coalesce_dirty hub page w ≡ ok w') × Kept base w w'
  unfolding coalesce_dirty
  coalesce_dirty_lem w sound over =
      let (f, e, same) =
        backfill_gaps_lem hub base serves page page_pos w.base_temp over.snapshot w.logical_size 0 0
          w.base_size w.dirty (temp_or_new w) sound.sorted (omega arith) sound.below over.base_is in
      (
        collapsed f w,
        unfold collapsed in rw e,
        (
          spanned-IsSound (collapsed f w) (unfold collapsed in refl)
              (unfold collapsed temp_or_new truncate in omega arith),
          collapsed-IsOver f w over,
          collapsed-SameView f w sound same,
          unfold collapsed in omega (arith, length-whole_file w.logical_size),
        ),
      )

  -- ensureDirtyBounded succeeds, keeps every byte that the open file shows, and leaves at most
  -- maxDirtyRanges spans.
  pub ensure_dirty_bounded_lem :
      (w : Overlay)
      → IsSound w
      → IsOver base w
      → (w' : Overlay) × (ensure_dirty_bounded hub page w ≡ ok w') × Kept base w w'
  unfolding ensure_dirty_bounded
  ensure_dirty_bounded_lem w sound over =
      elim (Bool-cases (leb (length w.dirty) max_dirty_ranges)) [
        | inl few ↦ (
          w,
          rw few,
          (sound, over, record { same_size = refl; same_bytes = λ x h. refl }, ground arith),
        )
        | inr many ↦ rw many (elim (Bool-cases (w.temp_authoritative)) [
          | inl auth ↦
              (respan w, unfold respan in if-true _ _ auth, respan-Kept base w sound over auth)
          | inr partial ↦
              let (w', e, kept) = coalesce_dirty_lem w sound over in
              (w', if-false _ _ partial ∙ e, kept)
        ])
      ]
