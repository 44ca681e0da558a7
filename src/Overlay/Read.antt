-- ===== src/Overlay/Read.antt =====
-- readIntoLocked and the view of the overlay.
use storhub.Prelude.{
  ℕ, zero, suc, ◌+◌, ◌-◌, ◌≤◌, ◌<◌, true, false, Option, none, some, ◌≡◌, arith, ltb, leb, min,
  Bool-cases, inl, inr, refl, ap, sym, ◌∙◌,
}
use storhub.Ranges.{NextDirty, inside, before_next, past_last, next_dirty_range}
use storhub.Ranges.Cover.{covers, within}
use storhub.Ranges.Query.{Covered, next_dirty_range-Covered}
use storhub.LocalFile.{
  File, byte_at, slice, slice-eq, slice-add, length-slice, zeros-slice, read_at-padded,
  read_at-inside,
}
use storhub.Overlay.{
  Overlay, Hub, temp_or_new, read_segment, read_found, read_clean, read_base, read_dirty, read_loop,
  read_into, Segment, got, from_hub, from_snapshot, ok,
}
use storhub.Overlay.View.{view, Serves, Snapshots, IsOver}

zero_length : (start stop : ℕ) → stop ≤ start → stop - start ≡ 0
zero_length start stop h = omega arith

-- A turn of the loop that reads `suc n` bytes of the view.
abbrev Fills : File → Overlay → ℕ → ℕ → Segment → Type 0
Fills base w start stop s =
    (n : ℕ) × (suc n ≤ stop - start) × (s ≡ got (slice (view base w) start (suc n)))

from_snapshot-cons :
    (b : ℕ → ℕ) (off n : ℕ) → from_snapshot (slice b off (suc n)) ≡ got (slice b off (suc n))
unfolding from_snapshot slice
from_snapshot-cons b off n = refl

from_hub-cons :
    (b : ℕ → ℕ) (off n : ℕ) → from_hub (some (slice b off (suc n))) ≡ got (slice b off (suc n))
unfolding from_hub slice
from_hub-cons b off n = refl

Fills-narrow :
    (base : File) (w : Overlay) (start mid stop : ℕ) (s : Segment)
    → mid ≤ stop
    → Fills base w start mid s
    → Fills base w start stop s
Fills-narrow base w start mid stop s h (n, fits, e) = (n, omega arith, e)

module _ (hub : Hub) (base : File) (serves : Serves hub base) where
  pub read_base_lem :
      (snapshot : Option File) (start len : ℕ)
      → 0 < len
      → Snapshots snapshot base
      → start + len ≤ base.size
      → (k : ℕ) × (suc k ≤ len)
        × (read_base hub snapshot start len ≡ got (slice (byte_at base) start (suc k)))
  unfolding read_base
  read_base_lem snapshot start zero h s b = absurd (omega arith)
  read_base_lem none start (suc n) h s b =
      let (k, fits, e) = serves.answer start (suc n) (omega arith) b in
      (k, fits, rw e (from_hub-cons (byte_at base) start k))
  read_base_lem (some f) start (suc n) h s b = (
    n,
    omega arith,
    rw (read_at-inside f start (suc n) (omega arith)) (
        rw (slice-eq f.byte (byte_at base) start (suc n) (λ x l u. s.1 x (omega arith)))
          (from_snapshot-cons (byte_at base) start n)),
  )

  module _ (w : Overlay) (over : IsOver base w) where
    read_clean-Fills :
        (start stop : ℕ)
        → start < stop
        → stop ≤ w.logical_size
        → ((x : ℕ) → start ≤ x → x < stop → covers w.dirty x ≡ false)
        → Fills base w start stop (read_clean hub w start stop)
    unfolding read_clean view
    read_clean-Fills start stop h b clean =
        elim (Bool-cases (leb (min w.base_size w.logical_size) start)) [
          | inl past ↦ rw past (
            stop - start - 1,
            omega arith,
            ap got (
                zeros-slice (view base w) start (stop - start)
                  (λ x l u. ground (arith, clean x l (omega arith)))
                ∙ ap (slice (view base w) start) (omega arith)),
          )
          | inr below ↦ rw below (
              let len = min stop (min w.base_size w.logical_size) - start in
              let (k, fits, read) =
                read_base_lem w.base_temp start len (ground arith) over.snapshot
                  (ground (arith, over.base_is)) in
              (
                k,
                omega arith,
                read
                    ∙ ap got (
                        slice-eq (byte_at base) (view base w) start (suc k)
                          (λ x l u. ground (arith, clean x l (omega arith)))),
              ))
        ]

    read_dirty-Fills :
        (start stop : ℕ)
        → start < stop
        → ((x : ℕ) → start ≤ x → x < stop → covers w.dirty x ≡ true)
        → Fills base w start stop (got (read_dirty (temp_or_new w) start stop))
    unfolding read_dirty view
    read_dirty-Fills start stop h dirty = (
      stop - start - 1,
      omega arith,
      ap got (
          read_at-padded start (stop - start) (temp_or_new w)
          ∙ slice-eq (byte_at (temp_or_new w)) (view base w) start (stop - start)
              (λ x l u. ground (arith, dirty x l (omega arith)))
          ∙ ap (slice (view base w) start) (omega arith)),
    )

    read_found-Fills :
        (start stop : ℕ) (d : NextDirty)
        → start < stop
        → stop ≤ w.logical_size
        → Covered start w.dirty d
        → Fills base w start stop (read_found hub w start stop d)
    unfolding read_found within
    read_found-Fills start stop (inside r) h b a =
        Fills-narrow base w start (min r.end stop) stop _ (omega arith) (
          read_dirty-Fills start (min r.end stop) (ground (arith, a.0))
            (λ x l u. a.1 x (ground (arith, a.0))))
    read_found-Fills start stop (before_next r) h b a =
        Fills-narrow base w start (min r.start stop) stop _ (omega arith) (
          read_clean-Fills start (min r.start stop) (ground (arith, a.0)) (omega arith)
            (λ x l u. a.1 x l (omega arith)))
    read_found-Fills start stop past_last h b a = read_clean-Fills start stop h b (λ x l u. a x l)

    read_segment-Fills :
        (start stop : ℕ)
        → start < stop
        → stop ≤ w.logical_size
        → Fills base w start stop (read_segment hub w start stop)
    unfolding read_segment
    read_segment-Fills start stop h b =
        read_found-Fills start stop (next_dirty_range start w.dirty) h b
          (next_dirty_range-Covered start 0 w.dirty over.canonical)

    read_loop_lem :
        (fuel start stop : ℕ)
        → stop - start ≤ fuel
        → stop ≤ w.logical_size
        → read_loop fuel hub w start stop ≡ ok (slice (view base w) start (stop - start))
    unfolding read_loop
    read_loop_lem zero start stop h b =
        rw (zero_length start stop (omega arith)) (unfold slice in refl)
    read_loop_lem (suc fuel) start stop h b = elim (Bool-cases (ltb start stop)) [
      | inr over_ ↦ rw over_ (rw (zero_length start stop (ground arith)) (unfold slice in refl))
      | inl more ↦ rw more (
          let (n, fits, e) = read_segment-Fills start stop (ground arith) b in
          rw e (
            rw (length-slice (view base w) start (suc n)) (
              rw (read_loop_lem fuel (start + suc n) stop (omega arith) b) (
                ap ok (
                  sym (slice-add (view base w) start (suc n) (stop - (start + suc n)))
                  ∙ ap (slice (view base w) start) (omega arith))))))
    ]

  -- Over any hub that serves the committed file, readIntoLocked fills the buffer up to the end of
  -- the open file with exactly the bytes of its view, and never fails or stops short.
  pub read_into_lem :
      (w : Overlay) (off len : ℕ)
      → IsOver base w
      → read_into hub w off len ≡ ok (slice (view base w) off (min len (w.logical_size - off)))
  unfolding read_into slice
  read_into_lem w off len over = elim (Bool-cases (leb w.logical_size off)) [
    | inl past ↦ rw past (ap (λ n. ok (slice (view base w) off n)) {x = 0} (ground arith))
    | inr inside_ ↦ rw inside_ (
        rw
          (read_loop_lem w over len off (off + min len (w.logical_size - off)) (omega arith)
            (ground arith))
          (ap (λ n. ok (slice (view base w) off n)) (omega arith)))
  ]
