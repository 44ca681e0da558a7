-- ===== src/Overlay/Write/Laws.antt =====
-- Write and the view of the overlay.
use storhub.Prelude.{
  ℕ, ◌+◌, ◌-◌, ◌≤◌, ◌<◌, Bool, false, ◌&&◌, ◌||◌, List, some, ◌≡◌, arith, ltb, leb, if◌then◌else◌,
  max, length, Bool-cases, inl, inr, refl, ap, sym, ◌∙◌, if-false, lt→ltb,
}
use storhub.Ranges.{plus}
use storhub.Ranges.Cover.{covers, IsCanonical}
use storhub.Ranges.Mark.{
  covers-mark_dirty, mark_dirty-IsCanonical, covers-truncate_dirty, truncate_dirty-IsCanonical,
}
use storhub.LocalFile.{
  File, byte_at, truncate, write_at, size-write_at, byte_at-write_at, byte_at-truncate,
  byte_or_zero,
}
use storhub.Overlay.{Overlay, Hub, temp_or_new, ensure_temp, set_logical_size, ok}
use storhub.Overlay.View.{view, Serves, IsOver, IsSound}
use storhub.Overlay.Bounded.Laws.{Kept, ensure_dirty_bounded_lem}
use storhub.Overlay.Write.{write_offset, fill_gap, put_bytes, marked, size_at_least, write}

-- An overlay whose content and bookkeeping are those of another with new bytes in a span: the dirty
-- set has the span more, and the temp's bytes are `bytes` inside and unchanged outside.
record IsUpdate (from to : ℕ) (bytes : ℕ → ℕ) (w w' : Overlay) : Type 0 where
  same_base : w'.base_size ≡ w.base_size
  same_snapshot : w'.base_temp ≡ w.base_temp
  same_mode : w'.temp_authoritative ≡ w.temp_authoritative
  size_is : w'.logical_size ≡ max w.logical_size to
  sorted : IsCanonical w'.dirty
  fits : (temp_or_new w').size ≤ max w.logical_size to
  covers_is : (x : ℕ) → covers w'.dirty x ≡ ((leb from x && ltb x to) || covers w.dirty x)
  bytes_are :
      (x : ℕ)
      → byte_at (temp_or_new w') x
        ≡ (if leb from x && ltb x to then bytes x else byte_at (temp_or_new w) x)

-- What a state before its dirty mark must have.
record IsReady (from to : ℕ) (bytes : ℕ → ℕ) (w v : Overlay) : Type 0 where
  same_base : v.base_size ≡ w.base_size
  same_snapshot : v.base_temp ≡ w.base_temp
  same_mode : v.temp_authoritative ≡ w.temp_authoritative
  size_is : v.logical_size ≡ max w.logical_size to
  sorted : IsCanonical v.dirty
  fits : (temp_or_new v).size ≤ max w.logical_size to
  covers_is : (x : ℕ) → covers v.dirty x ≡ covers w.dirty x
  bytes_are :
      (x : ℕ)
      → byte_at (temp_or_new v) x
        ≡ (if leb from x && ltb x to then bytes x else byte_at (temp_or_new w) x)

byte_at_past : (f : File) (x : ℕ) → f.size ≤ x → byte_at f x ≡ 0
unfolding byte_at
byte_at_past f x h = ground arith

marked-IsUpdate :
    (from to : ℕ) (bytes : ℕ → ℕ) (w v : Overlay)
    → IsReady from to bytes w v
    → temp_or_new (marked from to v) ≡ temp_or_new v
    → IsUpdate from to bytes w (marked from to v)
unfolding marked
marked-IsUpdate from to bytes w v r e = record {
  same_base = r.same_base;
  same_snapshot = r.same_snapshot;
  same_mode = r.same_mode;
  size_is = r.size_is;
  sorted = mark_dirty-IsCanonical (plus from) (plus to) v.dirty r.sorted;
  fits = rw e r.fits;
  covers_is = λ x.
      covers-mark_dirty (plus from) (plus to) v.dirty x r.sorted
      ∙ ap (λ c. (leb from x && ltb x to) || c) (r.covers_is x);
  bytes_are = λ x. rw e (r.bytes_are x);
}

module _ (base : File) (w : Overlay) (sound : IsSound w) where
  grown-IsReady :
      (off : ℕ)
      → w.logical_size < off
      → IsReady w.logical_size off (λ x. 0) w (set_logical_size off w)
  unfolding set_logical_size temp_or_new
  grown-IsReady off h = record {
    same_base = refl;
    same_snapshot = refl;
    same_mode = refl;
    size_is = omega arith;
    sorted = truncate_dirty-IsCanonical off w.dirty sound.sorted;
    fits = unfold truncate in omega arith;
    covers_is = λ x. ground (arith, covers-truncate_dirty off w.dirty x, sound.below x);
    bytes_are =
        λ x. ground (arith, byte_at-truncate off (temp_or_new w) x, byte_at_past (temp_or_new w) x);
  }

  fill_gap-IsUpdate :
      (off : ℕ) → w.logical_size < off → IsUpdate w.logical_size off (λ x. 0) w (fill_gap off w)
  unfolding fill_gap
  fill_gap-IsUpdate off h = rw (lt→ltb w.logical_size off h) (
      marked-IsUpdate w.logical_size off (λ x. 0) w (set_logical_size off w) (grown-IsReady off h)
        (unfold set_logical_size temp_or_new marked in refl))

  written_past :
      (bytes : List ℕ) (off : ℕ)
      → w.logical_size < off + length bytes
      → IsReady off
          (off + length bytes)
          (λ x. byte_or_zero bytes (x - off))
          w
          (set_logical_size
            (off + length bytes)
            (record w { temp = some (write_at bytes off (temp_or_new w)) }))
  unfolding set_logical_size temp_or_new
  written_past bytes off h = record {
    same_base = refl;
    same_snapshot = refl;
    same_mode = refl;
    size_is = omega arith;
    sorted = truncate_dirty-IsCanonical (off + length bytes) w.dirty sound.sorted;
    fits = unfold truncate in omega arith;
    covers_is =
        λ x. ground (arith, covers-truncate_dirty (off + length bytes) w.dirty x, sound.below x);
    bytes_are = λ x. ground (
      arith,
      byte_at-truncate (off + length bytes) (write_at bytes off (temp_or_new w)) x,
      byte_at-write_at bytes off (temp_or_new w) x,
      byte_at_past (temp_or_new w) x,
    );
  }

  written_inside :
      (bytes : List ℕ) (off : ℕ)
      → off + length bytes ≤ w.logical_size
      → IsReady off
          (off + length bytes)
          (λ x. byte_or_zero bytes (x - off))
          w
          (record w { temp = some (write_at bytes off (temp_or_new w)) })
  unfolding temp_or_new
  written_inside bytes off h = record {
    same_base = refl;
    same_snapshot = refl;
    same_mode = refl;
    size_is = omega arith;
    sorted = sound.sorted;
    fits = omega (arith, size-write_at bytes off (temp_or_new w) w.logical_size sound.temp_fits h);
    covers_is = λ x. refl;
    bytes_are = λ x. byte_at-write_at bytes off (temp_or_new w) x;
  }

  put_bytes-IsUpdate :
      (bytes : List ℕ) (off : ℕ)
      → off ≤ w.logical_size
      → IsUpdate off
          (off + length bytes)
          (λ x. byte_or_zero bytes (x - off))
          w
          (put_bytes bytes off w)
  unfolding put_bytes
  put_bytes-IsUpdate bytes off h = elim (Bool-cases (ltb w.logical_size (off + length bytes))) [
    | inl past ↦
        rw (past, size_at_least)
          (marked-IsUpdate off (off + length bytes) _ w _ (written_past bytes off (ground arith))
            (unfold set_logical_size temp_or_new marked in refl))
    | inr inside_ ↦
        rw (inside_, size_at_least)
          (marked-IsUpdate off (off + length bytes) _ w _ (written_inside bytes off (ground arith))
            (unfold temp_or_new marked in refl))
  ]

  IsUpdate-IsSound :
      {from to : ℕ} {bytes : ℕ → ℕ} {w' : Overlay}
      → from ≤ w.logical_size
      → IsUpdate from to bytes w w'
      → IsSound w'
  IsUpdate-IsSound {from} {to} {bytes} {w'} h u = record {
    sorted = u.sorted;
    below = λ x c. ground (arith, u.covers_is x, sound.below x, u.size_is);
    temp_fits = omega (arith, u.fits, u.size_is);
    full = λ a x l c. ground (
      arith,
      u.covers_is x,
      u.same_mode,
      u.same_base,
      u.size_is,
      sound.full (sym u.same_mode ∙ a) x,
    );
    holes = λ x c b. ground (arith, u.covers_is x, u.bytes_are x, u.same_base, sound.holes x);
  }

  IsUpdate-view :
      {from to : ℕ} {bytes : ℕ → ℕ} {w' : Overlay}
      → from ≤ w.logical_size
      → IsUpdate from to bytes w w'
      → (x : ℕ)
      → view base w' x ≡ (
          if leb from x && ltb x to
          then bytes x
          else if ltb x w.logical_size
          then view base w x
          else 0)
  unfolding view
  IsUpdate-view {from} {to} {bytes} {w'} h u x =
      ground (arith, u.covers_is x, u.bytes_are x, u.same_base, u.size_is, sound.below x)

ensured-IsSound : (w : Overlay) → IsSound w → IsSound (ensure_temp w)
unfolding ensure_temp temp_or_new
ensured-IsSound w s = record {
  sorted = s.sorted;
  below = s.below;
  temp_fits = s.temp_fits;
  full = s.full;
  holes = s.holes;
}

ensured-view : (base : File) (w : Overlay) (x : ℕ) → view base (ensure_temp w) x ≡ view base w x
unfolding ensure_temp temp_or_new view
ensured-view base w x = refl

ensured-IsOver : (base : File) (w : Overlay) → IsOver base w → IsOver base (ensure_temp w)
unfolding ensure_temp
ensured-IsOver base w o = record {
  canonical = o.canonical;
  base_is = o.base_is;
  snapshot = o.snapshot;
}

IsUpdate-IsOver :
    (base : File) (from to : ℕ) (bytes : ℕ → ℕ) (w w' : Overlay)
    → IsOver base w
    → IsUpdate from to bytes w w'
    → IsOver base w'
IsUpdate-IsOver base from to bytes w w' o u = record {
  canonical = u.sorted;
  base_is = o.base_is ∙ sym u.same_base;
  snapshot = rw u.same_snapshot o.snapshot;
}

-- The byte at an offset after `bytes` are written at `start` into a file of `size` bytes.
abbrev pub after_write : List ℕ → ℕ → ℕ → (ℕ → ℕ) → ℕ → ℕ
after_write bytes start size before x =
    if leb start x && ltb x (start + length bytes)
    then byte_or_zero bytes (x - start)
    else if ltb x size
    then before x
    else 0

-- A state that a write may reach before the bound on spans is enforced.
abbrev Reached : File → List ℕ → ℕ → Overlay → Overlay → Type 0
Reached base bytes start w w' =
    IsSound w'
    × IsOver base w'
    × (w'.logical_size ≡ max w.logical_size (start + length bytes))
    × ((x : ℕ) → view base w' x ≡ after_write bytes start w.logical_size (view base w) x)

module _ (base : File) (bytes : List ℕ) (start : ℕ) (w : Overlay) (sound : IsSound w)
    (over : IsOver base w) where
  put_inside :
      start ≤ w.logical_size → Reached base bytes start w (put_bytes bytes start (fill_gap start w))
  unfolding fill_gap
  put_inside h =
      let u = put_bytes-IsUpdate base w sound bytes start h in
      rw (if-false (marked w.logical_size start (set_logical_size start w)) w (not_past h)) (
        IsUpdate-IsSound base w sound h u,
        IsUpdate-IsOver base _ _ _ w _ over u,
        u.size_is,
        λ x. IsUpdate-view base w sound h u x,
      )
    where
      not_past : start ≤ w.logical_size → ltb w.logical_size start ≡ false
      not_past k = ground arith

  put_past :
      w.logical_size < start → Reached base bytes start w (put_bytes bytes start (fill_gap start w))
  put_past h =
      let g = fill_gap-IsUpdate base w sound start h in
      let s1 = IsUpdate-IsSound base w sound (omega arith) g in
      let u =
        put_bytes-IsUpdate base (fill_gap start w) s1 bytes start (omega (arith, g.size_is)) in
      (
        IsUpdate-IsSound base (fill_gap start w) s1 (omega (arith, g.size_is)) u,
        IsUpdate-IsOver base _ _ _ _ _ (IsUpdate-IsOver base _ _ _ w _ over g) u,
        omega (arith, u.size_is, g.size_is),
        λ x. ground (
          arith,
          IsUpdate-view base (fill_gap start w) s1 (omega (arith, g.size_is)) u x,
          IsUpdate-view base w sound (omega arith) g x,
          g.size_is,
        ),
      )

  put_lem : Reached base bytes start w (put_bytes bytes start (fill_gap start w))
  put_lem = elim (Bool-cases (ltb w.logical_size start)) [
    | inl past ↦ put_past (ground arith)
    | inr near ↦ put_inside (ground arith)
  ]

-- Enforcing the bound on spans keeps what was reached.
bounded_view :
    (base : File) (bytes : List ℕ) (start : ℕ) (w v w' : Overlay)
    → Reached base bytes start (ensure_temp w) v
    → Kept base v w'
    → (x : ℕ) → x < w'.logical_size
    → view base w' x ≡ after_write bytes start w.logical_size (view base w) x
unfolding ensure_temp
bounded_view base bytes start w v w' r k x h =
    k.2.same_bytes x (omega (arith, k.2.same_size))
    ∙ r.3 x
    ∙ ap
        (λ (b : ℕ).
          if leb start x && ltb x (start + length bytes)
          then byte_or_zero bytes (x - start)
          else if ltb x w.logical_size
          then b
          else 0)
        (ensured-view base w x)

-- A write to an overlay that is not poisoned succeeds over any hub that serves the base. The file
-- then has the written bytes at the place that the append rule gives, zeros in the gap up to there,
-- and every other byte as before; it has at most maxDirtyRanges dirty spans and stays sound.
pub write_lem :
    (hub : Hub) (base : File) (page : ℕ) (append : Bool) (bytes : List ℕ) (off : ℕ) (w : Overlay)
    → Serves hub base
    → 0 < page
    → w.poisoned ≡ false
    → IsSound w
    → IsOver base w
    → (w' : Overlay) × (write hub page append bytes off w ≡ ok w')
      × IsSound w'
      × IsOver base w'
      × (length w'.dirty ≤ 1024)
      × (w'.logical_size ≡ max w.logical_size (write_offset append off w + length bytes))
      × ((x : ℕ)
          → x < w'.logical_size
          → view base w' x
            ≡ after_write bytes (write_offset append off w) w.logical_size (view base w) x)
unfolding write
write_lem hub base page append bytes off w serves pp healthy sound over =
    let start = write_offset append off w in
    let v = put_bytes bytes start (fill_gap start (ensure_temp w)) in
    let r =
      put_lem base bytes start (ensure_temp w) (ensured-IsSound w sound)
        (ensured-IsOver base w over) in
    let (w', e, kept) = ensure_dirty_bounded_lem hub base serves page pp v r.0 r.1 in
    (
      w',
      if-false _ _ healthy ∙ e,
      kept.0,
      kept.1,
      kept.3,
      kept.2.same_size ∙ unfold ensure_temp in r.2,
      bounded_view base bytes start w v w' r kept,
    )
