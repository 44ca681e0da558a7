-- ===== src/Overlay/Resize.antt =====
-- setSizeLocked and the view of the overlay.
use storhub.Prelude.{
  ℕ, zero, suc, ◌+◌, ◌-◌, ◌≤◌, ◌<◌, Bool, true, false, ◌&&◌, ◌||◌, [], none, some, ◌≡◌, arith, ltb,
  leb, ◌==◌, if◌then◌else◌, Bool-cases, inl, inr, refl, ap, sym, ◌∙◌, if-true, if-false, ◌⊎◌,
}
use storhub.Ranges.{truncate_dirty, mark_dirty, plus}
use storhub.Ranges.Cover.{covers, IsCanonical}
use storhub.Ranges.Mark.{
  covers-mark_dirty, mark_dirty-IsCanonical, covers-truncate_dirty, truncate_dirty-IsCanonical,
  truncate_dirty-zero, truncate_dirty-nil,
}
use storhub.LocalFile.{
  File, byte_at, truncate, write_at, size-write_at, byte_at-write_at, byte_at-truncate, zeros,
  length-zeros, byte_or_zero-zeros,
}
use storhub.Overlay.{Overlay, temp_or_new, set_logical_size, set_size, zero_fill, ok, ◌>>=◌}
use storhub.Overlay.View.{view, IsOver, IsSound}

abbrev step_len : ℕ → ℕ → ℕ → ℕ
step_len page offset size = if ltb (size - offset) page then size - offset else page

-- The zero-fill loop changes nothing outside its span, and all of it is 0.
zero_fill_lem :
    (fuel page offset size : ℕ) (f : File)
    → 0 < page
    → size - offset ≤ fuel
    → (x : ℕ)
    → byte_at (zero_fill fuel page offset size f) x
      ≡ (if leb offset x && ltb x size then 0 else byte_at f x)
unfolding zero_fill
zero_fill_lem zero page offset size f pp h x = ground arith
zero_fill_lem (suc fuel) page offset size f pp h x = elim (Bool-cases (ltb offset size)) [
  | inr done ↦ rw done (ground arith)
  | inl more ↦ rw more (
      zero_fill_lem fuel page (offset + step_len page offset size) size
        (write_at (zeros (step_len page offset size)) offset f) pp (ground arith) x
      ∙ ground (
        arith,
        byte_at-write_at (zeros (step_len page offset size)) offset f x,
        length-zeros (step_len page offset size),
        byte_or_zero-zeros (step_len page offset size) (x - offset),
      ))
]

zero_fill-size :
    (fuel page offset size : ℕ) (f : File)
    → f.size ≤ size
    → (zero_fill fuel page offset size f).size ≤ size
unfolding zero_fill
zero_fill-size zero page offset size f h = h
zero_fill-size (suc fuel) page offset size f h = elim (Bool-cases (ltb offset size)) [
  | inr done ↦ rw done h
  | inl more ↦ rw more (
      zero_fill-size fuel page (offset + step_len page offset size) size
        (write_at (zeros (step_len page offset size)) offset f)
        (size-write_at (zeros (step_len page offset size)) offset f size h
          (ground (arith, length-zeros (step_len page offset size)))))
]

-- The overlay shows its old bytes below both sizes, and zeros past the old one.
abbrev pub Resized : File → ℕ → Overlay → Overlay → Type 0
Resized base n w w' =
    IsSound w'
    × IsOver base w'
    × (w'.logical_size ≡ n)
    × ((x : ℕ) → x < n → view base w' x ≡ (if ltb x w.logical_size then view base w x else 0))

module _ (base : File) (w : Overlay) (sound : IsSound w) (over : IsOver base w) where
  emptied-Resized :
      (n : ℕ)
      → n ≡ 0
      → Resized base n w
          (record (set_logical_size n w) { temp_authoritative = true; base_temp = none })
  unfolding set_logical_size temp_or_new
  emptied-Resized n e = (
    record {
      sorted = truncate_dirty-IsCanonical n w.dirty sound.sorted;
      below = λ x c. ground (arith, covers-truncate_dirty n w.dirty x);
      temp_fits = unfold truncate in omega arith;
      full = λ a x l c. absurd (omega arith);
      holes = λ x c b. byte_at-truncate n (temp_or_new w) x ∙ ground arith;
    },
    record {
      canonical = truncate_dirty-IsCanonical n w.dirty sound.sorted;
      base_is = over.base_is;
      snapshot = tt;
    },
    refl,
    λ x h. absurd (omega arith),
  )

  -- No zero-fill: the file shrinks, or it grows where the base ends before its old size.
  set_logical_size-temp : (n : ℕ) → temp_or_new (set_logical_size n w) ≡ truncate n (temp_or_new w)
  unfolding set_logical_size temp_or_new
  set_logical_size-temp n = refl

  plain-Resized :
      (n : ℕ)
      → (n ≤ w.logical_size) ⊎ (w.base_size ≤ w.logical_size)
      → Resized base n w (set_logical_size n w)
  unfolding set_logical_size
  plain-Resized n h = (
    record {
      sorted = truncate_dirty-IsCanonical n w.dirty sound.sorted;
      below = λ x c. ground (arith, covers-truncate_dirty n w.dirty x);
      temp_fits = rw (set_logical_size-temp n) (unfold truncate in omega arith);
      full = λ a x l c. ground (arith, covers-truncate_dirty n w.dirty x, sound.full a x);
      holes = λ x c b. ground (
        arith,
        set_logical_size-temp n,
        covers-truncate_dirty n w.dirty x,
        byte_at-truncate n (temp_or_new w) x,
        sound.holes x,
      );
    },
    record {
      canonical = truncate_dirty-IsCanonical n w.dirty sound.sorted;
      base_is = over.base_is;
      snapshot = over.snapshot;
    },
    refl,
    λ x l.
        unfold view in
        ground (
          arith,
          set_logical_size-temp n,
          covers-truncate_dirty n w.dirty x,
          byte_at-truncate n (temp_or_new w) x,
          sound.below x,
        ),
  )

  filled : ℕ → ℕ → Overlay
  filled page n = record (set_logical_size n w) {
    temp = some (zero_fill n page w.logical_size n (temp_or_new (set_logical_size n w)));
    dirty = mark_dirty (plus w.logical_size) (plus n) (set_logical_size n w).dirty;
  }

  filled-temp :
      (page n : ℕ)
      → 0 < page
      → (x : ℕ)
      → byte_at (temp_or_new (filled page n)) x ≡ (
          if leb w.logical_size x && ltb x n
          then 0
          else if ltb x n
          then byte_at (temp_or_new w) x
          else 0)
  unfolding filled temp_or_new
  filled-temp page n pp x =
      zero_fill_lem n page w.logical_size n (temp_or_new (set_logical_size n w)) pp (omega arith) x
      ∙ ap (λ (b : ℕ). if leb w.logical_size x && ltb x n then 0 else b)
          (rw (set_logical_size-temp n) (byte_at-truncate n (temp_or_new w) x))

  filled-covers :
      (page n x : ℕ)
      → covers (filled page n).dirty x
        ≡ ((leb w.logical_size x && ltb x n) || (covers w.dirty x && ltb x n))
  unfolding filled set_logical_size
  filled-covers page n x =
      covers-mark_dirty (plus w.logical_size) (plus n) (truncate_dirty n w.dirty) x
        (truncate_dirty-IsCanonical n w.dirty sound.sorted)
      ∙ ap (λ (b : Bool). (leb w.logical_size x && ltb x n) || b)
          (covers-truncate_dirty n w.dirty x)

  filled-size : (page n : ℕ) → (temp_or_new (filled page n)).size ≤ n
  unfolding filled temp_or_new
  filled-size page n =
      zero_fill-size n page w.logical_size n (temp_or_new (set_logical_size n w))
        (rw (set_logical_size-temp n) (unfold truncate in omega arith))

  filled_facts :
      (page n : ℕ)
      → ((filled page n).logical_size ≡ n)
        × ((filled page n).base_size ≡ w.base_size)
        × ((filled page n).base_temp ≡ w.base_temp)
        × ((filled page n).temp_authoritative ≡ w.temp_authoritative)
        × IsCanonical (filled page n).dirty
  unfolding filled set_logical_size
  filled_facts page n = (
    refl,
    refl,
    refl,
    refl,
    mark_dirty-IsCanonical (plus w.logical_size) (plus n) (truncate_dirty n w.dirty)
        (truncate_dirty-IsCanonical n w.dirty sound.sorted),
  )

  -- The zero-fill path: the file grows and the temp is not authoritative.
  filled-Resized :
      (page n : ℕ)
      → 0 < page
      → w.logical_size < n
      → w.temp_authoritative ≡ false
      → Resized base n w (filled page n)
  filled-Resized page n pp h partial =
      let facts = filled_facts page n in
      (
        record {
          sorted = facts.4;
          below = λ x c. ground (arith, filled-covers page n x, facts.0);
          temp_fits = omega (arith, facts.0, filled-size page n);
          full = λ a x l c. absurd (ground (arith, facts.3, partial, a));
          holes = λ x c b.
              ground
                (arith, filled-temp page n pp x, filled-covers page n x, facts.1, sound.holes x);
        },
        record {
          canonical = facts.4;
          base_is = over.base_is ∙ sym facts.1;
          snapshot = rw (facts.2) over.snapshot;
        },
        facts.0,
        λ x l.
            unfold view in
            ground (
              arith,
              filled-temp page n pp x,
              filled-covers page n x,
              facts.0,
              facts.1,
              sound.below x,
            ),
      )

plain_side :
    (w : Overlay) (n : ℕ)
    → (ltb w.logical_size n && (if w.temp_authoritative then false else true)) ≡ false
    → (w.temp_authoritative ≡ false) ⊎ (w.base_size ≤ w.logical_size)
    → (n ≤ w.logical_size) ⊎ (w.base_size ≤ w.logical_size)
plain_side w n h (inl partial) = inl (ground arith)
plain_side w n h (inr short) = inr short

-- setSizeLocked to a size that is not negative, on an overlay that is not poisoned, succeeds. The
-- file then has that size, its old bytes below both sizes and zeros past the old one, provided that
-- the temp is not authoritative or the base ends before the old size.
pub set_size_lem :
    (base : File) (page n : ℕ) (w : Overlay)
    → 0 < page
    → w.poisoned ≡ false
    → IsSound w
    → IsOver base w
    → (w.temp_authoritative ≡ false) ⊎ (w.base_size ≤ w.logical_size)
    → (w' : Overlay) × (set_size page (plus n) w ≡ ok w') × Resized base n w w'
unfolding set_size
set_size_lem base page n w pp healthy sound over safe = elim (Bool-cases (n == 0)) [
  | inl nil ↦ (
    record (set_logical_size n w) { temp_authoritative = true; base_temp = none },
    if-false _ _ healthy ∙ if-true _ _ nil,
    emptied-Resized base w sound over n (ground arith),
  )
  | inr pos ↦
      elim (Bool-cases (ltb w.logical_size n && (if w.temp_authoritative then false else true))) [
        | inl fill ↦ (
          filled base w sound over page n,
          if-false _ _ healthy ∙ if-false _ _ pos ∙ if-true _ _ fill ∙ unfold filled in refl,
          filled-Resized base w sound over page n pp (ground arith) (ground arith),
        )
        | inr plain ↦ (
          set_logical_size n w,
          if-false _ _ healthy ∙ if-false _ _ pos ∙ if-false _ _ plain,
          plain-Resized base w sound over n (plain_side w n plain safe),
        )
      ]
]

-- The state after a cut to 0.
emptied : Overlay → Overlay
emptied w = record (set_logical_size 0 w) { temp_authoritative = true; base_temp = none }

set_size_zero :
    (page : ℕ) (w : Overlay) → w.poisoned ≡ false → set_size page (plus 0) w ≡ ok (emptied w)
unfolding set_size emptied
set_size_zero page w healthy = if-false _ _ healthy

set_size_regrow :
    (page n : ℕ) (w : Overlay)
    → w.poisoned ≡ false
    → 0 < n
    → set_size page (plus n) (emptied w) ≡ ok (set_logical_size n (emptied w))
unfolding set_size emptied set_logical_size
set_size_regrow page n w healthy pos =
    if-false _ _ healthy
    ∙ (if-false {b = n == 0} _ _ (ground arith)
        ∙ if-false {b = ltb 0 n && false} _ _ (ground arith))

regrown-dirty : (n : ℕ) (w : Overlay) → (set_logical_size n (emptied w)).dirty ≡ []
unfolding emptied set_logical_size
regrown-dirty n w = rw (truncate_dirty-zero w.dirty) (truncate_dirty-nil n)

-- A file that is not poisoned, cut to 0 and grown again before a commit, has no dirty span and shows
-- the bytes of the base below its new size and the base size.
pub regrow_shows_base :
    (base : File) (page n : ℕ) (w : Overlay)
    → w.poisoned ≡ false
    → 0 < n
    → (w' : Overlay) × ((set_size page (plus 0) w >>= set_size page (plus n)) ≡ ok w')
      × (w'.dirty ≡ [])
      × (w'.logical_size ≡ n)
      × ((x : ℕ) → x < n → x < w.base_size → view base w' x ≡ byte_at base x)
regrow_shows_base base page n w healthy pos = (
  set_logical_size n (emptied w),
  rw (set_size_zero page w healthy) (set_size_regrow page n w healthy pos),
  regrown-dirty n w,
  unfold set_logical_size in refl,
  λ x h b.
      unfold view emptied set_logical_size covers in
      ground (arith, truncate_dirty-zero w.dirty, truncate_dirty-nil n),
)
