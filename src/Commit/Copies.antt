-- ===== src/Commit/Copies.antt =====
-- The copy of the temp's bytes into the base snapshot: refreshBaseSnapshotLocked of
-- internal/fusefs/fuse_write.go.
use storhub.Prelude.{
  ℕ, zero, suc, ◌+◌, ◌-◌, ◌≤◌, ◌<◌, Bool, ◌||◌, List, [], ◌∷◌, ◌≡◌, refl, ap, sym, ◌∙◌, arith, ltb,
  if◌then◌else◌, length, min, All, Bool-cases, inl, inr, subst,
}
use storhub.LocalFile.{
  File, byte_at, write_at, byte_at-write_at, byte_or_zero, byte_or_zero-slice, read_at, slice,
  length-slice,
}
use storhub.Ranges.{ByteRange, range}
use storhub.Ranges.Cover.{covers, within}
use storhub.Overlay.{Result, ok, err, ◌>>=◌}
use storhub.Commit.{refresh_write, refresh_span, refresh_spans}

-- A copy of the temp's bytes on a span over a snapshot.
pub record IsCopy (temp : File) (span : ℕ → Bool) (f g : File) : Type 0 where
  pub size : g.size ≡ f.size
  pub byte : (x : ℕ) → byte_at g x ≡ (if span x then byte_at temp x else byte_at f x)

abbrev pub Copies : File → (ℕ → Bool) → File → Result File → Type 0
Copies temp span f (ok g) = IsCopy temp span f g
Copies temp span f (err e) = Unit

temp_byte :
    (temp : File) (offset n x : ℕ)
    → offset + n ≤ temp.size
    → offset ≤ x
    → x < offset + n
    → byte_or_zero (slice temp.byte offset n) (x - offset) ≡ byte_at temp x
temp_byte temp offset n x h l u =
    byte_or_zero-slice temp.byte offset n (x - offset) (omega arith)
    ∙ ap temp.byte {y = x} (omega arith)
    ∙ (unfold byte_at in ground arith)

write_size :
    (bytes : List ℕ) (offset : ℕ) (f : File)
    → offset + length bytes ≤ f.size
    → (write_at bytes offset f).size ≡ f.size
unfolding write_at
write_size [] offset f h = refl
write_size (b ∷ bytes) offset f h = ground arith

-- The page that a turn copies.
page-IsCopy :
    (temp : File) (offset n : ℕ) (f : File)
    → offset + n ≤ temp.size
    → offset + n ≤ f.size
    → IsCopy temp
        (within (range offset (offset + n)))
        f
        (write_at (slice temp.byte offset n) offset f)
unfolding within
page-IsCopy temp offset n f h l = record {
  size =
      write_size (slice temp.byte offset n) offset f
        (omega (arith, length-slice temp.byte offset n));
  byte = λ x.
      rw (byte_at-write_at (slice temp.byte offset n) offset f x, length-slice temp.byte offset n)
        (ground (arith, temp_byte temp offset n x h));
}

none-IsCopy :
    (temp : File) (offset stop : ℕ) (f : File)
    → stop ≤ offset
    → IsCopy temp (within (range offset stop)) f f
unfolding within
none-IsCopy temp offset stop f h = record { size = refl; byte = λ x. ground arith }

IsCopy-then :
    (temp : File) (offset mid stop : ℕ) (f g k : File)
    → offset ≤ mid
    → mid ≤ stop
    → IsCopy temp (within (range offset mid)) f g
    → IsCopy temp (within (range mid stop)) g k
    → IsCopy temp (within (range offset stop)) f k
unfolding within
IsCopy-then temp offset mid stop f g k l h a b = record {
  size = b.size ∙ a.size;
  byte = λ x. ground (arith, a.byte x, b.byte x);
}

Copies-then :
    (temp : File) (offset mid stop : ℕ) (f g : File) (r : Result File)
    → offset ≤ mid
    → mid ≤ stop
    → IsCopy temp (within (range offset mid)) f g
    → Copies temp (within (range mid stop)) g r
    → Copies temp (within (range offset stop)) f r
Copies-then temp offset mid stop f g (ok k) l h a b = IsCopy-then temp offset mid stop f g k l h a b
Copies-then temp offset mid stop f g (err e) l h a b = tt

refresh_write-Copies :
    (temp : File) (span : ℕ → Bool) (bytes : List ℕ) (offset : ℕ) (f : File)
    (on : File → Result File)
    → (0 < length bytes → Copies temp span f (on (write_at bytes offset f)))
    → Copies temp span f (refresh_write bytes offset f on)
unfolding refresh_write
refresh_write-Copies temp span [] offset f on h = tt
refresh_write-Copies temp span (b ∷ bytes) offset f on h = h (omega arith)

refresh_span-Copies :
    (fuel page : ℕ) (temp : File) (offset stop : ℕ) (f : File)
    → stop - offset ≤ fuel
    → stop ≤ f.size
    → Copies temp (within (range offset stop)) f (refresh_span fuel page temp offset stop f)
unfolding refresh_span
refresh_span-Copies zero page temp offset stop f h l = none-IsCopy temp offset stop f (omega arith)
refresh_span-Copies (suc fuel) page temp offset stop f h l = elim (Bool-cases (ltb offset stop)) [
  | inr t ↦ rw t (none-IsCopy temp offset stop f (ground (arith, t)))
  | inl t ↦ rw t (
      let want = if ltb (stop - offset) page then stop - offset else page in
      let n = min want (temp.size - offset) in
      let fits : n ≤ stop - offset = ground arith in
      refresh_write-Copies temp (within (range offset stop)) (read_at offset want temp) offset f
        (λ k. refresh_span fuel page temp (offset + length (read_at offset want temp)) stop k)
        (unfold read_at in
          rw (length-slice temp.byte offset n) (λ some_bytes.
            Copies-then temp offset (offset + n) stop f
              (write_at (slice temp.byte offset n) offset f)
              (refresh_span fuel page temp (offset + n) stop
                (write_at (slice temp.byte offset n) offset f))
              (omega arith) (ground (arith, t, fits))
              (page-IsCopy temp offset n f (omega arith) (ground (arith, t, fits)))
              (refresh_span-Copies fuel page temp (offset + n) stop
                (write_at (slice temp.byte offset n) offset f) (omega arith)
                (omega (
                  arith,
                  (page-IsCopy temp offset n f (omega arith) (ground (arith, t, fits))).size,
                ))))))
]

then-Copies :
    (temp : File) (s t : ℕ → Bool) (f : File) (r : Result File) (on : File → Result File)
    → Copies temp s f r
    → ((g : File) → IsCopy temp s f g → Copies temp t g (on g))
    → Copies temp (λ x. s x || t x) f (r >>= on)
then-Copies temp s t f (err e) on a k = tt
then-Copies temp s t f (ok g) on a k = both (on g) (k g a)
  where
    both : (r : Result File) → Copies temp t g r → Copies temp (λ x. s x || t x) f r
    both (err e) b = tt
    both (ok k) b = record {
      size = b.size ∙ a.size;
      byte = λ x. ground (arith, a.byte x, b.byte x);
    }

pub refresh_spans-Copies :
    (page : ℕ) (temp : File) (dirty : List ByteRange) (f : File)
    → All (λ (r : ByteRange). r.end ≤ f.size) dirty
    → Copies temp (covers dirty) f (refresh_spans page temp dirty f)
unfolding refresh_spans covers
refresh_spans-Copies page temp [] f h = record { size = refl; byte = λ x. refl }
refresh_spans-Copies page temp (r ∷ dirty) f h =
    then-Copies temp (within r) (covers dirty) f
      (refresh_span (r.end - r.start) page temp r.start r.end f)
      (λ g. refresh_spans page temp dirty g)
      (refresh_span-Copies (r.end - r.start) page temp r.start r.end f (omega arith) h.0)
      (λ g c.
        refresh_spans-Copies page temp dirty g
          (subst (λ (n : ℕ). All (λ (r : ByteRange). r.end ≤ n) dirty) (sym c.size) h.1))
