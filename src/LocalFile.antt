-- ===== src/LocalFile.antt =====
-- Local files as the overlay uses them (os.File): Truncate, WriteAt and ReadAt. A read past the end
-- is short; a hole that Truncate or WriteAt leaves reads as zeros.
use storhub.Prelude.{
  ℕ, zero, suc, ◌+◌, ◌-◌, ◌≤◌, ◌<◌, ◌&&◌, List, [], ◌∷◌, ◌++◌, ltb, leb, ◌==◌, if◌then◌else◌,
  length, min, max, ◌≡◌, refl, arith, ap, sym, ◌∙◌,
}
use native.Mathlib.Nat.{zero-add, add-zero}

pub record File : Type 0 where
  pub size : ℕ
  pub byte : ℕ → ℕ

unfoldable pub empty_file : File
empty_file = record { size = 0; byte = λ x. 0 }

-- The byte at an offset, and 0 past the end.
unfoldable pub byte_at : File → ℕ → ℕ
byte_at f x = if ltb x f.size then f.byte x else 0

unfoldable pub truncate : ℕ → File → File
unfolding byte_at
truncate n f = record { size = n; byte = λ x. byte_at f x }

unfoldable pub byte_or_zero : List ℕ → ℕ → ℕ
byte_or_zero [] i = 0
byte_or_zero (b ∷ bytes) zero = b
byte_or_zero (b ∷ bytes) (suc i) = byte_or_zero bytes i

unfoldable pub write_at : List ℕ → ℕ → File → File
unfolding byte_at
write_at data_ off f = if length data_ == 0 then f else record {
  size = max f.size (off + length data_);
  byte = λ x.
      if leb off x && ltb x (off + length data_) then byte_or_zero data_ (x - off) else byte_at f x;
}

unfoldable pub slice : (ℕ → ℕ) → ℕ → ℕ → List ℕ
slice b off zero = []
slice b off (suc n) = b off ∷ slice b (off + 1) n

unfoldable pub read_at : ℕ → ℕ → File → List ℕ
read_at off n f = slice f.byte off (min n (f.size - off))

unfoldable pub zeros : ℕ → List ℕ
zeros zero = []
zeros (suc n) = 0 ∷ zeros n

pub byte_at-truncate :
    (n : ℕ) (f : File) (x : ℕ) → byte_at (truncate n f) x ≡ (if ltb x n then byte_at f x else 0)
unfolding truncate byte_at
byte_at-truncate n f x = refl

pub byte_at-write_at :
    (bytes : List ℕ) (off : ℕ) (f : File) (x : ℕ)
    → byte_at (write_at bytes off f) x ≡ (
        if leb off x && ltb x (off + length bytes)
        then byte_or_zero bytes (x - off)
        else byte_at f x)
unfolding write_at byte_at
byte_at-write_at [] off f x = ground arith
byte_at-write_at (b ∷ bytes) off f x = ground arith

pub byte_or_zero-zeros : (n i : ℕ) → byte_or_zero (zeros n) i ≡ 0
unfolding byte_or_zero zeros
byte_or_zero-zeros zero i = refl
byte_or_zero-zeros (suc n) zero = refl
byte_or_zero-zeros (suc n) (suc i) = byte_or_zero-zeros n i

pub length-zeros : (n : ℕ) → length (zeros n) ≡ n
unfolding zeros
length-zeros zero = refl
length-zeros (suc n) = omega (arith, length-zeros n)

pub length-slice : (b : ℕ → ℕ) (off n : ℕ) → length (slice b off n) ≡ n
unfolding slice
length-slice b off zero = refl
length-slice b off (suc n) = omega (arith, length-slice b (off + 1) n)

suc-add : (n m : ℕ) → suc n + m ≡ suc (n + m)
suc-add n m = omega arith

pub slice-add :
    (b : ℕ → ℕ) (off n m : ℕ) → slice b off (n + m) ≡ slice b off n ++ slice b (off + n) m
unfolding slice
slice-add b off zero m = rw (zero-add, add-zero)
slice-add b off (suc n) m = rw (suc-add n m) (
    ap (λ rest. b off ∷ rest)
      (slice-add b (off + 1) n m ∙ ap (λ k. slice b (off + 1) n ++ slice b k m) (omega arith)))

-- Two byte functions that agree on a span give the same slice.
pub slice-eq :
    (b c : ℕ → ℕ) (off n : ℕ)
    → ((x : ℕ) → off ≤ x → x < off + n → b x ≡ c x)
    → slice b off n ≡ slice c off n
unfolding slice
slice-eq b c off zero h = refl
slice-eq b c off (suc n) h =
    ground (arith, h off, slice-eq b c (off + 1) n (λ x l u. h x (omega arith) (omega arith)))

pub zeros-slice :
    (b : ℕ → ℕ) (off n : ℕ) → ((x : ℕ) → off ≤ x → x < off + n → b x ≡ 0) → zeros n ≡ slice b off n
unfolding slice zeros
zeros-slice b off zero h = refl
zeros-slice b off (suc n) h =
    ground (arith, h off, zeros-slice b (off + 1) n (λ x l u. h x (omega arith) (omega arith)))

-- A short read padded by zeros is the slice of the bytes with zeros past the end.
pub read_at-padded :
    (off n : ℕ) (f : File)
    → read_at off n f ++ zeros (n - length (read_at off n f)) ≡ slice (byte_at f) off n
unfolding read_at
read_at-padded off n f =
    let got = min n (f.size - off) in
    rw (length-slice f.byte off got) (
      rw (slice-eq f.byte (byte_at f) off got (λ x l u. unfold byte_at in ground arith)) (
        rw (zeros-slice (byte_at f) (off + got) (n - got) (λ x l u. unfold byte_at in ground arith))
          (sym (slice-add (byte_at f) off got (n - got))
            ∙ ap (slice (byte_at f) off) (omega arith))))

pub read_at-inside :
    (f : File) (off n : ℕ) → off + n ≤ f.size → read_at off n f ≡ slice f.byte off n
unfolding read_at
read_at-inside f off n h = ap (slice f.byte off) (omega arith)

pub size-write_at :
    (bytes : List ℕ) (off : ℕ) (f : File) (n : ℕ)
    → f.size ≤ n
    → off + length bytes ≤ n
    → (write_at bytes off f).size ≤ n
unfolding write_at
size-write_at [] off f n h b = h
size-write_at (c ∷ bytes) off f n h b = ground arith

pub byte_or_zero-slice :
    (b : ℕ → ℕ) (off n i : ℕ) → i < n → byte_or_zero (slice b off n) i ≡ b (off + i)
unfolding byte_or_zero slice
byte_or_zero-slice b off zero i h = absurd (omega arith)
byte_or_zero-slice b off (suc n) zero h = ap b (omega arith)
byte_or_zero-slice b off (suc n) (suc i) h =
    byte_or_zero-slice b (off + 1) n i (omega arith) ∙ ap b (omega arith)

pub size-write_at-le :
    (bytes : List ℕ) (off : ℕ) (f : File)
    → 0 < length bytes
    → off + length bytes ≤ (write_at bytes off f).size
unfolding write_at
size-write_at-le [] off f h = absurd (omega arith)
size-write_at-le (b ∷ bytes) off f h = ground arith
