-- ===== src/Window/Seeking.antt =====
-- A call of Seek: internal/storage/window.go.
use storhub.Prelude.{ℕ, ◌+◌, ◌-◌, ◌≤◌, ◌<◌, some, ◌≡◌, inl, inr, refl, arith, ltb, Bool-cases}
use storhub.Ranges.{Int64, plus, minus}
use storhub.Window.{
  WindowReader, Whence, seek_start, seek_current, seek_end, other_whence, SeekResult, sought,
  seek_failed, seek, seek_to, offset_from,
}

-- A position reached from another by a signed offset.
abbrev pub Offset : ℕ → Int64 → ℕ → Type 0
Offset base (plus n) q = q ≡ base + n
Offset base (minus n) q = q + (n + 1) ≡ base

abbrev pub Target : ℕ → ℕ → Int64 → Whence → ℕ → Type 0
Target size pos offset seek_start q = Offset 0 offset q
Target size pos offset seek_current q = Offset pos offset q
Target size pos offset seek_end q = Offset size offset q
Target size pos offset other_whence q = ⊥

abbrev pub seek_at : WindowReader → ℕ → WindowReader
seek_at w p = record { spool = w.spool; size = w.size; mirrored = w.mirrored; pos = p }

-- What a seek to a target of this kind does to the window.
abbrev pub Seeks : (ℕ → Type 0) → WindowReader → SeekResult → Type 0
Seeks T w (sought v p) = T p × (p ≤ w.mirrored) × (v ≡ seek_at w p)
Seeks T w (seek_failed e) = (q : ℕ) → T q → w.mirrored < q

module _ (w : WindowReader) (h : w.mirrored ≤ w.size) where
  seek_to-Seeks :
      (T : ℕ → Type 0) (target : ℕ)
      → T target
      → ((q : ℕ) → T q → q ≡ target)
      → Seeks T w (seek_to w (some target))
  unfolding seek_to
  seek_to-Seeks T target t only = elim (Bool-cases (ltb w.size target)) [
    | inl e ↦ rw e (λ q u. ground (arith, only q u))
    | inr e ↦ elim (Bool-cases (ltb w.mirrored target)) [
      | inl k ↦ rw (e, k) (λ q u. ground (arith, only q u))
      | inr k ↦ rw (e, k) (t, ground (arith, k), refl)
    ]
  ]

  offset_from-Seeks :
      (base : ℕ) (offset : Int64)
      → Seeks (Offset base offset) w (seek_to w (offset_from base offset))
  offset_from-Seeks base (plus n) = seek_to-Seeks (Offset base (plus n)) (base + n) refl (λ q u. u)
  offset_from-Seeks base (minus n) = elim (Bool-cases (ltb base (n + 1))) [
    | inl e ↦ rw e (unfold seek_to in (λ q u. absurd (ground (arith, e))))
    | inr e ↦ rw e (
        seek_to-Seeks (Offset base (minus n)) (base - (n + 1)) (ground (arith, e))
          (λ q u. omega (arith, u)))
  ]

  pub seek-Seeks :
      (offset : Int64) (whence : Whence)
      → Seeks (Target w.size w.pos offset whence) w (seek w offset whence)
  unfolding seek
  seek-Seeks offset seek_start = offset_from-Seeks 0 offset
  seek-Seeks offset seek_current = offset_from-Seeks w.pos offset
  seek-Seeks offset seek_end = offset_from-Seeks w.size offset
  seek-Seeks offset other_whence = λ q t. absurd t
