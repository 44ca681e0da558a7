-- ===== src/Ranges/Query.antt =====
-- The reads of a canonical span list: coversRangeLocked, nextDirtyRangeLocked and rangeOverlapsAny.
use mathlib.Core.List.{Mem, Memᴰ, mem-cons_self, mem-cons_of_mem}
use mathlib.Core.Logic.{∥∥₁_elim}
use storhub.Prelude.{
  ℕ, ◌+◌, ◌≤◌, ◌<◌, Bool, true, false, ap, ◌&&◌, List, [], ◌∷◌, ◌≡◌, refl, arith, ltb, leb,
  Bool-cases, inl, inr, max, ◌↔◌,
}
use storhub.Ranges.{
  ByteRange, covers_range, covers_loop, next_dirty_range, NextDirty, inside, before_next, past_last,
  range_overlaps_any,
}
use storhub.Ranges.Cover.{within, covers, covers_below, Gapped, IsCanonical}

covers_loop_sound :
    (c e lo : ℕ) (rs : List ByteRange) (x : ℕ)
    → Gapped lo rs
    → covers_loop c e rs ≡ true
    → c ≤ x
    → x < e
    → covers rs x ≡ true
unfolding covers_loop covers within
covers_loop_sound c e lo [] x g h a b = ground arith
covers_loop_sound c e lo (r ∷ rs) x g h a b = ground (
  arith,
  covers_loop_sound c e (r.end + 1) rs x g.2,
  covers_loop_sound r.end e (r.end + 1) rs x g.2,
)

first_is_reached :
    (c : ℕ) (r : ByteRange) (rs : List ByteRange)
    → Gapped (r.end + 1) rs × (r.start < r.end)
    → covers (r ∷ rs) c ≡ true
    → ltb c r.start ≡ false
unfolding covers within
first_is_reached c r rs g h = ground (arith, covers_below (r.end + 1) rs c g.0)

covers_loop_complete :
    (c e lo : ℕ) (rs : List ByteRange)
    → Gapped lo rs
    → c < e
    → ((x : ℕ) → c ≤ x → x < e → covers rs x ≡ true)
    → covers_loop c e rs ≡ true
unfolding covers_loop
covers_loop_complete c e lo [] g h all = unfold covers in ground (arith, all c)
covers_loop_complete c e lo (r ∷ rs) g h all = elim (Bool-cases (leb r.end c)) [
  | inl skip ↦ rw skip (
      covers_loop_complete c e (r.end + 1) rs g.2 h
        (λ x a b. unfold covers within in ground (arith, all x a b)))
  | inr onward ↦ rw onward (
      rw (first_is_reached c r rs (g.2, g.1) (all c (omega arith) h))
        (elim (Bool-cases (leb e r.end)) [
          | inl done ↦ rw done
          | inr more ↦ rw more (
              covers_loop_complete r.end e (r.end + 1) rs g.2 (ground arith)
                (λ x a b. unfold covers within in ground (arith, all x)))
        ]))
]

-- coversRangeLocked answers true exactly if every offset of the range is dirty.
pub covers_range_iff :
    (s e : ℕ) (rs : List ByteRange)
    → IsCanonical rs
    → (covers_range s e rs ≡ true) ↔ ((x : ℕ) → s ≤ x → x < e → covers rs x ≡ true)
unfolding covers_range
covers_range_iff s e rs g = elim (Bool-cases (leb e s)) [
  | inl empty ↦ rw empty ((λ h x a b. absurd (ground arith)), λ h. refl)
  | inr wide ↦ rw wide (
    (λ h x a b. covers_loop_sound s e 0 rs x g h a b),
    λ h. covers_loop_complete s e 0 rs g (ground arith) h,
  )
]

-- What nextDirtyRangeLocked may answer about an offset: a span of the set that holds it, the span of
-- the set that is the first one past it, or that there is none.
abbrev pub Answers : ℕ → List ByteRange → NextDirty → Type 0
Answers offset rs (inside r) = Mem r rs × (within r offset ≡ true)
Answers offset rs (before_next r) =
    Mem r rs × (offset < r.start) × ((x : ℕ) → offset ≤ x → x < r.start → covers rs x ≡ false)
Answers offset rs past_last = (x : ℕ) → offset ≤ x → covers rs x ≡ false

Answers-cons :
    (offset : ℕ) (r : ByteRange) (rs : List ByteRange)
    → r.end ≤ offset
    → (d : NextDirty) → Answers offset rs d
    → Answers offset (r ∷ rs) d
unfolding covers within
Answers-cons offset r rs h (inside q) (m, a) = (mem-cons_of_mem r m, a)
Answers-cons offset r rs h (before_next q) (m, l, a) =
    (mem-cons_of_mem r m, l, λ x b c. ground (arith, a x b c))
Answers-cons offset r rs h past_last a = λ x l. ground (arith, a x l)

-- Over a canonical dirty set, nextDirtyRangeLocked answers the span of the set that holds the offset,
-- or else the first span of the set past it, with nothing dirty between, or else that nothing is
-- dirty from the offset on.
pub next_dirty_range-Answers :
    (offset lo : ℕ) (rs : List ByteRange)
    → Gapped lo rs
    → Answers offset rs (next_dirty_range offset rs)
unfolding next_dirty_range
next_dirty_range-Answers offset lo [] g = λ x a. unfold covers in refl
next_dirty_range-Answers offset lo (r ∷ rs) g =
    elim (Bool-cases (leb r.start offset && ltb offset r.end)) [
      | inl here ↦ rw here (mem-cons_self, unfold within in here)
      | inr apart ↦ rw apart (elim (Bool-cases (ltb offset r.start)) [
        | inl ahead ↦ rw ahead (
          mem-cons_self,
          ground arith,
          λ x a b. covers_below r.start (r ∷ rs) x (omega arith, g.1, g.2) b,
        )
        | inr past ↦ rw past (
            Answers-cons offset r rs (ground arith) (next_dirty_range offset rs)
              (next_dirty_range-Answers offset (r.end + 1) rs g.2))
      ])
    ]

Memᴰ-covers :
    (r : ByteRange) (rs : List ByteRange) (x : ℕ)
    → within r x ≡ true
    → Memᴰ r rs
    → covers rs x ≡ true
unfolding covers
Memᴰ-covers r [] x w d = elim d [ ]
Memᴰ-covers r (s ∷ rs) x w (Memᴰ.head e) = ground (arith, ap (λ (q : ByteRange). within q x) e, w)
Memᴰ-covers r (s ∷ rs) x w (Memᴰ.tail d) = ground (arith, Memᴰ-covers r rs x w d)

Bool_set : IsSet Bool
Bool_set = hlevel

Mem-covers :
    (r : ByteRange) (rs : List ByteRange) (x : ℕ)
    → Mem r rs
    → within r x ≡ true
    → covers rs x ≡ true
Mem-covers r rs x m w = ∥∥₁_elim m (Bool_set _ _) (Memᴰ-covers r rs x w)

-- The same by offsets: the span holds dirty offsets only.
abbrev pub Covered : ℕ → List ByteRange → NextDirty → Type 0
Covered offset rs (inside r) =
    (within r offset ≡ true) × ((x : ℕ) → within r x ≡ true → covers rs x ≡ true)
Covered offset rs (before_next r) =
    (offset < r.start) × ((x : ℕ) → offset ≤ x → x < r.start → covers rs x ≡ false)
Covered offset rs past_last = (x : ℕ) → offset ≤ x → covers rs x ≡ false

answer_covers :
    (offset : ℕ) (rs : List ByteRange) (d : NextDirty) → Answers offset rs d → Covered offset rs d
answer_covers offset rs (inside r) (m, w) = (w, λ x v. Mem-covers r rs x m v)
answer_covers offset rs (before_next r) (m, l, a) = (l, a)
answer_covers offset rs past_last a = a

pub next_dirty_range-Covered :
    (offset lo : ℕ) (rs : List ByteRange)
    → Gapped lo rs
    → Covered offset rs (next_dirty_range offset rs)
next_dirty_range-Covered offset lo rs g =
    answer_covers offset rs (next_dirty_range offset rs) (next_dirty_range-Answers offset lo rs g)

range_overlaps_any_sound :
    (t : ByteRange) (lo : ℕ) (rs : List ByteRange) (x : ℕ)
    → Gapped lo rs
    → range_overlaps_any t rs ≡ false
    → within t x ≡ true
    → covers rs x ≡ false
unfolding range_overlaps_any within covers
range_overlaps_any_sound t lo [] x g e w = refl
range_overlaps_any_sound t lo (r ∷ rs) x g e w = elim (Bool-cases (leb r.end t.start)) [
  | inl before ↦ ground (arith, range_overlaps_any_sound t (r.end + 1) rs x g.2)
  | inr onward ↦ ground (arith, covers_below (r.end + 1) rs x g.2)
]

range_overlaps_any_complete :
    (t : ByteRange) (lo : ℕ) (rs : List ByteRange)
    → Gapped lo rs
    → t.start < t.end
    → ((x : ℕ) → within t x ≡ true → covers rs x ≡ false)
    → range_overlaps_any t rs ≡ false
unfolding range_overlaps_any covers
range_overlaps_any_complete t lo [] g h all = refl
range_overlaps_any_complete t lo (r ∷ rs) g h all = elim (Bool-cases (leb r.end t.start)) [
  | inl before ↦
      rw before
        (range_overlaps_any_complete t (r.end + 1) rs g.2 h (λ x w. ground (arith, all x w)))
  | inr onward ↦ unfold within in ground (arith, all (max r.start t.start))
]

-- rangeOverlapsAny answers false exactly if no offset of a target that is not empty lies in the
-- spans of a canonical list.
pub range_overlaps_any_iff :
    (t : ByteRange) (rs : List ByteRange)
    → t.start < t.end
    → IsCanonical rs
    → (range_overlaps_any t rs ≡ false) ↔ ((x : ℕ) → within t x ≡ true → covers rs x ≡ false)
range_overlaps_any_iff t rs h g = (
  λ e x w. range_overlaps_any_sound t 0 rs x g e w,
  λ all. range_overlaps_any_complete t 0 rs g h all,
)
