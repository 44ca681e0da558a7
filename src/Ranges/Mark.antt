-- ===== src/Ranges/Mark.antt =====
-- markDirtyLocked and truncateDirtyRangesLocked, and the offsets that the dirty set covers.
use storhub.Prelude.{
  ℕ, ◌+◌, ◌≤◌, ◌<◌, Bool, true, false, ◌&&◌, ◌||◌, List, [], ◌∷◌, ◌≡◌, refl, arith, ltb, leb,
  if◌then◌else◌, Bool-cases, inl, inr, min,
}
use storhub.Ranges.{
  ByteRange, range, skip_before, split_after, keep_touching, hull_start, hull_end, last_end,
  mark_span, Int64, plus, minus, mark_dirty, clamp_offset, truncate_dirty,
}
use storhub.Ranges.Cover.{covers, Gapped, Gapped-le, IsCanonical}

-- truncateDirtyRangesLocked keeps exactly the dirty offsets below the new size.
pub covers-truncate_dirty :
    (size : ℕ) (rs : List ByteRange) (x : ℕ)
    → covers (truncate_dirty size rs) x ≡ (covers rs x && ltb x size)
unfolding truncate_dirty covers
covers-truncate_dirty size [] x = refl
covers-truncate_dirty size (r ∷ rs) x = ground (arith, covers-truncate_dirty size rs x)

truncate_dirty-past :
    (size lo : ℕ) (rs : List ByteRange) → size ≤ lo → Gapped lo rs → truncate_dirty size rs ≡ []
unfolding truncate_dirty
truncate_dirty-past size lo [] h g = refl
truncate_dirty-past size lo (r ∷ rs) h g =
    ground (arith, truncate_dirty-past size (r.end + 1) rs (omega arith) g.2)

truncate_dirty-Gapped :
    (size lo : ℕ) (rs : List ByteRange) → Gapped lo rs → Gapped lo (truncate_dirty size rs)
unfolding truncate_dirty
truncate_dirty-Gapped size lo [] g = tt
truncate_dirty-Gapped size lo (r ∷ rs) g = elim (Bool-cases (leb size r.start)) [
  | inl e ↦ rw e (
      Gapped-le (truncate_dirty size rs) (omega arith)
        (truncate_dirty-Gapped size (r.end + 1) rs g.2))
  | inr e ↦ rw e (elim (Bool-cases (ltb size r.end)) [
    | inl cut ↦
        rw cut
          (rw (truncate_dirty-past size (r.end + 1) rs (ground arith) g.2) (g.0, ground arith, tt))
    | inr whole ↦ rw whole (g.0, g.1, truncate_dirty-Gapped size (r.end + 1) rs g.2)
  ])
]

-- truncateDirtyRangesLocked keeps the dirty set sorted, disjoint and gapped.
pub truncate_dirty-IsCanonical :
    (size : ℕ) (rs : List ByteRange) → IsCanonical rs → IsCanonical (truncate_dirty size rs)
truncate_dirty-IsCanonical size rs g = truncate_dirty-Gapped size 0 rs g

keep_touching-touch :
    (e : ℕ) (r : ByteRange) (p : List ByteRange × List ByteRange)
    → r.start ≤ e
    → keep_touching e r p ≡ (r ∷ p.0, p.1)
unfolding keep_touching
keep_touching-touch e r ([], a) h = ground arith
keep_touching-touch e r (q ∷ t, a) h = refl

split_after-cons :
    (e : ℕ) (r : ByteRange) (rs : List ByteRange)
    → r.start ≤ e
    → split_after e (r ∷ rs) ≡ (r ∷ (split_after e rs).0, (split_after e rs).1)
unfolding split_after
split_after-cons e r rs h = keep_touching-touch e r (split_after e rs) h

split_after-past :
    (e lo : ℕ) (rs : List ByteRange) → e < lo → Gapped lo rs → split_after e rs ≡ ([], rs)
unfolding split_after keep_touching
split_after-past e lo [] h g = refl
split_after-past e lo (r ∷ rs) h g =
    rw (split_after-past e (r.end + 1) rs (omega arith) g.2) (ground arith)

-- The end of the span that replaces the touching ones, by one step of the split.
hull_end-cons :
    (e : ℕ) (r : ByteRange) (rs : List ByteRange)
    → Gapped (r.end + 1) rs
    → r.start ≤ e
    → hull_end e (r ∷ (split_after e rs).0)
      ≡ (if ltb e r.end then r.end else hull_end e (split_after e rs).0)
unfolding hull_end split_after
hull_end-cons e r [] g h = unfold last_end in refl
hull_end-cons e r (q ∷ qs) g h = elim (Bool-cases (ltb e q.start)) [
  | inl far ↦
      rw (split_after-past e (e + 1) (q ∷ qs) (omega arith) (ground arith, g.1, g.2))
        (unfold last_end in refl)
  | inr near ↦
      rw (keep_touching-touch e q (split_after e qs) (ground arith), split_after) (ground arith)
]

-- The hull of the touching spans and the spans after it, seen from a bound that all spans respect.
covers-hull :
    (b e lo : ℕ) (rs : List ByteRange) (x : ℕ)
    → Gapped lo rs
    → b ≤ lo
    → ((leb b x && ltb x (hull_end e (split_after e rs).0)) || covers (split_after e rs).1 x)
      ≡ ((leb b x && ltb x e) || covers rs x)
unfolding covers
covers-hull b e lo [] x g h = unfold split_after hull_end in refl
covers-hull b e lo (r ∷ rs) x g h = elim (Bool-cases (ltb e r.start)) [
  | inl far ↦
      rw (split_after-past e (e + 1) (r ∷ rs) (omega arith) (ground arith, g.1, g.2))
        (unfold hull_end in refl)
  | inr near ↦ rw (split_after-cons e r rs (ground arith)) (
      rw (hull_end-cons e r rs g.2 (ground arith)) (elim (Bool-cases (ltb e r.end)) [
        | inl longer ↦
            rw (longer, split_after-past e (r.end + 1) rs (ground arith) g.2) (ground arith)
        | inr shorter ↦
            rw shorter (ground (arith, covers-hull b e (r.end + 1) rs x g.2 (omega arith)))
      ]))
]

Gapped-hull :
    (e lo : ℕ) (rs : List ByteRange)
    → Gapped lo rs
    → Gapped (hull_end e (split_after e rs).0 + 1) (split_after e rs).1
Gapped-hull e lo [] g = unfold split_after in tt
Gapped-hull e lo (r ∷ rs) g = elim (Bool-cases (ltb e r.start)) [
  | inl far ↦
      rw (split_after-past e (e + 1) (r ∷ rs) (omega arith) (ground arith, g.1, g.2))
        (unfold hull_end in (ground arith, g.1, g.2))
  | inr near ↦ rw (split_after-cons e r rs (ground arith)) (
      rw (hull_end-cons e r rs g.2 (ground arith)) (elim (Bool-cases (ltb e r.end)) [
        | inl longer ↦ rw (longer, split_after-past e (r.end + 1) rs (ground arith) g.2) g.2
        | inr shorter ↦ rw shorter (Gapped-hull e (r.end + 1) rs g.2)
      ]))
]

le-hull_end : (e : ℕ) (t : List ByteRange) → e ≤ hull_end e t
unfolding hull_end
le-hull_end e [] = omega arith
le-hull_end e (r ∷ t) = ground arith

-- markDirtyLocked steps over a span that ends before the written one.
mark_span-skip :
    (s e : ℕ) (r : ByteRange) (rs : List ByteRange)
    → ltb r.end s ≡ true
    → mark_span s e (r ∷ rs) ≡ r ∷ mark_span s e rs
unfolding mark_span skip_before
mark_span-skip s e r rs h = rw h

mark_span-here :
    (s e : ℕ) (r : ByteRange) (rs : List ByteRange)
    → ltb r.end s ≡ false
    → mark_span s e (r ∷ rs)
      ≡ range (hull_start s (split_after e (r ∷ rs)).0) (hull_end e (split_after e (r ∷ rs)).0)
        ∷ (split_after e (r ∷ rs)).1
unfolding mark_span skip_before
mark_span-here s e r rs h = rw h

hull_start-split :
    (s e : ℕ) (r : ByteRange) (rs : List ByteRange)
    → Gapped (r.end + 1) rs
    → r.start < r.end
    → s < e
    → hull_start s (split_after e (r ∷ rs)).0 ≡ min r.start s
hull_start-split s e r rs g n h = elim (Bool-cases (ltb e r.start)) [
  | inl far ↦
      rw (split_after-past e (e + 1) (r ∷ rs) (omega arith) (ground arith, n, g))
        (unfold hull_start in ground arith)
  | inr near ↦ rw (split_after-cons e r rs (ground arith)) (unfold hull_start in ground arith)
]

covers-mark_span :
    (s e lo : ℕ) (rs : List ByteRange) (x : ℕ)
    → Gapped lo rs
    → s < e
    → covers (mark_span s e rs) x ≡ ((leb s x && ltb x e) || covers rs x)
unfolding covers
covers-mark_span s e lo [] x g h =
    unfold mark_span skip_before split_after hull_start hull_end in refl
covers-mark_span s e lo (r ∷ rs) x g h = elim (Bool-cases (ltb r.end s)) [
  | inl skip ↦
      rw (mark_span-skip s e r rs skip)
        (ground (arith, covers-mark_span s e (r.end + 1) rs x g.2 h))
  | inr here ↦
      rw (mark_span-here s e r rs here, hull_start-split s e r rs g.2 g.1 h)
        (ground (
          arith,
          covers-hull (min r.start s) e r.start (r ∷ rs) x (omega arith, g.1, g.2) (omega arith),
        ))
]

mark_span-Gapped :
    (s e lo : ℕ) (rs : List ByteRange)
    → Gapped lo rs
    → lo ≤ s
    → s < e
    → Gapped lo (mark_span s e rs)
mark_span-Gapped s e lo [] g b h =
    unfold mark_span skip_before split_after hull_start hull_end in (b, h, tt)
mark_span-Gapped s e lo (r ∷ rs) g b h = elim (Bool-cases (ltb r.end s)) [
  | inl skip ↦
      rw (mark_span-skip s e r rs skip)
        (g.0, g.1, mark_span-Gapped s e (r.end + 1) rs g.2 (ground arith) h)
  | inr here ↦
      rw (mark_span-here s e r rs here, hull_start-split s e r rs g.2 g.1 h)
        (
          omega arith,
          omega (arith, le-hull_end e (split_after e (r ∷ rs)).0),
          Gapped-hull e lo (r ∷ rs) g,
        )
]

-- The offsets of a write, with a negative start taken for 0.
abbrev pub in_write : Int64 → Int64 → ℕ → Bool
in_write start (minus e) x = false
in_write (plus s) (plus e) x = leb s x && ltb x e
in_write (minus s) (plus e) x = ltb x e

-- Over a canonical dirty set markDirtyLocked adds exactly the written offsets, for any signed start
-- and end: nothing is lost by merging, and nothing else becomes dirty.
pub covers-mark_dirty :
    (start end : Int64) (rs : List ByteRange) (x : ℕ)
    → IsCanonical rs
    → covers (mark_dirty start end rs) x ≡ (in_write start end x || covers rs x)
unfolding mark_dirty
covers-mark_dirty start (minus e) rs x g = refl
covers-mark_dirty (plus s) (plus e) rs x g = elim (Bool-cases (leb e s)) [
  | inl empty ↦ rw empty (ground arith)
  | inr wide ↦ rw wide (covers-mark_span s e 0 rs x g (ground arith))
]
covers-mark_dirty (minus s) (plus e) rs x g = elim (Bool-cases (leb e 0)) [
  | inl empty ↦ rw empty (ground arith)
  | inr wide ↦ rw wide (ground (arith, covers-mark_span 0 e 0 rs x g (ground arith)))
]

-- markDirtyLocked keeps the dirty set sorted, disjoint and gapped.
pub mark_dirty-IsCanonical :
    (start end : Int64) (rs : List ByteRange)
    → IsCanonical rs
    → IsCanonical (mark_dirty start end rs)
unfolding mark_dirty
mark_dirty-IsCanonical start (minus e) rs g = g
mark_dirty-IsCanonical start (plus e) rs g = elim (Bool-cases (leb e (clamp_offset start))) [
  | inl empty ↦ rw empty g
  | inr wide ↦ rw wide (mark_span-Gapped (clamp_offset start) e 0 rs g (omega arith) (ground arith))
]

-- Over a canonical dirty set markDirtyLocked gives a canonical one that holds exactly the written
-- offsets and those that were dirty, for any signed start and end.
pub mark_dirty_lem :
    (start end : Int64) (rs : List ByteRange)
    → IsCanonical rs
    → IsCanonical (mark_dirty start end rs)
      × ((x : ℕ) → covers (mark_dirty start end rs) x ≡ (in_write start end x || covers rs x))
mark_dirty_lem start end rs g =
    (mark_dirty-IsCanonical start end rs g, λ x. covers-mark_dirty start end rs x g)

-- Nothing stays dirty in a file that is cut to 0.
pub truncate_dirty-zero : (rs : List ByteRange) → truncate_dirty 0 rs ≡ []
unfolding truncate_dirty
truncate_dirty-zero [] = refl
truncate_dirty-zero (r ∷ rs) = ground (arith, truncate_dirty-zero rs)

pub truncate_dirty-nil : (n : ℕ) → truncate_dirty n [] ≡ []
unfolding truncate_dirty
truncate_dirty-nil n = refl
