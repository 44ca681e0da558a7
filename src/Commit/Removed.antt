-- ===== src/Commit/Removed.antt =====
-- The dirty set behind a commit: removeDirtyRangeLocked of internal/fusefs/fuse_write_commit.go.
use storhub.Prelude.{
  ℕ, suc, ◌+◌, sym, ap, subst, length, stored_at-beyond, append-nil, append_assoc, length-append,
  true, false, ◌≤◌, ◌<◌, ◌&&◌, ◌||◌, not, List, [], ◌∷◌, ◌++◌, ◌≡◌, refl, ◌∙◌, arith, ltb, leb,
  Bool-cases, inl, inr,
}
use storhub.Ranges.{ByteRange, range}
use storhub.Ranges.Cover.{covers, within, covers-append, Gapped, Gapped-le, IsCanonical}
use storhub.Commit.{
  kept_of, remove_loop, remove_dirty_range, consume_range, consume_loop, consume_dirty,
}

covers-kept_of :
    (start end : ℕ) (r : ByteRange) (x : ℕ)
    → start ≤ end
    → covers (kept_of start end r) x ≡ (within r x && not (within (range start end) x))
unfolding kept_of covers within
covers-kept_of start end r x h = ground arith

-- What is kept of all spans.
kept_all : ℕ → ℕ → List ByteRange → List ByteRange
unfolding kept_of
kept_all start end [] = []
kept_all start end (r ∷ dirty) = kept_of start end r ++ kept_all start end dirty

covers-kept_all :
    (start end : ℕ) (dirty : List ByteRange) (x : ℕ)
    → start ≤ end
    → covers (kept_all start end dirty) x ≡ (covers dirty x && not (within (range start end) x))
unfolding kept_all covers
covers-kept_all start end [] x h = refl
covers-kept_all start end (r ∷ dirty) x h =
    covers-append (kept_of start end r) (kept_all start end dirty) x
    ∙ ground (arith, covers-kept_of start end r x h, covers-kept_all start end dirty x h)

Gapped-cons :
    (lo s e : ℕ) (rest : List ByteRange)
    → lo ≤ s
    → s < e
    → Gapped (e + 1) rest
    → Gapped lo (range s e ∷ rest)
Gapped-cons lo s e rest l n g = (l, n, g)

kept_of-Gapped :
    (start end lo : ℕ) (r : ByteRange) (rest : List ByteRange)
    → start < end
    → lo ≤ r.start
    → r.start < r.end
    → Gapped (r.end + 1) rest
    → Gapped lo (kept_of start end r ++ rest)
unfolding kept_of
kept_of-Gapped start end lo r rest h l n g =
    elim (Bool-cases (leb r.end start || leb end r.start)) [
      | inl e ↦ rw e (l, n, g)
      | inr e ↦ elim (Bool-cases (ltb r.start start)) [
        | inl s ↦ elim (Bool-cases (ltb end r.end)) [
          | inl t ↦ rw (e, s, t) (l, ground (arith, s), (omega arith, ground (arith, t), g))
          | inr t ↦ rw (e, s, t) (l, ground (arith, s), Gapped-le rest (ground (arith, e)) g)
        ]
        | inr s ↦ elim (Bool-cases (ltb end r.end)) [
          | inl t ↦ rw (e, s, t) (ground (arith, e, s), ground (arith, t), g)
          | inr t ↦ rw (e, s, t) (Gapped-le rest (omega arith) g)
        ]
      ]
    ]

kept_all-Gapped :
    (start end lo : ℕ) (dirty : List ByteRange)
    → start < end
    → Gapped lo dirty
    → Gapped lo (kept_all start end dirty)
unfolding kept_all
kept_all-Gapped start end lo [] h g = tt
kept_all-Gapped start end lo (r ∷ dirty) h g =
    kept_of-Gapped start end lo r (kept_all start end dirty) h g.0 g.1
      (kept_all-Gapped start end (r.end + 1) dirty h g.2)

-- No span but the last goes on at both sides of the range.
abbrev pub Unsplit : ℕ → ℕ → List ByteRange → Type 0
Unsplit start end [] = Unit
Unsplit start end (r ∷ []) = Unit
Unsplit start end (r ∷ s ∷ rest) =
    ((ltb r.start start && ltb end r.end) ≡ false) × Unsplit start end (s ∷ rest)

length-kept_of :
    (start end : ℕ) (r : ByteRange)
    → (ltb r.start start && ltb end r.end) ≡ false
    → length (kept_of start end r) ≤ 1
unfolding kept_of
length-kept_of start end r h = elim (Bool-cases (leb r.end start || leb end r.start)) [
  | inl e ↦ rw e (omega arith)
  | inr e ↦ elim (Bool-cases (ltb r.start start)) [
    | inl s ↦ let t : ltb end r.end ≡ false = ground (arith, s, h) in rw (e, s, t) (omega arith)
    | inr s ↦ elim (Bool-cases (ltb end r.end)) [
      | inl t ↦ rw (e, s, t) (omega arith)
      | inr t ↦ rw (e, s, t) (omega arith)
    ]
  ]
]

remove_loop-Unsplit :
    (start end : ℕ) (rest kept : List ByteRange) (i : ℕ)
    → length kept ≤ i
    → Unsplit start end rest
    → remove_loop start end kept i rest ≡ kept ++ kept_all start end rest
unfolding remove_loop kept_all
remove_loop-Unsplit start end [] kept i h w = sym (append-nil kept)
remove_loop-Unsplit start end (r ∷ []) kept i h w =
    rw (stored_at-beyond kept i r h, append-nil (kept_of start end r)) refl
remove_loop-Unsplit start end (r ∷ s ∷ rest) kept i h w =
    ap (λ (q : ByteRange). remove_loop start end (kept ++ kept_of start end q) (suc i) (s ∷ rest))
      (stored_at-beyond kept i r h)
    ∙ remove_loop-Unsplit start end (s ∷ rest) (kept ++ kept_of start end r) (suc i)
        (omega (arith, h, length-append kept (kept_of start end r), length-kept_of start end r w.0))
        w.1
    ∙ append_assoc kept (kept_of start end r) (kept_all start end (s ∷ rest))

-- Where no span but the last goes on at both sides of a range that is not empty, its removal leaves a
-- canonical dirty set canonical, and exactly the dirty offsets that the range does not hold.
pub remove_dirty_range_lem :
    (start end : ℕ) (dirty : List ByteRange)
    → start < end
    → IsCanonical dirty
    → Unsplit start end dirty
    → IsCanonical (remove_dirty_range start end dirty)
      × ((x : ℕ)
          → covers (remove_dirty_range start end dirty) x
            ≡ (covers dirty x && not (within (range start end) x)))
unfolding remove_dirty_range
remove_dirty_range_lem start end dirty h g w =
    let same = remove_loop-Unsplit start end dirty [] 0 (omega arith) w in
    (
      subst (Gapped 0) (sym same) (kept_all-Gapped start end 0 dirty h g),
      λ x.
          ap (λ (rs : List ByteRange). covers rs x) same
          ∙ covers-kept_all start end dirty x (omega (arith, h)),
    )

kept_of_self : (r : ByteRange) → r.start < r.end → kept_of r.start r.end r ≡ []
unfolding kept_of
kept_of_self r h = ground (arith, h)

kept_of_before : (r s : ByteRange) → r.end ≤ s.start → kept_of s.start s.end r ≡ r ∷ []
unfolding kept_of
kept_of_before r s h = ground (arith, h)

kept_of_behind : (r s : ByteRange) → s.end ≤ r.start → kept_of s.start s.end r ≡ r ∷ []
unfolding kept_of
kept_of_behind r s h = ground (arith, h)

pub consume_dirty-one :
    (spare : List ByteRange) (r : ByteRange) → r.start < r.end → consume_dirty spare (r ∷ []) ≡ []
unfolding consume_dirty consume_loop consume_range remove_dirty_range remove_loop
consume_dirty-one spare r h = kept_of_self r h

-- Of a canonical dirty set of one or two spans commitPatch consumes all; of one of three it leaves the
-- middle span, as the list that it runs over is the one that it shortens.
pub consume_dirty-first :
    (a b c : ByteRange) (spare : List ByteRange)
    → IsCanonical (a ∷ b ∷ c ∷ [])
    → (consume_dirty spare (a ∷ []) ≡ [])
      × (consume_dirty spare (a ∷ b ∷ []) ≡ [])
      × (consume_dirty spare (a ∷ b ∷ c ∷ []) ≡ b ∷ [])
unfolding consume_dirty consume_loop consume_range remove_dirty_range remove_loop
consume_dirty-first a b c spare (l, n, (k, m, (j, o, t))) =
    let aa = kept_of_self a n in
    let bb = kept_of_self b m in
    let cc = kept_of_self c o in
    let ba = kept_of_behind b a (omega (arith, k)) in
    let ca = kept_of_behind c a (omega (arith, k, m, j)) in
    let bc = kept_of_before b c (omega (arith, j)) in
    let fits : leb 2 (length ((a ∷ b ∷ c ∷ []) ++ spare)) ≡ true = ground arith in
    (rw aa refl, rw (aa, ba, bb) refl, rw (aa, ba, ca, fits, bc, cc) bc)
