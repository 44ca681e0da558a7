-- ===== src/Ranges/Insert.antt =====
-- The two other ways to add a span, mergeByteRange of internal/storage and of internal/fusefs.
use storhub.Prelude.{
  ℕ, ◌+◌, ◌≤◌, ◌<◌, true, false, ◌||◌, List, [], ◌∷◌, ◌++◌, ◌≡◌, refl, arith, ltb, leb, All,
  Bool-cases, inl, inr, min, max, sym, ◌∙◌, All-append,
}
use storhub.Ranges.{
  ByteRange, range, insert_loop, insert_byte_range, merge_byte_range, mark_dirty, plus,
}
use storhub.Ranges.Cover.{
  within, covers, covers-append, covers_below, Gapped, Gapped-le, IsCanonical,
}
use storhub.Ranges.Merge.{NotEmpty, covers-merge_byte_ranges, merge_byte_ranges-IsCanonical}
use storhub.Ranges.Mark.{covers-mark_dirty, mark_dirty-IsCanonical}

-- Once the new span is inserted, the loop copies the spans past it.
insert_loop-done :
    (cur : ByteRange) (lo : ℕ) (rs : List ByteRange)
    → Gapped lo rs
    → cur.end < lo
    → cur.start ≤ cur.end
    → insert_loop cur true rs ≡ rs
unfolding insert_loop
insert_loop-done cur lo [] g h n = refl
insert_loop-done cur lo (r ∷ rs) g h n =
    ground (arith, insert_loop-done cur (r.end + 1) rs g.2 (omega arith) n)

covers-insert_loop :
    (cur : ByteRange) (lo : ℕ) (rs : List ByteRange) (x : ℕ)
    → Gapped lo rs
    → cur.start ≤ cur.end
    → covers (insert_loop cur false rs) x ≡ (within cur x || covers rs x)
unfolding insert_loop covers
covers-insert_loop cur lo [] x g n = refl
covers-insert_loop cur lo (r ∷ rs) x g n = elim (Bool-cases (ltb r.end cur.start)) [
  | inl before ↦ rw before (ground (arith, covers-insert_loop cur (r.end + 1) rs x g.2 n))
  | inr onward ↦ rw onward (elim (Bool-cases (ltb cur.end r.start)) [
    | inl after ↦ rw after (rw (insert_loop-done cur (r.end + 1) rs g.2 (ground arith) n) refl)
    | inr touch ↦ rw touch (
        ground (
          arith,
          covers-insert_loop (range (min r.start cur.start) (max r.end cur.end)) (r.end + 1) rs x
              g.2 (omega arith),
        ))
  ])
]

insert_loop-Gapped :
    (cur : ByteRange) (lo : ℕ) (rs : List ByteRange)
    → Gapped lo rs
    → lo ≤ cur.start
    → cur.start < cur.end
    → Gapped lo (insert_loop cur false rs)
unfolding insert_loop
insert_loop-Gapped cur lo [] g b n = (b, n, tt)
insert_loop-Gapped cur lo (r ∷ rs) g b n = elim (Bool-cases (ltb r.end cur.start)) [
  | inl before ↦ rw before (g.0, g.1, insert_loop-Gapped cur (r.end + 1) rs g.2 (ground arith) n)
  | inr onward ↦ rw onward (elim (Bool-cases (ltb cur.end r.start)) [
    | inl after ↦ rw after (
        rw (insert_loop-done cur (r.end + 1) rs g.2 (ground arith) (omega arith))
          (b, n, (ground arith, g.1, g.2)))
    | inr touch ↦ rw touch (
        insert_loop-Gapped (range (min r.start cur.start) (max r.end cur.end)) lo rs
          (Gapped-le rs (omega arith) g.2) (omega arith) (omega arith))
  ])
]

-- Over a canonical list, mergeByteRange of internal/storage adds exactly the offsets of the new
-- span. An inverted span adds none.
pub covers-insert_byte_range :
    (rs : List ByteRange) (r : ByteRange) (x : ℕ)
    → IsCanonical rs
    → covers (insert_byte_range rs r) x ≡ (within r x || covers rs x)
unfolding insert_byte_range within
covers-insert_byte_range rs r x g = elim (Bool-cases (leb r.end r.start)) [
  | inl empty ↦ rw empty (ground arith)
  | inr wide ↦ rw wide (unfold within in covers-insert_loop r 0 rs x g (ground arith))
]

-- mergeByteRange of internal/storage keeps a canonical list canonical.
pub insert_byte_range-IsCanonical :
    (rs : List ByteRange) (r : ByteRange) → IsCanonical rs → IsCanonical (insert_byte_range rs r)
unfolding insert_byte_range
insert_byte_range-IsCanonical rs r g = elim (Bool-cases (leb r.end r.start)) [
  | inl empty ↦ rw empty g
  | inr wide ↦ rw wide (insert_loop-Gapped r 0 rs g (omega arith) (ground arith))
]

Gapped-All : (lo : ℕ) (rs : List ByteRange) → Gapped lo rs → All NotEmpty rs
Gapped-All lo [] g = tt
Gapped-All lo (r ∷ rs) g = (g.1, Gapped-All (r.end + 1) rs g.2)

covers_start :
    (r : ByteRange) (rs : List ByteRange) → r.start < r.end → covers (r ∷ rs) r.start ≡ true
unfolding covers
covers_start r rs n = ground arith

covers_end :
    (r : ByteRange) (rs : List ByteRange) → Gapped (r.end + 1) rs → covers (r ∷ rs) r.end ≡ false
unfolding covers
covers_end r rs g = ground (arith, covers_below (r.end + 1) rs r.end g (omega arith))

covers_inside :
    (q : ByteRange) (qs : List ByteRange) (x : ℕ)
    → q.start ≤ x
    → x < q.end
    → covers (q ∷ qs) x ≡ true
unfolding covers
covers_inside q qs x a b = ground arith

covers_tail :
    (r : ByteRange) (rs : List ByteRange) (x : ℕ) → r.end < x → covers (r ∷ rs) x ≡ covers rs x
unfolding covers
covers_tail r rs x h = ground arith

abbrev Alike : List ByteRange → List ByteRange → Type 0
Alike rs qs = (x : ℕ) → covers rs x ≡ covers qs x

starts_le :
    (a b : ℕ) (r q : ByteRange) (rs qs : List ByteRange)
    → Gapped a (r ∷ rs)
    → Gapped b (q ∷ qs)
    → Alike (r ∷ rs) (q ∷ qs)
    → q.start ≤ r.start
starts_le a b r q rs qs g k same = ground (
  arith,
  covers_start r rs g.1,
  same r.start,
  covers_below q.start (q ∷ qs) r.start (omega arith, k.1, k.2),
)

ends_le :
    (a b : ℕ) (r q : ByteRange) (rs qs : List ByteRange)
    → Gapped a (r ∷ rs)
    → Gapped b (q ∷ qs)
    → Alike (r ∷ rs) (q ∷ qs)
    → q.start ≤ r.start
    → q.end ≤ r.end
ends_le a b r q rs qs g k same h =
    ground (arith, covers_end r rs g.2, same r.end, covers_inside q qs r.end)

tails-Alike :
    (a b : ℕ) (r q : ByteRange) (rs qs : List ByteRange)
    → Gapped a (r ∷ rs)
    → Gapped b (q ∷ qs)
    → Alike (r ∷ rs) (q ∷ qs)
    → r.end ≡ q.end
    → Alike rs qs
tails-Alike a b r q rs qs g k same e x = elim (Bool-cases (ltb r.end x)) [
  | inl past ↦
      ground (arith, same x, covers_tail r rs x (ground arith), covers_tail q qs x (ground arith))
  | inr low ↦ ground (
    arith,
    covers_below (r.end + 1) rs x g.2 (ground arith),
    covers_below (q.end + 1) qs x k.2 (ground arith),
  )
]

Gapped-unique :
    (a b : ℕ) (rs qs : List ByteRange) → Gapped a rs → Gapped b qs → Alike rs qs → rs ≡ qs
Gapped-unique a b [] [] g k same = refl
Gapped-unique a b [] (q ∷ qs) g k same =
    unfold covers in ground (arith, covers_start q qs k.1, same q.start)
Gapped-unique a b (r ∷ rs) [] g k same =
    unfold covers in ground (arith, covers_start r rs g.1, same r.start)
Gapped-unique a b (r ∷ rs) (q ∷ qs) g k same =
    let s1 = starts_le a b r q rs qs g k same in
    let s2 = starts_le b a q r qs rs k g (λ x. sym (same x)) in
    let e1 = ends_le a b r q rs qs g k same s1 in
    let e2 = ends_le b a q r qs rs k g (λ x. sym (same x)) s2 in
    let tail =
      Gapped-unique (r.end + 1) (q.end + 1) rs qs g.2 k.2
        (tails-Alike a b r q rs qs g k same (omega arith)) in
    ground arith

-- A canonical span list is determined by the offsets that it covers.
pub IsCanonical-unique :
    (rs qs : List ByteRange)
    → IsCanonical rs
    → IsCanonical qs
    → ((x : ℕ) → covers rs x ≡ covers qs x)
    → rs ≡ qs
IsCanonical-unique rs qs g k same = Gapped-unique 0 0 rs qs g k same

pub covers-merge_byte_range :
    (rs : List ByteRange) (r : ByteRange) (x : ℕ)
    → covers (merge_byte_range rs r) x ≡ (within r x || covers rs x)
unfolding merge_byte_range
covers-merge_byte_range rs r x = elim (Bool-cases (leb r.end r.start)) [
  | inl empty ↦ rw empty (unfold within in ground arith)
  | inr wide ↦ rw wide (
      unfold covers in
      ground (arith, covers-merge_byte_ranges (rs ++ r ∷ []) x, covers-append rs (r ∷ []) x))
]

pub merge_byte_range-IsCanonical :
    (rs : List ByteRange) (r : ByteRange) → IsCanonical rs → IsCanonical (merge_byte_range rs r)
unfolding merge_byte_range
merge_byte_range-IsCanonical rs r g = elim (Bool-cases (leb r.end r.start)) [
  | inl empty ↦ rw empty g
  | inr wide ↦ rw wide (
      merge_byte_ranges-IsCanonical (rs ++ r ∷ [])
        (All-append NotEmpty rs (r ∷ []) (Gapped-All 0 rs g) (ground arith, tt)))
]

-- The three ways to add a span to a canonical list agree: markDirtyLocked, and mergeByteRange of
-- internal/storage and of internal/fusefs, give the same list for every span.
pub mark_dirty-eq-merges :
    (rs : List ByteRange) (s e : ℕ)
    → IsCanonical rs
    → (mark_dirty (plus s) (plus e) rs ≡ insert_byte_range rs (range s e))
      × (mark_dirty (plus s) (plus e) rs ≡ merge_byte_range rs (range s e))
mark_dirty-eq-merges rs s e g = (
  IsCanonical-unique _ _ (mark_dirty-IsCanonical (plus s) (plus e) rs g)
      (insert_byte_range-IsCanonical rs (range s e) g)
      (λ x.
        unfold within in
        covers-mark_dirty (plus s) (plus e) rs x g
        ∙ sym (covers-insert_byte_range rs (range s e) x g)),
  IsCanonical-unique _ _ (mark_dirty-IsCanonical (plus s) (plus e) rs g)
      (merge_byte_range-IsCanonical rs (range s e) g)
      (λ x.
        unfold within in
        covers-mark_dirty (plus s) (plus e) rs x g
        ∙ sym (covers-merge_byte_range rs (range s e) x)),
)
