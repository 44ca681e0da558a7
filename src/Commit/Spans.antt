-- ===== src/Commit/Spans.antt =====
-- The pages of commitPatch: internal/fusefs/fuse_write_commit.go.
use storhub.Prelude.{
  ℕ, zero, suc, ◌+◌, ◌-◌, ◌≤◌, ◌<◌, false, List, [], ◌∷◌, ◌++◌, ◌≡◌, refl, ap, sym, ◌∙◌, arith, ltb,
  if◌then◌else◌, All, All-append, Bool-cases, inl, inr, append-nil,
}
use storhub.LocalFile.{File, slice, length-slice, zeros}
use storhub.Ranges.{ByteRange, range}
use storhub.Ranges.Cover.{covers, within, covers-append, Gapped}
use storhub.Overlay.{Overlay, Hub, read_into, ok}
use storhub.Overlay.View.{view, Serves, IsOver}
use storhub.Overlay.Read.{read_into_lem}
use storhub.Commit.{RangeEdit, page_end, delete_of, page_edit, page_edits, patch_edits}

-- The pages of a span, and of a list of spans.
unfoldable pub page_spans : ℕ → ℕ → ℕ → ℕ → List ByteRange
page_spans zero page offset stop = []
page_spans (suc fuel) page offset stop =
    let rest = page_spans fuel page (page_end page offset stop) stop in
    if ltb offset stop then range offset (page_end page offset stop) ∷ rest else []

unfoldable pub all_spans : ℕ → List ByteRange → List ByteRange
unfolding page_spans
all_spans page [] = []
all_spans page (r ∷ dirty) = page_spans (r.end - r.start) page r.start r.end ++ all_spans page dirty

-- The edit of a page of a file that holds these bytes over a base of this size.
abbrev pub span_edit : (ℕ → ℕ) → ℕ → ByteRange → RangeEdit
span_edit bytes base_size r = record {
  start = r.start;
  delete_size = delete_of base_size r.start r.end;
  bytes = slice bytes r.start (r.end - r.start);
}

abbrev pub span_edits : (ℕ → ℕ) → ℕ → List ByteRange → List RangeEdit
span_edits bytes base_size [] = []
span_edits bytes base_size (r ∷ rs) = span_edit bytes base_size r ∷ span_edits bytes base_size rs

span_edits-append :
    (bytes : ℕ → ℕ) (b : ℕ) (xs ys : List ByteRange)
    → span_edits bytes b (xs ++ ys) ≡ span_edits bytes b xs ++ span_edits bytes b ys
span_edits-append bytes b [] ys = refl
span_edits-append bytes b (x ∷ xs) ys =
    ap (λ (es : List RangeEdit). span_edit bytes b x ∷ es) (span_edits-append bytes b xs ys)

ltb_irrefl : (n : ℕ) → ltb n n ≡ false
ltb_irrefl n = ground arith

sub_self : (n : ℕ) → n - n ≡ 0
sub_self n = omega arith

page_edit-full :
    (w : Overlay) (bytes : ℕ → ℕ) (offset end : ℕ)
    → page_edit w offset end (slice bytes offset (end - offset))
      ≡ ok (span_edit bytes w.base_size (range offset end))
unfolding page_edit zeros
page_edit-full w bytes offset end =
    let n = end - offset in
    rw (length-slice bytes offset n, ltb_irrefl n, sub_self n, append-nil (slice bytes offset n))
      refl

module _ (hub : Hub) (base : File) (serves : Serves hub base) (page : ℕ) (some_page : 0 < page)
    (w : Overlay) (over : IsOver base w) where
  read_page :
      (offset end : ℕ)
      → end ≤ w.logical_size
      → read_into hub w offset (end - offset) ≡ ok (slice (view base w) offset (end - offset))
  read_page offset end h =
      read_into_lem hub base serves w offset (end - offset) over
      ∙ ap (λ (n : ℕ). ok (slice (view base w) offset n)) (omega arith)

  page_edits-spans :
      (fuel offset stop : ℕ)
      → stop ≤ w.logical_size
      → page_edits fuel hub w page offset stop
        ≡ ok (span_edits (view base w) w.base_size (page_spans fuel page offset stop))
  unfolding page_edits page_spans
  page_edits-spans zero offset stop h = refl
  page_edits-spans (suc fuel) offset stop h = elim (Bool-cases (ltb offset stop)) [
    | inl e ↦
        rw
          (
            e,
            read_page offset (page_end page offset stop) (ground arith),
            page_edit-full w (view base w) offset (page_end page offset stop),
            page_edits-spans fuel (page_end page offset stop) stop h,
          )
          refl
    | inr e ↦ rw e refl
  ]

  -- commitPatch makes one edit for each page, of the bytes that the open file shows.
  pub patch_edits-spans :
      (dirty : List ByteRange)
      → All (λ (r : ByteRange). r.end ≤ w.logical_size) dirty
      → patch_edits hub w page dirty
        ≡ ok (span_edits (view base w) w.base_size (all_spans page dirty))
  unfolding patch_edits all_spans
  patch_edits-spans [] h = refl
  patch_edits-spans (r ∷ dirty) h =
      rw (page_edits-spans (r.end - r.start) r.start r.end h.0, patch_edits-spans dirty h.1)
        (ap ok (
          sym (
            span_edits-append (view base w) w.base_size
              (page_spans (r.end - r.start) page r.start r.end) (all_spans page dirty))))

-- Spans in order, none of them empty.
abbrev pub Ascending : ℕ → List ByteRange → Type 0
Ascending lo [] = Unit
Ascending lo (r ∷ rs) = (lo ≤ r.start) × (r.start < r.end) × Ascending r.end rs

Ascending-le : (lo hi : ℕ) (rs : List ByteRange) → lo ≤ hi → Ascending hi rs → Ascending lo rs
Ascending-le lo hi [] h a = tt
Ascending-le lo hi (r ∷ rs) h a = (omega arith, a.1, a.2)

page_spans-Ascending :
    (fuel page offset stop : ℕ) (rest : List ByteRange)
    → 0 < page
    → offset ≤ stop
    → Ascending stop rest
    → Ascending offset (page_spans fuel page offset stop ++ rest)
unfolding page_spans
page_spans-Ascending zero page offset stop rest p h a = Ascending-le offset stop rest h a
page_spans-Ascending (suc fuel) page offset stop rest p h a = elim (Bool-cases (ltb offset stop)) [
  | inl e ↦ rw e (
    omega arith,
    ground (arith, e),
    page_spans-Ascending fuel page (page_end page offset stop) stop rest p (ground (arith, e)) a,
  )
  | inr e ↦ rw e (Ascending-le offset stop rest h a)
]

pub all_spans-Ascending :
    (page lo : ℕ) (dirty : List ByteRange)
    → 0 < page
    → Gapped lo dirty
    → Ascending lo (all_spans page dirty)
unfolding all_spans
all_spans-Ascending page lo [] p g = tt
all_spans-Ascending page lo (r ∷ dirty) p g =
    Ascending-le lo r.start
      (page_spans (r.end - r.start) page r.start r.end ++ all_spans page dirty) g.0
      (page_spans-Ascending (r.end - r.start) page r.start r.end (all_spans page dirty) p
        (omega (arith, g.1))
        (Ascending-le r.end (r.end + 1) (all_spans page dirty) (omega arith)
          (all_spans-Ascending page (r.end + 1) dirty p g.2)))

covers-page_spans :
    (fuel page offset stop x : ℕ)
    → 0 < page
    → stop - offset ≤ fuel
    → covers (page_spans fuel page offset stop) x ≡ within (range offset stop) x
unfolding page_spans covers within
covers-page_spans zero page offset stop x p f = ground arith
covers-page_spans (suc fuel) page offset stop x p f = elim (Bool-cases (ltb offset stop)) [
  | inl e ↦ rw e (
      ground (
        arith,
        covers-page_spans fuel page (page_end page offset stop) stop x p (ground (arith, e)),
        e,
      ))
  | inr e ↦ rw e (ground (arith, e))
]

-- No page is longer than a page.
abbrev pub Paged : ℕ → List ByteRange → Type 0
Paged page spans = All (λ (r : ByteRange). r.end ≤ r.start + page) spans

page_spans-Paged : (fuel page offset stop : ℕ) → Paged page (page_spans fuel page offset stop)
unfolding page_spans
page_spans-Paged zero page offset stop = tt
page_spans-Paged (suc fuel) page offset stop = elim (Bool-cases (ltb offset stop)) [
  | inl e ↦ rw e (ground arith, page_spans-Paged fuel page (page_end page offset stop) stop)
  | inr e ↦ rw e tt
]

pub all_spans-Paged : (page : ℕ) (dirty : List ByteRange) → Paged page (all_spans page dirty)
unfolding all_spans
all_spans-Paged page [] = tt
all_spans-Paged page (r ∷ dirty) =
    All-append (λ (r : ByteRange). r.end ≤ r.start + page)
      (page_spans (r.end - r.start) page r.start r.end) (all_spans page dirty)
      (page_spans-Paged (r.end - r.start) page r.start r.end) (all_spans-Paged page dirty)

pub covers-all_spans :
    (page : ℕ) (dirty : List ByteRange) (x : ℕ)
    → 0 < page
    → covers (all_spans page dirty) x ≡ covers dirty x
unfolding all_spans covers
covers-all_spans page [] x p = refl
covers-all_spans page (r ∷ dirty) x p =
    covers-append (page_spans (r.end - r.start) page r.start r.end) (all_spans page dirty) x
    ∙ rw
        (
          covers-page_spans (r.end - r.start) page r.start r.end x p (omega arith),
          covers-all_spans page dirty x p,
        )
        refl
