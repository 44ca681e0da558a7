-- ===== src/Ranges/Cover.antt =====
-- What a list of spans means: the set of the offsets inside them. A canonical list is sorted, its
-- spans are not empty, and a gap parts each from the next.
use storhub.Prelude.{
  ℕ, ◌+◌, ◌≤◌, ◌<◌, Bool, false, ◌&&◌, ◌||◌, List, [], ◌∷◌, ◌++◌, ◌≡◌, refl, arith, ltb, leb,
}
use storhub.Ranges.{ByteRange}

unfoldable pub within : ByteRange → ℕ → Bool
within r x = leb r.start x && ltb x r.end

-- The offset lies in one of the spans.
unfoldable pub covers : List ByteRange → ℕ → Bool
unfolding within
covers [] x = false
covers (r ∷ rs) x = within r x || covers rs x

-- Every span begins past `lo`, is not empty, and ends before the next begins.
abbrev pub Gapped : ℕ → List ByteRange → Type 0
Gapped lo [] = Unit
Gapped lo (r ∷ rs) = (lo ≤ r.start) × (r.start < r.end) × Gapped (r.end + 1) rs

abbrev pub IsCanonical : List ByteRange → Type 0
IsCanonical rs = Gapped 0 rs

pub Gapped-le : {a b : ℕ} (rs : List ByteRange) → a ≤ b → Gapped b rs → Gapped a rs
Gapped-le [] h g = tt
Gapped-le (r ∷ rs) h g = (omega arith, g.1, g.2)

pub covers-append :
    (ps qs : List ByteRange) (x : ℕ) → covers (ps ++ qs) x ≡ (covers ps x || covers qs x)
unfolding covers
covers-append [] qs x = refl
covers-append (p ∷ ps) qs x = ground (arith, covers-append ps qs x)

-- Below the bound of a gapped list nothing is covered.
pub covers_below :
    (lo : ℕ) (rs : List ByteRange) (x : ℕ) → Gapped lo rs → x < lo → covers rs x ≡ false
unfolding covers
covers_below lo [] x g h = refl
covers_below lo (r ∷ rs) x g h = ground (arith, covers_below (r.end + 1) rs x g.2 (omega arith))
