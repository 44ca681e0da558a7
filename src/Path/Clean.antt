-- ===== src/Path/Clean.antt =====
-- What path.Clean leaves of the parts of a path.
use mathlib.Core.List.{reverse_aux}
use storhub.Prelude.{ℕ, zero, suc, List, [], ◌∷◌, ◌≡◌, ◌≢◌, refl, arith, All, inl, inr, ◌⊎◌}
use storhub.Path.{Text, part_of, Part, skipped, parent, plain, clean_part, clean_parts}
use storhub.Path.Split.{NoSlash}

-- A component that names an entry.
abbrev pub IsName : Text → Type 0
IsName part = (part_of part ≡ plain) × NoSlash part

pub Part-cases : (p : Part) → (p ≡ skipped) ⊎ ((p ≡ parent) ⊎ (p ≡ plain))
Part-cases skipped = inl refl
Part-cases parent = inr (inl refl)
Part-cases plain = inr (inr refl)

pub All-reverse_aux :
    (P : Text → Type 0) (xs ys : List Text) → All P xs → All P ys → All P (reverse_aux xs ys)
All-reverse_aux P [] ys h k = k
All-reverse_aux P (x ∷ xs) ys h k = All-reverse_aux P xs (x ∷ ys) h.1 (h.0, k)

pub clean_part-IsName :
    (p : Part) (part : Text) (out : ℕ × List Text)
    → part_of part ≡ p
    → NoSlash part
    → All IsName out.1
    → All IsName (clean_part p part out).1
unfolding clean_part
clean_part-IsName skipped part out e k h = h
clean_part-IsName plain part out e k h = ((e, k), h)
clean_part-IsName parent part (ups, []) e k h = h
clean_part-IsName parent part (ups, name ∷ names) e k h = h.1

pub clean_parts-IsName :
    (out : ℕ × List Text) (parts : List Text)
    → All IsName out.1
    → All NoSlash parts
    → All IsName (clean_parts out parts).1
unfolding clean_parts
clean_parts-IsName out [] h k = h
clean_parts-IsName out (part ∷ parts) h k =
    clean_parts-IsName (clean_part (part_of part) part out) parts
      (clean_part-IsName (part_of part) part out refl k.0 h) k.1

-- Names are pushed in turn.
pub clean_parts-names :
    (names parts : List Text)
    → All IsName parts
    → clean_parts (0, names) parts ≡ (0, reverse_aux parts names)
unfolding clean_parts clean_part
clean_parts-names names [] h = refl
clean_parts-names names (part ∷ parts) h = rw h.0.0 (clean_parts-names (part ∷ names) parts h.1)

-- A dot-dot that is left over stays.
clean_part-ups :
    (p : Part) (part : Text) (ups : ℕ) (names : List Text)
    → (clean_part p part (suc ups, names)).0 ≢ 0
unfolding clean_part
clean_part-ups skipped part ups names h = omega arith
clean_part-ups plain part ups names h = omega arith
clean_part-ups parent part ups [] h = omega arith
clean_part-ups parent part ups (name ∷ names) h = omega arith

pub clean_parts-ups :
    (out : ℕ × List Text) (parts : List Text) → out.0 ≢ 0 → (clean_parts out parts).0 ≢ 0
unfolding clean_parts
clean_parts-ups out [] h = h
clean_parts-ups (zero, names) (part ∷ parts) h = absurd (h refl)
clean_parts-ups (suc ups, names) (part ∷ parts) h =
    clean_parts-ups (clean_part (part_of part) part (suc ups, names)) parts
      (clean_part-ups (part_of part) part ups names)
