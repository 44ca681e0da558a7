-- ===== src/Path/Keys.antt =====
-- The two normalizers: NormalizePath and normalizeStoredPath of internal/fs, and those of
-- internal/metadata.
use mathlib.Core.List.{reverse, reverse-reverse}
use storhub.Prelude.{
  ℕ, zero, suc, true, false, List, [], ◌∷◌, ◌++◌, ◌≡◌, ◌≢◌, refl, ap, arith, All, ◌∙◌, Bool-cases,
  inl, inr, sym, ==_iff,
}
use storhub.Path.{
  Text, slash, is_slash, split, split_more, join, part_of, Part, skipped, parent, plain,
  clean_parts, clean, or_dot, dot_dots, dot_text, dot_dot_text, same_text, has_prefix, cleaned_key,
  Key, key, refused, escapes_root, trim_left,
}
use storhub.Path.Split.{NoSlash, split-join, split-NoSlash}
use storhub.Path.Clean.{IsName, clean_parts-IsName, clean_parts-names, All-reverse_aux}

pub All-NoSlash : (parts : List Text) → All IsName parts → All NoSlash parts
All-NoSlash [] h = tt
All-NoSlash (part ∷ parts) h = (h.0.1, All-NoSlash parts h.1)

-- A storage key: the names of a path, joined.
pub record IsKey (out : Text) : Type 0 where
  pub names : List Text
  pub named : All IsName names
  pub joined : out ≡ join names

pub same_text→≡ : (s t : Text) → same_text s t ≡ true → s ≡ t
unfolding same_text
same_text→≡ [] [] h = refl
same_text→≡ [] (b ∷ t) h = ground (arith, h)
same_text→≡ (a ∷ s) [] h = ground (arith, h)
same_text→≡ (a ∷ s) (b ∷ t) h = ground (arith, ==_iff a b, same_text→≡ s t)

pub has_prefix→≡ : (p t : Text) → has_prefix p t ≡ true → (rest : Text) × (t ≡ p ++ rest)
unfolding has_prefix
has_prefix→≡ [] t h = (t, refl)
has_prefix→≡ (a ∷ p) [] h = ground (arith, h)
has_prefix→≡ (a ∷ p) (b ∷ t) h =
    let (rest, e) = has_prefix→≡ p t (ground (arith, h)) in (rest, ground (arith, ==_iff a b, e, h))

abbrev first_part : List Text → Part
first_part [] = plain
first_part (part ∷ parts) = part_of part

pub split_names :
    (part : Text) (parts : List Text)
    → All IsName (part ∷ parts)
    → split (join (part ∷ parts)) ≡ part ∷ parts
split_names part parts h = split-join part parts (All-NoSlash (part ∷ parts) h)

first_part-names :
    (part : Text) (parts : List Text)
    → All IsName (part ∷ parts)
    → first_part (split (join (part ∷ parts))) ≡ plain
first_part-names part parts h = ap first_part (split_names part parts h) ∙ h.0.0

-- A text that starts with a part that names nothing is no joined list of names.
no_names :
    (t : Text) (p : Part) (part : Text) (parts : List Text)
    → first_part (split t) ≡ p
    → p ≢ plain
    → All IsName (part ∷ parts)
    → join (part ∷ parts) ≢ t
no_names t p part parts e n h eq =
    n (sym e ∙ sym (ap (λ (u : Text). first_part (split u)) eq) ∙ first_part-names part parts h)

skipped_ne : skipped ≢ plain
skipped_ne e = ground (arith, e)

parent_ne : parent ≢ plain
parent_ne e = ground (arith, e)

not_same : (s t : Text) → s ≢ t → same_text s t ≡ false
not_same s t h = elim (Bool-cases (same_text s t)) [
  | inl e ↦ absurd (h (same_text→≡ s t e))
  | inr e ↦ e
]

abbrev dots_slash : Text
dots_slash = 46 ∷ 46 ∷ slash ∷ []

starts_parent : (rest : Text) → first_part (split (dots_slash ++ rest)) ≡ parent
unfolding split split_more part_of same_text
starts_parent rest = refl

starts_dot : first_part (split dot_text) ≡ skipped
unfolding split split_more part_of same_text
starts_dot = refl

starts_dot_dot : first_part (split dot_dot_text) ≡ parent
unfolding split split_more part_of same_text
starts_dot_dot = refl

not_dots_slash :
    (part : Text) (parts : List Text)
    → All IsName (part ∷ parts)
    → has_prefix dots_slash (join (part ∷ parts)) ≡ false
not_dots_slash part parts h = elim (Bool-cases (has_prefix dots_slash (join (part ∷ parts)))) [
  | inl e ↦
      let (rest, eq) = has_prefix→≡ dots_slash (join (part ∷ parts)) e in
      absurd (no_names (dots_slash ++ rest) parent part parts (starts_parent rest) parent_ne h eq)
  | inr e ↦ e
]

pub not_dot :
    (part : Text) (parts : List Text)
    → All IsName (part ∷ parts)
    → same_text (join (part ∷ parts)) dot_text ≡ false
not_dot part parts h =
    not_same (join (part ∷ parts)) dot_text
      (no_names dot_text skipped part parts starts_dot skipped_ne h)

cleaned_key-names :
    (part : Text) (parts : List Text)
    → All IsName (part ∷ parts)
    → cleaned_key (join (part ∷ parts)) ≡ key (join (part ∷ parts))
unfolding cleaned_key
cleaned_key-names part parts h = rw (not_dot part parts h) (
    rw
      (not_same (join (part ∷ parts)) dot_dot_text
        (no_names dot_dot_text parent part parts starts_dot_dot parent_ne h))
      (rw (not_dots_slash part parts h) refl))

cleaned_key-ups :
    (ups : ℕ) (names : List Text)
    → cleaned_key (or_dot (dot_dots (suc ups) names)) ≡ refused escapes_root
unfolding cleaned_key or_dot dot_dots join same_text has_prefix
cleaned_key-ups zero [] = refl
cleaned_key-ups zero (name ∷ names) = refl
cleaned_key-ups (suc ups) names = refl

-- What is made of the parts that path.Clean leaves.
abbrev pub verdict : ℕ × List Text → Key
verdict (zero, names) = key (join (reverse names))
verdict (suc ups, names) = refused escapes_root

cleaned_key-or_dot :
    (names : List Text) → All IsName names → cleaned_key (or_dot names) ≡ key (join names)
unfolding or_dot
cleaned_key-or_dot [] h = unfold cleaned_key same_text join in refl
cleaned_key-or_dot (part ∷ parts) h = cleaned_key-names part parts h

cleaned_key-verdict :
    (out : ℕ × List Text)
    → All IsName out.1
    → cleaned_key (or_dot (dot_dots out.0 (reverse out.1))) ≡ verdict out
unfolding dot_dots
cleaned_key-verdict (zero, names) h =
    cleaned_key-or_dot (reverse names) (All-reverse_aux IsName names [] h tt)
cleaned_key-verdict (suc ups, names) h = cleaned_key-ups ups (reverse names)

pub cleaned_key-clean : (t : Text) → cleaned_key (clean t) ≡ verdict (clean_parts (0, []) (split t))
unfolding clean
cleaned_key-clean t =
    cleaned_key-verdict (clean_parts (0, []) (split t))
      (clean_parts-IsName (0, []) (split t) tt (split-NoSlash t))

-- Cleaning a key that is not the root.
verdict-names :
    (names : List Text) → All IsName names → verdict (clean_parts (0, []) names) ≡ key (join names)
verdict-names names h =
    ap verdict (clean_parts-names [] names h)
    ∙ ap (λ (ns : List Text). key (join ns)) (reverse-reverse names)

pub cleaned_key-again :
    (part : Text) (parts : List Text)
    → All IsName (part ∷ parts)
    → cleaned_key (clean (join (part ∷ parts))) ≡ key (join (part ∷ parts))
cleaned_key-again part parts h =
    cleaned_key-clean (join (part ∷ parts))
    ∙ ap (λ (ps : List Text). verdict (clean_parts (0, []) ps)) (split_names part parts h)
    ∙ verdict-names (part ∷ parts) h

pub trim_left-names :
    (part : Text) (parts : List Text)
    → All IsName (part ∷ parts)
    → trim_left is_slash (join (part ∷ parts)) ≡ join (part ∷ parts)
unfolding trim_left join part_of
trim_left-names [] parts h = ground (arith, h.0.0)
trim_left-names (c ∷ part) [] h = rw h.0.1.0 refl
trim_left-names (c ∷ part) (next ∷ parts) h = rw h.0.1.0 refl
