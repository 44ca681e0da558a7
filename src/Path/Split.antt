-- ===== src/Path/Split.antt =====
-- Splitting a path at its slashes and joining it again: strings.Split and strings.Join.
use storhub.Prelude.{ℕ, Bool, true, false, List, [], ◌∷◌, ◌++◌, ◌≡◌, refl, ap, All, ◌∙◌}
use storhub.Path.{Text, slash, is_slash, split, split_more, join}

abbrev pub NoSlash : Text → Type 0
NoSlash t = All (λ c. is_slash c ≡ false) t

split_more-NoSlash :
    (b : Bool) (c : ℕ) (parts : List Text)
    → is_slash c ≡ b
    → All NoSlash parts
    → All NoSlash (split_more b c parts)
unfolding split_more
split_more-NoSlash true c parts e h = (tt, h)
split_more-NoSlash false c [] e h = ((e, tt), tt)
split_more-NoSlash false c (part ∷ parts) e h = ((e, h.0), h.1)

pub split-NoSlash : (t : Text) → All NoSlash (split t)
unfolding split
split-NoSlash [] = (tt, tt)
split-NoSlash (c ∷ t) = split_more-NoSlash (is_slash c) c (split t) refl (split-NoSlash t)

pub split-part : (part : Text) → NoSlash part → split part ≡ part ∷ []
unfolding split split_more
split-part [] h = refl
split-part (c ∷ part) h = rw h.0 (rw (split-part part h.1) refl)

pub split-append :
    (part rest : Text) → NoSlash part → split (part ++ (slash ∷ rest)) ≡ part ∷ split rest
unfolding split split_more
split-append [] rest h = refl
split-append (c ∷ part) rest h = rw h.0 (rw (split-append part rest h.1) refl)

-- Joining parts and splitting again gives the parts.
pub split-join :
    (part : Text) (parts : List Text)
    → All NoSlash (part ∷ parts)
    → split (join (part ∷ parts)) ≡ part ∷ parts
unfolding join
split-join part [] h = split-part part h.0
split-join part (next ∷ parts) h =
    split-append part (join (next ∷ parts)) h.0 ∙ ap (λ ps. part ∷ ps) (split-join next parts h.1)
