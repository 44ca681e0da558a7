-- ===== src/Path/Parent.antt =====
-- ParentPath of internal/fs/path.go.
use mathlib.Core.List.{reverse, reverse-reverse}
use storhub.Prelude.{
  ℕ, Bool, true, false, ◌||◌, List, [], ◌∷◌, ◌++◌, ◌≡◌, refl, ap, ◌∙◌, All, All-append, arith,
}
use storhub.Path.{
  Text, slash, is_slash, is_empty, join, clean, clean_parts, clean_part, or_dot, dot_dots, part_of,
}
use storhub.Path.Relatives.{has_slash, dir_part, path_dir, no_dot, parent_path, is_parent_or_same}
use storhub.Path.Split.{NoSlash}
use storhub.Path.Clean.{IsName, clean_parts-names}
use storhub.Path.Keys.{All-NoSlash, not_dot}
use storhub.Path.Stored.{key-Fixed, join-is_empty}
use storhub.Path.Under.{join-append, split-join-append, is_parent_or_same_iff}

has_slash-NoSlash : (part : Text) → NoSlash part → has_slash part ≡ false
has_slash-NoSlash [] h = refl
has_slash-NoSlash (c ∷ part) h = rw (h.0, has_slash-NoSlash part h.1) refl

dir_part-NoSlash : (part : Text) → NoSlash part → dir_part part ≡ []
unfolding dir_part
dir_part-NoSlash [] h = refl
dir_part-NoSlash (c ∷ part) h = rw (h.0, has_slash-NoSlash part h.1) refl

has_slash-append : (s t : Text) → has_slash (s ++ (slash ∷ t)) ≡ true
has_slash-append [] t = refl
has_slash-append (c ∷ s) t = rw (has_slash-append s t) (or-true (is_slash c))
  where
    or-true : (b : Bool) → (b || true) ≡ true
    or-true true = refl
    or-true false = refl

dir_part-append :
    (s part : Text) → NoSlash part → dir_part (s ++ (slash ∷ part)) ≡ s ++ (slash ∷ [])
unfolding dir_part
dir_part-append [] part h = rw (dir_part-NoSlash part h) refl
dir_part-append (c ∷ s) part h = ground (arith, has_slash-append s part, dir_part-append s part h)

clean_parts-skip :
    (out : ℕ × List Text) (parts : List Text)
    → clean_parts out (parts ++ ([] ∷ [])) ≡ clean_parts out parts
unfolding clean_parts clean_part part_of
clean_parts-skip out [] = refl
clean_parts-skip out (part ∷ parts) = clean_parts-skip (clean_part (part_of part) part out) parts

or_out : ℕ × List Text → Text
or_out out = or_dot (dot_dots out.0 (reverse out.1))

-- Cleaning the directory part of a key.
clean-dir :
    (part : Text) (parts : List Text)
    → All IsName (part ∷ parts)
    → clean (join (part ∷ parts) ++ (slash ∷ [])) ≡ join (part ∷ parts)
unfolding clean or_out
clean-dir part parts h =
    ap (λ (ps : List Text). or_out (clean_parts (0, []) ps))
      (split-join-append part parts [] (All-NoSlash (part ∷ parts) h))
    ∙ ap or_out (clean_parts-skip (0, []) (part ∷ parts) ∙ clean_parts-names [] (part ∷ parts) h)
    ∙ ap or_dot (reverse-reverse (part ∷ parts))

above-dir :
    (above : List Text) (name : Text)
    → All IsName above
    → IsName name
    → no_dot (path_dir (join (above ++ (name ∷ [])))) ≡ join above
unfolding path_dir
above-dir [] name h n = rw (dir_part-NoSlash name n.1) refl
above-dir (part ∷ parts) name h n = rw (join-append part parts name []) (
    rw (dir_part-append (join (part ∷ parts)) name n.1)
      (rw (clean-dir part parts h) (rw (not_dot part parts h) refl)))

snoc-is_empty :
    (above : List Text) (name : Text)
    → All IsName above
    → IsName name
    → is_empty (join (above ++ (name ∷ []))) ≡ false
snoc-is_empty [] name h n = join-is_empty name [] (n, tt)
snoc-is_empty (part ∷ parts) name h n =
    join-is_empty part (parts ++ (name ∷ []))
      (All-append IsName (part ∷ parts) (name ∷ []) h (n, tt))

parent_path-join :
    (above : List Text) (name : Text)
    → All IsName above
    → IsName name
    → parent_path (join (above ++ (name ∷ []))) ≡ join above
unfolding parent_path
parent_path-join above name h n =
    rw ((key-Fixed (above ++ (name ∷ [])) (All-append IsName above (name ∷ []) h (n, tt))).0)
      (rw (snoc-is_empty above name h n) (above-dir above name h n))

-- The parent of a storage key is the key of all its names but the last, and `is_parent_or_same`
-- holds of it and the key.
pub parent_path_lem :
    (above : List Text) (name : Text)
    → All IsName above
    → IsName name
    → (parent_path (join (above ++ (name ∷ []))) ≡ join above)
      × (is_parent_or_same (parent_path (join (above ++ (name ∷ [])))) (join (above ++ (name ∷ [])))
          ≡ true)
parent_path_lem above name h n =
    let e = parent_path-join above name h n in
    let k = All-append IsName above (name ∷ []) h (n, tt) in
    (e, rw e ((is_parent_or_same_iff above (above ++ (name ∷ [])) h k).1 (name ∷ [], refl)))
