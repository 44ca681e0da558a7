-- ===== src/Path/Stored.antt =====
-- Storage keys under the normalizers of internal/fs and internal/metadata.
use mathlib.Core.List.{reverse, reverse-append, reverse-cons, reverse-reverse}
use storhub.Prelude.{
  ℕ, zero, suc, false, List, [], ◌∷◌, ◌++◌, ◌≡◌, refl, ap, arith, All, ◌∙◌, Bool-cases, inl, inr,
  sym, if◌then◌else◌, Option, some, none, append_assoc, subst,
}
use storhub.Path.{
  Text, slash, is_slash, split, join, clean_parts, clean, cleaned_key, Key, key, refused, PathError,
  normalize_path, normalize_stored_path, metadata_key, metadata_stored_path, blank, is_empty,
  trim_left, trim, validate_access_path_shape, or_value, unless, part_of,
}
use storhub.Path.Split.{NoSlash, split-NoSlash}
use storhub.Path.Clean.{IsName, clean_parts-IsName, All-reverse_aux}
use storhub.Path.Keys.{IsKey, verdict, cleaned_key-clean, cleaned_key-again, trim_left-names}

abbrev key_text : Key → Text
key_text (key t) = t
key_text (refused e) = []

verdict-IsKey : (out : ℕ × List Text) (t : Text) → All IsName out.1 → verdict out ≡ key t → IsKey t
verdict-IsKey (zero, names) t h e = record {
  names = reverse names;
  named = All-reverse_aux IsName names [] h tt;
  joined = ap key_text (sym e);
}
verdict-IsKey (suc ups, names) t h e = ground (arith, e)

cleaned_key-IsKey : (value t : Text) → cleaned_key (clean value) ≡ key t → IsKey t
cleaned_key-IsKey value t e =
    verdict-IsKey (clean_parts (0, []) (split value)) t
      (clean_parts-IsName (0, []) (split value) tt (split-NoSlash value))
      (sym (cleaned_key-clean value) ∙ e)

unless-key :
    (o : Option PathError) (k : Key) (t : Text) → unless o k ≡ key t → (o ≡ none) × (k ≡ key t)
unless-key none k t e = (refl, e)
unless-key (some x) k t e = ground (arith, e)

pub normalize_path-IsKey : (value t : Text) → normalize_path value ≡ key t → IsKey t
unfolding normalize_path
normalize_path-IsKey value t e =
    cleaned_key-IsKey (trim_left is_slash value) t
      (unless-key (validate_access_path_shape value)
        (cleaned_key (clean (trim_left is_slash value))) t e).1

-- A key that is not the root ends in no slash.
abbrev Ends : Text → Type 0
Ends t = (s : Text) × (c : ℕ) × (t ≡ s ++ (c ∷ [])) × (is_slash c ≡ false)

part-Ends : (c : ℕ) (part : Text) → NoSlash (c ∷ part) → Ends (c ∷ part)
part-Ends c [] h = ([], c, refl, h.0)
part-Ends c (d ∷ part) h =
    let (s, l, e, k) = part-Ends d part h.1 in (c ∷ s, l, ap (λ (t : Text). c ∷ t) e, k)

append-Ends : (s t : Text) → Ends t → Ends (s ++ t)
append-Ends s t (u, c, e, k) =
    (s ++ u, c, ap (λ (t : Text). s ++ t) e ∙ sym (append_assoc s u (c ∷ [])), k)

join-Ends :
    (part : Text) (parts : List Text) → All IsName (part ∷ parts) → Ends (join (part ∷ parts))
unfolding join part_of
join-Ends [] parts h = ground (arith, h.0.0)
join-Ends (c ∷ part) [] h = part-Ends c part h.0.1
join-Ends (c ∷ part) (next ∷ parts) h =
    append-Ends (c ∷ part) (slash ∷ join (next ∷ parts))
      (append-Ends (slash ∷ []) (join (next ∷ parts)) (join-Ends next parts h.1))

trim_right : (t : Text) → Ends t → reverse (trim_left is_slash (reverse t)) ≡ t
unfolding trim_left
trim_right t (s, c, e, k) = rw e (
    rw (reverse-append s (c ∷ []))
      (rw k (reverse-cons c (reverse s) ∙ ap (λ (u : Text). u ++ (c ∷ [])) (reverse-reverse s))))

trim-names :
    (part : Text) (parts : List Text)
    → All IsName (part ∷ parts)
    → trim is_slash (join (part ∷ parts)) ≡ join (part ∷ parts)
unfolding trim
trim-names part parts h =
    rw (trim_left-names part parts h) (trim_right (join (part ∷ parts)) (join-Ends part parts h))

-- The normalizers at the key of the root and at any other key.
abbrev Fixed : Text → Type 0
Fixed t =
    (normalize_stored_path t ≡ t)
    × (metadata_stored_path t ≡ (if blank t then [] else t))
    × (normalize_path t ≡ unless (validate_access_path_shape t) (key t))

root-Fixed : Fixed []
unfolding normalize_stored_path metadata_stored_path metadata_key normalize_path blank trim
    validate_access_path_shape trim_left
root-Fixed = (refl, refl, refl)

pub join-is_empty :
    (part : Text) (parts : List Text)
    → All IsName (part ∷ parts)
    → is_empty (join (part ∷ parts)) ≡ false
unfolding join part_of
join-is_empty [] parts h = ground (arith, h.0.0)
join-is_empty (c ∷ part) [] h = refl
join-is_empty (c ∷ part) (next ∷ parts) h = refl

cleaned-Fixed :
    (t : Text)
    → is_empty t ≡ false
    → cleaned_key (clean (trim_left is_slash t)) ≡ key t
    → or_value (trim is_slash t) t ≡ t
    → Fixed t
unfolding normalize_stored_path metadata_stored_path metadata_key normalize_path
    validate_access_path_shape
cleaned-Fixed t e k v = elim (Bool-cases (blank t)) [
  | inl b ↦ rw (e, b) (v, refl, refl)
  | inr b ↦ rw (e, b, k) (refl, refl, refl)
]

or_value_self : (s t : Text) → s ≡ t → or_value s t ≡ t
or_value_self [] t e = refl
or_value_self (c ∷ s) t e = e

names-Fixed :
    (part : Text) (parts : List Text) → All IsName (part ∷ parts) → Fixed (join (part ∷ parts))
names-Fixed part parts h =
    cleaned-Fixed (join (part ∷ parts)) (join-is_empty part parts h)
      (ap (λ (t : Text). cleaned_key (clean t)) (trim_left-names part parts h)
        ∙ cleaned_key-again part parts h)
      (or_value_self (trim is_slash (join (part ∷ parts))) (join (part ∷ parts))
        (trim-names part parts h))

pub key-Fixed : (names : List Text) → All IsName names → Fixed (join names)
unfolding join
key-Fixed [] h = root-Fixed
key-Fixed (part ∷ parts) h = names-Fixed part parts h

-- A key that `normalize_path` gives is a list of names joined by slashes. The stored-path normalizer
-- of internal/fs keeps it, that of internal/metadata keeps it unless it is only white space, where it
-- gives the root's key, and `normalize_path` gives it again unless it refuses its shape, as it does for
-- the root's key and for one of white space only.
pub normalize_path-again :
    (value t : Text)
    → normalize_path value ≡ key t
    → IsKey t
      × (normalize_stored_path t ≡ t)
      × (metadata_stored_path t ≡ (if blank t then [] else t))
      × (normalize_path t ≡ unless (validate_access_path_shape t) (key t))
normalize_path-again value t e =
    let k = normalize_path-IsKey value t e in
    let (stored, metadata, again) =
      subst (λ (u : Text). Fixed u) (sym k.joined) (key-Fixed k.names k.named) in
    (k, stored, metadata, again)
