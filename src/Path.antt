-- ===== src/Path.antt =====
-- Paths as storage keys: internal/fs/path.go, internal/metadata/helpers.go, and from the standard
-- library what they use of strings and path. A text is the list of its code points.
pub mod Resolver
pub mod Split
pub mod Clean
pub mod Keys
pub mod Stored
pub mod Turns
pub mod Physical
pub mod Plain
pub mod Relatives
pub mod Remap
pub mod Under
pub mod Parent
pub mod Tests
use mathlib.Core.List.{reverse}
use storhub.Prelude.{
  ℕ, zero, suc, Bool, true, false, ◌&&◌, ◌||◌, not, Option, none, some, List, [], ◌∷◌, ◌++◌, ◌==◌,
  leb, if◌then◌else◌, length, drop,
}

abbrev pub Text : Type 0
Text = List ℕ

abbrev pub slash : ℕ
slash = 47

abbrev pub dot_text : Text
dot_text = 46 ∷ []

abbrev pub dot_dot_text : Text
dot_dot_text = 46 ∷ 46 ∷ []

unfoldable pub same_text : Text → Text → Bool
same_text [] [] = true
same_text [] (b ∷ t) = false
same_text (a ∷ s) [] = false
same_text (a ∷ s) (b ∷ t) = (a == b) && same_text s t

-- strings.HasPrefix, the prefix first.
unfoldable pub has_prefix : Text → Text → Bool
has_prefix [] t = true
has_prefix (a ∷ p) [] = false
has_prefix (a ∷ p) (b ∷ t) = (a == b) && has_prefix p t

-- strings.TrimPrefix, the prefix first.
unfoldable pub trim_prefix : Text → Text → Text
trim_prefix p t = if has_prefix p t then drop (length p) t else t

-- unicode.IsSpace
abbrev between : ℕ → ℕ → ℕ → Bool
between lo hi c = leb lo c && leb c hi

unfoldable pub is_space : ℕ → Bool
is_space c =
    between 9 13 c
    || (c == 32)
    || (c == 0x85)
    || (c == 0xa0)
    || (c == 0x1680)
    || between 0x2000 0x200a c
    || between 0x2028 0x2029 c
    || (c == 0x202f)
    || (c == 0x205f)
    || (c == 0x3000)

abbrev pub is_slash : ℕ → Bool
is_slash c = c == slash

-- strings.TrimLeft, with the test of its cutset.
unfoldable pub trim_left : (ℕ → Bool) → Text → Text
trim_left cut [] = []
trim_left cut (c ∷ t) = let rest = trim_left cut t in if cut c then rest else c ∷ t

-- strings.Trim and strings.TrimSpace
unfoldable pub trim : (ℕ → Bool) → Text → Text
trim cut t = reverse (trim_left cut (reverse (trim_left cut t)))

abbrev pub is_empty : Text → Bool
is_empty [] = true
is_empty (c ∷ t) = false

unfoldable pub blank : Text → Bool
unfolding trim is_space
blank t = is_empty (trim is_space t)

-- strings.Split at slashes
unfoldable pub split_more : Bool → ℕ → List Text → List Text
split_more true c parts = [] ∷ parts
split_more false c [] = (c ∷ []) ∷ []
split_more false c (part ∷ parts) = (c ∷ part) ∷ parts

unfoldable pub split : Text → List Text
unfolding split_more
split [] = [] ∷ []
split (c ∷ t) = split_more (is_slash c) c (split t)

-- strings.Join with slashes
unfoldable pub join : List Text → Text
join [] = []
join (part ∷ []) = part
join (part ∷ next ∷ parts) = part ++ (slash ∷ join (next ∷ parts))

-- What a component of a path is.
pub data Part : Type 0 where
  skipped parent plain : Part

unfoldable pub part_of : Text → Part
unfolding same_text
part_of [] = skipped
part_of (c ∷ t) =
    if same_text (c ∷ t) dot_text
    then skipped
    else if same_text (c ∷ t) dot_dot_text
    then parent
    else plain

-- path.Clean on a path that does not start at the root. The names that are left stand on a stack, its
-- top at the head, over the leading dot-dots, which are counted.
unfoldable pub clean_part : Part → Text → ℕ × List Text → ℕ × List Text
clean_part skipped part (ups, names) = (ups, names)
clean_part plain part (ups, names) = (ups, part ∷ names)
clean_part parent part (ups, []) = (suc ups, [])
clean_part parent part (ups, name ∷ names) = (ups, names)

unfoldable pub clean_parts : ℕ × List Text → List Text → ℕ × List Text
unfolding clean_part part_of
clean_parts out [] = out
clean_parts out (part ∷ parts) = clean_parts (clean_part (part_of part) part out) parts

unfoldable pub dot_dots : ℕ → List Text → List Text
dot_dots zero parts = parts
dot_dots (suc n) parts = dot_dot_text ∷ dot_dots n parts

unfoldable pub or_dot : List Text → Text
unfolding join
or_dot [] = dot_text
or_dot (part ∷ parts) = join (part ∷ parts)

unfoldable pub clean : Text → Text
unfolding clean_parts dot_dots or_dot split
clean t = let (ups, names) = clean_parts (0, []) (split t) in or_dot (dot_dots ups (reverse names))

pub data PathError : Type 0 where
  required_path whitespace_only escapes_root : PathError

-- A storage key, or why there is none.
pub data Key : Type 0 where
  key : Text → Key
  refused : PathError → Key

-- ValidateAccessPathShape
unfoldable pub validate_access_path_shape : Text → Option PathError
unfolding blank
validate_access_path_shape t =
    if is_empty t then some required_path else if blank t then some whitespace_only else none

-- What both normalizers do with a cleaned path.
unfoldable pub cleaned_key : Text → Key
unfolding same_text has_prefix
cleaned_key cleaned =
    if same_text cleaned dot_text
    then key []
    else if same_text cleaned dot_dot_text || has_prefix (46 ∷ 46 ∷ slash ∷ []) cleaned
    then refused escapes_root
    else key cleaned

abbrev pub unless : Option PathError → Key → Key
unless (some e) k = refused e
unless none k = k

-- NormalizePath
unfoldable pub normalize_path : Text → Key
unfolding validate_access_path_shape cleaned_key clean trim_left
normalize_path value =
    unless (validate_access_path_shape value) (cleaned_key (clean (trim_left is_slash value)))

abbrev pub key_or : Key → Text → Text
key_or (key cleaned) spelling = cleaned
key_or (refused e) spelling = spelling

abbrev pub or_value : Text → Text → Text
or_value [] value = value
or_value (c ∷ t) value = c ∷ t

-- normalizeStoredPath of internal/fs
unfoldable pub normalize_stored_path : Text → Text
unfolding normalize_path trim
normalize_stored_path value = key_or (normalize_path value) (or_value (trim is_slash value) value)

-- normalizeStoredPathErr and normalizeStoredPath of internal/metadata
unfoldable pub metadata_key : Text → Key
unfolding blank cleaned_key clean trim_left
metadata_key value = if blank value then key [] else cleaned_key (clean (trim_left is_slash value))

unfoldable pub metadata_stored_path : Text → Text
unfolding metadata_key trim is_space
metadata_stored_path value = key_or (metadata_key value) (trim is_slash (trim is_space value))
