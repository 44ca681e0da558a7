-- ===== src/Path/Relatives.antt =====
-- ParentPath, IsParentOrSame and RemapPath of internal/fs/path.go.
use storhub.Prelude.{Bool, true, false, ◌||◌, not, [], ◌∷◌, ◌++◌, if◌then◌else◌}
use storhub.Path.{
  Text, slash, is_slash, is_empty, same_text, has_prefix, trim_prefix, clean, dot_text,
  normalize_stored_path,
}

-- The directory part of path.Split, and path.Dir.
abbrev pub has_slash : Text → Bool
has_slash [] = false
has_slash (c ∷ t) = is_slash c || has_slash t

unfoldable pub dir_part : Text → Text
dir_part [] = []
dir_part (c ∷ t) = let rest = dir_part t in if has_slash (c ∷ t) then c ∷ rest else []

unfoldable pub path_dir : Text → Text
unfolding clean dir_part
path_dir t = clean (dir_part t)

abbrev pub no_dot : Text → Text
no_dot t = if same_text t dot_text then [] else t

-- ParentPath
unfoldable pub parent_path : Text → Text
unfolding normalize_stored_path path_dir same_text
parent_path value =
    let stored = normalize_stored_path value in
    if is_empty stored then [] else no_dot (path_dir stored)

-- IsParentOrSame
unfoldable pub is_parent_or_same : Text → Text → Bool
unfolding normalize_stored_path same_text has_prefix
is_parent_or_same above below =
    let p = normalize_stored_path above in
    let c = normalize_stored_path below in
    if is_empty p then true else same_text c p || has_prefix (p ++ (slash ∷ [])) c

-- RemapPath
unfoldable pub remap_path : Text → Text → Text → Text
unfolding same_text has_prefix trim_prefix
remap_path old_base new_base target =
    if same_text target old_base
    then new_base
    else if not (has_prefix (old_base ++ (slash ∷ [])) target)
    then target
    else new_base ++ trim_prefix old_base target
