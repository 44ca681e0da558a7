-- ===== src/Path/Resolver.antt =====
-- The walk over the components of a user's path, through symbolic links: internal/fs/symlink.go, with
-- FindFile and HasDirectory of internal/metadata/metadata_entries.go.
use storhub.Prelude.{
  ℕ, zero, suc, Bool, true, false, ◌&&◌, ◌||◌, not, Option, none, some, List, [], ◌∷◌, ◌++◌,
  if◌then◌else◌,
}
use mathlib.Core.List.{reverse}
use storhub.Path.{
  Text, slash, is_slash, has_prefix, is_empty, trim_left, split, join, Part, skipped, parent, plain,
  part_of, PathError, escapes_root, validate_access_path_shape, normalize_stored_path,
  metadata_stored_path,
}

abbrev pub max_symlink_hops : ℕ
max_symlink_hops = 40

-- FileMeta, as far as the walk reads it: the link's target, empty for a file that is no link.
pub record FileMeta : Type 0 where
  pub symlink : Text

-- RepoMetadata's maps of files and directories.
pub record RepoMetadata : Type 0 where
  pub files : Text → Option FileMeta
  pub dirs : Text → Bool

-- FindFile
unfoldable pub find_file : RepoMetadata → Text → Option FileMeta
find_file m path = m.files (metadata_stored_path path)

-- HasDirectory
unfoldable pub has_directory : RepoMetadata → Text → Bool
has_directory m path =
    let stored = metadata_stored_path path in if is_empty stored then true else m.dirs stored

pub data ResolveError : Type 0 where
  bad_path : PathError → ResolveError
  too_many_links : ResolveError

-- The path and the directories that the walk went through, or an error.
pub data Resolved : Type 0 where
  resolved_to : Text → List Text → Resolved
  failed : ResolveError → Resolved

-- The variables of the loop but for its queue. The names and their prefixes stand with the last one
-- at the head; the prefix of the root, which the code keeps in the slice, is left out.
pub record Walk : Type 0 where
  pub resolved : List Text
  pub prefixes : List Text
  pub traversed : List Text

unfoldable pub top_prefix : List Text → Text
top_prefix [] = []
top_prefix (prefix ∷ prefixes) = prefix

unfoldable pub pop : List Text → List Text
pop [] = []
pop (x ∷ xs) = xs

unfoldable pub pop_from : List Text → List Text → List Text → Option Walk
unfolding pop
pop_from [] prefixes traversed = none
pop_from (name ∷ names) prefixes traversed =
    some record { resolved = names; prefixes = pop prefixes; traversed = traversed }

-- A dot-dot: none past the root.
unfoldable pub pop_name : Walk → Option Walk
unfolding pop_from
pop_name w = pop_from w.resolved w.prefixes w.traversed

unfoldable pub current_path : Walk → Text → Text
unfolding top_prefix
current_path w name = top_prefix w.prefixes ++ name

abbrev pub target_of : Bool → Option FileMeta → Option Text
target_of stays none = none
target_of stays (some file) = if is_empty file.symlink || stays then none else some file.symlink

-- The target of the link at this path, where the walk follows one.
unfoldable pub link_target : RepoMetadata → Bool → Bool → Text → Option Text
unfolding find_file
link_target repo follow_final at_final current =
    target_of (not follow_final && at_final) (find_file repo current)

abbrev pub is_found : {A : Type 0} → Option A → Bool
is_found none = false
is_found (some a) = true

unfoldable pub push_name : RepoMetadata → Bool → Walk → Text → Walk
unfolding current_path find_file has_directory top_prefix
push_name repo at_final w name = record {
  resolved = name ∷ w.resolved;
  prefixes = (current_path w name ++ (slash ∷ [])) ∷ w.prefixes;
  traversed =
      if not at_final
        && (is_found (find_file repo (current_path w name))
            || has_directory repo (current_path w name))
      then w.traversed ++ (current_path w name ∷ [])
      else w.traversed;
}

abbrev pub is_absolute : Text → Bool
is_absolute target = has_prefix (slash ∷ []) target

-- Where the walk goes on behind a link.
unfoldable pub jump : Text → Walk → Walk
unfolding has_prefix
jump target w =
    if is_absolute target
    then record { resolved = []; prefixes = []; traversed = w.traversed }
    else w

unfoldable pub spliced : Text → List Text
unfolding has_prefix split trim_left
spliced target = split (if is_absolute target then trim_left is_slash target else target)

abbrev pub is_last : List Text → Bool
is_last [] = true
is_last (name ∷ queue) = false

unfoldable pub finish : Walk → Resolved
unfolding normalize_stored_path join
finish w = resolved_to (normalize_stored_path (join (reverse w.resolved))) w.traversed

-- What the walk does at one component.
pub data Turn : Type 0 where
  stop : ResolveError → Turn
  onward : Walk → Turn
  behind : Text → Turn

abbrev pub popped : Option Walk → Turn
popped none = stop (bad_path escapes_root)
popped (some up) = onward up

abbrev pub linked : Walk → Option Text → Turn
linked down none = onward down
linked down (some target) = behind target

abbrev pub take_turn : Turn → (Walk → Resolved) → (Text → Resolved) → Resolved
take_turn (stop e) on follow = failed e
take_turn (onward w) on follow = on w
take_turn (behind target) on follow = follow target

module _ (repo : RepoMetadata) (follow_final : Bool) where
  unfoldable pub turn : Part → Bool → Walk → Text → Turn
  unfolding pop_name link_target current_path push_name
  turn skipped last w name = onward w
  turn parent last w name = popped (pop_name w)
  turn plain last w name =
      linked (push_name repo last w name) (link_target repo follow_final last (current_path w name))

  -- The loop up to the next link that it follows; `again` is the loop behind that link.
  unfoldable pub walk_parts : (Walk → List Text → Resolved) → Walk → List Text → Resolved
  unfolding part_of turn jump spliced finish
  walk_parts again w [] = finish w
  walk_parts again w (name ∷ queue) =
      take_turn (turn (part_of name) (is_last queue) w name) (λ v. walk_parts again v queue)
        (λ target. again (jump target w) (spliced target ++ queue))

  -- The loop with this many links still allowed.
  unfoldable pub walk : ℕ → Walk → List Text → Resolved
  unfolding walk_parts
  walk zero w queue = walk_parts (λ up rest. failed too_many_links) w queue
  walk (suc hops) w queue = walk_parts (walk hops) w queue

abbrev pub start : Walk
start = record { resolved = []; prefixes = []; traversed = [] ∷ [] }

abbrev pub unless_bad : Option PathError → Resolved → Resolved
unless_bad none r = r
unless_bad (some e) r = failed (bad_path e)

-- resolvePathTracked
unfoldable pub resolve_path_tracked : RepoMetadata → Text → Bool → Resolved
unfolding walk validate_access_path_shape split trim_left
resolve_path_tracked repo [] follow_final = resolved_to [] ([] ∷ [])
resolve_path_tracked repo (c ∷ path) follow_final =
    unless_bad (validate_access_path_shape (c ∷ path))
      (walk repo follow_final max_symlink_hops start (split (trim_left is_slash (c ∷ path))))

-- LstatResolveTracked
pub lstat_resolve_tracked : RepoMetadata → Text → Resolved
unfolding resolve_path_tracked
lstat_resolve_tracked repo path = resolve_path_tracked repo path false

-- StatResolveTracked
pub stat_resolve_tracked : RepoMetadata → Text → Resolved
unfolding resolve_path_tracked
stat_resolve_tracked repo path = resolve_path_tracked repo path true
