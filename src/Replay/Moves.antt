-- ===== src/Replay/Moves.antt =====
-- The table of moved subtrees of a replay: internal/storage/ops_replay.go. A map is the list of its
-- entries in the order of an iteration; texts that begin the same path are ordered by their lengths
-- in code points as by those in bytes.
use storhub.Prelude.{
  ℕ, zero, suc, Bool, true, false, ◌&&◌, ◌||◌, not, List, [], ◌∷◌, ◌++◌, Option, none, some, ltb,
  if◌then◌else◌, length, drop,
}
use storhub.Path.{Text, is_empty, same_text}
use storhub.Path.Resolver.{RepoMetadata, FileMeta, find_file, has_directory}
use storhub.Path.Remap.{under}

abbrev pub Moves : Type 0
Moves = List (Text × Text)

-- The key is the path itself or a strict parent of it, and not empty.
abbrev pub covers : Text → Text → Bool
covers key path = not (is_empty key) && under key path

unfoldable pub longer : Text → Text → Text → Bool
longer best key path = covers key path && ltb (length best) (length key)

unfoldable pub better : Text → Text → Text → Text
unfolding longer
better path best key = if longer best key path then key else best

unfoldable pub longest_from : Text → Text → Moves → Text
unfolding better
longest_from path best [] = best
longest_from path best ((key, to) ∷ moved) = longest_from path (better path best key) moved

-- longestMovedPrefix
unfoldable pub longest_moved_prefix : Moves → Text → Text
unfolding longest_from
longest_moved_prefix moved path = longest_from path [] moved

-- p.moved[key], the empty text where it is missing.
unfoldable pub moved_to : Moves → Text → Text
unfolding same_text
moved_to [] key = []
moved_to ((k, to) ∷ moved) key = if same_text k key then to else moved_to moved key

unfoldable pub put_move : Text → Text → Moves → Moves
unfolding same_text
put_move from to [] = (from, to) ∷ []
put_move from to ((k, t) ∷ moved) =
    let rest = put_move from to moved in
    if same_text k from then (from, to) ∷ moved else (k, t) ∷ rest

-- recordMove
unfoldable pub record_move : Text → Text → Moves → Moves
unfolding put_move
record_move from to moved = if is_empty from then moved else put_move from to moved

unfoldable pub has_text : Text → List Text → Bool
unfolding same_text
has_text t [] = false
has_text t (s ∷ ss) = same_text s t || has_text t ss

-- The next location by a key of the table.
unfoldable pub relocated : Moves → Text → Text → Text
unfolding moved_to
relocated moved key cur = moved_to moved key ++ drop (length key) cur

-- What a round does: there is no key, or the next location was seen before, or it is new.
pub data Round : Type 0 where
  no_key : Round
  repeats : Round
  moves_to : Text → Round

round_by : Moves → List Text → Text → Text → Round
unfolding relocated has_text
round_by moved seen cur key =
    if is_empty key
    then no_key
    else if has_text (relocated moved key cur) seen
    then repeats
    else moves_to (relocated moved key cur)

unfoldable pub round_of : Moves → List Text → Text → Round
unfolding longest_moved_prefix round_by
round_of moved seen cur = round_by moved seen cur (longest_moved_prefix moved cur)

-- A round of translateForward, with the rounds behind it.
unfoldable pub translate_on : Text → Round → (Text → Text) → Text
translate_on cur no_key later = cur
translate_on cur repeats later = cur
translate_on cur (moves_to next) later = later next

-- The loop of translateForward, with the rounds that are left.
unfoldable pub translate_loop : Moves → ℕ → List Text → Text → Text
unfolding round_of translate_on
translate_loop moved zero seen cur = cur
translate_loop moved (suc rounds) seen cur =
    translate_on cur (round_of moved seen cur)
      (λ (next : Text). translate_loop moved rounds (next ∷ seen) next)

-- translateForward
unfoldable pub translate_forward : Moves → Text → Text
unfolding translate_loop
translate_forward moved path = translate_loop moved (suc (length moved)) (path ∷ []) path

-- GetDirectory answers an entry, or FindFile does.
abbrev some_file : Option FileMeta → Bool
some_file none = false
some_file (some file) = true

unfoldable pub is_live : RepoMetadata → Text → Bool
unfolding find_file has_directory
is_live meta path = has_directory meta path || some_file (find_file meta path)

-- A round of resolveLive, with the rounds behind it.
unfoldable pub resolve_on : RepoMetadata → Text → Round → (Text → Text) → Text
unfolding is_live
resolve_on meta path no_key later = path
resolve_on meta path repeats later = path
resolve_on meta path (moves_to next) later = if is_live meta next then next else later next

-- The loop of resolveLive, with the rounds that are left.
unfoldable pub resolve_loop : RepoMetadata → Moves → Text → ℕ → List Text → Text → Text
unfolding round_of resolve_on
resolve_loop meta moved path zero seen cur = path
resolve_loop meta moved path (suc rounds) seen cur =
    resolve_on meta path (round_of moved seen cur)
      (λ (next : Text). resolve_loop meta moved path rounds (next ∷ seen) next)

-- resolveLive
unfoldable pub resolve_live : RepoMetadata → Moves → Text → Text
unfolding is_live resolve_loop
resolve_live meta moved path =
    if is_empty path
    then path
    else if is_live meta path
    then path
    else resolve_loop meta moved path (suc (length moved)) (path ∷ []) path

-- liveRemovals
unfoldable pub live_removals : Moves → List Text → List Text
unfolding translate_forward
live_removals moved [] = []
live_removals moved (path ∷ doomed) = translate_forward moved path ∷ live_removals moved doomed
