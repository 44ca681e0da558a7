-- ===== src/Path/Physical.antt =====
-- The path that the resolver gives: internal/fs/symlink.go.
use mathlib.Core.List.{reverse}
use storhub.Prelude.{
  ℕ, zero, suc, Bool, true, false, ◌&&◌, not, Option, none, some, List, [], ◌∷◌, ◌++◌,
  if◌then◌else◌, ◌≡◌, refl, All, All-append, Bool-cases, inl, inr, subst,
}
use storhub.Path.{
  Text, is_slash, split, join, part_of, trim_left, validate_access_path_shape, PathError,
}
use storhub.Path.Split.{NoSlash, split-NoSlash}
use storhub.Path.Clean.{IsName, All-reverse_aux}
use storhub.Path.Stored.{key-Fixed}
use storhub.Path.Turns.{path_of, NoLinks, IsWalk, IsWalk-stays, Keeps, turn-Keeps}
use storhub.Path.Resolver.{
  RepoMetadata, Walk, Resolved, resolved_to, failed, Turn, stop, onward, behind, take_turn, turn,
  walk_parts, walk, pop, jump, spliced, is_absolute, finish, start, unless_bad,
  resolve_path_tracked, max_symlink_hops, too_many_links,
}

-- What a resolved path is: names without a dot, a dot-dot or a slash among them, joined, and every
-- directory above it is no symbolic link. Nor is the last name, where the walk follows it.
abbrev pub Physical : RepoMetadata → Bool → Resolved → Type 0
Physical repo follow_final (failed e) = Unit
Physical repo follow_final (resolved_to path traversed) =
    (names : List Text) × All IsName names
    × (path ≡ path_of names)
    × NoLinks repo (if follow_final then names else pop names)

jump-IsWalk :
    (repo : RepoMetadata) (target : Text) (w : Walk)
    → IsWalk repo false w
    → IsWalk repo false (jump target w)
unfolding jump
jump-IsWalk repo target w h = elim (Bool-cases (is_absolute target)) [
  | inl e ↦ rw e record { named = tt; prefixed = tt; unlinked = tt }
  | inr e ↦ rw e h
]

spliced-NoSlash : (target : Text) → All NoSlash (spliced target)
unfolding spliced
spliced-NoSlash target =
    split-NoSlash (if is_absolute target then trim_left is_slash target else target)

finish-Physical :
    (repo : RepoMetadata) (follow_final : Bool) (w : Walk)
    → IsWalk repo (not follow_final) w
    → Physical repo follow_final (finish w)
unfolding finish
finish-Physical repo true w h = (
  w.resolved,
  h.named,
  (key-Fixed (reverse w.resolved) (All-reverse_aux IsName w.resolved [] h.named tt)).0,
  h.unlinked,
)
finish-Physical repo false w h = (
  w.resolved,
  h.named,
  (key-Fixed (reverse w.resolved) (All-reverse_aux IsName w.resolved [] h.named tt)).0,
  h.unlinked,
)

and-true : (b : Bool) → (b && true) ≡ b
and-true true = refl
and-true false = refl

and-false : (b : Bool) → (b && false) ≡ false
and-false true = refl
and-false false = refl

finish-root :
    (repo : RepoMetadata) (follow_final : Bool)
    → Physical repo follow_final (resolved_to [] ([] ∷ []))
unfolding join pop
finish-root repo true = ([], tt, refl, tt)
finish-root repo false = ([], tt, refl, tt)

module _ (repo : RepoMetadata) (follow_final : Bool) where
  -- A loop that ends in physical paths.
  abbrev Good : (Walk → List Text → Resolved) → Type 0
  Good loop =
      (w : Walk) (queue : List Text)
      → IsWalk repo false w
      → All NoSlash queue
      → Physical repo follow_final (loop w queue)

  take_turn-Physical :
      (stays : Bool) (t : Turn) (on : Walk → Resolved) (follow : Text → Resolved)
      → Keeps repo stays t
      → ((w : Walk) → IsWalk repo stays w → Physical repo follow_final (on w))
      → ((target : Text) → Physical repo follow_final (follow target))
      → Physical repo follow_final (take_turn t on follow)
  take_turn-Physical stays (stop e) on follow k o f = tt
  take_turn-Physical stays (onward w) on follow k o f = o w k
  take_turn-Physical stays (behind target) on follow k o f = f target

  walk_parts-Physical :
      (again : Walk → List Text → Resolved) → Good again → Good (walk_parts repo follow_final again)
  unfolding walk_parts
  walk_parts-Physical again good w [] h k =
      finish-Physical repo follow_final w (IsWalk-stays repo (not follow_final) w h)
  walk_parts-Physical again good w (name ∷ []) h k =
      take_turn-Physical (not follow_final && true)
        (turn repo follow_final (part_of name) true w name) finish
        (λ target. again (jump target w) (spliced target ++ []))
        (turn-Keeps repo follow_final true (part_of name) w name refl k.0 h)
        (λ v r.
          finish-Physical repo follow_final v
            (subst (λ (b : Bool). IsWalk repo b v) (and-true (not follow_final)) r))
        (λ target.
          good (jump target w) (spliced target ++ []) (jump-IsWalk repo target w h)
            (All-append NoSlash (spliced target) [] (spliced-NoSlash target) tt))
  walk_parts-Physical again good w (name ∷ next ∷ queue) h k =
      take_turn-Physical (not follow_final && false)
        (turn repo follow_final (part_of name) false w name)
        (λ v. walk_parts repo follow_final again v (next ∷ queue))
        (λ target. again (jump target w) (spliced target ++ (next ∷ queue)))
        (turn-Keeps repo follow_final false (part_of name) w name refl k.0 h)
        (λ v r.
          walk_parts-Physical again good v (next ∷ queue)
            (subst (λ (b : Bool). IsWalk repo b v) (and-false (not follow_final)) r) k.1)
        (λ target.
          good (jump target w) (spliced target ++ (next ∷ queue)) (jump-IsWalk repo target w h)
            (All-append NoSlash (spliced target) (next ∷ queue) (spliced-NoSlash target) k.1))

  walk-Physical : (hops : ℕ) → Good (walk repo follow_final hops)
  unfolding walk
  walk-Physical zero w queue h k =
      walk_parts-Physical (λ up rest. failed too_many_links) (λ v q i j. tt) w queue h k
  walk-Physical (suc hops) w queue h k =
      walk_parts-Physical (walk repo follow_final hops) (walk-Physical hops) w queue h k

  unless_bad-Physical :
      (o : Option PathError) (r : Resolved)
      → Physical repo follow_final r
      → Physical repo follow_final (unless_bad o r)
  unless_bad-Physical none r h = h
  unless_bad-Physical (some e) r h = tt

-- Where the resolver gives a path, for any repository and either treatment of a last link, the path
-- is a list of names joined by slashes, none of them a dot or a dot-dot, no directory on the way to
-- it is a symbolic link, and it is none itself where the last link is followed.
pub resolve_path_tracked-Physical :
    (repo : RepoMetadata) (path : Text) (follow_final : Bool)
    → Physical repo follow_final (resolve_path_tracked repo path follow_final)
unfolding resolve_path_tracked
resolve_path_tracked-Physical repo [] follow_final = finish-root repo follow_final
resolve_path_tracked-Physical repo (c ∷ path) follow_final =
    unless_bad-Physical repo follow_final (validate_access_path_shape (c ∷ path))
      (walk repo follow_final max_symlink_hops start (split (trim_left is_slash (c ∷ path))))
      (walk-Physical repo follow_final max_symlink_hops start
        (split (trim_left is_slash (c ∷ path))) record { named = tt; prefixed = tt; unlinked = tt }
        (split-NoSlash (trim_left is_slash (c ∷ path))))
