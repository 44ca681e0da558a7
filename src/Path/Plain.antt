-- ===== src/Path/Plain.antt =====
-- The resolver of internal/fs/symlink.go beside NormalizePath, in a repository without links.
use mathlib.Core.List.{reverse}
use storhub.Prelude.{
  ℕ, zero, suc, Bool, true, false, ◌&&◌, not, Option, none, some, List, [], ◌∷◌, ◌++◌, ◌≡◌, ◌≢◌,
  refl, sym, ap, ◌∙◌, All, arith, Bool-cases, inl, inr,
}
use storhub.Path.{
  Text, is_slash, is_empty, split, parent, part_of, trim_left, clean_part, clean_parts, clean,
  cleaned_key, Key, key, refused, PathError, escapes_root, validate_access_path_shape,
  normalize_path, unless,
}
use storhub.Path.Split.{NoSlash, split-NoSlash}
use storhub.Path.Clean.{IsName, clean_parts-ups, All-reverse_aux, Part-cases}
use storhub.Path.Keys.{verdict, cleaned_key-clean}
use storhub.Path.Stored.{key-Fixed}
use storhub.Path.Resolver.{
  RepoMetadata, FileMeta, find_file, Walk, Resolved, resolved_to, failed, bad_path, too_many_links,
  popped, take_turn, turn, walk_parts, walk, pop, pop_name, pop_from, current_path, target_of,
  link_target, push_name, jump, spliced, is_last, finish, start, unless_bad, resolve_path_tracked,
  max_symlink_hops,
}

-- No file of the repository is a symbolic link.
abbrev pub LinkFree : RepoMetadata → Type 0
LinkFree repo = (path : Text) → target_of false (find_file repo path) ≡ none

-- The path of a walk without the directories it went through.
abbrev pub where_at : Resolved → Option Key
where_at (resolved_to path traversed) = some (key path)
where_at (failed (bad_path e)) = some (refused e)
where_at (failed too_many_links) = none

target_of-none :
    (stays : Bool) (o : Option FileMeta) → target_of false o ≡ none → target_of stays o ≡ none
target_of-none true none h = refl
target_of-none false none h = refl
target_of-none false (some f) h = h
target_of-none true (some f) h = elim (Bool-cases (is_empty f.symlink)) [
  | inl e ↦ rw e refl
  | inr e ↦ rw e refl
]

verdict-ups : (out : ℕ × List Text) → out.0 ≢ 0 → verdict out ≡ refused escapes_root
verdict-ups (zero, names) h = absurd (h refl)
verdict-ups (suc ups, names) h = refl

module _ (repo : RepoMetadata) (follow_final : Bool) (free : LinkFree repo) where
  link_target-none : (last : Bool) (path : Text) → link_target repo follow_final last path ≡ none
  unfolding link_target
  link_target-none last path =
      target_of-none (not follow_final && last) (find_file repo path) (free path)

  finish-verdict :
      (w : Walk) → All IsName w.resolved → where_at (finish w) ≡ some (verdict (0, w.resolved))
  unfolding finish
  finish-verdict w h =
      ap (λ (t : Text). some (key t))
        (key-Fixed (reverse w.resolved) (All-reverse_aux IsName w.resolved [] h tt)).0

  parent-verdict :
      (part : Text) (names prefixes traversed queue : List Text) (on : Walk → Resolved)
      (follow : Text → Resolved)
      → All IsName names
      → ((w : Walk)
          → All IsName w.resolved
          → where_at (on w) ≡ some (verdict (clean_parts (0, w.resolved) queue)))
      → where_at (take_turn (popped (pop_from names prefixes traversed)) on follow)
        ≡ some (verdict (clean_parts (clean_part parent part (0, names)) queue))
  unfolding pop_from clean_part pop
  parent-verdict part [] ps t queue on follow h ih = ap some (
      sym (
        verdict-ups (clean_parts (1, []) queue)
          (clean_parts-ups (1, []) queue (λ e. ground (arith, e)))))
  parent-verdict part (name ∷ names) ps t queue on follow h ih =
      ih record { resolved = names; prefixes = pop ps; traversed = t } h.1

  walk_parts-verdict :
      (again : Walk → List Text → Resolved) (w : Walk) (queue : List Text)
      → All IsName w.resolved
      → All NoSlash queue
      → where_at (walk_parts repo follow_final again w queue)
        ≡ some (verdict (clean_parts (0, w.resolved) queue))
  unfolding walk_parts clean_parts
  walk_parts-verdict again w [] h k = finish-verdict w h
  walk_parts-verdict again w (part ∷ queue) h k = elim (Part-cases (part_of part)) [
    | inl e ↦ rw e (unfold turn clean_part in walk_parts-verdict again w queue h k.1)
    | inr (inl e) ↦ rw e (
        unfold turn pop_name in
        parent-verdict part w.resolved w.prefixes w.traversed queue
          (λ v. walk_parts repo follow_final again v queue)
          (λ target. again (jump target w) (spliced target ++ queue)) h
          (λ v j. walk_parts-verdict again v queue j k.1))
    | inr (inr e) ↦ rw e (
        unfold turn clean_part in
        rw (link_target-none (is_last queue) (current_path w part)) (
          walk_parts-verdict again (push_name repo (is_last queue) w part) queue
            (unfold push_name in ((e, k.0), h)) k.1))
  ]

  walk-verdict :
      (hops : ℕ) (queue : List Text)
      → All NoSlash queue
      → where_at (walk repo follow_final hops start queue)
        ≡ some (verdict (clean_parts (0, []) queue))
  unfolding walk
  walk-verdict zero queue k = walk_parts-verdict (λ up rest. failed too_many_links) start queue tt k
  walk-verdict (suc hops) queue k =
      walk_parts-verdict (walk repo follow_final hops) start queue tt k

  unless-verdict :
      (o : Option PathError) (r : Resolved) (k : Key)
      → where_at r ≡ some k
      → where_at (unless_bad o r) ≡ some (unless o k)
  unless-verdict none r k h = h
  unless-verdict (some e) r k h = refl

-- In a repository without symbolic links the resolver gives, at every path but the empty one, what
-- `normalize_path` gives: the same key, or the same error, the escape past the root included.
pub resolve_path_tracked-eq-normalize_path :
    (repo : RepoMetadata) (path : Text) (follow_final : Bool)
    → LinkFree repo
    → path ≢ []
    → where_at (resolve_path_tracked repo path follow_final) ≡ some (normalize_path path)
unfolding resolve_path_tracked normalize_path
resolve_path_tracked-eq-normalize_path repo [] follow_final free n = absurd (n refl)
resolve_path_tracked-eq-normalize_path repo (c ∷ path) follow_final free n =
    let trimmed = trim_left is_slash (c ∷ path) in
    unless-verdict repo follow_final free (validate_access_path_shape (c ∷ path))
      (walk repo follow_final max_symlink_hops start (split trimmed)) (cleaned_key (clean trimmed))
      (walk-verdict repo follow_final free max_symlink_hops (split trimmed) (split-NoSlash trimmed)
        ∙ ap some (sym (cleaned_key-clean trimmed)))
