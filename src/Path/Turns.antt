-- ===== src/Path/Turns.antt =====
-- One turn of the resolver's loop: internal/fs/symlink.go.
use mathlib.Core.List.{reverse, reverse-cons}
use storhub.Prelude.{
  Bool, true, false, ◌&&◌, not, none, List, [], ◌∷◌, ◌++◌, if◌then◌else◌, ◌≡◌, refl, sym, ap, ◌∙◌,
  All, append_assoc, inl, inr, Option-cases, subst,
}
use storhub.Path.{Text, slash, join, Part, skipped, parent, plain, part_of}
use storhub.Path.Split.{NoSlash}
use storhub.Path.Clean.{IsName}
use storhub.Path.Resolver.{
  RepoMetadata, find_file, Walk, Turn, stop, onward, behind, popped, linked, turn, top_prefix, pop,
  pop_name, pop_from, current_path, target_of, link_target, push_name,
}

-- The path of the names on a stack.
abbrev pub path_of : List Text → Text
path_of names = join (reverse names)

join-snoc :
    (parts : List Text) (part next : Text)
    → join ((parts ++ (part ∷ [])) ++ (next ∷ [])) ≡ join (parts ++ (part ∷ [])) ++ (slash ∷ next)
unfolding join
join-snoc [] part next = refl
join-snoc (p ∷ []) part next = sym (append_assoc p (slash ∷ part) (slash ∷ next))
join-snoc (p ∷ q ∷ parts) part next =
    ap (λ (t : Text). p ++ (slash ∷ t)) (join-snoc (q ∷ parts) part next)
    ∙ sym (append_assoc p (slash ∷ join (q ∷ parts ++ (part ∷ []))) (slash ∷ next))

path_of-cons :
    (name next : Text) (names : List Text)
    → path_of (next ∷ name ∷ names) ≡ path_of (name ∷ names) ++ (slash ∷ next)
path_of-cons name next names =
    rw (reverse-cons next (name ∷ names))
      (rw (reverse-cons name names) (join-snoc (reverse names) name next))

-- The prefixes are the paths of the stack's tails, each with a slash.
abbrev pub Prefixed : List Text → List Text → Type 0
Prefixed [] [] = Unit
Prefixed [] (p ∷ ps) = ⊥
Prefixed (n ∷ ns) [] = ⊥
Prefixed (n ∷ ns) (p ∷ ps) = (p ≡ path_of (n ∷ ns) ++ (slash ∷ [])) × Prefixed ns ps

current_path-path_of :
    (names prefixes : List Text) (name : Text)
    → Prefixed names prefixes
    → top_prefix prefixes ++ name ≡ path_of (name ∷ names)
unfolding top_prefix
current_path-path_of [] [] name h = unfold join in refl
current_path-path_of [] (p ∷ ps) name h = absurd h
current_path-path_of (n ∷ ns) [] name h = absurd h
current_path-path_of (n ∷ ns) (p ∷ ps) name h =
    rw (h.0) (append_assoc (path_of (n ∷ ns)) (slash ∷ []) name ∙ sym (path_of-cons n name ns))

-- No name on the stack is a symbolic link.
abbrev pub NoLinks : RepoMetadata → List Text → Type 0
NoLinks repo [] = Unit
NoLinks repo (name ∷ names) =
    (target_of false (find_file repo (path_of (name ∷ names))) ≡ none) × NoLinks repo names

-- The walk where its last name may be a link that it does not follow.
pub record IsWalk (repo : RepoMetadata) (stays : Bool) (w : Walk) : Type 0 where
  pub named : All IsName w.resolved
  pub prefixed : Prefixed w.resolved w.prefixes
  pub unlinked : NoLinks repo (if stays then pop w.resolved else w.resolved)

pub NoLinks-pop :
    (repo : RepoMetadata) (stays : Bool) (names : List Text)
    → NoLinks repo names
    → NoLinks repo (if stays then pop names else names)
unfolding pop
NoLinks-pop repo false names h = h
NoLinks-pop repo true [] h = h
NoLinks-pop repo true (name ∷ names) h = h.1

pub IsWalk-stays :
    (repo : RepoMetadata) (stays : Bool) (w : Walk) → IsWalk repo false w → IsWalk repo stays w
IsWalk-stays repo stays w h = record {
  named = h.named;
  prefixed = h.prefixed;
  unlinked = NoLinks-pop repo stays w.resolved h.unlinked;
}

-- The turns that go on keep the walk.
abbrev pub Keeps : RepoMetadata → Bool → Turn → Type 0
Keeps repo stays (stop e) = Unit
Keeps repo stays (onward w) = IsWalk repo stays w
Keeps repo stays (behind target) = Unit

pop_from-Keeps :
    (repo : RepoMetadata) (stays : Bool) (names prefixes traversed : List Text)
    → All IsName names
    → Prefixed names prefixes
    → NoLinks repo names
    → Keeps repo stays (popped (pop_from names prefixes traversed))
unfolding pop_from pop
pop_from-Keeps repo stays [] ps t n p l = tt
pop_from-Keeps repo stays (name ∷ names) [] t n p l = absurd p
pop_from-Keeps repo stays (name ∷ names) (q ∷ ps) t n p l = record {
  named = n.1;
  prefixed = p.1;
  unlinked = NoLinks-pop repo stays names l.1;
}

unlinked_push :
    (repo : RepoMetadata) (stays : Bool) (name : Text) (names : List Text)
    → NoLinks repo names
    → target_of stays (find_file repo (path_of (name ∷ names))) ≡ none
    → NoLinks repo (if stays then pop (name ∷ names) else name ∷ names)
unfolding pop
unlinked_push repo true name names h e = h
unlinked_push repo false name names h e = (e, h)

push_name-Keeps :
    (repo : RepoMetadata) (follow_final last : Bool) (w : Walk) (name : Text)
    → IsName name
    → IsWalk repo false w
    → Keeps repo (not follow_final && last) (
        linked
          (push_name repo last w name)
          (link_target repo follow_final last (current_path w name)))
unfolding push_name link_target current_path
push_name-Keeps repo follow_final last w name n h =
    let at = current_path-path_of w.resolved w.prefixes name h.prefixed in
    elim (Option-cases (link_target repo follow_final last (current_path w name))) [
      | inl e ↦ rw e record {
        named = (n, h.named);
        prefixed = (ap (λ (t : Text). t ++ (slash ∷ [])) at, h.prefixed);
        unlinked = unlinked_push repo (not follow_final && last) name w.resolved h.unlinked (
            subst (λ (t : Text). target_of (not follow_final && last) (find_file repo t) ≡ none) at
              e);
      }
      | inr (target, e) ↦ rw e tt
    ]

pub turn-Keeps :
    (repo : RepoMetadata) (follow_final last : Bool) (p : Part) (w : Walk) (name : Text)
    → part_of name ≡ p
    → NoSlash name
    → IsWalk repo false w
    → Keeps repo (not follow_final && last) (turn repo follow_final p last w name)
unfolding turn pop_name
turn-Keeps repo follow_final last skipped w name e n h =
    IsWalk-stays repo (not follow_final && last) w h
turn-Keeps repo follow_final last parent w name e n h =
    pop_from-Keeps repo (not follow_final && last) w.resolved w.prefixes w.traversed h.named
      h.prefixed h.unlinked
turn-Keeps repo follow_final last plain w name e n h =
    push_name-Keeps repo follow_final last w name (e, n) h
