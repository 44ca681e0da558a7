-- ===== src/Permissions/Walk.antt =====
-- The checks of the directories of a walk.
use storhub.Prelude.{
  Bool, true, false, ◌||◌, List, [], ◌∷◌, ◌≡◌, refl, sym, ap, ◌∙◌, arith, Bool-cases, inl, inr, All,
}
use storhub.Permissions.{
  Identity, NodePath, RepoMetadata, Verdict, allowed, eacces, eperm, not_found, not_directory,
  and_then, dir_exec, path_eq, is_checked, check_dir_exec, walk_on, walk_loop, check_walk_resolved,
}

-- The reference: each directory in walk order, up to the first that fails.
abbrev pub check_each : Identity → RepoMetadata → List NodePath → Verdict
check_each id repo [] = allowed
check_each id repo (dir ∷ dirs) = and_then (dir_exec id repo dir) (check_each id repo dirs)

path_eq→≡ : (a b : NodePath) → path_eq a b ≡ true → a ≡ b
unfolding path_eq
path_eq→≡ [] [] h = refl
path_eq→≡ [] (b ∷ bs) h = ground (arith, h)
path_eq→≡ (a ∷ as_) [] h = ground (arith, h)
path_eq→≡ (a ∷ as_) (b ∷ bs) h = ground (arith, path_eq→≡ as_ bs)

or-right : (a b : Bool) → a ≡ false → (a || b) ≡ true → b ≡ true
or-right a b e h = ground arith

is_checked-allowed :
    (id : Identity) (repo : RepoMetadata) (checked : List NodePath) (dir : NodePath)
    → All (λ c. dir_exec id repo c ≡ allowed) checked
    → is_checked dir checked ≡ true
    → dir_exec id repo dir ≡ allowed
unfolding is_checked
is_checked-allowed id repo [] dir a h = ground (arith, h)
is_checked-allowed id repo (c ∷ cs) dir a h = elim (Bool-cases (path_eq c dir)) [
  | inl e ↦ ap (dir_exec id repo) (sym (path_eq→≡ c dir e)) ∙ a.0
  | inr e ↦ is_checked-allowed id repo cs dir a.1 (or-right _ _ e h)
]

-- A directory that is checked for the first time.
walk_step :
    (id : Identity) (repo : RepoMetadata) (v : Verdict) (dir : NodePath)
    (dirs checked : List NodePath)
    → dir_exec id repo dir ≡ v
    → (dir_exec id repo dir ≡ allowed
        → walk_loop id repo dirs (dir ∷ checked) ≡ check_each id repo dirs)
    → walk_on (v, dir ∷ checked) (walk_loop id repo dirs) ≡ and_then v (check_each id repo dirs)
unfolding walk_on
walk_step id repo allowed dir dirs checked e k = k e
walk_step id repo eacces dir dirs checked e k = refl
walk_step id repo eperm dir dirs checked e k = refl
walk_step id repo not_found dir dirs checked e k = refl
walk_step id repo not_directory dir dirs checked e k = refl

walk_loop-each :
    (id : Identity) (repo : RepoMetadata) (dirs checked : List NodePath)
    → All (λ c. dir_exec id repo c ≡ allowed) checked
    → walk_loop id repo dirs checked ≡ check_each id repo dirs
unfolding walk_loop check_dir_exec walk_on
walk_loop-each id repo [] checked a = refl
walk_loop-each id repo (dir ∷ dirs) checked a = elim (Bool-cases (is_checked dir checked)) [
  | inl seen ↦
      rw (seen, is_checked-allowed id repo checked dir a seen)
        (walk_loop-each id repo dirs checked a)
  | inr new ↦ rw new (
      walk_step id repo (dir_exec id repo dir) dir dirs checked refl
        (λ e. walk_loop-each id repo dirs (dir ∷ checked) (e, a)))
]

-- CheckWalkResolved gives the verdict of checking each directory of the walk in order, with no set
-- of checked directories.
pub check_walk_resolved-each :
    (id : Identity) (repo : RepoMetadata) (traversed : List NodePath)
    → check_walk_resolved id repo traversed ≡ check_each id repo traversed
unfolding check_walk_resolved
check_walk_resolved-each id repo traversed = walk_loop-each id repo traversed [] tt

pub and_then-allowed :
    (v next : Verdict) → and_then v next ≡ allowed → (v ≡ allowed) × (next ≡ allowed)
and_then-allowed allowed next h = (refl, h)
and_then-allowed eacces next h = ground (arith, h)
and_then-allowed eperm next h = ground (arith, h)
and_then-allowed not_found next h = ground (arith, h)
and_then-allowed not_directory next h = ground (arith, h)
