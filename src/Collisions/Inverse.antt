-- ===== src/Collisions/Inverse.antt =====
-- The two maps of collisionIndex of internal/storage/ops_apply.go.
use storhub.Prelude.{
  ℕ, Bool, false, List, [], ◌∷◌, Option, none, some, ◌==◌, if◌then◌else◌, ◌≡◌, refl, ◌∙◌, subst,
  arith, Bool-cases, inl, inr,
}
use storhub.Path.{Text, same_text}
use storhub.Path.Relatives.{remap_path}
use storhub.Path.Keys.{same_text→≡}
use storhub.Collisions.{
  Occupancy, index_link, index_unlink, put_at, linked_over, set_over, set_path, delete_over,
  delete_path, taken_out, unlinked_at, put_over, move_path, move_paths, value_or_zero, set_paths,
}

abbrev pub holds : Option ℕ → ℕ → Bool
holds none i = false
holds (some inode) i = inode == i

-- The sets of paths say what the map of the inodes says.
abbrev pub IsInverse : Occupancy → Type 0
IsInverse o = (i : ℕ) (p : Text) → o.inodes i p ≡ holds (o.paths p) i

module _ (o : Occupancy) (path : Text) where
  -- What the sets hold at the path, and that the sets of other paths are as before.
  abbrev At : Option ℕ → (ℕ → Text → Bool) → Type 0
  At entry inodes =
      (i : ℕ) (p : Text)
      → inodes i p ≡ (if same_text p path then holds entry i else holds (o.paths p) i)

  put_at-IsInverse :
      (entry : Option ℕ) (inodes : ℕ → Text → Bool)
      → At entry inodes
      → IsInverse (record { paths = put_at o.paths path entry; inodes = inodes })
  unfolding put_at
  put_at-IsInverse entry inodes h i p = elim (Bool-cases (same_text p path)) [
    | inl e ↦ rw e (h i p ∙ rw e refl)
    | inr e ↦ rw e (h i p ∙ rw e refl)
  ]

  kept-At : IsInverse o → At (o.paths path) o.inodes
  kept-At h i p = elim (Bool-cases (same_text p path)) [
    | inl e ↦
        rw e
          (subst (λ (q : Text). o.inodes i p ≡ holds (o.paths q) i) (same_text→≡ p path e) (h i p))
    | inr e ↦ rw e (h i p)
  ]

  unlink-At :
      (inode : ℕ) (inodes : ℕ → Text → Bool)
      → At (some inode) inodes
      → At none (index_unlink inodes inode path)
  unfolding index_unlink
  unlink-At inode inodes h i p = elim (Bool-cases (same_text p path)) [
    | inl e ↦
        let known : inodes i p ≡ (inode == i) = h i p ∙ rw e refl in rw e (ground (arith, known))
    | inr e ↦
        let known : inodes i p ≡ holds (o.paths p) i = h i p ∙ rw e refl in
        rw e (ground (arith, known))
  ]

  -- An inode is unlinked at a path that is not in the map.
  unlink_none-At :
      (inode : ℕ) (inodes : ℕ → Text → Bool)
      → At none inodes
      → At none (index_unlink inodes inode path)
  unfolding index_unlink
  unlink_none-At inode inodes h i p = elim (Bool-cases (same_text p path)) [
    | inl e ↦ let known : inodes i p ≡ false = h i p ∙ rw e refl in rw e (ground (arith, known))
    | inr e ↦
        let known : inodes i p ≡ holds (o.paths p) i = h i p ∙ rw e refl in
        rw e (ground (arith, known))
  ]

  link-At :
      (inode : ℕ) (inodes : ℕ → Text → Bool)
      → At none inodes
      → At (some inode) (index_link inodes inode path)
  unfolding index_link
  link-At inode inodes h i p = elim (Bool-cases (same_text p path)) [
    | inl e ↦ let known : inodes i p ≡ false = h i p ∙ rw e refl in rw e (ground (arith, known))
    | inr e ↦
        let known : inodes i p ≡ holds (o.paths p) i = h i p ∙ rw e refl in
        rw e (ground (arith, known))
  ]

  unlinked_at-At :
      (entry : Option ℕ) → o.paths path ≡ entry → IsInverse o → At none (unlinked_at o path entry)
  unfolding unlinked_at
  unlinked_at-At none e h = subst (λ (x : Option ℕ). At x o.inodes) e (kept-At h)
  unlinked_at-At (some old) e h =
      unlink-At old o.inodes (subst (λ (x : Option ℕ). At x o.inodes) e (kept-At h))

  linked_over-IsInverse :
      (inode : ℕ) (inodes : ℕ → Text → Bool)
      → At none inodes
      → IsInverse (linked_over o path inode inodes)
  unfolding linked_over
  linked_over-IsInverse inode inodes h = put_at-IsInverse (some inode) _ (link-At inode inodes h)

  set_over-IsInverse :
      (inode : ℕ) (entry : Option ℕ)
      → o.paths path ≡ entry
      → IsInverse o
      → IsInverse (set_over o path inode entry)
  unfolding set_over unlinked_at
  set_over-IsInverse inode none e h =
      linked_over-IsInverse inode o.inodes (subst (λ (x : Option ℕ). At x o.inodes) e (kept-At h))
  set_over-IsInverse inode (some old) e h = elim (Bool-cases (old == inode)) [
    | inl same ↦ rw same h
    | inr other ↦ rw other (linked_over-IsInverse inode _ (unlinked_at-At (some old) e h))
  ]

  delete_over-IsInverse :
      (entry : Option ℕ) → o.paths path ≡ entry → IsInverse o → IsInverse (delete_over o path entry)
  unfolding delete_over unlinked_at
  delete_over-IsInverse none e h = h
  delete_over-IsInverse (some old) e h = put_at-IsInverse none _ (unlinked_at-At (some old) e h)

  pub set_path-IsInverse : (inode : ℕ) → IsInverse o → IsInverse (set_path o path inode)
  unfolding set_path
  set_path-IsInverse inode h = set_over-IsInverse inode (o.paths path) refl h

  pub delete_path-IsInverse : IsInverse o → IsInverse (delete_path o path)
  unfolding delete_path
  delete_path-IsInverse h = delete_over-IsInverse (o.paths path) refl h

  put_over-IsInverse : (inode : ℕ) → IsInverse o → IsInverse (put_over o path inode)
  unfolding put_over
  put_over-IsInverse inode h = linked_over-IsInverse inode _ (unlinked_at-At (o.paths path) refl h)

  taken_out_of-IsInverse :
      (entry : Option ℕ)
      → o.paths path ≡ entry
      → IsInverse o
      → IsInverse (taken_out o path (value_or_zero entry))
  unfolding taken_out value_or_zero unlinked_at
  taken_out_of-IsInverse none e h =
      put_at-IsInverse none _
        (unlink_none-At 0 o.inodes (subst (λ (x : Option ℕ). At x o.inodes) e (kept-At h)))
  taken_out_of-IsInverse (some old) e h = put_at-IsInverse none _ (unlinked_at-At (some old) e h)

move_path-IsInverse :
    (o : Occupancy) (from to : Text) → IsInverse o → IsInverse (move_path o from to)
unfolding move_path
move_path-IsInverse o from to h =
    put_over-IsInverse _ to (value_or_zero (o.paths from))
      (taken_out_of-IsInverse o from (o.paths from) refl h)

pub move_paths-IsInverse :
    (from to : Text) (moves : List Text) (o : Occupancy)
    → IsInverse o
    → IsInverse (move_paths from to o moves)
unfolding move_paths
move_paths-IsInverse from to [] o h = h
move_paths-IsInverse from to (path ∷ moves) o h =
    move_paths-IsInverse from to moves (move_path o path (remap_path from to path))
      (move_path-IsInverse o path (remap_path from to path) h)

pub set_paths-IsInverse :
    (entries : List (Text × ℕ)) (o : Occupancy) → IsInverse o → IsInverse (set_paths o entries)
unfolding set_paths
set_paths-IsInverse [] o h = h
set_paths-IsInverse ((path, inode) ∷ entries) o h =
    set_paths-IsInverse entries (set_path o path inode) (set_path-IsInverse o path inode h)
