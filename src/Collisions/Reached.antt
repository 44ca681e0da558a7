-- ===== src/Collisions/Reached.antt =====
-- The states of collisionIndex during a replay: internal/storage/ops_apply.go.
use storhub.Prelude.{ℕ, Bool, false, ◌&&◌, ◌||◌, List, [], ◌∷◌, ◌==◌, ◌≡◌, refl}
use storhub.Path.{Text}
use storhub.Collisions.{
  Occupancy, CollisionIndex, empty_occupancy, set_file, set_dir, del_file, del_dir, set_root,
  move_subtree, moves_under, new_collision_index, any_occupied, unless_in, taken_by_another_node,
  file_collides_with_live_dir,
}
use storhub.Collisions.Inverse.{
  IsInverse, holds, set_path-IsInverse, delete_path-IsInverse, move_paths-IsInverse,
  set_paths-IsInverse,
}

-- The index of a tree, after any sequence of updates.
pub data Reached : CollisionIndex → Type 0 where
  built : (root : ℕ) (files dirs : List (Text × ℕ)) → Reached (new_collision_index root files dirs)
  file_set :
      {c : CollisionIndex} (path : Text) (inode : ℕ) → Reached c → Reached (set_file c path inode)
  dir_set :
      {c : CollisionIndex} (path : Text) (inode : ℕ) → Reached c → Reached (set_dir c path inode)
  file_deleted : {c : CollisionIndex} (path : Text) → Reached c → Reached (del_file c path)
  dir_deleted : {c : CollisionIndex} (path : Text) → Reached c → Reached (del_dir c path)
  root_set : {c : CollisionIndex} (inode : ℕ) → Reached c → Reached (set_root c inode)
  moved :
      {c : CollisionIndex} (file_keys dir_keys : List Text) (from to : Text)
      → Reached c
      → Reached (move_subtree file_keys dir_keys c from to)

-- Both maps agree with their inverses.
abbrev pub IsIndex : CollisionIndex → Type 0
IsIndex c = IsInverse c.files × IsInverse c.dirs

new_collision_index-IsIndex :
    (root : ℕ) (files dirs : List (Text × ℕ)) → IsIndex (new_collision_index root files dirs)
unfolding new_collision_index
new_collision_index-IsIndex root files dirs = (
  set_paths-IsInverse files empty_occupancy (λ i p. refl),
  set_paths-IsInverse dirs empty_occupancy (λ i p. refl),
)

move_subtree-IsIndex :
    (file_keys dir_keys : List Text) (c : CollisionIndex) (from to : Text)
    → IsIndex c
    → IsIndex (move_subtree file_keys dir_keys c from to)
unfolding move_subtree
move_subtree-IsIndex file_keys dir_keys c [] to h = h
move_subtree-IsIndex file_keys dir_keys c (s ∷ from) to h = (
  move_paths-IsInverse (s ∷ from) to (moves_under (s ∷ from) file_keys) c.files h.0,
  move_paths-IsInverse (s ∷ from) to (moves_under (s ∷ from) dir_keys) c.dirs h.1,
)

-- In every index that a replay reaches, the sets of paths of the inodes are exact inverses of the
-- maps from paths to inodes.
pub Reached-IsIndex : {c : CollisionIndex} → Reached c → IsIndex c
unfolding set_file set_dir del_file del_dir set_root
Reached-IsIndex (built root files dirs) = new_collision_index-IsIndex root files dirs
Reached-IsIndex (file_set {c = c} path inode r) =
    let h = Reached-IsIndex r in (set_path-IsInverse c.files path inode h.0, h.1)
Reached-IsIndex (dir_set {c = c} path inode r) =
    let h = Reached-IsIndex r in (h.0, set_path-IsInverse c.dirs path inode h.1)
Reached-IsIndex (file_deleted {c = c} path r) =
    let h = Reached-IsIndex r in (delete_path-IsInverse c.files path h.0, h.1)
Reached-IsIndex (dir_deleted {c = c} path r) =
    let h = Reached-IsIndex r in (h.0, delete_path-IsInverse c.dirs path h.1)
Reached-IsIndex (root_set inode r) = Reached-IsIndex r
Reached-IsIndex (moved {c = c} file_keys dir_keys from to r) =
    move_subtree-IsIndex file_keys dir_keys c from to (Reached-IsIndex r)

-- The scan of a whole map for an occupied path that holds the inode.
pub scan : Occupancy → ℕ → (Text → Bool) → List Text → Bool
scan o inode occupied [] = false
scan o inode occupied (path ∷ keys) =
    (holds (o.paths path) inode && occupied path) || scan o inode occupied keys

any_occupied-scan :
    (o : Occupancy) (inode : ℕ) (occupied : Text → Bool) (keys : List Text)
    → IsInverse o
    → any_occupied (o.inodes inode) occupied keys ≡ scan o inode occupied keys
unfolding any_occupied scan
any_occupied-scan o inode occupied [] h = refl
any_occupied-scan o inode occupied (path ∷ keys) h =
    rw (h inode path, any_occupied-scan o inode occupied keys h) refl

-- In every index that a replay reaches, takenByAnotherNodeExceptTargets and fileCollidesWithLiveDir
-- answer what a scan of the whole maps answers.
pub taken_by_another_node-scan :
    (c : CollisionIndex) (file_keys dir_keys : List Text) (inode : ℕ) (except targets : List Text)
    (own : Text)
    → Reached c
    → (taken_by_another_node file_keys dir_keys c inode except targets ≡ (
        inode == c.root_inode
        || scan c.dirs inode (unless_in except targets) dir_keys
        || scan c.files inode (unless_in except targets) file_keys))
      × (file_collides_with_live_dir dir_keys c inode targets own
          ≡ (inode == c.root_inode || scan c.dirs inode (unless_in (own ∷ []) targets) dir_keys))
unfolding taken_by_another_node file_collides_with_live_dir
taken_by_another_node-scan c file_keys dir_keys inode except targets own r =
    let h = Reached-IsIndex r in
    (
      rw
          (
            any_occupied-scan c.dirs inode (unless_in except targets) dir_keys h.1,
            any_occupied-scan c.files inode (unless_in except targets) file_keys h.0,
          )
          refl,
      rw (any_occupied-scan c.dirs inode (unless_in (own ∷ []) targets) dir_keys h.1) refl,
    )
