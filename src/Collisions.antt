-- ===== src/Collisions.antt =====
-- The occupancy of inodes during a replay: collisionIndex of internal/storage/ops_apply.go. Maps and
-- sets are functions, and a range over one takes its keys in the order of the iteration.
pub mod Inverse
pub mod Reached
pub mod Tests
use storhub.Prelude.{
  ℕ, Bool, true, false, ◌&&◌, ◌||◌, not, List, [], ◌∷◌, Option, none, some, ◌==◌, if◌then◌else◌,
}
use storhub.Path.{Text, is_empty, same_text}
use storhub.Path.Relatives.{is_parent_or_same, remap_path}
use storhub.Replay.Moves.{has_text}

-- A map from paths to inodes and its inverse, from inodes to sets of paths.
pub record Occupancy : Type 0 where
  pub paths : Text → Option ℕ
  pub inodes : ℕ → Text → Bool

pub record CollisionIndex : Type 0 where
  pub root_inode : ℕ
  pub files : Occupancy
  pub dirs : Occupancy

unfoldable pub index_link : (ℕ → Text → Bool) → ℕ → Text → ℕ → Text → Bool
unfolding same_text
index_link set inode path i p = if i == inode && same_text p path then true else set i p

unfoldable pub index_unlink : (ℕ → Text → Bool) → ℕ → Text → ℕ → Text → Bool
unfolding same_text
index_unlink set inode path i p = if i == inode && same_text p path then false else set i p

-- The map with another entry at one path.
unfoldable pub put_at : (Text → Option ℕ) → Text → Option ℕ → Text → Option ℕ
unfolding same_text
put_at paths path entry p = if same_text p path then entry else paths p

unfoldable pub linked_over : Occupancy → Text → ℕ → (ℕ → Text → Bool) → Occupancy
unfolding put_at index_link
linked_over o path inode inodes = record {
  paths = put_at o.paths path (some inode);
  inodes = index_link inodes inode path;
}

unfoldable pub set_over : Occupancy → Text → ℕ → Option ℕ → Occupancy
unfolding linked_over index_unlink
set_over o path inode none = linked_over o path inode o.inodes
set_over o path inode (some old) =
    if old == inode then o else linked_over o path inode (index_unlink o.inodes old path)

-- setFile and setDir on the maps they change.
unfoldable pub set_path : Occupancy → Text → ℕ → Occupancy
unfolding set_over
set_path o path inode = set_over o path inode (o.paths path)

unfoldable pub delete_over : Occupancy → Text → Option ℕ → Occupancy
unfolding put_at index_unlink
delete_over o path none = o
delete_over o path (some old) = record {
  paths = put_at o.paths path none;
  inodes = index_unlink o.inodes old path;
}

-- delFile and delDir on the maps they change.
unfoldable pub delete_path : Occupancy → Text → Occupancy
unfolding delete_over
delete_path o path = delete_over o path (o.paths path)

-- The value of a map, zero where the key is missing.
unfoldable pub value_or_zero : Option ℕ → ℕ
value_or_zero none = 0
value_or_zero (some inode) = inode

-- A path leaves the map, its inode by a value that was read before.
unfoldable pub taken_out : Occupancy → Text → ℕ → Occupancy
unfolding put_at index_unlink
taken_out o path inode = record {
  paths = put_at o.paths path none;
  inodes = index_unlink o.inodes inode path;
}

unfoldable pub unlinked_at : Occupancy → Text → Option ℕ → ℕ → Text → Bool
unfolding index_unlink
unlinked_at o path none = o.inodes
unlinked_at o path (some old) = index_unlink o.inodes old path

unfoldable pub put_over : Occupancy → Text → ℕ → Occupancy
unfolding linked_over unlinked_at
put_over o path inode = linked_over o path inode (unlinked_at o path (o.paths path))

-- One of the moves of moveSubtree.
unfoldable pub move_path : Occupancy → Text → Text → Occupancy
unfolding taken_out put_over value_or_zero
move_path o from to =
    let inode = value_or_zero (o.paths from) in put_over (taken_out o from inode) to inode

unfoldable pub move_paths : Text → Text → Occupancy → List Text → Occupancy
unfolding move_path remap_path
move_paths from to o [] = o
move_paths from to o (path ∷ moves) =
    move_paths from to (move_path o path (remap_path from to path)) moves

unfoldable pub moves_under : Text → List Text → List Text
unfolding is_parent_or_same
moves_under from [] = []
moves_under from (path ∷ keys) =
    let rest = moves_under from keys in if is_parent_or_same from path then path ∷ rest else rest

unfoldable pub set_file : CollisionIndex → Text → ℕ → CollisionIndex
unfolding set_path
set_file c path inode = record {
  root_inode = c.root_inode;
  files = set_path c.files path inode;
  dirs = c.dirs;
}

unfoldable pub set_dir : CollisionIndex → Text → ℕ → CollisionIndex
unfolding set_path
set_dir c path inode = record {
  root_inode = c.root_inode;
  files = c.files;
  dirs = set_path c.dirs path inode;
}

unfoldable pub del_file : CollisionIndex → Text → CollisionIndex
unfolding delete_path
del_file c path = record {
  root_inode = c.root_inode;
  files = delete_path c.files path;
  dirs = c.dirs;
}

unfoldable pub del_dir : CollisionIndex → Text → CollisionIndex
unfolding delete_path
del_dir c path = record {
  root_inode = c.root_inode;
  files = c.files;
  dirs = delete_path c.dirs path;
}

unfoldable pub set_root : CollisionIndex → ℕ → CollisionIndex
set_root c inode = record { root_inode = inode; files = c.files; dirs = c.dirs }

-- moveSubtree, with the keys of the two maps.
unfoldable pub move_subtree : List Text → List Text → CollisionIndex → Text → Text → CollisionIndex
unfolding move_paths moves_under
move_subtree file_keys dir_keys c from to = if is_empty from then c else record {
  root_inode = c.root_inode;
  files = move_paths from to c.files (moves_under from file_keys);
  dirs = move_paths from to c.dirs (moves_under from dir_keys);
}

abbrev pub empty_occupancy : Occupancy
empty_occupancy = record { paths = λ (p : Text). none; inodes = λ (i : ℕ) (p : Text). false }

unfoldable pub set_paths : Occupancy → List (Text × ℕ) → Occupancy
unfolding set_path
set_paths o [] = o
set_paths o ((path, inode) ∷ entries) = set_paths (set_path o path inode) entries

-- newCollisionIndex, of the root's inode and of the entries of the two maps.
unfoldable pub new_collision_index : ℕ → List (Text × ℕ) → List (Text × ℕ) → CollisionIndex
unfolding set_paths
new_collision_index root files dirs = record {
  root_inode = root;
  files = set_paths empty_occupancy files;
  dirs = set_paths empty_occupancy dirs;
}

-- The answer of a range over the paths of an inode that ends at the first occupied one.
unfoldable pub any_occupied : (Text → Bool) → (Text → Bool) → List Text → Bool
any_occupied holds occupied [] = false
any_occupied holds occupied (path ∷ keys) =
    (holds path && occupied path) || any_occupied holds occupied keys

abbrev pub unless_in : List Text → List Text → Text → Bool
unfolding has_text
unless_in except targets path = not (has_text path except) && not (has_text path targets)

-- takenByAnotherNodeExceptTargets, with the keys of the two maps.
unfoldable pub taken_by_another_node :
    List Text → List Text → CollisionIndex → ℕ → List Text → List Text → Bool
unfolding any_occupied
taken_by_another_node file_keys dir_keys c inode except targets =
    inode == c.root_inode
    || any_occupied (c.dirs.inodes inode) (unless_in except targets) dir_keys
    || any_occupied (c.files.inodes inode) (unless_in except targets) file_keys

-- fileCollidesWithLiveDir, with the keys of the map of the directories.
unfoldable pub file_collides_with_live_dir :
    List Text → CollisionIndex → ℕ → List Text → Text → Bool
unfolding any_occupied
file_collides_with_live_dir dir_keys c inode targets own =
    inode == c.root_inode
    || any_occupied (c.dirs.inodes inode) (unless_in (own ∷ []) targets) dir_keys
