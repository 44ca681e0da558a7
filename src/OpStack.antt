-- ===== src/OpStack.antt =====
-- The stack of pending metadata operations: internal/storage/ops_stack.go and the Op record of
-- internal/storage/ops.go. Maps are functions into Option, and `none` as a result of an operation
-- stands for the panic of a slice index out of range.
pub mod Index
pub mod Fold
pub mod Boundary
pub mod Sealed
pub mod Transform
pub mod Frozen
pub mod Keys
pub mod Points
pub mod Keyed
pub mod Preserved
pub mod Recorded
pub mod Folded
pub mod Appended
pub mod Reindexed
pub mod Tests
use Prim.Native.Nat.{Ordering}
use Prim.Native.String.{compare, len}
use storhub.Prelude.{
  ℕ, zero, suc, ◌+◌, ◌-◌, ◌*◌, ◌≤◌, ◌<◌, Bool, true, false, ◌&&◌, ◌||◌, not, List, [], ◌∷◌, ◌++◌,
  Option, none, some, ltb, leb, ◌==◌, if◌then◌else◌, length, take, drop, String,
}

-- OpType
pub data OpType : Type 0 where
  put_file : OpType
  delete_file : OpType
  mkdir : OpType
  rmdir : OpType
  rename : OpType
  setattr : OpType
  truncate : OpType
  patch : OpType
  xattr : OpType
  release : OpType
  chunk_prune : OpType

-- The fields of FileMeta that the stack and its replay read.
pub record FileMeta : Type 0 where
  pub inode : ℕ
  pub chunks : List ℕ
  pub symlink : String
  pub xattrs : List (String × String)

-- The fields of DirMeta that the stack and its replay read.
pub record DirMeta : Type 0 where
  pub inode : ℕ
  pub xattrs : List (String × String)

pub record Op : Type 0 where
  pub seq : ℕ
  pub typ : OpType
  pub paths : List String
  pub cause : String
  pub timestamp : ℕ
  pub times : ℕ
  pub file : Option FileMeta
  pub dir : Option DirMeta
  pub chunks : List ℕ
  pub tag : String
  pub release : Option ℕ
  pub removed_chunks : List ℕ
  pub xattr : String
  pub members : List String
  pub gen : ℕ

unfoldable pub is_state_class : OpType → Bool
is_state_class put_file = true
is_state_class truncate = true
is_state_class patch = true
is_state_class setattr = true
is_state_class xattr = true
is_state_class mkdir = true
is_state_class _ = false

unfoldable pub is_delete_class : OpType → Bool
is_delete_class delete_file = true
is_delete_class rmdir = true
is_delete_class _ = false

unfoldable pub is_rename : OpType → Bool
is_rename rename = true
is_rename _ = false

unfoldable pub is_release : OpType → Bool
is_release release = true
is_release _ = false

-- The first path of a list, if any.
head_path : List String → Option String
head_path [] = none
head_path (p ∷ ps) = some p

pub op_path : Op → String
op_path op = elim op.paths [ [] ↦ "" | p ∷ ps ↦ p ]

text_bytes : List String → ℕ
text_bytes [] = 0
text_bytes (p ∷ ps) = len p + text_bytes ps

xattr_bytes : List (String × String) → ℕ
xattr_bytes [] = 0
xattr_bytes ((k, v) ∷ rest) = len k + len v + xattr_bytes rest

file_bytes : Option FileMeta → ℕ
unfolding xattr_bytes
file_bytes none = 0
file_bytes (some f) = 160 + length f.chunks * 8 + len f.symlink + xattr_bytes f.xattrs

dir_bytes : Option DirMeta → ℕ
unfolding xattr_bytes
dir_bytes none = 0
dir_bytes (some d) = 120 + xattr_bytes d.xattrs

release_bytes : Option ℕ → ℕ
release_bytes none = 0
release_bytes (some r) = 32

-- approxOpBytes
unfoldable pub approx_op_bytes : Op → ℕ
unfolding text_bytes file_bytes dir_bytes release_bytes
approx_op_bytes op =
    200
    + text_bytes op.paths
    + (len op.cause + len op.tag + len op.xattr)
    + file_bytes op.file
    + dir_bytes op.dir
    + length op.chunks * 72
    + length op.removed_chunks * 8
    + text_bytes op.members
    + release_bytes op.release

-- The namespaces of byPath: "f:", "d:" and "r:".
pub data PathKey : Type 0 where
  file_key : String → PathKey
  dir_key : String → PathKey
  release_key : String → PathKey

file_path_key : Op → Option PathKey
unfolding head_path
file_path_key op = elim (head_path op.paths) [ none ↦ none | some p ↦ some (file_key p) ]

dir_path_key : Op → Option PathKey
unfolding head_path
dir_path_key op = elim (head_path op.paths) [
  | none ↦ none
  | some p ↦ elim op.dir [ none ↦ none | some d ↦ some (dir_key p) ]
]

file_or_dir_key : Option FileMeta → Op → Option PathKey
unfolding file_path_key dir_path_key
file_or_dir_key none op = dir_path_key op
file_or_dir_key (some f) op = file_path_key op

unfoldable pub path_key_as : OpType → Op → Option PathKey
unfolding file_or_dir_key
path_key_as release op = some (release_key op.tag)
path_key_as delete_file op = file_path_key op
path_key_as rmdir op = dir_path_key op
path_key_as put_file op = file_path_key op
path_key_as truncate op = file_path_key op
path_key_as patch op = file_path_key op
path_key_as mkdir op = dir_path_key op
path_key_as setattr op = file_or_dir_key op.file op
path_key_as xattr op = file_or_dir_key op.file op
path_key_as rename op = none
path_key_as chunk_prune op = none

-- stackPathKey
unfoldable pub stack_path_key : Op → Option PathKey
unfolding path_key_as
stack_path_key op = path_key_as op.typ op

unfoldable pub text_eq : String → String → Bool
text_eq a b = elim (compare a b) [ Ordering.eq ↦ true | _ ↦ false ]

unfoldable pub key_eq : PathKey → PathKey → Bool
unfolding text_eq
key_eq (file_key a) (file_key b) = text_eq a b
key_eq (dir_key a) (dir_key b) = text_eq a b
key_eq (release_key a) (release_key b) = text_eq a b
key_eq _ _ = false

pub record OpStack : Type 0 where
  pub ops : List Op
  pub seq : ℕ
  pub by_path : PathKey → Option ℕ
  pub by_target : String → Option ℕ
  pub prune_idx : Option ℕ
  pub bytes : ℕ
  pub gen : ℕ

abbrev pub empty_stack : OpStack
empty_stack = record {
  ops = [];
  seq = 0;
  by_path = λ k. none;
  by_target = λ p. none;
  prune_idx = none;
  bytes = 0;
  gen = 0;
}
