-- ===== src/Replay.antt =====
-- The shared state of a batch replay: replayPlan of internal/storage/ops_replay.go. A set is a list without repeats, so that its
-- length is the number of its members.
pub mod Counters
pub mod Mints
pub mod Claims
pub mod Fresh
pub mod Moves
pub mod Unordered
pub mod Live
pub mod Tests
use storhub.Prelude.{
  ℕ, zero, suc, ◌+◌, ◌%◌, Bool, true, false, ◌&&◌, ◌||◌, not, List, [], ◌∷◌, ◌++◌, Option, none,
  some, ◌==◌, if◌then◌else◌, length, String,
}
use storhub.OpStack.{
  OpType, put_file, delete_file, mkdir, rmdir, rename, setattr, truncate, patch, xattr, FileMeta,
  DirMeta, Op, text_eq,
}

unfoldable pub elem : ℕ → List ℕ → Bool
elem k [] = false
elem k (x ∷ xs) = (x == k) || elem k xs

unfoldable pub claim : ℕ → List ℕ → List ℕ
unfolding elem
claim k claimed = if elem k claimed then claimed else k ∷ claimed

unfoldable pub claim_all : List ℕ → List ℕ → List ℕ
unfolding claim
claim_all [] claimed = claimed
claim_all (k ∷ ks) claimed = claim_all ks (claim k claimed)

unfoldable pub claim_inode : ℕ → List ℕ → List ℕ
unfolding claim
claim_inode inode claimed = if inode == 0 then claimed else claim inode claimed

unfoldable pub claim_file : Option FileMeta → List ℕ → List ℕ
unfolding claim_inode
claim_file none claimed = claimed
claim_file (some file) claimed = claim_inode file.inode claimed

unfoldable pub claim_dir : Option DirMeta → List ℕ → List ℕ
unfolding claim_inode
claim_dir none claimed = claimed
claim_dir (some dir) claimed = claim_inode dir.inode claimed

unfoldable pub file_chunks : Option FileMeta → List ℕ
file_chunks none = []
file_chunks (some file) = file.chunks

unfoldable pub has_path : String → List String → Bool
unfolding text_eq
has_path p [] = false
has_path p (q ∷ qs) = text_eq q p || has_path p qs

with_path : String → List String → List String
unfolding has_path
with_path p set = if has_path p set then set else p ∷ set

without_path : String → List String → List String
unfolding text_eq
without_path p [] = []
without_path p (q ∷ qs) = let rest = without_path p qs in if text_eq q p then rest else q ∷ rest

with_paths : List String → List String → List String
unfolding with_path
with_paths [] set = set
with_paths (p ∷ ps) set = with_paths ps (with_path p set)

without_paths : List String → List String → List String
unfolding without_path
without_paths [] set = set
without_paths (p ∷ ps) set = without_paths ps (without_path p set)

-- The first path of an operation, if any.
abbrev first_path : List String → List String
first_path [] = []
first_path (p ∷ ps) = p ∷ []

-- The one end and the other of a rename, which has two paths.
abbrev from_path : List String → List String
from_path (from ∷ to ∷ []) = from ∷ []
from_path _ = []

abbrev to_path : List String → List String
to_path (from ∷ to ∷ []) = to ∷ []
to_path _ = []

abbrev is_given {ℓ} : {A : Type ℓ} → Option A → Bool
is_given none = false
is_given (some a) = true

asserts_as : OpType → Op → List String
asserts_as rename op = to_path op.paths
asserts_as put_file op = first_path op.paths
asserts_as setattr op = first_path op.paths
asserts_as truncate op = first_path op.paths
asserts_as patch op = first_path op.paths
asserts_as xattr op = if is_given op.file || is_given op.dir then first_path op.paths else []
asserts_as mkdir op = if is_given op.dir then first_path op.paths else []
asserts_as _ op = []

-- opAssertPaths
unfoldable pub op_assert_paths : Op → List String
unfolding asserts_as
op_assert_paths op = asserts_as op.typ op

removes_as : OpType → Op → List String
removes_as delete_file op = first_path op.paths
removes_as rmdir op = first_path op.paths
removes_as rename op = from_path op.paths
removes_as _ op = []

makes_as : OpType → Op → List String
makes_as mkdir op = first_path op.paths
makes_as _ op = []

-- The sets of replayPlan.
pub record ReplayPlan : Type 0 where
  pub doomed : List String
  pub mkdirs : List String
  pub targets : List String
  pub claimed_inodes : List ℕ
  pub claimed_chunks : List ℕ

unfoldable pub plan_op : ReplayPlan → Op → ReplayPlan
unfolding op_assert_paths removes_as makes_as with_paths claim_file claim_dir claim_all file_chunks
plan_op p op = record {
  doomed = with_paths (removes_as op.typ op) p.doomed;
  mkdirs = with_paths (makes_as op.typ op) p.mkdirs;
  targets = with_paths (op_assert_paths op) p.targets;
  claimed_inodes = claim_dir op.dir (claim_file op.file p.claimed_inodes);
  claimed_chunks =
      claim_all op.removed_chunks
        (claim_all op.chunks (claim_all (file_chunks op.file) p.claimed_chunks));
}

unfoldable pub plan_ops : ReplayPlan → List Op → ReplayPlan
unfolding plan_op
plan_ops p [] = p
plan_ops p (op ∷ ops) = plan_ops (plan_op p op) ops

-- newReplayPlan
unfoldable pub new_replay_plan : List Op → ReplayPlan
unfolding plan_ops
new_replay_plan ops =
    plan_ops
      (record { doomed = []; mkdirs = []; targets = []; claimed_inodes = []; claimed_chunks = [] })
      ops

-- untarget
pub untarget : ReplayPlan → Op → ReplayPlan
unfolding without_paths op_assert_paths
untarget p op = record {
  doomed = p.doomed;
  mkdirs = p.mkdirs;
  targets = without_paths (op_assert_paths op) p.targets;
  claimed_inodes = p.claimed_inodes;
  claimed_chunks = p.claimed_chunks;
}

-- unremove
pub unremove : ReplayPlan → Op → ReplayPlan
unfolding without_paths
unremove p op = record {
  doomed = without_paths op.paths p.doomed;
  mkdirs = p.mkdirs;
  targets = p.targets;
  claimed_inodes = p.claimed_inodes;
  claimed_chunks = p.claimed_chunks;
}
