-- ===== src/Replay/Counters.antt =====
-- The minting of ids: AllocateInode and AllocateChunkID of internal/metadata/metadata_normalize.go,
-- allocInodeAvoiding and allocChunkAvoiding of internal/storage/ops_replay.go.
use storhub.Prelude.{ℕ, zero, suc, ◌+◌, ◌%◌, List, ◌==◌, if◌then◌else◌, length, Option, none, some}
use storhub.Replay.{elem, ReplayPlan}

-- The counters of RepoMetadata. The inode counter is a uint64; the chunk counter is an int64, kept
-- here by its two's complement residue.
pub record RepoMetadata : Type 0 where
  pub next_inode : ℕ
  pub next_chunk_id : ℕ

pub data AllocError : Type 0 where
  space_exhausted : AllocError
  bound_exhausted : ℕ → AllocError

pub data Alloc : Type 0 where
  ok : ℕ → Alloc
  err : AllocError → Alloc

-- The counter after a mint.
unfoldable pub bumped : ℕ → ℕ
bumped next = (next + 1) % 18_446_744_073_709_551_616

-- math.MaxUint64 and math.MaxInt64
abbrev pub max_uint64 : ℕ
max_uint64 = 18_446_744_073_709_551_615

abbrev pub max_int64 : ℕ
max_int64 = 9_223_372_036_854_775_807

-- The loop of allocInodeAvoiding and of allocChunkAvoiding, with the rounds that are left, the last
-- id of the counter, and the counter. The rounds end with the number of the claimed ids.
unfoldable pub mint_loop : ℕ → ℕ → List ℕ → ℕ → ℕ × Alloc
unfolding bumped elem
mint_loop zero last claimed next = (next, err (bound_exhausted (length claimed)))
mint_loop (suc rounds) last claimed next =
    let rest = mint_loop rounds last claimed (bumped next) in
    if next == last
    then (bumped next, err space_exhausted)
    else if elem next claimed
    then rest
    else (bumped next, ok next)

-- The mint of a nil plan.
unfoldable pub mint_any : ℕ → ℕ → ℕ × Alloc
unfolding bumped
mint_any last next =
    if next == last then (bumped next, err space_exhausted) else (bumped next, ok next)

-- allocInodeAvoiding and allocChunkAvoiding on the counter they bump.
unfoldable pub mint_inode : Option ReplayPlan → ℕ → ℕ × Alloc
unfolding mint_any mint_loop
mint_inode none next = mint_any max_uint64 next
mint_inode (some p) next =
    mint_loop (suc (length p.claimed_inodes)) max_uint64 p.claimed_inodes next

unfoldable pub mint_chunk : Option ReplayPlan → ℕ → ℕ × Alloc
unfolding mint_any mint_loop
mint_chunk none next = mint_any max_int64 next
mint_chunk (some p) next = mint_loop (suc (length p.claimed_chunks)) max_int64 p.claimed_chunks next

-- allocInodeAvoiding
unfoldable pub alloc_inode_avoiding : Option ReplayPlan → RepoMetadata → RepoMetadata × Alloc
unfolding mint_inode
alloc_inode_avoiding plan meta =
    let (next, minted) = mint_inode plan meta.next_inode in
    (record { next_inode = next; next_chunk_id = meta.next_chunk_id }, minted)

-- allocChunkAvoiding
unfoldable pub alloc_chunk_avoiding : Option ReplayPlan → RepoMetadata → RepoMetadata × Alloc
unfolding mint_chunk
alloc_chunk_avoiding plan meta =
    let (next, minted) = mint_chunk plan meta.next_chunk_id in
    (record { next_inode = meta.next_inode; next_chunk_id = next }, minted)
