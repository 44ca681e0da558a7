-- ===== src/Replay/Fresh.antt =====
-- allocInodeAvoiding and allocChunkAvoiding of internal/storage/ops_replay.go on the plan of a batch.
use storhub.Prelude.{ℕ, ◌≤◌, List, some, arith}
use storhub.OpStack.{Op}
use storhub.Replay.{new_replay_plan}
use storhub.Replay.Counters.{
  RepoMetadata, Alloc, max_uint64, max_int64, mint_inode, mint_chunk, alloc_inode_avoiding,
  alloc_chunk_avoiding,
}
use storhub.Replay.Mints.{Mints, mint-Mints}
use storhub.Replay.Claims.{
  carries_inode, carries_chunk, claimed_inodes-new_replay_plan, claimed_chunks-new_replay_plan,
}

-- What an allocation answers, with the inode counter it leaves or the chunk counter.
abbrev pub inode_out : RepoMetadata × Alloc → ℕ × Alloc
inode_out (meta, minted) = (meta.next_inode, minted)

abbrev pub chunk_out : RepoMetadata × Alloc → ℕ × Alloc
chunk_out (meta, minted) = (meta.next_chunk_id, minted)

mint_inode-Mints :
    (ops : List Op) (next : ℕ)
    → next ≤ max_uint64
    → Mints (carries_inode ops) max_uint64 next (mint_inode (some (new_replay_plan ops)) next)
unfolding mint_inode
mint_inode-Mints ops next h =
    mint-Mints (carries_inode ops) (new_replay_plan ops).claimed_inodes max_uint64 next
      (claimed_inodes-new_replay_plan ops) (omega arith) h

mint_chunk-Mints :
    (ops : List Op) (next : ℕ)
    → next ≤ max_int64
    → Mints (carries_chunk ops) max_int64 next (mint_chunk (some (new_replay_plan ops)) next)
unfolding mint_chunk
mint_chunk-Mints ops next h =
    mint-Mints (carries_chunk ops) (new_replay_plan ops).claimed_chunks max_int64 next
      (claimed_chunks-new_replay_plan ops) (omega arith) h

-- allocInodeAvoiding under the plan of a batch mints the first inode from the counter on that no
-- operation of the batch carries, and steps the counter behind it; it fails only where every inode
-- from the counter to the last is carried, never by its bound on the rounds.
pub alloc_inode_avoiding-Mints :
    (ops : List Op) (meta : RepoMetadata)
    → meta.next_inode ≤ max_uint64
    → Mints
        (carries_inode ops)
        max_uint64
        meta.next_inode
        (inode_out (alloc_inode_avoiding (some (new_replay_plan ops)) meta))
unfolding alloc_inode_avoiding
alloc_inode_avoiding-Mints ops meta h = mint_inode-Mints ops meta.next_inode h

-- allocChunkAvoiding under the plan of a batch, on a counter that has not wrapped, mints the first
-- id from the counter on that no operation of the batch carries, and steps the counter behind it;
-- it fails only where every id from the counter to the last is carried, never by its bound on the
-- rounds.
pub alloc_chunk_avoiding-Mints :
    (ops : List Op) (meta : RepoMetadata)
    → meta.next_chunk_id ≤ max_int64
    → Mints
        (carries_chunk ops)
        max_int64
        meta.next_chunk_id
        (chunk_out (alloc_chunk_avoiding (some (new_replay_plan ops)) meta))
unfolding alloc_chunk_avoiding
alloc_chunk_avoiding-Mints ops meta h = mint_chunk-Mints ops meta.next_chunk_id h
