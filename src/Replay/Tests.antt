-- ===== src/Replay/Tests.antt =====
-- A batch of two operations, and a table of two renames.
use mathlib.Core.List.Perm
use storhub.Prelude.{[], ◌∷◌, none, some, ◌≡◌, refl, arith}
use storhub.OpStack.{put_file, mkdir, Op}
use storhub.Path.{Text, same_text, has_prefix, metadata_stored_path}
use storhub.Path.Resolver.{RepoMetadata}
use storhub.Replay.{new_replay_plan}
use storhub.Replay.Counters.{alloc_inode_avoiding}
use storhub.Replay.Counters as Counters
use storhub.Replay.Mints.{Mints}
use storhub.Replay.Claims.{carries_inode}
use storhub.Replay.Fresh.{inode_out, alloc_inode_avoiding-Mints}
use storhub.Replay.Moves.{
  Moves, record_move, is_live, relocated, longest_moved_prefix, translate_forward, resolve_live,
}
use storhub.Replay.Unordered.{longest_moved_prefix-perm}
use storhub.Replay.Live.{Reaches, resolve_live-Reaches}

abbrev put_seven : Op
put_seven = record {
  seq = 1;
  typ = put_file;
  paths = "a" ∷ [];
  cause = "update";
  timestamp = 0;
  times = 1;
  file = some (record { inode = 7; chunks = 3 ∷ []; symlink = ""; xattrs = [] });
  dir = none;
  chunks = 3 ∷ [];
  tag = "";
  release = none;
  removed_chunks = 4 ∷ [];
  xattr = "";
  members = [];
  gen = 0;
}

abbrev mkdir_eight : Op
mkdir_eight = record {
  seq = 2;
  typ = mkdir;
  paths = "b" ∷ [];
  cause = "update";
  timestamp = 0;
  times = 1;
  file = none;
  dir = some (record { inode = 8; xattrs = [] });
  chunks = [];
  tag = "";
  release = none;
  removed_chunks = [];
  xattr = "";
  members = [];
  gen = 0;
}

abbrev counters : Counters.RepoMetadata
counters = record { next_inode = 7; next_chunk_id = 3 }

-- The two claimed inodes are skipped.
mints_nine :
    inode_out
      (alloc_inode_avoiding (some (new_replay_plan (put_seven ∷ mkdir_eight ∷ []))) counters)
    ≡ (10, Counters.ok 9)
unfolding alloc_inode_avoiding Counters.mint_inode new_replay_plan
mints_nine = refl

alloc_inode_avoiding-Mints_example :
    Mints (carries_inode (put_seven ∷ mkdir_eight ∷ [])) Counters.max_uint64 7 (
      inode_out
        (alloc_inode_avoiding (some (new_replay_plan (put_seven ∷ mkdir_eight ∷ []))) counters))
alloc_inode_avoiding-Mints_example =
    alloc_inode_avoiding-Mints (put_seven ∷ mkdir_eight ∷ []) counters (omega arith)

-- "a" and "a/b" are moved.
abbrev one_order : Moves
one_order = ((97 ∷ []), (99 ∷ [])) ∷ ((97 ∷ 47 ∷ 98 ∷ []), (100 ∷ [])) ∷ []

abbrev other_order : Moves
other_order = ((97 ∷ 47 ∷ 98 ∷ []), (100 ∷ [])) ∷ ((97 ∷ []), (99 ∷ [])) ∷ []

longest_is_found : longest_moved_prefix one_order (97 ∷ 47 ∷ 98 ∷ 47 ∷ 101 ∷ []) ≡ 97 ∷ 47 ∷ 98 ∷ []
unfolding longest_moved_prefix same_text has_prefix
longest_is_found = refl

longest_moved_prefix-perm_example :
    longest_moved_prefix one_order (97 ∷ 47 ∷ 98 ∷ 47 ∷ 101 ∷ [])
    ≡ longest_moved_prefix other_order (97 ∷ 47 ∷ 98 ∷ 47 ∷ 101 ∷ [])
longest_moved_prefix-perm_example =
    longest_moved_prefix-perm (97 ∷ 47 ∷ 98 ∷ 47 ∷ 101 ∷ []) (Perm.swap _ _ _)

-- The one live file is "d".
abbrev only_d : RepoMetadata
only_d = record { files = λ (t : Text). none; dirs = λ (t : Text). same_text t (100 ∷ []) }

one_step : Reaches only_d one_order (100 ∷ []) 1 (97 ∷ 47 ∷ 98 ∷ [])
unfolding is_live relocated longest_moved_prefix same_text has_prefix metadata_stored_path
one_step = (refl, refl, (refl, refl))

resolve_live-Reaches_example : resolve_live only_d one_order (97 ∷ 47 ∷ 98 ∷ []) ≡ 100 ∷ []
resolve_live-Reaches_example =
    resolve_live-Reaches only_d one_order (97 ∷ 47 ∷ 98 ∷ []) (100 ∷ []) 1 one_step (omega arith)

-- A directory that is renamed away and back is translated to the name it no longer has.
renamed_back :
    translate_forward
      (record_move (98 ∷ []) (97 ∷ []) (record_move (97 ∷ []) (98 ∷ []) []))
      (97 ∷ [])
    ≡ 98 ∷ []
unfolding translate_forward record_move has_prefix
renamed_back = refl
