-- ===== src/OpStack/Fold.antt =====
-- How an operation folds into the stack: opStack.append, deleteTransform and appendWithDelta.
use storhub.Prelude.{
  ℕ, zero, suc, ◌+◌, ◌-◌, ◌&&◌, ◌||◌, List, [], ◌∷◌, ◌++◌, Option, none, some, ltb, ◌==◌,
  if◌then◌else◌, length, String,
}
use storhub.OpStack.{
  OpType, delete_file, rmdir, rename, release, chunk_prune, Op, PathKey, OpStack, approx_op_bytes,
  stack_path_key, text_eq, op_path, is_rename, is_release, is_state_class, is_delete_class,
}
use storhub.OpStack.Index.{ops_at, set_at, remove_at, set_target, push}

unfoldable pub transform_removed : Option OpStack → Op → Op → Option (OpStack × Op)
transform_removed none existing op = none
transform_removed (some s) existing op = some (
  s,
  record op {
    times = op.times + existing.times;
    paths = elim existing.paths [ [] ↦ [] | p ∷ ps ↦ p ∷ [] ];
  },
)

unfoldable pub transform_found : OpStack → Op → ℕ → Option Op → Option (OpStack × Op)
unfolding transform_removed is_rename
transform_found s op idx none = none
transform_found s op idx (some existing) =
    if is_rename existing.typ && existing.gen == s.gen
    then transform_removed (remove_at s idx) existing op
    else none

unfoldable pub transform_at : OpStack → Op → Option ℕ → Option (OpStack × Op)
unfolding transform_found
transform_at s op none = none
transform_at s op (some idx) =
    if suc idx == length s.ops then transform_found s op idx (ops_at s.ops idx) else none

-- deleteTransform, none for the answer false: the rename it consumes is the last operation.
unfoldable pub delete_transform : OpStack → Op → Option (OpStack × Op)
unfolding transform_at op_path
delete_transform s op = transform_at s op (s.by_target (op_path op))

unfoldable pub transform_next :
    (OpStack → Op → OpStack × Op) → OpStack → Op → Option (OpStack × Op) → OpStack × Op
transform_next again s op none = (s, op)
transform_next again s op (some (s2, op2)) = again s2 op2

-- The loop `for s.deleteTransform(&op)`; each turn takes one operation off the stack.
unfoldable pub transform_loop : ℕ → OpStack → Op → OpStack × Op
unfolding transform_next
transform_loop zero s op = (s, op)
transform_loop (suc fuel) s op = transform_next (transform_loop fuel) s op (delete_transform s op)

unfoldable pub push_removed : Option OpStack → Op → Option OpStack
push_removed none op = none
push_removed (some s) op = some (push s op)

unfoldable pub coalesce_found : OpStack → Op → ℕ → Option Op → Option OpStack
unfolding push_removed is_state_class is_delete_class
coalesce_found s op idx none = none
coalesce_found s op idx (some existing) =
    if is_state_class existing.typ || is_delete_class existing.typ
    then push_removed (remove_at s idx) (record op { times = op.times + existing.times })
    else some (push s op)

unfoldable pub coalesce_at : OpStack → Op → Option ℕ → Option OpStack
unfolding coalesce_found
coalesce_at s op none = some (push s op)
coalesce_at s op (some idx) = coalesce_found s op idx (ops_at s.ops idx)

unfoldable pub coalesce_key : OpStack → Op → Option PathKey → Option OpStack
unfolding coalesce_at
coalesce_key s op none = some (push s op)
coalesce_key s op (some key) = coalesce_at s op (s.by_path key)

-- The body that the delete and the state classes share.
unfoldable pub coalesce : OpStack → Op → Option OpStack
unfolding coalesce_key stack_path_key
coalesce s op = coalesce_key s op (stack_path_key op)

unfoldable pub chained : Op → Op → String → Op
chained existing op to = record existing {
  paths = elim existing.paths [ [] ↦ [] | p ∷ ps ↦ p ∷ to ∷ [] ];
  file = op.file;
  dir = op.dir;
  chunks = op.chunks;
  timestamp = op.timestamp;
  times = existing.times + op.times;
  seq = op.seq;
}

unfoldable pub drop_target : (String → Option ℕ) → List String → String → Option ℕ
unfolding text_eq
drop_target m (from ∷ target ∷ rest) p = if text_eq p target then none else m p
drop_target m _ p = m p

unfoldable pub chain_into : OpStack → ℕ → Op → Op → String → OpStack
unfolding set_at chained drop_target set_target
chain_into s idx existing op to =
    let new = chained existing op to in
    record s {
      bytes = s.bytes - approx_op_bytes existing + approx_op_bytes new;
      ops = set_at s.ops idx new;
      by_target = set_target (drop_target s.by_target existing.paths) to idx;
    }

unfoldable pub rename_found : OpStack → Op → String → ℕ → Option Op → OpStack
unfolding is_rename
rename_found s op to idx none = push s op
rename_found s op to idx (some existing) =
    if is_rename existing.typ && existing.gen == s.gen
    then chain_into s idx existing op to
    else push s op

unfoldable pub rename_at : OpStack → Op → String → Option ℕ → OpStack
unfolding rename_found
rename_at s op to none = push s op
rename_at s op to (some idx) =
    if suc idx == length s.ops then rename_found s op to idx (ops_at s.ops idx) else push s op

-- The rename branch: op.Paths[0] and op.Paths[1] are read.
unfoldable pub fold_rename : OpStack → Op → List String → Option OpStack
unfolding rename_at
fold_rename s op (from ∷ to ∷ rest) = some (rename_at s op to (s.by_target from))
fold_rename s op _ = none

unfoldable pub pruned : Op → Op → Op
pruned existing op = record existing {
  removed_chunks = existing.removed_chunks ++ op.removed_chunks;
  timestamp = op.timestamp;
  times = existing.times + op.times;
  seq = op.seq;
}

unfoldable pub prune_found : OpStack → Op → ℕ → Option Op → Option OpStack
unfolding pruned set_at
prune_found s op idx none = none
prune_found s op idx (some existing) = some (record s {
  bytes = s.bytes - approx_op_bytes existing + approx_op_bytes (pruned existing op);
  ops = set_at s.ops idx (pruned existing op);
})

unfoldable pub fold_prune : OpStack → Op → Option ℕ → Option OpStack
unfolding prune_found
fold_prune s op none = some (push s op)
fold_prune s op (some idx) = prune_found s op idx (ops_at s.ops idx)

unfoldable pub release_found : OpStack → Op → ℕ → Option Op → Option OpStack
unfolding push_removed is_release
release_found s op idx none = none
release_found s op idx (some existing) =
    if is_release existing.typ
    then push_removed (remove_at s idx) (record op { times = op.times + existing.times })
    else some (push s op)

unfoldable pub release_at : OpStack → Op → Option ℕ → Option OpStack
unfolding release_found
release_at s op none = some (push s op)
release_at s op (some idx) = release_found s op idx (ops_at s.ops idx)

unfoldable pub fold_release : OpStack → Op → Option PathKey → Option OpStack
unfolding release_at
fold_release s op none = some (push s op)
fold_release s op (some key) = release_at s op (s.by_path key)

unfoldable pub fold_delete : OpStack × Op → Option OpStack
unfolding coalesce
fold_delete (s, op) = coalesce s op

-- The switch of append.
unfoldable pub fold_as : OpType → OpStack → Op → Option OpStack
unfolding fold_delete fold_rename fold_prune fold_release transform_loop
fold_as delete_file s op = fold_delete (transform_loop (suc (length s.ops)) s op)
fold_as rmdir s op = fold_delete (transform_loop (suc (length s.ops)) s op)
fold_as rename s op = fold_rename s op op.paths
fold_as chunk_prune s op = fold_prune s op s.prune_idx
fold_as release s op = fold_release s op (stack_path_key op)
fold_as _ s op = coalesce s op

unfoldable pub fold : OpStack → Op → Option OpStack
unfolding fold_as
fold s op = fold_as op.typ s op

unfoldable pub open_gen : ℕ → ℕ → ℕ
open_gen gen given =
    let opened = if gen == 0 then 1 else gen in if ltb opened given then given else opened

-- The first statements of append: sequence number, counter and generation.
unfoldable pub stamp_stack : OpStack → Op → OpStack
unfolding open_gen
stamp_stack s op = record s { seq = s.seq + 1; gen = open_gen s.gen op.gen }

unfoldable pub stamp_op : OpStack → Op → Op
unfolding open_gen
stamp_op s op = record op {
  seq = s.seq + 1;
  times = if op.times == 0 then 1 else op.times;
  gen = open_gen s.gen op.gen;
}

-- append
unfoldable pub append : OpStack → Op → Option OpStack
unfolding fold stamp_stack stamp_op
append s op = fold (stamp_stack s op) (stamp_op s op)

unfoldable pub with_delta : Op → Option OpStack → Option (OpStack × Op)
with_delta op none = none
with_delta op (some s) = some (s, record op { times = 1; seq = s.seq; gen = s.gen })

-- appendWithDelta: the stack and the journal's line.
pub append_with_delta : OpStack → Op → Option (OpStack × Op)
unfolding append with_delta
append_with_delta s op = with_delta op (append s op)
