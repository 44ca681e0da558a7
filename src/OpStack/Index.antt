-- ===== src/OpStack/Index.antt =====
-- The positions of the stack: opStack.removeAt, indexOp, reindex, clearUpTo, clear and freeze.
use storhub.Prelude.{
  ℕ, zero, suc, ◌+◌, ◌-◌, List, [], ◌∷◌, ◌++◌, Option, none, some, ltb, ◌==◌, if◌then◌else◌, length,
  String,
}
use storhub.OpStack.{
  OpType, rename, chunk_prune, Op, PathKey, OpStack, approx_op_bytes, stack_path_key, text_eq,
  key_eq,
}

unfoldable pub ops_at : List Op → ℕ → Option Op
ops_at [] i = none
ops_at (op ∷ ops) zero = some op
ops_at (op ∷ ops) (suc i) = ops_at ops i

unfoldable pub without : List Op → ℕ → List Op
without [] i = []
without (op ∷ ops) zero = ops
without (op ∷ ops) (suc i) = op ∷ without ops i

unfoldable pub set_at : List Op → ℕ → Op → List Op
set_at [] i new = []
set_at (op ∷ ops) zero new = new ∷ ops
set_at (op ∷ ops) (suc i) new = op ∷ set_at ops i new

unfoldable pub total_bytes : List Op → ℕ
unfolding approx_op_bytes
total_bytes [] = 0
total_bytes (op ∷ ops) = approx_op_bytes op + total_bytes ops

unfoldable pub shift : ℕ → Option ℕ → Option ℕ
shift idx none = none
shift idx (some i) = if ltb idx i then some (i - 1) else some i

unfoldable pub shift_prune : ℕ → Option ℕ → Option ℕ
shift_prune idx none = none
shift_prune idx (some i) = if ltb idx i then some (i - 1) else if i == idx then none else some i

-- The stack without the operation at a position.
unfoldable pub removed : OpStack → ℕ → Op → OpStack
unfolding shift shift_prune without
removed s idx op = record s {
  bytes = s.bytes - approx_op_bytes op;
  ops = without s.ops idx;
  by_path = λ k. shift idx (s.by_path k);
  by_target = λ p. shift idx (s.by_target p);
  prune_idx = shift_prune idx s.prune_idx;
}

unfoldable pub remove_found : OpStack → ℕ → Option Op → Option OpStack
unfolding removed
remove_found s idx none = none
remove_found s idx (some op) = some (removed s idx op)

-- removeAt
unfoldable pub remove_at : OpStack → ℕ → Option OpStack
unfolding remove_found ops_at
remove_at s idx = remove_found s idx (ops_at s.ops idx)

unfoldable pub set_path : (PathKey → Option ℕ) → Option PathKey → ℕ → PathKey → Option ℕ
unfolding key_eq
set_path m none idx k = m k
set_path m (some key) idx k = if key_eq k key then some idx else m k

unfoldable pub set_target : (String → Option ℕ) → String → ℕ → String → Option ℕ
unfolding text_eq
set_target m target idx p = if text_eq p target then some idx else m p

unfoldable pub index_rename : OpStack → List String → ℕ → OpStack
unfolding set_target
index_rename s (from ∷ to ∷ []) idx = record s { by_target = set_target s.by_target to idx }
index_rename s _ idx = s

unfoldable pub index_as : OpType → OpStack → Op → ℕ → OpStack
unfolding index_rename set_path
index_as rename s op idx = index_rename s op.paths idx
index_as chunk_prune s op idx = record s { prune_idx = some idx }
index_as _ s op idx = record s { by_path = set_path s.by_path (stack_path_key op) idx }

-- indexOp
unfoldable pub index_op : OpStack → Op → ℕ → OpStack
unfolding index_as
index_op s op idx = index_as op.typ s op idx

-- The three statements that end most branches of append.
unfoldable pub push : OpStack → Op → OpStack
unfolding index_op
push s op =
    index_op (record s { ops = s.ops ++ op ∷ []; bytes = s.bytes + approx_op_bytes op }) op
      (length s.ops)

unfoldable pub reindex_loop : OpStack → List Op → ℕ → OpStack
unfolding index_op
reindex_loop s [] i = s
reindex_loop s (op ∷ ops) i = reindex_loop (index_op s op i) ops (i + 1)

-- reindex
unfoldable pub reindex : OpStack → OpStack
unfolding reindex_loop total_bytes
reindex s =
    let fresh = record s { by_path = λ k. none; by_target = λ p. none; prune_idx = none } in
    record (reindex_loop fresh s.ops 0) { bytes = total_bytes s.ops }

unfoldable pub newer : ℕ → List Op → List Op
newer seq [] = []
newer seq (op ∷ ops) = if ltb seq op.seq then op ∷ newer seq ops else newer seq ops

-- clearUpTo
unfoldable pub clear_up_to : OpStack → ℕ → OpStack
unfolding reindex newer
clear_up_to s seq =
    let kept = newer seq s.ops in reindex (record s { ops = kept; bytes = total_bytes kept })

-- clear
unfoldable pub clear : OpStack → OpStack
clear s = record s {
  ops = [];
  by_path = λ k. none;
  by_target = λ p. none;
  prune_idx = none;
  bytes = 0;
  gen = 0;
}

-- freeze: the batch, the frozen generation, and the stack with a newer open generation. The deep
-- copy of the batch is the batch, as no operation here writes through a shared slice.
unfoldable pub freeze : OpStack → List Op × (ℕ × OpStack)
freeze s =
    let frozen = if s.gen == 0 then 1 else s.gen in (s.ops, (frozen, record s { gen = frozen + 1 }))
