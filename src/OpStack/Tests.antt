-- ===== src/OpStack/Tests.antt =====
-- A stack that holds one rename, frozen by a commit in flight.
use storhub.Prelude.{ℕ, List, [], ◌∷◌, none, some, if◌then◌else◌, ◌≡◌, arith, String}
use storhub.OpStack.{OpType, rename, delete_file, Op, OpStack, text_eq}
use storhub.OpStack.Fold.{transform_loop, delete_transform}
use storhub.OpStack.Transform.{transform_loop-ends}

abbrev bare_op : OpType → List String → ℕ → Op
bare_op typ paths gen = record {
  seq = 1;
  typ = typ;
  paths = paths;
  cause = "update";
  timestamp = 0;
  times = 1;
  file = none;
  dir = none;
  chunks = [];
  tag = "";
  release = none;
  removed_chunks = [];
  xattr = "";
  members = [];
  gen = gen;
}

abbrev renamed_stack : ℕ → OpStack
renamed_stack gen = record {
  ops = bare_op rename ("a" ∷ "b" ∷ []) 1 ∷ [];
  seq = 1;
  by_path = λ k. none;
  by_target = λ p. if text_eq p "b" then some 0 else none;
  prune_idx = none;
  bytes = 208;
  gen = gen;
}

abbrev delete_b : Op
delete_b = bare_op delete_file ("b" ∷ []) 0

transform_loop-ends_example :
    delete_transform
      (transform_loop 2 (renamed_stack 1) delete_b).0
      (transform_loop 2 (renamed_stack 1) delete_b).1
    ≡ none
transform_loop-ends_example = transform_loop-ends 2 (renamed_stack 1) delete_b (omega arith)
