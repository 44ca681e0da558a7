-- ===== src/OpStack/Frozen.antt =====
-- opStack.append and the renames of the generations before the open one.
use storhub.Prelude.{
  ℕ, suc, ◌&&◌, List, ◌∷◌, Option, none, some, ◌==◌, length, ◌≡◌, refl, ◌∙◌, arith, Bool-cases, inl,
  inr, String,
}
use storhub.OpStack.{
  OpType, put_file, delete_file, mkdir, rmdir, rename, setattr, truncate, patch, xattr, release,
  chunk_prune, Op, PathKey, OpStack, stack_path_key, is_rename,
}
use storhub.OpStack.Index.{ops_at}
use storhub.OpStack.Fold.{
  coalesce_at, coalesce_key, coalesce, chained, chain_into, rename_found, rename_at, fold_rename,
  pruned, prune_found, fold_prune, release_at, fold_release, fold_delete, fold_as, fold, open_gen,
  stamp_stack, stamp_op, append,
}
use storhub.OpStack.Boundary.{passing, passing-set_at, ops_at-last}
use storhub.OpStack.Sealed.{
  is_sealed, IsOther, IsIndexed, Keeps, unsealed_if_open, unsealed_unless_rename, push-Keeps,
  coalesce_found-Keeps, release_found-Keeps,
}
use storhub.OpStack.Transform.{Transformed, transform_loop-Transformed}

module _ (gen : ℕ) (s : OpStack) (op : Op) (renames : List Op) (inv : IsIndexed s)
    (same : op.gen ≡ gen) (kept : passing (is_sealed gen) s.ops ≡ renames) where
  coalesce_at-Keeps :
      (o : Option ℕ) → ((i : ℕ) → o ≡ some i → IsOther s i) → Keeps gen renames (coalesce_at s op o)
  unfolding coalesce_at
  coalesce_at-Keeps none h = push-Keeps gen s op renames same kept
  coalesce_at-Keeps (some i) h =
      let (existing, e, n) = h i refl in
      rw e (coalesce_found-Keeps gen s op i existing renames same kept e n)

  coalesce_key-Keeps : (key : Option PathKey) → Keeps gen renames (coalesce_key s op key)
  unfolding coalesce_key
  coalesce_key-Keeps none = push-Keeps gen s op renames same kept
  coalesce_key-Keeps (some key) = coalesce_at-Keeps (s.by_path key) (inv.path_at key)

  pub coalesce-Keeps : Keeps gen renames (coalesce s op)
  unfolding coalesce
  coalesce-Keeps = coalesce_key-Keeps (stack_path_key op)

  release_at-Keeps :
      (o : Option ℕ) → ((i : ℕ) → o ≡ some i → IsOther s i) → Keeps gen renames (release_at s op o)
  unfolding release_at
  release_at-Keeps none h = push-Keeps gen s op renames same kept
  release_at-Keeps (some i) h =
      let (existing, e, n) = h i refl in
      rw e (release_found-Keeps gen s op i existing renames same kept e n)

  pub fold_release-Keeps : (key : Option PathKey) → Keeps gen renames (fold_release s op key)
  unfolding fold_release
  fold_release-Keeps none = push-Keeps gen s op renames same kept
  fold_release-Keeps (some key) = release_at-Keeps (s.by_path key) (inv.path_at key)

  pub fold_prune-Keeps :
      (o : Option ℕ) → ((i : ℕ) → o ≡ some i → IsOther s i) → Keeps gen renames (fold_prune s op o)
  unfolding fold_prune prune_found pruned
  fold_prune-Keeps none h = push-Keeps gen s op renames same kept
  fold_prune-Keeps (some i) h =
      let (existing, e, n) = h i refl in
      rw e (
        _,
        refl,
        passing-set_at (is_sealed gen) s.ops i existing (pruned existing op) e
              (unsealed_unless_rename gen existing n)
              (unsealed_unless_rename gen (pruned existing op) n)
            ∙ kept,
      )

  rename_found-Keeps :
      (to : String) (i : ℕ) (existing : Op)
      → s.gen ≡ gen
      → ops_at s.ops i ≡ some existing
      → Keeps gen renames (some (rename_found s op to i (some existing)))
  unfolding rename_found chain_into chained
  rename_found-Keeps to i existing g e =
      elim (Bool-cases (is_rename existing.typ && existing.gen == s.gen)) [
        | inl c ↦ rw c (
          chain_into s i existing op to,
          refl,
          passing-set_at (is_sealed gen) s.ops i existing (chained existing op to) e
                (unsealed_if_open gen existing (ground (arith, c, g)))
                (unsealed_if_open gen (chained existing op to) (ground (arith, c, g)))
              ∙ kept,
        )
        | inr c ↦ rw c (push-Keeps gen s op renames same kept)
      ]

  rename_last :
      (to : String) (i : ℕ) (existing : Op)
      → s.gen ≡ gen
      → ops_at s.ops i ≡ some existing
      → Keeps gen renames (some (rename_found s op to i (ops_at s.ops i)))
  rename_last to i existing g e = rw e (rename_found-Keeps to i existing g e)

  rename_at-Keeps :
      (to : String) (o : Option ℕ) → s.gen ≡ gen → Keeps gen renames (some (rename_at s op to o))
  unfolding rename_at
  rename_at-Keeps to none g = push-Keeps gen s op renames same kept
  rename_at-Keeps to (some i) g = elim (Bool-cases (suc i == length s.ops)) [
    | inl last ↦
        let there = ops_at-last s.ops i (ground (arith, last)) in
        rw last (rename_last to i there.0 g there.1)
    | inr c ↦ rw c (push-Keeps gen s op renames same kept)
  ]

-- A delete, once the loop over deleteTransform is done.
fold_delete-Keeps :
    (s : OpStack) (op : Op) (r : OpStack × Op)
    → op.gen ≡ s.gen
    → Transformed s op r
    → Keeps s.gen (passing (is_sealed s.gen) s.ops) (fold_delete r)
unfolding fold_delete
fold_delete-Keeps s op (s2, op2) same (inv, g, og, kept) =
    coalesce-Keeps s.gen s2 op2 (passing (is_sealed s.gen) s.ops) inv (og ∙ same) kept

fold_rename-Keeps :
    (s : OpStack) (op : Op) (from to : String) (rest paths : List String)
    → op.gen ≡ s.gen
    → IsIndexed s
    → paths ≡ from ∷ to ∷ rest
    → Keeps s.gen (passing (is_sealed s.gen) s.ops) (fold_rename s op paths)
unfolding fold_rename
fold_rename-Keeps s op from to rest paths same inv e = rw e (
    rename_at-Keeps s.gen s op (passing (is_sealed s.gen) s.ops) inv same refl to (s.by_target from)
      refl)

-- The paths that a rename has, as the verb that records it gives them.
abbrev pub HasPaths : OpType → List String → Type 0
HasPaths rename paths = (from to : String) × (rest : List String) × (paths ≡ from ∷ to ∷ rest)
HasPaths _ paths = Unit

fold_as-Keeps :
    (typ : OpType) (s : OpStack) (op : Op)
    → IsIndexed s
    → op.gen ≡ s.gen
    → HasPaths typ op.paths
    → Keeps s.gen (passing (is_sealed s.gen) s.ops) (fold_as typ s op)
unfolding fold_as
fold_as-Keeps delete_file s op inv same paths =
    fold_delete-Keeps s op _ same (transform_loop-Transformed (suc (length s.ops)) s op inv)
fold_as-Keeps rmdir s op inv same paths =
    fold_delete-Keeps s op _ same (transform_loop-Transformed (suc (length s.ops)) s op inv)
fold_as-Keeps rename s op inv same (from, to, rest, e) =
    fold_rename-Keeps s op from to rest op.paths same inv e
fold_as-Keeps chunk_prune s op inv same paths =
    fold_prune-Keeps s.gen s op _ inv same refl s.prune_idx inv.prune_at
fold_as-Keeps release s op inv same paths =
    fold_release-Keeps s.gen s op _ inv same refl (stack_path_key op)
fold_as-Keeps put_file s op inv same paths = coalesce-Keeps s.gen s op _ inv same refl
fold_as-Keeps mkdir s op inv same paths = coalesce-Keeps s.gen s op _ inv same refl
fold_as-Keeps setattr s op inv same paths = coalesce-Keeps s.gen s op _ inv same refl
fold_as-Keeps truncate s op inv same paths = coalesce-Keeps s.gen s op _ inv same refl
fold_as-Keeps patch s op inv same paths = coalesce-Keeps s.gen s op _ inv same refl
fold_as-Keeps xattr s op inv same paths = coalesce-Keeps s.gen s op _ inv same refl

stamped-IsIndexed : (s : OpStack) (op : Op) → IsIndexed s → IsIndexed (stamp_stack s op)
unfolding stamp_stack
stamped-IsIndexed s op inv = record { path_at = inv.path_at; prune_at = inv.prune_at }

-- Where the index of the stack is right and a rename has its two paths, append does not panic, and
-- the renames of the generations before the open one stay on the stack, the same and in order.
pub append-Keeps :
    (s : OpStack) (op : Op)
    → IsIndexed s
    → HasPaths op.typ op.paths
    → Keeps
        (open_gen s.gen op.gen)
        (passing (is_sealed (open_gen s.gen op.gen)) s.ops)
        (append s op)
unfolding append fold stamp_stack stamp_op
append-Keeps s op inv paths =
    fold_as-Keeps op.typ (stamp_stack s op) (stamp_op s op) (stamped-IsIndexed s op inv) refl paths
