-- ===== src/OpStack/Folded.antt =====
-- The operation that each branch of opStack.append records.
use storhub.Prelude.{
  ℕ, zero, suc, ◌+◌, ◌&&◌, List, [], ◌∷◌, Option, none, some, ◌==◌, length, ◌≡◌, refl, ◌∙◌, subst,
  Bool-cases, inl, inr, String,
}
use storhub.OpStack.{
  OpType, put_file, delete_file, mkdir, rmdir, rename, setattr, truncate, patch, xattr, release,
  chunk_prune, Op, OpStack, stack_path_key, is_rename,
}
use storhub.OpStack.Index.{ops_at, remove_at, push}
use storhub.OpStack.Fold.{
  rename_at, fold_rename, fold_prune, fold_delete, fold_as, fold, transform_removed,
  transform_found, transform_at, delete_transform, transform_next, transform_loop, stamp_stack,
  stamp_op, append,
}
use storhub.OpStack.Keyed.{IsKeyed}
use storhub.OpStack.Recorded.{
  Records, push-Records, coalesce-Records, fold_release-Records, prune_found-Records,
  rename_found-Records,
}

push_rename-Records :
    (s : OpStack) (op : Op) → op.typ ≡ rename → Records op.seq rename (some (push s op))
push_rename-Records s op t =
    subst (λ (typ : OpType). Records op.seq typ (some (push s op))) t (push-Records s op)

rename_at-Records :
    (s : OpStack) (op : Op) (to : String) (o : Option ℕ)
    → op.typ ≡ rename
    → Records op.seq rename (some (rename_at s op to o))
unfolding rename_at
rename_at-Records s op to none t = push_rename-Records s op t
rename_at-Records s op to (some i) t = elim (Bool-cases (suc i == length s.ops)) [
  | inl last ↦ rw last (rename_found-Records s op to i (ops_at s.ops i) t refl)
  | inr c ↦ rw c (push_rename-Records s op t)
]

fold_rename-Records :
    (s : OpStack) (op : Op) (paths : List String)
    → op.typ ≡ rename
    → Records op.seq rename (fold_rename s op paths)
unfolding fold_rename
fold_rename-Records s op [] t = tt
fold_rename-Records s op (from ∷ []) t = tt
fold_rename-Records s op (from ∷ to ∷ rest) t = rename_at-Records s op to (s.by_target from) t

fold_prune-Records :
    (s : OpStack) (op : Op) (o : Option ℕ)
    → op.typ ≡ chunk_prune
    → IsKeyed s
    → s.prune_idx ≡ o
    → Records op.seq chunk_prune (fold_prune s op o)
unfolding fold_prune
fold_prune-Records s op none t inv p =
    subst (λ (typ : OpType). Records op.seq typ (some (push s op))) t (push-Records s op)
fold_prune-Records s op (some i) t inv p =
    prune_found-Records s op i (ops_at s.ops i) p refl (inv.pruning i p)

-- An operation that transforms another keeps its own number and type.
abbrev Same : Op → Option (OpStack × Op) → Type 0
Same op none = Unit
Same op (some (s, q)) = (q.seq ≡ op.seq) × (q.typ ≡ op.typ)

transform_removed-Same :
    (o : Option OpStack) (existing op : Op) → Same op (transform_removed o existing op)
unfolding transform_removed
transform_removed-Same none existing op = tt
transform_removed-Same (some s) existing op = (refl, refl)

transform_found-Same :
    (s : OpStack) (op : Op) (i : ℕ) (o : Option Op) → Same op (transform_found s op i o)
unfolding transform_found
transform_found-Same s op i none = tt
transform_found-Same s op i (some existing) =
    elim (Bool-cases (is_rename existing.typ && existing.gen == s.gen)) [
      | inl c ↦ rw c (transform_removed-Same (remove_at s i) existing op)
      | inr c ↦ rw c tt
    ]

transform_at-Same : (s : OpStack) (op : Op) (o : Option ℕ) → Same op (transform_at s op o)
unfolding transform_at
transform_at-Same s op none = tt
transform_at-Same s op (some i) = elim (Bool-cases (suc i == length s.ops)) [
  | inl last ↦ rw last (transform_found-Same s op i (ops_at s.ops i))
  | inr c ↦ rw c tt
]

transform_next-Same :
    (again : OpStack → Op → OpStack × Op) (s : OpStack) (op : Op) (o : Option (OpStack × Op))
    → ((s2 : OpStack) (op2 : Op) → Same op2 (some (again s2 op2)))
    → Same op o
    → Same op (some (transform_next again s op o))
unfolding transform_next
transform_next-Same again s op none k h = (refl, refl)
transform_next-Same again s op (some (s2, op2)) k h = ((k s2 op2).0 ∙ h.0, (k s2 op2).1 ∙ h.1)

transform_loop-Same : (fuel : ℕ) (s : OpStack) (op : Op) → Same op (some (transform_loop fuel s op))
unfolding transform_loop delete_transform
transform_loop-Same zero s op = (refl, refl)
transform_loop-Same (suc fuel) s op =
    transform_next-Same (transform_loop fuel) s op (delete_transform s op)
      (transform_loop-Same fuel) (transform_at-Same s op _)

fold_delete-Records :
    (op : Op) (r : OpStack × Op) → Same op (some r) → Records op.seq op.typ (fold_delete r)
unfolding fold_delete
fold_delete-Records op (s, q) h =
    subst (λ (seq : ℕ). Records seq op.typ (fold_delete (s, q))) h.0
      (subst (λ (typ : OpType). Records q.seq typ (fold_delete (s, q))) h.1 (coalesce-Records s q))

as_typed :
    (op : Op) (typ : OpType) (o : Option OpStack)
    → op.typ ≡ typ
    → Records op.seq op.typ o
    → Records op.seq typ o
as_typed op typ o t h = subst (λ (u : OpType). Records op.seq u o) t h

fold_as-Records :
    (typ : OpType) (s : OpStack) (op : Op)
    → op.typ ≡ typ
    → IsKeyed s
    → Records op.seq typ (fold_as typ s op)
unfolding fold_as
fold_as-Records delete_file s op t inv = as_typed op delete_file _ t (
    fold_delete-Records op (transform_loop (suc (length s.ops)) s op)
      (transform_loop-Same (suc (length s.ops)) s op))
fold_as-Records rmdir s op t inv = as_typed op rmdir _ t (
    fold_delete-Records op (transform_loop (suc (length s.ops)) s op)
      (transform_loop-Same (suc (length s.ops)) s op))
fold_as-Records rename s op t inv = fold_rename-Records s op op.paths t
fold_as-Records chunk_prune s op t inv = fold_prune-Records s op s.prune_idx t inv refl
fold_as-Records release s op t inv =
    as_typed op release _ t (fold_release-Records s op (stack_path_key op))
fold_as-Records put_file s op t inv = as_typed op put_file _ t (coalesce-Records s op)
fold_as-Records mkdir s op t inv = as_typed op mkdir _ t (coalesce-Records s op)
fold_as-Records setattr s op t inv = as_typed op setattr _ t (coalesce-Records s op)
fold_as-Records truncate s op t inv = as_typed op truncate _ t (coalesce-Records s op)
fold_as-Records patch s op t inv = as_typed op patch _ t (coalesce-Records s op)
fold_as-Records xattr s op t inv = as_typed op xattr _ t (coalesce-Records s op)

pub append-Records : (s : OpStack) (op : Op) → IsKeyed s → Records (s.seq + 1) op.typ (append s op)
unfolding append fold stamp_stack stamp_op
append-Records s op inv =
    fold_as-Records op.typ (stamp_stack s op) (stamp_op s op) refl
      (record { keyed = inv.keyed; pruning = inv.pruning })
