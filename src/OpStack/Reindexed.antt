-- ===== src/OpStack/Reindexed.antt =====
-- The index maps that opStack.reindex and clearUpTo build.
use storhub.Prelude.{
  ℕ, suc, ◌+◌, ◌<◌, List, [], ◌∷◌, none, some, ltb, ◌≡◌, refl, sym, ap, ◌∙◌, arith, inl, inr, All,
  Bool-cases,
}
use storhub.OpStack.{Op, OpStack}
use storhub.OpStack.Index.{ops_at, index_op, reindex_loop, reindex, newer, clear_up_to, total_bytes}
use storhub.OpStack.Sealed.{index_as-ops}
use storhub.OpStack.Keyed.{IsKeyed, index_as-Entry, index_as-prune}

-- The operations stand in the stack from a position on.
abbrev StandsAt : OpStack → List Op → ℕ → Type 0
StandsAt s ops i = (m : ℕ) (q : Op) → ops_at ops m ≡ some q → ops_at s.ops (i + m) ≡ some q

index_op-IsKeyed :
    (s : OpStack) (op : Op) (i : ℕ)
    → IsKeyed s
    → ops_at s.ops i ≡ some op
    → IsKeyed (index_op s op i)
unfolding index_op
index_op-IsKeyed s op i inv at =
    let same = index_as-ops op.typ s op i in
    record {
      keyed = λ k j h. elim (index_as-Entry op.typ s op i k j refl h) [
        | inl (new, key) ↦ rw (same, new) (op, at, key)
        | inr (old, apart) ↦ rw same (inv.keyed k j old)
      ];
      pruning = λ j h. elim (index_as-prune op.typ s op i j h) [
        | inl (new, typ) ↦ rw (same, new) (op, at, typ)
        | inr old ↦ rw same (inv.pruning j old)
      ];
    }

index_op-ops : (s : OpStack) (op : Op) (i : ℕ) → (index_op s op i).ops ≡ s.ops
unfolding index_op
index_op-ops s op i = index_as-ops op.typ s op i

reindex_loop-ops : (s : OpStack) (ops : List Op) (i : ℕ) → (reindex_loop s ops i).ops ≡ s.ops
unfolding reindex_loop
reindex_loop-ops s [] i = refl
reindex_loop-ops s (op ∷ ops) i =
    reindex_loop-ops (index_op s op i) ops (i + 1) ∙ index_op-ops s op i

reindex_loop-IsKeyed :
    (s : OpStack) (ops : List Op) (i : ℕ)
    → IsKeyed s
    → StandsAt s ops i
    → IsKeyed (reindex_loop s ops i)
unfolding reindex_loop ops_at
reindex_loop-IsKeyed s [] i inv at = inv
reindex_loop-IsKeyed s (op ∷ ops) i inv at =
    reindex_loop-IsKeyed (index_op s op i) ops (i + 1)
      (index_op-IsKeyed s op i inv (ap (ops_at s.ops) (omega arith) ∙ at 0 op refl))
      (λ m q h.
        ap (λ os. ops_at os (i + 1 + m)) (index_op-ops s op i)
        ∙ ap (ops_at s.ops) (omega arith)
        ∙ at (suc m) q h)

reindex-IsKeyed :
    (s : OpStack)
    → IsKeyed (reindex s) × ((reindex s).ops ≡ s.ops) × ((reindex s).bytes ≡ total_bytes s.ops)
unfolding reindex
reindex-IsKeyed s =
    let fresh = record s { by_path = λ k. none; by_target = λ p. none; prune_idx = none } in
    let inv =
      reindex_loop-IsKeyed fresh s.ops 0
        (record { keyed = λ k i h. ground (arith, h); pruning = λ i h. ground (arith, h) })
        (λ m q h. ap (ops_at s.ops) (omega arith) ∙ h) in
    (record { keyed = inv.keyed; pruning = inv.pruning }, reindex_loop-ops fresh s.ops 0, refl)

newer-All : (seq : ℕ) (ops : List Op) → All (λ (op : Op). seq < op.seq) (newer seq ops)
unfolding newer
newer-All seq [] = tt
newer-All seq (op ∷ ops) = elim (Bool-cases (ltb seq op.seq)) [
  | inl h ↦ rw h (ground (arith, h), newer-All seq ops)
  | inr h ↦ rw h (newer-All seq ops)
]

-- clearUpTo leaves a right index and an exact byte count for any stack, and only operations past the
-- given sequence number.
pub clear_up_to-IsKeyed :
    (s : OpStack) (seq : ℕ)
    → IsKeyed (clear_up_to s seq)
      × ((clear_up_to s seq).bytes ≡ total_bytes (clear_up_to s seq).ops)
      × All (λ (op : Op). seq < op.seq) (clear_up_to s seq).ops
unfolding clear_up_to
clear_up_to-IsKeyed s seq =
    let kept = record s { ops = newer seq s.ops; bytes = total_bytes (newer seq s.ops) } in
    let (inv, same, count) = reindex-IsKeyed kept in
    (inv, count ∙ ap total_bytes (sym same), rw same (newer-All seq s.ops))
