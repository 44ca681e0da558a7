-- ===== src/OpStack/Recorded.antt =====
-- The operation that opStack.append records.
use storhub.Prelude.{
  ℕ, ◌+◌, true, ◌&&◌, ◌||◌, List, [], ◌∷◌, Option, none, some, ◌==◌, length, ◌≡◌, refl, sym, ap,
  ◌∙◌, subst, arith, Bool-cases, inl, inr, String,
}
use storhub.OpStack.{
  OpType, put_file, delete_file, mkdir, rmdir, rename, setattr, truncate, patch, xattr, release,
  chunk_prune, Op, PathKey, OpStack, stack_path_key, is_rename, is_release, is_state_class,
  is_delete_class,
}
use storhub.OpStack.Index.{
  ops_at, remove_at, index_as, index_op, index_rename, push, set_path, set_target,
}
use storhub.OpStack.Fold.{
  push_removed, coalesce_found, coalesce_at, coalesce_key, coalesce, chained, chain_into,
  rename_found, pruned, prune_found, release_found, release_at, fold_release,
}
use storhub.OpStack.Keys.{key_eq_refl, text_eq_refl}
use storhub.OpStack.Points.{Holds, ops_at-push, ops_at-set_at-same}
use storhub.OpStack.Sealed.{push-ops}
use storhub.OpStack.Keyed.{IsPrune}

-- The index finds the position under the key, where there is one.
abbrev pub Marked : Option PathKey → (PathKey → Option ℕ) → ℕ → Type 0
Marked none m i = Unit
Marked (some k) m i = m k ≡ some i

-- byTarget finds it under the new path of a rename, which has two paths.
abbrev pub TargetAt : List String → (String → Option ℕ) → ℕ → Type 0
TargetAt (from ∷ to ∷ []) m i = m to ≡ some i
TargetAt _ m i = Unit

abbrev pub IndexedAs : OpType → OpStack → Op → ℕ → Type 0
IndexedAs rename s q i = TargetAt q.paths s.by_target i
IndexedAs chunk_prune s q i = s.prune_idx ≡ some i
IndexedAs _ s q i = Marked (stack_path_key q) s.by_path i

-- The stack, where there is one, holds an operation of this sequence number and type, and its index
-- finds it.
abbrev pub Records : ℕ → OpType → Option OpStack → Type 0
Records seq typ none = Unit
Records seq typ (some s) =
    (i : ℕ) × (q : Op) × (ops_at s.ops i ≡ some q)
    × (q.seq ≡ seq)
    × (q.typ ≡ typ)
    × IndexedAs typ s q i

set_path-Marked :
    (m : PathKey → Option ℕ) (key : Option PathKey) (i : ℕ) → Marked key (set_path m key i) i
unfolding set_path
set_path-Marked m none i = tt
set_path-Marked m (some k) i = rw (key_eq_refl k) refl

index_rename-TargetAt :
    (s : OpStack) (paths : List String) (i : ℕ)
    → TargetAt paths (index_rename s paths i).by_target i
unfolding index_rename set_target
index_rename-TargetAt s [] i = tt
index_rename-TargetAt s (a ∷ []) i = tt
index_rename-TargetAt s (a ∷ b ∷ []) i = rw (text_eq_refl b) refl
index_rename-TargetAt s (a ∷ b ∷ c ∷ rest) i = tt

index_as-IndexedAs :
    (typ : OpType) (s : OpStack) (op : Op) (i : ℕ) → IndexedAs typ (index_as typ s op i) op i
unfolding index_as
index_as-IndexedAs rename s op i = index_rename-TargetAt s op.paths i
index_as-IndexedAs chunk_prune s op i = refl
index_as-IndexedAs put_file s op i = set_path-Marked s.by_path (stack_path_key op) i
index_as-IndexedAs delete_file s op i = set_path-Marked s.by_path (stack_path_key op) i
index_as-IndexedAs mkdir s op i = set_path-Marked s.by_path (stack_path_key op) i
index_as-IndexedAs rmdir s op i = set_path-Marked s.by_path (stack_path_key op) i
index_as-IndexedAs setattr s op i = set_path-Marked s.by_path (stack_path_key op) i
index_as-IndexedAs truncate s op i = set_path-Marked s.by_path (stack_path_key op) i
index_as-IndexedAs patch s op i = set_path-Marked s.by_path (stack_path_key op) i
index_as-IndexedAs xattr s op i = set_path-Marked s.by_path (stack_path_key op) i
index_as-IndexedAs release s op i = set_path-Marked s.by_path (stack_path_key op) i

push_at : (s : OpStack) (op : Op) → ops_at (push s op).ops (length s.ops) ≡ some op
push_at s op =
    ap (λ (ops : List Op). ops_at ops (length s.ops)) (push-ops s op) ∙ ops_at-push s.ops op

pub push-Records : (s : OpStack) (op : Op) → Records op.seq op.typ (some (push s op))
push-Records s op = (
  length s.ops,
  op,
  push_at s op,
  refl,
  refl,
  unfold push index_op in index_as-IndexedAs op.typ _ op (length s.ops),
)

push_removed-Records : (o : Option OpStack) (op : Op) → Records op.seq op.typ (push_removed o op)
unfolding push_removed
push_removed-Records none op = tt
push_removed-Records (some s) op = push-Records s op

coalesce_found-Records :
    (s : OpStack) (op : Op) (i : ℕ) (o : Option Op)
    → Records op.seq op.typ (coalesce_found s op i o)
unfolding coalesce_found
coalesce_found-Records s op i none = tt
coalesce_found-Records s op i (some existing) =
    elim (Bool-cases (is_state_class existing.typ || is_delete_class existing.typ)) [
      | inl c ↦
          rw c
            (push_removed-Records (remove_at s i) record op { times = op.times + existing.times })
      | inr c ↦ rw c (push-Records s op)
    ]

coalesce_at-Records :
    (s : OpStack) (op : Op) (o : Option ℕ) → Records op.seq op.typ (coalesce_at s op o)
unfolding coalesce_at
coalesce_at-Records s op none = push-Records s op
coalesce_at-Records s op (some i) = coalesce_found-Records s op i (ops_at s.ops i)

coalesce_key-Records :
    (s : OpStack) (op : Op) (o : Option PathKey) → Records op.seq op.typ (coalesce_key s op o)
unfolding coalesce_key
coalesce_key-Records s op none = push-Records s op
coalesce_key-Records s op (some k) = coalesce_at-Records s op (s.by_path k)

pub coalesce-Records : (s : OpStack) (op : Op) → Records op.seq op.typ (coalesce s op)
unfolding coalesce
coalesce-Records s op = coalesce_key-Records s op (stack_path_key op)

release_found-Records :
    (s : OpStack) (op : Op) (i : ℕ) (o : Option Op) → Records op.seq op.typ (release_found s op i o)
unfolding release_found
release_found-Records s op i none = tt
release_found-Records s op i (some existing) = elim (Bool-cases (is_release existing.typ)) [
  | inl c ↦
      rw c (push_removed-Records (remove_at s i) record op { times = op.times + existing.times })
  | inr c ↦ rw c (push-Records s op)
]

pub fold_release-Records :
    (s : OpStack) (op : Op) (o : Option PathKey) → Records op.seq op.typ (fold_release s op o)
unfolding fold_release release_at
fold_release-Records s op none = push-Records s op
fold_release-Records s op (some k) =
    elim (s.by_path k) as (λ (o : Option ℕ). Records op.seq op.typ (release_at s op o)) [
      | none ↦ push-Records s op
      | some i ↦ release_found-Records s op i (ops_at s.ops i)
    ]

pub prune_found-Records :
    (s : OpStack) (op : Op) (i : ℕ) (o : Option Op)
    → s.prune_idx ≡ some i
    → ops_at s.ops i ≡ o
    → Holds IsPrune s.ops i
    → Records op.seq chunk_prune (prune_found s op i o)
unfolding prune_found pruned
prune_found-Records s op i none p at h = tt
prune_found-Records s op i (some existing) p at (q, there, typ) = (
  i,
  pruned existing op,
  unfold pruned in ops_at-set_at-same s.ops i existing (pruned existing op) at,
  refl,
  ap typ_of (sym at ∙ there) ∙ typ,
  p,
)
  where
    typ_of : Option Op → OpType
    typ_of none = chunk_prune
    typ_of (some r) = r.typ

rename_type : (typ : OpType) → is_rename typ ≡ true → typ ≡ rename
unfolding is_rename
rename_type rename h = refl
rename_type put_file h = ground (arith, h)
rename_type delete_file h = ground (arith, h)
rename_type mkdir h = ground (arith, h)
rename_type rmdir h = ground (arith, h)
rename_type setattr h = ground (arith, h)
rename_type truncate h = ground (arith, h)
rename_type patch h = ground (arith, h)
rename_type xattr h = ground (arith, h)
rename_type release h = ground (arith, h)
rename_type chunk_prune h = ground (arith, h)

chained-TargetAt :
    (paths : List String) (m : String → Option ℕ) (to : String) (i : ℕ)
    → TargetAt (elim paths [ [] ↦ [] | p ∷ ps ↦ p ∷ to ∷ [] ]) (set_target m to i) i
unfolding set_target
chained-TargetAt [] m to i = tt
chained-TargetAt (p ∷ ps) m to i = rw (text_eq_refl to) refl

pub rename_found-Records :
    (s : OpStack) (op : Op) (to : String) (i : ℕ) (o : Option Op)
    → op.typ ≡ rename
    → ops_at s.ops i ≡ o
    → Records op.seq rename (some (rename_found s op to i o))
unfolding rename_found chain_into chained
rename_found-Records s op to i none t at =
    subst (λ (typ : OpType). Records op.seq typ (some (push s op))) t (push-Records s op)
rename_found-Records s op to i (some existing) t at =
    elim (Bool-cases (is_rename existing.typ && existing.gen == s.gen)) [
      | inl c ↦ rw c (
        i,
        chained existing op to,
        unfold chained in ops_at-set_at-same s.ops i existing (chained existing op to) at,
        refl,
        rename_type existing.typ (ground (arith, c)),
        chained-TargetAt existing.paths _ to i,
      )
      | inr c ↦
          rw c
            (subst (λ (typ : OpType). Records op.seq typ (some (push s op))) t (push-Records s op))
    ]
