-- ===== src/OpStack/Preserved.antt =====
-- The branches of opStack.append and the index maps.
use storhub.Prelude.{
  ℕ, false, ◌||◌, List, Option, none, some, ◌≡◌, refl, sym, ap, ◌∙◌, arith, Bool-cases, inl, inr,
}
use storhub.OpStack.{
  OpType, put_file, delete_file, mkdir, rmdir, rename, setattr, truncate, patch, xattr, release,
  chunk_prune, Op, PathKey, FileMeta, OpStack, stack_path_key, path_key_as, is_rename, is_release,
  is_state_class, is_delete_class, file_or_dir_key, file_path_key, dir_path_key,
}
use storhub.OpStack.Index.{ops_at, set_at, removed, remove_at, push}
use storhub.OpStack.Fold.{
  push_removed, coalesce_found, coalesce_at, coalesce_key, coalesce, pruned, prune_found,
  fold_prune, release_found, release_at, fold_release,
}
use storhub.OpStack.Boundary.{test_found}
use storhub.OpStack.Points.{Holds, shift-Holds, shift_prune-Holds, set_at-Holds}
use storhub.OpStack.Sealed.{remove_at-found}
use storhub.OpStack.Transform.{Consumes}
use storhub.OpStack.Keyed.{HasKey, IsPrune, IsKeyed, push-IsKeyed, rename_key}

abbrev found_key : Option Op → Option PathKey
found_key none = none
found_key (some op) = stack_path_key op

abbrev found_typ : Option Op → OpType
found_typ none = put_file
found_typ (some op) = op.typ

-- One position holds one operation.
same_key :
    (ops : List Op) (i : ℕ) (a b : Op)
    → ops_at ops i ≡ some a
    → ops_at ops i ≡ some b
    → stack_path_key a ≡ stack_path_key b
same_key ops i a b ea eb = ap found_key (sym ea ∙ eb)

same_rename :
    (ops : List Op) (i : ℕ) (a b : Op)
    → ops_at ops i ≡ some a
    → ops_at ops i ≡ some b
    → is_rename a.typ ≡ is_rename b.typ
same_rename ops i a b ea eb = ap (test_found (λ q. is_rename q.typ)) (sym ea ∙ eb)

HasKey-rename : (k : PathKey) (op : Op) → HasKey k op → is_rename op.typ ≡ false
unfolding stack_path_key
HasKey-rename k op h = rename_key op.typ op k h

pub removed_rename-IsKeyed :
    (s : OpStack) (op existing : Op) (i : ℕ)
    → Consumes s op i existing
    → IsKeyed s
    → IsKeyed (removed s i existing)
unfolding removed
removed_rename-IsKeyed s op existing i c inv = record {
  keyed = λ k j h. elim (shift-Holds (HasKey k) s.ops i (s.by_path k) j (inv.keyed k) h) [
    | inl hit ↦
        let (q, at, key) = inv.keyed k i hit in
        absurd (ground (arith, same_rename s.ops i q existing at c.1, c.2, HasKey-rename k q key))
    | inr there ↦ there
  ];
  pruning = λ j h. shift_prune-Holds IsPrune s.ops i s.prune_idx j inv.pruning h;
}

file_or_dir_key-times :
    (f : Option FileMeta) (op : Op) (n : ℕ)
    → file_or_dir_key f (record op { times = n }) ≡ file_or_dir_key f op
unfolding file_or_dir_key file_path_key dir_path_key
file_or_dir_key-times none op n = refl
file_or_dir_key-times (some f) op n = refl

path_key_as-times :
    (typ : OpType) (op : Op) (n : ℕ)
    → path_key_as typ (record op { times = n }) ≡ path_key_as typ op
unfolding path_key_as file_path_key dir_path_key
path_key_as-times setattr op n = file_or_dir_key-times op.file op n
path_key_as-times xattr op n = file_or_dir_key-times op.file op n
path_key_as-times put_file op n = refl
path_key_as-times delete_file op n = refl
path_key_as-times mkdir op n = refl
path_key_as-times rmdir op n = refl
path_key_as-times rename op n = refl
path_key_as-times truncate op n = refl
path_key_as-times patch op n = refl
path_key_as-times release op n = refl
path_key_as-times chunk_prune op n = refl

-- The answer is a stack with a right index.
abbrev pub Indexes : Option OpStack → Type 0
Indexes r = (s' : OpStack) × (r ≡ some s') × IsKeyed s'

pub push-Indexes : (s : OpStack) (op : Op) → IsKeyed s → Indexes (some (push s op))
push-Indexes s op inv =
    (push s op, refl, push-IsKeyed s op (λ k j h. inr (inv.keyed k j h)) inv.pruning)

-- An operation takes the place of the one with its key.
replaced-Indexes :
    (s : OpStack) (op existing : Op) (i n : ℕ) (key : PathKey)
    → IsKeyed s
    → HasKey key op
    → s.by_path key ≡ some i
    → ops_at s.ops i ≡ some existing
    → Indexes (push_removed (remove_at s i) (record op { times = n }))
unfolding push_removed removed
replaced-Indexes s op existing i n key inv has at_key at = rw (remove_at-found s i existing at) (
  _,
  refl,
  push-IsKeyed (removed s i existing) (record op { times = n })
      (λ k j h. elim (shift-Holds (HasKey k) s.ops i (s.by_path k) j (inv.keyed k) h) [
        | inl hit ↦
            let (q, at_q, key_q) = inv.keyed k i hit in
            let (r, at_r, key_r) = inv.keyed key i at_key in
            inl (
              unfold stack_path_key in
              path_key_as-times op.typ op n
              ∙ has
              ∙ sym key_r
              ∙ same_key s.ops i r q at_r at_q
              ∙ key_q)
        | inr there ↦ inr there
      ])
      (λ j h. shift_prune-Holds IsPrune s.ops i s.prune_idx j inv.pruning h),
)

coalesce_found-Indexes :
    (s : OpStack) (op existing : Op) (i : ℕ) (key : PathKey)
    → IsKeyed s
    → HasKey key op
    → s.by_path key ≡ some i
    → ops_at s.ops i ≡ some existing
    → Indexes (coalesce_found s op i (some existing))
unfolding coalesce_found
coalesce_found-Indexes s op existing i key inv has at_key at =
    elim (Bool-cases (is_state_class existing.typ || is_delete_class existing.typ)) [
      | inl c ↦ rw c (replaced-Indexes s op existing i _ key inv has at_key at)
      | inr c ↦ rw c (push-Indexes s op inv)
    ]

release_found-Indexes :
    (s : OpStack) (op existing : Op) (i : ℕ) (key : PathKey)
    → IsKeyed s
    → HasKey key op
    → s.by_path key ≡ some i
    → ops_at s.ops i ≡ some existing
    → Indexes (release_found s op i (some existing))
unfolding release_found
release_found-Indexes s op existing i key inv has at_key at =
    elim (Bool-cases (is_release existing.typ)) [
      | inl c ↦ rw c (replaced-Indexes s op existing i _ key inv has at_key at)
      | inr c ↦ rw c (push-Indexes s op inv)
    ]

coalesce_at-Indexes :
    (s : OpStack) (op : Op) (key : PathKey) (o : Option ℕ)
    → IsKeyed s
    → HasKey key op
    → s.by_path key ≡ o
    → Indexes (coalesce_at s op o)
unfolding coalesce_at
coalesce_at-Indexes s op key none inv has e = push-Indexes s op inv
coalesce_at-Indexes s op key (some i) inv has e =
    let (existing, at, k) = inv.keyed key i e in
    rw at (coalesce_found-Indexes s op existing i key inv has e at)

release_at-Indexes :
    (s : OpStack) (op : Op) (key : PathKey) (o : Option ℕ)
    → IsKeyed s
    → HasKey key op
    → s.by_path key ≡ o
    → Indexes (release_at s op o)
unfolding release_at
release_at-Indexes s op key none inv has e = push-Indexes s op inv
release_at-Indexes s op key (some i) inv has e =
    let (existing, at, k) = inv.keyed key i e in
    rw at (release_found-Indexes s op existing i key inv has e at)

coalesce_key-Indexes :
    (s : OpStack) (op : Op) (o : Option PathKey)
    → IsKeyed s
    → stack_path_key op ≡ o
    → Indexes (coalesce_key s op o)
unfolding coalesce_key
coalesce_key-Indexes s op none inv e = push-Indexes s op inv
coalesce_key-Indexes s op (some key) inv e = coalesce_at-Indexes s op key (s.by_path key) inv e refl

pub fold_release-Indexes :
    (s : OpStack) (op : Op) (o : Option PathKey)
    → IsKeyed s
    → stack_path_key op ≡ o
    → Indexes (fold_release s op o)
unfolding fold_release
fold_release-Indexes s op none inv e = push-Indexes s op inv
fold_release-Indexes s op (some key) inv e = release_at-Indexes s op key (s.by_path key) inv e refl

pub coalesce-Indexes : (s : OpStack) (op : Op) → IsKeyed s → Indexes (coalesce s op)
unfolding coalesce
coalesce-Indexes s op inv = coalesce_key-Indexes s op (stack_path_key op) inv refl

-- An operation without a key is replaced by another of its type.
pub set_at-IsKeyed :
    (s : OpStack) (i : ℕ) (old new : Op)
    → IsKeyed s
    → ops_at s.ops i ≡ some old
    → stack_path_key old ≡ none
    → old.typ ≡ new.typ
    → ((k : PathKey) (j : ℕ) → s.by_path k ≡ some j → Holds (HasKey k) (set_at s.ops i new) j)
      × ((j : ℕ) → s.prune_idx ≡ some j → Holds IsPrune (set_at s.ops i new) j)
set_at-IsKeyed s i old new inv at keyless typ = (
  λ k j h.
      set_at-Holds (HasKey k) s.ops i j old new at
        (λ q at_q key. ground (arith, sym key ∙ same_key s.ops i q old at_q at ∙ keyless))
        (inv.keyed k j h),
  λ j h.
      set_at-Holds IsPrune s.ops i j old new at
        (λ q at_q prune. sym typ ∙ ap found_typ (sym at ∙ at_q) ∙ prune) (inv.pruning j h),
)

prune_found-Indexes :
    (s : OpStack) (op existing : Op) (i : ℕ)
    → IsKeyed s
    → ops_at s.ops i ≡ some existing
    → IsPrune existing
    → Indexes (prune_found s op i (some existing))
unfolding prune_found pruned stack_path_key path_key_as
prune_found-Indexes s op existing i inv at prune =
    let (keys, prunes) =
      set_at-IsKeyed s i existing (pruned existing op) inv at
        (ap (λ t. path_key_as t existing) prune) refl in
    (_, refl, record { keyed = keys; pruning = prunes })

pub fold_prune-Indexes :
    (s : OpStack) (op : Op) (o : Option ℕ)
    → IsKeyed s
    → s.prune_idx ≡ o
    → Indexes (fold_prune s op o)
unfolding fold_prune
fold_prune-Indexes s op none inv e = push-Indexes s op inv
fold_prune-Indexes s op (some i) inv e =
    let (existing, at, prune) = inv.pruning i e in
    rw at (prune_found-Indexes s op existing i inv at prune)
