-- ===== src/OpStack/Sealed.antt =====
-- The renames of older generations, which a commit in flight publishes, and the pushes of append.
use storhub.Prelude.{
  ℕ, Bool, false, ◌&&◌, ◌||◌, List, [], ◌∷◌, ◌++◌, Option, some, ltb, length, ◌≡◌, refl, ap, ◌∙◌,
  arith, Bool-cases, inl, inr, String,
}
use storhub.OpStack.{
  OpType, put_file, delete_file, mkdir, rmdir, rename, setattr, truncate, patch, xattr, release,
  chunk_prune, Op, PathKey, OpStack, is_rename, is_release, is_state_class, is_delete_class,
}
use storhub.OpStack.Index.{
  ops_at, removed, remove_at, remove_found, index_as, index_op, index_rename, push,
}
use storhub.OpStack.Fold.{push_removed, coalesce_found, release_found}
use storhub.OpStack.Boundary.{passing, passing-push, passing-without}

-- A rename of a generation before `gen`.
abbrev pub is_sealed : ℕ → Op → Bool
is_sealed gen op = is_rename op.typ && ltb op.gen gen

-- The operation at a position, which is no rename.
abbrev pub IsOther : OpStack → ℕ → Type 0
IsOther s i = (op : Op) × (ops_at s.ops i ≡ some op) × (is_rename op.typ ≡ false)

-- The index of the paths and of the prune operation points at operations of the stack that are no
-- renames.
pub record IsIndexed (s : OpStack) : Type 0 where
  pub path_at : (k : PathKey) (i : ℕ) → s.by_path k ≡ some i → IsOther s i
  pub prune_at : (i : ℕ) → s.prune_idx ≡ some i → IsOther s i

-- The answer is a stack with these sealed renames.
abbrev pub Keeps : ℕ → List Op → Option OpStack → Type 0
Keeps gen renames r = (s' : OpStack) × (r ≡ some s') × (passing (is_sealed gen) s'.ops ≡ renames)

index_rename-ops :
    (s : OpStack) (paths : List String) (i : ℕ) → (index_rename s paths i).ops ≡ s.ops
unfolding index_rename
index_rename-ops s [] i = refl
index_rename-ops s (a ∷ []) i = refl
index_rename-ops s (a ∷ b ∷ []) i = refl
index_rename-ops s (a ∷ b ∷ c ∷ rest) i = refl

pub index_as-ops :
    (typ : OpType) (s : OpStack) (op : Op) (i : ℕ) → (index_as typ s op i).ops ≡ s.ops
unfolding index_as
index_as-ops rename s op i = index_rename-ops s op.paths i
index_as-ops chunk_prune s op i = refl
index_as-ops put_file s op i = refl
index_as-ops delete_file s op i = refl
index_as-ops mkdir s op i = refl
index_as-ops rmdir s op i = refl
index_as-ops setattr s op i = refl
index_as-ops truncate s op i = refl
index_as-ops patch s op i = refl
index_as-ops xattr s op i = refl
index_as-ops release s op i = refl

pub push-ops : (s : OpStack) (op : Op) → (push s op).ops ≡ s.ops ++ op ∷ []
unfolding push index_op
push-ops s op = index_as-ops op.typ _ op (length s.ops)

-- An operation of the open generation is not sealed.
pub unsealed_if_open : (gen : ℕ) (op : Op) → op.gen ≡ gen → is_sealed gen op ≡ false
unsealed_if_open gen op h = ground (arith, h)

pub unsealed_unless_rename :
    (gen : ℕ) (op : Op) → is_rename op.typ ≡ false → is_sealed gen op ≡ false
unsealed_unless_rename gen op h = rw h refl

pub push-Keeps :
    (gen : ℕ) (s : OpStack) (op : Op) (renames : List Op)
    → op.gen ≡ gen
    → passing (is_sealed gen) s.ops ≡ renames
    → Keeps gen renames (some (push s op))
push-Keeps gen s op renames h k = (
  push s op,
  refl,
  ap (passing (is_sealed gen)) (push-ops s op)
      ∙ passing-push (is_sealed gen) s.ops op (unsealed_if_open gen op h)
      ∙ k,
)

pub remove_at-found :
    (s : OpStack) (i : ℕ) (op : Op)
    → ops_at s.ops i ≡ some op
    → remove_at s i ≡ some (removed s i op)
unfolding remove_at remove_found
remove_at-found s i op h = rw h refl

pub coalesce_found-Keeps :
    (gen : ℕ) (s : OpStack) (op : Op) (i : ℕ) (existing : Op) (renames : List Op)
    → op.gen ≡ gen
    → passing (is_sealed gen) s.ops ≡ renames
    → ops_at s.ops i ≡ some existing
    → is_rename existing.typ ≡ false
    → Keeps gen renames (coalesce_found s op i (some existing))
unfolding coalesce_found push_removed
coalesce_found-Keeps gen s op i existing renames h k e n =
    elim (Bool-cases (is_state_class existing.typ || is_delete_class existing.typ)) [
      | inl c ↦
          rw (c, remove_at-found s i existing e)
            (push-Keeps gen (removed s i existing) _ renames h (
              unfold removed in
              passing-without (is_sealed gen) s.ops i existing e
                (unsealed_unless_rename gen existing n)
              ∙ k))
      | inr c ↦ rw c (push-Keeps gen s op renames h k)
    ]

pub release_found-Keeps :
    (gen : ℕ) (s : OpStack) (op : Op) (i : ℕ) (existing : Op) (renames : List Op)
    → op.gen ≡ gen
    → passing (is_sealed gen) s.ops ≡ renames
    → ops_at s.ops i ≡ some existing
    → is_rename existing.typ ≡ false
    → Keeps gen renames (release_found s op i (some existing))
unfolding release_found push_removed
release_found-Keeps gen s op i existing renames h k e n =
    elim (Bool-cases (is_release existing.typ)) [
      | inl c ↦
          rw (c, remove_at-found s i existing e)
            (push-Keeps gen (removed s i existing) _ renames h (
              unfold removed in
              passing-without (is_sealed gen) s.ops i existing e
                (unsealed_unless_rename gen existing n)
              ∙ k))
      | inr c ↦ rw c (push-Keeps gen s op renames h k)
    ]
