-- ===== src/OpStack/Keyed.antt =====
-- When the index maps of the stack are right: each entry of byPath points at an operation with its
-- key, and pruneIdx at the prune operation.
use storhub.Prelude.{
  ℕ, Bool, true, false, List, [], ◌∷◌, ◌++◌, Option, none, some, length, ◌≡◌, ◌⊎◌, refl, sym, ap,
  ◌∙◌, arith, Bool-cases, inl, inr, if-true, if-false, String,
}
use storhub.OpStack.{
  OpType, put_file, delete_file, mkdir, rmdir, rename, setattr, truncate, patch, xattr, release,
  chunk_prune, Op, PathKey, OpStack, stack_path_key, path_key_as, is_rename, key_eq,
}
use storhub.OpStack.Index.{index_as, index_op, index_rename, push, set_path}
use storhub.OpStack.Keys.{key_eq→≡, key_eq_refl}
use storhub.OpStack.Points.{Holds, ops_at-append, ops_at-push}
use storhub.OpStack.Sealed.{IsIndexed, push-ops}

-- The operation stands in byPath under the key.
abbrev pub HasKey : PathKey → Op → Type 0
HasKey k op = stack_path_key op ≡ some k

abbrev pub IsPrune : Op → Type 0
IsPrune op = op.typ ≡ chunk_prune

pub record IsKeyed (s : OpStack) : Type 0 where
  pub keyed : (k : PathKey) (i : ℕ) → s.by_path k ≡ some i → Holds (HasKey k) s.ops i
  pub pruning : (i : ℕ) → s.prune_idx ≡ some i → Holds IsPrune s.ops i

pub rename_key :
    (typ : OpType) (op : Op) (k : PathKey) → path_key_as typ op ≡ some k → is_rename typ ≡ false
unfolding path_key_as is_rename
rename_key rename op k h = ground (arith, h)
rename_key chunk_prune op k h = refl
rename_key put_file op k h = refl
rename_key delete_file op k h = refl
rename_key mkdir op k h = refl
rename_key rmdir op k h = refl
rename_key setattr op k h = refl
rename_key truncate op k h = refl
rename_key patch op k h = refl
rename_key xattr op k h = refl
rename_key release op k h = refl

pub prune_rename : (typ : OpType) → typ ≡ chunk_prune → is_rename typ ≡ false
unfolding is_rename
prune_rename typ h = rw h refl

pub IsKeyed-IsIndexed : (s : OpStack) → IsKeyed s → IsIndexed s
unfolding stack_path_key
IsKeyed-IsIndexed s inv = record {
  path_at = λ k i h. let (op, at, p) = inv.keyed k i h in (op, at, rename_key op.typ op k p);
  prune_at = λ i h. let (op, at, p) = inv.pruning i h in (op, at, prune_rename op.typ p);
}

index_rename-by_path :
    (s : OpStack) (paths : List String) (i : ℕ) (k : PathKey)
    → (index_rename s paths i).by_path k ≡ s.by_path k
unfolding index_rename
index_rename-by_path s [] i k = refl
index_rename-by_path s (a ∷ []) i k = refl
index_rename-by_path s (a ∷ b ∷ []) i k = refl
index_rename-by_path s (a ∷ b ∷ c ∷ rest) i k = refl

index_rename-prune_idx :
    (s : OpStack) (paths : List String) (i : ℕ) → (index_rename s paths i).prune_idx ≡ s.prune_idx
unfolding index_rename
index_rename-prune_idx s [] i = refl
index_rename-prune_idx s (a ∷ []) i = refl
index_rename-prune_idx s (a ∷ b ∷ []) i = refl
index_rename-prune_idx s (a ∷ b ∷ c ∷ rest) i = refl

-- An entry of byPath after an operation is indexed: the new one, or an old one of another key.
abbrev pub Entry : OpStack → Op → ℕ → PathKey → ℕ → Type 0
Entry s op i k j =
    ((j ≡ i) × HasKey k op)
    ⊎ ((s.by_path k ≡ some j) × ((l : PathKey) → HasKey l op → key_eq k l ≡ false))

abbrev position : Option ℕ → ℕ
position none = 0
position (some j) = j

abbrev matches : PathKey → Option PathKey → Bool
matches k none = true
matches k (some l) = key_eq k l

set_path-Entry :
    (m : PathKey → Option ℕ) (key : Option PathKey) (i : ℕ) (k : PathKey) (j : ℕ)
    → set_path m key i k ≡ some j
    → ((j ≡ i) × (key ≡ some k))
      ⊎ ((m k ≡ some j) × ((l : PathKey) → key ≡ some l → key_eq k l ≡ false))
unfolding set_path
set_path-Entry m none i k j h = inr (h, λ l e. ground (arith, e))
set_path-Entry m (some key) i k j h = elim (Bool-cases (key_eq k key)) [
  | inl same ↦ inl (
    sym (ap position (sym (if-true {b = key_eq k key} _ _ same) ∙ h)),
    ap some (sym (key_eq→≡ k key same)),
  )
  | inr apart ↦
      inr (sym (if-false {b = key_eq k key} _ _ apart) ∙ h, λ l e. ap (matches k) (sym e) ∙ apart)
]

no_key :
    (op : Op) (k : PathKey) (l : PathKey) (typ : OpType)
    → op.typ ≡ typ
    → path_key_as typ op ≡ none
    → HasKey l op
    → key_eq k l ≡ false
unfolding stack_path_key
no_key op k l typ t n e = ground (arith, sym n ∙ ap (λ q. path_key_as q op) (sym t) ∙ e)

pub index_as-Entry :
    (typ : OpType) (s : OpStack) (op : Op) (i : ℕ) (k : PathKey) (j : ℕ)
    → op.typ ≡ typ
    → (index_as typ s op i).by_path k ≡ some j
    → Entry s op i k j
unfolding index_as path_key_as
index_as-Entry rename s op i k j t h =
    inr (sym (index_rename-by_path s op.paths i k) ∙ h, λ l e. no_key op k l rename t refl e)
index_as-Entry chunk_prune s op i k j t h = inr (h, λ l e. no_key op k l chunk_prune t refl e)
index_as-Entry put_file s op i k j t h = set_path-Entry s.by_path (stack_path_key op) i k j h
index_as-Entry delete_file s op i k j t h = set_path-Entry s.by_path (stack_path_key op) i k j h
index_as-Entry mkdir s op i k j t h = set_path-Entry s.by_path (stack_path_key op) i k j h
index_as-Entry rmdir s op i k j t h = set_path-Entry s.by_path (stack_path_key op) i k j h
index_as-Entry setattr s op i k j t h = set_path-Entry s.by_path (stack_path_key op) i k j h
index_as-Entry truncate s op i k j t h = set_path-Entry s.by_path (stack_path_key op) i k j h
index_as-Entry patch s op i k j t h = set_path-Entry s.by_path (stack_path_key op) i k j h
index_as-Entry xattr s op i k j t h = set_path-Entry s.by_path (stack_path_key op) i k j h
index_as-Entry release s op i k j t h = set_path-Entry s.by_path (stack_path_key op) i k j h

-- pruneIdx after an operation is indexed.
pub index_as-prune :
    (typ : OpType) (s : OpStack) (op : Op) (i j : ℕ)
    → (index_as typ s op i).prune_idx ≡ some j
    → ((j ≡ i) × (typ ≡ chunk_prune)) ⊎ (s.prune_idx ≡ some j)
unfolding index_as
index_as-prune rename s op i j h = inr (sym (index_rename-prune_idx s op.paths i) ∙ h)
index_as-prune chunk_prune s op i j h = inl (sym (ap position h), refl)
index_as-prune put_file s op i j h = inr h
index_as-prune delete_file s op i j h = inr h
index_as-prune mkdir s op i j h = inr h
index_as-prune rmdir s op i j h = inr h
index_as-prune setattr s op i j h = inr h
index_as-prune truncate s op i j h = inr h
index_as-prune patch s op i j h = inr h
index_as-prune xattr s op i j h = inr h
index_as-prune release s op i j h = inr h

Holds-push :
    (P : Op → Type 0) (ops : List Op) (op : Op) (j : ℕ) → Holds P ops j → Holds P (ops ++ op ∷ []) j
Holds-push P ops op j (q, at, p) = (q, ops_at-append ops (op ∷ []) j q at, p)

-- A pushed operation makes the index right, where it was right but for the operation's own key.
pub push-IsKeyed :
    (s : OpStack) (op : Op)
    → ((k : PathKey) (j : ℕ) → s.by_path k ≡ some j → HasKey k op ⊎ Holds (HasKey k) s.ops j)
    → ((j : ℕ) → s.prune_idx ≡ some j → Holds IsPrune s.ops j)
    → IsKeyed (push s op)
unfolding push index_op
push-IsKeyed s op keys prunes =
    let ops_eq = push-ops s op in
    record {
      keyed = λ k j h. elim (index_as-Entry op.typ _ op (length s.ops) k j refl h) [
        | inl (new, key) ↦ rw (ops_eq, new) (op, ops_at-push s.ops op, key)
        | inr (old, apart) ↦ elim (keys k j old) [
          | inl mine ↦ absurd (ground (arith, apart k mine, key_eq_refl k))
          | inr there ↦ rw ops_eq (Holds-push (HasKey k) s.ops op j there)
        ]
      ];
      pruning = λ j h. elim (index_as-prune op.typ _ op (length s.ops) j h) [
        | inl (new, typ) ↦ rw (ops_eq, new) (op, ops_at-push s.ops op, typ)
        | inr old ↦ rw ops_eq (Holds-push IsPrune s.ops op j (prunes j old))
      ];
    }
