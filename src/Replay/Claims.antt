-- ===== src/Replay/Claims.antt =====
-- The claimed ids of newReplayPlan of internal/storage/ops_replay.go.
use storhub.Prelude.{
  ℕ, Bool, true, false, ◌&&◌, ◌||◌, not, List, [], ◌∷◌, ◌==◌, ◌≡◌, refl, subst, ◌∙◌, ap, arith,
  ==_iff, Bool-cases, inl, inr, Option, none, some,
}
use storhub.OpStack.{FileMeta, DirMeta, Op}
use storhub.Replay.{
  elem, claim, claim_all, claim_inode, claim_file, claim_dir, file_chunks, ReplayPlan, plan_op,
  plan_ops, new_replay_plan,
}

-- An operation carries an inode in its file record or its directory record, where zero is none.
abbrev is_inode : ℕ → ℕ → Bool
is_inode inode k = not (inode == 0) && (inode == k)

abbrev file_has : Option FileMeta → ℕ → Bool
file_has none k = false
file_has (some file) k = is_inode file.inode k

abbrev dir_has : Option DirMeta → ℕ → Bool
dir_has none k = false
dir_has (some dir) k = is_inode dir.inode k

abbrev pub carries_inode : List Op → ℕ → Bool
carries_inode [] k = false
carries_inode (op ∷ ops) k = file_has op.file k || dir_has op.dir k || carries_inode ops k

-- An operation carries the chunk ids of its file record, of its catalog and of its removals.
abbrev file_has_chunk : Option FileMeta → ℕ → Bool
unfolding elem
file_has_chunk none k = false
file_has_chunk (some file) k = elem k file.chunks

abbrev pub carries_chunk : List Op → ℕ → Bool
unfolding elem
carries_chunk [] k = false
carries_chunk (op ∷ ops) k =
    file_has_chunk op.file k || elem k op.chunks || elem k op.removed_chunks || carries_chunk ops k

module _ (k : ℕ) where
  elem-claim : (j : ℕ) (xs : List ℕ) → elem k (claim j xs) ≡ ((j == k) || elem k xs)
  unfolding claim elem
  elem-claim j xs = elim (Bool-cases (elem j xs)) [
    | inl e ↦ rw e (known j xs e)
    | inr e ↦ rw e refl
  ]
    where
      known : (j : ℕ) (xs : List ℕ) → elem j xs ≡ true → elem k xs ≡ ((j == k) || elem k xs)
      known j xs e = elim (Bool-cases (j == k)) [
        | inl same ↦ rw same (subst (λ (i : ℕ). elem i xs ≡ true) ((==_iff j k).0 same) e)
        | inr other ↦ rw other refl
      ]

  elem-claim_all : (js xs : List ℕ) → elem k (claim_all js xs) ≡ (elem k js || elem k xs)
  unfolding claim_all elem
  elem-claim_all [] xs = refl
  elem-claim_all (j ∷ js) xs = ground (arith, elem-claim_all js (claim j xs), elem-claim j xs)

  elem-claim_inode : (j : ℕ) (xs : List ℕ) → elem k (claim_inode j xs) ≡ (is_inode j k || elem k xs)
  unfolding claim_inode
  elem-claim_inode j xs = ground (arith, elem-claim j xs)

  elem-claim_file :
      (file : Option FileMeta) (xs : List ℕ)
      → elem k (claim_file file xs) ≡ (file_has file k || elem k xs)
  unfolding claim_file
  elem-claim_file none xs = refl
  elem-claim_file (some file) xs = elem-claim_inode file.inode xs

  elem-claim_dir :
      (dir : Option DirMeta) (xs : List ℕ)
      → elem k (claim_dir dir xs) ≡ (dir_has dir k || elem k xs)
  unfolding claim_dir
  elem-claim_dir none xs = refl
  elem-claim_dir (some dir) xs = elem-claim_inode dir.inode xs

  elem-file_chunks : (file : Option FileMeta) → elem k (file_chunks file) ≡ file_has_chunk file k
  unfolding file_chunks elem
  elem-file_chunks none = refl
  elem-file_chunks (some file) = refl

  plan_op-inodes :
      (p : ReplayPlan) (op : Op)
      → elem k (plan_op p op).claimed_inodes
        ≡ (dir_has op.dir k || (file_has op.file k || elem k p.claimed_inodes))
  unfolding plan_op
  plan_op-inodes p op =
      elem-claim_dir op.dir (claim_file op.file p.claimed_inodes)
      ∙ ap (λ (b : Bool). dir_has op.dir k || b) (elem-claim_file op.file p.claimed_inodes)

  plan_op-chunks :
      (p : ReplayPlan) (op : Op)
      → elem k (plan_op p op).claimed_chunks ≡ (
          elem k op.removed_chunks
          || (elem k op.chunks || (file_has_chunk op.file k || elem k p.claimed_chunks)))
  unfolding plan_op
  plan_op-chunks p op =
      rw
        (
          elem-claim_all op.removed_chunks
              (claim_all op.chunks (claim_all (file_chunks op.file) p.claimed_chunks)),
          elem-claim_all op.chunks (claim_all (file_chunks op.file) p.claimed_chunks),
          elem-claim_all (file_chunks op.file) p.claimed_chunks,
          elem-file_chunks op.file,
        )
        refl

-- Whatever the order of the tests.
swap_two : (rest a b c : Bool) → (rest || (b || (a || c))) ≡ (((a || b) || rest) || c)
swap_two true a b c = ground arith
swap_two false a b c = ground arith

swap_three :
    (rest a b c d : Bool) → (rest || (c || (b || (a || d)))) ≡ ((((a || b) || c) || rest) || d)
swap_three true a b c d = ground arith
swap_three false a b c d = ground arith

plan_ops-inodes :
    (k : ℕ) (p : ReplayPlan) (ops : List Op)
    → elem k (plan_ops p ops).claimed_inodes ≡ (carries_inode ops k || elem k p.claimed_inodes)
unfolding plan_ops
plan_ops-inodes k p [] = refl
plan_ops-inodes k p (op ∷ ops) =
    plan_ops-inodes k (plan_op p op) ops
    ∙ ap (λ (b : Bool). carries_inode ops k || b) (plan_op-inodes k p op)
    ∙ swap_two (carries_inode ops k) (file_has op.file k) (dir_has op.dir k) _

plan_ops-chunks :
    (k : ℕ) (p : ReplayPlan) (ops : List Op)
    → elem k (plan_ops p ops).claimed_chunks ≡ (carries_chunk ops k || elem k p.claimed_chunks)
unfolding plan_ops
plan_ops-chunks k p [] = refl
plan_ops-chunks k p (op ∷ ops) =
    plan_ops-chunks k (plan_op p op) ops
    ∙ ap (λ (b : Bool). carries_chunk ops k || b) (plan_op-chunks k p op)
    ∙ swap_three (carries_chunk ops k) (file_has_chunk op.file k) (elem k op.chunks)
        (elem k op.removed_chunks) _

or_false : (b : Bool) → (b || false) ≡ b
or_false true = refl
or_false false = refl

-- The batch claims the inodes that its operations carry.
pub claimed_inodes-new_replay_plan :
    (ops : List Op) (k : ℕ) → elem k (new_replay_plan ops).claimed_inodes ≡ carries_inode ops k
unfolding new_replay_plan elem
claimed_inodes-new_replay_plan ops k = plan_ops-inodes k _ ops ∙ or_false (carries_inode ops k)

-- The batch claims the chunk ids that its operations carry.
pub claimed_chunks-new_replay_plan :
    (ops : List Op) (k : ℕ) → elem k (new_replay_plan ops).claimed_chunks ≡ carries_chunk ops k
unfolding new_replay_plan elem
claimed_chunks-new_replay_plan ops k = plan_ops-chunks k _ ops ∙ or_false (carries_chunk ops k)
