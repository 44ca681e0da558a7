-- ===== src/Locks/Lost.antt =====
-- The records that a partial unlock loses: setLockLocked of internal/fusefs/fuse_lock.go.
use storhub.Prelude.{
  ℕ, zero, suc, ◌≤◌, Bool, true, false, List, ◌∷◌, ◌++◌, length, ◌==◌, ◌≡◌, refl, ap, ◌∙◌, arith,
  All, ==_refl,
}
use storhub.Locks.{
  is_unlock, FileLock, LockRecord, lock_end, release_range, LockTable, granted, set_records,
  store_records, set_lock,
}
use storhub.Locks.InPlace.{is_split, left_of, right_of, copies, release_range-split}
use storhub.Locks.Effect.{held, record_holds, held-append}

-- The owner's parts are not another owner's.
copies-held :
    (e : Bool) (n : ℕ) (q : LockRecord) (p x : ℕ)
    → (q.owner == p) ≡ false
    → held e (copies n q) p x ≡ false
unfolding held record_holds
copies-held e zero q p x h = refl
copies-held e (suc n) q p x h = rw (h, copies-held e n q p x h) refl

front_only :
    (e : Bool) (lk : FileLock) (r : LockRecord) (front : List LockRecord) (n p x : ℕ)
    → (r.owner == p) ≡ false
    → held e (front ++ left_of lk r ∷ right_of lk r ∷ copies n (right_of lk r)) p x
      ≡ held e front p x
unfolding held record_holds
front_only e lk r front n p x h =
    held-append e front (left_of lk r ∷ right_of lk r ∷ copies n (right_of lk r)) p x
    ∙ rw (h, copies-held e n (right_of lk r) p x h) (ground arith)

-- An unlock of a part inside a record is granted, and every other owner then holds, by the table,
-- what it held by the records in front of that one: its records behind it are lost. Those in front
-- are of other owners.
pub set_lock-loses :
    (e : Bool) (table : LockTable) (inode owner : ℕ) (lk : FileLock) (r : LockRecord)
    (front rest : List LockRecord) (p x : ℕ)
    → table inode ≡ front ++ r ∷ rest
    → is_unlock lk.typ ≡ true
    → lk.start ≤ lock_end lk
    → All (λ (q : LockRecord). (q.owner == owner) ≡ false) front
    → is_split owner lk r ≡ true
    → (r.owner == p) ≡ false
    → ((set_lock table inode owner lk).0 ≡ granted)
      × (held e ((set_lock table inode owner lk).1 inode) p x ≡ held e front p x)
unfolding set_lock set_records store_records
set_lock-loses e table inode owner lk r front rest p x t u v o s n =
    rw (u, ==_refl inode)
      (
        refl,
        ap (λ (rs : List LockRecord). held e (release_range owner lk rs) p x) t
            ∙ ap (λ (rs : List LockRecord). held e rs p x)
                (release_range-split owner lk r front rest o v s)
            ∙ front_only e lk r front (length rest) p x n,
      )
