-- ===== src/Locks/Release.antt =====
-- The locks after releaseTrackedLocks.
use storhub.Prelude.{
  ℕ, ltb, ◌<◌, Bool, true, false, ◌&&◌, ◌||◌, List, [], ◌∷◌, ◌==◌, if◌then◌else◌, ◌≡◌, refl, ◌∙◌,
  arith, Bool-cases, inl, inr, ==_refl,
}
use storhub.Locks.{
  is_unlock, lock_end, LockRecord, LockTable, LockHandle, granted, set_records, store_records,
  set_lock, max_uint64, whole_file_unlock, release_owners, release_tracked_locks,
}
use storhub.Locks.InPlace.{is_split, Unsplit}
use storhub.Locks.Effect.{covers, held, set_lock-held, after_lock, ==→≡}

unlock_all-granted :
    (table : LockTable) (inode o : ℕ) → (set_lock table inode o whole_file_unlock).0 ≡ granted
unfolding set_lock set_records store_records is_unlock
unlock_all-granted table inode o = refl

covers-whole_file : (x : ℕ) → x < max_uint64 → covers whole_file_unlock x ≡ true
unfolding covers lock_end
covers-whole_file x h = ground arith

none_before : (a b : Bool) (n : ℕ) → (a && (ltb n 0 && b)) ≡ false
none_before a b n = ground arith

-- No record goes on before the start of a file.
unlock_all-Unsplit : (o : ℕ) (rs : List LockRecord) → Unsplit o whole_file_unlock rs
unfolding is_split
unlock_all-Unsplit o [] = tt
unlock_all-Unsplit o (r ∷ []) = tt
unlock_all-Unsplit o (r ∷ s ∷ rest) =
    (none_before (r.owner == o) _ r.lock.start, unlock_all-Unsplit o (s ∷ rest))

unlock_all-held :
    (e : Bool) (table : LockTable) (inode o : ℕ) (i p x : ℕ)
    → x < max_uint64
    → held e ((set_lock table inode o whole_file_unlock).1 i) p x
      ≡ (if i == inode && p == o then false else held e (table i) p x)
unfolding after_lock is_unlock
unlock_all-held e table inode o i p x h =
    set_lock-held e table inode o whole_file_unlock i p x (unlock_all-Unsplit o (table inode))
      (unlock_all-granted table inode o)
    ∙ rw (covers-whole_file x h) (elim (Bool-cases (i == inode)) [
      | inl a ↦ rw (==→≡ i inode a, ==_refl inode) (ground arith)
      | inr a ↦ rw a refl
    ])

abbrev pub elem : ℕ → List ℕ → Bool
elem p [] = false
elem p (o ∷ os) = p == o || elem p os

release_owners-held :
    (e : Bool) (os : List ℕ) (table : LockTable) (inode i p x : ℕ)
    → x < max_uint64
    → held e (release_owners table inode os i) p x
      ≡ (if i == inode && elem p os then false else held e (table i) p x)
unfolding release_owners
release_owners-held e [] table inode i p x h = ground arith
release_owners-held e (o ∷ os) table inode i p x h =
    release_owners-held e os (set_lock table inode o whole_file_unlock).1 inode i p x h
    ∙ rw (unlock_all-held e table inode o i p x h) (ground arith)

-- The owners that a handle tracks hold nothing on its inode once the handle is gone.
pub release_tracked_locks-held :
    (e : Bool) (table : LockTable) (h : LockHandle) (i p x : ℕ)
    → x < max_uint64
    → held e (release_tracked_locks table h i) p x
      ≡ (if i == h.inode && elem p h.owners then false else held e (table i) p x)
unfolding release_tracked_locks
release_tracked_locks-held e table h i p x l = release_owners-held e h.owners table h.inode i p x l
