-- ===== src/Locks/Tests.antt =====
-- Two owners on one inode: a read lock that both may hold, and a write lock that waits.
use storhub.Prelude.{
  Bool-cases, inl, inr, true, false, ◌&&◌, [], ◌∷◌, ◌≡◌, refl, arith, if◌then◌else◌, ◌==◌,
}
use storhub.Locks.{
  LockType, read_lock, write_lock, unlock, FileLock, LockTable, LockHandle, set_lock, granted,
  eagain, release_tracked_locks, lock_end, is_unlock,
}
use storhub.Locks.Effect.{held, after_lock, set_lock-held}
use storhub.Locks.Exclusion.{IsExclusive, IsBlocked, set_lock-IsExclusive, set_lock-IsBlocked}
use storhub.Locks.InPlace.{is_split}
use storhub.Locks.Lost.{set_lock-loses}
use storhub.Locks.Release.{release_tracked_locks-held, elem}

abbrev first_ten : LockType → FileLock
first_ten typ = record { start = 0; end = 10; typ = typ }

abbrev one_reader : LockTable
one_reader inode = if inode == 3 then record { owner = 1; lock = first_ten read_lock } ∷ [] else []

abbrev middle : LockType → FileLock
middle typ = record { start = 4; end = 6; typ = typ }

one_reader-IsExclusive : IsExclusive one_reader
unfolding held
one_reader-IsExclusive inode x o p n h = elim (Bool-cases (inode == 3)) [
  | inl three ↦ ground (arith, h, three)
  | inr other ↦ rw other refl
]

granted_example : (set_lock one_reader 3 1 (middle unlock)).0 ≡ granted
unfolding set_lock
granted_example = refl

eagain_example : (set_lock one_reader 3 2 (middle write_lock)).0 ≡ eagain
unfolding set_lock
eagain_example = refl

set_lock-held_example : held false ((set_lock one_reader 3 1 (middle unlock)).1 3) 1 5 ≡ (
    if 3 == 3
    then after_lock false 1 (middle unlock) 1 5 (held false (one_reader 3) 1 5)
    else held false (one_reader 3) 1 5)
set_lock-held_example = set_lock-held false one_reader 3 1 (middle unlock) 3 1 5 tt granted_example

set_lock-IsExclusive_example : IsExclusive (set_lock one_reader 3 2 (middle read_lock)).1
set_lock-IsExclusive_example =
    set_lock-IsExclusive one_reader 3 2 (middle read_lock) one_reader-IsExclusive

set_lock-IsBlocked_example :
    ((set_lock one_reader 3 2 (middle write_lock)).1 ≡ one_reader)
    × IsBlocked (one_reader 3) 2 (middle write_lock)
unfolding lock_end
set_lock-IsBlocked_example =
    set_lock-IsBlocked one_reader 3 2 (middle write_lock) (omega arith, tt) (omega arith)
      eagain_example

abbrev reader_handle : LockHandle
reader_handle = record { inode = 3; owners = 1 ∷ [] }

release_tracked_locks-held_example :
    held false (release_tracked_locks one_reader reader_handle 3) 1 5
    ≡ (if 3 == 3 && elem 1 (1 ∷ []) then false else held false (one_reader 3) 1 5)
release_tracked_locks-held_example =
    release_tracked_locks-held false one_reader reader_handle 3 1 5 (omega arith)

-- Another owner's record stands behind the one that is split.
abbrev two_holders : LockTable
two_holders inode =
    if inode == 3
    then record { owner = 1; lock = first_ten read_lock }
      ∷ record { owner = 2; lock = record { start = 20; end = 30; typ = write_lock } }
      ∷ []
    else []

twenty_five_held : held true (two_holders 3) 2 25 ≡ true
unfolding held
twenty_five_held = refl

abbrev late : FileLock
late = record { start = 24; end = 26; typ = write_lock }

-- After the partial unlock of the one, a third owner gets the byte that the other holds.
third_granted : (set_lock (set_lock two_holders 3 1 (middle unlock)).1 3 4 late).0 ≡ granted
unfolding set_lock
third_granted = refl

set_lock-loses_example :
    ((set_lock two_holders 3 1 (middle unlock)).0 ≡ granted)
    × (held true ((set_lock two_holders 3 1 (middle unlock)).1 3) 2 25 ≡ held true [] 2 25)
unfolding is_unlock lock_end is_split
set_lock-loses_example =
    set_lock-loses true two_holders 3 1 (middle unlock)
      (record { owner = 1; lock = first_ten read_lock }) []
      (record { owner = 2; lock = record { start = 20; end = 30; typ = write_lock } } ∷ []) 2 25
      refl refl (omega arith) tt refl refl
