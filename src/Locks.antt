-- ===== src/Locks.antt =====
-- Advisory byte-range locks: internal/fusefs/fuse_lock.go. The lock table is a function from inodes
-- to lists of records (a missing key is the empty list), and the condition variable that wakes the
-- waiters of F_SETLKW is not part of the state.
pub mod Effect
pub mod InPlace
pub mod Exclusion
pub mod Release
pub mod Lost
pub mod Tests
use storhub.Prelude.{
  ℕ, zero, suc, ◌+◌, ◌-◌, ◌≤◌, ◌<◌, Bool, true, false, ◌&&◌, ◌||◌, not, List, [], ◌∷◌, ◌++◌, Option,
  none, some, ltb, leb, ◌==◌, if◌then◌else◌, stored_at,
}

-- FileLock.Typ: F_RDLCK, F_WRLCK and F_UNLCK.
pub data LockType : Type 0 where
  read_lock : LockType
  write_lock : LockType
  unlock : LockType

unfoldable pub is_read : LockType → Bool
is_read read_lock = true
is_read _ = false

unfoldable pub is_unlock : LockType → Bool
is_unlock unlock = true
is_unlock _ = false

-- fuse.FileLock; `end` is exclusive and 0 stands for the end of every file.
pub record FileLock : Type 0 where
  pub start : ℕ
  pub end : ℕ
  pub typ : LockType

pub record LockRecord : Type 0 where
  pub owner : ℕ
  pub lock : FileLock

abbrev pub max_uint64 : ℕ
max_uint64 = 18446744073709551615

pub lock_end : FileLock → ℕ
lock_end l = if l.end == 0 then max_uint64 else l.end

pub locks_overlap : FileLock → FileLock → Bool
unfolding lock_end
locks_overlap a b = ltb a.start (lock_end b) && ltb b.start (lock_end a)

pub subtract_lock : FileLock → FileLock → List FileLock
unfolding locks_overlap lock_end
subtract_lock existing cut =
    let left = record existing { end = cut.start } in
    let right = record existing {
      start = lock_end cut;
      end = if existing.end == 0 then 0 else existing.end;
    } in
    if not (locks_overlap existing cut)
    then existing ∷ []
    else (if ltb existing.start cut.start then left ∷ [] else [])
      ++ (if ltb (lock_end cut) (lock_end existing) then right ∷ [] else [])

pub lock_conflicts : LockRecord → ℕ → FileLock → Bool
unfolding locks_overlap is_read is_unlock
lock_conflicts existing owner requested =
    if is_unlock requested.typ
      || existing.owner == owner
      || not (locks_overlap existing.lock requested)
    then false
    else if is_read existing.lock.typ && is_read requested.typ
    then false
    else true

owned : ℕ → List FileLock → List LockRecord
owned owner [] = []
owned owner (l ∷ ls) = record { owner = owner; lock = l } ∷ owned owner ls

-- One record after its owner's range is released.
unfoldable pub released : ℕ → FileLock → LockRecord → List LockRecord
unfolding subtract_lock owned
released owner lk existing =
    if existing.owner == owner
    then owned existing.owner (subtract_lock existing.lock lk)
    else existing ∷ []

-- The loop that both branches of setLockLocked share. It filters the records in place, `locks[:0]`, so
-- what it has kept stands over the first records: what it has kept, the position it reads, and what
-- stood from there on.
unfoldable pub filter_loop : ℕ → FileLock → List LockRecord → ℕ → List LockRecord → List LockRecord
unfolding released
filter_loop owner lk filtered i [] = filtered
filter_loop owner lk filtered i (existing ∷ rest) =
    filter_loop owner lk (filtered ++ released owner lk (stored_at filtered i existing)) (suc i)
      rest

-- The owner's records lose the lock's range.
unfoldable pub release_range : ℕ → FileLock → List LockRecord → List LockRecord
unfolding filter_loop
release_range owner lk locks = filter_loop owner lk [] 0 locks

pub any_conflict : List LockRecord → ℕ → FileLock → Bool
unfolding lock_conflicts
any_conflict [] owner lk = false
any_conflict (existing ∷ rest) owner lk =
    if lock_conflicts existing owner lk then true else any_conflict rest owner lk

abbrev pub LockTable : Type 0
LockTable = ℕ → List LockRecord

abbrev pub update : LockTable → ℕ → List LockRecord → LockTable
update table inode locks i = if i == inode then locks else table i

pub data LockErrno : Type 0 where
  granted : LockErrno
  eagain : LockErrno

-- The answer of setLockLocked on the records of one inode, none for EAGAIN.
pub set_records : List LockRecord → ℕ → FileLock → Option (List LockRecord)
unfolding release_range any_conflict is_unlock
set_records locks owner lk =
    if is_unlock lk.typ
    then some (release_range owner lk locks)
    else if any_conflict locks owner lk
    then none
    else some (release_range owner lk locks ++ record { owner = owner; lock = lk } ∷ [])

store_records : LockTable → ℕ → Option (List LockRecord) → LockErrno × LockTable
store_records table inode none = (eagain, table)
store_records table inode (some locks) = (granted, update table inode locks)

-- setLockLocked
pub set_lock : LockTable → ℕ → ℕ → FileLock → LockErrno × LockTable
unfolding set_records store_records
set_lock table inode owner lk = store_records table inode (set_records (table inode) owner lk)

-- dropAllLocksForInode
pub drop_all_locks : LockTable → ℕ → LockTable
drop_all_locks table inode = update table inode []

-- storhubHandle: the inode it is open on, and the owners it tracks.
pub record LockHandle : Type 0 where
  pub inode : ℕ
  pub owners : List ℕ

remove_owner : ℕ → List ℕ → List ℕ
remove_owner owner [] = []
remove_owner owner (o ∷ os) =
    if o == owner then remove_owner owner os else o ∷ remove_owner owner os

pub track_lock_owner : LockHandle → ℕ → LockType → LockHandle
unfolding remove_owner is_unlock
track_lock_owner h owner typ =
    let others = remove_owner owner h.owners in
    record h { owners = if is_unlock typ then others else owner ∷ others }

setlk_result :
    LockHandle → ℕ → FileLock → LockErrno × LockTable → LockErrno × (LockTable × LockHandle)
unfolding track_lock_owner
setlk_result h owner lk (granted, table) = (granted, (table, track_lock_owner h owner lk.typ))
setlk_result h owner lk (eagain, table) = (eagain, (table, h))

-- Setlk
pub setlk : LockTable → LockHandle → ℕ → FileLock → LockErrno × (LockTable × LockHandle)
unfolding set_lock setlk_result
setlk table h owner lk = setlk_result h owner lk (set_lock table h.inode owner lk)

abbrev pub whole_file_unlock : FileLock
whole_file_unlock = record { start = 0; end = 0; typ = unlock }

pub release_owners : LockTable → ℕ → List ℕ → LockTable
unfolding set_lock
release_owners table inode [] = table
release_owners table inode (o ∷ os) =
    release_owners (set_lock table inode o whole_file_unlock).1 inode os

-- releaseTrackedLocks
pub release_tracked_locks : LockTable → LockHandle → LockTable
unfolding release_owners
release_tracked_locks table h = release_owners table h.inode h.owners
