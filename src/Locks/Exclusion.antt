-- ===== src/Locks/Exclusion.antt =====
-- setLockLocked and the locks of other owners: what it grants and what it refuses.
use storhub.Prelude.{
  ℕ, zero, suc, ◌<◌, Bool, true, false, ◌&&◌, ◌||◌, not, ◌++◌, List, [], ◌∷◌, Option, none, some,
  ◌==◌, if◌then◌else◌, ◌≡◌, refl, sym, ap, ◌∙◌, arith, Bool-cases, inl, inr, ◌⊎◌, if-true, if-false,
  All, max, stored_at,
}
use storhub.Locks.{
  is_read, is_unlock, FileLock, LockRecord, lock_end, locks_overlap, lock_conflicts, any_conflict,
  LockTable, LockErrno, granted, eagain, set_records, store_records, set_lock, released,
  filter_loop, release_range, update,
}
use storhub.Locks.Effect.{
  covers, keeps, record_holds, held, held-append, released-held, eagain≢granted, set_lock-refused,
}

-- No owner holds a byte exclusively that another owner holds.
abbrev pub IsExclusive : LockTable → Type 0
IsExclusive table =
    (inode x o p : ℕ)
    → (o == p) ≡ false
    → held true (table inode) o x ≡ true
    → held false (table inode) p x ≡ false

-- A record that does not conflict with a request leaves its bytes to it.
record-free :
    (r : LockRecord) (owner : ℕ) (lk : FileLock) (p x : ℕ)
    → is_unlock lk.typ ≡ false
    → lock_conflicts r owner lk ≡ false
    → (p == owner) ≡ false
    → covers lk x ≡ true
    → record_holds (is_read lk.typ) r p x ≡ false
unfolding lock_conflicts locks_overlap record_holds covers keeps lock_end
record-free r owner lk p x u c n v = ground arith

if-false-parts : (a b : Bool) → (if a then true else b) ≡ false → (a ≡ false) × (b ≡ false)
if-false-parts a b h = ground arith

any_conflict-free :
    (rs : List LockRecord) (owner : ℕ) (lk : FileLock) (p x : ℕ)
    → is_unlock lk.typ ≡ false
    → any_conflict rs owner lk ≡ false
    → (p == owner) ≡ false
    → covers lk x ≡ true
    → held (is_read lk.typ) rs p x ≡ false
unfolding any_conflict held
any_conflict-free [] owner lk p x u c n v = refl
any_conflict-free (r ∷ rs) owner lk p x u c n v =
    let parts = if-false-parts (lock_conflicts r owner lk) (any_conflict rs owner lk) c in
    rw (record-free r owner lk p x u parts.0 n v) (any_conflict-free rs owner lk p x u parts.1 n v)

-- Who holds nothing holds nothing exclusively.
held-free :
    (e : Bool) (rs : List LockRecord) (p x : ℕ) → held e rs p x ≡ false → held true rs p x ≡ false
unfolding held record_holds keeps
held-free true rs p x h = h
held-free false [] p x h = refl
held-free false (r ∷ rs) p x h = ground (arith, held-free false rs p x)

-- A granted request: it released a range, or no other owner's record was in its way.
granted-free :
    (table : LockTable) (inode owner : ℕ) (lk : FileLock)
    → (set_lock table inode owner lk).0 ≡ granted
    → is_unlock lk.typ ≡ false
    → any_conflict (table inode) owner lk ≡ false
granted-free table inode owner lk h u = elim (Bool-cases (any_conflict (table inode) owner lk)) [
  | inl c ↦ eagain≢granted (sym (set_lock-refused table inode owner lk u c) ∙ h)
  | inr c ↦ c
]

-- The same, by the type that was granted.
granted-lock :
    (table : LockTable) (inode owner : ℕ) (lk : FileLock) (p x : ℕ) (read : Bool)
    → (set_lock table inode owner lk).0 ≡ granted
    → is_unlock lk.typ ≡ false
    → is_read lk.typ ≡ read
    → (p == owner) ≡ false
    → covers lk x ≡ true
    → (held read (table inode) p x ≡ false) × (held true (table inode) p x ≡ false)
granted-lock table inode owner lk p x read h u r n v =
    let free =
      any_conflict-free (table inode) owner lk p x u (granted-free table inode owner lk h u) n v in
    (rw (sym r) free, held-free (is_read lk.typ) (table inode) p x free)

true-or : (a b : Bool) → a ≡ true → (a || b) ≡ true
true-or a b h = rw h refl

and-true-left : (a b : Bool) → (a && b) ≡ true → a ≡ true
and-true-left a b h = ground (arith, h)

-- The filter leaves no owner more than there was, also where it loses records.
released-within :
    (e : Bool) (owner : ℕ) (lk : FileLock) (r : LockRecord) (p x : ℕ)
    → held e (released owner lk r) p x ≡ true
    → held e (r ∷ []) p x ≡ true
released-within e owner lk r p x h = and-true-left _ _ (sym (released-held e owner lk r p x) ∙ h)

stored_at-within :
    (e : Bool) (filtered : List LockRecord) (i : ℕ) (r : LockRecord) (p x : ℕ)
    → held e (stored_at filtered i r ∷ []) p x ≡ true
    → (held e filtered p x || held e (r ∷ []) p x) ≡ true
unfolding held
stored_at-within e [] i r p x h = h
stored_at-within e (k ∷ filtered) zero r p x h = ground (arith, h)
stored_at-within e (k ∷ filtered) (suc i) r p x h =
    ground (arith, stored_at-within e filtered i r p x h)

or_step :
    (filtered kept read there rest : Bool)
    → ((filtered || kept) || rest) ≡ true
    → (kept ≡ true → read ≡ true)
    → (read ≡ true → (filtered || (there || false)) ≡ true)
    → (filtered || (there || rest)) ≡ true
or_step true kept read there rest h f g = refl
or_step false kept read true rest h f g = refl
or_step false true read false rest h f g = absurd (ground (arith, g (f refl)))
or_step false false read false rest h f g = h

filter_loop-within :
    (e : Bool) (owner : ℕ) (lk : FileLock) (rest filtered : List LockRecord) (i p x : ℕ)
    → held e (filter_loop owner lk filtered i rest) p x ≡ true
    → (held e filtered p x || held e rest p x) ≡ true
unfolding filter_loop held
filter_loop-within e owner lk [] filtered i p x h = true-or _ _ h
filter_loop-within e owner lk (r ∷ rest) filtered i p x h =
    let k = stored_at filtered i r in
    let below =
      filter_loop-within e owner lk rest (filtered ++ released owner lk k) (suc i) p x h in
    or_step (held e filtered p x) (held e (released owner lk k) p x) (held e (k ∷ []) p x) _
      (held e rest p x)
      (ap (λ (b : Bool). b || held e rest p x)
          (sym (held-append e filtered (released owner lk k) p x))
        ∙ below)
      (released-within e owner lk k p x) (stored_at-within e filtered i r p x)

-- What an owner may hold of a byte after a request: what it held, or the lock that was granted.
unfoldable pub may_hold : Bool → ℕ → FileLock → ℕ → ℕ → Bool → Bool
may_hold e owner lk p x before =
    before || (p == owner && (covers lk x && (not (is_unlock lk.typ) && keeps e lk.typ)))

records_within :
    (e : Bool) (owner : ℕ) (lk : FileLock) (rs : List LockRecord) (p x : ℕ)
    → held e (release_range owner lk rs) p x ≡ true
    → held e rs p x ≡ true
unfolding release_range held
records_within e owner lk rs p x h = filter_loop-within e owner lk rs [] 0 p x h

update-within :
    (e : Bool) (table : LockTable) (inode i : ℕ) (locks : List LockRecord) (p x : ℕ) (b : Bool)
    → (held e locks p x ≡ true → b ≡ true)
    → held e (update table inode locks i) p x ≡ true
    → (if i == inode then b else held e (table i) p x) ≡ true
update-within e table inode i locks p x b f h = elim (Bool-cases (i == inode)) [
  | inl a ↦ rw a (f (rw a at h))
  | inr a ↦ rw a (rw a at h)
]

granted-within :
    (e : Bool) (owner : ℕ) (lk : FileLock) (rs : List LockRecord) (p x : ℕ)
    → is_unlock lk.typ ≡ false
    → held e (release_range owner lk rs ++ record { owner = owner; lock = lk } ∷ []) p x ≡ true
    → may_hold e owner lk p x (held e rs p x) ≡ true
unfolding may_hold held record_holds
granted-within e owner lk rs p x u h =
    let parts = sym (held-append e (release_range owner lk rs) _ p x) ∙ h in
    granted_parts _ _ (owner == p) (p == owner) _ _ _ (records_within e owner lk rs p x)
      (λ q. ground (arith, q)) u parts
  where
    granted_parts :
        (after before o q c u k : Bool)
        → (after ≡ true → before ≡ true)
        → (o ≡ true → q ≡ true)
        → u ≡ false
        → (after || ((o && (c && k)) || false)) ≡ true
        → (before || (q && (c && (not u && k)))) ≡ true
    granted_parts after true o q c u k f g n h = refl
    granted_parts true false o q c u k f g n h = absurd (ground (arith, f refl))
    granted_parts false false true q c u k f g n h = ground (arith, g refl, n, h)
    granted_parts false false false q c u k f g n h = absurd (ground (arith, h))

set_lock-within :
    (e : Bool) (table : LockTable) (inode owner : ℕ) (lk : FileLock) (i p x : ℕ)
    → (set_lock table inode owner lk).0 ≡ granted
    → held e ((set_lock table inode owner lk).1 i) p x ≡ true
    → (if i == inode
        then may_hold e owner lk p x (held e (table inode) p x)
        else held e (table i) p x)
      ≡ true
unfolding set_lock set_records store_records may_hold
set_lock-within e table inode owner lk i p x h g = elim (Bool-cases (is_unlock lk.typ)) [
  | inl u ↦
      update-within e table inode i (release_range owner lk (table inode)) p x _
        (λ t. true-or _ _ (records_within e owner lk (table inode) p x t)) (rw u at g)
  | inr u ↦ elim (Bool-cases (any_conflict (table inode) owner lk)) [
    | inl c ↦ eagain≢granted (sym (set_lock-refused table inode owner lk u c) ∙ h)
    | inr c ↦
        update-within e table inode i _ p x _ (granted-within e owner lk (table inode) p x u)
          (rw (u, c) at g)
  ]
]

-- The bytes of two owners after a request of one of them.
exclusive-after :
    (table : LockTable) (inode owner : ℕ) (lk : FileLock) (o p x : ℕ)
    → IsExclusive table
    → (set_lock table inode owner lk).0 ≡ granted
    → (o == p) ≡ false
    → may_hold true owner lk o x (held true (table inode) o x) ≡ true
    → may_hold false owner lk p x (held false (table inode) p x) ≡ false
unfolding may_hold keeps
exclusive-after table inode owner lk o p x inv h n g = elim (Bool-cases (is_unlock lk.typ)) [
  | inl u ↦ ground (arith, inv inode x o p n)
  | inr u ↦ elim (Bool-cases (is_read lk.typ)) [
    | inl r ↦ ground (
      arith,
      inv inode x o p n,
      granted-lock table inode owner lk o x true h u r,
      granted-lock table inode owner lk p x true h u r,
    )
    | inr r ↦ ground (
      arith,
      inv inode x o p n,
      granted-lock table inode owner lk o x false h u r,
      granted-lock table inode owner lk p x false h u r,
    )
  ]
]

store_records-unchanged :
    (table : LockTable) (inode : ℕ) (o : Option (List LockRecord))
    → (store_records table inode o).0 ≡ eagain
    → (store_records table inode o).1 ≡ table
unfolding store_records
store_records-unchanged table inode none h = refl
store_records-unchanged table inode (some locks) h = eagain≢granted (sym h)

set_lock-unchanged :
    (table : LockTable) (inode owner : ℕ) (lk : FileLock)
    → (set_lock table inode owner lk).0 ≡ eagain
    → (set_lock table inode owner lk).1 ≡ table
unfolding set_lock
set_lock-unchanged table inode owner lk h = store_records-unchanged table inode _ h

errno-cases : (e : LockErrno) → (e ≡ granted) ⊎ (e ≡ eagain)
errno-cases granted = inl refl
errno-cases eagain = inr refl

false_true : {C : Type 0} {b : Bool} → b ≡ false → b ≡ true → C
false_true h k = absurd (ground (arith, h, k))

false_unless : (b : Bool) → (b ≡ true → b ≡ false) → b ≡ false
false_unless true h = h refl
false_unless false h = refl

-- After any request no owner holds a byte exclusively, by the lock table, that another owner holds by
-- it, where this was so before.
pub set_lock-IsExclusive :
    (table : LockTable) (inode owner : ℕ) (lk : FileLock)
    → IsExclusive table
    → IsExclusive (set_lock table inode owner lk).1
set_lock-IsExclusive table inode owner lk inv i x o p n g =
    elim (errno-cases (set_lock table inode owner lk).0) [
      | inl h ↦
          let before = set_lock-within true table inode owner lk i o x h g in
          false_unless _ (λ t.
            let also = set_lock-within false table inode owner lk i p x h t in
            elim (Bool-cases (i == inode)) [
              | inl a ↦
                  false_true
                    (exclusive-after table inode owner lk o p x inv h n
                      (sym (if-true _ _ a) ∙ before))
                    (sym (if-true _ _ a) ∙ also)
              | inr a ↦
                  false_true (inv i x o p n (sym (if-false _ _ a) ∙ before))
                    (sym (if-false _ _ a) ∙ also)
            ])
      | inr h ↦
          let same = ap (λ t. t i) (set_lock-unchanged table inode owner lk h) in
          ap (λ rs. held false rs p x) same
          ∙ inv i x o p n (ap (λ rs. held true rs o x) (sym same) ∙ g)
    ]

-- The records that a lock table can hold: no empty range.
abbrev pub IsNonempty : FileLock → Type 0
IsNonempty l = l.start < lock_end l

record-byte :
    (r : LockRecord) (owner : ℕ) (lk : FileLock)
    → IsNonempty r.lock
    → IsNonempty lk
    → lock_conflicts r owner lk ≡ true
    → ((r.owner == owner) ≡ false)
      × (covers lk (max r.lock.start lk.start) ≡ true)
      × (record_holds (is_read lk.typ) r r.owner (max r.lock.start lk.start) ≡ true)
unfolding lock_conflicts locks_overlap record_holds covers keeps lock_end
record-byte r owner lk w v t = (ground arith, ground arith, ground arith)

or-true : (a b : Bool) → b ≡ true → (a || b) ≡ true
or-true a b h = ground arith

-- Another owner holds a byte of the request in its way.
abbrev pub IsBlocked : List LockRecord → ℕ → FileLock → Type 0
IsBlocked rs owner lk =
    (p x : ℕ) × ((p == owner) ≡ false)
    × (covers lk x ≡ true)
    × (held (is_read lk.typ) rs p x ≡ true)

any_conflict-byte :
    (rs : List LockRecord) (owner : ℕ) (lk : FileLock)
    → All (λ r. IsNonempty r.lock) rs
    → IsNonempty lk
    → any_conflict rs owner lk ≡ true
    → IsBlocked rs owner lk
unfolding any_conflict held
any_conflict-byte [] owner lk w v c = ground (arith, c)
any_conflict-byte (r ∷ rs) owner lk w v c = elim (Bool-cases (lock_conflicts r owner lk)) [
  | inl t ↦
      let (other, meets, holds) = record-byte r owner lk w.0 v t in
      (r.owner, max r.lock.start lk.start, other, meets, true-or _ _ holds)
  | inr t ↦
      let (p, x, other, meets, holds) =
        any_conflict-byte rs owner lk w.1 v (sym (if-false _ _ t) ∙ c) in
      (p, x, other, meets, or-true _ _ holds)
]

refused-test :
    (table : LockTable) (inode : ℕ) (free blocked : Bool) (a b : List LockRecord)
    → (store_records table inode (if free then some a else if blocked then none else some b)).0
      ≡ eagain
    → blocked ≡ true
unfolding store_records
refused-test table inode true blocked a b h = eagain≢granted (sym h)
refused-test table inode false true a b h = refl
refused-test table inode false false a b h = eagain≢granted (sym h)

set_records-blocked :
    (table : LockTable) (inode owner : ℕ) (lk : FileLock)
    → (set_lock table inode owner lk).0 ≡ eagain
    → any_conflict (table inode) owner lk ≡ true
unfolding set_lock set_records
set_records-blocked table inode owner lk h = refused-test table inode (is_unlock lk.typ) _ _ _ h

-- A refused request leaves the table as it was, and another owner is in its way.
pub set_lock-IsBlocked :
    (table : LockTable) (inode owner : ℕ) (lk : FileLock)
    → All (λ r. IsNonempty r.lock) (table inode)
    → IsNonempty lk
    → (set_lock table inode owner lk).0 ≡ eagain
    → ((set_lock table inode owner lk).1 ≡ table) × IsBlocked (table inode) owner lk
set_lock-IsBlocked table inode owner lk w v h = (
  set_lock-unchanged table inode owner lk h,
  any_conflict-byte (table inode) owner lk w v (set_records-blocked table inode owner lk h),
)
