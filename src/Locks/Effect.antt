-- ===== src/Locks/Effect.antt =====
-- The bytes that the owners hold, and setLockLocked on them.
use storhub.Prelude.{
  ℕ, Bool, true, false, ◌&&◌, ◌||◌, not, List, [], ◌∷◌, ◌++◌, ltb, leb, ◌==◌, if◌then◌else◌, ◌≡◌,
  refl, sym, ap, ◌∙◌, arith, Bool-cases, inl, inr, ==_refl,
}
use storhub.Locks.{
  LockType, is_read, is_unlock, FileLock, LockRecord, lock_end, locks_overlap, subtract_lock, owned,
  released, release_range, any_conflict, LockTable, update, granted, eagain, set_records,
  store_records, set_lock,
}
use storhub.Locks.InPlace.{filtered_all, Unsplit, release_range-Unsplit}

-- A byte of a lock's range.
unfoldable pub covers : FileLock → ℕ → Bool
unfolding lock_end
covers l x = leb l.start x && ltb x (lock_end l)

-- The lock keeps others out: from writing, or (exclusively) from reading too.
unfoldable pub keeps : Bool → LockType → Bool
unfolding is_read is_unlock
keeps exclusive typ = if exclusive then not (is_read typ) else true

unfoldable pub record_holds : Bool → LockRecord → ℕ → ℕ → Bool
unfolding covers keeps
record_holds exclusive r owner x =
    r.owner == owner && (covers r.lock x && keeps exclusive r.lock.typ)

-- An owner holds a byte, exclusively or at all.
unfoldable pub held : Bool → List LockRecord → ℕ → ℕ → Bool
unfolding record_holds
held exclusive [] owner x = false
held exclusive (r ∷ rs) owner x = record_holds exclusive r owner x || held exclusive rs owner x

pub held-append :
    (e : Bool) (rs ss : List LockRecord) (owner x : ℕ)
    → held e (rs ++ ss) owner x ≡ (held e rs owner x || held e ss owner x)
unfolding held
held-append e [] ss owner x = refl
held-append e (r ∷ rs) ss owner x = ground (arith, held-append e rs ss owner x)

subtract_lock-held :
    (e : Bool) (o : ℕ) (existing cut : FileLock) (x : ℕ)
    → held e (owned o (subtract_lock existing cut)) o x
      ≡ (held e (record { owner = o; lock = existing } ∷ []) o x && not (covers cut x))
unfolding held record_holds owned subtract_lock locks_overlap lock_end covers
subtract_lock-held e o existing cut x = rw (==_refl o) (ground arith)

owned-others :
    (e : Bool) (o p : ℕ) (ls : List FileLock) (x : ℕ)
    → (o == p) ≡ false
    → held e (owned o ls) p x ≡ false
unfolding held record_holds owned
owned-others e o p [] x h = refl
owned-others e o p (l ∷ ls) x h = rw (h, owned-others e o p ls x h) refl

pub ==→≡ : (a b : ℕ) → (a == b) ≡ true → a ≡ b
==→≡ a b h = ground arith

single-others :
    (e : Bool) (r : LockRecord) (p x : ℕ) → (r.owner == p) ≡ false → held e (r ∷ []) p x ≡ false
unfolding held record_holds
single-others e r p x h = rw h refl

owned-subtract :
    (e : Bool) (o : ℕ) (existing cut : FileLock) (p x : ℕ)
    → held e (owned o (subtract_lock existing cut)) p x
      ≡ (held e (record { owner = o; lock = existing } ∷ []) p x && not (p == o && covers cut x))
owned-subtract e o existing cut p x = elim (Bool-cases (o == p)) [
  | inl h ↦ rw (==→≡ o p h, ==_refl p) (subtract_lock-held e p existing cut x)
  | inr h ↦
      rw
        (
          owned-others e o p (subtract_lock existing cut) x h,
          single-others e record { owner = o; lock = existing } p x h,
        )
        refl
]

and-true : (b : Bool) → b ≡ (b && true)
and-true true = refl
and-true false = refl

pub released-held :
    (e : Bool) (owner : ℕ) (lk : FileLock) (r : LockRecord) (p x : ℕ)
    → held e (released owner lk r) p x ≡ (held e (r ∷ []) p x && not (p == owner && covers lk x))
unfolding released
released-held e owner lk r p x = elim (Bool-cases (r.owner == owner)) [
  | inl a ↦
      rw (sym (==→≡ r.owner owner a), ==_refl r.owner) (owned-subtract e r.owner r.lock lk p x)
  | inr a ↦ rw a (elim (Bool-cases (p == owner)) [
    | inl b ↦ rw (single-others e r p x (ground arith)) refl
    | inr b ↦ rw b (and-true _)
  ])
]

filtered_all-held :
    (e : Bool) (owner : ℕ) (lk : FileLock) (rs : List LockRecord) (p x : ℕ)
    → held e (filtered_all owner lk rs) p x ≡ (held e rs p x && not (p == owner && covers lk x))
unfolding filtered_all held
filtered_all-held e owner lk [] p x = refl
filtered_all-held e owner lk (r ∷ rs) p x =
    held-append e (released owner lk r) (filtered_all owner lk rs) p x
    ∙ rw (released-held e owner lk r p x, filtered_all-held e owner lk rs p x) (ground arith)

-- What an owner holds of a byte after a granted request.
unfoldable pub after_lock : Bool → ℕ → FileLock → ℕ → ℕ → Bool → Bool
after_lock e owner lk p x before =
    if p == owner && covers lk x then not (is_unlock lk.typ) && keeps e lk.typ else before

release_range-after :
    (e : Bool) (owner : ℕ) (lk : FileLock) (rs : List LockRecord) (p x : ℕ)
    → Unsplit owner lk rs
    → held e (release_range owner lk rs) p x
      ≡ (if p == owner && covers lk x then false else held e rs p x)
unfolding held
release_range-after e owner lk rs p x w =
    ap (λ (q : List LockRecord). held e q p x) (release_range-Unsplit owner lk rs w)
    ∙ filtered_all-held e owner lk rs p x
    ∙ ground arith

add_lock-after :
    (e : Bool) (owner : ℕ) (lk : FileLock) (rs : List LockRecord) (p x : ℕ)
    → Unsplit owner lk rs
    → held e (release_range owner lk rs ++ record { owner = owner; lock = lk } ∷ []) p x
      ≡ (if p == owner && covers lk x then keeps e lk.typ else held e rs p x)
unfolding held record_holds
add_lock-after e owner lk rs p x w =
    held-append e (release_range owner lk rs) (record { owner = owner; lock = lk } ∷ []) p x
    ∙ rw (release_range-after e owner lk rs p x w) (ground arith)

held-update :
    (e : Bool) (table : LockTable) (inode i : ℕ) (locks : List LockRecord) (p x : ℕ) (b : Bool)
    → held e locks p x ≡ b
    → held e (update table inode locks i) p x ≡ (if i == inode then b else held e (table i) p x)
held-update e table inode i locks p x b h = elim (Bool-cases (i == inode)) [
  | inl a ↦ rw a h
  | inr a ↦ rw a refl
]

pub eagain≢granted : {C : Type 0} → eagain ≡ granted → C
eagain≢granted h = ground (arith, h)

pub set_lock-refused :
    (table : LockTable) (inode owner : ℕ) (lk : FileLock)
    → is_unlock lk.typ ≡ false
    → any_conflict (table inode) owner lk ≡ true
    → (set_lock table inode owner lk).0 ≡ eagain
unfolding set_lock set_records store_records
set_lock-refused table inode owner lk u c = rw (u, c) refl

-- A granted request that splits no record but the last of its inode changes what its owner holds of
-- its range on its inode, and nothing else.
pub set_lock-held :
    (e : Bool) (table : LockTable) (inode owner : ℕ) (lk : FileLock) (i p x : ℕ)
    → Unsplit owner lk (table inode)
    → (set_lock table inode owner lk).0 ≡ granted
    → held e ((set_lock table inode owner lk).1 i) p x ≡ (
        if i == inode
        then after_lock e owner lk p x (held e (table inode) p x)
        else held e (table i) p x)
unfolding set_lock set_records store_records after_lock
set_lock-held e table inode owner lk i p x w h = elim (Bool-cases (is_unlock lk.typ)) [
  | inl u ↦
      rw u
        (held-update e table inode i _ p x _ (release_range-after e owner lk (table inode) p x w))
  | inr u ↦ elim (Bool-cases (any_conflict (table inode) owner lk)) [
    | inl c ↦ eagain≢granted (sym (set_lock-refused table inode owner lk u c) ∙ h)
    | inr c ↦
        rw (u, c)
          (held-update e table inode i _ p x _ (add_lock-after e owner lk (table inode) p x w))
  ]
]
