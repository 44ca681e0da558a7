-- ===== src/Locks/InPlace.antt =====
-- The filter of setLockLocked, which shares its array with the records that it reads.
use storhub.Prelude.{
  ℕ, zero, suc, ◌≤◌, Bool, true, false, ◌&&◌, not, List, [], ◌∷◌, ◌++◌, ltb, ◌==◌, if◌then◌else◌,
  length, ◌≡◌, refl, sym, ap, ◌∙◌, arith, Bool-cases, inl, inr, append-nil, append_assoc,
  length-append, All, stored_at, stored_at-beyond,
}
use storhub.Locks.{
  FileLock, LockRecord, lock_end, locks_overlap, subtract_lock, owned, released, filter_loop,
  release_range,
}

-- All records with the owner's range released.
unfoldable pub filtered_all : ℕ → FileLock → List LockRecord → List LockRecord
unfolding released
filtered_all owner lk [] = []
filtered_all owner lk (r ∷ rs) = released owner lk r ++ filtered_all owner lk rs

-- The record is the owner's and goes on at both sides of the request, so two records are left of it.
unfoldable pub is_split : ℕ → FileLock → LockRecord → Bool
unfolding lock_end
is_split owner lk r =
    r.owner == owner && (ltb r.lock.start lk.start && ltb (lock_end lk) (lock_end r.lock))

-- No record but the last is split.
abbrev pub Unsplit : ℕ → FileLock → List LockRecord → Type 0
Unsplit owner lk [] = Unit
Unsplit owner lk (r ∷ []) = Unit
Unsplit owner lk (r ∷ s ∷ rest) = (is_split owner lk r ≡ false) × Unsplit owner lk (s ∷ rest)

length-parts :
    (o : ℕ) (apart goes_before goes_on : Bool) (whole left right : FileLock)
    → (goes_before && goes_on) ≡ false
    → length (
        owned o (
          if apart
          then whole ∷ []
          else (if goes_before then left ∷ [] else []) ++ (if goes_on then right ∷ [] else [])))
      ≤ 1
unfolding owned
length-parts o true a b whole left right h = omega arith
length-parts o false true true whole left right h = ground (arith, h)
length-parts o false true false whole left right h = omega arith
length-parts o false false true whole left right h = omega arith
length-parts o false false false whole left right h = omega arith

length-released :
    (owner : ℕ) (lk : FileLock) (r : LockRecord)
    → is_split owner lk r ≡ false
    → length (released owner lk r) ≤ 1
unfolding released owned subtract_lock locks_overlap lock_end is_split
length-released owner lk r h = elim (Bool-cases (r.owner == owner)) [
  | inl mine ↦
      rw mine
        (length-parts r.owner (not (locks_overlap r.lock lk)) _ _ _ _ _ (ground (arith, h, mine)))
  | inr other ↦ rw other (omega arith)
]

filter_loop-Unsplit :
    (owner : ℕ) (lk : FileLock) (rest filtered : List LockRecord) (i : ℕ)
    → length filtered ≤ i
    → Unsplit owner lk rest
    → filter_loop owner lk filtered i rest ≡ filtered ++ filtered_all owner lk rest
unfolding filter_loop filtered_all
filter_loop-Unsplit owner lk [] filtered i h w = sym (append-nil filtered)
filter_loop-Unsplit owner lk (r ∷ []) filtered i h w =
    rw (stored_at-beyond filtered i r h, append-nil (released owner lk r)) refl
filter_loop-Unsplit owner lk (r ∷ s ∷ rest) filtered i h w =
    ap
      (λ (q : LockRecord).
        filter_loop owner lk (filtered ++ released owner lk q) (suc i) (s ∷ rest))
      (stored_at-beyond filtered i r h)
    ∙ filter_loop-Unsplit owner lk (s ∷ rest) (filtered ++ released owner lk r) (suc i)
        (omega
          (arith, h, length-append filtered (released owner lk r), length-released owner lk r w.0))
        w.1
    ∙ append_assoc filtered (released owner lk r) (filtered_all owner lk (s ∷ rest))

pub release_range-Unsplit :
    (owner : ℕ) (lk : FileLock) (rs : List LockRecord)
    → Unsplit owner lk rs
    → release_range owner lk rs ≡ filtered_all owner lk rs
unfolding release_range
release_range-Unsplit owner lk rs w = filter_loop-Unsplit owner lk rs [] 0 (omega arith) w

-- What is left of a record that is split.
abbrev pub left_of : FileLock → LockRecord → LockRecord
left_of lk r = record { owner = r.owner; lock = record r.lock { end = lk.start } }

abbrev pub right_of : FileLock → LockRecord → LockRecord
unfolding lock_end
right_of lk r = record {
  owner = r.owner;
  lock = record r.lock { start = lock_end lk; end = if r.lock.end == 0 then 0 else r.lock.end };
}

abbrev pub copies : ℕ → LockRecord → List LockRecord
copies zero r = []
copies (suc n) r = r ∷ copies n r

and_left : (a b : Bool) → (a && b) ≡ true → a ≡ true
and_left a b h = ground (arith, h)

and_right : (a b : Bool) → (a && b) ≡ true → b ≡ true
and_right a b h = ground (arith, h)

overlapping :
    (owner : ℕ) (lk : FileLock) (r : LockRecord)
    → lk.start ≤ lock_end lk
    → is_split owner lk r ≡ true
    → locks_overlap r.lock lk ≡ true
unfolding locks_overlap lock_end is_split
overlapping owner lk r v h = ground (arith, v, h)

ltb_irrefl : (n : ℕ) → ltb n n ≡ false
ltb_irrefl n = ground arith

released-split :
    (owner : ℕ) (lk : FileLock) (r : LockRecord)
    → lk.start ≤ lock_end lk
    → is_split owner lk r ≡ true
    → released owner lk r ≡ left_of lk r ∷ right_of lk r ∷ []
unfolding released owned subtract_lock is_split
released-split owner lk r v h =
    rw
      (
        and_left (r.owner == owner) _ h,
        and_left (ltb r.lock.start lk.start) _ (and_right (r.owner == owner) _ h),
        and_right (ltb r.lock.start lk.start) _ (and_right (r.owner == owner) _ h),
        overlapping owner lk r v h,
      )
      refl

released-right :
    (owner : ℕ) (lk : FileLock) (r : LockRecord)
    → released owner lk (right_of lk r) ≡ right_of lk r ∷ []
unfolding released owned subtract_lock locks_overlap lock_end
released-right owner lk r = elim (Bool-cases (r.owner == owner)) [
  | inl mine ↦ rw (mine, ltb_irrefl (lock_end lk)) refl
  | inr other ↦ rw other refl
]

stored_at-last :
    (pre : List LockRecord) (q r : LockRecord) → stored_at (pre ++ q ∷ []) (length pre) r ≡ q
stored_at-last [] q r = refl
stored_at-last (p ∷ pre) q r = stored_at-last pre q r

-- Every record that is read behind the split is the one that was written there last.
filter_loop-copies :
    (owner : ℕ) (lk : FileLock) (q : LockRecord) (rest pre : List LockRecord)
    → released owner lk q ≡ q ∷ []
    → filter_loop owner lk (pre ++ q ∷ []) (length pre) rest ≡ pre ++ q ∷ copies (length rest) q
unfolding filter_loop
filter_loop-copies owner lk q [] pre h = refl
filter_loop-copies owner lk q (r ∷ rest) pre h =
    ap
      (λ (k : List LockRecord). filter_loop owner lk ((pre ++ q ∷ []) ++ k) (suc (length pre)) rest)
      (ap (released owner lk) (stored_at-last pre q r) ∙ h)
    ∙ ap (λ (i : ℕ). filter_loop owner lk ((pre ++ q ∷ []) ++ q ∷ []) i rest)
        (omega (arith, length-append pre (q ∷ [])))
    ∙ filter_loop-copies owner lk q rest (pre ++ q ∷ []) h
    ∙ append_assoc pre (q ∷ []) (q ∷ copies (length rest) q)

released-others :
    (owner : ℕ) (lk : FileLock) (r : LockRecord)
    → (r.owner == owner) ≡ false
    → released owner lk r ≡ r ∷ []
unfolding released
released-others owner lk r h = rw h refl

filter_loop-others :
    (owner : ℕ) (lk : FileLock) (front rest pre : List LockRecord)
    → All (λ (r : LockRecord). (r.owner == owner) ≡ false) front
    → filter_loop owner lk pre (length pre) (front ++ rest)
      ≡ filter_loop owner lk (pre ++ front) (length (pre ++ front)) rest
unfolding filter_loop released
filter_loop-others owner lk [] rest pre h =
    ap (λ (f : List LockRecord). filter_loop owner lk f (length f) rest) (sym (append-nil pre))
filter_loop-others owner lk (r ∷ front) rest pre h =
    ap (λ (k : List LockRecord). filter_loop owner lk (pre ++ k) (suc (length pre)) (front ++ rest))
      (ap (released owner lk) (stored_at-beyond pre (length pre) r (omega arith))
        ∙ released-others owner lk r h.0)
    ∙ ap (λ (i : ℕ). filter_loop owner lk (pre ++ r ∷ []) i (front ++ rest))
        (omega (arith, length-append pre (r ∷ [])))
    ∙ filter_loop-others owner lk front rest (pre ++ r ∷ []) h.1
    ∙ ap (λ (f : List LockRecord). filter_loop owner lk f (length f) rest)
        (append_assoc pre (r ∷ []) front)

-- Where the owner's first record is split, the records behind it are lost: the right one of its two
-- parts stands in the place of each.
pub release_range-split :
    (owner : ℕ) (lk : FileLock) (r : LockRecord) (front rest : List LockRecord)
    → All (λ (q : LockRecord). (q.owner == owner) ≡ false) front
    → lk.start ≤ lock_end lk
    → is_split owner lk r ≡ true
    → release_range owner lk (front ++ r ∷ rest)
      ≡ front ++ left_of lk r ∷ right_of lk r ∷ copies (length rest) (right_of lk r)
unfolding release_range filter_loop
release_range-split owner lk r front rest o v h =
    filter_loop-others owner lk front (r ∷ rest) [] o
    ∙ ap
        (λ (k : LockRecord).
          filter_loop owner lk (front ++ released owner lk k) (suc (length front)) rest)
        (stored_at-beyond front (length front) r (omega arith))
    ∙ ap (λ (k : List LockRecord). filter_loop owner lk (front ++ k) (suc (length front)) rest)
        (released-split owner lk r v h)
    ∙ ap (λ (f : List LockRecord). filter_loop owner lk f (suc (length front)) rest)
        (sym (append_assoc front (left_of lk r ∷ []) (right_of lk r ∷ [])))
    ∙ ap
        (λ (i : ℕ).
          filter_loop owner lk ((front ++ left_of lk r ∷ []) ++ right_of lk r ∷ []) i rest)
        (omega (arith, length-append front (left_of lk r ∷ [])))
    ∙ filter_loop-copies owner lk (right_of lk r) rest (front ++ left_of lk r ∷ [])
        (released-right owner lk r)
    ∙ append_assoc front (left_of lk r ∷ []) (right_of lk r ∷ copies (length rest) (right_of lk r))
