-- ===== src/Degraded/Latch.antt =====
-- The latch over sequences of commits, admission checks and prune fences.
use storhub.Prelude.{
  ℕ, zero, suc, ◌+◌, ◌≤◌, Bool, true, false, ltb, if◌then◌else◌, ◌≡◌, ◌≢◌, refl, arith, Bool-cases,
  inl, inr, ==_refl,
}
use storhub.Degraded.{
  Health, admitted, prune_conflict, degraded, note_commit_success, note_commit_failure,
  degraded_threshold, mark_project_degraded, admit_mutation,
}

-- The steps that change the state; the fence is another component's.
pub data Step : Health → Health → Type 0 where
  succeed : (p : ℕ) (h : Health) → Step h (note_commit_success p h)
  fail : (p : ℕ) (h : Health) → Step h (note_commit_failure p h)
  admit : (p : ℕ) (h : Health) → Step h (admit_mutation p h).1
  fence : (f : ℕ → Bool) (h : Health) → Step h (record h { fence_running = f })

-- Any number of steps, none of them a call of ReEnableProject.
pub data Steps : Health → Health → Type 0 where
  done : (h : Health) → Steps h h
  then_step : (h i j : Health) → Step h i → Steps i j → Steps h j

mark-latched :
    (p q : ℕ) (h : Health)
    → h.degraded_latched q ≡ true
    → (mark_project_degraded p h).degraded_latched q ≡ true
unfolding mark_project_degraded
mark-latched p q h l = ground (arith, l)

admit-latched :
    (p q : ℕ) (h : Health)
    → h.degraded_latched q ≡ true
    → (admit_mutation p h).1.degraded_latched q ≡ true
unfolding admit_mutation
admit-latched p q h l = elim (Bool-cases (h.degraded_latched p)) [
  | inl t ↦ rw t l
  | inr t ↦ elim (Bool-cases (ltb (h.streaks p) (degraded_threshold h))) [
    | inl u ↦ rw (t, u) l
    | inr u ↦ rw (t, u) (mark-latched p q h l)
  ]
]

Step-latched :
    (q : ℕ) (h i : Health) → Step h i → h.degraded_latched q ≡ true → i.degraded_latched q ≡ true
unfolding note_commit_success note_commit_failure
Step-latched q _ _ (succeed p h) l = l
Step-latched q _ _ (fail p h) l = l
Step-latched q _ _ (admit p h) l = admit-latched p q h l
Step-latched q _ _ (fence f h) l = l

Steps-latched :
    (q : ℕ) (h i : Health) → Steps h i → h.degraded_latched q ≡ true → i.degraded_latched q ≡ true
Steps-latched q _ _ (done h) l = l
Steps-latched q _ _ (then_step h i k s rest) l = Steps-latched q i k rest (Step-latched q h i s l)

-- An admission check of a latched project.
admit-refuses :
    (q : ℕ) (h : Health)
    → h.degraded_latched q ≡ true
    → (admit_mutation q h).0 ≡ (
        if h.fence_running q then prune_conflict else degraded (h.streaks q) (degraded_threshold h))
unfolding admit_mutation
admit-refuses q h l = rw l refl

-- Once a project is latched, no sequence of commits that succeed or fail, admission checks of any
-- project and prune fences opens it: every admission check of it is refused.
pub Steps-refuse :
    (q : ℕ) (h i : Health)
    → Steps h i
    → h.degraded_latched q ≡ true
    → (admit_mutation q i).0 ≡ (
        if i.fence_running q then prune_conflict else degraded (i.streaks q) (degraded_threshold i))
Steps-refuse q h i s l = admit-refuses q i (Steps-latched q h i s l)

-- A number of commits of a project that fail, one after the other.
pub fail_times : ℕ → ℕ → Health → Health
unfolding note_commit_failure
fail_times zero p h = h
fail_times (suc n) p h = note_commit_failure p (fail_times n p h)

fail_times-streak :
    (n p : ℕ) (h : Health)
    → ((fail_times n p h).streaks p ≡ h.streaks p + n)
      × (degraded_threshold (fail_times n p h) ≡ degraded_threshold h)
unfolding fail_times note_commit_failure degraded_threshold
fail_times-streak zero p h = (omega arith, refl)
fail_times-streak (suc n) p h =
    (rw (==_refl p) (omega (arith, (fail_times-streak n p h).0)), (fail_times-streak n p h).1)

refusal≢admitted :
    (fenced : Bool) (streak threshold : ℕ)
    → (if fenced then prune_conflict else degraded streak threshold) ≢ admitted
refusal≢admitted true streak threshold = λ e. ground (arith, e)
refusal≢admitted false streak threshold = λ e. ground (arith, e)

ltb-not : (a b : ℕ) → b ≤ a → ltb a b ≡ false
ltb-not a b h = ground arith

over_threshold-latches :
    (p : ℕ) (h : Health)
    → degraded_threshold h ≤ h.streaks p
    → ((admit_mutation p h).0 ≢ admitted) × ((admit_mutation p h).1.degraded_latched p ≡ true)
unfolding admit_mutation mark_project_degraded
over_threshold-latches p h o = elim (Bool-cases (h.degraded_latched p)) [
  | inl t ↦ rw t (refusal≢admitted (h.fence_running p) _ _, t)
  | inr t ↦
      rw (t, ltb-not (h.streaks p) (degraded_threshold h) o, ==_refl p)
        (refusal≢admitted false _ _, refl)
]

-- After as many failures in a row as the threshold says, the next admission check of the project is
-- refused and latches it.
pub fail_times-latches :
    (n p : ℕ) (h : Health)
    → degraded_threshold h ≤ n
    → ((admit_mutation p (fail_times n p h)).0 ≢ admitted)
      × ((admit_mutation p (fail_times n p h)).1.degraded_latched p ≡ true)
fail_times-latches n p h o =
    over_threshold-latches p (fail_times n p h)
      (omega (arith, (fail_times-streak n p h).0, (fail_times-streak n p h).1, o))
