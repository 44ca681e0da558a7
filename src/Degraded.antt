-- ===== src/Degraded.antt =====
-- The latch that refuses mutations of a project whose commits keep failing: internal/storage/degraded.go
-- and the failure streaks of internal/storage/pressure.go. Projects are numbered, a missing map key
-- reads as 0 or false, and the prune fence is a part of the state.
pub mod Latch
pub mod Tests
use storhub.Prelude.{ℕ, ◌+◌, ◌≤◌, ◌<◌, Bool, true, false, not, ltb, leb, ◌==◌, if◌then◌else◌}

-- The fields of pressureRegistry and StorHub that the latch depends on.
pub record Health : Type 0 where
  pub commit_successes : ℕ
  pub commit_failures : ℕ
  pub streaks : ℕ → ℕ
  pub degraded_latched : ℕ → Bool
  pub fence_running : ℕ → Bool
  pub max_consecutive_commit_failures : ℕ

-- The errors of admitMutation and of ReEnableProject.
pub data Admission : Type 0 where
  admitted : Admission
  prune_conflict : Admission
  degraded : ℕ → ℕ → Admission
  invalid_project : Admission

abbrev pub at_project {ℓ} : {A : Type ℓ} → (ℕ → A) → ℕ → A → ℕ → A
at_project m project v p = if p == project then v else m p

-- noteCommitSuccess
pub note_commit_success : ℕ → Health → Health
note_commit_success project h = record h {
  commit_successes = h.commit_successes + 1;
  streaks = at_project h.streaks project 0;
}

-- noteCommitFailure
pub note_commit_failure : ℕ → Health → Health
note_commit_failure project h = record h {
  commit_failures = h.commit_failures + 1;
  streaks = at_project h.streaks project (h.streaks project + 1);
}

abbrev pub default_threshold : ℕ
default_threshold = 8

-- degradedThreshold
pub degraded_threshold : Health → ℕ
degraded_threshold h =
    if ltb 0 h.max_consecutive_commit_failures
    then h.max_consecutive_commit_failures
    else default_threshold

-- markProjectDegraded
pub mark_project_degraded : ℕ → Health → Health
mark_project_degraded project h = record h {
  degraded_latched = at_project h.degraded_latched project true;
}

-- admitMutation
pub admit_mutation : ℕ → Health → Admission × Health
unfolding degraded_threshold mark_project_degraded
admit_mutation project h =
    let refusal = degraded (h.streaks project) (degraded_threshold h) in
    if not (h.degraded_latched project)
    then if ltb (h.streaks project) (degraded_threshold h)
      then (if h.fence_running project then prune_conflict else admitted, h)
      else (refusal, mark_project_degraded project h)
    else (if h.fence_running project then prune_conflict else refusal, h)

-- ReEnableProject, on the answer of validateProject.
pub re_enable_project : Bool → ℕ → Health → Admission × Health
re_enable_project valid project h =
    if valid
    then (admitted, record h { degraded_latched = at_project h.degraded_latched project false })
    else (invalid_project, h)
