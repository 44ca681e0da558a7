-- ===== src/Degraded/Tests.antt =====
-- A project that fails twice where two failures latch it.
use storhub.Prelude.{true, false, if◌then◌else◌, ◌≡◌, refl}
use storhub.Degraded.{
  Health, prune_conflict, degraded, degraded_threshold, admit_mutation, note_commit_success,
}
use storhub.Degraded.Latch.{Steps, done, then_step, succeed, Steps-refuse}

abbrev healthy : Health
healthy = record {
  commit_successes = 0;
  commit_failures = 0;
  streaks = λ p. 0;
  degraded_latched = λ p. false;
  fence_running = λ p. false;
  max_consecutive_commit_failures = 2;
}

abbrev latched : Health
latched = record healthy { degraded_latched = λ p. true }

recovering : Steps latched (note_commit_success 3 latched)
recovering = then_step latched _ _ (succeed 3 latched) (done _)

Steps-refuse_example : (admit_mutation 3 (note_commit_success 3 latched)).0 ≡ (
    if (note_commit_success 3 latched).fence_running 3
    then prune_conflict
    else degraded
        ((note_commit_success 3 latched).streaks 3)
        (degraded_threshold (note_commit_success 3 latched)))
Steps-refuse_example = Steps-refuse 3 latched (note_commit_success 3 latched) recovering refl
