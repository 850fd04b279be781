-- ===== src/Job/Invariants.antt =====
-- What every action of the runner keeps of a table of jobs.
use swx.Prelude.{
  ℕ, ◌≡◌, refl, Bool, true, false, ◌&&◌, Option, none, some, List, [], ◌∷◌, all, arith, leb, nat_eq,
}
use swx.Job.Model.{JobStatus, Job, Env, Action, acquires, executes, releases}
use swx.Job.Runner.{is_candidate, lock, is_running, perform, run, released}
use swx.Job.Steps.{Unlocks, acquire_job-all, release_stale_locks-all, execute_job_with_timeout-all}

-- A lock is on exactly the running jobs.
abbrev pub lock_fits : JobStatus → Option ℕ → Bool
lock_fits JobStatus.running (some at) = true
lock_fits JobStatus.running none = false
lock_fits _ none = true
lock_fits _ (some at) = false

not_running-lock_fits : (s : JobStatus) → is_running s ≡ false → lock_fits s none ≡ true
not_running-lock_fits JobStatus.running h = cc
not_running-lock_fits JobStatus.pending h = refl
not_running-lock_fits JobStatus.queued h = refl
not_running-lock_fits JobStatus.completed h = refl
not_running-lock_fits JobStatus.failed h = refl
not_running-lock_fits JobStatus.dead_letter h = refl
not_running-lock_fits JobStatus.cancelled h = refl

module _ {P D : Type 0} where
  -- No more attempts than allowed, and a lock on exactly the running jobs.
  abbrev pub is_valid : Job P D → Bool
  is_valid j = leb j.attempts j.max_attempts && lock_fits j.status j.locked_at

  lock-valid :
      (env : Env P D) (locked : ℕ → Bool) (j : Job P D)
      → is_candidate env locked j ≡ true
      → is_valid (lock env j) ≡ true
  lock-valid env locked j h = ground arith

  Unlocks-is_valid : (j k : Job P D) → Unlocks j k → is_valid j ≡ true → is_valid k ≡ true
  Unlocks-is_valid j k (_, a, m, l, r) h =
      rw (a, m, l, not_running-lock_fits k.status r) (ground arith)

  perform-valid :
      (a : Action P D) (jobs : List (Job P D))
      → all is_valid jobs ≡ true
      → all is_valid (perform a jobs) ≡ true
  unfolding perform
  perform-valid (acquires env locked) jobs h =
      acquire_job-all env locked is_valid jobs (λ j c v. lock-valid env locked j c) h
  perform-valid (executes env id) jobs h =
      execute_job_with_timeout-all is_valid id (λ j k i u v. Unlocks-is_valid j k u v) env jobs h
  perform-valid (releases env) jobs h =
      release_stale_locks-all env is_valid jobs (λ j u v. Unlocks-is_valid j (released j) u v) h

  -- Whatever the workers do, in any order, with handlers that fail, commits that are refused and
  -- tasks that are cancelled at any time: no job is attempted more often than it may be, and a lock
  -- is on exactly the running jobs, if this was so at the start.
  pub run-valid :
      (actions : List (Action P D)) (jobs : List (Job P D))
      → all is_valid jobs ≡ true
      → all is_valid (run actions jobs) ≡ true
  run-valid [] jobs h = h
  run-valid (a ∷ actions) jobs h = run-valid actions (perform a jobs) (perform-valid a jobs h)
