-- ===== src/Job/Tests.antt =====
-- The job runner at concrete jobs. A payload is a number, and a result is the payload again.
use swx.Prelude.{
  ℕ, ◌≡◌, ◌≢◌, refl, true, false, ◌&&◌, Option, none, some, List, [], ◌∷◌, String, arith, all, any,
  nat_eq, string_eq, ◌==◌, if◌then◌else◌, map,
}
use swx.Prelude.Int.{pos, negsuc}
use mathlib.Core.List.{Memᴰ}
use swx.Job.Model.{
  JobStatus, Job, Env, Action, acquires, executes, releases, Outcome, logged, raised, returned_dict,
}
use swx.Job.Runner.{
  is_candidate, precedes, acquire_job, execute_job_with_timeout, release_stale_locks, perform, run,
  lock, save, released,
}
use swx.Job.Invariants.{is_valid, run-valid}
use swx.Job.Locking.{acquire_job-first, taken-not_acquired}
use swx.Job.Retries.{nobody, IsDead, attempts_at, attempts_at-IsDead}
use swx.Job.Stale.{stale-acquired_again, stale-stranded}

abbrev broken : ℕ → Outcome ℕ
broken n = raised "boom"

abbrev handlers : String → Option (ℕ → Outcome ℕ)
handlers type =
    if type == "generic" then some returned_dict else if type == "broken" then some broken else none

abbrev worker : ℕ → Env ℕ ℕ
worker now = record {
  worker_id = "host-1";
  now = now;
  lock_timeout = 300;
  timed_out = false;
  rereads = true;
  handlers = handlers;
  audit = logged;
  refuses = λ _. false;
  no_handler_error = λ type. "No handler registered";
  database_error = "database";
  timeout_error = "timed out";
}

abbrev job : ℕ → String → Job ℕ ℕ
job id type = record {
  id = id;
  job_type = type;
  payload = 7;
  status = JobStatus.pending;
  attempts = 0;
  max_attempts = 3;
  scheduled_at = none;
  locked_at = none;
  locked_by = none;
  started_at = none;
  completed_at = none;
  last_error = none;
  result = none;
  priority = pos 100;
  created_at = id;
}

abbrev urgent : Job ℕ ℕ
urgent = record (job 2 "generic") { priority = negsuc 0 }

abbrev jobs : List (Job ℕ ℕ)
jobs = job 1 "broken" ∷ urgent ∷ []

abbrev day : List (Action ℕ ℕ)
day =
    acquires (worker 10) nobody
    ∷ acquires (worker 11) nobody
    ∷ executes (worker 12) 2
    ∷ executes (worker 13) 1
    ∷ releases (worker 900)
    ∷ []

run-valid_example : all is_valid (run day jobs) ≡ true
run-valid_example = run-valid day jobs refl

statuses_after : map (λ j. j.status) (run day jobs) ≡ JobStatus.queued ∷ JobStatus.completed ∷ []
unfolding perform acquire_job execute_job_with_timeout release_stale_locks
statuses_after = refl

acquire_job-first_example :
    (j : Job ℕ ℕ) × Memᴰ j jobs
    × (j.id ≡ 2)
    × (is_candidate (worker 10) nobody j ≡ true)
    × (any (λ k. is_candidate (worker 10) nobody k && precedes k j) jobs ≡ false)
    × (job 1 "broken" ∷ lock (worker 10) urgent ∷ [] ≡ save (lock (worker 10) j) jobs)
unfolding acquire_job
acquire_job-first_example =
    acquire_job-first (worker 10) nobody 2 jobs (job 1 "broken" ∷ lock (worker 10) urgent ∷ []) refl

taken-not_acquired_example :
    (acquire_job
      (worker 20)
      nobody
      (run (executes (worker 12) 1 ∷ []) (job 1 "broken" ∷ lock (worker 10) urgent ∷ []))).0
    ≢ some 2
unfolding acquire_job
taken-not_acquired_example =
    taken-not_acquired (worker 10) (worker 20) nobody nobody 2 jobs
      (job 1 "broken" ∷ lock (worker 10) urgent ∷ []) (executes (worker 12) 1 ∷ []) refl refl

-- A row that no poll takes.
abbrev over : Job ℕ ℕ
over = record (job 7 "generic") { status = JobStatus.completed }

attempts_at-IsDead_example :
    (k : Job ℕ ℕ) × (attempts_at (worker 0) 8 3 10 (over ∷ job 1 "broken" ∷ []) ≡ over ∷ k ∷ [])
    × IsDead 3 k
attempts_at-IsDead_example =
    attempts_at-IsDead (worker 0) broken "boom" (λ _. refl) refl refl (over ∷ []) [] 2 10
      (job 1 "broken") refl (refl, refl, tt) tt refl refl refl

stale-acquired_again_example :
    (acquire_job
      (worker 321)
      nobody
      (release_stale_locks (worker 320) (acquire_job (worker 10) nobody (urgent ∷ [])).1)).0
    ≡ some 2
stale-acquired_again_example =
    stale-acquired_again (worker 10) (worker 320) (worker 321) nobody nobody urgent refl refl refl
      refl (omega arith) (omega arith) (omega arith) refl

abbrev last_attempt : Job ℕ ℕ
last_attempt = record (lock (worker 10) urgent) { attempts = 3 }

stale-stranded_example :
    run
      (acquires (worker 400) nobody ∷ releases (worker 900) ∷ [])
      (release_stale_locks (worker 320) (last_attempt ∷ []))
    ≡ released last_attempt ∷ []
stale-stranded_example =
    stale-stranded (worker 320) last_attempt
      (acquires (worker 400) nobody ∷ releases (worker 900) ∷ []) refl refl refl (omega arith) refl
