-- ===== src/Job/Runner.antt =====
-- `JobRunner` of swx_core/services/job/job_runner.py over the table of jobs. Rows that another open
-- transaction has locked are an argument of `acquire_job`, as `skip_locked` passes them over. A
-- handler is taken not to write the job's own row.
use swx.Prelude.{
  ℕ, ◌+◌, ◌^◌, Bool, true, false, ◌&&◌, ◌||◌, not, Option, none, some, List, [], ◌∷◌, map, String,
  ltb, leb, nat_eq, ◌==◌, if◌then◌else◌,
}
use swx.Prelude.Int.{ltb_ℤ, ℤ_beq}
use swx.Job.Model.{
  JobStatus, JobResult, Job, Outcome, Audit, logged, refused, cut_off, Commit, Env, Action,
  acquires, executes, releases, returned_none, returned_dict, returned_other, raised, interrupted,
}

abbrev pub is_open : JobStatus → Bool
is_open JobStatus.pending = true
is_open JobStatus.queued = true
is_open _ = false

abbrev pub is_running : JobStatus → Bool
is_running JobStatus.running = true
is_running _ = false

-- A cancellation that arrives while the audit log is written.
abbrev pub is_cut_off : Audit → Bool
is_cut_off logged = false
is_cut_off refused = false
is_cut_off cut_off = true

module _ {P D : Type 0} where
  abbrev pub find : ℕ → List (Job P D) → Option (Job P D)
  find id [] = none
  find id (j ∷ js) = if j.id == id then some j else find id js

  -- `session.add(job)` and `commit`: the row of this id.
  abbrev pub save : Job P D → List (Job P D) → List (Job P D)
  save j [] = []
  save j (k ∷ ks) = (if k.id == j.id then j else k) ∷ save j ks

  -- A commit that the database refuses is rolled back.
  abbrev pub commit : Env P D → Commit → Job P D → List (Job P D) → List (Job P D)
  commit env point j jobs = if env.refuses point then jobs else save j jobs

  -- `Job.locked_at < cutoff`; a null is never less.
  abbrev pub is_stale : Env P D → Option ℕ → Bool
  is_stale env none = false
  is_stale env (some at) = ltb (at + env.lock_timeout) env.now

  abbrev pub released : Job P D → Job P D
  released j = record j { status = JobStatus.queued; locked_at = none; locked_by = none }

  abbrev pub release_stale : Env P D → Job P D → Job P D
  release_stale env j = if is_running j.status && is_stale env j.locked_at then released j else j

  unfoldable pub release_stale_locks : Env P D → List (Job P D) → List (Job P D)
  release_stale_locks env jobs =
      if env.refuses Commit.releasing then jobs else map (release_stale env) jobs

  abbrev pub is_due : Env P D → Option ℕ → Bool
  is_due env none = true
  is_due env (some at) = leb at env.now

  -- The `where` clause of the query, and `skip_locked`.
  abbrev pub is_candidate : Env P D → (ℕ → Bool) → Job P D → Bool
  is_candidate env locked j =
      (is_open j.status && is_due env j.scheduled_at)
      && (ltb j.attempts j.max_attempts && not (locked j.id))

  -- `order_by(Job.priority.asc(), Job.created_at.asc())`
  abbrev pub precedes : Job P D → Job P D → Bool
  precedes j k =
      ltb_ℤ j.priority k.priority || (ℤ_beq j.priority k.priority && ltb j.created_at k.created_at)

  abbrev pub earlier : Job P D → Option (Job P D) → Job P D
  earlier j none = j
  earlier j (some k) = if precedes k j then k else j

  -- The query with `limit(1)`.
  abbrev pub next_job : Env P D → (ℕ → Bool) → List (Job P D) → Option (Job P D)
  next_job env locked [] = none
  next_job env locked (j ∷ js) =
      if is_candidate env locked j
      then some (earlier j (next_job env locked js))
      else next_job env locked js

  abbrev pub lock : Env P D → Job P D → Job P D
  lock env j = record j {
    status = JobStatus.running;
    locked_at = some env.now;
    locked_by = some env.worker_id;
    started_at = some env.now;
    attempts = j.attempts + 1;
  }

  unfoldable pub acquire_job : Env P D → (ℕ → Bool) → List (Job P D) → Option ℕ × List (Job P D)
  acquire_job env locked jobs = elim (next_job env locked jobs) [
    | none ↦ (none, jobs)
    | some j ↦
        if env.refuses Commit.locking then (none, jobs) else (some j.id, save (lock env j) jobs)
  ]

  abbrev pub retry_later : Env P D → String → Job P D → Job P D
  retry_later env error j = record j {
    status = JobStatus.queued;
    scheduled_at = some (env.now + 2 ^ j.attempts);
    last_error = some (record { error = error; attempt = j.attempts; final = false });
    locked_at = none;
    locked_by = none;
  }

  abbrev pub bury : Env P D → String → Job P D → Job P D
  bury env error j = record j {
    status = JobStatus.dead_letter;
    completed_at = some env.now;
    last_error = some (record { error = error; attempt = j.attempts; final = true });
    locked_at = none;
    locked_by = none;
  }

  abbrev pub complete : Env P D → JobResult D → Job P D → Job P D
  complete env result j = record j {
    status = JobStatus.completed;
    completed_at = some env.now;
    result = some result;
    locked_at = none;
    locked_by = none;
  }

  abbrev pub cancel : Job P D → Job P D
  cancel j = record j { status = JobStatus.cancelled; locked_at = none; locked_by = none }

  -- The rest of the `except Exception` branch, and the body of `_mark_job_timeout`: an exception of
  -- `_mark_job_failed` is caught there. The flag tells whether a `CancelledError` leaves.
  abbrev pub retry_or_fail : Env P D → String → Job P D → List (Job P D) → List (Job P D) × Bool
  retry_or_fail env error j jobs =
      if ltb j.attempts j.max_attempts
      then (commit env Commit.retrying (retry_later env error j) jobs, false)
      else (
        commit env Commit.failing (bury env error j) jobs,
        not (env.refuses Commit.failing) && is_cut_off env.audit,
      )

  -- `except Exception`: the row is read again first; where that raises, or finds no row, nothing is
  -- written.
  abbrev pub reread_and_retry : Env P D → String → Job P D → List (Job P D) → List (Job P D) × Bool
  reread_and_retry env error j jobs =
      if env.rereads then retry_or_fail env error j jobs else (jobs, false)

  abbrev pub interrupt : Env P D → Job P D → List (Job P D) → List (Job P D) × Bool
  interrupt env j jobs = (commit env Commit.cancelling (cancel j) jobs, true)

  -- The audit log after a commit inside the `try`.
  abbrev pub audited : Env P D → Job P D → List (Job P D) → List (Job P D) × Bool
  audited env j jobs =
      if is_cut_off env.audit then interrupt env j (save j jobs) else (save j jobs, false)

  -- `_mark_job_failed` of a job without handler: what it raises lands in `except Exception`.
  abbrev pub fail_without_handler : Env P D → Job P D → List (Job P D) → List (Job P D) × Bool
  fail_without_handler env j jobs =
      if env.refuses Commit.failing
      then reread_and_retry env env.database_error j jobs
      else audited env (bury env (env.no_handler_error j.job_type) j) jobs

  abbrev pub finish : Env P D → JobResult D → Job P D → List (Job P D) → List (Job P D) × Bool
  finish env result j jobs =
      if env.refuses Commit.completing
      then reread_and_retry env env.database_error j jobs
      else audited env (complete env result j) jobs

  abbrev pub settle : Env P D → Outcome D → Job P D → List (Job P D) → List (Job P D) × Bool
  settle env returned_none = finish env JobResult.empty
  settle env (returned_dict d) = finish env (JobResult.dict d)
  settle env (returned_other text) = finish env (JobResult.wrapped text)
  settle env (raised error) = reread_and_retry env error
  settle env interrupted = interrupt env

  abbrev pub handle :
      Env P D → Option (P → Outcome D) → Job P D → List (Job P D) → List (Job P D) × Bool
  handle env none j jobs = fail_without_handler env j jobs
  handle env (some handler) j jobs = settle env (handler j.payload) j jobs

  unfoldable pub execute_job : Env P D → ℕ → List (Job P D) → List (Job P D) × Bool
  execute_job env id jobs = elim (find id jobs) [
    | none ↦ (jobs, false)
    | some j ↦ handle env (env.handlers j.job_type) j jobs
  ]

  unfoldable pub mark_job_timeout : Env P D → ℕ → List (Job P D) → List (Job P D)
  mark_job_timeout env id jobs = elim (find id jobs) [
    | none ↦ jobs
    | some j ↦ (retry_or_fail env env.timeout_error j jobs).0
  ]

  unfoldable pub execute_job_with_timeout : Env P D → ℕ → List (Job P D) → List (Job P D)
  unfolding execute_job mark_job_timeout
  execute_job_with_timeout env id jobs =
      let (jobs', cancelled) = execute_job env id jobs in
      if cancelled && env.timed_out then mark_job_timeout env id jobs' else jobs'

  unfoldable pub perform : Action P D → List (Job P D) → List (Job P D)
  unfolding acquire_job execute_job_with_timeout release_stale_locks
  perform (acquires env locked) jobs = (acquire_job env locked jobs).1
  perform (executes env id) jobs = execute_job_with_timeout env id jobs
  perform (releases env) jobs = release_stale_locks env jobs

  abbrev pub run : List (Action P D) → List (Job P D) → List (Job P D)
  run [] jobs = jobs
  run (a ∷ as') jobs = run as' (perform a jobs)
