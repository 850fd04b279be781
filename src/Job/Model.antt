-- ===== src/Job/Model.antt =====
-- The rows of swx_core/models/job.py, and what `JobRunner` takes from outside: the handlers, the
-- clock, the audit logger, and which commits the database refuses. A payload `P` and a JSON object
-- `D` are opaque. Times are seconds. `attempts` and `max_attempts` are natural numbers: a negative
-- limit acts as 0, since the code only compares. `tags` and `updated_at` are not read by the runner.
use swx.Prelude.{ℕ, Bool, Option, String}
use swx.Prelude.Int.{ℤ}

pub data JobStatus : Type 0 where
  pending : JobStatus
  queued : JobStatus
  running : JobStatus
  completed : JobStatus
  failed : JobStatus
  dead_letter : JobStatus
  cancelled : JobStatus

-- `{"error": …, "attempt": …}`, and `"final": True` on the last one.
pub record JobError : Type 0 where
  pub error : String
  pub attempt : ℕ
  pub final : Bool

-- `job.result`: `{}`, the dict of the handler, or `{"result": str(result)}`.
pub data JobResult (D : Type 0) : Type 0 where
  empty : JobResult D
  dict : D → JobResult D
  wrapped : String → JobResult D

pub record Job (P D : Type 0) : Type 0 where
  pub id : ℕ
  pub job_type : String
  pub payload : P
  pub status : JobStatus
  pub attempts : ℕ
  pub max_attempts : ℕ
  pub scheduled_at : Option ℕ
  pub locked_at : Option ℕ
  pub locked_by : Option String
  pub started_at : Option ℕ
  pub completed_at : Option ℕ
  pub last_error : Option JobError
  pub result : Option (JobResult D)
  pub priority : ℤ
  pub created_at : ℕ

-- How `await handler(session, job.payload)` ends: with `None`, a dict, another value (as its
-- `str`), an exception (as its `str`), or by a cancellation of the task.
pub data Outcome (D : Type 0) : Type 0 where
  returned_none : Outcome D
  returned_dict : D → Outcome D
  returned_other : String → Outcome D
  raised : String → Outcome D
  interrupted : Outcome D

-- How the audit log of a finished job ends: every exception is caught, a cancellation is not.
pub data Audit : Type 0 where
  logged : Audit
  refused : Audit
  cut_off : Audit

-- The commits of the runner.
pub data Commit : Type 0 where
  locking : Commit
  releasing : Commit
  completing : Commit
  cancelling : Commit
  retrying : Commit
  failing : Commit

-- `timed_out` tells whether a cancellation is `asyncio.wait_for`'s own, at `execution_timeout`.
pub record Env (P D : Type 0) : Type 0 where
  pub worker_id : String
  pub now : ℕ
  pub lock_timeout : ℕ
  pub timed_out : Bool
  -- Whether the session can read the job's row again in `except Exception`: the session of a refused
  -- commit, or of a handler that broke it, may raise there, which leaves the row as it is.
  pub rereads : Bool
  pub handlers : String → Option (P → Outcome D)
  pub audit : Audit
  pub refuses : Commit → Bool
  pub no_handler_error : String → String
  pub database_error : String
  pub timeout_error : String

-- One step of some worker: a poll, beside rows that others have locked; the end of the task of a
-- job; the cleanup.
pub data Action (P D : Type 0) : Type 0 where
  acquires : Env P D → (ℕ → Bool) → Action P D
  executes : Env P D → ℕ → Action P D
  releases : Env P D → Action P D
