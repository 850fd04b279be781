-- ===== src/Job/Retries.antt =====
-- A job whose handler keeps failing, polled by a lone worker after each backoff.
use swx.Prelude.{
  ℕ, ap, zero, suc, ◌+◌, ◌^◌, ◌≡◌, refl, ◌∙◌, Bool, true, false, ◌&&◌, Option, none, some, List, [],
  ◌∷◌, ◌++◌, ◌==◌, String, arith, nat_eq, beq_refl, if◌then◌else◌, ltb,
}
use native.Mathlib.Nat.{pow-le-pow_right}
use swx.Job.Model.{JobStatus, Job, Commit, Env, Outcome, raised}
use swx.Job.Runner.{
  is_open, is_candidate, next_job, save, acquire_job, execute_job, execute_job_with_timeout, lock,
  bury, retry_later, retry_or_fail, find, mark_job_timeout,
}

abbrev pub nobody : ℕ → Bool
nobody id = false

never_late {ℓ} : {A : Type ℓ} (b : Bool) (x y : A) → (if b && false then x else y) ≡ y
never_late true x y = refl
never_late false x y = refl

module _ {P D : Type 0} where
  abbrev pub resume : Env P D → Option ℕ × List (Job P D) → List (Job P D)
  resume env (none, jobs) = jobs
  resume env (some id, jobs) = execute_job_with_timeout env id jobs

  -- A poll, and the task of what it takes.
  abbrev pub attempt : Env P D → List (Job P D) → List (Job P D)
  attempt env jobs = resume env (acquire_job env nobody jobs)

  abbrev pub at : Env P D → ℕ → Env P D
  at env t = record env { now = t }

  -- `n` polls, the first at time `t` and then one every `gap` seconds.
  abbrev pub attempts_at : Env P D → ℕ → ℕ → ℕ → List (Job P D) → List (Job P D)
  attempts_at env gap zero t jobs = jobs
  attempts_at env gap (suc n) t jobs = attempts_at env gap n (t + gap) (attempt (at env t) jobs)

  -- A dead letter after `n` attempts.
  abbrev pub IsDead : ℕ → Job P D → Type 0
  IsDead n j = (j.status ≡ JobStatus.dead_letter) × (j.attempts ≡ n) × (j.locked_at ≡ none)

  -- The other rows: none of them is open, nor has the id.
  abbrev pub AllIdle : ℕ → List (Job P D) → Type 0
  AllIdle id [] = Unit
  AllIdle id (k ∷ ks) = (is_open k.status ≡ false) × ((k.id == id) ≡ false) × AllIdle id ks

  next_job-idle :
      (env : Env P D) (id : ℕ) (ks : List (Job P D)) → AllIdle id ks → next_job env nobody ks ≡ none
  next_job-idle env id [] idle = refl
  next_job-idle env id (k ∷ ks) idle = rw idle.0 (next_job-idle env id ks idle.2)

  next_job-only :
      (env : Env P D) (j : Job P D) (before after : List (Job P D))
      → is_candidate env nobody j ≡ true
      → AllIdle j.id before
      → AllIdle j.id after
      → next_job env nobody (before ++ j ∷ after) ≡ some j
  next_job-only env j [] after c idle idle' = rw (c, next_job-idle env j.id after idle') refl
  next_job-only env j (k ∷ ks) after c idle idle' =
      rw idle.0 (next_job-only env j ks after c idle.2 idle')

  save-idle : (j : Job P D) (ks : List (Job P D)) → AllIdle j.id ks → save j ks ≡ ks
  save-idle j [] idle = refl
  save-idle j (k ∷ ks) idle = rw idle.1 (ap (λ r. k ∷ r) (save-idle j ks idle.2))

  save-only :
      (j j' : Job P D) (before after : List (Job P D))
      → j.id ≡ j'.id
      → AllIdle j'.id before
      → AllIdle j'.id after
      → save j' (before ++ j ∷ after) ≡ before ++ j' ∷ after
  save-only j j' [] after same idle idle' =
      rw (same, beq_refl j'.id) (ap (λ r. j' ∷ r) (save-idle j' after idle'))
  save-only j j' (k ∷ ks) after same idle idle' =
      rw idle.1 (ap (λ r. k ∷ r) (save-only j j' ks after same idle.2 idle'))

  find-only :
      (j : Job P D) (before after : List (Job P D))
      → AllIdle j.id before
      → find j.id (before ++ j ∷ after) ≡ some j
  find-only j [] after idle = rw (beq_refl j.id) refl
  find-only j (k ∷ ks) after idle = rw idle.1 (find-only j ks after idle.2)

  module _ (env : Env P D) (handler : P → Outcome D) (error : String)
      (accepted : (c : Commit) → env.refuses c ≡ false) (patient : env.timed_out ≡ false)
      (whole : env.rereads ≡ true) (before after : List (Job P D)) where
    abbrev only : Job P D → List (Job P D)
    only j = before ++ j ∷ after

    acquire_only :
        (t : ℕ) (j : Job P D)
        → is_candidate (at env t) nobody j ≡ true
        → AllIdle j.id before
        → AllIdle j.id after
        → acquire_job (at env t) nobody (only j) ≡ (some j.id, only (lock (at env t) j))
    unfolding acquire_job
    acquire_only t j c idle idle' =
        rw
          (
            next_job-only (at env t) j before after c idle idle',
            accepted Commit.locking,
            acquire_job,
          )
          (ap (λ jobs. (some j.id, jobs))
            (save-only j (lock (at env t) j) before after refl idle idle'))

    abbrev late : ℕ → ℕ → List (Job P D) × Bool → List (Job P D)
    late t id (jobs, cancelled) =
        if cancelled && env.timed_out then mark_job_timeout (at env t) id jobs else jobs

    execute_failing :
        (t : ℕ) (j : Job P D) (jobs : List (Job P D))
        → find j.id jobs ≡ some j
        → env.handlers j.job_type ≡ some handler
        → handler j.payload ≡ raised error
        → execute_job (at env t) j.id jobs ≡ retry_or_fail (at env t) error j jobs
    unfolding execute_job
    execute_failing t j jobs e h f = rw (e, h, f, whole, execute_job) refl

    attempt-fails :
        (t : ℕ) (j : Job P D)
        → is_candidate (at env t) nobody j ≡ true
        → env.handlers j.job_type ≡ some handler
        → handler j.payload ≡ raised error
        → AllIdle j.id before
        → AllIdle j.id after
        → attempt (at env t) (only j)
          ≡ (retry_or_fail (at env t) error (lock (at env t) j) (only (lock (at env t) j))).0
    unfolding execute_job_with_timeout
    attempt-fails t j c h f idle idle' =
        ap (resume (at env t)) (acquire_only t j c idle idle')
        ∙ ap (λ o. late t j.id o)
            (execute_failing t (lock (at env t) j) (only (lock (at env t) j))
              (find-only (lock (at env t) j) before after idle) h f)
        ∙ rw patient (never_late _ _ _)

    last_try :
        (t : ℕ) (j : Job P D)
        → ltb j.attempts j.max_attempts ≡ false
        → AllIdle j.id before
        → AllIdle j.id after
        → (retry_or_fail (at env t) error j (only j)).0 ≡ only (bury (at env t) error j)
    last_try t j l idle idle' =
        rw (l, accepted Commit.failing)
          (save-only j (bury (at env t) error j) before after refl idle idle')

    earlier_try :
        (t : ℕ) (j : Job P D)
        → ltb j.attempts j.max_attempts ≡ true
        → AllIdle j.id before
        → AllIdle j.id after
        → (retry_or_fail (at env t) error j (only j)).0 ≡ only (retry_later (at env t) error j)
    earlier_try t j l idle idle' =
        rw (l, accepted Commit.retrying)
          (save-only j (retry_later (at env t) error j) before after refl idle idle')

    due_again :
        (n t : ℕ) (j : Job P D)
        → j.attempts + suc (suc n) ≡ j.max_attempts
        → is_candidate
            (at env (t + 2 ^ j.max_attempts))
            nobody
            (retry_later (at env t) error (lock (at env t) j))
          ≡ true
    due_again n t j e = ground (
      arith,
      pow-le-pow_right {n = 2} (omega arith) {i = j.attempts + 1} {j = j.max_attempts}
          (omega (arith, e)),
    )

    -- For a lone worker whose commits are accepted, whose session can read the row again after the
    -- exception, that meets no timeout and polls every
    -- `2 ** max_attempts` seconds: the one open job of the table, which may be taken, is allowed
    -- `n + 1` more attempts and whose handler always raises, is a dead letter, with no lock and all
    -- its attempts used, after `n + 1` polls, and every other row is as it was.
    pub attempts_at-IsDead :
        (n t : ℕ) (j : Job P D)
        → is_candidate (at env t) nobody j ≡ true
        → AllIdle j.id before
        → AllIdle j.id after
        → j.attempts + suc n ≡ j.max_attempts
        → env.handlers j.job_type ≡ some handler
        → handler j.payload ≡ raised error
        → (k : Job P D) × (attempts_at env (2 ^ j.max_attempts) (suc n) t (before ++ j ∷ after)
            ≡ before ++ k ∷ after)
          × IsDead j.max_attempts k
    attempts_at-IsDead zero t j c idle idle' e h f = (
      bury (at env t) error (lock (at env t) j),
      attempt-fails t j c h f idle idle' ∙ last_try t (lock (at env t) j) (ground arith) idle idle',
      (refl, e, refl),
    )
    attempts_at-IsDead (suc n) t j c idle idle' e h f =
        let tried : attempt (at env t) (only j)
            ≡ only (retry_later (at env t) error (lock (at env t) j)) =
          attempt-fails t j c h f idle idle'
          ∙ earlier_try t (lock (at env t) j) (ground arith) idle idle' in
        let (k, q, dead) =
          attempts_at-IsDead n (t + 2 ^ j.max_attempts)
            (retry_later (at env t) error (lock (at env t) j)) (due_again n t j e) idle idle'
            (omega (arith, e)) h f in
        (
          k,
          ap (attempts_at env (2 ^ j.max_attempts) (suc n) (t + 2 ^ j.max_attempts)) tried ∙ q,
          dead,
        )
