-- ===== src/Job/Steps.antt =====
-- Tests of the rows that the steps of the runner keep, for the invariants to instantiate.
use swx.Prelude.{
  eqb_iff, ◌∙◌, String, ℕ, ◌≡◌, refl, Bool, true, false, ◌&&◌, Option, none, some, List, [], ◌∷◌,
  map, all, arith, ltb, nat_eq, if◌then◌else◌, Bool-cases, Option-cases, inl, inr, subst,
}
use mathlib.Core.Option.{some-injective}
use swx.Job.Model.{
  Job, Outcome, Commit, Env, JobResult, returned_none, returned_dict, returned_other, raised,
  interrupted,
}
use swx.Job.Runner.{
  find, save, commit, release_stale, release_stale_locks, is_candidate, earlier, precedes, next_job,
  lock, acquire_job, retry_later, bury, complete, cancel, retry_or_fail, reread_and_retry,
  interrupt, audited, finish, settle, handle, execute_job, mark_job_timeout, is_running,
  execute_job_with_timeout, is_cut_off, released, is_stale,
}

module _ {P D : Type 0} where
  pub all-save :
      (test : Job P D → Bool) (j : Job P D) (jobs : List (Job P D))
      → test j ≡ true
      → all test jobs ≡ true
      → all test (save j jobs) ≡ true
  all-save test j [] h k = refl
  all-save test j (x ∷ jobs) h k = ground (arith, all-save test j jobs h)

  pub find-all :
      (test : Job P D → Bool) (id : ℕ) (j : Job P D) (jobs : List (Job P D))
      → find id jobs ≡ some j
      → all test jobs ≡ true
      → test j ≡ true
  find-all test id j [] h k = cc
  find-all test id j (x ∷ jobs) h k = ground (arith, find-all test id j jobs)

  pub find-id : (id : ℕ) (j : Job P D) (jobs : List (Job P D)) → find id jobs ≡ some j → j.id ≡ id
  find-id id j [] h = cc
  find-id id j (x ∷ jobs) h = ground (arith, find-id id j jobs, eqb_iff x.id id)

  -- What the query returns is a candidate, and passes every test that all rows pass.
  pub next_job-all :
      (env : Env P D) (locked : ℕ → Bool) (test : Job P D → Bool) (j : Job P D)
      (jobs : List (Job P D))
      → next_job env locked jobs ≡ some j
      → all test jobs ≡ true
      → (test j && is_candidate env locked j) ≡ true
  next_job-all env locked test j [] h k = cc
  next_job-all env locked test j (x ∷ jobs) h k = elim (Bool-cases (is_candidate env locked x)) [
    | inl fits ↦ elim (Option-cases (next_job env locked jobs)) [
      | inl e ↦
          subst (λ x. (test x && is_candidate env locked x) ≡ true)
            (some-injective _ _ (rw (fits, e) at h)) (rw fits (ground arith))
      | inr (y, e) ↦
          subst (λ x. (test x && is_candidate env locked x) ≡ true)
            (some-injective _ _ (rw (fits, e) at h))
            (earlier_one x y fits (ground arith)
              (next_job-all env locked test y jobs e (ground arith)))
    ]
    | inr other ↦ next_job-all env locked test j jobs (rw other at h) (ground arith)
  ]
    where
      earlier_one :
          (x y : Job P D)
          → is_candidate env locked x ≡ true
          → test x ≡ true
          → (test y && is_candidate env locked y) ≡ true
          → (test (earlier x (some y)) && is_candidate env locked (earlier x (some y))) ≡ true
      earlier_one x y f t r = elim (Bool-cases (precedes y x)) [
        | inl e ↦ rw e r
        | inr e ↦ rw (e, f) (ground arith)
      ]

  -- `k` is `j` without its lock, in another state.
  abbrev pub Unlocks : Job P D → Job P D → Type 0
  Unlocks j k =
      (k.id ≡ j.id)
      × (k.attempts ≡ j.attempts)
      × (k.max_attempts ≡ j.max_attempts)
      × (k.locked_at ≡ none)
      × (is_running k.status ≡ false)

  -- A test of the rows that holds on when the job `id` loses its lock.
  module _ (test : Job P D → Bool) (id : ℕ)
      (unlocked : (j k : Job P D) → j.id ≡ id → Unlocks j k → test j ≡ true → test k ≡ true) where
    commit-all :
        (env : Env P D) (point : Commit) (j k : Job P D) (jobs : List (Job P D))
        → j.id ≡ id
        → Unlocks j k
        → test j ≡ true
        → all test jobs ≡ true
        → all test (commit env point k jobs) ≡ true
    commit-all env point j k jobs i u t h =
        ground (arith, all-save test k jobs (unlocked j k i u t) h)

    retry_or_fail-all :
        (env : Env P D) (error : String) (j : Job P D) (jobs : List (Job P D))
        → j.id ≡ id
        → test j ≡ true
        → all test jobs ≡ true
        → all test (retry_or_fail env error j jobs).0 ≡ true
    retry_or_fail-all env error j jobs i t h = elim (Bool-cases (ltb j.attempts j.max_attempts)) [
      | inl e ↦ rw e (
          commit-all env Commit.retrying j (retry_later env error j) jobs i
            (refl, refl, refl, refl, refl) t h)
      | inr e ↦ rw e (
          commit-all env Commit.failing j (bury env error j) jobs i (refl, refl, refl, refl, refl) t
            h)
    ]

    reread_and_retry-all :
        (env : Env P D) (error : String) (j : Job P D) (jobs : List (Job P D))
        → j.id ≡ id
        → test j ≡ true
        → all test jobs ≡ true
        → all test (reread_and_retry env error j jobs).0 ≡ true
    reread_and_retry-all env error j jobs i t h = elim (Bool-cases env.rereads) [
      | inl e ↦ rw e (retry_or_fail-all env error j jobs i t h)
      | inr e ↦ rw e h
    ]

    interrupt-all :
        (env : Env P D) (j : Job P D) (jobs : List (Job P D))
        → j.id ≡ id
        → test j ≡ true
        → all test jobs ≡ true
        → all test (interrupt env j jobs).0 ≡ true
    interrupt-all env j jobs i t h =
        commit-all env Commit.cancelling j (cancel j) jobs i (refl, refl, refl, refl, refl) t h

    audited-all :
        (env : Env P D) (j k : Job P D) (jobs : List (Job P D))
        → j.id ≡ id
        → Unlocks j k
        → test j ≡ true
        → all test jobs ≡ true
        → all test (audited env k jobs).0 ≡ true
    audited-all env j k jobs i u t h =
        let saved = all-save test k jobs (unlocked j k i u t) h in
        elim (Bool-cases (is_cut_off env.audit)) [
          | inl e ↦ rw e (interrupt-all env k (save k jobs) (u.0 ∙ i) (unlocked j k i u t) saved)
          | inr e ↦ rw e saved
        ]

    finish-all :
        (env : Env P D) (result : JobResult D) (j : Job P D) (jobs : List (Job P D))
        → j.id ≡ id
        → test j ≡ true
        → all test jobs ≡ true
        → all test (finish env result j jobs).0 ≡ true
    finish-all env result j jobs i t h = elim (Bool-cases (env.refuses Commit.completing)) [
      | inl e ↦ rw e (reread_and_retry-all env env.database_error j jobs i t h)
      | inr e ↦
          rw e (audited-all env j (complete env result j) jobs i (refl, refl, refl, refl, refl) t h)
    ]

    settle-all :
        (env : Env P D) (o : Outcome D) (j : Job P D) (jobs : List (Job P D))
        → j.id ≡ id
        → test j ≡ true
        → all test jobs ≡ true
        → all test (settle env o j jobs).0 ≡ true
    settle-all env returned_none = finish-all env JobResult.empty
    settle-all env (returned_dict d) = finish-all env (JobResult.dict d)
    settle-all env (returned_other text) = finish-all env (JobResult.wrapped text)
    settle-all env (raised error) = reread_and_retry-all env error
    settle-all env interrupted = interrupt-all env

    either-all :
        (b : Bool) (x y : List (Job P D) × Bool)
        → all test x.0 ≡ true
        → all test y.0 ≡ true
        → all test (if b then x else y).0 ≡ true
    either-all true x y h k = h
    either-all false x y h k = k

    handle-all :
        (env : Env P D) (handler : Option (P → Outcome D)) (j : Job P D) (jobs : List (Job P D))
        → j.id ≡ id
        → test j ≡ true
        → all test jobs ≡ true
        → all test (handle env handler j jobs).0 ≡ true
    handle-all env (some handler) j jobs i t h = settle-all env (handler j.payload) j jobs i t h
    handle-all env none j jobs i t h =
        either-all (env.refuses Commit.failing) (reread_and_retry env env.database_error j jobs)
          (audited env (bury env (env.no_handler_error j.job_type) j) jobs)
          (reread_and_retry-all env env.database_error j jobs i t h)
          (audited-all env j (bury env (env.no_handler_error j.job_type) j) jobs i
            (refl, refl, refl, refl, refl) t h)

    execute_job-all :
        (env : Env P D) (jobs : List (Job P D))
        → all test jobs ≡ true
        → all test (execute_job env id jobs).0 ≡ true
    unfolding execute_job
    execute_job-all env jobs h = elim (Option-cases (find id jobs)) [
      | inl e ↦ rw (e, execute_job) h
      | inr (j, e) ↦
          rw (e, execute_job)
            (handle-all env (env.handlers j.job_type) j jobs (find-id id j jobs e)
              (find-all test id j jobs e h) h)
    ]

    mark_job_timeout-all :
        (env : Env P D) (jobs : List (Job P D))
        → all test jobs ≡ true
        → all test (mark_job_timeout env id jobs) ≡ true
    unfolding mark_job_timeout
    mark_job_timeout-all env jobs h = elim (Option-cases (find id jobs)) [
      | inl e ↦ rw (e, mark_job_timeout) h
      | inr (j, e) ↦
          rw (e, mark_job_timeout)
            (retry_or_fail-all env env.timeout_error j jobs (find-id id j jobs e)
              (find-all test id j jobs e h) h)
    ]

    -- The end of the task of a job keeps it.
    pub execute_job_with_timeout-all :
        (env : Env P D) (jobs : List (Job P D))
        → all test jobs ≡ true
        → all test (execute_job_with_timeout env id jobs) ≡ true
    unfolding execute_job_with_timeout
    execute_job_with_timeout-all env jobs h =
        let ran = execute_job-all env jobs h in
        elim (Bool-cases ((execute_job env id jobs).1 && env.timed_out)) [
          | inl e ↦ rw e (mark_job_timeout-all env (execute_job env id jobs).0 ran)
          | inr e ↦ rw e ran
        ]

  pub acquire_job-all :
      (env : Env P D) (locked : ℕ → Bool) (test : Job P D → Bool) (jobs : List (Job P D))
      → ((j : Job P D)
          → is_candidate env locked j ≡ true
          → test j ≡ true
          → test (lock env j) ≡ true)
      → all test jobs ≡ true
      → all test (acquire_job env locked jobs).1 ≡ true
  unfolding acquire_job
  acquire_job-all env locked test jobs locks h = elim (Option-cases (next_job env locked jobs)) [
    | inl e ↦ rw (e, acquire_job) h
    | inr (j, e) ↦ elim (Bool-cases (env.refuses Commit.locking)) [
      | inl r ↦ rw (e, r, acquire_job) h
      | inr r ↦
          let found = next_job-all env locked test j jobs e h in
          rw (e, r, acquire_job)
            (all-save test (lock env j) jobs (locks j (ground arith) (ground arith)) h)
    ]
  ]

  pub release_stale_locks-all :
      (env : Env P D) (test : Job P D → Bool) (jobs : List (Job P D))
      → ((j : Job P D) → Unlocks j (released j) → test j ≡ true → test (released j) ≡ true)
      → all test jobs ≡ true
      → all test (release_stale_locks env jobs) ≡ true
  unfolding release_stale_locks
  release_stale_locks-all env test jobs unlocks h =
      elim (Bool-cases (env.refuses Commit.releasing)) [
        | inl r ↦ rw (r, release_stale_locks) h
        | inr r ↦ rw (r, release_stale_locks) (each jobs h)
      ]
    where
      each :
          (jobs : List (Job P D))
          → all test jobs ≡ true
          → all test (map (release_stale env) jobs) ≡ true
      each [] h = refl
      each (j ∷ jobs) h = elim (Bool-cases (is_running j.status && is_stale env j.locked_at)) [
        | inl e ↦ rw e (ground (arith, each jobs, unlocks j (refl, refl, refl, refl, refl)))
        | inr e ↦ rw e (ground (arith, each jobs))
      ]
