-- ===== src/Job/Stale.antt =====
-- What the cleanup of stale locks does to a job whose task is still at work, and to one on its last
-- attempt.
use swx.Prelude.{
  ℕ, ◌+◌, ◌<◌, ◌≤◌, ◌≡◌, refl, ap, ◌∙◌, Bool, true, false, none, some, List, [], ◌∷◌, arith, nat_eq,
  ◌==◌, beq_refl, eqb_iff, any, Bool-cases, inl, inr,
}
use swx.Job.Model.{Job, Commit, Env, Action, acquires, executes, releases}
use swx.Job.Runner.{
  is_running, is_candidate, lock, acquire_job, perform, run, released, is_stale,
  release_stale_locks, execute_job, execute_job_with_timeout,
}

module _ {P D : Type 0} where
  acquire_alone :
      (env : Env P D) (locked : ℕ → Bool) (j : Job P D)
      → is_candidate env locked j ≡ true
      → env.refuses Commit.locking ≡ false
      → acquire_job env locked (j ∷ []) ≡ (some j.id, lock env j ∷ [])
  unfolding acquire_job
  acquire_alone env locked j c r = rw (c, r, beq_refl j.id, acquire_job) refl

  release_alone :
      (env : Env P D) (j : Job P D)
      → env.refuses Commit.releasing ≡ false
      → is_running j.status ≡ true
      → is_stale env j.locked_at ≡ true
      → release_stale_locks env (j ∷ []) ≡ released j ∷ []
  unfolding release_stale_locks
  release_alone env j r s t = rw (r, s, t, release_stale_locks) refl

  -- A lone job that is still at work when its lock turns stale, and has another attempt left, is
  -- released by the cleanup and taken again by a later poll beside which its row is not locked,
  -- where the commits are accepted.
  pub stale-acquired_again :
      (env env' env'' : Env P D) (locked locked' : ℕ → Bool) (j : Job P D)
      → is_candidate env locked j ≡ true
      → env.refuses Commit.locking ≡ false
      → env'.refuses Commit.releasing ≡ false
      → env''.refuses Commit.locking ≡ false
      → env.now + env'.lock_timeout < env'.now
      → env.now ≤ env''.now
      → j.attempts + 1 < j.max_attempts
      → locked' j.id ≡ false
      → (acquire_job env'' locked' (release_stale_locks env' (acquire_job env locked (j ∷ [])).1)).0
        ≡ some j.id
  stale-acquired_again env env' env'' locked locked' j c r r' r'' late on more free =
      ap (λ o. (acquire_job env'' locked' (release_stale_locks env' o.1)).0)
        (acquire_alone env locked j c r)
      ∙ ap (λ jobs. (acquire_job env'' locked' jobs).0)
          (release_alone env' (lock env j) r' refl (ground arith))
      ∙ ap (λ o. o.0) (acquire_alone env'' locked' (released (lock env j)) (ground arith) r'')

  not_acquired :
      (env : Env P D) (locked : ℕ → Bool) (j : Job P D)
      → is_candidate env locked j ≡ false
      → acquire_job env locked (j ∷ []) ≡ (none, j ∷ [])
  unfolding acquire_job
  not_acquired env locked j c = rw (c, acquire_job) refl

  not_executed :
      (env : Env P D) (i : ℕ) (j : Job P D)
      → (j.id == i) ≡ false
      → execute_job env i (j ∷ []) ≡ (j ∷ [], false)
  unfolding execute_job
  not_executed env i j e = rw (e, execute_job) refl

  -- The task of the job ends.
  abbrev pub ends : ℕ → Action P D → Bool
  ends id (executes env i) = i == id
  ends id (acquires env locked) = false
  ends id (releases env) = false

  perform-stranded :
      (a : Action P D) (j : Job P D)
      → j.max_attempts ≤ j.attempts
      → ends j.id a ≡ false
      → perform a (released j ∷ []) ≡ released j ∷ []
  unfolding perform acquire_job release_stale_locks execute_job execute_job_with_timeout
  perform-stranded (acquires env locked) j h e =
      ap (λ o. o.1) (not_acquired env locked (released j) (ground arith))
  perform-stranded (releases env) j h e = elim (Bool-cases (env.refuses Commit.releasing)) [
    | inl r ↦ rw (r, release_stale_locks) refl
    | inr r ↦ rw (r, release_stale_locks) refl
  ]
  perform-stranded (executes env i) j h e =
      rw
        (
          not_executed env i (released j) (ground (arith, eqb_iff j.id i, eqb_iff i j.id)),
          execute_job_with_timeout,
        )
        refl

  -- A lone job whose lock turns stale on its last attempt is put back in the queue by the cleanup,
  -- where its commit is accepted, and stays there, whatever the workers do, unless its task ends
  -- after all.
  pub stale-stranded :
      (env : Env P D) (j : Job P D) (actions : List (Action P D))
      → env.refuses Commit.releasing ≡ false
      → is_running j.status ≡ true
      → is_stale env j.locked_at ≡ true
      → j.max_attempts ≤ j.attempts
      → any (ends j.id) actions ≡ false
      → run actions (release_stale_locks env (j ∷ [])) ≡ released j ∷ []
  stale-stranded env j actions r s t m e =
      ap (run actions) (release_alone env j r s t) ∙ stay actions e
    where
      stay :
          (actions : List (Action P D))
          → any (ends j.id) actions ≡ false
          → run actions (released j ∷ []) ≡ released j ∷ []
      stay [] e = refl
      stay (a ∷ actions) e =
          ap (run actions) (perform-stranded a j m (ground arith)) ∙ stay actions (ground arith)
