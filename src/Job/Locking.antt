-- ===== src/Job/Locking.antt =====
-- Which job a poll takes, and for how long no other poll takes it.
use swx.Prelude.{
  ◌∙◌, ap, sym, ℕ, ◌≡◌, ◌≢◌, refl, Bool, true, false, ◌&&◌, ◌||◌, not, none, some, List, [], ◌∷◌,
  arith, nat_eq, ◌==◌, eqb_iff, any, all, subst, Bool-cases, Option-cases, inl, inr,
}
use mathlib.Core.List.{Memᴰ}
use mathlib.Core.Option.{some-injective}
use swx.Job.Model.{JobStatus, Job, Commit, Env, Action, acquires, executes, releases}
use swx.Job.Runner.{
  is_open, is_running, is_candidate, precedes, earlier, next_job, lock, save, acquire_job, perform,
  run,
}
use swx.Job.Steps.{next_job-all, acquire_job-all, execute_job_with_timeout-all}

and_false_or : (a b : Bool) → b ≡ false → (a && false || b) ≡ false
and_false_or a b h = ground arith

open_not_running : (st : JobStatus) → is_open st ≡ true → is_running st ≡ false
open_not_running JobStatus.running h = cc
open_not_running JobStatus.pending h = refl
open_not_running JobStatus.queued h = refl
open_not_running JobStatus.completed h = refl
open_not_running JobStatus.failed h = refl
open_not_running JobStatus.dead_letter h = refl
open_not_running JobStatus.cancelled h = refl

module _ {P D : Type 0} where
  precedes_trans :
      (i j k : Job P D) → precedes i j ≡ false → precedes j k ≡ false → precedes i k ≡ false
  precedes_trans i j k h h' = ground arith

  precedes_irrefl : (j : Job P D) → precedes j j ≡ false
  precedes_irrefl j = ground arith

  precedes_asym : (j k : Job P D) → precedes j k ≡ true → precedes k j ≡ false
  precedes_asym j k h = ground arith

  abbrev comes_before : Env P D → (ℕ → Bool) → Job P D → Job P D → Bool
  comes_before env locked j k = is_candidate env locked k && precedes k j

  none_before_later :
      (env : Env P D) (locked : ℕ → Bool) (y j : Job P D) (jobs : List (Job P D))
      → precedes y j ≡ false
      → any (comes_before env locked y) jobs ≡ false
      → any (comes_before env locked j) jobs ≡ false
  none_before_later env locked y j [] h k = refl
  none_before_later env locked y j (x ∷ jobs) h k = elim (Bool-cases (is_candidate env locked x)) [
    | inl c ↦
        rw (c, precedes_trans x y j (ground arith) h)
          (none_before_later env locked y j jobs h (ground arith))
    | inr c ↦ rw c (none_before_later env locked y j jobs h (ground arith))
  ]

  no_candidate :
      (env : Env P D) (locked : ℕ → Bool) (j : Job P D) (jobs : List (Job P D))
      → next_job env locked jobs ≡ none
      → any (comes_before env locked j) jobs ≡ false
  no_candidate env locked j [] h = refl
  no_candidate env locked j (x ∷ jobs) h = elim (Bool-cases (is_candidate env locked x)) [
    | inl c ↦ absurd (cc (rw c at h))
    | inr c ↦ rw c (no_candidate env locked j jobs (rw c at h))
  ]

  none_before_earlier :
      (env : Env P D) (locked : ℕ → Bool) (x y : Job P D) (jobs : List (Job P D))
      → any (comes_before env locked y) jobs ≡ false
      → any (comes_before env locked (earlier x (some y))) (x ∷ jobs) ≡ false
  none_before_earlier env locked x y jobs h = elim (Bool-cases (precedes y x)) [
    | inl e ↦
        subst (λ j. any (comes_before env locked j) (x ∷ jobs) ≡ false) {x = y}
          {y = earlier x (some y)} (rw e refl)
          (rw (precedes_asym y x e) (and_false_or (is_candidate env locked x) _ h))
    | inr e ↦
        subst (λ j. any (comes_before env locked j) (x ∷ jobs) ≡ false) {x = x}
          {y = earlier x (some y)} (rw e refl)
          (rw (precedes_irrefl x) (
            and_false_or (is_candidate env locked x) _ (none_before_later env locked y x jobs e h)))
  ]

  next_job-first :
      (env : Env P D) (locked : ℕ → Bool) (j : Job P D) (jobs : List (Job P D))
      → next_job env locked jobs ≡ some j
      → any (comes_before env locked j) jobs ≡ false
  next_job-first env locked j [] h = cc
  next_job-first env locked j (x ∷ jobs) h = elim (Bool-cases (is_candidate env locked x)) [
    | inl c ↦ elim (Option-cases (next_job env locked jobs)) [
      | inl e ↦
          subst (λ j. any (comes_before env locked j) (x ∷ jobs) ≡ false)
            (some-injective _ _ (rw (c, e) at h))
            (rw (c, precedes_irrefl x) (no_candidate env locked x jobs e))
      | inr (y, e) ↦
          subst (λ j. any (comes_before env locked j) (x ∷ jobs) ≡ false)
            (some-injective _ _ (rw (c, e) at h))
            (none_before_earlier env locked x y jobs (next_job-first env locked y jobs e))
    ]
    | inr c ↦ rw c (next_job-first env locked j jobs (rw c at h))
  ]

  all-true : (jobs : List (Job P D)) → all (λ _. true) jobs ≡ true
  all-true [] = refl
  all-true (j ∷ jobs) = all-true jobs

  next_job-is_candidate :
      (env : Env P D) (locked : ℕ → Bool) (j : Job P D) (jobs : List (Job P D))
      → next_job env locked jobs ≡ some j
      → is_candidate env locked j ≡ true
  next_job-is_candidate env locked j jobs e =
      next_job-all env locked (λ _. true) j jobs e (all-true jobs)

  acquire_job-next :
      (env : Env P D) (locked : ℕ → Bool) (id : ℕ) (jobs jobs' : List (Job P D))
      → acquire_job env locked jobs ≡ (some id, jobs')
      → (j : Job P D) × (next_job env locked jobs ≡ some j)
        × (j.id ≡ id)
        × (jobs' ≡ save (lock env j) jobs)
  unfolding acquire_job
  acquire_job-next env locked id jobs jobs' h = elim (Option-cases (next_job env locked jobs)) [
    | inl e ↦ absurd (cc (rw (e, acquire_job) at h))
    | inr (j, e) ↦ elim (Bool-cases (env.refuses Commit.locking)) [
      | inl r ↦ absurd (cc (rw (e, r, acquire_job) at h))
      | inr r ↦
          let q : (some j.id, save (lock env j) jobs) ≡ (some id, jobs') =
            rw (e, r, acquire_job) at h in
          (j, e, some-injective _ _ (ap (λ x. x.0) q), sym (ap (λ x. x.1) q))
    ]
  ]

  next_job-Memᴰ :
      (env : Env P D) (locked : ℕ → Bool) (j : Job P D) (jobs : List (Job P D))
      → next_job env locked jobs ≡ some j
      → Memᴰ j jobs
  next_job-Memᴰ env locked j [] h = absurd (cc h)
  next_job-Memᴰ env locked j (x ∷ jobs) h = elim (Bool-cases (is_candidate env locked x)) [
    | inl c ↦ elim (Option-cases (next_job env locked jobs)) [
      | inl e ↦ Memᴰ.head (sym (some-injective _ _ (rw (c, e) at h)))
      | inr (y, e) ↦ elim (Bool-cases (precedes y x)) [
        | inl b ↦
            Memᴰ.tail (
              next_job-Memᴰ env locked j jobs
                (e ∙ ap some (some-injective _ _ (rw (c, e, b) at h))))
        | inr b ↦ Memᴰ.head (sym (some-injective _ _ (rw (c, e, b) at h)))
      ]
    ]
    | inr c ↦ Memᴰ.tail (next_job-Memᴰ env locked j jobs (rw c at h))
  ]

  -- A poll that takes a job takes one of the table that is open, due, allowed another attempt and locked by
  -- nobody, such that no other one like this has a smaller priority, or the same and an earlier
  -- creation; its row is then the locked one, and
  -- the rows of other ids are as they were.
  pub acquire_job-first :
      (env : Env P D) (locked : ℕ → Bool) (id : ℕ) (jobs jobs' : List (Job P D))
      → acquire_job env locked jobs ≡ (some id, jobs')
      → (j : Job P D) × Memᴰ j jobs
        × (j.id ≡ id)
        × (is_candidate env locked j ≡ true)
        × (any (λ k. is_candidate env locked k && precedes k j) jobs ≡ false)
        × (jobs' ≡ save (lock env j) jobs)
  acquire_job-first env locked id jobs jobs' h =
      let (j, e, i, q) = acquire_job-next env locked id jobs jobs' h in
      (
        j,
        next_job-Memᴰ env locked j jobs e,
        i,
        next_job-is_candidate env locked j jobs e,
        next_job-first env locked j jobs e,
        q,
      )

  -- Every row of this id is running.
  abbrev pub is_held : ℕ → Job P D → Bool
  is_held id j = not (j.id == id) || is_running j.status

  -- The task of the job ends, or the cleanup runs.
  abbrev pub frees : ℕ → Action P D → Bool
  frees id (acquires env locked) = false
  frees id (executes env i) = i == id
  frees id (releases env) = true

  acquire_job-held :
      (env : Env P D) (locked : ℕ → Bool) (id : ℕ) (jobs : List (Job P D))
      → all (is_held id) jobs ≡ true
      → (acquire_job env locked jobs).0 ≢ some id
  unfolding acquire_job
  acquire_job-held env locked id jobs h q =
      let (j, e, i, _) =
        acquire_job-next env locked id jobs (acquire_job env locked jobs).1
          (ap (λ o. (o, (acquire_job env locked jobs).1)) q) in
      let held = next_job-all env locked (is_held id) j jobs e h in
      ground (arith, held, open_not_running j.status, eqb_iff j.id id, i)

  perform-held :
      (id : ℕ) (a : Action P D) (jobs : List (Job P D))
      → frees id a ≡ false
      → all (is_held id) jobs ≡ true
      → all (is_held id) (perform a jobs) ≡ true
  unfolding perform
  perform-held id (acquires env locked) jobs f h =
      acquire_job-all env locked (is_held id) jobs (λ j c t. ground arith) h
  perform-held id (executes env i) jobs f h =
      execute_job_with_timeout-all (is_held id) i (λ j k at u t. rw (u.0, at, f) refl) env jobs h
  perform-held id (releases env) jobs f h = absurd (cc f)

  run-held :
      (id : ℕ) (actions : List (Action P D)) (jobs : List (Job P D))
      → any (frees id) actions ≡ false
      → all (is_held id) jobs ≡ true
      → all (is_held id) (run actions jobs) ≡ true
  run-held id [] jobs f h = h
  run-held id (a ∷ actions) jobs f h =
      run-held id actions (perform a jobs) (ground arith) (perform-held id a jobs (ground arith) h)

  saved-held :
      (id : ℕ) (j : Job P D) (jobs : List (Job P D))
      → j.id ≡ id
      → is_running j.status ≡ true
      → all (is_held id) (save j jobs) ≡ true
  saved-held id j [] i r = refl
  saved-held id j (x ∷ jobs) i r =
      ground (arith, saved-held id j jobs i r, eqb_iff x.id j.id, eqb_iff x.id id, eqb_iff j.id id)

  taken-held :
      (env : Env P D) (locked : ℕ → Bool) (id : ℕ) (jobs jobs' : List (Job P D))
      → acquire_job env locked jobs ≡ (some id, jobs')
      → all (is_held id) jobs' ≡ true
  taken-held env locked id jobs jobs' h =
      let (j, _, i, c, _, q) = acquire_job-first env locked id jobs jobs' h in
      subst (λ x. all (is_held id) x ≡ true) (sym q) (saved-held id (lock env j) jobs i refl)

  -- No double execution: once a poll has taken a job, no poll of any worker takes it again until its
  -- task ends or the cleanup of stale locks runs, whatever happens to the other jobs meanwhile.
  pub taken-not_acquired :
      (env env' : Env P D) (locked locked' : ℕ → Bool) (id : ℕ) (jobs jobs' : List (Job P D))
      (actions : List (Action P D))
      → acquire_job env locked jobs ≡ (some id, jobs')
      → any (frees id) actions ≡ false
      → (acquire_job env' locked' (run actions jobs')).0 ≢ some id
  taken-not_acquired env env' locked locked' id jobs jobs' actions h f =
      acquire_job-held env' locked' id (run actions jobs')
        (run-held id actions jobs' f (taken-held env locked id jobs jobs' h))
