-- ===== src/Tasks/Remote/Shared.antt =====
-- Two remote jobs that choose one runner (services/tasks/RemoteJob.go).
use contribute_semaphore.Base.{
  ℕ, ◌+◌, ◌≡◌, refl, sym, ap, subst, ◌∙◌, ◌≢◌, inl, inr, true, none, some, List, [], ◌∷◌, map,
  arith,
}
use contribute_semaphore.Base.Tests.{◌==◌, Bool-cases}
use contribute_semaphore.Base.Lists.{All, any}
use contribute_semaphore.Base.Map.{values}
use contribute_semaphore.Base.Text.{text}
use contribute_semaphore.Model.Resources.{Runner}
use contribute_semaphore.Tasks.Pool.{
  get_number_of_running_tasks_of_runner, get_running_tasks, count_of,
}
use contribute_semaphore.Tasks.Remote.{
  Post, call_runner_webhook, waits_for, choose_runner, start_chosen,
}
use contribute_semaphore.Tasks.Remote.Chosen.{Once, count_absent}
use contribute_semaphore.Tasks.World.{Ref, World, TaskRunner, runner, set_runner, update}

-- To name a runner in one task more makes its count one more.
count-named :
    (id : ℕ) (f : Ref → TaskRunner) (q : Ref) (t : TaskRunner) (qs : List Ref)
    → Once qs
    → any (λ r. r == q) qs ≡ true
    → (f q).runner_id ≢ id
    → t.runner_id ≡ id
    → count_of id (map (update f q t) qs) ≡ count_of id (map f qs) + 1
unfolding count_of
count-named id f q t [] h m n e = absurd (ground arith)
count-named id f q t (r ∷ qs) h m n e = elim (Bool-cases (q == r)) [
  | inl b ↦
      let same : q ≡ r = ground arith in
      let absent = count_absent id f q t qs (subst (λ z. All (λ x. x ≢ z) qs) (sym same) h.0) in
      ground (arith, absent, same)
  | inr b ↦ ground (arith, b, count-named id f q t qs h.1)
]

module _ {S : Type 0} where
  number-named :
      (id : ℕ) (q : Ref) (t : TaskRunner) (w : World S)
      → Once (get_running_tasks w)
      → any (λ r. r == q) (get_running_tasks w) ≡ true
      → (runner q w).runner_id ≢ id
      → t.runner_id ≡ id
      → get_number_of_running_tasks_of_runner id (set_runner q t w)
        ≡ get_number_of_running_tasks_of_runner id w + 1
  unfolding get_number_of_running_tasks_of_runner get_running_tasks
  number-named id q t w once m n e =
      count-named id w.runners q t (values w.running_tasks) once m n e

  -- What a job does that counts the runners in the state that it finds, and is not interrupted.
  abbrev pub other_job : Post → Ref → List Runner → World S → World S
  other_job post q rs w = (start_chosen post (λ u. u) q (choose_runner w rs) w).0

  start_chosen-named :
      (post : Post) (meanwhile : World S → World S) (q : Ref) (r : Runner) (w : World S)
      → call_runner_webhook post r (runner q w) (text "start") ≡ none
      → start_chosen post meanwhile q (some r) w ≡ (
        set_runner q (record (runner q (meanwhile w)) { runner_id = r.id }) (meanwhile w),
        waits_for r,
      )
  unfolding start_chosen
  start_chosen-named post meanwhile q r w e = rw (e, start_chosen) refl

  -- Where two remote jobs, whose tasks are among the running tasks, each once, and name another
  -- runner, find the first runner with room to have one place left and a webhook that answers
  -- well, and one of them counts, calls the webhook and names the runner while the other waits for
  -- the webhook, both tasks name the runner, and it has one running task more than it may have.
  pub two_jobs_overfill :
      (post : Post) (rs : List Runner) (r : Runner) (p q : Ref) (w : World S)
      → choose_runner w rs ≡ some r
      → get_number_of_running_tasks_of_runner r.id w + 1 ≡ r.max_parallel_tasks
      → p ≢ q
      → Once (get_running_tasks w)
      → any (λ x. x == p) (get_running_tasks w) ≡ true
      → any (λ x. x == q) (get_running_tasks w) ≡ true
      → (runner p w).runner_id ≢ r.id
      → (runner q w).runner_id ≢ r.id
      → ((t : TaskRunner) → call_runner_webhook post r t (text "start") ≡ none)
      → (v : World S) × (start_chosen post (other_job post q rs) p (choose_runner w rs) w
          ≡ (v, waits_for r))
        × ((runner p v).runner_id ≡ r.id)
        × ((runner q v).runner_id ≡ r.id)
        × (get_number_of_running_tasks_of_runner r.id v ≡ r.max_parallel_tasks + 1)
  unfolding get_running_tasks
  two_jobs_overfill post rs r p q w chosen full apart once mp mq np nq answers =
      let u = set_runner q (record (runner q w) { runner_id = r.id }) w in
      let by_other : other_job post q rs w ≡ u =
        ap (λ o. (start_chosen post (λ z. z) q o w).0) chosen
        ∙ ap (λ z. z.0) (start_chosen-named post (λ z. z) q r w (answers (runner q w))) in
      let v = set_runner p (record (runner p u) { runner_id = r.id }) u in
      let started : start_chosen post (other_job post q rs) p (choose_runner w rs) w
          ≡ (v, waits_for r) =
        ap (λ o. start_chosen post (other_job post q rs) p o w) chosen
        ∙ start_chosen-named post (other_job post q rs) p r w (answers (runner p w))
        ∙ ap (λ z. (set_runner p (record (runner p z) { runner_id = r.id }) z, waits_for r))
            by_other in
      let first =
        number-named r.id q (record (runner q w) { runner_id = r.id }) w once mq nq refl in
      let second =
        number-named r.id p (record (runner p u) { runner_id = r.id }) u once mp (ground arith)
          refl in
      (v, started, ground arith, ground arith, omega (arith, first, second, full))
