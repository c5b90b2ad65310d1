-- ===== src/Tasks/Remote/Chosen.antt =====
-- How many tasks a runner is given (services/tasks/RemoteJob.go).
use contribute_semaphore.Base.{
  ℕ, ◌+◌, ◌≤◌, ◌<◌, ◌≡◌, refl, sym, ap, subst, ◌∙◌, ◌≢◌, inl, inr, Option, none, some, List, [],
  ◌∷◌, map, arith,
}
use contribute_semaphore.Base.Tests.{ltb, ◌==◌, ltb→lt, Bool-cases}
use contribute_semaphore.Base.Lists.{All}
use contribute_semaphore.Base.Map.{values}
use contribute_semaphore.Base.Text.{Text, text}
use contribute_semaphore.Model.Resources.{Runner}
use contribute_semaphore.Model.Store.{ok}
use contribute_semaphore.Tasks.Pool.{
  get_task, get_number_of_running_tasks_of_runner, get_running_tasks, count_of,
}
use contribute_semaphore.Tasks.Remote.{
  Post, call_runner_webhook, waits_for, choose_runner, assigned, start_chosen, start_remote,
}
use contribute_semaphore.Tasks.World.{Ref, World, TaskRunner, runner, set_runner, update}

-- No reference stands twice.
abbrev pub Once : List Ref → Type 0
Once [] = Unit {0}
Once (q ∷ qs) = All (λ r. r ≢ q) qs × Once qs

pub count_absent :
    (id : ℕ) (f : Ref → TaskRunner) (q : Ref) (t : TaskRunner) (qs : List Ref)
    → All (λ r. r ≢ q) qs
    → count_of id (map (update f q t) qs) ≡ count_of id (map f qs)
unfolding count_of
count_absent id f q t [] h = refl
count_absent id f q t (r ∷ qs) h = ground (arith, h.0, count_absent id f q t qs h.1)

-- To change one runner changes the count by one at most.
count-update :
    (id : ℕ) (f : Ref → TaskRunner) (q : Ref) (t : TaskRunner) (qs : List Ref)
    → Once qs
    → count_of id (map (update f q t) qs) ≤ count_of id (map f qs) + 1
unfolding count_of
count-update id f q t [] h = omega arith
count-update id f q t (r ∷ qs) h = elim (Bool-cases (q == r)) [
  | inl e ↦
      let same : r ≡ q = ground arith in
      subst (λ z. count_of id (map (update f z t) (r ∷ qs)) ≤ count_of id (map f (r ∷ qs)) + 1) same
        (ground (arith, count_absent id f r t qs h.0))
  | inr n ↦ ground (arith, n, count-update id f q t qs h.1)
]

module _ {S : Type 0} where
  choose_runner-lt :
      (w : World S) (rs : List Runner) (r : Runner)
      → choose_runner w rs ≡ some r
      → get_number_of_running_tasks_of_runner r.id w < r.max_parallel_tasks
  unfolding choose_runner
  choose_runner-lt w [] r h = absurd (cc)
  choose_runner-lt w (q ∷ rs) r h =
      elim (Bool-cases (ltb (get_number_of_running_tasks_of_runner q.id w) q.max_parallel_tasks)) [
        | inl room ↦
            let same : q ≡ r = ground arith in
            subst (λ z. get_number_of_running_tasks_of_runner z.id w < z.max_parallel_tasks) same
              (ltb→lt _ _ room)
        | inr full ↦ choose_runner-lt w rs r (ground arith)
      ]

  number-set_runner :
      (id : ℕ) (q : Ref) (t : TaskRunner) (w : World S)
      → Once (get_running_tasks w)
      → get_number_of_running_tasks_of_runner id (set_runner q t w)
        ≤ get_number_of_running_tasks_of_runner id w + 1
  unfolding get_number_of_running_tasks_of_runner get_running_tasks
  number-set_runner id q t w once = count-update id w.runners q t (values w.running_tasks) once

  -- What the start of a job has done when it waits.
  start_chosen-Within :
      (post : Post) (meanwhile : World S → World S) (q : Ref) (o : Option Runner) (w w' : World S)
      (r : Runner)
      → start_chosen post meanwhile q o w ≡ (w', waits_for r)
      → (o ≡ some r)
        × (w' ≡ set_runner q (record (runner q (meanwhile w)) { runner_id = r.id }) (meanwhile w))
  unfolding start_chosen
  start_chosen-Within post meanwhile q none w w' r h = absurd (ground arith)
  start_chosen-Within post meanwhile q (some p) w w' r h =
      go (call_runner_webhook post p (runner q w) (text "start")) refl
    where
      go :
          (e : Option Text)
          → call_runner_webhook post p (runner q w) (text "start") ≡ e
          → (some p ≡ some r)
            × (w'
                ≡ set_runner q (record (runner q (meanwhile w)) { runner_id = r.id }) (meanwhile w))
      go (some x) e = absurd (ground arith)
      go none e =
          let same : some p ≡ some r = ground arith in
          let here : p ≡ r = ground arith in
          let left : set_runner q (record (runner q (meanwhile w)) { runner_id = p.id })
                (meanwhile w)
              ≡ w' =
            ground arith in
          (
            same,
            sym left
                ∙ ap
                    (λ z.
                      set_runner q (record (runner q (meanwhile w)) { runner_id = z.id })
                        (meanwhile w))
                    here,
          )

  -- When a remote job waits for a runner, the runner is named in the task and has no more running
  -- tasks than it may have, where no task runs twice and no other task is given that runner while
  -- its webhook is called; what other goroutines do during the two requests is arbitrary
  -- otherwise.
  pub start_remote-within :
      (post : Post) (reading meanwhile : World S → World S) (rs : List Runner) (id : ℕ)
      (username : Text) (version : Option Text) (w w' : World S) (r : Runner)
      → ((q : Ref)
          → get_task id w ≡ some q
          → (v : World S) → v ≡ reading (assigned q username version w)
          → Once (get_running_tasks (meanwhile v))
            × (get_number_of_running_tasks_of_runner r.id (meanwhile v)
                ≤ get_number_of_running_tasks_of_runner r.id v))
      → start_remote post reading meanwhile (ok rs) id username version w ≡ (w', waits_for r)
      → (q : Ref) × (get_task id w ≡ some q)
        × ((runner q w').runner_id ≡ r.id)
        × (get_number_of_running_tasks_of_runner r.id w' ≤ r.max_parallel_tasks)
  unfolding start_remote
  start_remote-within post reading meanwhile rs id username version w w' r alone h =
      go (get_task id w) refl
    where
      go :
          (o : Option Ref)
          → get_task id w ≡ o
          → (q : Ref) × (get_task id w ≡ some q)
            × ((runner q w').runner_id ≡ r.id)
            × (get_number_of_running_tasks_of_runner r.id w' ≤ r.max_parallel_tasks)
      go none e = absurd (ground arith)
      go (some q) e =
          let v = reading (assigned q username version w) in
          let u = meanwhile v in
          let kept = alone q e v refl in
          let started : start_chosen post meanwhile q (choose_runner v rs) v ≡ (w', waits_for r) =
            ground arith in
          let within = start_chosen-Within post meanwhile q (choose_runner v rs) v w' r started in
          let room = choose_runner-lt v rs r within.0 in
          let there : (runner q w').runner_id ≡ r.id =
            ap (λ z. (runner q z).runner_id) within.1 ∙ ground arith in
          let one_more : get_number_of_running_tasks_of_runner r.id w'
              ≤ get_number_of_running_tasks_of_runner r.id u + 1 =
            subst
              (λ z.
                get_number_of_running_tasks_of_runner r.id z
                ≤ get_number_of_running_tasks_of_runner r.id u + 1)
              (sym within.1)
              (number-set_runner r.id q (record (runner q u) { runner_id = r.id }) u kept.0) in
          let still = kept.1 in (q, e, there, omega arith)
