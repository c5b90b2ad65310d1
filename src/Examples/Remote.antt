-- ===== src/Examples/Remote.antt =====
-- The theorems on remote jobs, for a pool whose first task waits and a runner that takes one task.
use contribute_semaphore.Base.{ℕ, ◌≤◌, ◌≡◌, refl, none, some, [], ◌∷◌, arith}
use contribute_semaphore.Base.Map.{values}
use contribute_semaphore.Base.Text.{text, text_eq}
use contribute_semaphore.Examples.Disk.{Disk, pool}
use contribute_semaphore.Model.Resources.{Runner}
use contribute_semaphore.Model.Status.{waiting}
use contribute_semaphore.Model.Store.{ok}
use contribute_semaphore.Tasks.Pool.{
  get_task, get_running_tasks, get_number_of_running_tasks_of_runner,
}
use contribute_semaphore.Tasks.Remote.{
  waits_for, start_remote, start_chosen, choose_runner, call_runner_webhook,
}
use contribute_semaphore.Tasks.Remote.Chosen.{Once, start_remote-within}
use contribute_semaphore.Tasks.Remote.Shared.{other_job, two_jobs_overfill}
use contribute_semaphore.Tasks.World.{World, TaskRunner, runner}

abbrev spare : Runner
spare = record {
  id = 6;
  token = [];
  project_id = none;
  webhook = text "http://spare";
  max_parallel_tasks = 1;
}

-- While the webhook is called, the first task is taken from the queue.
abbrev taken : World Disk → World Disk
taken w = record w { queue = 1 ∷ [] }

abbrev started : World Disk
started =
    (start_remote (λ url p. ok 204) (λ w. w) taken (ok (spare ∷ [])) 7 (text "jane") none
      (pool waiting)).0

-- Nothing runs.
idle-alone :
    (v : World Disk)
    → v.running_tasks ≡ []
    → Once (get_running_tasks (taken v))
      × (get_number_of_running_tasks_of_runner 6 (taken v)
          ≤ get_number_of_running_tasks_of_runner 6 v)
unfolding get_running_tasks get_number_of_running_tasks_of_runner values
idle-alone v e = (rw e tt, omega arith)

start_remote-within_example :
    (q : ℕ) × (get_task 7 (pool waiting) ≡ some q)
    × ((runner q started).runner_id ≡ 6)
    × (get_number_of_running_tasks_of_runner 6 started ≤ 1)
unfolding start_remote start_chosen choose_runner call_runner_webhook get_task
    get_number_of_running_tasks_of_runner text_eq values
start_remote-within_example =
    start_remote-within (λ url p. ok 204) (λ w. w) taken (spare ∷ []) 7 (text "jane") none
      (pool waiting) started spare (λ q f v e. idle-alone v (cc e)) refl

-- The first two tasks run, and their jobs start.
abbrev both : World Disk
both = record (pool waiting) { queue = []; running_tasks = (7, 0) ∷ (8, 1) ∷ [] }

answered : (t : TaskRunner) → call_runner_webhook (λ url p. ok 204) spare t (text "start") ≡ none
unfolding call_runner_webhook text_eq
answered t = refl

two_jobs_overfill_example :
    (v : World Disk) × (start_chosen
        (λ url p. ok 204)
        (other_job (λ url p. ok 204) 1 (spare ∷ []))
        0
        (choose_runner both (spare ∷ []))
        both
      ≡ (v, waits_for spare))
    × ((runner 0 v).runner_id ≡ 6)
    × ((runner 1 v).runner_id ≡ 6)
    × (get_number_of_running_tasks_of_runner 6 v ≡ 2)
unfolding choose_runner get_number_of_running_tasks_of_runner get_running_tasks values
two_jobs_overfill_example =
    two_jobs_overfill (λ url p. ok 204) (spare ∷ []) spare 0 1 both refl refl (λ e. cc e)
      ((λ e. cc e, tt), (tt, tt)) refl refl (λ e. cc e) (λ e. cc e) answered
