-- ===== src/Examples/Statuses.antt =====
-- The theorems on the status of a task, at the pool of the examples.
use contribute_semaphore.Base.{◌≡◌, refl, ◌⊎◌, inl, false, none, [], ◌∷◌}
use contribute_semaphore.Base.Map.{lookup, insert}
use contribute_semaphore.Examples.Disk.{
  Disk, disk_store, disk_laws, read_task, write_task, pool, result, outside, runner_of, task,
}
use contribute_semaphore.Model.Status.{waiting, running, stopping, success}
use contribute_semaphore.Tasks.Alert.{send_telegram_alert, send_slack_alert}
use contribute_semaphore.Tasks.Add.{stop_task}
use contribute_semaphore.Tasks.Pool.{get_task}
use contribute_semaphore.Tasks.Run.{end_run}
use contribute_semaphore.Tasks.Status.{refused, mark, set_status, save_status, alerts}
use contribute_semaphore.Tasks.Status.Rules.{Changed, set_status-Changed}
use contribute_semaphore.Tasks.Status.Runs.{set_each, IsSynced, set_each-IsSynced, finished_reopens}
use contribute_semaphore.Tasks.Stop.{IsStopped, stop_task-IsStopped}
use contribute_semaphore.Tasks.World.{World, done}

abbrev started : World Disk
started = result (set_status disk_store 5 0 running (pool waiting))

set_status-Changed_example :
    (started ≡ pool waiting) ⊎ Changed disk_store 5 0 running (pool waiting) started
unfolding set_status alerts save_status refused write_task
set_status-Changed_example = set_status-Changed disk_store 5 0 running (pool waiting) started refl

abbrev halted : World Disk
halted = result (set_each disk_store 5 0 (running ∷ waiting ∷ success ∷ []) (pool waiting))

set_each-IsSynced_example : IsSynced disk_store 0 halted
unfolding set_status alerts save_status refused write_task set_each read_task lookup
    send_telegram_alert send_slack_alert
set_each-IsSynced_example =
    set_each-IsSynced disk_store disk_laws 5 0 (running ∷ waiting ∷ success ∷ []) (pool waiting)
      halted (_, refl, refl) refl

finished_reopens_example :
    (v : World Disk) × (set_status disk_store 5 0 waiting (pool success) ≡ done v)
    × ((v.runners 0).task.status ≡ waiting)
    × (v.store ≡ record (pool success).store {
      tasks = insert 7 (task 7 3 waiting) (pool success).store.tasks;
    })
unfolding write_task mark lookup
finished_reopens_example =
    finished_reopens disk_store 5 0 waiting (pool success) _ (inl refl) (λ e. cc) (λ e. cc) refl

abbrev killed : World Disk
killed = result (set_status disk_store 5 0 stopping (pool running))

stop_task-IsStopped_example :
    IsStopped outside disk_store (runner_of (task 0 0 waiting)) false 0 running killed none (0 ∷ [])
unfolding set_status alerts save_status refused write_task stop_task get_task
stop_task-IsStopped_example =
    stop_task-IsStopped outside disk_store (runner_of (task 0 0 waiting)) 5 (task 7 3 running) false
      0 (pool running) killed none (0 ∷ []) refl refl

abbrev over : World Disk
over = result (end_run outside disk_store (runner_of (task 0 0 waiting)) 5 0 (pool success))
