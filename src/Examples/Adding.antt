-- ===== src/Examples/Adding.antt =====
-- The theorems on AddTask and on the chain of builds, at the pool of the examples.
use contribute_semaphore.Base.{◌-◌, ◌≡◌, refl, Option, none, some, [], ◌∷◌, arith}
use contribute_semaphore.Base.Map.{lookup}
use contribute_semaphore.Base.Text.{Text, text_eq}
use contribute_semaphore.Examples.Disk.{
  Disk, disk, disk_store, read_task, write_task, pool, outside, runner_of, task,
}
use contribute_semaphore.Model.Status.{waiting}
use contribute_semaphore.Model.Store.{Result}
use contribute_semaphore.Model.Task.{Task}
use contribute_semaphore.Tasks.Add.{enqueue, queue_runner, queue_event}
use contribute_semaphore.Tasks.Add.Queued.{IsQueued, enqueue-IsQueued}
use contribute_semaphore.Tasks.Details.{
  populate_json, populate_environment, populate_repository, populate_inventory, populate_users,
  populate_project, populate, populate_details,
}
use contribute_semaphore.Tasks.Incoming.{incoming_fuel, get_incoming_version}
use contribute_semaphore.Tasks.Incoming.Chain.{HasRanks, get_incoming_version-total}
use contribute_semaphore.Tasks.Pool.{register}
use contribute_semaphore.Tasks.Status.{log, save_status}
use contribute_semaphore.Tasks.World.{World, TaskRunner, Outcome, done, panic}

abbrev blank : TaskRunner
blank = runner_of (task 0 0 waiting)

abbrev first : Outcome (World Disk × Result Task) → World Disk
first (done p) = p.0
first (panic m) = pool waiting

abbrev longer : World Disk
longer = first (enqueue outside disk_store blank 5 none 1 (task 9 3 waiting) (pool waiting))

enqueue-IsQueued_example :
    IsQueued outside disk_store blank (task 9 3 waiting) (task 9 3 waiting) (pool waiting) longer
unfolding enqueue queue_runner queue_event register log save_status write_task populate_details
    populate populate_project populate_users populate_inventory populate_repository
    populate_environment populate_json text_eq
enqueue-IsQueued_example =
    enqueue-IsQueued outside disk_store blank 5 none 1 (task 9 3 waiting) (task 9 3 waiting)
      (pool waiting) longer refl

abbrev deployment : Task
deployment = record (task 2147483645 4 waiting) { build_task_id = some 2147483646 }

abbrev chain : Disk
chain = record (disk waiting) {
  tasks = (2147483645, deployment) ∷ (2147483646, task 2147483646 3 waiting) ∷ [];
}

older : HasRanks disk_store chain (λ n. 2147483647 - n)
unfolding read_task lookup
older p b t h = (ground arith, (omega arith, λ c e. ground arith))

get_incoming_version-total_example :
    (v : Option Text) × (get_incoming_version disk_store chain incoming_fuel deployment ≡ some v)
get_incoming_version-total_example =
    get_incoming_version-total disk_store chain (λ n. 2147483647 - n) older deployment
      (omega arith, λ b e. ground arith)

abbrev circular : Task
circular = record (task 7 3 waiting) { build_task_id = some 7 }

abbrev circle : Disk
circle = record (disk waiting) { tasks = (7, circular) ∷ [] }
