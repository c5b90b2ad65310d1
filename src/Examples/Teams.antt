-- ===== src/Examples/Teams.antt =====
-- The theorems on teams and on runners, for a team of an owner, a manager and a guest, and for a runner
-- with one job that has ended and one that waits.
use contribute_semaphore.Base.{ℕ, ◌≡◌, refl, Bool, true, false, none, some, [], ◌∷◌}
use contribute_semaphore.Base.Tests.{◌==◌}
use contribute_semaphore.Access.Owner.{HasOwner, serve-HasOwner}
use contribute_semaphore.Access.Team.{Team, Actor, change, serve}
use contribute_semaphore.Base.Lists.{find}
use contribute_semaphore.Base.Map.{lookup, values}
use contribute_semaphore.Base.Text.{text}
use contribute_semaphore.Examples.Disk.{Disk, disk_store, pool, result, runner_of, task, outside}
use contribute_semaphore.Model.Roles.{owner, manager, guest}
use contribute_semaphore.Model.Status.{starting, running, success, is_finished, other}
use contribute_semaphore.Model.Resources.{AccessKey}
use contribute_semaphore.Runners.Data.{JobData, JobProgress, JobPool, RunningJob, RunnerState}
use contribute_semaphore.Runners.Pool.{queue_tick, send_progress, check_new_jobs}
use contribute_semaphore.Runners.Progress.{report, send_progress-reported, get_runner-jobs}
use contribute_semaphore.Runners.Server.{get_runner, job_data, update_runner}
use contribute_semaphore.Runners.Unique.{IsUnique, steps-IsUnique}
use contribute_semaphore.Tasks.Pool.{get_running_tasks}
use contribute_semaphore.Tasks.World.{World}

abbrev team : Team
team = (1, owner) ∷ (2, manager) ∷ (3, guest) ∷ []

abbrev user : ℕ → Actor
user id = record { id = id; admin = false }

serve-HasOwner_example : HasOwner (serve (λ u. true) (user 1) (change 2 guest) team).0
unfolding lookup
serve-HasOwner_example =
    serve-HasOwner (λ u. true) (user 1) team refl (change 2 guest) refl (1, refl)

abbrev job : ℕ → JobData
job id = job_data (runner_of (task id 3 starting))

abbrev ended : RunningJob
ended = record {
  status = success;
  log_records = record { time = 5; message = text "ok" } ∷ [];
  job = job 7;
}

abbrev jobs : JobPool
jobs = record {
  running_jobs = (7, ended) ∷ [];
  queue = record { job = job 8; status = other [] } ∷ [];
}

steps-IsUnique_example :
    IsUnique (queue_tick jobs)
    × IsUnique (send_progress jobs).1
    × ((z : AccessKey) (one_off : Bool) (response : RunnerState)
        → IsUnique (check_new_jobs z one_off response jobs).0)
unfolding lookup
steps-IsUnique_example = steps-IsUnique jobs (refl, refl, tt)

send_progress-reported_example :
    (find (λ g. g.id == 7) (send_progress jobs).0 ≡ some (report 7 ended))
    × (lookup 7 (send_progress jobs).1.running_jobs ≡ none)
unfolding lookup is_finished
send_progress-reported_example = send_progress-reported jobs 7 ended (refl, tt) refl

abbrev busy : World Disk
busy = record (pool starting) { running_tasks = (7, 0) ∷ [] }

get_runner-jobs_example :
    ((get_runner outside 0 busy).new_jobs ≡ job 7 ∷ [])
    × ((get_runner outside 0 busy).current_jobs ≡ [])
unfolding get_running_tasks values
get_runner-jobs_example = get_runner-jobs outside 0 busy

abbrev progress : JobProgress
progress = record { id = 7; status = running; log_records = [] }

abbrev told : World Disk
told = result (update_runner disk_store 5 (progress ∷ []) (pool starting))
