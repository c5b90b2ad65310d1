-- ===== src/Runners/Pool.antt =====
-- The job pool of a runner (services/runners/JobPool.go): the two tickers of Run, the goroutine of a
-- job, sendProgress and checkNewJobs. The HTTP requests are not part of it: what sendProgress sends is its
-- result, and what the server answers is an argument of check_new_jobs.
use contribute_semaphore.Base.{
  ℕ, Bool, true, false, not, ◌&&◌, ◌||◌, Option, none, some, List, [], ◌∷◌, ◌++◌,
}
use contribute_semaphore.Base.Tests.{ltb, ◌==◌, if◌then◌else◌}
use contribute_semaphore.Base.Lists.{any, length}
use contribute_semaphore.Base.Map.{Map, lookup, insert, size, any_value}
use contribute_semaphore.Base.Text.{Text}
use contribute_semaphore.Model.Resources.{AccessKey}
use contribute_semaphore.Model.Status.{
  TaskStatus, running, stopping, stopped, success, fail, other, status_eq, is_finished,
}
use contribute_semaphore.Runners.Data.{
  JobData, JobState, RunnerState, JobProgress, QueuedJob, RunningJob, JobPool,
}

abbrev pub job_id : JobData → ℕ
job_id j = j.fields.task.id

abbrev pub queued_id : QueuedJob → ℕ
queued_id j = job_id j.job

unfoldable pub exists_in_queue : ℕ → JobPool → Bool
exists_in_queue id p = any (λ j. queued_id j == id) p.queue

unfoldable pub has_running_jobs : JobPool → Bool
has_running_jobs p = any_value (λ j. not (is_finished j.status)) p.running_jobs

-- runningJob.Log2 and SetStatus
unfoldable pub log_job : ℕ → Text → RunningJob → RunningJob
log_job now msg j = record j {
  log_records = j.log_records ++ record { time = now; message = msg } ∷ [];
}

unfoldable pub set_job_status : TaskStatus → RunningJob → RunningJob
set_job_status s j = record j { status = s }

-- The ticker of the queue: the first job leaves the queue and, unless it failed, runs.
unfoldable pub queue_tick : JobPool → JobPool
queue_tick p = elim p.queue [
  | [] ↦ p
  | t ∷ rest ↦ if status_eq t.status fail then record p { queue = rest } else record {
    running_jobs =
        insert (queued_id t) (record { status = other []; log_records = []; job = t.job })
          p.running_jobs;
    queue = rest;
  }
]

-- The goroutine of a job, before and after the job itself, which returns an error or none.
unfoldable pub begin_job : RunningJob → RunningJob
unfolding set_job_status
begin_job j = set_job_status running j

unfoldable pub end_job : Option Text → RunningJob → RunningJob
unfolding set_job_status
end_job e j = if is_finished j.status then j else elim e [
  | some msg ↦ set_job_status (if status_eq j.status stopping then stopped else fail) j
  | none ↦ set_job_status success j
]

-- sendProgress: what is sent, and the jobs that are left.
unfoldable pub progress_of : Map RunningJob → List JobProgress
progress_of [] = []
progress_of ((id, j) ∷ m) =
    record { id = id; status = j.status; log_records = j.log_records } ∷ progress_of m

unfoldable pub left_over : Map RunningJob → Map RunningJob
left_over [] = []
left_over ((id, j) ∷ m) =
    let rest = left_over m in
    if is_finished j.status then rest else (id, record j { log_records = [] }) ∷ rest

unfoldable pub send_progress : JobPool → List JobProgress × JobPool
unfolding progress_of left_over
send_progress p = (progress_of p.running_jobs, record p { running_jobs = left_over p.running_jobs })

-- The first loop of checkNewJobs: the server's status of a job that runs, and the jobs to kill.
unfoldable pub take_statuses : List JobState → Map RunningJob → Map RunningJob × List ℕ
unfolding set_job_status
take_statuses [] m = (m, [])
take_statuses (c ∷ cs) m = elim (lookup c.id m) [
  | none ↦ take_statuses cs m
  | some j ↦
      let rest = take_statuses cs (insert c.id (set_job_status c.status j) m) in
      (
        rest.0,
        if status_eq c.status stopping || status_eq c.status stopped then c.id ∷ rest.1 else rest.1,
      )
]

-- A key that the server did not send reads as the zero value.
abbrev pub key_of : AccessKey → Map AccessKey → ℕ → AccessKey
key_of zero_key keys id = elim (lookup id keys) [ some k ↦ k | none ↦ zero_key ]

abbrev pub key_or : AccessKey → AccessKey → Map AccessKey → Option ℕ → AccessKey
key_or zero_key old keys none = old
key_or zero_key old keys (some id) = key_of zero_key keys id

unfoldable pub with_keys : AccessKey → Map AccessKey → JobData → JobData
with_keys zero_key keys j =
    let f = j.fields in
    record j {
      fields = record f {
        repository = record f.repository { ssh_key = key_of zero_key keys f.repository.ssh_key_id };
        inventory = record f.inventory {
          ssh_key = key_or zero_key f.inventory.ssh_key keys f.inventory.ssh_key_id;
          become_key = key_or zero_key f.inventory.become_key keys f.inventory.become_key_id;
        };
        template = record f.template {
          vault_key = key_or zero_key f.template.vault_key keys f.template.vault_key_id;
        };
      };
    }

abbrev is_some {ℓ} : {A : Type ℓ} → Option A → Bool
is_some none = false
is_some (some a) = true

-- The second loop: a job that neither runs nor waits is queued.
unfoldable pub take_jobs : AccessKey → Map AccessKey → List JobData → JobPool → JobPool
unfolding exists_in_queue with_keys
take_jobs zero_key keys [] p = p
take_jobs zero_key keys (j ∷ js) p =
    if is_some (lookup (job_id j) p.running_jobs) || exists_in_queue (job_id j) p
    then take_jobs zero_key keys js p
    else take_jobs zero_key keys js (record p {
      queue = p.queue ++ record { job = with_keys zero_key keys j; status = other [] } ∷ [];
    })

-- `one_off` is util.Config.Runner.OneOff: no new job is taken while there is one.
unfoldable pub check_new_jobs : AccessKey → Bool → RunnerState → JobPool → JobPool × List ℕ
unfolding take_statuses take_jobs
check_new_jobs zero_key one_off response p =
    let told = take_statuses response.current_jobs p.running_jobs in
    let q = record p { running_jobs = told.0 } in
    (
      if one_off && (ltb 0 (length q.queue) || ltb 0 (size q.running_jobs))
          then q
          else take_jobs zero_key response.access_keys response.new_jobs q,
      told.1,
    )
