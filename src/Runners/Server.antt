-- ===== src/Runners/Server.antt =====
-- What the server tells a runner and takes from it (GetRunner, UpdateRunner in
-- api/runners/runners.go). Requests that cannot be read are answered before and change nothing.
use contribute_semaphore.Base.{ℕ, Option, none, some, List, [], ◌∷◌, ◌++◌, map}
use contribute_semaphore.Base.Tests.{◌==◌, if◌then◌else◌}
use contribute_semaphore.Base.Map.{Map, insert}
use contribute_semaphore.Model.Resources.{AccessKey}
use contribute_semaphore.Model.Status.{starting, status_eq}
use contribute_semaphore.Model.Store.{TaskStore, ok, err}
use contribute_semaphore.Runners.Data.{JobData, RunnerState, LogRecord, JobProgress}
use contribute_semaphore.Tasks.Details.{External}
use contribute_semaphore.Tasks.Pool.{get_running_tasks, get_task}
use contribute_semaphore.Tasks.Status.{log, set_status}
use contribute_semaphore.Tasks.World.{Ref, World, TaskRunner, Outcome, done, ◌>>=◌}

abbrev pub job_data : TaskRunner → JobData
job_data t = record {
  username = t.username;
  incoming_version = t.incoming_version;
  fields = record {
    task = t.task;
    template = t.template;
    inventory = t.inventory;
    repository = t.repository;
    environment = t.environment;
  };
}

-- A key whose secret cannot be opened is sent as it is.
abbrev opened : External → AccessKey → AccessKey
opened x key = elim (x.deserialize_secret key) [ ok k ↦ k | err e ↦ key ]

abbrev insert_key : External → Option ℕ → AccessKey → Map AccessKey → Map AccessKey
insert_key x none key m = m
insert_key x (some id) key m = insert id (opened x key) m

abbrev pub keys_of : External → TaskRunner → Map AccessKey → Map AccessKey
keys_of x t m = insert t.repository.ssh_key_id t.repository.ssh_key (
    insert_key x t.template.vault_key_id t.template.vault_key (
      insert_key x t.inventory.become_key_id t.inventory.become_key
        (insert_key x t.inventory.ssh_key_id t.inventory.ssh_key m)))

unfoldable pub collect : External → ℕ → List TaskRunner → RunnerState → RunnerState
collect x id [] state = state
collect x id (t ∷ ts) state =
    if t.runner_id == id
    then if status_eq t.task.status starting
      then collect x id ts (record state {
        new_jobs = state.new_jobs ++ job_data t ∷ [];
        access_keys = keys_of x t state.access_keys;
      })
      else collect x id ts (record state {
        current_jobs = state.current_jobs ++ record { id = t.task.id; status = t.task.status } ∷ [];
      })
    else collect x id ts state

module _ {S : Type 0} where
  unfoldable pub get_runner : External → ℕ → World S → RunnerState
  unfolding collect
  get_runner x id w =
      collect x id (map w.runners (get_running_tasks w))
        (record { current_jobs = []; new_jobs = []; access_keys = [] })

  unfoldable pub log_all : Ref → List LogRecord → World S → World S
  log_all r [] w = w
  log_all r (l ∷ ls) w = log_all r ls (log l.time r l.message w)

  unfoldable pub update_runner : TaskStore S → ℕ → List JobProgress → World S → Outcome (World S)
  unfolding log_all
  update_runner db now [] w = done w
  update_runner db now (j ∷ js) w = elim (get_task j.id w) [
    | none ↦ update_runner db now js w
    | some r ↦ set_status db now r j.status (log_all r j.log_records w) >>= update_runner db now js
  ]
