-- ===== src/Runners/Data.antt =====
-- What a runner and the server tell each other (services/runners/JobPool.go).
use contribute_semaphore.Base.{ℕ, List, Option}
use contribute_semaphore.Base.Map.{Map}
use contribute_semaphore.Base.Text.{Text}
use contribute_semaphore.Model.Resources.{AccessKey}
use contribute_semaphore.Model.Status.{TaskStatus}
use contribute_semaphore.Tasks.World.{JobFields}

pub record JobData : Type 0 where
  pub username : Text
  pub incoming_version : Option Text
  pub fields : JobFields

pub record JobState : Type 0 where
  pub id : ℕ
  pub status : TaskStatus

pub record RunnerState : Type 0 where
  pub current_jobs : List JobState
  pub new_jobs : List JobData
  pub access_keys : Map AccessKey

pub record LogRecord : Type 0 where
  pub time : ℕ
  pub message : Text

pub record JobProgress : Type 0 where
  pub id : ℕ
  pub status : TaskStatus
  pub log_records : List LogRecord

-- A job in the queue of the runner; its status is never set.
pub record QueuedJob : Type 0 where
  pub job : JobData
  pub status : TaskStatus

pub record RunningJob : Type 0 where
  pub status : TaskStatus
  pub log_records : List LogRecord
  pub job : JobData

pub record JobPool : Type 0 where
  pub running_jobs : Map RunningJob
  pub queue : List QueuedJob
