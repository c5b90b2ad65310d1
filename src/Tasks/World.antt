-- ===== src/Tasks/World.antt =====
-- The state of services/tasks: TaskRunner (TaskRunner.go), TaskPool (TaskPool.go), and what they
-- write to. A *TaskRunner is a reference into `runners`, for the queue, the two maps of running
-- tasks and the goroutine of a task share one struct.
use contribute_semaphore.Base.{◌≡◌, refl, ℕ, Bool, List, Option, ◌++◌}
use contribute_semaphore.Base.Map.{Map}
use contribute_semaphore.Base.Tests.{◌==◌, if◌then◌else◌}
use contribute_semaphore.Base.Text.{Text}
use contribute_semaphore.Model.Resources.{Inventory, Repository, Environment}
use contribute_semaphore.Model.Status.{TaskStatus}
use contribute_semaphore.Model.Task.{Task}
use contribute_semaphore.Model.Template.{Template}

abbrev pub Ref : Type 0
Ref = ℕ

-- The fields that RemoteJob and LocalJob copy from the runner when it is created.
pub record JobFields : Type 0 where
  pub task : Task
  pub template : Template
  pub inventory : Inventory
  pub repository : Repository
  pub environment : Environment

pub data Job : Type 0 where
  local_job remote_job : JobFields → Job

pub record TaskRunner : Type 0 where
  pub task : Task
  pub template : Template
  pub inventory : Inventory
  pub repository : Repository
  pub environment : Environment
  pub users : List ℕ
  pub alert : Bool
  pub alert_chat : Option Text
  pub job : Option Job
  pub runner_id : ℕ
  pub username : Text
  pub incoming_version : Option Text

-- What the chat alerts tell (the struct Alert): task, template name, status, version, author.
pub record Alert : Type 0 where
  pub task_id : ℕ
  pub name : Text
  pub task_result : TaskStatus
  pub task_version : Text
  pub task_description : Text
  pub author : Text

-- What leaves the process: a message on the web sockets of a user, with the task or the line of
-- log that it tells, a mail to an address about a task, and a post to a Telegram chat or to Slack.
pub data Message : Type 0 where
  update_message : ℕ → Task → Message
  log_message : ℕ → ℕ → ℕ → Text → ℕ → Message
  mail_alert : Text → ℕ → Message
  telegram_alert : Text → Alert → Message
  slack_alert : Alert → Message

pub record LogRecord : Type 0 where
  pub task_id : ℕ
  pub output : Text
  pub time : ℕ

-- The part of util.Config that the pool reads.
pub record Config : Type 0 where
  pub max_parallel_tasks : ℕ
  pub use_remote_runner : Bool
  pub email_alert : Bool
  pub telegram_alert : Bool
  pub telegram_chat : Text
  pub slack_alert : Bool

pub record World (S : Type 0) : Type 0 where
  pub config : Config
  pub queue : List Ref
  pub active_proj : Map (Map Ref)
  pub running_tasks : Map Ref
  pub runners : Ref → TaskRunner
  pub next_ref : Ref
  pub logger : List LogRecord
  pub outbox : List Message
  pub store : S

-- A Go panic ends the run with the message that it carries.
pub data Outcome {ℓ} (A : Type ℓ) : Type ℓ where
  done : A → Outcome A
  panic : Text → Outcome A

infixl 5 ◌>>=◌
abbrev pub ◌>>=◌ {ℓ κ} : {A : Type ℓ} {B : Type κ} → Outcome A → (A → Outcome B) → Outcome B
done a >>= f = f a
panic m >>= f = panic m

-- A step that returns has returned in each of its parts.
pub >>=-eq-done {ℓ κ ν} :
    {A : Type ℓ} {B : Type κ} (P : Type ν) (m : Outcome A) (f : A → Outcome B) {b : B}
    → ((a : A) → m ≡ done a → f a ≡ done b → P)
    → (m >>= f) ≡ done b
    → P
>>=-eq-done P (done a) f k h = k a refl h
>>=-eq-done P (panic m) f k h = absurd (cc)

-- A write through a pointer.
abbrev pub update {ℓ} : {A : Type ℓ} → (Ref → A) → Ref → A → Ref → A
update f r a q = if r == q then a else f q

module _ {S : Type 0} where
  abbrev pub runner : Ref → World S → TaskRunner
  runner r w = w.runners r

  abbrev pub set_runner : Ref → TaskRunner → World S → World S
  set_runner r t w = record w { runners = update w.runners r t }

  abbrev pub send : List Message → World S → World S
  send ms w = record w { outbox = w.outbox ++ ms }
