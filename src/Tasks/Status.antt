-- ===== src/Tasks/Status.antt =====
-- TaskRunner.SetStatus and saveStatus (services/tasks/TaskRunner.go), Log2
-- (services/tasks/TaskRunner_logging.go).
pub mod Rules
pub mod Runs
use contribute_semaphore.Base.{
  ℕ, ◌≡◌, refl, Bool, true, false, not, ◌||◌, ◌&&◌, List, [], ◌∷◌, ◌++◌, map, Option, some, none,
  arith,
}
use contribute_semaphore.Base.Tests.{◌==◌, if◌then◌else◌}
use contribute_semaphore.Base.Text.{Text, text}
use contribute_semaphore.Model.Status.{
  TaskStatus, waiting, starting, running, stopping, stopped, success, fail, other, status_eq,
}
use contribute_semaphore.Model.Store.{TaskStore, ok, err}
use contribute_semaphore.Model.Task.{Task}
use contribute_semaphore.Tasks.Alert.{send_mail_alert, send_telegram_alert, send_slack_alert}
use contribute_semaphore.Tasks.World.{
  Ref, World, TaskRunner, Message, update_message, log_message, Outcome, done, panic, ◌>>=◌, runner,
  set_runner, send,
}

-- The switch on the old status: whether the new one is turned down. A case without a statement
-- leaves the switch, for Go's cases do not fall through.
unfoldable pub refused : TaskStatus → TaskStatus → Bool
refused running new = status_eq new waiting
refused stopping new = status_eq new waiting || status_eq new running
refused success new = false
refused fail new = false
refused stopped new = true
refused _ new = false

-- The assignment of the new status; a start is stamped.
unfoldable pub mark : ℕ → TaskStatus → TaskRunner → TaskRunner
mark now new t = record t {
  task = record t.task {
    status = new;
    start = if status_eq new running then some now else t.task.start;
  };
}

module _ {S : Type 0} where
  -- Log2: one message to each user, and a record for the database.
  unfoldable pub log : ℕ → Ref → Text → World S → World S
  log now r msg w =
      let t = (runner r w).task in
      record w {
        outbox = w.outbox ++ map (λ u. log_message u t.id t.project_id msg now) (runner r w).users;
        logger = w.logger ++ record { task_id = t.id; output = msg; time = now } ∷ [];
      }

module _ {S : Type 0} (db : TaskStore S) where
  unfoldable pub save_status : ℕ → Ref → World S → Outcome (World S)
  unfolding log
  save_status now r w =
      let t = runner r w in
      let told = send (map (λ u. update_message u t.task) t.users) w in
      elim (db.update_task t.task w.store) [
        | ok s ↦ done (record told { store = s })
        | err e ↦ panic (text "Failed to update TaskRunner status")
      ]

  -- The alerts that a final status asks for.
  unfoldable pub alerts : ℕ → Ref → TaskStatus → World S → Outcome (World S)
  alerts now r new w = (if status_eq new fail then send_mail_alert db r w else done w) >>= λ v.
      if status_eq new success || status_eq new fail
      then send_telegram_alert db r v >>= send_slack_alert db r
      else done v

  unfoldable pub set_status : ℕ → Ref → TaskStatus → World S → Outcome (World S)
  unfolding save_status refused mark
  set_status now r new w =
      let old = (runner r w).task.status in
      if status_eq new old || refused old new
      then done w
      else save_status now r (set_runner r (mark now new (runner r w)) w) >>= alerts now r new
