-- ===== src/Tasks/Remote.antt =====
-- RemoteJob.Run and callRunnerWebhook (services/tasks/RemoteJob.go): a job that a runner fetches. The run
-- goes up to the wait and on from it; wherever it waits for an answer, other goroutines change the
-- state.
pub mod Chosen
pub mod Shared
use contribute_semaphore.Base.{ℕ, ◌-◌, ◌/◌, Bool, not, ◌||◌, Option, none, some, List, [], ◌∷◌}
use contribute_semaphore.Base.Tests.{ltb, ◌==◌, if◌then◌else◌}
use contribute_semaphore.Base.Text.{Text, text, text_eq}
use contribute_semaphore.Model.Resources.{Runner}
use contribute_semaphore.Model.Status.{TaskStatus, success, stopped, fail, status_eq}
use contribute_semaphore.Model.Store.{Result, ok, err, error_text}
use contribute_semaphore.Tasks.Pool.{get_task, get_number_of_running_tasks_of_runner}
use contribute_semaphore.Tasks.World.{
  Ref, World, TaskRunner, Outcome, done, panic, runner, set_runner,
}

pub record WebhookPayload : Type 0 where
  pub action : Text
  pub project_id : ℕ
  pub task_id : ℕ
  pub template_id : ℕ
  pub runner_id : ℕ

-- `post url payload` is the status code of the answer, or the text of an error.
abbrev pub Post : Type 0
Post = Text → WebhookPayload → Result ℕ

-- The text of the error that is returned, if any.
unfoldable pub call_runner_webhook : Post → Runner → TaskRunner → Text → Option Text
call_runner_webhook post r t action =
    if text_eq r.webhook []
    then none
    else elim (post r.webhook (record {
      action = action;
      project_id = t.task.project_id;
      task_id = t.task.id;
      template_id = t.template.id;
      runner_id = r.id;
    })) [
      | err e ↦ some (error_text e)
      | ok code ↦
          if code == 200 || code == 204
          then none
          else some (text "webhook returned incorrect status")
    ]

-- How the run goes on: it has returned with an error, or waits for what the runner reports.
pub data Started : Type 0 where
  refused : Text → Started
  waits_for : Runner → Started

abbrev has_ended : TaskStatus → Bool
has_ended s = status_eq s success || (status_eq s stopped || status_eq s fail)

module _ {S : Type 0} where
  -- The first runner with room for a task.
  unfoldable pub choose_runner : World S → List Runner → Option Runner
  choose_runner w [] = none
  choose_runner w (r ∷ rs) =
      let rest = choose_runner w rs in
      if ltb (get_number_of_running_tasks_of_runner r.id w) r.max_parallel_tasks
      then some r
      else rest

  abbrev pub assigned : Ref → Text → Option Text → World S → World S
  assigned q username version w =
      set_runner q (record (runner q w) { incoming_version = version; username = username }) w

  -- The request is made while other goroutines run: `meanwhile` is what they do to the state until
  -- the answer is there.
  unfoldable pub start_chosen :
      Post → (World S → World S) → Ref → Option Runner → World S → World S × Started
  start_chosen post meanwhile q none w = (w, refused (text "no runners available"))
  start_chosen post meanwhile q (some r) w =
      let v = meanwhile w in
      elim (call_runner_webhook post r (runner q w) (text "start")) [
        | some e ↦ (v, refused e)
        | none ↦ (set_runner q (record (runner q v) { runner_id = r.id }) v, waits_for r)
      ]

  -- Up to the wait; `runners` is what the store answers to GetGlobalRunners, and `reading` what the
  -- other goroutines do to the state until then. The runners are counted in one state.
  unfoldable pub start_remote :
      Post
      → (World S → World S)
      → (World S → World S)
      → Result (List Runner)
      → ℕ
      → Text
      → Option Text
      → World S
      → World S × Started
  unfolding start_chosen
  start_remote post reading meanwhile runners id username version w = elim (get_task id w) [
    | none ↦ (w, refused (text "task not found"))
    | some q ↦
        let v = reading (assigned q username version w) in
        elim runners [
          | err e ↦ (v, refused (error_text e))
          | ok rs ↦ start_chosen post meanwhile q (choose_runner v rs) v
        ]
  ]

  -- One look at the task, in the state of that moment: the runner of a task that has ended. A task
  -- that neither waits nor runs is a nil pointer.
  unfoldable pub look : ℕ → World S → Outcome (Option Ref)
  look id w = elim (get_task id w) [
    | none ↦ panic (text "invalid memory address or nil pointer dereference")
    | some q ↦ done (if has_ended (runner q w).task.status then some q else none)
  ]

  -- After the wait: the error that Run returns, if any.
  unfoldable pub finish_remote : Post → Runner → Ref → World S → Option Text
  finish_remote post r q w = elim (call_runner_webhook post r (runner q w) (text "finish")) [
    | some e ↦ some e
    | none ↦ if status_eq (runner q w).task.status fail then some (text "task failed") else none
  ]

  -- The rounds of the wait, each in the state that it finds; none is a wait that goes on.
  unfoldable pub wait_remote : Post → Runner → ℕ → List (World S) → Outcome (Option (Option Text))
  unfolding look finish_remote
  wait_remote post r id [] = done none
  wait_remote post r id (w ∷ ws) = elim (look id w) [
    | panic m ↦ panic m
    | done none ↦ wait_remote post r id ws
    | done (some q) ↦ done (some (finish_remote post r q w))
  ]
