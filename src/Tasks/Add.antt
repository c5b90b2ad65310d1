-- ===== src/Tasks/Add.antt =====
-- AddTask and StopTask (services/tasks/TaskPool.go), createTaskEvent (services/tasks/TaskRunner.go).
pub mod Queued
use contribute_semaphore.Base.{
  ℕ, suc, ◌-◌, Bool, ◌&&◌, Option, none, some, List, [], ◌∷◌, ◌++◌, map,
}
use contribute_semaphore.Base.Tests.{leb, ◌==◌, if◌then◌else◌}
use contribute_semaphore.Base.Decimal.{itoa}
use contribute_semaphore.Base.Text.{Text, text}
use contribute_semaphore.Model.Status.{
  waiting, running, stopping, stopped, fail, status_eq, status_text,
}
use contribute_semaphore.Model.Store.{
  TaskStore, Result, ok, err, Error, Event, all_rows, error_text,
}
use contribute_semaphore.Model.Task.{Task, TaskWithTpl}
use contribute_semaphore.Model.Template.{Template}
use contribute_semaphore.Tasks.Details.{External, populate_details}
use contribute_semaphore.Tasks.Incoming.{is_build}
use contribute_semaphore.Tasks.Pool.{get_task, register}
use contribute_semaphore.Tasks.Status.{log, set_status}
use contribute_semaphore.Tasks.Version.{get_next_build_version}
use contribute_semaphore.Tasks.World.{
  Ref, World, TaskRunner, JobFields, Job, local_job, remote_job, Outcome, done, panic, ◌>>=◌,
  runner, set_runner,
}

-- ValidateNewTask has a case for each type of template, all empty.
unfoldable pub validate_new_task : Task → Template → Result (Unit {0})
validate_new_task t tpl = ok tt

abbrev first_version : List TaskWithTpl → Option Text
first_version [] = none
first_version (b ∷ bs) = b.task.version

-- strings.ToUpper on the bytes of a status, which are ASCII.
abbrev upper : ℕ → ℕ
upper c = if leb b'a' c && leb c b'z' then c - 32 else c

-- The version of a new build; without a start version the dereference panics.
unfoldable pub build_version : Template → List TaskWithTpl → Outcome (Option Text)
build_version tpl builds = elim (first_version builds) [
  | none ↦ done tpl.start_version
  | some current ↦ elim tpl.start_version [
    | none ↦ panic (text "nil pointer dereference")
    | some start ↦ elim (get_next_build_version start current) [
      | done v ↦ done (some v)
      | panic m ↦ panic m
    ]
  ]
]

unfoldable pub job_of : Bool → TaskRunner → Job
job_of remote t =
    let fields : JobFields = record {
      task = t.task;
      template = t.template;
      inventory = t.inventory;
      repository = t.repository;
      environment = t.environment;
    } in
    if remote then remote_job fields else local_job fields

module _ {S : Type 0} (db : TaskStore S) where
  abbrev pub task_event : Ref → Text → World S → Event
  task_event r words w =
      let t = (w.runners r).task in
      record {
        user_id = t.user_id;
        project_id = some t.project_id;
        object_id = some t.id;
        object_type = some (text "task");
        description = some words;
      }

  unfoldable pub create_task_event : Ref → World S → Outcome (World S)
  create_task_event r w =
      let t = w.runners r in
      let words =
        text "Task ID "
        ++ (itoa t.task.id
            ++ (text " ("
                ++ (t.template.name
                    ++ (text ") finished - " ++ map upper (status_text t.task.status))))) in
      elim (db.create_event (task_event r words w) w.store) [
        | ok s ↦ done (record w { store = s })
        | err e ↦ panic (text "Fatal error inserting an event")
      ]

module _ {S : Type 0} (x : External) (db : TaskStore S) (blank : TaskRunner) where
  -- A fresh runner for a task; `blank` is Go's zero value of the struct.
  abbrev pub new_runner : Task → World S → World S
  new_runner t w = record w {
    runners = λ q. if w.next_ref == q then record blank { task = t } else w.runners q;
    next_ref = suc w.next_ref;
  }

  unfoldable pub stop_task : ℕ → Task → Bool → World S → Outcome (World S × Option Error × List Ref)
  unfolding create_task_event
  stop_task now target force w = elim (get_task target.id w) [
    | none ↦
        let r = w.next_ref in
        (populate_details x db now r (new_runner target w) >>= λ p. elim p.1 [
          | some e ↦ done (p.0, some e, [])
          | none ↦ set_status db now r stopped p.0 >>= create_task_event db r >>= λ w'.
              done (w', none, [])
        ])
    | some r ↦
        let status = (w.runners r).task.status in
        (set_status db now r (if force then stopped else stopping) w >>= λ w'.
        done (w', none, if status_eq status running then r ∷ [] else []))
  ]

  -- The event of a task that has been queued; AddTask returns its error.
  unfoldable pub queue_event : Option ℕ → ℕ → Task → World S → Outcome (World S × Result Task)
  queue_event user project t v =
      elim (db.create_event
        (record {
          user_id = user;
          project_id = some project;
          object_id = some t.id;
          object_type = some (text "task");
          description = some (text "Task ID " ++ (itoa t.id ++ text " queued for running"));
        })
        v.store) [ ok s ↦ done (record v { store = s }, ok t) | err e ↦ done (v, err e) ]

  -- After the details: an error fails the task; else the runner is given its job and queued. The
  -- channel hands it to the loop at once.
  unfoldable pub queue_runner :
      ℕ → Option ℕ → ℕ → Task → Ref → World S × Option Error → Outcome (World S × Result Task)
  unfolding queue_event
  queue_runner now user project t r (u, some e) =
      set_status db now r fail (log now r (text "Error: " ++ error_text e) u) >>= λ v.
      done (v, err e)
  queue_runner now user project t r (u, none) =
      let q = runner r u in
      register db now r
        (set_runner r (record q { job = some (job_of u.config.use_remote_runner q) }) u)
      >>= queue_event user project t

  -- What AddTask does with a task that is in the database: its runner is made, and queued unless its
  -- details cannot be read.
  unfoldable pub enqueue : ℕ → Option ℕ → ℕ → Task → World S → Outcome (World S × Result Task)
  unfolding queue_runner
  enqueue now user project t w =
      populate_details x db now w.next_ref (new_runner t w)
      >>= queue_runner now user project t w.next_ref

  create : ℕ → Option ℕ → ℕ → Task → World S → Outcome (World S × Result Task)
  unfolding enqueue
  create now user project t w = elim (db.create_task t w.store) [
    | err e ↦ done (w, err e)
    | ok p ↦ enqueue now user project p.0 (record w { store = p.1 })
  ]

  unfoldable pub add_task : ℕ → Task → Option ℕ → ℕ → World S → Outcome (World S × Result Task)
  unfolding create validate_new_task
  add_task now task user project w =
      let t = record task {
        created = now;
        status = waiting;
        user_id = user;
        project_id = project;
      } in
      elim (db.get_template project t.template_id w.store) [
        | err e ↦ done (w, err e)
        | ok tpl ↦ elim (validate_new_task t tpl) [
          | err e ↦ done (w, err e)
          | ok u ↦
              if is_build tpl.type
              then elim (db.get_template_tasks tpl.project_id tpl.id (record all_rows { count = 1 })
                  w.store) [
                    | err e ↦ done (w, err e)
                    | ok builds ↦ build_version tpl builds >>= λ v.
                        create now user project (record t { version = v }) w
                  ]
              else create now user project t w
        ]
      ]
