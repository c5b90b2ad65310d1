-- ===== src/Tasks/Run.antt =====
-- TaskRunner.run (services/tasks/TaskRunner.go): the goroutine of one task. What the job does, its
-- calls of SetStatus among it, is the argument `job_run`, since Job is an interface.
pub mod Final
use contribute_semaphore.Base.{
  ℕ, zero, suc, ◌+◌, ◌-◌, ◌*◌, ◌/◌, ◌%◌, ◌^◌, ◌≤◌, ◌<◌, ◌≡◌, refl, sym, ap, subst, ◌∙◌, ◌≢◌, ◌↔◌,
  ◌⊎◌, inl, inr, Bool, true, false, not, ◌&&◌, ◌||◌, Option, none, some, List, [], ◌∷◌, ◌++◌, map,
  arith,
}
use contribute_semaphore.Base.Tests.{
  ltb, leb, ◌==◌, if◌then◌else◌, ltb→lt, lt→ltb, leb→le, le→leb, ==_iff, ==_self, tests, Bool-cases,
  Option-cases,
}
use contribute_semaphore.Base.Decimal.{itoa}
use contribute_semaphore.Base.Text.{Text, text}
use contribute_semaphore.Model.Status.{
  TaskStatus, starting, running, stopping, stopped, success, fail, status_eq,
}
use contribute_semaphore.Model.Store.{TaskStore, Result, ok, err, Error, all_rows, error_text}
use contribute_semaphore.Model.Task.{Task}
use contribute_semaphore.Model.Template.{Template, TemplateType, plain}
use contribute_semaphore.Tasks.Add.{add_task, create_task_event, task_event}
use contribute_semaphore.Tasks.Details.{External}
use contribute_semaphore.Tasks.Incoming.{incoming_fuel, get_incoming_version}
use contribute_semaphore.Tasks.Pool.{unlock}
use contribute_semaphore.Tasks.Status.{log, save_status, set_status}
use contribute_semaphore.Tasks.World.{
  Ref, World, TaskRunner, Outcome, done, panic, ◌>>=◌, runner, set_runner,
}

abbrev is_plain : TemplateType → Bool
is_plain plain = true
is_plain _ = false

-- A job runs with the name of the user and the version of the build that it deploys; it returns the
-- text of its error, if any.
abbrev pub JobRun : Type 0 → Type 0
JobRun S = Text → Option Text → World S → Outcome (World S × Option Text)

abbrev join_option : Option (Option Text) → Option Text
join_option none = none
join_option (some v) = v

module _ {S : Type 0} (x : External) (db : TaskStore S) (blank : TaskRunner) where
  user_name : Option ℕ → S → Text
  user_name none s = []
  user_name (some u) s = elim (db.get_user u s) [ ok user ↦ user.username | err e ↦ [] ]

  incoming : TaskRunner → S → Option Text
  incoming t s =
      if is_plain t.template.type
      then none
      else join_option (get_incoming_version db s incoming_fuel t.task)

  -- The task that an autorun template is given.
  abbrev autorun_task : ℕ → Template → Task
  autorun_task id tpl = record blank.task {
    template_id = tpl.id;
    project_id = tpl.project_id;
    build_task_id = some id;
  }

  -- The loop over the autorun templates; a task that cannot be added is logged.
  unfoldable pub add_each : ℕ → Ref → List Template → World S → Outcome (World S)
  add_each now r [] w = done w
  add_each now r (tpl ∷ tpls) w =
      add_task x db blank now (autorun_task (runner r w).task.id tpl) none tpl.project_id w >>= λ p.
      elim p.1 [
        | ok t ↦ add_each now r tpls p.0
        | err e ↦
            add_each now r tpls (log now r (text "Running playbook failed: " ++ error_text e) p.0)
      ]

  autorun : ℕ → Ref → World S → Outcome (World S)
  unfolding add_each
  autorun now r w =
      let t = (runner r w).task in
      elim (db.get_templates t.project_id
        (record { view_id = none; build_template_id = some t.template_id; autorun_only = true })
        w.store) [
          | err e ↦ done (log now r (text "Running playbook failed: " ++ error_text e) w)
          | ok tpls ↦ add_each now r tpls w
        ]

  -- After the job: an error fails the task; else a running task has succeeded, and the templates
  -- that wait for this build are started.
  unfoldable pub after_job : ℕ → Ref → World S × Option Text → Outcome (World S)
  unfolding autorun
  after_job now r (w, some e) =
      set_status db now r fail (log now r (text "Running playbook failed: " ++ e) w)
  after_job now r (w, none) =
      (if status_eq (runner r w).task.status running then set_status db now r success w else done w)
      >>= autorun now r

  start_job : JobRun S → ℕ → Ref → World S → Outcome (World S)
  unfolding after_job user_name incoming
  start_job job_run now r w =
      let t = runner r w in
      let words =
        text "Task ID "
        ++ (itoa t.task.id ++ (text " (" ++ (t.template.name ++ text ") is running"))) in
      elim (db.create_event (task_event db r words w) w.store) [
        | err e ↦ panic (text "Fatal error inserting an event")
        | ok s ↦
            let v =
              log now r (text "Run TaskRunner with template: " ++ (t.template.name ++ 10 ∷ []))
                (log now r (text "Started: " ++ itoa t.task.id) (record w { store = s })) in
            job_run (user_name t.task.user_id s) (incoming t s) v >>= after_job now r
      ]

  body : JobRun S → ℕ → Ref → World S → Outcome (World S)
  unfolding start_job
  body job_run now r w =
      if status_eq (runner r w).task.status stopping
      then set_status db now r stopped w
      else set_status db now r starting w >>= start_job job_run now r

  -- The deferred function: the locker is told, the end is stamped and saved, the event is written.
  unfoldable pub end_run : ℕ → Ref → World S → Outcome (World S)
  end_run now r w =
      let v = unlock r w in
      let t = runner r v in
      save_status db now r (set_runner r (record t { task = record t.task { end = some now } }) v)
      >>= create_task_event db r

  unfoldable pub run : JobRun S → ℕ → Ref → World S → Outcome (World S)
  unfolding body end_run
  run job_run now r w = body job_run now r w >>= end_run now r
