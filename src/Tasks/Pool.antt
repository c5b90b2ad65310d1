-- ===== src/Tasks/Pool.antt =====
-- TaskPool (services/tasks/TaskPool.go): the lookups, `blocks`, the resource locker, the cases of the
-- loop of Run, and StopTask.
pub mod Invariant
pub mod Locker
pub mod Queue
use contribute_semaphore.Base.{
  ℕ, zero, suc, ◌+◌, ◌-◌, ◌*◌, ◌/◌, ◌%◌, ◌^◌, ◌≤◌, ◌<◌, ◌≡◌, refl, sym, ap, subst, ◌∙◌, ◌≢◌, ◌↔◌,
  ◌⊎◌, inl, inr, Bool, true, false, not, ◌&&◌, ◌||◌, Option, none, some, List, [], ◌∷◌, ◌++◌, map,
  arith,
}
use contribute_semaphore.Base.Tests.{
  ltb, leb, ◌==◌, if◌then◌else◌, ltb→lt, lt→ltb, leb→le, le→leb, ==_iff, ==_self, tests, Bool-cases,
  Option-cases,
}
use contribute_semaphore.Base.Decimal.{itoa}
use contribute_semaphore.Base.Lists.{find, length}
use contribute_semaphore.Base.Map.{Map, lookup, insert, delete, size, any_value, find_value, values}
use contribute_semaphore.Base.Text.{Text, text}
use contribute_semaphore.Model.Status.{TaskStatus, running, stopping, stopped, fail, status_eq}
use contribute_semaphore.Model.Store.{TaskStore, Result, ok, err}
use contribute_semaphore.Model.Task.{Task}
use contribute_semaphore.Tasks.Status.{log, save_status, set_status}
use contribute_semaphore.Tasks.World.{
  Ref, World, TaskRunner, Config, Outcome, done, panic, ◌>>=◌, runner,
}

unfoldable pub count_of : ℕ → List TaskRunner → ℕ
count_of id [] = 0
count_of id (t ∷ ts) = let rest = count_of id ts in if t.runner_id == id then suc rest else rest

abbrev or_empty {ℓ} : {V : Type ℓ} → Option (Map V) → Map V
or_empty none = []
or_empty (some m) = m

abbrev is_some {ℓ} : {A : Type ℓ} → Option A → Bool
is_some none = false
is_some (some a) = true

abbrev pub tail : List Ref → List Ref
tail [] = []
tail (r ∷ rs) = rs

module _ {S : Type 0} where
  -- CreateTaskPool, over the store that it is given.
  unfoldable pub create_task_pool : Config → (Ref → TaskRunner) → S → World S
  create_task_pool config memory store = record {
    config = config;
    queue = [];
    active_proj = [];
    running_tasks = [];
    runners = memory;
    next_ref = 0;
    logger = [];
    outbox = [];
    store = store;
  }

  unfoldable pub get_running_tasks : World S → List Ref
  get_running_tasks w = values w.running_tasks

  unfoldable pub get_number_of_running_tasks_of_runner : ℕ → World S → ℕ
  unfolding count_of get_running_tasks
  get_number_of_running_tasks_of_runner id w = count_of id (map w.runners (get_running_tasks w))

  -- The queue is searched first, then the running tasks.
  unfoldable pub get_task : ℕ → World S → Option Ref
  get_task id w = elim (find (λ r. (w.runners r).task.id == id) w.queue) [
    | some r ↦ some r
    | none ↦ find_value (λ r. (w.runners r).task.id == id) w.running_tasks
  ]

  -- p.activeProj[id]: a missing key reads as the nil map.
  unfoldable pub project_tasks : ℕ → World S → Map Ref
  project_tasks project w = or_empty (lookup project w.active_proj)

  abbrev pub project_of : Ref → World S → ℕ
  project_of r w = (w.runners r).task.project_id

  abbrev pub id_of : Ref → World S → ℕ
  id_of r w = (w.runners r).task.id

  remove_active : ℕ → ℕ → World S → Map (Map Ref)
  remove_active project id w =
      let rest = delete id (project_tasks project w) in
      if is_some (lookup id (project_tasks project w))
      then if size rest == 0
        then delete project w.active_proj
        else insert project rest w.active_proj
      else w.active_proj

  unfoldable pub unlock : Ref → World S → World S
  unfolding remove_active
  unlock r w = record w {
    active_proj = remove_active (project_of r w) (id_of r w) w;
    running_tasks = delete (id_of r w) w.running_tasks;
  }

  unfoldable pub launch : World S → World S
  launch w = record w { queue = tail w.queue }

module _ {S : Type 0} (db : TaskStore S) where
  -- The limit of the project, which is not read when no task of it runs.
  at_project_limit : Ref → World S → Bool
  at_project_limit r w = elim (db.get_project (project_of r w) w.store) [
    | err e ↦ false
    | ok p ↦
        ltb 0 p.max_parallel_tasks
        && leb p.max_parallel_tasks (size (project_tasks (project_of r w) w))
  ]

  unfoldable pub blocks : Ref → World S → Bool
  unfolding at_project_limit
  blocks r w =
      let active = project_tasks (project_of r w) w in
      if ltb 0 w.config.max_parallel_tasks && leb w.config.max_parallel_tasks (size w.running_tasks)
      then true
      else if size active == 0
      then false
      else if any_value (λ q. (w.runners q).template.id == (w.runners r).task.template_id) active
      then true
      else at_project_limit r w

  -- The two messages of the resource locker.
  unfoldable pub lock : Ref → World S → Outcome (World S)
  lock r w =
      if blocks r w
      then panic (text "Trying to lock an already locked resource!")
      else done (record w {
        active_proj =
            insert (project_of r w) (insert (id_of r w) r (project_tasks (project_of r w) w))
              w.active_proj;
        running_tasks = insert (id_of r w) r w.running_tasks;
      })

  -- A task that arrives on the channel `register`.
  unfoldable pub register : ℕ → Ref → World S → Outcome (World S)
  register now r w =
      let queued = record w { queue = w.queue ++ r ∷ [] } in
      let msg = text "Task " ++ itoa (id_of r w) ++ text " added to queue" in
      save_status db now r (log now r msg queued)

  -- The ticker: the state, and the runner for which the locker is asked, if any. Its queue is cut
  -- when the locker has taken the message (`launch`).
  unfoldable pub tick : World S → World S × Option Ref
  tick w = elim w.queue [
    | [] ↦ (w, none)
    | t ∷ rest ↦
        if status_eq (w.runners t).task.status fail
        then (record w { queue = rest }, none)
        else if blocks t w
        then (record w { queue = rest ++ t ∷ [] }, none)
        else (w, some t)
  ]
