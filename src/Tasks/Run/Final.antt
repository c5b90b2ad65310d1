-- ===== src/Tasks/Run/Final.antt =====
-- How a run of a task ends (TaskRunner.run in services/tasks/TaskRunner.go).
use contribute_semaphore.Base.{ℕ, ◌≡◌, none, some, ◌++◌, arith}
use contribute_semaphore.Base.Tests.{==_self}
use contribute_semaphore.Base.Map.{lookup, lookup-delete}
use contribute_semaphore.Base.Text.{Text}
use contribute_semaphore.Model.Store.{TaskStore, StoreLaws, ok, Event}
use contribute_semaphore.Tasks.Details.{External}
use contribute_semaphore.Tasks.Pool.{unlock, id_of}
use contribute_semaphore.Tasks.Status.Rules.{news}
use contribute_semaphore.Tasks.Status.Runs.{IsSynced}
use contribute_semaphore.Tasks.World.{Ref, World, TaskRunner, set_runner}

module _ {S : Type 0} (x : External) (db : TaskStore S) (blank : TaskRunner) where
  -- The state after the deferred function of a run.
  pub record IsEnded (now : ℕ) (r : Ref) (w v : World S) : Type 0 where
    pub ended : (v.runners r).task.end ≡ some now
    pub same_status : (v.runners r).task.status ≡ (w.runners r).task.status
    pub gone : lookup (id_of r w) v.running_tasks ≡ none
    pub same_queue : v.queue ≡ w.queue
    pub stored : IsSynced db r v

  closed : ℕ → Ref → World S → World S
  closed now r w =
      let u = unlock r w in
      set_runner r (record (u.runners r) { task = record (u.runners r).task { end = some now } }) u

  ended :
      (now : ℕ) (r : Ref) (w v : World S)
      → StoreLaws db
      → IsSynced db r w
      → (u : World S) (s : S)
      → db.update_task ((closed now r w).runners r).task (closed now r w).store ≡ ok s
      → (u ≡ record (closed now r w) {
        outbox = (closed now r w).outbox ++ news db ((closed now r w).runners r);
        store = s;
      })
      → (e : Event) (s' : S) → db.create_event e u.store ≡ ok s'
      → v ≡ record u { store = s' }
      → IsEnded now r w v
  unfolding closed unlock
  ended now r w v laws h u s p q e s' c d =
      let held =
        laws.get_task-update ((closed now r w).runners r).task h.0 (closed now r w).store s
          (ground (arith, ==_self r, h.1)) p in
      record {
        ended = ground (arith, ==_self r);
        same_status = ground (arith, ==_self r);
        gone = ground (arith, lookup-delete (id_of r w) (id_of r w) w.running_tasks);
        same_queue = ground arith;
        stored = (
          held.0,
          ground (
            arith,
            ==_self r,
            laws.get_task-create_event e held.0 u.store s'
                ((closed now r w).runners r).task.project_id ((closed now r w).runners r).task.id,
            held.1,
          ),
          ground (arith, ==_self r, held.2),
        );
      }
