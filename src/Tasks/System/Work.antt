-- ===== src/Tasks/System/Work.antt =====
-- SetStatus is work on a task, as the steps of the pool allow it (services/tasks/TaskRunner.go).
use contribute_semaphore.Base.{ℕ, ◌≡◌, inl, inr, arith}
use contribute_semaphore.Base.Tests.{==_iff}
use contribute_semaphore.Model.Status.{TaskStatus}
use contribute_semaphore.Model.Store.{TaskStore, StoreLaws}
use contribute_semaphore.Tasks.Status.{mark, set_status}
use contribute_semaphore.Tasks.Status.Rules.{Changed, set_status-Changed}
use contribute_semaphore.Tasks.System.{Works}
use contribute_semaphore.Tasks.World.{Ref, World, done}

module _ {S : Type 0} (db : TaskStore S) (laws : StoreLaws db) where
  Works-refl : (w v : World S) → v ≡ w → Works db w v
  Works-refl w v e = record {
    config = ground arith;
    queue = ground arith;
    active = ground arith;
    running = ground arith;
    next_ref = ground arith;
    ids = λ q. ground arith;
    projects = λ q. ground arith;
    task_templates = λ q. ground arith;
    templates = λ q. ground arith;
    limits = λ p. ground arith;
  }

  Changed-Works :
      (now : ℕ) (r : Ref) (new : TaskStatus) (w v : World S)
      → Changed db now r new w v
      → Works db w v
  unfolding mark
  Changed-Works now r new w v c = record {
    config = ground (arith, c.result);
    queue = ground (arith, c.result);
    active = ground (arith, c.result);
    running = ground (arith, c.result);
    next_ref = ground (arith, c.result);
    ids = λ q. ground (arith, c.result, ==_iff r q);
    projects = λ q. ground (arith, c.result, ==_iff r q);
    task_templates = λ q. ground (arith, c.result, ==_iff r q);
    templates = λ q. ground (arith, c.result, ==_iff r q);
    limits = λ p. ground (
      arith,
      c.result,
      laws.get_project-update (mark now new (w.runners r)).task w.store c.stored p c.saved,
    );
  }

  -- A call of SetStatus that returns is a step of work of the pool: the queue, the running tasks,
  -- the names of the tasks and the limits of the projects are as before; the store is supposed to
  -- keep to the laws.
  pub set_status-Works :
      (now : ℕ) (r : Ref) (new : TaskStatus) (w v : World S)
      → set_status db now r new w ≡ done v
      → Works db w v
  set_status-Works now r new w v h = elim (set_status-Changed db now r new w v h) [
    | inl e ↦ Works-refl w v e
    | inr c ↦ Changed-Works now r new w v c
  ]
