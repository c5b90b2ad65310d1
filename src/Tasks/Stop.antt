-- ===== src/Tasks/Stop.antt =====
-- What StopTask does to a task that is queued or runs (services/tasks/TaskPool.go).
use contribute_semaphore.Base.{
  ℕ, ◌≡◌, refl, sym, ◌∙◌, Bool, true, false, ◌||◌, Option, none, some, List, [], ◌∷◌, arith,
}
use contribute_semaphore.Base.Tests.{if◌then◌else◌, ==_self}
use contribute_semaphore.Model.Status.{
  TaskStatus, waiting, starting, running, stopping, stopped, success, fail, other, status_eq,
  eq_of_status_eq,
}
use contribute_semaphore.Model.Store.{TaskStore, Error}
use contribute_semaphore.Model.Task.{Task}
use contribute_semaphore.Tasks.Add.{stop_task}
use contribute_semaphore.Tasks.Details.{External}
use contribute_semaphore.Tasks.Pool.{get_task}
use contribute_semaphore.Tasks.Status.{refused, mark, alerts, save_status, set_status}
use contribute_semaphore.Tasks.Status.Rules.{Changed, save_status-Changed}
use contribute_semaphore.Tasks.World.{Ref, World, TaskRunner, done, ◌>>=◌, >>=-eq-done, set_runner}

module _ {S : Type 0} (db : TaskStore S) where
  Changed-status :
      (now : ℕ) (r : Ref) (new : TaskStatus) (w v : World S)
      → Changed db now r new w v
      → (v.runners r).task.status ≡ new
  unfolding mark
  Changed-status now r new w v c = ground (arith, c.result, ==_self r)

  -- After a call of SetStatus that returns the task has the new status, or its old one where the
  -- switch refuses the new one.
  pub set_status-status :
      (now : ℕ) (r : Ref) (new : TaskStatus) (w v : World S)
      → set_status db now r new w ≡ done v
      → (v.runners r).task.status
        ≡ (if refused (w.runners r).task.status new then (w.runners r).task.status else new)
  unfolding set_status
  set_status-status now r new w v h = go (status_eq new old) (refused old new) refl refl
    where
      old : TaskStatus
      old = (w.runners r).task.status

      go :
          (a b : Bool)
          → status_eq new old ≡ a
          → refused old new ≡ b
          → (v.runners r).task.status ≡ (if refused old new then old else new)
      go true b p q = ground (arith, eq_of_status_eq new old p)
      go false true p q = ground arith
      go false false p q =
          >>=-eq-done ((v.runners r).task.status ≡ (if refused old new then old else new))
            (save_status db now r (set_runner r (mark now new (w.runners r)) w))
            (alerts db now r new) {b = v}
            (λ u e f.
              rw q (Changed-status now r new w v (save_status-Changed db now r new w u v p q e f)))
            (ground arith)

-- A stop is refused by a stopped task alone.
asked :
    (force : Bool) (o : TaskStatus)
    → (if refused o (if force then stopped else stopping)
        then o
        else (if force then stopped else stopping))
      ≡ (if force || status_eq o stopped then stopped else stopping)
unfolding refused
asked true waiting = refl
asked true starting = refl
asked true running = refl
asked true stopping = refl
asked true stopped = refl
asked true success = refl
asked true fail = refl
asked true (other s) = refl
asked false waiting = refl
asked false starting = refl
asked false running = refl
asked false stopping = refl
asked false stopped = refl
asked false success = refl
asked false fail = refl
asked false (other s) = refl

module _ {S : Type 0} (x : External) (db : TaskStore S) (blank : TaskRunner) where
  active :
      (now : ℕ) (target : Task) (force : Bool) (r : Ref) (w : World S)
      → get_task target.id w ≡ some r
      → stop_task x db blank now target force w ≡ (
          set_status db now r (if force then stopped else stopping) w >>= λ w'.
          done (w', none, if status_eq (w.runners r).task.status running then r ∷ [] else []))
  unfolding stop_task
  active now target force r w g = rw (g, stop_task) refl

  -- What has become of an active task that was to be stopped: its status, the error that is returned,
  -- and the tasks whose process is killed.
  pub record IsStopped (force : Bool) (r : Ref) (old : TaskStatus) (v : World S) (e : Option Error)
      (killed : List Ref) : Type 0 where
    pub status :
        (v.runners r).task.status ≡ (if force || status_eq old stopped then stopped else stopping)
    pub no_error : e ≡ none
    pub kills : killed ≡ (if status_eq old running then r ∷ [] else [])

  -- StopTask, on a task that is queued or runs, stops it by force whatever its status, and else
  -- asks it to stop unless it was stopped before; its process is killed just when it was running,
  -- and no error is returned.
  pub stop_task-IsStopped :
      (now : ℕ) (target : Task) (force : Bool) (r : Ref) (w v : World S) (e : Option Error)
      (killed : List Ref)
      → get_task target.id w ≡ some r
      → stop_task x db blank now target force w ≡ done (v, e, killed)
      → IsStopped force r (w.runners r).task.status v e killed
  unfolding stop_task
  stop_task-IsStopped now target force r w v e killed g h =
      >>=-eq-done {B = World S × Option Error × List Ref}
        (IsStopped force r (w.runners r).task.status v e killed)
        (set_status db now r (if force then stopped else stopping) w)
        (λ w'. done (w', none, if status_eq (w.runners r).task.status running then r ∷ [] else []))
        {b = (v, e, killed)}
        (λ u p q.
          let s = set_status-status db now r (if force then stopped else stopping) w u p in
          let a = asked force (w.runners r).task.status in
          record { status = ground arith; no_error = ground arith; kills = ground arith })
        (sym (active now target force r w g) ∙ h)
