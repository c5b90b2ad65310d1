-- ===== src/Tasks/Status/Runs.antt =====
-- Sequences of SetStatus calls on one task, as its job, the API and a remote runner make them.
use contribute_semaphore.Base.{
  ℕ, suc, ◌≡◌, refl, ◌≢◌, ◌⊎◌, inl, inr, List, [], ◌∷◌, ◌++◌, map, arith,
}
use contribute_semaphore.Base.Tests.{==_self}
use contribute_semaphore.Model.Status.{TaskStatus, stopped, success, fail}
use contribute_semaphore.Model.Store.{TaskStore, StoreLaws, ok}
use contribute_semaphore.Model.Task.{Task}
use contribute_semaphore.Tasks.Status.{mark, refused, alerts, set_status}
use contribute_semaphore.Tasks.Status.Rules.{set_status-Changed}
use contribute_semaphore.Tasks.World.{
  Ref, World, TaskRunner, update_message, Outcome, done, ◌>>=◌, >>=-eq-done, update,
}

module _ {S : Type 0} (db : TaskStore S) where
  unfoldable pub set_each : ℕ → Ref → List TaskStatus → World S → Outcome (World S)
  set_each now r [] w = done w
  set_each now r (s ∷ ss) w = set_status db now r s w >>= set_each (suc now) r ss

  stopped-set_status :
      (now : ℕ) (r : Ref) (new : TaskStatus) (w : World S)
      → (w.runners r).task.status ≡ stopped
      → set_status db now r new w ≡ done w
  unfolding set_status refused
  stopped-set_status now r new w h = ground arith

  -- No sequence of calls of SetStatus changes anything once the task is stopped.
  pub set_each_stopped :
      (now : ℕ) (r : Ref) (ss : List TaskStatus) (w : World S)
      → (w.runners r).task.status ≡ stopped
      → set_each now r ss w ≡ done w
  unfolding set_each
  set_each_stopped now r [] w h = refl
  set_each_stopped now r (s ∷ ss) w h =
      rw (stopped-set_status now r s w h) (set_each_stopped (suc now) r ss w h)

  -- The database has the runner's task, in the status that it has in memory.
  abbrev pub IsSynced : Ref → World S → Type 0
  IsSynced r w =
      (t : Task) × (db.get_task (w.runners r).task.project_id (w.runners r).task.id w.store ≡ ok t)
      × (t.status ≡ (w.runners r).task.status)

  set_status-IsSynced :
      StoreLaws db
      → (now : ℕ) (r : Ref) (new : TaskStatus) (w v : World S) → IsSynced r w
      → set_status db now r new w ≡ done v
      → IsSynced r v
  unfolding mark
  set_status-IsSynced laws now r new w v h e = elim (set_status-Changed db now r new w v e) [
    | inl same ↦ rw same h
    | inr c ↦
        let held =
          laws.get_task-update (mark now new (w.runners r)).task h.0 w.store c.stored h.1 c.saved in
        rw c.result (held.0, ground (arith, ==_self r), ground (arith, ==_self r))
  ]

  -- If the database has the task of a runner in the status that it has in memory, it does so after
  -- every sequence of calls of SetStatus that returns; the store is supposed to keep to StoreLaws.
  pub set_each-IsSynced :
      StoreLaws db
      → (now : ℕ) (r : Ref) (ss : List TaskStatus) (w v : World S) → IsSynced r w
      → set_each now r ss w ≡ done v
      → IsSynced r v
  unfolding set_each
  set_each-IsSynced laws now r [] w v h e = ground arith
  set_each-IsSynced laws now r (s ∷ ss) w v h e =
      >>=-eq-done (IsSynced r v) (set_status db now r s w) (set_each (suc now) r ss)
        (λ u p q.
          set_each-IsSynced laws (suc now) r ss u v (set_status-IsSynced laws now r s w u h p) q)
        e

  -- What SetStatus leaves alone: the pool, the other runners, and all of the task but its status
  -- and its start.
  pub record Untouched (r : Ref) (w v : World S) : Type 0 where
    pub same_config : v.config ≡ w.config
    pub same_queue : v.queue ≡ w.queue
    pub same_active : v.active_proj ≡ w.active_proj
    pub same_running : v.running_tasks ≡ w.running_tasks
    pub same_others : (q : Ref) → q ≢ r → v.runners q ≡ w.runners q
    pub same_task : (v.runners r).task ≡ record (w.runners r).task {
      status = (v.runners r).task.status;
      start = (v.runners r).task.start;
    }
    pub same_template : (v.runners r).template ≡ (w.runners r).template

  -- A call of SetStatus that returns leaves the pool, the other runners, the template, and all of
  -- the task but its status and its start as they were.
  pub set_status-Untouched :
      (now : ℕ) (r : Ref) (new : TaskStatus) (w v : World S)
      → set_status db now r new w ≡ done v
      → Untouched r w v
  unfolding mark
  set_status-Untouched now r new w v e = elim (set_status-Changed db now r new w v e) [
    | inl same ↦ rw same (record {
      same_config = refl;
      same_queue = refl;
      same_active = refl;
      same_running = refl;
      same_others = λ q n. refl;
      same_task = refl;
      same_template = refl;
    })
    | inr c ↦ rw c.result (record {
      same_config = refl;
      same_queue = refl;
      same_active = refl;
      same_running = refl;
      same_others = λ q n. ground arith;
      same_task = ground (arith, ==_self r);
      same_template = ground (arith, ==_self r);
    })
  ]

  -- A task that is in the status success or error is taken out of it by the next call of SetStatus
  -- with a status that is neither, when the database takes the write.
  pub finished_reopens :
      (now : ℕ) (r : Ref) (new : TaskStatus) (w : World S) (s : S)
      → ((w.runners r).task.status ≡ success) ⊎ ((w.runners r).task.status ≡ fail)
      → new ≢ success
      → new ≢ fail
      → db.update_task (mark now new (w.runners r)).task w.store ≡ ok s
      → (v : World S) × (set_status db now r new w ≡ done v)
        × ((v.runners r).task.status ≡ new)
        × (v.store ≡ s)
  unfolding set_status alerts
  finished_reopens now r new w s f a b e =
      (reopened, ground (arith, ==_self r), ground (arith, ==_self r), refl)
    where
      t : TaskRunner
      t = mark now new (w.runners r)

      reopened : World S
      reopened = record w {
        runners = update w.runners r t;
        store = s;
        outbox = w.outbox ++ map (λ u. update_message u t.task) t.users;
      }
