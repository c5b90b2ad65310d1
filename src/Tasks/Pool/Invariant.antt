-- ===== src/Tasks/Pool/Invariant.antt =====
-- What the resource locker keeps true of the running tasks.
use contribute_semaphore.Base.{ℕ, ◌≤◌, ◌<◌, ◌≡◌, ◌≢◌, inl, inr, false, some, arith}
use contribute_semaphore.Base.Tests.{◌==◌, if◌then◌else◌, Bool-cases}
use contribute_semaphore.Base.Map
use contribute_semaphore.Base.Map.{Map, lookup, insert, delete, size, any_value-lookup}
use contribute_semaphore.Model.Resources.{Project}
use contribute_semaphore.Model.Store.{TaskStore, ok}
use contribute_semaphore.Tasks.Pool.{project_tasks, project_of, id_of, blocks, lock, unlock}
use contribute_semaphore.Tasks.World.{Ref, World, done}

module _ {S : Type 0} where
  -- The state after the lock of a runner.
  abbrev pub locked : Ref → World S → World S
  locked r w = record w {
    active_proj =
        insert (project_of r w) (insert (id_of r w) r (project_tasks (project_of r w) w))
          w.active_proj;
    running_tasks = insert (id_of r w) r w.running_tasks;
  }

  pub project_tasks-locked :
      (r : Ref) (p : ℕ) (w : World S)
      → project_tasks p (locked r w) ≡ (
          if project_of r w == p
          then insert (id_of r w) r (project_tasks p w)
          else project_tasks p w)
  unfolding project_tasks
  project_tasks-locked r p w = ground (
    arith,
    Map.lookup-insert (project_of r w) p (insert (id_of r w) r (project_tasks (project_of r w) w))
        w.active_proj,
  )

  pub project_tasks-unlock :
      (r : Ref) (p : ℕ) (w : World S)
      → project_tasks p (unlock r w) ≡ (
          if project_of r w == p then delete (id_of r w) (project_tasks p w) else project_tasks p w)
  unfolding unlock project_tasks
  project_tasks-unlock r p w = ground (
    arith,
    Map.lookup-delete (project_of r w) p w.active_proj,
    Map.lookup-insert (project_of r w) p (delete (id_of r w) (project_tasks (project_of r w) w))
        w.active_proj,
    Map.delete_of_lookup (id_of r w) (project_tasks (project_of r w) w),
    Map.eq_nil_of_size (delete (id_of r w) (project_tasks (project_of r w) w)),
  )

  -- No other runner that runs has the runner's task.
  abbrev pub IsOwnId : Ref → World S → Type 0
  IsOwnId r w =
      (k : ℕ) (q : Ref) → lookup k w.running_tasks ≡ some q → id_of q w ≡ id_of r w → q ≡ r

module _ {S : Type 0} (db : TaskStore S) where
  -- The two maps agree, no two running tasks of one project come from one template, and neither the
  -- limit of the server nor that of a project is passed.
  pub record PoolInv (w : World S) : Type 0 where
    pub keyed : (k : ℕ) (r : Ref) → lookup k w.running_tasks ≡ some r → id_of r w ≡ k
    pub sound :
        (p k : ℕ) (r : Ref)
        → lookup k (project_tasks p w) ≡ some r
        → (lookup k w.running_tasks ≡ some r) × (project_of r w ≡ p)
    pub complete :
        (k : ℕ) (r : Ref)
        → lookup k w.running_tasks ≡ some r
        → lookup k (project_tasks (project_of r w) w) ≡ some r
    pub exclusive :
        (k j : ℕ) (q r : Ref)
        → lookup k w.running_tasks ≡ some q
        → lookup j w.running_tasks ≡ some r
        → project_of q w ≡ project_of r w
        → (w.runners q).template.id ≡ (w.runners r).template.id
        → k ≡ j
    pub bounded :
        0 < w.config.max_parallel_tasks → size w.running_tasks ≤ w.config.max_parallel_tasks
    pub project_bounded :
        (p : ℕ) (project : Project)
        → db.get_project p w.store ≡ ok project
        → 0 < project.max_parallel_tasks
        → size (project_tasks p w) ≤ project.max_parallel_tasks

  -- What `blocks` has found when it lets a runner pass.
  pub record HasRoom (r : Ref) (w : World S) : Type 0 where
    pub room : 0 < w.config.max_parallel_tasks → size w.running_tasks < w.config.max_parallel_tasks
    pub other_template :
        (k : ℕ) (q : Ref)
        → lookup k (project_tasks (project_of r w) w) ≡ some q
        → (w.runners q).template.id ≢ (w.runners r).task.template_id
    pub project_room :
        (project : Project)
        → db.get_project (project_of r w) w.store ≡ ok project
        → 0 < project.max_parallel_tasks
        → size (project_tasks (project_of r w) w) < project.max_parallel_tasks

  pub blocks-HasRoom : (r : Ref) (w : World S) → blocks db r w ≡ false → HasRoom r w
  unfolding blocks
  blocks-HasRoom r w h = record {
    room = λ p. ground arith;
    other_template = λ k q e f. ground (
      arith,
      Map.lookup_of_empty k (project_tasks (project_of r w) w),
      any_value-lookup (λ q. (w.runners q).template.id == (w.runners r).task.template_id)
          (project_tasks (project_of r w) w) k q,
    );
    project_room = λ project e p. ground arith;
  }

  pub lock-locked :
      (r : Ref) (w v : World S) → lock db r w ≡ done v → (blocks db r w ≡ false) × (v ≡ locked r w)
  unfolding lock
  lock-locked r w v h = elim (Bool-cases (blocks db r w)) [
    | inl b ↦ absurd (ground arith)
    | inr b ↦ (b, ground arith)
  ]
