-- ===== src/Tasks/System/Invariant.antt =====
-- Mutual exclusion and the limits hold in every state that the goroutines reach.
use contribute_semaphore.Base.{ℕ, suc, ◌<◌, ◌≡◌, ◌≢◌, refl, some, List, [], ◌∷◌, arith}
use contribute_semaphore.Base.Map.{lookup}
use contribute_semaphore.Base.Lists.{All, All-append, All-map}
use contribute_semaphore.Model.Store.{TaskStore, StoreLaws}
use contribute_semaphore.Tasks.Pool.{project_tasks, project_of, id_of, register}
use contribute_semaphore.Tasks.Pool.Invariant.{PoolInv, IsOwnId}
use contribute_semaphore.Tasks.Pool.Queue.{register-queued}
use contribute_semaphore.Tasks.System.{
  Main, idle, sending, Locker, free, locking, unlocking, System, allocate, Works,
}
use contribute_semaphore.Tasks.World.{Ref, World, TaskRunner, done}

abbrev pub IsKnown : ℕ → Ref → Type 0
IsKnown n r = r < n

abbrev pub MainKnown : ℕ → Main → Type 0
MainKnown n idle = Unit
MainKnown n (sending r) = IsKnown n r

abbrev pub LockerKnown : ℕ → Locker → Type 0
LockerKnown n free = Unit
LockerKnown n (locking r) = IsKnown n r
LockerKnown n (unlocking r) = IsKnown n r

module _ {S : Type 0} (db : TaskStore S) where
  -- No runner has had a task under the number of this one.
  abbrev pub IsFresh : TaskRunner → World S → Type 0
  IsFresh t w = (q : Ref) → q < w.next_ref → id_of q w ≢ t.task.id

  pub record SystemInv (s : System S) : Type 0 where
    pub pool : PoolInv db s.world
    pub distinct :
        (q r : Ref)
        → q < s.world.next_ref
        → r < s.world.next_ref
        → id_of q s.world ≡ id_of r s.world
        → q ≡ r
    pub templated :
        (r : Ref)
        → r < s.world.next_ref
        → (s.world.runners r).template.id ≡ (s.world.runners r).task.template_id
    pub queue_known : All (IsKnown s.world.next_ref) s.world.queue
    pub running_known :
        (k : ℕ) (r : Ref) → lookup k s.world.running_tasks ≡ some r → r < s.world.next_ref
    pub main_ok : MainKnown s.world.next_ref s.main
    pub locker_ok : LockerKnown s.world.next_ref s.locker
    pub started_known : All (IsKnown s.world.next_ref) s.started

  -- A world with the same running tasks, under the same names and limits.
  record KeepsPool (w v : World S) : Type 0 where
    config : v.config ≡ w.config
    active : v.active_proj ≡ w.active_proj
    running : v.running_tasks ≡ w.running_tasks
    ids : (k : ℕ) (r : Ref) → lookup k w.running_tasks ≡ some r → id_of r v ≡ id_of r w
    projects :
        (k : ℕ) (r : Ref) → lookup k w.running_tasks ≡ some r → project_of r v ≡ project_of r w
    templates :
        (k : ℕ) (r : Ref)
        → lookup k w.running_tasks ≡ some r
        → (v.runners r).template.id ≡ (w.runners r).template.id
    limits : (p : ℕ) → db.get_project p v.store ≡ db.get_project p w.store

  project_tasks_eq :
      (w v : World S) (p : ℕ)
      → v.active_proj ≡ w.active_proj
      → project_tasks p v ≡ project_tasks p w
  unfolding project_tasks
  project_tasks_eq w v p e = cc

  KeepsPool-PoolInv : (w v : World S) → KeepsPool w v → PoolInv db w → PoolInv db v
  KeepsPool-PoolInv w v k inv = record {
    keyed = λ i r h. ground (arith, k.running, k.ids i r, inv.keyed i r);
    sound = λ p i r h.
        ground (arith, k.running, project_tasks_eq w v p k.active, k.projects i r, inv.sound p i r);
    complete = λ i r h. ground (
      arith,
      k.running,
      project_tasks_eq w v (project_of r v) k.active,
      k.projects i r,
      inv.complete i r,
    );
    exclusive = λ i j q r h h' e f. ground (
      arith,
      k.running,
      k.projects i q,
      k.projects j r,
      k.templates i q,
      k.templates j r,
      inv.exclusive i j q r,
    );
    bounded = λ p. ground (arith, k.running, k.config, inv.bounded);
    project_bounded = λ p project e pos.
        ground (arith, project_tasks_eq w v p k.active, k.limits p, inv.project_bounded p project);
  }

  pub IsOwnId-known :
      (s : System S) (r : Ref) → SystemInv s → r < s.world.next_ref → IsOwnId r s.world
  IsOwnId-known s r inv known k q h e = inv.distinct q r (inv.running_known k q h) known e

  pub work-SystemInv :
      (s : System S) (v : World S)
      → Works db s.world v
      → SystemInv s
      → SystemInv (record s { world = v })
  work-SystemInv s v k inv = record {
    pool =
        KeepsPool-PoolInv s.world v
          (record {
            config = k.config;
            active = k.active;
            running = k.running;
            ids = λ i r h. k.ids r;
            projects = λ i r h. k.projects r;
            templates = λ i r h. k.templates r;
            limits = k.limits;
          })
          inv.pool;
    distinct = λ q r hq hr e. ground (arith, k.next_ref, k.ids q, k.ids r, inv.distinct q r);
    templated =
        λ r h. ground (arith, k.next_ref, k.templates r, k.task_templates r, inv.templated r);
    queue_known = rw (k.queue, k.next_ref) inv.queue_known;
    running_known = λ i r h. ground (arith, k.running, k.next_ref, inv.running_known i r);
    main_ok = rw k.next_ref inv.main_ok;
    locker_ok = rw k.next_ref inv.locker_ok;
    started_known = rw k.next_ref inv.started_known;
  }

  pub queue-SystemInv :
      (s : System S) (q : List Ref)
      → All (IsKnown s.world.next_ref) q
      → SystemInv s
      → SystemInv (record s { world = record s.world { queue = q } })
  queue-SystemInv s q h inv = record {
    pool =
        KeepsPool-PoolInv s.world (record s.world { queue = q })
          (record {
            config = refl;
            active = refl;
            running = refl;
            ids = λ i r h. refl;
            projects = λ i r h. refl;
            templates = λ i r h. refl;
            limits = λ p. refl;
          })
          inv.pool;
    distinct = inv.distinct;
    templated = inv.templated;
    queue_known = h;
    running_known = inv.running_known;
    main_ok = inv.main_ok;
    locker_ok = inv.locker_ok;
    started_known = inv.started_known;
  }

  -- A task with a new name arrives.
  pub arrive-SystemInv :
      StoreLaws db
      → (s : System S) (now : ℕ) (t : TaskRunner) (v : World S) → IsFresh t s.world
      → t.template.id ≡ t.task.template_id
      → register db now s.world.next_ref (allocate db t s.world) ≡ done v
      → SystemInv s
      → SystemInv (record s { world = v })
  arrive-SystemInv laws s now t v fresh tpl e inv =
      let q = register-queued db now s.world.next_ref (allocate db t s.world) v e in
      rw q.4 (record {
        pool =
            KeepsPool-PoolInv s.world _
              (record {
                config = refl;
                active = refl;
                running = refl;
                ids = λ i r h. ground (arith, inv.running_known i r);
                projects = λ i r h. ground (arith, inv.running_known i r);
                templates = λ i r h. ground (arith, inv.running_known i r);
                limits = λ p. laws.get_project-update _ _ _ p q.3;
              })
              inv.pool;
        distinct = λ i j hi hj f. ground (arith, inv.distinct i j, fresh i, fresh j);
        templated = λ r h. ground (arith, inv.templated r);
        queue_known =
            All-append (IsKnown (suc n)) s.world.queue (n ∷ [])
              (older s.world.queue inv.queue_known) (omega arith, tt);
        running_known = λ i r h. omega (arith, inv.running_known i r h);
        main_ok = main_older s.main inv.main_ok;
        locker_ok = locker_older s.locker inv.locker_ok;
        started_known = older s.started inv.started_known;
      })
    where
      n : ℕ
      n = s.world.next_ref

      older : (rs : List Ref) → All (IsKnown n) rs → All (IsKnown (suc n)) rs
      older rs h = All-map (IsKnown n) (IsKnown (suc n)) (λ r p. omega arith) rs h

      main_older : (m : Main) → MainKnown n m → MainKnown (suc n) m
      main_older idle h = tt
      main_older (sending r) h = omega arith

      locker_older : (l : Locker) → LockerKnown n l → LockerKnown (suc n) l
      locker_older free h = tt
      locker_older (locking r) h = omega arith
      locker_older (unlocking r) h = omega arith
