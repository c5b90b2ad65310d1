-- ===== src/Tasks/System/Steps.antt =====
-- Every step of the goroutines keeps the invariant, from an empty pool on.
use contribute_semaphore.Base.{◌<◌, ◌≡◌, subst, List, [], ◌∷◌, ◌++◌, arith}
use contribute_semaphore.Base.Map
use contribute_semaphore.Base.Map.{lookup, size}
use contribute_semaphore.Base.Lists.{All}
use contribute_semaphore.Model.Store.{TaskStore, StoreLaws}
use contribute_semaphore.Tasks.Pool.{
  project_tasks, id_of, lock, unlock, launch, tail, create_task_pool,
}
use contribute_semaphore.Tasks.Pool.Invariant.{PoolInv, lock-locked}
use contribute_semaphore.Tasks.Pool.Locker.{locked-PoolInv, unlock-PoolInv}
use contribute_semaphore.Tasks.System.{
  idle, free, locking, unlocking, System, Step, arrive, poll, ask, hand_over, take_lock, finish,
  release, work,
}
use contribute_semaphore.Tasks.System.Invariant.{
  IsFresh, IsKnown, MainKnown, LockerKnown, SystemInv, IsOwnId-known, work-SystemInv,
  queue-SystemInv, arrive-SystemInv,
}
use contribute_semaphore.Tasks.World.{Ref, World, TaskRunner, Config, done}
use contribute_semaphore.Tasks.System.Polling.{poll-SystemInv, asked-known}

module _ {S : Type 0} (db : TaskStore S) where
  All-tail : (P : Ref → Type 0) (q : List Ref) → All P q → All P (tail q)
  All-tail P [] h = tt
  All-tail P (r ∷ q) h = h.1

  hand_over-SystemInv :
      (s : System S) (r : Ref)
      → r < s.world.next_ref
      → SystemInv db s
      → SystemInv db (record s {
        main = idle;
        locker = locking r;
        world = launch s.world;
        started = r ∷ s.started;
      })
  unfolding launch
  hand_over-SystemInv s r known inv =
      let cut =
        queue-SystemInv db s (tail s.world.queue)
          (All-tail (IsKnown s.world.next_ref) s.world.queue inv.queue_known) inv in
      record {
        pool = cut.pool;
        distinct = cut.distinct;
        templated = cut.templated;
        queue_known = cut.queue_known;
        running_known = cut.running_known;
        main_ok = tt;
        locker_ok = known;
        started_known = (known, inv.started_known);
      }

  take_lock-SystemInv :
      (s : System S) (r : Ref) (v : World S)
      → r < s.world.next_ref
      → lock db r s.world ≡ done v
      → SystemInv db s
      → SystemInv db (record s { world = v; locker = free })
  take_lock-SystemInv s r v known e inv =
      let got = lock-locked db r s.world v e in
      rw got.1 (record {
        pool =
            locked-PoolInv db r s.world inv.pool (IsOwnId-known db s r inv known)
              (inv.templated r known) got.0;
        distinct = inv.distinct;
        templated = inv.templated;
        queue_known = inv.queue_known;
        running_known = λ k q h. ground (
          arith,
          Map.lookup-insert (id_of r s.world) k r s.world.running_tasks,
          inv.running_known k q,
        );
        main_ok = inv.main_ok;
        locker_ok = tt;
        started_known = inv.started_known;
      })

  release-SystemInv :
      (s : System S) (r : Ref)
      → r < s.world.next_ref
      → SystemInv db s
      → SystemInv db (record s { world = unlock r s.world; locker = free })
  unfolding unlock
  release-SystemInv s r known inv = record {
    pool = unlock-PoolInv db r s.world inv.pool (IsOwnId-known db s r inv known);
    distinct = inv.distinct;
    templated = inv.templated;
    queue_known = inv.queue_known;
    running_known = λ k q h.
        ground (
          arith,
          Map.lookup-delete (id_of r s.world) k s.world.running_tasks,
          inv.running_known k q,
        );
    main_ok = inv.main_ok;
    locker_ok = tt;
    started_known = inv.started_known;
  }

  finish-SystemInv :
      (s : System S) (r : Ref) (before after : List Ref)
      → s.started ≡ before ++ (r ∷ after)
      → SystemInv db s
      → SystemInv db (record s { locker = unlocking r; started = before ++ after })
  finish-SystemInv s r before after e inv =
      let parts = All-split before (rw e at inv.started_known) in
      record {
        pool = inv.pool;
        distinct = inv.distinct;
        templated = inv.templated;
        queue_known = inv.queue_known;
        running_known = inv.running_known;
        main_ok = inv.main_ok;
        locker_ok = parts.0;
        started_known = parts.1;
      }
    where
      All-split :
          (bs : List Ref)
          → All (IsKnown s.world.next_ref) (bs ++ (r ∷ after))
          → (r < s.world.next_ref) × All (IsKnown s.world.next_ref) (bs ++ after)
      All-split [] h = h
      All-split (b ∷ bs) h = let p = All-split bs h.1 in (p.0, (h.0, p.1))

  -- A step in which no task arrives under the number of another. The store gives each task that it
  -- creates the next number; that of BoltDB leaves a number that the client has sent.
  abbrev pub IsFreshStep : {s u : System S} → Step db s u → Type 0
  IsFreshStep {s} (arrive now t v m tpl e) = IsFresh db t s.world
  IsFreshStep _ = Unit

  pub data FreshReach (s : System S) : System S → Type 0 where
    here : FreshReach s s
    next :
        {t u : System S} → FreshReach s t → (step : Step db t u) → IsFreshStep step → FreshReach s u

  -- Every step of the goroutines keeps the invariant.
  pub Step-SystemInv :
      StoreLaws db
      → (s u : System S) (step : Step db s u) → IsFreshStep step
      → SystemInv db s
      → SystemInv db u
  Step-SystemInv laws s u (arrive now t v m tpl e) fresh inv =
      arrive-SystemInv db laws s now t v fresh tpl e inv
  Step-SystemInv laws s u (poll m e) fresh inv = poll-SystemInv db s e inv
  Step-SystemInv laws s u (ask r m e) fresh inv = record {
    pool = inv.pool;
    distinct = inv.distinct;
    templated = inv.templated;
    queue_known = inv.queue_known;
    running_known = inv.running_known;
    main_ok = (asked-known db s r e inv).0;
    locker_ok = inv.locker_ok;
    started_known = inv.started_known;
  }
  Step-SystemInv laws s u (hand_over r m l) fresh inv =
      hand_over-SystemInv s r (subst (MainKnown s.world.next_ref) m inv.main_ok) inv
  Step-SystemInv laws s u (take_lock r v l e) fresh inv =
      take_lock-SystemInv s r v (subst (LockerKnown s.world.next_ref) l inv.locker_ok) e inv
  Step-SystemInv laws s u (finish r before after e l) fresh inv =
      finish-SystemInv s r before after e inv
  Step-SystemInv laws s u (release r l) fresh inv =
      release-SystemInv s r (subst (LockerKnown s.world.next_ref) l inv.locker_ok) inv
  Step-SystemInv laws s u (work v k) fresh inv = work-SystemInv db s v k inv

  -- And so does every run.
  pub FreshReach-SystemInv :
      StoreLaws db → (s u : System S) → FreshReach s u → SystemInv db s → SystemInv db u
  FreshReach-SystemInv laws s u here inv = inv
  FreshReach-SystemInv laws s u (next {t = t} path step fresh) inv =
      Step-SystemInv laws t u step fresh (FreshReach-SystemInv laws s t path inv)

  -- The pool that CreateTaskPool makes, with nothing on its way.
  abbrev pub start : Config → (Ref → TaskRunner) → S → System S
  start config memory store = record {
    world = create_task_pool config memory store;
    main = idle;
    locker = free;
    started = [];
  }

  start-SystemInv :
      (config : Config) (memory : Ref → TaskRunner) (store : S)
      → SystemInv db (start config memory store)
  unfolding create_task_pool project_tasks size lookup
  start-SystemInv config memory store = record {
    pool = record {
      keyed = λ k r h. cc;
      sound = λ p k r h. absurd (cc);
      complete = λ k r h. absurd (cc);
      exclusive = λ k j q r h h' e f. absurd (cc);
      bounded = λ h. omega arith;
      project_bounded = λ p project e h. omega arith;
    };
    distinct = λ q r hq hr e. absurd (omega arith);
    templated = λ r h. absurd (omega arith);
    queue_known = tt;
    running_known = λ k r h. absurd (cc);
    main_ok = tt;
    locker_ok = tt;
    started_known = tt;
  }

  -- In every state that a pool made by CreateTaskPool reaches, by arrivals, ticks, messages of the
  -- locker and work on the tasks in any order, where no task arrives under the number of another,
  -- the two maps of running tasks agree, no two running tasks of one project come from one
  -- template, and neither the limit of the server nor that of a project is passed; the store is
  -- supposed to keep to StoreLaws.
  pub start-Reach :
      StoreLaws db
      → (config : Config) (memory : Ref → TaskRunner) (store : S) (u : System S)
      → FreshReach (start config memory store) u
      → PoolInv db u.world
  start-Reach laws config memory store u path =
      (FreshReach-SystemInv laws (start config memory store) u path
        (start-SystemInv config memory store)).pool
