-- ===== src/Tasks/System.antt =====
-- The goroutines around TaskPool: the loop of Run, the resource locker behind its unbuffered channel,
-- and the goroutines of the tasks. What is atomic is one event of the loop, one message of the
-- locker, and one piece of work on a task.
pub mod Invariant
pub mod Polling
pub mod Steps
pub mod Prompt
pub mod Race
pub mod Work
use contribute_semaphore.Base.{
  ℕ, zero, suc, ◌+◌, ◌-◌, ◌*◌, ◌/◌, ◌%◌, ◌^◌, ◌≤◌, ◌<◌, ◌≡◌, refl, sym, ap, subst, ◌∙◌, ◌≢◌, ◌↔◌,
  ◌⊎◌, inl, inr, Bool, true, false, not, ◌&&◌, ◌||◌, Option, none, some, List, [], ◌∷◌, ◌++◌, map,
  arith,
}
use contribute_semaphore.Base.Tests.{
  ltb, leb, ◌==◌, if◌then◌else◌, ltb→lt, lt→ltb, leb→le, le→leb, ==_iff, ==_self, tests, Bool-cases,
  Option-cases,
}
use contribute_semaphore.Model.Store.{TaskStore}
use contribute_semaphore.Tasks.Pool.{lock, unlock, register, tick, launch, id_of, project_of}
use contribute_semaphore.Tasks.World.{Ref, World, TaskRunner, Outcome, done, update}

-- The loop waits for an event, or for the locker to take its message.
pub data Main : Type 0 where
  idle : Main
  sending : Ref → Main

-- The locker waits for a message, or has taken one and not yet acted on it.
pub data Locker : Type 0 where
  free : Locker
  locking unlocking : Ref → Locker

pub record System (S : Type 0) : Type 0 where
  pub world : World S
  pub main : Main
  pub locker : Locker
  pub started : List Ref

module _ {S : Type 0} (db : TaskStore S) where
  -- A new runner is put at the next free reference.
  abbrev pub allocate : TaskRunner → World S → World S
  allocate t w = record w { runners = update w.runners w.next_ref t; next_ref = suc w.next_ref }

  -- Work on the tasks: what SetStatus, Log and the jobs do leaves the pool, the names of the
  -- tasks and the projects as they are.
  pub record Works (w v : World S) : Type 0 where
    pub config : v.config ≡ w.config
    pub queue : v.queue ≡ w.queue
    pub active : v.active_proj ≡ w.active_proj
    pub running : v.running_tasks ≡ w.running_tasks
    pub next_ref : v.next_ref ≡ w.next_ref
    pub ids : (r : Ref) → id_of r v ≡ id_of r w
    pub projects : (r : Ref) → project_of r v ≡ project_of r w
    pub task_templates : (r : Ref) → (v.runners r).task.template_id ≡ (w.runners r).task.template_id
    pub templates : (r : Ref) → (v.runners r).template.id ≡ (w.runners r).template.id
    pub limits : (p : ℕ) → db.get_project p v.store ≡ db.get_project p w.store

  pub data Step (s : System S) : System S → Type 0 where
    -- `task := <-p.register`
    arrive :
        (now : ℕ) (t : TaskRunner) (v : World S)
        → s.main ≡ idle
        → t.template.id ≡ t.task.template_id
        → register db now s.world.next_ref (allocate t s.world) ≡ done v
        → Step s (record s { world = v })
    -- `<-ticker.C` when no task is to be launched
    poll :
        s.main ≡ idle
        → (tick db s.world).1 ≡ none
        → Step s (record s { world = (tick db s.world).0 })
    -- `<-ticker.C` when the head of the queue is not blocked
    ask :
        (r : Ref)
        → s.main ≡ idle
        → (tick db s.world).1 ≡ some r
        → Step s (record s { main = sending r })
    -- the locker receives the message; `go t.run()` and the queue is cut
    hand_over :
        (r : Ref)
        → s.main ≡ sending r
        → s.locker ≡ free
        → Step s (record s {
          main = idle;
          locker = locking r;
          world = launch s.world;
          started = r ∷ s.started;
        })
    take_lock :
        (r : Ref) (v : World S)
        → s.locker ≡ locking r
        → lock db r s.world ≡ done v
        → Step s (record s { world = v; locker = free })
    -- the deferred function of run sends its message
    finish :
        (r : Ref) (before after : List Ref)
        → s.started ≡ before ++ (r ∷ after)
        → s.locker ≡ free
        → Step s (record s { locker = unlocking r; started = before ++ after })
    release :
        (r : Ref)
        → s.locker ≡ unlocking r
        → Step s (record s { world = unlock r s.world; locker = free })
    work : (v : World S) → Works s.world v → Step s (record s { world = v })

  pub data Reach (s : System S) : System S → Type 0 where
    here : Reach s s
    next : {t u : System S} → Reach s t → Step t u → Reach s u
