-- ===== src/Examples/Pools.antt =====
-- The theorems on the pool and its locker, at the pool of the examples.
use contribute_semaphore.Base.{◌≡◌, refl, [], ◌∷◌, arith}
use contribute_semaphore.Base.Tests.{◌==◌, if◌then◌else◌}
use contribute_semaphore.Base.Map.{lookup, size}
use contribute_semaphore.Base.Text.{text}
use contribute_semaphore.Examples.Disk.{
  Disk, disk, disk_store, disk_laws, write_task, pool, result, memory, config, runner_of, task,
}
use contribute_semaphore.Model.Status.{waiting}
use contribute_semaphore.Tasks.Pool.{
  blocks, lock, launch, tick, register, create_task_pool, project_tasks,
}
use contribute_semaphore.Tasks.Pool.Invariant.{PoolInv}
use contribute_semaphore.Tasks.Status.{log, save_status}
use contribute_semaphore.Tasks.System.{
  System, idle, sending, free, locking, Reach, arrive, ask, hand_over,
}
use contribute_semaphore.Tasks.System.Steps.{FreshReach, start, start-Reach}
use contribute_semaphore.Tasks.System.Prompt.{PromptReach, locker_never_panics}
use contribute_semaphore.Tasks.System.Race.{early_tick_panics}
use contribute_semaphore.Tasks.World.{World, done, panic}

abbrev queued : World Disk
queued = result (register disk_store 5 2 (pool waiting))

-- A pool in which nothing runs is in order.
idle-PoolInv : PoolInv disk_store (pool waiting)
unfolding lookup size project_tasks
idle-PoolInv = record {
  keyed = λ k r h. cc;
  sound = λ p k r h. cc;
  complete = λ k r h. cc;
  exclusive = λ k j q r h i e f. cc;
  bounded = λ h. omega arith;
  project_bounded = λ p project e h. omega arith;
}

abbrev fresh : System Disk
fresh = start disk_store config (memory waiting) (disk waiting)

abbrev arrived : World Disk
arrived = result (
    register disk_store 5 0 (record fresh.world {
      runners = λ q. if 0 == q then runner_of (task 7 3 waiting) else fresh.world.runners q;
      next_ref = 1;
    }))

-- A task arrives, and the ticker asks the locker for it.
arrived_asked : FreshReach disk_store fresh (record fresh { world = arrived; main = sending 0 })
unfolding register log save_status write_task create_task_pool tick blocks size lookup project_tasks
arrived_asked =
    FreshReach.next
      (FreshReach.next FreshReach.here
        (arrive 5 (runner_of (task 7 3 waiting)) arrived refl refl refl)
        (λ q h. absurd (omega arith)))
      (ask 0 refl refl) tt

start-Reach_example : PoolInv disk_store arrived
start-Reach_example =
    start-Reach disk_store disk_laws config (memory waiting) (disk waiting)
      (record fresh { world = arrived; main = sending 0 }) arrived_asked

abbrev waiting_system : System Disk
waiting_system = record { world = pool waiting; main = idle; locker = free; started = [] }

early_tick_panics_example :
    (u : System Disk) × Reach disk_store waiting_system u
    × (u.locker ≡ locking 1)
    × (lock disk_store 1 u.world ≡ panic (text "Trying to lock an already locked resource!"))
unfolding blocks lookup size project_tasks
early_tick_panics_example =
    early_tick_panics disk_store waiting_system 0 1 [] refl refl refl (λ e. cc) (λ e. cc) refl refl
      refl refl

abbrev asked : System Disk
asked = record waiting_system { main = sending 0 }

abbrev handed : System Disk
handed = record { main = idle; locker = locking 0; world = launch (pool waiting); started = 0 ∷ [] }

-- The ticker asks for the first task, and the locker receives the message.
asked_handed : PromptReach disk_store waiting_system handed
unfolding blocks lookup size project_tasks tick
asked_handed =
    PromptReach.next (PromptReach.next PromptReach.here (ask 0 refl refl) (λ q e. cc))
      (hand_over 0 refl refl) tt

locker_never_panics_example : (v : World Disk) × (lock disk_store 0 handed.world ≡ done v)
locker_never_panics_example =
    locker_never_panics disk_store waiting_system handed refl refl asked_handed 0 refl
