-- ===== src/Tasks/Pool/Locker.antt =====
-- Locking and unlocking keep the invariant of the running tasks.
use contribute_semaphore.Base.{◌≡◌, false, none, arith}
use contribute_semaphore.Base.Map
use contribute_semaphore.Base.Map.{lookup, insert, delete, size}
use contribute_semaphore.Model.Store.{TaskStore}
use contribute_semaphore.Tasks.Pool.{project_tasks, project_of, id_of, blocks, unlock}
use contribute_semaphore.Tasks.Pool.Invariant.{
  PoolInv, blocks-HasRoom, locked, project_tasks-locked, project_tasks-unlock, IsOwnId,
}
use contribute_semaphore.Tasks.World.{Ref, World}

module _ {S : Type 0} (db : TaskStore S) (r : Ref) (w : World S) (inv : PoolInv db w) where
  -- Locking a runner that is not blocked, that has the template of its task and whose task no
  -- other running runner has, keeps the invariant of the pool.
  pub locked-PoolInv :
      IsOwnId r w
      → (w.runners r).template.id ≡ (w.runners r).task.template_id
      → blocks db r w ≡ false
      → PoolInv db (locked r w)
  locked-PoolInv own tpl free =
      let room = blocks-HasRoom db r w free in
      record {
        keyed = λ k q h.
            ground (arith, Map.lookup-insert (id_of r w) k r w.running_tasks, inv.keyed k q);
        sound = λ p k q h. ground (
          arith,
          project_tasks-locked r p w,
          Map.lookup-insert (id_of r w) k r (project_tasks p w),
          Map.lookup-insert (id_of r w) k r w.running_tasks,
          inv.sound p k q,
          inv.keyed k q,
          own k q,
        );
        complete = λ k q h. ground (
          arith,
          project_tasks-locked r (project_of q w) w,
          Map.lookup-insert (id_of r w) k r (project_tasks (project_of q w) w),
          Map.lookup-insert (id_of r w) k r w.running_tasks,
          inv.complete k q,
        );
        exclusive = λ k j q q' h h' e f. ground (
          arith,
          Map.lookup-insert (id_of r w) k r w.running_tasks,
          Map.lookup-insert (id_of r w) j r w.running_tasks,
          inv.exclusive k j q q',
          inv.complete k q,
          inv.complete j q',
          room.other_template k q,
          room.other_template j q',
        );
        bounded =
            λ p. ground (arith, Map.size-insert-le (id_of r w) r w.running_tasks, room.room p);
        project_bounded = λ p project e pos. ground (
          arith,
          project_tasks-locked r p w,
          Map.size-insert-le (id_of r w) r (project_tasks p w),
          inv.project_bounded p project e pos,
          room.project_room project,
        );
      }

  -- Unlocking a runner whose task no other running runner has keeps the invariant of the pool,
  -- whether the runner runs or not.
  pub unlock-PoolInv : IsOwnId r w → PoolInv db (unlock r w)
  unfolding unlock
  unlock-PoolInv own = record {
    keyed = λ k q h. ground (arith, Map.lookup-delete (id_of r w) k w.running_tasks, inv.keyed k q);
    sound = λ p k q h. ground (
      arith,
      project_tasks-unlock r p w,
      Map.lookup-delete (id_of r w) k (project_tasks p w),
      Map.lookup-delete (id_of r w) k w.running_tasks,
      inv.sound p k q,
      inv.keyed k q,
      own k q,
    );
    complete = λ k q h. ground (
      arith,
      project_tasks-unlock r (project_of q w) w,
      Map.lookup-delete (id_of r w) k (project_tasks (project_of q w) w),
      Map.lookup-delete (id_of r w) k w.running_tasks,
      inv.complete k q,
    );
    exclusive = λ k j q q' h h' e f. ground (
      arith,
      Map.lookup-delete (id_of r w) k w.running_tasks,
      Map.lookup-delete (id_of r w) j w.running_tasks,
      inv.exclusive k j q q',
    );
    bounded = λ p. ground (arith, Map.size-delete-le (id_of r w) w.running_tasks, inv.bounded p);
    project_bounded = λ p project e pos. ground (
      arith,
      project_tasks-unlock r p w,
      Map.size-delete-le (id_of r w) (project_tasks p w),
      inv.project_bounded p project e pos,
    );
  }

  -- After the unlock neither map has the task.
  pub unlock-gone :
      (lookup (id_of r w) (unlock r w).running_tasks ≡ none)
      × (lookup (id_of r w) (project_tasks (project_of r w) (unlock r w)) ≡ none)
  unfolding unlock
  unlock-gone = (
    ground (arith, Map.lookup-delete (id_of r w) (id_of r w) w.running_tasks),
    ground (
      arith,
      project_tasks-unlock r (project_of r w) w,
      Map.lookup-delete (id_of r w) (id_of r w) (project_tasks (project_of r w) w),
    ),
  )
