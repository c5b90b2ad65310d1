-- ===== src/Tasks/System/Race.antt =====
-- The race that the prompt runs leave out.
use contribute_semaphore.Base.{◌≡◌, refl, ap, ◌∙◌, ◌≢◌, true, false, some, List, ◌∷◌, arith}
use contribute_semaphore.Base.Tests.{◌==◌}
use contribute_semaphore.Base.Map
use contribute_semaphore.Base.Map.{lookup, insert, size, any_value}
use contribute_semaphore.Base.Text.{text}
use contribute_semaphore.Model.Status.{fail, eq_of_status_eq}
use contribute_semaphore.Model.Store.{TaskStore}
use contribute_semaphore.Tasks.Pool.{
  project_tasks, project_of, id_of, blocks, lock, tick, launch, tail,
}
use contribute_semaphore.Tasks.Pool.Invariant.{locked, project_tasks-locked}
use contribute_semaphore.Tasks.System.{
  idle, free, locking, System, ask, hand_over, take_lock, Reach, here, next,
}
use contribute_semaphore.Tasks.System.Prompt.{blocks-queue}
use contribute_semaphore.Tasks.World.{Ref, World, done, panic}

module _ {S : Type 0} (db : TaskStore S) where
  tick-ask :
      (r : Ref) (rest : List Ref) (w : World S)
      → w.queue ≡ r ∷ rest
      → (w.runners r).task.status ≢ fail
      → blocks db r w ≡ false
      → (tick db w).1 ≡ some r
  unfolding tick
  tick-ask r rest w e f b =
      rw (e, tick) (ground (arith, eq_of_status_eq (w.runners r).task.status fail))

  -- Once a task of the template is locked, the other is blocked.
  blocks-locked :
      (q r : Ref) (w : World S)
      → project_of q w ≡ project_of r w
      → (w.runners q).template.id ≡ (w.runners r).task.template_id
      → blocks db r (locked q w) ≡ true
  unfolding blocks
  blocks-locked q r w e f = ground (
    arith,
    project_tasks-locked q (project_of r w) w,
    Map.size-insert (id_of q w) q (project_tasks (project_of r w) w),
    Map.any_value-insert (λ p. (w.runners p).template.id == (w.runners r).task.template_id)
        (id_of q w) q (project_tasks (project_of r w) w),
  )

  lock-free : (r : Ref) (w : World S) → blocks db r w ≡ false → lock db r w ≡ done (locked r w)
  unfolding lock
  lock-free r w b = ground arith

  lock-blocked :
      (r : Ref) (w : World S)
      → blocks db r w ≡ true
      → lock db r w ≡ panic (text "Trying to lock an already locked resource!")
  unfolding lock
  lock-blocked r w b = ground arith

  -- Where two tasks of one template and project head the queue and neither is blocked or has
  -- failed, there are steps that lead to a state in which the locker is about to lock the second
  -- and panics.
  pub early_tick_panics :
      (s : System S) (q r : Ref) (rest : List Ref)
      → s.main ≡ idle
      → s.locker ≡ free
      → s.world.queue ≡ q ∷ r ∷ rest
      → (s.world.runners q).task.status ≢ fail
      → (s.world.runners r).task.status ≢ fail
      → blocks db q s.world ≡ false
      → blocks db r s.world ≡ false
      → project_of q s.world ≡ project_of r s.world
      → (s.world.runners q).template.id ≡ (s.world.runners r).task.template_id
      → (u : System S) × Reach db s u
        × (u.locker ≡ locking r)
        × (lock db r u.world ≡ panic (text "Trying to lock an already locked resource!"))
  unfolding launch
  early_tick_panics s q r rest m l e fq fr bq br ep et = (
    s5,
    next
        (next
          (next
            (next (next here (ask q m (tick-ask q (r ∷ rest) s.world e fq bq)))
              (hand_over q refl l))
            (ask r refl (
              tick-ask r rest w1 (ap tail e) fr
                (blocks-queue db r s.world (tail s.world.queue) ∙ br))))
          (take_lock q (locked q w1) refl
            (lock-free q w1 (blocks-queue db q s.world (tail s.world.queue) ∙ bq))))
        (hand_over r refl refl),
    refl,
    lock-blocked r s5.world
        (blocks-queue db r (locked q w1) (tail w1.queue) ∙ blocks-locked q r w1 ep et),
  )
    where
      w1 : World S
      w1 = record s.world { queue = tail s.world.queue }

      s5 : System S
      s5 = record {
        world = record (locked q w1) { queue = tail w1.queue };
        main = idle;
        locker = locking r;
        started = r ∷ q ∷ s.started;
      }
