-- ===== src/Tasks/System/Prompt.antt =====
-- When the locker has acted on a message before the loop takes its next event, as the five seconds
-- between two ticks make it do, the locker never finds the resource locked. Without that, two tasks
-- of one template bring the process down.
use contribute_semaphore.Base.{
  ℕ, ◌≤◌, ◌≡◌, refl, ap, ◌∙◌, ◌≢◌, Bool, true, false, ◌&&◌, List, arith,
}
use contribute_semaphore.Base.Tests.{ltb, leb, ◌==◌, if◌then◌else◌}
use mathlib.Core.Path.{fun_ext}
use contribute_semaphore.Base.Map
use contribute_semaphore.Base.Map.{lookup, size, any_value}
use contribute_semaphore.Model.Resources.{Project}
use contribute_semaphore.Model.Store.{TaskStore, Result, ok, err}
use contribute_semaphore.Tasks.Pool.{
  project_tasks, project_of, id_of, blocks, lock, unlock, tick, launch, tail,
}
use contribute_semaphore.Tasks.Pool.Invariant.{project_tasks-unlock, locked}
use contribute_semaphore.Tasks.Pool.Queue.{tick_asked, tick_world}
use contribute_semaphore.Tasks.System.{
  idle, sending, free, locking, System, Works, Step, arrive, poll, ask, hand_over, take_lock,
  finish, release, work,
}
use contribute_semaphore.Tasks.World.{Ref, World, done}

-- `blocks` as a function of what it reads.
blocked_by : ℕ → ℕ → ℕ → Bool → Result Project → Bool
blocked_by max running active same limit =
    if ltb 0 max && leb max running
    then true
    else if active == 0
    then false
    else if same
    then true
    else elim limit [
      | err e ↦ false
      | ok p ↦ ltb 0 p.max_parallel_tasks && leb p.max_parallel_tasks active
    ]

blocked_by_mono :
    (max n m i j : ℕ) (a b : Bool) (limit : Result Project)
    → m ≤ n
    → j ≤ i
    → (a ≡ false → b ≡ false)
    → blocked_by max n i a limit ≡ false
    → blocked_by max m j b limit ≡ false
unfolding blocked_by
blocked_by_mono max n m i j a b (err e) h k f g = ground arith
blocked_by_mono max n m i j a b (ok p) h k f g = ground arith

module _ {S : Type 0} (db : TaskStore S) where
  abbrev same_template : Ref → World S → Bool
  same_template r w =
      any_value (λ q. (w.runners q).template.id == (w.runners r).task.template_id)
        (project_tasks (project_of r w) w)

  blocks-blocked_by :
      (r : Ref) (w : World S)
      → blocks db r w
        ≡ blocked_by w.config.max_parallel_tasks
            (size w.running_tasks)
            (size (project_tasks (project_of r w) w))
            (same_template r w)
            (db.get_project (project_of r w) w.store)
  unfolding blocks blocked_by
  blocks-blocked_by r w = refl

  project_tasks-Works :
      (r : Ref) (w v : World S)
      → Works db w v
      → project_tasks (project_of r v) v ≡ project_tasks (project_of r w) w
  unfolding project_tasks
  project_tasks-Works r w v k = cc (k.projects r, k.active)

  same_template-Works :
      (r : Ref) (w v : World S) → Works db w v → same_template r v ≡ same_template r w
  same_template-Works r w v k = rw (project_tasks-Works r w v k) (
      ap (λ f. any_value f (project_tasks (project_of r w) w))
        (fun_ext (λ q. ground (arith, k.templates q, k.task_templates r))))

  blocks-Works : (r : Ref) (w v : World S) → Works db w v → blocks db r v ≡ blocks db r w
  blocks-Works r w v k =
      rw (blocks-blocked_by r v, blocks-blocked_by r w)
        (cc (
          k.config,
          k.running,
          k.projects r,
          k.limits (project_of r w),
          project_tasks-Works r w v k,
          same_template-Works r w v k,
        ))

  -- Unlocking blocks nobody.
  pub blocks-unlock :
      (q r : Ref) (w : World S) → blocks db r w ≡ false → blocks db r (unlock q w) ≡ false
  unfolding unlock
  blocks-unlock q r w h = rw (blocks-blocked_by r (unlock q w)) (
      blocked_by_mono w.config.max_parallel_tasks (size w.running_tasks) _
        (size (project_tasks (project_of r w) w)) _ (same_template r w) _ _
        (Map.size-delete-le (id_of q w) w.running_tasks)
        (ground (
          arith,
          project_tasks-unlock q (project_of r w) w,
          Map.size-delete-le (id_of q w) (project_tasks (project_of r w) w),
        ))
        (λ f. ground (
          arith,
          project_tasks-unlock q (project_of r w) w,
          Map.any_value-delete (λ p. (w.runners p).template.id == (w.runners r).task.template_id)
              (id_of q w) (project_tasks (project_of r w) w) f,
        ))
        (rw (blocks-blocked_by r w) at h))

  -- The loop takes an event only when the locker has acted on the last message.
  abbrev pub IsPrompt : {s u : System S} → Step db s u → Type 0
  IsPrompt {s} (arrive now t v m tpl e) = (r : Ref) → s.locker ≢ locking r
  IsPrompt {s} (ask r m e) = (q : Ref) → s.locker ≢ locking q
  IsPrompt _ = Unit

  pub data PromptReach (s : System S) : System S → Type 0 where
    here : PromptReach s s
    next :
        {t u : System S} → PromptReach s t → (step : Step db t u) → IsPrompt step → PromptReach s u

  -- A runner whose message is under way is not blocked, and only one message is.
  pub record IsClear (s : System S) : Type 0 where
    pub asked_free : (r : Ref) → s.main ≡ sending r → blocks db r s.world ≡ false
    pub taken_free : (r : Ref) → s.locker ≡ locking r → blocks db r s.world ≡ false
    pub alone : (q r : Ref) → s.main ≡ sending q → s.locker ≢ locking r

  pub blocks-queue :
      (r : Ref) (w : World S) (q : List Ref) → blocks db r (record w { queue = q }) ≡ blocks db r w
  unfolding blocks project_tasks
  blocks-queue r w q = refl

  blocks-tick : (r : Ref) (w : World S) → blocks db r (tick db w).0 ≡ blocks db r w
  blocks-tick r w = let t = tick_world db w in rw t.1 (blocks-queue r w t.0)

  pub blocks-launch : (r : Ref) (w : World S) → blocks db r (launch w) ≡ blocks db r w
  unfolding launch
  blocks-launch r w = blocks-queue r w (tail w.queue)

  -- A prompt step keeps what is under way unblocked.
  pub Step-IsClear : (s u : System S) (step : Step db s u) → IsPrompt step → IsClear s → IsClear u
  Step-IsClear s u (arrive now t v m tpl e) p c = record {
    asked_free = λ r f. absurd (cc);
    taken_free = λ r f. absurd (p r f);
    alone = λ q r f. absurd (cc);
  }
  Step-IsClear s u (poll m e) p c = record {
    asked_free = λ r f. absurd (cc);
    taken_free = λ r f. blocks-tick r s.world ∙ c.taken_free r f;
    alone = λ q r f. absurd (cc);
  }
  Step-IsClear s u (ask r m e) p c = record {
    asked_free = λ q f. ground (arith, tick_asked db r s.world e);
    taken_free = c.taken_free;
    alone = λ q r' f. p r';
  }
  Step-IsClear s u (hand_over r m l) p c = record {
    asked_free = λ q f. absurd (cc);
    taken_free = λ q f. ground (arith, blocks-launch r s.world, c.asked_free r m);
    alone = λ q r' f. absurd (cc);
  }
  Step-IsClear s u (take_lock r v l e) p c = record {
    asked_free = λ q f. absurd (c.alone q r f l);
    taken_free = λ q f. absurd (cc);
    alone = λ q r' f g. cc;
  }
  Step-IsClear s u (finish r before after e l) p c = record {
    asked_free = c.asked_free;
    taken_free = λ q f. absurd (cc);
    alone = λ q r' f g. cc;
  }
  Step-IsClear s u (release r l) p c = record {
    asked_free = λ q f. blocks-unlock r q s.world (c.asked_free q f);
    taken_free = λ q f. absurd (cc);
    alone = λ q r' f g. cc;
  }
  Step-IsClear s u (work v k) p c = record {
    asked_free = λ q f. blocks-Works q s.world v k ∙ c.asked_free q f;
    taken_free = λ q f. blocks-Works q s.world v k ∙ c.taken_free q f;
    alone = c.alone;
  }

  PromptReach-IsClear : (s u : System S) → PromptReach s u → IsClear s → IsClear u
  PromptReach-IsClear s u here c = c
  PromptReach-IsClear s u (next {t = t} path step p) c =
      Step-IsClear t u step p (PromptReach-IsClear s t path c)

  -- When the loop takes an arrival or asks the locker only after the locker has acted on its last
  -- message, the lock that the locker is about to take never panics.
  pub locker_never_panics :
      (s u : System S)
      → s.main ≡ idle
      → s.locker ≡ free
      → PromptReach s u
      → (r : Ref) → u.locker ≡ locking r
      → (v : World S) × (lock db r u.world ≡ done v)
  unfolding lock
  locker_never_panics s u m l path r e = (locked r u.world, ground (arith, clear.taken_free r e))
    where
      clear : IsClear u
      clear = PromptReach-IsClear s u path (record {
        asked_free = λ q f. absurd (cc);
        taken_free = λ q f. absurd (cc);
        alone = λ q p f g. cc;
      })
