-- ===== src/Tasks/Add/Queued.antt =====
-- What AddTask leaves of a task that it returns without an error (services/tasks/TaskPool.go).
use contribute_semaphore.Base.{
  ℕ, suc, ◌≡◌, refl, sym, ap, ◌∙◌, Option, none, some, [], ◌∷◌, ◌++◌, arith,
}
use contribute_semaphore.Base.Tests.{==_self}
use contribute_semaphore.Base.Text.{text}
use contribute_semaphore.Model.Store.{TaskStore, Result, ok, err, Error, error_text}
use contribute_semaphore.Model.Status.{fail}
use contribute_semaphore.Model.Task.{Task}
use contribute_semaphore.Tasks.Add.{job_of, enqueue, queue_runner, queue_event, new_runner}
use contribute_semaphore.Tasks.Details.{
  External, Populated, ready, gave_up, lookup_failed, populate, prepare_error, populate_details,
}
use contribute_semaphore.Tasks.Details.Reads.{left_with, populate-task}
use contribute_semaphore.Tasks.Pool.{register}
use contribute_semaphore.Tasks.Pool.Queue.{register-queued}
use contribute_semaphore.Tasks.Status.{log, set_status}
use contribute_semaphore.Tasks.World.{
  Ref, World, TaskRunner, Outcome, done, >>=-eq-done, runner, set_runner,
}

module _ {S : Type 0} (x : External) (db : TaskStore S) where
  -- The details have been read when no error is returned.
  details-ready :
      (now : ℕ) (r : Ref) (w v : World S)
      → populate_details x db now r w ≡ done (v, none)
      → (t : TaskRunner) × (populate x db w.store (runner r w) ≡ ready t) × (v ≡ set_runner r t w)
  unfolding populate_details
  details-ready now r w v h = go (populate x db w.store (runner r w)) refl
    where
      go :
          (p : Populated)
          → populate x db w.store (runner r w) ≡ p
          → (t : TaskRunner) × (populate x db w.store (runner r w) ≡ ready t)
            × (v ≡ set_runner r t w)
      go (ready t) e = (t, e, ground arith)
      go (gave_up t f) e = absurd (ground arith)
      go (lookup_failed t f m) e =
          >>=-eq-done {A = World S × Error} {B = World S × Option Error} _
            (prepare_error x db now r f m (set_runner r t w)) (λ p. done (p.0, some p.1))
            {b = (v, none)} (λ p q k. absurd (ground arith)) (ground arith)

  module _ (blank : TaskRunner) where
    abbrev with_job : World S → Ref → World S
    with_job u r =
        let q = u.runners r in
        set_runner r (record q { job = some (job_of u.config.use_remote_runner q) }) u

    pub record IsQueued (t t' : Task) (w v : World S) : Type 0 where
      pub same : t' ≡ t
      pub last : v.queue ≡ w.queue ++ w.next_ref ∷ []
      pub counted : v.next_ref ≡ suc w.next_ref
      pub kept : (v.runners w.next_ref).task ≡ t
      pub has_job :
          (v.runners w.next_ref).job
          ≡ some (job_of w.config.use_remote_runner (v.runners w.next_ref))

    event_ok :
        (user : Option ℕ) (project : ℕ) (t t' : Task) (z v : World S)
        → queue_event x db blank user project t z ≡ done (v, ok t')
        → (s : S) × (v ≡ record z { store = s }) × (t' ≡ t)
    unfolding queue_event
    event_ok user project t t' z v h = go (db.create_event _ z.store) h
      where
        go :
            (o : Result S)
            → ◌≡◌ {A = Outcome (World S × Result Task)}
                (elim o [ ok s ↦ done (record z { store = s }, ok t) | err e ↦ done (z, err e) ])
                (done (v, ok t'))
            → (s : S) × (v ≡ record z { store = s }) × (t' ≡ t)
        go (ok s) k = (s, ground arith, ground arith)
        go (err e) k = absurd (ground arith)

    -- When AddTask returns a task that it has filed without an error, it is the task as it was
    -- filed, its runner stands at the end of the queue under a new reference, and the runner has
    -- that task and a job made from its own fields, for a remote runner or not as the
    -- configuration says.
    pub enqueue-IsQueued :
        (now : ℕ) (user : Option ℕ) (project : ℕ) (t t' : Task) (w v : World S)
        → enqueue x db blank now user project t w ≡ done (v, ok t')
        → IsQueued t t' w v
    unfolding enqueue queue_runner job_of
    enqueue-IsQueued now user project t t' w v h =
        >>=-eq-done {A = World S × Option Error} {B = World S × Result Task} (IsQueued t t' w v)
          (populate_details x db now w.next_ref (new_runner x db blank t w))
          (queue_runner x db blank now user project t w.next_ref) {b = (v, ok t')}
          (λ (u, o) p q. go u o p q) h
      where
        go :
            (u : World S) (o : Option Error)
            → populate_details x db now w.next_ref (new_runner x db blank t w) ≡ done (u, o)
            → queue_runner x db blank now user project t w.next_ref (u, o) ≡ done (v, ok t')
            → IsQueued t t' w v
        go u (some e) p q =
            >>=-eq-done {A = World S} {B = World S × Result Task} (IsQueued t t' w v)
              (set_status db now w.next_ref fail
                (log now w.next_ref (text "Error: " ++ error_text e) u))
              (λ z. done (z, err e)) {b = (v, ok t')} (λ z k l. absurd (ground arith)) q
        go u none p q =
            let d = details-ready now w.next_ref (new_runner x db blank t w) u p in
            >>=-eq-done {A = World S} {B = World S × Result Task} (IsQueued t t' w v)
              (register db now w.next_ref (with_job u w.next_ref))
              (queue_event x db blank user project t) {b = (v, ok t')}
              (λ z k l.
                let reg = register-queued db now w.next_ref (with_job u w.next_ref) z k in
                let ev = event_ok user project t t' z v l in
                let task : d.0.task ≡ t =
                  (ap (λ o. (left_with o).task) (sym d.1)
                    ∙ populate-task x db w.store (runner w.next_ref (new_runner x db blank t w))
                    ∙ ground (arith, ==_self w.next_ref)) in
                record {
                  same = ev.2;
                  last = ground (arith, d.2, reg.4, ev.1);
                  counted = ground (arith, d.2, reg.4, ev.1);
                  kept = ground (arith, d.2, reg.4, ev.1, ==_self w.next_ref, task);
                  has_job = ground (arith, d.2, reg.4, ev.1, ==_self w.next_ref);
                })
              q
