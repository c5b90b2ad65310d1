-- ===== src/Runners/Unique.antt =====
-- A runner has a task at most once, in its queue or among its running jobs
-- (services/runners/JobPool.go).
use contribute_semaphore.Base.{
  ℕ, ◌≡◌, refl, inl, inr, Bool, true, false, ◌&&◌, ◌||◌, none, List, [], ◌∷◌, ◌++◌, arith,
}
use contribute_semaphore.Base.Tests.{ltb, ◌==◌, if◌then◌else◌, Bool-cases, Option-cases}
use contribute_semaphore.Base.Lists.{any, length}
use contribute_semaphore.Base.Map.{Map, lookup, insert, lookup-insert, size}
use contribute_semaphore.Model.Resources.{AccessKey}
use contribute_semaphore.Model.Status.{status_eq, fail}
use contribute_semaphore.Runners.Data.{
  JobData, JobState, RunnerState, QueuedJob, RunningJob, JobPool,
}
use contribute_semaphore.Runners.Pool.{
  job_id, queued_id, exists_in_queue, queue_tick, left_over, send_progress, take_statuses,
  take_jobs, with_keys, check_new_jobs, set_job_status,
}

-- The jobs of a queue are of different tasks, none of which runs.
abbrev pub Apart : List QueuedJob → Map RunningJob → Type 0
Apart [] m = Unit
Apart (j ∷ q) m =
    (lookup (queued_id j) m ≡ none) × (any (λ k. queued_id k == queued_id j) q ≡ false) × Apart q m

abbrev pub IsUnique : JobPool → Type 0
IsUnique p = Apart p.queue p.running_jobs

any-snoc :
    (p : QueuedJob → Bool) (q : List QueuedJob) (j : QueuedJob)
    → any p q ≡ false
    → p j ≡ false
    → any p (q ++ j ∷ []) ≡ false
any-snoc p [] j h k = ground arith
any-snoc p (i ∷ q) j h k = ground (arith, any-snoc p q j)

Apart-snoc :
    (q : List QueuedJob) (j : QueuedJob) (m : Map RunningJob)
    → Apart q m
    → any (λ k. queued_id k == queued_id j) q ≡ false
    → lookup (queued_id j) m ≡ none
    → Apart (q ++ j ∷ []) m
Apart-snoc [] j m a h k = (k, refl, tt)
Apart-snoc (i ∷ q) j m (a, b, c) h k = (
  a,
  any-snoc (λ k. queued_id k == queued_id i) q j b (ground arith),
  Apart-snoc q j m c (ground arith) k,
)

-- A change of the running jobs that adds no task of the queue.
Apart-mono :
    (q : List QueuedJob) (m m' : Map RunningJob)
    → ((k : ℕ) → lookup k m ≡ none → lookup k m' ≡ none)
    → Apart q m
    → Apart q m'
Apart-mono [] m m' f a = tt
Apart-mono (j ∷ q) m m' f (a, b, c) = (f (queued_id j) a, b, Apart-mono q m m' f c)

-- A task that runs now, and is not in the queue.
Apart-insert :
    (q : List QueuedJob) (m : Map RunningJob) (id : ℕ) (j : RunningJob)
    → any (λ k. queued_id k == id) q ≡ false
    → Apart q m
    → Apart q (insert id j m)
Apart-insert [] m id j h a = tt
Apart-insert (i ∷ q) m id j h (a, b, c) =
    (ground (arith, lookup-insert id (queued_id i) j m), b, Apart-insert q m id j (ground arith) c)

lookup-left_over : (m : Map RunningJob) (k : ℕ) → lookup k m ≡ none → lookup k (left_over m) ≡ none
unfolding lookup left_over
lookup-left_over [] k h = refl
lookup-left_over ((i, j) ∷ m) k h = ground (arith, lookup-left_over m k)

lookup-take_statuses :
    (cs : List JobState) (m : Map RunningJob) (k : ℕ)
    → lookup k m ≡ none
    → lookup k (take_statuses cs m).0 ≡ none
unfolding take_statuses
lookup-take_statuses [] m k h = h
lookup-take_statuses (c ∷ cs) m k h = elim (Option-cases (lookup c.id m)) [
  | inl e ↦ rw (e, take_statuses) (lookup-take_statuses cs m k h)
  | inr (j, e) ↦
      rw (e, take_statuses)
        (lookup-take_statuses cs (insert c.id (set_job_status c.status j) m) k
          (ground (arith, lookup-insert c.id k (set_job_status c.status j) m)))
]

take_jobs-IsUnique :
    (z : AccessKey) (keys : Map AccessKey) (js : List JobData) (p : JobPool)
    → IsUnique p
    → IsUnique (take_jobs z keys js p)
unfolding take_jobs exists_in_queue with_keys
take_jobs-IsUnique z keys [] p a = a
take_jobs-IsUnique z keys (j ∷ js) p a = elim (Option-cases (lookup (job_id j) p.running_jobs)) [
  | inr (r, e) ↦ rw (e, take_jobs) (take_jobs-IsUnique z keys js p a)
  | inl e ↦ elim (Bool-cases (any (λ k. queued_id k == job_id j) p.queue)) [
    | inl q ↦ rw (e, q, take_jobs) (take_jobs-IsUnique z keys js p a)
    | inr q ↦
        rw (e, q, take_jobs)
          (take_jobs-IsUnique z keys js _ (Apart-snoc p.queue _ p.running_jobs a q e))
  ]
]

queue_tick-IsUnique : (p : JobPool) → IsUnique p → IsUnique (queue_tick p)
unfolding queue_tick
queue_tick-IsUnique p a = go p.queue refl a
  where
    go : (q : List QueuedJob) → p.queue ≡ q → Apart q p.running_jobs → IsUnique (queue_tick p)
    go [] e h = rw (e, queue_tick) a
    go (t ∷ rest) e (h, n, k) = elim (Bool-cases (status_eq t.status fail)) [
      | inl f ↦ rw (e, f, queue_tick) k
      | inr f ↦ rw (e, f, queue_tick) (Apart-insert rest p.running_jobs (queued_id t) _ n k)
    ]

send_progress-IsUnique : (p : JobPool) → IsUnique p → IsUnique (send_progress p).1
unfolding send_progress
send_progress-IsUnique p a =
    Apart-mono p.queue p.running_jobs (left_over p.running_jobs) (lookup-left_over p.running_jobs) a

check_new_jobs-IsUnique :
    (z : AccessKey) (one_off : Bool) (response : RunnerState) (p : JobPool)
    → IsUnique p
    → IsUnique (check_new_jobs z one_off response p).0
unfolding check_new_jobs
check_new_jobs-IsUnique z one_off response p a =
    go (one_off && (ltb 0 (length p.queue) || ltb 0 (size m)))
  where
    m : Map RunningJob
    m = (take_statuses response.current_jobs p.running_jobs).0

    apart : Apart p.queue m
    apart =
        Apart-mono p.queue p.running_jobs m
          (lookup-take_statuses response.current_jobs p.running_jobs) a

    go :
        (b : Bool)
        → IsUnique (
            if b
            then record p { running_jobs = m }
            else take_jobs z response.access_keys response.new_jobs (record p { running_jobs = m }))
    go true = apart
    go false = take_jobs-IsUnique z response.access_keys response.new_jobs _ apart

-- A runner that has each task at most once, in its queue or among its running jobs, has it so
-- after the start of a job, after a report of its progress, and after any answer of the server.
pub steps-IsUnique :
    (p : JobPool)
    → IsUnique p
    → IsUnique (queue_tick p)
      × IsUnique (send_progress p).1
      × ((z : AccessKey) (one_off : Bool) (response : RunnerState)
          → IsUnique (check_new_jobs z one_off response p).0)
steps-IsUnique p a = (
  queue_tick-IsUnique p a,
  send_progress-IsUnique p a,
  λ z one_off response. check_new_jobs-IsUnique z one_off response p a,
)
