-- ===== src/Runners/Progress.antt =====
-- What the server learns from a runner, and the runner from the server
-- (services/runners/JobPool.go, api/runners/runners.go).
use contribute_semaphore.Base.{
  ℕ, ◌≡◌, refl, sym, ◌∙◌, inl, inr, Bool, not, ◌&&◌, none, some, List, [], ◌∷◌, ◌++◌, map, arith,
}
use contribute_semaphore.Base.Tests.{◌==◌, if◌then◌else◌, Bool-cases}
use mathlib.Core.List.{append-nil, append_assoc}
use contribute_semaphore.Base.Lists.{find, keep}
use contribute_semaphore.Base.Map.{Map, lookup}
use contribute_semaphore.Model.Status.{starting, status_eq, is_finished}
use contribute_semaphore.Model.Store.{TaskStore}
use contribute_semaphore.Runners.Data.{
  JobState, RunnerState, LogRecord, JobProgress, RunningJob, JobPool,
}
use contribute_semaphore.Runners.Pool.{progress_of, left_over, send_progress}
use contribute_semaphore.Runners.Server.{
  collect, get_runner, job_data, keys_of, log_all, update_runner,
}
use contribute_semaphore.Tasks.Details.{External}
use contribute_semaphore.Tasks.Pool.{get_running_tasks, get_task}
use contribute_semaphore.Tasks.Status.{refused, log, set_status}
use contribute_semaphore.Tasks.Stop.{set_status-status}
use contribute_semaphore.Tasks.World.{Ref, World, TaskRunner, done, ◌>>=◌, >>=-eq-done}

-- The keys of a Go map are different.
abbrev pub IsMap : Map RunningJob → Type 0
IsMap [] = Unit
IsMap ((k, j) ∷ m) = (lookup k m ≡ none) × IsMap m

left_over-none : (m : Map RunningJob) (k : ℕ) → lookup k m ≡ none → lookup k (left_over m) ≡ none
unfolding lookup left_over
left_over-none [] k h = refl
left_over-none ((i, j) ∷ m) k h = ground (arith, left_over-none m k)

abbrev pub report : ℕ → RunningJob → JobProgress
report id j = record { id = id; status = j.status; log_records = j.log_records }

abbrev pub emptied : RunningJob → RunningJob
emptied j = record j { log_records = [] }

reported :
    (m : Map RunningJob) (id : ℕ) (j : RunningJob)
    → IsMap m
    → lookup id m ≡ some j
    → (find (λ g. g.id == id) (progress_of m) ≡ some (report id j))
      × (lookup id (left_over m) ≡ (if is_finished j.status then none else some (emptied j)))
unfolding progress_of left_over lookup
reported [] id j k h = cc
reported ((i, r) ∷ m) id j (n, k) h = elim (Bool-cases (i == id)) [
  | inl e ↦ (ground arith, ground (arith, left_over-none m i n))
  | inr e ↦
      let ih = reported m id j k (ground arith) in (ground (arith, ih.0), ground (arith, ih.1))
]

-- A report names each running job with its status and its log, which is then emptied; a finished
-- job leaves the pool, and one that is not finished stays.
pub send_progress-reported :
    (p : JobPool) (id : ℕ) (j : RunningJob)
    → IsMap p.running_jobs
    → lookup id p.running_jobs ≡ some j
    → (find (λ g. g.id == id) (send_progress p).0 ≡ some (report id j))
      × (lookup id (send_progress p).1.running_jobs
          ≡ (if is_finished j.status then none else some (emptied j)))
unfolding send_progress
send_progress-reported p id j k h = reported p.running_jobs id j k h

abbrev pub is_new : ℕ → TaskRunner → Bool
is_new id t = t.runner_id == id && status_eq t.task.status starting

abbrev pub is_current : ℕ → TaskRunner → Bool
is_current id t = t.runner_id == id && not (status_eq t.task.status starting)

abbrev pub state_of : TaskRunner → JobState
state_of t = record { id = t.task.id; status = t.task.status }

collected :
    (x : External) (id : ℕ) (ts : List TaskRunner) (s : RunnerState)
    → ((collect x id ts s).new_jobs ≡ s.new_jobs ++ map job_data (keep (is_new id) ts))
      × ((collect x id ts s).current_jobs
          ≡ s.current_jobs ++ map state_of (keep (is_current id) ts))
unfolding collect
collected x id [] s = (sym (append-nil s.new_jobs), sym (append-nil s.current_jobs))
collected x id (t ∷ ts) s = elim (Bool-cases (t.runner_id == id)) [
  | inr e ↦ rw (e, collect) (collected x id ts s)
  | inl e ↦ elim (Bool-cases (status_eq t.task.status starting)) [
    | inl f ↦
        rw (e, f, collect)
          (let ih = collected x id ts (record s {
            new_jobs = s.new_jobs ++ job_data t ∷ [];
            access_keys = keys_of x t s.access_keys;
          }) in
            (ih.0 ∙ append_assoc s.new_jobs (job_data t ∷ []) _, ih.1))
    | inr f ↦
        rw (e, f, collect)
          (let ih =
              collected x id ts (record s { current_jobs = s.current_jobs ++ state_of t ∷ [] }) in
            (ih.0, ih.1 ∙ append_assoc s.current_jobs (state_of t ∷ []) _))
  ]
]

module _ {S : Type 0} where
  -- A runner is given, of the tasks that run on it, those that are starting as new jobs and the
  -- others as current ones, in the order in which they are listed, and no other task.
  pub get_runner-jobs :
      (x : External) (id : ℕ) (w : World S)
      → ((get_runner x id w).new_jobs
          ≡ map job_data (keep (is_new id) (map w.runners (get_running_tasks w))))
        × ((get_runner x id w).current_jobs
            ≡ map state_of (keep (is_current id) (map w.runners (get_running_tasks w))))
  unfolding get_runner
  get_runner-jobs x id w = collected x id (map w.runners (get_running_tasks w)) _

  log_all-runners :
      (r : Ref) (ls : List LogRecord) (w : World S) → (log_all r ls w).runners ≡ w.runners
  unfolding log_all log
  log_all-runners r [] w = refl
  log_all-runners r (l ∷ ls) w = log_all-runners r ls (log l.time r l.message w)

  one :
      (db : TaskStore S) (now : ℕ) (j : JobProgress) (r : Ref) (w : World S)
      → get_task j.id w ≡ some r
      → update_runner db now (j ∷ []) w
        ≡ (set_status db now r j.status (log_all r j.log_records w) >>= done)
  unfolding update_runner
  one db now j r w g = rw (g, update_runner) refl

  -- The status that a runner reports of one task that is queued or runs becomes the status of the
  -- task, unless SetStatus refuses it.
  pub update_runner-status :
      (db : TaskStore S) (now : ℕ) (j : JobProgress) (r : Ref) (w v : World S)
      → get_task j.id w ≡ some r
      → update_runner db now (j ∷ []) w ≡ done v
      → (v.runners r).task.status ≡ (
          if refused (w.runners r).task.status j.status
          then (w.runners r).task.status
          else j.status)
  unfolding update_runner
  update_runner-status db now j r w v g h =
      >>=-eq-done _ (set_status db now r j.status (log_all r j.log_records w)) done {b = v}
        (λ u p q. ground (
          arith,
          log_all-runners r j.log_records w,
          set_status-status db now r j.status (log_all r j.log_records w) u p,
        ))
        (sym (one db now j r w g) ∙ h)
