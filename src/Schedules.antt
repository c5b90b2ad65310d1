-- ===== src/Schedules.antt =====
-- Schedules (services/schedules/SchedulePool.go): the pool of cron entries under its lock, and what an
-- entry does when its time has come.
pub mod Refresh
pub mod Entry
use contribute_semaphore.Base.{
  ℕ, ◌+◌, ◌-◌, ◌/◌, ◌≡◌, Bool, true, false, not, Option, none, some, List, [], ◌∷◌, ◌++◌,
}
use contribute_semaphore.Base.Tests.{◌==◌, if◌then◌else◌}
use contribute_semaphore.Base.Text.{Text, text, text_eq}
use contribute_semaphore.Model.Resources.{AccessKey, Repository, Schedule}
use contribute_semaphore.Model.Store.{Result, ok, err, Error, error_text, ◌>>=◌}
use contribute_semaphore.Tasks.World.{Outcome, done, panic}

pub record ScheduleRunner : Type 0 where
  pub project_id : ℕ
  pub schedule_id : ℕ

-- Package robfig/cron. `entries` lists the entries in the order in which they were added: the order by
-- the next time, which Entries has while cron runs, is forgotten.
pub record Cron (C : Type 0) : Type 0 where
  pub new : C
  pub add_job : Text → ScheduleRunner → C → Result (ℕ × C)
  pub entries : C → List (ℕ × ScheduleRunner)
  pub remove : ℕ → C → C
  pub stop : C → C

-- An entry that is added stands last under a new number; to remove a number leaves the others.
abbrev pub without : ℕ → List (ℕ × ScheduleRunner) → List (ℕ × ScheduleRunner)
without id [] = []
without id ((j, r) ∷ es) = let rest = without id es in if j == id then rest else (j, r) ∷ rest

pub record CronLaws {C : Type 0} (cron : Cron C) : Type 0 where
  pub entries-add :
      (format : Text) (r : ScheduleRunner) (c c' : C) (id : ℕ)
      → cron.add_job format r c ≡ ok (id, c')
      → cron.entries c' ≡ cron.entries c ++ (id, r) ∷ []
  pub entries-remove :
      (id : ℕ) (c : C) → cron.entries (cron.remove id c) ≡ without id (cron.entries c)

-- `cron` is nil once the pool is destroyed, and `stopped` has what it pointed to; `log` is what logrus has been told.
pub record SchedulePool (C : Type 0) : Type 0 where
  pub cron : Option C
  pub locked : Bool
  pub stopped : List C
  pub log : List Text

abbrev pub say : {C : Type 0} → Text → SchedulePool C → SchedulePool C
say msg p = record p { log = p.log ++ msg ∷ [] }

-- To unlock a mutex that is not locked is a fatal error.
unfoldable pub unlock_pool : {C : Type 0} → SchedulePool C → Outcome (SchedulePool C)
unlock_pool p =
    if p.locked
    then done (record p { locked = false })
    else panic (text "sync: unlock of unlocked mutex")

module _ {C : Type 0} (cron : Cron C) where
  remove_all : List (ℕ × ScheduleRunner) → C → C
  remove_all [] c = c
  remove_all ((id, r) ∷ es) c = remove_all es (cron.remove id c)

  unfoldable pub clear : C → C
  unfolding remove_all
  clear c = remove_all (cron.entries c) c

  -- The loop of Refresh; a format that cron refuses is logged.
  unfoldable pub add_runners : List Schedule → C × List Text → C × List Text
  add_runners [] p = p
  add_runners (s ∷ ss) (c, log) =
      elim (cron.add_job s.cron_format (record { project_id = s.project_id; schedule_id = s.id })
        c) [
          | err e ↦ add_runners ss (c, log ++ error_text e ∷ [])
          | ok (id, c') ↦ add_runners ss (c', log)
        ]

  refill : List Schedule → C → SchedulePool C → SchedulePool C
  unfolding add_runners clear
  refill ss c p =
      let (c', log) = add_runners ss (clear c, p.log) in
      record p { cron = some c'; log = log; locked = true }

  -- The deferred Unlock runs on every path, the lock is taken on one. Where it is taken, no other
  -- goroutine holds it.
  unfoldable pub refresh : Result (List Schedule) → SchedulePool C → Outcome (SchedulePool C)
  unfolding refill
  refresh (err e) p = unlock_pool (say (error_text e) p)
  refresh (ok ss) p = elim p.cron [
    | none ↦ panic (text "invalid memory address or nil pointer dereference")
    | some c ↦ unlock_pool (refill ss c p)
  ]

  unfoldable pub destroy_pool : SchedulePool C → Outcome (SchedulePool C)
  destroy_pool p = elim p.cron [
    | none ↦ panic (text "invalid memory address or nil pointer dereference")
    | some c ↦
        unlock_pool
          (record p { cron = none; locked = true; stopped = clear (cron.stop c) ∷ p.stopped })
  ]

  unfoldable pub create_schedule_pool : Result (List Schedule) → Outcome (SchedulePool C)
  create_schedule_pool schedules =
      refresh schedules (record { cron = some cron.new; locked = false; stopped = []; log = [] })

-- What an entry asks of the store, of git and of the task pool.
pub record ScheduleStore (S : Type 0) : Type 0 where
  pub permanent_connection : Bool
  pub connect : Text → S → S
  pub close : Text → S → S
  pub get_schedule : ℕ → ℕ → S → Result Schedule
  pub get_repository : ℕ → ℕ → S → Result Repository
  pub set_schedule_commit_hash : ℕ → ℕ → Text → S → Result S
  pub deserialize_secret : AccessKey → Result AccessKey
  pub get_last_remote_commit_hash : ℕ → Repository → S → Result Text
  -- AddTask with a template and a project, and no user.
  pub add_task : ℕ → ℕ → S → S × Option Error

abbrev pub is_last : Text → Option Text → Bool
is_last hash none = false
is_last hash (some last) = text_eq hash last

module _ {S : Type 0} (db : ScheduleStore S) where
  -- tryUpdateScheduleCommitHash, for a schedule with a repository.
  unfoldable pub try_update_commit_hash : Schedule → ℕ → S → Result (Bool × S)
  try_update_commit_hash schedule repository_id s =
      db.get_repository schedule.project_id repository_id s >>= λ repo.
      db.deserialize_secret repo.ssh_key >>= λ key.
      db.get_last_remote_commit_hash schedule.template_id (record repo { ssh_key = key }) s
      >>= λ hash.
          if is_last hash schedule.last_commit_hash
          then ok (false, s)
          else (db.set_schedule_commit_hash schedule.project_id schedule.id hash s >>= λ s'.
              ok (true, s'))

  -- The errors go to the log.
  abbrev pub Logged : Type 0
  Logged = S × List Text

  abbrev logged : Option Error → List Text
  logged none = []
  logged (some e) = error_text e ∷ []

  unfoldable pub add_scheduled : Schedule → S → Logged
  add_scheduled schedule s =
      let (s', e) = db.add_task schedule.template_id schedule.project_id s in (s', logged e)

  unfoldable pub when_updated : Schedule → S → Result (Bool × S) → Logged
  when_updated schedule s (err e) = (s, error_text e ∷ [])
  when_updated schedule s (ok (false, s')) = (s', [])
  when_updated schedule s (ok (true, s')) = add_scheduled schedule s'

  unfoldable pub run_connected : ScheduleRunner → S → Logged
  run_connected r s = elim (db.get_schedule r.project_id r.schedule_id s) [
    | err e ↦ (s, error_text e ∷ [])
    | ok schedule ↦ elim schedule.repository_id [
      | none ↦ add_scheduled schedule s
      | some id ↦ when_updated schedule s (try_update_commit_hash schedule id s)
    ]
  ]

  unfoldable pub run_schedule : ScheduleRunner → S → Logged
  run_schedule r s =
      let (s', log) = run_connected r (db.connect (text "schedule") s) in
      if db.permanent_connection then run_connected r s else (db.close (text "schedule") s', log)
