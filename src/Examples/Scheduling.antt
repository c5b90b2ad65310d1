-- ===== src/Examples/Scheduling.antt =====
-- A cron that takes the format "@daily", a store with one schedule, and the theorems on schedules at them.
use contribute_semaphore.Base.{
  ℕ, ◌+◌, ◌≡◌, refl, Bool, true, false, ◌&&◌, none, some, List, [], ◌∷◌, ◌++◌, arith, ◌↔◌,
}
use contribute_semaphore.Base.Tests.{◌==◌, if◌then◌else◌}
use contribute_semaphore.Base.Text.{Text, text, text_eq}
use contribute_semaphore.Examples.Disk.{key, repository}
use contribute_semaphore.Model.Resources.{Schedule}
use contribute_semaphore.Model.Store.{Result, ok, err, Error, failure, not_found}
use contribute_semaphore.Schedules.{
  Cron, CronLaws, SchedulePool, ScheduleRunner, ScheduleStore, without, refresh,
  create_schedule_pool, run_schedule, run_connected, add_scheduled, when_updated,
  try_update_commit_hash,
}
use contribute_semaphore.Schedules.Refresh.{
  Accepts, runners, refresh_lem, create_schedule_pool-panics,
}
use contribute_semaphore.Schedules.Entry.{ScheduleLaws, run_twice}
use contribute_semaphore.Tasks.World.{done, panic}

record Table : Type 0 where
  pub rows : List (ℕ × ScheduleRunner)
  pub next : ℕ

abbrev daily : Text → Bool
daily format = text_eq format (text "@daily")

abbrev table : Cron Table
table = record {
  new = record { rows = []; next = 1 };
  add_job = λ format r c.
      if daily format
      then ok (c.next, record { rows = c.rows ++ (c.next, r) ∷ []; next = c.next + 1 })
      else err (failure (text "expected 5 fields"));
  entries = λ c. c.rows;
  remove = λ id c. record c { rows = without id c.rows };
  stop = λ c. c;
}

table_laws : CronLaws table
table_laws = record {
  entries-add = λ format r c c' id h. ground arith;
  entries-remove = λ id c. refl;
}

takes_daily : Accepts table daily
takes_daily = λ format r c. (
  λ good. (
    (c.next, record { rows = c.rows ++ (c.next, r) ∷ []; next = c.next + 1 }),
    ground (arith, good),
  ),
  λ bad. (failure (text "expected 5 fields"), ground (arith, bad)),
)

abbrev schedule : Text → Schedule
schedule format = record {
  id = 4;
  project_id = 1;
  template_id = 3;
  cron_format = format;
  repository_id = some 5;
  last_commit_hash = none;
}

abbrev schedule_pool : SchedulePool Table
schedule_pool = record {
  cron = some (record { rows = (1, record { project_id = 9; schedule_id = 9 }) ∷ []; next = 2 });
  locked = false;
  stopped = [];
  log = [];
}

refresh_lem_example :
    (q : SchedulePool Table) × (c : Table) × (refresh table
        (ok (schedule (text "bad") ∷ schedule (text "@daily") ∷ []))
        schedule_pool
      ≡ done q)
    × (q.cron ≡ some c)
    × (q.locked ≡ false)
    × (runners (table.entries c) ≡ record { project_id = 1; schedule_id = 4 } ∷ [])
unfolding text_eq
refresh_lem_example =
    refresh_lem table table_laws daily takes_daily
      (schedule (text "bad") ∷ schedule (text "@daily") ∷ []) schedule_pool
      (record { rows = (1, record { project_id = 9; schedule_id = 9 }) ∷ []; next = 2 }) refl

record Shelf : Type 0 where
  pub schedule : Schedule
  pub runs : ℕ

abbrev shelf_store : ScheduleStore Shelf
shelf_store = record {
  permanent_connection = true;
  connect = λ t s. s;
  close = λ t s. s;
  get_schedule = λ p id s.
      if (s.schedule.project_id == p) && (s.schedule.id == id)
      then ok s.schedule
      else err not_found;
  get_repository = λ p id s. ok repository;
  set_schedule_commit_hash = λ p id hash s.
      ok (record s { schedule = record s.schedule { last_commit_hash = some hash } });
  deserialize_secret = ok;
  get_last_remote_commit_hash = λ id r s. ok (text "c0ffee");
  add_task = λ template p s. (record s { runs = s.runs + 1 }, none);
}

shelf_laws : ScheduleLaws shelf_store
shelf_laws = record {
  get-set_hash = λ s s' x hash h e. ground arith;
  get_schedule-add_task = λ template p q id s. refl;
  get_repository-set_hash = λ p id hash s s' q r h. refl;
  get_repository-add_task = λ template p s q r. refl;
}

abbrev shelf : Shelf
shelf = record { schedule = schedule (text "@daily"); runs = 0 }

-- The first run adds a task.
ran_once : (run_schedule shelf_store (record { project_id = 1; schedule_id = 4 }) shelf).0.runs ≡ 1
unfolding run_schedule run_connected add_scheduled when_updated try_update_commit_hash
ran_once = refl

run_twice_example :
    (run_schedule shelf_store
      (record { project_id = 1; schedule_id = 4 })
      (run_schedule shelf_store (record { project_id = 1; schedule_id = 4 }) shelf).0).0
    ≡ (run_schedule shelf_store (record { project_id = 1; schedule_id = 4 }) shelf).0
run_twice_example =
    run_twice shelf_store shelf_laws (λ r. ok (text "c0ffee")) (λ template r s. refl) 5 repository
      key (text "c0ffee") refl refl (schedule (text "@daily")) shelf refl refl refl refl

abbrev failed : Result (List Schedule)
failed = err not_found

create_schedule_pool-panics_example :
    ((m : Text) × (create_schedule_pool table failed ≡ panic m)) ↔ ((e : Error) × (failed ≡ err e))
create_schedule_pool-panics_example = create_schedule_pool-panics table failed
