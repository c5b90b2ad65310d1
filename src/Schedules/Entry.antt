-- ===== src/Schedules/Entry.antt =====
-- How often an entry adds a task (services/schedules/SchedulePool.go).
use contribute_semaphore.Base.{ℕ, ◌≡◌, refl, ◌∙◌, ◌⊎◌, inl, inr, Bool, true, false, some, arith}
use contribute_semaphore.Base.Text.{Text, text_eq_self}
use contribute_semaphore.Model.Resources.{AccessKey, Repository, Schedule}
use contribute_semaphore.Model.Store.{Result, ok, err}
use contribute_semaphore.Schedules.{
  ScheduleRunner, ScheduleStore, try_update_commit_hash, add_scheduled, when_updated, run_connected,
  run_schedule, is_last,
}

-- A hash that is set is read back with the rest of the schedule; neither that nor a task changes what
-- else an entry reads.
pub record ScheduleLaws {S : Type 0} (db : ScheduleStore S) : Type 0 where
  pub get-set_hash :
      (s s' : S) (schedule : Schedule) (hash : Text)
      → db.set_schedule_commit_hash schedule.project_id schedule.id hash s ≡ ok s'
      → db.get_schedule schedule.project_id schedule.id s ≡ ok schedule
      → db.get_schedule schedule.project_id schedule.id s'
        ≡ ok (record schedule { last_commit_hash = some hash })
  pub get_schedule-add_task :
      (template project p id : ℕ) (s : S)
      → db.get_schedule p id (db.add_task template project s).0 ≡ db.get_schedule p id s
  pub get_repository-set_hash :
      (p id : ℕ) (hash : Text) (s s' : S) (q r : ℕ)
      → db.set_schedule_commit_hash p id hash s ≡ ok s'
      → db.get_repository q r s' ≡ db.get_repository q r s
  pub get_repository-add_task :
      (template project : ℕ) (s : S) (q r : ℕ)
      → db.get_repository q r (db.add_task template project s).0 ≡ db.get_repository q r s

module _ {S : Type 0} (db : ScheduleStore S) (laws : ScheduleLaws db) where
  -- The remote repository stays as it is: its last commit is a matter of the repository alone.
  abbrev pub Remote : (Repository → Result Text) → Type 0
  Remote remote =
      (template : ℕ) (r : Repository) (s : S)
      → db.get_last_remote_commit_hash template r s ≡ remote r

  module _ (remote : Repository → Result Text) (still : Remote remote) (id : ℕ) (repo : Repository)
      (key : AccessKey) (hash : Text) (opened : db.deserialize_secret repo.ssh_key ≡ ok key)
      (last : remote (record repo { ssh_key = key }) ≡ ok hash) where
    -- The entry of a schedule whose commit is known does nothing.
    run_settled :
        (schedule : Schedule) (r : ScheduleRunner) (s : S)
        → schedule.repository_id ≡ some id
        → db.get_schedule r.project_id r.schedule_id s ≡ ok schedule
        → db.get_repository schedule.project_id id s ≡ ok repo
        → is_last hash schedule.last_commit_hash ≡ true
        → (run_connected db r s).0 ≡ s
    unfolding run_connected when_updated try_update_commit_hash
    run_settled schedule r s own found g known = ground (
      arith,
      own,
      found,
      g,
      known,
      opened,
      last,
      still schedule.template_id (record repo { ssh_key = key }) s,
    )

    abbrev entry_of : Schedule → ScheduleRunner
    entry_of schedule = record { project_id = schedule.project_id; schedule_id = schedule.id }

    run_connected_cases :
        (schedule : Schedule) (s : S)
        → schedule.repository_id ≡ some id
        → db.get_schedule schedule.project_id schedule.id s ≡ ok schedule
        → db.get_repository schedule.project_id id s ≡ ok repo
        → ((run_connected db (entry_of schedule) s).0 ≡ s)
          ⊎ ((s' : S) × (db.set_schedule_commit_hash schedule.project_id schedule.id hash s ≡ ok s')
              × ((run_connected db (entry_of schedule) s).0
                  ≡ (db.add_task schedule.template_id schedule.project_id s').0))
    unfolding run_connected when_updated try_update_commit_hash add_scheduled
    run_connected_cases schedule s own found g =
        go (is_last hash schedule.last_commit_hash)
          (db.set_schedule_commit_hash schedule.project_id schedule.id hash s) refl refl
      where
        commit :
            db.get_last_remote_commit_hash schedule.template_id (record repo { ssh_key = key }) s
            ≡ ok hash
        commit = still schedule.template_id (record repo { ssh_key = key }) s ∙ last

        go :
            (x : Bool) (m : Result S)
            → is_last hash schedule.last_commit_hash ≡ x
            → db.set_schedule_commit_hash schedule.project_id schedule.id hash s ≡ m
            → ((run_connected db (entry_of schedule) s).0 ≡ s)
              ⊎ ((s' : S) × (db.set_schedule_commit_hash schedule.project_id schedule.id hash s
                    ≡ ok s')
                  × ((run_connected db (entry_of schedule) s).0
                      ≡ (db.add_task schedule.template_id schedule.project_id s').0))
        go true m p q = inl (ground (arith, own, found, g, opened, commit))
        go false (err e) p q = inl (ground (arith, own, found, g, opened, commit))
        go false (ok s') p q = inr (s', q, ground (arith, own, found, g, opened, commit))

    -- A schedule with a repository that has no new commit since its last run does nothing: a
    -- second run changes nothing, where the remote repository stays as it is and the connection is
    -- permanent; the store is supposed to keep to its laws.
    pub run_twice :
        (schedule : Schedule) (s : S)
        → db.permanent_connection ≡ true
        → schedule.repository_id ≡ some id
        → db.get_schedule schedule.project_id schedule.id s ≡ ok schedule
        → db.get_repository schedule.project_id id s ≡ ok repo
        → let once = (run_schedule db (entry_of schedule) s).0 in
          (run_schedule db (entry_of schedule) once).0 ≡ once
    unfolding run_schedule
    run_twice schedule s permanent own found g = elim (run_connected_cases schedule s own found g) [
      | inl same ↦ ground (arith, permanent, same)
      | inr (s', set, e) ↦
          let known = record schedule { last_commit_hash = some hash } in
          let u = (db.add_task schedule.template_id schedule.project_id s').0 in
          let settled =
            run_settled known (entry_of schedule) u own
              (laws.get_schedule-add_task schedule.template_id schedule.project_id
                  schedule.project_id schedule.id s'
                ∙ laws.get-set_hash s s' schedule hash set found)
              (laws.get_repository-add_task schedule.template_id schedule.project_id s'
                  schedule.project_id id
                ∙ (laws.get_repository-set_hash schedule.project_id schedule.id hash s s'
                      schedule.project_id id set
                    ∙ g))
              (text_eq_self hash) in
          ground (arith, permanent, e, settled)
    ]
