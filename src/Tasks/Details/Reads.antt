-- ===== src/Tasks/Details/Reads.antt =====
-- What populateDetails leaves of a runner, and what it reads (services/tasks/TaskRunner.go).
use contribute_semaphore.Base.{ℕ, ◌≡◌, refl, Option, none, some, arith}
use contribute_semaphore.Model.Store.{TaskStore, Result, ok, err, Error}
use contribute_semaphore.Tasks.Details.{
  External, Populated, ready, gave_up, lookup_failed, populate_json, populate_environment,
  populate_repository, populate_inventory, populate_users, populate_project, populate,
}
use contribute_semaphore.Tasks.World.{TaskRunner}

-- The runner that populateDetails leaves, on each of its ends.
abbrev pub left_with : Populated → TaskRunner
left_with (ready t) = t
left_with (gave_up t e) = t
left_with (lookup_failed t e m) = t

by_result {ℓ κ} :
    {A : Type ℓ} (P : Populated → Type κ) (o : Result A) (f : A → Populated) (g : Error → Populated)
    → ((a : A) → P (f a))
    → ((e : Error) → P (g e))
    → P (elim o [ ok a ↦ f a | err e ↦ g e ])
by_result P (ok a) f g h k = h a
by_result P (err e) f g h k = k e

module _ (x : External) where
  json-task : (t : TaskRunner) → (left_with (populate_json x t)).task ≡ t.task
  unfolding populate_json
  json-task t = ground arith

  module _ {S : Type 0} (db : TaskStore S) (s : S) where
    environment-task : (t : TaskRunner) → (left_with (populate_environment x db s t)).task ≡ t.task
    unfolding populate_environment
    environment-task t = go t.template.environment_id
      where
        go :
            (o : Option ℕ)
            → (left_with (elim o [
              | none ↦ populate_json x t
              | some id ↦ elim (db.get_environment t.template.project_id id s) [
                | err e ↦ gave_up t e
                | ok env ↦ populate_json x (record t { environment = env })
              ]
            ])).task
              ≡ t.task
        go none = json-task t
        go (some id) =
            by_result (λ p. (left_with p).task ≡ t.task)
              (db.get_environment t.template.project_id id s) _ _
              (λ env. json-task (record t { environment = env })) (λ e. refl)

    repository-task : (t : TaskRunner) → (left_with (populate_repository x db s t)).task ≡ t.task
    unfolding populate_repository
    repository-task t =
        by_result (λ p. (left_with p).task ≡ t.task)
          (db.get_repository t.template.project_id t.template.repository_id s) _ _
          (λ repo.
            by_result (λ p. (left_with p).task ≡ t.task) (x.deserialize_secret repo.ssh_key) _ _
              (λ key. environment-task (record t { repository = record repo { ssh_key = key } }))
              (λ e. refl))
          (λ e. refl)

    inventory-task : (t : TaskRunner) → (left_with (populate_inventory x db s t)).task ≡ t.task
    unfolding populate_inventory
    inventory-task t =
        by_result (λ p. (left_with p).task ≡ t.task)
          (db.get_inventory t.template.project_id t.template.inventory_id s) _ _
          (λ inventory. repository-task (record t { inventory = inventory })) (λ e. refl)

    users-task : (t : TaskRunner) → (left_with (populate_users x db s t)).task ≡ t.task
    unfolding populate_users
    users-task t =
        by_result (λ p. (left_with p).task ≡ t.task) (db.get_project_users t.template.project_id s)
          _ _ (λ users. inventory-task (record t { users = users })) (λ e. refl)

    project-task : (t : TaskRunner) → (left_with (populate_project x db s t)).task ≡ t.task
    unfolding populate_project
    project-task t =
        by_result (λ p. (left_with p).task ≡ t.task) (db.get_project t.template.project_id s) _ _
          (λ p. users-task (record t { alert = p.alert; alert_chat = p.alert_chat })) (λ e. refl)

    pub populate-task : (t : TaskRunner) → (left_with (populate x db s t)).task ≡ t.task
    unfolding populate
    populate-task t =
        by_result (λ p. (left_with p).task ≡ t.task)
          (db.get_template t.task.project_id t.task.template_id s) _ _
          (λ tpl. project-task (record t { template = tpl })) (λ e. refl)
