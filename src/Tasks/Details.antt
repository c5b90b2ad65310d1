-- ===== src/Tasks/Details.antt =====
-- populateDetails and prepareError (services/tasks/TaskRunner.go): what a runner reads of the database
-- before its task is queued.
pub mod Reads
use contribute_semaphore.Base.{ℕ, Option, none, some, List, [], ◌∷◌}
use contribute_semaphore.Base.Tests.{if◌then◌else◌}
use contribute_semaphore.Base.Text.{Text, text, text_eq}
use contribute_semaphore.Model.Resources.{AccessKey}
use contribute_semaphore.Model.Status.{fail}
use contribute_semaphore.Model.Store.{TaskStore, Result, ok, err, Error, not_found}
use contribute_semaphore.Tasks.Status.{log, set_status}
use contribute_semaphore.Tasks.World.{
  Ref, World, TaskRunner, Outcome, done, panic, ◌>>=◌, runner, set_runner,
}

-- What the package does not implement: opening a stored secret (db/AccessKey.go with its ciphers),
-- and package encoding/json on objects, as the list of their members.
pub record External : Type 0 where
  pub deserialize_secret : AccessKey → Result AccessKey
  pub decode_json : Text → Result (List (Text × Text))
  pub encode_json : List (Text × Text) → Text

-- `m[k] = v`
unfoldable pub set_member : Text → Text → List (Text × Text) → List (Text × Text)
set_member k v [] = (k, v) ∷ []
set_member k v ((j, w) ∷ m) = if text_eq j k then (j, v) ∷ m else (j, w) ∷ set_member k v m

unfoldable pub get_member : Text → List (Text × Text) → Option Text
get_member k [] = none
get_member k ((j, v) ∷ m) = if text_eq j k then some v else get_member k m

-- The loop over the second map.
unfoldable pub set_members : List (Text × Text) → List (Text × Text) → List (Text × Text)
set_members [] m = m
set_members ((k, v) ∷ kvs) m = set_members kvs (set_member k v m)

-- How populateDetails ends: well, by `return err`, or by `return t.prepareError(err, msg)`.
pub data Populated : Type 0 where
  ready : TaskRunner → Populated
  gave_up : TaskRunner → Error → Populated
  lookup_failed : TaskRunner → Error → Text → Populated

module _ (x : External) where
  -- The overrides of the task are decoded first, and the environment's members are set over them.
  unfoldable pub merged_json : Text → Text → Result Text
  merged_json task_env env_json =
      elim (if text_eq env_json [] then ok [] else x.decode_json task_env) [
        | err e ↦ err e
        | ok environment ↦ elim (x.decode_json env_json) [
          | err e ↦ err e
          | ok members ↦ ok (x.encode_json (set_members members environment))
        ]
      ]

  unfoldable pub populate_json : TaskRunner → Populated
  populate_json t =
      if text_eq t.task.environment []
      then ready t
      else elim (merged_json t.task.environment t.environment.json) [
        | err e ↦ gave_up t e
        | ok json ↦ ready (record t { environment = record t.environment { json = json } })
      ]

  module _ {S : Type 0} (db : TaskStore S) (s : S) where
    unfoldable pub populate_environment : TaskRunner → Populated
    unfolding populate_json
    populate_environment t = elim t.template.environment_id [
      | none ↦ populate_json t
      | some id ↦ elim (db.get_environment t.template.project_id id s) [
        | err e ↦ gave_up t e
        | ok env ↦ populate_json (record t { environment = env })
      ]
    ]

    unfoldable pub populate_repository : TaskRunner → Populated
    unfolding populate_environment
    populate_repository t =
        elim (db.get_repository t.template.project_id t.template.repository_id s) [
          | err e ↦ gave_up t e
          | ok repo ↦ elim (x.deserialize_secret repo.ssh_key) [
            | err e ↦ gave_up (record t { repository = repo }) e
            | ok key ↦
                populate_environment (record t { repository = record repo { ssh_key = key } })
          ]
        ]

    unfoldable pub populate_inventory : TaskRunner → Populated
    unfolding populate_repository
    populate_inventory t = elim (db.get_inventory t.template.project_id t.template.inventory_id s) [
      | err e ↦ lookup_failed t e (text "Template Inventory not found!")
      | ok inventory ↦ populate_repository (record t { inventory = inventory })
    ]

    unfoldable pub populate_users : TaskRunner → Populated
    unfolding populate_inventory
    populate_users t = elim (db.get_project_users t.template.project_id s) [
      | err e ↦ lookup_failed t e (text "Users not found!")
      | ok users ↦ populate_inventory (record t { users = users })
    ]

    unfoldable pub populate_project : TaskRunner → Populated
    unfolding populate_users
    populate_project t = elim (db.get_project t.template.project_id s) [
      | err e ↦ lookup_failed t e (text "Project not found!")
      | ok p ↦ populate_users (record t { alert = p.alert; alert_chat = p.alert_chat })
    ]

    unfoldable pub populate : TaskRunner → Populated
    unfolding populate_project
    populate t = elim (db.get_template t.task.project_id t.task.template_id s) [
      | err e ↦ lookup_failed t e (text "Template not found!")
      | ok tpl ↦ populate_project (record t { template = tpl })
    ]

module _ {S : Type 0} (x : External) (db : TaskStore S) where
  -- ErrNotFound is logged and returned; any other error fails the task and panics.
  unfoldable pub prepare_error : ℕ → Ref → Error → Text → World S → Outcome (World S × Error)
  prepare_error now r not_found msg w = done (log now r msg w, not_found)
  prepare_error now r e msg w =
      set_status db now r fail w >>= λ w'. panic (text "cannot prepare the task")

  -- The error that populateDetails returns, if any.
  unfoldable pub populate_details : ℕ → Ref → World S → Outcome (World S × Option Error)
  unfolding prepare_error
  populate_details now r w = elim (populate x db w.store (runner r w)) [
    | ready t ↦ done (set_runner r t w, none)
    | gave_up t e ↦ done (set_runner r t w, some e)
    | lookup_failed t e msg ↦
        prepare_error now r e msg (set_runner r t w) >>= λ p. done (p.0, some p.1)
  ]
