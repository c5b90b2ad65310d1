-- ===== src/Bolt/Schedules.antt =====
-- Schedules and tasks in BoltDB (db/bolt/schedule.go, db/bolt/task.go, db/Store.go). The tables of the
-- templates that a list of tasks is joined with are left out.
pub mod Written
use contribute_semaphore.Base.{
  Bool, true, false, ◌&&◌, Option, none, some, List, [], ◌∷◌, ◌++◌, map,
}
use contribute_semaphore.Base.Tests.{if◌then◌else◌}
use contribute_semaphore.Base.Int.{ℤ, pos}
use contribute_semaphore.Base.Text.{Text, text, text_eq}
use contribute_semaphore.Bolt.Database.{Bbolt, Codec}
use contribute_semaphore.Bolt.Object.{
  Object, Value, int_value, other_value, int_object_id, to_bytes,
}
use contribute_semaphore.Bolt.Objects.{get_object, update_object_tx, create_object}
use contribute_semaphore.Bolt.Props.{ObjectProps, task_props}
use contribute_semaphore.Bolt.Query.{get_objects, delete_object}
use contribute_semaphore.Bolt.Sessions.{props_of, field, with_field, int_of}
use contribute_semaphore.Model.Store.{
  Result, ok, err, not_found, RetrieveQueryParams, all_rows, ◌>>=◌,
}

abbrev pub schedule_tags : List Text
schedule_tags = map text (
    "id" ∷ "project_id" ∷ "template_id" ∷ "cron_format" ∷ "repository_id" ∷ "last_commit_hash" ∷ [])

abbrev pub project_tags : List Text
project_tags =
    map text ("id" ∷ "name" ∷ "created" ∷ "alert" ∷ "alert_chat" ∷ "max_parallel_tasks" ∷ [])

abbrev pub task_output_tags : List Text
task_output_tags = map text ("task_id" ∷ "task" ∷ "time" ∷ "output" ∷ [])

abbrev pub schedule_props : ObjectProps
schedule_props = props_of (text "project__schedule") schedule_tags false

abbrev pub project_props : ObjectProps
project_props = props_of (text "project") project_tags true

abbrev pub task_output_props : ObjectProps
task_output_props = record (props_of (text "task__output") task_output_tags false) {
  primary_column_name = [];
}

-- `s.TemplateID == templateID`, and the like.
abbrev same_int : ℤ → ℤ → Bool
same_int i j = text_eq (to_bytes (int_object_id i)) (to_bytes (int_object_id j))

abbrev pub has_int : Text → ℤ → Object → Bool
has_int tag i o = same_int (int_of (field tag o)) i

abbrev filtered : (Object → Bool) → List Object → List Object
filtered p [] = []
filtered p (o ∷ os) = let rest = filtered p os in if p o then o ∷ rest else rest

module _ {D : Type 0} (b : Bbolt D) (codec : Codec) where
  unfoldable pub get_project_schedules : ℤ → D → Result (List Object)
  get_project_schedules project_id d =
      get_objects codec b (project_id ∷ []) schedule_props all_rows (λ o. true) d

  -- The loop over the projects.
  unfoldable pub each_project : List Object → D → Result (List Object)
  unfolding get_project_schedules
  each_project [] d = ok []
  each_project (p ∷ ps) d = get_project_schedules (int_of (field (text "id") p)) d >>= λ own.
      each_project ps d >>= λ rest. ok (own ++ rest)

  unfoldable pub get_schedules : D → Result (List Object)
  unfolding each_project
  get_schedules d = get_objects codec b (pos 0 ∷ []) project_props all_rows (λ o. true) d >>= λ ps.
      each_project ps d

  unfoldable pub get_template_schedules : ℤ → ℤ → D → Result (List Object)
  unfolding get_project_schedules
  get_template_schedules project_id template_id d = get_project_schedules project_id d >>= λ ss.
      ok (filtered (has_int (text "template_id") template_id) ss)

  unfoldable pub create_schedule : Object → D → Result (Object × D)
  create_schedule schedule d =
      create_object b codec (int_of (field (text "project_id") schedule) ∷ []) schedule_props
        schedule d

  unfoldable pub update_schedule : Object → D → Result D
  update_schedule schedule d =
      update_object_tx b codec (int_of (field (text "project_id") schedule) ∷ []) schedule_props
        schedule d

  unfoldable pub get_schedule : ℤ → ℤ → D → Result Object
  get_schedule project_id schedule_id d =
      get_object b codec (project_id ∷ []) schedule_props (int_object_id schedule_id) d

  unfoldable pub delete_schedule : ℤ → ℤ → D → D → Result D
  delete_schedule project_id schedule_id committed d =
      delete_object codec b (project_id ∷ []) schedule_props (int_object_id schedule_id) committed d

  unfoldable pub set_schedule_commit_hash : ℤ → ℤ → Text → D → Result D
  set_schedule_commit_hash project_id schedule_id hash d =
      get_schedule project_id schedule_id d >>= λ schedule.
      update_object_tx b codec (project_id ∷ []) schedule_props
        (with_field (text "last_commit_hash") (other_value hash) schedule) d

  -- `now` is the value of the clock.
  unfoldable pub create_task : Value → Object → D → Result (Object × D)
  create_task now task d =
      create_object b codec (pos 0 ∷ []) task_props (with_field (text "created") now task) d

  unfoldable pub update_task : Object → D → Result D
  update_task task d = update_object_tx b codec (pos 0 ∷ []) task_props task d

  -- A task of another project is not found.
  unfoldable pub get_task : ℤ → ℤ → D → Result Object
  get_task project_id task_id d =
      get_object b codec (pos 0 ∷ []) task_props (int_object_id task_id) d >>= λ task.
      if has_int (text "project_id") project_id task then ok task else err not_found

  unfoldable pub create_task_output : Object → D → Result (Object × D)
  create_task_output output d =
      create_object b codec (int_of (field (text "task_id") output) ∷ []) task_output_props output d

  unfoldable pub get_task_outputs : ℤ → ℤ → D → Result (List Object)
  unfolding get_task
  get_task_outputs project_id task_id d = get_task project_id task_id d >>= λ task.
      get_objects codec b (task_id ∷ []) task_output_props all_rows (λ o. true) d

  -- The filter of getTasks, and the tasks that it passes, without the fields of their templates and users.
  abbrev of_template : Option ℤ → Object → Bool
  of_template none o = true
  of_template (some t) o = has_int (text "template_id") t o

  unfoldable pub get_filtered_tasks : ℤ → Option ℤ → RetrieveQueryParams → D → Result (List Object)
  get_filtered_tasks project_id template_id params d =
      get_objects codec b (pos 0 ∷ []) task_props params
        (λ o. has_int (text "project_id") project_id o && of_template template_id o) d
