-- ===== src/Bolt/Schedules/Written.antt =====
-- What is read after a write to a schedule or a task (db/bolt/schedule.go, db/bolt/task.go).
use contribute_semaphore.Base.{◌≡◌, refl, sym, ◌∙◌, some, [], ◌∷◌, arith}
use contribute_semaphore.Base.Tests.{if◌then◌else◌}
use contribute_semaphore.Base.Int.{ℤ, pos}
use contribute_semaphore.Base.Text.{Text, text, text_eq}
use contribute_semaphore.Bolt.Database.{Bbolt, BboltLaws, Codec, CodecLaws, stored}
use contribute_semaphore.Bolt.Object.{
  Object, int_value, other_value, int_object_id, tags, field_by_tag_suffix, has_suffix,
}
use contribute_semaphore.Bolt.Objects.{id_of_value}
use contribute_semaphore.Bolt.Props.{task_props, task_tags}
use contribute_semaphore.Bolt.Reading.{get_object-update}
use contribute_semaphore.Bolt.Schedules.{
  schedule_tags, schedule_props, has_int, get_schedule, set_schedule_commit_hash, get_task,
  update_task,
}
use contribute_semaphore.Bolt.Sessions.{with_field}
use contribute_semaphore.Bolt.Sessions.Expired.{tags-with_field, id-with_field}
use contribute_semaphore.Model.Store.{ok, err, not_found}

module _ {D : Type 0} (b : Bbolt D) (codec : Codec) (laws : BboltLaws b)
    (codecs : CodecLaws codec) where
  -- The schedule is read back with its commit.
  pub get_schedule-set_hash :
      (project_id schedule_id : ℤ) (hash : Text) (schedule : Object) (d d' : D)
      → get_schedule b codec project_id schedule_id d ≡ ok schedule
      → schedule_tags ≡ tags schedule
      → field_by_tag_suffix (text "id") schedule ≡ some (int_value schedule_id)
      → set_schedule_commit_hash b codec project_id schedule_id hash d ≡ ok d'
      → get_schedule b codec project_id schedule_id d'
        ≡ ok (stored codec (with_field (text "last_commit_hash") (other_value hash) schedule))
  unfolding get_schedule set_schedule_commit_hash
  get_schedule-set_hash project_id schedule_id hash schedule d d' found shape i h =
      let tag = text "last_commit_hash" in
      get_object-update b codec laws codecs (project_id ∷ []) schedule_props
        (int_object_id schedule_id) (int_value schedule_id)
        (with_field tag (other_value hash) schedule) d d'
        (shape ∙ sym (tags-with_field tag (other_value hash) schedule))
        (id-with_field tag (other_value hash) schedule (unfold has_suffix text_eq in refl) ∙ i)
        (unfold id_of_value in refl) (ground (arith, found))

  -- A task that is written is read back in its own project, and is not found in another.
  pub get_task-update :
      (project_id task_id : ℤ) (task : Object) (d d' : D)
      → task_tags ≡ tags task
      → field_by_tag_suffix (text "id") task ≡ some (int_value task_id)
      → update_task b codec task d ≡ ok d'
      → get_task b codec project_id task_id d' ≡ (
          if has_int (text "project_id") project_id (stored codec task)
          then ok (stored codec task)
          else err not_found)
  unfolding get_task update_task
  get_task-update project_id task_id task d d' shape i h =
      let read =
        get_object-update b codec laws codecs (pos 0 ∷ []) task_props (int_object_id task_id)
          (int_value task_id) task d d' shape i (unfold id_of_value in refl) h in
      ground (arith, read)
