-- ===== src/Examples/Events.antt =====
-- The theorem on lists of events, for two events of one project.
use contribute_semaphore.Base.{◌≤◌, ◌≡◌, refl, true, none, some, [], ◌∷◌}
use contribute_semaphore.Base.Lists.{length}
use contribute_semaphore.Base.Text.{text, text_eq}
use contribute_semaphore.Bolt.Events.{
  EventTables, get_events, get_user_events, get_events_by, take_events, fill_events, object_name_of,
}
use contribute_semaphore.Bolt.Events.Bounded.{events-bounded}
use contribute_semaphore.Examples.Store.{File, file_store, rows_in}
use contribute_semaphore.Model.Store.{ok, err, not_found, Event, all_rows}

abbrev event : Event
event = record {
  user_id = none;
  project_id = some 1;
  object_id = none;
  object_type = none;
  description = none;
}

abbrev tables : EventTables File
tables = record {
  decode_event = λ s. ok event;
  encode_event = λ e. ok [];
  get_project_name = λ p d. ok (text "demo");
  get_task_playbook = λ p id d. err not_found;
  get_username = λ id d. err not_found;
  is_project_user = λ p id d. true;
}

abbrev log_file : File
log_file = record {
  buckets = text "events" ∷ [];
  entries = (text "events", text "8", []) ∷ (text "events", text "9", []) ∷ [];
  counter = 2;
}

-- All events are asked for, and one is given.
all_events : length (get_events tables log_file file_store 1 all_rows).0 ≡ 1
unfolding get_events get_events_by take_events fill_events object_name_of rows_in text_eq
all_events = refl

events-bounded_example :
    (length (get_events tables log_file file_store 1 all_rows).0 ≤ 1)
    × (length (get_user_events tables log_file file_store 1 all_rows).0 ≤ 1)
events-bounded_example = events-bounded tables log_file file_store 1 all_rows
