-- ===== src/Bolt/Events.antt =====
-- Events in BoltDB (db/bolt/event.go) and the filling of their names (db/Event.go). The two filters pass
-- events of a project alone, so that a filter gives the project of an event that it passes.
pub mod Bounded
use contribute_semaphore.Base.{ℕ, ◌+◌, Bool, true, false, ◌&&◌, Option, none, some, List, [], ◌∷◌}
use contribute_semaphore.Base.Tests.{ltb, ◌==◌, if◌then◌else◌}
use contribute_semaphore.Base.Int.{ℤ, pos}
use contribute_semaphore.Base.Map.{Map, lookup, insert}
use contribute_semaphore.Base.Text.{Text, text, text_eq}
use contribute_semaphore.Bolt.Database.{Bbolt}
use contribute_semaphore.Bolt.Object.{int_object_id, to_bytes}
use contribute_semaphore.Bolt.Objects.{inverted_id}
use contribute_semaphore.Model.Store.{Result, ok, err, Error, Event, RetrieveQueryParams, ◌>>=◌}

-- encoding/json on events, and what the lists ask of the other tables.
pub record EventTables (D : Type 0) : Type 0 where
  pub decode_event : Text → Result Event
  pub encode_event : Event → Result Text
  pub get_project_name : ℕ → D → Result Text
  pub get_task_playbook : ℕ → ℕ → D → Result Text
  pub get_username : ℕ → D → Result Text
  pub is_project_user : ℕ → ℕ → D → Bool

-- An event with its project, whose name has been read, and the fields that FillEvents sets.
pub record ListedEvent : Type 0 where
  pub event : Event
  pub project_id : ℕ
  pub project_name : Text
  pub object_name : Text
  pub username : Option Text

abbrev pub events_bucket : Text
events_bucket = text "events"

module _ {D : Type 0} (tables : EventTables D) (d : D) where
  abbrev listed : Event → ℕ → Result Text → Result ListedEvent
  listed e p (err x) = err x
  listed e p (ok name) =
      ok (record {
        event = e;
        project_id = p;
        project_name = name;
        object_name = [];
        username = none;
      })

  -- The loop of getEvents. An error ends it and is forgotten, since FillEvents overwrites it.
  unfoldable pub take_events :
      RetrieveQueryParams → (Event → Option ℕ) → ℕ → ℕ → List (Text × Text) → List ListedEvent
  take_events params filter i n [] = []
  take_events params filter i n ((k, v) ∷ rows) =
      elim (ltb 0 params.offset && ltb i params.offset) [
        | true ↦ take_events params filter (i + 1) n rows
        | false ↦ elim (tables.decode_event v) [
          | err x ↦ []
          | ok e ↦ elim (filter e) [
            | none ↦ take_events params filter i n rows
            | some p ↦ elim (listed e p (tables.get_project_name p d)) [
              | err x ↦ []
              | ok l ↦ elim (ltb params.count (n + 1)) [
                | true ↦ l ∷ []
                | false ↦ l ∷ take_events params filter i (n + 1) rows
              ]
            ]
          ]
        ]
      ]

  -- A task can be deleted: its name is empty then.
  abbrev playbook_or_empty : Result Text → Text
  playbook_or_empty (ok s) = s
  playbook_or_empty (err x) = []

  unfoldable pub object_name_of : ListedEvent → Text
  object_name_of l = elim l.event.object_id [
    | none ↦ []
    | some id ↦ elim l.event.object_type [
      | none ↦ []
      | some type ↦
          if text_eq type (text "task")
          then playbook_or_empty (tables.get_task_playbook l.project_id id d)
          else []
    ]
  ]

  -- The name of a user, and the names that are known from then on; an empty name is not kept.
  unfoldable pub username_of : ℕ → Map Text → Result (Option Text × Map Text)
  username_of user names = elim (lookup user names) [
    | some name ↦ ok (some name, names)
    | none ↦ tables.get_username user d >>= λ name.
        if text_eq name [] then ok (none, names) else ok (some name, insert user name names)
  ]

  -- FillEvents: the events before an error are filled, and the error is returned.
  unfoldable pub fill_events : List ListedEvent → Map Text → List ListedEvent × Option Error
  unfolding object_name_of username_of
  fill_events [] names = ([], none)
  fill_events (l ∷ ls) names =
      let named = record l { object_name = object_name_of l } in
      elim l.event.user_id [
        | none ↦ let (rest, e) = fill_events ls names in (named ∷ rest, e)
        | some user ↦ elim (username_of user names) [
          | err x ↦ (named ∷ ls, some x)
          | ok (name, names') ↦
              let (rest, e) = fill_events ls names' in (record named { username = name } ∷ rest, e)
        ]
      ]

  unfoldable pub get_events_by :
      Bbolt D → RetrieveQueryParams → (Event → Option ℕ) → List ListedEvent × Option Error
  unfolding take_events fill_events
  get_events_by b params filter =
      if b.has_bucket events_bucket d
      then fill_events (take_events params filter 0 0 (b.cursor events_bucket d)) []
      else ([], none)

  abbrev pub if_project : (ℕ → Bool) → Event → Option ℕ
  if_project test e = elim e.project_id [ none ↦ none | some p ↦ if test p then some p else none ]

  unfoldable pub get_events : Bbolt D → ℕ → RetrieveQueryParams → List ListedEvent × Option Error
  unfolding get_events_by
  get_events b project_id params = get_events_by b params (if_project (λ p. p == project_id))

  unfoldable pub get_user_events :
      Bbolt D → ℕ → RetrieveQueryParams → List ListedEvent × Option Error
  unfolding get_events_by
  get_user_events b user_id params =
      get_events_by b params (if_project (λ p. tables.is_project_user p user_id d))

-- The event has been stamped with the time already.
unfoldable pub create_event : {D : Type 0} → EventTables D → Bbolt D → Event → D → Result D
create_event tables b e d = b.create_bucket_if_not_exists events_bucket d >>= λ d'.
    tables.encode_event e >>= λ str. b.next_sequence events_bucket d' >>= λ p.
    b.put events_bucket (to_bytes (int_object_id (inverted_id p.0))) str p.1
