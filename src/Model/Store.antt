-- ===== src/Model/Store.antt =====
-- The errors of package db (db/Store.go), results, and the part of the interface db.Store that the
-- task service calls, with the laws that it relies on.
use contribute_semaphore.Base.{ℕ, refl, ◌≡◌, List, [], Option, Bool, false}
use contribute_semaphore.Base.Text.{Text, text}
use contribute_semaphore.Model.Resources.{Inventory, Repository, Environment, Project, User}
use contribute_semaphore.Model.Task.{Task, TaskWithTpl}
use contribute_semaphore.Model.Template.{Template, TemplateFilter}

pub data Error : Type 0 where
  not_found invalid_operation : Error
  validation failure : Text → Error

-- err.Error()
abbrev pub error_text : Error → Text
error_text not_found = text "no rows in result set"
error_text invalid_operation = text "invalid operation"
error_text (validation m) = m
error_text (failure m) = m

pub data Result {ℓ} (A : Type ℓ) : Type ℓ where
  ok : A → Result A
  err : Error → Result A

infixl 5 ◌>>=◌
abbrev pub ◌>>=◌ {ℓ κ} : {A : Type ℓ} {B : Type κ} → Result A → (A → Result B) → Result B
ok a >>= f = f a
err e >>= f = err e

-- A chain that succeeds has succeeded in each of its steps.
pub bind-eq-ok {ℓ κ ν} :
    {A : Type ℓ} {B : Type κ} (P : Type ν) (m : Result A) (f : A → Result B) {b : B}
    → ((a : A) → m ≡ ok a → f a ≡ ok b → P)
    → (m >>= f) ≡ ok b
    → P
bind-eq-ok P (ok a) f k h = k a refl h
bind-eq-ok P (err e) f k h = absurd (cc)

-- db.RetrieveQueryParams
pub record RetrieveQueryParams : Type 0 where
  pub offset : ℕ
  pub count : ℕ
  pub sort_by : Text
  pub sort_inverted : Bool

abbrev pub all_rows : RetrieveQueryParams
all_rows = record { offset = 0; count = 0; sort_by = []; sort_inverted = false }

-- db.Event, with what the task service fills in.
pub record Event : Type 0 where
  pub user_id : Option ℕ
  pub project_id : Option ℕ
  pub object_id : Option ℕ
  pub object_type : Option Text
  pub description : Option Text

pub record TaskStore (S : Type 0) : Type 0 where
  pub get_project : ℕ → S → Result Project
  pub get_template : ℕ → ℕ → S → Result Template
  pub get_templates : ℕ → TemplateFilter → S → Result (List Template)
  pub get_template_tasks : ℕ → ℕ → RetrieveQueryParams → S → Result (List TaskWithTpl)
  pub get_project_users : ℕ → S → Result (List ℕ)
  pub get_inventory : ℕ → ℕ → S → Result Inventory
  pub get_repository : ℕ → ℕ → S → Result Repository
  pub get_environment : ℕ → ℕ → S → Result Environment
  pub get_user : ℕ → S → Result User
  pub get_task : ℕ → ℕ → S → Result Task
  pub create_task : Task → S → Result (Task × S)
  pub update_task : Task → S → Result S
  pub create_event : Event → S → Result S

-- What the task service relies on. Both stores keep to it by reading: UpdateTask of db/sql/task.go
-- writes the status, the start and the end of the task with the number and nothing else, that of
-- db/bolt/task.go the whole task; neither touches a project, and CreateEvent touches no task.
pub record StoreLaws {S : Type 0} (db : TaskStore S) : Type 0 where
  pub get_task-update :
      (t old : Task) (s s' : S)
      → db.get_task t.project_id t.id s ≡ ok old
      → db.update_task t s ≡ ok s'
      → (new : Task) × (db.get_task t.project_id t.id s' ≡ ok new) × (new.status ≡ t.status)
  pub get_project-update :
      (t : Task) (s s' : S) (project : ℕ)
      → db.update_task t s ≡ ok s'
      → db.get_project project s' ≡ db.get_project project s
  pub get_task-create_event :
      (e : Event) (t : Task) (s s' : S) (project id : ℕ)
      → db.get_task project id s ≡ ok t
      → db.create_event e s ≡ ok s'
      → db.get_task project id s' ≡ ok t
