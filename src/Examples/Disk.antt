-- ===== src/Examples/Disk.antt =====
-- A store of tasks in memory, with one project whose limit is two tasks, and a pool over it: two tasks of
-- one template wait, and the third runner is of another template.
use contribute_semaphore.Base.{ℕ, ◌≡◌, refl, false, Option, none, some, List, [], ◌∷◌, ◌++◌, arith}
use contribute_semaphore.Base.Tests.{◌==◌, if◌then◌else◌, ==_self}
use contribute_semaphore.Base.Map.{Map, lookup, insert, lookup-insert}
use contribute_semaphore.Base.Text.{text}
use contribute_semaphore.Model.Resources.{
  AccessKey, no_key, Inventory, Repository, Environment, Project,
}
use contribute_semaphore.Model.Status.{TaskStatus, waiting}
use contribute_semaphore.Model.Store.{TaskStore, StoreLaws, Result, ok, err, not_found, Event}
use contribute_semaphore.Model.Task.{Task}
use contribute_semaphore.Model.Template.{Template, plain}
use contribute_semaphore.Tasks.Details.{External}
use contribute_semaphore.Tasks.World.{Ref, TaskRunner, Config, World, Outcome, done, panic}

abbrev pub key : AccessKey
key = record {
  id = 0;
  name = [];
  type = no_key;
  project_id = none;
  secret = none;
  login_password = record { login = []; password = [] };
  ssh_key = record { login = []; passphrase = []; private_key = [] };
  override_secret = false;
}

abbrev pub inventory : Inventory
inventory = record {
  id = 4;
  name = text "hosts";
  project_id = 1;
  inventory = [];
  ssh_key_id = none;
  ssh_key = key;
  become_key_id = none;
  become_key = key;
  type = text "static";
}

abbrev pub repository : Repository
repository = record {
  id = 5;
  name = text "playbooks";
  project_id = 1;
  git_url = [];
  git_branch = [];
  ssh_key_id = 6;
  ssh_key = key;
}

abbrev pub environment : Environment
environment = record {
  id = 2;
  name = [];
  project_id = 1;
  password = none;
  json = text "{}";
  env = none;
}

abbrev pub template : ℕ → Template
template id = record {
  id = id;
  project_id = 1;
  inventory_id = 4;
  repository_id = 5;
  environment_id = none;
  name = text "site";
  playbook = text "site.yml";
  arguments = none;
  allow_override_args_in_task = false;
  description = none;
  vault_key_id = none;
  vault_key = key;
  type = plain;
  start_version = none;
  build_template_id = none;
  view_id = none;
  autorun = false;
  survey_vars_json = none;
  survey_vars = [];
  suppress_success_alerts = false;
}

abbrev pub task : ℕ → ℕ → TaskStatus → Task
task id tpl status = record {
  id = id;
  template_id = tpl;
  project_id = 1;
  status = status;
  debug = false;
  dry_run = false;
  diff = false;
  playbook = [];
  environment = [];
  limit = [];
  user_id = none;
  created = 1;
  start = none;
  end = none;
  message = [];
  commit_hash = none;
  commit_message = [];
  build_task_id = none;
  version = none;
  arguments = none;
}

abbrev pub runner_of : Task → TaskRunner
runner_of t = record {
  task = t;
  template = template t.template_id;
  inventory = inventory;
  repository = repository;
  environment = environment;
  users = 9 ∷ [];
  alert = false;
  alert_chat = none;
  job = none;
  runner_id = 0;
  username = [];
  incoming_version = none;
}

pub record Disk : Type 0 where
  pub tasks : Map Task
  pub events : List Event

abbrev project : ℕ → Project
project id = record {
  id = id;
  name = text "demo";
  created = 0;
  alert = false;
  alert_chat = none;
  max_parallel_tasks = 2;
}

abbrev find_task : ℕ → Option Task → Result Task
find_task p none = err not_found
find_task p (some t) = if t.project_id == p then ok t else err not_found

unfoldable pub read_task : ℕ → ℕ → Disk → Result Task
read_task p id d = find_task p (lookup id d.tasks)

-- UpdateTask of db/sql/task.go: the status, the start and the end of the task, if there is one.
abbrev write_found : Task → Option Task → Disk → Disk
write_found t none d = d
write_found t (some old) d = record d {
  tasks = insert t.id (record old { status = t.status; start = t.start; end = t.end }) d.tasks;
}

unfoldable pub write_task : Task → Disk → Result Disk
write_task t d = ok (write_found t (lookup t.id d.tasks) d)

abbrev pub disk_store : TaskStore Disk
disk_store = record {
  get_project = λ id d. ok (project id);
  get_template = λ p id d. ok (template id);
  get_templates = λ p filter d. ok [];
  get_template_tasks = λ p id params d. ok [];
  get_project_users = λ p d. ok (9 ∷ []);
  get_inventory = λ p id d. ok inventory;
  get_repository = λ p id d. ok repository;
  get_environment = λ p id d. ok environment;
  get_user = λ id d. err not_found;
  get_task = read_task;
  create_task = λ t d. ok (t, record d { tasks = insert t.id t d.tasks });
  update_task = write_task;
  create_event = λ e d. ok (record d { events = d.events ++ e ∷ [] });
}

written :
    (t old : Task) (d d' : Disk) (held : Option Task)
    → lookup t.id d.tasks ≡ held
    → find_task t.project_id held ≡ ok old
    → ok (write_found t held d) ≡ ok d'
    → (new : Task) × (read_task t.project_id t.id d' ≡ ok new) × (new.status ≡ t.status)
unfolding read_task
written t old d d' none l h e = absurd (cc)
written t old d d' (some o) l h e = (
  record o { status = t.status; start = t.start; end = t.end },
  ground (
    arith,
    lookup-insert t.id t.id (record o { status = t.status; start = t.start; end = t.end }) d.tasks,
    ==_self t.id,
  ),
  refl,
)

pub disk_laws : StoreLaws disk_store
unfolding read_task write_task
disk_laws = record {
  get_task-update = λ t old d d' h e. written t old d d' (lookup t.id d.tasks) refl h e;
  get_project-update = λ t d d' p e. refl;
  get_task-create_event = λ e t d d' p id h c. ground arith;
}

abbrev pub outside : External
outside = record { deserialize_secret = ok; decode_json = λ s. ok []; encode_json = λ m. text "{}" }

abbrev pub config : Config
config = record {
  max_parallel_tasks = 2;
  use_remote_runner = false;
  email_alert = false;
  telegram_alert = false;
  telegram_chat = [];
  slack_alert = false;
}

abbrev pub memory : TaskStatus → Ref → TaskRunner
memory status r =
    if r == 0
    then runner_of (task 7 3 status)
    else if r == 1
    then runner_of (task 8 3 waiting)
    else runner_of (task 9 4 waiting)

abbrev pub disk : TaskStatus → Disk
disk status = record { tasks = (7, task 7 3 status) ∷ (8, task 8 3 waiting) ∷ []; events = [] }

-- The first task has the given status; the first two wait in the queue.
abbrev pub pool : TaskStatus → World Disk
pool status = record {
  config = config;
  queue = 0 ∷ 1 ∷ [];
  active_proj = [];
  running_tasks = [];
  runners = memory status;
  next_ref = 3;
  logger = [];
  outbox = [];
  store = disk status;
}

abbrev pub result : Outcome (World Disk) → World Disk
result (done w) = w
result (panic m) = pool waiting
