-- ===== src/Examples/Hosts.antt =====
-- Files and agents in memory, with their laws, and the theorems on local jobs and repositories at them.
use contribute_semaphore.Base.{
  ◌≡◌, refl, ap, Bool, true, false, ◌||◌, none, some, List, [], ◌∷◌, ◌++◌, arith,
}
use contribute_semaphore.Base.Tests.{if◌then◌else◌}
use contribute_semaphore.Base.Text.{Text, text, text_eq, has_prefix}
use contribute_semaphore.Base.Decimal.{itoa}
use contribute_semaphore.Examples.Ciphering.{login_key}
use contribute_semaphore.Examples.Disk.{task, runner_of}
use contribute_semaphore.Host.{Host, HostLaws, Json, nil_map, members, Stat, present, missing}
use contribute_semaphore.Keys.Install.{
  no_installation, key_path, install, open_and_install, install_opened, write_key,
}
use contribute_semaphore.Local.Args.{LocalJob, get_playbook_args}
use contribute_semaphore.Local.Arguments.{args_not_overridden, with_arguments}
use contribute_semaphore.Local.Cleanup.{AllCleaned, run_local-AllCleaned}
use contribute_semaphore.Local.Job.{run_local}
use contribute_semaphore.Local.Prepare.{
  LocalState, prepare_run, check_tmp_dir, prepare_repository, install_inventory,
  install_requirements, install_vault_key_file, install_key, install_static_inventory, install_from,
}
use contribute_semaphore.Model.Status.{running}
use contribute_semaphore.Model.Store.{ok, err, failure}
use contribute_semaphore.Repo.{get_full_path, get_git_url, get_type, clear_cache}
use contribute_semaphore.Repo.Url.{url-eq}
use contribute_semaphore.Repo.Cache.{clear_cache-eq, entries, remove_own}

pub record Machine : Type 0 where
  pub files : List Text
  pub agents : List Text

abbrev pub has_name : Text → List Text → Bool
has_name n [] = false
has_name n (m ∷ ms) = text_eq m n || has_name n ms

abbrev pub cut_name : Text → List Text → List Text
cut_name n [] = []
cut_name n (m ∷ ms) = let rest = cut_name n ms in if text_eq m n then rest else m ∷ rest

cut_self : (n : Text) (ms : List Text) → has_name n (cut_name n ms) ≡ false
cut_self n [] = refl
cut_self n (m ∷ ms) = ground (arith, cut_self n ms)

cut_other :
    (n k : Text) (ms : List Text) → has_name k ms ≡ false → has_name k (cut_name n ms) ≡ false
cut_other n k [] h = refl
cut_other n k (m ∷ ms) h = ground (arith, cut_other n k ms)

abbrev stat_of : Bool → Stat
stat_of true = present
stat_of false = missing

no_name : (b : Bool) → stat_of b ≡ missing → b ≡ false
no_name true h = absurd (cc)
no_name false h = refl

abbrev pub machine : Host Machine
machine = record {
  stat = λ path f. stat_of (has_name path f.files);
  read_file = λ path f. err (failure (text "no such file"));
  md5 = λ path f. ok [];
  write_file = λ path s f. (record f { files = path ∷ f.files }, none);
  remove = λ path f. (record f { files = cut_name path f.files }, none);
  remove_all = λ path f. (record f { files = cut_name path f.files }, none);
  mkdir_all = λ path f. (record f { files = path ∷ f.files }, none);
  random_int = λ n f. (f, ok 42);
  now = λ f. 0;
  listening = λ socket f. has_name socket f.agents;
  listen = λ socket k p f. (record f { agents = socket ∷ f.agents }, none);
  close_agent = λ socket f. (record f { agents = cut_name socket f.agents }, none);
  clone = λ id r f. (f, none);
  pull = λ id r f. (f, none);
  checkout = λ id r hash f. (f, none);
  can_be_pulled = λ id r f. (f, true);
  run_galaxy = λ args f. (f, none);
  run_playbook = λ args env f. (f, none);
  join = joined;
  dir = λ path. path;
}
  where
    joined : List Text → Text
    joined [] = []
    joined (p ∷ []) = p
    joined (p ∷ q ∷ ps) = p ++ (b'/' ∷ joined (q ∷ ps))

machine_laws : HostLaws machine
machine_laws = record {
  stat-remove_self = λ path f h. ap stat_of (cut_self path f.files);
  stat-remove = λ path other f h. ap stat_of (cut_other path other f.files (no_name _ h));
  stat-close_agent = λ socket other f h. h;
  listening-close_self = λ socket f h. cut_self socket f.agents;
  listening-close = λ socket other f h. cut_other socket other f.agents h;
  listening-remove = λ path socket f h. h;
}

abbrev json : Json
json = record {
  decode_map = λ s. if text_eq s (text "null") then ok nil_map else ok (members []);
  decode_string_map = λ s. ok [];
  decode_strings = λ s. ok (s ∷ []);
  encode_map = λ m. ok (text "{}");
  encode_string = λ s. s;
  encode_string_map = λ m. ok (text "{}");
}

-- A job with a local repository and a login key with a password.
abbrev local_job : LocalJob
local_job = record {
  fields = record {
    task = task 7 3 running;
    template = (runner_of (task 7 3 running)).template;
    inventory = record (runner_of (task 7 3 running)).inventory {
      ssh_key_id = some 3;
      ssh_key = login_key;
    };
    repository = record (runner_of (task 7 3 running)).repository { git_url = text "/repo" };
    environment = (runner_of (task 7 3 running)).environment;
  };
  ssh_key_installation = no_installation;
  become_key_installation = no_installation;
  vault_file_installation = no_installation;
}

abbrev local_state : LocalState Machine
local_state = record {
  job = local_job;
  log = [];
  statuses = [];
  files = record { files = text "/repo" ∷ []; agents = [] };
}

abbrev prepared : LocalState Machine
prepared =
    (prepare_run machine json ok (text "/tmp") (record local_state { statuses = running ∷ [] })).0

-- The key has been written before it is removed.
prepared-key : has_name (key_path (text "/tmp") 42) prepared.files.files ≡ true
unfolding prepare_run check_tmp_dir prepare_repository install_inventory install_requirements
    install_vault_key_file install_key install_static_inventory install_from install
    open_and_install install_opened write_key key_path text_eq get_full_path get_git_url get_type
    has_prefix itoa
prepared-key = refl

run_local-AllCleaned_example :
    AllCleaned machine machine_laws json ok
      (text "/tmp")
      prepared.job
      (run_local machine json ok (text "/tmp") (text "jane") none local_state).0
unfolding prepare_run check_tmp_dir prepare_repository install_inventory install_requirements
    install_vault_key_file install_key install_static_inventory install_from install
    open_and_install install_opened write_key key_path text_eq get_full_path get_git_url get_type
    has_prefix itoa
run_local-AllCleaned_example =
    run_local-AllCleaned machine machine_laws json ok (text "/tmp") (text "jane") none local_state
      prepared refl

args_not_overridden_example :
    get_playbook_args json
      (text "/tmp")
      (with_arguments (some (text "-vvv")) local_job)
      (text "jane")
      none
    ≡ get_playbook_args json (text "/tmp") local_job (text "jane") none
args_not_overridden_example =
    args_not_overridden json (text "/tmp") (text "jane") none local_job (some (text "-vvv")) refl

abbrev null_job : LocalJob
null_job = record local_job {
  fields = record local_job.fields {
    environment = record local_job.fields.environment { json = text "null" };
    inventory = (runner_of (task 7 3 running)).inventory;
  };
}

url-eq_example :
    get_git_url
      (record local_job.fields.repository { git_url = text "https://x/y"; ssh_key = login_key })
    ≡ text "https://:pw@x/y"
url-eq_example =
    (url-eq (record local_job.fields.repository {
      git_url = text "https://x/y";
      ssh_key = login_key;
    })).0
      (text "x/y") refl

clear_cache-eq_example :
    clear_cache machine
      (text "/tmp")
      local_job.fields.repository
      (entries ((local_job.fields.repository, 3) ∷ []))
      local_state.files
    ≡ remove_own machine (text "/tmp") 5 ((local_job.fields.repository, 3) ∷ []) local_state.files
clear_cache-eq_example =
    clear_cache-eq machine (text "/tmp") local_job.fields.repository
      ((local_job.fields.repository, 3) ∷ []) local_state.files
