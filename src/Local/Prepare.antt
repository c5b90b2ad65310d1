-- ===== src/Local/Prepare.antt =====
-- prepareRun and what it calls (services/tasks/LocalJob.go, services/tasks/LobalJob_inventory.go,
-- and hasRequirementsChanges, writeMD5Hash and checkTmpDir of services/tasks/TaskRunner.go).
use contribute_semaphore.Base.{
  ℕ, Bool, true, false, not, ◌||◌, Option, none, some, List, [], ◌∷◌, ◌++◌,
}
use contribute_semaphore.Base.Tests.{if◌then◌else◌}
use contribute_semaphore.Base.Decimal.{itoa}
use contribute_semaphore.Base.Text.{Text, text, text_eq}
use contribute_semaphore.Host.{Host, Json, Stat, present, missing, stat_error, Call}
use contribute_semaphore.Keys.Install.{
  AccessKeyRole, ansible_user, ansible_become_user, ansible_password_vault, Installation, install,
}
use contribute_semaphore.Local.Args.{LocalJob, static_type, static_yaml_type, inventory_path}
use contribute_semaphore.Model.Resources.{AccessKey}
use contribute_semaphore.Model.Status.{TaskStatus}
use contribute_semaphore.Model.Store.{Result, ok, err, Error, failure, error_text}
use contribute_semaphore.Repo.{is_local, get_full_path}

-- A job, what it has logged, the statuses that it has set, and the files.
pub record LocalState (F : Type 0) : Type 0 where
  pub job : LocalJob
  pub log : List Text
  pub statuses : List TaskStatus
  pub files : F

abbrev pub Act : Type 0 → Type 0
Act F = LocalState F → LocalState F × Option Error

-- A step that is taken unless the one before has failed.
infixl 5 ◌>>>◌
abbrev pub ◌>>>◌ : {F : Type 0} → Act F → Act F → Act F
◌>>>◌ a b s = let (s', e) = a s in elim e [ none ↦ b s' | some x ↦ (s', some x) ]

abbrev pub say : {F : Type 0} → Text → LocalState F → LocalState F
say msg s = record s { log = s.log ++ msg ∷ [] }

-- `if err := a(); err != nil { t.Log(msg + err.Error()); return err }`
abbrev pub attempt : {F : Type 0} → Text → Act F → Act F
attempt msg a s =
    let (s', e) = a s in
    elim e [ none ↦ (s', none) | some x ↦ (say (msg ++ error_text x) s', some x) ]

abbrev pub call : {F : Type 0} → Call F → Act F
call c s = let (f, e) = c s.files in (record s { files = f }, e)

abbrev pub set_ssh_key : {F : Type 0} → LocalState F → AccessKey → Installation → LocalState F
set_ssh_key s k i = record s {
  job = record s.job {
    fields = record s.job.fields { inventory = record s.job.fields.inventory { ssh_key = k } };
    ssh_key_installation = i;
  };
}

abbrev pub set_become_key : {F : Type 0} → LocalState F → AccessKey → Installation → LocalState F
set_become_key s k i = record s {
  job = record s.job {
    fields = record s.job.fields { inventory = record s.job.fields.inventory { become_key = k } };
    become_key_installation = i;
  };
}

abbrev pub set_vault_key : {F : Type 0} → LocalState F → AccessKey → Installation → LocalState F
set_vault_key s k i = record s {
  job = record s.job {
    fields = record s.job.fields { template = record s.job.fields.template { vault_key = k } };
    vault_file_installation = i;
  };
}

module _ {F : Type 0} (h : Host F) (json : Json) (deserialize : AccessKey → Result AccessKey)
    (tmp_path : Text) where
  abbrev stat_failure : Stat → Option Error
  stat_failure present = none
  stat_failure missing = some (failure (text "no such file or directory"))
  stat_failure (stat_error e) = some e

  unfoldable pub check_tmp_dir : Act F
  check_tmp_dir s = elim (h.stat tmp_path s.files) [
    | present ↦ (s, none)
    | missing ↦ call (h.mkdir_all tmp_path) s
    | stat_error e ↦ (s, some e)
  ]

  abbrev pub repo_path : LocalState F → Text
  repo_path s = get_full_path h tmp_path s.job.fields.template.id s.job.fields.repository

  clone_again : Act F
  clone_again s =
      (call (h.remove_all (repo_path s))
          >>> call (h.clone s.job.fields.template.id s.job.fields.repository))
        s

  -- A copy that cannot be pulled is removed and made again.
  pull_or_clone : LocalState F → LocalState F × Bool → LocalState F × Option Error
  unfolding clone_again
  pull_or_clone s (s', false) = clone_again s'
  pull_or_clone s (s', true) =
      let (s'', e) = call (h.pull s.job.fields.template.id s.job.fields.repository) s' in
      elim e [ none ↦ (s'', none) | some x ↦ clone_again s'' ]

  unfoldable pub update_repository : Act F
  unfolding clone_again pull_or_clone
  update_repository s = elim (h.stat (repo_path s) s.files) [
    | missing ↦ call (h.clone s.job.fields.template.id s.job.fields.repository) s
    | stat_error e ↦ clone_again s
    | present ↦
        let (f, can) = h.can_be_pulled s.job.fields.template.id s.job.fields.repository s.files in
        pull_or_clone s (record s { files = f }, can)
  ]

  unfoldable pub checkout_repository : Act F
  checkout_repository s = elim (stat_failure (h.stat (repo_path s) s.files)) [
    | some e ↦ (s, some e)
    | none ↦ elim s.job.fields.task.commit_hash [
      | none ↦ (s, none)
      | some hash ↦ call (h.checkout s.job.fields.template.id s.job.fields.repository hash) s
    ]
  ]

  unfoldable pub prepare_repository : Act F
  unfolding update_repository checkout_repository
  prepare_repository s =
      let url = s.job.fields.repository.git_url in
      if is_local s.job.fields.repository
      then attempt (text "Failed in finding static repository at " ++ (url ++ text ": "))
          (λ v. (v, stat_failure (h.stat url v.files))) s
      else (attempt (text "Failed updating repository: ") update_repository
            >>> attempt (text "Failed to checkout repository to required commit: ")
                checkout_repository)
          s

  unfoldable pub install_static_inventory : Act F
  install_static_inventory s =
      let i = s.job.fields.inventory in
      let path = inventory_path tmp_path s.job.fields.task in
      call
        (h.write_file (if text_eq i.type static_yaml_type then path ++ text ".yml" else path)
          i.inventory)
        (say (text "installing static inventory") s)

  -- A key that is named is installed; what Install makes is kept, also when it fails.
  unfoldable pub install_key :
      Option ℕ
      → AccessKeyRole
      → (LocalState F → AccessKey)
      → (LocalState F → AccessKey → Installation → LocalState F)
      → Act F
  install_key none role get set s = (s, none)
  install_key (some id) role get set s =
      let r = install h json deserialize tmp_path role (get s) s.files in
      (set (record s { files = r.files }) r.key r.installation, r.error)

  abbrev install_ssh_key : Act F
  install_ssh_key s =
      install_key s.job.fields.inventory.ssh_key_id ansible_user
        (λ v. v.job.fields.inventory.ssh_key) set_ssh_key s

  abbrev install_become_key : Act F
  install_become_key s =
      install_key s.job.fields.inventory.become_key_id ansible_become_user
        (λ v. v.job.fields.inventory.become_key) set_become_key s

  abbrev install_static : Act F
  install_static s =
      let type = s.job.fields.inventory.type in
      if text_eq type static_type || text_eq type static_yaml_type
      then install_static_inventory s
      else (s, none)

  unfoldable pub install_inventory : Act F
  unfolding install_key install_static_inventory
  install_inventory = install_ssh_key >>> install_become_key >>> install_static

  unfoldable pub install_vault_key_file : Act F
  unfolding install_key
  install_vault_key_file s =
      install_key s.job.fields.template.vault_key_id ansible_password_vault
        (λ v. v.job.fields.template.vault_key) set_vault_key s

  -- The hash of the file differs from the one that was kept, or one of them cannot be read.
  unfoldable pub has_requirements_changes : Text → Text → F → Bool
  has_requirements_changes path hash_path f = elim (h.read_file hash_path f) [
    | err e ↦ true
    | ok old ↦ elim (h.md5 path f) [ err e ↦ true | ok new ↦ not (text_eq old new) ]
  ]

  unfoldable pub write_md5_hash : Text → Text → Act F
  write_md5_hash path hash_path s = elim (h.md5 path s.files) [
    | err e ↦ (s, some e)
    | ok hash ↦ call (h.write_file hash_path hash) s
  ]

  -- installRolesRequirements and installCollectionsRequirements differ in the file and in two words.
  unfoldable pub install_from : Text → Text → Text → Act F
  unfolding has_requirements_changes write_md5_hash
  install_from kind name path s = elim (stat_failure (h.stat path s.files)) [
    | some e ↦ (
      say (text "No " ++ (name ++ (text " file found. Skip galaxy install process." ++ 10 ∷ []))) s,
      none,
    )
    | none ↦
        if has_requirements_changes path (path ++ text ".md5") s.files
        then (call (h.run_galaxy (kind ∷ text "install" ∷ text "-r" ∷ path ∷ text "--force" ∷ []))
              >>> write_md5_hash path (path ++ text ".md5"))
            s
        else (
          say (name ++ (text " has no changes. Skip galaxy install process." ++ 10 ∷ [])) s,
          none,
        )
  ]

  unfoldable pub install_requirements : Act F
  unfolding install_from
  install_requirements s =
      let playbook_dir = h.dir (h.join (repo_path s ∷ s.job.fields.template.playbook ∷ [])) in
      (install_from (text "collection") (text "collections/requirements.yml")
            (h.join (playbook_dir ∷ text "collections" ∷ text "requirements.yml" ∷ []))
          >>> install_from (text "role") (text "roles/requirements.yml")
              (repo_path s ++ text "/roles/requirements.yml"))
        s

  unfoldable pub prepare_run : Act F
  unfolding check_tmp_dir prepare_repository install_inventory install_requirements
      install_vault_key_file
  prepare_run s =
      (attempt (text "Creating tmp dir failed: ") check_tmp_dir
          >>> prepare_repository
          >>> attempt (text "Failed to install inventory: ") install_inventory
          >>> attempt (text "Running galaxy failed: ") install_requirements
          >>> attempt (text "Failed to install vault password file: ") install_vault_key_file)
        (say (text "Preparing: " ++ itoa s.job.fields.task.id) s)
