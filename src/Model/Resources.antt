-- ===== src/Model/Resources.antt =====
-- What a template draws on: db/AccessKey.go, db/Inventory.go, db/Repository.go, db/Environment.go,
-- and db/Project.go, db/Schedule.go, db/Runner.go.
use contribute_semaphore.Base.{ℕ, Bool, Option}
use contribute_semaphore.Base.Text.{Text}

pub data AccessKeyType : Type 0 where
  ssh no_key login_password : AccessKeyType
  other_key : Text → AccessKeyType

pub record LoginPassword : Type 0 where
  pub login : Text
  pub password : Text

pub record SshKey : Type 0 where
  pub login : Text
  pub passphrase : Text
  pub private_key : Text

pub record AccessKey : Type 0 where
  pub id : ℕ
  pub name : Text
  pub type : AccessKeyType
  pub project_id : Option ℕ
  pub secret : Option Text
  pub login_password : LoginPassword
  pub ssh_key : SshKey
  pub override_secret : Bool

pub record Inventory : Type 0 where
  pub id : ℕ
  pub name : Text
  pub project_id : ℕ
  pub inventory : Text
  pub ssh_key_id : Option ℕ
  pub ssh_key : AccessKey
  pub become_key_id : Option ℕ
  pub become_key : AccessKey
  pub type : Text

pub record Repository : Type 0 where
  pub id : ℕ
  pub name : Text
  pub project_id : ℕ
  pub git_url : Text
  pub git_branch : Text
  pub ssh_key_id : ℕ
  pub ssh_key : AccessKey

pub record Environment : Type 0 where
  pub id : ℕ
  pub name : Text
  pub project_id : ℕ
  pub password : Option Text
  pub json : Text
  pub env : Option Text

pub record Project : Type 0 where
  pub id : ℕ
  pub name : Text
  pub created : ℕ
  pub alert : Bool
  pub alert_chat : Option Text
  pub max_parallel_tasks : ℕ

pub record Schedule : Type 0 where
  pub id : ℕ
  pub project_id : ℕ
  pub template_id : ℕ
  pub cron_format : Text
  pub repository_id : Option ℕ
  pub last_commit_hash : Option Text

pub record Runner : Type 0 where
  pub id : ℕ
  pub token : Text
  pub project_id : Option ℕ
  pub webhook : Text
  pub max_parallel_tasks : ℕ

-- db/User.go
pub record User : Type 0 where
  pub id : ℕ
  pub created : ℕ
  pub username : Text
  pub name : Text
  pub email : Text
  pub password : Text
  pub admin : Bool
  pub external : Bool
  pub alert : Bool
