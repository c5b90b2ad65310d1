-- ===== src/Model/Task.antt =====
-- db/Task.go: a task, and a task with what its list shows of the template.
use contribute_semaphore.Base.{ℕ, Bool, Option}
use contribute_semaphore.Base.Text.{Text}
use contribute_semaphore.Model.Status.{TaskStatus}
use contribute_semaphore.Model.Template.{TemplateType}

pub record Task : Type 0 where
  pub id : ℕ
  pub template_id : ℕ
  pub project_id : ℕ
  pub status : TaskStatus
  pub debug : Bool
  pub dry_run : Bool
  pub diff : Bool
  pub playbook : Text
  pub environment : Text
  pub limit : Text
  pub user_id : Option ℕ
  pub created : ℕ
  pub start : Option ℕ
  pub end : Option ℕ
  pub message : Text
  pub commit_hash : Option Text
  pub commit_message : Text
  pub build_task_id : Option ℕ
  pub version : Option Text
  pub arguments : Option Text

pub record TaskWithTpl : Type 0 where
  pub task : Task
  pub template_playbook : Text
  pub template_alias : Text
  pub template_type : TemplateType
  pub user_name : Option Text
  pub build_task : Option Task
