-- ===== src/Model/Template.antt =====
-- db/Template.go. The last task of a template is left out: it is filled in for the API's lists
-- and nothing of the task service reads it.
use contribute_semaphore.Base.{ℕ, Bool, List, Option}
use contribute_semaphore.Base.Text.{Text}
use contribute_semaphore.Model.Resources.{AccessKey}

pub data TemplateType : Type 0 where
  plain build deploy : TemplateType
  other_type : Text → TemplateType

pub record SurveyVar : Type 0 where
  pub name : Text
  pub title : Text
  pub required : Bool
  pub type : Text
  pub description : Text

pub record TemplateFilter : Type 0 where
  pub view_id : Option ℕ
  pub build_template_id : Option ℕ
  pub autorun_only : Bool

pub record Template : Type 0 where
  pub id : ℕ
  pub project_id : ℕ
  pub inventory_id : ℕ
  pub repository_id : ℕ
  pub environment_id : Option ℕ
  pub name : Text
  pub playbook : Text
  pub arguments : Option Text
  pub allow_override_args_in_task : Bool
  pub description : Option Text
  pub vault_key_id : Option ℕ
  pub vault_key : AccessKey
  pub type : TemplateType
  pub start_version : Option Text
  pub build_template_id : Option ℕ
  pub view_id : Option ℕ
  pub autorun : Bool
  pub survey_vars_json : Option Text
  pub survey_vars : List SurveyVar
  pub suppress_success_alerts : Bool
