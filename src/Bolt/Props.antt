-- ===== src/Bolt/Props.antt =====
-- ObjectProps and the props of the tables (db/Store.go), with the `db` tags of the stored types.
use contribute_semaphore.Base.{Bool, true, false, List, [], ◌∷◌, map}
use contribute_semaphore.Base.Tests.{if◌then◌else◌}
use contribute_semaphore.Base.Text.{Text, text}

pub record ObjectProps : Type 0 where
  pub table_name : Text
  pub type : List Text
  pub is_global : Bool
  pub primary_column_name : Text
  pub referring_column_suffix : Text
  pub sortable_columns : List Text
  pub sort_inverted : Bool

abbrev pub environment_tags : List Text
environment_tags = map text ("id" ∷ "name" ∷ "project_id" ∷ "password" ∷ "json" ∷ "env" ∷ [])

abbrev pub inventory_tags : List Text
inventory_tags =
    map text
      ("id" ∷ "name" ∷ "project_id" ∷ "inventory" ∷ "ssh_key_id" ∷ "become_key_id" ∷ "type" ∷ [])

abbrev pub repository_tags : List Text
repository_tags =
    map text ("id" ∷ "name" ∷ "project_id" ∷ "git_url" ∷ "git_branch" ∷ "ssh_key_id" ∷ [])

abbrev pub template_tags : List Text
template_tags = map text (
    "id" ∷ "project_id" ∷ "inventory_id" ∷ "repository_id" ∷ "environment_id" ∷ "name" ∷ "playbook"
    ∷ "arguments" ∷ "allow_override_args_in_task" ∷ "description" ∷ "vault_key_id" ∷ "type"
    ∷ "start_version" ∷ "build_template_id" ∷ "view_id" ∷ "autorun" ∷ "survey_vars"
    ∷ "suppress_success_alerts" ∷ [])

abbrev pub access_key_tags : List Text
access_key_tags = map text ("id" ∷ "name" ∷ "type" ∷ "project_id" ∷ "secret" ∷ [])

abbrev pub task_tags : List Text
task_tags = map text (
    "id" ∷ "template_id" ∷ "project_id" ∷ "status" ∷ "debug" ∷ "dry_run" ∷ "diff" ∷ "playbook"
    ∷ "environment" ∷ "hosts_limit" ∷ "user_id" ∷ "created" ∷ "start" ∷ "end" ∷ "message"
    ∷ "commit_hash" ∷ "commit_message" ∷ "build_task_id" ∷ "version" ∷ "arguments" ∷ [])

abbrev pub access_key_props : ObjectProps
access_key_props = record {
  table_name = text "access_key";
  type = access_key_tags;
  is_global = false;
  primary_column_name = text "id";
  referring_column_suffix = text "key_id";
  sortable_columns = text "name" ∷ text "type" ∷ [];
  sort_inverted = false;
}

abbrev pub environment_props : ObjectProps
environment_props = record {
  table_name = text "project__environment";
  type = environment_tags;
  is_global = false;
  primary_column_name = text "id";
  referring_column_suffix = text "environment_id";
  sortable_columns = text "name" ∷ [];
  sort_inverted = false;
}

abbrev pub inventory_props : ObjectProps
inventory_props = record {
  table_name = text "project__inventory";
  type = inventory_tags;
  is_global = false;
  primary_column_name = text "id";
  referring_column_suffix = text "inventory_id";
  sortable_columns = text "name" ∷ [];
  sort_inverted = false;
}

abbrev pub repository_props : ObjectProps
repository_props = record {
  table_name = text "project__repository";
  type = repository_tags;
  is_global = false;
  primary_column_name = text "id";
  referring_column_suffix = text "repository_id";
  sortable_columns = [];
  sort_inverted = false;
}

abbrev pub template_props : ObjectProps
template_props = record {
  table_name = text "project__template";
  type = template_tags;
  is_global = false;
  primary_column_name = text "id";
  referring_column_suffix = text "template_id";
  sortable_columns = text "name" ∷ [];
  sort_inverted = false;
}

abbrev pub task_props : ObjectProps
task_props = record {
  table_name = text "task";
  type = task_tags;
  is_global = true;
  primary_column_name = text "id";
  referring_column_suffix = [];
  sortable_columns = [];
  sort_inverted = true;
}

-- GetReferringFieldsFrom, on the tags of a type.
unfoldable pub referring_fields : (Text → Text → Bool) → Text → List Text → List Text
referring_fields ends suffix [] = []
referring_fields ends suffix (tag ∷ tags) =
    let rest = referring_fields ends suffix tags in if ends tag suffix then tag ∷ rest else rest
