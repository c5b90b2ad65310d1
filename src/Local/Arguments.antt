-- ===== src/Local/Arguments.antt =====
-- Which arguments a playbook is run with (getPlaybookArgs, services/tasks/LocalJob.go).
use contribute_semaphore.Base.{◌≡◌, false, not, Option, none, some, List, [], ◌∷◌, ◌++◌, arith}
use contribute_semaphore.Base.Text.{Text, text, text_eq}
use contribute_semaphore.Host.{Json, nil_map}
use contribute_semaphore.Local.Args.{
  LocalJob, Reply, first_args, task_args, template_args, decode_args, with_extra_vars,
  with_semaphore_vars, get_environment_extra_vars, task_details, get_playbook_args, flag,
  playbook_name, inventory_arg, user_args, become_args,
}
use contribute_semaphore.Model.Store.{Result, ok, err, Error}
use contribute_semaphore.Tasks.World.{Outcome, done, panic}

abbrev pub with_arguments : Option Text → LocalJob → LocalJob
with_arguments a j = record j {
  fields = record j.fields { task = record j.fields.task { arguments = a } };
}

abbrev pub outcome_args : Outcome Reply → Outcome (Result (List Text))
outcome_args (done r) = done r.1
outcome_args (panic m) = panic m

module _ (json : Json) (tmp_path username : Text) (version : Option Text) where
  -- Where a template does not let tasks override its arguments, the arguments of the task make no
  -- difference to those that the playbook is run with, to the log or to an error.
  pub args_not_overridden :
      (j : LocalJob) (a : Option Text)
      → j.fields.template.allow_override_args_in_task ≡ false
      → get_playbook_args json tmp_path (with_arguments a j) username version
        ≡ get_playbook_args json tmp_path j username version
  unfolding get_playbook_args first_args inventory_arg user_args become_args
      get_environment_extra_vars task_details with_extra_vars template_args task_args decode_args
  args_not_overridden j a e = ground arith

  pub extra_vars_failed :
      (j : LocalJob) (first : List Text) (e : Error)
      → first_args json tmp_path j ≡ ok first
      → get_environment_extra_vars json j username version ≡ done (err e)
      → j.fields.template.allow_override_args_in_task ≡ false
      → (j.fields.template.arguments ≡ none
          → outcome_args (get_playbook_args json tmp_path j username version) ≡ done (err e))
        × ((s : Text) (extra : List Text)
            → j.fields.template.arguments ≡ some s
            → json.decode_strings s ≡ ok extra
            → (rest : List Text) × (outcome_args
                  (get_playbook_args json tmp_path j username version)
                ≡ done (ok (first ++ (extra ++ rest)))))
  unfolding get_playbook_args with_extra_vars template_args task_args decode_args
  extra_vars_failed j first e f v o = (
    λ a. ground (arith, f, v),
    λ s extra a d. (
      flag (not (text_eq j.fields.task.limit [])) (text "--limit=" ++ j.fields.task.limit)
          ++ playbook_name j ∷ [],
      ground (arith, f, v),
    ),
  )

  pub null_environment_panics :
      (j : LocalJob) (first : List Text)
      → first_args json tmp_path j ≡ ok first
      → text_eq j.fields.environment.json [] ≡ false
      → json.decode_map j.fields.environment.json ≡ ok nil_map
      → get_playbook_args json tmp_path j username version
        ≡ panic (text "assignment to entry in nil map")
  unfolding get_playbook_args get_environment_extra_vars with_semaphore_vars
  null_environment_panics j first f n d = ground (arith, f, d)
