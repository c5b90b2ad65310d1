-- ===== src/Local/Job.antt =====
-- LocalJob.Run and destroyKeys (services/tasks/LocalJob.go, services/tasks/LobalJob_inventory.go).
use contribute_semaphore.Base.{ℕ, Option, none, some, List, [], ◌∷◌, ◌++◌}
use contribute_semaphore.Base.Text.{Text, text}
use contribute_semaphore.Host.{Host, Json}
use contribute_semaphore.Keys.Install.{Installation, destroy}
use contribute_semaphore.Local.Args.{get_playbook_args, get_environment_env, Reply}
use contribute_semaphore.Local.Prepare.{LocalState, say, call, prepare_run}
use contribute_semaphore.Model.Resources.{AccessKey, AccessKeyType, ssh}
use contribute_semaphore.Model.Status.{running}
use contribute_semaphore.Model.Store.{Result, ok, err, Error, error_text}
use contribute_semaphore.Tasks.World.{Outcome, done, panic}

-- How a run ends: with the error that it returns, or by a panic, after the deferred calls.
pub data Ended : Type 0 where
  returned : Option Error → Ended
  panicked : Text → Ended

module _ {F : Type 0} (h : Host F) (json : Json) (deserialize : AccessKey → Result AccessKey)
    (tmp_path : Text) where
  -- An error of Destroy is logged.
  unfoldable pub destroy_key : Text → (LocalState F → Installation) → LocalState F → LocalState F
  destroy_key msg get s =
      let (s', e) = call (destroy h tmp_path (get s)) s in
      elim e [ none ↦ s' | some x ↦ say (msg ++ error_text x) s' ]

  unfoldable pub destroy_keys : LocalState F → LocalState F
  destroy_keys s =
      destroy_key (text "Can't destroy inventory vault password file, error: ")
        (λ v. v.job.vault_file_installation)
        (destroy_key (text "Can't destroy inventory become user key, error: ")
          (λ v. v.job.become_key_installation)
          (destroy_key (text "Can't destroy inventory user key, error: ")
            (λ v. v.job.ssh_key_installation) s))

  -- SSH_AUTH_SOCK, for a login key of type ssh; an installation without an agent is a nil pointer.
  unfoldable pub agent_env : Option ℕ → AccessKeyType → Installation → Outcome (List Text)
  agent_env (some id) ssh i = elim i.agent [
    | none ↦ panic (text "invalid memory address or nil pointer dereference")
    | some socket ↦ done ((text "SSH_AUTH_SOCK=" ++ socket) ∷ [])
  ]
  agent_env _ _ i = done []

  unfoldable pub play : List Text → List Text → LocalState F → LocalState F × Ended
  play args env s =
      elim (agent_env s.job.fields.inventory.ssh_key_id s.job.fields.inventory.ssh_key.type
        s.job.ssh_key_installation) [
          | panic m ↦ (s, panicked m)
          | done agent ↦
              let (s', e) = call (h.run_playbook args (env ++ agent)) s in (s', returned e)
        ]

  unfoldable pub with_args : Reply → LocalState F → LocalState F × Ended
  unfolding play agent_env
  with_args (log, err e) s = (record s { log = s.log ++ log }, returned (some e))
  with_args (log, ok args) s = elim (get_environment_env json s.job) [
    | err e ↦ (record s { log = s.log ++ log }, returned (some e))
    | ok env ↦ play args env (record s { log = s.log ++ log })
  ]

  -- What Run does between the preparation and the deferred call.
  unfoldable pub run_prepared : Text → Option Text → LocalState F → LocalState F × Ended
  unfolding with_args
  run_prepared username incoming_version s =
      elim (get_playbook_args json tmp_path s.job username incoming_version) [
        | panic m ↦ (s, panicked m)
        | done reply ↦ with_args reply s
      ]

  -- The keys are destroyed by a deferred call, which is set up once the preparation has succeeded.
  unfoldable pub run_local : Text → Option Text → LocalState F → LocalState F × Ended
  unfolding run_prepared destroy_keys
  run_local username incoming_version s =
      let (s', e) =
        prepare_run h json deserialize tmp_path
          (record s { statuses = s.statuses ++ running ∷ [] }) in
      elim e [
        | some x ↦ (s', returned (some x))
        | none ↦
            let (s'', ended) = run_prepared username incoming_version s' in
            (destroy_keys s'', ended)
      ]
