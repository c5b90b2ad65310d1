-- ===== src/Tasks/Incoming.antt =====
-- Task.GetIncomingVersion (db/Task.go): the version of the build that a deployment goes back to.
pub mod Chain
use contribute_semaphore.Base.{ℕ, zero, suc, Bool, true, false, Option, some, none}
use contribute_semaphore.Base.Text.{Text}
use contribute_semaphore.Model.Store.{TaskStore, ok, err}
use contribute_semaphore.Model.Task.{Task}
use contribute_semaphore.Model.Template.{TemplateType, build}

abbrev pub is_build : TemplateType → Bool
is_build build = true
is_build _ = false

-- More than the greatest number of a task.
unfoldable pub incoming_fuel : ℕ
incoming_fuel = 2147483648

module _ {S : Type 0} (db : TaskStore S) (s : S) where
  -- One round: none when the chain ends with no version, or the version, or the next task.
  pub data Round : Type 0 where
    no_version : Round
    found : Option Text → Round
    back : Task → Round

  unfoldable pub incoming_round : Task → Round
  incoming_round t = elim t.build_task_id [
    | none ↦ no_version
    | some b ↦ elim (db.get_task t.project_id b s) [
      | err e ↦ no_version
      | ok bt ↦ elim (db.get_template t.project_id bt.template_id s) [
        | err e ↦ no_version
        | ok tpl ↦ elim (is_build tpl.type) [ true ↦ found bt.version | false ↦ back bt ]
      ]
    ]
  ]

  -- The recursion of the source, on fuel; the outer `none` says that the fuel ran out.
  unfoldable pub get_incoming_version : ℕ → Task → Option (Option Text)
  unfolding incoming_round
  get_incoming_version zero t = none
  get_incoming_version (suc fuel) t = elim (incoming_round t) [
    | no_version ↦ some none
    | found v ↦ some v
    | back bt ↦ get_incoming_version fuel bt
  ]
