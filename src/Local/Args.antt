-- ===== src/Local/Args.antt =====
-- getEnvironmentExtraVars, getEnvironmentENV and getPlaybookArgs (services/tasks/LocalJob.go). They
-- change nothing but the log, which is the list of the messages here.
use contribute_semaphore.Base.{ℕ, Bool, true, false, not, Option, none, some, List, [], ◌∷◌, ◌++◌}
use contribute_semaphore.Base.Tests.{if◌then◌else◌}
use contribute_semaphore.Base.Decimal.{itoa}
use contribute_semaphore.Base.Text.{Text, text, text_eq}
use contribute_semaphore.Host.{Json, JsonMap, nil_map, members}
use contribute_semaphore.Keys.Install.{Installation, key_path}
use contribute_semaphore.Model.Resources.{
  AccessKeyType, ssh, no_key, login_password, other_key, Inventory,
}
use contribute_semaphore.Model.Store.{Result, ok, err, Error, failure, error_text, ◌>>=◌}
use contribute_semaphore.Model.Task.{Task}
use contribute_semaphore.Model.Template.{TemplateType, plain, build, deploy, other_type}
use contribute_semaphore.Tasks.Details.{set_member}
use contribute_semaphore.Tasks.World.{JobFields, Outcome, done, panic}

-- The struct, with the keys that it has installed.
pub record LocalJob : Type 0 where
  pub fields : JobFields
  pub ssh_key_installation : Installation
  pub become_key_installation : Installation
  pub vault_file_installation : Installation

-- db/Inventory.go
abbrev pub file_type : Text
file_type = text "file"

abbrev pub static_type : Text
static_type = text "static"

abbrev pub static_yaml_type : Text
static_yaml_type = text "static-yaml"

-- The value of a template type in JSON.
abbrev type_text : TemplateType → Text
type_text plain = []
type_text build = text "build"
type_text deploy = text "deploy"
type_text (other_type s) = s

abbrev pub inventory_path : Text → Task → Text
inventory_path tmp_path t = tmp_path ++ (text "/inventory_" ++ itoa t.id)

-- The switch on the type of the inventory.
unfoldable pub inventory_arg : Text → Task → Inventory → Option Text
inventory_arg tmp_path t i =
    if text_eq i.type file_type
    then some i.inventory
    else if text_eq i.type static_type
    then some (inventory_path tmp_path t)
    else if text_eq i.type static_yaml_type
    then some (inventory_path tmp_path t ++ text ".yml")
    else none

-- The switch on the type of the login key.
unfoldable pub user_args : Text → LocalJob → AccessKeyType → Result (List Text)
user_args tmp_path j ssh =
    let login = j.fields.inventory.ssh_key.ssh_key.login in
    if text_eq login []
    then ok []
    else ok ((text "--extra-vars={\"ansible_user\": \"" ++ (login ++ text "\"}")) ∷ [])
user_args tmp_path j login_password =
    ok ((text "--extra-vars=@" ++ key_path tmp_path j.ssh_key_installation.number) ∷ [])
user_args tmp_path j no_key = ok []
user_args tmp_path j (other_key t) =
    err (failure (text "access key does not suite for inventory's user credentials"))

unfoldable pub become_args : Text → LocalJob → AccessKeyType → Result (List Text)
become_args tmp_path j login_password =
    ok ((text "--extra-vars=@" ++ key_path tmp_path j.become_key_installation.number) ∷ [])
become_args tmp_path j no_key = ok []
become_args tmp_path j _ =
    err (failure (text "access key does not suite for inventory's sudo user credentials"))

abbrev when_key : Option ℕ → Result (List Text) → Result (List Text)
when_key none r = ok []
when_key (some id) r = r

abbrev pub flag : Bool → Text → List Text
flag true t = t ∷ []
flag false t = []

abbrev vault_args : Text → LocalJob → List Text
vault_args tmp_path j = elim j.fields.template.vault_key_id [
  | none ↦ []
  | some id ↦ text "--vault-password-file" ∷ key_path tmp_path j.vault_file_installation.number ∷ []
]

abbrev pub playbook_name : LocalJob → Text
playbook_name j =
    if text_eq j.fields.task.playbook [] then j.fields.template.playbook else j.fields.task.playbook

-- The lines of the log, and the arguments.
abbrev pub Reply : Type 0
Reply = List Text × Result (List Text)

module _ (json : Json) where
  abbrev is_plain : TemplateType → Bool
  is_plain plain = true
  is_plain _ = false

  abbrev is_build : TemplateType → Bool
  is_build build = true
  is_build _ = false

  -- A pointer to a string in JSON.
  abbrev pointer_json : Option Text → Text
  pointer_json none = text "null"
  pointer_json (some s) = json.encode_string s

  set_incoming : Option Text → List (Text × Text) → List (Text × Text)
  set_incoming none m = m
  set_incoming (some v) m = set_member (text "incoming_version") (json.encode_string v) m

  -- The members of task_details, as they are set one after the other.
  unfoldable pub task_details : LocalJob → Text → Option Text → List (Text × Text)
  unfolding set_incoming set_member
  task_details j username incoming_version =
      let t = j.fields.task in
      let tpl = j.fields.template in
      let m1 = (text "id", itoa t.id) ∷ [] in
      let m2 =
        if text_eq t.message []
        then m1
        else set_member (text "message") (json.encode_string t.message) m1 in
      let m3 = set_member (text "username") (json.encode_string username) m2 in
      if is_plain tpl.type
      then m3
      else let m4 =
          set_incoming incoming_version
            (set_member (text "type") (json.encode_string (type_text tpl.type)) m3) in
        if is_build tpl.type
        then set_member (text "target_version") (pointer_json t.version) m4
        else m4

  -- A write to the nil map panics.
  unfoldable pub with_semaphore_vars : Result Text → JsonMap → Outcome (Result Text)
  with_semaphore_vars vars nil_map = panic (text "assignment to entry in nil map")
  with_semaphore_vars vars (members m) =
      done (vars >>= λ v. json.encode_map (set_member (text "semaphore_vars") v m))

  unfoldable pub get_environment_extra_vars : LocalJob → Text → Option Text → Outcome (Result Text)
  get_environment_extra_vars j username incoming_version =
      let vars = json.encode_map (task_details j username incoming_version) >>= λ d.
      json.encode_map ((text "task_details", d) ∷ []) in
      elim (if text_eq j.fields.environment.json []
        then ok (members [])
        else json.decode_map j.fields.environment.json) [
          | err e ↦ done (err e)
          | ok m ↦ with_semaphore_vars vars m
        ]

  -- `key=value`, in the order of the map.
  abbrev assignments : List (Text × Text) → List Text
  assignments [] = []
  assignments ((k, v) ∷ m) = (k ++ (b'=' ∷ v)) ∷ assignments m

  unfoldable pub get_environment_env : LocalJob → Result (List Text)
  get_environment_env j = elim j.fields.environment.env [
    | none ↦ ok []
    | some s ↦ json.decode_string_map s >>= λ m. ok (assignments m)
  ]

  -- An error that was there is forgotten when arguments are decoded, and stays when there are none.
  unfoldable pub decode_args : Option Text → Option Error → Result (List Text × Option Error)
  decode_args none e = ok ([], e)
  decode_args (some s) e = json.decode_strings s >>= λ args. ok (args, none)

  unfoldable pub task_args : LocalJob → List Text → List Text → Option Error → List Text → Reply
  task_args j args template_args e log =
      let t = j.fields.task in
      elim (decode_args
        (if j.fields.template.allow_override_args_in_task then t.arguments else none) e) [
          | err e' ↦ (
            log ++ text "Invalid format of the TaskRunner extra arguments, must be valid JSON" ∷ [],
            err e',
          )
          | ok (extra, e') ↦
              let limit = text "--limit=" ++ t.limit in
              let limited = not (text_eq t.limit []) in
              (
                log ++ flag limited limit,
                elim e' [
                  | some x ↦ err x
                  | none ↦ ok (
                      args
                      ++ (template_args ++ ((extra ++ flag limited limit) ++ playbook_name j ∷ [])))
                ],
              )
        ]

  unfoldable pub template_args : LocalJob → List Text → Option Error → List Text → Reply
  template_args j args e log = elim (decode_args j.fields.template.arguments e) [
    | err e' ↦ (
      log ++ text "Invalid format of the template extra arguments, must be valid JSON" ∷ [],
      err e',
    )
    | ok (extra, e') ↦ task_args j args extra e' log
  ]

  -- The extra variables are left out when they cannot be made.
  unfoldable pub with_extra_vars : LocalJob → List Text → Result Text → Reply
  with_extra_vars j args (err e) = template_args j args (some e) (
      error_text e
      ∷ text
          "Could not remove command environment, if existant it will be passed to --extra-vars. This is not fatal but be aware of side effects"
      ∷ [])
  with_extra_vars j args (ok s) =
      template_args j (if text_eq s [] then args else args ++ text "--extra-vars" ∷ s ∷ []) none []

  -- What stands in front of the extra variables.
  unfoldable pub first_args : Text → LocalJob → Result (List Text)
  first_args tmp_path j =
      let t = j.fields.task in
      let i = j.fields.inventory in
      elim (inventory_arg tmp_path t i) [
        | none ↦ err (failure (text "invalid invetory type"))
        | some inventory ↦ when_key i.ssh_key_id (user_args tmp_path j i.ssh_key.type) >>= λ user.
            when_key i.become_key_id (become_args tmp_path j i.become_key.type) >>= λ become. ok (
              (text "-i" ∷ inventory ∷ user)
              ++ (become
                  ++ (flag t.debug (text "-vvvv")
                      ++ (flag t.diff (text "--diff")
                          ++ (flag t.dry_run (text "--check") ++ vault_args tmp_path j)))))
      ]

  unfoldable pub get_playbook_args : Text → LocalJob → Text → Option Text → Outcome Reply
  get_playbook_args tmp_path j username incoming_version = elim (first_args tmp_path j) [
    | err e ↦ done ([], err e)
    | ok args ↦ elim (get_environment_extra_vars j username incoming_version) [
      | panic m ↦ panic m
      | done vars ↦ done (with_extra_vars j args vars)
    ]
  ]
