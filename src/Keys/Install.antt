-- ===== src/Keys/Install.antt =====
-- Install and Destroy of access keys (db/AccessKey.go).
use contribute_semaphore.Base.{ℕ, Bool, true, false, Option, none, some, [], ◌∷◌, ◌++◌}
use contribute_semaphore.Base.Tests.{if◌then◌else◌}
use contribute_semaphore.Base.Decimal.{itoa}
use contribute_semaphore.Base.Text.{Text, text}
use contribute_semaphore.Host.{Host, Json, missing, Call}
use contribute_semaphore.Model.Resources.{AccessKey, AccessKeyType, ssh, no_key, login_password}
use contribute_semaphore.Model.Store.{Result, ok, err, Error, failure}

pub data AccessKeyRole : Type 0 where
  ansible_user ansible_become_user ansible_password_vault git : AccessKeyRole

-- An agent is named by its socket.
pub record Installation : Type 0 where
  pub number : ℕ
  pub agent : Option Text

-- What Install comes to: the key is opened in place.
pub record Installed (F : Type 0) : Type 0 where
  pub files : F
  pub key : AccessKey
  pub installation : Installation
  pub error : Option Error

-- The zero value of the struct.
abbrev pub no_installation : Installation
no_installation = record { number = 0; agent = none }

unfoldable pub key_path : Text → ℕ → Text
key_path tmp_path n = tmp_path ++ (text "/access_key_" ++ itoa n)

module _ {F : Type 0} (h : Host F) (tmp_path : Text) where
  unfoldable pub destroy : Installation → Call F
  destroy i f = elim i.agent [
    | some socket ↦ h.close_agent socket f
    | none ↦ elim (h.stat (key_path tmp_path i.number) f) [
      | missing ↦ (f, none)
      | other ↦ h.remove (key_path tmp_path i.number) f
    ]
  ]

module _ {F : Type 0} (h : Host F) (json : Json) (deserialize : AccessKey → Result AccessKey)
    (tmp_path : Text) where
  unfoldable pub socket_file : AccessKey → F → Text
  socket_file key f = h.join (
      tmp_path
      ∷ (text "ssh-agent-" ++ (itoa key.id ++ (b'-' ∷ itoa (h.now f) ++ text ".sock")))
      ∷ [])

  -- startSshAgent; the agent is kept whether it listens or not.
  unfoldable pub start_agent : AccessKey → ℕ → F → Installed F
  unfolding socket_file
  start_agent key n f =
      let socket = socket_file key f in
      let (f', e) = h.listen socket key.ssh_key.private_key key.ssh_key.passphrase f in
      record {
        files = f';
        key = key;
        installation = record { number = n; agent = some socket };
        error = e;
      }

  abbrev finished : AccessKey → ℕ → F → Option Error → Installed F
  finished key n f e = record {
    files = f;
    key = key;
    installation = record { number = n; agent = none };
    error = e;
  }

  unfoldable pub write_key : AccessKey → Result Text → ℕ → F → Installed F
  write_key key (err e) n f = finished key n f (some e)
  write_key key (ok s) n f =
      let (f', e) = h.write_file (key_path tmp_path n) s f in finished key n f' e

  abbrev credentials : Text → Text → AccessKey → Result Text
  credentials user password key =
      json.encode_string_map
        ((user, key.login_password.login) ∷ (password, key.login_password.password) ∷ [])

  -- The two switches; a key that a role has no case for is left out, or refused.
  unfoldable pub install_opened : AccessKeyRole → AccessKeyType → AccessKey → ℕ → F → Installed F
  unfolding start_agent write_key
  install_opened git ssh key n f = start_agent key n f
  install_opened git _ key n f = finished key n f none
  install_opened ansible_password_vault login_password key n f =
      write_key key (ok key.login_password.password) n f
  install_opened ansible_password_vault _ key n f = finished key n f none
  install_opened ansible_become_user login_password key n f =
      write_key key (credentials (text "ansible_become_user") (text "ansible_become_password") key)
        n f
  install_opened ansible_become_user _ key n f =
      finished key n f (some (failure (text "access key type not supported for ansible user")))
  install_opened ansible_user ssh key n f = start_agent key n f
  install_opened ansible_user login_password key n f =
      write_key key (credentials (text "ansible_user") (text "ansible_password") key) n f
  install_opened ansible_user _ key n f =
      finished key n f (some (failure (text "access key type not supported for ansible user")))

  unfoldable pub open_and_install : AccessKeyRole → AccessKey → ℕ → F → Installed F
  unfolding install_opened
  open_and_install role key n f = elim (deserialize key) [
    | err e ↦ finished key n f (some e)
    | ok k ↦ install_opened role k.type k n f
  ]

  abbrev is_none : AccessKeyType → Bool
  is_none no_key = true
  is_none _ = false

  unfoldable pub install : AccessKeyRole → AccessKey → F → Installed F
  unfolding open_and_install
  install role key f =
      let (f', r) = h.random_int 1000000000 f in
      elim r [
        | err e ↦ finished key 0 f' (some e)
        | ok n ↦ if is_none key.type then finished key n f' none else open_and_install role key n f'
      ]
