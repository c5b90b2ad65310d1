-- ===== src/Host.antt =====
-- What the program asks of the operating system, of git, of Ansible and of package encoding/json: the
-- files and processes are a state of any type, and a call gives the new state with its error, if any.
use contribute_semaphore.Base.{ℕ, ◌≡◌, Bool, false, Option, none, List}
use contribute_semaphore.Base.Text.{Text}
use contribute_semaphore.Model.Resources.{Repository}
use contribute_semaphore.Model.Store.{Result, Error}

-- os.Stat; the code tells a file that does not exist from other errors.
pub data Stat : Type 0 where
  present missing : Stat
  stat_error : Error → Stat

-- `json.Unmarshal` into a map: the text `null` makes it the nil map.
pub data JsonMap : Type 0 where
  nil_map : JsonMap
  members : List (Text × Text) → JsonMap

pub record Json : Type 0 where
  pub decode_map : Text → Result JsonMap
  pub decode_string_map : Text → Result (List (Text × Text))
  pub decode_strings : Text → Result (List Text)
  pub encode_map : List (Text × Text) → Result Text
  pub encode_string : Text → Text
  pub encode_string_map : List (Text × Text) → Result Text

abbrev pub Call : Type 0 → Type 0
Call F = F → F × Option Error

pub record Host (F : Type 0) : Type 0 where
  pub stat : Text → F → Stat
  pub read_file : Text → F → Result Text
  pub md5 : Text → F → Result Text
  pub write_file : Text → Text → Call F
  pub remove : Text → Call F
  pub remove_all : Text → Call F
  pub mkdir_all : Text → Call F
  pub random_int : ℕ → F → F × Result ℕ
  pub now : F → ℕ
  -- lib.SshAgent: the socket, the private key and its passphrase.
  pub listening : Text → F → Bool
  pub listen : Text → Text → Text → Call F
  pub close_agent : Text → Call F
  -- The git client (db_lib/GitRepository.go), on a template's copy of a repository.
  pub clone : ℕ → Repository → Call F
  pub pull : ℕ → Repository → Call F
  pub checkout : ℕ → Repository → Text → Call F
  pub can_be_pulled : ℕ → Repository → F → F × Bool
  -- The commands of db_lib/AnsiblePlaybook.go: arguments, and variables of the environment.
  pub run_galaxy : List Text → Call F
  pub run_playbook : List Text → List Text → Call F
  -- path.Join and path.Dir
  pub join : List Text → Text
  pub dir : Text → Text

-- A file that is removed is missing and an agent that is closed does not listen; to remove a file or to
-- close an agent makes no file and no agent.
pub record HostLaws {F : Type 0} (h : Host F) : Type 0 where
  pub stat-remove_self :
      (path : Text) (f : F) → (h.remove path f).1 ≡ none → h.stat path (h.remove path f).0 ≡ missing
  pub stat-remove :
      (path other : Text) (f : F)
      → h.stat other f ≡ missing
      → h.stat other (h.remove path f).0 ≡ missing
  pub stat-close_agent :
      (socket other : Text) (f : F)
      → h.stat other f ≡ missing
      → h.stat other (h.close_agent socket f).0 ≡ missing
  pub listening-close_self :
      (socket : Text) (f : F)
      → (h.close_agent socket f).1 ≡ none
      → h.listening socket (h.close_agent socket f).0 ≡ false
  pub listening-close :
      (socket other : Text) (f : F)
      → h.listening other f ≡ false
      → h.listening other (h.close_agent socket f).0 ≡ false
  pub listening-remove :
      (path socket : Text) (f : F)
      → h.listening socket f ≡ false
      → h.listening socket (h.remove path f).0 ≡ false
