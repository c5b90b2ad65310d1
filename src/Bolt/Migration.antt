-- ===== src/Bolt/Migration.antt =====
-- The migrations of BoltDB (db/bolt/migration.go, migration_2_8_28.go, migration_2_8_40.go,
-- migration_2_8_91.go). A map is the list of its members, in one of the orders of a loop over it.
pub mod Applied
pub mod Retry
use contribute_semaphore.Base.{
  ◌+◌, ◌-◌, ◌/◌, Bool, true, false, not, ◌&&◌, Option, none, some, List, [], ◌∷◌, ◌++◌, map,
}
use contribute_semaphore.Base.Tests.{◌==◌, if◌then◌else◌}
use contribute_semaphore.Base.Text.{Text, text, text_eq}
use contribute_semaphore.Bolt.Database.{Bbolt}
use contribute_semaphore.Model.Store.{Result, ok, err, Error, ◌>>=◌}
use contribute_semaphore.Tasks.World.{Outcome, done, panic}

-- A value of `map[string]interface{}`: the code tells strings and `true` from the rest.
pub data JsonValue : Type 0 where
  json_string : Text → JsonValue
  json_true json_nil : JsonValue
  json_other : Text → JsonValue

abbrev pub Members : Type 0
Members = List (Text × JsonValue)

-- Package encoding/json on objects, and on a migration.
pub record MembersCodec : Type 0 where
  pub decode_members : Text → Result Members
  pub encode_members : Members → Result Text
  pub encode_migration : Text → Result Text

unfoldable pub member : Text → Members → Option JsonValue
member k [] = none
member k ((j, v) ∷ m) = if text_eq j k then some v else member k m

unfoldable pub set_value : Text → JsonValue → Members → Members
set_value k v [] = (k, v) ∷ []
set_value k v ((j, w) ∷ m) = if text_eq j k then (j, v) ∷ m else (j, w) ∷ set_value k v m

unfoldable pub delete_value : Text → Members → Members
delete_value k [] = []
delete_value k ((j, w) ∷ m) =
    let rest = delete_value k m in if text_eq j k then rest else (j, w) ∷ rest

-- strings.Split at `#`.
unfoldable pub split_hash : Text → Text → List Text
split_hash part [] = part ∷ []
split_hash part (c ∷ s) =
    let cut = part ∷ split_hash [] s in
    let longer = split_hash (part ++ c ∷ []) s in if c == b'#' then cut else longer

abbrev url_parts : List Text → Text → Text × Text
url_parts (a ∷ b ∷ rest) url = (a, b)
url_parts _ url = (url, text "master")

abbrev pub url_and_branch : Text → Text × Text
url_and_branch url = url_parts (split_hash [] url) url

-- The bodies of the three loops. A URL that is no string panics.
unfoldable pub set_branch : Members → Outcome Members
set_branch m = elim (member (text "git_url") m) [
  | some (json_string url) ↦ done (
      set_value (text "git_branch") (json_string (url_and_branch url).1)
        (set_value (text "git_url") (json_string (url_and_branch url).0) m))
  | other ↦ panic (text "interface conversion: interface is not string")
]

-- A member that is missing is read as nil.
abbrev or_nil : Option JsonValue → JsonValue
or_nil none = json_nil
or_nil (some v) = v

unfoldable pub rename_alias : Members → Outcome Members
rename_alias m =
    done
      (delete_value (text "alias") (set_value (text "name") (or_nil (member (text "alias") m)) m))

abbrev is_true : Option JsonValue → Bool
is_true (some json_true) = true
is_true _ = false

unfoldable pub set_role : Members → Outcome Members
set_role m = done (
    delete_value (text "admin") (
      set_value (text "role")
        (json_string (if is_true (member (text "admin") m) then text "owner" else text "manager"))
        m))

keys_of : List (Text × Text) → List Text
keys_of [] = []
keys_of ((k, v) ∷ rows) = k ∷ keys_of rows

abbrev pub bucket_of : Text → Text → Text
bucket_of prefix project = text "project__" ++ (prefix ++ (b'_' ∷ project))

abbrev pub migrations_bucket : Text
migrations_bucket = text "migrations"

module _ {D : Type 0} (b : Bbolt D) (codec : MembersCodec) where
  unfoldable pub get_project_ids : D → List Text
  unfolding keys_of
  get_project_ids d =
      if b.has_bucket (text "project") d then keys_of (b.cursor (text "project") d) else []

  decode_rows : List (Text × Text) → Result (List (Text × Members))
  decode_rows [] = ok []
  decode_rows ((id, body) ∷ rows) =
      codec.decode_members body >>= λ m. decode_rows rows >>= λ rest. ok ((id, m) ∷ rest)

  unfoldable pub get_raw_objects : Text → Text → D → Result (List (Text × Members))
  unfolding decode_rows
  get_raw_objects project prefix d =
      let bucket = bucket_of prefix project in
      if b.has_bucket bucket d then decode_rows (b.cursor bucket d) else ok []

  unfoldable pub set_raw_object : Text → Text → Text → Members → D → Result D
  set_raw_object project prefix id m d =
      b.create_bucket_if_not_exists (bucket_of prefix project) d >>= λ d'.
      codec.encode_members m >>= λ j. b.put (bucket_of prefix project) id j d'

  -- The first loop reads the objects of all projects.
  unfoldable pub read_projects : Text → List Text → D → Result (List (Text × List (Text × Members)))
  read_projects prefix [] d = ok []
  read_projects prefix (p ∷ ps) d =
      get_raw_objects p prefix d >>= λ os. read_projects prefix ps d >>= λ rest. ok ((p, os) ∷ rest)

  -- The second loop writes each, in a transaction of its own: what is written before an error stays.
  unfoldable pub write_objects :
      (Members → Outcome Members)
      → Text
      → Text
      → List (Text × Members)
      → D
      → Outcome (D × Option Error)
  write_objects change prefix p [] d = done (d, none)
  write_objects change prefix p ((id, m) ∷ os) d = elim (change m) [
    | panic msg ↦ panic msg
    | done m' ↦ elim (set_raw_object p prefix id m' d) [
      | err e ↦ done (d, some e)
      | ok d' ↦ write_objects change prefix p os d'
    ]
  ]

  unfoldable pub write_projects :
      (Members → Outcome Members)
      → Text
      → List (Text × List (Text × Members))
      → D
      → Outcome (D × Option Error)
  write_projects change prefix [] d = done (d, none)
  write_projects change prefix ((p, os) ∷ ps) d = elim (write_objects change prefix p os d) [
    | panic msg ↦ panic msg
    | done (d', some e) ↦ done (d', some e)
    | done (d', none) ↦ write_projects change prefix ps d'
  ]

  unfoldable pub change_objects :
      (Members → Outcome Members) → Text → D → Outcome (D × Option Error)
  change_objects change prefix d = elim (read_projects prefix (get_project_ids d) d) [
    | err e ↦ done (d, some e)
    | ok ps ↦ write_projects change prefix ps d
  ]

  -- The switch of ApplyMigration.
  unfoldable pub apply_change : Text → D → Outcome (D × Option Error)
  apply_change v d =
      if text_eq v (text "2.8.26")
      then change_objects set_branch (text "repository") d
      else if text_eq v (text "2.8.40")
      then change_objects rename_alias (text "template") d
      else if text_eq v (text "2.8.91")
      then change_objects set_role (text "user") d
      else done (d, none)

  unfoldable pub record_migration : Text → D → Result D
  record_migration v d = b.create_bucket_if_not_exists migrations_bucket d >>= λ d'.
      codec.encode_migration v >>= λ j. b.put migrations_bucket v j d'

  abbrev committed : D → Result D → D × Option Error
  committed d (ok d') = (d', none)
  committed d (err e) = (d, some e)

  unfoldable pub bolt_apply_migration : Text → D → Outcome (D × Option Error)
  bolt_apply_migration v d = elim (apply_change v d) [
    | panic msg ↦ panic msg
    | done (d', some e) ↦ done (d', some e)
    | done (d', none) ↦ done (committed d' (record_migration v d'))
  ]

  abbrev is_some : Option Text → Bool
  is_some none = false
  is_some (some v) = true

  unfoldable pub bolt_is_migration_applied : Text → D → Bool × Option Error
  bolt_is_migration_applied v d =
      (b.has_bucket migrations_bucket d && is_some (b.get migrations_bucket v d), none)
