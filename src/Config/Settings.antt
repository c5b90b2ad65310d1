-- ===== src/Config/Settings.antt =====
-- The loops over the fields of the configuration (util/config.go): a struct is its fields, with the tags
-- that the loops read.
use contribute_semaphore.Base.{Bool, true, false, ◌||◌, Option, none, some, List, [], ◌∷◌, ◌++◌}
use contribute_semaphore.Base.Tests.{◌==◌, if◌then◌else◌}
use contribute_semaphore.Base.Int.{ℤ, pos, negsuc, atoi, int_text}
use contribute_semaphore.Base.Text.{Text, text, text_eq, to_lower, contains}
use contribute_semaphore.Model.Store.{Result, ok, err, failure, error_text}
use contribute_semaphore.Tasks.World.{Outcome, done, panic, ◌>>=◌}

-- A field's name, the name of its type, and its tags `default`, `rule` and `env`; a tag that is missing
-- is empty.
pub record FieldInfo : Type 0 where
  pub name : Text
  pub type_name : Text
  pub default_value : Text
  pub rule : Text
  pub env : Text

-- `table` is a map of structs, `list_setting` a slice of strings, which may be nil, and
-- `texts_setting` a map of strings.
mutual
  pub data Setting : Type 0 where
    int_setting : ℤ → Setting
    bool_setting : Bool → Setting
    text_setting : Text → Setting
    group : Settings → Setting
    table : Rows → Setting
    list_setting : Option (List Text) → Setting
    texts_setting : List (Text × Text) → Setting

  pub data Settings : Type 0 where
    no_settings : Settings
    setting : FieldInfo → Setting → Settings → Settings

  pub data Rows : Type 0 where
    no_rows : Rows
    row : Text → Settings → Rows → Rows

unfoldable pub cast_string_to_int : Text → Outcome ℤ
cast_string_to_int s = elim (atoi s) [
  | none ↦ panic (text "strconv.Atoi: invalid syntax")
  | some n ↦ done n
]

unfoldable pub cast_string_to_bool : Text → Bool
cast_string_to_bool s =
    text_eq s (text "1")
    || (text_eq (to_lower s) (text "true") || text_eq (to_lower s) (text "yes"))

-- A text in a field that is neither a number nor a Boolean nor a text panics.
unfoldable pub set_config_value : Setting → Text → Outcome Setting
unfolding cast_string_to_int cast_string_to_bool
set_config_value (int_setting n) s = cast_string_to_int s >>= λ m. done (int_setting m)
set_config_value (bool_setting b) s = done (bool_setting (cast_string_to_bool s))
set_config_value (text_setting t) s = done (text_setting s)
set_config_value _ s = panic (text "reflect.Set: value of type string is not assignable")

abbrev pub or_default : Bool → Setting → Text → Outcome Setting
or_default true v s = if text_eq s [] then done v else set_config_value v s
or_default false v s = done v

abbrev pub is_zero : ℤ → Bool
is_zero (pos n) = n == 0
is_zero (negsuc n) = false

-- loadDefaultsToObject
unfoldable mutual
  pub load_default : FieldInfo → Setting → Outcome Setting
  load_default i (int_setting n) = or_default (is_zero n) (int_setting n) i.default_value
  load_default i (bool_setting true) = done (bool_setting true)
  load_default i (bool_setting false) = or_default true (bool_setting false) i.default_value
  load_default i (text_setting s) = or_default (text_eq s []) (text_setting s) i.default_value
  load_default i (group fs) = load_defaults fs >>= λ gs. done (group gs)
  load_default i (table rs) = load_row_defaults rs >>= λ qs. done (table qs)
  load_default i (list_setting (some l)) = done (list_setting (some l))
  load_default i (list_setting none) = or_default true (list_setting none) i.default_value
  load_default i (texts_setting m) = done (texts_setting m)

  pub load_defaults : Settings → Outcome Settings
  load_defaults no_settings = done no_settings
  load_defaults (setting i v fs) =
      load_default i v >>= λ w. load_defaults fs >>= λ gs. done (setting i w gs)

  pub load_row_defaults : Rows → Outcome Rows
  load_row_defaults no_rows = done no_rows
  load_row_defaults (row k fs rs) =
      load_defaults fs >>= λ gs. load_row_defaults rs >>= λ qs. done (row k gs qs)

-- loadEnvironmentToObject, where `lookup_env` is os.LookupEnv.
abbrev from_env : (Text → Option Text) → FieldInfo → Setting → Outcome Setting
from_env lookup_env i v =
    if text_eq i.env []
    then done v
    else elim (lookup_env i.env) [ none ↦ done v | some s ↦ set_config_value v s ]

unfoldable mutual
  pub load_env_field : (Text → Option Text) → FieldInfo → Setting → Outcome Setting
  load_env_field lookup_env i (group fs) = load_environment lookup_env fs >>= λ gs. done (group gs)
  load_env_field lookup_env i v = from_env lookup_env i v

  pub load_environment : (Text → Option Text) → Settings → Outcome Settings
  load_environment lookup_env no_settings = done no_settings
  load_environment lookup_env (setting i v fs) = load_env_field lookup_env i v >>= λ w.
      load_environment lookup_env fs >>= λ gs. done (setting i w gs)

-- What validate reads of a field: reflect's String gives the type of what is no string.
abbrev pub shown : FieldInfo → Setting → Text
shown i (int_setting n) = int_text n
shown i (text_setting s) = s
shown i _ = b'<' ∷ i.type_name ++ text " Value>"

abbrev pub is_secret : FieldInfo → Bool
is_secret i =
    contains (to_lower i.name) (text "password")
    || (contains (to_lower i.name) (text "secret") || contains (to_lower i.name) (text "key"))

unfoldable pub invalid : FieldInfo → Text → Text
invalid i s =
    text "value of field '"
    ++ (i.name
        ++ (text "' is not valid: "
            ++ ((if is_secret i then text "***" else s)
                ++ (text " (Must match regex: '" ++ (i.rule ++ text "')")))))

-- `matches` is regexp.MatchString, whose error counts as no match.
abbrev pub passes : (Text → Text → Bool) → FieldInfo → Setting → Bool
passes matches i v = text_eq i.rule [] || matches i.rule (shown i v)

abbrev pub checked : Bool → Text → Result (Unit {0}) → Result (Unit {0})
checked true msg rest = rest
checked false msg rest = err (failure msg)

-- The fields of nested structs are not validated.
unfoldable pub validate_settings : (Text → Text → Bool) → Settings → Result (Unit {0})
validate_settings matches no_settings = ok tt
validate_settings matches (setting i v fs) =
    checked (passes matches i v) (invalid i (shown i v)) (validate_settings matches fs)

-- ConfigInit, from the decoded file to the validation.
unfoldable pub config_init :
    (Text → Option Text) → (Text → Text → Bool) → Settings → Outcome Settings
config_init lookup_env matches fs = load_environment lookup_env fs >>= load_defaults >>= λ gs.
    elim (validate_settings matches gs) [ ok u ↦ done gs | err e ↦ panic (error_text e) ]
