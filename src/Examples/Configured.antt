-- ===== src/Examples/Configured.antt =====
-- The theorems on the configuration, at a port without a value, a limit and a password.
use contribute_semaphore.Base.{◌≡◌, refl, Bool, false, [], inr}
use contribute_semaphore.Base.Int.{pos, atoi}
use contribute_semaphore.Base.Decimal.{parse_digits}
use contribute_semaphore.Base.Text.{Text, text, text_eq, contains, has_prefix}
use contribute_semaphore.Config.Settings.{
  FieldInfo, text_setting, int_setting, group, Settings, no_settings, setting, load_defaults,
  load_default, set_config_value, cast_string_to_int, validate_settings,
}
use contribute_semaphore.Config.Loaded.{AllLoaded, load_defaults-Loaded}
use contribute_semaphore.Config.Secrecy.{validate_settings-secrets}
use contribute_semaphore.Tasks.World.{done, ◌>>=◌}

abbrev port : FieldInfo
port = record {
  name = text "Port";
  type_name = text "string";
  default_value = text ":3000";
  rule = [];
  env = text "SEMAPHORE_PORT";
}

abbrev limit : FieldInfo
limit = record {
  name = text "MaxParallelTasks";
  type_name = text "int";
  default_value = text "1";
  rule = [];
  env = [];
}

abbrev password : FieldInfo
password = record {
  name = text "EmailPassword";
  type_name = text "string";
  default_value = [];
  rule = text "^.+$";
  env = [];
}

abbrev before : Settings
before = setting port (text_setting []) (
    setting password (text_setting (text "one"))
      (setting limit (group (setting limit (int_setting (pos 0)) no_settings)) no_settings))

abbrev after : Settings
after = setting port (text_setting (text ":3000")) (
    setting password (text_setting (text "one"))
      (setting limit (group (setting limit (int_setting (pos 1)) no_settings)) no_settings))

load_defaults-Loaded_example :
    AllLoaded before after × ((load_defaults before >>= load_defaults) ≡ done after)
unfolding load_default set_config_value cast_string_to_int atoi parse_digits text_eq
load_defaults-Loaded_example = load_defaults-Loaded before after refl

-- No value keeps to its rule.
abbrev never : Text → Text → Bool
never rule s = false

validate_settings-secrets_example :
    validate_settings never (setting password (text_setting (text "one")) no_settings)
    ≡ validate_settings never (setting password (text_setting (text "two")) no_settings)
unfolding contains has_prefix text_eq
validate_settings-secrets_example =
    validate_settings-secrets never (setting password (text_setting (text "one")) no_settings)
      (setting password (text_setting (text "two")) no_settings) (refl, inr (refl, refl), tt)
