-- ===== src/Config/Loaded.antt =====
-- Which fields take their defaults (util/config.go).
use contribute_semaphore.Base.{
  ◌≡◌, refl, Bool, true, false, not, none, some, List, [], subst, inl, inr, arith,
}
use contribute_semaphore.Base.Tests.{Bool-cases}
use contribute_semaphore.Base.Text.{Text, text_eq}
use contribute_semaphore.Config.Defaults.{defaults_again}
use contribute_semaphore.Config.Settings.{
  FieldInfo, Setting, int_setting, bool_setting, text_setting, group, table, list_setting,
  texts_setting, Settings, no_settings, setting, Rows, no_rows, row, set_config_value, is_zero,
  or_default, load_default, load_defaults, load_row_defaults,
}
use contribute_semaphore.Tasks.World.{done, ◌>>=◌, >>=-eq-done}

-- What reflect's IsZero and Kind say of a field.
abbrev pub is_unset : Setting → Bool
is_unset (int_setting n) = is_zero n
is_unset (bool_setting b) = not b
is_unset (text_setting s) = text_eq s []
is_unset (list_setting none) = true
is_unset _ = false

abbrev pub is_nested : Setting → Bool
is_nested (group fs) = true
is_nested (table rs) = true
is_nested (texts_setting m) = true
is_nested _ = false

-- A field before and after: what is set stays, what is not set takes the default of its tag, if it
-- has one, and structs and maps of structs are treated field by field.
mutual
  pub data Loaded : FieldInfo → Setting → Setting → Type 0 where
    was_set :
        (i : FieldInfo) (v : Setting) → is_nested v ≡ false → is_unset v ≡ false → Loaded i v v
    no_default :
        (i : FieldInfo) (v : Setting)
        → is_nested v ≡ false
        → is_unset v ≡ true
        → text_eq i.default_value [] ≡ true
        → Loaded i v v
    by_default :
        (i : FieldInfo) (v w : Setting)
        → is_nested v ≡ false
        → is_unset v ≡ true
        → text_eq i.default_value [] ≡ false
        → set_config_value v i.default_value ≡ done w
        → Loaded i v w
    in_group : (i : FieldInfo) (fs gs : Settings) → AllLoaded fs gs → Loaded i (group fs) (group gs)
    in_table : (i : FieldInfo) (rs qs : Rows) → RowsLoaded rs qs → Loaded i (table rs) (table qs)
    texts_kept :
        (i : FieldInfo) (m : List (Text × Text)) → Loaded i (texts_setting m) (texts_setting m)

  pub data AllLoaded : Settings → Settings → Type 0 where
    no_field : AllLoaded no_settings no_settings
    one_field :
        (i : FieldInfo) (v w : Setting) (fs gs : Settings)
        → Loaded i v w
        → AllLoaded fs gs
        → AllLoaded (setting i v fs) (setting i w gs)

  pub data RowsLoaded : Rows → Rows → Type 0 where
    no_more : RowsLoaded no_rows no_rows
    one_row :
        (k : Text) (fs gs : Settings) (rs qs : Rows)
        → AllLoaded fs gs
        → RowsLoaded rs qs
        → RowsLoaded (row k fs rs) (row k gs qs)

or_default-Loaded :
    (i : FieldInfo) (v w : Setting) (z : Bool)
    → is_nested v ≡ false
    → is_unset v ≡ z
    → or_default z v i.default_value ≡ done w
    → Loaded i v w
or_default-Loaded i v w false n u h =
    let e : v ≡ w = ground arith in subst (Loaded i v) e (was_set i v n u)
or_default-Loaded i v w true n u h = elim (Bool-cases (text_eq i.default_value [])) [
  | inl empty ↦ let e : v ≡ w = ground arith in subst (Loaded i v) e (no_default i v n u empty)
  | inr given ↦ by_default i v w n u given (ground arith)
]

mutual
  unfolding load_default

  default-Loaded : (i : FieldInfo) (v w : Setting) → load_default i v ≡ done w → Loaded i v w
  default-Loaded i (int_setting n) w h =
      or_default-Loaded i (int_setting n) w (is_zero n) refl refl h
  default-Loaded i (bool_setting true) w h =
      or_default-Loaded i (bool_setting true) w false refl refl h
  default-Loaded i (bool_setting false) w h =
      or_default-Loaded i (bool_setting false) w true refl refl h
  default-Loaded i (text_setting s) w h =
      or_default-Loaded i (text_setting s) w (text_eq s []) refl refl h
  default-Loaded i (list_setting (some l)) w h =
      or_default-Loaded i (list_setting (some l)) w false refl refl h
  default-Loaded i (list_setting none) w h =
      or_default-Loaded i (list_setting none) w true refl refl h
  default-Loaded i (texts_setting m) w h =
      let e : texts_setting m ≡ w = ground arith in
      subst (Loaded i (texts_setting m)) e (texts_kept i m)
  default-Loaded i (group fs) w h =
      >>=-eq-done (Loaded i (group fs) w) (load_defaults fs) (λ gs. done (group gs)) {b = w}
        (λ gs e f.
          let q : group gs ≡ w = ground arith in
          subst (Loaded i (group fs)) q (in_group i fs gs (defaults-Loaded fs gs e)))
        h
  default-Loaded i (table rs) w h =
      >>=-eq-done (Loaded i (table rs) w) (load_row_defaults rs) (λ qs. done (table qs)) {b = w}
        (λ qs e f.
          let q : table qs ≡ w = ground arith in
          subst (Loaded i (table rs)) q (in_table i rs qs (rows-Loaded rs qs e)))
        h

  defaults-Loaded : (fs gs : Settings) → load_defaults fs ≡ done gs → AllLoaded fs gs
  defaults-Loaded no_settings gs h =
      let e : no_settings ≡ gs = ground arith in subst (AllLoaded no_settings) e no_field
  defaults-Loaded (setting i v fs) gs h =
      >>=-eq-done (AllLoaded (setting i v fs) gs) (load_default i v)
        (λ w. load_defaults fs >>= λ hs. done (setting i w hs)) {b = gs}
        (λ w e f.
          >>=-eq-done (AllLoaded (setting i v fs) gs) (load_defaults fs)
            (λ hs. done (setting i w hs)) {b = gs}
            (λ hs d g.
              let q : setting i w hs ≡ gs = ground arith in
              subst (AllLoaded (setting i v fs)) q
                (one_field i v w fs hs (default-Loaded i v w e) (defaults-Loaded fs hs d)))
            f)
        h

  rows-Loaded : (rs qs : Rows) → load_row_defaults rs ≡ done qs → RowsLoaded rs qs
  rows-Loaded no_rows qs h =
      let e : no_rows ≡ qs = ground arith in subst (RowsLoaded no_rows) e no_more
  rows-Loaded (row k fs rs) qs h =
      >>=-eq-done (RowsLoaded (row k fs rs) qs) (load_defaults fs)
        (λ gs. load_row_defaults rs >>= λ ps. done (row k gs ps)) {b = qs}
        (λ gs e f.
          >>=-eq-done (RowsLoaded (row k fs rs) qs) (load_row_defaults rs)
            (λ ps. done (row k gs ps)) {b = qs}
            (λ ps d g.
              let q : row k gs ps ≡ qs = ground arith in
              subst (RowsLoaded (row k fs rs)) q
                (one_row k fs gs rs ps (defaults-Loaded fs gs e) (rows-Loaded rs ps d)))
            f)
        h

-- Where the defaults are loaded without a panic, each field of a struct, of a nested struct and of
-- a map of structs keeps its value if it is set or its tag has no default, and otherwise has the
-- default, converted to its type; a map of strings is left alone, and to load the defaults again
-- changes nothing.
pub load_defaults-Loaded :
    (fs gs : Settings)
    → load_defaults fs ≡ done gs
    → AllLoaded fs gs × ((load_defaults fs >>= load_defaults) ≡ done gs)
load_defaults-Loaded fs gs h = (defaults-Loaded fs gs h, rw h (defaults_again fs gs h))
