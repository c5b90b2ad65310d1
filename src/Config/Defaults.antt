-- ===== src/Config/Defaults.antt =====
-- What the defaults do to a configuration that has them (util/config.go).
use contribute_semaphore.Base.{
  ◌≡◌, refl, Bool, true, false, none, some, [], Option, subst, inl, inr, arith,
}
use contribute_semaphore.Base.Tests.{Bool-cases}
use contribute_semaphore.Base.Int.{ℤ, atoi}
use contribute_semaphore.Base.Text.{Text, text_eq}
use contribute_semaphore.Config.Settings.{
  FieldInfo, Setting, int_setting, bool_setting, text_setting, group, table, list_setting,
  texts_setting, Settings, no_settings, setting, Rows, no_rows, row, cast_string_to_int,
  cast_string_to_bool, set_config_value, is_zero, load_default, load_defaults, load_row_defaults,
}
use contribute_semaphore.Tasks.World.{done, ◌>>=◌, >>=-eq-done}

-- What a default gives is kept, or is given again.
int_again :
    (i : FieldInfo) (n : ℤ) (w : Setting)
    → load_default i (int_setting n) ≡ done w
    → load_default i w ≡ done w
unfolding load_default set_config_value cast_string_to_int
int_again i n w h = elim (Bool-cases (is_zero n)) [
  | inr kept ↦ same (ground arith)
  | inl zero ↦ elim (Bool-cases (text_eq i.default_value [])) [
    | inl empty ↦ same (ground arith)
    | inr given ↦ go (atoi i.default_value) refl given zero
  ]
]
  where
    same : int_setting n ≡ w → load_default i w ≡ done w
    same e = subst (λ z. load_default i z ≡ done w) e h

    go :
        (o : Option ℤ)
        → atoi i.default_value ≡ o
        → text_eq i.default_value [] ≡ false
        → is_zero n ≡ true
        → load_default i w ≡ done w
    go none e given zero = absurd (ground arith)
    go (some m) e given zero =
        let made : int_setting m ≡ w = ground arith in
        subst (λ z. load_default i z ≡ done z) made (ground arith)

bool_again :
    (i : FieldInfo) (b : Bool) (w : Setting)
    → load_default i (bool_setting b) ≡ done w
    → load_default i w ≡ done w
unfolding load_default set_config_value
bool_again i true w h =
    let e : bool_setting true ≡ w = ground arith in subst (λ z. load_default i z ≡ done z) e refl
bool_again i false w h = elim (Bool-cases (text_eq i.default_value [])) [
  | inl empty ↦
      let e : bool_setting false ≡ w = ground arith in
      subst (λ z. load_default i z ≡ done z) e (ground arith)
  | inr given ↦
      let e : bool_setting (cast_string_to_bool i.default_value) ≡ w = ground arith in
      subst (λ z. load_default i z ≡ done z) e
        (known (cast_string_to_bool i.default_value) refl given)
]
  where
    known :
        (c : Bool)
        → cast_string_to_bool i.default_value ≡ c
        → text_eq i.default_value [] ≡ false
        → load_default i (bool_setting c) ≡ done (bool_setting c)
    known true q given = refl
    known false q given = ground arith

text_again :
    (i : FieldInfo) (s : Text) (w : Setting)
    → load_default i (text_setting s) ≡ done w
    → load_default i w ≡ done w
unfolding load_default set_config_value
text_again i s w h = elim (Bool-cases (text_eq s [])) [
  | inr kept ↦ same (ground arith)
  | inl zero ↦ elim (Bool-cases (text_eq i.default_value [])) [
    | inl empty ↦ same (ground arith)
    | inr given ↦
        let e : text_setting i.default_value ≡ w = ground arith in
        subst (λ z. load_default i z ≡ done z) e (ground arith)
  ]
]
  where
    same : text_setting s ≡ w → load_default i w ≡ done w
    same e = subst (λ z. load_default i z ≡ done w) e h

list_again :
    (i : FieldInfo) (w : Setting)
    → load_default i (list_setting none) ≡ done w
    → load_default i w ≡ done w
unfolding load_default set_config_value
list_again i w h = elim (Bool-cases (text_eq i.default_value [])) [
  | inl empty ↦
      let e : list_setting none ≡ w = ground arith in subst (λ z. load_default i z ≡ done w) e h
  | inr given ↦ absurd (ground arith)
]

mutual
  unfolding load_default

  default_again :
      (i : FieldInfo) (v w : Setting) → load_default i v ≡ done w → load_default i w ≡ done w
  default_again i (int_setting n) w h = int_again i n w h
  default_again i (bool_setting b) w h = bool_again i b w h
  default_again i (text_setting s) w h = text_again i s w h
  default_again i (list_setting (some l)) w h =
      let e : list_setting (some l) ≡ w = ground arith in
      subst (λ z. load_default i z ≡ done z) e refl
  default_again i (list_setting none) w h = list_again i w h
  default_again i (texts_setting m) w h =
      let e : texts_setting m ≡ w = ground arith in subst (λ z. load_default i z ≡ done z) e refl
  default_again i (group fs) w h =
      >>=-eq-done (load_default i w ≡ done w) (load_defaults fs) (λ gs. done (group gs)) {b = w}
        (λ gs e f.
          let q : group gs ≡ w = ground arith in
          subst (λ z. load_default i z ≡ done z) q (ground (arith, defaults_again fs gs e)))
        h
  default_again i (table rs) w h =
      >>=-eq-done (load_default i w ≡ done w) (load_row_defaults rs) (λ qs. done (table qs)) {b = w}
        (λ qs e f.
          let q : table qs ≡ w = ground arith in
          subst (λ z. load_default i z ≡ done z) q (ground (arith, rows_again rs qs e)))
        h

  pub defaults_again : (fs gs : Settings) → load_defaults fs ≡ done gs → load_defaults gs ≡ done gs
  defaults_again no_settings gs h =
      let e : no_settings ≡ gs = ground arith in subst (λ z. load_defaults z ≡ done z) e refl
  defaults_again (setting i v fs) gs h =
      >>=-eq-done (load_defaults gs ≡ done gs) (load_default i v)
        (λ w. load_defaults fs >>= λ hs. done (setting i w hs)) {b = gs}
        (λ w e f.
          >>=-eq-done (load_defaults gs ≡ done gs) (load_defaults fs) (λ hs. done (setting i w hs))
            {b = gs}
            (λ hs d g.
              let q : setting i w hs ≡ gs = ground arith in
              subst (λ z. load_defaults z ≡ done z) q
                (ground (arith, default_again i v w e, defaults_again fs hs d)))
            f)
        h

  rows_again : (rs qs : Rows) → load_row_defaults rs ≡ done qs → load_row_defaults qs ≡ done qs
  rows_again no_rows qs h =
      let e : no_rows ≡ qs = ground arith in subst (λ z. load_row_defaults z ≡ done z) e refl
  rows_again (row k fs rs) qs h =
      >>=-eq-done (load_row_defaults qs ≡ done qs) (load_defaults fs)
        (λ gs. load_row_defaults rs >>= λ ps. done (row k gs ps)) {b = qs}
        (λ gs e f.
          >>=-eq-done (load_row_defaults qs ≡ done qs) (load_row_defaults rs)
            (λ ps. done (row k gs ps)) {b = qs}
            (λ ps d g.
              let q : row k gs ps ≡ qs = ground arith in
              subst (λ z. load_row_defaults z ≡ done z) q
                (ground (arith, defaults_again fs gs e, rows_again rs ps d)))
            f)
        h
