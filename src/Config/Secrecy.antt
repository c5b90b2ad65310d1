-- ===== src/Config/Secrecy.antt =====
-- What an error of the validation tells of a secret (util/config.go).
use contribute_semaphore.Base.{◌≡◌, refl, Bool, true, ◌⊎◌, inl, inr, ap, ◌∙◌}
use contribute_semaphore.Base.Text.{Text}
use contribute_semaphore.Config.Settings.{
  FieldInfo, Setting, Settings, no_settings, setting, is_secret, passes, checked, shown, invalid,
  validate_settings,
}
use contribute_semaphore.Model.Store.{Result}

-- The same fields, where a secret may have another value, if that keeps to its rule or breaks it as well.
abbrev pub SameButSecrets : (Text → Text → Bool) → Settings → Settings → Type 0
SameButSecrets matches no_settings no_settings = Unit {0}
SameButSecrets matches no_settings (setting j w gs) = ⊥
SameButSecrets matches (setting i v fs) no_settings = ⊥
SameButSecrets matches (setting i v fs) (setting j w gs) =
    (i ≡ j)
    × ((v ≡ w) ⊎ ((is_secret i ≡ true) × (passes matches i v ≡ passes matches i w)))
    × SameButSecrets matches fs gs

invalid_secret : (i : FieldInfo) (s t : Text) → is_secret i ≡ true → invalid i s ≡ invalid i t
unfolding invalid
invalid_secret i s t h = rw h refl

-- Two fields that are the same, or secrets that both keep to their rule or both break it.
checked-eq :
    (matches : Text → Text → Bool) (i : FieldInfo) (v w : Setting) (rest : Result (Unit {0}))
    → (v ≡ w) ⊎ ((is_secret i ≡ true) × (passes matches i v ≡ passes matches i w))
    → checked (passes matches i v) (invalid i (shown i v)) rest
      ≡ checked (passes matches i w) (invalid i (shown i w)) rest
checked-eq matches i v w rest (inl e) =
    ap (λ z. checked (passes matches i z) (invalid i (shown i z)) rest) e
checked-eq matches i v w rest (inr (s, q)) =
    ap (λ b. checked b (invalid i (shown i v)) rest) q
    ∙ ap (λ m. checked (passes matches i w) m rest) (invalid_secret i (shown i v) (shown i w) s)

-- The outcome of the validation, its error included, tells no more of a field whose name speaks of
-- a password, a secret or a key than whether it keeps to its rule.
pub validate_settings-secrets :
    (matches : Text → Text → Bool) (fs gs : Settings)
    → SameButSecrets matches fs gs
    → validate_settings matches fs ≡ validate_settings matches gs
unfolding validate_settings
validate_settings-secrets matches no_settings no_settings h = refl
validate_settings-secrets matches no_settings (setting j w gs) h = absurd h
validate_settings-secrets matches (setting i v fs) no_settings h = absurd h
validate_settings-secrets matches (setting i v fs) (setting j w gs) (e, same, rest) =
    checked-eq matches i v w (validate_settings matches fs) same
    ∙ ap (checked (passes matches i w) (invalid i (shown i w)))
        (validate_settings-secrets matches fs gs rest)
    ∙ ap (λ k. checked (passes matches k w) (invalid k (shown k w)) (validate_settings matches gs))
        e
