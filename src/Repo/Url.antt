-- ===== src/Repo/Url.antt =====
-- What GetGitURL does to a URL (db/Repository.go).
use contribute_semaphore.Base.{
  ℕ, ◌≡◌, refl, sym, ap, ◌∙◌, ◌≢◌, inl, inr, true, false, Option, none, some, [], ◌∷◌, ◌++◌, arith,
}
use contribute_semaphore.Base.Tests.{if◌then◌else◌, Bool-cases}
use mathlib.Core.List.{append_assoc}
use contribute_semaphore.Base.Text.{Text, text, text_eq, text_eq_self, eq_of_text_eq, has_prefix}
use contribute_semaphore.Model.Resources.{
  Repository, AccessKey, AccessKeyType, ssh, no_key, login_password, other_key,
}
use contribute_semaphore.Repo.{is_word, scheme_from, get_type, auth_of, get_git_url}

-- A prefix and what stands after it.
has_prefix-split : (s p : Text) → has_prefix s p ≡ true → (rest : Text) × (s ≡ p ++ rest)
unfolding has_prefix
has_prefix-split s [] h = (s, refl)
has_prefix-split [] (b ∷ p) h = absurd (cc)
has_prefix-split (a ∷ s) (b ∷ p) h =
    let e : a ≡ b = ground arith in
    let (rest, q) = has_prefix-split s p (ground arith) in (rest, rw e (ap (◌∷◌ b) q))

middle-ne-nil : (s : Text) (c : ℕ) (t : Text) → text_eq (s ++ c ∷ t) [] ≡ false
unfolding text_eq
middle-ne-nil [] c t = refl
middle-ne-nil (a ∷ s) c t = refl

-- The scheme that is found stands in front of `://`.
scheme_from-split :
    (word s found : Text)
    → scheme_from word s ≡ some found
    → (rest : Text) × (word ++ s ≡ found ++ (text "://" ++ rest))
unfolding scheme_from
scheme_from-split word [] found h = absurd (cc)
scheme_from-split word (c ∷ s) found h = elim (Bool-cases (is_word c)) [
  | inl w ↦
      let (rest, e) = scheme_from-split (word ++ c ∷ []) s found (ground arith) in
      (rest, sym (append_assoc word (c ∷ []) s) ∙ e)
  | inr n ↦
      let p : has_prefix (c ∷ s) (text "://") ≡ true = ground arith in
      let q : word ≡ found = ground arith in
      let (rest, e) = has_prefix-split (c ∷ s) (text "://") p in
      (rest, rw q (ap (λ (z : Text). found ++ z) e))
]

https_type : (rest : Text) → get_type (text "https://" ++ rest) ≡ text "https"
unfolding get_type scheme_from has_prefix text_eq
https_type rest = refl

-- A URL whose type is `https` begins so.
https-split :
    (url : Text)
    → text_eq (get_type url) (text "https") ≡ true
    → (rest : Text) × (url ≡ text "https://" ++ rest)
unfolding get_type
https-split url h = elim (Bool-cases (has_prefix url (text "/"))) [
  | inl e ↦ absurd (unfold text_eq in ground arith)
  | inr e ↦ go e (scheme_from [] url) refl
]
  where
    go :
        has_prefix url (text "/") ≡ false
        → (o : Option Text) → scheme_from [] url ≡ o
        → (rest : Text) × (url ≡ text "https://" ++ rest)
    go f none q = absurd (unfold text_eq in ground arith)
    go f (some word) q =
        let w : word ≡ text "https" = eq_of_text_eq word (text "https") (ground arith) in
        let (rest, e) = scheme_from-split [] url word q in
        (rest, e ∙ ap (λ (z : Text). z ++ (text "://" ++ rest)) w)

-- `login:password@` for a key of a login and a password, and nothing for another.
abbrev pub userinfo : AccessKeyType → AccessKey → Text
userinfo login_password key =
    key.login_password.login ++ (b':' ∷ key.login_password.password ++ b'@' ∷ [])
userinfo _ key = []

userinfo-eq :
    (t : AccessKeyType) (key : AccessKey)
    → (if text_eq (auth_of t key) [] then auth_of t key else auth_of t key ++ b'@' ∷ [])
      ≡ userinfo t key
unfolding auth_of
userinfo-eq login_password key =
    rw (middle-ne-nil key.login_password.login b':' key.login_password.password)
      (append_assoc key.login_password.login (b':' ∷ key.login_password.password) (b'@' ∷ []))
userinfo-eq ssh key = unfold text_eq in refl
userinfo-eq no_key key = unfold text_eq in refl
userinfo-eq (other_key t) key = unfold text_eq in refl

-- GetGitURL puts the login and the password of a key of that type behind `https://`, and leaves
-- any other URL as it is.
pub url-eq :
    (r : Repository)
    → ((rest : Text)
        → r.git_url ≡ text "https://" ++ rest
        → get_git_url r ≡ text "https://" ++ (userinfo r.ssh_key.type r.ssh_key ++ rest))
      × (((rest : Text) → r.git_url ≢ text "https://" ++ rest) → get_git_url r ≡ r.git_url)
unfolding get_git_url
url-eq r = (
  λ rest e.
      ground
        (arith, https_type rest, userinfo-eq r.ssh_key.type r.ssh_key, text_eq_self (text "https")),
  λ no. elim (Bool-cases (text_eq (get_type r.git_url) (text "https"))) [
    | inl https ↦ let (rest, e) = https-split r.git_url https in absurd (no rest e)
    | inr other ↦ rw other refl
  ],
)
