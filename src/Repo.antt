-- ===== src/Repo.antt =====
-- Repositories: db/Repository.go. A slice beyond the end of a string, which panics in Go, is cut at its
-- end here.
pub mod Url
pub mod Cache
use contribute_semaphore.Base.{
  ℕ, ◌+◌, ◌-◌, ◌/◌, ◌^◌, Bool, true, false, not, ◌&&◌, ◌||◌, Option, none, some, List, [], ◌∷◌,
  ◌++◌,
}
use contribute_semaphore.Base.Tests.{leb, ◌==◌, if◌then◌else◌}
use contribute_semaphore.Base.Decimal.{itoa}
use contribute_semaphore.Base.Lists.{drop}
use contribute_semaphore.Base.Text.{Text, text, text_eq, has_prefix}
use contribute_semaphore.Host.{Host, Call}
use contribute_semaphore.Model.Resources.{Repository, AccessKey, AccessKeyType, ssh, login_password}
use contribute_semaphore.Model.Store.{Result, ok, err, validation}

-- The class \w of the regular expression.
abbrev pub is_word : ℕ → Bool
is_word c =
    (leb b'0' c && leb c b'9')
    || ((leb b'a' c && leb c b'z') || ((leb b'A' c && leb c b'Z') || c == b'_'))

-- The group of `^(\w+)://`, whose greedy repetition ends before the colon.
unfoldable pub scheme_from : Text → Text → Option Text
scheme_from word [] = none
scheme_from word (c ∷ s) =
    let rest = scheme_from (word ++ c ∷ []) s in
    if is_word c
    then rest
    else if has_prefix (c ∷ s) (text "://") && not (text_eq word [])
    then some word
    else none

-- GetType: `local`, the scheme of the URL, or `ssh`.
unfoldable pub get_type : Text → Text
unfolding scheme_from has_prefix
get_type url =
    if has_prefix url (text "/")
    then text "local"
    else elim (scheme_from [] url) [ none ↦ text "ssh" | some word ↦ word ]

abbrev pub is_local : Repository → Bool
is_local r = text_eq (get_type r.git_url) (text "local")

unfoldable pub auth_of : AccessKeyType → AccessKey → Text
auth_of login_password key = key.login_password.login ++ (b':' ∷ key.login_password.password)
auth_of _ key = []

unfoldable pub get_git_url : Repository → Text
unfolding get_type auth_of
get_git_url r =
    let auth = auth_of r.ssh_key.type r.ssh_key in
    if text_eq (get_type r.git_url) (text "https")
    then text "https://"
      ++ ((if text_eq auth [] then auth else auth ++ b'@' ∷ []) ++ drop 8 r.git_url)
    else r.git_url

unfoldable pub dir_name_prefix : Repository → Text
dir_name_prefix r = text "repository_" ++ (itoa r.id ++ b'_' ∷ [])

unfoldable pub get_dir_name : ℕ → Repository → Text
unfolding dir_name_prefix
get_dir_name template_id r = dir_name_prefix r ++ itoa template_id

unfoldable pub validate_repository : Repository → Result (Unit {0})
unfolding get_type
validate_repository r =
    if text_eq r.name []
    then err (validation (text "repository name can't be empty"))
    else if text_eq r.git_url []
    then err (validation (text "repository url can't be empty"))
    else if not (is_local r) && text_eq r.git_branch []
    then err (validation (text "repository branch can't be empty"))
    else ok tt

-- What os.ReadDir gives of one file.
pub record DirEntry : Type 0 where
  pub name : Text
  pub is_dir : Bool

module _ {F : Type 0} (h : Host F) (tmp_path : Text) where
  unfoldable pub get_full_path : ℕ → Repository → Text
  unfolding get_git_url get_dir_name
  get_full_path template_id r =
      if is_local r then get_git_url r else h.join (tmp_path ∷ get_dir_name template_id r ∷ [])

  -- The loop of ClearCache over the entries of the directory.
  unfoldable pub clear_cache : Repository → List DirEntry → Call F
  unfolding dir_name_prefix
  clear_cache r [] f = (f, none)
  clear_cache r (e ∷ es) f = elim (e.is_dir && has_prefix e.name (dir_name_prefix r)) [
    | false ↦ clear_cache r es f
    | true ↦
        let (f', error) = h.remove_all (h.join (tmp_path ∷ e.name ∷ [])) f in
        elim error [ some x ↦ (f', some x) | none ↦ clear_cache r es f' ]
  ]
