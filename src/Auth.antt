-- ===== src/Auth.antt =====
-- Authentication of a request and login (api/auth.go, api/login.go). Letters are ASCII.
pub mod Passed
pub mod Expired
pub mod Granted
use contribute_semaphore.Base.{ℕ, zero, ◌-◌, ◌*◌, ◌/◌, Bool, not, ◌&&◌, Option, none, some, [], ◌∷◌}
use contribute_semaphore.Base.Tests.{ltb, if◌then◌else◌}
use contribute_semaphore.Base.Int.{ℤ}
use contribute_semaphore.Base.Lists.{length, drop}
use contribute_semaphore.Base.Text.{Text, text, has_prefix, to_lower, contains}
use contribute_semaphore.Model.Resources.{User}
use contribute_semaphore.Model.Store.{Result, ok, err, not_found, ◌>>=◌}
use contribute_semaphore.Tasks.World.{Outcome, done, panic}

-- The values in the cookie `semaphore`, once package securecookie has decoded it.
pub record CookieValue : Type 0 where
  pub user : Option ℤ
  pub session : Option ℤ

pub record Request : Type 0 where
  pub authorization : Text
  pub cookie : Option Text

-- What the handlers ask of db.Store: the user of a token, and when a session was last active, in
-- nanoseconds.
pub record AuthStore (S : Type 0) : Type 0 where
  pub get_api_token : Text → S → Result ℤ
  pub get_session : ℤ → ℤ → S → Result ℕ
  pub expire_session : ℤ → ℤ → S → Result S
  pub touch_session : ℤ → ℤ → S → Result S
  pub get_user : ℤ → S → Result User
  pub get_user_by_login_or_email : Text → Text → S → Result User
  pub create_user_without_password : User → S → Result (User × S)
  pub create_session : ℕ → S → Result (ℤ × S)

-- strings.Replace of the first occurrence by nothing.
unfoldable pub cut_first : Text → Text → Text
unfolding has_prefix
cut_first part [] = []
cut_first part (c ∷ s) =
    let rest = cut_first part s in
    if has_prefix (c ∷ s) part then drop (length part) (c ∷ s) else c ∷ rest

abbrev pub week : ℕ
week = 7 * 24 * 3600000000000

-- The status that is written, if any, and the user that is set in the context of the request.
pub record Reply (S : Type 0) : Type 0 where
  pub store : S
  pub status : Option ℕ
  pub user : Option User
  pub cookie : Option (ℕ × ℤ)

module _ {S : Type 0} (db : AuthStore S) where
  abbrev unauthorized : S → Reply S
  unauthorized s = record { store = s; status = some 401; user = none; cookie = none }

  unfoldable pub find_user : ℤ → S → Reply S
  find_user user_id s = elim (db.get_user user_id s) [
    | err e ↦ unauthorized s
    | ok user ↦ record { store = s; status = none; user = some user; cookie = none }
  ]

  abbrev or_same : S → Result S → S
  or_same s (ok s') = s'
  or_same s (err e) = s

  -- A session that has not been used for a week is expired; an error of that is only logged.
  unfoldable pub by_session : ℕ → ℤ → ℤ → S → Reply S
  by_session now user_id session_id s = elim (db.get_session user_id session_id s) [
    | err e ↦ unauthorized s
    | ok last_active ↦
        if ltb week (now - last_active)
        then unauthorized (or_same s (db.expire_session user_id session_id s))
        else elim (db.touch_session user_id session_id s) [
          | err e ↦ unauthorized s
          | ok s' ↦ find_user user_id s'
        ]
  ]

  unfoldable pub by_ids : ℕ → Option ℤ → Option ℤ → S → Reply S
  by_ids now (some user_id) (some session_id) s = by_session now user_id session_id s
  by_ids now _ _ s = unauthorized s

  unfoldable pub by_cookie : ℕ → Option CookieValue → S → Reply S
  by_cookie now none s = unauthorized s
  by_cookie now (some v) s = by_ids now v.user v.session s

  unfoldable pub by_token : Text → S → Reply S
  by_token token s = elim (db.get_api_token token s) [
    | err e ↦ unauthorized s
    | ok user_id ↦ find_user user_id s
  ]

  abbrev pub has_token : Request → Bool
  has_token r =
      ltb 0 (length (to_lower r.authorization))
      && contains (to_lower r.authorization) (text "bearer")

  abbrev pub token_of : Request → Text
  token_of r = cut_first (text "bearer ") (to_lower r.authorization)

  abbrev pub decoded_cookie : (Text → Option CookieValue) → Option Text → Option CookieValue
  decoded_cookie decode none = none
  decoded_cookie decode (some c) = decode c

  unfoldable pub authentication_handler : (Text → Option CookieValue) → ℕ → Request → S → Reply S
  authentication_handler decode now r s =
      if has_token r
      then by_token (token_of r) s
      else by_cookie now (decoded_cookie decode r.cookie) s

  -- `same_password` is bcrypt.CompareHashAndPassword.
  unfoldable pub login_by_password : (Text → Text → Bool) → Text → Text → S → Result User
  login_by_password same_password login password s =
      db.get_user_by_login_or_email login login s >>= λ user.
      if user.external
      then err not_found
      else if same_password user.password password
      then ok user
      else err not_found

  abbrev is_external : User → S → Result (User × S)
  is_external u s = if u.external then ok (u, s) else err not_found

  -- An error other than ErrNotFound leaves the zero user, which is not external; the user that an
  -- error of CreateUserWithoutPassword leaves is the same.
  unfoldable pub login_by_ldap : User → S → Result (User × S)
  login_by_ldap ldap_user s =
      elim (db.get_user_by_login_or_email ldap_user.username ldap_user.email s) [
        | ok user ↦ is_external user s
        | err not_found ↦ elim (db.create_user_without_password ldap_user s) [
          | ok (user, s') ↦ is_external user s'
          | err e ↦ err not_found
        ]
        | err other ↦ err not_found
      ]

  -- A session for a user, and the cookie that names both.
  unfoldable pub start_session : Option ℕ → ℕ → S → Outcome (Reply S)
  start_session status user_id s = elim (db.create_session user_id s) [
    | err e ↦ panic (text "cannot create session")
    | ok (session_id, s') ↦ done (record {
      store = s';
      status = (elim status [ none ↦ some 204 | some code ↦ some code ]);
      user = none;
      cookie = some (user_id, session_id);
    })
  ]

  -- The end of the handler: an unknown user is refused; after another error the handler goes on,
  -- with the zero user. Of two statuses the first is sent.
  unfoldable pub finish_login : S → Result (User × S) → Outcome (Reply S)
  finish_login s (ok (user, s')) = start_session none user.id s'
  finish_login s (err not_found) = done (unauthorized s)
  finish_login s (err e) = start_session (some 500) 0 s

  -- `ldap` is what tryFindLDAPUser comes to where LDAP is enabled: no user, or one.
  unfoldable pub login :
      (Text → Text → Bool) → Result (Option User) → Text → Text → S → Outcome (Reply S)
  login same_password (err e) auth password s =
      done (record { store = s; status = some 500; user = none; cookie = none })
  login same_password (ok none) auth password s =
      finish_login s (login_by_password same_password (to_lower auth) password s >>= λ u. ok (u, s))
  login same_password (ok (some ldap_user)) auth password s =
      finish_login s (login_by_ldap ldap_user s)
