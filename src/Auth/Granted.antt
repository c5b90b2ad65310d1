-- ===== src/Auth/Granted.antt =====
-- Who is given the cookie of a session by a login (api/login.go).
use contribute_semaphore.Base.{ℕ, ◌≡◌, ◌≢◌, ◌⊎◌, Bool, true, false, Option, none, some}
use contribute_semaphore.Base.Int.{ℤ}
use contribute_semaphore.Base.Text.{Text, to_lower}
use contribute_semaphore.Model.Resources.{User}
use contribute_semaphore.Model.Store.{Result, ok, err, Error, not_found}
use contribute_semaphore.Auth.{AuthStore, Reply}

module _ {S : Type 0} (db : AuthStore S) where
  -- A reply whose cookie names a new session of a user.
  abbrev pub Given : ℕ → S → ℕ → Reply S → ℕ → ℤ → Type 0
  Given user_id s code r uid id =
      (db.create_session user_id s ≡ ok (id, r.store)) × (uid ≡ user_id) × (r.status ≡ some code)

  -- The ways to a cookie: a password that matches, of a user that is not external; an external user
  -- that LDAP knows, and that the store has or is given; or a user that could not be read, for
  -- another error than that there is none.
  pub data Grant (same_password : Text → Text → Bool) (ldap : Result (Option User))
      (auth password : Text) (s : S) (r : Reply S) (uid : ℕ) (id : ℤ) : Type 0 where
    by_password :
        (user : User)
        → ldap ≡ ok none
        → db.get_user_by_login_or_email (to_lower auth) (to_lower auth) s ≡ ok user
        → user.external ≡ false
        → same_password user.password password ≡ true
        → Given user.id s 204 r uid id
        → Grant same_password ldap auth password s r uid id
    by_ldap :
        (l user : User) (s' : S)
        → ldap ≡ ok (some l)
        → ((db.get_user_by_login_or_email l.username l.email s ≡ ok user) × (s' ≡ s))
          ⊎ ((db.get_user_by_login_or_email l.username l.email s ≡ err not_found)
              × (db.create_user_without_password l s ≡ ok (user, s')))
        → user.external ≡ true
        → Given user.id s' 204 r uid id
        → Grant same_password ldap auth password s r uid id
    by_failure :
        (e : Error)
        → ldap ≡ ok none
        → db.get_user_by_login_or_email (to_lower auth) (to_lower auth) s ≡ err e
        → e ≢ not_found
        → Given 0 s 500 r uid id
        → Grant same_password ldap auth password s r uid id
