-- ===== src/Auth/Passed.antt =====
-- Who passes the authentication, and who is given a session (api/auth.go, api/login.go).
use contribute_semaphore.Base.{
  ℕ, ◌+◌, ◌-◌, ◌≤◌, ◌≡◌, refl, inl, inr, true, false, Option, none, some, arith,
}
use contribute_semaphore.Base.Tests.{ltb, Bool-cases}
use contribute_semaphore.Base.Int.{ℤ}
use contribute_semaphore.Base.Text.{Text}
use contribute_semaphore.Model.Resources.{User}
use contribute_semaphore.Model.Store.{Result, ok, err}
use contribute_semaphore.Auth.{
  CookieValue, Request, AuthStore, week, decoded_cookie, find_user, by_session, by_ids, by_cookie,
  by_token, has_token, token_of, authentication_handler,
}

module _ {S : Type 0} (db : AuthStore S) where
  -- A token that the store knows, or a session of the last week that was touched; and the user.
  pub data Proof (now : ℕ) (r : Request) (decode : Text → Option CookieValue) (s : S) (user : User)
      (t : S) : Type 0 where
    token :
        (user_id : ℤ)
        → has_token db r ≡ true
        → db.get_api_token (token_of db r) s ≡ ok user_id
        → db.get_user user_id s ≡ ok user
        → t ≡ s
        → Proof now r decode s user t
    session :
        (c : Text) (v : CookieValue) (user_id session_id : ℤ) (last : ℕ)
        → r.cookie ≡ some c
        → decode c ≡ some v
        → v.user ≡ some user_id
        → v.session ≡ some session_id
        → db.get_session user_id session_id s ≡ ok last
        → now ≤ last + week
        → db.touch_session user_id session_id s ≡ ok t
        → db.get_user user_id t ≡ ok user
        → Proof now r decode s user t

  find_user_lem :
      (user_id : ℤ) (s : S) (user : User)
      → (find_user db user_id s).user ≡ some user
      → (db.get_user user_id s ≡ ok user) × ((find_user db user_id s).store ≡ s)
  unfolding find_user
  find_user_lem user_id s user h = go (db.get_user user_id s) refl
    where
      go :
          (m : Result User)
          → db.get_user user_id s ≡ m
          → (db.get_user user_id s ≡ ok user) × ((find_user db user_id s).store ≡ s)
      go (err e) q = absurd (ground arith)
      go (ok u) q = (ground arith, ground arith)

  module _ (decode : Text → Option CookieValue) (now : ℕ) (r : Request) (s : S) (user : User) where
    by_token-Proof :
        has_token db r ≡ true
        → (by_token db (token_of db r) s).user ≡ some user
        → Proof now r decode s user (by_token db (token_of db r) s).store
    unfolding by_token
    by_token-Proof b h = go (db.get_api_token (token_of db r) s) refl
      where
        go :
            (m : Result ℤ)
            → db.get_api_token (token_of db r) s ≡ m
            → Proof now r decode s user (by_token db (token_of db r) s).store
        go (err e) q = absurd (ground arith)
        go (ok user_id) q =
            let found = find_user_lem user_id s user (ground arith) in
            token user_id b q found.0 (ground (arith, found.1))

    by_session-Proof :
        (c : Text) (v : CookieValue) (user_id session_id : ℤ)
        → r.cookie ≡ some c
        → decode c ≡ some v
        → v.user ≡ some user_id
        → v.session ≡ some session_id
        → (by_session db now user_id session_id s).user ≡ some user
        → Proof now r decode s user (by_session db now user_id session_id s).store
    unfolding by_session
    by_session-Proof c v user_id session_id e d u w h =
        go (db.get_session user_id session_id s) refl
      where
        touched :
            (last : ℕ) (m : Result S)
            → db.get_session user_id session_id s ≡ ok last
            → ltb week (now - last) ≡ false
            → db.touch_session user_id session_id s ≡ m
            → Proof now r decode s user (by_session db now user_id session_id s).store
        touched last (err x) q y z = absurd (ground arith)
        touched last (ok t) q y z =
            let found = find_user_lem user_id t user (ground arith) in
            let same : (by_session db now user_id session_id s).store ≡ t =
              ground (arith, found.1) in
            rw same (session c v user_id session_id last e d u w q (ground arith) z found.0)

        go :
            (m : Result ℕ)
            → db.get_session user_id session_id s ≡ m
            → Proof now r decode s user (by_session db now user_id session_id s).store
        go (err x) q = absurd (ground arith)
        go (ok last) q = elim (Bool-cases (ltb week (now - last))) [
          | inl old ↦ absurd (ground arith)
          | inr fresh ↦ touched last (db.touch_session user_id session_id s) q fresh refl
        ]

    -- A request that passes the authentication with a user either has a token that the store knows
    -- as that of the user, or a cookie with a session of the user that was active in the last week
    -- and has been touched.
    pub authentication-Proof :
        (authentication_handler db decode now r s).user ≡ some user
        → Proof now r decode s user (authentication_handler db decode now r s).store
    unfolding authentication_handler by_cookie by_ids
    authentication-Proof h = elim (Bool-cases (has_token db r)) [
      | inl b ↦ rw b (by_token-Proof b (ground arith))
      | inr b ↦ rw b (go r.cookie refl (ground arith))
    ]
      where
        named :
            (c : Text) (v : CookieValue) (u w : Option ℤ)
            → r.cookie ≡ some c
            → decode c ≡ some v
            → v.user ≡ u
            → v.session ≡ w
            → (by_ids db now u w s).user ≡ some user
            → Proof now r decode s user (by_ids db now u w s).store
        named c v none w e d p q k = absurd (cc)
        named c v (some x) none e d p q k = absurd (cc)
        named c v (some x) (some y) e d p q k = by_session-Proof c v x y e d p q k

        decoded :
            (c : Text) (o : Option CookieValue)
            → r.cookie ≡ some c
            → decode c ≡ o
            → (by_cookie db now o s).user ≡ some user
            → Proof now r decode s user (by_cookie db now o s).store
        decoded c none e d k = absurd (cc)
        decoded c (some v) e d k = named c v v.user v.session e d refl refl k

        go :
            (o : Option Text)
            → r.cookie ≡ o
            → (by_cookie db now (decoded_cookie db decode o) s).user ≡ some user
            → Proof now r decode s user (by_cookie db now (decoded_cookie db decode o) s).store
        go none e k = absurd (cc)
        go (some c) e k = decoded c (decode c) e refl k

  pub token_passes :
      (decode : Text → Option CookieValue) (now : ℕ) (r : Request) (s : S) (user : User)
      (user_id : ℤ)
      → has_token db r ≡ true
      → db.get_api_token (token_of db r) s ≡ ok user_id
      → db.get_user user_id s ≡ ok user
      → (authentication_handler db decode now r s).user ≡ some user
  unfolding authentication_handler by_token find_user
  token_passes decode now r s user user_id b t u = ground (arith, b, t, u)
