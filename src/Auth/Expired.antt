-- ===== src/Auth/Expired.antt =====
-- The authentication with the tokens and the sessions of BoltDB (api/auth.go, db/bolt/session.go).
use contribute_semaphore.Base.{ℕ, ◌≡◌, refl, true, false, Option, some, [], ◌∷◌, arith}
use contribute_semaphore.Auth.{
  CookieValue, Request, AuthStore, has_token, token_of, authentication_handler,
}
use contribute_semaphore.Auth.Passed.{token_passes}
use contribute_semaphore.Base.Int.{pos}
use contribute_semaphore.Base.Text.{Text, text, text_eq, eq_of_text_eq}
use contribute_semaphore.Bolt.Database.{Bbolt, BboltLaws, Codec, CodecLaws, stored}
use contribute_semaphore.Bolt.Object.{
  Object, Value, int_value, string_value, pointer_value, other_value, str_object_id,
  field_by_tag_suffix, tags,
}
use contribute_semaphore.Bolt.Objects.{get_object}
use contribute_semaphore.Bolt.Sessions.{
  token_props, api_token_tags, global_token_object, field, with_field, int_of, true_value,
  get_api_token, expire_api_token, get_session, expire_session, touch_session,
}
use contribute_semaphore.Bolt.Sessions.Expired.{get_api_token-expire}
use contribute_semaphore.Model.Resources.{User}
use contribute_semaphore.Model.Store.{ok, ◌>>=◌}

field-with_field :
    (tag other : Text) (v : Value) (o : Object)
    → text_eq tag other ≡ false
    → field other (with_field tag v o) ≡ field other o
field-with_field tag other v [] ne = refl
field-with_field tag other v ((t, w) ∷ o) ne =
    ground (arith, field-with_field tag other v o ne, eq_of_text_eq t tag)

-- JSON keeps the numbers.
int_of-stored :
    (c : Codec) (tag : Text) (o : Object) → int_of (field tag (stored c o)) ≡ int_of (field tag o)
int_of-stored c tag [] = refl
int_of-stored c tag ((t, int_value i) ∷ o) = ground (arith, int_of-stored c tag o)
int_of-stored c tag ((t, string_value s) ∷ o) = ground (arith, int_of-stored c tag o)
int_of-stored c tag ((t, pointer_value p) ∷ o) = ground (arith, int_of-stored c tag o)
int_of-stored c tag ((t, other_value s) ∷ o) = ground (arith, int_of-stored c tag o)

module _ {D : Type 0} (b : Bbolt D) (codec : Codec) (laws : BboltLaws b) (codecs : CodecLaws codec)
    (others : AuthStore D) (instant : Option Value → ℕ) (clock : Value) where
  -- The store of the handlers, with the tokens and the sessions of BoltDB; `instant` reads a time.
  abbrev pub bolt_auth : AuthStore D
  bolt_auth = record others {
    get_api_token =
        λ t d. get_api_token b codec t d >>= λ o. ok (int_of (field (text "user_id") o));
    get_session =
        λ u s d. get_session b codec u s d >>= λ o. ok (instant (field (text "last_active") o));
    expire_session = expire_session b codec;
    touch_session = touch_session b codec clock;
  }

  -- A request with a token of BoltDB, whose object has the fields of its type and its ID, and
  -- whose user can be read before and after, passes the authentication as that user both before
  -- and after a call of ExpireAPIToken that succeeds; the file and the encoding are supposed to
  -- keep to their laws.
  pub expired_token_passes :
      (decode : Text → Option CookieValue) (now : ℕ) (r : Request) (user : User) (g token : Object)
      (d d' : D)
      → has_token bolt_auth r ≡ true
      → get_object b codec (pos 0 ∷ []) global_token_object (str_object_id (token_of bolt_auth r)) d
        ≡ ok g
      → get_object b codec
          (int_of (field (text "user_id") g) ∷ [])
          token_props
          (str_object_id (token_of bolt_auth r))
          d
        ≡ ok token
      → api_token_tags ≡ tags token
      → field_by_tag_suffix (text "id") token ≡ some (string_value (token_of bolt_auth r))
      → expire_api_token b codec (int_of (field (text "user_id") g)) (token_of bolt_auth r) d
        ≡ ok d'
      → others.get_user (int_of (field (text "user_id") token)) d ≡ ok user
      → others.get_user (int_of (field (text "user_id") token)) d' ≡ ok user
      → ((authentication_handler bolt_auth decode now r d).user ≡ some user)
        × ((authentication_handler bolt_auth decode now r d').user ≡ some user)
  unfolding get_api_token
  expired_token_passes decode now r user g token d d' t found mine shape i h u' u =
      let read =
        get_api_token-expire b codec laws codecs (int_of (field (text "user_id") g))
          (token_of bolt_auth r) g token d d' found refl mine shape i h in
      let same =
        field-with_field (text "expired") (text "user_id") true_value token
          (unfold text_eq in refl) in
      let kept =
        int_of-stored codec (text "user_id") (with_field (text "expired") true_value token) in
      let before : bolt_auth.get_api_token (token_of bolt_auth r) d
          ≡ ok (int_of (field (text "user_id") token)) =
        ground (arith, found, mine) in
      let after : bolt_auth.get_api_token (token_of bolt_auth r) d'
          ≡ ok (int_of (field (text "user_id") token)) =
        ground (arith, read, kept, same) in
      (
        token_passes bolt_auth decode now r d user (int_of (field (text "user_id") token)) t before
            u',
        token_passes bolt_auth decode now r d' user (int_of (field (text "user_id") token)) t after
            u,
      )
