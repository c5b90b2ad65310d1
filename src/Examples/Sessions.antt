-- ===== src/Examples/Sessions.antt =====
-- An encoding of objects with texts, and the theorems on tokens, sessions and login at a database file and a
-- store in memory.
use contribute_semaphore.Base.{
  ℕ, ◌+◌, ◌≡◌, refl, sym, ap, ◌∙◌, false, Option, none, some, List, [], ◌∷◌, ◌++◌, arith,
}
use contribute_semaphore.Auth.{
  Request, CookieValue, AuthStore, authentication_handler, by_token, find_user, cut_first,
}
use contribute_semaphore.Auth.Passed.{Proof, authentication-Proof}
use contribute_semaphore.Auth.Expired.{bolt_auth, expired_token_passes}
use contribute_semaphore.Base.Tests.{◌==◌, if◌then◌else◌}
use contribute_semaphore.Base.Decimal.{padded, itoa}
use contribute_semaphore.Base.Int.{pos, negsuc}
use contribute_semaphore.Base.Lists.{length, take, drop, take-append, drop-append}
use contribute_semaphore.Base.Text.{contains, Text, text, text_eq, has_prefix}
use contribute_semaphore.Bolt.Database.{Codec, CodecLaws}
use contribute_semaphore.Bolt.Object.{
  Object, int_value, string_value, pointer_value, other_value, tags, to_bytes, padded_int,
  field_by_tag_suffix, has_suffix,
}
use contribute_semaphore.Bolt.Objects.{
  get_object, make_bucket_id, bucket_ids, update_object_tx, id_of_value,
}
use contribute_semaphore.Bolt.Sessions.{expire_api_token, get_api_token}
use contribute_semaphore.Examples.Store.{File, file_store, file_laws, find_entry, stored-same}
use contribute_semaphore.Model.Resources.{User}
use contribute_semaphore.Model.Store.{Result, ok, err, failure, not_found, ◌>>=◌, bind-eq-ok}

-- Each value has its kind and its length or number in front.
unfoldable write : Object → Result Text
write [] = ok []
write ((t, int_value (pos n)) ∷ o) = write o >>= λ s. ok (b'i' ∷ n ∷ s)
write ((t, string_value x) ∷ o) = write o >>= λ s. ok (b's' ∷ length x ∷ x ++ s)
write ((t, other_value x) ∷ o) = write o >>= λ s. ok (b'o' ∷ length x ∷ x ++ s)
write ((t, int_value (negsuc n)) ∷ o) = err (failure [])
write ((t, pointer_value p) ∷ o) = err (failure [])

unfoldable read : List Text → Text → Result Object
read [] [] = ok []
read [] (n ∷ s) = err (failure [])
read (t ∷ ts) [] = err (failure [])
read (t ∷ ts) (k ∷ []) = err (failure [])
read (t ∷ ts) (k ∷ n ∷ s) =
    let after = read ts s in
    let later = read ts (drop n s) in
    if k == b'i'
    then (after >>= λ o. ok ((t, int_value (pos n)) ∷ o))
    else if k == b's'
    then (later >>= λ o. ok ((t, string_value (take n s)) ∷ o))
    else (later >>= λ o. ok ((t, other_value (take n s)) ∷ o))

read-write : (o : Object) (s : Text) → write o ≡ ok s → read (tags o) s ≡ ok o
unfolding write read
read-write [] [] h = refl
read-write [] (n ∷ s) h = absurd (cc)
read-write ((t, int_value (pos n)) ∷ o) s h =
    bind-eq-ok (read (t ∷ tags o) s ≡ ok ((t, int_value (pos n)) ∷ o)) (write o)
      (λ s'. ok (b'i' ∷ n ∷ s')) {b = s}
      (λ s' e f.
        let q : b'i' ∷ n ∷ s' ≡ s = ground arith in rw (← q) ground (arith, read-write o s' e))
      h
read-write ((t, string_value x) ∷ o) s h =
    bind-eq-ok (read (t ∷ tags o) s ≡ ok ((t, string_value x) ∷ o)) (write o)
      (λ s'. ok (b's' ∷ length x ∷ x ++ s')) {b = s}
      (λ s' e f.
        let q : b's' ∷ length x ∷ x ++ s' ≡ s = ground arith in
        rw (← q) ground (arith, take-append x s', drop-append x s', read-write o s' e))
      h
read-write ((t, other_value x) ∷ o) s h =
    bind-eq-ok (read (t ∷ tags o) s ≡ ok ((t, other_value x) ∷ o)) (write o)
      (λ s'. ok (b'o' ∷ length x ∷ x ++ s')) {b = s}
      (λ s' e f.
        let q : b'o' ∷ length x ∷ x ++ s' ≡ s = ground arith in
        rw (← q) ground (arith, take-append x s', drop-append x s', read-write o s' e))
      h
read-write ((t, int_value (negsuc n)) ∷ o) s h = absurd (cc)
read-write ((t, pointer_value p) ∷ o) s h = absurd (cc)

abbrev texts : Codec
texts = record {
  marshal_object = write;
  unmarshal_object = read;
  to_valid_utf8 = λ s. s;
  stored_other = λ s. s;
}

texts_laws : CodecLaws texts
texts_laws = record {
  unmarshal-marshal = λ o s h. read-write o s h ∙ ap ok (sym (stored-same texts refl refl o));
}

abbrev user : ℕ → User
user id = record {
  id = id;
  created = 0;
  username = text "jane";
  name = text "Jane";
  email = [];
  password = text "hash";
  admin = false;
  external = false;
  alert = false;
}

-- A store with one user, one token and one session, that counts its new sessions.
abbrev people : AuthStore ℕ
people = record {
  get_api_token = λ t n. if text_eq t (text "abc") then ok (pos 9) else err not_found;
  get_session = λ u s n. ok 100;
  expire_session = λ u s n. ok n;
  touch_session = λ u s n. ok n;
  get_user = λ u n. ok (user 9);
  get_user_by_login_or_email = λ l e n. err (failure (text "database is locked"));
  create_user_without_password = λ u n. err not_found;
  create_session = λ u n. ok (pos n, n + 1);
}

abbrev bearer : Request
bearer = record { authorization = text "Bearer ABC"; cookie = none }

abbrev undecoded : Text → Option CookieValue
undecoded c = none

authentication-Proof_example : Proof people 200 bearer undecoded 5 (user 9) 5
unfolding authentication_handler by_token find_user contains cut_first has_prefix text_eq
authentication-Proof_example = authentication-Proof people undecoded 200 bearer 5 (user 9) refl

abbrev token : Text → Object
token expired =
    (text "id", string_value (text "abc"))
    ∷ (text "created", string_value (text "now"))
    ∷ (text "expired", other_value expired)
    ∷ (text "user_id", int_value (pos 9))
    ∷ []

abbrev token_bucket : Text
token_bucket = text "user__token_0000000009"

abbrev written : Result Text → Text
written (ok s) = s
written (err e) = []

abbrev tokens : File
tokens = record {
  buckets = text "token" ∷ token_bucket ∷ [];
  entries =
      (
        text "token",
        text "abc",
        written (
            write
              ((text "id", string_value (text "abc")) ∷ (text "user_id", int_value (pos 9)) ∷ [])),
      )
      ∷ (token_bucket, text "abc", written (write (token (text "false"))))
      ∷ [];
  counter = 7;
}

abbrev expired_tokens : File
expired_tokens = record tokens {
  entries = (token_bucket, text "abc", written (write (token (text "true")))) ∷ tokens.entries;
}

abbrev accounts : AuthStore File
accounts = record {
  get_api_token = λ t d. err not_found;
  get_session = λ u s d. err not_found;
  expire_session = λ u s d. ok d;
  touch_session = λ u s d. ok d;
  get_user = λ u d. ok (user 9);
  get_user_by_login_or_email = λ l e d. err not_found;
  create_user_without_password = λ u d. err not_found;
  create_session = λ u d. err not_found;
}

expired_token_passes_example :
    ((authentication_handler
        (bolt_auth file_store texts file_laws texts_laws accounts (λ v. 0) (string_value []))
        undecoded
        200
        bearer
        tokens).user
      ≡ some (user 9))
    × ((authentication_handler
          (bolt_auth file_store texts file_laws texts_laws accounts (λ v. 0) (string_value []))
          undecoded
          200
          bearer
          expired_tokens).user
        ≡ some (user 9))
unfolding contains cut_first has_prefix text_eq get_object make_bucket_id bucket_ids padded
    padded_int itoa to_bytes find_entry write read get_api_token expire_api_token update_object_tx
    field_by_tag_suffix has_suffix id_of_value
expired_token_passes_example =
    expired_token_passes file_store texts file_laws texts_laws accounts (λ v. 0) (string_value [])
      undecoded 200 bearer (user 9)
      ((text "id", string_value (text "abc")) ∷ (text "user_id", int_value (pos 9)) ∷ [])
      (token (text "false")) tokens expired_tokens refl refl refl refl refl refl refl refl
