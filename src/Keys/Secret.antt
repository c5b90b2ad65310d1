-- ===== src/Keys/Secret.antt =====
-- Validate, SerializeSecret, DeserializeSecret2 and unmarshalAppropriateField (db/AccessKey.go).
use contribute_semaphore.Base.{ℕ, Bool, Option, none, some, [], ◌++◌}
use contribute_semaphore.Base.Tests.{ltb, if◌then◌else◌}
use contribute_semaphore.Base.Lists.{length, take, drop}
use contribute_semaphore.Base.Text.{Text, text, text_eq}
use contribute_semaphore.Keys.Cipher.{
  Decoded, decoded, syntax_error, other_error, Gcm, Ciphers, ends_with_newline,
}
use contribute_semaphore.Model.Resources.{
  AccessKey, AccessKeyType, ssh, no_key, login_password, other_key,
}
use contribute_semaphore.Model.Store.{Result, ok, err, failure, error_text, ◌>>=◌}

unfoldable pub validate_secret : AccessKey → AccessKeyType → Result (Unit {0})
validate_secret key ssh =
    if text_eq key.ssh_key.private_key []
    then err (failure (text "private key can not be empty"))
    else ok tt
validate_secret key login_password =
    if text_eq key.login_password.password []
    then err (failure (text "password can not be empty"))
    else ok tt
validate_secret key _ = ok tt

unfoldable pub validate_key : Bool → AccessKey → Result (Unit {0})
unfolding validate_secret
validate_key secret_fields key =
    if text_eq key.name []
    then err (failure (text "name can not be empty"))
    else if secret_fields
    then validate_secret key key.type
    else ok tt

module _ (c : Ciphers) where
  -- The switch of SerializeSecret; a key of type none has no secret.
  unfoldable pub plaintext : AccessKey → AccessKeyType → Result (Option Text)
  plaintext key ssh = c.marshal_ssh_key key.ssh_key >>= λ s. ok (some s)
  plaintext key login_password = c.marshal_login_password key.login_password >>= λ s. ok (some s)
  plaintext key no_key = ok none
  plaintext key (other_key t) = err (failure (text "invalid access token type"))

  -- `random n` is what rand.Reader gives for n bytes at this call.
  unfoldable pub encrypt : Text → (ℕ → Result Text) → Text → Result Text
  encrypt encryption random s =
      if text_eq encryption []
      then ok (c.encode_base64 s)
      else (c.decode_base64 encryption >>= c.new_gcm >>= λ g.
          random g.nonce_size >>= λ nonce. ok (c.encode_base64 (nonce ++ g.seal nonce s)))

  unfoldable pub store_secret :
      Text → (ℕ → Result Text) → AccessKey → Option Text → Result AccessKey
  store_secret encryption random key none = ok (record key { secret = none })
  store_secret encryption random key (some s) =
      encrypt encryption random s >>= λ secret. ok (record key { secret = some secret })

  unfoldable pub serialize_secret : Text → (ℕ → Result Text) → AccessKey → Result AccessKey
  unfolding store_secret
  serialize_secret encryption random key =
      plaintext key key.type >>= store_secret encryption random key

  -- unmarshalAppropriateField
  unfoldable pub unmarshal_field : AccessKey → AccessKeyType → Text → Decoded AccessKey
  unmarshal_field key ssh s = elim (c.unmarshal_ssh_key s) [
    | decoded k ↦ decoded (record key { ssh_key = k })
    | syntax_error e ↦ syntax_error e
    | other_error e ↦ other_error e
  ]
  unmarshal_field key login_password s = elim (c.unmarshal_login_password s) [
    | decoded k ↦ decoded (record key { login_password = k })
    | syntax_error e ↦ syntax_error e
    | other_error e ↦ other_error e
  ]
  unmarshal_field key _ s = decoded key

  unfoldable pub open_plain : AccessKey → Text → Result AccessKey
  unfolding unmarshal_field
  open_plain key s = elim (unmarshal_field key key.type s) [
    | decoded k ↦ ok k
    | syntax_error e ↦
        err (failure (text "secret must be valid json in key '" ++ (key.name ++ text "'")))
    | other_error e ↦ err e
  ]

  unfoldable pub open_sealed : AccessKey → Text → Result AccessKey
  unfolding unmarshal_field
  open_sealed key s = elim (unmarshal_field key key.type s) [
    | decoded k ↦ ok k
    | syntax_error e ↦ err e
    | other_error e ↦ err e
  ]

  abbrev explain : Result Text → Result Text
  explain (ok s) = ok s
  explain (err e) =
      if text_eq (error_text e) (text "cipher: message authentication failed")
      then err (failure (text "cannot decrypt access key, perhaps encryption key was changed"))
      else err e

  -- What stands before the nonce size is the nonce.
  unfoldable pub decrypt : Gcm → Text → Result Text
  decrypt g s =
      if ltb (length s) g.nonce_size
      then err (failure (text "ciphertext too short"))
      else explain (g.unseal (take g.nonce_size s) (drop g.nonce_size s))

  unfoldable pub open_encoded : Text → AccessKey → Text → Result AccessKey
  open_encoded encryption key secret = c.decode_base64 secret >>= λ s.
      if text_eq encryption []
      then open_plain key s
      else (c.decode_base64 encryption >>= c.new_gcm >>= λ g. decrypt g s >>= open_sealed key)

  -- A secret that ends in a line feed is a private key as it was stored before there was encryption.
  unfoldable pub open_raw : AccessKey → AccessKeyType → Text → Result AccessKey
  open_raw key ssh s =
      ok (record key { ssh_key = record { login = []; passphrase = []; private_key = s } })
  open_raw key _ s = err (failure (text "invalid access key type"))

  -- DeserializeSecret2; DeserializeSecret is this with the encryption key of the configuration.
  unfoldable pub deserialize_secret2 : Text → AccessKey → Result AccessKey
  deserialize_secret2 encryption key = elim key.secret [
    | none ↦ ok key
    | some s ↦
        if text_eq s []
        then ok key
        else if ends_with_newline s
        then open_raw key key.type s
        else open_encoded encryption key s
  ]
