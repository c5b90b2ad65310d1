-- ===== src/Keys/Stored.antt =====
-- What JSON keeps of a key that SerializeSecret has made (db/AccessKey.go).
use contribute_semaphore.Base.{ℕ, ◌≡◌, refl, inl, inr, Option, none, some, [], ◌++◌, arith}
use contribute_semaphore.Base.Tests.{Bool-cases}
use contribute_semaphore.Base.Text.{Text, text_eq}
use contribute_semaphore.Keys.Cipher.{Ciphers, CipherLaws}
use contribute_semaphore.Keys.Secret.{plaintext, encrypt, store_secret, serialize_secret}
use contribute_semaphore.Keys.Table.{kept_type, kept_secret}
use contribute_semaphore.Model.Resources.{
  AccessKey, AccessKeyType, ssh, no_key, login_password, other_key,
}
use contribute_semaphore.Model.Store.{Result, ok, ◌>>=◌, bind-eq-ok}

module _ (c : Ciphers) (laws : CipherLaws c) where
  plaintext-kept :
      (key : AccessKey) (t : AccessKeyType) (o : Option Text)
      → plaintext c key t ≡ ok o
      → kept_type c t ≡ t
  unfolding plaintext
  plaintext-kept key ssh o h = refl
  plaintext-kept key login_password o h = refl
  plaintext-kept key no_key o h = refl
  plaintext-kept key (other_key t) o h = absurd (cc)

  base64-kept : (s : Text) → c.to_valid_utf8 (c.encode_base64 s) ≡ c.encode_base64 s
  base64-kept s = laws.to_valid_utf8-valid (c.encode_base64 s) (laws.encode-utf8 s)

  encrypt-kept :
      (encryption : Text) (random : ℕ → Result Text) (s secret : Text)
      → encrypt c encryption random s ≡ ok secret
      → c.to_valid_utf8 secret ≡ secret
  unfolding encrypt
  encrypt-kept encryption random s secret h = elim (Bool-cases (text_eq encryption [])) [
    | inl e ↦ ground (arith, base64-kept s)
    | inr e ↦
        bind-eq-ok (c.to_valid_utf8 secret ≡ secret) (c.decode_base64 encryption >>= c.new_gcm)
          (λ g. random g.nonce_size >>= λ nonce. ok (c.encode_base64 (nonce ++ g.seal nonce s)))
          {b = secret}
          (λ g x y.
            bind-eq-ok (c.to_valid_utf8 secret ≡ secret) (random g.nonce_size)
              (λ nonce. ok (c.encode_base64 (nonce ++ g.seal nonce s))) {b = secret}
              (λ nonce x' y'. ground (arith, base64-kept (nonce ++ g.seal nonce s))) y)
          (ground arith)
  ]

  -- The type and the secret are kept.
  pub serialize_secret-kept :
      (encryption : Text) (random : ℕ → Result Text) (key k : AccessKey)
      → serialize_secret c encryption random key ≡ ok k
      → (kept_type c k.type ≡ k.type) × (kept_secret c k.secret ≡ k.secret)
  unfolding serialize_secret store_secret
  serialize_secret-kept encryption random key k h =
      bind-eq-ok goal (plaintext c key key.type) (store_secret c encryption random key) {b = k} go h
    where
      goal : Type 0
      goal = (kept_type c k.type ≡ k.type) × (kept_secret c k.secret ≡ k.secret)

      go :
          (o : Option Text)
          → plaintext c key key.type ≡ ok o
          → store_secret c encryption random key o ≡ ok k
          → goal
      go none p q =
          let made : record key { secret = none } ≡ k = ground arith in
          rw (← made) (plaintext-kept key key.type none p, refl)
      go (some s) p q =
          bind-eq-ok goal (encrypt c encryption random s)
            (λ secret. ok (record key { secret = some secret })) {b = k}
            (λ secret x y.
              let made : record key { secret = some secret } ≡ k = ground arith in
              rw (← made) (
                plaintext-kept key key.type (some s) p,
                ground (arith, encrypt-kept encryption random s secret x),
              ))
            q
