-- ===== src/Keys/RoundTrip.antt =====
-- A secret that SerializeSecret stores and DeserializeSecret2 opens (db/AccessKey.go).
use contribute_semaphore.Base.{
  ℕ, ◌≡◌, refl, sym, subst, ◌≢◌, inl, inr, Bool, true, false, Option, none, some, [], ◌∷◌, ◌++◌,
  arith,
}
use contribute_semaphore.Base.Tests.{Bool-cases}
use contribute_semaphore.Base.Lists.{length, length-append, take-append, drop-append}
use contribute_semaphore.Base.Text.{Text, text_eq}
use contribute_semaphore.Keys.Cipher.{
  decoded, Gcm, Ciphers, CipherLaws, ends_with_newline, ssh_key_is_utf8, login_password_is_utf8,
}
use contribute_semaphore.Keys.Secret.{
  plaintext, encrypt, store_secret, serialize_secret, unmarshal_field, open_plain, open_sealed,
  decrypt, open_encoded, deserialize_secret2,
}
use contribute_semaphore.Model.Resources.{
  AccessKey, AccessKeyType, ssh, no_key, login_password, other_key,
}
use contribute_semaphore.Model.Store.{Result, ok, ◌>>=◌, bind-eq-ok}

-- The part of a key that its type has a secret in is that of another key.
abbrev pub with_secret_of : AccessKeyType → AccessKey → AccessKey → AccessKey
with_secret_of ssh key k = record k { ssh_key = key.ssh_key }
with_secret_of login_password key k = record k { login_password = key.login_password }
with_secret_of _ key k = k

abbrev pub is_utf8 : Ciphers → AccessKeyType → AccessKey → Bool
is_utf8 c ssh key = ssh_key_is_utf8 c key.ssh_key
is_utf8 c login_password key = login_password_is_utf8 c key.login_password
is_utf8 c _ key = true

-- rand.Reader gives as many bytes as are asked for.
abbrev pub Fills : (ℕ → Result Text) → Type 0
Fills random = (n : ℕ) (s : Text) → random n ≡ ok s → length s ≡ n

text_eq_nil_of_ne : (s : Text) → s ≢ [] → text_eq s [] ≡ false
unfolding text_eq
text_eq_nil_of_ne [] h = absurd (h refl)
text_eq_nil_of_ne (a ∷ s) h = refl

append-ne-nil : (s t : Text) → t ≢ [] → s ++ t ≢ []
append-ne-nil [] t h = h
append-ne-nil (a ∷ s) t h = λ e. cc e

-- The two forms of a secret.
data Encrypted (c : Ciphers) (encryption s secret : Text) : Type 0 where
  plain :
      text_eq encryption [] ≡ true → secret ≡ c.encode_base64 s → Encrypted c encryption s secret
  sealed :
      (key : Text) (g : Gcm) (nonce : Text)
      → text_eq encryption [] ≡ false
      → c.decode_base64 encryption ≡ ok key
      → c.new_gcm key ≡ ok g
      → length nonce ≡ g.nonce_size
      → secret ≡ c.encode_base64 (nonce ++ g.seal nonce s)
      → Encrypted c encryption s secret

encrypt-Encrypted :
    (c : Ciphers) (encryption : Text) (random : ℕ → Result Text) (s secret : Text)
    → Fills random
    → encrypt c encryption random s ≡ ok secret
    → Encrypted c encryption s secret
unfolding encrypt
encrypt-Encrypted c encryption random s secret fills h = elim (Bool-cases (text_eq encryption [])) [
  | inl e ↦ plain e (ground arith)
  | inr e ↦
      let goal = Encrypted c encryption s secret in
      bind-eq-ok goal (c.decode_base64 encryption >>= c.new_gcm)
        (λ g. random g.nonce_size >>= λ nonce. ok (c.encode_base64 (nonce ++ g.seal nonce s)))
        {b = secret}
        (λ g f m.
          bind-eq-ok goal (c.decode_base64 encryption) c.new_gcm {b = g}
            (λ key dk n.
              bind-eq-ok goal (random g.nonce_size)
                (λ nonce. ok (c.encode_base64 (nonce ++ g.seal nonce s))) {b = secret}
                (λ nonce r q. sealed key g nonce e dk n (fills g.nonce_size nonce r) (ground arith))
                m)
            f)
        (ground arith)
]

module _ (c : Ciphers) (laws : CipherLaws c) where
  decrypt-seal :
      (key : Text) (g : Gcm) (nonce s : Text)
      → c.new_gcm key ≡ ok g
      → length nonce ≡ g.nonce_size
      → decrypt c g (nonce ++ g.seal nonce s) ≡ ok s
  unfolding decrypt
  decrypt-seal key g nonce s h e = rw (← e) ground (
    arith,
    length-append nonce (g.seal nonce s),
    take-append nonce (g.seal nonce s),
    drop-append nonce (g.seal nonce s),
    laws.unseal-seal key g nonce s h e,
  )

  open_opened :
      (encryption s : Text) (k k' : AccessKey)
      → unmarshal_field c k k.type s ≡ decoded k'
      → (open_plain c k s ≡ ok k') × (open_sealed c k s ≡ ok k')
  unfolding open_plain open_sealed
  open_opened encryption s k k' h = ground arith

  -- What is encrypted is taken for a secret, and is opened.
  Encrypted-opens :
      (encryption s secret : Text) (k k' : AccessKey)
      → unmarshal_field c k k.type s ≡ decoded k'
      → Encrypted c encryption s secret
      → open_encoded c encryption k secret ≡ ok k'
  unfolding open_encoded
  Encrypted-opens encryption s secret k k' u (plain e q) =
      ground (arith, laws.decode-encode s, (open_opened encryption s k k' u).0)
  Encrypted-opens encryption s secret k k' u (sealed key g nonce e dk n l q) = ground (
    arith,
    laws.decode-encode (nonce ++ g.seal nonce s),
    decrypt-seal key g nonce s n l,
    (open_opened encryption s k k' u).1,
  )

  Encrypted-form :
      (encryption s secret : Text)
      → s ≢ []
      → Encrypted c encryption s secret
      → (text_eq secret [] ≡ false) × (ends_with_newline secret ≡ false)
  Encrypted-form encryption s secret ne (plain e q) =
      rw q (text_eq_nil_of_ne _ (laws.encode-ne-nil s ne), laws.encode_newline s)
  Encrypted-form encryption s secret ne (sealed key g nonce e dk n l q) = rw q (
    text_eq_nil_of_ne _
        (laws.encode-ne-nil _ (append-ne-nil nonce _ (laws.seal-ne-nil key g nonce s n))),
    laws.encode_newline _,
  )

  -- The text that a key's secret is made from, read as the key's type asks.
  unmarshal-plaintext :
      (key k : AccessKey) (t : AccessKeyType) (s : Text)
      → is_utf8 c t key ≡ true
      → plaintext c key t ≡ ok (some s)
      → (s ≢ []) × (unmarshal_field c k t s ≡ decoded (with_secret_of t key k))
  unfolding plaintext unmarshal_field
  unmarshal-plaintext key k ssh s u h =
      let e : c.marshal_ssh_key key.ssh_key ≡ ok s = ground arith in
      (
        laws.marshal_ssh_key-ne-nil key.ssh_key s e,
        ground (arith, laws.unmarshal-marshal_ssh_key key.ssh_key s u e),
      )
  unmarshal-plaintext key k login_password s u h =
      let e : c.marshal_login_password key.login_password ≡ ok s = ground arith in
      (
        laws.marshal_login_password-ne-nil key.login_password s e,
        ground (arith, laws.unmarshal-marshal_login_password key.login_password s u e),
      )
  unmarshal-plaintext key k no_key s u h = absurd (cc)
  unmarshal-plaintext key k (other_key t) s u h = absurd (cc)

  -- A key without a secret is one of type none.
  no_plaintext : (key : AccessKey) (t : AccessKeyType) → plaintext c key t ≡ ok none → t ≡ no_key
  unfolding plaintext
  no_plaintext key ssh h = ground arith
  no_plaintext key login_password h = ground arith
  no_plaintext key no_key h = refl
  no_plaintext key (other_key t) h = absurd (cc)

  -- A secret that SerializeSecret stores, with an encryption key or without, is what
  -- DeserializeSecret2 opens with the same encryption key, on any key of that type with that
  -- secret; the ciphers are supposed to keep to their laws, the random source to give as many
  -- bytes as it is asked for, and the strings of the secret to be valid UTF-8.
  pub deserialize-serialize :
      (encryption : Text) (random : ℕ → Result Text) (key key' k : AccessKey)
      → Fills random
      → is_utf8 c key.type key ≡ true
      → serialize_secret c encryption random key ≡ ok key'
      → k.type ≡ key.type
      → k.secret ≡ key'.secret
      → deserialize_secret2 c encryption k ≡ ok (with_secret_of key.type key k)
  unfolding serialize_secret store_secret deserialize_secret2
  deserialize-serialize encryption random key key' k fills u h t e =
      bind-eq-ok (deserialize_secret2 c encryption k ≡ ok (with_secret_of key.type key k))
        (plaintext c key key.type) (store_secret c encryption random key) {b = key'} go h
    where
      go :
          (o : Option Text)
          → plaintext c key key.type ≡ ok o
          → store_secret c encryption random key o ≡ ok key'
          → deserialize_secret2 c encryption k ≡ ok (with_secret_of key.type key k)
      go none p q = ground (arith, no_plaintext key key.type p)
      go (some s) p q =
          bind-eq-ok (deserialize_secret2 c encryption k ≡ ok (with_secret_of key.type key k))
            (encrypt c encryption random s) _ {b = key'}
            (λ secret x y.
              let enc = encrypt-Encrypted c encryption random s secret fills x in
              let m = unmarshal-plaintext key k key.type s u p in
              let form = Encrypted-form encryption s secret m.0 enc in
              let opened =
                Encrypted-opens encryption s secret k (with_secret_of key.type key k)
                  (subst (λ x. unmarshal_field c k x s ≡ decoded (with_secret_of key.type key k))
                    (sym t) m.1)
                  enc in
              ground (arith, form.0, form.1, opened))
            q
