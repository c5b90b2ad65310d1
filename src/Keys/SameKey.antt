-- ===== src/Keys/SameKey.antt =====
-- SerializeSecret and DeserializeSecret2 (db/AccessKey.go) leave the ID, the project and the type alone.
use contribute_semaphore.Base.{ℕ, ◌≡◌, refl, ◌⊎◌, inl, inr, Option, none, some, [], arith}
use contribute_semaphore.Base.Tests.{Bool-cases}
use contribute_semaphore.Base.Text.{Text, text_eq}
use contribute_semaphore.Keys.Cipher.{
  Ciphers, decoded, syntax_error, other_error, ends_with_newline, Decoded,
}
use contribute_semaphore.Keys.Secret.{
  plaintext, encrypt, store_secret, serialize_secret, deserialize_secret2, unmarshal_field,
  open_plain, open_sealed, open_encoded, open_raw, decrypt,
}
use contribute_semaphore.Model.Resources.{
  AccessKey, AccessKeyType, ssh, no_key, login_password, other_key,
}
use contribute_semaphore.Model.Store.{Result, ok, ◌>>=◌, bind-eq-ok}

-- Two keys with one ID, project and type.
pub record SameKey (k k' : AccessKey) : Type 0 where
  pub id : k'.id ≡ k.id
  pub project : k'.project_id ≡ k.project_id
  pub type : k'.type ≡ k.type

module _ (c : Ciphers) where
  pub serialize_secret-SameKey :
      (encryption : Text) (random : ℕ → Result Text) (k k' : AccessKey)
      → serialize_secret c encryption random k ≡ ok k'
      → SameKey k k'
  unfolding serialize_secret store_secret
  serialize_secret-SameKey encryption random k k' h =
      bind-eq-ok (SameKey k k') (plaintext c k k.type) (store_secret c encryption random k) {b = k'}
        go h
    where
      go :
          (o : Option Text)
          → plaintext c k k.type ≡ ok o
          → store_secret c encryption random k o ≡ ok k'
          → SameKey k k'
      go none p q = record { id = ground arith; project = ground arith; type = ground arith }
      go (some s) p q =
          bind-eq-ok (SameKey k k') (encrypt c encryption random s)
            (λ secret. ok (record k { secret = some secret })) {b = k'}
            (λ secret x y. record {
              id = ground arith;
              project = ground arith;
              type = ground arith;
            })
            q

  unmarshal_field-SameKey :
      (k k' : AccessKey) (t : AccessKeyType) (s : Text)
      → unmarshal_field c k t s ≡ decoded k'
      → SameKey k k'
  unfolding unmarshal_field
  unmarshal_field-SameKey k k' ssh s h = record {
    id = ground arith;
    project = ground arith;
    type = ground arith;
  }
  unmarshal_field-SameKey k k' login_password s h = record {
    id = ground arith;
    project = ground arith;
    type = ground arith;
  }
  unmarshal_field-SameKey k k' no_key s h = record {
    id = ground arith;
    project = ground arith;
    type = ground arith;
  }
  unmarshal_field-SameKey k k' (other_key t) s h = record {
    id = ground arith;
    project = ground arith;
    type = ground arith;
  }

  open-SameKey :
      (k k' : AccessKey) (s : Text)
      → (open_plain c k s ≡ ok k') ⊎ (open_sealed c k s ≡ ok k')
      → SameKey k k'
  unfolding open_plain open_sealed
  open-SameKey k k' s h = go (unmarshal_field c k k.type s) refl h
    where
      go :
          (r : Decoded AccessKey)
          → unmarshal_field c k k.type s ≡ r
          → (open_plain c k s ≡ ok k') ⊎ (open_sealed c k s ≡ ok k')
          → SameKey k k'
      go (decoded o) e (inl x) = unmarshal_field-SameKey k k' k.type s (ground arith)
      go (decoded o) e (inr x) = unmarshal_field-SameKey k k' k.type s (ground arith)
      go (syntax_error o) e (inl x) = absurd (ground arith)
      go (syntax_error o) e (inr x) = absurd (ground arith)
      go (other_error o) e (inl x) = absurd (ground arith)
      go (other_error o) e (inr x) = absurd (ground arith)

  open_encoded-SameKey :
      (encryption : Text) (k k' : AccessKey) (secret : Text)
      → open_encoded c encryption k secret ≡ ok k'
      → SameKey k k'
  unfolding open_encoded
  open_encoded-SameKey encryption k k' secret h =
      bind-eq-ok (SameKey k k') (c.decode_base64 secret) _ {b = k'}
        (λ s e f. elim (Bool-cases (text_eq encryption [])) [
          | inl plain ↦ open-SameKey k k' s (inl (ground arith))
          | inr sealed ↦
              bind-eq-ok (SameKey k k') (c.decode_base64 encryption >>= c.new_gcm)
                (λ g. decrypt c g s >>= open_sealed c k) {b = k'}
                (λ g x y.
                  bind-eq-ok (SameKey k k') (decrypt c g s) (open_sealed c k) {b = k'}
                    (λ v m n. open-SameKey k k' v (inr n)) y)
                (ground arith)
        ])
        h

  open_raw-SameKey :
      (k k' : AccessKey) (t : AccessKeyType) (s : Text) → open_raw c k t s ≡ ok k' → SameKey k k'
  unfolding open_raw
  open_raw-SameKey k k' ssh s h = record {
    id = ground arith;
    project = ground arith;
    type = ground arith;
  }
  open_raw-SameKey k k' login_password s h = absurd (cc)
  open_raw-SameKey k k' no_key s h = absurd (cc)
  open_raw-SameKey k k' (other_key t) s h = absurd (cc)

  pub deserialize_secret2-SameKey :
      (encryption : Text) (k k' : AccessKey)
      → deserialize_secret2 c encryption k ≡ ok k'
      → SameKey k k'
  unfolding deserialize_secret2
  deserialize_secret2-SameKey encryption k k' h = go k.secret refl
    where
      same : ok k ≡ ok k' → SameKey k k'
      same e = record { id = ground arith; project = ground arith; type = ground arith }

      go : (o : Option Text) → k.secret ≡ o → SameKey k k'
      go none e = same (ground arith)
      go (some s) e = elim (Bool-cases (text_eq s [])) [
        | inl empty ↦ same (ground arith)
        | inr full ↦ elim (Bool-cases (ends_with_newline s)) [
          | inl raw ↦ open_raw-SameKey k k' k.type s (ground arith)
          | inr encoded ↦ open_encoded-SameKey encryption k k' s (ground arith)
        ]
      ]
