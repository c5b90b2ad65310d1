-- ===== src/Keys/Table.antt =====
-- UpdateAccessKey, CreateAccessKey and RekeyAccessKeys (db/bolt/access_key.go), over the operations
-- of db/bolt/BoltDb.go on the table of the access keys.
use contribute_semaphore.Base.{ℕ, ◌≡◌, ◌≢◌, false, ◌&&◌, Option, none, some, List, [], ◌∷◌}
use contribute_semaphore.Base.Tests.{◌==◌, if◌then◌else◌}
use contribute_semaphore.Base.Lists.{All}
use contribute_semaphore.Base.Text.{Text, text}
use contribute_semaphore.Keys.Cipher.{Ciphers}
use contribute_semaphore.Keys.Secret.{validate_key, serialize_secret, deserialize_secret2}
use contribute_semaphore.Model.Resources.{
  AccessKey, AccessKeyType, ssh, no_key, login_password, other_key, Project,
}
use contribute_semaphore.Model.Store.{Result, ok, err, failure, ◌>>=◌}

-- getObject, getObjects, createObject and updateObject at AccessKeyProps and ProjectProps, in one
-- transaction.
pub record KeyTable (D : Type 0) : Type 0 where
  pub get_projects : D → Result (List Project)
  pub get_access_keys : ℕ → D → Result (List AccessKey)
  pub get_access_key : ℕ → ℕ → D → Result AccessKey
  pub create_key : ℕ → AccessKey → D → Result (AccessKey × D)
  pub update_key : ℕ → AccessKey → D → Result D

abbrev pub kept_type : Ciphers → AccessKeyType → AccessKeyType
kept_type c (other_key t) = other_key (c.to_valid_utf8 t)
kept_type c ssh = ssh
kept_type c no_key = no_key
kept_type c login_password = login_password

abbrev pub kept_secret : Ciphers → Option Text → Option Text
kept_secret c none = none
kept_secret c (some s) = some (c.to_valid_utf8 s)

-- What is read of a key that was written: the fields with the tag `-` are not stored, and JSON
-- replaces what is no valid UTF-8.
abbrev pub stored : Ciphers → AccessKey → AccessKey
stored c k = record k {
  name = c.to_valid_utf8 k.name;
  type = kept_type c k.type;
  secret = kept_secret c k.secret;
  login_password = record { login = []; password = [] };
  ssh_key = record { login = []; passphrase = []; private_key = [] };
  override_secret = false;
}

-- Each element has another number than those after it.
abbrev pub Distinct {ℓ} : {A : Type ℓ} → (A → ℕ) → List A → Type 0
Distinct id [] = Unit {0}
Distinct id (x ∷ xs) = All (λ y. id x ≢ id y) xs × Distinct id xs

-- A key that is written in the bucket of a project is read back there, whichever project it names,
-- and no other key changes; the lists of the other buckets are as before. The buckets of BoltDB keep
-- to this by reading: updateObjectTx puts the key under its ID in the bucket it is given, getObject
-- reads one bucket at one ID, and getObjects one bucket.
pub record KeyTableLaws {D : Type 0} (c : Ciphers) (t : KeyTable D) : Type 0 where
  pub get-update :
      (p : ℕ) (k : AccessKey) (d d' : D) (q id : ℕ)
      → t.update_key p k d ≡ ok d'
      → t.get_access_key q id d'
        ≡ (if (p == q) && (k.id == id) then ok (stored c k) else t.get_access_key q id d)
  pub get_all-update :
      (p : ℕ) (k : AccessKey) (d d' : D) (q : ℕ)
      → t.update_key p k d ≡ ok d'
      → p ≢ q
      → t.get_access_keys q d' ≡ t.get_access_keys q d

-- `*key.ProjectID`. The panic is an error here: it leaves the file as it was, too.
unfoldable pub project_id_of : AccessKey → Result ℕ
project_id_of k = elim k.project_id [
  | none ↦ err (failure (text "nil pointer dereference"))
  | some p ↦ ok p
]

-- `encryption` is the encryption key of the configuration.
module _ {D : Type 0} (c : Ciphers) (t : KeyTable D) (encryption : Text) where
  -- Without a new secret only the name is taken.
  unfoldable pub key_to_write : (ℕ → Result Text) → AccessKey → D → Result AccessKey
  key_to_write random key d =
      if key.override_secret
      then serialize_secret c encryption random key
      else (project_id_of key >>= λ p.
          t.get_access_key p key.id d >>= λ old. ok (record old { name = key.name }))

  unfoldable pub update_access_key : (ℕ → Result Text) → AccessKey → D → Result D
  unfolding key_to_write
  update_access_key random key d = validate_key key.override_secret key >>= λ u.
      key_to_write random key d >>= λ k. project_id_of k >>= λ p. t.update_key p k d

  unfoldable pub create_access_key : (ℕ → Result Text) → AccessKey → D → Result (AccessKey × D)
  create_access_key random key d =
      serialize_secret c encryption random key >>= λ k. project_id_of k >>= λ p. t.create_key p k d

  -- One round of the inner loop; `random` is what rand.Reader gives for each key.
  unfoldable pub rekey_key : Text → (AccessKey → ℕ → Result Text) → AccessKey → D → Result D
  rekey_key old random key d = deserialize_secret2 c old key >>= λ o.
      serialize_secret c encryption (random key) o >>= λ k.
      project_id_of k >>= λ p. t.update_key p k d

  unfoldable pub rekey_keys : Text → (AccessKey → ℕ → Result Text) → List AccessKey → D → Result D
  rekey_keys old random [] d = ok d
  rekey_keys old random (k ∷ ks) d = rekey_key old random k d >>= rekey_keys old random ks

  unfoldable pub rekey_projects : Text → (AccessKey → ℕ → Result Text) → List Project → D → Result D
  rekey_projects old random [] d = ok d
  rekey_projects old random (p ∷ ps) d =
      t.get_access_keys p.id d >>= λ ks. rekey_keys old random ks d >>= rekey_projects old random ps

  -- An error leaves the file as it was, for the transaction is rolled back.
  unfoldable pub rekey_access_keys : Text → (AccessKey → ℕ → Result Text) → D → Result D
  rekey_access_keys old random d = t.get_projects d >>= λ ps. rekey_projects old random ps d
