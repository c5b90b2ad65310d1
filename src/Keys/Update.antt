-- ===== src/Keys/Update.antt =====
-- What is read after UpdateAccessKey (db/bolt/access_key.go).
use contribute_semaphore.Base.{ℕ, ◌≡◌, refl, ◌∙◌, true, false, ◌&&◌, Option, none, some, arith}
use contribute_semaphore.Base.Tests.{◌==◌, if◌then◌else◌}
use contribute_semaphore.Base.Text.{Text}
use contribute_semaphore.Keys.Cipher.{Ciphers, CipherLaws}
use contribute_semaphore.Keys.RoundTrip.{with_secret_of, is_utf8, Fills, deserialize-serialize}
use contribute_semaphore.Keys.SameKey.{serialize_secret-SameKey}
use contribute_semaphore.Keys.Secret.{validate_key, serialize_secret, deserialize_secret2}
use contribute_semaphore.Keys.Stored.{serialize_secret-kept}
use contribute_semaphore.Keys.Table.{
  KeyTable, KeyTableLaws, stored, project_id_of, key_to_write, update_access_key,
}
use contribute_semaphore.Model.Resources.{AccessKey}
use contribute_semaphore.Model.Store.{Result, ok, ◌>>=◌, bind-eq-ok}

module _ {D : Type 0} (c : Ciphers) (t : KeyTable D) (keeps : KeyTableLaws c t) (encryption : Text)
    (random : ℕ → Result Text) where
  -- How an update that succeeds has gone.
  record Written (key : AccessKey) (d d' : D) : Type 0 where
    pub k : AccessKey
    pub p : ℕ
    pub chosen : key_to_write c t encryption random key d ≡ ok k
    pub project : k.project_id ≡ some p
    pub written : t.update_key p k d ≡ ok d'

  update-Written :
      (key : AccessKey) (d d' : D)
      → update_access_key c t encryption random key d ≡ ok d'
      → Written key d d'
  unfolding update_access_key project_id_of
  update-Written key d d' h =
      let goal = Written key d d' in
      bind-eq-ok goal (validate_key key.override_secret key) _ {b = d'}
        (λ u e f.
          bind-eq-ok goal (key_to_write c t encryption random key d) _ {b = d'}
            (λ k e' f'. go k k.project_id refl e' f') f)
        h
    where
      go :
          (k : AccessKey) (o : Option ℕ)
          → k.project_id ≡ o
          → key_to_write c t encryption random key d ≡ ok k
          → (project_id_of k >>= λ p. t.update_key p k d) ≡ ok d'
          → Written key d d'
      go k none e e' f = absurd (ground arith)
      go k (some p) e e' f = record {
        k = k;
        p = p;
        chosen = e';
        project = e;
        written = ground arith;
      }

  -- After an UpdateAccessKey that overrides the secret and succeeds, the key that is read back
  -- opens to the secret of the request; the ciphers and the table are supposed to keep to their
  -- laws, and the secret to be valid UTF-8.
  pub update_access_key-opens :
      CipherLaws c
      → (key : AccessKey) (d d' : D) (p : ℕ) → Fills random
      → is_utf8 c key.type key ≡ true
      → key.override_secret ≡ true
      → key.project_id ≡ some p
      → update_access_key c t encryption random key d ≡ ok d'
      → (k : AccessKey) × (t.get_access_key p key.id d' ≡ ok k)
        × (deserialize_secret2 c encryption k ≡ ok (with_secret_of key.type key k))
  unfolding key_to_write
  update_access_key-opens laws key d d' p fills u o own h =
      let w = update-Written key d d' h in
      let made : serialize_secret c encryption random key ≡ ok w.k = ground (arith, w.chosen) in
      let same = serialize_secret-SameKey c encryption random key w.k made in
      let kept = serialize_secret-kept c laws encryption random key w.k made in
      (
        stored c w.k,
        ground (
          arith,
          same.id,
          same.project,
          w.project,
          keeps.get-update w.p w.k d d' p key.id w.written,
        ),
        deserialize-serialize c laws encryption random key w.k (stored c w.k) fills u made
            (kept.0 ∙ same.type) kept.1,
      )

  pub update_access_key-named :
      (key old : AccessKey) (d d' : D) (p : ℕ)
      → key.override_secret ≡ false
      → key.project_id ≡ some p
      → t.get_access_key p key.id d ≡ ok old
      → old.id ≡ key.id
      → old.project_id ≡ some p
      → update_access_key c t encryption random key d ≡ ok d'
      → (q id : ℕ)
      → t.get_access_key q id d' ≡ (
          if (p == q) && (key.id == id)
          then ok (stored c (record old { name = key.name }))
          else t.get_access_key q id d)
  unfolding key_to_write project_id_of
  update_access_key-named key old d d' p o own e same place h q id =
      let w = update-Written key d d' h in
      ground (arith, w.chosen, w.project, keeps.get-update w.p w.k d d' q id w.written)
