-- ===== src/Keys/Rekey.antt =====
-- What is read after RekeyAccessKeys (db/bolt/access_key.go).
use contribute_semaphore.Base.{ℕ, ◌≡◌, refl, sym, subst, ◌∙◌, ◌≢◌, true, some, List, [], ◌∷◌, arith}
use contribute_semaphore.Base.Lists.{All, All-map, All-zip}
use contribute_semaphore.Base.Text.{Text}
use contribute_semaphore.Keys.Cipher.{Ciphers, CipherLaws}
use contribute_semaphore.Keys.RoundTrip.{with_secret_of, is_utf8, Fills, deserialize-serialize}
use contribute_semaphore.Keys.SameKey.{serialize_secret-SameKey, deserialize_secret2-SameKey}
use contribute_semaphore.Keys.Secret.{serialize_secret, deserialize_secret2}
use contribute_semaphore.Keys.Stored.{serialize_secret-kept}
use contribute_semaphore.Keys.Table.{
  KeyTable, KeyTableLaws, stored, Distinct, project_id_of, rekey_key, rekey_keys, rekey_projects,
  rekey_access_keys,
}
use contribute_semaphore.Model.Resources.{AccessKey, Project}
use contribute_semaphore.Model.Store.{Result, ok, bind-eq-ok}

module _ {D : Type 0} (c : Ciphers) (laws : CipherLaws c) (t : KeyTable D)
    (keeps : KeyTableLaws c t) (encryption old : Text) (random : AccessKey → ℕ → Result Text)
    (fills : (k : AccessKey) → Fills (random k)) where
  -- A key opens under the new encryption key to what it was opened to under the old one.
  abbrev pub Rekeyed : ℕ → D → AccessKey → Type 0
  Rekeyed p d' k =
      (o : AccessKey) × (k' : AccessKey) × (deserialize_secret2 c old k ≡ ok o)
      × (t.get_access_key p k.id d' ≡ ok k')
      × (deserialize_secret2 c encryption k' ≡ ok (with_secret_of k.type o k'))

  -- What a key opens to is valid UTF-8.
  abbrev pub OpensToUtf8 : AccessKey → Type 0
  OpensToUtf8 k = (o : AccessKey) → deserialize_secret2 c old k ≡ ok o → is_utf8 c o.type o ≡ true

  -- The keys of one project are written, and no other.
  record Frame (p : ℕ) (ks : List AccessKey) (d d' : D) : Type 0 where
    pub others :
        (id : ℕ) → All (λ k. k.id ≢ id) ks → t.get_access_key p id d' ≡ t.get_access_key p id d
    pub elsewhere : (q id : ℕ) → p ≢ q → t.get_access_key q id d' ≡ t.get_access_key q id d
    pub lists : (q : ℕ) → p ≢ q → t.get_access_keys q d' ≡ t.get_access_keys q d

  rekey_key-Rekeyed :
      (p : ℕ) (k : AccessKey) (d d' : D)
      → k.project_id ≡ some p
      → OpensToUtf8 k
      → rekey_key c t encryption old random k d ≡ ok d'
      → Rekeyed p d' k × Frame p (k ∷ []) d d'
  unfolding rekey_key project_id_of
  rekey_key-Rekeyed p k d d' own utf8 h =
      bind-eq-ok (Rekeyed p d' k × Frame p (k ∷ []) d d') (deserialize_secret2 c old k) _ {b = d'}
        (λ o x f.
          bind-eq-ok (Rekeyed p d' k × Frame p (k ∷ []) d d')
            (serialize_secret c encryption (random k) o) _ {b = d'}
            (λ k' y g.
              let before = deserialize_secret2-SameKey c old k o x in
              let after = serialize_secret-SameKey c encryption (random k) o k' y in
              let kept = serialize_secret-kept c laws encryption (random k) o k' y in
              let w : t.update_key p k' d ≡ ok d' = ground (arith, before.project, after.project) in
              (
                (
                  o,
                  stored c k',
                  x,
                  ground (arith, before.id, after.id, keeps.get-update p k' d d' p k.id w),
                  subst
                      (λ ty.
                        deserialize_secret2 c encryption (stored c k')
                        ≡ ok (with_secret_of ty o (stored c k')))
                      before.type
                      (deserialize-serialize c laws encryption (random k) o k' (stored c k')
                        (fills k) (utf8 o x) y (kept.0 ∙ after.type) kept.1),
                ),
                record {
                  others = λ id z.
                      ground (arith, before.id, after.id, keeps.get-update p k' d d' p id w);
                  elsewhere = λ q id z. ground (arith, keeps.get-update p k' d d' q id w);
                  lists = λ q z. keeps.get_all-update p k' d d' q w z;
                },
              ))
            f)
        h

  rekey_keys-Rekeyed :
      (p : ℕ) (ks : List AccessKey) (d d' : D)
      → All (λ k. k.project_id ≡ some p) ks
      → Distinct (λ k. k.id) ks
      → All OpensToUtf8 ks
      → rekey_keys c t encryption old random ks d ≡ ok d'
      → All (Rekeyed p d') ks × Frame p ks d d'
  unfolding rekey_keys
  rekey_keys-Rekeyed p [] d d' own apart utf8 h =
      let e : d ≡ d' = ground arith in
      (
        tt,
        subst (Frame p [] d) e
            (record { others = λ id z. refl; elsewhere = λ q id z. refl; lists = λ q z. refl }),
      )
  rekey_keys-Rekeyed p (k ∷ ks) d d' own apart utf8 h =
      bind-eq-ok (All (Rekeyed p d') (k ∷ ks) × Frame p (k ∷ ks) d d')
        (rekey_key c t encryption old random k d) (rekey_keys c t encryption old random ks) {b = d'}
        (λ d1 x y.
          let one = rekey_key-Rekeyed p k d d1 own.0 utf8.0 x in
          let rest = rekey_keys-Rekeyed p ks d1 d' own.1 apart.1 utf8.1 y in
          let (o, k', m, n, l) = one.0 in
          (
            (
              (o, k', m, rest.1.others k.id (All-map _ _ (λ a q e. q (sym e)) ks apart.0) ∙ n, l),
              rest.0,
            ),
            record {
              others = λ id z. rest.1.others id z.1 ∙ one.1.others id (z.0, tt);
              elsewhere = λ q id z. rest.1.elsewhere q id z ∙ one.1.elsewhere q id z;
              lists = λ q z. rest.1.lists q z ∙ one.1.lists q z;
            },
          ))
        h

  -- The bucket of a project as it was, with each of its keys re-keyed.
  abbrev pub ProjectRekeyed : D → D → Project → Type 0
  ProjectRekeyed d d' p =
      (ks : List AccessKey) × (t.get_access_keys p.id d ≡ ok ks) × All (Rekeyed p.id d') ks

  -- The bucket of a project has keys of the project only, each with another ID, and what they open
  -- to is valid UTF-8.
  abbrev pub InOrder : D → Project → Type 0
  InOrder d p =
      (ks : List AccessKey)
      → t.get_access_keys p.id d ≡ ok ks
      → All (λ k. k.project_id ≡ some p.id) ks × Distinct (λ k. k.id) ks × All OpensToUtf8 ks

  -- Projects that the loop does not reach are read as before.
  abbrev Untouched : List Project → D → D → Type 0
  Untouched ps d d' =
      (q : ℕ)
      → All (λ p. p.id ≢ q) ps
      → (t.get_access_keys q d' ≡ t.get_access_keys q d)
        × ((id : ℕ) → t.get_access_key q id d' ≡ t.get_access_key q id d)

  rekey_projects-Rekeyed :
      (ps : List Project) (d d' : D)
      → Distinct (λ p. p.id) ps
      → All (InOrder d) ps
      → rekey_projects c t encryption old random ps d ≡ ok d'
      → All (ProjectRekeyed d d') ps × Untouched ps d d'
  unfolding rekey_projects
  rekey_projects-Rekeyed [] d d' apart utf8 h =
      let e : d ≡ d' = ground arith in (tt, subst (Untouched [] d) e (λ q z. (refl, λ id. refl)))
  rekey_projects-Rekeyed (p ∷ ps) d d' apart utf8 h =
      let goal = All (ProjectRekeyed d d') (p ∷ ps) × Untouched (p ∷ ps) d d' in
      bind-eq-ok goal (t.get_access_keys p.id d) _ {b = d'}
        (λ ks e z.
          bind-eq-ok goal (rekey_keys c t encryption old random ks d)
            (rekey_projects c t encryption old random ps) {b = d'}
            (λ d1 x rest.
              let own = utf8.0 ks e in
              let one = rekey_keys-Rekeyed p.id ks d d1 own.0 own.1 own.2 x in
              let still =
                All-zip _ _ (InOrder d1) (λ q ne u ks' e'. u ks' (sym (one.1.lists q.id ne) ∙ e'))
                  ps apart.0 utf8.1 in
              let later = rekey_projects-Rekeyed ps d1 d' apart.1 still rest in
              let left = later.1 p.id (All-map _ _ (λ q ne e'. ne (sym e')) ps apart.0) in
              (
                (
                  (ks, e, All-map _ _ (λ k r. (r.0, r.1, r.2, left.1 k.id ∙ r.3, r.4)) ks one.0),
                  All-zip _ _ (ProjectRekeyed d d')
                      (λ q ne r. (r.0, sym (one.1.lists q.id ne) ∙ r.1, r.2)) ps apart.0 later.0,
                ),
                λ q far. (
                  (later.1 q far.1).0 ∙ one.1.lists q far.0,
                  λ id. (later.1 q far.1).1 id ∙ one.1.elsewhere q id far.0,
                ),
              ))
            z)
        h

  -- Where RekeyAccessKeys succeeds, every key of every project that the old encryption key opened
  -- is opened by the new one to the same login, password and private key; the ciphers and the
  -- table are supposed to keep to their laws, the projects to have different IDs, the bucket of
  -- each project to have keys of that project only, with different IDs, and the secrets to be
  -- valid UTF-8.
  pub rekey_access_keys-Rekeyed :
      (ps : List Project) (d d' : D)
      → t.get_projects d ≡ ok ps
      → Distinct (λ p. p.id) ps
      → All (InOrder d) ps
      → rekey_access_keys c t encryption old random d ≡ ok d'
      → All (ProjectRekeyed d d') ps
  unfolding rekey_access_keys
  rekey_access_keys-Rekeyed ps d d' e apart utf8 h =
      (rekey_projects-Rekeyed ps d d' apart utf8 (ground arith)).0
