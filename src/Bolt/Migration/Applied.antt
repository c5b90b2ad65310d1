-- ===== src/Bolt/Migration/Applied.antt =====
-- BoltDB keeps to the laws of a store of migrations.
use contribute_semaphore.Base.{
  ◌≡◌, refl, subst, inl, inr, true, Option, none, some, List, [], ◌∷◌, arith,
}
use contribute_semaphore.Base.Tests.{Bool-cases}
use contribute_semaphore.Base.Text.{Text, text, text_eq, text_eq_self}
use contribute_semaphore.Bolt.Database.{Bbolt, BboltLaws}
use contribute_semaphore.Bolt.Migration.{
  Members, MembersCodec, bucket_of, set_raw_object, write_objects, write_projects, read_projects,
  change_objects, apply_change, get_project_ids, set_branch, rename_alias, set_role,
  migrations_bucket, record_migration, bolt_apply_migration, bolt_is_migration_applied,
}
use contribute_semaphore.Migrations.{MigrationStore, MigrationLaws}
use contribute_semaphore.Model.Store.{Result, ok, err, Error, bind-eq-ok}
use contribute_semaphore.Tasks.World.{Outcome, done, panic}

module _ {D : Type 0} (b : Bbolt D) (laws : BboltLaws b) (codec : MembersCodec) where
  abbrev pub bolt_migrations : MigrationStore D
  bolt_migrations = record {
    is_migration_applied = bolt_is_migration_applied b codec;
    apply_migration = bolt_apply_migration b codec;
    try_rollback_migration = λ v d. d;
  }

  abbrev Applied : Text → D → Type 0
  Applied v d = (bolt_is_migration_applied b codec v d).0 ≡ true

  -- A write to a bucket keeps what is recorded as applied, if it goes to another bucket or puts a
  -- record.
  put-Applied :
      (bucket k j u : Text) (d d1 d' : D)
      → b.create_bucket_if_not_exists bucket d ≡ ok d1
      → b.put bucket k j d1 ≡ ok d'
      → Applied u d
      → Applied u d'
  unfolding bolt_is_migration_applied
  put-Applied bucket k j u d d1 d' c p a = ground (
    arith,
    laws.has_bucket-create_kept bucket d d1 migrations_bucket c,
    laws.get-create bucket d d1 migrations_bucket u c,
    laws.has_bucket-put bucket k j d1 d' migrations_bucket p,
    laws.get-put bucket k j d1 d' migrations_bucket u p,
  )

  set_raw_object-Applied :
      (project prefix id u : Text) (m : Members) (d d' : D)
      → set_raw_object b codec project prefix id m d ≡ ok d'
      → Applied u d
      → Applied u d'
  unfolding set_raw_object
  set_raw_object-Applied project prefix id u m d d' h a =
      bind-eq-ok (Applied u d') (b.create_bucket_if_not_exists (bucket_of prefix project) d) _
        {b = d'}
        (λ d1 c f.
          bind-eq-ok (Applied u d') (codec.encode_members m) _ {b = d'}
            (λ j e p. put-Applied (bucket_of prefix project) id j u d d1 d' c p a) f)
        h

  record_migration-Applied :
      (v : Text) (d d' : D)
      → record_migration b codec v d ≡ ok d'
      → Applied v d' × ((u : Text) → Applied u d → Applied u d')
  unfolding record_migration bolt_is_migration_applied
  record_migration-Applied v d d' h =
      let goal = Applied v d' × ((u : Text) → Applied u d → Applied u d') in
      bind-eq-ok goal (b.create_bucket_if_not_exists migrations_bucket d) _ {b = d'}
        (λ d1 c f.
          bind-eq-ok goal (codec.encode_migration v) _ {b = d'}
            (λ j e p. (
              ground (
                arith,
                laws.has_bucket-create migrations_bucket d d1 c,
                laws.has_bucket-put migrations_bucket v j d1 d' migrations_bucket p,
                laws.get-put migrations_bucket v j d1 d' migrations_bucket v p,
                text_eq_self migrations_bucket,
                text_eq_self v,
              ),
              λ u. put-Applied migrations_bucket v j u d d1 d' c p,
            ))
            f)
        h

  abbrev Keeps : D → Outcome (D × Option Error) → Type 0
  Keeps d (done (d', e)) = (u : Text) → Applied u d → Applied u d'
  Keeps d (panic msg) = Unit {0}

  chain :
      (d f : D) (r : Outcome (D × Option Error))
      → ((u : Text) → Applied u d → Applied u f)
      → Keeps f r
      → Keeps d r
  chain d f (panic msg) k h = tt
  chain d f (done (d', e)) k h = λ u a. h u (k u a)

  write_objects-Keeps :
      (change : Members → Outcome Members) (prefix p : Text) (os : List (Text × Members)) (d : D)
      → Keeps d (write_objects b codec change prefix p os d)
  unfolding write_objects
  write_objects-Keeps change prefix p [] d = λ u a. a
  write_objects-Keeps change prefix p ((id, m) ∷ os) d =
      go (λ f. write_objects-Keeps change prefix p os f) (change m)
    where
      after :
          (ih : (f : D) → Keeps f (write_objects b codec change prefix p os f)) (m' : Members)
          (r : Result D)
          → set_raw_object b codec p prefix id m' d ≡ r
          → Keeps d (elim r as (λ z. Outcome (D × Option Error)) [
            | err e ↦ done (d, some e)
            | ok d' ↦ write_objects b codec change prefix p os d'
          ])
      after ih m' (err e) q = λ u a. a
      after ih m' (ok f) q =
          chain d f (write_objects b codec change prefix p os f)
            (λ u. set_raw_object-Applied p prefix id u m' d f q) (ih f)

      go :
          (ih : (f : D) → Keeps f (write_objects b codec change prefix p os f))
          (r : Outcome Members)
          → Keeps d (elim r as (λ z. Outcome (D × Option Error)) [
            | panic msg ↦ panic msg
            | done m' ↦
                elim (set_raw_object b codec p prefix id m' d)
                  as (λ z. Outcome (D × Option Error)) [
                    | err e ↦ done (d, some e)
                    | ok d' ↦ write_objects b codec change prefix p os d'
                  ]
          ])
      go ih (panic msg) = tt
      go ih (done m') = after ih m' (set_raw_object b codec p prefix id m' d) refl

  write_projects-Keeps :
      (change : Members → Outcome Members) (prefix : Text)
      (ps : List (Text × List (Text × Members))) (d : D)
      → Keeps d (write_projects b codec change prefix ps d)
  unfolding write_projects
  write_projects-Keeps change prefix [] d = λ u a. a
  write_projects-Keeps change prefix ((p, os) ∷ ps) d =
      go (λ f. write_projects-Keeps change prefix ps f) (write_objects b codec change prefix p os d)
        (write_objects-Keeps change prefix p os d)
    where
      go :
          (ih : (f : D) → Keeps f (write_projects b codec change prefix ps f))
          (r : Outcome (D × Option Error))
          → Keeps d r
          → Keeps d (elim r as (λ z. Outcome (D × Option Error)) [
            | panic msg ↦ panic msg
            | done (d', some e) ↦ done (d', some e)
            | done (d', none) ↦ write_projects b codec change prefix ps d'
          ])
      go ih (panic msg) k = tt
      go ih (done (f, some e)) k = k
      go ih (done (f, none)) k = chain d f (write_projects b codec change prefix ps f) k (ih f)

  change_objects-Keeps :
      (change : Members → Outcome Members) (prefix : Text) (d : D)
      → Keeps d (change_objects b codec change prefix d)
  unfolding change_objects
  change_objects-Keeps change prefix d =
      go (read_projects b codec prefix (get_project_ids b codec d) d)
    where
      go :
          (r : Result (List (Text × List (Text × Members))))
          → Keeps d (elim r as (λ z. Outcome (D × Option Error)) [
            | err e ↦ done (d, some e)
            | ok ps ↦ write_projects b codec change prefix ps d
          ])
      go (err e) = λ u a. a
      go (ok ps) = write_projects-Keeps change prefix ps d

  apply_change-Keeps : (v : Text) (d : D) → Keeps d (apply_change b codec v d)
  unfolding apply_change
  apply_change-Keeps v d = elim (Bool-cases (text_eq v (text "2.8.26"))) [
    | inl e ↦ rw e (change_objects-Keeps set_branch (text "repository") d)
    | inr e ↦ elim (Bool-cases (text_eq v (text "2.8.40"))) [
      | inl e' ↦ rw (e, e') (change_objects-Keeps rename_alias (text "template") d)
      | inr e' ↦ elim (Bool-cases (text_eq v (text "2.8.91"))) [
        | inl e'' ↦ rw (e, e', e'') (change_objects-Keeps set_role (text "user") d)
        | inr e'' ↦ rw (e, e', e'') (λ u a. a)
      ]
    ]
  ]

  -- What ApplyMigration leaves.
  bolt_apply-Applied :
      (v : Text) (d d' : D) (e : Option Error)
      → bolt_apply_migration b codec v d ≡ done (d', e)
      → ((u : Text) → Applied u d → Applied u d') × (e ≡ none → Applied v d')
  unfolding bolt_apply_migration
  bolt_apply-Applied v d d' e h = go (apply_change b codec v d) refl (apply_change-Keeps v d)
    where
      recorded :
          (f : D)
          → apply_change b codec v d ≡ done (f, none)
          → ((u : Text) → Applied u d → Applied u f)
          → (r : Result D) → record_migration b codec v f ≡ r
          → ((u : Text) → Applied u d → Applied u d') × (e ≡ none → Applied v d')
      recorded f q k (err x) p =
          let same : f ≡ d' = ground arith in
          (subst (λ z. (u : Text) → Applied u d → Applied u z) same k, λ n. absurd (ground arith))
      recorded f q k (ok g) p =
          let same : g ≡ d' = ground arith in
          let made = record_migration-Applied v f g p in
          subst (λ z. ((u : Text) → Applied u d → Applied u z) × (e ≡ none → Applied v z)) same
            (λ u a. made.1 u (k u a), λ n. made.0)

      go :
          (r : Outcome (D × Option Error))
          → apply_change b codec v d ≡ r
          → Keeps d r
          → ((u : Text) → Applied u d → Applied u d') × (e ≡ none → Applied v d')
      go (panic msg) q k = absurd (ground arith)
      go (done (f, some x)) q k =
          let same : f ≡ d' = ground arith in
          (subst (λ z. (u : Text) → Applied u d → Applied u z) same k, λ n. absurd (ground arith))
      go (done (f, none)) q k = recorded f q k (record_migration b codec v f) refl

  -- BoltDB keeps to the laws of migrations: a migration that it has applied is applied from then
  -- on, and no other migration, failed or not, undoes that; the file is supposed to keep to its
  -- laws.
  pub bolt_migrations_lawful : MigrationLaws bolt_migrations
  bolt_migrations_lawful = record {
    applied-apply_self = λ v d d' h. (bolt_apply-Applied v d d' none h).1 refl;
    applied-apply = λ v u d d' e h a. (bolt_apply-Applied v d d' e h).0 u a;
  }
