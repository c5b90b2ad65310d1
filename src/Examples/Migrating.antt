-- ===== src/Examples/Migrating.antt =====
-- The theorems on migrations, at the database file in memory, and on a remote job.
use contribute_semaphore.Base.{◌≡◌, refl, Bool, false, Option, none, List, [], ◌∷◌, arith, ◌||◌}
use contribute_semaphore.Base.Lists.{All}
use contribute_semaphore.Base.Text.{Text, text, text_eq, text_eq_self}
use contribute_semaphore.Bolt.Migration.{MembersCodec, json_other, json_true, Members, member}
use contribute_semaphore.Bolt.Migration.Retry.{Migrated, set_role-again}
use contribute_semaphore.Bolt.Migration.Applied.{bolt_migrations, bolt_migrations_lawful}
use contribute_semaphore.Examples.Store.{file_store, file_laws}
use contribute_semaphore.Migrations.{
  MigrationLaws, MigrationStore, migrate, migrate_all, migrate_one, apply_one, get_migrations,
}
use contribute_semaphore.Migrations.Applied.{IsApplied, migrate_twice}
use contribute_semaphore.Model.Store.{ok, Error}
use contribute_semaphore.Tasks.World.{Outcome, done, panic}

abbrev member_codec : MembersCodec
member_codec = record {
  decode_members = λ s. ok [];
  encode_members = λ m. ok [];
  encode_migration = λ v. ok v;
}

bolt_migrations_lawful_example : MigrationLaws (bolt_migrations file_store file_laws member_codec)
bolt_migrations_lawful_example = bolt_migrations_lawful file_store file_laws member_codec

-- The versions that are applied.
abbrev known : Text → List Text → Bool
known v [] = false
known v (u ∷ us) = text_eq u v || known v us

abbrev versions : MigrationStore (List Text)
versions = record {
  is_migration_applied = λ v d. (known v d, none);
  apply_migration = λ v d. done (v ∷ d, none);
  try_rollback_migration = λ v d. d;
}

versions_laws : MigrationLaws versions
versions_laws = record {
  applied-apply_self =
      λ v d d' h. let e : v ∷ d ≡ d' = ground arith in rw (← e) ground (arith, text_eq_self v);
  applied-apply = λ v u d d' x h a. let e : v ∷ d ≡ d' = ground arith in rw (← e) ground (arith, a);
}

abbrev after : Outcome (List Text × Option Error) → List Text
after (done (d, e)) = d
after (panic m) = []

abbrev migrated : List Text
migrated = after (migrate versions (text "1.2.0" ∷ []))

migrate_twice_example :
    All (IsApplied versions versions_laws migrated) get_migrations
    × (migrate versions migrated ≡ done (migrated, none))
unfolding migrate migrate_all migrate_one apply_one text_eq
migrate_twice_example = migrate_twice versions versions_laws (text "1.2.0" ∷ []) migrated refl

abbrev owner : Members
owner = (text "user_id", json_other (text "9")) ∷ (text "admin", json_true) ∷ []

set_role-again_example :
    (m1 : Members) × (m2 : Members) × Migrated (text "owner") owner m1
    × Migrated (text "manager") m1 m2
unfolding member text_eq
set_role-again_example = set_role-again owner refl
