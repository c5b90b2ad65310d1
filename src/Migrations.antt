-- ===== src/Migrations.antt =====
-- Migrations of the database (db/Migration.go), over the three methods of the store that they call.
pub mod Applied
use contribute_semaphore.Base.{◌-◌, ◌/◌, ◌≡◌, Bool, true, Option, none, some, List, [], ◌∷◌, map}
use contribute_semaphore.Base.Tests.{if◌then◌else◌}
use contribute_semaphore.Base.Text.{Text, text}
use contribute_semaphore.Model.Store.{Error}
use contribute_semaphore.Tasks.World.{Outcome, done, panic}

-- A migration is its version; IsMigrationApplied gives its answer with an error, and ApplyMigration can
-- fail when it has changed the file in part.
pub record MigrationStore (D : Type 0) : Type 0 where
  pub is_migration_applied : Text → D → Bool × Option Error
  pub apply_migration : Text → D → Outcome (D × Option Error)
  pub try_rollback_migration : Text → D → D

-- A migration that is applied is so from then on.
pub record MigrationLaws {D : Type 0} (m : MigrationStore D) : Type 0 where
  pub applied-apply_self :
      (v : Text) (d d' : D)
      → m.apply_migration v d ≡ done (d', none)
      → (m.is_migration_applied v d').0 ≡ true
  pub applied-apply :
      (v u : Text) (d d' : D) (e : Option Error)
      → m.apply_migration v d ≡ done (d', e)
      → (m.is_migration_applied u d).0 ≡ true
      → (m.is_migration_applied u d').0 ≡ true

-- GetMigrations
abbrev pub get_migrations : List Text
get_migrations = map text (
    "0.0.0" ∷ "1.0.0" ∷ "1.2.0" ∷ "1.3.0" ∷ "1.4.0" ∷ "1.5.0" ∷ "1.6.0" ∷ "1.7.0" ∷ "1.8.0"
    ∷ "1.9.0" ∷ "2.2.1" ∷ "2.3.0" ∷ "2.3.1" ∷ "2.3.2" ∷ "2.4.0" ∷ "2.5.0" ∷ "2.5.2" ∷ "2.7.1"
    ∷ "2.7.4" ∷ "2.7.6" ∷ "2.7.8" ∷ "2.7.9" ∷ "2.7.10" ∷ "2.7.12" ∷ "2.7.13" ∷ "2.8.0" ∷ "2.8.1"
    ∷ "2.8.7" ∷ "2.8.8" ∷ "2.8.20" ∷ "2.8.25" ∷ "2.8.26" ∷ "2.8.36" ∷ "2.8.38" ∷ "2.8.39" ∷ "2.8.40"
    ∷ "2.8.42" ∷ "2.8.51" ∷ "2.8.57" ∷ "2.8.58" ∷ "2.8.91" ∷ "2.9.6" ∷ [])

module _ {D : Type 0} (m : MigrationStore D) where
  -- An error of ApplyMigration is returned when its migration has been rolled back.
  unfoldable pub apply_one : Text → D → Outcome (D × Option Error)
  apply_one v d = elim (m.apply_migration v d) [
    | panic msg ↦ panic msg
    | done (d', none) ↦ done (d', none)
    | done (d', some e) ↦ done (m.try_rollback_migration v d', some e)
  ]

  -- One round of the loop; a version that is applied is passed over, whatever the error.
  unfoldable pub migrate_one : Text → D → Outcome (D × Option Error)
  unfolding apply_one
  migrate_one v d =
      let (exists, e) = m.is_migration_applied v d in
      if exists then done (d, none) else elim e [ some x ↦ done (d, some x) | none ↦ apply_one v d ]

  unfoldable pub migrate_all : List Text → D → Outcome (D × Option Error)
  migrate_all [] d = done (d, none)
  migrate_all (v ∷ vs) d = elim (migrate_one v d) [
    | panic msg ↦ panic msg
    | done (d', some e) ↦ done (d', some e)
    | done (d', none) ↦ migrate_all vs d'
  ]

  unfoldable pub migrate : D → Outcome (D × Option Error)
  migrate d = migrate_all get_migrations d
