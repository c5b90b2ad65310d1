-- ===== src/Migrations/Applied.antt =====
-- Which migrations are applied when Migrate ends (db/Migration.go).
use contribute_semaphore.Base.{
  ◌≡◌, refl, subst, Bool, true, false, Option, none, some, List, [], ◌∷◌, arith,
}
use contribute_semaphore.Base.Lists.{All}
use contribute_semaphore.Base.Text.{Text}
use contribute_semaphore.Model.Store.{Error}
use contribute_semaphore.Migrations.{
  MigrationStore, MigrationLaws, get_migrations, apply_one, migrate_one, migrate_all, migrate,
}
use contribute_semaphore.Tasks.World.{Outcome, done, panic}

module _ {D : Type 0} (m : MigrationStore D) (laws : MigrationLaws m) where
  abbrev pub IsApplied : D → Text → Type 0
  IsApplied d v = (m.is_migration_applied v d).0 ≡ true

  abbrev Kept : D → D → Type 0
  Kept d d' = (u : Text) → IsApplied d u → IsApplied d' u

  apply_one-IsApplied :
      (v : Text) (d d' : D) → apply_one m v d ≡ done (d', none) → IsApplied d' v × Kept d d'
  unfolding apply_one
  apply_one-IsApplied v d d' h = go (m.apply_migration v d) refl
    where
      go : (r : Outcome (D × Option Error)) → m.apply_migration v d ≡ r → IsApplied d' v × Kept d d'
      go (panic msg) e = absurd (ground arith)
      go (done (f, some x)) e = absurd (ground arith)
      go (done (f, none)) e =
          let q : m.apply_migration v d ≡ done (d', none) = ground arith in
          (laws.applied-apply_self v d d' q, λ u. laws.applied-apply v u d d' none q)

  migrate_one-IsApplied :
      (v : Text) (d d' : D) → migrate_one m v d ≡ done (d', none) → IsApplied d' v × Kept d d'
  unfolding migrate_one
  migrate_one-IsApplied v d d' h =
      go (m.is_migration_applied v d).0 (m.is_migration_applied v d).1 refl refl
    where
      go :
          (x : Bool) (e : Option Error)
          → (m.is_migration_applied v d).0 ≡ x
          → (m.is_migration_applied v d).1 ≡ e
          → IsApplied d' v × Kept d d'
      go true e p q =
          let same : d ≡ d' = ground arith in
          subst (λ f. IsApplied f v × Kept d f) same (p, λ u a. a)
      go false (some x) p q = absurd (ground arith)
      go false none p q = apply_one-IsApplied v d d' (ground arith)

  migrate_all-IsApplied :
      (vs : List Text) (d d' : D)
      → migrate_all m vs d ≡ done (d', none)
      → All (IsApplied d') vs × Kept d d'
  unfolding migrate_all
  migrate_all-IsApplied [] d d' h =
      let same : d ≡ d' = ground arith in (tt, subst (Kept d) same (λ u a. a))
  migrate_all-IsApplied (v ∷ vs) d d' h =
      go (λ f. migrate_all-IsApplied vs f d') (migrate_one m v d) refl
    where
      go :
          ((f : D) → migrate_all m vs f ≡ done (d', none) → All (IsApplied d') vs × Kept f d')
          → (r : Outcome (D × Option Error)) → migrate_one m v d ≡ r
          → All (IsApplied d') (v ∷ vs) × Kept d d'
      go ih (panic msg) e = absurd (ground arith)
      go ih (done (f, some x)) e = absurd (ground arith)
      go ih (done (f, none)) e =
          let one = migrate_one-IsApplied v d f e in
          let rest = ih f (ground arith) in ((rest.1 v one.0, rest.0), λ u a. rest.1 u (one.1 u a))

  migrate_all_again :
      (vs : List Text) (d : D) → All (IsApplied d) vs → migrate_all m vs d ≡ done (d, none)
  unfolding migrate_all migrate_one
  migrate_all_again [] d h = refl
  migrate_all_again (v ∷ vs) d h = ground (arith, h.0, migrate_all_again vs d h.1)

  -- After a Migrate that succeeds every migration is applied, and a second one succeeds and
  -- changes nothing; the store is supposed to keep to the laws of migrations.
  pub migrate_twice :
      (d d' : D)
      → migrate m d ≡ done (d', none)
      → All (IsApplied d') get_migrations × (migrate m d' ≡ done (d', none))
  unfolding migrate
  migrate_twice d d' h =
      let all = migrate_all-IsApplied get_migrations d d' h in
      (all.0, migrate_all_again get_migrations d' all.0)
