-- ===== src/Tasks/Incoming/Chain.antt =====
-- The chain of builds that GetIncomingVersion goes back along ends (db/Task.go), unless a task deploys
-- itself.
use contribute_semaphore.Base.{
  ℕ, zero, suc, ◌<◌, ◌≤◌, ◌≡◌, refl, ap, false, Option, none, some, arith,
}
use contribute_semaphore.Base.Text.{Text}
use contribute_semaphore.Model.Store.{TaskStore, Result, ok, err}
use contribute_semaphore.Model.Task.{Task}
use contribute_semaphore.Model.Template.{Template}
use contribute_semaphore.Tasks.Incoming.{
  is_build, Round, no_version, found, back, incoming_round, incoming_fuel, get_incoming_version,
}

incoming_fuel-lt : (n : ℕ) → n ≤ 2147483647 → n < incoming_fuel
unfolding incoming_fuel
incoming_fuel-lt n h = omega arith

module _ {S : Type 0} (db : TaskStore S) (s : S) (rank : ℕ → ℕ) where
  -- A task names a build of a lower rank, if any. The rank of a number is the place at which the
  -- store has given it: the number itself in SQL, 2147483647 less the number in BoltDB.
  abbrev pub IsRanked : Task → Type 0
  IsRanked t = (rank t.id ≤ 2147483647) × ((b : ℕ) → t.build_task_id ≡ some b → rank b < rank t.id)

  -- The store has each task under its number, and its build is of a lower rank.
  abbrev pub HasRanks : Type 0
  HasRanks = (p b : ℕ) (t : Task) → db.get_task p b s ≡ ok t → (t.id ≡ b) × IsRanked t

  -- The task that a round goes back to is the build of the task.
  back-build :
      (t u : Task)
      → incoming_round db s t ≡ back u
      → (b : ℕ) × (t.build_task_id ≡ some b) × (db.get_task t.project_id b s ≡ ok u)
  unfolding incoming_round
  back-build t u h = go t.build_task_id refl
    where
      go :
          (o : Option ℕ)
          → t.build_task_id ≡ o
          → (b : ℕ) × (t.build_task_id ≡ some b) × (db.get_task t.project_id b s ≡ ok u)
      go none e = absurd (ground arith)
      go (some b) e = by_task (db.get_task t.project_id b s) refl
        where
          by_task :
              (o : Result Task)
              → db.get_task t.project_id b s ≡ o
              → (b' : ℕ) × (t.build_task_id ≡ some b') × (db.get_task t.project_id b' s ≡ ok u)
          by_task (err x) f = absurd (ground arith)
          by_task (ok v) f = by_template (db.get_template t.project_id v.template_id s) refl
            where
              by_template :
                  (o : Result Template)
                  → db.get_template t.project_id v.template_id s ≡ o
                  → (b' : ℕ) × (t.build_task_id ≡ some b') × (db.get_task t.project_id b' s ≡ ok u)
              by_template (err x) g = absurd (ground arith)
              by_template (ok tpl) g = (b, e, ground arith)

  ends :
      HasRanks
      → (fuel : ℕ) (t : Task) → rank t.id < fuel
      → IsRanked t
      → (v : Option Text) × (get_incoming_version db s fuel t ≡ some v)
  unfolding get_incoming_version
  ends older zero t l o = absurd (omega arith)
  ends older (suc fuel) t l o = go (λ u. ends older fuel u) (incoming_round db s t) refl
    where
      go :
          ((u : Task)
            → rank u.id < fuel
            → IsRanked u
            → (v : Option Text) × (get_incoming_version db s fuel u ≡ some v))
          → (r : Round db s) → incoming_round db s t ≡ r
          → (v : Option Text) × (get_incoming_version db s (suc fuel) t ≡ some v)
      go ih no_version e = (none, rw (e, get_incoming_version) refl)
      go ih (found v) e = (v, rw (e, get_incoming_version) refl)
      go ih (back u) e =
          let b = back-build t u e in
          let k = older t.project_id b.0 u b.2 in
          rw (e, get_incoming_version) (ih u (ground (arith, k.0, o.1 b.0 b.1)) k.1)

  -- Where the store has each task under its number, the numbers have ranks up to 2147483647, such
  -- as the order in which the store gave them, upwards in SQL and downwards in BoltDB, and every
  -- task names a build of a lower rank or none, GetIncomingVersion ends within 2147483648 rounds,
  -- which is the fuel it is given.
  pub get_incoming_version-total :
      HasRanks
      → (t : Task) → IsRanked t
      → (v : Option Text) × (get_incoming_version db s incoming_fuel t ≡ some v)
  get_incoming_version-total older t o =
      ends older incoming_fuel t (incoming_fuel-lt (rank t.id) o.0) o

module _ {S : Type 0} (db : TaskStore S) (s : S) where
  itself :
      (t : Task) (tpl : Template)
      → t.build_task_id ≡ some t.id
      → db.get_task t.project_id t.id s ≡ ok t
      → db.get_template t.project_id t.template_id s ≡ ok tpl
      → is_build tpl.type ≡ false
      → incoming_round db s t ≡ back t
  unfolding incoming_round
  itself t tpl b g p n =
      rw (b, g, p, n, incoming_round) (ap (λ o. back (record t { build_task_id = o })) b)

  -- On a task that names itself as its build, and whose template is no build template,
  -- GetIncomingVersion does not end, whatever the fuel.
  pub self_build_never_ends :
      (t : Task) (tpl : Template)
      → t.build_task_id ≡ some t.id
      → db.get_task t.project_id t.id s ≡ ok t
      → db.get_template t.project_id t.template_id s ≡ ok tpl
      → is_build tpl.type ≡ false
      → (fuel : ℕ) → get_incoming_version db s fuel t ≡ none
  unfolding get_incoming_version
  self_build_never_ends t tpl b g p n zero = refl
  self_build_never_ends t tpl b g p n (suc fuel) =
      rw (itself t tpl b g p n, get_incoming_version) (self_build_never_ends t tpl b g p n fuel)
