-- ===== src/Schedules/Refresh.antt =====
-- Which entries cron has after Refresh (services/schedules/SchedulePool.go).
use contribute_semaphore.Base.{
  ℕ, ◌≡◌, refl, sym, ap, ◌∙◌, ◌↔◌, inl, inr, Bool, true, false, ◌||◌, some, List, [], ◌∷◌, ◌++◌,
  arith,
}
use contribute_semaphore.Base.Tests.{◌==◌, if◌then◌else◌, Bool-cases}
use mathlib.Core.List.{append_assoc, append-nil}
use contribute_semaphore.Base.Text.{Text, text}
use contribute_semaphore.Model.Resources.{Schedule}
use contribute_semaphore.Model.Store.{Result, ok, err, Error, error_text}
use contribute_semaphore.Schedules.{
  ScheduleRunner, Cron, CronLaws, without, SchedulePool, unlock_pool, remove_all, clear,
  add_runners, refill, refresh, create_schedule_pool,
}
use contribute_semaphore.Tasks.World.{done, panic}

abbrev pub runners : List (ℕ × ScheduleRunner) → List ScheduleRunner
runners [] = []
runners ((id, r) ∷ es) = r ∷ runners es

abbrev pub runner_of : Schedule → ScheduleRunner
runner_of s = record { project_id = s.project_id; schedule_id = s.id }

runners-append : (es fs : List (ℕ × ScheduleRunner)) → runners (es ++ fs) ≡ runners es ++ runners fs
runners-append [] fs = refl
runners-append ((id, r) ∷ es) fs = ap (◌∷◌ r) (runners-append es fs)

-- Whether cron takes a format is a matter of the format.
abbrev pub Accepts : {C : Type 0} → Cron C → (Text → Bool) → Type 0
Accepts {C} cron valid =
    (format : Text) (r : ScheduleRunner) (c : C)
    → (valid format ≡ true → (p : ℕ × C) × (cron.add_job format r c ≡ ok p))
      × (valid format ≡ false → (e : Error) × (cron.add_job format r c ≡ err e))

-- The entries of the schedules with a format that is valid.
abbrev pub scheduled : (Text → Bool) → List Schedule → List ScheduleRunner
scheduled valid [] = []
scheduled valid (s ∷ ss) =
    let rest = scheduled valid ss in if valid s.cron_format then runner_of s ∷ rest else rest

without_each : List (ℕ × ScheduleRunner) → List (ℕ × ScheduleRunner) → List (ℕ × ScheduleRunner)
without_each [] fs = fs
without_each ((id, r) ∷ es) fs = without_each es (without id fs)

-- The number of an entry is in a list.
abbrev numbered : ℕ → List (ℕ × ScheduleRunner) → Bool
numbered id [] = false
numbered id ((j, r) ∷ es) = j == id || numbered id es

abbrev Covered : List (ℕ × ScheduleRunner) → List (ℕ × ScheduleRunner) → Type 0
Covered es [] = Unit {0}
Covered es ((id, r) ∷ fs) = (numbered id es ≡ true) × Covered es fs

Covered-without :
    (id : ℕ) (r : ScheduleRunner) (es fs : List (ℕ × ScheduleRunner))
    → Covered ((id, r) ∷ es) fs
    → Covered es (without id fs)
Covered-without id r es [] h = tt
Covered-without id r es ((j, q) ∷ fs) h = elim (Bool-cases (j == id)) [
  | inl e ↦ rw e (Covered-without id r es fs h.1)
  | inr n ↦ rw n (ground (arith, h.0), Covered-without id r es fs h.1)
]

without_each_nil : (es fs : List (ℕ × ScheduleRunner)) → Covered es fs → without_each es fs ≡ []
unfolding without_each
without_each_nil [] [] h = refl
without_each_nil [] ((j, q) ∷ fs) h = absurd (ground arith)
without_each_nil ((id, r) ∷ es) fs h =
    without_each_nil es (without id fs) (Covered-without id r es fs h)

Covered-weaken :
    (id : ℕ) (r : ScheduleRunner) (es fs : List (ℕ × ScheduleRunner))
    → Covered es fs
    → Covered ((id, r) ∷ es) fs
Covered-weaken id r es [] h = tt
Covered-weaken id r es ((j, q) ∷ fs) h = (ground (arith, h.0), Covered-weaken id r es fs h.1)

Covered-self : (es : List (ℕ × ScheduleRunner)) → Covered es es
Covered-self [] = tt
Covered-self ((id, r) ∷ es) = (ground arith, Covered-weaken id r es es (Covered-self es))

module _ {C : Type 0} (cron : Cron C) (laws : CronLaws cron) where
  entries-remove_all :
      (es : List (ℕ × ScheduleRunner)) (c : C)
      → cron.entries (remove_all cron es c) ≡ without_each es (cron.entries c)
  unfolding remove_all without_each
  entries-remove_all [] c = refl
  entries-remove_all ((id, r) ∷ es) c =
      entries-remove_all es (cron.remove id c) ∙ ap (without_each es) (laws.entries-remove id c)

  entries-clear : (c : C) → cron.entries (clear cron c) ≡ []
  unfolding clear
  entries-clear c =
      entries-remove_all (cron.entries c) c
      ∙ without_each_nil (cron.entries c) (cron.entries c) (Covered-self (cron.entries c))

  module _ (valid : Text → Bool) (accepts : Accepts cron valid) where
    runners-add :
        (ss : List Schedule) (c : C) (log : List Text)
        → runners (cron.entries (add_runners cron ss (c, log)).0)
          ≡ runners (cron.entries c) ++ scheduled valid ss
    unfolding add_runners
    runners-add [] c log = sym (append-nil (runners (cron.entries c)))
    runners-add (s ∷ ss) c log = elim (Bool-cases (valid s.cron_format)) [
      | inr bad ↦
          let (x, e) = (accepts s.cron_format (runner_of s) c).1 bad in
          ground (arith, bad, e, runners-add ss c (log ++ error_text x ∷ []))
      | inl good ↦
          let ((id, c'), e) = (accepts s.cron_format (runner_of s) c).0 good in
          ground (
            arith,
            e,
            runners-add ss c' log,
            laws.entries-add s.cron_format (runner_of s) c c' id e,
            runners-append (cron.entries c) ((id, runner_of s) ∷ []),
            append_assoc (runners (cron.entries c)) (runner_of s ∷ []) (scheduled valid ss),
          )
    ]

    -- Where GetSchedules succeeds, Refresh ends with the pool unlocked and with just the entries
    -- of the schedules whose format is valid, in their order, whatever entries it had; cron is
    -- supposed to keep to its laws.
    pub refresh_lem :
        (ss : List Schedule) (p : SchedulePool C) (c : C)
        → p.cron ≡ some c
        → (q : SchedulePool C) × (c' : C) × (refresh cron (ok ss) p ≡ done q)
          × (q.cron ≡ some c')
          × (q.locked ≡ false)
          × (runners (cron.entries c') ≡ scheduled valid ss)
    unfolding refresh refill unlock_pool
    refresh_lem ss p c e =
        let filled = add_runners cron ss (clear cron c, p.log) in
        (
          record p { cron = some filled.0; log = filled.1; locked = false },
          filled.0,
          ground arith,
          refl,
          refl,
          runners-add ss (clear cron c) p.log
              ∙ ap (λ es. runners es ++ scheduled valid ss) (entries-clear c),
        )

module _ {C : Type 0} (cron : Cron C) where
  create-returns :
      (ss : List Schedule)
      → (p : SchedulePool C) × (create_schedule_pool cron (ok ss) ≡ done p) × (p.locked ≡ false)
  unfolding create_schedule_pool refresh refill unlock_pool
  create-returns ss =
      let filled = add_runners cron ss (clear cron cron.new, []) in
      (record { cron = some filled.0; locked = false; stopped = []; log = filled.1 }, refl, refl)

  create-fails :
      (e : Error)
      → create_schedule_pool cron (err e) ≡ panic (text "sync: unlock of unlocked mutex")
  unfolding create_schedule_pool refresh unlock_pool
  create-fails e = refl

  -- CreateSchedulePool panics just when GetSchedules gives an error.
  pub create_schedule_pool-panics :
      (schedules : Result (List Schedule))
      → ((m : Text) × (create_schedule_pool cron schedules ≡ panic m))
        ↔ ((e : Error) × (schedules ≡ err e))
  create_schedule_pool-panics (ok ss) =
      (λ h. let (p, e, l) = create-returns ss in absurd (cc (e, h.1)), λ h. absurd (cc h.1))
  create_schedule_pool-panics (err e) =
      (λ h. (e, refl), λ h. (text "sync: unlock of unlocked mutex", create-fails e))
