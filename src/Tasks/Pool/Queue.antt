-- ===== src/Tasks/Pool/Queue.antt =====
-- What one event of the loop of Run does to the queue.
use contribute_semaphore.Base.{
  ℕ, ◌≡◌, refl, ap, ◌≢◌, inl, inr, true, false, none, some, List, [], ◌∷◌, ◌++◌, arith,
}
use contribute_semaphore.Base.Tests.{Bool-cases}
use contribute_semaphore.Model.Status.{fail, status_eq, eq_of_status_eq}
use contribute_semaphore.Model.Store.{TaskStore, ok}
use contribute_semaphore.Tasks.Pool.{blocks, tick, register}
use contribute_semaphore.Tasks.Status.{log}
use contribute_semaphore.Tasks.Status.Rules.{save_status-saved}
use contribute_semaphore.Tasks.World.{Ref, World, Message, LogRecord, done}

module _ {S : Type 0} (db : TaskStore S) where
  -- A tick does one of four things.
  pub data Ticked (w : World S) : Type 0 where
    rested : w.queue ≡ [] → tick db w ≡ (w, none) → Ticked w
    dropped :
        (r : Ref) (rest : List Ref)
        → w.queue ≡ r ∷ rest
        → (w.runners r).task.status ≡ fail
        → tick db w ≡ (record w { queue = rest }, none)
        → Ticked w
    rotated :
        (r : Ref) (rest : List Ref)
        → w.queue ≡ r ∷ rest
        → blocks db r w ≡ true
        → tick db w ≡ (record w { queue = rest ++ r ∷ [] }, none)
        → Ticked w
    asked :
        (r : Ref) (rest : List Ref)
        → w.queue ≡ r ∷ rest
        → (w.runners r).task.status ≢ fail
        → blocks db r w ≡ false
        → tick db w ≡ (w, some r)
        → Ticked w

  -- A tick rests on an empty queue, drops a failed head, moves a blocked head to the end, or asks
  -- the locker for the head, and changes nothing else.
  pub tick-Ticked : (w : World S) → Ticked w
  unfolding tick
  tick-Ticked w = go w.queue refl
    where
      go : (q : List Ref) → w.queue ≡ q → Ticked w
      go [] e = rested e (ground arith)
      go (r ∷ rest) e = elim (Bool-cases (status_eq (w.runners r).task.status fail)) [
        | inl f ↦ dropped r rest e (eq_of_status_eq (w.runners r).task.status fail f) (ground arith)
        | inr f ↦ elim (Bool-cases (blocks db r w)) [
          | inl b ↦ rotated r rest e b (ground arith)
          | inr b ↦ asked r rest e (λ g. ground arith) b (ground arith)
        ]
      ]

  -- The runner for which the locker is asked is not blocked.
  pub tick_asked : (r : Ref) (w : World S) → (tick db w).1 ≡ some r → blocks db r w ≡ false
  tick_asked r w e = go (tick-Ticked w)
    where
      go : Ticked w → blocks db r w ≡ false
      go (rested f g) = absurd (ground (arith, ap (λ p. p.1) g))
      go (dropped q rest f x g) = absurd (ground (arith, ap (λ p. p.1) g))
      go (rotated q rest f x g) = absurd (ground (arith, ap (λ p. p.1) g))
      go (asked q rest f x y g) = ground (arith, ap (λ p. p.1) g)

  -- A tick changes the queue alone.
  pub tick_world : (w : World S) → (q : List Ref) × ((tick db w).0 ≡ record w { queue = q })
  tick_world w = go (tick-Ticked w)
    where
      go : Ticked w → (q : List Ref) × ((tick db w).0 ≡ record w { queue = q })
      go (rested f g) = (w.queue, ap (λ p. p.0) g)
      go (dropped r rest f x g) = (rest, ap (λ p. p.0) g)
      go (rotated r rest f x g) = (rest ++ r ∷ [], ap (λ p. p.0) g)
      go (asked r rest f x y g) = (w.queue, ap (λ p. p.0) g)

  -- A task that arrives stands at the end of the queue and is in the database as its runner has
  -- it, and only the log and the messages change besides.
  pub register-queued :
      (now : ℕ) (r : Ref) (w v : World S)
      → register db now r w ≡ done v
      → (s : S) × (logger : List LogRecord) × (outbox : List Message) × (db.update_task
            (w.runners r).task
            w.store
          ≡ ok s)
        × (v ≡ record w { queue = w.queue ++ r ∷ []; logger = logger; outbox = outbox; store = s })
  unfolding register log
  register-queued now r w v h =
      let saved = save_status-saved db now r _ v h in (saved.0, _, _, saved.1, saved.2)
