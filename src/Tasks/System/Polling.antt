-- ===== src/Tasks/System/Polling.antt =====
-- The ticks of the loop of Run (services/tasks/TaskPool.go) and the invariant.
use contribute_semaphore.Base.{ℕ, ◌<◌, ◌≡◌, ap, false, none, some, List, [], ◌∷◌, ◌++◌, arith}
use contribute_semaphore.Base.Lists.{All, All-append}
use contribute_semaphore.Model.Store.{TaskStore}
use contribute_semaphore.Tasks.Pool.{blocks, tick}
use contribute_semaphore.Tasks.Pool.Queue.{Ticked, tick-Ticked, rested, dropped, rotated, asked}
use contribute_semaphore.Tasks.System.{System}
use contribute_semaphore.Tasks.System.Invariant.{IsKnown, SystemInv, queue-SystemInv}
use contribute_semaphore.Tasks.World.{Ref}

module _ {S : Type 0} (db : TaskStore S) where
  pub poll-SystemInv :
      (s : System S)
      → (tick db s.world).1 ≡ none
      → SystemInv db s
      → SystemInv db (record s { world = (tick db s.world).0 })
  poll-SystemInv s e inv = go (tick-Ticked db s.world)
    where
      n : ℕ
      n = s.world.next_ref

      known : (q : List Ref) → s.world.queue ≡ q → All (IsKnown n) q
      known q f = rw f at inv.queue_known

      go : Ticked db s.world → SystemInv db (record s { world = (tick db s.world).0 })
      go (rested f g) = rw g inv
      go (dropped r rest f x g) = rw g (queue-SystemInv db s rest (known _ f).1 inv)
      go (rotated r rest f x g) = rw g (
          queue-SystemInv db s (rest ++ r ∷ [])
            (All-append (IsKnown n) rest (r ∷ []) (known _ f).1 ((known _ f).0, tt)) inv)
      go (asked r rest f x y g) = absurd (ground (arith, ap (λ p. p.1) g))

  pub asked-known :
      (s : System S) (r : Ref)
      → (tick db s.world).1 ≡ some r
      → SystemInv db s
      → (r < s.world.next_ref) × (blocks db r s.world ≡ false)
  asked-known s r e inv = go (tick-Ticked db s.world)
    where
      known : (q : List Ref) → s.world.queue ≡ q → All (IsKnown s.world.next_ref) q
      known q f = rw f at inv.queue_known

      go : Ticked db s.world → (r < s.world.next_ref) × (blocks db r s.world ≡ false)
      go (rested f g) = absurd (ground (arith, ap (λ p. p.1) g))
      go (dropped q rest f x g) = absurd (ground (arith, ap (λ p. p.1) g))
      go (rotated q rest f x g) = absurd (ground (arith, ap (λ p. p.1) g))
      go (asked q rest f x y g) = ground (arith, ap (λ p. p.1) g, (known _ f).0)
