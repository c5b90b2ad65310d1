-- ===== src/Bolt/Events/Bounded.antt =====
-- How many events a list has (db/bolt/event.go).
use contribute_semaphore.Base.{
  ℕ, ◌+◌, ◌≤◌, ◌≡◌, refl, Option, none, some, List, [], ◌∷◌, inl, inr, arith,
}
use contribute_semaphore.Base.Tests.{ltb, Bool-cases}
use contribute_semaphore.Base.Lists.{length}
use contribute_semaphore.Base.Map.{Map}
use contribute_semaphore.Base.Text.{Text}
use contribute_semaphore.Bolt.Database.{Bbolt}
use contribute_semaphore.Bolt.Events.{
  EventTables, ListedEvent, take_events, username_of, fill_events, get_events_by, get_events,
  events_bucket, get_user_events,
}
use contribute_semaphore.Model.Store.{Result, ok, err, Event, RetrieveQueryParams}

module _ {D : Type 0} (tables : EventTables D) (d : D) where
  -- With n events taken, there is room for the rest of a page.
  take_events-room :
      (params : RetrieveQueryParams) (filter : Event → Option ℕ) (i n : ℕ)
      (rows : List (Text × Text))
      → n ≤ params.count
      → length (take_events tables d params filter i n rows) + n ≤ params.count + 1
  unfolding take_events
  take_events-room params filter i n [] h = omega arith
  take_events-room params filter i n ((k, v) ∷ rows) h =
      let skipped = take_events-room params filter (i + 1) n rows h in
      let passed = take_events-room params filter i n rows h in
      elim (Bool-cases (ltb params.count (n + 1))) [
        | inl full ↦ ground (arith, skipped, passed, full)
        | inr free ↦
            ground (arith, skipped, passed, free, take_events-room params filter i (n + 1) rows)
      ]

  fill_events-length :
      (ls : List ListedEvent) (names : Map Text)
      → length (fill_events tables d ls names).0 ≡ length ls
  unfolding fill_events
  fill_events-length [] names = refl
  fill_events-length (l ∷ ls) names = go (fill_events-length ls) l.event.user_id refl
    where
      Ih : Type 0
      Ih = (names' : Map Text) → length (fill_events tables d ls names').0 ≡ length ls

      Goal : Type 0
      Goal = length (fill_events tables d (l ∷ ls) names).0 ≡ length (l ∷ ls)

      known :
          Ih
          → (user : ℕ) (r : Result (Option Text × Map Text)) → l.event.user_id ≡ some user
          → username_of tables d user names ≡ r
          → Goal
      known ih user (err x) e q = ground arith
      known ih user (ok (name, names')) e q = ground (arith, ih names')

      go : Ih → (o : Option ℕ) → l.event.user_id ≡ o → Goal
      go ih none e = ground (arith, ih names)
      go ih (some user) e = known ih user (username_of tables d user names) e refl

  get_events_by-bounded :
      (b : Bbolt D) (params : RetrieveQueryParams) (filter : Event → Option ℕ)
      → length (get_events_by tables d b params filter).0 ≤ params.count + 1
  unfolding get_events_by
  get_events_by-bounded b params filter =
      let rows = b.cursor events_bucket d in
      ground (
        arith,
        fill_events-length (take_events tables d params filter 0 0 rows) [],
        take_events-room params filter 0 0 rows,
      )

  -- The events of a project and those of a user are at most one more than the Count that is asked
  -- for: with a Count of 0, one at most.
  pub events-bounded :
      (b : Bbolt D) (id : ℕ) (params : RetrieveQueryParams)
      → (length (get_events tables d b id params).0 ≤ params.count + 1)
        × (length (get_user_events tables d b id params).0 ≤ params.count + 1)
  unfolding get_events get_user_events
  events-bounded b id params = (get_events_by-bounded b params _, get_events_by-bounded b params _)
