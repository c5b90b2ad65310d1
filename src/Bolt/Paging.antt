-- ===== src/Bolt/Paging.antt =====
-- What a page of objects holds (unmarshalObjects in db/bolt/BoltDb.go).
use contribute_semaphore.Base.{
  ℕ, zero, suc, ◌+◌, ◌-◌, ◌≤◌, ◌<◌, ◌≡◌, refl, sym, ap, subst, ◌∙◌, ◌⊎◌, inl, inr, Bool, true,
  false, ◌&&◌, List, [], ◌∷◌, arith,
}
use contribute_semaphore.Base.Tests.{ltb, ◌==◌, if◌then◌else◌, Bool-cases}
use contribute_semaphore.Base.Lists.{take, drop, keep}
use contribute_semaphore.Base.Text.{Text}
use contribute_semaphore.Bolt.Database.{Codec}
use contribute_semaphore.Bolt.Object.{Object}
use contribute_semaphore.Bolt.Query.{take_rows}
use contribute_semaphore.Model.Store.{ok, RetrieveQueryParams, ◌>>=◌}

-- Rows that all hold an object, and the objects.
abbrev pub Holds : Codec → List Text → List (Text × Text) → List Object → Type 0
Holds codec type [] [] = Unit
Holds codec type [] (o ∷ os) = ⊥
Holds codec type (row ∷ rows) [] = ⊥
Holds codec type ((k, v) ∷ rows) (o ∷ os) =
    (codec.unmarshal_object type v ≡ ok o) × Holds codec type rows os

-- How many more objects are taken after n.
abbrev pub room : RetrieveQueryParams → ℕ → List Object → List Object
room params n os = if params.count == 0 then os else take (params.count + 1 - n) os

take-nil : (n : ℕ) → take {A = Object} n [] ≡ []
take-nil zero = refl
take-nil (suc n) = refl

take-suc : (n k : ℕ) (x : Object) (os : List Object) → k ≡ suc n → take k (x ∷ os) ≡ x ∷ take n os
take-suc n k x os h = rw h refl

drop-nil : (n : ℕ) → drop {A = Object} n [] ≡ []
drop-nil zero = refl
drop-nil (suc n) = refl

drop-suc : (n k : ℕ) (x : Object) (os : List Object) → k ≡ suc n → drop k (x ∷ os) ≡ drop n os
drop-suc n k x os h = rw h refl

drop-zero : (k : ℕ) (os : List Object) → k ≡ 0 → drop k os ≡ os
drop-zero k os h = rw h refl

room-nil : (params : RetrieveQueryParams) (n : ℕ) → room params n [] ≡ []
room-nil params n = ground (arith, take-nil (params.count + 1 - n))

room-cons :
    (params : RetrieveQueryParams) (n : ℕ) (x : Object) (os : List Object)
    → (n < params.count) ⊎ (params.count ≡ 0)
    → x ∷ room params (n + 1) os ≡ room params n (x ∷ os)
room-cons params n x os h =
    ground (arith, take-suc (params.count + 1 - (n + 1)) (params.count + 1 - n) x os)

room-last :
    (params : RetrieveQueryParams) (n : ℕ) (x : Object) (os : List Object)
    → (ltb 0 params.count && ltb params.count (n + 1)) ≡ true
    → n ≤ params.count
    → x ∷ [] ≡ room params n (x ∷ os)
room-last params n x os h k = ground (arith, take-suc 0 (params.count + 1 - n) x os)

module _ (codec : Codec) (type : List Text) (params : RetrieveQueryParams)
    (filter : Object → Bool) where
  rows_after :
      (i n : ℕ) (rows : List (Text × Text)) (os : List Object)
      → Holds codec type rows os
      → (n ≤ params.count) ⊎ (params.count ≡ 0)
      → params.offset ≤ i
      → take_rows codec type params filter i n rows ≡ ok (room params n (keep filter os))
  unfolding take_rows
  rows_after i n [] [] h c o = ap ok (sym (room-nil params n))
  rows_after i n [] (x ∷ os) h c o = absurd h
  rows_after i n (x ∷ rows) [] h c o = absurd h
  rows_after i n ((k, v) ∷ rows) (x ∷ os) h c o =
      let first : (ltb 0 params.offset && ltb i params.offset) ≡ false = ground arith in
      elim (Bool-cases (filter x)) [
        | inr out ↦ rw (first, h.0, out, take_rows) (rows_after i n rows os h.1 c o)
        | inl taken ↦ elim (Bool-cases (ltb 0 params.count && ltb params.count (n + 1))) [
          | inl full ↦
              rw (first, h.0, taken, full, take_rows)
                (ap ok (room-last params n x (keep filter os) full (ground arith)))
          | inr more ↦
              rw (first, h.0, taken, more, take_rows)
                (ap (λ m. m >>= λ rest. ok (x ∷ rest))
                    (rows_after i (n + 1) rows os h.1 (ground arith) o)
                  ∙ ap ok (room-cons params n x (keep filter os) (ground arith)))
        ]
      ]

  rows_before :
      (i : ℕ) (rows : List (Text × Text)) (os : List Object)
      → Holds codec type rows os
      → i ≤ params.offset
      → take_rows codec type params filter i 0 rows
        ≡ ok (room params 0 (keep filter (drop (params.offset - i) os)))
  unfolding take_rows
  rows_before i [] [] h c = rw (drop-nil (params.offset - i)) (ap ok (sym (room-nil params 0)))
  rows_before i [] (x ∷ os) h c = absurd h
  rows_before i (x ∷ rows) [] h c = absurd h
  rows_before i ((k, v) ∷ rows) (x ∷ os) h c =
      elim (Bool-cases (ltb 0 params.offset && ltb i params.offset)) [
        | inl left ↦
            rw (left, take_rows)
              (rows_before (i + 1) rows os h.1 (ground arith)
                ∙ ap (λ l. ok (room params 0 (keep filter l)))
                    (sym
                      (drop-suc (params.offset - (i + 1)) (params.offset - i) x os (ground arith))))
        | inr past ↦
            rows_after i 0 ((k, v) ∷ rows) (x ∷ os) h (inl (omega arith)) (ground arith)
            ∙ ap (λ l. ok (room params 0 (keep filter l)))
                (sym (drop-zero (params.offset - i) (x ∷ os) (ground arith)))
      ]

  -- Where the rows hold the given objects, the loop of unmarshalObjects takes, of the rows after
  -- the first `offset`, those that pass the filter, and with a `count` other than 0 the first
  -- `count + 1` of them.
  pub take_rows-page :
      (rows : List (Text × Text)) (os : List Object)
      → Holds codec type rows os
      → take_rows codec type params filter 0 0 rows
        ≡ ok (room params 0 (keep filter (drop params.offset os)))
  take_rows-page rows os h =
      subst
        (λ k.
          take_rows codec type params filter 0 0 rows
          ≡ ok (room params 0 (keep filter (drop k os))))
        (omega arith) (rows_before 0 rows os h (omega arith))
