-- ===== src/Bolt/Query.antt =====
-- unmarshalObjects, getObjects, sortObjects, isObjectReferredBy, isObjectInUse, deleteObject
-- (db/bolt/BoltDb.go).
use contribute_semaphore.Base.{
  ℕ, zero, ◌+◌, Bool, true, false, not, ◌&&◌, Option, none, some, List, [], ◌∷◌,
}
use contribute_semaphore.Base.Tests.{ltb, if◌then◌else◌}
use contribute_semaphore.Base.Int.{ℤ, pos, int_gt}
use contribute_semaphore.Base.Lists.{length, any}
use contribute_semaphore.Base.Text.{Text, text, text_eq}
use contribute_semaphore.Bolt.Database.{Bbolt, Codec}
use contribute_semaphore.Bolt.Object.{
  Object, ObjectId, int_object_id, to_bytes, Value, int_value, string_value, pointer_value,
  other_value, field_by_tag_suffix, has_suffix, text_lt,
}
use contribute_semaphore.Bolt.Objects.{make_bucket_id}
use contribute_semaphore.Bolt.Props.{
  ObjectProps, environment_props, inventory_props, repository_props, template_props,
}
use contribute_semaphore.Model.Store.{
  Result, ok, err, not_found, failure, invalid_operation, RetrieveQueryParams, all_rows, ◌>>=◌,
}

-- The order of two values of one field.
unfoldable pub less : Option Value → Option Value → Bool
less (some (int_value a)) (some (int_value b)) = int_gt b a
less (some (string_value a)) (some (string_value b)) = text_lt a b
less _ _ = false

-- sort.SliceStable, which sorts up to 20 elements by insertion: an element goes left past those that
-- it is less than. The list holds the sorted part from its end.
insert_left : (Object → Object → Bool) → Object → List Object → List Object
insert_left lt o [] = o ∷ []
insert_left lt o (p ∷ ps) =
    let rest = insert_left lt o ps in if lt o p then p ∷ rest else o ∷ p ∷ ps

sort_into : (Object → Object → Bool) → List Object → List Object → List Object
unfolding insert_left
sort_into lt sorted [] = sorted
sort_into lt sorted (o ∷ os) = sort_into lt (insert_left lt o sorted) os

reversed : List Object → List Object → List Object
reversed [] acc = acc
reversed (o ∷ os) acc = reversed os (o ∷ acc)

unfoldable pub slice_stable : (Object → Object → Bool) → List Object → List Object
unfolding sort_into reversed
slice_stable lt os = reversed (sort_into lt [] os) []

-- A type without such a field cannot be sorted, were the list empty.
unfoldable pub sort_objects : List Text → Text → Bool → List Object → Result (List Object)
unfolding less slice_stable
sort_objects type by inverted os =
    let field = field_by_tag_suffix by in
    let sorted =
      slice_stable
        (λ a b. if inverted then not (less (field a) (field b)) else less (field a) (field b)) os in
    if any (λ tag. has_suffix tag by) type
    then ok sorted
    else err (failure (text "field not found"))

module _ (codec : Codec) where
  -- The loop over the rows; `i` counts the rows left out and `n` the objects taken.
  unfoldable pub take_rows :
      List Text
      → RetrieveQueryParams
      → (Object → Bool)
      → ℕ
      → ℕ
      → List (Text × Text)
      → Result (List Object)
  take_rows type params filter i n [] = ok []
  take_rows type params filter i n ((k, v) ∷ rows) =
      elim (ltb 0 params.offset && ltb i params.offset) [
        | true ↦ take_rows type params filter (i + 1) n rows
        | false ↦ elim (codec.unmarshal_object type v) [
          | err e ↦ err e
          | ok obj ↦ elim (filter obj) [
            | false ↦ take_rows type params filter i n rows
            | true ↦ elim (ltb 0 params.count && ltb params.count (n + 1)) [
              | true ↦ ok (obj ∷ [])
              | false ↦ take_rows type params filter i (n + 1) rows >>= λ rest. ok (obj ∷ rest)
            ]
          ]
        ]
      ]

  abbrev is_sortable : ObjectProps → RetrieveQueryParams → Bool
  is_sortable props params =
      not (text_eq params.sort_by []) && any (λ c. text_eq c params.sort_by) props.sortable_columns

  unfoldable pub unmarshal_objects :
      ObjectProps
      → RetrieveQueryParams
      → (Object → Bool)
      → List (Text × Text)
      → Result (List Object)
  unfolding take_rows sort_objects
  unmarshal_objects props params filter rows = take_rows props.type params filter 0 0 rows >>= λ os.
      if is_sortable props params
      then sort_objects props.type params.sort_by params.sort_inverted os
      else ok os

  module _ {D : Type 0} (b : Bbolt D) where
    unfoldable pub get_objects :
        List ℤ → ObjectProps → RetrieveQueryParams → (Object → Bool) → D → Result (List Object)
    get_objects bucket_id props params filter d =
        let bucket = make_bucket_id props bucket_id in
        unmarshal_objects props params filter
          (if b.has_bucket bucket d then b.cursor bucket d else [])

    -- The key that a referring field holds: none for a zero value and for other kinds.
    unfoldable pub referred_id : Value → Option Text
    referred_id (int_value (pos zero)) = none
    referred_id (int_value i) = some (to_bytes (int_object_id i))
    referred_id (string_value []) = none
    referred_id (string_value s) = some s
    referred_id (pointer_value none) = none
    referred_id (pointer_value (some i)) = some (to_bytes (int_object_id i))
    referred_id (other_value s) = none

    unfoldable pub is_object_referred_by : ObjectProps → ObjectId → Object → Bool
    unfolding referred_id
    is_object_referred_by props id object =
        if text_eq props.referring_column_suffix []
        then false
        else elim (field_by_tag_suffix props.referring_column_suffix object) [
          | none ↦ false
          | some v ↦ elim (referred_id v) [ none ↦ false | some key ↦ text_eq key (to_bytes id) ]
        ]

    unfoldable pub is_object_in_use :
        List ℤ → ObjectProps → ObjectId → ObjectProps → D → Result Bool
    unfolding get_objects is_object_referred_by
    is_object_in_use bucket_id props id referring d =
        get_objects bucket_id referring all_rows (is_object_referred_by props id) d >>= λ os.
        ok (ltb 0 (length os))

    -- The loop over the types that may refer to an object.
    unfoldable pub refuse_use :
        List ℤ → ObjectProps → ObjectId → List ObjectProps → D → Result (Unit {0})
    unfolding is_object_in_use
    refuse_use bucket_id props id [] d = ok tt
    refuse_use bucket_id props id (u ∷ us) d = is_object_in_use bucket_id props id u d >>= λ in_use.
        elim in_use [ true ↦ err invalid_operation | false ↦ refuse_use bucket_id props id us d ]

    abbrev pub referring_props : List ObjectProps
    referring_props = template_props ∷ environment_props ∷ inventory_props ∷ repository_props ∷ []

    -- The uses are read from the file as it is committed, the object is removed in the transaction
    -- `d`; without one the two are the same.
    unfoldable pub delete_object : List ℤ → ObjectProps → ObjectId → D → D → Result D
    unfolding refuse_use
    delete_object bucket_id props id committed d =
        let bucket = make_bucket_id props bucket_id in
        refuse_use bucket_id props id referring_props committed >>= λ u.
        if b.has_bucket bucket d then b.remove bucket (to_bytes id) d else err not_found
