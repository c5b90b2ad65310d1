-- ===== src/Bolt/References.antt =====
-- Which objects can be deleted (isObjectReferredBy, isObjectInUse, deleteObject in
-- db/bolt/BoltDb.go).
use contribute_semaphore.Base.{
  ◌≡◌, refl, ap, inl, inr, Bool, false, none, some, List, [], ◌∷◌, arith,
}
use contribute_semaphore.Base.Tests.{ltb, if◌then◌else◌, Bool-cases}
use contribute_semaphore.Base.Int.{ℤ}
use contribute_semaphore.Base.Lists.{length, keep, any, All}
use contribute_semaphore.Base.Text.{Text, text, text_eq}
use contribute_semaphore.Bolt.Database.{Bbolt, Codec}
use contribute_semaphore.Bolt.Object.{
  Object, ObjectId, int_object_id, Value, pointer_value, field_by_tag_suffix, has_suffix,
}
use contribute_semaphore.Bolt.Objects.{make_bucket_id}
use contribute_semaphore.Bolt.Paging.{Holds, take_rows-page}
use contribute_semaphore.Bolt.Props.{ObjectProps, access_key_props}
use contribute_semaphore.Bolt.Query.{
  unmarshal_objects, get_objects, is_object_in_use, is_object_referred_by, refuse_use, referred_id,
}
use contribute_semaphore.Model.Store.{ok, err, invalid_operation, all_rows}

module _ {D : Type 0} (codec : Codec) (b : Bbolt D) where
  abbrev pub rows_of : List ℤ → ObjectProps → D → List (Text × Text)
  rows_of ids props d =
      let bucket = make_bucket_id props ids in
      if b.has_bucket bucket d then b.cursor bucket d else []

  -- The length of what passes a test tells whether anything does.
  keep-any : (p : Object → Bool) (os : List Object) → ltb 0 (length (keep p os)) ≡ any p os
  keep-any p [] = refl
  keep-any p (o ∷ os) = ground (arith, keep-any p os)

  in_use :
      (ids : List ℤ) (props referring : ObjectProps) (id : ObjectId) (d : D) (os : List Object)
      → Holds codec referring.type (rows_of ids referring d) os
      → is_object_in_use codec b ids props id referring d
        ≡ ok (any (is_object_referred_by codec b props id) os)
  unfolding is_object_in_use get_objects unmarshal_objects text_eq
  in_use ids props referring id d os h =
      rw
        (take_rows-page codec referring.type all_rows (is_object_referred_by codec b props id)
          (rows_of ids referring d) os h)
        (ap ok (keep-any (is_object_referred_by codec b props id) os))

  -- Each of the tables holds the objects that `os` says.
  abbrev pub TablesHold : List ℤ → (ObjectProps → List Object) → List ObjectProps → D → Type 0
  TablesHold ids os us d = All (λ u. Holds codec u.type (rows_of ids u d) (os u)) us

  abbrev pub used : ObjectProps → ObjectId → (ObjectProps → List Object) → List ObjectProps → Bool
  used props id os us = any (λ u. any (is_object_referred_by codec b props id) (os u)) us

  pub refuse_use-eq :
      (ids : List ℤ) (props : ObjectProps) (id : ObjectId) (os : ObjectProps → List Object)
      (us : List ObjectProps) (d : D)
      → TablesHold ids os us d
      → refuse_use codec b ids props id us d
        ≡ (if used props id os us then err invalid_operation else ok tt)
  unfolding refuse_use
  refuse_use-eq ids props id os [] d h = refl
  refuse_use-eq ids props id os (u ∷ us) d h =
      elim (Bool-cases (any (is_object_referred_by codec b props id) (os u))) [
        | inl e ↦ rw (in_use ids props u id d (os u) h.0, e) refl
        | inr e ↦
            rw (in_use ids props u id d (os u) h.0, e) (refuse_use-eq ids props id os us d h.1)
      ]

  -- An inventory whose become key alone is the key `k`.
  abbrev pub becoming : Value → Value → Value → Value → Value → ℤ → Object
  becoming id name project inventory type k =
      (text "id", id)
      ∷ (text "name", name)
      ∷ (text "project_id", project)
      ∷ (text "inventory", inventory)
      ∷ (text "ssh_key_id", pointer_value none)
      ∷ (text "become_key_id", pointer_value (some k))
      ∷ (text "type", type)
      ∷ []

  -- An inventory that has no login key, and whose become key is a given key, is not seen as a use
  -- of that key.
  pub become_key_unseen :
      (id name project inventory type : Value) (k : ℤ)
      → is_object_referred_by codec b access_key_props
          (int_object_id k)
          (becoming id name project inventory type k)
        ≡ false
  unfolding is_object_referred_by field_by_tag_suffix has_suffix text_eq referred_id
  become_key_unseen id name project inventory type k = refl
