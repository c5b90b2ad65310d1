-- ===== src/Bolt/Objects.antt =====
-- makeBucketId, getObject, updateObjectTx, createObject (db/bolt/BoltDb.go).
use contribute_semaphore.Base.{ℕ, zero, ◌-◌, Bool, Option, none, some, List, [], ◌∷◌, ◌++◌}
use contribute_semaphore.Base.Tests.{leb, if◌then◌else◌}
use contribute_semaphore.Base.Int.{ℤ, pos, negsuc}
use contribute_semaphore.Base.Text.{Text, text, text_eq}
use contribute_semaphore.Bolt.Database.{Bbolt, Codec}
use contribute_semaphore.Bolt.Object.{
  Object, ObjectId, int_object_id, str_object_id, to_bytes, padded_int, Value, int_value,
  string_value, field_by_tag_suffix, set_field,
}
use contribute_semaphore.Bolt.Props.{ObjectProps}
use contribute_semaphore.Model.Store.{Result, ok, err, not_found, failure, ◌>>=◌}

abbrev pub max_id : ℕ
max_id = 2147483647

unfoldable pub bucket_ids : List ℤ → Text
unfolding padded_int
bucket_ids [] = []
bucket_ids (i ∷ ids) = (b'_' ∷ padded_int i) ++ bucket_ids ids

unfoldable pub make_bucket_id : ObjectProps → List ℤ → Text
unfolding bucket_ids
make_bucket_id props ids =
    if props.is_global then props.table_name else props.table_name ++ bucket_ids ids

-- `int64(MaxID - id)` on uint64, where the difference wraps round to a negative number.
unfoldable pub inverted_id : ℕ → ℤ
inverted_id n = if leb n max_id then pos (max_id - n) else negsuc (n - max_id - 1)

abbrev pub sequence_id : Bool → ℕ → ℤ
sequence_id inverted n = if inverted then inverted_id n else pos n

-- The ID that a value of a field stands for; none is `objID == nil`.
unfoldable pub id_of_value : Value → Option ObjectId
id_of_value (int_value i) = some (int_object_id i)
id_of_value (string_value s) = some (str_object_id s)
id_of_value _ = none

module _ {D : Type 0} (b : Bbolt D) (codec : Codec) where
  unfoldable pub get_object : List ℤ → ObjectProps → ObjectId → D → Result Object
  get_object bucket_id props id d =
      let bucket = make_bucket_id props bucket_id in
      if b.has_bucket bucket d
      then elim (b.get bucket (to_bytes id) d) [
        | none ↦ err not_found
        | some str ↦ codec.unmarshal_object props.type str
      ]
      else err not_found

  put_existing : Text → ObjectId → Object → D → Result D
  put_existing bucket id object d = elim (b.get bucket (to_bytes id) d) [
    | none ↦ err not_found
    | some old ↦ codec.marshal_object object >>= λ str. b.put bucket (to_bytes id) str d
  ]

  unfoldable pub update_object_tx : List ℤ → ObjectProps → Object → D → Result D
  unfolding put_existing id_of_value
  update_object_tx bucket_id props object d =
      let bucket = make_bucket_id props bucket_id in
      if b.has_bucket bucket d
      then elim (field_by_tag_suffix props.primary_column_name object) [
        | none ↦ err (failure (text "field not found"))
        | some v ↦ elim (id_of_value v) [
          | none ↦ err (failure (text "unsupported ID type"))
          | some id ↦ put_existing bucket id object d
        ]
      ]
      else err not_found

  -- The case of an invalid field does not arise, since a field that is not found is an error before.
  -- A new key from the counter of the bucket, and the object that holds it.
  unfoldable pub new_id : Text → ObjectProps → Object → D → Result (ObjectId × Object × D)
  new_id bucket props object d = b.next_sequence bucket d >>= λ p.
      let id = sequence_id props.sort_inverted p.0 in
      ok (int_object_id id, set_field props.primary_column_name (int_value id) object, p.1)

  unfoldable pub id_of_field :
      Text → ObjectProps → Object → D → Value → Result (ObjectId × Object × D)
  unfolding new_id
  id_of_field bucket props object d (int_value (pos zero)) = new_id bucket props object d
  id_of_field bucket props object d (int_value i) = ok (int_object_id i, object, d)
  id_of_field bucket props object d (string_value []) =
      err (failure (text "object ID can not be empty string"))
  id_of_field bucket props object d (string_value s) = ok (str_object_id s, object, d)
  id_of_field bucket props object d _ = err (failure (text "unsupported ID type"))

  unfoldable pub object_id : Text → ObjectProps → Object → D → Result (ObjectId × Object × D)
  unfolding id_of_field
  object_id bucket props object d =
      if text_eq props.primary_column_name []
      then (b.next_sequence bucket d >>= λ p.
          ok (int_object_id (sequence_id props.sort_inverted p.0), object, p.1))
      else elim (field_by_tag_suffix props.primary_column_name object) [
        | none ↦ err (failure (text "field not found"))
        | some v ↦ id_of_field bucket props object d v
      ]

  -- The object that is returned holds its new ID.
  unfoldable pub create_object : List ℤ → ObjectProps → Object → D → Result (Object × D)
  unfolding object_id
  create_object bucket_id props object d =
      let bucket = make_bucket_id props bucket_id in
      b.create_bucket_if_not_exists bucket d >>= object_id bucket props object >>= λ p.
      codec.marshal_object p.1 >>= λ str. b.put bucket (to_bytes p.0) str p.2 >>= λ d'. ok (p.1, d')
