-- ===== src/Bolt/Identity.antt =====
-- The ID under which createObject files an object (db/bolt/BoltDb.go).
use contribute_semaphore.Base.{
  zero, suc, ◌≡◌, refl, subst, Bool, true, false, Option, none, some, [], ◌∷◌, arith,
}
use contribute_semaphore.Base.Int.{pos, negsuc}
use contribute_semaphore.Base.Text.{Text, text_eq}
use contribute_semaphore.Bolt.Database.{Bbolt, BboltLaws, Codec}
use contribute_semaphore.Bolt.Object.{
  Object, ObjectId, int_object_id, Value, int_value, string_value, pointer_value, other_value,
  field_by_tag_suffix, set_field, tags, field-set_field, tags-set_field,
}
use contribute_semaphore.Bolt.Objects.{id_of_value, object_id, new_id, id_of_field, sequence_id}
use contribute_semaphore.Bolt.Props.{ObjectProps}
use contribute_semaphore.Model.Store.{ok, bind-eq-ok}

module _ {D : Type 0} (b : Bbolt D) (codec : Codec) (laws : BboltLaws b) where
  -- The ID that createObject takes: the object that is stored holds it, and has the same fields.
  abbrev pub Identified : Text → ObjectProps → Object → D → ObjectId × Object × D → Type 0
  Identified bucket props o d (id, o', d') =
      (tags o' ≡ tags o)
      × (b.has_bucket bucket d' ≡ b.has_bucket bucket d)
      × ((text_eq props.primary_column_name [] ≡ false)
          → (v : Value) × (field_by_tag_suffix props.primary_column_name o' ≡ some v)
            × (id_of_value v ≡ some id))

  new_id-Identified :
      (bucket : Text) (props : ObjectProps) (o : Object) (d : D) (v : Value)
      (p : ObjectId × Object × D)
      → field_by_tag_suffix props.primary_column_name o ≡ some v
      → new_id b codec bucket props o d ≡ ok p
      → Identified bucket props o d p
  unfolding new_id id_of_value
  new_id-Identified bucket props o d v p f h =
      bind-eq-ok _ (b.next_sequence bucket d) _ {b = p}
        (λ (n, d1) e g.
          let id = sequence_id props.sort_inverted n in
          let q : (int_object_id id, set_field props.primary_column_name (int_value id) o, d1) ≡ p =
            ground arith in
          subst (Identified bucket props o d) q (
            tags-set_field props.primary_column_name (int_value id) o,
            laws.has_bucket-next_sequence bucket d d1 n bucket e,
            λ k. (
              int_value id,
              field-set_field props.primary_column_name (int_value id) v o f,
              refl,
            ),
          ))
        h

  given-Identified :
      (bucket : Text) (props : ObjectProps) (o : Object) (d : D) (v : Value) (id : ObjectId)
      (p : ObjectId × Object × D)
      → field_by_tag_suffix props.primary_column_name o ≡ some v
      → id_of_value v ≡ some id
      → ok (id, o, d) ≡ ok p
      → Identified bucket props o d p
  given-Identified bucket props o d v id p f i h =
      let q : (id, o, d) ≡ p = ground arith in
      subst (Identified bucket props o d) q (refl, refl, λ k. (v, f, i))

  field-Identified :
      (bucket : Text) (props : ObjectProps) (o : Object) (d : D) (v : Value)
      (p : ObjectId × Object × D)
      → field_by_tag_suffix props.primary_column_name o ≡ some v
      → id_of_field b codec bucket props o d v ≡ ok p
      → Identified bucket props o d p
  unfolding id_of_field id_of_value
  field-Identified bucket props o d (int_value (pos zero)) p f h =
      new_id-Identified bucket props o d (int_value (pos zero)) p f h
  field-Identified bucket props o d (int_value (pos (suc n))) p f h =
      given-Identified bucket props o d (int_value (pos (suc n))) _ p f refl h
  field-Identified bucket props o d (int_value (negsuc n)) p f h =
      given-Identified bucket props o d (int_value (negsuc n)) _ p f refl h
  field-Identified bucket props o d (string_value []) p f h = absurd (cc)
  field-Identified bucket props o d (string_value (c ∷ s)) p f h =
      given-Identified bucket props o d (string_value (c ∷ s)) _ p f refl h
  field-Identified bucket props o d (pointer_value i) p f h = absurd (cc)
  field-Identified bucket props o d (other_value s) p f h = absurd (cc)

  pub object_id-Identified :
      (bucket : Text) (props : ObjectProps) (o : Object) (d : D) (p : ObjectId × Object × D)
      → object_id b codec bucket props o d ≡ ok p
      → Identified bucket props o d p
  unfolding object_id
  object_id-Identified bucket props o d p h =
      go (text_eq props.primary_column_name []) (field_by_tag_suffix props.primary_column_name o)
        refl refl
    where
      go :
          (x : Bool) (y : Option Value)
          → text_eq props.primary_column_name [] ≡ x
          → field_by_tag_suffix props.primary_column_name o ≡ y
          → Identified bucket props o d p
      go true y e f =
          bind-eq-ok (Identified bucket props o d p) (b.next_sequence bucket d)
            (λ z. ok (int_object_id (sequence_id props.sort_inverted z.0), o, z.1)) {b = p}
            (λ (n, d1) g k.
              let q : (int_object_id (sequence_id props.sort_inverted n), o, d1) ≡ p =
                ground arith in
              subst (Identified bucket props o d) q
                (refl, laws.has_bucket-next_sequence bucket d d1 n bucket g, λ z. absurd (cc)))
            (ground arith)
      go false none e f = absurd (ground arith)
      go false (some v) e f = field-Identified bucket props o d v p f (ground arith)
