-- ===== src/Bolt/Reading.antt =====
-- What is read after a write: updateObjectTx, createObject, deleteObject and getObject
-- (db/bolt/BoltDb.go).
use contribute_semaphore.Base.{
  ◌≡◌, refl, sym, subst, ◌∙◌, Bool, true, false, Option, none, some, List, [], arith,
}
use contribute_semaphore.Base.Int.{ℤ}
use contribute_semaphore.Base.Text.{Text, text_eq, text_eq_self}
use contribute_semaphore.Bolt.Database.{Bbolt, BboltLaws, Codec, CodecLaws, stored}
use contribute_semaphore.Bolt.Object.{Object, ObjectId, to_bytes, Value, field_by_tag_suffix, tags}
use contribute_semaphore.Bolt.Objects.{
  make_bucket_id, id_of_value, get_object, update_object_tx, object_id, create_object,
}
use contribute_semaphore.Bolt.Props.{ObjectProps}
use contribute_semaphore.Model.Store.{ok, ◌>>=◌, bind-eq-ok}
use contribute_semaphore.Bolt.Identity.{object_id-Identified}

module _ {D : Type 0} (b : Bbolt D) (codec : Codec) (laws : BboltLaws b)
    (codecs : CodecLaws codec) where
  abbrev bucket : List ℤ → ObjectProps → Text
  bucket ids props = make_bucket_id props ids

  -- A value that has been put in a bucket that exists is the object that is read, as it is stored.
  put-get :
      (ids : List ℤ) (props : ObjectProps) (id : ObjectId) (o : Object) (str : Text) (d d' : D)
      → props.type ≡ tags o
      → codec.marshal_object o ≡ ok str
      → b.has_bucket (bucket ids props) d ≡ true
      → b.put (bucket ids props) (to_bytes id) str d ≡ ok d'
      → get_object b codec ids props id d' ≡ ok (stored codec o)
  unfolding get_object
  put-get ids props id o str d d' t m h p =
      rw
        (
          laws.has_bucket-put _ _ _ d d' (bucket ids props) p,
          h,
          laws.get-put _ _ _ d d' (bucket ids props) (to_bytes id) p,
          text_eq_self (bucket ids props),
          text_eq_self (to_bytes id),
          t,
        )
        (codecs.unmarshal-marshal o str m)

  -- An object that updateObjectTx writes is read back under its ID, as JSON keeps it.
  pub get_object-update :
      (ids : List ℤ) (props : ObjectProps) (id : ObjectId) (v : Value) (o : Object) (d d' : D)
      → props.type ≡ tags o
      → field_by_tag_suffix props.primary_column_name o ≡ some v
      → id_of_value v ≡ some id
      → update_object_tx b codec ids props o d ≡ ok d'
      → get_object b codec ids props id d' ≡ ok (stored codec o)
  unfolding update_object_tx
  get_object-update ids props id v o d d' t f i h =
      go (b.has_bucket (bucket ids props) d) (b.get (bucket ids props) (to_bytes id) d) refl refl
    where
      go :
          (x : Bool) (y : Option Text)
          → b.has_bucket (bucket ids props) d ≡ x
          → b.get (bucket ids props) (to_bytes id) d ≡ y
          → get_object b codec ids props id d' ≡ ok (stored codec o)
      go false y p q = absurd (ground arith)
      go true none p q = absurd (ground arith)
      go true (some s) p q =
          bind-eq-ok (get_object b codec ids props id d' ≡ ok (stored codec o))
            (codec.marshal_object o) _ {b = d'} (λ str m e. put-get ids props id o str d d' t m p e)
            (ground arith)

  abbrev pub Created : List ℤ → ObjectProps → Object → D → Type 0
  Created ids props o d =
      (id : ObjectId) × (get_object b codec ids props id d ≡ ok (stored codec o))
      × ((text_eq props.primary_column_name [] ≡ false)
          → (v : Value) × (field_by_tag_suffix props.primary_column_name o ≡ some v)
            × (id_of_value v ≡ some id))

  -- An object that createObject files is read back from the ID it is filed under, as JSON keeps
  -- it, with what is no valid UTF-8 in its strings replaced and its other values as `stored_other`
  -- gives them, and holds that ID itself unless its type has no primary column; the file and the
  -- encoding are supposed to keep to their laws, and the object to have the fields of its type.
  pub get_object-create :
      (ids : List ℤ) (props : ObjectProps) (o o' : Object) (d d' : D)
      → props.type ≡ tags o
      → create_object b codec ids props o d ≡ ok (o', d')
      → Created ids props o' d'
  unfolding create_object
  get_object-create ids props o o' d d' t h =
      let name = make_bucket_id props ids in
      bind-eq-ok (Created ids props o' d')
        (b.create_bucket_if_not_exists name d >>= object_id b codec name props o) _ {b = (o', d')}
        (λ (id, o1, d2) e f.
          bind-eq-ok (Created ids props o' d') (b.create_bucket_if_not_exists name d)
            (object_id b codec name props o) {b = (id, o1, d2)}
            (λ d1 c k.
              let i = object_id-Identified b codec laws name props o d1 (id, o1, d2) k in
              bind-eq-ok (Created ids props o' d') (codec.marshal_object o1) _ {b = (o', d')}
                (λ str m g.
                  bind-eq-ok (Created ids props o' d') (b.put name (to_bytes id) str d2) _
                    {b = (o', d')}
                    (λ d3 p q.
                      subst {A = Object × D} (λ z. Created ids props z.0 z.1) {x = (o1, d3)}
                        {y = (o', d')} (ground arith)
                        (
                          id,
                          put-get ids props id o1 str d2 d3 (t ∙ sym i.0) m
                              (i.1 ∙ laws.has_bucket-create name d d1 c) p,
                          i.2,
                        ))
                    g)
                f)
            e)
        h
