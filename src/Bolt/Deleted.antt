-- ===== src/Bolt/Deleted.antt =====
-- What the deletion of an access key says of its uses (deleteObject, isObjectReferredBy and
-- getFieldNameByTagSuffix in db/bolt/BoltDb.go, DeleteAccessKey in db/bolt/access_key.go).
use contribute_semaphore.Base.{
  zero, suc, ◌≡◌, refl, sym, ap, ◌∙◌, ◌≢◌, inl, inr, Bool, true, false, Option, none, some, List,
  [], ◌∷◌, arith,
}
use contribute_semaphore.Base.Tests.{if◌then◌else◌, Bool-cases}
use contribute_semaphore.Base.Int.{ℤ, pos, negsuc}
use contribute_semaphore.Base.Lists.{any, All, All-zip}
use contribute_semaphore.Base.Text.{Text, text, text_eq, text_eq_self, eq_of_text_eq}
use contribute_semaphore.Bolt.Database.{Bbolt, BboltLaws, Codec}
use contribute_semaphore.Bolt.Object.{
  Object, ObjectId, int_object_id, to_bytes, Value, int_value, pointer_value, field_by_tag_suffix,
  has_suffix, tags,
}
use contribute_semaphore.Bolt.Objects.{get_object, make_bucket_id}
use contribute_semaphore.Bolt.Props.{
  ObjectProps, access_key_props, template_props, inventory_props, repository_props, template_tags,
  inventory_tags, repository_tags,
}
use contribute_semaphore.Bolt.Query.{
  delete_object, refuse_use, referring_props, is_object_referred_by, referred_id,
}
use contribute_semaphore.Bolt.References.{TablesHold, refuse_use-eq}
use contribute_semaphore.Bolt.Sessions.{field}
use contribute_semaphore.Model.Store.{ok, err, not_found, bind-eq-ok}

-- The first tag that ends so.
first_with : Text → List Text → Option Text
first_with suffix [] = none
first_with suffix (t ∷ ts) =
    let rest = first_with suffix ts in if has_suffix t suffix then some t else rest

first_with-suffix :
    (suffix tag : Text) (ts : List Text)
    → first_with suffix ts ≡ some tag
    → has_suffix tag suffix ≡ true
unfolding first_with
first_with-suffix suffix tag [] h = absurd (cc)
first_with-suffix suffix tag (t ∷ ts) h = elim (Bool-cases (has_suffix t suffix)) [
  | inl e ↦ ground arith
  | inr e ↦ first_with-suffix suffix tag ts (ground arith)
]

-- The field that is found by the end of its tag is the one with the first such tag.
field-first_with :
    (suffix tag : Text) (o : Object)
    → first_with suffix (tags o) ≡ some tag
    → field_by_tag_suffix suffix o ≡ field tag o
unfolding first_with field_by_tag_suffix
field-first_with suffix tag [] h = refl
field-first_with suffix tag ((t, v) ∷ o) h = elim (Bool-cases (has_suffix t suffix)) [
  | inl e ↦ ground (arith, text_eq_self t)
  | inr e ↦
      let later : first_with suffix (tags o) ≡ some tag = ground arith in
      ground (
        arith,
        field-first_with suffix tag o later,
        first_with-suffix suffix tag (tags o) later,
        eq_of_text_eq t tag,
      )
]

any-false : (p : Object → Bool) (os : List Object) → any p os ≡ false → All (λ o. p o ≡ false) os
any-false p [] h = tt
any-false p (o ∷ os) h = (ground arith, any-false p os (ground arith))

module _ {D : Type 0} (b : Bbolt D) (codec : Codec) where
  abbrev uses : ℤ → Object → Bool
  uses k o = is_object_referred_by codec b access_key_props (int_object_id k) o

  pointer-referred :
      (k : ℤ) (o : Object)
      → field_by_tag_suffix (text "key_id") o ≡ some (pointer_value (some k))
      → uses k o ≡ true
  unfolding is_object_referred_by referred_id text_eq
  pointer-referred k o e = rw e (text_eq_self (to_bytes (int_object_id k)))

  int-referred :
      (k : ℤ) (o : Object)
      → k ≢ pos 0
      → field_by_tag_suffix (text "key_id") o ≡ some (int_value k)
      → uses k o ≡ true
  unfolding is_object_referred_by referred_id text_eq
  int-referred (pos zero) o n e = absurd (n refl)
  int-referred (pos (suc m)) o n e = rw e (text_eq_self (to_bytes (int_object_id (pos (suc m)))))
  int-referred (negsuc m) o n e = rw e (text_eq_self (to_bytes (int_object_id (negsuc m))))

  -- No object of these holds this value in the field with this tag.
  abbrev pub NoneHolds : Text → Value → List Object → Type 0
  NoneHolds tag v = All (λ o. field tag o ≢ some v)

  abbrev pub Typed : List Text → List Object → Type 0
  Typed type = All (λ o. tags o ≡ type)

  unused :
      (k : ℤ) (tag : Text) (v : Value) (type : List Text) (os : List Object)
      → first_with (text "key_id") type ≡ some tag
      → ((o : Object) → field_by_tag_suffix (text "key_id") o ≡ some v → uses k o ≡ true)
      → Typed type os
      → any (uses k) os ≡ false
      → NoneHolds tag v os
  unused k tag v type os first referred typed h =
      All-zip (λ o. tags o ≡ type) (λ o. uses k o ≡ false) (λ o. field tag o ≢ some v)
        (λ o t f e.
          let same =
            field-first_with (text "key_id") tag o (ap (first_with (text "key_id")) t ∙ first) in
          absurd (ground (arith, referred o (same ∙ e))))
        os typed (any-false (uses k) os h)

  not_found-delete :
      BboltLaws b
      → (ids : List ℤ) (props : ObjectProps) (id : ObjectId) (d d' : D)
      → (if b.has_bucket (make_bucket_id props ids) d
          then b.remove (make_bucket_id props ids) (to_bytes id) d
          else err not_found)
        ≡ ok d'
      → get_object b codec ids props id d' ≡ err not_found
  unfolding get_object
  not_found-delete laws ids props id d d' h =
      elim (Bool-cases (b.has_bucket (make_bucket_id props ids) d)) [
        | inr e ↦ absurd (ground arith)
        | inl e ↦ elim (Bool-cases (b.has_bucket (make_bucket_id props ids) d')) [
          | inr k ↦ rw k refl
          | inl k ↦
              rw
                (
                  k,
                  laws.get-remove (make_bucket_id props ids) (to_bytes id) d d'
                      (make_bucket_id props ids) (to_bytes id) (ground arith),
                  text_eq_self (make_bucket_id props ids),
                  text_eq_self (to_bytes id),
                )
                refl
        ]
      ]

  -- The tables of templates, inventories and repositories hold objects of their types.
  abbrev pub TypedTables : (ObjectProps → List Object) → Type 0
  TypedTables os =
      Typed template_tags (os template_props)
      × Typed inventory_tags (os inventory_props)
      × Typed repository_tags (os repository_props)

  -- Where the tables of a project hold the given objects of their types, an access key, whose ID
  -- is not 0, that deleteObject removes is the vault key of no template, the login key of no
  -- inventory and the key of no repository of the project in the committed file, and is not found
  -- again; the become keys of the inventories are not looked at, and the file is supposed to keep
  -- to its laws.
  pub delete_access_key-unused :
      BboltLaws b
      → (project k : ℤ) (os : ObjectProps → List Object) (committed d d' : D) → k ≢ pos 0
      → TablesHold codec b (project ∷ []) os (referring_props codec b) committed
      → TypedTables os
      → delete_object codec b (project ∷ []) access_key_props (int_object_id k) committed d ≡ ok d'
      → NoneHolds (text "vault_key_id") (pointer_value (some k)) (os template_props)
        × NoneHolds (text "ssh_key_id") (pointer_value (some k)) (os inventory_props)
        × NoneHolds (text "ssh_key_id") (int_value k) (os repository_props)
        × (get_object b codec (project ∷ []) access_key_props (int_object_id k) d' ≡ err not_found)
  unfolding delete_object first_with has_suffix text_eq
  delete_access_key-unused laws project k os committed d d' n held typed h =
      bind-eq-ok _
        (refuse_use codec b (project ∷ []) access_key_props (int_object_id k)
          (referring_props codec b) committed)
        (λ u.
          if b.has_bucket (make_bucket_id access_key_props (project ∷ [])) d
          then b.remove (make_bucket_id access_key_props (project ∷ []))
              (to_bytes (int_object_id k)) d
          else err not_found)
        {b = d'}
        (λ u e f.
          let q =
            sym (
              refuse_use-eq codec b (project ∷ []) access_key_props (int_object_id k) os
                (referring_props codec b) committed held)
            ∙ e in
          (
            unused k (text "vault_key_id") (pointer_value (some k)) template_tags
                (os template_props) refl (pointer-referred k) typed.0 (ground arith),
            unused k (text "ssh_key_id") (pointer_value (some k)) inventory_tags
                (os inventory_props) refl (pointer-referred k) typed.1 (ground arith),
            unused k (text "ssh_key_id") (int_value k) repository_tags (os repository_props) refl
                (λ o. int-referred k o n) typed.2 (ground arith),
            not_found-delete laws (project ∷ []) access_key_props (int_object_id k) d d' f,
          ))
        h
