-- ===== src/Bolt/Sessions/Expired.antt =====
-- What becomes of a token or a session that has expired (db/bolt/session.go).
use contribute_semaphore.Base.{
  ◌≡◌, refl, sym, ap, ◌∙◌, inl, inr, Bool, true, false, Option, none, some, List, [], ◌∷◌, arith,
}
use contribute_semaphore.Base.Tests.{Bool-cases}
use contribute_semaphore.Base.Int.{ℤ, pos}
use contribute_semaphore.Base.Text.{Text, text, text_eq, eq_of_text_eq}
use contribute_semaphore.Bolt.Database.{Bbolt, BboltLaws, Codec, CodecLaws, stored}
use contribute_semaphore.Bolt.Object.{
  Object, ObjectId, int_object_id, str_object_id, to_bytes, Value, int_value, string_value,
  field_by_tag_suffix, tags, has_suffix,
}
use contribute_semaphore.Bolt.Objects.{get_object, update_object_tx, id_of_value, make_bucket_id}
use contribute_semaphore.Bolt.Props.{ObjectProps}
use contribute_semaphore.Bolt.Reading.{get_object-update}
use contribute_semaphore.Bolt.Sessions.{
  session_props, session_tags, token_props, api_token_tags, global_token_object, field, with_field,
  int_of, true_value, get_api_token, expire_api_token, get_session, expire_session,
}
use contribute_semaphore.Model.Store.{Result, ok, err, not_found, ◌>>=◌, bind-eq-ok}

pub tags-with_field : (tag : Text) (v : Value) (o : Object) → tags (with_field tag v o) ≡ tags o
tags-with_field tag v [] = refl
tags-with_field tag v ((t, w) ∷ o) = ap (◌∷◌ t) (tags-with_field tag v o)

-- The primary column is another one.
pub id-with_field :
    (tag : Text) (v : Value) (o : Object)
    → has_suffix tag (text "id") ≡ false
    → field_by_tag_suffix (text "id") (with_field tag v o) ≡ field_by_tag_suffix (text "id") o
unfolding field_by_tag_suffix
id-with_field tag v [] h = refl
id-with_field tag v ((t, w) ∷ o) h = elim (Bool-cases (text_eq t tag)) [
  | inl e ↦ ground (arith, e, h, eq_of_text_eq t tag e, id-with_field tag v o h)
  | inr n ↦ ground (arith, n, id-with_field tag v o h)
]

module _ {D : Type 0} (b : Bbolt D) (codec : Codec) (laws : BboltLaws b)
    (codecs : CodecLaws codec) where
  -- An update leaves the other buckets alone.
  get_object-update_other :
      (ids js : List ℤ) (props others : ObjectProps) (id : ObjectId) (o : Object) (d d' : D)
      → text_eq (make_bucket_id props ids) (make_bucket_id others js) ≡ false
      → update_object_tx b codec ids props o d ≡ ok d'
      → get_object b codec js others id d' ≡ get_object b codec js others id d
  unfolding update_object_tx get_object
  get_object-update_other ids js props others id o d d' ne h =
      go (b.has_bucket bucket d) (field_by_tag_suffix props.primary_column_name o) refl refl
    where
      bucket : Text
      bucket = make_bucket_id props ids

      same : D → Type 0
      same f = get_object b codec js others id f ≡ get_object b codec js others id d

      put : (k s : Text) → b.put bucket k s d ≡ ok d' → same d'
      put k s p = ground (
        arith,
        ne,
        laws.has_bucket-put bucket k s d d' (make_bucket_id others js) p,
        laws.get-put bucket k s d d' (make_bucket_id others js) (to_bytes id) p,
      )

      write :
          (i : ObjectId) (y : Option Text)
          → b.get bucket (to_bytes i) d ≡ y
          → (elim y as (λ z. Result D) [
            | none ↦ err not_found
            | some old ↦ codec.marshal_object o >>= λ str. b.put bucket (to_bytes i) str d
          ])
            ≡ ok d'
          → same d'
      write i none q r = absurd (cc)
      write i (some old) q r =
          bind-eq-ok (same d') (codec.marshal_object o) _ {b = d'}
            (λ str m p. put (to_bytes i) str p) r

      named :
          (v : Value) (j : Option ObjectId)
          → field_by_tag_suffix props.primary_column_name o ≡ some v
          → b.has_bucket bucket d ≡ true
          → id_of_value v ≡ j
          → same d'
      named v none f q e = absurd (ground arith)
      named v (some i) f q e = write i (b.get bucket (to_bytes i) d) refl (ground arith)

      go :
          (x : Bool) (f : Option Value)
          → b.has_bucket bucket d ≡ x
          → field_by_tag_suffix props.primary_column_name o ≡ f
          → same d'
      go false f p q = absurd (ground arith)
      go true none p q = absurd (ground arith)
      go true (some v) p q = named v (id_of_value v) q p refl

  -- The token is read with the mark, as JSON keeps it.
  pub get_api_token-expire :
      (user_id : ℤ) (token_id : Text) (g token : Object) (d d' : D)
      → get_object b codec (pos 0 ∷ []) global_token_object (str_object_id token_id) d ≡ ok g
      → int_of (field (text "user_id") g) ≡ user_id
      → get_object b codec (user_id ∷ []) token_props (str_object_id token_id) d ≡ ok token
      → api_token_tags ≡ tags token
      → field_by_tag_suffix (text "id") token ≡ some (string_value token_id)
      → expire_api_token b codec user_id token_id d ≡ ok d'
      → get_api_token b codec token_id d'
        ≡ ok (stored codec (with_field (text "expired") true_value token))
  unfolding get_api_token expire_api_token
  get_api_token-expire user_id token_id g token d d' found own t shape i h =
      let marked = with_field (text "expired") true_value token in
      let w : update_object_tx b codec (user_id ∷ []) token_props marked d ≡ ok d' =
        ground (arith, t) in
      let there =
        get_object-update_other (user_id ∷ []) (pos 0 ∷ []) token_props global_token_object
          (str_object_id token_id) marked d d' (unfold make_bucket_id text_eq in refl) w in
      let read =
        get_object-update b codec laws codecs (user_id ∷ []) token_props (str_object_id token_id)
          (string_value token_id) marked d d'
          (shape ∙ sym (tags-with_field (text "expired") true_value token))
          (id-with_field (text "expired") true_value token (unfold has_suffix text_eq in refl) ∙ i)
          (unfold id_of_value in refl) w in
      ground (arith, there, found, own, read)

  pub get_session-expire :
      (user_id session_id : ℤ) (session : Object) (d d' : D)
      → get_session b codec user_id session_id d ≡ ok session
      → session_tags ≡ tags session
      → field_by_tag_suffix (text "id") session ≡ some (int_value session_id)
      → expire_session b codec user_id session_id d ≡ ok d'
      → get_session b codec user_id session_id d'
        ≡ ok (stored codec (with_field (text "expired") true_value session))
  unfolding get_session expire_session
  get_session-expire user_id session_id session d d' found shape i h =
      let marked = with_field (text "expired") true_value session in
      get_object-update b codec laws codecs (user_id ∷ []) session_props (int_object_id session_id)
        (int_value session_id) marked d d'
        (shape ∙ sym (tags-with_field (text "expired") true_value session))
        (id-with_field (text "expired") true_value session (unfold has_suffix text_eq in refl) ∙ i)
        (unfold id_of_value in refl) (ground (arith, found))
