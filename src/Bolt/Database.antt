-- ===== src/Bolt/Database.antt =====
-- What db/bolt asks of the database file (package bbolt) and of package encoding/json.
use contribute_semaphore.Base.{ℕ, ◌≡◌, Bool, true, List, [], ◌∷◌, Option, some, ◌&&◌}
use contribute_semaphore.Base.Tests.{if◌then◌else◌}
use contribute_semaphore.Base.Text.{Text, text_eq}
use contribute_semaphore.Bolt.Object.{
  Object, Value, int_value, string_value, pointer_value, other_value, tags,
}
use contribute_semaphore.Model.Store.{Result, ok}

-- A transaction on a file: named buckets of keys and values, and a counter for each bucket. The
-- cursor runs through a bucket in the order of the keys.
pub record Bbolt (D : Type 0) : Type 0 where
  pub has_bucket : Text → D → Bool
  pub create_bucket_if_not_exists : Text → D → Result D
  pub get : Text → Text → D → Option Text
  pub cursor : Text → D → List (Text × Text)
  pub put : Text → Text → Text → D → Result D
  pub remove : Text → Text → D → Result D
  pub next_sequence : Text → D → Result (ℕ × D)

-- What the code relies on: a value that is put is read back, and nothing else changes.
pub record BboltLaws {D : Type 0} (b : Bbolt D) : Type 0 where
  pub get-put :
      (bucket key value : Text) (d d' : D) (bucket' key' : Text)
      → b.put bucket key value d ≡ ok d'
      → b.get bucket' key' d'
        ≡ (if text_eq bucket bucket' && text_eq key key' then some value else b.get bucket' key' d)
  pub has_bucket-put :
      (bucket key value : Text) (d d' : D) (bucket' : Text)
      → b.put bucket key value d ≡ ok d'
      → b.has_bucket bucket' d' ≡ b.has_bucket bucket' d
  pub get-remove :
      (bucket key : Text) (d d' : D) (bucket' key' : Text)
      → b.remove bucket key d ≡ ok d'
      → b.get bucket' key' d'
        ≡ (if text_eq bucket bucket' && text_eq key key' then Option.none else b.get bucket' key' d)
  pub has_bucket-create :
      (bucket : Text) (d d' : D)
      → b.create_bucket_if_not_exists bucket d ≡ ok d'
      → b.has_bucket bucket d' ≡ true
  pub has_bucket-create_kept :
      (bucket : Text) (d d' : D) (bucket' : Text)
      → b.create_bucket_if_not_exists bucket d ≡ ok d'
      → b.has_bucket bucket' d ≡ true
      → b.has_bucket bucket' d' ≡ true
  pub get-create :
      (bucket : Text) (d d' : D) (bucket' key' : Text)
      → b.create_bucket_if_not_exists bucket d ≡ ok d'
      → b.get bucket' key' d' ≡ b.get bucket' key' d
  pub get-next_sequence :
      (bucket : Text) (d d' : D) (n : ℕ) (bucket' key' : Text)
      → b.next_sequence bucket d ≡ ok (n, d')
      → b.get bucket' key' d' ≡ b.get bucket' key' d
  pub has_bucket-next_sequence :
      (bucket : Text) (d d' : D) (n : ℕ) (bucket' : Text)
      → b.next_sequence bucket d ≡ ok (n, d')
      → b.has_bucket bucket' d' ≡ b.has_bucket bucket' d

-- Objects in JSON: marshalObject and unmarshalObject, which reads into a type with given tags. What
-- is no valid UTF-8 in a string is replaced; `stored_other` is what a value of the remaining kinds
-- is read back as, such as a time, whose monotonic clock is not written.
pub record Codec : Type 0 where
  pub marshal_object : Object → Result Text
  pub unmarshal_object : List Text → Text → Result Object
  pub to_valid_utf8 : Text → Text
  pub stored_other : Text → Text

abbrev pub stored_value : Codec → Value → Value
stored_value c (int_value i) = int_value i
stored_value c (string_value s) = string_value (c.to_valid_utf8 s)
stored_value c (pointer_value p) = pointer_value p
stored_value c (other_value s) = other_value (c.stored_other s)

-- What is read of an object that was written.
abbrev pub stored : Codec → Object → Object
stored c [] = []
stored c ((tag, v) ∷ o) = (tag, stored_value c v) ∷ stored c o

pub record CodecLaws (c : Codec) : Type 0 where
  pub unmarshal-marshal :
      (o : Object) (s : Text)
      → c.marshal_object o ≡ ok s
      → c.unmarshal_object (tags o) s ≡ ok (stored c o)
